-- ===== src/Ext2/UnpackPath/Last.antt =====
-- A path with no slash at its end: how its last name is stored.
use ester.Prelude.{ℕ, zero, suc, ◌+◌, ◌-◌, ◌<◌, ◌≡◌, ◌≢◌, refl, some, Cells, arith, update}
use ester.Ext2.UnpackPath.{put, unpack_loop, unpack_end, unpack_dir_path, row_size}
use ester.Ext2.UnpackPath.Rows.{cursor, loop_root, loop_name}

module _ (path : Cells) where
  loop_stop :
      (fuel i j k : ℕ) (rows : Cells)
      → path i ≡ 0
      → unpack_loop (suc fuel) path (cursor i j k rows) ≡ some (cursor i j k rows)
  unfolding unpack_loop
  loop_stop fuel i j k rows end = ground arith

  -- For a path that is a slash and then one name of `l` characters, with no slash behind it,
  -- unpack_dir_path returns 2 and stores the name in row 1; but the byte behind the name keeps
  -- the value that it had before the call, and the terminator comes one byte later.
  pub unpack_dir_path-stale :
      (l : ℕ) (rows : Cells)
      → path 0 ≡ b'/'
      → ((t : ℕ) → t < l → (path (1 + t) ≢ 0) × (path (1 + t) ≢ b'/'))
      → path (1 + l) ≡ 0
      → 0 < l
      → l < row_size
      → (rows' : Cells) × (unpack_dir_path path rows ≡ some (2, rows'))
        × ((t : ℕ) → t < l → rows' (row_size + t) ≡ path (1 + t))
        × (rows' (row_size + l) ≡ rows (row_size + l))
        × (rows' (row_size + l + 1) ≡ 0)
  unfolding unpack_dir_path unpack_end put
  unpack_dir_path-stale l rows root chars end pos short =
      let rows0 : Cells = update (update rows 0 b'/') 1 0 in
      let (rows1, e, get) =
        loop_name path l (suc (2569 - l)) 2570 1 1 0 (1 + l) l rows0 (omega arith) refl
          (omega arith) chars (omega arith) in
      let last : path (1 + l - 1) ≢ b'/' = before_end l pos chars in
      (
        update rows1 (row_size + l + 1) 0,
        rw (loop_root path 2570 rows root, e, loop_stop (2569 - l) (1 + l) 1 l rows1 end)
            (ground (arith, last)),
        λ t h. ground (arith, get (row_size + t)),
        ground (arith, get (row_size + l)),
        ground arith,
      )
    where
      before_end :
          (n : ℕ)
          → 0 < n
          → ((t : ℕ) → t < n → (path (1 + t) ≢ 0) × (path (1 + t) ≢ b'/'))
          → path (1 + n - 1) ≢ b'/'
      before_end zero p c = absurd (omega arith)
      before_end (suc n) p c =
          let at : 1 + suc n - 1 ≡ 1 + n = omega arith in rw at (c n (omega arith)).1
