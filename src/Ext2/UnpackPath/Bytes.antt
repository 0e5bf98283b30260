-- ===== src/Ext2/UnpackPath/Bytes.antt =====
-- The bytes that unpack_dir_path of fs/ext2/directory.c leaves in the rows.
use ester.Prelude.{
  ℕ, zero, suc, ◌<◌, ◌≡◌, inl, inr, some, Option-cases, Bool-cases, Cells, arith, ◌==◌,
}
use ester.Ext2.UnpackPath.{
  Cursor, put, close_row, unpack_char, unpack_loop, unpack_end, unpack_dir_path,
}

abbrev pub AreBytes : Cells → Type 0
AreBytes b = (a : ℕ) → b a < 256

module _ (path : Cells) (bytes : AreBytes path) where
  unpack_char-AreBytes :
      (c c' : Cursor) → unpack_char path c ≡ some c' → AreBytes c.rows → AreBytes c'.rows
  unfolding unpack_char put close_row
  unpack_char-AreBytes c c' e h a = ground (arith, bytes c.i, h a)

  unpack_loop-AreBytes :
      (fuel : ℕ) (c c' : Cursor)
      → unpack_loop fuel path c ≡ some c'
      → AreBytes c.rows
      → AreBytes c'.rows
  unfolding unpack_loop
  unpack_loop-AreBytes zero c c' e h = absurd (ground arith)
  unpack_loop-AreBytes (suc fuel) c c' e h = elim (Bool-cases (path c.i == 0)) [
    | inl ended ↦ λ a. ground (arith, rw (ended, unpack_loop) at e, h a)
    | inr goes_on ↦ elim (Option-cases (unpack_char path c)) [
      | inl stuck ↦ absurd (ground (arith, rw (goes_on, stuck, unpack_loop) at e))
      | inr (c1, moved) ↦
          unpack_loop-AreBytes fuel c1 c' (rw (goes_on, moved, unpack_loop) at e)
            (unpack_char-AreBytes c c1 moved h)
    ]
  ]

  unpack_end-AreBytes :
      (c : Cursor) (depth : ℕ) (rows : Cells)
      → unpack_end path c ≡ some (depth, rows)
      → AreBytes c.rows
      → AreBytes rows
  unfolding unpack_end put
  unpack_end-AreBytes c depth rows e h a = ground (arith, h a)

  pub unpack_dir_path-AreBytes :
      (old rows : Cells) (depth : ℕ)
      → unpack_dir_path path old ≡ some (depth, rows)
      → AreBytes old
      → AreBytes rows
  unfolding unpack_dir_path
  unpack_dir_path-AreBytes old rows depth e h =
      let start : Cursor = record { i = 0; j = 0; k = 0; rows = old } in
      elim (Option-cases (unpack_loop 2571 path start)) [
        | inl stuck ↦ absurd (ground (arith, rw (stuck, unpack_dir_path) at e))
        | inr (c, looped) ↦
            unpack_end-AreBytes c depth rows (rw (looped, unpack_dir_path) at e)
              (unpack_loop-AreBytes 2571 start c looped h)
      ]
