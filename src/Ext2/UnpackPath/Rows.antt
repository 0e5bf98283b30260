-- ===== src/Ext2/UnpackPath/Rows.antt =====
-- What the rows hold after a path that ends in a slash.
use ester.Prelude.{
  ℕ, zero, suc, ◌+◌, ◌-◌, ◌*◌, ◌≤◌, ◌<◌, ◌≡◌, ◌≢◌, refl, ap, ◌∙◌, ◌&&◌, some, List, [], ◌∷◌, length,
  Cells, arith, leb, ltb, if◌then◌else◌, update,
}
use mathlib.Core.Path.{subst, ap₂}
use ester.Ext2.UnpackPath.{
  Cursor, unpack_char, unpack_loop, unpack_end, unpack_dir_path, row_size, max_path_depth,
}

-- From index `i` the path holds components of these lengths, each followed by a slash, and ends.
pub data Components (path : Cells) : ℕ → List ℕ → Type 0 where
  done : {i : ℕ} → path i ≡ 0 → Components path i []
  name :
      {i l n : ℕ} {ls : List ℕ}
      → ((t : ℕ) → t < l → (path (i + t) ≢ 0) × (path (i + t) ≢ b'/'))
      → path (i + l) ≡ b'/'
      → l < row_size
      → n ≡ i + l + 1
      → Components path n ls
      → Components path i (l ∷ ls)

-- The bytes that those components take in the path.
abbrev pub span : List ℕ → ℕ
span [] = 0
span (l ∷ ls) = l + 1 + span ls

-- From row `j` on the rows hold the components, each terminated.
abbrev pub Unpacked : Cells → ℕ → ℕ → List ℕ → Cells → Type 0
Unpacked path i j [] rows = Unit {0}
Unpacked path i j (l ∷ ls) rows =
    ((t : ℕ) → t < l → rows (j * row_size + t) ≡ path (i + t))
    × (rows (j * row_size + l) ≡ 0)
    × Unpacked path (i + l + 1) (j + 1) ls rows

abbrev pub cursor : ℕ → ℕ → ℕ → Cells → Cursor
cursor i j k rows = record { i = i; j = j; k = k; rows = rows }

module _ (path : Cells) where
  -- One character of a name.
  loop_char :
      (fuel i j k : ℕ) (rows : Cells)
      → path i ≢ 0
      → path i ≢ b'/'
      → j * row_size + k < max_path_depth * row_size
      → unpack_loop (suc fuel) path (cursor i j k rows)
        ≡ unpack_loop fuel path (cursor (i + 1) j (k + 1) (update rows (j * row_size + k) (path i)))
  unfolding unpack_loop unpack_char
  loop_char fuel i j k rows nz ns room = ground arith

  -- The slash after a name that is not the first row.
  loop_slash :
      (fuel i j k : ℕ) (rows : Cells)
      → path i ≡ b'/'
      → 0 < j
      → j * row_size + k < max_path_depth * row_size
      → unpack_loop (suc fuel) path (cursor i j k rows)
        ≡ unpack_loop fuel path (
            cursor
              (i + 1)
              (j + 1)
              0
              (update (update rows (j * row_size + k) (path i)) (j * row_size + k) 0))
  unfolding unpack_loop unpack_char
  loop_slash fuel i j k rows sl pos room = ground arith

  pub loop_name :
      (left fuel start i j k last col : ℕ) (rows : Cells)
      → start ≡ left + fuel
      → last ≡ i + left
      → col ≡ k + left
      → ((t : ℕ) → t < left → (path (i + t) ≢ 0) × (path (i + t) ≢ b'/'))
      → j * row_size + k + left < max_path_depth * row_size
      → (rows' : Cells) × (unpack_loop start path (cursor i j k rows)
          ≡ unpack_loop fuel path (cursor last j col rows'))
        × ((a : ℕ)
            → rows' a ≡ (
                if leb (j * row_size + k) a && ltb a (j * row_size + k + left)
                then path (i + (a - (j * row_size + k)))
                else rows a))
  loop_name zero fuel start i j k last col rows es el ec chars room =
      (rows, ground arith, λ a. ground arith)
  loop_name (suc left) fuel start i j k last col rows es el ec chars room =
      let (rows', e, get) =
        loop_name left fuel (left + fuel) (i + 1) j (k + 1) last col
          (update rows (j * row_size + k) (path i)) refl (omega arith) (omega arith)
          (λ t h. shifted t h) (omega arith) in
      (
        rows',
        ap (λ (f : ℕ). unpack_loop f path (cursor i j k rows)) one_more
            ∙ loop_char (left + fuel) i j k rows here.0 here.1 (omega arith)
            ∙ e,
        λ a. ground (arith, get a),
      )
    where
      one_more : start ≡ suc (left + fuel)
      one_more = omega arith

      here : (path i ≢ 0) × (path i ≢ b'/')
      here = let at : i + 0 ≡ i = omega arith in rw at at (chars 0 (omega arith))

      shifted : (t : ℕ) → t < left → (path (i + 1 + t) ≢ 0) × (path (i + 1 + t) ≢ b'/')
      shifted t h =
          let at : i + 1 + t ≡ i + suc t = omega arith in rw at (chars (suc t) (omega arith))

  -- All the components from row `j` on, and nothing in the rows above.
  loop-Components :
      (ls : List ℕ) (fuel start i j : ℕ) (rows : Cells)
      → Components path i ls
      → 0 < j
      → j + length ls ≤ max_path_depth
      → start ≡ span ls + suc fuel
      → (rows' : Cells) × (unpack_loop start path (cursor i j 0 rows)
          ≡ some (cursor (i + span ls) (j + length ls) 0 rows'))
        × Unpacked path i j ls rows'
        × ((a : ℕ) → a < j * row_size → rows' a ≡ rows a)
  unfolding unpack_loop
  loop-Components [] fuel start i j rows (done ended) pos room es =
      (rows, ground arith, tt, λ a h. refl)
  loop-Components (l ∷ ls) fuel start i j rows (name chars slash short en rest) pos room es =
      let (rows1, e1, get1) =
        loop_name l (suc (span ls + suc fuel)) start i j 0 (i + l) l rows (omega arith) refl
          (omega arith) chars (omega arith) in
      let rows2 : Cells =
        update (update rows1 (j * row_size + l) (path (i + l))) (j * row_size + l) 0 in
      let e2 = loop_slash (span ls + suc fuel) (i + l) j l rows1 slash pos (omega arith) in
      let (rows', e3, below, frame) =
        loop-Components ls fuel (span ls + suc fuel) (i + l + 1) (j + 1) rows2
          (subst (λ x. Components path x ls) en rest) (omega arith) (omega arith) refl in
      (
        rows',
        e1 ∙ e2 ∙ e3 ∙ ap₂ (λ x y. some (cursor x y 0 rows')) (omega arith) (omega arith),
        (
          λ t h. ground (arith, frame (j * row_size + t), get1 (j * row_size + t)),
          ground (arith, frame (j * row_size + l)),
          below,
        ),
        λ a h. ground (arith, frame a, get1 a),
      )

  span-le : (ls : List ℕ) (i : ℕ) → Components path i ls → span ls ≤ length ls * row_size
  span-le [] i c = omega arith
  span-le (l ∷ ls) i (name chars slash short en rest) = omega (arith, span-le ls _ rest)

  slash_before_end :
      (ls : List ℕ) (i n : ℕ)
      → Components path i ls
      → n + 1 ≡ i + span ls
      → ((m : ℕ) → m + 1 ≡ i → path m ≡ b'/')
      → path n ≡ b'/'
  slash_before_end [] i n c e before = before n (omega arith)
  slash_before_end (l ∷ ls) i n (name {n = next} chars slash short en rest) e before =
      slash_before_end ls next n rest (omega arith)
        (λ m h. let at : m ≡ i + l = omega arith in rw at slash)

  -- The first round: the root's slash is row 0.
  pub loop_root :
      (fuel : ℕ) (rows : Cells)
      → path 0 ≡ b'/'
      → unpack_loop (suc fuel) path (cursor 0 0 0 rows)
        ≡ unpack_loop fuel path (cursor 1 1 0 (update (update rows 0 b'/') 1 0))
  unfolding unpack_loop unpack_char
  loop_root fuel rows root = ground arith

  -- For a path that starts with a slash and goes on with at most nine names of at most 256
  -- characters, each followed by a slash, unpack_dir_path stores within the array, returns one
  -- more than the number of names, and leaves "/" in row 0 and each name in its row, terminated.
  pub unpack_dir_path-Unpacked :
      (ls : List ℕ) (rows : Cells)
      → path 0 ≡ b'/'
      → Components path 1 ls
      → 1 + length ls ≤ max_path_depth
      → (rows' : Cells) × (unpack_dir_path path rows ≡ some (1 + length ls, rows'))
        × (rows' 0 ≡ b'/')
        × (rows' 1 ≡ 0)
        × Unpacked path 1 1 ls rows'
  unfolding unpack_dir_path unpack_end
  unpack_dir_path-Unpacked ls rows root names deep =
      let small = span-le ls 1 names in
      let (rows', e, below, frame) =
        loop-Components ls (2569 - span ls) 2570 1 1 (update (update rows 0 b'/') 1 0) names
          (omega arith) deep (omega (arith, small)) in
      (
        rows',
        rw (loop_root 2570 rows root, e)
            (ground (
              arith,
              slash_before_end ls 1 (span ls) names (omega arith)
                  (λ m h. let at : m ≡ 0 = omega arith in rw at root),
              small,
            )),
        frame 0 (omega arith),
        frame 1 (omega arith),
        below,
      )
