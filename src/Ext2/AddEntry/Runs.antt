-- ===== src/Ext2/AddEntry/Runs.antt =====
-- The entries of a directory's block before and after a new one is added behind the last.
use ester.Prelude.{
  ℕ, zero, suc, ◌+◌, ◌%◌, ◌^◌, ◌≤◌, ◌<◌, ◌≡◌, ◌≢◌, ◌⊎◌, inl, inr, refl, ap, some, Cells, arith,
  List, [], ◌∷◌, ◌++◌, length, get_elem?,
}
use ester.Ext2.Layout.{get16, get32}
use ester.Ext2.Layout.Fields.{get16_ext, get32_ext}
use ester.Ext2.Directory.{max_subdirs}
use ester.Ext2.Directory.List.{Chain}
use ester.Ext2.AddEntry.{append_entry, entry_size, Walk, walk_block}
use ester.Ext2.AddEntry.Effect.{new_at}

-- The name of the entry at `o` ends in front of `limit`.
abbrev NameEnds : Cells → ℕ → ℕ → Type 0
NameEnds b o limit = o + 8 + b (o + 6) ≤ limit

-- From `o` on, entries with inodes lie one behind the other in the block: at the offsets of the
-- list and, as the last one, at `last`. The names end in front of the next entry, that of the last
-- one in front of `limit`, and the last entry's size leads to the end of the block.
abbrev pub Run : ℕ → Cells → ℕ → ℕ → ℕ → List ℕ → Type 0
Run bs b limit last o [] =
    (last ≡ o) × (o < bs) × (get32 b o ≢ 0) × (o + get16 b (o + 4) ≡ bs) × NameEnds b o limit
Run bs b limit last o (x ∷ xs) =
    (x ≡ o)
    × (o + get16 b (o + 4) < bs)
    × (get32 b o ≢ 0)
    × NameEnds b o (o + get16 b (o + 4))
    × Run bs b limit last (o + get16 b (o + 4)) xs

module _ (bs : ℕ) (b : Cells) (limit last : ℕ) (small : bs < 2 ^ 16) where
  Run-last : (o : ℕ) (os : List ℕ) → Run bs b limit last o os → (o ≤ last) × (last < bs)
  Run-last o [] (at, inside, used, ends, name) = (omega arith, omega arith)
  Run-last o (x ∷ xs) (at, inside, used, ends, next) =
      let (le, lt) = Run-last (o + get16 b (o + 4)) xs next in (omega arith, lt)

  pub Run-last_size :
      (o : ℕ) (os : List ℕ) → Run bs b limit last o os → last + get16 b (last + 4) ≡ bs
  Run-last_size o [] (at, inside, used, ends, name) = rw at ends
  Run-last_size o (x ∷ xs) (at, inside, used, ends, next) =
      Run-last_size (o + get16 b (o + 4)) xs next

  -- The list of ext2_list_directory.
  pub Run-Chain : (o : ℕ) (os : List ℕ) → Run bs b limit last o os → Chain bs b o (os ++ last ∷ [])
  Run-Chain o [] (at, inside, used, ends, name) = (at, inside, used, inl (omega arith))
  Run-Chain o (x ∷ xs) (at, inside, used, ends, next) =
      let e : (o + get16 b (o + 4)) % 2 ^ 32 ≡ o + get16 b (o + 4) = omega arith in
      (at, omega arith, used, rw e (Run-Chain (o + get16 b (o + 4)) xs next))

  -- The walk of ext2_add_dir_entry.
  pub walk_block-Run :
      (fuel o j : ℕ) (os : List ℕ) (inode_num len : ℕ) (name : Cells)
      → Run bs b limit last o os
      → j + length os < max_subdirs
      → length os < fuel
      → last + entry_size len < 2 ^ 16
      → new_at last len + 8 + len ≤ bs
      → walk_block fuel bs b o j inode_num len name
        ≡ some (Walk.appended (append_entry b last inode_num len name))
  unfolding walk_block
  walk_block-Run zero o j os inode_num len name run few enough short room = absurd (omega arith)
  walk_block-Run (suc fuel) o j [] inode_num len name (at, inside, used, ends, ended) few enough
        short room =
      rw at (ground arith)
  walk_block-Run (suc fuel) o j (x ∷ xs) inode_num len name (at, inside, used, ended, next) few
        enough short room =
      let e : (o + get16 b (o + 4)) % 2 ^ 32 ≡ o + get16 b (o + 4) = omega arith in
      let rest =
        walk_block-Run fuel (o + get16 b (o + 4)) (j + 1) xs inode_num len name next (omega arith)
          (omega arith) short room in
      ground (arith, e, rest)

-- The block `c` is the block `b` with an entry behind the one at `last`.
pub record Appended (bs : ℕ) (b c : Cells) (last at inode_num : ℕ) : Type 0 where
  pub behind : last + 8 ≤ at
  pub inside : at + 8 ≤ bs
  pub some_inode : inode_num ≢ 0
  pub leads : last + get16 c (last + 4) ≡ at
  pub number : get32 c at ≡ inode_num
  pub ends : at + get16 c (at + 4) ≡ bs
  pub kept : (k : ℕ) → (k < last + 4) ⊎ ((last + 6 ≤ k) × (k < at)) → c k ≡ b k

-- The entry at `o` has the same inode number, and the same name, in both blocks.
abbrev pub SameEntry : Cells → Cells → ℕ → Type 0
SameEntry b c o =
    (get32 c o ≡ get32 b o)
    × (c (o + 6) ≡ b (o + 6))
    × ((i : ℕ) → i < b (o + 6) → c (o + 8 + i) ≡ b (o + 8 + i))

module _ (bs : ℕ) (b c : Cells) (last at inode_num : ℕ) (small : bs < 2 ^ 16)
    (a : Appended bs b c last at inode_num) where
  front-same : (o : ℕ) → o + 8 ≤ last → get16 c (o + 4) ≡ get16 b (o + 4)
  front-same o h =
      get16_ext c b (o + 4) (o + 4) (a.kept (o + 4) (inl (omega arith)))
        (a.kept (o + 4 + 1) (inl (omega arith)))

  number-same : (o : ℕ) → o ≤ last → get32 c o ≡ get32 b o
  number-same o h = get32_ext c b o (λ k lo hi. a.kept k (inl (omega arith)))

  front-SameEntry : (o : ℕ) → o + 8 + b (o + 6) ≤ last → SameEntry b c o
  front-SameEntry o h = (
    number-same o (omega arith),
    a.kept (o + 6) (inl (omega arith)),
    λ i lt. a.kept (o + 8 + i) (inl (omega arith)),
  )

  last-SameEntry : last + 8 + b (last + 6) ≤ at → SameEntry b c last
  last-SameEntry h = (
    number-same last (omega arith),
    a.kept (last + 6) (inr (omega arith, omega arith)),
    λ i lt. a.kept (last + 8 + i) (inr (omega arith, omega arith)),
  )

  -- The list of ext2_list_directory afterwards.
  pub Run-Chain_appended :
      (o : ℕ) (os : List ℕ) → Run bs b at last o os → Chain bs c o (os ++ last ∷ at ∷ [])
  Run-Chain_appended o [] (here, inside, used, ends, name) =
      let e : (o + get16 c (o + 4)) % 2 ^ 32 ≡ at =
        omega (arith, ap (λ (k : ℕ). k + get16 c (k + 4)) here, a.leads, a.inside) in
      let f : (at + get16 c (at + 4)) % 2 ^ 32 ≡ bs = omega (arith, a.ends) in
      (
        here,
        inside,
        λ z. used (omega (arith, number-same o (omega arith))),
        rw e (
          refl,
          omega (arith, a.inside),
          λ z. a.some_inode (omega (arith, a.number)),
          rw f (inl (omega arith)),
        ),
      )
  Run-Chain_appended o (x ∷ xs) (here, inside, used, ends, next) =
      let (before, _) = Run-last bs b at last small (o + get16 b (o + 4)) xs next in
      let e : (o + get16 c (o + 4)) % 2 ^ 32 ≡ o + get16 b (o + 4) =
        omega (arith, front-same o (omega arith)) in
      (
        here,
        omega arith,
        λ z. used (omega (arith, number-same o (omega arith))),
        rw e (Run-Chain_appended (o + get16 b (o + 4)) xs next),
      )

  -- Every entry that was there stands at the same place of both lists.
  pub Run-SameEntry :
      (o t : ℕ) (os : List ℕ)
      → Run bs b at last o os
      → t < suc (length os)
      → (x : ℕ) × (get_elem? (os ++ last ∷ []) t ≡ some x)
        × (get_elem? (os ++ last ∷ at ∷ []) t ≡ some x)
        × SameEntry b c x
  Run-SameEntry o zero [] (here, inside, used, ends, name) lt =
      (last, refl, refl, last-SameEntry (omega (arith, ap (λ (k : ℕ). k + 8 + b (k + 6)) here)))
  Run-SameEntry o (suc t) [] run lt = absurd (omega arith)
  Run-SameEntry o zero (x ∷ xs) (here, inside, used, ends, next) lt =
      let (before, _) = Run-last bs b at last small (o + get16 b (o + 4)) xs next in
      (x, refl, refl, rw here (front-SameEntry o (omega arith)))
  Run-SameEntry o (suc t) (x ∷ xs) (here, inside, used, ends, next) lt =
      Run-SameEntry (o + get16 b (o + 4)) t xs next (omega arith)

  pub new-last : (os : List ℕ) → get_elem? (os ++ last ∷ at ∷ []) (suc (length os)) ≡ some at
  new-last [] = refl
  new-last (x ∷ xs) = new-last xs
