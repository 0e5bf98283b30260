-- ===== src/Ext2/Lookup/First.antt =====
-- One component of a path: strcmp of names, and the search in a directory.
use ester.Prelude.{
  ℕ, zero, suc, ◌+◌, ◌-◌, ◌≤◌, ◌<◌, ◌≡◌, ◌≢◌, ◌^◌, ◌↔◌, inl, inr, ap, true, some, Cells, arith,
  ◌==◌, Bool, Bool-cases,
}
use native.Mathlib.Decide.{ℕ_discrete}
use ester.Kernel.Str.{IsString}
use ester.Kernel.Str.Compare.{SameString, strcmp-zero_iff}
use ester.Ext2.Layout.{BlockDevice}
use ester.Ext2.Super.{Fs}
use ester.Ext2.Directory.{Entries, ext2_list_directory}
use ester.Ext2.Lookup.{far, side_by_side, same_name, found_or, match_entry, Walker, step_into}

-- A name of `n` characters, in bytes.
pub record IsName (s : Cells) (n : ℕ) : Type 0 where
  pub string : IsString s 0 n
  pub short : n < 2 ^ 32
  pub bytes : (i : ℕ) → s i < 256

-- Two names with the same characters.
abbrev pub IsSameName : Cells → ℕ → Cells → ℕ → Type 0
IsSameName a n b k = (n ≡ k) × ((i : ℕ) → i < n → a i ≡ b i)

module _ (a b : Cells) (n k : ℕ) (ha : IsName a n) (hb : IsName b k) where
  left-IsString : IsString (side_by_side a b) 0 n
  left-IsString = record {
    ends = ground (arith, ha.string.ends, ha.short);
    inside = λ i h. ground (arith, ha.string.inside i, ha.short);
  }

  right-IsString : IsString (side_by_side a b) far k
  right-IsString = record {
    ends = right_get k hb.string.ends;
    inside = λ i h. right_ne i (hb.string.inside i h);
  }
    where
      right_get : (i : ℕ) → b (0 + i) ≡ 0 → side_by_side a b (far + i) ≡ 0
      right_get i e = let back : far + i - far ≡ 0 + i = omega arith in rw back (ground arith)

      right_ne : (i : ℕ) → b (0 + i) ≢ 0 → side_by_side a b (far + i) ≢ 0
      right_ne i e = let back : far + i - far ≡ 0 + i = omega arith in rw back (ground arith)

  same_chars_iff : SameString (side_by_side a b) 0 far n k ↔ IsSameName a n b k
  same_chars_iff = (
    λ s. (s.same_length, λ i h. there s i h),
    λ s. record { same_length = s.0; same_chars = λ i h. back s i h },
  )
    where
      there : SameString (side_by_side a b) 0 far n k → (i : ℕ) → i < n → a i ≡ b i
      there s i h =
          let here : far + i - far ≡ i = omega arith in
          ground (arith, s.same_chars i h, ap b here, ha.short)

      back :
          IsSameName a n b k
          → (i : ℕ) → i < n
          → side_by_side a b (0 + i) ≡ side_by_side a b (far + i)
      back s i h =
          let here : far + i - far ≡ i = omega arith in ground (arith, s.1 i h, ap b here, ha.short)

  pub same_name_iff : (e : Bool) × (same_name a b ≡ some e) × ((e ≡ true) ↔ IsSameName a n b k)
  unfolding same_name
  same_name_iff =
      let (r, ran, zero_iff, _) =
        strcmp-zero_iff (side_by_side a b) 0 far n k left-IsString right-IsString
          (λ i. ground (arith, ha.bytes i, hb.bytes (i - far))) ha.short in
      (
        r == 0,
        rw ran,
        (
          λ e. same_chars_iff.0 (zero_iff.0 (ground arith)),
          λ s. let z : r ≡ 0 = zero_iff.1 (same_chars_iff.1 s) in ground arith,
        ),
      )

-- The entries from 0 to `count` have names, of these lengths.
abbrev pub HasNames : Entries → (ℕ → ℕ) → ℕ → Type 0
HasNames entries lens count = (j : ℕ) → j < count → IsName (entries j).dir_name (lens j)

match_entry-first :
    (left j t n : ℕ) (name : Cells) (entries : Entries) (lens : ℕ → ℕ)
    → IsName name n
    → HasNames entries lens (j + left)
    → j ≤ t
    → t < j + left
    → ((k : ℕ) → k < t → ¬ IsSameName name n (entries k).dir_name (lens k))
    → IsSameName name n (entries t).dir_name (lens t)
    → match_entry left j name entries ≡ some (some (entries t).dir_inode)
unfolding match_entry found_or
match_entry-first zero j t n name entries lens hn hs lo hi before here = absurd (omega arith)
match_entry-first (suc left) j t n name entries lens hn hs lo hi before here =
    let (e, ran, iff) =
      same_name_iff name (entries j).dir_name n (lens j) hn (hs j (omega arith)) in
    elim (ℕ_discrete j t) [
      | yes at ↦
          let equal : e ≡ true = iff.1 (rw at here) in
          rw (ran, equal) (ap (λ (i : ℕ). some (some (entries i).dir_inode)) at)
      | no other ↦ elim (Bool-cases e) [
        | inl equal ↦ absurd (before j (omega arith) (iff.0 equal))
        | inr unequal ↦
            rw (ran, unequal)
              (match_entry-first left (j + 1) t n name entries lens hn (λ i h. hs i (omega arith))
                (omega arith) (omega arith) before here)
      ]
    ]

module _ {D : Type 0} (dev : BlockDevice D) (fs : Fs D) where
  pub step_into-entry :
      (t n count : ℕ) (name current' : Cells) (w : Walker) (entries' : Entries) (lens : ℕ → ℕ)
      → ext2_list_directory dev fs w.inode_num w.current w.entries
        ≡ some (count, entries', current')
      → IsName name n
      → HasNames entries' lens count
      → t < count
      → ((k : ℕ) → k < t → ¬ IsSameName name n (entries' k).dir_name (lens k))
      → IsSameName name n (entries' t).dir_name (lens t)
      → step_into dev fs name w
        ≡ some
            (record { inode_num = (entries' t).dir_inode; current = current'; entries = entries' })
  unfolding step_into
  step_into-entry t n count name current' w entries' lens listed hn hs lt before here = rw (
    listed,
    match_entry-first count 0 t n name entries' lens hn (λ j h. hs j (omega arith)) (omega arith)
        (omega arith) before here,
  )
