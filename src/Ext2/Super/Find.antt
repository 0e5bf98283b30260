-- ===== src/Ext2/Super/Find.antt =====
-- The search of both allocators: the lowest clear bit of the map below the bound.
use ester.Prelude.{
  ℕ, zero, suc, ◌+◌, ◌≤◌, ◌<◌, ◌≡◌, inl, inr, true, false, none, some, Cells, arith, Bool-cases,
}
use ester.Prelude.Bits.{is_clear}
use ester.Ext2.Super.{find_clear}

pub record IsLowest (map : Cells) (lo hi k : ℕ) : Type 0 where
  pub above : lo ≤ k
  pub below : k < hi
  pub clear : is_clear map k ≡ true
  pub used_before : (j : ℕ) → lo ≤ j → j < k → is_clear map j ≡ false

pub find_clear-some :
    (left i hi : ℕ) (map : Cells) {k : ℕ}
    → i + left ≡ hi
    → find_clear left i map ≡ some k
    → IsLowest map i hi k
unfolding find_clear
find_clear-some zero i hi map e h = absurd (ground arith)
find_clear-some (suc left) i hi map {k} e h = elim (Bool-cases (is_clear map i)) [
  | inl free ↦
      let at : i ≡ k = ground arith in
      record {
        above = omega arith;
        below = omega arith;
        clear = ground arith;
        used_before = λ j p q. absurd (omega arith);
      }
  | inr used ↦
      let rest : IsLowest map (i + 1) hi k =
        find_clear-some left (i + 1) hi map (omega arith) (ground arith) in
      record {
        above = omega (arith, rest.above);
        below = rest.below;
        clear = rest.clear;
        used_before = λ j p q. ground (arith, rest.used_before j);
      }
]

pub find_clear-none :
    (left i hi : ℕ) (map : Cells) (j : ℕ)
    → i + left ≡ hi
    → find_clear left i map ≡ none
    → i ≤ j
    → j < hi
    → is_clear map j ≡ false
unfolding find_clear
find_clear-none zero i hi map j e h p q = absurd (omega arith)
find_clear-none (suc left) i hi map j e h p q =
    ground (arith, find_clear-none left (i + 1) hi map j)
