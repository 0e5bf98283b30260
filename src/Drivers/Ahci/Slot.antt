-- ===== src/Drivers/Ahci/Slot.antt =====
-- The loop of find_cmdslot in drivers/ahci/ahci.c.
use ester.Prelude.{
  ℕ, zero, suc, ◌+◌, ◌/◌, ◌%◌, ◌<◌, ◌≡◌, ◌⊎◌, inl, inr, none, some, arith, ◌==◌, Bool-cases,
  Option-cases, ap, ◌∙◌,
}
use ester.Drivers.Ahci.{slot_loop}

-- `slots` without its `k` lowest bits.
abbrev pub shifted : ℕ → ℕ → ℕ
shifted zero slots = slots
shifted (suc k) slots = shifted k (slots / 2)

slot_loop-some :
    (left i slots r : ℕ)
    → slot_loop left i slots ≡ some r
    → (k : ℕ) × (r ≡ i + k)
      × (k < left)
      × (shifted k slots % 2 ≡ 0)
      × ((j : ℕ) → j < k → shifted j slots % 2 ≡ 1)
unfolding slot_loop
slot_loop-some zero i slots r h = absurd (ground arith)
slot_loop-some (suc left) i slots r h = elim (Bool-cases (slots % 2 == 0)) [
  | inl free ↦ (0, ground arith, omega arith, ground arith, λ j lt. absurd (omega arith))
  | inr used ↦
      let (k, e, lt, clear, before) = slot_loop-some left (i + 1) (slots / 2) r (ground arith) in
      (suc k, omega arith, omega arith, clear, λ j. earlier (ground arith) before j)
]
  where
    earlier :
        {k : ℕ}
        → slots % 2 ≡ 1
        → ((j : ℕ) → j < k → shifted j (slots / 2) % 2 ≡ 1)
        → (j : ℕ) → j < suc k
        → shifted j slots % 2 ≡ 1
    earlier low before zero h = low
    earlier low before (suc j) h = before j (omega arith)

slot_loop-none :
    (left i slots : ℕ)
    → slot_loop left i slots ≡ none
    → (j : ℕ) → j < left
    → shifted j slots % 2 ≡ 1
unfolding slot_loop
slot_loop-none zero i slots h j lt = absurd (omega arith)
slot_loop-none (suc left) i slots h zero lt = ground arith
slot_loop-none (suc left) i slots h (suc j) lt =
    slot_loop-none left (i + 1) (slots / 2) (ground arith) j (omega arith)

-- Over the 32 bits of `slots` the loop of find_cmdslot either fails, and all are set, or gives the
-- number of the lowest clear one.
pub slot_loop-lowest :
    (slots : ℕ)
    → ((slot_loop 32 0 slots ≡ none) × ((j : ℕ) → j < 32 → shifted j slots % 2 ≡ 1))
      ⊎ ((i : ℕ) × (slot_loop 32 0 slots ≡ some i)
          × (i < 32)
          × (shifted i slots % 2 ≡ 0)
          × ((j : ℕ) → j < i → shifted j slots % 2 ≡ 1))
slot_loop-lowest slots = elim (Option-cases (slot_loop 32 0 slots)) [
  | inl full ↦ inl (full, slot_loop-none 32 0 slots full)
  | inr (r, found) ↦
      let (k, e, lt, clear, before) = slot_loop-some 32 0 slots r found in
      inr (k, found ∙ ap (λ (t : ℕ). some t) (same r k e), lt, clear, before)
]
  where
    same : (r k : ℕ) → r ≡ 0 + k → r ≡ k
    same r k e = omega arith
