-- ===== src/Kernel/Multiboot/First.antt =====
-- What kernel/multiboot2_infostruct_parser.c finds.
use ester.Prelude.{
  ℕ, zero, suc, ◌+◌, ◌-◌, ◌*◌, ◌%◌, ◌^◌, ◌≤◌, ◌<◌, ◌≡◌, ◌≢◌, ◌⊎◌, inl, inr, arith, Option, none,
  some, Cells, ltb, ◌==◌, Bool-cases, ◌∙◌,
}
use native.Mathlib.Decide.{dec_lt}
use ester.Ext2.Layout.{get32}
use ester.Kernel.Multiboot.{parser_loop, multiboot2_parser}

-- The first word 3 among those from word `i` on that start inside the structure, or none of them.
abbrev pub FirstWord : Cells → ℕ → ℕ → Option ℕ → Type 0
FirstWord m base i r =
    ((r ≡ none) × ((k : ℕ) → i ≤ k → 4 * k < get32 m base → get32 m (base + 4 * k) ≢ 3))
    ⊎ ((k : ℕ) × (i ≤ k)
        × (r ≡ some (base + 4 * k))
        × (4 * k < get32 m base)
        × (get32 m (base + 4 * k) ≡ 3)
        × ((j : ℕ) → i ≤ j → j < k → get32 m (base + 4 * j) ≢ 3))

parser_loop-FirstWord :
    (fuel i base : ℕ) (m : Cells)
    → get32 m base ≤ 2 ^ 32 - 4
    → 4 * i ≤ 2 ^ 32 - 4
    → 2 ^ 30 ≤ i + fuel
    → FirstWord m base i (parser_loop fuel base (4 * i) (base + 4 * i) m)
unfolding parser_loop
parser_loop-FirstWord zero i base m total small enough = absurd (omega arith)
parser_loop-FirstWord (suc fuel) i base m total small enough =
    elim (Bool-cases (ltb (4 * i) (get32 m base))) [
      | inr past ↦ inl (rw past, λ k le lt. absurd (ground arith))
      | inl inside ↦ elim (Bool-cases (get32 m (base + 4 * i) == 3)) [
        | inl here ↦ inr (
          i,
          omega arith,
          rw (inside, here),
          ground arith,
          ground arith,
          λ j le lt. absurd (omega arith),
        )
        | inr other ↦
            let next_cnt : (4 * i + 4) % 2 ^ 32 ≡ 4 * (i + 1) = ground arith in
            let next_ptr : base + 4 * i + 4 ≡ base + 4 * (i + 1) = omega arith in
            passed (ground arith) (rw (inside, other, next_cnt, next_ptr))
              (parser_loop-FirstWord fuel (i + 1) base m total (ground arith) (omega arith))
      ]
    ]
  where
    later :
        (k : ℕ)
        → i ≤ k
        → get32 m (base + 4 * i) ≢ 3
        → (i + 1 ≤ k → get32 m (base + 4 * k) ≢ 3)
        → get32 m (base + 4 * k) ≢ 3
    later k le miss next = elim (dec_lt i k) [
      | yes lt ↦ next (omega arith)
      | no ge ↦ let same : k ≡ i = omega arith in rw same miss
    ]

    passed :
        {r r' : Option ℕ}
        → get32 m (base + 4 * i) ≢ 3
        → r' ≡ r
        → FirstWord m base (i + 1) r
        → FirstWord m base i r'
    passed miss e (inl (gone, others)) =
        inl (e ∙ gone, λ k le lt. later k le miss (λ next. others k next lt))
    passed miss e (inr (k, le, found, lt, is, before)) = inr (
      k,
      omega arith,
      e ∙ found,
      lt,
      is,
      λ j from below. later j from miss (λ next. before j next below),
    )

-- For a structure of at most 2 ^ 32 - 4 bytes, multiboot2_parser returns the address of the first
-- word 3 among the words that start inside it, counted from its own first word, be it the type of
-- a tag or not; its pointer stays unset exactly when there is none.
pub parser-FirstWord :
    (base : ℕ) (m : Cells)
    → get32 m base ≤ 2 ^ 32 - 4
    → FirstWord m base 0 (multiboot2_parser base m)
unfolding multiboot2_parser
parser-FirstWord base m total =
    let from_start : base + 4 * 0 ≡ base = omega arith in
    rw from_start at (parser_loop-FirstWord (2 ^ 30) 0 base m total (omega arith) (omega arith))
