-- ===== src/Kernel/Str/Compare.antt =====
-- strcmp decides equality of strings, and never runs past a terminator.
use ester.Prelude.{
  ℕ, zero, suc, ◌+◌, ◌≤◌, ◌<◌, ◌≡◌, ◌↔◌, ◌⊎◌, inl, inr, ◌^◌, ◌%◌, Cells, false, some, arith,
  Bool-cases,
}
use ester.Kernel.Str.{IsString, goes_on, strcmp_loop, char_order, strcmp}

-- Index `i`, where the loop stops on strings of `n` and `k` characters.
record Stops (m : Cells) (str1 str2 n k i : ℕ) : Type 0 where
  in_first : i ≤ n
  in_second : i ≤ k
  same : (j : ℕ) → j < i → m (str1 + j) ≡ m (str2 + j)
  stop : goes_on (m (str1 + i)) (m (str2 + i)) ≡ false

-- The two strings have the same characters.
pub record SameString (m : Cells) (str1 str2 n k : ℕ) : Type 0 where
  pub same_length : n ≡ k
  pub same_chars : (i : ℕ) → i < n → m (str1 + i) ≡ m (str2 + i)

char_order-range : (x y : ℕ) → (char_order x y ≡ 0) ⊎ (char_order x y ≡ 1) ⊎ (char_order x y ≡ 255)
unfolding char_order
char_order-range x y = ground arith

module _ (m : Cells) (str1 str2 n k : ℕ) (s : IsString m str1 n) (t : IsString m str2 k) where
  strcmp_loop-Stops :
      (fuel i : ℕ)
      → n < 2 ^ 32
      → i ≤ n
      → i ≤ k
      → ((j : ℕ) → j < i → m (str1 + j) ≡ m (str2 + j))
      → n < i + fuel
      → (d : ℕ) × (strcmp_loop fuel m str1 str2 i ≡ some d) × Stops m str1 str2 n k d
  unfolding strcmp_loop
  strcmp_loop-Stops zero i small p q same enough = absurd (omega arith)
  strcmp_loop-Stops (suc fuel) i small p q same enough =
      elim (Bool-cases (goes_on (m (str1 + i)) (m (str2 + i)))) [
        | inl go ↦
            let p' : i + 1 ≤ n = ground (arith, s.ends) in
            let q' : i + 1 ≤ k = ground (arith, t.ends) in
            let e : (i + 1) % 2 ^ 32 ≡ i + 1 = omega arith in
            rw (go, e)
              (strcmp_loop-Stops fuel (i + 1) small p' q' (λ j h. ground (arith, same j))
                (omega arith))
        | inr stop ↦ (i, rw stop, record { in_first = p; in_second = q; same = same; stop = stop })
      ]

  module _ (bytes : (a : ℕ) → m a < 256) where
    char_order-zero_iff :
        (i : ℕ)
        → Stops m str1 str2 n k i
        → (char_order (m (str1 + i)) (m (str2 + i)) ≡ 0) ↔ SameString m str1 str2 n k
    unfolding char_order
    char_order-zero_iff i st = (there, back)
      where
        there : char_order (m (str1 + i)) (m (str2 + i)) ≡ 0 → SameString m str1 str2 n k
        there e =
            let eq : m (str1 + i) ≡ m (str2 + i) =
              ground (arith, bytes (str1 + i), bytes (str2 + i)) in
            let null : m (str1 + i) ≡ 0 = ground (arith, st.stop) in
            let at_n : i ≡ n = ground (arith, s.inside i, st.in_first) in
            let at_k : i ≡ k = ground (arith, t.inside i, st.in_second) in
            record { same_length = omega arith; same_chars = λ j h. st.same j (omega arith) }

        back : SameString m str1 str2 n k → char_order (m (str1 + i)) (m (str2 + i)) ≡ 0
        back r = ground (arith, r.same_chars i, s.ends, t.ends, st.in_first, st.in_second)

    -- On two strings strcmp returns, with 0 exactly when they have the same characters, and with 1
    -- or 255 otherwise.
    pub strcmp-zero_iff :
        n < 2 ^ 32
        → (r : ℕ) × (strcmp m str1 str2 ≡ some r)
          × ((r ≡ 0) ↔ SameString m str1 str2 n k)
          × ((r ≡ 0) ⊎ (r ≡ 1) ⊎ (r ≡ 255))
    unfolding strcmp
    strcmp-zero_iff small =
        let (i, e, st) =
          strcmp_loop-Stops (2 ^ 32) 0 small (omega arith) (omega arith)
            (λ j h. absurd (omega arith)) (omega arith) in
        (
          char_order (m (str1 + i)) (m (str2 + i)),
          rw e,
          char_order-zero_iff i st,
          char_order-range (m (str1 + i)) (m (str2 + i)),
        )
