-- ===== src/Kernel/Decimal/ReadBack.antt =====
-- The digits that itoa writes for a value that is not negative are read back as the value.
use ester.Prelude.{
  ℕ, zero, suc, ◌+◌, ◌-◌, ◌*◌, ◌/◌, ◌%◌, ◌^◌, ◌≤◌, ◌<◌, ◌≡◌, inl, inr, refl, sym, ap, ◌∙◌, false,
  Bool-cases, some, Cells, arith, ◌==◌, leb, update,
}
use native.Mathlib.Nat.{pow-suc, zero-add}
use ester.Kernel.Str.{IsString}
use ester.Kernel.Str.Reverse.{strrev-IsReversed}
use ester.Kernel.Decimal.{itoa_loop, itoa, ascii_num_base}

-- The value without its `k` lowest digits.
abbrev pub drop_digits : ℕ → ℕ → ℕ
drop_digits zero v = v
drop_digits (suc k) v = drop_digits k (v / 10)

-- The number that the first `n` characters stand for in decimal.
abbrev pub decimal : Cells → ℕ → ℕ → ℕ
decimal m str zero = 0
decimal m str (suc n) = decimal m str n * 10 + (m (str + n) - ascii_num_base)

drop_digits-div : (k v : ℕ) → drop_digits (suc k) v ≡ drop_digits k v / 10
drop_digits-div zero v = refl
drop_digits-div (suc k) v = drop_digits-div k (v / 10)

some_left : (fuel v : ℕ) → v < 10 ^ suc fuel → (v / 10 == 0) ≡ false → 0 < fuel
some_left zero v small more = absurd (ground arith)
some_left (suc fuel) v small more = omega arith

-- The digits from index `i` on, the lowest first.
itoa_loop-digits :
    (fuel v i str : ℕ) (m : Cells)
    → v < 10 ^ fuel
    → 0 < fuel
    → (n : ℕ) × (m' : Cells) × (itoa_loop fuel v i str m ≡ some (i + n, m'))
      × (n ≤ fuel)
      × (0 < n)
      × (drop_digits n v ≡ 0)
      × ((k : ℕ) → k < n → m' (str + (i + k)) ≡ drop_digits k v % 10 + ascii_num_base)
      × ((a : ℕ) → a < str + i → m' a ≡ m a)
unfolding itoa_loop
itoa_loop-digits zero v i str m small pos = absurd (omega arith)
itoa_loop-digits (suc fuel) v i str m small pos = elim (Bool-cases (v / 10 == 0)) [
  | inl last ↦ (
    1,
    update m (str + i) (v % 10 + ascii_num_base),
    rw last,
    omega arith,
    omega arith,
    ground arith,
    λ k h. let at : k ≡ 0 = omega arith in rw at (ground arith),
    λ a h. ground arith,
  )
  | inr more ↦
      let power : 10 ^ suc fuel ≡ 10 ^ fuel * 10 = pow-suc 10 fuel in
      let left : 0 < fuel = some_left fuel v small more in
      let (n, m', e, le, lo, none_left, digits, below) =
        itoa_loop-digits fuel (v / 10) (i + 1) str (update m (str + i) (v % 10 + ascii_num_base))
          (omega (arith, power)) left in
      (
        suc n,
        m',
        rw more (e ∙ ap (λ (t : ℕ). some (t, m')) (omega arith)),
        omega arith,
        omega arith,
        none_left,
        λ k h. digit m' n digits below k h,
        λ a h. ground (arith, below a),
      )
]
  where
    digit :
        (m' : Cells) (n : ℕ)
        → ((k : ℕ) → k < n → m' (str + (i + 1 + k)) ≡ drop_digits k (v / 10) % 10 + ascii_num_base)
        → ((a : ℕ) → a < str + (i + 1) → m' a ≡ update m (str + i) (v % 10 + ascii_num_base) a)
        → (k : ℕ) → k < suc n
        → m' (str + (i + k)) ≡ drop_digits k v % 10 + ascii_num_base
    digit m' n digits below zero h =
        let at : i + 0 ≡ i = omega arith in rw at (below (str + i) (omega arith) ∙ ground arith)
    digit m' n digits below (suc k) h =
        let at : i + suc k ≡ i + 1 + k = omega arith in rw at (digits k (omega arith))

-- The digits of a value read back from the highest one on.
read_digits :
    (m : Cells) (str n v : ℕ)
    → drop_digits n v ≡ 0
    → ((i : ℕ) → i < n → m (str + i) ≡ drop_digits (n - 1 - i) v % 10 + ascii_num_base)
    → (k : ℕ) → k ≤ n
    → decimal m str k ≡ drop_digits (n - k) v
read_digits m str n v none_left digits zero h =
    let whole : n - 0 ≡ n = omega arith in rw whole (sym none_left)
read_digits m str n v none_left digits (suc k) h =
    let next : n - k ≡ suc (n - suc k) = omega arith in
    let same : n - 1 - k ≡ n - suc k = omega arith in
    let above : drop_digits (n - k) v ≡ drop_digits (n - suc k) v / 10 =
      ap (λ (t : ℕ). drop_digits t v) next ∙ drop_digits-div (n - suc k) v in
    let digit : m (str + k) ≡ drop_digits (n - suc k) v % 10 + ascii_num_base =
      digits k (omega arith) ∙ ap (λ (t : ℕ). drop_digits t v % 10 + ascii_num_base) same in
    omega (arith, read_digits m str n v none_left digits k (omega arith), above, digit)

-- What itoa is to leave.
pub record IsDecimal (m : Cells) (value str n : ℕ) (m' : Cells) : Type 0 where
  pub string : IsString m' str n
  pub some_digits : (0 < n) × (n ≤ 10)
  pub are_digits :
      (i : ℕ) → i < n → (ascii_num_base ≤ m' (str + i)) × (m' (str + i) < ascii_num_base + 10)
  pub reads : decimal m' str n ≡ value
  pub front : (a : ℕ) → a < str → m' a ≡ m a

module _ (value str n : ℕ) (m m1 : Cells) (small : value < 2 ^ 31)
    (ran : itoa_loop 10 value 0 str m ≡ some (n, m1)) (most : n ≤ 10) (pos : 0 < n)
    (none_left : drop_digits n value ≡ 0)
    (digits : (k : ℕ) → k < n → m1 (str + k) ≡ drop_digits k value % 10 + ascii_num_base)
    (below : (a : ℕ) → a < str → m1 a ≡ m a) where
  filled : IsString (update m1 (str + n) 0) str n
  filled = record { ends = ground arith; inside = λ i h. ground (arith, digits i) }

  itoa_finish : (m' : Cells) × (itoa value str m ≡ some m') × IsDecimal m value str n m'
  unfolding itoa
  itoa_finish =
      let (m', turned, rev) =
        strrev-IsReversed (update m1 (str + n) 0) str n filled (omega arith) in
      let all_read : n - n ≡ 0 = omega arith in
      let plain : leb (2 ^ 31) value ≡ false = ground arith in
      (
        m',
        rw (plain, ran) turned,
        record {
          string = rev.result;
          some_digits = (pos, most);
          are_digits = λ i h. (
            ground (arith, rev.mirrored i h, digits (n - 1 - i)),
            ground (arith, rev.mirrored i h, digits (n - 1 - i)),
          );
          reads =
              read_digits m' str n value none_left
                (λ i h. rev.mirrored i h ∙ ground (arith, digits (n - 1 - i))) n (omega arith)
              ∙ ap (λ (t : ℕ). drop_digits t value) all_read;
          front = λ a h. rev.elsewhere a (inl h) ∙ ground (arith, below a);
        },
      )

-- For a value from 0 to 2 ^ 31 - 1, itoa ends and leaves a string of one to ten digits at `str`
-- that stands for the value in decimal, and changes nothing in front of it.
pub itoa-IsDecimal :
    (value str : ℕ) (m : Cells)
    → value < 2 ^ 31
    → (n : ℕ) × (m' : Cells) × (itoa value str m ≡ some m') × IsDecimal m value str n m'
itoa-IsDecimal value str m small =
    let (n, m1, e, le, pos, none_left, digits, below) =
      itoa_loop-digits 10 value 0 str m (omega arith) (omega arith) in
    let (m', done, is_decimal) =
      itoa_finish value str n m m1 small (e ∙ ap (λ (t : ℕ). some (t, m1)) (zero-add n)) le pos
        none_left (λ k h. ap (λ (t : ℕ). m1 (str + t)) (sym (zero-add k)) ∙ digits k h)
        (λ a h. below a (omega arith)) in
    (n, m', done, is_decimal)
