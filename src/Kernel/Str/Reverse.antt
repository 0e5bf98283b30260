-- ===== src/Kernel/Str/Reverse.antt =====
-- strrev turns a string round in place.
use ester.Prelude.{
  ℕ, zero, suc, ◌+◌, ◌-◌, ◌/◌, ◌≤◌, ◌<◌, ◌≡◌, refl, ap, ◌⊎◌, ◌^◌, ◌%◌, Cells, ◌&&◌, some, arith,
  leb, if◌then◌else◌,
}
use ester.Kernel.Str.{IsString, strrev_loop, strrev, swapped}
use ester.Kernel.Str.Len.{strlen-eq}

-- The bytes from index `i` up to `j` inclusive in the opposite order.
abbrev pub turned : ℕ → ℕ → ℕ → Cells → Cells
turned i j str m a = if leb (str + i) a && leb a (str + j) then m (str + i + (str + j) - a) else m a

strrev_loop-get :
    (left i j n str : ℕ) (m : Cells) (a : ℕ)
    → n < 2 ^ 32
    → i + j + 1 ≡ n
    → i + left ≡ n / 2
    → strrev_loop left i j str m a ≡ turned i j str m a
unfolding strrev_loop
strrev_loop-get zero i j n str m a small e h = ground arith
strrev_loop-get (suc left) i j n str m a small e h =
    ground (arith, strrev_loop-get left (i + 1) (j - 1) n str (swapped m str i j) a)

-- What strrev makes of a string of `n` characters.
pub record IsReversed (m : Cells) (str n : ℕ) (m' : Cells) : Type 0 where
  pub result : IsString m' str n
  pub mirrored : (i : ℕ) → i < n → m' (str + i) ≡ m (str + (n - 1 - i))
  pub elsewhere : (a : ℕ) → (a < str) ⊎ (str + n ≤ a) → m' a ≡ m a

module _ (m m' : Cells) (str n : ℕ) (s : IsString m str n) where
  turned-IsReversed : ((a : ℕ) → m' a ≡ turned 0 (n - 1) str m a) → 0 < n → IsReversed m str n m'
  turned-IsReversed get pos = record {
    result = record {
      ends = ground (arith, get (str + n), s.ends);
      inside = λ i h. ground (arith, get (str + i), s.inside (n - 1 - i));
    };
    mirrored = λ i h. ground (arith, get (str + i));
    elsewhere = λ a h. ground (arith, get a);
  }

-- On a string of `n` characters strrev puts the character of index `n - 1 - i` at index `i`,
-- keeps the terminator where it was, and changes no byte outside the string.
pub strrev-IsReversed :
    (m : Cells) (str n : ℕ)
    → IsString m str n
    → n < 2 ^ 32
    → (m' : Cells) × (strrev str m ≡ some m') × IsReversed m str n m'
unfolding strrev
strrev-IsReversed m str zero s small = (
  m,
  rw (strlen-eq m str 0 s small) (unfold strrev_loop in refl),
  record { result = s; mirrored = λ i h. absurd (omega arith); elsewhere = λ a h. refl },
)
strrev-IsReversed m str (suc n) s small = (
  strrev_loop (suc n / 2) 0 n str m,
  rw (strlen-eq m str (suc n) s small) (ap (λ j. some (strrev_loop (suc n / 2) 0 j str m)) wrapped),
  turned-IsReversed m _ str (suc n) s get (omega arith),
)
  where
    wrapped : (suc n + 2 ^ 32 - 1) % 2 ^ 32 ≡ n
    wrapped = omega arith

    get : (a : ℕ) → strrev_loop (suc n / 2) 0 n str m a ≡ turned 0 (suc n - 1) str m a
    get a = ground (arith, strrev_loop-get (suc n / 2) 0 n (suc n) str m a)
