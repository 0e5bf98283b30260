-- ===== src/Prelude/Bits.antt =====
-- Bit maps over bytes: what `&` and `|` with one bit do, checked over every byte.
use Prim.Native.Nat.{ℕ, zero, suc, ◌/◌, ◌%◌, ◌^◌, ◌<◌, bit_and, bit_or}
use mathlib.Core.Path.{◌≡◌, refl}
use mathlib.Core.Bool.{Bool, true, false, ◌&&◌}
use native.Mathlib.Omega.{arith}
use native.Mathlib.Decide.{ℕ_discrete}
use ester.Prelude.Tests.{◌==◌, ltb, ltb→lt, if◌then◌else◌, Cells, update}

and_left : (a b : Bool) → (a && b) ≡ true → a ≡ true
and_left a b h = ground arith

and_right : (a b : Bool) → (a && b) ≡ true → b ≡ true
and_right a b h = ground arith

-- A test run on all numbers below a bound.
unfoldable pub holds_below : (ℕ → Bool) → ℕ → Bool
holds_below test zero = true
holds_below test (suc bound) = holds_below test bound && test bound

pub holds_below-get :
    (test : ℕ → Bool) (bound : ℕ)
    → holds_below test bound ≡ true
    → (i : ℕ) → i < bound
    → test i ≡ true
unfolding holds_below
holds_below-get test zero all i below = absurd (omega arith)
holds_below-get test (suc bound) all i below = elim (ℕ_discrete i bound) [
  | yes last ↦ rw last (and_right _ _ all)
  | no earlier ↦ holds_below-get test bound (and_left _ _ all) i (omega arith)
]

-- `(map[i / 8] & (1 << (i % 8))) == 0`
unfoldable pub is_clear : Cells → ℕ → Bool
is_clear map i = bit_and (map (i / 8)) (2 ^ (i % 8)) == 0

-- `map[i / 8] |= 1 << (i % 8)`
unfoldable pub set_bit : Cells → ℕ → Cells
set_bit map i = update map (i / 8) (bit_or (map (i / 8)) (2 ^ (i % 8)))

abbrev byte_clear : ℕ → ℕ → Bool
byte_clear x k = bit_and x (2 ^ k) == 0

abbrev same : Bool → Bool → Bool
same true b = b
same false true = false
same false false = true

same-eq : (a b : Bool) → same a b ≡ true → a ≡ b
same-eq true b h = ground arith
same-eq false true h = ground arith
same-eq false false h = refl

abbrev or_row : ℕ → ℕ → ℕ → Bool
or_row x j i =
    same (byte_clear (bit_or x (2 ^ i)) j) (if j == i then false else byte_clear x j)
    && ltb (bit_or x (2 ^ i)) 256

abbrev or_rows : ℕ → Bool
or_rows x = holds_below (λ j. holds_below (or_row x j) 8) 8

or_table : holds_below or_rows 256 ≡ true
unfolding holds_below
or_table = refl

or_row_holds : (x j i : ℕ) → x < 256 → j < 8 → i < 8 → or_row x j i ≡ true
or_row_holds x j i hx hj hi =
    let row = holds_below-get or_rows 256 or_table x hx in
    holds_below-get (or_row x j) 8 (holds_below-get _ 8 row j hj) i hi

module _ (x j i : ℕ) (hx : x < 256) (hj : j < 8) (hi : i < 8) where
  byte_clear-or : byte_clear (bit_or x (2 ^ i)) j ≡ (if j == i then false else byte_clear x j)
  byte_clear-or = same-eq _ _ (and_left _ _ (or_row_holds x j i hx hj hi))

  byte_or-lt : bit_or x (2 ^ i) < 256
  byte_or-lt = ltb→lt _ _ (and_right _ _ (or_row_holds x j i hx hj hi))

-- Setting bit `i` of a map of bytes makes that bit used and keeps every other bit.
pub is_clear-set_bit :
    (map : Cells) (i j : ℕ)
    → map (i / 8) < 256
    → is_clear (set_bit map i) j ≡ (if j == i then false else is_clear map j)
unfolding is_clear set_bit
is_clear-set_bit map i j h =
    ground (arith, byte_clear-or (map (i / 8)) (j % 8) (i % 8) h (omega arith) (omega arith))

pub set_bit-lt : (map : Cells) (i j : ℕ) → ((k : ℕ) → map k < 256) → set_bit map i j < 256
unfolding set_bit
set_bit-lt map i j h =
    ground (arith, h j, byte_or-lt (map (i / 8)) 0 (i % 8) (h (i / 8)) (omega arith) (omega arith))

pub is_clear_ext :
    (map other : Cells) (i : ℕ) → map (i / 8) ≡ other (i / 8) → is_clear map i ≡ is_clear other i
unfolding is_clear
is_clear_ext map other i e = rw e
