-- ===== src/Ext2/Layout/Fields.antt =====
-- A member reads back what was stored in it, and a store reaches no other byte.
use ester.Prelude.{ℕ, ◌+◌, ◌-◌, ◌≤◌, ◌<◌, ◌≡◌, ◌⊎◌, ◌^◌, Cells, arith}
use ester.Ext2.Layout.{get16, get32, set16, set32, blit}

pub get16-set16 : (b : Cells) (o v : ℕ) → v < 2 ^ 16 → get16 (set16 b o v) o ≡ v
unfolding get16 set16
get16-set16 b o v h = ground arith

pub get32-set32 : (b : Cells) (o v : ℕ) → v < 2 ^ 32 → get32 (set32 b o v) o ≡ v
unfolding get32 set32
get32-set32 b o v h = ground arith

pub set16_outside : (b : Cells) (o v j : ℕ) → (j < o) ⊎ (o + 2 ≤ j) → set16 b o v j ≡ b j
unfolding set16
set16_outside b o v j h = ground arith

pub set32_outside : (b : Cells) (o v j : ℕ) → (j < o) ⊎ (o + 4 ≤ j) → set32 b o v j ≡ b j
unfolding set32
set32_outside b o v j h = ground arith

pub set16-lt : (b : Cells) (o v j : ℕ) → ((k : ℕ) → b k < 256) → set16 b o v j < 256
unfolding set16
set16-lt b o v j h = ground (arith, h j)

pub set32-lt : (b : Cells) (o v j : ℕ) → ((k : ℕ) → b k < 256) → set32 b o v j < 256
unfolding set32
set32-lt b o v j h = ground (arith, h j)

pub blit-lt :
    (dst : Cells) (d : ℕ) (src : Cells) (s n j : ℕ)
    → ((k : ℕ) → dst k < 256)
    → ((k : ℕ) → src k < 256)
    → blit dst d src s n j < 256
unfolding blit
blit-lt dst d src s n j h g = ground (arith, h j, g (s + (j - d)))

pub get16-lt : (b : Cells) (o : ℕ) → ((k : ℕ) → b k < 256) → get16 b o < 2 ^ 16
unfolding get16
get16-lt b o h = omega (arith, h o, h (o + 1))

pub get32-lt : (b : Cells) (o : ℕ) → ((k : ℕ) → b k < 256) → get32 b o < 2 ^ 32
unfolding get32
get32-lt b o h = omega (arith, h o, h (o + 1), h (o + 2), h (o + 3))

pub blit_inside :
    (dst : Cells) (d : ℕ) (src : Cells) (s n k : ℕ)
    → k < n
    → blit dst d src s n (d + k) ≡ src (s + k)
unfolding blit
blit_inside dst d src s n k h = let e : d + k - d ≡ k = omega arith in rw e (ground arith)

pub blit_outside :
    (dst : Cells) (d : ℕ) (src : Cells) (s n k : ℕ)
    → (k < d) ⊎ (d + n ≤ k)
    → blit dst d src s n k ≡ dst k
unfolding blit
blit_outside dst d src s n k h = ground arith

pub get16_ext : (a b : Cells) (o p : ℕ) → a o ≡ b p → a (o + 1) ≡ b (p + 1) → get16 a o ≡ get16 b p
unfolding get16
get16_ext a b o p e f = rw (e, f)

pub get32_ext :
    (a b : Cells) (o : ℕ) → ((k : ℕ) → o ≤ k → k < o + 4 → a k ≡ b k) → get32 a o ≡ get32 b o
unfolding get32
get32_ext a b o h = omega (
  arith,
  h o (omega arith) (omega arith),
  h (o + 1) (omega arith) (omega arith),
  h (o + 2) (omega arith) (omega arith),
  h (o + 3) (omega arith) (omega arith),
)

pub blit_front : (dst src : Cells) (s n k : ℕ) → k < n → blit dst 0 src s n k ≡ src (s + k)
unfolding blit
blit_front dst src s n k h = let e : k - 0 ≡ k = omega arith in rw e (ground arith)
