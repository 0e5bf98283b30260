-- ===== src/Tests/Strings.antt =====
-- kernel/mem.c and kernel/string.c on a small memory: "ab" at 0, "abc" at 8 and "xy" at 16.
use ester.Prelude.{ℕ, ◌<◌, ◌≡◌, ◌↔◌, ◌⊎◌, refl, Cells, some, arith, ◌==◌, if◌then◌else◌}
use ester.Kernel.Str.{IsString, strcmp}
use ester.Kernel.Str.Compare.{SameString, strcmp-zero_iff}

abbrev words : Cells
words a =
    if a == 0
    then b'a'
    else if a == 1
    then b'b'
    else if a == 8
    then b'a'
    else if a == 9
    then b'b'
    else if a == 10
    then b'c'
    else if a == 16
    then b'x'
    else if a == 17
    then b'y'
    else 0

words_ab : IsString words 0 2
words_ab = record { ends = refl; inside = λ i h. ground arith }

words_abc : IsString words 8 3
words_abc = record { ends = refl; inside = λ i h. ground arith }

words_xy : IsString words 16 2
words_xy = record { ends = refl; inside = λ i h. ground arith }

words_byte : (a : ℕ) → words a < 256
words_byte a = ground arith

strcmp-zero_iff_example :
    (r : ℕ) × (strcmp words 0 8 ≡ some r)
    × ((r ≡ 0) ↔ SameString words 0 8 2 3)
    × ((r ≡ 0) ⊎ (r ≡ 1) ⊎ (r ≡ 255))
strcmp-zero_iff_example = strcmp-zero_iff words 0 8 2 3 words_ab words_abc words_byte (omega arith)
