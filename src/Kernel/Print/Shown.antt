-- ===== src/Kernel/Print/Shown.antt =====
-- What printk shows, apart from its loops.
use ester.Prelude.{
  ℕ, zero, suc, ◌+◌, ◌%◌, ◌^◌, ◌≤◌, ◌<◌, ◌≡◌, ◌≢◌, ◌⊎◌, refl, ◌∙◌, arith, false, some, Cells, List,
  ◌∷◌, ◌==◌, if◌then◌else◌,
}
use native.Mathlib.Nat.{add_assoc, add-zero}
use ester.Kernel.Str.{IsString}
use ester.Kernel.Decimal.{ascii_num_base}
use ester.Kernel.Decimal.ReadBack.{decimal, itoa-IsDecimal}
use ester.Drivers.Vga.{Vga, black}
use ester.Drivers.Vga.Text.{print_each}
use ester.Kernel.Print.{
  lblue, string_fuel, print_char, str_loop, print_str, print_int, is_token, print_arg, with_arg,
  printk_loop, printk,
}

str_loop-some :
    (fuel left i : ℕ) (m : Cells) (str : ℕ) (v : Vga)
    → IsString m str (i + left)
    → i + left < 2 ^ 32
    → left < fuel
    → str_loop fuel m str i v ≡ some (print_each left (str + i) m black lblue v)
unfolding str_loop
str_loop-some zero left i m str v s small enough = absurd (omega arith)
str_loop-some (suc fuel) zero i m str v s small enough = ground (arith, s.ends)
str_loop-some (suc fuel) (suc left) i m str v s small enough =
    let longer : i + suc left ≡ i + 1 + left = omega arith in
    let wrapped : (i + 1) % 2 ^ 32 ≡ i + 1 = omega arith in
    let rec =
      str_loop-some fuel left (i + 1) m str (print_char (m (str + i)) v) (rw longer at s)
        (omega arith) (omega arith) in
    let goes_on : (m (str + i) == 0) ≡ false = ground (arith, s.inside i) in
    let next : str + i + 1 ≡ str + (i + 1) = add_assoc str i 1 in
    rw (goes_on, wrapped) (rec ∙ rw next)

-- `n` digits at `str` that stand for the value.
pub record IsNumeral (m : Cells) (str n value : ℕ) : Type 0 where
  pub some_digits : (0 < n) × (n ≤ 10)
  pub are_digits :
      (i : ℕ) → i < n → (ascii_num_base ≤ m (str + i)) × (m (str + i) < ascii_num_base + 10)
  pub reads : decimal m str n ≡ value

module _ (m : Cells) (local str : ℕ) where
  -- A format of fewer than 2 ^ 32 - 1 characters from index `i` on, with an argument of the right
  -- kind for each token; further arguments may follow.
  pub data Fits : ℕ → List ℕ → Type 0 where
    end_fits : {i : ℕ} {args : List ℕ} → m (str + i) ≡ 0 → Fits i args
    plain_fits :
        {i : ℕ} {args : List ℕ}
        → i + 2 < 2 ^ 32
        → m (str + i) ≢ 0
        → (m (str + i) ≢ b'%') ⊎ (is_token (m (str + (i + 1))) ≡ false)
        → Fits (i + 1) args
        → Fits i args
    number_fits :
        {i : ℕ} {args : List ℕ} (value : ℕ)
        → i + 2 < 2 ^ 32
        → m (str + i) ≡ b'%'
        → m (str + (i + 1)) ≡ b'd'
        → value < 2 ^ 31
        → Fits (i + 2) args
        → Fits i (value ∷ args)
    text_fits :
        {i : ℕ} {args : List ℕ} (text n : ℕ)
        → i + 2 < 2 ^ 32
        → m (str + i) ≡ b'%'
        → m (str + (i + 1)) ≡ b's'
        → IsString m text n
        → n < 2 ^ 32
        → Fits (i + 2) args
        → Fits i (text ∷ args)
    char_fits :
        {i : ℕ} {args : List ℕ} (c : ℕ)
        → i + 2 < 2 ^ 32
        → m (str + i) ≡ b'%'
        → m (str + (i + 1)) ≡ b'c'
        → Fits (i + 2) args
        → Fits i (c ∷ args)

  -- The format leads from one screen to another: each piece of it with the characters that it
  -- stands for.
  unfoldable pub Shows : {i : ℕ} {args : List ℕ} → Fits i args → Vga → Vga → Type 0
  Shows (end_fits e) v w = v ≡ w
  Shows {i} (plain_fits h nz p f) v w = Shows f (print_char (m (str + i)) v) w
  Shows {i} (number_fits value h p d small f) v w =
      (digits : Cells) × (n : ℕ) × IsNumeral digits local n value
      × Shows f (print_each n local digits black lblue v) w
  Shows {i} (text_fits text n h p d s short f) v w = Shows f (print_each n text m black lblue v) w
  Shows {i} (char_fits c h p d f) v w = Shows f (print_char (c % 2 ^ 8) v) w

  print_str-some :
      (text n : ℕ) (v : Vga)
      → IsString m text n
      → n < 2 ^ 32
      → print_str text m v ≡ some (print_each n text m black lblue v)
  unfolding print_str
  print_str-some text n v s short =
      let from_start : text + 0 ≡ text = add-zero text in
      let whole : n ≡ 0 + n = omega arith in
      str_loop-some string_fuel n 0 m text v (rw whole at s) (omega arith) (omega arith)
      ∙ rw from_start

  pub print_int-some :
      (value : ℕ) (v : Vga)
      → value < 2 ^ 31
      → (digits : Cells) × (n : ℕ) × IsNumeral digits local n value
        × (print_int value local m v ≡ some (print_each n local digits black lblue v))
  unfolding print_int
  print_int-some value v small =
      let (n, digits, e, d) = itoa-IsDecimal value local m small in
      let from_start : local + 0 ≡ local = add-zero local in
      let whole : n ≡ 0 + n = omega arith in
      let short : value % 2 ^ 32 ≡ value = omega arith in
      let few : n ≤ 10 = d.some_digits.1 in
      (
        digits,
        n,
        record { some_digits = d.some_digits; are_digits = d.are_digits; reads = d.reads },
        rw (short, e)
            (str_loop-some string_fuel n 0 digits local v (rw whole at d.string) (omega arith)
                (omega arith)
              ∙ rw from_start),
      )

  wrap_one : (i : ℕ) → i + 2 < 2 ^ 32 → (i + 1) % 2 ^ 32 ≡ i + 1
  wrap_one i h = omega arith

  wrap_two : (i : ℕ) → i + 2 < 2 ^ 32 → (i + 2) % 2 ^ 32 ≡ i + 2
  wrap_two i h = omega arith

  plain_token :
      (c next : ℕ)
      → (c ≢ b'%') ⊎ (is_token next ≡ false)
      → is_token (if c == b'%' then next else b'a') ≡ false
  plain_token c next h = ground arith

  printk_loop-Shows :
      (fuel : ℕ) {i : ℕ} {args : List ℕ} (f : Fits i args) (v : Vga)
      → 2 ^ 32 ≤ i + fuel
      → i < 2 ^ 32
      → (w : Vga) × (printk_loop fuel m local str i args v ≡ some w) × Shows f v w
  unfolding printk_loop Shows with_arg print_arg
  printk_loop-Shows zero f v enough small = absurd (omega arith)
  printk_loop-Shows (suc fuel) {i} (end_fits e) v enough small = (v, rw e, refl)
  printk_loop-Shows (suc fuel) {i} (plain_fits h nz p f) v enough small =
      let goes_on : (m (str + i) == 0) ≡ false = ground (arith, nz) in
      let (w, e, shown) =
        printk_loop-Shows fuel f (print_char (m (str + i)) v) (omega arith) (omega arith) in
      (w, rw (goes_on, wrap_one i h, plain_token (m (str + i)) (m (str + (i + 1))) p) e, shown)
  printk_loop-Shows (suc fuel) {i} (number_fits value h p d small_value f) v enough small =
      let (digits, n, numeral, printed) = print_int-some value v small_value in
      let (w, e, shown) =
        printk_loop-Shows fuel f (print_each n local digits black lblue v) (omega arith)
          (omega arith) in
      (w, rw (p, wrap_one i h, d, wrap_two i h, printed) e, (digits, n, numeral, shown))
  printk_loop-Shows (suc fuel) {i} (text_fits text n h p d s short f) v enough small =
      let (w, e, shown) =
        printk_loop-Shows fuel f (print_each n text m black lblue v) (omega arith) (omega arith) in
      (w, rw (p, wrap_one i h, d, wrap_two i h, print_str-some text n v s short) e, shown)
  printk_loop-Shows (suc fuel) {i} (char_fits c h p d f) v enough small =
      let (w, e, shown) =
        printk_loop-Shows fuel f (print_char (c % 2 ^ 8) v) (omega arith) (omega arith) in
      (w, rw (p, wrap_one i h, d, wrap_two i h) e, shown)

  -- For a format of fewer than 2 ^ 32 - 1 characters, and an argument for each %d, %s and %c in it,
  -- a number below 2 ^ 31 or a string of fewer than 2 ^ 32 characters where one is asked for:
  -- printk ends, and what it leaves is what vga_print_char leaves for each plain character, each
  -- digit of a numeral of at most ten digits that stands for the number, each character of a
  -- string, and each character argument, in the order of the format.
  pub printk-Shows :
      (args : List ℕ) (f : Fits 0 args) (v : Vga)
      → (w : Vga) × (printk m local str args v ≡ some w) × Shows f v w
  unfolding printk
  printk-Shows args f v = printk_loop-Shows string_fuel f v (omega arith) (omega arith)
