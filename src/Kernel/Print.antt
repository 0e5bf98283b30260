-- ===== src/Kernel/Print.antt =====
-- kernel/printk.c over the flat memory and the text screen. The arguments are a list of 64-bit
-- words, and `none` is also an argument that is missing. The array of print_int is at the address
-- `local`, apart from everything else, and is dead when the function ends. Loops over a string run
-- on fuel 2 ^ 32, one round for each value of their uint32_t index.
pub mod Shown
pub mod Labelled
use ester.Prelude.{
  ℕ, zero, suc, ◌+◌, ◌%◌, ◌^◌, Option, none, some, Cells, List, [], ◌∷◌, Bool, ◌==◌, ◌||◌,
  if◌then◌else◌, ◌>>=◌,
}
use ester.Kernel.Decimal.{itoa}
use ester.Drivers.Vga.{Vga, vga_print_char, black}

abbrev pub lblue : ℕ
lblue = 0x9

abbrev pub string_fuel : ℕ
string_fuel = 2 ^ 32

abbrev pub print_char : ℕ → Vga → Vga
print_char c v = vga_print_char c black lblue v

-- The loop of print_str and of print_int.
unfoldable pub str_loop : ℕ → Cells → ℕ → ℕ → Vga → Option Vga
str_loop zero m str i v = none
str_loop (suc fuel) m str i v =
    let c = m (str + i) in
    let rest = str_loop fuel m str ((i + 1) % 2 ^ 32) (print_char c v) in
    if c == 0 then some v else rest

unfoldable pub print_str : ℕ → Cells → Vga → Option Vga
print_str str m v = str_loop string_fuel m str 0 v

unfoldable pub print_int : ℕ → ℕ → Cells → Vga → Option Vga
print_int value local m v =
    itoa (value % 2 ^ 32) local m >>= λ m'. str_loop string_fuel m' local 0 v

abbrev pub is_token : ℕ → Bool
is_token token = (token == b'd') || (token == b's') || (token == b'c')

-- What a token prints of its argument.
unfoldable pub print_arg : ℕ → ℕ → ℕ → Cells → Vga → Option Vga
print_arg token arg local m v =
    if token == b'd'
    then print_int arg local m v
    else if token == b's'
    then print_str arg m v
    else some (print_char (arg % 2 ^ 8) v)

-- va_arg: the next argument and those behind it.
unfoldable pub with_arg : (ℕ → List ℕ → Option Vga) → List ℕ → Option Vga
with_arg k [] = none
with_arg k (arg ∷ args) = k arg args

unfoldable pub printk_loop : ℕ → Cells → ℕ → ℕ → ℕ → List ℕ → Vga → Option Vga
printk_loop zero m local str i args v = none
printk_loop (suc fuel) m local str i args v =
    let rest : ℕ → List ℕ → Vga → Option Vga = printk_loop fuel m local str in
    let c = m (str + i) in
    let token = if c == b'%' then m (str + (i + 1) % 2 ^ 32) else b'a' in
    let tokened =
      with_arg (λ arg later. print_arg token arg local m v >>= rest ((i + 2) % 2 ^ 32) later)
        args in
    if c == 0
    then some v
    else if is_token token
    then tokened
    else rest ((i + 1) % 2 ^ 32) args (print_char c v)

unfoldable pub printk : Cells → ℕ → ℕ → List ℕ → Vga → Option Vga
printk m local str args v = printk_loop string_fuel m local str 0 args v
