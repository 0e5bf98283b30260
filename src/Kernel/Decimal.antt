-- ===== src/Kernel/Decimal.antt =====
-- itoa of kernel/ascii_utils.c over the flat memory. An `int` is its 32-bit pattern, negative from
-- 2 ^ 31 on.
pub mod ReadBack
use ester.Prelude.{
  ℕ, zero, suc, ◌+◌, ◌-◌, ◌*◌, ◌/◌, ◌%◌, ◌^◌, Option, none, some, Cells, leb, ◌==◌, if◌then◌else◌,
  ◌>>=◌, update,
}
use ester.Kernel.Str.{strrev}

abbrev pub ascii_num_base : ℕ
ascii_num_base = 48

-- The loop on a residual that is not negative: the index behind the digits, and the memory.
unfoldable pub itoa_loop : ℕ → ℕ → ℕ → ℕ → Cells → Option (ℕ × Cells)
itoa_loop zero residual i str m = none
itoa_loop (suc fuel) residual i str m =
    let stored = update m (str + i) (residual % 10 + ascii_num_base) in
    let rest = itoa_loop fuel (residual / 10) (i + 1) str stored in
    if residual / 10 == 0 then some (i + 1, stored) else rest

-- A positive `int` has at most ten digits.
abbrev pub itoa_fuel : ℕ
itoa_fuel = 10

-- A negative value takes one round, in which the remainder is negative too.
unfoldable pub itoa : ℕ → ℕ → Cells → Option Cells
itoa value str m =
    (if leb (2 ^ 31) value
      then some (1, update m str (ascii_num_base - (2 ^ 32 - value) % 10))
      else itoa_loop itoa_fuel value 0 str m)
    >>= λ (i, stored). strrev str (update stored (str + i) 0)
