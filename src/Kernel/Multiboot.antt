-- ===== src/Kernel/Multiboot.antt =====
-- kernel/multiboot2_infostruct_parser.c over the flat memory. The result is the address of the
-- module's tag; `none` is a pointer that was never set, and a loop that does not end.
pub mod First
use ester.Prelude.{ℕ, zero, suc, ◌+◌, ◌%◌, ◌^◌, Option, none, some, Cells, ltb, ◌==◌, if◌then◌else◌}
use ester.Ext2.Layout.{get32}

-- The loop at offset `cnt`, which is 32 bits wide, and pointer `ptr`.
unfoldable pub parser_loop : ℕ → ℕ → ℕ → ℕ → Cells → Option ℕ
parser_loop zero base_address cnt ptr m = none
parser_loop (suc fuel) base_address cnt ptr m =
    let rest = parser_loop fuel base_address ((cnt + 4) % 2 ^ 32) (ptr + 4) m in
    if ltb cnt (get32 m base_address) then (if get32 m ptr == 3 then some ptr else rest) else none

-- A round for each 4 bytes of a 32-bit size.
abbrev pub parser_fuel : ℕ
parser_fuel = 2 ^ 30

unfoldable pub multiboot2_parser : ℕ → Cells → Option ℕ
multiboot2_parser base_address m = parser_loop parser_fuel base_address 0 base_address m
