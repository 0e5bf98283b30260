-- ===== src/Kernel/Paging.antt =====
-- palloc and pmap of kernel/mem.c. The memory gives the 64-bit word at each byte address, and
-- `cr3` is the address of the first table. `& ~0xFFF` drops the remainder by 4096.
pub mod Walk
use ester.Prelude.{
  ℕ, zero, suc, ◌+◌, ◌-◌, ◌*◌, ◌/◌, ◌%◌, ◌^◌, Option, none, some, Cells, Bool, ◌==◌, if◌then◌else◌,
  ◌>>=◌, update, bit_and, bit_or,
}

abbrev pub page_present : ℕ
page_present = 0x1

abbrev pub page_writable : ℕ
page_writable = 0x2

-- `table[i]` lies here.
abbrev pub entry : ℕ → ℕ → ℕ
entry table i = table + 8 * i

unfoldable pub is_absent : Cells → ℕ → Bool
is_absent m a = bit_and (m a) page_present == 0

-- The loop of palloc from index `i` on; `none` is a memory with no free entry within the fuel.
unfoldable pub palloc_loop : ℕ → ℕ → ℕ → Cells → Option ℕ
palloc_loop zero i baddr m = none
palloc_loop (suc fuel) i baddr m =
    let rest = palloc_loop fuel (i + 1) baddr m in
    if is_absent m (entry baddr i) then some (entry baddr i) else rest

-- As many rounds as there are words in the address space.
abbrev pub palloc_fuel : ℕ
palloc_fuel = 2 ^ 61

unfoldable pub palloc : ℕ → Cells → Option ℕ
palloc baddr m = palloc_loop palloc_fuel 0 baddr m

unfoldable pub page_entry : ℕ → ℕ → ℕ
page_entry base flags = bit_or (bit_or (bit_or base page_present) page_writable) flags

abbrev pub page_of : ℕ → ℕ
page_of word = word / 2 ^ 12 * 2 ^ 12

-- One level of the walk: the table below, and the memory, in which an absent entry was filled.
unfoldable pub next_table : ℕ → ℕ → ℕ → ℕ → Cells → Option (ℕ × Cells)
next_table table index physical_base flags m =
    if is_absent m (entry table index)
    then (palloc physical_base m >>= λ base.
        some (base, update m (entry table index) (page_entry base flags)))
    else some (page_of (m (entry table index)), m)

unfoldable pub pmap : ℕ → ℕ → ℕ → ℕ → Cells → Option Cells
pmap cr3 paddr vaddr flags m = do
  let pdp_physical_base = entry cr3 512
  let pd_physical_base = entry pdp_physical_base 512
  let pt_physical_base = entry pd_physical_base (512 * 6)
  (pdp_base, m1) ← next_table cr3 (vaddr / 2 ^ 39 % 2 ^ 9) pdp_physical_base flags m
  (pd_base, m2) ← next_table pdp_base (vaddr / 2 ^ 30 % 2 ^ 9) pd_physical_base flags m1
  (pt_base, m3) ← next_table pd_base (vaddr / 2 ^ 21 % 2 ^ 9) pt_physical_base flags m2
  some (update m3 (entry pt_base (vaddr / 2 ^ 12 % 2 ^ 9)) (page_entry (page_of paddr) flags))
