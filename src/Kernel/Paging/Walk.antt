-- ===== src/Kernel/Paging/Walk.antt =====
-- palloc finds the first absent entry; pmap through present tables sets one word.
use ester.Prelude.{
  ℕ, zero, suc, ◌+◌, ◌*◌, ◌/◌, ◌%◌, ◌^◌, ◌≤◌, ◌<◌, ◌≡◌, ◌≢◌, true, false, some, Cells, arith,
  update,
}
use ester.Kernel.Paging.{
  entry, is_absent, palloc_loop, palloc, page_entry, page_of, next_table, pmap,
}

palloc_loop-first :
    (fuel i n baddr : ℕ) (m : Cells)
    → i ≤ n
    → n < i + fuel
    → ((k : ℕ) → k < n → is_absent m (entry baddr k) ≡ false)
    → is_absent m (entry baddr n) ≡ true
    → palloc_loop fuel i baddr m ≡ some (entry baddr n)
unfolding palloc_loop
palloc_loop-first zero i n baddr m le enough used free = absurd (omega arith)
palloc_loop-first (suc fuel) i n baddr m le enough used free =
    ground (arith, palloc_loop-first fuel (i + 1) n baddr m, used i)

-- Where the first entry without the present flag from an address on is entry `n`, palloc returns
-- the address of that entry.
pub palloc-first :
    (n baddr : ℕ) (m : Cells)
    → n < 2 ^ 61
    → ((k : ℕ) → k < n → is_absent m (entry baddr k) ≡ false)
    → is_absent m (entry baddr n) ≡ true
    → palloc baddr m ≡ some (entry baddr n)
unfolding palloc
palloc-first n baddr m small used free =
    palloc_loop-first (2 ^ 61) 0 n baddr m (omega arith) (omega arith) used free

-- The tables of the walk of an address.
abbrev pub pdp_of : Cells → ℕ → ℕ → ℕ
pdp_of m cr3 vaddr = page_of (m (entry cr3 (vaddr / 2 ^ 39 % 2 ^ 9)))

abbrev pub pd_of : Cells → ℕ → ℕ → ℕ
pd_of m cr3 vaddr = page_of (m (entry (pdp_of m cr3 vaddr) (vaddr / 2 ^ 30 % 2 ^ 9)))

abbrev pub pt_of : Cells → ℕ → ℕ → ℕ
pt_of m cr3 vaddr = page_of (m (entry (pd_of m cr3 vaddr) (vaddr / 2 ^ 21 % 2 ^ 9)))

next_table-present :
    (table index base flags : ℕ) (m : Cells)
    → is_absent m (entry table index) ≡ false
    → next_table table index base flags m ≡ some (page_of (m (entry table index)), m)
unfolding next_table
next_table-present table index base flags m here = rw here

-- Where the entries of the three upper levels for an address are present, pmap sets the word of
-- the lowest level that the walk reaches to the frame with its flags, and changes no other word.
pub pmap-present :
    (cr3 paddr vaddr flags : ℕ) (m : Cells)
    → is_absent m (entry cr3 (vaddr / 2 ^ 39 % 2 ^ 9)) ≡ false
    → is_absent m (entry (pdp_of m cr3 vaddr) (vaddr / 2 ^ 30 % 2 ^ 9)) ≡ false
    → is_absent m (entry (pd_of m cr3 vaddr) (vaddr / 2 ^ 21 % 2 ^ 9)) ≡ false
    → let slot = entry (pt_of m cr3 vaddr) (vaddr / 2 ^ 12 % 2 ^ 9) in
      (m' : Cells) × (pmap cr3 paddr vaddr flags m ≡ some m')
      × (m' slot ≡ page_entry (page_of paddr) flags)
      × ((a : ℕ) → a ≢ slot → m' a ≡ m a)
unfolding pmap
pmap-present cr3 paddr vaddr flags m p1 p2 p3 =
    let slot : ℕ = entry (pt_of m cr3 vaddr) (vaddr / 2 ^ 12 % 2 ^ 9) in
    (
      update m slot (page_entry (page_of paddr) flags),
      rw (
        next_table-present cr3 _ (entry cr3 512) flags m p1,
        next_table-present (pdp_of m cr3 vaddr) _ (entry (entry cr3 512) 512) flags m p2,
        next_table-present (pd_of m cr3 vaddr) _ (entry (entry (entry cr3 512) 512) (512 * 6)) flags
            m p3,
      ),
      ground arith,
      λ a h. ground arith,
    )
