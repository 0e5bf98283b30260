-- ===== src/Drivers/Ahci/Init.antt =====
-- ahci_init of drivers/ahci/ahci.c. The page tables are the memory of words that pmap works on; the
-- controller's memory and registers are the machine's. `none` is also a scan without a controller,
-- for which the source goes on with whatever pci_ahci_get_abar left as its result.
pub mod Polls
pub mod Engine
pub mod Started
use ester.Prelude.{ℕ, Option, some, Cells, List, ◌>>=◌}
use ester.Pci.{DevVector}
use ester.Pci.Abar.{pci_ahci_get_abar}
use ester.Kernel.Paging.{pmap}
use ester.Drivers.Ahci.{Machine}
use ester.Drivers.Ahci.Transfer.{ahci_start}

-- What a call leaves: the status, `hba_mem_ptr`, the port writes, the page tables and the machine.
pub record Inited (M : Type 0) : Type 0 where
  pub status : ℕ
  pub hba_mem_ptr : ℕ
  pub log : List (ℕ × ℕ)
  pub tables : Cells
  pub machine : M

unfoldable pub ahci_init :
    {M : Type 0}
    → Machine M
    → ℕ
    → Cells
    → DevVector
    → ℕ
    → List (ℕ × ℕ)
    → Cells
    → M
    → Option (Inited M)
ahci_init machine fuel config v cr3 log tables m = do
  (abar, log') ← pci_ahci_get_abar config v log
  tables' ← pmap cr3 abar abar 0 tables
  m' ← ahci_start machine fuel abar m
  some (record { status = 0; hba_mem_ptr = abar; log = log'; tables = tables'; machine = m' })
