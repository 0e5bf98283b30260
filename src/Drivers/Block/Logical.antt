-- ===== src/Drivers/Block/Logical.antt =====
-- Over a working sector driver the AHCI device is a disk of 4096-byte blocks.
use ester.Prelude.{ℕ, ◌+◌, ◌*◌, ◌/◌, ◌%◌, ◌^◌, ◌≤◌, ◌<◌, ◌≡◌, ◌≢◌, ◌⊎◌, Cells, arith, ap}
use ester.Ext2.Layout.{logical_block_size}
use ester.Drivers.Block.{SectorDriver, sector_size, ahci_read_wrapper, ahci_write_wrapper}

-- Documented behaviour of a disk of `sectors` sectors: a transfer within it succeeds; reads give
-- bytes; a written range reads back, and a range apart from it is kept.
pub record IsSectorDisk {D : Type 0} (driver : SectorDriver D) (sectors : ℕ) : Type 0 where
  pub transfer_ok :
      (d : D) (lba count : ℕ) → lba + count ≤ sectors → (driver.ahci_read d lba count).0 ≡ 0
  pub transfer_byte : (d : D) (lba count i : ℕ) → (driver.ahci_read d lba count).1 i < 256
  pub transfer_written :
      (d : D) (lba count : ℕ) (buff : Cells) (i : ℕ)
      → lba + count ≤ sectors
      → i < count * sector_size
      → ((j : ℕ) → buff j < 256)
      → (driver.ahci_read (driver.ahci_write d lba count buff).1 lba count).1 i ≡ buff i
  pub transfer_other :
      (d : D) (lba other count : ℕ) (buff : Cells) (i : ℕ)
      → (lba + count ≤ other) ⊎ (other + count ≤ lba)
      → i < count * sector_size
      → (driver.ahci_read (driver.ahci_write d lba count buff).1 other count).1 i
        ≡ (driver.ahci_read d other count).1 i

-- The first sector of a block.
sector_of : (b : ℕ) → b < 2 ^ 52 → b * logical_block_size % 2 ^ 64 / sector_size ≡ b * 8
sector_of b h = omega arith

module _ {D : Type 0} (driver : SectorDriver D) (d : D) (b : ℕ) (h : b < 2 ^ 52) where
  read_wrapper-eq : ahci_read_wrapper driver d b 1 ≡ driver.ahci_read d (b * 8) 8
  unfolding ahci_read_wrapper
  read_wrapper-eq = ap (λ (t : ℕ). driver.ahci_read d t 8) (sector_of b h)

  write_wrapper-eq :
      (buff : Cells) → ahci_write_wrapper driver d b 1 buff ≡ driver.ahci_write d (b * 8) 8 buff
  unfolding ahci_write_wrapper
  write_wrapper-eq buff = ap (λ (t : ℕ). driver.ahci_write d t 8 buff) (sector_of b h)

-- Over a sector disk of `sectors` sectors with documented behaviour: a block within it, once
-- written through ahci_write_wrapper, is read back through ahci_read_wrapper with status 0 and the
-- bytes that were written, and any other block below 2 ^ 52 reads as before.
pub write_wrapper-read :
    {D : Type 0} (driver : SectorDriver D) (sectors : ℕ) (d : D) (b c : ℕ) (buff : Cells)
    → IsSectorDisk driver sectors
    → b < 2 ^ 52
    → c < 2 ^ 52
    → b * 8 + 8 ≤ sectors
    → b ≢ c
    → ((j : ℕ) → buff j < 256)
    → let d' = (ahci_write_wrapper driver d b 1 buff).1 in
      ((ahci_read_wrapper driver d' b 1).0 ≡ 0)
      × ((i : ℕ) → i < logical_block_size → (ahci_read_wrapper driver d' b 1).1 i ≡ buff i)
      × ((i : ℕ)
          → i < logical_block_size
          → (ahci_read_wrapper driver d' c 1).1 i ≡ (ahci_read_wrapper driver d c 1).1 i)
write_wrapper-read driver sectors d b c buff laws hb hc room ne bytes = (
  rw
      (
        write_wrapper-eq driver d b hb buff,
        read_wrapper-eq driver (driver.ahci_write d (b * 8) 8 buff).1 b hb,
      )
      (laws.transfer_ok _ (b * 8) 8 room),
  λ i h.
      rw
        (
          write_wrapper-eq driver d b hb buff,
          read_wrapper-eq driver (driver.ahci_write d (b * 8) 8 buff).1 b hb,
        )
        (laws.transfer_written d (b * 8) 8 buff i room (omega arith) bytes),
  λ i h.
      rw
        (
          write_wrapper-eq driver d b hb buff,
          read_wrapper-eq driver (driver.ahci_write d (b * 8) 8 buff).1 c hc,
          read_wrapper-eq driver d c hc,
        )
        (laws.transfer_other d (b * 8) (c * 8) 8 buff i (omega arith) (omega arith)),
)
