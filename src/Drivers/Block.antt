-- ===== src/Drivers/Block.antt =====
-- drivers/block/block_device.c: the AHCI disk as a block device. The sector driver is a parameter:
-- ahci_read and ahci_write of disk 0, with the first sector and their number.
pub mod Logical
use ester.Prelude.{ℕ, ◌+◌, ◌*◌, ◌/◌, ◌%◌, ◌^◌, Cells, Option, none, some}
use ester.Ext2.Layout.{BlockDevice, logical_block_size}

abbrev pub sector_size : ℕ
sector_size = 512

-- The status and the bytes of the sectors, and the status and the disk after a write.
pub record SectorDriver (D : Type 0) : Type 0 where
  pub ahci_read : D → ℕ → ℕ → ℕ × Cells
  pub ahci_write : D → ℕ → ℕ → Cells → ℕ × D

module _ {D : Type 0} (driver : SectorDriver D) where
  -- `lbn` is 64 bits wide, `count` 32.
  unfoldable pub ahci_read_wrapper : D → ℕ → ℕ → ℕ × Cells
  ahci_read_wrapper d lbn count =
      driver.ahci_read d (lbn * logical_block_size % 2 ^ 64 / sector_size)
        (count * logical_block_size % 2 ^ 32 / sector_size)

  unfoldable pub ahci_write_wrapper : D → ℕ → ℕ → Cells → ℕ × D
  ahci_write_wrapper d lbn count buffer =
      driver.ahci_write d (lbn * logical_block_size % 2 ^ 64 / sector_size)
        (count * logical_block_size % 2 ^ 32 / sector_size) buffer

  abbrev pub ahci_device : BlockDevice D
  ahci_device = record { read_blocks = ahci_read_wrapper; write_blocks = ahci_write_wrapper }

-- `global_blk_dev`: none before the first registration.
unfoldable pub register_block_device :
    {D : Type 0} → BlockDevice D → Option (BlockDevice D) → Option (BlockDevice D)
register_block_device device old = some device

unfoldable pub init_block_device :
    {D : Type 0} → SectorDriver D → Option (BlockDevice D) → Option (BlockDevice D)
init_block_device driver old = register_block_device (ahci_device driver) old
