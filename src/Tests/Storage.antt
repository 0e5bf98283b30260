-- ===== src/Tests/Storage.antt =====
-- A sector disk in memory, and a number printed at the start of it.
use ester.Prelude.{
  ℕ, ◌+◌, ◌-◌, ◌*◌, ◌%◌, ◌<◌, ◌≡◌, ◌&&◌, refl, some, Cells, arith, leb, ltb, if◌then◌else◌,
}
use ester.Ext2.Layout.{logical_block_size}
use ester.Drivers.Block.{SectorDriver, ahci_read_wrapper, ahci_write_wrapper}
use ester.Drivers.Block.Logical.{IsSectorDisk, write_wrapper-read}
use ester.Kernel.Decimal.{itoa}
use ester.Kernel.Decimal.ReadBack.{IsDecimal, itoa-IsDecimal}

-- The bytes of the disk from its start on.
abbrev flat : SectorDriver Cells
flat = record {
  ahci_read = λ d lba count. (0, λ i. d (lba * 512 + i) % 256);
  ahci_write = λ d lba count buff. (
    0,
    λ a. if leb (lba * 512) a && ltb a (lba * 512 + count * 512) then buff (a - lba * 512) else d a,
  );
}

abbrev sevens : Cells
sevens i = 7

abbrev zeros : Cells
zeros i = 0

flat-IsSectorDisk : IsSectorDisk flat 64
flat-IsSectorDisk = record {
  transfer_ok = λ d lba count h. refl;
  transfer_byte = λ d lba count i. omega arith;
  transfer_written =
      λ d lba count buff i room inside bytes. written d lba count buff i inside (bytes i);
  transfer_other = λ d lba other count buff i apart inside. ground (arith, apart, inside);
}
  where
    written :
        (d : Cells) (lba count : ℕ) (buff : Cells) (i : ℕ)
        → i < count * 512
        → buff i < 256
        → (if leb (lba * 512) (lba * 512 + i) && ltb (lba * 512 + i) (lba * 512 + count * 512)
              then buff (lba * 512 + i - lba * 512)
              else d (lba * 512 + i))
            % 256
          ≡ buff i
    written d lba count buff i inside byte =
        let back : lba * 512 + i - lba * 512 ≡ i = omega arith in rw back (ground arith)

write_wrapper-read_example :
    let d' = (ahci_write_wrapper flat zeros 2 1 sevens).1 in
    ((ahci_read_wrapper flat d' 2 1).0 ≡ 0)
    × ((i : ℕ) → i < logical_block_size → (ahci_read_wrapper flat d' 2 1).1 i ≡ sevens i)
    × ((i : ℕ)
        → i < logical_block_size
        → (ahci_read_wrapper flat d' 3 1).1 i ≡ (ahci_read_wrapper flat zeros 3 1).1 i)
write_wrapper-read_example =
    write_wrapper-read flat 64 zeros 2 3 sevens flat-IsSectorDisk (omega arith) (omega arith)
      (omega arith) (λ e. absurd (omega arith)) (λ j. omega arith)

itoa-IsDecimal_example :
    (n : ℕ) × (m' : Cells) × (itoa 1205 0 zeros ≡ some m') × IsDecimal zeros 1205 0 n m'
itoa-IsDecimal_example = itoa-IsDecimal 1205 0 zeros (omega arith)
