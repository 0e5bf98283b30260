-- ===== src/Ext2/Super/Sync.antt =====
-- Writing the superblock and the group descriptors back: what each block of the disk then holds.
use ester.Prelude.{ℕ, ◌<◌, ◌≡◌, ◌≢◌, refl, sym, ◌∙◌, Cells, arith}
use ester.Ext2.Layout.{BlockDevice, IsDisk, blit, sizeof_super_block, logical_block_size}
use ester.Ext2.Layout.Fields.{blit-lt}
use ester.Ext2.Super.{Fs, ext2_write_bgdt, ext2_write_sb, sizeof_bgdt}

-- The bytes of a block on the disk.
abbrev pub block : {D : Type 0} → BlockDevice D → Fs D → ℕ → Cells
block dev fs b = (dev.read_blocks fs.disk b 1).1

-- Both structures in memory are made of bytes.
pub record IsBytes {D : Type 0} (fs : Fs D) : Type 0 where
  pub sb_byte : (k : ℕ) → fs.sb k < 256
  pub bgdt_byte : (k : ℕ) → fs.bgdt k < 256

module _ {D : Type 0} (dev : BlockDevice D) (size : ℕ) (laws : IsDisk dev size) (big : 1 < size)
    (fs : Fs D) (bytes : IsBytes fs) where
  pub write_bgdt-block :
      (k : ℕ) → k < logical_block_size → block dev (ext2_write_bgdt dev fs) 1 k ≡ fs.bgdt k
  unfolding ext2_write_bgdt blit
  write_bgdt-block k h =
      laws.read_written fs.disk 1 _ k big h
        (λ j. blit-lt _ 0 fs.bgdt 0 sizeof_bgdt j (laws.read_byte fs.disk 1) bytes.bgdt_byte)
      ∙ ground arith

  pub write_bgdt-other :
      (b k : ℕ) → b ≢ 1 → block dev (ext2_write_bgdt dev fs) b k ≡ block dev fs b k
  unfolding ext2_write_bgdt
  write_bgdt-other b k h = laws.read_other fs.disk 1 b _ k (λ e. h (sym e))

  pub write_sb-status : (ext2_write_sb dev fs).0 ≡ 0
  unfolding ext2_write_sb
  write_sb-status = ground (arith, laws.read_ok fs.disk 0 (omega arith))

  pub write_sb-block :
      (k : ℕ)
      → k < logical_block_size
      → block dev (ext2_write_sb dev fs).1 0 k
        ≡ blit (block dev fs 0) 1024 fs.sb 0 sizeof_super_block k
  unfolding ext2_write_sb
  write_sb-block k h = rw (laws.read_ok fs.disk 0 (omega arith)) (
      laws.read_written fs.disk 0 _ k (omega arith) h
        (λ j. blit-lt _ 1024 fs.sb 0 sizeof_super_block j (laws.read_byte fs.disk 0) bytes.sb_byte))

  pub write_sb-other : (b k : ℕ) → b ≢ 0 → block dev (ext2_write_sb dev fs).1 b k ≡ block dev fs b k
  unfolding ext2_write_sb
  write_sb-other b k h =
      rw (laws.read_ok fs.disk 0 (omega arith)) (laws.read_other fs.disk 0 b _ k (λ e. h (sym e)))

module _ {D : Type 0} (dev : BlockDevice D) (fs : Fs D) where
  pub write_bgdt-memory :
      ((ext2_write_bgdt dev fs).sb ≡ fs.sb) × ((ext2_write_bgdt dev fs).bgdt ≡ fs.bgdt)
  unfolding ext2_write_bgdt
  write_bgdt-memory = (refl, refl)

  pub write_sb-memory :
      ((ext2_write_sb dev fs).1.sb ≡ fs.sb) × ((ext2_write_sb dev fs).1.bgdt ≡ fs.bgdt)
  unfolding ext2_write_sb
  write_sb-memory = (ground arith, ground arith)
