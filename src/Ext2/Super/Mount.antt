-- ===== src/Ext2/Super/Mount.antt =====
-- Mounting: what ext2_extract_sb and ext2_extract_bgdt take from the disk, and on which disks they
-- fail; and that writing back and mounting again gives the same structures.
use ester.Prelude.{
  ℕ, ◌+◌, ◌<◌, ◌≡◌, ◌↔◌, ◌⊎◌, ◌&&◌, refl, ◌∙◌, ap, Cells, arith, ltb, ◌==◌, if◌then◌else◌,
}
use native.Mathlib.Nat.{zero-add}
use ester.Ext2.Layout.{BlockDevice, IsDisk, get16, blit, s_magic, sizeof_super_block}
use ester.Ext2.Layout.Fields.{blit_inside, get16_ext}
use ester.Ext2.Super.{
  Fs, ext2_extract_sb, ext2_extract_bgdt, ext2_write_bgdt, ext2_write_sb, sizeof_bgdt,
}
use ester.Ext2.Super.Sync.{
  block, IsBytes, write_bgdt-block, write_sb-block, write_sb-other, write_bgdt-memory,
}

module _ {D : Type 0} (dev : BlockDevice D) (fs : Fs D) where
  -- ext2_extract_sb returns 0 exactly when block 0 can be read and holds the magic number at byte
  -- 1080, and 255 otherwise. After a read that worked, the 92 bytes from 1024 on are in memory; after
  -- a failed one memory is as it was. It never touches the disk or the descriptors.
  pub extract_sb_lem :
      let (r, fs') = ext2_extract_sb dev fs in
      let (status, bytes) = dev.read_blocks fs.disk 0 1 in
      ((r ≡ 0) ↔ ((status ≡ 0) × (get16 bytes (1024 + s_magic) ≡ 0xEF53)))
      × ((r ≡ 0) ⊎ (r ≡ 255))
      × (fs'.disk ≡ fs.disk)
      × (fs'.bgdt ≡ fs.bgdt)
      × ((k : ℕ)
          → fs'.sb k
            ≡ (if (status == 0) && ltb k sizeof_super_block then bytes (1024 + k) else fs.sb k))
  unfolding ext2_extract_sb blit get16
  extract_sb_lem = (ground arith, ground arith, ground arith, ground arith, λ k. ground arith)

  extract_bgdt-sb : (ext2_extract_bgdt dev fs).1.sb ≡ fs.sb
  unfolding ext2_extract_bgdt
  extract_bgdt-sb = refl

  extract_bgdt-get :
      (k : ℕ)
      → k < sizeof_bgdt
      → (ext2_extract_bgdt dev fs).1.bgdt k ≡ (dev.read_blocks fs.disk 1 1).1 k
  unfolding ext2_extract_bgdt blit
  extract_bgdt-get k h = ground arith

module _ {D : Type 0} (dev : BlockDevice D) (size : ℕ) (laws : IsDisk dev size) (big : 1 < size)
    (fs : Fs D) (bytes : IsBytes fs) where
  -- Writing both structures back and mounting the disk again, over any old memory contents, gives
  -- status 0 if the superblock has the magic number, and the same superblock and descriptors.
  pub remount :
      get16 fs.sb s_magic ≡ 0xEF53
      → (old_sb old_bgdt : Cells)
      → let saved = (ext2_write_sb dev (ext2_write_bgdt dev fs)).1 in
        let mounted = ext2_extract_sb dev (record saved { sb = old_sb; bgdt = old_bgdt }) in
        let fs' = (ext2_extract_bgdt dev mounted.1).1 in
        (mounted.0 ≡ 0)
        × ((k : ℕ) → k < sizeof_super_block → fs'.sb k ≡ fs.sb k)
        × ((k : ℕ) → k < sizeof_bgdt → fs'.bgdt k ≡ fs.bgdt k)
  remount magic old_sb old_bgdt = (
    (extract_sb_lem dev blank).0.1 (laws.read_ok saved.disk 0 (omega arith), on_magic),
    λ k h. mount_sb k h,
    λ k h. mount_bgdt k h,
  )
    where
      saved : Fs D
      saved = (ext2_write_sb dev (ext2_write_bgdt dev fs)).1

      blank : Fs D
      blank = record saved { sb = old_sb; bgdt = old_bgdt }

      bytes' : IsBytes (ext2_write_bgdt dev fs)
      bytes' = record {
        sb_byte = λ k. rw (write_bgdt-memory dev fs).0 (bytes.sb_byte k);
        bgdt_byte = λ k. rw (write_bgdt-memory dev fs).1 (bytes.bgdt_byte k);
      }

      on_disk : (k : ℕ) → k < sizeof_super_block → block dev saved 0 (1024 + k) ≡ fs.sb k
      on_disk k h =
          write_sb-block dev size laws big (ext2_write_bgdt dev fs) bytes' (1024 + k) (omega arith)
          ∙ blit_inside _ 1024 (ext2_write_bgdt dev fs).sb 0 sizeof_super_block k h
          ∙ ap (λ (b : Cells). b (0 + k)) (write_bgdt-memory dev fs).0
          ∙ ap fs.sb (zero-add k)

      on_magic : get16 (block dev saved 0) (1024 + s_magic) ≡ 0xEF53
      on_magic =
          get16_ext _ _ (1024 + s_magic) s_magic (on_disk s_magic (omega arith))
            (on_disk (s_magic + 1) (omega arith))
          ∙ magic

      mount_sb :
          (k : ℕ)
          → k < sizeof_super_block
          → (ext2_extract_bgdt dev (ext2_extract_sb dev blank).1).1.sb k ≡ fs.sb k
      mount_sb k h =
          ap (λ (b : Cells). b k) (extract_bgdt-sb dev (ext2_extract_sb dev blank).1)
          ∙ ground (arith, (extract_sb_lem dev blank).4 k, laws.read_ok saved.disk 0, on_disk k h)

      mount_bgdt :
          (k : ℕ)
          → k < sizeof_bgdt
          → (ext2_extract_bgdt dev (ext2_extract_sb dev blank).1).1.bgdt k ≡ fs.bgdt k
      mount_bgdt k h =
          extract_bgdt-get dev (ext2_extract_sb dev blank).1 k h
          ∙ ap (λ d. (dev.read_blocks d 1 1).1 k) (extract_sb_lem dev blank).2
          ∙ write_sb-other dev size laws big (ext2_write_bgdt dev fs) bytes' 1 k (omega arith)
          ∙ write_bgdt-block dev size laws big fs bytes k h
