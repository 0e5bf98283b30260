-- ===== src/Ext2/Inode/Store.antt =====
-- An inode that was written is read back, and no other inode changes.
use ester.Prelude.{ℕ, ◌+◌, ◌*◌, ◌≤◌, ◌<◌, ◌≡◌, ◌≢◌, ◌⊎◌, refl, sym, ap, ◌∙◌, some, Cells, arith}
use native.Mathlib.Decide.{ℕ_discrete}
use native.Mathlib.Nat.{zero-add}
use ester.Ext2.Layout.{BlockDevice, IsDisk, blit, sizeof_inode, logical_block_size}
use ester.Ext2.Layout.Fields.{blit_inside, blit_outside, blit_front, blit-lt}
use ester.Ext2.Super.{Fs, ext2_get_block_size, ext2_get_inode_size, ext2_get_inodes_per_group}
use ester.Ext2.Inode.{Position, inode_position, ext2_extract_inode, ext2_inode_write}
use ester.Ext2.Inode.Place.{IsSound, IsInode, position_some, starts_apart}

-- The inode that the disk has at a position.
abbrev pub disk_inode : {D : Type 0} → BlockDevice D → Fs D → Position → Cells
disk_inode dev fs p k = (dev.read_blocks fs.disk p.block 1).1 (p.offset + k)

pub extract_byte :
    {D : Type 0} (dev : BlockDevice D) (fs : Fs D) (n : ℕ) (p : Position) (current : Cells)
    → inode_position fs n ≡ some p
    → (inode : Cells) × (ext2_extract_inode dev fs n current ≡ some inode)
      × ((k : ℕ) → k < sizeof_inode → inode k ≡ disk_inode dev fs p k)
unfolding ext2_extract_inode
extract_byte dev fs n p current place = (
  blit current 0 (dev.read_blocks fs.disk p.block 1).1 p.offset sizeof_inode,
  rw place,
  λ k h. blit_front current _ p.offset sizeof_inode k h,
)

pub position_disk :
    {D : Type 0} (fs : Fs D) (d : D) (n : ℕ)
    → inode_position (record fs { disk = d }) n ≡ inode_position fs n
unfolding inode_position ext2_get_block_size ext2_get_inode_size ext2_get_inodes_per_group
position_disk fs d n = refl

module _ {D : Type 0} (dev : BlockDevice D) (size : ℕ) (laws : IsDisk dev size) (fs : Fs D)
    (groups : ℕ) (sound : IsSound fs groups)
    (blocks : ext2_get_block_size fs ≤ logical_block_size) where
  -- Where the inode lies, and that the disk has that block.
  unfoldable pub OnDisk : ℕ → Type 0
  OnDisk n = (p : Position) → inode_position fs n ≡ some p → p.block < size

  module _ (n : ℕ) (is_inode : IsInode fs groups n) (here : OnDisk n) (inode : Cells)
      (bytes : (k : ℕ) → inode k < 256) where
    abbrev at : Position
    at = (position_some fs groups sound n is_inode).0

    abbrev after : Fs D
    after = record fs {
      disk =
          (dev.write_blocks fs.disk at.block 1
            (blit (dev.read_blocks fs.disk at.block 1).1 at.offset inode 0 sizeof_inode)).1;
    }

    written : ext2_inode_write dev n inode fs ≡ some after
    unfolding ext2_inode_write
    written = rw (position_some fs groups sound n is_inode).1

    -- Every byte of the block after the write.
    block_after :
        (j : ℕ)
        → j < logical_block_size
        → (dev.read_blocks after.disk at.block 1).1 j
          ≡ blit (dev.read_blocks fs.disk at.block 1).1 at.offset inode 0 sizeof_inode j
    unfolding OnDisk
    block_after j h =
        laws.read_written fs.disk at.block _ j
          (here at (position_some fs groups sound n is_inode).1) h
          (λ i. blit-lt _ at.offset inode 0 sizeof_inode i (laws.read_byte fs.disk at.block) bytes)

    -- On a file system with `groups` groups, at most 128, of a sound geometry in which their inode
    -- tables lie apart, and for an inode of one of them: ext2_inode_write of an inode, then
    -- ext2_extract_inode of the same number, gives the 128 bytes that were written, whatever the
    -- current inode was.
    pub extract-inode_write :
        (current : Cells)
        → (fs' : Fs D) × (ext2_inode_write dev n inode fs ≡ some fs')
          × (c : Cells) × (ext2_extract_inode dev fs' n current ≡ some c)
          × ((k : ℕ) → k < sizeof_inode → c k ≡ inode k)
    unfolding ext2_extract_inode
    extract-inode_write current = (
      after,
      written,
      blit current 0 (dev.read_blocks after.disk at.block 1).1 at.offset sizeof_inode,
      rw (position_disk fs after.disk n, (position_some fs groups sound n is_inode).1),
      λ k h. read k h,
    )
      where
        read :
            (k : ℕ)
            → k < sizeof_inode
            → blit current 0 (dev.read_blocks after.disk at.block 1).1 at.offset sizeof_inode k
              ≡ inode k
        read k h =
            blit_front current _ at.offset sizeof_inode k h
            ∙ block_after (at.offset + k)
                (omega (arith, (position_some fs groups sound n is_inode).3, blocks, h))
            ∙ blit_inside _ at.offset inode 0 sizeof_inode k h
            ∙ ap inode (zero-add k)

    -- On a file system with `groups` groups, at most 128, of a sound geometry in which their inode
    -- tables lie apart: ext2_inode_write of an inode leaves every inode of another number in these
    -- groups as it was: ext2_extract_inode gives the same bytes before and after.
    pub extract-inode_write_other :
        (m : ℕ) (current : Cells)
        → IsInode fs groups m
        → m ≢ n
        → (fs' : Fs D) × (ext2_inode_write dev n inode fs ≡ some fs')
          × (b : Cells) × (ext2_extract_inode dev fs m current ≡ some b)
          × (c : Cells) × (ext2_extract_inode dev fs' m current ≡ some c)
          × ((k : ℕ) → k < sizeof_inode → c k ≡ b k)
    unfolding ext2_extract_inode
    extract-inode_write_other m current im ne = (
      after,
      written,
      blit current 0 (dev.read_blocks fs.disk q.block 1).1 q.offset sizeof_inode,
      rw (position_some fs groups sound m im).1,
      blit current 0 (dev.read_blocks after.disk q.block 1).1 q.offset sizeof_inode,
      rw (position_disk fs after.disk m, (position_some fs groups sound m im).1),
      λ k h.
          blit_front current _ q.offset sizeof_inode k h
          ∙ kept k h
          ∙ sym (blit_front current _ q.offset sizeof_inode k h),
    )
      where
        q : Position
        q = (position_some fs groups sound m im).0

        apart :
            at.block ≡ q.block
            → (q.offset + sizeof_inode ≤ at.offset) ⊎ (at.offset + sizeof_inode ≤ q.offset)
        apart e = omega (
          arith,
          ap (λ (t : ℕ). t * ext2_get_block_size fs) e,
          (position_some fs groups sound n is_inode).2,
          (position_some fs groups sound m im).2,
          starts_apart fs groups sound m n im is_inode ne,
        )

        kept :
            (k : ℕ)
            → k < sizeof_inode
            → (dev.read_blocks after.disk q.block 1).1 (q.offset + k)
              ≡ (dev.read_blocks fs.disk q.block 1).1 (q.offset + k)
        kept k h = elim (ℕ_discrete at.block q.block) [
          | yes e ↦
              ap (λ b. (dev.read_blocks after.disk b 1).1 (q.offset + k)) (sym e)
              ∙ block_after (q.offset + k)
                  (omega (arith, (position_some fs groups sound m im).3, blocks, h))
              ∙ blit_outside _ at.offset inode 0 sizeof_inode (q.offset + k)
                  (omega (arith, apart e, h))
              ∙ ap (λ b. (dev.read_blocks fs.disk b 1).1 (q.offset + k)) e
          | no other ↦ laws.read_other fs.disk at.block q.block _ (q.offset + k) other
        ]
