-- ===== src/Ext2/Inode.antt =====
-- fs/ext2/inode.c: where an inode lies on the disk, reading it and writing it back. `none` stands
-- for what C leaves undefined: a division by zero, a group past the table, a copy past the buffer.
pub mod Place
pub mod Store
use ester.Prelude.{
  ℕ, ◌+◌, ◌-◌, ◌*◌, ◌/◌, ◌%◌, ◌^◌, Option, none, some, Cells, ◌||◌, ltb, ◌==◌, if◌then◌else◌, ◌>>=◌,
}
use ester.Ext2.Layout.{
  BlockDevice, ext2_read_block, ext2_write_block, get32, blit, bg_inode_table, sizeof_inode,
}
use ester.Ext2.Super.{
  Fs, ext2_get_bgd, ext2_get_block_size, ext2_get_inode_size, ext2_get_inodes_per_group,
}

-- Block and offset of an inode.
pub record Position : Type 0 where
  pub block : ℕ
  pub offset : ℕ

-- The group and the index in its table; `inode_num - 1` wraps at 0.
abbrev pub group_of : ℕ → ℕ → ℕ
group_of inode_num ipg = (inode_num + 2 ^ 32 - 1) % 2 ^ 32 / ipg

abbrev pub index_of : ℕ → ℕ → ℕ
index_of inode_num ipg = (inode_num + 2 ^ 32 - 1) % 2 ^ 32 % ipg

module _ {D : Type 0} where
  -- The lines that ext2_extract_inode and ext2_inode_write share.
  unfoldable pub inode_position : Fs D → ℕ → Option Position
  inode_position fs inode_num =
      let inode_size = ext2_get_inode_size fs in
      let ipg = ext2_get_inodes_per_group fs in
      let block_size = ext2_get_block_size fs in
      if (ipg == 0) || (block_size == 0) then none else do
        bgd ← ext2_get_bgd (group_of inode_num ipg)
        let at = index_of inode_num ipg * inode_size % 2 ^ 32
        if ltb block_size (at % block_size + sizeof_inode)
            then none
            else some (record {
              block = (get32 fs.bgdt (bgd + bg_inode_table) + at / block_size) % 2 ^ 32;
              offset = at % block_size;
            })

module _ {D : Type 0} (dev : BlockDevice D) where
  -- The last argument is the old content of `__current_inode`, the result the new one.
  unfoldable pub ext2_extract_inode : Fs D → ℕ → Cells → Option Cells
  ext2_extract_inode fs inode_num current = do
    p ← inode_position fs inode_num
    let buffer = (ext2_read_block dev fs.disk p.block).1
    some (blit current 0 buffer p.offset sizeof_inode)

  unfoldable pub ext2_inode_write : ℕ → Cells → Fs D → Option (Fs D)
  ext2_inode_write inode_num inode fs = do
    p ← inode_position fs inode_num
    let buffer = (ext2_read_block dev fs.disk p.block).1
    some (record fs {
      disk = (ext2_write_block dev fs.disk p.block (blit buffer p.offset inode 0 sizeof_inode)).1;
    })
