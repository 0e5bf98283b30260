-- ===== src/Ext2/Super.antt =====
-- fs/ext2/superblock.c and fs/ext2/group.c: the superblock and the group descriptors in memory,
-- mounting, writing back, and the allocators. `none` is a group past the end of `__bgdt`, for
-- which C leaves the behaviour undefined.
pub mod Find
pub mod Sync
pub mod Alloc
pub mod Mount
use ester.Prelude.{
  ℕ, zero, suc, ◌+◌, ◌-◌, ◌*◌, ◌%◌, ◌^◌, Option, none, some, Cells, ltb, ◌==◌, not, if◌then◌else◌,
  ◌>>=◌,
}
use ester.Prelude.Bits.{is_clear, set_bit}
use ester.Ext2.Layout.{
  BlockDevice, ext2_read_block, ext2_write_block, get16, get32, set16, set32, blit,
  s_free_blocks_count, s_free_inodes_count, s_log_block_size, s_blocks_per_group,
  s_inodes_per_group, s_magic, s_inode_size, sizeof_super_block, sizeof_group_descriptor,
  bg_block_bitmap, bg_inode_bitmap, bg_free_blocks_count, bg_free_inodes_count,
}

-- `__sb` and `__bgdt` as their bytes, and the device.
pub record Fs (D : Type 0) : Type 0 where
  pub disk : D
  pub sb : Cells
  pub bgdt : Cells

abbrev pub max_groups : ℕ
max_groups = 128

abbrev pub sizeof_bgdt : ℕ
sizeof_bgdt = max_groups * sizeof_group_descriptor

-- The first `i` from the loop's index on whose bit in the map is clear.
unfoldable pub find_clear : ℕ → ℕ → Cells → Option ℕ
find_clear zero i map = none
find_clear (suc left) i map =
    let rest = find_clear left (i + 1) map in if is_clear map i then some i else rest

module _ {D : Type 0} where
  -- 1024 << s_log_block_size
  unfoldable pub ext2_get_block_size : Fs D → ℕ
  ext2_get_block_size fs = 1024 * 2 ^ get32 fs.sb s_log_block_size % 2 ^ 32

  unfoldable pub ext2_get_inodes_per_group : Fs D → ℕ
  ext2_get_inodes_per_group fs = get32 fs.sb s_inodes_per_group

  unfoldable pub ext2_get_inode_size : Fs D → ℕ
  ext2_get_inode_size fs = get16 fs.sb s_inode_size

-- The offset of the descriptor in `__bgdt`.
unfoldable pub ext2_get_bgd : ℕ → Option ℕ
ext2_get_bgd group_num =
    if ltb group_num max_groups then some (group_num * sizeof_group_descriptor) else none

module _ {D : Type 0} (dev : BlockDevice D) where
  -- A return of -1 is 255.
  unfoldable pub ext2_extract_sb : Fs D → ℕ × Fs D
  ext2_extract_sb fs =
      let (status, buffer) = ext2_read_block dev fs.disk 0 in
      let sb = blit fs.sb 0 buffer 1024 sizeof_super_block in
      if not (status == 0)
      then (255, fs)
      else if not (get16 sb s_magic == 0xEF53)
      then (255, record fs { sb = sb })
      else (0, record fs { sb = sb })

  unfoldable pub ext2_extract_bgdt : Fs D → ℕ × Fs D
  ext2_extract_bgdt fs =
      let (_, buffer) = ext2_read_block dev fs.disk 1 in
      (0, record fs { bgdt = blit fs.bgdt 0 buffer 0 sizeof_bgdt })

  unfoldable pub ext2_write_bgdt : Fs D → Fs D
  ext2_write_bgdt fs =
      let (_, buffer) = ext2_read_block dev fs.disk 1 in
      let (_, disk) = ext2_write_block dev fs.disk 1 (blit buffer 0 fs.bgdt 0 sizeof_bgdt) in
      record fs { disk = disk }

  unfoldable pub ext2_write_sb : Fs D → ℕ × Fs D
  ext2_write_sb fs =
      let (status, buffer) = ext2_read_block dev fs.disk 0 in
      let (_, disk) =
        ext2_write_block dev fs.disk 0 (blit buffer 1024 fs.sb 0 sizeof_super_block) in
      if not (status == 0) then (1, fs) else (0, record fs { disk = disk })

  -- What both allocators do with the bit that they found: `bitmap_block` is the map's block, `group_count` the
  -- offset of the group's counter in `__bgdt`, `total` that of the counter in `__sb`.
  unfoldable pub take_bit : ℕ → Cells → ℕ → ℕ → ℕ → Fs D → Fs D
  take_bit bitmap_block bitmap i group_count total fs =
      let (_, disk) = ext2_write_block dev fs.disk bitmap_block (set_bit bitmap i) in
      let bgdt = set16 fs.bgdt group_count ((get16 fs.bgdt group_count + 2 ^ 16 - 1) % 2 ^ 16) in
      let fs' = ext2_write_bgdt (record fs { disk = disk; bgdt = bgdt }) in
      let sb = set32 fs'.sb total ((get32 fs'.sb total + 2 ^ 32 - 1) % 2 ^ 32) in
      (ext2_write_sb (record fs' { sb = sb })).1

  unfoldable pub ext2_free_inode_alloc : ℕ → Fs D → Option (ℕ × Fs D)
  ext2_free_inode_alloc group fs = do
    bgd ← ext2_get_bgd group
    let block = get32 fs.bgdt (bgd + bg_inode_bitmap)
    let bitmap = (ext2_read_block dev fs.disk block).1
    some (elim (find_clear (get32 fs.sb s_inodes_per_group) 0 bitmap) [
      | none ↦ (0, fs)
      | some i ↦ (
        (group * get32 fs.sb s_inodes_per_group + i + 1) % 2 ^ 32,
        take_bit block bitmap i (bgd + bg_free_inodes_count) s_free_inodes_count fs,
      )
    ])

  -- The loop goes through `s_inodes_per_group` bits of the block map, as the source does.
  unfoldable pub ext2_free_block_alloc : ℕ → Fs D → Option (ℕ × Fs D)
  ext2_free_block_alloc group fs = do
    bgd ← ext2_get_bgd group
    let block = get32 fs.bgdt (bgd + bg_block_bitmap)
    let bitmap = (ext2_read_block dev fs.disk block).1
    some (elim (find_clear (get32 fs.sb s_inodes_per_group) 0 bitmap) [
      | none ↦ (0, fs)
      | some i ↦ (
        (group * get32 fs.sb s_blocks_per_group + i) % 2 ^ 32,
        take_bit block bitmap i (bgd + bg_free_blocks_count) s_free_blocks_count fs,
      )
    ])
