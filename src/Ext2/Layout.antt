-- ===== src/Ext2/Layout.antt =====
-- fs/ext2/ext2.h and fs/ext2/device.c: the on-disk structures as bytes at the offsets that the C
-- structs have, and blocks read from and written to the block device.
pub mod Fields
use ester.Prelude.{
  ℕ, ◌+◌, ◌-◌, ◌*◌, ◌/◌, ◌%◌, ◌^◌, ◌&&◌, Cells, leb, ltb, if◌then◌else◌, update, ◌≡◌, ◌≢◌, ◌<◌,
}

-- A uint16_t and a uint32_t member at offset `o`, low byte first.
unfoldable pub get16 : Cells → ℕ → ℕ
get16 b o = b o + 2 ^ 8 * b (o + 1)

unfoldable pub get32 : Cells → ℕ → ℕ
get32 b o = b o + 2 ^ 8 * b (o + 1) + 2 ^ 16 * b (o + 2) + 2 ^ 24 * b (o + 3)

unfoldable pub set16 : Cells → ℕ → ℕ → Cells
set16 b o v = update (update b o (v % 2 ^ 8)) (o + 1) (v / 2 ^ 8 % 2 ^ 8)

unfoldable pub set32 : Cells → ℕ → ℕ → Cells
set32 b o v =
    update
      (update (update (update b o (v % 2 ^ 8)) (o + 1) (v / 2 ^ 8 % 2 ^ 8)) (o + 2)
        (v / 2 ^ 16 % 2 ^ 8))
      (o + 3) (v / 2 ^ 24 % 2 ^ 8)

-- memcpy(dst + d, src + s, n) between two different arrays.
unfoldable pub blit : Cells → ℕ → Cells → ℕ → ℕ → Cells
blit dst d src s n j = if leb d j && ltb j (d + n) then src (s + (j - d)) else dst j

-- Members of ext2_super_block_t.
abbrev pub s_free_blocks_count : ℕ
s_free_blocks_count = 12

abbrev pub s_free_inodes_count : ℕ
s_free_inodes_count = 16

abbrev pub s_log_block_size : ℕ
s_log_block_size = 24

abbrev pub s_blocks_per_group : ℕ
s_blocks_per_group = 32

abbrev pub s_inodes_per_group : ℕ
s_inodes_per_group = 40

abbrev pub s_magic : ℕ
s_magic = 56

abbrev pub s_inode_size : ℕ
s_inode_size = 88

abbrev pub sizeof_super_block : ℕ
sizeof_super_block = 92

-- Members of ext2_block_group_descriptor_t.
abbrev pub bg_block_bitmap : ℕ
bg_block_bitmap = 0

abbrev pub bg_inode_bitmap : ℕ
bg_inode_bitmap = 4

abbrev pub bg_inode_table : ℕ
bg_inode_table = 8

abbrev pub bg_free_blocks_count : ℕ
bg_free_blocks_count = 12

abbrev pub bg_free_inodes_count : ℕ
bg_free_inodes_count = 14

abbrev pub sizeof_group_descriptor : ℕ
sizeof_group_descriptor = 32

-- Members of ext2_inode_t.
abbrev pub i_type_permission : ℕ
i_type_permission = 0

abbrev pub i_lower_size : ℕ
i_lower_size = 4

abbrev pub i_links_count : ℕ
i_links_count = 26

abbrev pub i_disk_sectors_count : ℕ
i_disk_sectors_count = 28

abbrev pub i_block : ℕ
i_block = 40

abbrev pub sizeof_inode : ℕ
sizeof_inode = 128

-- What device.c calls through struct block_device: the status and the bytes of `count` logical
-- blocks, and the status and the device after a write.
pub record BlockDevice (D : Type 0) : Type 0 where
  pub read_blocks : D → ℕ → ℕ → ℕ × Cells
  pub write_blocks : D → ℕ → ℕ → Cells → ℕ × D

abbrev pub logical_block_size : ℕ
logical_block_size = 4096

-- A working disk of `size` logical blocks: reads in range succeed and give what was last written.
pub record IsDisk {D : Type 0} (dev : BlockDevice D) (size : ℕ) : Type 0 where
  pub read_ok : (d : D) (b : ℕ) → b < size → (dev.read_blocks d b 1).0 ≡ 0
  pub read_byte : (d : D) (b i : ℕ) → (dev.read_blocks d b 1).1 i < 256
  pub read_written :
      (d : D) (b : ℕ) (buff : Cells) (i : ℕ)
      → b < size
      → i < logical_block_size
      → ((j : ℕ) → buff j < 256)
      → (dev.read_blocks (dev.write_blocks d b 1 buff).1 b 1).1 i ≡ buff i
  pub read_other :
      (d : D) (b c : ℕ) (buff : Cells) (i : ℕ)
      → b ≢ c
      → (dev.read_blocks (dev.write_blocks d b 1 buff).1 c 1).1 i ≡ (dev.read_blocks d c 1).1 i

module _ {D : Type 0} (dev : BlockDevice D) where
  abbrev pub ext2_read_block : D → ℕ → ℕ × Cells
  ext2_read_block d block_id = dev.read_blocks d block_id 1

  abbrev pub ext2_write_block : D → ℕ → Cells → ℕ × D
  ext2_write_block d block_id buff = dev.write_blocks d block_id 1 buff
