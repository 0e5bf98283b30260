-- ===== src/Tests/Disk.antt =====
-- fs/ext2 on a disk of 256 logical blocks in memory.
use ester.Prelude.{
  ℕ, ◌+◌, ◌*◌, ◌/◌, ◌%◌, ◌^◌, ◌<◌, ◌≡◌, ◌↔◌, ◌⊎◌, refl, ◌&&◌, some, Cells, arith, ltb, ◌==◌,
  if◌then◌else◌,
}
use ester.Ext2.Layout.{
  BlockDevice, IsDisk, get16, get32, s_magic, sizeof_super_block, sizeof_group_descriptor,
  s_free_blocks_count, s_free_inodes_count, s_inodes_per_group, s_blocks_per_group,
  bg_free_blocks_count, bg_free_inodes_count,
}
use ester.Ext2.Super.{
  Fs, ext2_extract_sb, ext2_extract_bgdt, ext2_write_bgdt, ext2_write_sb, sizeof_bgdt,
  ext2_free_inode_alloc, ext2_free_block_alloc,
}
use ester.Ext2.Super.Sync.{IsBytes}
use ester.Ext2.Super.Alloc.{Granted, inode_map, block_map, inode_alloc-Granted, block_alloc-Granted}
use ester.Ext2.Super.Mount.{extract_sb_lem, remount}

abbrev pub Blocks : Type 0
Blocks = ℕ → Cells

abbrev pub ram : BlockDevice Blocks
ram = record {
  read_blocks = λ d b count. (0, λ i. d b i % 256);
  write_blocks = λ d b count buff. (0, λ c. if c == b then buff else d c);
}

pub ram-IsDisk : IsDisk ram 256
ram-IsDisk = record {
  read_ok = λ d b h. refl;
  read_byte = λ d b i. omega arith;
  read_written = λ d b buff i hb hi bytes. ground (arith, bytes i);
  read_other = λ d b c buff i ne. ground arith;
}

-- 4 KiB blocks, 32 inodes of 128 bytes to a group, the table of group `g` in block `4 + g`.
abbrev pub small_sb : Cells
small_sb k =
    if k == 24
    then 2
    else if k == 40
    then 32
    else if k == 56
    then 0x53
    else if k == 57
    then 0xEF
    else if k == 88
    then 128
    else 0

abbrev pub small_bgdt : Cells
small_bgdt k =
    if k % 32 == 0
    then 2
    else if k % 32 == 4
    then 3
    else if k % 32 == 8
    then (4 + k / 32) % 256
    else 0

abbrev pub small : Fs Blocks
small = record { disk = λ b i. 0; sb = small_sb; bgdt = small_bgdt }

pub small-IsBytes : IsBytes small
small-IsBytes = record { sb_byte = λ k. ground arith; bgdt_byte = λ k. ground arith }

inode_alloc-Granted_example :
    (r : ℕ × Fs Blocks) × (ext2_free_inode_alloc ram 1 small ≡ some r)
    × Granted ram small
        (inode_map small 1)
        (get32 small.sb s_inodes_per_group)
        (1 * sizeof_group_descriptor + bg_free_inodes_count)
        s_free_inodes_count
        (λ i. (1 * get32 small.sb s_inodes_per_group + i + 1) % 2 ^ 32)
        r
unfolding get32
inode_alloc-Granted_example =
    inode_alloc-Granted ram 256 ram-IsDisk (omega arith) small small-IsBytes 1 (omega arith)
      (omega arith) (omega arith)

block_alloc-Granted_example :
    (r : ℕ × Fs Blocks) × (ext2_free_block_alloc ram 1 small ≡ some r)
    × Granted ram small
        (block_map small 1)
        (get32 small.sb s_inodes_per_group)
        (1 * sizeof_group_descriptor + bg_free_blocks_count)
        s_free_blocks_count
        (λ i. (1 * get32 small.sb s_blocks_per_group + i) % 2 ^ 32)
        r
unfolding get32
block_alloc-Granted_example =
    block_alloc-Granted ram 256 ram-IsDisk (omega arith) small small-IsBytes 1 (omega arith)
      (omega arith) (omega arith)

extract_sb_lem_example :
    let (r, fs') = ext2_extract_sb ram small in
    let (status, bytes) = ram.read_blocks small.disk 0 1 in
    ((r ≡ 0) ↔ ((status ≡ 0) × (get16 bytes (1024 + s_magic) ≡ 0xEF53)))
    × ((r ≡ 0) ⊎ (r ≡ 255))
    × (fs'.disk ≡ small.disk)
    × (fs'.bgdt ≡ small.bgdt)
    × ((k : ℕ)
        → fs'.sb k
          ≡ (if (status == 0) && ltb k sizeof_super_block then bytes (1024 + k) else small.sb k))
extract_sb_lem_example = extract_sb_lem ram small

small-magic : get16 small.sb s_magic ≡ 0xEF53
unfolding get16
small-magic = refl

abbrev pub ones : Cells
ones k = 1

remount_example :
    let saved = (ext2_write_sb ram (ext2_write_bgdt ram small)).1 in
    let mounted = ext2_extract_sb ram (record saved { sb = ones; bgdt = ones }) in
    let fs' = (ext2_extract_bgdt ram mounted.1).1 in
    (mounted.0 ≡ 0)
    × ((k : ℕ) → k < sizeof_super_block → fs'.sb k ≡ small.sb k)
    × ((k : ℕ) → k < sizeof_bgdt → fs'.bgdt k ≡ small.bgdt k)
remount_example = remount ram 256 ram-IsDisk (omega arith) small small-IsBytes small-magic ones ones
