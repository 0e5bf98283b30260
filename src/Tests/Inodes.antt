-- ===== src/Tests/Inodes.antt =====
-- Inodes and a directory on the small disk.
use ester.Prelude.{
  ℕ, ◌+◌, ◌%◌, ◌≤◌, ◌<◌, ◌≡◌, ap, inl, inr, refl, [], ◌∷◌, get_elem?, Option, none, some, Cells,
  arith, ◌==◌, if◌then◌else◌,
}
use ester.Ext2.Layout.{sizeof_inode, logical_block_size, i_block, get32, get16, blit}
use ester.Ext2.Super.{
  Fs, ext2_get_block_size, ext2_get_inode_size, ext2_get_inodes_per_group, ext2_get_bgd,
}
use ester.Ext2.Inode.{Position, inode_position, ext2_extract_inode, ext2_inode_write}
use ester.Ext2.Inode.Place.{IsSound, IsInode, table}
use ester.Ext2.Inode.Store.{OnDisk, extract-inode_write, extract-inode_write_other}
use ester.Ext2.Directory.{Entries, read_entry, ext2_list_directory}
use ester.Ext2.Directory.List.{Chain, list_directory-Chain}
use ester.Tests.Disk.{Blocks, ram, ram-IsDisk, small, small_sb, ones}

small-table : (g : ℕ) → g < 128 → table small g ≡ 4 + g
unfolding get32
small-table g h = ground arith

small-IsSound : IsSound small 2
unfolding ext2_get_inodes_per_group ext2_get_block_size ext2_get_inode_size get32 get16
small-IsSound = record {
  few = omega arith;
  some_inodes = omega arith;
  some_block = omega arith;
  inode_fits = omega arith;
  per_block = 32;
  even = refl;
  no_wrap = omega arith;
  tables_end = λ g h. omega (arith, small-table g (omega arith));
  tables_apart =
      λ g h lt le. inl (omega (arith, small-table g (omega arith), small-table h (omega arith)));
}

two-IsInode : IsInode small 2 2
unfolding ext2_get_inodes_per_group get32
two-IsInode = record { positive = omega arith; word = omega arith; in_group = omega arith }

forty-IsInode : IsInode small 2 40
unfolding ext2_get_inodes_per_group get32
forty-IsInode = record { positive = omega arith; word = omega arith; in_group = omega arith }

abbrev block_of : Option Position → ℕ
block_of none = 0
block_of (some p) = p.block

position_2 : block_of (inode_position small 2) ≡ 4
unfolding inode_position ext2_get_bgd ext2_get_inodes_per_group ext2_get_block_size
    ext2_get_inode_size get32 get16
position_2 = refl

small-blocks : ext2_get_block_size small ≤ logical_block_size
unfolding ext2_get_block_size get32
small-blocks = omega arith

inode_2-OnDisk : OnDisk ram 256 ram-IsDisk small 2 small-IsSound small-blocks 2
unfolding OnDisk ext2_get_block_size get32
inode_2-OnDisk p e = omega (arith, position_2, ap block_of e)

extract-inode_write_example :
    (fs' : Fs Blocks) × (ext2_inode_write ram 2 ones small ≡ some fs')
    × (c : Cells) × (ext2_extract_inode ram fs' 2 small_sb ≡ some c)
    × ((k : ℕ) → k < sizeof_inode → c k ≡ ones k)
unfolding ext2_get_block_size get32
extract-inode_write_example =
    extract-inode_write ram 256 ram-IsDisk small 2 small-IsSound small-blocks 2 two-IsInode
      inode_2-OnDisk ones (λ k. omega arith) small_sb

extract-inode_write_other_example :
    (fs' : Fs Blocks) × (ext2_inode_write ram 2 ones small ≡ some fs')
    × (b : Cells) × (ext2_extract_inode ram small 40 small_sb ≡ some b)
    × (c : Cells) × (ext2_extract_inode ram fs' 40 small_sb ≡ some c)
    × ((k : ℕ) → k < sizeof_inode → c k ≡ b k)
unfolding ext2_get_block_size get32
extract-inode_write_other_example =
    extract-inode_write_other ram 256 ram-IsDisk small 2 small-IsSound small-blocks 2 two-IsInode
      inode_2-OnDisk ones (λ k. omega arith) 40 small_sb forty-IsInode (λ e. absurd (omega arith))

-- Inode 2 is a directory with one entry, in block 9, for the file with inode 12 and block 10.
abbrev pub dir_disk : Blocks
dir_disk b i =
    if b == 4
    then (if i == 129
        then 0x40
        else if i == 168
        then 9
        else if i == 1409
        then 0x80
        else if i == 1436
        then 8
        else if i == 1448
        then 10
        else 0)
    else if b == 9
    then (if i == 0
        then 12
        else if i == 4
        then 12
        else if i == 6
        then 1
        else if i == 8
        then b'a'
        else 0)
    else 0

abbrev pub with_dir : Fs Blocks
with_dir = record small { disk = dir_disk }

abbrev no_entries : Entries
no_entries n = record {
  dir_inode = 0;
  dir_entry_size = 0;
  dir_name_len = 0;
  dir_type = 0;
  dir_name = ones;
}

-- The directory's inode as ext2_extract_inode reads it.
abbrev pub dir_inode_2 : Cells
dir_inode_2 = blit small_sb 0 (λ i. dir_disk 4 i % 256) 128 sizeof_inode

pub dir_inode_2-eq : ext2_extract_inode ram with_dir 2 small_sb ≡ some dir_inode_2
unfolding ext2_extract_inode inode_position ext2_get_bgd ext2_get_inodes_per_group
    ext2_get_block_size ext2_get_inode_size get32 get16
dir_inode_2-eq = refl

dir_bytes-get32 : get32 dir_inode_2 i_block ≡ 9
unfolding get32 blit
dir_bytes-get32 = refl

one_entry : Chain (ext2_get_block_size with_dir) (λ i. dir_disk 9 i % 256) 0 (0 ∷ [])
unfolding get32 get16 ext2_get_block_size
one_entry = (refl, omega arith, (λ e. absurd (omega arith)), inr refl)

pub entries_at_9 :
    Chain
      (ext2_get_block_size with_dir)
      (ram.read_blocks with_dir.disk (get32 dir_inode_2 i_block) 1).1
      0
      (0 ∷ [])
unfolding get32 blit
entries_at_9 = one_entry

list_directory-Chain_example :
    (entries' : Entries) × (ext2_list_directory ram with_dir 2 small_sb no_entries
      ≡ some (1, entries', dir_inode_2))
    × ((t o : ℕ)
        → get_elem? (0 ∷ []) t ≡ some o
        → entries' t
          ≡ read_entry
              (ram.read_blocks with_dir.disk (get32 dir_inode_2 i_block) 1).1
              o
              (no_entries t))
unfolding get32 get16 blit
list_directory-Chain_example =
    list_directory-Chain ram with_dir 2 small_sb dir_inode_2 no_entries (0 ∷ []) dir_inode_2-eq
      (λ e. absurd (omega arith)) (λ e. absurd (omega arith)) refl entries_at_9 (omega arith)
