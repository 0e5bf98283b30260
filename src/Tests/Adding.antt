-- ===== src/Tests/Adding.antt =====
-- Listing a directory of the small disk before and after an entry is added.
use ester.Prelude.{ℕ, ◌<◌, ◌≡◌, refl, some, [], Cells, arith, ◌==◌, if◌then◌else◌}
use ester.Ext2.Layout.{get16, get32}
use ester.Ext2.Super.{
  Fs, ext2_get_block_size, ext2_get_inode_size, ext2_get_inodes_per_group, ext2_get_bgd,
}
use ester.Ext2.Inode.{Position, inode_position}
use ester.Ext2.Directory.{Entries, ext2_list_directory}
use ester.Ext2.AddEntry.{ext2_add_dir_entry}
use ester.Ext2.AddEntry.Effect.{new_at}
use ester.Ext2.AddEntry.Runs.{Run}
use ester.Ext2.AddEntry.Shown.{Alike, Names}
use ester.Ext2.AddEntry.Listed.{Roomy, data_block, add_dir_entry-Listed}
use ester.Tests.Disk.{Blocks, ram, ram-IsDisk, small, small_sb}
use ester.Tests.Inodes.{dir_disk}
use ester.Tests.Lookups.{zero_entries}

-- The one entry of the directory takes the whole block.
abbrev wide_disk : Blocks
wide_disk b i =
    if b == 9 then (if i == 4 then 0 else if i == 5 then 16 else dir_disk b i) else dir_disk b i

abbrev pub wide : Fs Blocks
wide = record small { disk = wide_disk }

abbrev pub place_2 : Position
place_2 = record { block = 4; offset = 128 }

abbrev pub b_name : Cells
b_name i = if i == 0 then b'b' else 0

pub wide-data_block : data_block ram 256 wide 2 place_2 7 1 0 b_name [] ≡ 9
unfolding get32
wide-data_block = refl

pub inode_2-place : inode_position wide 2 ≡ some place_2
unfolding inode_position ext2_get_bgd ext2_get_inodes_per_group ext2_get_block_size
    ext2_get_inode_size get32 get16
inode_2-place = refl

wide-Run :
    Run
      (ext2_get_block_size wide)
      (ram.read_blocks wide_disk (data_block ram 256 wide 2 place_2 7 1 0 b_name []) 1).1
      (new_at 0 1)
      0
      0
      []
unfolding ext2_get_block_size get32 get16
wide-Run = (refl, omega arith, (λ e. absurd (omega arith)), refl, omega arith)

pub wide-Roomy : Roomy ram 256 wide 2 place_2 7 1 0 b_name []
unfolding ext2_get_block_size get32 get16
wide-Roomy = record {
  place = inode_2-place;
  is_dir = λ e. absurd (omega arith);
  some_block = λ e. absurd (omega (arith, wide-data_block));
  one_block = refl;
  in_range = omega arith;
  apart = λ e. absurd (omega (arith, wide-data_block));
  blocks = omega arith;
  run = wide-Run;
  few = omega arith;
  room = omega arith;
  some_inode = λ e. absurd (omega arith);
  word = omega arith;
  short = omega arith;
  string = record { ends = refl; inside = λ i h. ground arith };
  bytes = λ k. ground arith;
}

add_dir_entry-Listed_example :
    (before : Entries) × (inode : Cells) × (ext2_list_directory ram wide 2 small_sb zero_entries
      ≡ some (1, before, inode))
    × (fs' : Fs Blocks) × (ext2_add_dir_entry ram wide inode 7 b_name ≡ some (0, fs'))
    × (after : Entries) × (inode' : Cells) × (ext2_list_directory ram fs' 2 inode zero_entries
        ≡ some (2, after, inode'))
    × ((t : ℕ) → t < 1 → Alike (before t) (after t))
    × Names (after 1) 7 1 b_name
add_dir_entry-Listed_example =
    add_dir_entry-Listed ram 256 wide 2 place_2 7 1 0 b_name [] small_sb zero_entries zero_entries
      ram-IsDisk wide-Roomy
