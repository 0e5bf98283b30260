-- ===== src/Tests/Creating.antt =====
-- Creating a file in a directory of the small disk.
use ester.Prelude.{ℕ, ◌<◌, ◌≡◌, refl, inr, some, [], Cells, arith}
use ester.Ext2.Layout.{get16, get32}
use ester.Ext2.Super.{
  ext2_get_block_size, ext2_get_inode_size, ext2_get_inodes_per_group, ext2_get_bgd,
}
use ester.Ext2.Inode.{Position, inode_position, ext2_extract_inode}
use ester.Ext2.Inode.Store.{disk_inode}
use ester.Ext2.Directory.{Entries, ext2_list_directory}
use ester.Ext2.AddEntry.Shown.{Alike, Names}
use ester.Ext2.File.{State, create_inode, ext2_blocks_to_sectors}
use ester.Ext2.File.Creating.{Creatable, IsFresh, create_inode-Listed}
use ester.Tests.Disk.{Blocks, ram, ram-IsDisk, small_sb}
use ester.Tests.Lookups.{zeros, zero_entries}
use ester.Tests.Opening.{locals, no_file}
use ester.Tests.Adding.{wide, place_2, b_name, wide-data_block, wide-Roomy}

abbrev place_7 : Position
place_7 = record { block = 4; offset = 768 }

inode_7-place : inode_position wide 7 ≡ some place_7
unfolding inode_position ext2_get_bgd ext2_get_inodes_per_group ext2_get_block_size
    ext2_get_inode_size get32 get16
inode_7-place = refl

abbrev in_directory : State Blocks
in_directory = record { fs = wide; current = disk_inode ram wide place_2; file = no_file }

directory-Creatable : Creatable ram 256 locals in_directory 2 place_2 place_7 7 20 1 0 b_name []
directory-Creatable = record {
  roomy = wide-Roomy;
  current = λ k h. refl;
  place = inode_7-place;
  in_range = omega arith;
  fits = omega arith;
  dir_fits = omega arith;
  block_apart = λ e. absurd (omega (arith, wide-data_block));
  inode_apart = inr (inr (omega arith));
  word = omega arith;
  bytes = λ k. omega arith;
}

create_inode-Listed_example :
    (st' : State Blocks) × (create_inode ram locals 7 20 b_name in_directory ≡ some (0, st'))
    × (st'.file.exist ≡ 1)
    × (st'.file.inode_num ≡ 7)
    × (before : Entries) × (inode : Cells) × (ext2_list_directory ram wide 2 small_sb zero_entries
        ≡ some (1, before, inode))
    × (after : Entries) × (inode' : Cells) × (ext2_list_directory ram st'.fs 2 zeros zero_entries
        ≡ some (2, after, inode'))
    × ((t : ℕ) → t < 1 → Alike (before t) (after t))
    × Names (after 1) 7 1 b_name
    × (new : Cells) × (ext2_extract_inode ram st'.fs 7 zeros ≡ some new)
    × IsFresh 20 (ext2_blocks_to_sectors wide 1) new
create_inode-Listed_example =
    create_inode-Listed ram 256 locals in_directory 2 place_2 place_7 7 20 1 0 b_name [] small_sb
      zeros zeros zero_entries zero_entries ram-IsDisk directory-Creatable
