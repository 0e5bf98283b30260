-- ===== src/Tests/Opening.antt =====
-- Opening and reading a file of the small disk by its path.
use ester.Prelude.{ℕ, ◌+◌, ◌*◌, ◌/◌, ◌%◌, ◌<◌, ◌≡◌, refl, some, [], ◌∷◌, Cells, arith}
use ester.Ext2.Layout.{get16, get32, i_block}
use ester.Ext2.Super.{
  ext2_get_block_size, ext2_get_inode_size, ext2_get_inodes_per_group, ext2_get_bgd,
}
use ester.Ext2.Inode.{Position, inode_position}
use ester.Ext2.File.{File, State, Locals}
use ester.Ext2.File.Calls.{ext2_fopen, ext2_fseek, ext2_fread}
use ester.Ext2.Inode.Store.{disk_inode}
use ester.Ext2.File.Opening.{Openable, Stored, fopen-fread}
use ester.Tests.Disk.{Blocks, ram, small_sb}
use ester.Tests.Inodes.{with_dir}
use ester.Tests.Lookups.{
  zeros, zero_entries, listed, listed_inode, a_path, a_path-IsName, a_path-Components, a_path-Leads,
}

abbrev pub locals : Locals
locals = record {
  unpacked = zeros;
  dir_entries = zero_entries;
  parent = zeros;
  new_inode = zeros;
  new_buff = zeros;
}

abbrev pub no_file : File
no_file = record {
  inode_num = 0;
  mode = zeros;
  open_ = 0;
  pos = 0;
  new_bytes_count = 0;
  dirty = 0;
  exist = 0;
  pathname = zeros;
  buff = zeros;
  inode = zeros;
}

abbrev closed_state : State Blocks
closed_state = record { fs = with_dir; current = small_sb; file = no_file }

abbrev place_12 : Position
place_12 = record { block = 4; offset = 1408 }

inode_12-place : inode_position with_dir 12 ≡ some place_12
unfolding inode_position ext2_get_bgd ext2_get_inodes_per_group ext2_get_block_size
    ext2_get_inode_size get32 get16
inode_12-place = refl

a_path-Openable : Openable ram locals closed_state a_path 3 (listed 0).dir_inode (1 ∷ []) place_12
unfolding get16
a_path-Openable = record {
  is_name = a_path-IsName;
  not_root = omega arith;
  fits = omega arith;
  rooted = refl;
  names = a_path-Components;
  depth = omega arith;
  bytes = λ i. omega arith;
  leads = a_path-Leads;
  place = rw listed_inode inode_12-place;
  regular = λ e. absurd (omega arith);
  not_open = refl;
}

first-Stored : Stored ram locals closed_state a_path 3 (listed 0).dir_inode (1 ∷ []) place_12 100 5
unfolding ext2_get_block_size get32
first-Stored = record {
  behind = λ e. absurd (omega arith);
  some_block = omega arith;
  one_buffer = omega arith;
  direct = omega arith;
  allocated = omega arith;
  room = omega arith;
}

fopen-fread_example :
    let bs = ext2_get_block_size with_dir in
    let block = get32 (disk_inode ram with_dir place_12) (i_block + 4 * (100 / bs)) in
    (st1 : State Blocks) × (ext2_fopen ram locals a_path b'r' closed_state ≡ some st1)
    × (st1.fs ≡ with_dir)
    × (st1.file.open_ ≡ 1)
    × (st1.file.inode_num ≡ (listed 0).dir_inode)
    × (st1.file.pos ≡ 0)
    × (st2 : State Blocks) × (ext2_fseek ram locals 100 st1 ≡ some (0, st2))
    × (st2.fs ≡ with_dir)
    × (out' : Cells) × (ext2_fread ram locals zeros 5 st2 ≡ some (0, out'))
    × ((i : ℕ) → i < 5 → out' i ≡ (ram.read_blocks with_dir.disk block 1).1 (100 % bs + i))
fopen-fread_example =
    fopen-fread ram locals closed_state a_path 3 (listed 0).dir_inode (1 ∷ []) place_12 b'r' 100 5
      zeros a_path-Openable first-Stored
