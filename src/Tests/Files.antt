-- ===== src/Tests/Files.antt =====
-- fs/ext2/file.c on the small disk.
use ester.Prelude.{
  ◌-◌, ◌%◌, ◌≤◌, ℕ, ◌+◌, ◌<◌, ◌≡◌, inr, refl, some, Cells, arith, ltb, ◌==◌, if◌then◌else◌,
}
use ester.Ext2.Layout.{blit, get32, get16, i_lower_size, logical_block_size}
use ester.Ext2.Super.{
  ext2_get_block_size, ext2_get_inode_size, ext2_get_inodes_per_group, ext2_get_bgd,
}
use ester.Ext2.Inode.{inode_position}
use ester.Ext2.Directory.{Entries}
use ester.Ext2.File.{File, State, Locals}
use ester.Ext2.File.Calls.{
  closed, ext2_fread, ext2_fwrite, ext2_fseek, ext2_fclose, created_or, close_existing,
}
use ester.Ext2.File.Clean.{IsClean, Calls, none_yet, then_call, fclose, Calls-IsClean}
use ester.Ext2.File.Closing.{fclose-closed}
use ester.Ext2.File.Across.{Crossing, first_block, second_block, fwrite-fread_across}
use ester.Ext2.File.SeekRead.{Reachable, seek_block, fseek-fread}
use ester.Ext2.File.WriteRead.{Writable, in_block, block_at, new_content, fwrite-fread}
use ester.Tests.Disk.{Blocks, ram, ram-IsDisk, small, ones}

abbrev zeros : Cells
zeros i = 0

abbrev no_entries : Entries
no_entries n = record {
  dir_inode = 0;
  dir_entry_size = 0;
  dir_name_len = 0;
  dir_type = 0;
  dir_name = zeros;
}

abbrev locals : Locals
locals = record {
  unpacked = zeros;
  dir_entries = no_entries;
  parent = zeros;
  new_inode = zeros;
  new_buff = zeros;
}

-- File 2 is open at position 3; its first block is 9.
abbrev open_file : File
open_file = record {
  inode_num = 2;
  mode = zeros;
  open_ = 1;
  pos = 3;
  new_bytes_count = 0;
  dirty = 0;
  exist = 1;
  pathname = zeros;
  buff = zeros;
  inode = λ i. if i == 40 then 9 else 0;
}

abbrev open_state : State Blocks
open_state = record { fs = small; current = zeros; file = open_file }

open_file-IsClean : IsClean open_file
open_file-IsClean = record {
  opened_flag = inr refl;
  not_dirty = refl;
  no_new_bytes = refl;
  closed_start = λ e. absurd (omega arith);
}

small-block_size : ext2_get_block_size small ≡ 4096
unfolding ext2_get_block_size get32
small-block_size = refl

open_state-Writable : Writable ram locals open_state ones 5
unfolding ext2_get_block_size get32
open_state-Writable = record {
  is_open = λ e. absurd (omega arith);
  exists = λ e. absurd (omega arith);
  some_block = omega (arith, small-block_size);
  one_buffer = omega (arith, small-block_size);
  direct = omega arith;
  room = omega arith;
}

place_2 : inode_position small 2 ≡ some (record { block = 4; offset = 128 })
unfolding inode_position ext2_get_bgd ext2_get_inodes_per_group ext2_get_block_size
    ext2_get_inode_size get32 get16
place_2 = refl

block_9 : block_at ram locals open_state ones 5 ≡ 9
unfolding ext2_get_block_size get32
block_9 = refl

fwrite-fread_example :
    let b = block_at ram locals open_state ones 5 in
    let end = in_block ram locals open_state ones 5 + 5 in
    let old = get32 open_file.inode i_lower_size in
    (st' : State Blocks) × (ext2_fwrite ram locals ones 5 open_state ≡ some (0, st'))
    × (out' : Cells) × (ext2_fread ram locals zeros 5 st' ≡ some (0, out'))
    × ((i : ℕ) → i < 5 → out' i ≡ ones i)
    × ((i : ℕ)
        → i < logical_block_size
        → (ram.read_blocks st'.fs.disk b 1).1 i ≡ new_content ram locals open_state ones 5 i)
    × (get32 st'.file.inode i_lower_size ≡ (if ltb old end then end else old))
fwrite-fread_example =
    fwrite-fread ram 256 locals open_state ones 5 (record { block = 4; offset = 128 }) zeros
      ram-IsDisk open_state-Writable place_2 (λ e. absurd (omega (arith, block_9)))
      (omega (arith, block_9)) (λ i. omega arith) (λ i. omega arith)

abbrev closed_state : State Blocks
closed_state = record open_state { file = closed open_file }

fclose-closed_example :
    (ext2_fclose ram locals open_state ≡ some (0, closed_state))
    × (ext2_fread ram locals zeros 5 closed_state ≡ some (1, zeros))
    × (ext2_fwrite ram locals zeros 5 closed_state ≡ some (1, closed_state))
    × (ext2_fseek ram locals 7 closed_state ≡ some (1, closed_state))
    × (ext2_fclose ram locals closed_state ≡ some (1, closed_state))
fclose-closed_example =
    fclose-closed ram locals open_state zeros 5 7 open_file-IsClean (λ e. absurd (omega arith))
      (λ e. absurd (omega arith))

close_once : Calls ram locals open_state closed_state
unfolding ext2_fclose created_or close_existing
close_once = then_call none_yet (fclose 0 refl)

Calls-IsClean_example : IsClean closed_state.file
Calls-IsClean_example = Calls-IsClean ram locals close_once open_file-IsClean

-- The open file with one block of eight sectors.
abbrev whole_state : State Blocks
whole_state = record open_state {
  file = record open_file { inode = λ i. if i == 40 then 9 else if i == 28 then 8 else 0 };
}

whole_state-Reachable : Reachable ram locals whole_state 100 5
unfolding ext2_get_block_size get32
whole_state-Reachable = record {
  is_open = λ e. absurd (omega arith);
  exists = λ e. absurd (omega arith);
  not_dirty = refl;
  moves = λ e. absurd (omega arith);
  some_block = omega arith;
  one_buffer = omega arith;
  direct = omega arith;
  allocated = omega arith;
  room = omega arith;
}

fseek-fread_example :
    (st' : State Blocks) × (ext2_fseek ram locals 100 whole_state ≡ some (0, st'))
    × (st'.fs ≡ small)
    × (st'.file.inode ≡ whole_state.file.inode)
    × (st'.file.pos ≡ 100)
    × (out' : Cells) × (ext2_fread ram locals ones 5 st' ≡ some (0, out'))
    × ((i : ℕ)
        → i < 5
        → out' i
          ≡ (ram.read_blocks small.disk (seek_block ram locals whole_state 100 5) 1).1
              (100 % ext2_get_block_size small + i))
    × ((i : ℕ) → 5 ≤ i → out' i ≡ ones i)
fseek-fread_example = fseek-fread ram locals whole_state 100 5 ones whole_state-Reachable

-- The open file six bytes before the end of the first of its two blocks.
abbrev edge_file : File
edge_file = record open_file {
  pos = 4090;
  inode = λ i. if i == 40 then 9 else if i == 44 then 10 else if i == 28 then 16 else 0;
}

abbrev edge_state : State Blocks
edge_state = record open_state { file = edge_file }

edge_state-Crossing : Crossing ram locals edge_state ones 100
unfolding ext2_get_block_size get32
edge_state-Crossing = record {
  is_open = λ e. absurd (omega arith);
  exists = λ e. absurd (omega arith);
  some_block = omega arith;
  one_buffer = omega arith;
  one_block = omega arith;
  over = omega arith;
  direct = omega arith;
  allocated = omega arith;
}

edge-first : first_block ram locals edge_state ones 100 ≡ 9
unfolding ext2_get_block_size get32
edge-first = refl

edge-second : second_block ram locals edge_state ones 100 ≡ 10
unfolding ext2_get_block_size get32
edge-second = refl

fwrite-fread_across_example :
    let block_size = ext2_get_block_size small in
    let at = 4090 % block_size in
    let room = block_size - at in
    let old = get32 edge_file.inode i_lower_size in
    (st' : State Blocks) × (ext2_fwrite ram locals ones 100 edge_state ≡ some (0, st'))
    × (out' : Cells) × (ext2_fread ram locals zeros 100 st' ≡ some (0, out'))
    × ((i : ℕ) → i < 100 → out' i ≡ ones i)
    × ((i : ℕ)
        → i < logical_block_size
        → (ram.read_blocks st'.fs.disk (first_block ram locals edge_state ones 100) 1).1 i
          ≡ blit edge_file.buff at ones 0 room i)
    × ((i : ℕ)
        → i < 100 - room
        → (ram.read_blocks st'.fs.disk (second_block ram locals edge_state ones 100) 1).1 i
          ≡ ones (room + i))
    × (get32 st'.file.inode i_lower_size ≡ (if ltb old (at + 100) then at + 100 else old))
fwrite-fread_across_example =
    fwrite-fread_across ram 256 locals edge_state ones 100 (record { block = 4; offset = 128 })
      zeros ram-IsDisk edge_state-Crossing place_2 (λ e. absurd (omega (arith, edge-first)))
      (λ e. absurd (omega (arith, edge-second)))
      (λ e. absurd (omega (arith, edge-first, edge-second))) (omega (arith, edge-first))
      (omega (arith, edge-second)) (λ i. omega arith) (λ i. omega arith) (λ i. omega arith)
