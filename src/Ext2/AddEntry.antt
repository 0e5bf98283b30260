-- ===== src/Ext2/AddEntry.antt =====
-- ext2_add_dir_entry of fs/ext2/directory.c. `none` is a store past the block's buffer, a name
-- without a terminator, or a walk along entries of size 0 that does not end.
pub mod Effect
pub mod Runs
pub mod Shown
pub mod Listed
use ester.Prelude.{
  ℕ, zero, suc, ◌+◌, ◌-◌, ◌*◌, ◌/◌, ◌%◌, ◌^◌, Option, none, some, Cells, ltb, leb, ◌==◌,
  if◌then◌else◌, ◌>>=◌, update, bit_and,
}
use ester.Kernel.Str.{strlen}
use ester.Ext2.Layout.{
  BlockDevice, ext2_read_block, ext2_write_block, get16, get32, set16, set32, blit,
  i_type_permission, i_block,
}
use ester.Ext2.Super.{Fs, ext2_get_block_size}
use ester.Ext2.Directory.{max_subdirs, sizeof_dir_entry}

-- (new_entry_size + 3) & ~3
abbrev pub entry_size : ℕ → ℕ
entry_size len = (sizeof_dir_entry + len + 3) / 4 * 4 % 2 ^ 32

-- The block after the entry at `offset`, the last, was changed and the new one stored. The size
-- that the source gives the last entry is `offset + new_entry_size`, as a uint16_t.
unfoldable pub append_entry : Cells → ℕ → ℕ → ℕ → Cells → Cells
append_entry buffer offset inode_num len name =
    let old_rec_len = get16 buffer (offset + 4) in
    let shrunk_len = (offset + entry_size len) % 2 ^ 16 in
    let shrunk = set16 buffer (offset + 4) shrunk_len in
    let at = offset + shrunk_len in
    let numbered = set32 shrunk at inode_num in
    let sized =
      set16 numbered (at + 4) ((old_rec_len + 2 ^ 32 - get16 numbered (offset + 4)) % 2 ^ 16) in
    blit (update (update sized (at + 6) (len % 2 ^ 8)) (at + 7) 0) (at + sizeof_dir_entry) name 0
      len

-- How the walk over one block ends: with the result of the call, or with the count so far.
pub data Walk : Type 0 where
  returned : ℕ → Walk
  appended : Cells → Walk
  block_done : ℕ → Walk

-- The while loop. The last entry is the one whose size reaches the end of the block.
unfoldable pub walk_block : ℕ → ℕ → Cells → ℕ → ℕ → ℕ → ℕ → Cells → Option Walk
walk_block zero block_size buffer offset j inode_num len name = none
walk_block (suc fuel) block_size buffer offset j inode_num len name =
    let size = get16 buffer (offset + 4) in
    let rest =
      walk_block fuel block_size buffer ((offset + size) % 2 ^ 32) (j + 1) inode_num len name in
    let at = offset + (offset + entry_size len) % 2 ^ 16 in
    if leb block_size offset
    then some (Walk.block_done j)
    else if leb max_subdirs j
    then some (Walk.returned 1)
    else if leb block_size ((offset + size) % 2 ^ 32)
    then (if ltb block_size (at + sizeof_dir_entry + len)
        then none
        else some (Walk.appended (append_entry buffer offset inode_num len name)))
    else rest

-- Every round that goes on counts one entry of at most 128.
abbrev pub walk_fuel : ℕ
walk_fuel = 129

module _ {D : Type 0} (dev : BlockDevice D) (fs : Fs D) where
  -- After one block: return, or write the block back and return 0, or go on.
  unfoldable pub after_block : ℕ → (ℕ → Option (ℕ × Fs D)) → Walk → Option (ℕ × Fs D)
  after_block block next (Walk.returned r) = some (r, fs)
  after_block block next (Walk.appended buffer) =
      some (0, record fs { disk = (ext2_write_block dev fs.disk block buffer).1 })
  after_block block next (Walk.block_done j) = next j

  -- The for loop over the direct blocks.
  unfoldable pub walk_blocks : ℕ → ℕ → Cells → ℕ → ℕ → Cells → ℕ → Option (ℕ × Fs D)
  walk_blocks zero i dir_inode inode_num len name j = some (1, fs)
  walk_blocks (suc left) i dir_inode inode_num len name j =
      let block = get32 dir_inode (i_block + 4 * i) in
      if block == 0
      then some (1, fs)
      else (walk_block walk_fuel (ext2_get_block_size fs) (ext2_read_block dev fs.disk block).1 0 j
            inode_num len name
          >>= after_block block (walk_blocks left (i + 1) dir_inode inode_num len name))

  -- The status and the file system. The name is an array of its own; its length is taken once, before
  -- the walk, where the source takes it at the last entry.
  unfoldable pub ext2_add_dir_entry : Cells → ℕ → Cells → Option (ℕ × Fs D)
  ext2_add_dir_entry dir_inode new_entry_inode_num name =
      if bit_and (get16 dir_inode i_type_permission) 0x4000 == 0
      then some (0, fs)
      else (strlen name 0 >>= λ len. walk_blocks 12 0 dir_inode new_entry_inode_num len name 0)
