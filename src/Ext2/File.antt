-- ===== src/Ext2/File.antt =====
-- fs/ext2/file.c: the one file that can be open, and creating it on the disk. Local arrays start
-- with what `Locals` gives them. `none` is what C leaves undefined in a callee, a division by a
-- block size of 0, or a block index past `i_block`.
pub mod Calls
pub mod Clean
pub mod Closing
pub mod WriteRead
pub mod SeekRead
pub mod Across
pub mod Opening
pub mod Creating
use ester.Prelude.{
  ℕ, zero, suc, ◌+◌, ◌-◌, ◌*◌, ◌/◌, ◌%◌, ◌^◌, Option, none, some, Cells, ltb, ◌==◌, if◌then◌else◌,
  ◌>>=◌, bit_and, not,
}
use ester.Kernel.Str.{strlen, strncat}
use ester.Ext2.Layout.{
  BlockDevice, get16, get32, set16, set32, blit, i_type_permission, i_lower_size, i_links_count,
  i_disk_sectors_count, i_block, sizeof_inode,
}
use ester.Ext2.Super.{
  Fs, ext2_get_block_size, ext2_get_inodes_per_group, ext2_free_inode_alloc, ext2_free_block_alloc,
}
use ester.Ext2.Inode.{group_of, ext2_extract_inode, ext2_inode_write}
use ester.Ext2.UnpackPath.{unpack_dir_path, row_size, max_path_depth}
use ester.Ext2.Directory.{Entries}
use ester.Ext2.AddEntry.{ext2_add_dir_entry}
use ester.Ext2.Lookup.{far, side_by_side, ext2_inode_find}

abbrev pub max_path_len : ℕ
max_path_len = 4096

abbrev pub buff_size : ℕ
buff_size = 4096

abbrev pub ext2_ndir_blocks : ℕ
ext2_ndir_blocks = 12

abbrev pub ext2_n_blocks : ℕ
ext2_n_blocks = 15

-- ext2_file_t.
pub record File : Type 0 where
  pub inode_num : ℕ
  pub mode : Cells
  pub open_ : ℕ
  pub pos : ℕ
  pub new_bytes_count : ℕ
  pub dirty : ℕ
  pub exist : ℕ
  pub pathname : Cells
  pub buff : Cells
  pub inode : Cells

-- What the calls share: the file system, `__current_inode` and `__ext2_file`.
pub record State (D : Type 0) : Type 0 where
  pub fs : Fs D
  pub current : Cells
  pub file : File

-- The contents of local variables before they are set.
pub record Locals : Type 0 where
  pub unpacked : Cells
  pub dir_entries : Entries
  pub parent : Cells
  pub new_inode : Cells
  pub new_buff : Cells

-- memset of the first `n` bytes.
abbrev pub cleared : ℕ → Cells → Cells
cleared n b i = if ltb i n then 0 else b i

module _ {D : Type 0} where
  -- none at a block size of 0.
  unfoldable pub ext2_sectors_to_blocks : Fs D → ℕ → Option ℕ
  ext2_sectors_to_blocks fs sectors =
      if ext2_get_block_size fs == 0
      then none
      else some (sectors * 512 % 2 ^ 32 / ext2_get_block_size fs)

  unfoldable pub ext2_blocks_to_sectors : Fs D → ℕ → ℕ
  ext2_blocks_to_sectors fs blocks = blocks * ext2_get_block_size fs % 2 ^ 32 / 512

  -- (f->inode_num - 1) / s_inodes_per_group
  unfoldable pub inode_group : Fs D → ℕ → Option ℕ
  inode_group fs inode_num =
      if ext2_get_inodes_per_group fs == 0
      then none
      else some (group_of inode_num (ext2_get_inodes_per_group fs))

-- The loop that appends row `i` and those behind it to the parent's path. Path and rows lie in one
-- memory, far apart.
unfoldable pub parent_loop : ℕ → ℕ → Cells → Option Cells
parent_loop zero i m = some m
parent_loop (suc left) i m =
    (strlen m (far + i * row_size) >>= λ n. strncat 0 (far + i * row_size) n m)
    >>= parent_loop left (i + 1)

-- The members that ext2_file_create sets in a new inode.
unfoldable pub fresh_inode : ℕ → ℕ → Cells → Cells
fresh_inode block_num sectors old =
    let typed = set16 old i_type_permission 0x81A4 in
    let placed = set32 typed i_block block_num in
    let linked = set16 placed i_links_count 1 in
    let counted = set32 linked i_disk_sectors_count sectors in set32 counted i_lower_size 0

module _ {D : Type 0} (dev : BlockDevice D) (locals : Locals) where
  -- Behind the two allocations: fill the inode, write it, and enter the name in the directory.
  unfoldable pub create_inode : ℕ → ℕ → Cells → State D → Option (ℕ × State D)
  create_inode inode_num block_num name st = do
    let new_inode = fresh_inode block_num (ext2_blocks_to_sectors st.fs 1) locals.new_inode
    let file = record st.file {
      inode_num = inode_num;
      inode = blit st.file.inode 0 new_inode 0 sizeof_inode;
    }
    fs1 ← ext2_inode_write dev inode_num new_inode st.fs
    (err, fs2) ← ext2_add_dir_entry dev fs1 st.current inode_num name
    some (
        if not (err == 0)
        then (1, record st { fs = fs2; file = file })
        else (0, record st { fs = fs2; file = record file { exist = 1 } }))

  unfoldable pub create_block : ℕ → ℕ → Cells → State D → Option (ℕ × State D)
  create_block group inode_num name st =
      ext2_free_block_alloc dev group st.fs >>= λ (block_num, fs).
      (if block_num == 0
        then some (1, record st { fs = fs })
        else create_inode inode_num block_num name (record st { fs = fs }))

  unfoldable pub create_in_group : ℕ → Cells → State D → Option (ℕ × State D)
  create_in_group group name st = ext2_free_inode_alloc dev group st.fs >>= λ (inode_num, fs).
      (if inode_num == 0
        then some (1, record st { fs = fs })
        else create_block group inode_num name (record st { fs = fs }))

  -- In the directory with this number, which must be one.
  unfoldable pub create_in_parent : ℕ → Cells → State D → Option (ℕ × State D)
  create_in_parent parent_inode_num name st = do
    current ← ext2_extract_inode dev st.fs parent_inode_num st.current
    let found = record st { current = current }
    let inside = inode_group st.fs parent_inode_num >>= λ group. create_in_group group name found
    if bit_and (get16 current i_type_permission) 0x4000 == 0 then some (1, found) else inside

  -- Behind the unpacking of the path.
  unfoldable pub create_at : ℕ → Cells → State D → Option (ℕ × State D)
  create_at path_depth rows st = do
    m ← parent_loop (path_depth - 1) 0 (side_by_side locals.parent rows)
    (parent_inode_num, current) ←
        ext2_inode_find dev st.fs (λ a. if ltb a far then m a else 0) locals.unpacked st.current
          locals.dir_entries
    create_in_parent parent_inode_num (λ a. rows ((path_depth - 1) * row_size + a))
        (record st { current = current })

  unfoldable pub ext2_file_create : State D → Option (ℕ × State D)
  ext2_file_create st = do
    len ← strlen st.file.pathname 0
    let unpacked = unpack_dir_path st.file.pathname locals.unpacked >>= λ (path_depth, rows).
        (if ltb max_path_depth path_depth then some (1, st) else create_at path_depth rows st)
    if ltb max_path_len len then some (1, st) else unpacked

-- f->inode.i_block[block_id]
unfoldable pub file_block : Cells → ℕ → Option ℕ
file_block inode block_id =
    if ltb block_id ext2_n_blocks then some (get32 inode (i_block + 4 * block_id)) else none
