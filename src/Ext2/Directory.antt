-- ===== src/Ext2/Directory.antt =====
-- fs/ext2/directory.c: listing a directory. `none` is an inode that cannot be located; the
-- loops themselves always end, since each round that goes on counts one of at most 128 entries.
pub mod List
use ester.Prelude.{
  ℕ, zero, suc, ◌+◌, ◌*◌, ◌%◌, ◌^◌, ◌<◌, Option, none, some, true, false, Bool, Cells, ltb, leb,
  ◌==◌, if◌then◌else◌, ◌>>=◌, update, bit_and, ◌&&◌, not,
}
use ester.Ext2.Layout.{BlockDevice, ext2_read_block, get16, get32, blit, i_type_permission, i_block}
use ester.Ext2.Super.{Fs, ext2_get_block_size}
use ester.Ext2.Inode.{ext2_extract_inode}

-- ext2_dir_entry_fixed_name_t.
pub record DirEntry : Type 0 where
  pub dir_inode : ℕ
  pub dir_entry_size : ℕ
  pub dir_name_len : ℕ
  pub dir_type : ℕ
  pub dir_name : Cells

abbrev pub max_subdirs : ℕ
max_subdirs = 128

abbrev pub sizeof_dir_entry : ℕ
sizeof_dir_entry = 8

-- The two memcpy calls: the eight bytes of the fixed part, and then the name over the old name
-- buffer, of which what lies behind the name stays.
unfoldable pub read_entry : Cells → ℕ → DirEntry → DirEntry
read_entry buffer offset old = record {
  dir_inode = get32 buffer offset;
  dir_entry_size = get16 buffer (offset + 4);
  dir_name_len = buffer (offset + 6);
  dir_type = buffer (offset + 7);
  dir_name = blit old.dir_name 0 buffer (offset + sizeof_dir_entry) (buffer (offset + 6));
}

abbrev pub Entries : Type 0
Entries = ℕ → DirEntry

-- The loops' shared state: entries so far, and whether the listing has returned.
pub record Listing : Type 0 where
  pub j : ℕ
  pub entries : Entries
  pub returned : Bool

-- The while loop over one block. Each round but the last raises `j`, which stops it at 128.
unfoldable pub list_block : ℕ → ℕ → Cells → ℕ → ℕ → Entries → Option Listing
list_block zero block_size buffer offset j entries = none
list_block (suc fuel) block_size buffer offset j entries =
    let rest =
      list_block fuel block_size buffer ((offset + get16 buffer (offset + 4)) % 2 ^ 32) (j + 1)
        (λ n. if n == j then read_entry buffer offset (entries j) else entries n) in
    if leb block_size offset
    then some (record { j = j; entries = entries; returned = false })
    else if leb max_subdirs j
    then some (record { j = j; entries = entries; returned = true })
    else if get32 buffer offset == 0
    then some (record { j = j; entries = entries; returned = false })
    else rest

abbrev pub list_fuel : ℕ
list_fuel = 129

-- Go on, unless the function has returned from inside the loop.
unfoldable pub unless_returned : (Listing → Option Listing) → Listing → Option Listing
unless_returned next s = if s.returned then some s else next s

module _ {D : Type 0} (dev : BlockDevice D) (fs : Fs D) where
  -- The for loop over the 12 direct blocks of the inode, with `left` blocks left.
  unfoldable pub list_blocks : ℕ → ℕ → Cells → Listing → Option Listing
  list_blocks zero i inode s = some s
  list_blocks (suc left) i inode s =
      if get32 inode (i_block + 4 * i) == 0
      then some s
      else (list_block list_fuel (ext2_get_block_size fs)
            (ext2_read_block dev fs.disk (get32 inode (i_block + 4 * i))).1 0 s.j s.entries
          >>= unless_returned (list_blocks left (i + 1) inode))

  -- The listing, with the new content of `__current_inode`; not a directory gives no entries.
  unfoldable pub ext2_list_directory : ℕ → Cells → Entries → Option (ℕ × Entries × Cells)
  ext2_list_directory dir_inode_num current entries = do
    inode ← ext2_extract_inode dev fs dir_inode_num current
    if bit_and (get16 inode i_type_permission) 0x4000 == 0
        then some (0, entries, inode)
        else (list_blocks 12 0 inode (record { j = 0; entries = entries; returned = false })
            >>= λ s. some (s.j, s.entries, inode))
