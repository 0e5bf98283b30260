-- ===== src/Ext2/File/Opening.antt =====
-- Opening a file by its path, and reading it.
use ester.Prelude.{
  refl, ℕ, ◌+◌, ◌*◌, ◌/◌, ◌%◌, ◌^◌, ◌≤◌, ◌<◌, ◌≡◌, ◌≢◌, ap, ◌∙◌, some, List, length, Cells, arith,
  bit_and,
}
use native.Mathlib.Nat.{zero-add}
use ester.Kernel.Str.{strlen}
use ester.Kernel.Str.Len.{strlen-eq}
use ester.Ext2.Layout.{
  BlockDevice, get16, get32, blit, i_block, i_disk_sectors_count, i_type_permission, sizeof_inode,
}
use ester.Ext2.Layout.Fields.{blit_front, get16_ext, get32_ext}
use ester.Ext2.Super.{ext2_get_block_size}
use ester.Ext2.Inode.{Position, inode_position, ext2_extract_inode}
use ester.Ext2.Inode.Store.{disk_inode}
use ester.Ext2.UnpackPath.{max_path_depth}
use ester.Ext2.UnpackPath.Rows.{Components}
use ester.Ext2.UnpackPath.Bytes.{AreBytes}
use ester.Ext2.Lookup.{ext2_inode_find}
use ester.Ext2.Lookup.First.{IsName}
use ester.Ext2.Lookup.Path.{Leads, inode_find-Leads}
use ester.Ext2.File.{State, Locals, max_path_len, buff_size, ext2_ndir_blocks}
use ester.Ext2.File.Calls.{opened, ext2_fopen, ext2_fseek, ext2_fread}
use ester.Ext2.File.SeekRead.{Reachable, seek_block, fseek-fread}

module _ {D : Type 0} (dev : BlockDevice D) (locals : Locals) (st : State D) (path : Cells)
    (len goal : ℕ) (ls : List ℕ) (p : Position) where
  -- The path is a string of bytes with a slash in front and names with a slash behind each, it
  -- leads to the inode `goal`, which lies at `p` and is a regular file; no file is open.
  pub record Openable : Type 0 where
    pub is_name : IsName path len
    pub not_root : 1 < len
    pub fits : len ≤ max_path_len
    pub rooted : path 0 ≡ b'/'
    pub names : Components path 1 ls
    pub depth : 1 + length ls ≤ max_path_depth
    pub bytes : AreBytes locals.unpacked
    pub leads :
        Leads dev st.fs path 1 ls
          (record { inode_num = 2; current = st.current; entries = locals.dir_entries })
          goal
    pub place : inode_position st.fs goal ≡ some p
    pub regular : bit_and (get16 (disk_inode dev st.fs p) i_type_permission) 0x8000 ≢ 0
    pub not_open : st.file.open_ ≡ 0

  module _ (o : Openable) (mode0 : ℕ) where
    abbrev walked : Cells
    walked =
        (inode_find-Leads dev st.fs path len goal ls locals.unpacked st.current locals.dir_entries
          o.is_name o.not_root o.bytes o.rooted o.names o.depth o.leads).0

    found :
        ext2_inode_find dev st.fs path locals.unpacked st.current locals.dir_entries
        ≡ some (goal, walked)
    found =
        (inode_find-Leads dev st.fs path len goal ls locals.unpacked st.current locals.dir_entries
          o.is_name o.not_root o.bytes o.rooted o.names o.depth o.leads).1

    abbrev extracted : Cells
    extracted = blit walked 0 (dev.read_blocks st.fs.disk p.block 1).1 p.offset sizeof_inode

    extracted-eq : ext2_extract_inode dev st.fs goal walked ≡ some extracted
    unfolding ext2_extract_inode
    extracted-eq = rw (o.place)

    extracted_byte : (k : ℕ) → k < sizeof_inode → extracted k ≡ disk_inode dev st.fs p k
    extracted_byte k h = blit_front walked _ p.offset sizeof_inode k h

    abbrev after_open : State D
    after_open = record st {
      current = extracted;
      file = opened goal extracted mode0 1 len path st.file;
    }

    is_file : bit_and (get16 extracted i_type_permission) 0x8000 ≢ 0
    is_file =
        let e : get16 extracted i_type_permission
            ≡ get16 (disk_inode dev st.fs p) i_type_permission =
          get16_ext extracted (disk_inode dev st.fs p) i_type_permission i_type_permission
            (extracted_byte i_type_permission (omega arith))
            (extracted_byte (i_type_permission + 1) (omega arith)) in
        rw e o.regular

    len-eq : strlen path 0 ≡ some len
    len-eq = strlen-eq path 0 len o.is_name.string o.is_name.short

    fopen-eq : ext2_fopen dev locals path mode0 st ≡ some after_open
    unfolding ext2_fopen
    fopen-eq = ground (arith, len-eq, found, extracted-eq, is_file, o.fits, o.not_open)

    inode_byte : (k : ℕ) → k < sizeof_inode → after_open.file.inode k ≡ disk_inode dev st.fs p k
    unfolding opened
    inode_byte k h =
        blit_front st.file.inode extracted 0 sizeof_inode k h
        ∙ ap extracted (zero-add k)
        ∙ extracted_byte k h

    inode_word :
        (f : ℕ)
        → f + 4 ≤ sizeof_inode
        → get32 after_open.file.inode f ≡ get32 (disk_inode dev st.fs p) f
    inode_word f h =
        get32_ext after_open.file.inode (disk_inode dev st.fs p) f
          (λ k lo hi. inode_byte k (omega arith))

  -- A position behind 0 in a block that the file has on the disk, and bytes inside that block.
  pub record Stored (new_pos n : ℕ) : Type 0 where
    pub behind : new_pos ≢ 0
    pub some_block : 0 < ext2_get_block_size st.fs
    pub one_buffer : ext2_get_block_size st.fs ≤ buff_size
    pub direct : new_pos / ext2_get_block_size st.fs < ext2_ndir_blocks
    pub allocated :
        new_pos / ext2_get_block_size st.fs
        < get32 (disk_inode dev st.fs p) i_disk_sectors_count
          * 512
          % 2 ^ 32
          / ext2_get_block_size st.fs
    pub room : new_pos % ext2_get_block_size st.fs + n ≤ ext2_get_block_size st.fs

  module _ (o : Openable) (mode0 new_pos n : ℕ) (s : Stored new_pos n) where
    opened-Reachable : Reachable dev locals (after_open o mode0) new_pos n
    unfolding opened
    opened-Reachable = record {
      is_open = λ e. absurd (omega arith);
      exists = λ e. absurd (omega arith);
      not_dirty = refl;
      moves = λ e. s.behind (omega arith);
      some_block = s.some_block;
      one_buffer = s.one_buffer;
      direct = s.direct;
      allocated = rw (inode_word o mode0 i_disk_sectors_count (omega arith)) s.allocated;
      room = s.room;
    }

    block-stored :
        seek_block dev locals (after_open o mode0) new_pos n
        ≡ get32 (disk_inode dev st.fs p) (i_block + 4 * (new_pos / ext2_get_block_size st.fs))
    block-stored =
        inode_word o mode0 (i_block + 4 * (new_pos / ext2_get_block_size st.fs))
          (omega (arith, s.direct))

-- While no file is open, for a path of a leading slash and at most nine names, each with a slash
-- behind it, that leads to a regular file, where in each directory on the way the listed names are
-- terminated when they lie over the old content of `dir_entries`: ext2_fopen opens that file, with
-- its inode's number, at position 0, and changes no disk, superblock or descriptor. For a position
-- behind 0 in one of the twelve direct blocks, which the inode on the disk has, and `n` bytes
-- inside that block, ext2_fseek then returns 0, and ext2_fread returns 0 and the bytes that the
-- device has for that block at that place.
pub fopen-fread :
    {D : Type 0} (dev : BlockDevice D) (locals : Locals) (st : State D) (path : Cells)
    (len goal : ℕ) (ls : List ℕ) (p : Position) (mode0 new_pos n : ℕ) (out : Cells)
    → Openable dev locals st path len goal ls p
    → Stored dev locals st path len goal ls p new_pos n
    → let bs = ext2_get_block_size st.fs in
      let block = get32 (disk_inode dev st.fs p) (i_block + 4 * (new_pos / bs)) in
      (st1 : State D) × (ext2_fopen dev locals path mode0 st ≡ some st1)
      × (st1.fs ≡ st.fs)
      × (st1.file.open_ ≡ 1)
      × (st1.file.inode_num ≡ goal)
      × (st1.file.pos ≡ 0)
      × (st2 : State D) × (ext2_fseek dev locals new_pos st1 ≡ some (0, st2))
      × (st2.fs ≡ st.fs)
      × (out' : Cells) × (ext2_fread dev locals out n st2 ≡ some (0, out'))
      × ((i : ℕ) → i < n → out' i ≡ (dev.read_blocks st.fs.disk block 1).1 (new_pos % bs + i))
unfolding opened
fopen-fread dev locals st path len goal ls p mode0 new_pos n out o s =
    let r = opened-Reachable dev locals st path len goal ls p o mode0 new_pos n s in
    let here = after_open dev locals st path len goal ls p o mode0 in
    let (st2, ran, same, _, _, out', read, bytes, _) =
      fseek-fread dev locals here new_pos n out r in
    let b = block-stored dev locals st path len goal ls p o mode0 new_pos n s in
    (
      here,
      fopen-eq dev locals st path len goal ls p o mode0,
      refl,
      refl,
      refl,
      refl,
      st2,
      ran,
      same,
      out',
      read,
      λ i h.
          bytes i h
          ∙ ap
              (λ (c : ℕ).
                (dev.read_blocks st.fs.disk c 1).1 (new_pos % ext2_get_block_size st.fs + i))
              b,
    )
