-- ===== src/Ext2/File/Calls.antt =====
-- ext2_fopen, ext2_fclose, ext2_fread, ext2_fwrite and ext2_fseek of fs/ext2/file.c. The file is
-- `__ext2_file`, to which the pointer that ext2_fopen returns points. `none` is also a copy past
-- the 4096 bytes of the file's buffer.
use ester.Prelude.{
  ℕ, ◌+◌, ◌-◌, ◌*◌, ◌/◌, ◌%◌, ◌^◌, Option, none, some, Cells, ltb, ◌==◌, ◌&&◌, ◌||◌, if◌then◌else◌,
  ◌>>=◌, bit_and, not, update,
}
use ester.Kernel.Str.{strlen}
use ester.Ext2.Layout.{
  BlockDevice, ext2_read_block, ext2_write_block, get16, get32, set32, blit, i_type_permission,
  i_lower_size, i_disk_sectors_count, i_block, sizeof_inode,
}
use ester.Ext2.Super.{ext2_get_block_size, ext2_free_block_alloc}
use ester.Ext2.Inode.{ext2_extract_inode, ext2_inode_write}
use ester.Ext2.Lookup.{ext2_inode_find}
use ester.Ext2.File.{
  File, State, Locals, cleared, ext2_sectors_to_blocks, ext2_blocks_to_sectors, inode_group,
  ext2_file_create, file_block, max_path_len, buff_size, ext2_ndir_blocks,
}

-- The file struct of a successful ext2_fopen.
unfoldable pub opened : ℕ → Cells → ℕ → ℕ → ℕ → Cells → File → File
opened inode_num inode mode0 exist path_len pathname f = record {
  inode_num = inode_num;
  mode = update f.mode 0 mode0;
  open_ = 1;
  pos = 0;
  new_bytes_count = 0;
  dirty = 0;
  exist = exist;
  pathname = blit f.pathname 0 pathname 0 path_len;
  buff = cleared buff_size f.buff;
  inode = blit f.inode 0 inode 0 sizeof_inode;
}

-- The file struct at the end of ext2_fclose.
unfoldable pub closed : File → File
closed f = record {
  inode_num = 0;
  mode = cleared 2 f.mode;
  open_ = 0;
  pos = 0;
  new_bytes_count = 0;
  dirty = 0;
  exist = 0;
  pathname = cleared max_path_len f.pathname;
  buff = cleared buff_size f.buff;
  inode = cleared sizeof_inode f.inode;
}

-- The size after a write that ends at `end` of its block.
unfoldable pub grown : ℕ → Cells → Cells
grown end inode =
    let size = get32 inode i_lower_size in
    if ltb size end then set32 inode i_lower_size ((size + (end - size)) % 2 ^ 32) else inode

module _ {D : Type 0} (dev : BlockDevice D) (locals : Locals) where
  -- Create the file first if it does not exist; `k` goes on, `failed` is the result of an error.
  unfoldable pub created_or :
      (State D → Option (ℕ × State D))
      → (State D → Option (ℕ × State D))
      → State D
      → Option (ℕ × State D)
  created_or failed k st =
      if not (st.file.exist == 0)
      then k st
      else (ext2_file_create dev locals st >>= λ (err, st').
          if not (err == 0) then failed st' else k st')

  -- `mode0` is the first character of the mode.
  unfoldable pub ext2_fopen : Cells → ℕ → State D → Option (State D)
  ext2_fopen pathname mode0 st = do
    len ← strlen pathname 0
    let search = do
      (inode_num, c1) ←
          ext2_inode_find dev st.fs pathname locals.unpacked st.current locals.dir_entries
      inode ← ext2_extract_inode dev st.fs inode_num c1
      let is_file = not (bit_and (get16 inode i_type_permission) 0x8000 == 0)
      let found = record st { current = inode }
      some (
          if not is_file && not (mode0 == b'w') then found else record found {
            file = opened inode_num inode mode0 (if is_file then 1 else 0) len pathname st.file;
          })
    if ltb max_path_len len then some st else if not (st.file.open_ == 0) then some st else search

  -- The buffer of a dirty file goes to its block, and the inode to the disk if the file has grown.
  unfoldable pub save_dirty : State D → Option (State D)
  save_dirty st =
      let f = st.file in
      let block_size = ext2_get_block_size st.fs in
      if block_size == 0 then none else do
        block_num ← file_block f.inode (f.pos / block_size)
        let fs1 = record st.fs { disk = (ext2_write_block dev st.fs.disk block_num f.buff).1 }
        let inode = set32 f.inode i_lower_size ((f.pos + f.new_bytes_count) % 2 ^ 32)
        let grew = ext2_inode_write dev f.inode_num inode fs1 >>= λ fs2.
            some (record st { fs = fs2; file = record f { inode = inode } })
        if ltb 0 f.new_bytes_count then grew else some (record st { fs = fs1 })

  unfoldable pub close_existing : State D → Option (ℕ × State D)
  close_existing st = (if not (st.file.dirty == 0) then save_dirty st else some st) >>= λ st'.
      some (0, record st' { file = closed st'.file })

  -- A file that cannot be created is closed too, with status 0.
  unfoldable pub ext2_fclose : State D → Option (ℕ × State D)
  ext2_fclose st =
      if st.file.open_ == 0
      then some (1, st)
      else created_or (λ st'. some (0, record st' { file = closed st'.file })) close_existing st

  -- The status and the caller's buffer. The position stays where it is.
  unfoldable pub ext2_fread : Cells → ℕ → State D → Option (ℕ × Cells)
  ext2_fread buff size st =
      let f = st.file in
      let block_size = ext2_get_block_size st.fs in
      let at = f.pos % block_size in
      let next_block = (do
        block_num ← file_block f.inode (f.pos / block_size + 1)
        let tmp_buffer = (ext2_read_block dev st.fs.disk block_num).1
        let head = blit buff 0 f.buff at (block_size - at)
        some (0, blit head (block_size - at) tmp_buffer 0 (size + at - block_size))) in
      if f.open_ == 0
      then some (1, buff)
      else if ltb block_size size
      then some (1, buff)
      else if (block_size == 0) || ltb buff_size block_size
      then none
      else if ltb block_size (at + size)
      then next_block
      else some (0, blit buff 0 f.buff at size)

  -- Give the file a new last block: its number, unless there is none or the file is too big.
  unfoldable pub extend_file : ℕ → State D → Option ((ℕ × ℕ) × State D)
  extend_file allocated_blocks st = do
    group ← inode_group st.fs st.file.inode_num
    (block_num, fs) ← ext2_free_block_alloc dev group st.fs
    let inode = set32 st.file.inode (i_block + 4 * allocated_blocks) block_num
    let sectors = (get32 inode i_disk_sectors_count + ext2_blocks_to_sectors fs 1) % 2 ^ 32
    some (
        if block_num == 0
        then ((1, 0), record st { fs = fs })
        else if ltb allocated_blocks ext2_ndir_blocks
        then (
          (0, block_num),
          record st {
            fs = fs;
            file = record st.file { inode = set32 inode i_disk_sectors_count sectors };
          },
        )
        else ((1, 0), record st { fs = fs }))

  -- The end of ext2_fwrite: the size, and the inode to the disk.
  unfoldable pub finish_write : ℕ → State D → Option (ℕ × State D)
  finish_write end st =
      let inode = grown end st.file.inode in
      ext2_inode_write dev st.file.inode_num inode st.fs >>= λ fs.
      some (0, record st { fs = fs; file = record st.file { inode = inode } })

  -- The rest of the data at the start of a block of its own.
  unfoldable pub write_rest : Cells → ℕ → ℕ → ℕ → ℕ → State D → Option (ℕ × State D)
  write_rest buff size block_size at block_num st =
      let new_buff =
        blit (cleared block_size locals.new_buff) 0 buff (block_size - at)
          (size + at - block_size) in
      finish_write (at + size) (record st {
        fs = record st.fs { disk = (ext2_write_block dev st.fs.disk block_num new_buff).1 };
      })

  unfoldable pub write_two_blocks : Cells → ℕ → ℕ → ℕ → State D → Option (ℕ × State D)
  write_two_blocks buff size block_size at st = do
    allocated_blocks ← ext2_sectors_to_blocks st.fs (get32 st.file.inode i_disk_sectors_count)
    let extended = extend_file allocated_blocks st >>= λ ((err, block_num), st').
        (if not (err == 0) then some (1, st') else write_rest buff size block_size at block_num st')
    let existing = file_block st.file.inode (st.file.pos / block_size + 1) >>= λ block_num.
        write_rest buff size block_size at block_num st
    if ltb allocated_blocks (st.file.pos / block_size + 2) then extended else existing

  -- On a file that exists.
  unfoldable pub write_existing : Cells → ℕ → State D → Option (ℕ × State D)
  write_existing buff size st =
      let block_size = ext2_get_block_size st.fs in
      let at = st.file.pos % block_size in
      let write = (do
        block_num ← file_block st.file.inode (st.file.pos / block_size)
        let room = if ltb block_size (at + size) then block_size - at else size
        let file = record st.file { buff = blit st.file.buff at buff 0 room }
        let st' = record st {
          fs = record st.fs { disk = (ext2_write_block dev st.fs.disk block_num file.buff).1 };
          file = file;
        }
        if ltb block_size (at + size)
            then write_two_blocks buff size block_size at st'
            else finish_write (at + size) st') in
      if ltb block_size size
      then some (1, st)
      else if (block_size == 0) || ltb buff_size block_size
      then none
      else write

  unfoldable pub ext2_fwrite : Cells → ℕ → State D → Option (ℕ × State D)
  ext2_fwrite buff size st =
      if st.file.open_ == 0
      then some (1, st)
      else created_or (λ st'. some (1, st')) (write_existing buff size) st

  -- The new position's block becomes the buffer; a block that is missing is allocated.
  unfoldable pub load_block : State D → Option (ℕ × State D)
  load_block st = do
    let block_size = ext2_get_block_size st.fs
    allocated_blocks ← ext2_sectors_to_blocks st.fs (get32 st.file.inode i_disk_sectors_count)
    let at = st.file.pos % block_size
    let extended = extend_file allocated_blocks st >>= λ ((err, block_num), st').
        (if not (err == 0)
          then some (1, st')
          else (let inode = set32 st'.file.inode i_lower_size at in
              ext2_inode_write dev st'.file.inode_num inode st'.fs >>= λ fs. some (
                0,
                record st' {
                  fs = fs;
                  file = record st'.file {
                    buff = cleared at (
                        blit st'.file.buff 0 (ext2_read_block dev st'.fs.disk block_num).1 0
                          buff_size);
                    inode = inode;
                  };
                },
              )))
    let existing = file_block st.file.inode (st.file.pos / block_size) >>= λ block_num. some (
      0,
      record st {
        file = record st.file {
          buff = blit st.file.buff 0 (ext2_read_block dev st.fs.disk block_num).1 0 buff_size;
        };
      },
    )
    if ltb allocated_blocks (st.file.pos / block_size + 1) then extended else existing

  unfoldable pub seek_existing : ℕ → State D → Option (ℕ × State D)
  seek_existing new_pos st =
      let block_size = ext2_get_block_size st.fs in
      let moves = not (new_pos / block_size == st.file.pos / block_size) in
      (if not (st.file.dirty == 0) && (block_size == 0)
        then none
        else if not (st.file.dirty == 0) && moves
        then save_dirty st
        else some st)
      >>= λ st'.
          load_block (record st' {
            file = record st'.file { pos = new_pos; new_bytes_count = 0; dirty = 0 };
          })

  unfoldable pub ext2_fseek : ℕ → State D → Option (ℕ × State D)
  ext2_fseek new_pos st =
      if st.file.open_ == 0
      then some (1, st)
      else if st.file.pos == new_pos
      then some (0, st)
      else created_or (λ st'. some (1, st')) (seek_existing new_pos) st
