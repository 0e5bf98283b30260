-- ===== src/Ext2/File/Clean.antt =====
-- What every sequence of calls keeps true of the file struct.
use ester.Prelude.{ℕ, ◌≡◌, ◌⊎◌, some, Cells, arith}
use ester.Ext2.Layout.{BlockDevice}
use ester.Ext2.File.{
  File, State, Locals, create_inode, create_block, create_in_group, create_in_parent, create_at,
  ext2_file_create,
}
use ester.Ext2.File.Calls.{
  created_or, ext2_fopen, opened, closed, close_existing, ext2_fclose, extend_file, finish_write,
  write_rest, write_two_blocks, write_existing, ext2_fwrite, load_block, seek_existing, ext2_fseek,
}

-- The members that creating a file leaves alone.
pub record Keeps (f f' : File) : Type 0 where
  pub same_open : f'.open_ ≡ f.open_
  pub same_pos : f'.pos ≡ f.pos
  pub same_dirty : f'.dirty ≡ f.dirty
  pub same_count : f'.new_bytes_count ≡ f.new_bytes_count

module _ {D : Type 0} (dev : BlockDevice D) (locals : Locals) where
  create_inode-Keeps :
      (n b : ℕ) (name : Cells) (st : State D) (r : ℕ) (st' : State D)
      → create_inode dev locals n b name st ≡ some (r, st')
      → Keeps st.file st'.file
  unfolding create_inode
  create_inode-Keeps n b name st r st' h = ground arith

  create_block-Keeps :
      (g n : ℕ) (name : Cells) (st : State D) (r : ℕ) (st' : State D)
      → create_block dev locals g n name st ≡ some (r, st')
      → Keeps st.file st'.file
  unfolding create_block
  create_block-Keeps g n name st r st' h = grind (arith, create_inode-Keeps)

  create_in_group-Keeps :
      (g : ℕ) (name : Cells) (st : State D) (r : ℕ) (st' : State D)
      → create_in_group dev locals g name st ≡ some (r, st')
      → Keeps st.file st'.file
  unfolding create_in_group
  create_in_group-Keeps g name st r st' h = grind (arith, create_block-Keeps)

  create_in_parent-Keeps :
      (n : ℕ) (name : Cells) (st : State D) (r : ℕ) (st' : State D)
      → create_in_parent dev locals n name st ≡ some (r, st')
      → Keeps st.file st'.file
  unfolding create_in_parent
  create_in_parent-Keeps n name st r st' h = grind (arith, create_in_group-Keeps)

  create_at-Keeps :
      (depth : ℕ) (rows : Cells) (st : State D) (r : ℕ) (st' : State D)
      → create_at dev locals depth rows st ≡ some (r, st')
      → Keeps st.file st'.file
  unfolding create_at
  create_at-Keeps depth rows st r st' h = grind (arith, create_in_parent-Keeps)

  file_create-Keeps :
      (st : State D) (r : ℕ) (st' : State D)
      → ext2_file_create dev locals st ≡ some (r, st')
      → Keeps st.file st'.file
  unfolding ext2_file_create
  file_create-Keeps st r st' h = grind (arith, create_at-Keeps)

  created-Keeps :
      (st : State D) (x : ℕ × State D)
      → ext2_file_create dev locals st ≡ some x
      → Keeps st.file x.1.file
  created-Keeps st x h = file_create-Keeps st x.0 x.1 h

-- Nothing is ever waiting to be written back, and a closed file has no position and no inode on
-- the disk.
pub record IsClean (f : File) : Type 0 where
  pub opened_flag : (f.open_ ≡ 0) ⊎ (f.open_ ≡ 1)
  pub not_dirty : f.dirty ≡ 0
  pub no_new_bytes : f.new_bytes_count ≡ 0
  pub closed_start : f.open_ ≡ 0 → (f.pos ≡ 0) × (f.exist ≡ 0)

module _ {D : Type 0} (dev : BlockDevice D) (locals : Locals) where
  -- A call of one of the functions that change the file, with any arguments.
  pub data Call (st st' : State D) : Type 0 where
    fopen :
        (pathname : Cells) (mode0 : ℕ)
        → ext2_fopen dev locals pathname mode0 st ≡ some st'
        → Call st st'
    fclose : (r : ℕ) → ext2_fclose dev locals st ≡ some (r, st') → Call st st'
    fwrite :
        (buff : Cells) (size r : ℕ)
        → ext2_fwrite dev locals buff size st ≡ some (r, st')
        → Call st st'
    fseek : (new_pos r : ℕ) → ext2_fseek dev locals new_pos st ≡ some (r, st') → Call st st'

  -- Any number of calls.
  pub data Calls (st : State D) : State D → Type 0 where
    none_yet : Calls st st
    then_call : {st1 st2 : State D} → Calls st st1 → Call st1 st2 → Calls st st2

  fopen-IsClean :
      (pathname : Cells) (mode0 : ℕ) (st st' : State D)
      → ext2_fopen dev locals pathname mode0 st ≡ some st'
      → IsClean st.file
      → IsClean st'.file
  unfolding ext2_fopen opened
  fopen-IsClean pathname mode0 st st' h clean = ground arith

  close_existing-IsClean :
      (st : State D) (r : ℕ) (st' : State D)
      → close_existing dev locals st ≡ some (r, st')
      → IsClean st'.file
  unfolding close_existing closed
  close_existing-IsClean st r st' h = ground arith

  fclose-IsClean :
      (st : State D) (r : ℕ) (st' : State D)
      → ext2_fclose dev locals st ≡ some (r, st')
      → IsClean st.file
      → IsClean st'.file
  unfolding ext2_fclose created_or closed
  fclose-IsClean st r st' h clean = grind (arith, close_existing-IsClean)

  extend_file-Keeps :
      (a : ℕ) (st : State D) (x : (ℕ × ℕ) × State D)
      → extend_file dev locals a st ≡ some x
      → Keeps st.file x.1.file
  unfolding extend_file
  extend_file-Keeps a st x h = ground arith

  write_rest-Keeps :
      (buff : Cells) (size bs at b : ℕ) (st : State D) (r : ℕ) (st' : State D)
      → write_rest dev locals buff size bs at b st ≡ some (r, st')
      → Keeps st.file st'.file
  unfolding write_rest finish_write
  write_rest-Keeps buff size bs at b st r st' h = ground arith

  write_two_blocks-Keeps :
      (buff : Cells) (size bs at : ℕ) (st : State D) (r : ℕ) (st' : State D)
      → write_two_blocks dev locals buff size bs at st ≡ some (r, st')
      → Keeps st.file st'.file
  unfolding write_two_blocks
  write_two_blocks-Keeps buff size bs at st r st' h =
      grind (arith, write_rest-Keeps, extend_file-Keeps)

  write_existing-Keeps :
      (buff : Cells) (size : ℕ) (st : State D) (r : ℕ) (st' : State D)
      → write_existing dev locals buff size st ≡ some (r, st')
      → Keeps st.file st'.file
  unfolding write_existing finish_write
  write_existing-Keeps buff size st r st' h = grind (arith, write_two_blocks-Keeps)

  fwrite-IsClean :
      (buff : Cells) (size : ℕ) (st : State D) (r : ℕ) (st' : State D)
      → ext2_fwrite dev locals buff size st ≡ some (r, st')
      → IsClean st.file
      → IsClean st'.file
  unfolding ext2_fwrite created_or
  fwrite-IsClean buff size st r st' h clean =
      grind (arith, write_existing-Keeps, created-Keeps dev locals)

  load_block-Keeps :
      (st : State D) (r : ℕ) (st' : State D)
      → load_block dev locals st ≡ some (r, st')
      → Keeps st.file st'.file
  unfolding load_block
  load_block-Keeps st r st' h = grind (arith, extend_file-Keeps)

  seek_existing-IsClean :
      (new_pos : ℕ) (st : State D) (r : ℕ) (st' : State D)
      → seek_existing dev locals new_pos st ≡ some (r, st')
      → st.file.open_ ≡ 1
      → IsClean st.file
      → IsClean st'.file
  unfolding seek_existing
  seek_existing-IsClean new_pos st r st' h open_now clean = grind (arith, load_block-Keeps)

  fseek-IsClean :
      (new_pos : ℕ) (st : State D) (r : ℕ) (st' : State D)
      → ext2_fseek dev locals new_pos st ≡ some (r, st')
      → IsClean st.file
      → IsClean st'.file
  unfolding ext2_fseek created_or
  fseek-IsClean new_pos st r st' h clean =
      grind (arith, seek_existing-IsClean, created-Keeps dev locals)

  Call-IsClean : {st st' : State D} → Call st st' → IsClean st.file → IsClean st'.file
  Call-IsClean {st} {st'} (fopen pathname mode0 h) c = fopen-IsClean pathname mode0 st st' h c
  Call-IsClean {st} {st'} (fclose r h) c = fclose-IsClean st r st' h c
  Call-IsClean {st} {st'} (fwrite buff size r h) c = fwrite-IsClean buff size st r st' h c
  Call-IsClean {st} {st'} (fseek new_pos r h) c = fseek-IsClean new_pos st r st' h c

  -- From a clean file struct, such as the zeros that the kernel starts with, every sequence of
  -- calls of ext2_fopen, ext2_fclose, ext2_fwrite and ext2_fseek that return leads to a clean one:
  -- it is open or closed, not dirty, has no new bytes to save, and when closed has position 0 and
  -- does not count as existing.
  pub Calls-IsClean : {st st' : State D} → Calls st st' → IsClean st.file → IsClean st'.file
  Calls-IsClean none_yet c = c
  Calls-IsClean (then_call before last) c = Call-IsClean last (Calls-IsClean before c)
