-- ===== src/Ext2/File/Closing.antt =====
-- Calls on a file that is not open, and closing.
use ester.Prelude.{ℕ, ◌≡◌, ◌≢◌, some, Cells, arith}
use ester.Ext2.Layout.{BlockDevice}
use ester.Ext2.File.{State, Locals}
use ester.Ext2.File.Calls.{
  created_or, closed, close_existing, ext2_fclose, ext2_fread, ext2_fwrite, ext2_fseek,
}
use ester.Ext2.File.Clean.{IsClean}

module _ {D : Type 0} (dev : BlockDevice D) (locals : Locals) (st : State D) where
  -- On a file that is not open, ext2_fread, ext2_fwrite, ext2_fseek and a second ext2_fclose all
  -- return 1 and change nothing: neither the disk, nor the structures in memory, nor the caller's
  -- buffer.
  pub closed_refused :
      (buff : Cells) (size new_pos : ℕ)
      → st.file.open_ ≡ 0
      → (ext2_fread dev locals buff size st ≡ some (1, buff))
        × (ext2_fwrite dev locals buff size st ≡ some (1, st))
        × (ext2_fseek dev locals new_pos st ≡ some (1, st))
        × (ext2_fclose dev locals st ≡ some (1, st))
  unfolding ext2_fread ext2_fwrite ext2_fseek ext2_fclose
  closed_refused buff size new_pos h = (rw h, rw h, rw h, rw h)

  -- ext2_fclose of an open file that exists, in a state that a sequence of calls can lead to,
  -- returns 0, touches neither the disk nor the superblock and the descriptors, and leaves the file
  -- closed; every further call is then refused with 1.
  pub fclose-closed :
      (buff : Cells) (size new_pos : ℕ)
      → IsClean st.file
      → st.file.open_ ≢ 0
      → st.file.exist ≢ 0
      → let st' = record st { file = closed st.file } in
        (ext2_fclose dev locals st ≡ some (0, st'))
        × (ext2_fread dev locals buff size st' ≡ some (1, buff))
        × (ext2_fwrite dev locals buff size st' ≡ some (1, st'))
        × (ext2_fseek dev locals new_pos st' ≡ some (1, st'))
        × (ext2_fclose dev locals st' ≡ some (1, st'))
  unfolding ext2_fclose created_or close_existing ext2_fread ext2_fwrite ext2_fseek closed
  fclose-closed buff size new_pos clean is_open exists =
      (ground (arith, clean.not_dirty), ground arith, ground arith, ground arith, ground arith)
