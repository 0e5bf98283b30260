-- ===== src/Ext2/File/SeekRead.antt =====
-- Seeking inside the blocks of an open file and reading there.
use ester.Prelude.{
  refl, inr, ℕ, ◌+◌, ◌*◌, ◌/◌, ◌%◌, ◌^◌, ◌≤◌, ◌<◌, ◌≡◌, ◌≢◌, ap, ◌∙◌, some, Cells, arith,
}
use native.Mathlib.Nat.{zero-add}
use ester.Ext2.Layout.{BlockDevice, get32, blit, i_block, i_disk_sectors_count}
use ester.Ext2.Layout.Fields.{blit_outside, blit_front}
use ester.Ext2.Super.{ext2_get_block_size}
use ester.Ext2.File.{State, Locals, file_block, ext2_ndir_blocks, ext2_sectors_to_blocks, buff_size}
use ester.Ext2.File.Calls.{created_or, load_block, seek_existing, ext2_fseek, ext2_fread}

module _ {D : Type 0} (dev : BlockDevice D) (locals : Locals) (st : State D) (new_pos n : ℕ) where
  abbrev pub seek_block : ℕ
  seek_block = get32 st.file.inode (i_block + 4 * (new_pos / ext2_get_block_size st.fs))

  -- An open file that exists, with nothing to save, a position in a block that it has, and the
  -- bytes inside that block.
  pub record Reachable : Type 0 where
    pub is_open : st.file.open_ ≢ 0
    pub exists : st.file.exist ≢ 0
    pub not_dirty : st.file.dirty ≡ 0
    pub moves : st.file.pos ≢ new_pos
    pub some_block : 0 < ext2_get_block_size st.fs
    pub one_buffer : ext2_get_block_size st.fs ≤ buff_size
    pub direct : new_pos / ext2_get_block_size st.fs < ext2_ndir_blocks
    pub allocated :
        new_pos / ext2_get_block_size st.fs
        < get32 st.file.inode i_disk_sectors_count * 512 % 2 ^ 32 / ext2_get_block_size st.fs
    pub room : new_pos % ext2_get_block_size st.fs + n ≤ ext2_get_block_size st.fs

  abbrev moved : State D
  moved = record st { file = record st.file { pos = new_pos; new_bytes_count = 0; dirty = 0 } }

  abbrev pub sought : State D
  sought = record moved {
    file = record moved.file {
      buff = blit st.file.buff 0 (dev.read_blocks st.fs.disk seek_block 1).1 0 buff_size;
    };
  }

  module _ (r : Reachable) where
    load-sought : load_block dev locals moved ≡ some (0, sought)
    unfolding load_block file_block ext2_sectors_to_blocks
    load-sought = ground (arith, r.some_block, r.direct, r.allocated)

    fseek-sought : ext2_fseek dev locals new_pos st ≡ some (0, sought)
    unfolding ext2_fseek created_or seek_existing
    fseek-sought = ground (arith, r.is_open, r.exists, r.not_dirty, r.moves, load-sought)

    fread-sought :
        (out : Cells)
        → ext2_fread dev locals out n sought
          ≡ some (0, blit out 0 sought.file.buff (new_pos % ext2_get_block_size st.fs) n)
    unfolding ext2_fread
    fread-sought out = ground (arith, r.is_open, r.some_block, r.one_buffer, r.room)

-- With an open file that exists and has nothing to save, a new position in one of the direct blocks
-- that it has allocated, and `n` bytes inside that block: ext2_fseek returns 0, changes no disk,
-- inode, superblock or descriptor, and sets the position; ext2_fread of `n` bytes then returns 0
-- and the bytes that the device has for that block at that place, and leaves the caller's other
-- bytes.
pub fseek-fread :
    {D : Type 0} (dev : BlockDevice D) (locals : Locals) (st : State D) (new_pos n : ℕ)
    (out : Cells)
    → Reachable dev locals st new_pos n
    → (st' : State D) × (ext2_fseek dev locals new_pos st ≡ some (0, st'))
      × (st'.fs ≡ st.fs)
      × (st'.file.inode ≡ st.file.inode)
      × (st'.file.pos ≡ new_pos)
      × (out' : Cells) × (ext2_fread dev locals out n st' ≡ some (0, out'))
      × ((i : ℕ)
          → i < n
          → out' i
            ≡ (dev.read_blocks st.fs.disk (seek_block dev locals st new_pos n) 1).1
                (new_pos % ext2_get_block_size st.fs + i))
      × ((i : ℕ) → n ≤ i → out' i ≡ out i)
fseek-fread dev locals st new_pos n out r =
    let there = sought dev locals st new_pos n in
    let at = new_pos % ext2_get_block_size st.fs in
    let block = (dev.read_blocks st.fs.disk (seek_block dev locals st new_pos n) 1).1 in
    (
      there,
      fseek-sought dev locals st new_pos n r,
      refl,
      refl,
      refl,
      blit out 0 there.file.buff at n,
      fread-sought dev locals st new_pos n r out,
      λ i h.
          blit_front out there.file.buff at n i h
          ∙ blit_front st.file.buff block 0 buff_size (at + i) (omega (arith, r.room, r.one_buffer))
          ∙ ap block (zero-add (at + i)),
      λ i h. blit_outside out 0 there.file.buff at n i (inr (omega arith)),
    )
