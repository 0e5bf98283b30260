-- ===== src/Ext2/File/WriteRead.antt =====
-- Writing inside one block of an open file and reading it again, from the buffer and from the disk.
use ester.Prelude.{
  ℕ, ◌+◌, ◌-◌, ◌*◌, ◌/◌, ◌%◌, ◌^◌, ◌≤◌, ◌<◌, ◌≡◌, ◌≢◌, ap, ◌∙◌, some, Cells, arith, ltb,
  if◌then◌else◌,
}
use native.Mathlib.Nat.{zero-add}
use ester.Ext2.Layout.{
  BlockDevice, IsDisk, get32, blit, i_block, i_lower_size, sizeof_inode, logical_block_size,
}
use ester.Ext2.Layout.Fields.{blit_inside, blit_front, blit-lt, get32-set32}
use ester.Ext2.Super.{ext2_get_block_size}
use ester.Ext2.Inode.{Position, inode_position, ext2_inode_write}
use ester.Ext2.Inode.Store.{position_disk}
use ester.Ext2.File.{State, Locals, file_block, ext2_ndir_blocks}
use ester.Ext2.File.Calls.{grown, created_or, finish_write, write_existing, ext2_fwrite, ext2_fread}

pub grown-size :
    (end : ℕ) (inode : Cells)
    → end < 2 ^ 32
    → get32 (grown end inode) i_lower_size
      ≡ (if ltb (get32 inode i_lower_size) end then end else get32 inode i_lower_size)
unfolding grown
grown-size end inode small = ground (
  arith,
  get32-set32 inode i_lower_size
      ((get32 inode i_lower_size + (end - get32 inode i_lower_size)) % 2 ^ 32),
)

module _ {D : Type 0} (dev : BlockDevice D) (locals : Locals) (st : State D) (data_ : Cells)
    (n : ℕ) where
  -- The place of the position in its block, and the number of that block.
  abbrev pub in_block : ℕ
  in_block = st.file.pos % ext2_get_block_size st.fs

  abbrev pub block_at : ℕ
  block_at = get32 st.file.inode (i_block + 4 * (st.file.pos / ext2_get_block_size st.fs))

  -- The buffer with the new bytes.
  abbrev pub new_content : Cells
  new_content = blit st.file.buff in_block data_ 0 n

  abbrev stored : State D
  stored = record st {
    fs = record st.fs { disk = (dev.write_blocks st.fs.disk block_at 1 new_content).1 };
    file = record st.file { buff = new_content };
  }

  -- An open file that exists, and room for the bytes in the position's block.
  pub record Writable : Type 0 where
    pub is_open : st.file.open_ ≢ 0
    pub exists : st.file.exist ≢ 0
    pub some_block : 0 < ext2_get_block_size st.fs
    pub one_buffer : ext2_get_block_size st.fs ≤ 4096
    pub direct : st.file.pos / ext2_get_block_size st.fs < ext2_ndir_blocks
    pub room : in_block + n ≤ ext2_get_block_size st.fs

  module _ (w : Writable) where
    write-stored :
        write_existing dev locals data_ n st ≡ finish_write dev locals (in_block + n) stored
    unfolding write_existing file_block
    write-stored = ground (arith, w.some_block, w.one_buffer, w.direct, w.room)

    fwrite-existing : ext2_fwrite dev locals data_ n st ≡ write_existing dev locals data_ n st
    unfolding ext2_fwrite created_or
    fwrite-existing = ground (arith, w.is_open, w.exists)

    -- The end of the call, when the inode lies at `p`.
    abbrev grown_inode : Cells
    grown_inode = grown (in_block + n) st.file.inode

    module _ (p : Position) (place : inode_position st.fs st.file.inode_num ≡ some p) where
      abbrev with_inode : D
      with_inode =
          (dev.write_blocks stored.fs.disk p.block 1 (
            blit (dev.read_blocks stored.fs.disk p.block 1).1 p.offset grown_inode 0
              sizeof_inode)).1

      abbrev after : State D
      after = record stored {
        fs = record st.fs { disk = with_inode };
        file = record st.file { buff = new_content; inode = grown_inode };
      }

      finish-after : finish_write dev locals (in_block + n) stored ≡ some (0, after)
      unfolding finish_write ext2_inode_write
      finish-after = rw (position_disk st.fs stored.fs.disk st.file.inode_num, place)

      fwrite-after : ext2_fwrite dev locals data_ n st ≡ some (0, after)
      fwrite-after = fwrite-existing ∙ write-stored ∙ finish-after

      fread-after :
          (out : Cells)
          → ext2_fread dev locals out n after ≡ some (0, blit out 0 new_content in_block n)
      unfolding ext2_fread ext2_get_block_size
      fread-after out = ground (arith, w.is_open, w.some_block, w.one_buffer, w.room)

-- On a working disk, with an open file that exists, a position in one of its twelve direct blocks
-- with room for `n` bytes in that block, and the inode in another block: ext2_fwrite returns 0;
-- ext2_fread of `n` bytes then returns 0 and the bytes that were written; the block on the disk has
-- the old content of the buffer with those bytes in it; and the size is the larger of the old one
-- and the end of the bytes in their block.
pub fwrite-fread :
    {D : Type 0} (dev : BlockDevice D) (size : ℕ) (locals : Locals) (st : State D) (data_ : Cells)
    (n : ℕ) (p : Position) (out : Cells)
    → IsDisk dev size
    → Writable dev locals st data_ n
    → inode_position st.fs st.file.inode_num ≡ some p
    → p.block ≢ block_at dev locals st data_ n
    → block_at dev locals st data_ n < size
    → ((i : ℕ) → st.file.buff i < 256)
    → ((i : ℕ) → data_ i < 256)
    → let b = block_at dev locals st data_ n in
      let end = in_block dev locals st data_ n + n in
      let old = get32 st.file.inode i_lower_size in
      (st' : State D) × (ext2_fwrite dev locals data_ n st ≡ some (0, st'))
      × (out' : Cells) × (ext2_fread dev locals out n st' ≡ some (0, out'))
      × ((i : ℕ) → i < n → out' i ≡ data_ i)
      × ((i : ℕ)
          → i < logical_block_size
          → (dev.read_blocks st'.fs.disk b 1).1 i ≡ new_content dev locals st data_ n i)
      × (get32 st'.file.inode i_lower_size ≡ (if ltb old end then end else old))
fwrite-fread dev size locals st data_ n p out laws w place apart in_range bytes data_bytes =
    let content = new_content dev locals st data_ n in
    let at = in_block dev locals st data_ n in
    (
      after dev locals st data_ n w p place,
      fwrite-after dev locals st data_ n w p place,
      blit out 0 content at n,
      fread-after dev locals st data_ n w p place out,
      λ i h.
          blit_front out content at n i h
          ∙ blit_inside st.file.buff at data_ 0 n i h
          ∙ ap data_ (zero-add i),
      λ i h.
          laws.read_other _ p.block _ _ i apart
          ∙ laws.read_written st.fs.disk _ content i in_range h
              (λ j. blit-lt st.file.buff at data_ 0 n j bytes data_bytes),
      grown-size (at + n) st.file.inode (omega (arith, w.room, w.one_buffer)),
    )
