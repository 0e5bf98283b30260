-- ===== src/Ext2/File/Across.antt =====
-- Writing over the end of a block into the next one of an open file, and reading it again.
use ester.Prelude.{
  ℕ, ◌+◌, ◌-◌, ◌*◌, ◌/◌, ◌%◌, ◌^◌, ◌≤◌, ◌<◌, ◌≡◌, ◌≢◌, inl, inr, sym, ap, ◌∙◌, some, Cells, arith,
  ltb, if◌then◌else◌, Bool-cases,
}
use native.Mathlib.Nat.{zero-add, mod-lt}
use native.Mathlib.Decide.{dec_lt}
use ester.Ext2.Layout.{
  BlockDevice, IsDisk, get32, blit, i_block, i_lower_size, i_disk_sectors_count, sizeof_inode,
  logical_block_size,
}
use ester.Ext2.Layout.Fields.{
  blit_inside, blit_outside, blit_front, blit-lt, get32_ext, set32_outside,
}
use ester.Ext2.Super.{ext2_get_block_size}
use ester.Ext2.Inode.{Position, inode_position, ext2_inode_write}
use ester.Ext2.Inode.Store.{position_disk}
use ester.Ext2.File.{State, Locals, cleared, file_block, ext2_ndir_blocks, ext2_sectors_to_blocks}
use ester.Ext2.File.WriteRead.{grown-size}
use ester.Ext2.File.Calls.{
  grown, created_or, finish_write, write_rest, write_two_blocks, write_existing, ext2_fwrite,
  ext2_fread,
}

grown-get32 :
    (end : ℕ) (inode : Cells) (o : ℕ)
    → i_lower_size + 4 ≤ o
    → get32 (grown end inode) o ≡ get32 inode o
unfolding grown
grown-get32 end inode o h = elim (Bool-cases (ltb (get32 inode i_lower_size) end)) [
  | inl grows ↦
      rw grows
        (get32_ext _ inode o (λ k lo hi. set32_outside inode i_lower_size _ k (inr (omega arith))))
  | inr stays ↦ rw stays
]

cleared-lt : (n : ℕ) (b : Cells) → ((j : ℕ) → b j < 256) → (j : ℕ) → cleared n b j < 256
cleared-lt n b h j = ground (arith, h j)

module _ {D : Type 0} (dev : BlockDevice D) (locals : Locals) (st : State D) (data_ : Cells)
    (n : ℕ) where
  abbrev bs : ℕ
  bs = ext2_get_block_size st.fs

  abbrev at : ℕ
  at = st.file.pos % bs

  -- The blocks of the position and behind it.
  abbrev pub first_block : ℕ
  first_block = get32 st.file.inode (i_block + 4 * (st.file.pos / bs))

  abbrev pub second_block : ℕ
  second_block = get32 st.file.inode (i_block + 4 * (st.file.pos / bs + 1))

  -- An open file that exists, and bytes that reach over the end of the position's block into a
  -- block that the file has.
  pub record Crossing : Type 0 where
    pub is_open : st.file.open_ ≢ 0
    pub exists : st.file.exist ≢ 0
    pub some_block : 0 < bs
    pub one_buffer : bs ≤ 4096
    pub one_block : n ≤ bs
    pub over : bs < at + n
    pub direct : st.file.pos / bs + 1 < ext2_ndir_blocks
    pub allocated :
        st.file.pos / bs + 2 ≤ get32 st.file.inode i_disk_sectors_count * 512 % 2 ^ 32 / bs

  abbrev pub head_buff : Cells
  head_buff = blit st.file.buff at data_ 0 (bs - at)

  abbrev pub tail_buff : Cells
  tail_buff = blit (cleared bs locals.new_buff) 0 data_ (bs - at) (n + at - bs)

  abbrev disk1 : D
  disk1 = (dev.write_blocks st.fs.disk first_block 1 head_buff).1

  abbrev disk2 : D
  disk2 = (dev.write_blocks disk1 second_block 1 tail_buff).1

  abbrev headed : State D
  headed = record st {
    fs = record st.fs { disk = disk1 };
    file = record st.file { buff = head_buff };
  }

  abbrev tailed : State D
  tailed = record headed { fs = record st.fs { disk = disk2 } }

  module _ (c : Crossing) where
    two-tailed :
        write_two_blocks dev locals data_ n bs at headed ≡ finish_write dev locals (at + n) tailed
    unfolding write_two_blocks write_rest file_block ext2_sectors_to_blocks ext2_get_block_size
    two-tailed = ground (arith, c.some_block, c.direct, c.allocated)

    existing-two :
        write_existing dev locals data_ n st ≡ write_two_blocks dev locals data_ n bs at headed
    unfolding write_existing file_block
    existing-two = ground (arith, c.some_block, c.one_buffer, c.one_block, c.over, c.direct)

    fwrite-two : ext2_fwrite dev locals data_ n st ≡ finish_write dev locals (at + n) tailed
    unfolding ext2_fwrite created_or
    fwrite-two = ground (arith, c.is_open, c.exists, existing-two, two-tailed)

    abbrev grown_inode : Cells
    grown_inode = grown (at + n) st.file.inode

    -- The end of the call, when the inode lies at `p`.
    module _ (p : Position) (place : inode_position st.fs st.file.inode_num ≡ some p) where
      abbrev with_inode : D
      with_inode =
          (dev.write_blocks disk2 p.block 1
            (blit (dev.read_blocks disk2 p.block 1).1 p.offset grown_inode 0 sizeof_inode)).1

      abbrev after : State D
      after = record tailed {
        fs = record st.fs { disk = with_inode };
        file = record st.file { buff = head_buff; inode = grown_inode };
      }

      finish-after : finish_write dev locals (at + n) tailed ≡ some (0, after)
      unfolding finish_write ext2_inode_write
      finish-after = rw (position_disk st.fs disk2 st.file.inode_num, place)

      fwrite-after : ext2_fwrite dev locals data_ n st ≡ some (0, after)
      fwrite-after = fwrite-two ∙ finish-after

      -- The caller's buffer after ext2_fread.
      abbrev read_back : Cells → Cells
      read_back out =
          blit (blit out 0 head_buff at (bs - at)) (bs - at)
            (dev.read_blocks with_inode second_block 1).1 0 (n + at - bs)

      fread-after : (out : Cells) → ext2_fread dev locals out n after ≡ some (0, read_back out)
      unfolding ext2_fread ext2_get_block_size file_block
      fread-after out =
          let same : get32 grown_inode (i_block + 4 * (st.file.pos / bs + 1)) ≡ second_block =
            grown-get32 (at + n) st.file.inode (i_block + 4 * (st.file.pos / bs + 1))
              (omega arith) in
          ground (arith, c.is_open, c.some_block, c.one_buffer, c.one_block, c.over, c.direct, same)

      head_byte : (out : Cells) (i : ℕ) → i < bs - at → read_back out i ≡ data_ i
      head_byte out i h =
          blit_outside (blit out 0 head_buff at (bs - at)) (bs - at) _ 0 (n + at - bs) i (inl h)
          ∙ blit_front out head_buff at (bs - at) i h
          ∙ blit_inside st.file.buff at data_ 0 (bs - at) i h
          ∙ ap data_ (zero-add i)

      module _ (size : ℕ) (laws : IsDisk dev size) (in_range : second_block < size)
          (apart : p.block ≢ second_block) (data_bytes : (j : ℕ) → data_ j < 256)
          (new_bytes : (j : ℕ) → locals.new_buff j < 256) where
        tail_kept :
            (k : ℕ)
            → k < n + at - bs
            → (dev.read_blocks with_inode second_block 1).1 k ≡ data_ (bs - at + k)
        tail_kept k h =
            laws.read_other disk2 p.block second_block _ k apart
            ∙ laws.read_written disk1 second_block tail_buff k in_range
                (omega (arith, c.one_block, c.one_buffer, mod-lt st.file.pos c.some_block))
                (λ j.
                  blit-lt (cleared bs locals.new_buff) 0 data_ (bs - at) (n + at - bs) j
                    (cleared-lt bs locals.new_buff new_bytes) data_bytes)
            ∙ blit_front (cleared bs locals.new_buff) data_ (bs - at) (n + at - bs) k h

        tail_byte :
            (out : Cells) (k : ℕ)
            → k < n + at - bs
            → read_back out (bs - at + k) ≡ data_ (bs - at + k)
        tail_byte out k h =
            blit_inside (blit out 0 head_buff at (bs - at)) (bs - at) _ 0 (n + at - bs) k h
            ∙ ap (dev.read_blocks with_inode second_block 1).1 (zero-add k)
            ∙ tail_kept k h

        read_back-data : (out : Cells) (i : ℕ) → i < n → read_back out i ≡ data_ i
        read_back-data out i h = elim (dec_lt i (bs - at)) [
          | yes front ↦ head_byte out i front
          | no behind ↦
              let e : bs - at + (i - (bs - at)) ≡ i = omega (arith) in
              ap (read_back out) (sym e)
              ∙ tail_byte out (i - (bs - at))
                  (omega (arith, c.over, mod-lt st.file.pos c.some_block))
              ∙ ap data_ e
        ]

        head_kept :
            (i : ℕ)
            → p.block ≢ first_block
            → second_block ≢ first_block
            → first_block < size
            → ((j : ℕ) → st.file.buff j < 256)
            → i < logical_block_size
            → (dev.read_blocks with_inode first_block 1).1 i ≡ head_buff i
        head_kept i off other first_in_range bytes h =
            laws.read_other disk2 p.block first_block _ i off
            ∙ laws.read_other disk1 second_block first_block _ i other
            ∙ laws.read_written st.fs.disk first_block head_buff i first_in_range h
                (λ j. blit-lt st.file.buff at data_ 0 (bs - at) j bytes data_bytes)

-- On a working disk, with an open file that exists, at most a block of bytes that reach over the
-- end of the position's block into the next, both among the twelve direct blocks and the next one
-- that the file has, and three different blocks for the two and the inode: ext2_fwrite returns 0;
-- ext2_fread of `n` bytes then returns 0 and the bytes that were written; the first block on the
-- disk has the old buffer with the front bytes at its end, the second one starts with the others;
-- and the size is the larger of the old one and the end of the bytes, counted from the start of the
-- first block.
pub fwrite-fread_across :
    {D : Type 0} (dev : BlockDevice D) (size : ℕ) (locals : Locals) (st : State D) (data_ : Cells)
    (n : ℕ) (p : Position) (out : Cells)
    → IsDisk dev size
    → Crossing dev locals st data_ n
    → inode_position st.fs st.file.inode_num ≡ some p
    → p.block ≢ first_block dev locals st data_ n
    → p.block ≢ second_block dev locals st data_ n
    → second_block dev locals st data_ n ≢ first_block dev locals st data_ n
    → first_block dev locals st data_ n < size
    → second_block dev locals st data_ n < size
    → ((i : ℕ) → st.file.buff i < 256)
    → ((i : ℕ) → data_ i < 256)
    → ((i : ℕ) → locals.new_buff i < 256)
    → let block_size = ext2_get_block_size st.fs in
      let at = st.file.pos % block_size in
      let room = block_size - at in
      let old = get32 st.file.inode i_lower_size in
      (st' : State D) × (ext2_fwrite dev locals data_ n st ≡ some (0, st'))
      × (out' : Cells) × (ext2_fread dev locals out n st' ≡ some (0, out'))
      × ((i : ℕ) → i < n → out' i ≡ data_ i)
      × ((i : ℕ)
          → i < logical_block_size
          → (dev.read_blocks st'.fs.disk (first_block dev locals st data_ n) 1).1 i
            ≡ blit st.file.buff at data_ 0 room i)
      × ((i : ℕ)
          → i < n - room
          → (dev.read_blocks st'.fs.disk (second_block dev locals st data_ n) 1).1 i
            ≡ data_ (room + i))
      × (get32 st'.file.inode i_lower_size ≡ (if ltb old (at + n) then at + n else old))
fwrite-fread_across dev size locals st data_ n p out laws c place off apart other first second bytes
      data_bytes new_bytes =
    (
      after dev locals st data_ n c p place,
      fwrite-after dev locals st data_ n c p place,
      read_back dev locals st data_ n c p place out,
      fread-after dev locals st data_ n c p place out,
      read_back-data dev locals st data_ n c p place size laws second apart data_bytes new_bytes
          out,
      λ i h.
          head_kept dev locals st data_ n c p place size laws second apart data_bytes new_bytes i
            off other first bytes h,
      λ i h.
          tail_kept dev locals st data_ n c p place size laws second apart data_bytes new_bytes i
            (omega (arith, mod-lt st.file.pos c.some_block)),
      grown-size (at dev locals st data_ n + n) st.file.inode
          (omega (arith, c.one_buffer, c.one_block, mod-lt st.file.pos c.some_block)),
    )
