-- ===== src/Ext2/File/Creating.antt =====
-- The end of ext2_file_create of fs/ext2/file.c, behind the two allocations.
use ester.Prelude.{
  ℕ, suc, ◌+◌, ◌^◌, ◌≤◌, ◌<◌, ◌≡◌, ◌≢◌, ◌⊎◌, refl, ap, sym, ◌∙◌, some, Cells, arith, List, length,
}
use mathlib.Core.Path.{fun_ext}
use native.Mathlib.Decide.{ℕ_discrete}
use native.Mathlib.Nat.{zero-add}
use ester.Ext2.Layout.{
  BlockDevice, IsDisk, get16, get32, set16, set32, blit, i_block, i_type_permission, i_lower_size,
  i_links_count, i_disk_sectors_count, sizeof_inode, logical_block_size,
}
use ester.Ext2.Layout.Fields.{
  get16_ext, get32_ext, set16-lt, set32-lt, blit-lt, blit_inside, blit_outside,
}
use ester.Ext2.Super.{Fs, ext2_get_block_size}
use ester.Ext2.Inode.{Position, inode_position, ext2_extract_inode, ext2_inode_write}
use ester.Ext2.Inode.Store.{disk_inode, extract_byte, position_disk}
use ester.Ext2.Directory.{Entries, ext2_list_directory, read_entry}
use ester.Ext2.AddEntry.Shown.{Alike, Names}
use ester.Ext2.AddEntry.Listed.{
  Roomy, data_block, content, added, add-added, list_before, list_after, listed-Alike,
}
use ester.Ext2.File.{State, Locals, fresh_inode, create_inode, ext2_blocks_to_sectors}

-- What ext2_file_create sets in the inode.
pub record IsFresh (block_num sectors : ℕ) (inode : Cells) : Type 0 where
  pub regular : get16 inode i_type_permission ≡ 0x81A4
  pub empty : get32 inode i_lower_size ≡ 0
  pub links : get16 inode i_links_count ≡ 1
  pub counted : get32 inode i_disk_sectors_count ≡ sectors
  pub first_block : get32 inode i_block ≡ block_num

module _ (block_num sectors : ℕ) (old : Cells) (word : block_num < 2 ^ 32)
    (small : sectors < 2 ^ 32) where
  fresh_inode-IsFresh : IsFresh block_num sectors (fresh_inode block_num sectors old)
  unfolding fresh_inode get16 get32 set16 set32
  fresh_inode-IsFresh = record {
    regular = ground arith;
    empty = ground arith;
    links = ground arith;
    counted = ground arith;
    first_block = ground arith;
  }

  fresh_inode-lt : ((k : ℕ) → old k < 256) → (k : ℕ) → fresh_inode block_num sectors old k < 256
  unfolding fresh_inode
  fresh_inode-lt bytes k = set32-lt _ i_lower_size 0 k (λ a.
      set32-lt _ i_disk_sectors_count sectors a (λ b.
        set16-lt _ i_links_count 1 b (λ c.
          set32-lt _ i_block block_num c (λ d. set16-lt old i_type_permission 0x81A4 d bytes))))

same-IsFresh :
    (block_num sectors : ℕ) (a b : Cells)
    → ((k : ℕ) → k < sizeof_inode → a k ≡ b k)
    → IsFresh block_num sectors b
    → IsFresh block_num sectors a
same-IsFresh block_num sectors a b same f = record {
  regular =
      get16_ext a b i_type_permission i_type_permission (same _ (omega arith))
        (same _ (omega arith))
      ∙ f.regular;
  empty = get32_ext a b i_lower_size (λ k lo hi. same k (omega arith)) ∙ f.empty;
  links =
      get16_ext a b i_links_count i_links_count (same _ (omega arith)) (same _ (omega arith))
      ∙ f.links;
  counted = get32_ext a b i_disk_sectors_count (λ k lo hi. same k (omega arith)) ∙ f.counted;
  first_block = get32_ext a b i_block (λ k lo hi. same k (omega arith)) ∙ f.first_block;
}

module _ {D : Type 0} (dev : BlockDevice D) (size : ℕ) (locals : Locals) (st : State D) (dir : ℕ)
    (p q : Position) (inode_num block_num len last : ℕ) (name : Cells) (os : List ℕ) where
  abbrev dir_block : ℕ
  dir_block = data_block dev size st.fs dir p inode_num len last name os

  -- A directory with room, which is the current inode, and a place `q` for the new inode, apart
  -- from the directory's block and inode.
  pub record Creatable : Type 0 where
    pub roomy : Roomy dev size st.fs dir p inode_num len last name os
    pub current : (k : ℕ) → k < sizeof_inode → st.current k ≡ disk_inode dev st.fs p k
    pub place : inode_position st.fs inode_num ≡ some q
    pub in_range : q.block < size
    pub fits : q.offset + sizeof_inode ≤ logical_block_size
    pub dir_fits : p.offset + sizeof_inode ≤ logical_block_size
    pub block_apart : q.block ≢ dir_block
    pub inode_apart :
        (q.block ≢ p.block)
        ⊎ ((q.offset + sizeof_inode ≤ p.offset) ⊎ (p.offset + sizeof_inode ≤ q.offset))
    pub word : block_num < 2 ^ 32
    pub bytes : (k : ℕ) → locals.new_inode k < 256

  module _ (laws : IsDisk dev size) (c : Creatable) where
    abbrev sectors : ℕ
    sectors = ext2_blocks_to_sectors st.fs 1

    sectors-lt : sectors < 2 ^ 32
    unfolding ext2_blocks_to_sectors
    sectors-lt = omega arith

    abbrev new_inode : Cells
    new_inode = fresh_inode block_num sectors locals.new_inode

    abbrev inode_buffer : Cells
    inode_buffer = blit (dev.read_blocks st.fs.disk q.block 1).1 q.offset new_inode 0 sizeof_inode

    abbrev written : Fs D
    written = record st.fs { disk = (dev.write_blocks st.fs.disk q.block 1 inode_buffer).1 }

    inode_write-written : ext2_inode_write dev inode_num new_inode st.fs ≡ some written
    unfolding ext2_inode_write
    inode_write-written = rw (c.place)

    block_byte :
        (k : ℕ)
        → k < logical_block_size
        → (dev.read_blocks written.disk q.block 1).1 k ≡ inode_buffer k
    block_byte k h = laws.read_written st.fs.disk q.block inode_buffer k c.in_range h (λ j.
        blit-lt _ q.offset new_inode 0 sizeof_inode j (laws.read_byte st.fs.disk q.block)
          (fresh_inode-lt block_num sectors locals.new_inode c.word sectors-lt c.bytes))

    dir_byte : (k : ℕ) → k < sizeof_inode → disk_inode dev written p k ≡ disk_inode dev st.fs p k
    dir_byte k h = elim (ℕ_discrete q.block p.block) [
      | no other ↦ laws.read_other st.fs.disk q.block p.block inode_buffer (p.offset + k) other
      | yes same ↦ rw (sym same) (
          block_byte (p.offset + k) (omega (arith, c.dir_fits))
          ∙ blit_outside _ q.offset new_inode 0 sizeof_inode (p.offset + k)
              (ground (arith, c.inode_apart)))
    ]

    dir_word :
        (o : ℕ)
        → o + 4 ≤ sizeof_inode
        → get32 (disk_inode dev written p) o ≡ get32 (disk_inode dev st.fs p) o
    dir_word o h =
        get32_ext (disk_inode dev written p) (disk_inode dev st.fs p) o
          (λ k lo hi. dir_byte k (omega arith))

    dir_mode :
        get16 (disk_inode dev written p) i_type_permission
        ≡ get16 (disk_inode dev st.fs p) i_type_permission
    dir_mode =
        get16_ext (disk_inode dev written p) (disk_inode dev st.fs p) i_type_permission
          i_type_permission (dir_byte _ (omega arith)) (dir_byte _ (omega arith))

    same_content :
        content dev size written dir p inode_num len last name os
        ≡ content dev size st.fs dir p inode_num len last name os
    same_content =
        ap (λ (b : ℕ). (dev.read_blocks written.disk b 1).1) (dir_word i_block (omega arith))
        ∙ fun_ext (λ k. laws.read_other st.fs.disk q.block dir_block inode_buffer k c.block_apart)

    written-Roomy : Roomy dev size written dir p inode_num len last name os
    unfolding ext2_get_block_size
    written-Roomy =
        let r = c.roomy in
        let block = dir_word i_block (omega arith) in
        record {
          place = position_disk st.fs written.disk dir ∙ r.place;
          is_dir = rw dir_mode r.is_dir;
          some_block = rw block r.some_block;
          one_block = dir_word (i_block + 4) (omega arith) ∙ r.one_block;
          in_range = rw block r.in_range;
          apart = rw block r.apart;
          blocks = r.blocks;
          run = rw same_content r.run;
          few = r.few;
          room = r.room;
          some_inode = r.some_inode;
          word = r.word;
          short = r.short;
          string = r.string;
          bytes = r.bytes;
        }

    abbrev entered : Fs D
    entered = added dev size written dir p inode_num len last name os laws written-Roomy

    abbrev created : State D
    created = record st {
      fs = entered;
      file = record st.file {
        inode_num = inode_num;
        inode = blit st.file.inode 0 new_inode 0 sizeof_inode;
        exist = 1;
      };
    }

    create_inode-created : create_inode dev locals inode_num block_num name st ≡ some (0, created)
    unfolding create_inode
    create_inode-created =
        rw
          (
            inode_write-written,
            add-added dev size written dir p inode_num len last name os laws written-Roomy
                st.current (λ k h. c.current k h ∙ sym (dir_byte k h)),
          )
          refl

    entered_byte : (k : ℕ) → k < sizeof_inode → disk_inode dev entered q k ≡ new_inode k
    entered_byte k h =
        laws.read_other written.disk _ q.block _ (q.offset + k)
          (λ e. c.block_apart (sym e ∙ dir_word i_block (omega arith)))
        ∙ block_byte (q.offset + k) (omega (arith, c.fits))
        ∙ blit_inside _ q.offset new_inode 0 sizeof_inode k h
        ∙ ap new_inode (zero-add k)

    extract-IsFresh :
        (current : Cells)
        → (inode : Cells) × (ext2_extract_inode dev entered inode_num current ≡ some inode)
          × IsFresh block_num sectors inode
    extract-IsFresh current =
        let (inode, e, same) =
          extract_byte dev entered inode_num q current
            (position_disk st.fs entered.disk inode_num ∙ c.place) in
        (
          inode,
          e,
          same-IsFresh block_num sectors inode new_inode (λ k h. same k h ∙ entered_byte k h)
              (fresh_inode-IsFresh block_num sectors locals.new_inode c.word sectors-lt),
        )

    -- The listings before and after.
    create-Alike :
        (current current' : Cells) (old old' : Entries)
        → let count = suc (length os) in
          (before : Entries) × (inode : Cells) × (ext2_list_directory dev st.fs dir current old
            ≡ some (count, before, inode))
          × (after : Entries) × (inode' : Cells) × (ext2_list_directory dev entered dir current'
                old'
              ≡ some (suc count, after, inode'))
          × ((t : ℕ) → t < count → Alike (before t) (after t))
          × Names (after count) inode_num len name
    create-Alike current current' old old' =
        let r = written-Roomy in
        let (before, inode, listed, same, get) =
          list_before dev size st.fs dir p inode_num len last name os laws c.roomy current old in
        let (after, inode', listed', get') =
          list_after dev size written dir p inode_num len last name os laws r current' old' in
        let (alike, named) =
          listed-Alike dev size written dir p inode_num len last name os laws r before after old
            old'
            (λ t o h. get t o h ∙ ap (λ (x : Cells). read_entry x o (old t)) (sym same_content))
            get' in
        (before, inode, listed, after, inode', listed', alike, named)

-- On a working disk, for the current inode, a directory of one data block with fewer than 126
-- entries one behind the other, whose last one starts at `last` with its name ending before the new
-- entry's place, and for a name of `len` bytes such that twice `last`, 8 + len rounded up to a
-- multiple of 4, and 8 + len more, fit in the block; with a place for the new inode apart from the
-- directory's block and inode, and 32-bit numbers: ext2_list_directory gives the entries, the end
-- of ext2_file_create returns 0 and marks the file as existing with that inode number,
-- ext2_list_directory then gives the old entries in their order, with the same numbers and names,
-- and behind them the new one with its number and name, and ext2_extract_inode gives for that
-- number an inode of a regular file of size 0, with one link and one block, the allocated one.
pub create_inode-Listed :
    {D : Type 0} (dev : BlockDevice D) (size : ℕ) (locals : Locals) (st : State D) (dir : ℕ)
    (p q : Position) (inode_num block_num len last : ℕ) (name : Cells) (os : List ℕ)
    (current current' current'' : Cells) (old old' : Entries)
    → IsDisk dev size
    → Creatable dev size locals st dir p q inode_num block_num len last name os
    → let count = suc (length os) in
      (st' : State D) × (create_inode dev locals inode_num block_num name st ≡ some (0, st'))
      × (st'.file.exist ≡ 1)
      × (st'.file.inode_num ≡ inode_num)
      × (before : Entries) × (inode : Cells) × (ext2_list_directory dev st.fs dir current old
          ≡ some (count, before, inode))
      × (after : Entries) × (inode' : Cells) × (ext2_list_directory dev st'.fs dir current' old'
          ≡ some (suc count, after, inode'))
      × ((t : ℕ) → t < count → Alike (before t) (after t))
      × Names (after count) inode_num len name
      × (new : Cells) × (ext2_extract_inode dev st'.fs inode_num current'' ≡ some new)
      × IsFresh block_num (ext2_blocks_to_sectors st.fs 1) new
create_inode-Listed dev size locals st dir p q inode_num block_num len last name os current current'
      current'' old old' laws c =
    let (before, inode, listed, after, inode', listed', alike, named) =
      create-Alike dev size locals st dir p q inode_num block_num len last name os laws c current
        current' old old' in
    let (new, extracted, fresh) =
      extract-IsFresh dev size locals st dir p q inode_num block_num len last name os laws c
        current'' in
    (
      created dev size locals st dir p q inode_num block_num len last name os laws c,
      create_inode-created dev size locals st dir p q inode_num block_num len last name os laws c,
      refl,
      refl,
      before,
      inode,
      listed,
      after,
      inode',
      listed',
      alike,
      named,
      new,
      extracted,
      fresh,
    )
