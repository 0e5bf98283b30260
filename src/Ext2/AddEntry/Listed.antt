-- ===== src/Ext2/AddEntry/Listed.antt =====
-- ext2_list_directory after ext2_add_dir_entry.
use ester.Prelude.{
  ℕ, suc, ◌+◌, ◌^◌, ◌≤◌, ◌<◌, ◌≡◌, ◌≢◌, ap, ◌∙◌, some, Cells, arith, List, [], ◌∷◌, ◌++◌, length,
  get_elem?, bit_and,
}
use ester.Kernel.Str.{IsString}
use ester.Kernel.Str.Len.{strlen-eq}
use ester.Ext2.Layout.{
  BlockDevice, IsDisk, get16, get32, i_block, i_type_permission, sizeof_inode, logical_block_size,
}
use ester.Ext2.Layout.Fields.{get16_ext, get32_ext}
use ester.Ext2.Super.{Fs, ext2_get_block_size}
use ester.Ext2.Inode.{Position, inode_position}
use ester.Ext2.Inode.Store.{disk_inode, position_disk}
use ester.Ext2.Directory.{Entries, ext2_list_directory, read_entry, max_subdirs}
use ester.Ext2.AddEntry.Shown.{
  Alike, Names, read_entry-Alike, read_entry-Names, length-snoc, length-snoc2, list-Chain,
}
use ester.Ext2.AddEntry.{append_entry, walk_fuel, walk_blocks, after_block, ext2_add_dir_entry}
use ester.Ext2.AddEntry.Effect.{new_at, append_entry_lem, append_entry-lt}
use ester.Ext2.AddEntry.Runs.{
  Run, Run-last_size, Run-Chain, walk_block-Run, Appended, Run-Chain_appended, Run-SameEntry,
  new-last,
}

module _ {D : Type 0} (dev : BlockDevice D) (size : ℕ) (fs : Fs D) (dir : ℕ) (p : Position)
    (inode_num len last : ℕ) (name : Cells) (os : List ℕ) where
  abbrev pub data_block : ℕ
  data_block = get32 (disk_inode dev fs p) i_block

  abbrev pub content : Cells
  content = (dev.read_blocks fs.disk data_block 1).1

  -- A directory with one data block, other than the block of its inode, fewer than 126 entries one
  -- behind the other, and room behind the last one for the new entry; and the new entry's name.
  pub record Roomy : Type 0 where
    pub place : inode_position fs dir ≡ some p
    pub is_dir : bit_and (get16 (disk_inode dev fs p) i_type_permission) 0x4000 ≢ 0
    pub some_block : data_block ≢ 0
    pub one_block : get32 (disk_inode dev fs p) (i_block + 4) ≡ 0
    pub in_range : data_block < size
    pub apart : data_block ≢ p.block
    pub blocks : ext2_get_block_size fs ≤ logical_block_size
    pub run : Run (ext2_get_block_size fs) content (new_at last len) last 0 os
    pub few : 2 + length os < max_subdirs
    pub room : new_at last len + 8 + len ≤ ext2_get_block_size fs
    pub some_inode : inode_num ≢ 0
    pub word : inode_num < 2 ^ 32
    pub short : len < 256
    pub string : IsString name 0 len
    pub bytes : (k : ℕ) → name k < 256

  module _ (laws : IsDisk dev size) (r : Roomy) where
    abbrev bs : ℕ
    bs = ext2_get_block_size fs

    abbrev at : ℕ
    at = new_at last len

    abbrev changed : Cells
    changed = append_entry content last inode_num len name

    abbrev pub added : Fs D
    added = record fs { disk = (dev.write_blocks fs.disk data_block 1 changed).1 }

    abbrev pub content' : Cells
    content' = (dev.read_blocks added.disk data_block 1).1

    walk-added :
        (left : ℕ) (inode : Cells)
        → get32 inode i_block ≡ data_block
        → walk_blocks dev fs (suc left) 0 inode inode_num len name 0 ≡ some (0, added)
    unfolding walk_blocks after_block
    walk-added left inode same = rw same (
        ground (
          arith,
          r.some_block,
          walk_block-Run bs content at last (omega (arith, r.blocks)) walk_fuel 0 0 os inode_num len
              name r.run (omega (arith, r.few)) (omega (arith, r.few))
              (omega (arith, r.room, r.blocks)) r.room,
        ))

    pub add-added :
        (inode : Cells)
        → ((k : ℕ) → k < sizeof_inode → inode k ≡ disk_inode dev fs p k)
        → ext2_add_dir_entry dev fs inode inode_num name ≡ some (0, added)
    unfolding ext2_add_dir_entry
    add-added inode same =
        let block : get32 inode i_block ≡ data_block =
          get32_ext inode (disk_inode dev fs p) i_block (λ k lo hi. same k (omega arith)) in
        let mode : get16 inode i_type_permission ≡ get16 (disk_inode dev fs p) i_type_permission =
          get16_ext inode (disk_inode dev fs p) i_type_permission i_type_permission
            (same i_type_permission (omega arith)) (same (i_type_permission + 1) (omega arith)) in
        ground (
          arith,
          mode,
          r.is_dir,
          strlen-eq name 0 len r.string (omega (arith, r.short)),
          walk-added 11 inode block,
        )

    content-changed : (k : ℕ) → k < bs → content' k ≡ changed k
    content-changed k h =
        laws.read_written fs.disk data_block changed k r.in_range (omega (arith, r.blocks)) (
          append_entry-lt content last inode_num len name (laws.read_byte fs.disk data_block)
            r.bytes)

    content-Appended : Appended bs content content' last at inode_num
    content-Appended =
        let (leads, number, rest, _, _, _, kept) =
          append_entry_lem content last inode_num len name (omega (arith, r.room, r.blocks)) r.word
            r.short in
        let old = Run-last_size bs content at last (omega (arith, r.blocks)) 0 os r.run in
        record {
          behind = omega (arith, r.room);
          inside = omega (arith, r.room);
          some_inode = r.some_inode;
          leads =
              ap (λ (s : ℕ). last + s)
                (get16_ext content' changed (last + 4) (last + 4)
                  (content-changed (last + 4) (omega (arith, r.room)))
                  (content-changed (last + 4 + 1) (omega (arith, r.room))))
              ∙ leads;
          number =
              get32_ext content' changed at (λ k lo hi. content-changed k (omega (arith, r.room)))
              ∙ number;
          ends =
              let e =
                get16_ext content' changed (at + 4) (at + 4)
                  (content-changed (at + 4) (omega (arith, r.room)))
                  (content-changed (at + 4 + 1) (omega (arith, r.room))) in
              omega (arith, e, rest, old, r.room, r.blocks);
          kept = λ k h. content-changed k (omega (arith, r.room)) ∙ kept k h;
        }

    new_name : (i : ℕ) → i < len → content' (at + 8 + i) ≡ name i
    new_name i h =
        let (_, _, _, _, _, chars, _) =
          append_entry_lem content last inode_num len name (omega (arith, r.room, r.blocks)) r.word
            r.short in
        content-changed (at + 8 + i) (omega (arith, r.room)) ∙ chars i h

    new_name_len : content' (at + 6) ≡ len
    new_name_len =
        let (_, _, _, l, _, _, _) =
          append_entry_lem content last inode_num len name (omega (arith, r.room, r.blocks)) r.word
            r.short in
        content-changed (at + 6) (omega (arith, r.room)) ∙ l

    -- The directory's inode is the one it was.
    kept_inode : (k : ℕ) → disk_inode dev added p k ≡ disk_inode dev fs p k
    kept_inode k = laws.read_other fs.disk data_block p.block changed (p.offset + k) r.apart

    kept_word : (o : ℕ) → get32 (disk_inode dev added p) o ≡ get32 (disk_inode dev fs p) o
    kept_word o =
        get32_ext (disk_inode dev added p) (disk_inode dev fs p) o (λ k lo hi. kept_inode k)

    kept_mode :
        get16 (disk_inode dev added p) i_type_permission
        ≡ get16 (disk_inode dev fs p) i_type_permission
    kept_mode =
        get16_ext (disk_inode dev added p) (disk_inode dev fs p) i_type_permission i_type_permission
          (kept_inode i_type_permission) (kept_inode (i_type_permission + 1))

    small : bs < 2 ^ 16
    small = omega (arith, r.blocks)

    pub list_before :
        (current : Cells) (old : Entries)
        → (before : Entries) × (inode : Cells) × (ext2_list_directory dev fs dir current old
            ≡ some (suc (length os), before, inode))
          × ((k : ℕ) → k < sizeof_inode → inode k ≡ disk_inode dev fs p k)
          × ((t o : ℕ)
              → get_elem? (os ++ last ∷ []) t ≡ some o
              → before t ≡ read_entry content o (old t))
    list_before current old =
        let len_eq = length-snoc os last in
        let (before, inode, e, same, get) =
          list-Chain dev fs dir p current old (os ++ last ∷ []) r.place r.is_dir r.some_block
            r.one_block (Run-Chain bs content at last small 0 os r.run)
            (omega (arith, r.few, len_eq)) in
        (before, inode, e ∙ ap (λ (k : ℕ). some (k, before, inode)) len_eq, same, get)

    pub list_after :
        (current : Cells) (old : Entries)
        → (after : Entries) × (inode : Cells) × (ext2_list_directory dev added dir current old
            ≡ some (suc (suc (length os)), after, inode))
          × ((t o : ℕ)
              → get_elem? (os ++ last ∷ at ∷ []) t ≡ some o
              → after t ≡ read_entry content' o (old t))
    unfolding ext2_get_block_size
    list_after current old =
        let len_eq = length-snoc2 os last at in
        let block = kept_word i_block in
        let buffer = λ (b : ℕ). (dev.read_blocks added.disk b 1).1 in
        let chain =
          Run-Chain_appended bs content content' last at inode_num small content-Appended 0 os
            r.run in
        let (after, inode, e, same, get) =
          list-Chain dev added dir p current old (os ++ last ∷ at ∷ [])
            (position_disk fs added.disk dir ∙ r.place) (rw kept_mode r.is_dir)
            (rw block r.some_block) (kept_word (i_block + 4) ∙ r.one_block) (rw block chain)
            (omega (arith, r.few, len_eq)) in
        (
          after,
          inode,
          e ∙ ap (λ (k : ℕ). some (k, after, inode)) len_eq,
          λ t o h. get t o h ∙ ap (λ (b : ℕ). read_entry (buffer b) o (old t)) block,
        )

    -- Listings with the entries at the old and the new offsets.
    pub listed-Alike :
        (before after old old' : Entries)
        → ((t o : ℕ)
            → get_elem? (os ++ last ∷ []) t ≡ some o
            → before t ≡ read_entry content o (old t))
        → ((t o : ℕ)
            → get_elem? (os ++ last ∷ at ∷ []) t ≡ some o
            → after t ≡ read_entry content' o (old' t))
        → ((t : ℕ) → t < suc (length os) → Alike (before t) (after t))
          × Names (after (suc (length os))) inode_num len name
    listed-Alike before after old old' get get' =
        let grows = content-Appended in
        let new =
          get' (suc (length os)) at
            (new-last bs content content' last at inode_num small grows os) in
        (
          λ t h.
              let (o, first, second, alike) =
                Run-SameEntry bs content content' last at inode_num small grows 0 t os r.run h in
              rw (get t o first, get' t o second)
                (read_entry-Alike content content' o (old t) (old' t) alike),
          rw new (
              read_entry-Names content' at inode_num len name (old' (suc (length os))) grows.number
                new_name_len new_name),
        )

-- On a working disk, for a directory with one data block, other than the block of its inode, of
-- fewer than 126 entries one behind the other, the last of which starts at `last` with its name
-- ending before the new entry's place, and for a name of `len` < 256 bytes such that twice `last`,
-- 8 + len rounded up to a multiple of 4, and 8 + len more, fit in the block (the code puts the new
-- entry at twice the last offset plus that size): ext2_list_directory gives those entries,
-- ext2_add_dir_entry returns 0, and afterwards ext2_list_directory gives one entry more, the old
-- ones in their order with the same inode numbers and names, and then the new one with its number
-- and name.
pub add_dir_entry-Listed :
    {D : Type 0} (dev : BlockDevice D) (size : ℕ) (fs : Fs D) (dir : ℕ) (p : Position)
    (inode_num len last : ℕ) (name : Cells) (os : List ℕ) (current : Cells) (old old' : Entries)
    → IsDisk dev size
    → Roomy dev size fs dir p inode_num len last name os
    → let count = suc (length os) in
      (before : Entries) × (inode : Cells) × (ext2_list_directory dev fs dir current old
        ≡ some (count, before, inode))
      × (fs' : Fs D) × (ext2_add_dir_entry dev fs inode inode_num name ≡ some (0, fs'))
      × (after : Entries) × (inode' : Cells) × (ext2_list_directory dev fs' dir inode old'
          ≡ some (suc count, after, inode'))
      × ((t : ℕ) → t < count → Alike (before t) (after t))
      × Names (after count) inode_num len name
add_dir_entry-Listed dev size fs dir p inode_num len last name os current old old' laws r =
    let (before, inode, listed, same, get) =
      list_before dev size fs dir p inode_num len last name os laws r current old in
    let (after, inode', listed', get') =
      list_after dev size fs dir p inode_num len last name os laws r inode old' in
    let (alike, named) =
      listed-Alike dev size fs dir p inode_num len last name os laws r before after old old' get
        get' in
    (
      before,
      inode,
      listed,
      added dev size fs dir p inode_num len last name os laws r,
      add-added dev size fs dir p inode_num len last name os laws r inode same,
      after,
      inode',
      listed',
      alike,
      named,
    )
