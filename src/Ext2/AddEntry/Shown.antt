-- ===== src/Ext2/AddEntry/Shown.antt =====
-- What ext2_list_directory shows of the entries of a block.
use ester.Prelude.{
  ℕ, suc, ◌+◌, ◌≤◌, ◌<◌, ◌≡◌, ◌≢◌, refl, ap, sym, ◌∙◌, some, Cells, arith, List, [], ◌∷◌, ◌++◌,
  length, get_elem?, bit_and,
}
use ester.Ext2.Layout.{BlockDevice, get16, get32, i_block, i_type_permission, sizeof_inode}
use ester.Ext2.Layout.Fields.{blit_front, get16_ext, get32_ext}
use ester.Ext2.Super.{Fs, ext2_get_block_size}
use ester.Ext2.Inode.{Position, inode_position}
use ester.Ext2.Inode.Store.{disk_inode, extract_byte}
use ester.Ext2.Directory.{Entries, DirEntry, ext2_list_directory, read_entry, max_subdirs}
use ester.Ext2.Directory.List.{Chain, list_directory-Chain}
use ester.Ext2.AddEntry.Runs.{SameEntry}

-- Two entries of a listing with the same inode's number and the same name.
abbrev pub Alike : DirEntry → DirEntry → Type 0
Alike a b =
    (a.dir_inode ≡ b.dir_inode)
    × (a.dir_name_len ≡ b.dir_name_len)
    × ((i : ℕ) → i < a.dir_name_len → a.dir_name i ≡ b.dir_name i)

pub read_entry-Alike :
    (b c : Cells) (o : ℕ) (x y : DirEntry)
    → SameEntry b c o
    → Alike (read_entry b o x) (read_entry c o y)
unfolding read_entry
read_entry-Alike b c o x y (number, len, chars) = (
  sym number,
  sym len,
  λ i h.
      blit_front x.dir_name b (o + 8) (b (o + 6)) i h
      ∙ sym (chars i h)
      ∙ sym (blit_front y.dir_name c (o + 8) (c (o + 6)) i (rw len h)),
)

-- The entry has this inode's number and this name of `len` bytes.
abbrev pub Names : DirEntry → ℕ → ℕ → Cells → Type 0
Names e inode_num len name =
    (e.dir_inode ≡ inode_num) × (e.dir_name_len ≡ len) × ((i : ℕ) → i < len → e.dir_name i ≡ name i)

pub read_entry-Names :
    (c : Cells) (o inode_num len : ℕ) (name : Cells) (x : DirEntry)
    → get32 c o ≡ inode_num
    → c (o + 6) ≡ len
    → ((i : ℕ) → i < len → c (o + 8 + i) ≡ name i)
    → Names (read_entry c o x) inode_num len name
unfolding read_entry
read_entry-Names c o inode_num len name x number size chars =
    (number, size, λ i h. blit_front x.dir_name c (o + 8) (c (o + 6)) i (rw size h) ∙ chars i h)

pub length-snoc : (os : List ℕ) (x : ℕ) → length (os ++ x ∷ []) ≡ suc (length os)
length-snoc [] x = refl
length-snoc (o ∷ os) x = ap suc (length-snoc os x)

pub length-snoc2 : (os : List ℕ) (x y : ℕ) → length (os ++ x ∷ y ∷ []) ≡ suc (suc (length os))
length-snoc2 [] x y = refl
length-snoc2 (o ∷ os) x y = ap suc (length-snoc2 os x y)

-- list_directory-Chain for an inode on the disk.
pub list-Chain :
    {D : Type 0} (dev : BlockDevice D) (fs : Fs D) (dir : ℕ) (p : Position) (current : Cells)
    (entries : Entries) (os : List ℕ)
    → inode_position fs dir ≡ some p
    → bit_and (get16 (disk_inode dev fs p) i_type_permission) 0x4000 ≢ 0
    → get32 (disk_inode dev fs p) i_block ≢ 0
    → get32 (disk_inode dev fs p) (i_block + 4) ≡ 0
    → let content = (dev.read_blocks fs.disk (get32 (disk_inode dev fs p) i_block) 1).1 in
      Chain (ext2_get_block_size fs) content 0 os
      → length os < max_subdirs
      → (entries' : Entries) × (inode : Cells) × (ext2_list_directory dev fs dir current entries
          ≡ some (length os, entries', inode))
        × ((k : ℕ) → k < sizeof_inode → inode k ≡ disk_inode dev fs p k)
        × ((t o : ℕ) → get_elem? os t ≡ some o → entries' t ≡ read_entry content o (entries t))
list-Chain dev fs dir p current entries os place dir_bit first second chain few =
    let (inode, found, same) = extract_byte dev fs dir p current place in
    let mode : get16 inode i_type_permission ≡ get16 (disk_inode dev fs p) i_type_permission =
      get16_ext inode (disk_inode dev fs p) i_type_permission i_type_permission
        (same i_type_permission (omega arith)) (same (i_type_permission + 1) (omega arith)) in
    let word = λ (o : ℕ) (h : o + 4 ≤ sizeof_inode).
      get32_ext inode (disk_inode dev fs p) o (λ k lo hi. same k (omega arith)) in
    let block : get32 inode i_block ≡ get32 (disk_inode dev fs p) i_block =
      word i_block (omega arith) in
    let (entries', e, get) =
      list_directory-Chain dev fs dir current inode entries os found (rw mode dir_bit)
        (rw block first) (word (i_block + 4) (omega arith) ∙ second) (rw block chain) few in
    (
      entries',
      inode,
      e,
      same,
      λ t o h.
          get t o h
          ∙ ap (λ (k : ℕ). read_entry (dev.read_blocks fs.disk k 1).1 o (entries t)) block,
    )
