-- ===== src/Tests/Lookups.antt =====
-- Adding an entry to a block, and entering a directory, on the small disk.
use ester.Prelude.{
  ℕ, ◌+◌, ◌-◌, ◌%◌, ◌^◌, ◌≤◌, ◌<◌, ◌≡◌, ◌⊎◌, refl, ap, ◌∙◌, [], ◌∷◌, get_elem?, some, Cells, arith,
  ◌==◌, if◌then◌else◌,
}
use ester.Ext2.Layout.{get16, get32, blit, i_block}
use ester.Ext2.Directory.List.{list_directory-Chain}
use ester.Ext2.Directory.{Entries, DirEntry, read_entry, ext2_list_directory}
use ester.Ext2.AddEntry.{append_entry, entry_size}
use ester.Ext2.AddEntry.Effect.{new_at, append_entry_lem}
use ester.Ext2.Lookup.{Walker, ext2_inode_find}
use ester.Ext2.Lookup.First.{IsName, HasNames}
use ester.Ext2.Lookup.Path.{Leads, arrived, enters, inode_find-Leads}
use ester.Ext2.UnpackPath.Rows.{Components, done, name}
use ester.Tests.Disk.{ram, small_sb}
use ester.Tests.Inodes.{dir_disk, with_dir, dir_inode_2, dir_inode_2-eq, entries_at_9}

abbrev a_name : Cells
a_name i = if i == 0 then b'a' else 0

append_entry_lem_example :
    let buffer' = append_entry (dir_disk 9) 0 7 1 a_name in
    (0 + get16 buffer' (0 + 4) ≡ new_at 0 1)
    × (get32 buffer' (new_at 0 1) ≡ 7)
    × (get16 buffer' (new_at 0 1 + 4)
        ≡ (get16 (dir_disk 9) (0 + 4) + 2 ^ 32 - (0 + entry_size 1)) % 2 ^ 16)
    × (buffer' (new_at 0 1 + 6) ≡ 1)
    × (buffer' (new_at 0 1 + 7) ≡ 0)
    × ((i : ℕ) → i < 1 → buffer' (new_at 0 1 + 8 + i) ≡ a_name i)
    × ((k : ℕ) → (k < 0 + 4) ⊎ ((0 + 6 ≤ k) × (k < new_at 0 1)) → buffer' k ≡ dir_disk 9 k)
append_entry_lem_example =
    append_entry_lem (dir_disk 9) 0 7 1 a_name (omega arith) (omega arith) (omega arith)

abbrev pub zeros : Cells
zeros i = 0

abbrev pub zero_entries : Entries
zero_entries n = record {
  dir_inode = 0;
  dir_entry_size = 0;
  dir_name_len = 0;
  dir_type = 0;
  dir_name = λ i. 0;
}

pub listing :
    (entries' : Entries) × (ext2_list_directory ram with_dir 2 small_sb zero_entries
      ≡ some (1, entries', dir_inode_2))
    × ((t o : ℕ)
        → get_elem? (0 ∷ []) t ≡ some o
        → entries' t
          ≡ read_entry
              (ram.read_blocks with_dir.disk (get32 dir_inode_2 i_block) 1).1
              o
              (zero_entries t))
unfolding get32 get16 blit
listing =
    list_directory-Chain ram with_dir 2 small_sb dir_inode_2 zero_entries (0 ∷ []) dir_inode_2-eq
      (λ e. absurd (omega arith)) (λ e. absurd (omega arith)) refl entries_at_9 (omega arith)

abbrev pub listed : Entries
listed = listing.0

abbrev pub at_root : Walker
at_root = record { inode_num = 2; current = small_sb; entries = zero_entries }

a_name-IsName : IsName a_name 1
a_name-IsName = record {
  string = record { ends = refl; inside = λ i h. ground arith };
  short = omega arith;
  bytes = λ i. ground arith;
}

read_name :
    (i : ℕ)
    → (read_entry
          (ram.read_blocks with_dir.disk (get32 dir_inode_2 i_block) 1).1
          0
          (zero_entries 0)).dir_name
        i
      ≡ a_name i
unfolding read_entry blit get32
read_name i = ground arith

listed_name : (i : ℕ) → (listed 0).dir_name i ≡ a_name i
listed_name i = ap (λ (e : DirEntry). e.dir_name i) (listing.2 0 0 refl) ∙ read_name i

listed-HasNames : HasNames listed (λ j. 1) 1
listed-HasNames j h =
    let first : j ≡ 0 = omega arith in
    rw first (record {
      string = record { ends = listed_name 1; inside = λ i lt. ground (arith, listed_name i) };
      short = omega arith;
      bytes = λ i. ground (arith, listed_name i);
    })

-- "/a/"
abbrev pub a_path : Cells
a_path i = if i == 0 then b'/' else if i == 1 then b'a' else if i == 2 then b'/' else 0

pub a_path-IsName : IsName a_path 3
a_path-IsName = record {
  string = record { ends = refl; inside = λ i h. ground arith };
  short = omega arith;
  bytes = λ i. ground arith;
}

pub a_path-Components : Components a_path 1 (1 ∷ [])
a_path-Components =
    name (λ t h. (λ e. absurd (ground arith), λ e. absurd (ground arith))) refl (omega arith) refl
      (done refl)

pub listed_inode : (listed 0).dir_inode ≡ 12
unfolding read_entry get32 blit
listed_inode = ap (λ (e : DirEntry). e.dir_inode) (listing.2 0 0 refl)

pub a_path-Leads : Leads ram with_dir a_path 1 (1 ∷ []) at_root (listed 0).dir_inode
a_path-Leads =
    enters 1 0 listed dir_inode_2 (λ j. 1) listing.1 listed-HasNames (omega arith)
      (λ k h. absurd (omega arith)) (refl, λ c h. ground (arith, listed_name c))
      (λ e. absurd (omega (arith, listed_inode))) arrived

inode_find-Leads_example :
    (current' : Cells) × (ext2_inode_find ram with_dir a_path zeros small_sb zero_entries
      ≡ some ((listed 0).dir_inode, current'))
inode_find-Leads_example =
    inode_find-Leads ram with_dir a_path 3 (listed 0).dir_inode (1 ∷ []) zeros small_sb zero_entries
      a_path-IsName (omega arith) (λ i. omega arith) refl a_path-Components (omega arith)
      a_path-Leads
