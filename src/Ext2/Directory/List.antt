-- ===== src/Ext2/Directory/List.antt =====
-- The listing ends, stays within 128 entries, and finds the entries of a well-formed block.
use ester.Prelude.{
  ℕ, zero, suc, ◌+◌, ◌*◌, ◌%◌, ◌^◌, ◌≤◌, ◌<◌, ◌≡◌, ◌≢◌, ◌⊎◌, inl, inr, refl, sym, ap, ◌∙◌, Option,
  some, true, false, Bool, Cells, arith, List, [], ◌∷◌, length, leb, ◌==◌, if◌then◌else◌,
  Bool-cases, bit_and, get_elem?,
}
use native.Mathlib.Nat.{add-zero, zero-add}
use ester.Ext2.Layout.{BlockDevice, get16, get32, i_block, i_type_permission}
use ester.Ext2.Super.{Fs, ext2_get_block_size}
use ester.Ext2.Inode.{ext2_extract_inode}
use ester.Ext2.Directory.{
  Entries, Listing, read_entry, list_block, list_blocks, unless_returned, ext2_list_directory,
  max_subdirs, list_fuel,
}

-- What a listing that starts with `j` entries may do.
pub record Extends (j : ℕ) (entries : Entries) (s : Listing) : Type 0 where
  pub grown : j ≤ s.j
  pub bounded : s.j ≤ max_subdirs
  pub kept : (n : ℕ) → (n < j) ⊎ (s.j ≤ n) → s.entries n ≡ entries n

abbrev listing : ℕ → Entries → Bool → Listing
listing j entries returned = record { j = j; entries = entries; returned = returned }

list_block-Extends :
    (fuel block_size : ℕ) (buffer : Cells) (offset j : ℕ) (entries : Entries)
    → j ≤ max_subdirs
    → max_subdirs < j + fuel
    → (s : Listing) × (list_block fuel block_size buffer offset j entries ≡ some s)
      × Extends j entries s
unfolding list_block
list_block-Extends zero block_size buffer offset j entries h enough = absurd (omega arith)
list_block-Extends (suc fuel) block_size buffer offset j entries h enough =
    elim (Bool-cases (leb block_size offset)) [
      | inl past ↦ (
        listing j entries false,
        rw past,
        record { grown = omega arith; bounded = h; kept = λ n p. refl },
      )
      | inr more ↦ elim (Bool-cases (leb max_subdirs j)) [
        | inl full ↦ (
          listing j entries true,
          rw (more, full),
          record { grown = omega arith; bounded = h; kept = λ n p. refl },
        )
        | inr room ↦ elim (Bool-cases (get32 buffer offset == 0)) [
          | inl empty ↦ (
            listing j entries false,
            rw (more, room, empty),
            record { grown = omega arith; bounded = h; kept = λ n p. refl },
          )
          | inr entry ↦
              let (s, e, ext) =
                list_block-Extends fuel block_size buffer
                  ((offset + get16 buffer (offset + 4)) % 2 ^ 32) (j + 1)
                  (λ n. if n == j then read_entry buffer offset (entries j) else entries n)
                  (ground arith) (omega arith) in
              (
                s,
                rw (more, room, entry) e,
                record {
                  grown = omega (arith, ext.grown);
                  bounded = ext.bounded;
                  kept = λ n p. ground (arith, ext.kept n, ext.grown);
                },
              )
        ]
      ]
    ]

unless_stop :
    (next : Listing → Option Listing) (s : Listing)
    → s.returned ≡ true
    → unless_returned next s ≡ some s
unfolding unless_returned
unless_stop next s h = rw h

unless_go :
    (next : Listing → Option Listing) (s : Listing)
    → s.returned ≡ false
    → unless_returned next s ≡ next s
unfolding unless_returned
unless_go next s h = rw h

module _ {D : Type 0} (dev : BlockDevice D) (fs : Fs D) where
  list_blocks-Extends :
      (left i : ℕ) (inode : Cells) (s : Listing)
      → s.j ≤ max_subdirs
      → (s' : Listing) × (list_blocks dev fs left i inode s ≡ some s') × Extends s.j s.entries s'
  unfolding list_blocks
  list_blocks-Extends zero i inode s h =
      (s, refl, record { grown = omega arith; bounded = h; kept = λ n p. refl })
  list_blocks-Extends (suc left) i inode s h =
      elim (Bool-cases (get32 inode (i_block + 4 * i) == 0)) [
        | inl last ↦ (s, rw last, record { grown = omega arith; bounded = h; kept = λ n p. refl })
        | inr more ↦
            let (s1, e1, ext1) =
              list_block-Extends list_fuel (ext2_get_block_size fs)
                (dev.read_blocks fs.disk (get32 inode (i_block + 4 * i)) 1).1 0 s.j s.entries h
                (omega arith) in
            elim (Bool-cases s1.returned) [
              | inl stop ↦ (s1, rw (more, e1) (unless_stop _ s1 stop), ext1)
              | inr go ↦
                  let (s2, e2, ext2) = list_blocks-Extends left (i + 1) inode s1 ext1.bounded in
                  (
                    s2,
                    rw (more, e1) (unless_go _ s1 go ∙ e2),
                    record {
                      grown = omega (arith, ext1.grown, ext2.grown);
                      bounded = ext2.bounded;
                      kept =
                          λ n p. ground (arith, ext1.kept n, ext2.kept n, ext1.grown, ext2.grown);
                    },
                  )
            ]
      ]

  -- Whenever the inode can be located, ext2_list_directory ends, returns a count of at most 128,
  -- and stores into no entry from that count on.
  pub list_directory-bounded :
      (n : ℕ) (current inode : Cells) (entries : Entries)
      → ext2_extract_inode dev fs n current ≡ some inode
      → (count : ℕ) × (entries' : Entries) × (ext2_list_directory dev fs n current entries
          ≡ some (count, entries', inode))
        × (count ≤ max_subdirs)
        × ((k : ℕ) → count ≤ k → entries' k ≡ entries k)
  unfolding ext2_list_directory
  list_directory-bounded n current inode entries found =
      elim (Bool-cases (bit_and (get16 inode i_type_permission) 0x4000 == 0)) [
        | inl file ↦ (0, entries, rw (found, file), omega arith, λ k h. refl)
        | inr dir ↦
            let (s, e, ext) =
              list_blocks-Extends 12 0 inode (listing 0 entries false) (omega arith) in
            (s.j, s.entries, rw (found, dir, e), ext.bounded, λ k h. ext.kept k (inr h))
      ]

-- From `offset` on, the block holds entries at exactly these offsets: each with an inode and inside
-- the block; behind the last one the block ends or an entry without an inode stands.
abbrev pub Chain : ℕ → Cells → ℕ → List ℕ → Type 0
Chain block_size buffer offset [] = (block_size ≤ offset) ⊎ (get32 buffer offset ≡ 0)
Chain block_size buffer offset (o ∷ os) =
    (o ≡ offset)
    × (offset < block_size)
    × (get32 buffer offset ≢ 0)
    × Chain block_size buffer ((offset + get16 buffer (offset + 4)) % 2 ^ 32) os

list_block-Chain :
    (os : List ℕ) (fuel block_size : ℕ) (buffer : Cells) (offset j : ℕ) (entries : Entries)
    → Chain block_size buffer offset os
    → j + length os < max_subdirs
    → length os < fuel
    → (entries' : Entries) × (list_block fuel block_size buffer offset j entries
        ≡ some (listing (j + length os) entries' false))
      × ((t o : ℕ)
          → get_elem? os t ≡ some o
          → entries' (j + t) ≡ read_entry buffer o (entries (j + t)))
      × ((n : ℕ) → n < j → entries' n ≡ entries n)
unfolding list_block
list_block-Chain os zero block_size buffer offset j entries c room enough = absurd (omega arith)
list_block-Chain [] (suc fuel) block_size buffer offset j entries c room enough =
    (entries, ground (arith, add-zero j), λ t o h. absurd (ground arith), λ n h. refl)
list_block-Chain (o ∷ os) (suc fuel) block_size buffer offset j entries (at, inside, used, next)
      room enough =
    let (entries', e, found, kept) =
      list_block-Chain os fuel block_size buffer ((offset + get16 buffer (offset + 4)) % 2 ^ 32)
        (j + 1) stored next (omega arith) (omega arith) in
    (
      entries',
      ground (arith, e, ap (λ (k : ℕ). listing k entries' false) shift),
      entry entries' found kept,
      λ n h. ground (arith, kept n),
    )
  where
    stored : Entries
    stored n = if n == j then read_entry buffer offset (entries j) else entries n

    shift : j + 1 + length os ≡ j + suc (length os)
    shift = omega arith

    stored_ne : (n : ℕ) → n ≢ j → stored n ≡ entries n
    stored_ne n h = ground arith

    entry :
        (entries' : Entries)
        → ((t o : ℕ)
            → get_elem? os t ≡ some o
            → entries' (j + 1 + t) ≡ read_entry buffer o (stored (j + 1 + t)))
        → ((n : ℕ) → n < j + 1 → entries' n ≡ stored n)
        → (t x : ℕ) → get_elem? (o ∷ os) t ≡ some x
        → entries' (j + t) ≡ read_entry buffer x (entries (j + t))
    entry entries' found kept zero x h =
        let e : j + 0 ≡ j = omega arith in rw e (ground (arith, kept j))
    entry entries' found kept (suc t) x h =
        let e : j + suc t ≡ j + 1 + t = omega arith in
        rw e (found t x h ∙ ap (read_entry buffer x) (stored_ne (j + 1 + t) (omega arith)))

module _ {D : Type 0} (dev : BlockDevice D) (fs : Fs D) where
  list_one_block :
      (left : ℕ) (inode : Cells) (entries entries' : Entries) (count : ℕ)
      → get32 inode i_block ≢ 0
      → get32 inode (i_block + 4) ≡ 0
      → list_block list_fuel
          (ext2_get_block_size fs)
          (dev.read_blocks fs.disk (get32 inode i_block) 1).1
          0
          0
          entries
        ≡ some (listing count entries' false)
      → list_blocks dev fs (suc (suc left)) 0 inode (listing 0 entries false)
        ≡ some (listing count entries' false)
  unfolding list_blocks unless_returned
  list_one_block left inode entries entries' count first second e = ground arith

  -- In a directory of one data block whose entries lie at the offsets `os`, fewer than 128,
  -- ext2_list_directory returns their number, and entry `t` is read from offset number `t`.
  pub list_directory-Chain :
      (n : ℕ) (current inode : Cells) (entries : Entries) (os : List ℕ)
      → ext2_extract_inode dev fs n current ≡ some inode
      → bit_and (get16 inode i_type_permission) 0x4000 ≢ 0
      → get32 inode i_block ≢ 0
      → get32 inode (i_block + 4) ≡ 0
      → Chain (ext2_get_block_size fs) (dev.read_blocks fs.disk (get32 inode i_block) 1).1 0 os
      → length os < max_subdirs
      → (entries' : Entries) × (ext2_list_directory dev fs n current entries
          ≡ some (length os, entries', inode))
        × ((t o : ℕ)
            → get_elem? os t ≡ some o
            → entries' t
              ≡ read_entry (dev.read_blocks fs.disk (get32 inode i_block) 1).1 o (entries t))
  unfolding ext2_list_directory
  list_directory-Chain n current inode entries os found dir first second chain few =
      let buffer : Cells = (dev.read_blocks fs.disk (get32 inode i_block) 1).1 in
      let (entries', e, get, kept) =
        list_block-Chain os list_fuel (ext2_get_block_size fs) buffer 0 0 entries chain
          (omega arith) (omega arith) in
      let one =
        list_one_block 10 inode entries entries' (length os) first second
          (e ∙ ap (λ k. some (listing k entries' false)) (zero-add (length os))) in
      let is_dir : (bit_and (get16 inode i_type_permission) 0x4000 == 0) ≡ false = ground arith in
      (
        entries',
        rw (found, is_dir, one),
        λ t o h.
            ap entries' (sym (zero-add t))
            ∙ get t o h
            ∙ ap (λ k. read_entry buffer o (entries k)) (zero-add t),
      )
