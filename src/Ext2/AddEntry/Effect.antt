-- ===== src/Ext2/AddEntry/Effect.antt =====
-- The block after an entry was added.
use ester.Prelude.{ℕ, ◌+◌, ◌-◌, ◌%◌, ◌^◌, ◌≤◌, ◌<◌, ◌≡◌, ◌∙◌, ap, ◌⊎◌, inl, Cells, arith, update}
use ester.Ext2.Layout.{get16, get32, set16, set32, blit}
use ester.Ext2.Layout.Fields.{
  set16-lt, set32-lt, blit-lt, get16-set16, get32-set32, set16_outside, set32_outside, get16_ext,
  get32_ext, blit_inside, blit_outside,
}
use ester.Ext2.AddEntry.{append_entry, entry_size}

update-lt : (b : Cells) (i v j : ℕ) → ((k : ℕ) → b k < 256) → v < 256 → update b i v j < 256
update-lt b i v j bytes small = ground (arith, bytes j)

pub append_entry-lt :
    (b : Cells) (offset inode_num len : ℕ) (name : Cells)
    → ((k : ℕ) → b k < 256)
    → ((k : ℕ) → name k < 256)
    → (k : ℕ) → append_entry b offset inode_num len name k < 256
unfolding append_entry
append_entry-lt b offset inode_num len name bytes name_bytes k =
    blit-lt _ _ name 0 len k
      (λ j.
        update-lt _ _ 0 j
          (λ i.
            update-lt _ _ (len % 2 ^ 8) i
              (λ h. set16-lt _ _ _ h (λ e. set32-lt _ _ _ e (λ d. set16-lt b _ _ d bytes)))
              (omega arith))
          (omega arith))
      name_bytes

-- Where the new entry is put.
abbrev pub new_at : ℕ → ℕ → ℕ
new_at offset len = offset + (offset + entry_size len)

module _ (buffer : Cells) (offset inode_num len : ℕ) (name : Cells)
    (short : offset + entry_size len < 2 ^ 16) (word : inode_num < 2 ^ 32)
    (byte_len : len < 256) where
  abbrev at : ℕ
  at = new_at offset len

  size_big : 8 + len ≤ entry_size len
  size_big = omega arith

  -- The stages of the store.
  abbrev shrunk : Cells
  shrunk = set16 buffer (offset + 4) ((offset + entry_size len) % 2 ^ 16)

  abbrev numbered : Cells
  numbered = set32 shrunk at inode_num

  fits : (offset + entry_size len) % 2 ^ 16 ≡ offset + entry_size len
  fits = omega arith

  numbered-size : get16 numbered (offset + 4) ≡ offset + entry_size len
  numbered-size =
      get16_ext numbered shrunk (offset + 4) (offset + 4)
        (set32_outside shrunk at inode_num (offset + 4) (inl (omega (arith, size_big))))
        (set32_outside shrunk at inode_num (offset + 4 + 1) (inl (omega (arith, size_big))))
      ∙ get16-set16 buffer (offset + 4) _ (omega arith)
      ∙ fits

  abbrev sized : Cells
  sized =
      set16 numbered (at + 4)
        ((get16 buffer (offset + 4) + 2 ^ 32 - (offset + entry_size len)) % 2 ^ 16)

  abbrev built : ℕ → ℕ → Cells
  built t size =
      blit
        (update
          (update
            (set16 (set32 shrunk (offset + t) inode_num) (offset + t + 4)
              ((get16 buffer (offset + 4) + 2 ^ 32 - size) % 2 ^ 16))
            (offset + t + 6) (len % 2 ^ 8))
          (offset + t + 7) 0)
        (offset + t + 8) name 0 len

  stored :
      append_entry buffer offset inode_num len name
      ≡ blit (update (update sized (at + 6) (len % 2 ^ 8)) (at + 7) 0) (at + 8) name 0 len
  unfolding append_entry
  stored =
      ap (λ (t : ℕ). built t (get16 (set32 shrunk (offset + t) inode_num) (offset + 4))) fits
      ∙ ap (built (offset + entry_size len)) numbered-size

  -- Every byte in terms of the stage before the name.
  byte_before : (k : ℕ) → k < at + 6 → append_entry buffer offset inode_num len name k ≡ sized k
  byte_before k h =
      rw stored (blit_outside _ (at + 8) name 0 len k (inl (omega arith)) ∙ ground arith)

  -- ext2_add_dir_entry's change of a block whose last entry is at `offset`, when `offset` and the
  -- rounded size of the new entry stay below 2 ^ 16: the last entry's size leads to the new entry,
  -- which has the inode number, the name and its length, type 0, and the rest of the old size;
  -- and nothing else in front of the new entry changes.
  pub append_entry_lem :
      let buffer' = append_entry buffer offset inode_num len name in
      (offset + get16 buffer' (offset + 4) ≡ at)
      × (get32 buffer' at ≡ inode_num)
      × (get16 buffer' (at + 4)
          ≡ (get16 buffer (offset + 4) + 2 ^ 32 - (offset + entry_size len)) % 2 ^ 16)
      × (buffer' (at + 6) ≡ len)
      × (buffer' (at + 7) ≡ 0)
      × ((i : ℕ) → i < len → buffer' (at + 8 + i) ≡ name i)
      × ((k : ℕ) → (k < offset + 4) ⊎ ((offset + 6 ≤ k) × (k < at)) → buffer' k ≡ buffer k)
  append_entry_lem = (
    ap (λ (t : ℕ). offset + t)
        (get16_ext _ numbered (offset + 4) (offset + 4)
            (byte_before (offset + 4) (omega (arith, size_big))
              ∙ set16_outside numbered (at + 4) _ (offset + 4) (inl (omega (arith, size_big))))
            (byte_before (offset + 4 + 1) (omega (arith, size_big))
              ∙ set16_outside numbered (at + 4) _ (offset + 4 + 1) (inl (omega (arith, size_big))))
          ∙ numbered-size),
    get32_ext _ numbered at (λ k lo hi.
          byte_before k (omega arith) ∙ set16_outside numbered (at + 4) _ k (inl (omega arith)))
        ∙ get32-set32 shrunk at inode_num word,
    get16_ext _ sized (at + 4) (at + 4) (byte_before (at + 4) (omega arith))
          (byte_before (at + 4 + 1) (omega arith))
        ∙ get16-set16 numbered (at + 4) _ (omega arith),
    rw stored (blit_outside _ (at + 8) name 0 len (at + 6) (inl (omega arith)) ∙ ground arith),
    rw stored (blit_outside _ (at + 8) name 0 len (at + 7) (inl (omega arith)) ∙ ground arith),
    λ i h. rw stored (blit_inside _ (at + 8) name 0 len i h ∙ ap name (omega arith)),
    λ k h.
        byte_before k (omega (arith, size_big))
        ∙ set16_outside numbered (at + 4) _ k (inl (omega (arith, size_big)))
        ∙ set32_outside shrunk at inode_num k (inl (omega (arith, size_big)))
        ∙ set16_outside buffer (offset + 4) _ k (omega arith),
  )
