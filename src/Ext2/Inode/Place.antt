-- ===== src/Ext2/Inode/Place.antt =====
-- On a file system with a sound geometry, inodes with different numbers lie apart on the disk.
use ester.Prelude.{
  ℕ, zero, suc, ◌+◌, ◌-◌, ◌*◌, ◌/◌, ◌%◌, ◌^◌, ◌≤◌, ◌<◌, ◌≡◌, ◌≢◌, ◌⊎◌, ap, ◌∙◌, sym, some, arith,
}
use native.Mathlib.Nat.{mod-lt, div-add-mod', mul-div-mul_right, div-le_self, mod-eq_of_lt}
use mathlib.Core.Path.{ap₂}
use native.Mathlib.Decide.{dec_lt, ℕ_discrete}
use ester.Ext2.Layout.{get32, bg_inode_table, sizeof_inode, sizeof_group_descriptor}
use ester.Ext2.Super.{
  Fs, ext2_get_bgd, ext2_get_block_size, ext2_get_inode_size, ext2_get_inodes_per_group, max_groups,
}
use ester.Ext2.Inode.{Position, group_of, index_of, inode_position}

mul_step : (i j s : ℕ) → i < j → i * s + s ≤ j * s
mul_step i j s h = grind arith

even_fit : (i s p : ℕ) → 0 < s → 0 < p → i * s % (p * s) + s ≤ p * s
even_fit i s p hs hp = omega (arith, mul_step (i % p) p s (mod-lt i hp), quotient, whole)
  where
    quotient : i / p * (p * s) + i * s % (p * s) ≡ i * s
    quotient = rw (mul-div-mul_right {m = s} i p hs) at (div-add-mod' (i * s) (p * s))

    whole : i / p * p * s + i % p * s ≡ i * s
    whole = omega (arith, ap (λ (t : ℕ). t * s) (div-add-mod' i p))

pos_factor : (p s : ℕ) → 0 < p * s → 0 < p
pos_factor zero s h = absurd (omega arith)
pos_factor (suc p) s h = omega arith

-- Group and index determine the number.
number_eq :
    (n m ipg : ℕ)
    → 0 < n
    → 0 < m
    → n < 2 ^ 32
    → m < 2 ^ 32
    → group_of n ipg ≡ group_of m ipg
    → index_of n ipg ≡ index_of m ipg
    → n ≡ m
number_eq n m ipg pn pm wn wm g i =
    let e : (n + 2 ^ 32 - 1) % 2 ^ 32 ≡ (m + 2 ^ 32 - 1) % 2 ^ 32 =
      sym (div-add-mod' _ ipg) ∙ ap₂ (λ (a b : ℕ). a * ipg + b) g i ∙ div-add-mod' _ ipg in
    omega arith

same_group :
    (a b s base : ℕ)
    → 128 ≤ s
    → a ≢ b
    → (base + a * s + 128 ≤ base + b * s) ⊎ (base + b * s + 128 ≤ base + a * s)
same_group a b s base h ne = elim (dec_lt a b) [
  | yes lt ↦ omega (arith, mul_step a b s lt)
  | no ge ↦ omega (arith, mul_step b a s (omega arith))
]

module _ {D : Type 0} where
  -- The first block of a group's inode table.
  abbrev pub table : Fs D → ℕ → ℕ
  table fs group = get32 fs.bgdt (group * sizeof_group_descriptor + bg_inode_table)

  -- A sound geometry of a file system with `groups` groups: at most the 128 that the driver keeps, nonempty groups and blocks, inodes that fill blocks evenly and are as large as the struct, no
  -- wrap of the 32-bit arithmetic, and inode tables that do not overlap.
  pub record IsSound (fs : Fs D) (groups : ℕ) : Type 0 where
    pub few : groups ≤ max_groups
    pub some_inodes : 0 < ext2_get_inodes_per_group fs
    pub some_block : 0 < ext2_get_block_size fs
    pub inode_fits : sizeof_inode ≤ ext2_get_inode_size fs
    pub per_block : ℕ
    pub even : ext2_get_block_size fs ≡ per_block * ext2_get_inode_size fs
    pub no_wrap : ext2_get_inodes_per_group fs * ext2_get_inode_size fs < 2 ^ 32
    pub tables_end :
        (g : ℕ)
        → g < groups
        → table fs g + ext2_get_inodes_per_group fs * ext2_get_inode_size fs < 2 ^ 32
    pub tables_apart :
        (g h : ℕ)
        → g < h
        → h < groups
        → (table fs g * ext2_get_block_size fs
              + ext2_get_inodes_per_group fs * ext2_get_inode_size fs
            ≤ table fs h * ext2_get_block_size fs)
          ⊎ (table fs h * ext2_get_block_size fs
                + ext2_get_inodes_per_group fs * ext2_get_inode_size fs
              ≤ table fs g * ext2_get_block_size fs)

  -- An inode number of an existing group.
  pub record IsInode (fs : Fs D) (groups n : ℕ) : Type 0 where
    pub positive : 0 < n
    pub word : n < 2 ^ 32
    pub in_group : group_of n (ext2_get_inodes_per_group fs) < groups

module _ {D : Type 0} (fs : Fs D) (groups : ℕ) (sound : IsSound fs groups) where
  abbrev pub bs : ℕ
  bs = ext2_get_block_size fs

  abbrev pub ipg : ℕ
  ipg = ext2_get_inodes_per_group fs

  abbrev pub isz : ℕ
  isz = ext2_get_inode_size fs

  -- The position counted in bytes from the start of the disk.
  abbrev pub start : ℕ → ℕ
  start n = table fs (group_of n ipg) * bs + index_of n ipg * isz

  pub position_some :
      (n : ℕ)
      → IsInode fs groups n
      → (p : Position) × (inode_position fs n ≡ some p)
        × (p.block * bs + p.offset ≡ start n)
        × (p.offset + sizeof_inode ≤ bs)
  unfolding inode_position ext2_get_bgd
  position_some n h = (
    record {
      block = (table fs (group_of n ipg) + index_of n ipg * isz % 2 ^ 32 / bs) % 2 ^ 32;
      offset = index_of n ipg * isz % 2 ^ 32 % bs;
    },
    ground (arith, sound.some_inodes, sound.some_block, fits, sound.few, h.in_group),
    place,
    fits,
  )
    where
      index_lt : index_of n ipg < ipg
      index_lt = mod-lt _ sound.some_inodes

      small : index_of n ipg * isz + isz ≤ ipg * isz
      small = mul_step (index_of n ipg) ipg isz index_lt

      at : index_of n ipg * isz % 2 ^ 32 ≡ index_of n ipg * isz
      at = omega (arith, small, sound.no_wrap)

      unwrapped :
          (table fs (group_of n ipg) + index_of n ipg * isz / bs) % 2 ^ 32
          ≡ table fs (group_of n ipg) + index_of n ipg * isz / bs
      unwrapped = mod-eq_of_lt (
          omega (
            arith,
            small,
            sound.tables_end (group_of n ipg) h.in_group,
            div-le_self (index_of n ipg * isz) bs,
          ))

      fits : index_of n ipg * isz % 2 ^ 32 % bs + sizeof_inode ≤ bs
      fits =
          rw (at, sound.even)
            (omega (
              arith,
              even_fit (index_of n ipg) isz sound.per_block (omega (arith, sound.inode_fits))
                  (pos_factor sound.per_block isz (rw sound.even at sound.some_block)),
              sound.inode_fits,
            ))

      place :
          (table fs (group_of n ipg) + index_of n ipg * isz % 2 ^ 32 / bs) % 2 ^ 32 * bs
            + index_of n ipg * isz % 2 ^ 32 % bs
          ≡ start n
      place = rw (at, unwrapped) (omega (arith, div-add-mod' (index_of n ipg * isz) bs))

  pub starts_apart :
      (n m : ℕ)
      → IsInode fs groups n
      → IsInode fs groups m
      → n ≢ m
      → (start n + sizeof_inode ≤ start m) ⊎ (start m + sizeof_inode ≤ start n)
  starts_apart n m hn hm ne = elim (ℕ_discrete (group_of n ipg) (group_of m ipg)) [
    | yes same ↦ rw same (
        same_group (index_of n ipg) (index_of m ipg) isz _ sound.inode_fits
          (λ e. ne (number_eq n m ipg hn.positive hm.positive hn.word hm.word same e)))
    | no other ↦ elim (dec_lt (group_of n ipg) (group_of m ipg)) [
      | yes lt ↦ omega (
        arith,
        sound.tables_apart (group_of n ipg) (group_of m ipg) lt hm.in_group,
        sound.inode_fits,
        mul_step (index_of n ipg) ipg isz (mod-lt _ sound.some_inodes),
        mul_step (index_of m ipg) ipg isz (mod-lt _ sound.some_inodes),
      )
      | no ge ↦ omega (
        arith,
        sound.tables_apart (group_of m ipg) (group_of n ipg) (omega arith) hn.in_group,
        sound.inode_fits,
        mul_step (index_of n ipg) ipg isz (mod-lt _ sound.some_inodes),
        mul_step (index_of m ipg) ipg isz (mod-lt _ sound.some_inodes),
      )
    ]
  ]
