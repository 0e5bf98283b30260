-- ===== src/Ext2/Super/Alloc.antt =====
-- What the two allocators do to the disk and to the structures in memory.
use ester.Prelude.{
  ℕ, ◌+◌, ◌-◌, ◌*◌, ◌/◌, ◌%◌, ◌^◌, ◌≤◌, ◌<◌, ◌≡◌, ◌≢◌, ◌⊎◌, inl, inr, refl, sym, ◌∙◌, ap, false,
  some, Cells, arith, ◌==◌, if◌then◌else◌, Option-cases,
}
use native.Mathlib.Nat.{zero-add}
use ester.Prelude.Bits.{is_clear, set_bit, is_clear-set_bit, set_bit-lt, is_clear_ext}
use ester.Ext2.Layout.{
  BlockDevice, IsDisk, get16, get32, set16, set32, sizeof_super_block, logical_block_size,
  s_free_blocks_count, s_free_inodes_count, s_blocks_per_group, s_inodes_per_group, bg_block_bitmap,
  bg_inode_bitmap, bg_free_blocks_count, bg_free_inodes_count, sizeof_group_descriptor,
}
use ester.Ext2.Layout.Fields.{
  get16-set16, get32-set32, set16_outside, set32_outside, set16-lt, set32-lt, blit_inside,
  blit_outside,
}
use ester.Ext2.Super.{
  Fs, find_clear, ext2_get_bgd, ext2_write_bgdt, ext2_write_sb, take_bit, ext2_free_inode_alloc,
  ext2_free_block_alloc, max_groups,
}
use ester.Ext2.Super.Find.{IsLowest, find_clear-some, find_clear-none}
use ester.Ext2.Super.Sync.{
  block, IsBytes, write_bgdt-block, write_bgdt-other, write_sb-block, write_sb-other,
  write_bgdt-memory, write_sb-memory,
}

-- Bit `i` of the map in block `map` went from clear to used, and the counters with it: the
-- group's at `gc` in the descriptors and the total at `tc` in the superblock each fell by one.
pub record IsTaken {D : Type 0} (dev : BlockDevice D) (fs : Fs D) (map i gc tc : ℕ) (fs' : Fs D)
    : Type 0 where
  pub marked :
      (j : ℕ)
      → j < 8 * logical_block_size
      → is_clear (block dev fs' map) j ≡ (if j == i then false else is_clear (block dev fs map) j)
  pub group_count : get16 fs'.bgdt gc ≡ (get16 fs.bgdt gc + 2 ^ 16 - 1) % 2 ^ 16
  pub group_rest : (k : ℕ) → (k < gc) ⊎ (gc + 2 ≤ k) → fs'.bgdt k ≡ fs.bgdt k
  pub total_count : get32 fs'.sb tc ≡ (get32 fs.sb tc + 2 ^ 32 - 1) % 2 ^ 32
  pub total_rest : (k : ℕ) → (k < tc) ⊎ (tc + 4 ≤ k) → fs'.sb k ≡ fs.sb k
  pub bgdt_saved : (k : ℕ) → k < logical_block_size → block dev fs' 1 k ≡ fs'.bgdt k
  pub sb_saved : (k : ℕ) → k < sizeof_super_block → block dev fs' 0 (1024 + k) ≡ fs'.sb k
  pub boot_kept : (k : ℕ) → k < 1024 → block dev fs' 0 k ≡ block dev fs 0 k
  pub others_kept : (b k : ℕ) → b ≢ 0 → b ≢ 1 → b ≢ map → block dev fs' b k ≡ block dev fs b k

module _ {D : Type 0} (dev : BlockDevice D) (size : ℕ) (laws : IsDisk dev size) (big : 1 < size)
    (fs : Fs D) (bytes : IsBytes fs) where
  module _ (map i gc tc : ℕ) (apart : 1 < map) (in_range : map < size) where
    take_bit-IsTaken : IsTaken dev fs map i gc tc (take_bit dev map (block dev fs map) i gc tc fs)
    unfolding take_bit
    take_bit-IsTaken = record {
      marked = λ j h.
          is_clear_ext _ _ j (map_block (j / 8) (omega arith))
          ∙ is_clear-set_bit (block dev fs map) i j (laws.read_byte fs.disk map (i / 8));
      group_count =
          ap (λ b. get16 b gc) (write_sb-memory dev fs3).1
          ∙ ap (λ b. get16 b gc) (write_bgdt-memory dev fs1).1
          ∙ get16-set16 fs.bgdt gc _ (omega arith);
      group_rest = λ k h. memory_bgdt k ∙ set16_outside fs.bgdt gc _ k h;
      total_count =
          ap (λ b. get32 b tc) (write_sb-memory dev fs3).0
          ∙ get32-set32 fs2.sb tc _ (omega arith)
          ∙ ap (λ b. (get32 b tc + 2 ^ 32 - 1) % 2 ^ 32) (write_bgdt-memory dev fs1).0;
      total_rest = λ k h.
          memory_sb k ∙ set32_outside fs2.sb tc _ k h ∙ ap (λ b. b k) (write_bgdt-memory dev fs1).0;
      bgdt_saved = λ k h.
          write_sb-other dev size laws big fs3 fs3-bytes 1 k (omega arith)
          ∙ write_bgdt-block dev size laws big fs1 fs1-bytes k h
          ∙ sym (memory_bgdt k);
      sb_saved = λ k h.
          write_sb-block dev size laws big fs3 fs3-bytes (1024 + k) (omega arith)
          ∙ blit_inside (block dev fs3 0) 1024 fs3.sb 0 sizeof_super_block k h
          ∙ ap fs3.sb (zero-add k)
          ∙ sym (memory_sb k);
      boot_kept = λ k h.
          write_sb-block dev size laws big fs3 fs3-bytes k (omega arith)
          ∙ blit_outside (block dev fs3 0) 1024 fs3.sb 0 sizeof_super_block k (inl h)
          ∙ write_bgdt-other dev size laws big fs1 fs1-bytes 0 k (omega arith)
          ∙ laws.read_other fs.disk map 0 _ k (omega arith);
      others_kept = λ b k n0 n1 nm.
          write_sb-other dev size laws big fs3 fs3-bytes b k n0
          ∙ write_bgdt-other dev size laws big fs1 fs1-bytes b k n1
          ∙ laws.read_other fs.disk map b _ k (λ e. nm (sym e));
    }
      where
        bgdt' : Cells
        bgdt' = set16 fs.bgdt gc ((get16 fs.bgdt gc + 2 ^ 16 - 1) % 2 ^ 16)

        fs1 : Fs D
        fs1 = record fs {
          disk = (dev.write_blocks fs.disk map 1 (set_bit (block dev fs map) i)).1;
          bgdt = bgdt';
        }

        fs1-bytes : IsBytes fs1
        fs1-bytes = record {
          sb_byte = bytes.sb_byte;
          bgdt_byte = λ k. set16-lt fs.bgdt gc _ k bytes.bgdt_byte;
        }

        fs2 : Fs D
        fs2 = ext2_write_bgdt dev fs1

        fs3 : Fs D
        fs3 = record fs2 { sb = set32 fs2.sb tc ((get32 fs2.sb tc + 2 ^ 32 - 1) % 2 ^ 32) }

        fs3-bytes : IsBytes fs3
        fs3-bytes = record {
          sb_byte =
              λ k. set32-lt fs2.sb tc _ k (λ j. rw (write_bgdt-memory dev fs1).0 (bytes.sb_byte j));
          bgdt_byte = λ k. rw (write_bgdt-memory dev fs1).1 (fs1-bytes.bgdt_byte k);
        }

        memory_bgdt : (k : ℕ) → (ext2_write_sb dev fs3).1.bgdt k ≡ bgdt' k
        memory_bgdt k =
            ap (λ b. b k) (write_sb-memory dev fs3).1 ∙ ap (λ b. b k) (write_bgdt-memory dev fs1).1

        memory_sb : (k : ℕ) → (ext2_write_sb dev fs3).1.sb k ≡ fs3.sb k
        memory_sb k = ap (λ b. b k) (write_sb-memory dev fs3).0

        map_block :
            (k : ℕ)
            → k < logical_block_size
            → block dev (ext2_write_sb dev fs3).1 map k ≡ set_bit (block dev fs map) i k
        map_block k h =
            write_sb-other dev size laws big fs3 fs3-bytes map k (omega arith)
            ∙ write_bgdt-other dev size laws big fs1 fs1-bytes map k (omega arith)
            ∙ laws.read_written fs.disk map _ k in_range h
                (λ j. set_bit-lt (block dev fs map) i j (laws.read_byte fs.disk map))

-- The blocks that hold a group's two maps.
abbrev pub inode_map : {D : Type 0} → Fs D → ℕ → ℕ
inode_map fs group = get32 fs.bgdt (group * sizeof_group_descriptor + bg_inode_bitmap)

abbrev pub block_map : {D : Type 0} → Fs D → ℕ → ℕ
block_map fs group = get32 fs.bgdt (group * sizeof_group_descriptor + bg_block_bitmap)

-- The outcomes of an allocator over the lowest `count` bits of the map in block `map`.
abbrev pub Granted :
    {D : Type 0} → BlockDevice D → Fs D → ℕ → ℕ → ℕ → ℕ → (ℕ → ℕ) → ℕ × Fs D → Type 0
Granted dev fs map count gc tc number (r, fs') =
    ((r ≡ 0) × (fs' ≡ fs) × ((j : ℕ) → j < count → is_clear (block dev fs map) j ≡ false))
    ⊎ ((i : ℕ) × (r ≡ number i)
        × IsLowest (block dev fs map) 0 count i
        × IsTaken dev fs map i gc tc fs')

module _ {D : Type 0} (dev : BlockDevice D) (size : ℕ) (laws : IsDisk dev size) (big : 1 < size)
    (fs : Fs D) (bytes : IsBytes fs) (group : ℕ) (exists : group < max_groups) where
  bgd-eq : ext2_get_bgd group ≡ some (group * sizeof_group_descriptor)
  unfolding ext2_get_bgd
  bgd-eq = ground arith

  -- ext2_free_inode_alloc on an existing group either finds every bit of the inode map used, and
  -- then returns 0 and changes nothing; or it takes the lowest clear bit `i`, returns inode number
  -- `group * s_inodes_per_group + i + 1`, and leaves disk and memory as `IsTaken` says: the bit
  -- used and no other changed, both counters one lower and saved, all other blocks kept.
  pub inode_alloc-Granted :
      1 < inode_map fs group
      → inode_map fs group < size
      → (r : ℕ × Fs D) × (ext2_free_inode_alloc dev group fs ≡ some r)
        × Granted dev fs
            (inode_map fs group)
            (get32 fs.sb s_inodes_per_group)
            (group * sizeof_group_descriptor + bg_free_inodes_count)
            s_free_inodes_count
            (λ i. (group * get32 fs.sb s_inodes_per_group + i + 1) % 2 ^ 32)
            r
  unfolding ext2_free_inode_alloc
  inode_alloc-Granted apart in_range =
      elim (Option-cases
        (find_clear (get32 fs.sb s_inodes_per_group) 0 (block dev fs (inode_map fs group)))) [
          | inl full ↦ (
            (0, fs),
            rw (bgd-eq, full),
            inl (refl, refl, λ j h. find_clear-none _ 0 _ _ j (zero-add _) full (omega arith) h),
          )
          | inr (i, found) ↦ (
            (_, _),
            rw (bgd-eq, found),
            inr (
              i,
              refl,
              find_clear-some _ 0 _ _ (zero-add _) found,
              take_bit-IsTaken dev size laws big fs bytes _ i _ s_free_inodes_count apart in_range,
            ),
          )
        ]

  -- ext2_free_block_alloc does the same with the block map, over as many bits as the group has
  -- inodes, and returns block number `group * s_blocks_per_group + i`.
  pub block_alloc-Granted :
      1 < block_map fs group
      → block_map fs group < size
      → (r : ℕ × Fs D) × (ext2_free_block_alloc dev group fs ≡ some r)
        × Granted dev fs
            (block_map fs group)
            (get32 fs.sb s_inodes_per_group)
            (group * sizeof_group_descriptor + bg_free_blocks_count)
            s_free_blocks_count
            (λ i. (group * get32 fs.sb s_blocks_per_group + i) % 2 ^ 32)
            r
  unfolding ext2_free_block_alloc
  block_alloc-Granted apart in_range =
      elim (Option-cases
        (find_clear (get32 fs.sb s_inodes_per_group) 0 (block dev fs (block_map fs group)))) [
          | inl full ↦ (
            (0, fs),
            rw (bgd-eq, full),
            inl (refl, refl, λ j h. find_clear-none _ 0 _ _ j (zero-add _) full (omega arith) h),
          )
          | inr (i, found) ↦ (
            (_, _),
            rw (bgd-eq, found),
            inr (
              i,
              refl,
              find_clear-some _ 0 _ _ (zero-add _) found,
              take_bit-IsTaken dev size laws big fs bytes _ i _ s_free_blocks_count apart in_range,
            ),
          )
        ]
