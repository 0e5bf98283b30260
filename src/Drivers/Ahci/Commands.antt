-- ===== src/Drivers/Ahci/Commands.antt =====
-- The commands that read and write of drivers/ahci/ahci.c build, field by field.
use ester.Prelude.{
  ℕ, ◌+◌, ◌-◌, ◌*◌, ◌/◌, ◌%◌, ◌^◌, ◌≤◌, ◌<◌, ◌≡◌, ◌⊎◌, inl, inr, refl, Cells, arith, ◌==◌,
  if◌then◌else◌, update, ap, ◌∙◌,
}
use native.Mathlib.Nat.{add_assoc}
use ester.Kernel.Mem.{memset}
use ester.Kernel.Mem.Laws.{memset-get}
use ester.Ext2.Layout.{get16, get32}
use ester.Ext2.Layout.Fields.{get16_ext, get32_ext}
use ester.Drivers.Ahci.{sizeof_cmd_header, header_prdtl, header_ctba}
use ester.Drivers.Ahci.Transfer.{
  command_fis, header_command, read_entry, write_entry, read_entries, write_entries, read_command,
  write_command, prdt_entry,
}
use ester.Drivers.Ahci.Encoding.{
  fis_lba, fis_lba28, fis_count, fis_lba_lem, fis_lba28_lem, fis_countl_lem, fis_count_lem,
  fis_opcode, fis_command_bit, fis_type, fis_outside, header_prdtl_lem, header_outside,
  header_first, Describes, read_entry-Describes, write_entry-Describes, read_entry_outside,
  write_entry_outside,
}

-- What the device takes for the sector and the number of sectors: READ DMA (0xC8) is a 28-bit
-- command, which ignores the bytes that only 48-bit commands have.
abbrev pub asked_sector : ℕ → Cells → ℕ → ℕ
asked_sector opcode m at = if opcode == 0xC8 then fis_lba28 m at else fis_lba m at

abbrev pub asked_count : ℕ → Cells → ℕ → ℕ
asked_count opcode m at = if opcode == 0xC8 then m (at + 12) else fis_count m at

-- The memory `c` holds, at the header `at` and the table `tbl`, a command with this operation,
-- direction, sector, number of sectors, data address and number of bytes.
pub record Asks (c : Cells) (at tbl opcode to_device lba count address bytes : ℕ) : Type 0 where
  pub length : c at % 2 ^ 5 ≡ 5
  pub direction : c at / 2 ^ 6 % 2 ≡ to_device
  pub one_entry : get16 c (at + header_prdtl) ≡ 1
  pub register_fis : c tbl ≡ 0x27
  pub command_bit : c (tbl + 1) / 2 ^ 7 % 2 ≡ 1
  pub operation : c (tbl + 2) ≡ opcode
  pub sector : asked_sector opcode c tbl ≡ lba
  pub sectors : asked_count opcode c tbl ≡ count
  pub data_ : Describes c (tbl + prdt_entry) address bytes

same_memory-Describes :
    (c d : Cells) (e address bytes : ℕ)
    → ((k : ℕ) → e ≤ k → c k ≡ d k)
    → Describes d e address bytes
    → Describes c e address bytes
same_memory-Describes c d e address bytes h says = record {
  low = get32_ext c d e (λ k lo hi. h k lo) ∙ says.low;
  high = get32_ext c d (e + 4) (λ k lo hi. h k (omega arith)) ∙ says.high;
  byte_count =
      ap (λ x. x % 2 ^ 22 + 1) (get32_ext c d (e + 12) (λ k lo hi. h k (omega arith)))
      ∙ says.byte_count;
}

-- `h` has the header, `d` also the descriptor, and `c` the command FIS too, but for its byte 15.
module _ (h d c : Cells) (at tbl opcode to_device startl starth count : ℕ) (apart : at + 32 ≤ tbl)
    (below : (k : ℕ) → k < tbl → d k ≡ h k)
    (issued : (k : ℕ)
      → (k < tbl + 15) ⊎ (tbl + 16 ≤ k)
      → c k ≡ command_fis tbl opcode startl starth count d k) where
  from_header : (k : ℕ) → k < tbl → c k ≡ h k
  from_header k lt =
      issued k (inl (omega arith))
      ∙ fis_outside tbl opcode startl starth count d k (inl lt)
      ∙ below k lt

  from_entry : (k : ℕ) → tbl + prdt_entry ≤ k → c k ≡ d k
  from_entry k le =
      issued k (inr (omega arith))
      ∙ fis_outside tbl opcode startl starth count d k (inr (omega arith))

  fis_at : (k : ℕ) → k < 15 → c (tbl + k) ≡ command_fis tbl opcode startl starth count d (tbl + k)
  fis_at k lt = issued (tbl + k) (inl (omega arith))

  command-Asks :
      (lba address bytes : ℕ)
      → asked_sector opcode (command_fis tbl opcode startl starth count d) tbl ≡ lba
      → asked_count opcode (command_fis tbl opcode startl starth count d) tbl ≡ count
      → h at % 2 ^ 5 ≡ 5
      → h at / 2 ^ 6 % 2 ≡ to_device
      → get16 h (at + header_prdtl) ≡ 1
      → Describes d (tbl + prdt_entry) address bytes
      → Asks c at tbl opcode to_device lba count address bytes
  command-Asks lba address bytes numbered counted len dir one says = record {
    length = ap (λ x. x % 2 ^ 5) (from_header at (omega arith)) ∙ len;
    direction = ap (λ x. x / 2 ^ 6 % 2) (from_header at (omega arith)) ∙ dir;
    one_entry =
        get16_ext c h (at + header_prdtl) (at + header_prdtl) (from_header (at + 2) (omega arith))
          (from_header (at + 2 + 1) (omega arith))
        ∙ one;
    register_fis = issued tbl (inl (omega arith)) ∙ fis_type tbl opcode startl starth count d;
    command_bit =
        ap (λ x. x / 2 ^ 7 % 2) (fis_at 1 (omega arith))
        ∙ fis_command_bit tbl opcode startl starth count d;
    operation = fis_at 2 (omega arith) ∙ fis_opcode tbl opcode startl starth count d;
    sector =
        rw
          (
            fis_at 4 (omega arith),
            fis_at 5 (omega arith),
            fis_at 6 (omega arith),
            fis_at 7 (omega arith),
            fis_at 8 (omega arith),
            fis_at 9 (omega arith),
            fis_at 10 (omega arith),
          )
          numbered;
    sectors = rw (fis_at 12 (omega arith), fis_at 13 (omega arith)) counted;
    data_ = same_memory-Describes c d (tbl + prdt_entry) address bytes from_entry says;
  }

-- The table of the header at `at` after the header's command has been filled in.
table_kept :
    (at w count : ℕ) (m : Cells)
    → get32 (header_command at w count m) (at + header_ctba) ≡ get32 m (at + header_ctba)
table_kept at w count m =
    get32_ext (header_command at w count m) m (at + header_ctba)
      (λ k lo hi. header_outside at w count m k (omega arith))

memset_below : (tbl n k : ℕ) (m : Cells) → k < tbl → memset tbl 0 n m k ≡ m k
memset_below tbl n k m h = ground (arith, memset-get tbl 0 n m k)

memset_zero : (tbl n k : ℕ) (m : Cells) → k < n → memset tbl 0 n m (tbl + k) ≡ 0
memset_zero tbl n k m h = ground (arith, memset-get tbl 0 n m (tbl + k))

module _ (at w count n : ℕ) (m : Cells) (lo : 1 ≤ count) (hi : count ≤ 16)
    (apart : at + 32 ≤ get32 m (at + header_ctba)) (whole : 144 ≤ n) where
  abbrev tbl : ℕ
  tbl = get32 m (at + header_ctba)

  abbrev headed : Cells
  headed = header_command at w count m

  abbrev wiped : Cells
  wiped = memset tbl 0 n headed

  wiped_prdtl : get16 wiped (at + header_prdtl) ≡ 1
  wiped_prdtl =
      get16_ext wiped headed (at + header_prdtl) (at + header_prdtl)
        (memset_below tbl n (at + 2) headed (omega arith))
        (memset_below tbl n (at + 2 + 1) headed (omega arith))
      ∙ header_prdtl_lem at w count m lo hi

  wiped_entry : (k : ℕ) → k < 16 → wiped (tbl + prdt_entry + k) ≡ 0
  wiped_entry k h =
      ap wiped (add_assoc tbl 128 k) ∙ memset_zero tbl n (128 + k) headed (omega arith)

same_bytes-Describes :
    (c : Cells) (e address a b : ℕ) → a ≡ b → Describes c e address a → Describes c e address b
same_bytes-Describes c e address a b same says = record {
  low = says.low;
  high = says.high;
  byte_count = says.byte_count ∙ same;
}

-- Where the table of the first header lies behind it, with 1 to 16 sectors and a buffer below
-- 2 ^ 32, read asks with the first header for READ DMA into the buffer, and its one descriptor covers
-- all the sectors. READ DMA takes 28 bits for the sector, and the sector that it is asked for is
-- `startl` modulo 2 ^ 24, whatever `starth` is: the caller's sector when that is below 2 ^ 24.
pub read_command-Asks :
    (clb startl starth count buf : ℕ) (m : Cells)
    → clb + 32 ≤ get32 m (clb + header_ctba)
    → 1 ≤ count
    → count ≤ 16
    → buf < 2 ^ 32
    → Asks
        (read_command clb startl starth count buf m)
        clb
        (get32 m (clb + header_ctba))
        0xC8
        0
        (startl % 2 ^ 24)
        count
        buf
        (count * 512)
unfolding read_command read_entries
read_command-Asks clb startl starth count buf m apart lo hi hb =
    let t = get32 m (clb + header_ctba) in
    let h = header_command clb 0 count m in
    let w = memset t 0 (144 + 1 * 16) h in
    let d = read_entry (t + prdt_entry) buf ((count * 2 ^ 9 % 2 ^ 32 + 2 ^ 32 - 1) % 2 ^ 32) w in
    let f = command_fis t 0xC8 startl starth count d in
    rw
      (
        table_kept clb 0 count m,
        header_prdtl_lem clb 0 count m lo hi,
        wiped_prdtl clb 0 count (144 + 1 * 16) m lo hi apart (omega arith),
      )
      (command-Asks h d (update f (t + 15) 8) clb t 0xC8 0 startl starth count apart
        (λ k lt.
          read_entry_outside (t + prdt_entry) buf _ w k (omega arith)
          ∙ memset_below t (144 + 1 * 16) k h lt)
        (λ k other. ground arith) (startl % 2 ^ 24) buf (count * 512)
        (fis_lba28_lem t 0xC8 startl starth count d)
        (fis_countl_lem t 0xC8 startl starth count d (omega arith)) (header_first clb 0 count m).0
        (header_first clb 0 count m).1 (header_prdtl_lem clb 0 count m lo hi)
        (same_bytes-Describes d (t + prdt_entry) buf _ (count * 512) (omega arith) (
          read_entry-Describes (t + prdt_entry) buf _ w hb
            (wiped_entry clb 0 count (144 + 1 * 16) m lo hi apart (omega arith)))))

-- The number of bytes that write's one descriptor ends up with.
abbrev pub write_bytes : ℕ → ℕ
write_bytes count = if count % 8 == 0 then 2 ^ 22 else count % 8 * 512

-- Where the table of the slot's header lies behind it, with 1 to 16 sectors, a 48-bit sector number
-- and a buffer below 2 ^ 64, write asks with the slot's header for WRITE DMA EXT of those sectors
-- from the buffer; its one descriptor has the bytes of the sectors modulo 8, and 2 ^ 22 bytes when
-- there are 8 or 16.
pub write_command-Asks :
    (slot clb startl starth count buf : ℕ) (m : Cells)
    → let at = clb + slot * sizeof_cmd_header in
      at + 32 ≤ get32 m (at + header_ctba)
      → 1 ≤ count
      → count ≤ 16
      → startl < 2 ^ 32
      → starth < 2 ^ 16
      → buf < 2 ^ 64
      → Asks
          (write_command slot clb startl starth count buf m)
          at
          (get32 m (at + header_ctba))
          0x35
          1
          (startl + 2 ^ 32 * starth)
          count
          buf
          (write_bytes count)
unfolding write_command write_entries
write_command-Asks slot clb startl starth count buf m apart lo hi hl hh hb =
    let at = clb + slot * sizeof_cmd_header in
    let t = get32 m (at + header_ctba) in
    let h = header_command at 1 count m in
    let w = memset t 0 (128 + 1 * 16) h in
    let d =
      write_entry (t + prdt_entry) buf ((count * 512 % 2 ^ 32 % 4096 + 2 ^ 32 - 1) % 2 ^ 32) w in
    rw
      (
        table_kept at 1 count m,
        header_prdtl_lem at 1 count m lo hi,
        wiped_prdtl at 1 count (128 + 1 * 16) m lo hi apart (omega arith),
      )
      (command-Asks h d (command_fis t 0x35 startl starth count d) at t 0x35 1 startl starth count
        apart
        (λ k lt.
          write_entry_outside (t + prdt_entry) buf _ w k (omega arith)
          ∙ memset_below t (128 + 1 * 16) k h lt)
        (λ k other. refl) (startl + 2 ^ 32 * starth) buf (write_bytes count)
        (fis_lba_lem t 0x35 startl starth count d hl hh)
        (fis_count_lem t 0x35 startl starth count d (omega arith)) (header_first at 1 count m).0
        (header_first at 1 count m).1 (header_prdtl_lem at 1 count m lo hi)
        (same_bytes-Describes d (t + prdt_entry) buf _ (write_bytes count) (ground arith) (
          write_entry-Describes (t + prdt_entry) buf _ w hb
            (wiped_entry at 1 count (128 + 1 * 16) m lo hi apart (omega arith)))))
