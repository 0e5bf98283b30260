-- ===== src/Drivers/Ahci/Encoding.antt =====
-- The commands of drivers/ahci/ahci.c that one descriptor is enough for, read as the controller
-- reads them.
use ester.Prelude.{
  ℕ, ◌+◌, ◌*◌, ◌/◌, ◌%◌, ◌^◌, ◌≤◌, ◌<◌, ◌≡◌, ◌⊎◌, inl, inr, Cells, arith, ◌==◌, if◌then◌else◌, ap,
  sym, ◌∙◌, update,
}
use native.Mathlib.Nat.{add_assoc, add-zero, mod-lt}
use ester.Ext2.Layout.{get16, get32, set16, set32}
use ester.Ext2.Layout.Fields.{get32-set32, set32_outside}
use ester.Drivers.Ahci.{header_prdtl, with_bit}
use ester.Drivers.Ahci.Transfer.{command_fis, header_command, read_entry, write_entry, described}

-- The sector number and the number of sectors in the command at `at`, as a 48-bit command has them.
abbrev pub fis_lba : Cells → ℕ → ℕ
fis_lba m at =
    m (at + 4)
    + 2 ^ 8 * m (at + 5)
    + 2 ^ 16 * m (at + 6)
    + 2 ^ 24 * m (at + 8)
    + 2 ^ 32 * m (at + 9)
    + 2 ^ 40 * m (at + 10)

-- The sector number of a 28-bit command, whose upper four bits are the low ones of the device register.
abbrev pub fis_lba28 : Cells → ℕ → ℕ
fis_lba28 m at =
    m (at + 4) + 2 ^ 8 * m (at + 5) + 2 ^ 16 * m (at + 6) + 2 ^ 24 * (m (at + 7) % 2 ^ 4)

abbrev pub fis_count : Cells → ℕ → ℕ
fis_count m at = m (at + 12) + 2 ^ 8 * m (at + 13)

pub fis_outside :
    (at command startl starth count : ℕ) (m : Cells) (k : ℕ)
    → (k < at) ⊎ (at + 14 ≤ k)
    → command_fis at command startl starth count m k ≡ m k
unfolding command_fis
fis_outside at command startl starth count m k h = ground arith

pub fis_low :
    (at command startl starth count : ℕ) (m : Cells)
    → let f = command_fis at command startl starth count m in
      (f (at + 4) ≡ startl % 2 ^ 8)
      × (f (at + 5) ≡ startl / 2 ^ 8 % 2 ^ 8)
      × (f (at + 6) ≡ startl / 2 ^ 16 % 2 ^ 8)
unfolding command_fis
fis_low at command startl starth count m = (ground arith, ground arith, ground arith)

pub fis_high :
    (at command startl starth count : ℕ) (m : Cells)
    → let f = command_fis at command startl starth count m in
      (f (at + 8) ≡ startl / 2 ^ 24 % 2 ^ 8)
      × (f (at + 9) ≡ starth % 2 ^ 8)
      × (f (at + 10) ≡ starth / 2 ^ 8 % 2 ^ 8)
unfolding command_fis
fis_high at command startl starth count m = (ground arith, ground arith, ground arith)

pub fis_lba_lem :
    (at command startl starth count : ℕ) (m : Cells)
    → startl < 2 ^ 32
    → starth < 2 ^ 16
    → fis_lba (command_fis at command startl starth count m) at ≡ startl + 2 ^ 32 * starth
fis_lba_lem at command startl starth count m hl hh =
    let (a, b, c) = fis_low at command startl starth count m in
    let (d, e, f) = fis_high at command startl starth count m in omega (arith, a, b, c, d, e, f)

fis_device :
    (at command startl starth count : ℕ) (m : Cells)
    → command_fis at command startl starth count m (at + 7) ≡ 2 ^ 6
unfolding command_fis
fis_device at command startl starth count m = ground arith

pub fis_lba28_lem :
    (at command startl starth count : ℕ) (m : Cells)
    → fis_lba28 (command_fis at command startl starth count m) at ≡ startl % 2 ^ 24
fis_lba28_lem at command startl starth count m =
    let (a, b, c) = fis_low at command startl starth count m in
    omega (arith, a, b, c, fis_device at command startl starth count m)

pub fis_countl_lem :
    (at command startl starth count : ℕ) (m : Cells)
    → count < 2 ^ 8
    → command_fis at command startl starth count m (at + 12) ≡ count
unfolding command_fis
fis_countl_lem at command startl starth count m h = ground arith

pub fis_count_lem :
    (at command startl starth count : ℕ) (m : Cells)
    → count < 2 ^ 16
    → fis_count (command_fis at command startl starth count m) at ≡ count
unfolding command_fis
fis_count_lem at command startl starth count m h = ground arith

pub fis_opcode :
    (at command startl starth count : ℕ) (m : Cells)
    → command_fis at command startl starth count m (at + 2) ≡ command
unfolding command_fis
fis_opcode at command startl starth count m = ground arith

with_bit_seven : (x : ℕ) → with_bit x 7 / 2 ^ 7 % 2 ≡ 1
with_bit_seven x = ground arith

pub fis_command_bit :
    (at command startl starth count : ℕ) (m : Cells)
    → command_fis at command startl starth count m (at + 1) / 2 ^ 7 % 2 ≡ 1
unfolding command_fis
fis_command_bit at command startl starth count m =
    ap (λ x. x / 2 ^ 7 % 2) (flag (update m at 0x27 (at + 1)))
    ∙ with_bit_seven (update m at 0x27 (at + 1))
  where
    flag :
        (x : ℕ)
        → command_fis at command startl starth count m (at + 1)
          ≡ with_bit (update m at 0x27 (at + 1)) 7
    flag x = ground arith

pub fis_type :
    (at command startl starth count : ℕ) (m : Cells)
    → command_fis at command startl starth count m at ≡ 0x27
unfolding command_fis
fis_type at command startl starth count m = ground arith

described-lt : (word dbc : ℕ) → word ≡ 0 → described word dbc < 2 ^ 32
described-lt word dbc h = ground arith

described_bytes : (word dbc : ℕ) → word ≡ 0 → described word dbc % 2 ^ 22 ≡ dbc % 2 ^ 22
described_bytes word dbc h = ground arith

pub header_prdtl_lem :
    (at w count : ℕ) (m : Cells)
    → 1 ≤ count
    → count ≤ 16
    → get16 (header_command at w count m) (at + header_prdtl) ≡ 1
unfolding header_command get16 set16
header_prdtl_lem at w count m lo hi = ground arith

pub header_outside :
    (at w count : ℕ) (m : Cells) (k : ℕ) → at + 4 ≤ k → header_command at w count m k ≡ m k
unfolding header_command set16
header_outside at w count m k h = ground arith

pub header_first :
    (at w count : ℕ) (m : Cells)
    → (header_command at w count m at % 2 ^ 5 ≡ 5)
      × (header_command at w count m at / 2 ^ 6 % 2 ≡ (if w == 0 then 0 else 1))
unfolding header_command set16
header_first at w count m = (ground arith, ground arith)

-- What a descriptor at `e` says: where the data is, and how many bytes there are.
pub record Describes (c : Cells) (e address bytes : ℕ) : Type 0 where
  pub low : get32 c e ≡ address % 2 ^ 32
  pub high : get32 c (e + 4) ≡ address / 2 ^ 32
  pub byte_count : get32 c (e + 12) % 2 ^ 22 + 1 ≡ bytes

get32-set32_other :
    (b : Cells) (o v p : ℕ) → (p + 4 ≤ o) ⊎ (o + 4 ≤ p) → get32 (set32 b o v) p ≡ get32 b p
unfolding get32
get32-set32_other b o v p h = omega (
  arith,
  set32_outside b o v p (ground arith),
  set32_outside b o v (p + 1) (ground arith),
  set32_outside b o v (p + 2) (ground arith),
  set32_outside b o v (p + 3) (ground arith),
)

get32_zero : (b : Cells) (o : ℕ) → ((k : ℕ) → k < 4 → b (o + k) ≡ 0) → get32 b o ≡ 0
unfolding get32
get32_zero b o z = omega (
  arith,
  ap b (sym (add-zero o)) ∙ z 0 (omega arith),
  z 1 (omega arith),
  z 2 (omega arith),
  z 3 (omega arith),
)

-- The word that is set last, where the old one was 0.
last_word :
    (m : Cells) (e dbc : ℕ)
    → get32 m (e + 12) ≡ 0
    → get32 (set32 m (e + 12) (described (get32 m (e + 12)) dbc)) (e + 12) % 2 ^ 22 + 1
      ≡ dbc % 2 ^ 22 + 1
last_word m e dbc empty =
    let word = get32 m (e + 12) in
    omega (
      arith,
      get32-set32 m (e + 12) (described word dbc) (described-lt word dbc empty),
      described_bytes word dbc empty,
    )

zero_word :
    (m : Cells) (e d : ℕ) → d ≤ 12 → ((k : ℕ) → k < 16 → m (e + k) ≡ 0) → get32 m (e + d) ≡ 0
zero_word m e d h z =
    get32_zero m (e + d) (λ k lt. ap m (add_assoc e d k) ∙ z (d + k) (omega arith))

pub read_entry-Describes :
    (e buf dbc : ℕ) (m : Cells)
    → buf < 2 ^ 32
    → ((k : ℕ) → k < 16 → m (e + k) ≡ 0)
    → Describes (read_entry e buf dbc m) e buf (dbc % 2 ^ 22 + 1)
unfolding read_entry
read_entry-Describes e buf dbc m hb z =
    let low = buf % 2 ^ 32 in
    let placed = set32 m e low in
    let word = described (get32 placed (e + 12)) dbc in
    record {
      low =
          get32-set32_other placed (e + 12) word e (inl (omega arith))
          ∙ get32-set32 m e low (mod-lt buf (omega arith));
      high =
          get32-set32_other placed (e + 12) word (e + 4) (inl (omega arith))
          ∙ get32-set32_other m e low (e + 4) (inr (omega arith))
          ∙ zero_word m e 4 (omega arith) z
          ∙ omega arith;
      byte_count = last_word placed e dbc (
          get32-set32_other m e low (e + 12) (inr (omega arith))
          ∙ zero_word m e 12 (omega arith) z);
    }

pub write_entry-Describes :
    (e buf dbc : ℕ) (m : Cells)
    → buf < 2 ^ 64
    → ((k : ℕ) → k < 16 → m (e + k) ≡ 0)
    → Describes (write_entry e buf dbc m) e buf (dbc % 2 ^ 22 + 1)
unfolding write_entry
write_entry-Describes e buf dbc m hb z =
    let low = buf % 2 ^ 32 in
    let high = buf / 2 ^ 32 % 2 ^ 32 in
    let half = set32 m e low in
    let placed = set32 half (e + 4) high in
    let word = described (get32 placed (e + 12)) dbc in
    record {
      low =
          get32-set32_other placed (e + 12) word e (inl (omega arith))
          ∙ get32-set32_other half (e + 4) high e (inl (omega arith))
          ∙ get32-set32 m e low (mod-lt buf (omega arith));
      high =
          get32-set32_other placed (e + 12) word (e + 4) (inl (omega arith))
          ∙ get32-set32 half (e + 4) high (omega arith)
          ∙ omega arith;
      byte_count = last_word placed e dbc (
          get32-set32_other half (e + 4) high (e + 12) (inr (omega arith))
          ∙ get32-set32_other m e low (e + 12) (inr (omega arith))
          ∙ zero_word m e 12 (omega arith) z);
    }

pub read_entry_outside :
    (e buf dbc : ℕ) (m : Cells) (k : ℕ) → k < e → read_entry e buf dbc m k ≡ m k
unfolding read_entry set32
read_entry_outside e buf dbc m k h = ground arith

pub write_entry_outside :
    (e buf dbc : ℕ) (m : Cells) (k : ℕ) → k < e → write_entry e buf dbc m k ≡ m k
unfolding write_entry set32
write_entry_outside e buf dbc m k h = ground arith
