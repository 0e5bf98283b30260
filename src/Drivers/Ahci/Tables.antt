-- ===== src/Drivers/Ahci/Tables.antt =====
-- The command headers and tables that port_rebase of drivers/ahci/ahci.c sets up.
use ester.Prelude.{
  ℕ, zero, suc, ◌+◌, ◌*◌, ◌^◌, ◌≤◌, ◌<◌, ◌≡◌, ◌⊎◌, inl, inr, refl, ◌∙◌, Cells, arith,
}
use native.Mathlib.Decide.{ℕ_discrete}
use ester.Kernel.Mem.{memset}
use ester.Kernel.Mem.Laws.{memset-get}
use ester.Ext2.Layout.{get16, get32, set16, set32}
use ester.Ext2.Layout.Fields.{
  get16-set16, get32-set32, set16_outside, set32_outside, get16_ext, get32_ext,
}
use ester.Drivers.Ahci.{
  command_table, header_setup, header_loop, sizeof_cmd_header, header_prdtl, header_ctba,
  header_ctbau,
}

-- Header `i` of the list has eight descriptors and leads to its own table, which is empty.
pub record Ready (list portno i : ℕ) (m : Cells) : Type 0 where
  pub entries : get16 m (list + i * sizeof_cmd_header + header_prdtl) ≡ 8
  pub table : get32 m (list + i * sizeof_cmd_header + header_ctba) ≡ command_table portno i
  pub upper : get32 m (list + i * sizeof_cmd_header + header_ctbau) ≡ 0
  pub empty : (k : ℕ) → k < 256 → m (command_table portno i + k) ≡ 0

memset_outside :
    (ptr len k : ℕ) (m : Cells) → (k < ptr) ⊎ (ptr + len ≤ k) → memset ptr 0 len m k ≡ m k
memset_outside ptr len k m h = ground (arith, memset-get ptr 0 len m k)

memset_inside : (ptr len k : ℕ) (m : Cells) → k < len → memset ptr 0 len m (ptr + k) ≡ 0
memset_inside ptr len k m h = ground (arith, memset-get ptr 0 len m (ptr + k))

module _ (list portno : ℕ) (behind : list + 1024 ≤ command_table portno 0) where
  -- The bytes of the headers in front of number `i`, and of their tables.
  abbrev Before : ℕ → ℕ → Type 0
  Before i k =
      (k < list + i * sizeof_cmd_header) ⊎ ((list + 1024 ≤ k) × (k < command_table portno i))

  header_setup-Before :
      (i k : ℕ) (m : Cells) → i < 32 → Before i k → header_setup list portno i m k ≡ m k
  unfolding header_setup
  header_setup-Before i k m lt before =
      memset_outside (command_table portno i) 256 k _ (inl (omega arith))
      ∙ set32_outside _ (list + i * sizeof_cmd_header + header_ctbau) 0 k (omega arith)
      ∙ set32_outside _ (list + i * sizeof_cmd_header + header_ctba) (command_table portno i) k
          (omega arith)
      ∙ set16_outside m (list + i * sizeof_cmd_header + header_prdtl) 8 k (omega arith)

  header_loop-Before :
      (left i k : ℕ) (m : Cells)
      → i + left ≤ 32
      → Before i k
      → header_loop left i list portno m k ≡ m k
  unfolding header_loop
  header_loop-Before zero i k m le before = refl
  header_loop-Before (suc left) i k m le before =
      header_loop-Before left (i + 1) k (header_setup list portno i m) (omega arith) (omega arith)
      ∙ header_setup-Before i k m (omega arith) before

  -- Behind the stores of header `i`, the bytes of a header.
  header_byte :
      (i k : ℕ) (m : Cells)
      → i < 32
      → k < list + 1024
      → header_setup list portno i m k
        ≡ set32
            (set32
              (set16 m (list + i * sizeof_cmd_header + header_prdtl) 8)
              (list + i * sizeof_cmd_header + header_ctba)
              (command_table portno i))
            (list + i * sizeof_cmd_header + header_ctbau)
            0
            k
  unfolding header_setup
  header_byte i k m lt below = memset_outside (command_table portno i) 256 k _ (inl (omega arith))

  header_setup-Ready :
      (i : ℕ) (m : Cells)
      → i < 32
      → command_table portno i < 2 ^ 32
      → Ready list portno i (header_setup list portno i m)
  unfolding header_setup
  header_setup-Ready i m lt word =
      let at = list + i * sizeof_cmd_header in
      let sized = set16 m (at + header_prdtl) 8 in
      let based = set32 sized (at + header_ctba) (command_table portno i) in
      record {
        entries =
            get16_ext _ sized (at + header_prdtl) (at + header_prdtl)
              (header_byte i (at + header_prdtl) m lt (omega arith)
                ∙ set32_outside based (at + header_ctbau) 0 _ (inl (omega arith))
                ∙ set32_outside sized (at + header_ctba) _ _ (inl (omega arith)))
              (header_byte i (at + header_prdtl + 1) m lt (omega arith)
                ∙ set32_outside based (at + header_ctbau) 0 _ (inl (omega arith))
                ∙ set32_outside sized (at + header_ctba) _ _ (inl (omega arith)))
            ∙ get16-set16 m (at + header_prdtl) 8 (omega arith);
        table =
            get32_ext _ based (at + header_ctba) (λ k lo hi.
              header_byte i k m lt (omega arith)
              ∙ set32_outside based (at + header_ctbau) 0 k (inl (omega arith)))
            ∙ get32-set32 sized (at + header_ctba) (command_table portno i) word;
        upper =
            get32_ext _ (set32 based (at + header_ctbau) 0) (at + header_ctbau)
              (λ k lo hi. header_byte i k m lt (omega arith))
            ∙ get32-set32 based (at + header_ctbau) 0 (omega arith);
        empty = λ k h. memset_inside (command_table portno i) 256 k _ h;
      }

  -- Header `i` keeps what bytes in front of later headers and tables do.
  same-Ready :
      (i : ℕ) (b c : Cells)
      → i < 32
      → ((k : ℕ) → Before (i + 1) k → c k ≡ b k)
      → Ready list portno i b
      → Ready list portno i c
  same-Ready i b c lt same r =
      let at = list + i * sizeof_cmd_header in
      record {
        entries =
            get16_ext c b (at + header_prdtl) (at + header_prdtl) (same _ (inl (omega arith)))
              (same _ (inl (omega arith)))
            ∙ r.entries;
        table = get32_ext c b (at + header_ctba) (λ k lo hi. same k (inl (omega arith))) ∙ r.table;
        upper = get32_ext c b (at + header_ctbau) (λ k lo hi. same k (inl (omega arith))) ∙ r.upper;
        empty =
            λ k h. same (command_table portno i + k) (inr (omega arith, omega arith)) ∙ r.empty k h;
      }

  pub header_loop-Ready :
      (left from i : ℕ) (m : Cells)
      → from + left ≤ 32
      → from ≤ i
      → i < from + left
      → command_table portno 32 ≤ 2 ^ 32
      → Ready list portno i (header_loop left from list portno m)
  unfolding header_loop
  header_loop-Ready zero from i m le lo hi word = absurd (omega arith)
  header_loop-Ready (suc left) from i m le lo hi word = elim (ℕ_discrete from i) [
    | yes here ↦ rw here (
        same-Ready i (header_setup list portno i m)
          (header_loop left (i + 1) list portno (header_setup list portno i m)) (omega arith)
          (λ k before. header_loop-Before left (i + 1) k _ (omega arith) before)
          (header_setup-Ready i m (omega arith) (omega arith)))
    | no other ↦
        header_loop-Ready left (from + 1) i (header_setup list portno from m) (omega arith)
          (omega arith) (omega arith) word
  ]
