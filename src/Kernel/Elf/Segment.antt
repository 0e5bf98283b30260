-- ===== src/Kernel/Elf/Segment.antt =====
-- What kernel/elf64_loader.c puts at a segment's address.
use ester.Prelude.{
  ℕ, ◌+◌, ◌-◌, ◌%◌, ◌^◌, ◌≤◌, ◌<◌, ◌≡◌, ◌⊎◌, refl, true, arith, some, Cells, List, [], ◌∷◌, length,
  Bool, ltb, leb, ◌&&◌, ◌==◌, if◌then◌else◌, ◌∙◌, Bool-cases, inl, inr,
}
use ester.Kernel.Mem.{memcpy, memset}
use ester.Kernel.Mem.Laws.{memcpy-get, memset-get, copied}
use ester.Kernel.Paging.{pmap}
use ester.Kernel.Print.{printk}
use ester.Kernel.Print.Labelled.{labelled, all_plain, printk-labelled}
use ester.Drivers.Vga.{Vga}
use ester.Ext2.Layout.{get32}
use ester.Ext2.Layout.Fields.{get32_ext}
use ester.Kernel.Elf.{
  Places, Space, elf64_get_program_header, get64, load_bytes, load_segment, p_segtype, p_vaddr,
  p_filesz, p_memsz, base_vmem, sizeof_program_header, report, segment_report,
}

-- The buffer's first bytes at `vaddr`, zeros up to the size in memory, and the old bytes elsewhere.
abbrev pub segment : Cells → ℕ → ℕ → ℕ → ℕ → Cells
segment m buff vaddr filesz memsz a =
    if leb vaddr a && ltb a (vaddr + filesz)
    then m (buff + (a - vaddr))
    else if leb vaddr a && ltb a (vaddr + memsz)
    then 0
    else m a

placed :
    (m : Cells) (buff vaddr filesz memsz : ℕ)
    → filesz ≤ memsz
    → (buff + filesz ≤ vaddr) ⊎ (vaddr + memsz ≤ buff)
    → (a : ℕ)
    → memcpy vaddr buff filesz (memset vaddr 0 memsz m) a ≡ segment m buff vaddr filesz memsz a
unfolding copied
placed m buff vaddr filesz memsz le apart a =
    memcpy-get vaddr buff filesz (memset vaddr 0 memsz m) a (ground arith)
    ∙ ground (arith, memset-get vaddr 0 memsz m a, memset-get vaddr 0 memsz m (a - vaddr + buff))

get64_ext :
    (b c : Cells) (o : ℕ) → ((k : ℕ) → o ≤ k → k < o + 8 → b k ≡ c k) → get64 b o ≡ get64 c o
unfolding get64
get64_ext b c o h = omega (
  arith,
  get32_ext b c o (λ k lo hi. h k lo (omega arith)),
  get32_ext b c (o + 4) (λ k lo hi. h k (omega arith) (omega arith)),
)

-- Labels of plain characters with numbers below 2 ^ 31.
abbrev Printable : List (List ℕ × ℕ) → Type 0
Printable [] = Unit {0}
Printable ((label, value) ∷ later) =
    (all_plain label ≡ true) × (length label + 4 < 2 ^ 32) × (value < 2 ^ 31) × Printable later

said-ends :
    (label : List ℕ) (digits value : ℕ) (v : Vga)
    → all_plain label ≡ true
    → length label + 4 < 2 ^ 32
    → value < 2 ^ 31
    → (w : Vga) × (printk (labelled label) digits 0 (value ∷ []) v ≡ some w)
said-ends label digits value v plain short small =
    let (_, _, _, shown) = printk-labelled label digits value v plain short small in (_, shown)

report-ends :
    (digits : ℕ) (messages : List (List ℕ × ℕ)) (v : Vga)
    → Printable messages
    → (w : Vga) × (report digits messages v ≡ some w)
unfolding report
report-ends digits [] v fine = (v, refl)
report-ends digits ((label, value) ∷ later) v (plain, short, small, fine) =
    let (between, shown) = said-ends label digits value v plain short small in
    let (w, e) = report-ends digits later between fine in (w, rw (shown, report) e)

module _ (places : Places) (i : ℕ) (s : Space) where
  abbrev pub header_at : ℕ
  header_at = elf64_get_program_header places i

  abbrev pub vaddr : ℕ
  vaddr = get64 s.bytes (header_at + p_vaddr)

  abbrev pub filesz : ℕ
  filesz = get64 s.bytes (header_at + p_filesz) % 2 ^ 32

  abbrev pub memsz : ℕ
  memsz = get64 s.bytes (header_at + p_memsz) % 2 ^ 32

  abbrev pub is_loadable : Bool
  is_loadable = get32 s.bytes (header_at + p_segtype) == 1

  -- A segment at least as large in memory as in the file, apart from the buffer and from its
  -- header, whose address stays below 2 ^ 31.
  pub record Loadable : Type 0 where
    pub fits : filesz ≤ memsz
    pub buffer_apart : (places.buff + filesz ≤ vaddr) ⊎ (vaddr + memsz ≤ places.buff)
    pub header_apart : (header_at + sizeof_program_header ≤ vaddr) ⊎ (vaddr + memsz ≤ header_at)
    pub low : vaddr < 2 ^ 31
    pub bytes : (a : ℕ) → s.bytes a < 256

  abbrev pub cleared : Cells
  cleared = memset vaddr 0 memsz s.bytes

  abbrev pub loaded : Cells
  loaded = memcpy vaddr places.buff filesz cleared

  module _ (l : Loadable) where
    loaded_byte : (a : ℕ) → loaded a ≡ segment s.bytes places.buff vaddr filesz memsz a
    loaded_byte a = placed s.bytes places.buff vaddr filesz memsz l.fits l.buffer_apart a

    cleared_header :
        (f : ℕ)
        → f + 8 ≤ sizeof_program_header
        → get64 cleared (header_at + f) ≡ get64 s.bytes (header_at + f)
    cleared_header f h =
        get64_ext cleared s.bytes (header_at + f)
          (λ k lo hi. ground (arith, memset-get vaddr 0 memsz s.bytes k, l.header_apart))

    loaded_header : get64 loaded (header_at + p_vaddr) ≡ vaddr
    loaded_header =
        get64_ext loaded s.bytes (header_at + p_vaddr)
          (λ k lo hi. loaded_byte k ∙ ground (arith, l.header_apart, l.fits))

    load_bytes-loaded : load_bytes places header_at s.bytes ≡ loaded
    unfolding load_bytes
    load_bytes-loaded =
        rw (cleared_header p_vaddr (omega arith), cleared_header p_filesz (omega arith)) refl

    loaded-lt : (a : ℕ) → loaded a < 256
    loaded-lt a =
        rw (loaded_byte a) (ground (arith, l.bytes a, l.bytes (places.buff + (a - vaddr))))

    pub reported :
        (w : Vga) × (report places.digits (segment_report places header_at loaded) s.screen
          ≡ some w)
    reported = report-ends places.digits (segment_report places header_at loaded) s.screen (
      refl,
      omega arith,
      omega (arith, loaded_header, l.low),
      (
        refl,
        omega arith,
        omega (arith, loaded-lt (get64 loaded (header_at + p_vaddr))),
        (refl, omega arith, omega (arith, loaded-lt places.buff), tt),
      ),
    )

    -- For a program header whose segment is at least as large in memory as in the file, apart from
    -- the buffer and its header, at an address below 2 ^ 31 for which pmap ends, in a memory of
    -- bytes: the round of elf64_load ends with the page tables of pmap for 2 GB above the address.
    -- A loadable segment then has the first bytes of the buffer, not those at its offset in the
    -- file, and zeros behind them, `data` leads to it, and no other byte changes; for another kind
    -- of segment no byte, not the screen and not `data` change. Sizes count modulo 2 ^ 32.
    pub load_segment_lem :
        (tables : Cells)
        → pmap places.cr3 ((vaddr + base_vmem) % 2 ^ 64) vaddr 0 s.tables ≡ some tables
        → (s' : Space) × (load_segment places i s ≡ some s')
          × (s'.tables ≡ tables)
          × ((a : ℕ)
              → s'.bytes a ≡ (
                  if is_loadable
                  then segment s.bytes places.buff vaddr filesz memsz a
                  else s.bytes a))
          × (s'.data_ ≡ (if is_loadable then vaddr else s.data_))
          × (s'.screen ≡ (if is_loadable then reported.0 else s.screen))
    unfolding load_segment
    load_segment_lem tables mapped = elim (Bool-cases is_loadable) [
      | inl yes_load ↦ (
        record { tables = tables; bytes = loaded; screen = reported.0; data_ = vaddr },
        rw (mapped, yes_load, load_bytes-loaded, reported.1, loaded_header),
        refl,
        λ a. rw yes_load (loaded_byte a),
        rw yes_load,
        rw yes_load,
      )
      | inr other ↦ (
        record s { tables = tables },
        rw (mapped, other),
        refl,
        λ a. rw other,
        rw other,
        rw other,
      )
    ]
