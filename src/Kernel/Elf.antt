-- ===== src/Kernel/Elf.antt =====
-- kernel/elf64_loader.c up to the jump into the program. The bytes of the address space and the
-- words of the page tables are two memories; the addresses of the static header, of the array of
-- program headers and of the buffer are parameters. Messages go to the text screen; their formats
-- and the digits that printk builds are apart from the bytes. Nothing reads the file into the buffer, so the
-- program is what the buffer happens to hold.
pub mod Messages
pub mod Segment
use ester.Prelude.{
  ℕ, zero, suc, ◌+◌, ◌*◌, ◌%◌, ◌^◌, Option, none, some, Cells, List, [], ◌∷◌, ◌==◌, if◌then◌else◌,
  ◌>>=◌, bit_and,
}
use ester.Kernel.Mem.{memcpy, memset}
use ester.Kernel.Paging.{pmap}
use ester.Kernel.Print.{printk}
use ester.Kernel.Print.Labelled.{labelled}
use ester.Drivers.Vga.{Vga}
use ester.Kernel.Elf.Messages.{
  vaddr_label, data_label, buff_label, entry_label, read_label, entries_label, field_segtype,
  field_flags, field_offset, field_vaddr, field_paddr, field_filesz, field_memsz, field_align,
  not_valid, stub_message,
}
use ester.Ext2.Layout.{get16, get32}

abbrev pub base_vmem : ℕ
base_vmem = 2147483648

abbrev pub elf_magic : ℕ
elf_magic = 0x7F454C46

-- elf64_header_t: its size and the members that are read.
abbrev pub sizeof_elf64_header : ℕ
sizeof_elf64_header = 64

abbrev pub e_entry : ℕ
e_entry = 24

abbrev pub e_phoff : ℕ
e_phoff = 32

abbrev pub e_phentsize : ℕ
e_phentsize = 54

abbrev pub e_phnum : ℕ
e_phnum = 56

-- elf64_program_header_t.
abbrev pub sizeof_program_header : ℕ
sizeof_program_header = 56

abbrev pub p_segtype : ℕ
p_segtype = 0

abbrev pub p_flags : ℕ
p_flags = 4

abbrev pub p_offset : ℕ
p_offset = 8

abbrev pub p_vaddr : ℕ
p_vaddr = 16

abbrev pub p_paddr : ℕ
p_paddr = 24

abbrev pub p_filesz : ℕ
p_filesz = 32

abbrev pub p_memsz : ℕ
p_memsz = 40

abbrev pub p_align : ℕ
p_align = 48

unfoldable pub get64 : Cells → ℕ → ℕ
get64 m a = get32 m a + 2 ^ 32 * get32 m (a + 4)

-- The page tables, the bytes, the screen, and the local pointer `data`, which is not initialised.
pub record Space : Type 0 where
  pub tables : Cells
  pub bytes : Cells
  pub screen : Vga
  pub data_ : ℕ

-- The addresses of `elf64_header`, `elf64_program_headers` and `buff`, the first page table, and
-- where printk builds digits.
pub record Places : Type 0 where
  pub header : ℕ
  pub program_headers : ℕ
  pub buff : ℕ
  pub cr3 : ℕ
  pub digits : ℕ

-- printk of labels with numbers, each with a newline.
unfoldable pub report : ℕ → List (List ℕ × ℕ) → Vga → Option Vga
report digits [] v = some v
report digits ((label, value) ∷ later) v =
    printk (labelled label) digits 0 (value ∷ []) v >>= report digits later

unfoldable pub stub : ℕ → Vga → Option Vga
stub digits v = printk stub_message digits 0 [] v

module _ (places : Places) where
  unfoldable pub elf64_extract_header : ℕ → Cells → Cells
  elf64_extract_header ptr m = memcpy places.header ptr sizeof_elf64_header m

  -- The index is not compared with the 128 entries of the array.
  unfoldable pub elf64_get_program_header : ℕ → ℕ
  elf64_get_program_header index = places.program_headers + index * sizeof_program_header

  unfoldable pub elf64_extract_program_header : ℕ → ℕ → Cells → Cells
  elf64_extract_program_header ptr index m =
      memcpy (elf64_get_program_header index) ptr sizeof_program_header m

  -- The loop over the program headers in the buffer, from index `i` and this offset on.
  unfoldable pub extract_loop : ℕ → ℕ → ℕ → Cells → Cells
  extract_loop zero i offset m = m
  extract_loop (suc left) i offset m =
      extract_loop left (i + 1) ((offset + get16 m (places.header + e_phentsize)) % 2 ^ 64)
        (elf64_extract_program_header ((places.buff + offset) % 2 ^ 64) i m)

  -- A segment's bytes: always from the start of the buffer. The header is read again for memcpy.
  unfoldable pub load_bytes : ℕ → Cells → Cells
  load_bytes ph m =
      let cleared = memset (get64 m (ph + p_vaddr)) 0 (get64 m (ph + p_memsz) % 2 ^ 32) m in
      memcpy (get64 cleared (ph + p_vaddr)) places.buff (get64 cleared (ph + p_filesz) % 2 ^ 32)
        cleared

  abbrev pub segment_report : ℕ → Cells → List (List ℕ × ℕ)
  segment_report ph m =
      (vaddr_label, get64 m (ph + p_vaddr))
      ∷ (data_label, m (get64 m (ph + p_vaddr)))
      ∷ (buff_label, m places.buff)
      ∷ []

  -- One page is mapped for every program header, loadable or not.
  unfoldable pub load_segment : ℕ → Space → Option Space
  load_segment i s = do
    let ph = elf64_get_program_header i
    let vaddr = get64 s.bytes (ph + p_vaddr)
    let bytes = load_bytes ph s.bytes
    tables ← pmap places.cr3 ((vaddr + base_vmem) % 2 ^ 64) vaddr 0 s.tables
    let mapped = record s { tables = tables }
    let loaded = report places.digits (segment_report ph bytes) s.screen >>= λ screen.
        some (record mapped { bytes = bytes; screen = screen; data_ = get64 bytes (ph + p_vaddr) })
    if get32 s.bytes (ph + p_segtype) == 1 then loaded else some mapped

  unfoldable pub load_loop : ℕ → ℕ → Space → Option Space
  load_loop zero i s = some s
  load_loop (suc left) i s = load_segment i s >>= load_loop left (i + 1)

  -- The messages about program header 1.
  abbrev pub header_report : ℕ → Cells → List (List ℕ × ℕ)
  header_report ph m =
      (field_segtype, get32 m (ph + p_segtype))
      ∷ (field_flags, get32 m (ph + p_flags))
      ∷ (field_offset, get64 m (ph + p_offset))
      ∷ (field_vaddr, get64 m (ph + p_vaddr))
      ∷ (field_paddr, get64 m (ph + p_paddr))
      ∷ (field_filesz, get64 m (ph + p_filesz))
      ∷ (field_memsz, get64 m (ph + p_memsz))
      ∷ (field_align, get64 m (ph + p_align))
      ∷ []

  -- Behind the test for the magic number. The number of program headers is read once for each
  -- loop, where the source reads it in every round; only a segment over the header can change it.
  unfoldable pub load_program : Space → Option Space
  load_program s = do
    let m = s.bytes
    let extracted =
        extract_loop (get16 m (places.header + e_phnum)) 0 (get64 m (places.header + e_phoff)) m
    let count = get16 extracted (places.header + e_phnum)
    screen ←
        report places.digits
          ((entries_label, count) ∷ header_report (elf64_get_program_header 1) extracted) s.screen
    loaded ← load_loop count 0 (record s { bytes = extracted; screen = screen })
    last ←
        report places.digits
          ((entry_label, get64 loaded.bytes (places.header + e_entry))
            ∷ (read_label, loaded.data_)
            ∷ [])
          loaded.screen
    some (record loaded { screen = last })

  -- The test for the magic number looks at the address of `e_ident`.
  unfoldable pub elf64_load : Space → Option Space
  elf64_load s =
      let read = record s { bytes = elf64_extract_header places.buff s.bytes } in
      let refused = printk not_valid places.digits 0 [] s.screen >>= λ screen.
      some (record read { screen = screen }) in
      if bit_and (places.header % 2 ^ 32) elf_magic == 0 then refused else load_program read
