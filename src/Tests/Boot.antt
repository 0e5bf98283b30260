-- ===== src/Tests/Boot.antt =====
-- kernel/multiboot2_infostruct_parser.c and kernel/elf64_loader.c on small memories.
use ester.Prelude.{
  ℕ, [], ◌*◌, ◌/◌, ◌%◌, ◌≡◌, inl, refl, some, Cells, arith, ◌==◌, if◌then◌else◌, update,
}
use ester.Ext2.Layout.{get32}
use ester.Kernel.Multiboot.{multiboot2_parser}
use ester.Kernel.Multiboot.First.{FirstWord, parser-FirstWord}
use ester.Kernel.Paging.{pmap, next_table, is_absent, page_entry}
use ester.Kernel.Elf.{Places, Space, load_segment, get64, elf64_get_program_header}
use ester.Kernel.Elf.Segment.{
  segment, load_segment_lem, Loadable, vaddr, filesz, memsz, is_loadable, reported,
}

-- 64 bytes, with the type of a module's tag at offset 16.
abbrev info : Cells
info k = if k == 4096 then 64 else if k == 4112 then 3 else 0

parser-FirstWord_example : FirstWord info 4096 0 (multiboot2_parser 4096 info)
unfolding get32
parser-FirstWord_example = parser-FirstWord 4096 info (omega arith)

abbrev places : Places
places = record { header = 100; program_headers = 200; buff = 8192; cr3 = 0; digits = 100 }

-- Every entry is present and leads to table 0; header 0 is of 4 bytes for address 0x300000, of 16
-- in memory.
abbrev space : Space
space = record {
  tables = λ a. 1;
  bytes = λ a.
      if a == 200
      then 1
      else if a == 218
      then 0x30
      else if a == 232
      then 4
      else if a == 240
      then 16
      else 7 * (a / 8192) % 256;
  screen = record { txt_addr = 0; txt = λ a. 0; ports = [] };
  data_ = 0;
}

abbrev mapped : Cells
mapped = update space.tables 2048 (page_entry 0x80300000 0)

segment_mapped : pmap 0 0x80300000 0x300000 0 space.tables ≡ some mapped
unfolding pmap next_table is_absent page_entry
segment_mapped = refl

space-Loadable : Loadable places 0 space
unfolding get64 get32 elf64_get_program_header
space-Loadable = record {
  fits = omega arith;
  buffer_apart = inl (omega arith);
  header_apart = inl (omega arith);
  low = omega arith;
  bytes = λ a. ground arith;
}

space-vaddr : vaddr places 0 space ≡ 0x300000
unfolding get64 get32 elf64_get_program_header
space-vaddr = refl

load_segment_lem_example :
    (s' : Space) × (load_segment places 0 space ≡ some s')
    × (s'.tables ≡ mapped)
    × ((a : ℕ)
        → s'.bytes a ≡ (
            if is_loadable places 0 space
            then segment space.bytes 8192
                (vaddr places 0 space)
                (filesz places 0 space)
                (memsz places 0 space)
                a
            else space.bytes a))
    × (s'.data_ ≡ (if is_loadable places 0 space then vaddr places 0 space else 0))
    × (s'.screen ≡ (
        if is_loadable places 0 space
        then (reported places 0 space space-Loadable).0
        else space.screen))
load_segment_lem_example =
    load_segment_lem places 0 space space-Loadable mapped (rw space-vaddr segment_mapped)
