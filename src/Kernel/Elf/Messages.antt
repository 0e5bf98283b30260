-- ===== src/Kernel/Elf/Messages.antt =====
-- The messages of kernel/elf64_loader.c, without the number and the newline at their end.
use ester.Prelude.{ℕ, List, [], ◌∷◌, ◌++◌, Cells}
use ester.Kernel.Debug.{literal}

abbrev pub vaddr_label : List ℕ
vaddr_label = b'V' ∷ b'A' ∷ b'D' ∷ b'D' ∷ b'R' ∷ b':' ∷ b' ' ∷ []

abbrev pub data_label : List ℕ
data_label = b'D' ∷ b'A' ∷ b'T' ∷ b'A' ∷ b':' ∷ b' ' ∷ []

abbrev pub buff_label : List ℕ
buff_label = b'B' ∷ b'U' ∷ b'F' ∷ b'F' ∷ b':' ∷ b' ' ∷ []

abbrev pub entry_label : List ℕ
entry_label =
    b'E' ∷ b'n' ∷ b't' ∷ b'r' ∷ b'y' ∷ b' ' ∷ b'p' ∷ b'o' ∷ b'i' ∷ b'n' ∷ b't' ∷ b':' ∷ b' ' ∷ []

abbrev pub read_label : List ℕ
read_label =
    b'R' ∷ b'E' ∷ b'A' ∷ b'D' ∷ b' ' ∷ b'A' ∷ b'T' ∷ b' ' ∷ b'E' ∷ b'N' ∷ b'T' ∷ b'R' ∷ b'Y' ∷ b':'
    ∷ b' ' ∷ []

abbrev pub entries_label : List ℕ
entries_label =
    b'E' ∷ b'n' ∷ b't' ∷ b'r' ∷ b'i' ∷ b'e' ∷ b's' ∷ b' ' ∷ b'c' ∷ b'o' ∷ b'u' ∷ b'n' ∷ b't' ∷ b' '
    ∷ []

abbrev pub header_label : List ℕ
header_label =
    b'P' ∷ b'r' ∷ b'o' ∷ b'g' ∷ b'r' ∷ b'a' ∷ b'm' ∷ b' ' ∷ b'h' ∷ b'e' ∷ b'a' ∷ b'd' ∷ b'e' ∷ b'r'
    ∷ b' ' ∷ b'p' ∷ b'_' ∷ []

abbrev pub field_segtype : List ℕ
field_segtype = header_label ++ b's' ∷ b'e' ∷ b'g' ∷ b't' ∷ b'y' ∷ b'p' ∷ b'e' ∷ b':' ∷ b' ' ∷ []

abbrev pub field_flags : List ℕ
field_flags = header_label ++ b'f' ∷ b'l' ∷ b'a' ∷ b'g' ∷ b's' ∷ b':' ∷ b' ' ∷ []

abbrev pub field_offset : List ℕ
field_offset = header_label ++ b'o' ∷ b'f' ∷ b'f' ∷ b's' ∷ b'e' ∷ b't' ∷ b':' ∷ b' ' ∷ []

abbrev pub field_vaddr : List ℕ
field_vaddr = header_label ++ b'v' ∷ b'a' ∷ b'd' ∷ b'd' ∷ b'r' ∷ b':' ∷ b' ' ∷ []

abbrev pub field_paddr : List ℕ
field_paddr = header_label ++ b'p' ∷ b'a' ∷ b'd' ∷ b'd' ∷ b'r' ∷ b':' ∷ b' ' ∷ []

abbrev pub field_filesz : List ℕ
field_filesz = header_label ++ b'f' ∷ b'i' ∷ b'l' ∷ b'e' ∷ b's' ∷ b'z' ∷ b':' ∷ b' ' ∷ []

abbrev pub field_memsz : List ℕ
field_memsz = header_label ++ b'm' ∷ b'e' ∷ b'm' ∷ b's' ∷ b'z' ∷ b':' ∷ b' ' ∷ []

abbrev pub field_align : List ℕ
field_align = header_label ++ b'a' ∷ b'l' ∷ b'i' ∷ b'g' ∷ b'n' ∷ b':' ∷ b' ' ∷ []

abbrev pub not_valid : Cells
not_valid = literal (
    b'N' ∷ b'o' ∷ b't' ∷ b' ' ∷ b'a' ∷ b' ' ∷ b'v' ∷ b'a' ∷ b'l' ∷ b'i' ∷ b'd' ∷ b' ' ∷ b'E' ∷ b'L'
    ∷ b'F' ∷ b'\n' ∷ [])

abbrev pub stub_message : Cells
stub_message = literal (
    b'N' ∷ b'E' ∷ b'L' ∷ b'L' ∷ b'A' ∷ b' ' ∷ b'C' ∷ b'U' ∷ b'S' ∷ b'C' ∷ b'I' ∷ b'N' ∷ b'E' ∷ b'T'
    ∷ b'T' ∷ b'O' ∷ b'\n' ∷ [])
