-- ===== src/Kernel/Start/Welcome.antt =====
-- The lines that kernel/kernel.c shows when everything is up.
use ester.Prelude.{ℕ, zero, suc, List, [], ◌∷◌, Cells}
use ester.Kernel.Debug.{literal}

-- `n` spaces in front of a text.
abbrev indented : ℕ → List ℕ → List ℕ
indented zero text = text
indented (suc n) text = b' ' ∷ indented n text

abbrev pub blank_lines : Cells
blank_lines = literal (b'\n' ∷ b'\n' ∷ b'\n' ∷ [])

abbrev pub welcome_to : Cells
welcome_to = literal (
    indented 33 (
      b'W' ∷ b'e' ∷ b'l' ∷ b'c' ∷ b'o' ∷ b'm' ∷ b'e' ∷ b' ' ∷ b't' ∷ b'o' ∷ b'\n' ∷ b'\n' ∷ b'\n'
      ∷ []))

abbrev pub top_edge : Cells
top_edge = literal (
    indented 30 (
      b'_' ∷ b'_' ∷ b'_' ∷ b'_' ∷ b'_' ∷ b'_' ∷ b'_' ∷ b'_' ∷ b'_' ∷ b'_' ∷ b'_' ∷ b'_' ∷ b'_'
      ∷ b'_' ∷ b'_' ∷ b'\n' ∷ []))

abbrev pub upper_side : Cells
upper_side = literal (
    indented 29 (
      b'|' ∷ b' ' ∷ b' ' ∷ b' ' ∷ b' ' ∷ b' ' ∷ b' ' ∷ b' ' ∷ b' ' ∷ b' ' ∷ b' ' ∷ b' ' ∷ b' '
      ∷ b' ' ∷ b' ' ∷ b' ' ∷ b'|' ∷ b'\n' ∷ []))

abbrev pub name_line : Cells
name_line = literal (
    indented 29 (
      b'|' ∷ b' ' ∷ b' ' ∷ b'E' ∷ b'S' ∷ b'T' ∷ b'E' ∷ b'R' ∷ b' ' ∷ b'O' ∷ b'S' ∷ b' ' ∷ b'!'
      ∷ b'!' ∷ b'!' ∷ b' ' ∷ b'|' ∷ b'\n' ∷ []))

abbrev pub lower_side : Cells
lower_side = literal (
    indented 29 (
      b'|' ∷ b'_' ∷ b'_' ∷ b'_' ∷ b'_' ∷ b'_' ∷ b'_' ∷ b'_' ∷ b'_' ∷ b'_' ∷ b'_' ∷ b'_' ∷ b'_'
      ∷ b'_' ∷ b'_' ∷ b'_' ∷ b'|' ∷ b'\n' ∷ b'\n' ∷ b'\n' ∷ b'\n' ∷ []))

abbrev pub space_line : Cells
space_line = literal (indented 49 (b'\n' ∷ []))

abbrev pub motto : Cells
motto = literal (
    indented 26 (
      b'E' ∷ b'v' ∷ b'e' ∷ b'r' ∷ b'y' ∷ b't' ∷ b'h' ∷ b'i' ∷ b'n' ∷ b'g' ∷ b' ' ∷ b'w' ∷ b'i'
      ∷ b'l' ∷ b'l' ∷ b' ' ∷ b'b' ∷ b'e' ∷ b' ' ∷ b'f' ∷ b'i' ∷ b'n' ∷ b'e' ∷ b'\n' ∷ []))

abbrev pub welcome : List Cells
welcome =
    blank_lines ∷ welcome_to ∷ top_edge ∷ upper_side ∷ name_line ∷ lower_side ∷ space_line ∷ motto
    ∷ []
