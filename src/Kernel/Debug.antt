-- ===== src/Kernel/Debug.antt =====
-- kernel/debug.c: messages in a frame of a colour. A message is the bytes of its string from
-- index 0 on.
pub mod Framed
use ester.Prelude.{
  ℕ, zero, suc, ◌+◌, Option, none, some, Cells, List, [], ◌∷◌, ltb, if◌then◌else◌, ◌>>=◌,
}
use ester.Kernel.Str.{strlen}
use ester.Drivers.Vga.{Vga, vga_print, black, white}

abbrev pub red : ℕ
red = 0x4

abbrev pub yellow : ℕ
yellow = 0xE

abbrev pub debug_msg_size : ℕ
debug_msg_size = 256

-- A string literal.
abbrev pub literal : List ℕ → Cells
literal [] i = 0
literal (c ∷ cs) zero = c
literal (c ∷ cs) (suc i) = literal cs i

abbrev pub newline : Cells
newline = literal (10 ∷ [])

abbrev pub error_text : List ℕ
error_text = b'[' ∷ b' ' ∷ b'E' ∷ b'R' ∷ b'R' ∷ b'O' ∷ b'R' ∷ b' ' ∷ b']' ∷ b' ' ∷ []

abbrev pub error_prefix : Cells
error_prefix = literal error_text

abbrev pub warning_text : List ℕ
warning_text =
    b'[' ∷ b' ' ∷ b'W' ∷ b'A' ∷ b'R' ∷ b'N' ∷ b'I' ∷ b'N' ∷ b'G' ∷ b' ' ∷ b']' ∷ b' ' ∷ []

abbrev pub warning_prefix : Cells
warning_prefix = literal warning_text

abbrev pub info_text : List ℕ
info_text = b'[' ∷ b' ' ∷ b'I' ∷ b'N' ∷ b'F' ∷ b'O' ∷ b' ' ∷ b']' ∷ b' ' ∷ []

abbrev pub info_prefix : Cells
info_prefix = literal info_text

abbrev pub too_long_text : List ℕ
too_long_text =
    b'T' ∷ b'h' ∷ b'e' ∷ b' ' ∷ b'm' ∷ b's' ∷ b'g' ∷ b' ' ∷ b'i' ∷ b's' ∷ b' ' ∷ b't' ∷ b'o' ∷ b'o'
    ∷ b' ' ∷ b'l' ∷ b'o' ∷ b'n' ∷ b'g' ∷ []

abbrev pub too_long : Cells
too_long = literal too_long_text

-- The three calls of vga_print.
unfoldable pub framed : Cells → ℕ → Cells → Vga → Option Vga
framed prefix foreground msg v = do
  prefixed ← vga_print prefix black foreground v
  printed ← vga_print msg black foreground prefixed
  vga_print newline black foreground printed

-- DEBUG_ERROR calls itself with a message that is short enough: fuel 2 is enough.
unfoldable pub debug_error : ℕ → Cells → Vga → Option Vga
debug_error zero msg v = none
debug_error (suc fuel) msg v =
    let rest = debug_error fuel too_long v in
    strlen msg 0 >>= λ n. if ltb debug_msg_size n then rest else framed error_prefix red msg v

abbrev pub error_fuel : ℕ
error_fuel = 2

unfoldable pub debug_warning : Cells → Vga → Option Vga
debug_warning msg v = strlen msg 0 >>= λ n.
    if ltb debug_msg_size n
    then debug_error error_fuel too_long v
    else framed warning_prefix yellow msg v

unfoldable pub debug_info : Cells → Vga → Option Vga
debug_info msg v = strlen msg 0 >>= λ n.
    if ltb debug_msg_size n
    then debug_error error_fuel too_long v
    else framed info_prefix white msg v
