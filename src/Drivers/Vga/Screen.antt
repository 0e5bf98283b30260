-- ===== src/Drivers/Vga/Screen.antt =====
-- Where a character goes, what scrolling does to the lines, and that nothing is written outside
-- the 80 by 25 cells.
use ester.Prelude.{
  ℕ, zero, suc, ◌+◌, ◌-◌, ◌*◌, ◌/◌, ◌%◌, ◌^◌, ◌≤◌, ◌<◌, ◌≡◌, inl, inr, refl, ◌&&◌, Bool-cases,
  Cells, arith, leb, ltb, ◌==◌, if◌then◌else◌, update, List, ◌∷◌, bit_and, ◌∙◌, ap, true,
}
use ester.Prelude.Bits.{holds_below, holds_below-get}
use ester.Drivers.Vga.{
  Vga, vga_cell, vga_print_c, blank_cells, vga_clear_line, scroll_loop, vga_scroll, current_line,
  current_column, put_char, move_cursor, vga_update_cursor, vga_print_char, screen_size,
  vga_txt_width,
}

-- The position is on the screen, or just behind it.
abbrev pub IsOnScreen : Vga → Type 0
IsOnScreen v = v.txt_addr ≤ screen_size

-- A cell with a white space on black.
abbrev pub space_cell : ℕ
space_cell = vga_cell b' ' 0x0 0xF

blank_cells-txt :
    (n : ℕ) (v : Vga) (a : ℕ)
    → (blank_cells n v).txt a
      ≡ (if leb v.txt_addr a && ltb a (v.txt_addr + n) then space_cell else v.txt a)
unfolding blank_cells vga_print_c
blank_cells-txt zero v a = ground arith
blank_cells-txt (suc n) v a = ground (
  arith,
  blank_cells-txt n
      (record v { txt_addr = v.txt_addr + 1; txt = update v.txt v.txt_addr space_cell }) a,
)

scroll_loop-txt :
    (n : ℕ) (v : Vga) (a : ℕ)
    → (scroll_loop n v).txt a
      ≡ (if leb v.txt_addr a && ltb a (v.txt_addr + n) then v.txt (a + vga_txt_width) else v.txt a)
unfolding scroll_loop
scroll_loop-txt zero v a = ground arith
scroll_loop-txt (suc n) v a = ground (
  arith,
  scroll_loop-txt n
      (record v {
        txt_addr = v.txt_addr + 1;
        txt = update v.txt v.txt_addr (v.txt (v.txt_addr + vga_txt_width));
      })
      a,
)

scroll_loop-addr : (n : ℕ) (v : Vga) → (scroll_loop n v).txt_addr ≡ v.txt_addr + n
unfolding scroll_loop
scroll_loop-addr zero v = omega arith
scroll_loop-addr (suc n) v = omega (arith, scroll_loop-addr n _)

-- The text after scrolling: lines 1 to 24 moved up by one, and the last line blank.
abbrev pub scrolled : Cells → Cells
scrolled txt a =
    if ltb a (screen_size - vga_txt_width)
    then txt (a + vga_txt_width)
    else if ltb a screen_size
    then space_cell
    else txt a

scroll-txt : (v : Vga) (a : ℕ) → (vga_scroll v).txt a ≡ scrolled v.txt a
unfolding vga_scroll vga_clear_line
scroll-txt v a = ground (
  arith,
  blank_cells-txt 80 (record (scroll_loop 1920 (record v { txt_addr = 0 })) { txt_addr = 1920 }) a,
  scroll_loop-txt 1920 (record v { txt_addr = 0 }) a,
)

scroll-addr : (v : Vga) → (vga_scroll v).txt_addr ≡ 1920
unfolding vga_scroll vga_clear_line
scroll-addr v = scroll_loop-addr 1920 (record v { txt_addr = 0 })

must_scroll :
    (v : Vga)
    → v.txt_addr ≤ screen_size
    → (leb 24 (current_line v) && (current_column v == 80)) ≡ (v.txt_addr == screen_size)
unfolding current_line current_column
must_scroll v h = ground arith

low_byte_table : holds_below (λ p. bit_and p 0xFF == p % 2 ^ 8) 2048 ≡ true
unfolding holds_below
low_byte_table = refl

low_byte : (p : ℕ) → p < 2048 → bit_and p 0xFF ≡ p % 2 ^ 8
low_byte p h =
    ground (arith, holds_below-get (λ p. bit_and p 0xFF == p % 2 ^ 8) 2048 low_byte_table p h)

-- The bytes that set the hardware cursor to a position, the newest first.
abbrev pub cursor_bytes : ℕ → List (ℕ × ℕ) → List (ℕ × ℕ)
cursor_bytes p old = (0x3D5, p / 2 ^ 8) ∷ (0x3D4, 0x0E) ∷ (0x3D5, p % 2 ^ 8) ∷ (0x3D4, 0x0F) ∷ old

cursor_sum :
    (p : ℕ)
    → p ≤ screen_size
    → ((p * 2 / 160 % 2 ^ 16) * 80
          + (p * 2 / 2 % 2 ^ 16 + 2 ^ 32 - (p * 2 / 160 % 2 ^ 16) * 80) % 2 ^ 16)
        % 2 ^ 16
      ≡ p
cursor_sum p h = omega arith

pub moved-addr : (v : Vga) → (move_cursor v).txt_addr ≡ v.txt_addr
unfolding move_cursor vga_update_cursor
moved-addr v = refl

pub moved-txt : (v : Vga) → (move_cursor v).txt ≡ v.txt
unfolding move_cursor vga_update_cursor
moved-txt v = refl

move_cursor-ports :
    (v : Vga) → IsOnScreen v → (move_cursor v).ports ≡ cursor_bytes v.txt_addr v.ports
unfolding move_cursor vga_update_cursor
move_cursor-ports v h =
    rw
      (
        cursor_sum v.txt_addr h,
        low_byte v.txt_addr (omega arith),
        low_byte (v.txt_addr / 2 ^ 8) (omega arith),
      )
      (ap
        (λ (t : ℕ).
          (0x3D5, t) ∷ (0x3D4, 0x0E) ∷ (0x3D5, v.txt_addr % 2 ^ 8) ∷ (0x3D4, 0x0F) ∷ v.ports)
        (omega arith))

-- The text and the position after one character.
abbrev pub text_after : ℕ → ℕ → Vga → Cells
text_after c cell v a =
    if c == b'\n'
    then v.txt a
    else if v.txt_addr == screen_size
    then (if a == 1920 then cell else scrolled v.txt a)
    else if a == v.txt_addr
    then cell
    else v.txt a

abbrev pub addr_after : ℕ → Vga → ℕ
addr_after c v =
    if c == b'\n'
    then (if v.txt_addr == 0 then 80 else (v.txt_addr + 79) / 80 * 80)
    else if v.txt_addr == screen_size
    then 1921
    else v.txt_addr + 1

pub put_char-txt :
    (c bg fg : ℕ) (v : Vga) (a : ℕ)
    → IsOnScreen v
    → (put_char c bg fg v).txt a ≡ text_after c (vga_cell c bg fg) v a
unfolding put_char vga_print_c
put_char-txt c bg fg v a h = rw (must_scroll v h) (ground (arith, scroll-txt v a, scroll-addr v))

line_after :
    (v : Vga)
    → v.txt_addr ≤ screen_size
    → (current_line v + 1) * 80 ≡ (if v.txt_addr == 0 then 80 else (v.txt_addr + 79) / 80 * 80)
unfolding current_line
line_after v h = ground arith

pub put_char-addr :
    (c bg fg : ℕ) (v : Vga) → IsOnScreen v → (put_char c bg fg v).txt_addr ≡ addr_after c v
unfolding put_char vga_print_c
put_char-addr c bg fg v h = rw (must_scroll v h) (ground (arith, line_after v h, scroll-addr v))

blank_cells-ports : (n : ℕ) (v : Vga) → (blank_cells n v).ports ≡ v.ports
unfolding blank_cells vga_print_c
blank_cells-ports zero v = refl
blank_cells-ports (suc n) v = blank_cells-ports n _

scroll_loop-ports : (n : ℕ) (v : Vga) → (scroll_loop n v).ports ≡ v.ports
unfolding scroll_loop
scroll_loop-ports zero v = refl
scroll_loop-ports (suc n) v = scroll_loop-ports n _

scroll-ports : (v : Vga) → (vga_scroll v).ports ≡ v.ports
unfolding vga_scroll vga_clear_line
scroll-ports v = blank_cells-ports 80 _ ∙ scroll_loop-ports 1920 _

put_char-ports : (c bg fg : ℕ) (v : Vga) → (put_char c bg fg v).ports ≡ v.ports
unfolding put_char vga_print_c
put_char-ports c bg fg v = elim (Bool-cases (c == b'\n')) [
  | inl newline ↦ rw newline
  | inr other ↦ elim (Bool-cases (leb 24 (current_line v) && (current_column v == 80))) [
    | inl full ↦ rw (other, full) (scroll-ports v)
    | inr room ↦ rw (other, room)
  ]
]

pub put_char-IsOnScreen : (c bg fg : ℕ) (v : Vga) → IsOnScreen v → IsOnScreen (put_char c bg fg v)
put_char-IsOnScreen c bg fg v h = ground (arith, put_char-addr c bg fg v h)

-- From a position on the screen, vga_print_char stays on the screen and writes no cell outside
-- it. A newline writes none and moves to the next multiple of 80, which may be the position
-- itself; any other character is put at the position, after the lines have moved up by one and
-- the last was blanked when the screen was full. The cursor registers get the new position.
pub print_char_lem :
    (c bg fg : ℕ) (v : Vga)
    → IsOnScreen v
    → let w = vga_print_char c bg fg v in
      IsOnScreen w
      × (w.txt_addr ≡ addr_after c v)
      × ((a : ℕ) → w.txt a ≡ text_after c (vga_cell c bg fg) v a)
      × ((a : ℕ) → screen_size ≤ a → w.txt a ≡ v.txt a)
      × (w.ports ≡ cursor_bytes w.txt_addr v.ports)
unfolding vga_print_char
print_char_lem c bg fg v h = (
  rw (moved-addr (put_char c bg fg v)) (put_char-IsOnScreen c bg fg v h),
  moved-addr (put_char c bg fg v) ∙ put_char-addr c bg fg v h,
  λ a. same_text a,
  λ a out. same_text a ∙ ground arith,
  rw (moved-addr (put_char c bg fg v)) (
      move_cursor-ports (put_char c bg fg v) (put_char-IsOnScreen c bg fg v h)
      ∙ ap (cursor_bytes (put_char c bg fg v).txt_addr) (put_char-ports c bg fg v)),
)
  where
    same_text :
        (a : ℕ) → (move_cursor (put_char c bg fg v)).txt a ≡ text_after c (vga_cell c bg fg) v a
    same_text a =
        ap (λ (t : Cells). t a) (moved-txt (put_char c bg fg v)) ∙ put_char-txt c bg fg v a h
