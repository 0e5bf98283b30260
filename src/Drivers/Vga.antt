-- ===== src/Drivers/Vga.antt =====
-- drivers/vga/vga.c: the text screen. `txt_addr` is kept as the number of cells from
-- VGA_BASE_ADDRESS, and bytes sent to ports as a log with the newest first.
pub mod Screen
pub mod Text
use ester.Prelude.{
  ℕ, zero, suc, ◌+◌, ◌-◌, ◌*◌, ◌/◌, ◌%◌, ◌^◌, ◌&&◌, List, ◌∷◌, Option, none, some, Cells, leb, ◌==◌,
  if◌then◌else◌, ◌>>=◌, update, bit_and, bit_or,
}

abbrev pub vga_txt_width : ℕ
vga_txt_width = 80

abbrev pub vga_txt_height : ℕ
vga_txt_height = 25

abbrev pub screen_size : ℕ
screen_size = vga_txt_width * vga_txt_height

abbrev pub black : ℕ
black = 0x0

abbrev pub white : ℕ
white = 0xF

-- `__vga_device`, the text memory, and the port writes.
pub record Vga : Type 0 where
  pub txt_addr : ℕ
  pub txt : Cells
  pub ports : List (ℕ × ℕ)

-- The two halves of the position go to registers 0x0F and 0x0E.
unfoldable pub vga_update_cursor : ℕ → ℕ → Vga → Vga
vga_update_cursor x y v =
    let pos = (y * vga_txt_width + x) % 2 ^ 16 in
    record v {
      ports =
          (0x3D5, bit_and (pos / 2 ^ 8) 0xFF)
          ∷ (0x3D4, 0x0E)
          ∷ (0x3D5, bit_and pos 0xFF)
          ∷ (0x3D4, 0x0F)
          ∷ v.ports;
    }

-- Blink and background, foreground, character.
unfoldable pub vga_cell : ℕ → ℕ → ℕ → ℕ
vga_cell c background foreground =
    bit_or (bit_or (bit_and 0x0f background * 2 ^ 4) (bit_and 0x0f foreground) * 2 ^ 8) c % 2 ^ 16

unfoldable pub vga_print_c : ℕ → ℕ → ℕ → Vga → Vga
vga_print_c c background foreground v = record v {
  txt = update v.txt v.txt_addr (vga_cell c background foreground);
}

-- The loops that fill cells with spaces, with the number of cells left.
unfoldable pub blank_cells : ℕ → Vga → Vga
unfolding vga_print_c
blank_cells zero v = v
blank_cells (suc left) v =
    let printed = vga_print_c b' ' black white v in
    blank_cells left (record printed { txt_addr = v.txt_addr + 1 })

unfoldable pub vga_clear_screen : Vga → Vga
vga_clear_screen v = record (blank_cells screen_size (record v { txt_addr = 0 })) { txt_addr = 0 }

unfoldable pub vga_clear_line : ℕ → Vga → Vga
vga_clear_line line_i v =
    record (blank_cells vga_txt_width (record v { txt_addr = line_i * vga_txt_width })) {
      txt_addr = v.txt_addr;
    }

-- `tmp` stays one line ahead of `txt_addr`.
unfoldable pub scroll_loop : ℕ → Vga → Vga
scroll_loop zero v = v
scroll_loop (suc left) v = scroll_loop left (record v {
  txt_addr = v.txt_addr + 1;
  txt = update v.txt v.txt_addr (v.txt (v.txt_addr + vga_txt_width));
})

unfoldable pub vga_scroll : Vga → Vga
vga_scroll v =
    vga_clear_line (vga_txt_height - 1)
      (scroll_loop (vga_txt_width * (vga_txt_height - 1)) (record v { txt_addr = 0 }))

-- The line of the last cell that was written, and the column as the source computes it, from byte
-- distances.
unfoldable pub current_line : Vga → ℕ
current_line v =
    if v.txt_addr == 0
    then v.txt_addr * 2 / (vga_txt_width * 2) % 2 ^ 16
    else (v.txt_addr - 1) * 2 / (vga_txt_width * 2) % 2 ^ 16

unfoldable pub current_column : Vga → ℕ
current_column v = v.txt_addr * 2 / (vga_txt_height * 2) % 2 ^ 16

-- What vga_print_char does before it moves the cursor, and vga_print for each character.
unfoldable pub put_char : ℕ → ℕ → ℕ → Vga → Vga
put_char c background foreground v =
    if c == b'\n'
    then record v { txt_addr = (current_line v + 1) * vga_txt_width }
    else let room =
        if leb (vga_txt_height - 1) (current_line v) && (current_column v == vga_txt_width)
        then vga_scroll v
        else v in
      let printed = vga_print_c c background foreground room in
      record printed { txt_addr = printed.txt_addr + 1 }

unfoldable pub move_cursor : Vga → Vga
move_cursor v =
    let y = v.txt_addr * 2 / (vga_txt_width * 2) % 2 ^ 16 in
    let x = (v.txt_addr * 2 / 2 % 2 ^ 16 + 2 ^ 32 - y * vga_txt_width) % 2 ^ 16 in
    vga_update_cursor x y v

unfoldable pub vga_print_char : ℕ → ℕ → ℕ → Vga → Vga
vga_print_char c background foreground v = move_cursor (put_char c background foreground v)

-- The index is a uint16_t: a text without a terminator within 65536 bytes never ends.
abbrev pub text_fuel : ℕ
text_fuel = 2 ^ 16

unfoldable pub print_loop : ℕ → Cells → ℕ → ℕ → ℕ → Vga → Option Vga
print_loop zero txt i background foreground v = none
print_loop (suc fuel) txt i background foreground v =
    let rest =
      print_loop fuel txt ((i + 1) % 2 ^ 16) background foreground
        (put_char (txt i) background foreground v) in
    if txt i == 0 then some v else rest

unfoldable pub vga_print : Cells → ℕ → ℕ → Vga → Option Vga
vga_print txt background foreground v =
    print_loop text_fuel txt 0 background foreground v >>= λ w. some (move_cursor w)
