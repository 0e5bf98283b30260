-- ===== src/Tests/Machine.antt =====
-- Drivers, descriptors and page tables on small machines.
use ester.Prelude.{
  ℕ, ◌-◌, ◌∷◌, leb, ◌+◌, ◌/◌, ◌%◌, ◌^◌, ◌≤◌, ◌<◌, ◌≡◌, ◌≢◌, refl, true, false, [], none, some,
  Cells, arith, ◌==◌, if◌then◌else◌,
}
use ester.Kernel.Str.{IsString}
use ester.Drivers.Vga.{Vga, vga_cell, vga_print_char, vga_print, screen_size}
use ester.Drivers.Vga.Screen.{IsOnScreen, addr_after, text_after, cursor_bytes, print_char_lem}
use ester.Drivers.Vga.Text.{SameScreen, print_each, print-SameScreen}
use ester.Drivers.Pic.{PortLog, pic1_cmd, pic2_cmd, pic_eoi_cmd}
use ester.Kernel.Interrupts.{IdtTable, exception_handler}
use ester.Kernel.Interrupts.Handler.{in_service, asked, Reported, exception_handler_lem}
use ester.Kernel.Paging.{entry, is_absent, page_entry, page_of, pmap}
use ester.Kernel.Paging.Walk.{pt_of, pmap-present}
use ester.Drivers.Keyboard.{to_ascii}
use ester.Drivers.Keyboard.Keys.{to_ascii_lem}

-- A full screen.
abbrev full_screen : Vga
full_screen = record { txt_addr = 2000; txt = λ a. a % 256; ports = [] }

print_char_lem_example :
    let w = vga_print_char b'x' 0 15 full_screen in
    IsOnScreen w
    × (w.txt_addr ≡ addr_after b'x' full_screen)
    × ((a : ℕ) → w.txt a ≡ text_after b'x' (vga_cell b'x' 0 15) full_screen a)
    × ((a : ℕ) → screen_size ≤ a → w.txt a ≡ full_screen.txt a)
    × (w.ports ≡ cursor_bytes w.txt_addr full_screen.ports)
print_char_lem_example = print_char_lem b'x' 0 15 full_screen (omega arith)

abbrev hello : Cells
hello i = if i == 0 then b'h' else if i == 1 then b'i' else 0

hello-IsString : IsString hello 0 2
hello-IsString = record { ends = refl; inside = λ i h. ground arith }

print-SameScreen_example :
    (v' : Vga) × (vga_print hello 0 15 full_screen ≡ some v')
    × IsOnScreen v'
    × SameScreen v' (print_each 2 0 hello 0 15 full_screen)
print-SameScreen_example =
    print-SameScreen 2 0 15 hello full_screen hello-IsString (omega arith) (omega arith)

abbrev masked : PortLog → ℕ → ℕ
masked log port = 0xFF

abbrev no_gates : IdtTable
no_gates v = record {
  isr_low = 0;
  kernel_cs = 0;
  ist = 0;
  attributes = 0;
  isr_mid = 0;
  isr_high = 0;
  reserved = 0;
}

abbrev stubs : Cells
stubs v = if v == 46 then 0x200000 else 0x100000

-- Each table is one page; entry 0 of the upper three is present.
abbrev tables : Cells
tables a = if a == 4096 then 8193 else if a == 8192 then 12289 else if a == 12288 then 16385 else 0

absent_at : (a : ℕ) → tables a ≡ 0 → is_absent tables a ≡ true
unfolding is_absent
absent_at a e = rw e

top_present : is_absent tables 4096 ≡ false
unfolding is_absent
top_present = refl

middle_present : is_absent tables 8192 ≡ false
unfolding is_absent
middle_present = refl

low_present : is_absent tables 12288 ≡ false
unfolding is_absent
low_present = refl

first_used : (k : ℕ) → k < 1 → is_absent tables (entry 4096 k) ≡ false
first_used k h = let e : entry 4096 k ≡ 4096 = omega arith in rw e top_present

pmap-present_example :
    let slot = entry (pt_of tables 4096 0x5000) (0x5000 / 2 ^ 12 % 2 ^ 9) in
    (m' : Cells) × (pmap 4096 0x7000 0x5000 0 tables ≡ some m')
    × (m' slot ≡ page_entry (page_of 0x7000) 0)
    × ((a : ℕ) → a ≢ slot → m' a ≡ tables a)
pmap-present_example =
    pmap-present 4096 0x7000 0x5000 0 tables top_present middle_present low_present

abbrev a_key : ℕ
a_key = 0x1E

to_ascii_a : to_ascii 0x1E ≡ some b'a'
unfolding to_ascii
to_ascii_a = refl

to_ascii_lem_example : (a_key ≡ a_key) × (a_key ≢ 0x1B) × (to_ascii 0x1B ≡ none)
to_ascii_lem_example =
    to_ascii_lem 0x1E 0x1E b'a' (omega arith) (omega arith) (λ e. absurd (omega arith)) to_ascii_a
      to_ascii_a

-- Both registers in service read as 4.
abbrev answers : PortLog → ℕ → ℕ
answers log port = 4

exception_handler_lem_example :
    let before =
      if in_service answers [] == 1 then asked answers [] else asked answers (asked answers []) in
    let irq = (in_service answers [] + 2 ^ 16 - 1) % 2 ^ 8 in
    (w : Vga) × (exception_handler answers 100 ([], full_screen)
      ≡ some (
        (pic1_cmd, pic_eoi_cmd) ∷ (if leb 8 irq then (pic2_cmd, pic_eoi_cmd) ∷ before else before),
        w,
      ))
    × Reported answers 100 [] full_screen w
exception_handler_lem_example = exception_handler_lem answers 100 [] full_screen
