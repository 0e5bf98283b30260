-- ===== src/Drivers/Keyboard/Handler.antt =====
-- ps2_keyboard_interrupt_handler of drivers/ps2_keyboard/ps2_keyboard.c between its assembly
-- instructions: the translated scan code goes to the screen, and the interrupt is acknowledged.
use ester.Prelude.{ℕ, [], ◌∷◌, Option, some, Cells, ◌==◌, if◌then◌else◌, ◌>>=◌}
use ester.Kernel.Print.{printk}
use ester.Drivers.Vga.{Vga}
use ester.Drivers.Pic.{PortLog, pic_send_eoi}
use ester.Drivers.Keyboard.{Controller, to_ascii}

-- The controller, the screen, and what was sent to the interrupt controllers.
pub record Desk (D : Type 0) : Type 0 where
  pub keyboard : D
  pub screen : Vga
  pub pic : PortLog

-- "%c"
abbrev pub char_format : Cells
char_format i = if i == 0 then b'%' else if i == 1 then b'c' else 0

module _ {D : Type 0} (ports : Controller D) where
  unfoldable pub read_scan_code : D → ℕ × D
  read_scan_code d = ports.inb 0x60 d

  -- `local` is the address of an array that printing a character does not use.
  unfoldable pub interrupt_handler : ℕ → Desk D → Option (Desk D)
  interrupt_handler local s = do
    let (scan_code, keyboard) = read_scan_code s.keyboard
    c ← to_ascii scan_code
    let shown = printk char_format local 0 (c ∷ []) s.screen
    screen ← if c == 0 then some s.screen else shown
    some (record { keyboard = keyboard; screen = screen; pic = pic_send_eoi 1 s.pic })
