-- ===== src/Drivers/Pic.antt =====
-- drivers/8259_pic/8259_pic.c: the bytes that go to the two controllers, as a log with the newest
-- first. What a port answers is a parameter, which may depend on what was sent before.
pub mod Setup
use ester.Prelude.{ℕ, ◌+◌, ◌*◌, ◌%◌, ◌^◌, List, ◌∷◌, leb, if◌then◌else◌, bit_or}

abbrev pub PortLog : Type 0
PortLog = List (ℕ × ℕ)

abbrev pub pic1_cmd : ℕ
pic1_cmd = 0x20

abbrev pub pic1_data : ℕ
pic1_data = 0x21

abbrev pub pic2_cmd : ℕ
pic2_cmd = 0xA0

abbrev pub pic2_data : ℕ
pic2_data = 0xA1

abbrev pub pic_eoi_cmd : ℕ
pic_eoi_cmd = 0x20

abbrev pub pic_read_irr : ℕ
pic_read_irr = 0x0A

abbrev pub pic_read_isr : ℕ
pic_read_isr = 0x0B

-- ICW1_INIT | ICW1_ICW4
abbrev pub icw1 : ℕ
icw1 = bit_or 0x10 0x01

abbrev pub icw4_8086 : ℕ
icw4_8086 = 0x01

unfoldable pub outb : ℕ → ℕ → PortLog → PortLog
outb port value log = (port, value) ∷ log

unfoldable pub pic_disable : PortLog → PortLog
pic_disable log = outb pic2_data 0xFF (outb pic1_data 0xFF log)

unfoldable pub pic_send_eoi : ℕ → PortLog → PortLog
pic_send_eoi irq log =
    outb pic1_cmd pic_eoi_cmd (if leb 8 irq then outb pic2_cmd pic_eoi_cmd log else log)

module _ (inb : PortLog → ℕ → ℕ) where
  unfoldable pub pic_get_irq_reg : ℕ → PortLog → ℕ × PortLog
  pic_get_irq_reg ocw3 log =
      let asked = outb pic2_cmd ocw3 (outb pic1_cmd ocw3 log) in
      (bit_or (inb asked pic2_cmd * 2 ^ 8) (inb asked pic1_cmd) % 2 ^ 16, asked)

  unfoldable pub pic_get_irr : PortLog → ℕ × PortLog
  pic_get_irr log = pic_get_irq_reg pic_read_irr log

  unfoldable pub pic_get_isr : PortLog → ℕ × PortLog
  pic_get_isr log = pic_get_irq_reg pic_read_isr log

  -- The masks are read first and written back last.
  unfoldable pub pic_init : PortLog → PortLog
  pic_init log =
      let a1 = inb log pic1_data in
      let a2 = inb log pic2_data in
      let cascade = outb pic2_cmd icw1 (outb pic1_cmd icw1 log) in
      let offsets = outb pic2_data 0x28 (outb pic1_data 0x20 cascade) in
      let chained = outb pic2_data 2 (outb pic1_data 4 offsets) in
      let mode = outb pic2_data icw4_8086 (outb pic1_data icw4_8086 chained) in
      outb pic2_data a2 (outb pic1_data a1 mode)
