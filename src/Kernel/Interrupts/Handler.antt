-- ===== src/Kernel/Interrupts/Handler.antt =====
-- The general handler of kernel/set_idt.c: its message and its acknowledgement.
use ester.Prelude.{
  ℕ, ◌+◌, ◌-◌, ◌%◌, ◌^◌, ◌<◌, ◌≡◌, ◌≢◌, ◌⊎◌, inl, inr, refl, true, false, some, Cells, arith, ◌∷◌,
  length, ◌==◌, leb, if◌then◌else◌,
}
use native.Mathlib.Decide.{ℕ_discrete}
use ester.Drivers.Vga.{Vga, black}
use ester.Drivers.Vga.Text.{print_each}
use ester.Drivers.Pic.{
  PortLog, pic_get_irq_reg, pic_get_isr, pic_send_eoi, pic1_cmd, pic2_cmd, pic_eoi_cmd, outb,
}
use ester.Kernel.Print.{lblue, print_char}
use ester.Kernel.Print.Shown.{IsNumeral}
use ester.Kernel.Print.Labelled.{labelled, printk-labelled}
use ester.Kernel.Interrupts.{vector_label, exception_handler}

module _ (inb : PortLog → ℕ → ℕ) where
  -- The register, as a set of requests in service.
  abbrev pub in_service : PortLog → ℕ
  in_service log = (pic_get_isr inb log).0

  abbrev pub asked : PortLog → PortLog
  asked log = (pic_get_isr inb log).1

  pic_get_isr-lt : (log : PortLog) → in_service log < 2 ^ 16
  unfolding pic_get_isr pic_get_irq_reg
  pic_get_isr-lt log = omega arith

  -- A quiet handler changes no screen; another one shows the label, a numeral and a newline.
  abbrev pub Reported : ℕ → PortLog → Vga → Vga → Type 0
  Reported local log v w =
      ((in_service log ≡ 1) × (w ≡ v))
      ⊎ ((in_service log ≢ 1)
          × (digits : Cells) × (n : ℕ) × IsNumeral digits local n (in_service (asked log))
          × (w
              ≡ print_char b'\n' (
                  print_each n local digits black lblue
                    (print_each (length vector_label) 0 (labelled vector_label) black lblue v))))

  acknowledged :
      (irq : ℕ) (log : PortLog)
      → pic_send_eoi irq log
        ≡ (pic1_cmd, pic_eoi_cmd) ∷ (if leb 8 irq then (pic2_cmd, pic_eoi_cmd) ∷ log else log)
  unfolding pic_send_eoi outb
  acknowledged irq log = ground arith

  -- exception_handler ends for every answer of the ports. When the register in service reads as 1
  -- the screen stays as it is; otherwise the register is read again, and the label, a numeral for
  -- the second reading and a newline are shown. Then the first controller is sent the end of
  -- interrupt, behind the second one when the first reading less 1, modulo 256, is at least 8.
  pub exception_handler_lem :
      (local : ℕ) (log : PortLog) (v : Vga)
      → let before = if in_service log == 1 then asked log else asked (asked log) in
        let irq = (in_service log + 2 ^ 16 - 1) % 2 ^ 8 in
        (w : Vga) × (exception_handler inb local (log, v)
          ≡ some (
            (pic1_cmd, pic_eoi_cmd)
                ∷ (if leb 8 irq then (pic2_cmd, pic_eoi_cmd) ∷ before else before),
            w,
          ))
        × Reported local log v w
  unfolding exception_handler
  exception_handler_lem local log v = elim (ℕ_discrete (in_service log) 1) [
    | yes quiet ↦
        let one : (in_service log == 1) ≡ true = ground arith in
        (v, rw (one, acknowledged) refl, inl (quiet, refl))
    | no other ↦
        let one : (in_service log == 1) ≡ false = ground arith in
        let (digits, n, numeral, printed) =
          printk-labelled vector_label local (in_service (asked log)) v refl (omega arith)
            (omega (arith, pic_get_isr-lt (asked log))) in
        (
          print_char b'\n' (
              print_each n local digits black lblue
                (print_each (length vector_label) 0 (labelled vector_label) black lblue v)),
          rw (one, printed, acknowledged) refl,
          inr (other, digits, n, numeral, refl),
        )
  ]
