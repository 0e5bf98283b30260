-- ===== src/Kernel/Interrupts.antt =====
-- kernel/set_idt.c: the interrupt descriptor table. Loading it, and the stubs, are assembly; the
-- table of stubs is a parameter. `&` with a mask of 16 or 32 ones is the remainder.
pub mod Descriptors
pub mod Handler
use ester.Prelude.{
  ℕ, zero, suc, ◌+◌, ◌-◌, ◌*◌, ◌/◌, ◌%◌, ◌^◌, Cells, List, [], ◌∷◌, Option, some, ◌==◌, not,
  if◌then◌else◌, ◌>>=◌,
}
use ester.Kernel.Print.{printk}
use ester.Kernel.Print.Labelled.{labelled}
use ester.Drivers.Vga.{Vga}
use ester.Drivers.Pic.{PortLog, pic_get_isr, pic_send_eoi}

-- idt_entry_t.
pub record IdtEntry : Type 0 where
  pub isr_low : ℕ
  pub kernel_cs : ℕ
  pub ist : ℕ
  pub attributes : ℕ
  pub isr_mid : ℕ
  pub isr_high : ℕ
  pub reserved : ℕ

abbrev pub IdtTable : Type 0
IdtTable = ℕ → IdtEntry

abbrev pub sizeof_idt_entry : ℕ
sizeof_idt_entry = 16

abbrev pub idt_max_descriptors : ℕ
idt_max_descriptors = 256

-- idtr_t.
pub record Idtr : Type 0 where
  pub limit : ℕ
  pub base : ℕ

module _ (gdt_offset_kernel_code : ℕ) where
  unfoldable pub idt_set_descriptor : ℕ → ℕ → ℕ → IdtTable → IdtTable
  idt_set_descriptor vector isr flags idt v =
      if v == vector
      then (record {
        isr_low = isr % 2 ^ 16;
        kernel_cs = gdt_offset_kernel_code % 2 ^ 16;
        ist = 0;
        attributes = flags;
        isr_mid = isr / 2 ^ 16 % 2 ^ 16;
        isr_high = isr / 2 ^ 32 % 2 ^ 32;
        reserved = 0;
      })
      else idt v

  unfoldable pub register_interrupt_handler : ℕ → ℕ → IdtTable → IdtTable
  register_interrupt_handler vector addr idt = idt_set_descriptor vector addr 0x8E idt

  -- The loop over the vectors from `vector` on, with `left` rounds left.
  unfoldable pub idt_loop : ℕ → ℕ → Cells → IdtTable → IdtTable
  idt_loop zero vector isr_stub_table idt = idt
  idt_loop (suc left) vector isr_stub_table idt =
      idt_loop left (vector + 1) isr_stub_table
        (idt_set_descriptor vector (isr_stub_table vector) 0x8E idt)

  -- `address` is that of `idt`.
  unfoldable pub idt_init : ℕ → Cells → IdtTable → Idtr × IdtTable
  idt_init address isr_stub_table idt = (
    record {
      limit = sizeof_idt_entry % 2 ^ 16 * (idt_max_descriptors - 1) % 2 ^ 16;
      base = address;
    },
    idt_loop 47 0 isr_stub_table idt,
  )

-- "VECTOR: %d\n"
abbrev pub vector_label : List ℕ
vector_label = b'V' ∷ b'E' ∷ b'C' ∷ b'T' ∷ b'O' ∷ b'R' ∷ b':' ∷ b' ' ∷ []

-- The general handler: the ports and the screen. The register is read again for the message, whose
-- digits are built at the address `local`.
unfoldable pub exception_handler : (PortLog → ℕ → ℕ) → ℕ → PortLog × Vga → Option (PortLog × Vga)
exception_handler inb local (log, screen) =
    let (vector, asked) = pic_get_isr inb log in
    let (again, asked_again) = pic_get_isr inb asked in
    let irq = (vector + 2 ^ 16 - 1) % 2 ^ 8 in
    let printed = printk (labelled vector_label) local 0 (again ∷ []) screen >>= λ shown.
    some (pic_send_eoi irq asked_again, shown) in
    if not (vector == 1) then printed else some (pic_send_eoi irq asked, screen)
