-- ===== src/Kernel/Interrupts/Descriptors.antt =====
-- The address of a handler can be read back from its descriptor, for all vectors of idt_init.
use ester.Prelude.{
  ℕ, zero, suc, ◌+◌, ◌*◌, ◌^◌, ◌≤◌, ◌<◌, ◌≡◌, ◌≢◌, arith, Cells, ltb, leb, ◌&&◌, if◌then◌else◌,
}
use ester.Kernel.Interrupts.{
  IdtEntry, IdtTable, idt_set_descriptor, register_interrupt_handler, idt_loop, idt_init,
}

-- The address as the processor puts it together.
abbrev pub handler_of : IdtEntry → ℕ
handler_of e = e.isr_low + 2 ^ 16 * e.isr_mid + 2 ^ 32 * e.isr_high

abbrev pub IsGate : ℕ → ℕ → ℕ → IdtEntry → Type 0
IsGate cs isr flags e =
    (handler_of e ≡ isr)
    × (e.kernel_cs ≡ cs)
    × (e.ist ≡ 0)
    × (e.attributes ≡ flags)
    × (e.reserved ≡ 0)

module _ (cs : ℕ) where
  -- After register_interrupt_handler with a 64-bit address and a 16-bit code segment, the
  -- descriptor of the vector holds that address, the segment, and the attributes of an interrupt
  -- gate, and every other descriptor is as it was.
  pub register-IsGate :
      (vector addr : ℕ) (idt : IdtTable)
      → cs < 2 ^ 16
      → addr < 2 ^ 64
      → IsGate cs addr 0x8E (register_interrupt_handler cs vector addr idt vector)
        × ((v : ℕ) → v ≢ vector → register_interrupt_handler cs vector addr idt v ≡ idt v)
  unfolding register_interrupt_handler idt_set_descriptor
  register-IsGate vector addr idt hc ha =
      ((ground arith, ground arith, ground arith, ground arith, ground arith), λ v h. ground arith)

  idt_loop-get :
      (left from : ℕ) (stubs : Cells) (idt : IdtTable) (v : ℕ)
      → idt_loop cs left from stubs idt v ≡ (
          if leb from v && ltb v (from + left)
          then register_interrupt_handler cs v (stubs v) idt v
          else idt v)
  unfolding idt_loop register_interrupt_handler idt_set_descriptor
  idt_loop-get zero from stubs idt v = ground arith
  idt_loop-get (suc left) from stubs idt v = ground (
    arith,
    idt_loop-get left (from + 1) stubs (idt_set_descriptor cs from (stubs from) 0x8E idt) v,
  )

  -- idt_init gives each vector below 47 an interrupt gate to its stub and leaves the descriptors
  -- from 47 on as they were.
  pub idt_init-IsGate :
      (address : ℕ) (stubs : Cells) (idt : IdtTable) (v : ℕ)
      → cs < 2 ^ 16
      → ((k : ℕ) → stubs k < 2 ^ 64)
      → v < 47
      → IsGate cs (stubs v) 0x8E ((idt_init cs address stubs idt).1 v)
        × ((k : ℕ) → 47 ≤ k → (idt_init cs address stubs idt).1 k ≡ idt k)
  unfolding idt_init
  idt_init-IsGate address stubs idt v hc hs hv =
      let here : idt_loop cs 47 0 stubs idt v ≡ register_interrupt_handler cs v (stubs v) idt v =
        ground (arith, idt_loop-get 47 0 stubs idt v) in
      (
        rw here (register-IsGate v (stubs v) idt hc (hs v)).0,
        λ k h. ground (arith, idt_loop-get 47 0 stubs idt k),
      )
