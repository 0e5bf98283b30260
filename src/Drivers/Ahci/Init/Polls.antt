-- ===== src/Drivers/Ahci/Init/Polls.antt =====
-- The waiting loops of drivers/ahci/ahci.c on a register whose bits get clear.
use ester.Prelude.{ℕ, zero, suc, ◌+◌, ◌≤◌, ◌<◌, ◌≡◌, refl, false, Bool-cases, inl, inr, some, arith}
use ester.Drivers.Ahci.{Machine, has_bit, port_cmd, wait_clear, wait_stopped}

module _ {M : Type 0} (machine : Machine M) where
  -- The machine after `n` reads of the register.
  abbrev pub reads : ℕ → ℕ → M → M
  reads reg zero m = m
  reads reg (suc n) m = reads reg n (machine.get reg m).1

  -- From this machine on, after `t` reads of the register the bit is read as clear, and stays so.
  abbrev pub Clears : ℕ → ℕ → ℕ → M → Type 0
  Clears reg k t m = (n : ℕ) → t ≤ n → has_bit (machine.get reg (reads reg n m)).0 k ≡ false

  reads-suc : (reg n : ℕ) (m : M) → (machine.get reg (reads reg n m)).1 ≡ reads reg (suc n) m
  reads-suc reg zero m = refl
  reads-suc reg (suc n) m = reads-suc reg n (machine.get reg m).1

  wait_clear-from :
      (left reg k t n : ℕ) (m : M)
      → Clears reg k t m
      → t ≤ n + left
      → (n' : ℕ) × (wait_clear machine (suc left) reg k (reads reg n m) ≡ some (reads reg n' m))
  unfolding wait_clear
  wait_clear-from zero reg k t n m clears enough =
      (suc n, rw (clears n (omega arith), reads-suc reg n m))
  wait_clear-from (suc left) reg k t n m clears enough =
      elim (Bool-cases (has_bit (machine.get reg (reads reg n m)).0 k)) [
        | inr clear ↦ (suc n, rw (clear, reads-suc reg n m))
        | inl set ↦
            let (n', e) = wait_clear-from left reg k t (suc n) m clears (omega arith) in
            (n', rw (set, reads-suc reg n m, wait_clear) e)
      ]

  -- A wait for one bit with more rounds than the reads after which it is clear.
  pub wait_clear-ends :
      (fuel reg k t : ℕ) (m : M)
      → Clears reg k t m
      → t < fuel
      → (n : ℕ) × (wait_clear machine fuel reg k m ≡ some (reads reg n m))
  wait_clear-ends zero reg k t m clears enough = absurd (omega arith)
  wait_clear-ends (suc fuel) reg k t m clears enough =
      wait_clear-from fuel reg k t 0 m clears (omega arith)

  wait_stopped-from :
      (left port t n : ℕ) (m : M)
      → Clears (port + port_cmd) 14 t m
      → Clears (port + port_cmd) 15 t m
      → t ≤ n + left
      → (n' : ℕ) × (wait_stopped machine (suc left) port (reads (port + port_cmd) n m)
          ≡ some (reads (port + port_cmd) n' m))
  unfolding wait_stopped
  wait_stopped-from zero port t n m fr cr enough =
      let reg = port + port_cmd in
      (
        suc (suc n),
        rw (
          fr n (omega arith),
          reads-suc reg n m,
          cr (suc n) (omega arith),
          reads-suc reg (suc n) m,
        ),
      )
  wait_stopped-from (suc left) port t n m fr cr enough =
      let reg = port + port_cmd in
      elim (Bool-cases (has_bit (machine.get reg (reads reg n m)).0 14)) [
        | inl set ↦
            let (n', e) = wait_stopped-from left port t (suc n) m fr cr (omega arith) in
            (n', rw (set, reads-suc reg n m, wait_stopped) e)
        | inr clear ↦ elim (Bool-cases (has_bit (machine.get reg (reads reg (suc n) m)).0 15)) [
          | inl set ↦
              let (n', e) = wait_stopped-from left port t (suc (suc n)) m fr cr (omega arith) in
              (n', rw (clear, reads-suc reg n m, set, reads-suc reg (suc n) m, wait_stopped) e)
          | inr stopped ↦
              (suc (suc n), rw (clear, reads-suc reg n m, stopped, reads-suc reg (suc n) m))
        ]
      ]

  pub wait_stopped-ends :
      (fuel port t : ℕ) (m : M)
      → Clears (port + port_cmd) 14 t m
      → Clears (port + port_cmd) 15 t m
      → t < fuel
      → (n : ℕ) × (wait_stopped machine fuel port m ≡ some (reads (port + port_cmd) n m))
  wait_stopped-ends zero port t m fr cr enough = absurd (omega arith)
  wait_stopped-ends (suc fuel) port t m fr cr enough =
      wait_stopped-from fuel port t 0 m fr cr (omega arith)
