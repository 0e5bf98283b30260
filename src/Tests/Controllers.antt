-- ===== src/Tests/Controllers.antt =====
-- drivers/ahci/ahci.c over a small machine, and the search for the controller of pci/pci.c.
use ester.Prelude.{
  zero, suc, false, ◌&&◌, not, ◌/◌, ℕ, ◌+◌, ◌*◌, ◌%◌, ◌<◌, ◌≡◌, ◌⊎◌, refl, none, some, Cells, arith,
  ◌==◌, if◌then◌else◌,
}
use ester.Ext2.Layout.{get32}
use ester.Drivers.Ahci.{Machine, slot_loop, find_cmdslot, ahci_base, header_ctba, port_ci}
use ester.Drivers.Ahci.Slot.{shifted, slot_loop-lowest}
use ester.Drivers.Ahci.Transfer.{read, write, read_command}
use ester.Drivers.Ahci.Commands.{Asks, read_command-Asks}
use ester.Drivers.Ahci.Hung.{hung_refused}
use ester.Drivers.Ahci.Outcome.{
  Settles, gone, failed, poll, polled, issued, write-settled, issued_read, read-settled,
}

slot_loop-lowest_example :
    ((slot_loop 32 0 11 ≡ none) × ((j : ℕ) → j < 32 → shifted j 11 % 2 ≡ 1))
    ⊎ ((i : ℕ) × (slot_loop 32 0 11 ≡ some i)
        × (i < 32)
        × (shifted i 11 % 2 ≡ 0)
        × ((j : ℕ) → j < i → shifted j 11 % 2 ≡ 1))
slot_loop-lowest_example = slot_loop-lowest 11

-- The command list at AHCI_BASE; the tables of the first three headers are at 0x4A000.
abbrev command_list : Cells
command_list k = if k % 32 == 9 then 0xA0 else if k % 32 == 10 then 4 else 0

read_command-Asks_example :
    Asks
      (read_command ahci_base 70000 1 8 0x300000 command_list)
      ahci_base
      (get32 command_list (ahci_base + header_ctba))
      0xC8
      0
      70000
      8
      0x300000
      (8 * 512)
unfolding get32
read_command-Asks_example =
    read_command-Asks ahci_base 70000 1 8 0x300000 command_list (omega arith) (omega arith)
      (omega arith) (omega arith)

-- A machine that counts the commands, and whose registers all read 0x80.
abbrev Counting : Type 0
Counting = ℕ × Cells

abbrev counting : Machine Counting
counting = record {
  get = λ reg m. (0x80, m);
  put = λ reg x m. (if reg == port_ci then m.0 + 1 else m.0, m.1);
  memory = λ m. m.1;
  set_memory = λ c m. (m.0, c);
}

abbrev idle : Counting
idle = (0, command_list)

hung_refused_example :
    ((m' : Counting) × (read counting 9 0 70000 1 8 0x300000 idle ≡ some (1, m')) × (m'.0 ≡ 0))
    × ((m' : Counting) × (write counting 9 0 70000 1 8 0x300000 idle ≡ some (1, m')) × (m'.0 ≡ 0))
hung_refused_example =
    hung_refused counting 0 (λ m. m.0 ≡ 0) (λ m. refl) (λ reg m h. h) (λ c m h. h) (λ m h. h) 9
      70000 1 8 0x300000 idle refl

-- A machine whose PxCI reads as 1 three times after command 0, and whose other registers read 0.
abbrev Settling : Type 0
Settling = ℕ × Cells

abbrev settling : Machine Settling
settling = record {
  get = λ reg m. if reg == port_ci then (m.0 % 2, (m.0 / 2, m.1)) else (0, m);
  put = λ reg x m. if reg == port_ci then (7 * x, m.1) else m;
  memory = λ m. m.1;
  set_memory = λ c m. (m.0, c);
}

still_pending :
    (j : ℕ)
    → j < 3
    → let m = polled settling 0 0 j (issued settling 0 0 70000 1 3 0x300000 idle) in
      (gone settling 0 0 m ≡ false) × (failed settling 0 0 m ≡ false)
still_pending zero h = (refl, refl)
still_pending (suc zero) h = (refl, refl)
still_pending (suc (suc zero)) h = (refl, refl)
still_pending (suc (suc (suc j))) h = absurd (omega arith)

third_poll : Settles settling 0 0 3 (issued settling 0 0 70000 1 3 0x300000 idle)
third_poll = record { pending = still_pending; settled = refl }

write-settled_example :
    let p = polled settling 0 0 3 (issued settling 0 0 70000 1 3 0x300000 idle) in
    write settling 9 0 70000 1 3 0x300000 idle
    ≡ some
        (if gone settling 0 0 p && not (failed settling 0 0 p) then 0 else 1, poll settling 0 0 p)
unfolding find_cmdslot slot_loop
write-settled_example =
    write-settled settling 0 0 70000 1 3 0x300000 idle 3 9 refl refl (omega arith) third_poll

read_pending :
    (j : ℕ)
    → j < 3
    → let m = polled settling 0 0 j (issued_read settling 0 0 70000 1 3 0x300000 idle) in
      (gone settling 0 0 m ≡ false) × (failed settling 0 0 m ≡ false)
read_pending zero h = (refl, refl)
read_pending (suc zero) h = (refl, refl)
read_pending (suc (suc zero)) h = (refl, refl)
read_pending (suc (suc (suc j))) h = absurd (omega arith)

read_third_poll : Settles settling 0 0 3 (issued_read settling 0 0 70000 1 3 0x300000 idle)
read_third_poll = record { pending = read_pending; settled = refl }

read-settled_example :
    let last = polled settling 0 0 3 (issued_read settling 0 0 70000 1 3 0x300000 idle) in
    (m' : Settling) × (read settling 9 0 70000 1 3 0x300000 idle
      ≡ some (if gone settling 0 0 last && not (failed settling 0 0 last) then 0 else 1, m'))
unfolding find_cmdslot slot_loop
read-settled_example =
    read-settled settling 0 0 70000 1 3 0x300000 idle 3 9 refl refl refl (omega arith)
      read_third_poll
