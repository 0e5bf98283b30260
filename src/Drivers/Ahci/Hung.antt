-- ===== src/Drivers/Ahci/Hung.antt =====
-- read and write of drivers/ahci/ahci.c on a port that stays busy.
use ester.Prelude.{
  ℕ, zero, suc, ◌+◌, ◌-◌, ◌^◌, ◌≡◌, refl, true, Option, some, ◌||◌, Option-cases, inl, inr, Cells,
}
use ester.Drivers.Ahci.{Machine, port_is, port_tfd, has_bit, in_memory, find_cmdslot}
use ester.Drivers.Ahci.Transfer.{wait_ready, issue, max_spin, read, write}

module _ {M : Type 0} (machine : Machine M) (port : ℕ) (P : M → Type 0)
    (busy : (m : M)
      → let tfd = (machine.get (port + port_tfd) m).0 in (has_bit tfd 7 || has_bit tfd 3) ≡ true)
    (get_keeps : (reg : ℕ) (m : M) → P m → P (machine.get reg m).1)
    (memory_keeps : (c : Cells) (m : M) → P m → P (machine.set_memory c m))
    (is_keeps : (m : M) → P m → P (machine.put (port + port_is) (2 ^ 32 - 1) m)) where
  wait_ready-busy :
      (left : ℕ) (m : M)
      → P m
      → ((wait_ready machine left port m).0 ≡ 0) × P (wait_ready machine left port m).1
  unfolding wait_ready
  wait_ready-busy zero m h = (refl, get_keeps (port + port_tfd) m h)
  wait_ready-busy (suc left) m h =
      rw (busy m)
        (wait_ready-busy left (machine.get (port + port_tfd) m).1 (get_keeps (port + port_tfd) m h))

  issue-busy :
      (fuel slot : ℕ) (k : ℕ → M → Option (ℕ × M)) (m : M)
      → P m
      → (m' : M) × (issue machine fuel port slot k m ≡ some (1, m')) × P m'
  unfolding issue
  issue-busy fuel slot k m h =
      let (hung, kept) = wait_ready-busy max_spin m h in
      ((wait_ready machine max_spin port m).1, rw hung, kept)

  slot-keeps : (m : M) → P m → P (find_cmdslot machine port m).1
  unfolding find_cmdslot
  slot-keeps m h = get_keeps _ _ (get_keeps _ m h)

  memory-keeps : (f : Cells → Cells) (m : M) → P m → P (in_memory machine f m)
  unfolding in_memory
  memory-keeps f m h = memory_keeps _ m h

  -- Where the port reads as busy in every state: read and write return 1, for any sectors, buffer
  -- and fuel, and whatever holds of the machine before, and is kept by reading registers, by
  -- changing the memory and by clearing PxIS, still holds; so no command was issued.
  pub hung_refused :
      (fuel startl starth count buf : ℕ) (m : M)
      → P m
      → ((m' : M) × (read machine fuel port startl starth count buf m ≡ some (1, m')) × P m')
        × ((m' : M) × (write machine fuel port startl starth count buf m ≡ some (1, m')) × P m')
  unfolding read write
  hung_refused fuel startl starth count buf m h =
      let begun = machine.put (port + port_is) (2 ^ 32 - 1) m in
      let kept = slot-keeps begun (is_keeps m h) in
      elim (Option-cases (find_cmdslot machine port begun).0) [
        | inl full ↦ (
          ((find_cmdslot machine port begun).1, rw (full, read), kept),
          ((find_cmdslot machine port begun).1, rw (full, write), kept),
        )
        | inr (slot, found) ↦ (
          rw (found, read) (issue-busy fuel slot _ _ (memory-keeps _ _ (get_keeps _ _ kept))),
          rw (found, write) (issue-busy fuel slot _ _ (memory-keeps _ _ (get_keeps _ _ kept))),
        )
      ]
