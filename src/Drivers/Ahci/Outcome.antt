-- ===== src/Drivers/Ahci/Outcome.antt =====
-- What write and read of drivers/ahci/ahci.c return once the device has settled the command.
use ester.Prelude.{
  ℕ, zero, suc, ◌+◌, ◌-◌, ◌^◌, ◌<◌, ◌≡◌, true, false, arith, Bool, Option, some, ◌&&◌, ◌||◌, not,
  ◌==◌, if◌then◌else◌, Bool-cases, inl, inr, refl, ◌∙◌,
}
use ester.Drivers.Ahci.{
  Machine, port_is, port_clb, port_tfd, port_ci, has_bit, in_memory, find_cmdslot,
}
use ester.Drivers.Ahci.Transfer.{
  max_spin, wait_ready, wait_again, wait_done, complete, issue, read, write, read_command,
  write_command,
}

module _ {M : Type 0} (machine : Machine M) (port slot : ℕ) where
  -- A poll reads PxCI and PxIS.
  abbrev pub poll : M → M
  poll m = (machine.get (port + port_is) (machine.get (port + port_ci) m).1).1

  abbrev pub polled : ℕ → M → M
  polled zero m = m
  polled (suc k) m = polled k (poll m)

  -- The command has left PxCI.
  abbrev pub gone : M → Bool
  gone m = not (has_bit (machine.get (port + port_ci) m).0 slot)

  -- PxIS, read behind PxCI, has the task file error.
  abbrev pub failed : M → Bool
  failed m = has_bit (machine.get (port + port_is) (machine.get (port + port_ci) m).1).0 30

  -- Poll `k` is the first that sees the command gone or failed.
  pub record Settles (k : ℕ) (m : M) : Type 0 where
    pub pending : (j : ℕ) → j < k → (gone (polled j m) ≡ false) × (failed (polled j m) ≡ false)
    pub settled : (gone (polled k m) || failed (polled k m)) ≡ true

  later-Settles : {k : ℕ} {m : M} → Settles (suc k) m → Settles k (poll m)
  later-Settles s = record { pending = λ j h. s.pending (suc j) (omega arith); settled = s.settled }

  complete-settled :
      (k fuel : ℕ) (m : M)
      → k < fuel
      → Settles k m
      → complete machine fuel port slot m
        ≡ some (if gone (polled k m) && not (failed (polled k m)) then 0 else 1, poll (polled k m))
  unfolding complete wait_done
  complete-settled k zero m lt s = absurd (omega arith)
  complete-settled zero (suc fuel) m lt s = elim (Bool-cases (gone m)) [
    | inl is_gone ↦ elim (Bool-cases (failed m)) [
      | inl is_failed ↦ rw (is_gone, is_failed)
      | inr fine ↦ rw (is_gone, fine)
    ]
    | inr stays ↦
        let is_failed : failed m ≡ true = ground (arith, s.settled, stays) in rw (stays, is_failed)
  ]
  complete-settled (suc k) (suc fuel) m lt s =
      let (stays, fine) = s.pending 0 (omega arith) in
      rw (stays, fine, complete) (complete-settled k fuel (poll m) (omega arith) (later-Settles s))

  wait_ready-ready :
      (left : ℕ) (m : M)
      → (let tfd = (machine.get (port + port_tfd) m).0 in has_bit tfd 7 || has_bit tfd 3) ≡ false
      → wait_ready machine (suc left) port m ≡ (suc left, (machine.get (port + port_tfd) m).1)
  unfolding wait_ready
  wait_ready-ready left m ready = rw ready

  -- A command without an error, and the status of its poll.
  abbrev pub fine : M → Bool
  fine m = gone m && not (failed m)

  status_kept :
      (b : Bool) (kept lost : Option (ℕ × M))
      → (if (if b then 0 else 1) == 0 then kept else lost) ≡ (if b then kept else lost)
  status_kept true kept lost = refl
  status_kept false kept lost = refl

  either :
      (b : Bool) (m : M)
      → let kept : Option (ℕ × M) = some (0, m) in
        let lost : Option (ℕ × M) = some (1, m) in
        (if b then kept else lost) ≡ some (if b then 0 else 1, m)
  either true m = refl
  either false m = refl

  -- Behind the wait for the port, with all its rounds left.
  issue-settled :
      (k fuel : ℕ) (next : ℕ → M → Option (ℕ × M)) (m : M)
      → (let tfd = (machine.get (port + port_tfd) m).0 in has_bit tfd 7 || has_bit tfd 3) ≡ false
      → k < fuel
      → Settles k (machine.put (port + port_ci) (2 ^ slot) (machine.get (port + port_tfd) m).1)
      → let p =
          polled k (machine.put (port + port_ci) (2 ^ slot) (machine.get (port + port_tfd) m).1) in
        issue machine fuel port slot next m
        ≡ (if fine p then next max_spin (poll p) else some (1, poll p))
  unfolding issue
  issue-settled k fuel next m ready lt s =
      let sent = machine.put (port + port_ci) (2 ^ slot) (machine.get (port + port_tfd) m).1 in
      let p = polled k sent in
      rw (wait_ready-ready 999999 m ready, complete-settled k fuel sent lt s)
        (status_kept (fine p) (next max_spin (poll p)) (some (1, poll p)))

  module _ (startl starth count buf : ℕ) (m : M) where
    abbrev chosen : Option ℕ × M
    chosen = find_cmdslot machine port (machine.put (port + port_is) (2 ^ 32 - 1) m)

    -- The machine with the command in memory, and behind the write to PxCI.
    abbrev pub filled : M
    filled =
        let (clb, listed) = machine.get (port + port_clb) chosen.1 in
        in_memory machine (write_command slot clb startl starth count buf) listed

    abbrev pub issued : M
    issued = machine.put (port + port_ci) (2 ^ slot) (machine.get (port + port_tfd) filled).1

    -- Where find_cmdslot gives this slot, the port is ready when the command is in memory, and the
    -- device settles the command in one of the polls that the fuel allows: write ends, with status
    -- 0 when the first such poll sees the command gone without an error, and 1 otherwise.
    pub write-settled :
        (k fuel : ℕ)
        → chosen.0 ≡ some slot
        → (let tfd = (machine.get (port + port_tfd) filled).0 in has_bit tfd 7 || has_bit tfd 3)
          ≡ false
        → k < fuel
        → Settles k issued
        → write machine fuel port startl starth count buf m
          ≡ some (
            if gone (polled k issued) && not (failed (polled k issued)) then 0 else 1,
            poll (polled k issued),
          )
    unfolding write
    write-settled k fuel found ready lt s =
        rw (found, write)
          (issue-settled k fuel (λ left m'. some (0, m')) filled ready lt s
            ∙ either (fine (polled k issued)) (poll (polled k issued)))

    -- The same for read, whose command is in the first header.
    abbrev pub filled_read : M
    filled_read =
        let (clb, listed) = machine.get (port + port_clb) chosen.1 in
        in_memory machine (read_command clb startl starth count buf) listed

    abbrev pub issued_read : M
    issued_read =
        machine.put (port + port_ci) (2 ^ slot) (machine.get (port + port_tfd) filled_read).1

    wait_again-ready :
        (m' : M)
        → (let tfd = (machine.get (port + port_tfd) m').0 in has_bit tfd 7 || has_bit tfd 3) ≡ false
        → wait_again machine port max_spin m' ≡ some (0, (machine.get (port + port_tfd) m').1)
    unfolding wait_again
    wait_again-ready m' ready = rw (wait_ready-ready 999999 m' ready)

    -- Where find_cmdslot gives this slot, the port is ready when the command is in memory and again
    -- behind the poll that sees it settled, and the device settles the command in one of the polls
    -- that the fuel allows: read ends, with status 0 when the first such poll sees the command gone
    -- without an error, and 1 otherwise.
    pub read-settled :
        (k fuel : ℕ)
        → chosen.0 ≡ some slot
        → (let tfd = (machine.get (port + port_tfd) filled_read).0 in
            has_bit tfd 7 || has_bit tfd 3)
          ≡ false
        → (let tfd = (machine.get (port + port_tfd) (poll (polled k issued_read))).0 in
            has_bit tfd 7 || has_bit tfd 3)
          ≡ false
        → k < fuel
        → Settles k issued_read
        → let last = polled k issued_read in
          (m' : M) × (read machine fuel port startl starth count buf m
            ≡ some (if gone last && not (failed last) then 0 else 1, m'))
    unfolding read
    read-settled k fuel found ready again lt s =
        let settled = issue-settled k fuel (wait_again machine port) filled_read ready lt s in
        elim (Bool-cases (fine (polled k issued_read))) [
          | inl good ↦ (
            (machine.get (port + port_tfd) (poll (polled k issued_read))).1,
            rw (found, read, settled, good, wait_again-ready (poll (polled k issued_read)) again),
          )
          | inr bad ↦ (poll (polled k issued_read), rw (found, read, settled, bad))
        ]
