-- ===== src/Drivers/Ahci/Transfer.antt =====
-- drivers/ahci/ahci.c: reading and writing sectors, and bringing the controller up. A command is
-- built in the shared memory and then issued. `none` is a controller that never answers in the
-- rounds that the fuel gives to a loop without a bound of its own.
use ester.Prelude.{
  ℕ, zero, suc, ◌+◌, ◌-◌, ◌*◌, ◌/◌, ◌%◌, ◌^◌, Option, none, some, Cells, ◌==◌, ◌||◌, not,
  if◌then◌else◌, ◌>>=◌, update,
}
use ester.Kernel.Mem.{memset}
use ester.Ext2.Layout.{get16, get32, set16, set32}
use ester.Drivers.Ahci.{
  Machine, port_is, port_clb, port_tfd, port_ci, hba_ghc, hba_ports, sizeof_cmd_header,
  header_prdtl, header_ctba, has_bit, with_bit, without_bit, change, ahci_probe_port, wait_clear,
  in_memory, port_rebase, find_cmdslot,
}

abbrev pub sizeof_cmd_tbl : ℕ
sizeof_cmd_tbl = 144

abbrev pub sizeof_prdt_entry : ℕ
sizeof_prdt_entry = 16

-- The offset of `prdt_entry` in HBA_CMD_TBL.
abbrev pub prdt_entry : ℕ
prdt_entry = 128

abbrev pub max_spin : ℕ
max_spin = 1000000

-- `(uint16_t)((count-1)>>4) + 1`
abbrev pub prdtl_of : ℕ → ℕ
prdtl_of count = ((count + 2 ^ 32 - 1) % 2 ^ 32 / 16 % 2 ^ 16 + 1) % 2 ^ 16

-- cfl, w and prdtl of the command header at `at`.
unfoldable pub header_command : ℕ → ℕ → ℕ → Cells → Cells
header_command at w count m =
    let sized = m at / 2 ^ 5 * 2 ^ 5 + 20 / 4 in
    let first = if w == 0 then without_bit sized 6 else with_bit sized 6 in
    set16 (update m at first) (at + header_prdtl) (prdtl_of count)

-- dbc and i of the last word of a descriptor.
abbrev pub described : ℕ → ℕ → ℕ
described word dbc = with_bit (word / 2 ^ 22 * 2 ^ 22 + dbc % 2 ^ 22) 31

-- One descriptor: of read, which sets no dbau, and of write.
unfoldable pub read_entry : ℕ → ℕ → ℕ → Cells → Cells
read_entry e buf dbc m =
    let placed = set32 m e (buf % 2 ^ 32) in
    set32 placed (e + 12) (described (get32 placed (e + 12)) dbc)

unfoldable pub write_entry : ℕ → ℕ → ℕ → Cells → Cells
write_entry e buf dbc m =
    let placed = set32 (set32 m e (buf % 2 ^ 32)) (e + 4) (buf / 2 ^ 32 % 2 ^ 32) in
    set32 placed (e + 12) (described (get32 placed (e + 12)) dbc)

-- The loop over all descriptors but the last, which follows it; the sectors that are left over go
-- into the last and into the command. Descriptor i is at `e`.
unfoldable pub read_entries : ℕ → ℕ → ℕ → ℕ → Cells → ℕ × Cells
read_entries zero e buf count m =
    (count, read_entry e buf ((count * 2 ^ 9 % 2 ^ 32 + 2 ^ 32 - 1) % 2 ^ 32) m)
read_entries (suc left) e buf count m =
    read_entries left (e + sizeof_prdt_entry) ((buf + 4096) % 2 ^ 64)
      ((count + 2 ^ 32 - 16) % 2 ^ 32) (read_entry e buf (8 * 1024 - 1) m)

unfoldable pub write_entries : ℕ → ℕ → ℕ → ℕ → Cells → ℕ × Cells
write_entries zero e buf count m =
    (count, write_entry e buf ((count * 512 % 2 ^ 32 % 4096 + 2 ^ 32 - 1) % 2 ^ 32) m)
write_entries (suc left) e buf count m =
    write_entries left (e + sizeof_prdt_entry) ((buf + 4096) % 2 ^ 64)
      ((count + 2 ^ 32 - 16) % 2 ^ 32) (write_entry e buf (4096 - 1) m)

-- The command FIS at the start of the command table; read also sets `control`.
unfoldable pub command_fis : ℕ → ℕ → ℕ → ℕ → ℕ → Cells → Cells
command_fis at command startl starth count m =
    let typed = update m at 0x27 in
    let flagged = update typed (at + 1) (with_bit (typed (at + 1)) 7) in
    let commanded = update flagged (at + 2) command in
    let lba0 = update commanded (at + 4) (startl % 2 ^ 8) in
    let lba1 = update lba0 (at + 5) (startl / 2 ^ 8 % 2 ^ 8) in
    let lba2 = update lba1 (at + 6) (startl / 2 ^ 16 % 2 ^ 8) in
    let device = update lba2 (at + 7) (2 ^ 6) in
    let lba3 = update device (at + 8) (startl / 2 ^ 24 % 2 ^ 8) in
    let lba4 = update lba3 (at + 9) (starth % 2 ^ 8) in
    let lba5 = update lba4 (at + 10) (starth / 2 ^ 8 % 2 ^ 8) in
    let countl = update lba5 (at + 12) (count % 2 ^ 8) in
    update countl (at + 13) (count / 2 ^ 8 % 2 ^ 8)

-- The command in memory. read uses the first command header whatever the slot; the length of the
-- descriptor table is read again behind the memset.
unfoldable pub read_command : ℕ → ℕ → ℕ → ℕ → ℕ → Cells → Cells
read_command clb startl starth count buf m =
    let headed = header_command clb 0 count m in
    let tbl = get32 headed (clb + header_ctba) in
    let cleared =
      memset tbl 0 (sizeof_cmd_tbl + get16 headed (clb + header_prdtl) * sizeof_prdt_entry)
        headed in
    let (last_count, described) =
      read_entries (get16 cleared (clb + header_prdtl) - 1) (tbl + prdt_entry) buf count cleared in
    update (command_fis tbl 0xC8 startl starth last_count described) (tbl + 15) 0x08

unfoldable pub write_command : ℕ → ℕ → ℕ → ℕ → ℕ → ℕ → Cells → Cells
write_command slot clb startl starth count buf m =
    let at = clb + slot * sizeof_cmd_header in
    let headed = header_command at 1 count m in
    let tbl = get32 headed (at + header_ctba) in
    let cleared =
      memset tbl 0
        (sizeof_cmd_tbl - sizeof_prdt_entry + get16 headed (at + header_prdtl) * sizeof_prdt_entry)
        headed in
    let (last_count, described) =
      write_entries (get16 cleared (at + header_prdtl) - 1) (tbl + prdt_entry) buf count cleared in
    command_fis tbl 0x35 startl starth last_count described

module _ {M : Type 0} (machine : Machine M) where
  -- Spin while the port is busy: the rounds that are left of `left`. A port is hung when no round
  -- is left, even if it is ready by then.
  unfoldable pub wait_ready : ℕ → ℕ → M → ℕ × M
  wait_ready zero port m = (0, (machine.get (port + port_tfd) m).1)
  wait_ready (suc left) port m =
      let (tfd, m') = machine.get (port + port_tfd) m in
      let rest = wait_ready left port m' in
      if has_bit tfd 7 || has_bit tfd 3 then rest else (suc left, m')

  -- Wait until the command of the slot has left the register, or the port reports an error.
  unfoldable pub wait_done : ℕ → ℕ → ℕ → M → Option (ℕ × M)
  wait_done zero port slot m = none
  wait_done (suc fuel) port slot m =
      let (ci, m1) = machine.get (port + port_ci) m in
      let (status, m2) = machine.get (port + port_is) m1 in
      let rest = wait_done fuel port slot m2 in
      if not (has_bit ci slot)
      then some (0, m1)
      else if has_bit status 30
      then some (1, m2)
      else rest

  -- The completion of an issued command, and the test for an error behind it.
  unfoldable pub complete : ℕ → ℕ → ℕ → M → Option (ℕ × M)
  complete fuel port slot m = do
    (failed, m1) ← wait_done fuel port slot m
    let (status, m2) = machine.get (port + port_is) m1
    some (if not (failed == 0) then (1, m1) else if has_bit status 30 then (1, m2) else (0, m2))

  -- Issue the command unless the port is hung. `k` goes on with the rounds that are left.
  unfoldable pub issue : ℕ → ℕ → ℕ → (ℕ → M → Option (ℕ × M)) → M → Option (ℕ × M)
  issue fuel port slot k m =
      let (left, m1) = wait_ready max_spin port m in
      let issued = (do
        (failed, m2) ← complete fuel port slot (machine.put (port + port_ci) (2 ^ slot) m1)
        let rest = k left m2
        if failed == 0 then rest else some (1, m2)) in
      if left == 0 then some (1, m1) else issued

  -- read waits again for the port, with the rounds that the first wait has left.
  unfoldable pub wait_again : ℕ → ℕ → M → Option (ℕ × M)
  wait_again port left m =
      let (left', m') = wait_ready left port m in some (if left' == 0 then (1, m') else (0, m'))

  unfoldable pub read : ℕ → ℕ → ℕ → ℕ → ℕ → ℕ → M → Option (ℕ × M)
  read fuel port startl starth count buf m =
      let (slot, m1) = find_cmdslot machine port (machine.put (port + port_is) (2 ^ 32 - 1) m) in
      let (clb, m2) = machine.get (port + port_clb) m1 in
      elim slot [
        | none ↦ some (1, m1)
        | some slot ↦
            issue fuel port slot (wait_again port)
              (in_memory machine (read_command clb startl starth count buf) m2)
      ]

  unfoldable pub write : ℕ → ℕ → ℕ → ℕ → ℕ → ℕ → M → Option (ℕ × M)
  write fuel port startl starth count buf m =
      let (slot, m1) = find_cmdslot machine port (machine.put (port + port_is) (2 ^ 32 - 1) m) in
      let (clb, m2) = machine.get (port + port_clb) m1 in
      elim slot [
        | none ↦ some (1, m1)
        | some slot ↦
            issue fuel port slot (λ left m'. some (0, m'))
              (in_memory machine (write_command slot clb startl starth count buf) m2)
      ]

  -- ahci_init behind the search for the controller and the mapping of its page: reset, enable,
  -- look at the ports, and set up the first one.
  unfoldable pub ahci_start : ℕ → ℕ → M → Option M
  ahci_start fuel abar m = do
    reset ←
        wait_clear machine fuel (abar + hba_ghc) 0
          (change machine (abar + hba_ghc) (λ x. with_bit x 0) m)
    let enabled = change machine (abar + hba_ghc) (λ x. with_bit (with_bit x 1) 31) reset
    port_rebase machine fuel (abar + hba_ports) 0 (ahci_probe_port machine abar enabled)

  -- Both use the first port, whatever `port_index`. `abar` is `hba_mem_ptr`.
  unfoldable pub ahci_write : ℕ → ℕ → ℕ → ℕ → ℕ → ℕ → M → Option (ℕ × M)
  ahci_write fuel abar port_index lba count buf m =
      write fuel (abar + hba_ports) (lba % 2 ^ 32) (lba / 2 ^ 32 % 2 ^ 32) count buf m

  unfoldable pub ahci_read : ℕ → ℕ → ℕ → ℕ → ℕ → ℕ → M → Option (ℕ × M)
  ahci_read fuel abar port_index lba count buf m =
      read fuel (abar + hba_ports) (lba % 2 ^ 32) (lba / 2 ^ 32 % 2 ^ 32) count buf m
