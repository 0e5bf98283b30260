-- ===== src/Drivers/Ahci.antt =====
-- drivers/ahci/ahci.c: the ports of the controller and the command slots. The machine is a
-- parameter: 32-bit registers by their address, whose reading and writing may have effects, and
-- the memory that the controller shares. A test or change of one bit is written with `/` and `%`.
pub mod Slot
pub mod Transfer
pub mod Encoding
pub mod Commands
pub mod Hung
pub mod Outcome
pub mod Tables
pub mod Init
use ester.Prelude.{
  ℕ, zero, suc, ◌+◌, ◌-◌, ◌*◌, ◌/◌, ◌%◌, ◌^◌, Option, none, some, Cells, Bool, ◌==◌, ◌||◌, not,
  if◌then◌else◌, ◌>>=◌, bit_or,
}
use ester.Kernel.Mem.{memset}
use ester.Ext2.Layout.{set16, set32}

pub record Machine (M : Type 0) : Type 0 where
  pub get : ℕ → M → ℕ × M
  pub put : ℕ → ℕ → M → M
  pub memory : M → Cells
  pub set_memory : Cells → M → M

-- Offsets of HBA_PORT and HBA_MEM.
abbrev pub port_clb : ℕ
port_clb = 0x00

abbrev pub port_clbu : ℕ
port_clbu = 0x04

abbrev pub port_fb : ℕ
port_fb = 0x08

abbrev pub port_fbu : ℕ
port_fbu = 0x0C

abbrev pub port_is : ℕ
port_is = 0x10

abbrev pub port_cmd : ℕ
port_cmd = 0x18

abbrev pub port_tfd : ℕ
port_tfd = 0x20

abbrev pub port_sig : ℕ
port_sig = 0x24

abbrev pub port_ssts : ℕ
port_ssts = 0x28

abbrev pub port_sact : ℕ
port_sact = 0x34

abbrev pub port_ci : ℕ
port_ci = 0x38

abbrev pub hba_ghc : ℕ
hba_ghc = 0x04

abbrev pub hba_pi : ℕ
hba_pi = 0x0C

abbrev pub hba_ports : ℕ
hba_ports = 0x100

abbrev pub sizeof_port : ℕ
sizeof_port = 0x80

abbrev pub ahci_base : ℕ
ahci_base = 0x40000

-- HBA_CMD_HEADER: its size, and the members that are written.
abbrev pub sizeof_cmd_header : ℕ
sizeof_cmd_header = 32

abbrev pub header_prdtl : ℕ
header_prdtl = 2

abbrev pub header_ctba : ℕ
header_ctba = 8

abbrev pub header_ctbau : ℕ
header_ctbau = 12

abbrev pub has_bit : ℕ → ℕ → Bool
has_bit x k = not (x / 2 ^ k % 2 == 0)

abbrev pub with_bit : ℕ → ℕ → ℕ
with_bit x k = if has_bit x k then x else x + 2 ^ k

abbrev pub without_bit : ℕ → ℕ → ℕ
without_bit x k = if has_bit x k then x - 2 ^ k else x

-- What the port's signature and status say about its device.
pub data Device : Type 0 where
  dev_null dev_sata dev_semb dev_pm dev_satapi : Device

unfoldable pub device_type : ℕ → ℕ → Device
device_type ssts sig =
    if not (ssts % 2 ^ 4 == 3)
    then dev_null
    else if not (ssts / 2 ^ 8 % 2 ^ 4 == 1)
    then dev_null
    else if sig == 0xEB140101
    then dev_satapi
    else if sig == 0xC33C0101
    then dev_semb
    else if sig == 0x96690101
    then dev_pm
    else dev_sata

-- The loop of find_cmdslot from slot `i` on; `none` is its -1.
unfoldable pub slot_loop : ℕ → ℕ → ℕ → Option ℕ
slot_loop zero i slots = none
slot_loop (suc left) i slots =
    let rest = slot_loop left (i + 1) (slots / 2) in if slots % 2 == 0 then some i else rest

-- The command table of header `i` of port `portno`.
abbrev pub command_table : ℕ → ℕ → ℕ
command_table portno i = ahci_base + 40 * 2 ^ 10 + portno * 2 ^ 13 + i * 2 ^ 8

unfoldable pub header_setup : ℕ → ℕ → ℕ → Cells → Cells
header_setup list portno i m =
    let at = list + i * sizeof_cmd_header in
    let sized = set16 m (at + header_prdtl) 8 in
    let based = set32 sized (at + header_ctba) (command_table portno i) in
    memset (command_table portno i) 0 256 (set32 based (at + header_ctbau) 0)

unfoldable pub header_loop : ℕ → ℕ → ℕ → ℕ → Cells → Cells
header_loop zero i list portno m = m
header_loop (suc left) i list portno m =
    header_loop left (i + 1) list portno (header_setup list portno i m)

module _ {M : Type 0} (machine : Machine M) where
  -- `port->reg = f(port->reg)`
  unfoldable pub change : ℕ → (ℕ → ℕ) → M → M
  change reg f m = let (x, m') = machine.get reg m in machine.put reg (f x) m'

  -- The signature is read only for a device that is present and active.
  unfoldable pub ahci_check_type : ℕ → M → Device × M
  ahci_check_type port m =
      let (ssts, m1) = machine.get (port + port_ssts) m in
      let (sig, m2) = machine.get (port + port_sig) m1 in
      if not (ssts % 2 ^ 4 == 3) || not (ssts / 2 ^ 8 % 2 ^ 4 == 1)
      then (device_type ssts 0, m1)
      else (device_type ssts sig, m2)

  -- The loop over the implemented ports, of whose devices nothing is kept.
  unfoldable pub probe_loop : ℕ → ℕ → ℕ → ℕ → M → M
  probe_loop zero i pi abar m = m
  probe_loop (suc left) i pi abar m =
      probe_loop left (i + 1) (pi / 2) abar
        (if pi % 2 == 0 then m else (ahci_check_type (abar + hba_ports + i * sizeof_port) m).1)

  unfoldable pub ahci_probe_port : ℕ → M → M
  ahci_probe_port abar m =
      let (pi, m1) = machine.get (abar + hba_pi) m in probe_loop 32 0 pi abar m1

  -- Read a register until bit `k` is clear; `none` is a bit that stays set for all rounds.
  unfoldable pub wait_clear : ℕ → ℕ → ℕ → M → Option M
  wait_clear zero reg k m = none
  wait_clear (suc fuel) reg k m =
      let (x, m') = machine.get reg m in
      let rest = wait_clear fuel reg k m' in if has_bit x k then rest else some m'

  -- Until FR is read as clear and then CR.
  unfoldable pub wait_stopped : ℕ → ℕ → M → Option M
  wait_stopped zero port m = none
  wait_stopped (suc fuel) port m =
      let (x, m1) = machine.get (port + port_cmd) m in
      let (y, m2) = machine.get (port + port_cmd) m1 in
      let rest = wait_stopped fuel port (if has_bit x 14 then m1 else m2) in
      if has_bit x 14 || has_bit y 15 then rest else some m2

  unfoldable pub stop_cmd : ℕ → ℕ → M → Option M
  stop_cmd fuel port m =
      let m1 = change (port + port_cmd) (λ x. without_bit x 0) m in
      wait_stopped fuel port (change (port + port_cmd) (λ x. without_bit x 4) m1)

  unfoldable pub start_cmd : ℕ → ℕ → M → Option M
  start_cmd fuel port m = wait_clear fuel (port + port_cmd) 15 m >>= λ m1. some (
      change (port + port_cmd) (λ x. with_bit x 0)
        (change (port + port_cmd) (λ x. with_bit x 4) m1))

  unfoldable pub in_memory : (Cells → Cells) → M → M
  in_memory f m = machine.set_memory (f (machine.memory m)) m

  unfoldable pub port_rebase : ℕ → ℕ → ℕ → M → Option M
  port_rebase fuel port portno m = do
    stopped ← stop_cmd fuel port m
    let listed = machine.put (port + port_clbu) 0 (machine.put (port + port_clb) ahci_base stopped)
    let (clb, m1) = machine.get (port + port_clb) listed
    let cleared = in_memory (memset clb 0 1024) m1
    let fis = machine.put (port + port_fb) (ahci_base + 32 * 2 ^ 10 + portno * 2 ^ 8) cleared
    let (fb, m2) = machine.get (port + port_fb) (machine.put (port + port_fbu) 0 fis)
    let (list, m3) = machine.get (port + port_clb) (in_memory (memset fb 0 256) m2)
    start_cmd fuel port (in_memory (header_loop 32 0 list portno) m3)

  unfoldable pub find_cmdslot : ℕ → M → Option ℕ × M
  find_cmdslot port m =
      let (sact, m1) = machine.get (port + port_sact) m in
      let (ci, m2) = machine.get (port + port_ci) m1 in (slot_loop 32 0 (bit_or sact ci), m2)
