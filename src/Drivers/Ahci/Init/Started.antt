-- ===== src/Drivers/Ahci/Init/Started.antt =====
-- What ahci_init of drivers/ahci/ahci.c leaves in the controller's memory, for the commands to use.
use ester.Prelude.{ℕ, ◌+◌, ◌*◌, ◌^◌}
use ester.Kernel.Mem.{memset}
use ester.Drivers.Ahci.{
  Machine, ahci_base, port_clb, port_clbu, port_fb, port_fbu, in_memory, header_loop,
}
use ester.Drivers.Ahci.Init.Engine.{IsHost}

module _ {M : Type 0} (machine : Machine M) (port : ℕ) (host : IsHost machine port) where
  -- The stages of port_rebase.
  module _ (portno : ℕ) (stopped : M) where
    abbrev listed : M
    listed = machine.put (port + port_clbu) 0 (machine.put (port + port_clb) ahci_base stopped)

    abbrev cleared : M
    cleared =
        let (clb, m1) = machine.get (port + port_clb) listed in
        in_memory machine (memset clb 0 1024) m1

    abbrev placed : M
    placed =
        machine.put (port + port_fbu) 0
          (machine.put (port + port_fb) (ahci_base + 32 * 2 ^ 10 + portno * 2 ^ 8) cleared)

    abbrev received : M
    received =
        let (fb, m2) = machine.get (port + port_fb) placed in in_memory machine (memset fb 0 256) m2

    abbrev set_up : M
    set_up =
        let (list, m3) = machine.get (port + port_clb) received in
        in_memory machine (header_loop 32 0 list portno) m3
