-- ===== src/Kernel/Start/Devices.antt =====
-- What kernel_entry of kernel/kernel.c sets up in front of the file system.
use ester.Prelude.{ℕ, ◌+◌, ◌*◌, ◌%◌, ◌^◌, ◌<◌, ◌≡◌, ◌≢◌, true, false, some, Cells}
use ester.Kernel.Interrupts.Descriptors.{IsGate}
use ester.Kernel.Paging.{pmap}
use ester.Kernel.Start.{Hardware, System, gdt_offset_kernel_code, keyboard_vector}
use ester.Pci.{Dev, dev, is_multi_function, present, pci_read_config_long}
use ester.Pci.Abar.{is_ahci}
use ester.Pci.Reached.{BridgesDown, shown}
use ester.Drivers.Block.{ahci_device}
use ester.Drivers.Ahci.{ahci_base, hba_ghc, hba_ports, command_table, sizeof_cmd_header}
use ester.Drivers.Ahci.Transfer.{read_command, write_command}
use ester.Drivers.Ahci.Commands.{Asks, write_bytes}
use ester.Drivers.Ahci.Init.Engine.{IsHost, IsEngine, Resets}
use ester.Drivers.Keyboard.{Controller}

module _ {K : Type 0} (ports : Controller K) where
  -- A controller whose status register always reads 0: both of its buffers are empty.
  abbrev pub IsQuick : Type 0
  IsQuick = (d : K) → (ports.inb 0x64 d).0 ≡ 0

module _ {K D : Type 0} (hw : Hardware K D) (t device f : ℕ) (s : System K D) where
  -- The address of a controller's registers.
  abbrev pub registers_of : Dev → ℕ
  registers_of d = pci_read_config_long hw.config d.bus d.device d.function 0x24

  -- An empty keyboard controller, a SATA controller on bus 0, and SATA controllers whose page can be
  -- mapped, whose registers are apart from the memory, and whose reset and engine behave as documented.
  pub record IsReady : Type 0 where
    pub quick : IsQuick hw.keyboard_ports
    pub bridges : BridgesDown hw.config
    pub single : is_multi_function hw.config 0 0 ≡ false
    pub host : present hw.config (dev 0 0 0) ≡ true
    pub on_bus : device < 32
    pub visible : shown hw.config 0 device f ≡ true
    pub sata : is_ahci hw.config (dev 0 device f) ≡ true
    pub mapped :
        (d : Dev)
        → is_ahci hw.config d ≡ true
        → (tables : Cells) × (pmap hw.cr3 (registers_of d) (registers_of d) 0 s.tables
            ≡ some tables)
    pub apart : (d : Dev) → is_ahci hw.config d ≡ true → IsHost hw.ahci (registers_of d + hba_ports)
    pub resets :
        (d : Dev) → is_ahci hw.config d ≡ true → Resets hw.ahci (registers_of d + hba_ghc) t
    pub engine :
        (d : Dev) → is_ahci hw.config d ≡ true → IsEngine hw.ahci (registers_of d + hba_ports) t
    pub stubs : (v : ℕ) → hw.isr_stub_table v < 2 ^ 64
    pub handler : hw.keyboard_handler < 2 ^ 64

  -- Gates, the block device, and a controller ready for commands.
  pub record IsUp (slot lba_low lba_high count buf : ℕ) (s' : System K D) : Type 0 where
    pub gates :
        (v : ℕ)
        → v < 47
        → v ≢ keyboard_vector
        → IsGate gdt_offset_kernel_code (hw.isr_stub_table v) 0x8E (s'.idt v)
    pub keyboard_gate :
        IsGate gdt_offset_kernel_code hw.keyboard_handler 0x8E (s'.idt keyboard_vector)
    pub device_set : s'.block_device ≡ some (ahci_device hw.sectors)
    pub controller : Dev
    pub is_sata : is_ahci hw.config controller ≡ true
    pub registers : s'.hba_mem_ptr ≡ registers_of controller
    pub reads :
        Asks
          (read_command ahci_base lba_low lba_high count buf (hw.ahci.memory s'.files.fs.disk))
          ahci_base
          (command_table 0 0)
          0xC8
          0
          (lba_low % 2 ^ 24)
          count
          buf
          (count * 512)
    pub writes :
        Asks
          (write_command slot ahci_base lba_low lba_high count buf
            (hw.ahci.memory s'.files.fs.disk))
          (ahci_base + slot * sizeof_cmd_header)
          (command_table 0 slot)
          0x35
          1
          (lba_low + 2 ^ 32 * lba_high)
          count
          buf
          (write_bytes count)
