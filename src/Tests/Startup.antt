-- ===== src/Tests/Startup.antt =====
-- kernel_entry of kernel/kernel.c in front of the file system, on a machine that is ready at once.
use ester.Prelude.{ℕ, ◌+◌, ◌*◌, ◌%◌, ◌≡◌, refl, false, [], none, some, Cells}
use ester.Kernel.Interrupts.{IdtEntry}
use ester.Kernel.Paging.{pmap}
use ester.Kernel.Paging.Walk.{pmap-present}
use ester.Kernel.Start.{Hardware, System}
use ester.Pci.{is_multi_function, pci_get_header_type, pci_read_config_long}
use ester.Drivers.Block.{SectorDriver}
use ester.Drivers.Keyboard.{Controller}
use ester.Tests.Lookups.{zeros}
use ester.Tests.Opening.{no_file}
use ester.Tests.Search.{two_devices}
use ester.Tests.Bringup.{Board, board, running_board, tables, all_present}

-- Every register of the configuration space reads as that of a SATA controller.
abbrev all_sata : Cells
all_sata a = 0x01060100

abbrev sectors : SectorDriver Board
sectors = record {
  ahci_read = λ d lba count. (0, d.bytes);
  ahci_write = λ d lba count buffer. (0, d);
}

abbrev quick_keyboard : Controller ℕ
quick_keyboard = record { inb = λ port d. (0, d); outb = λ port value d. d + 1 }

abbrev hardware : Hardware ℕ Board
hardware = record {
  config = all_sata;
  keyboard_ports = quick_keyboard;
  pic_ports = λ log port. 0;
  ahci = board 0x01060100;
  sectors = sectors;
  idt_address = 0x5000;
  isr_stub_table = λ v. 0x100000 + 16 * (v % 256);
  keyboard_handler = 0x200000;
  cr3 = 4096;
  digits = 100;
}

abbrev no_entry : IdtEntry
no_entry = record {
  isr_low = 0;
  kernel_cs = 0;
  ist = 0;
  attributes = 0;
  isr_mid = 0;
  isr_high = 0;
  reserved = 0;
}

abbrev switched_on : System ℕ Board
switched_on = record {
  idtr = record { limit = 0; base = 0 };
  idt = λ v. no_entry;
  devices = two_devices;
  pci_log = [];
  keyboard = 0;
  pic_log = [];
  tables = tables;
  hba_mem_ptr = 0;
  block_device = none;
  files = record {
    fs = record { disk = running_board; sb = zeros; bgdt = zeros };
    current = zeros;
    file = no_file;
  };
  screen = record { txt_addr = 0; txt = zeros; ports = [] };
}

only_one : is_multi_function all_sata 0 0 ≡ false
unfolding is_multi_function pci_get_header_type pci_read_config_long
only_one = refl

abbrev page_mapped : (m : Cells) × (pmap 4096 0x01060100 0x01060100 0 tables ≡ some m)
page_mapped =
    let (m, e, _, _) =
      pmap-present 4096 0x01060100 0x01060100 0 tables (all_present _) (all_present _)
        (all_present _) in
    (m, e)
