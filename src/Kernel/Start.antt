-- ===== src/Kernel/Start.antt =====
-- kernel/kernel.c: kernel_entry, up to the endless loop at its end. One state `D` is the AHCI
-- controller with its disk; the sector driver says how ahci_read and ahci_write use it. Interrupts
-- that arrive on the way are left out, as is enabling them, which is assembly. `none` is also an
-- ext2_fopen that gives no file, and a listing past the 30 entries of `dir_entries`.
pub mod Welcome
pub mod Devices
use ester.Prelude.{
  ℕ, ◌+◌, ◌%◌, ◌^◌, Option, none, some, Cells, List, [], ◌∷◌, ltb, ◌==◌, ◌||◌, not, if◌then◌else◌,
  ◌>>=◌,
}
use ester.Kernel.Interrupts.{Idtr, IdtTable, idt_init, register_interrupt_handler}
use ester.Kernel.Print.{printk}
use ester.Kernel.Start.Welcome.{welcome}
use ester.Drivers.Vga.{Vga}
use ester.Drivers.Pic.{PortLog, pic_init}
use ester.Drivers.Keyboard.{Controller, ps2_keyboard_init}
use ester.Drivers.Block.{SectorDriver, init_block_device}
use ester.Drivers.Ahci.{Machine}
use ester.Drivers.Ahci.Init.{Inited, ahci_init}
use ester.Pci.{DevVector, pci_recursive_scan}
use ester.Ext2.Layout.{BlockDevice}
use ester.Ext2.Super.{Fs, ext2_extract_sb, ext2_extract_bgdt}
use ester.Ext2.Directory.{Entries, ext2_list_directory}
use ester.Ext2.File.{State, Locals}
use ester.Ext2.File.Calls.{ext2_fopen, ext2_fread, ext2_fwrite, ext2_fseek, ext2_fclose}
use ester.Kernel.Debug.{literal}

abbrev pub gdt_offset_kernel_code : ℕ
gdt_offset_kernel_code = 0x08

abbrev pub keyboard_vector : ℕ
keyboard_vector = 33

-- What answers at the ports and on the buses, and the addresses that the linker chose.
pub record Hardware (K D : Type 0) : Type 0 where
  pub config : Cells
  pub keyboard_ports : Controller K
  pub pic_ports : PortLog → ℕ → ℕ
  pub ahci : Machine D
  pub sectors : SectorDriver D
  pub idt_address : ℕ
  pub isr_stub_table : Cells
  pub keyboard_handler : ℕ
  pub cr3 : ℕ
  pub digits : ℕ

-- The static variables and the hardware's state. `files` holds those of fs/ext2 and the disk.
pub record System (K D : Type 0) : Type 0 where
  pub idtr : Idtr
  pub idt : IdtTable
  pub devices : DevVector
  pub pci_log : List (ℕ × ℕ)
  pub keyboard : K
  pub pic_log : PortLog
  pub tables : Cells
  pub hba_mem_ptr : ℕ
  pub block_device : Option (BlockDevice D)
  pub files : State D
  pub screen : Vga

module _ {K D : Type 0} (hw : Hardware K D) (fuel : ℕ) where
  -- ps2_keyboard_init also registers the handler, unless the controller fails.
  unfoldable pub start_keyboard : System K D → Option (System K D)
  start_keyboard s =
      ps2_keyboard_init hw.keyboard_ports fuel s.keyboard >>= λ (status, vector, keyboard).
      some (record s {
        keyboard = keyboard;
        idt =
            if vector == keyboard_vector
            then register_interrupt_handler gdt_offset_kernel_code keyboard_vector
                hw.keyboard_handler s.idt
            else s.idt;
      })

  unfoldable pub start_ahci : System K D → Option (System K D)
  start_ahci s =
      ahci_init hw.ahci fuel hw.config s.devices hw.cr3 s.pci_log s.tables s.files.fs.disk >>= λ r.
      some (record s {
        pci_log = r.log;
        tables = r.tables;
        hba_mem_ptr = r.hba_mem_ptr;
        files = record s.files { fs = record s.files.fs { disk = r.machine } };
      })

  -- Everything in front of the file system.
  unfoldable pub start_devices : System K D → Option (System K D)
  start_devices s = do
    let (idtr, idt) = idt_init gdt_offset_kernel_code hw.idt_address hw.isr_stub_table s.idt
    devices ← pci_recursive_scan hw.config s.devices
    keyed ← start_keyboard (record s { idtr = idtr; idt = idt; devices = devices })
    ready ← start_ahci (record keyed { pic_log = pic_init hw.pic_ports keyed.pic_log })
    some (record ready { block_device = init_block_device hw.sectors ready.block_device })

-- "/prova"
abbrev pub prova : Cells
prova = literal (b'/' ∷ b'p' ∷ b'r' ∷ b'o' ∷ b'v' ∷ b'a' ∷ [])

-- A buffer of 4096 bytes after memset.
abbrev pub full_of : ℕ → Cells
full_of byte i = if ltb i 4096 then byte else 0

module _ {D : Type 0} (dev : BlockDevice D) (locals : Locals) where
  unfoldable pub list_root : Entries → State D → Option (State D)
  list_root dir_entries st =
      ext2_list_directory dev st.fs 2 st.current dir_entries >>= λ (count, entries, current).
      (if ltb 30 count then none else some (record st { current = current }))

  unfoldable pub open_prova : State D → Option (State D)
  open_prova st = ext2_fopen dev locals prova b'w' st >>= λ st'.
      (if not (st.file.open_ == 0) || (st'.file.open_ == 0) then none else some st')

  -- The calls on the file, whose results are not looked at.
  unfoldable pub use_file : Cells → State D → Option (State D)
  use_file read_buffer st = do
    (_, written) ← ext2_fwrite dev locals (full_of 0x61) 4096 st
    (_, moved) ← ext2_fseek dev locals 10 written
    (_, again) ← ext2_fwrite dev locals (full_of 0x62) 4096 moved
    (_, bytes) ← ext2_fread dev locals read_buffer 4096 again
    (_, closed) ← ext2_fclose dev locals again
    some closed

  unfoldable pub use_files : Entries → Cells → State D → Option (State D)
  use_files dir_entries read_buffer st = do
    let (_, fs1) = ext2_extract_sb dev st.fs
    let (_, fs2) = ext2_extract_bgdt dev fs1
    listed ← list_root dir_entries (record st { fs = fs2 })
    opened ← open_prova listed
    use_file read_buffer opened

-- The lines of a text, one printk for each.
unfoldable pub show_lines : ℕ → List Cells → Vga → Option Vga
show_lines digits [] v = some v
show_lines digits (line ∷ lines) v = printk line digits 0 [] v >>= show_lines digits lines

unfoldable pub with_device :
    {D : Type 0} → Option (BlockDevice D) → (BlockDevice D → Option (State D)) → Option (State D)
with_device none k = none
with_device (some dev) k = k dev

-- `dir_entries` and `read_buffer` are local arrays that are not initialised.
unfoldable pub kernel_entry :
    {K D : Type 0} → Hardware K D → ℕ → Locals → Entries → Cells → System K D → Option (System K D)
kernel_entry hw fuel locals dir_entries read_buffer s = do
  up ← start_devices hw fuel s
  files ← with_device up.block_device (λ dev. use_files dev locals dir_entries read_buffer up.files)
  screen ← show_lines hw.digits welcome up.screen
  some (record up { files = files; screen = screen })
