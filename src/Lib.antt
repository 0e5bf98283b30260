-- ===== src/Lib.antt =====
-- A model of the ester kernel: string and memory routines, drivers, the PCI scan and the ext2
-- file system, with theorems about them.
--
-- The kernel is single-threaded C. A block device gives fs/ext2 blocks of 4096 bytes; fs/ext2
-- keeps the superblock, the group descriptors and one current inode in static variables and
-- writes them back itself; path lookup unpacks a path into rows and walks directories; pci/
-- scans the configuration space into a static vector.
--
-- Files:
-- - Prelude: tests, lists and bit maps that the other modules share.
-- - Kernel.Mem and Kernel.Str: kernel/mem.c and kernel/string.c over a flat memory, a function
--   from the address to the byte. Loops that look for a terminator run on fuel 2 ^ 32, one round
--   for each value of their uint32_t index; the theorems show that strings shorter than that end
--   them.
-- - Ext2.Layout: fs/ext2/ext2.h and fs/ext2/device.c. A structure is its bytes, and a member is
--   read and written at the offset that it has in the C struct. The block device is a parameter;
--   `IsDisk` says what a working one does.
-- - Ext2.Super: fs/ext2/superblock.c and fs/ext2/group.c; Ext2.Inode: fs/ext2/inode.c;
--   Ext2.UnpackPath and Ext2.Directory: fs/ext2/directory.c. The loop that unpacks a path moves
--   its place in the array of 10 rows of 257 bytes up in each round, so fuel 2571 is enough; the
--   listing counts at most 128 entries, so 129 rounds are.
-- - Pci: pci/pci.c, with the search for the AHCI controller. The configuration space is a
--   parameter. The recursion on buses behind bridges has fuel 256, enough where every present
--   bridge, at the bus, device and function numbers there are, leads to a higher bus.
-- - Kernel.Paging: palloc and pmap of kernel/mem.c over a memory of 64-bit words. Kernel.Interrupts:
--   kernel/set_idt.c, with the table of stubs as a parameter. Kernel.Decimal:
--   kernel/ascii_utils.c, with fuel 10 for the digits of a 32-bit value.
-- - Kernel.Print and Kernel.Debug: kernel/printk.c, with the arguments as a list, and
--   kernel/debug.c, over the text screen; strings end within the fuel of 2 ^ 32.
-- - Kernel.Multiboot: kernel/multiboot2_infostruct_parser.c, with a round for each 4 bytes of a
--   32-bit size. Kernel.Elf: kernel/elf64_loader.c up to the jump into the program, with the bytes
--   and the page tables as two memories, and its messages on the text screen.
-- - Kernel.Start: kernel/kernel.c, kernel_entry as a composition of the other parts over one system
--   state. The AHCI controller and its disk are one state, which ahci_init changes through the
--   machine and fs/ext2 through the sector driver.
-- - Ext2.AddEntry and Ext2.Lookup: adding to a directory, ext2_inode_find and ext2_change_cwd.
-- - Ext2.File: fs/ext2/file.c, the one file struct and its calls, with creating a file. What local
--   arrays hold before they are set is a parameter.
-- - Drivers.Ahci: drivers/ahci/ahci.c over a machine that is a parameter: its registers, whose
--   reading may have effects, and the memory that it shares. Loops that wait for the device for as
--   long as it takes run on fuel, and `none` is a device that does not answer in that many rounds;
--   waiting for a busy port has the source's bound of 1000000. Drivers.Ahci.Init is ahci_init with
--   the search of Pci and the mapping of Kernel.Paging; its `IsHost`, `IsEngine` and `Resets` say what
--   the registers of a working controller do, FR and CR only once ST and FRE are clear.
-- - Drivers.Vga, Drivers.Keyboard and Drivers.Pic: drivers/vga/vga.c,
--   drivers/ps2_keyboard/ps2_keyboard.c and drivers/8259_pic/8259_pic.c. Port writes of the screen
--   and the PIC are logs; the keyboard's controller is a parameter.
-- - Drivers.Block: drivers/block/block_device.c over a sector driver that is a parameter.
-- - Tests: each theorem applied to a concrete memory, disk or device.
--
-- `none` stands for what C leaves undefined, and for a loop that does not end. Machine words are
-- natural numbers with the wrap written out. Messages to the console that report an error are
-- left out of the model of the code that prints them. Not modelled: assembly, with the boot
-- path and the moments at which interrupts arrive, and fs/vfs, which is a stub that does not compile.
pub mod Prelude
pub mod Kernel
pub mod Ext2
pub mod Drivers
pub mod Pci
pub mod Tests
