-- ===== src/Lib.antt =====
-- NibrasOS, a 32-bit kernel in C: the parts of it that carry state and decide something, as
-- functions on records, and what is proved of them. Every file of the kernel is one translation
-- unit with static state; here the state of a file is a record, an operation is a function from
-- the record to the record and what the operation returns, and a loop is structural recursion or
-- recursion on fuel. A result of type Option is `none` where the source reads or writes outside
-- an array, dereferences NULL, or where the fuel is used up; each module says which.
--
-- The parts and the files they stand for:
--
-- Prelude: the shared names, lemmas on lists, Boolean tests, the bits of 32-bit words, and signed
--   numbers.
--
-- Frames: src/memory.c, the physical frames, a bitmap with one bit per 4 KB page, and `memsetw`
--   of src/kmain.c. Frames.Search is about the search for one free bit, Frames.Alloc about
--   `mem_alloc_page` and `mem_free_page`, Frames.Count about the number of frames in use,
--   Frames.Windows and Frames.First about the search for several pages at once, Frames.Runs about
--   their allocation, Frames.Regions about the regions that the boot loader reports.
--
-- KHeap: src/kheap.c, the kernel's heap of linked chunks: the search of `kmalloc` (KHeap.Search),
--   single chunks (Chunks), the heap as a row of segments (Tiling, Segments), what `ksplit` and
--   `kmerge` do to it (Steps), and `kmalloc` (Invariant), `kfree` (Release) and `krealloc`
--   (Blocks) on it. It takes its pages from Frames; how many page tables `mem_alloc_page` hands
--   out before it fails is an argument of the model.
--
-- Strings: src/string.c, with `expand_path` of src/vfs.c and `pow` and `pon` of src/math.c:
--   comparison (Compare), copying (Copy), searching (Search), splitting (Tokens), numbers
--   (Numbers). A string is the list of its bytes; it ends at the first 0 or at the end of the
--   list. Strings.Tokens uses the list of src/list.c as the sequence of its values.
--
-- LinkedList: src/list.c, with the nodes at explicit addresses.
--
-- Ext2.Cache: the block cache of src/ext2_fs.c (`ext2_disk_read_block`, `ext2_disk_write_block`,
--   `ext2_flush_dirty`, `ext2_disk_sync`). The disk is a function from sectors to their contents,
--   which the calls of src/ata.c read and write; of a sector number they send the lowest 28 bits.
--
-- Ext2.Inodes: inodes of src/ext2_fs.c above the cache: `ext2_get_real_block` and
--   `ext2_set_real_block` (BlockMap), `ext2_disk_inode` and `ext2_disk_write_inode` (Places),
--   `ext2_disk_inode_alloc_block` (Alloc). A block is the list of its 32-bit words. The blocks
--   here are those that the cache shows a client, so what is lost when a read gives away a dirty
--   entry of the cache (Ext2.Cache.Read) is not seen; the guards on the block 0 are in
--   `read_block` and `write_block`.
--
-- Ext2.Files: the contents of files in src/ext2_fs.c: `read_ext2_disk` (Reading, Request, Holes,
--   Contents), where memory is a function from addresses to bytes, `ext2_disk_inode_write_block`
--   (Writing), the bytes of a block that `memcpy` changes (Patching), and `write_ext2_disk`
--   (Overwriting).
--
-- Ext2.Directories and Ext2.Nodes: directories in src/ext2_fs.c: the walk along the entries,
--   `readdir_ext2_disk`, `finddir_ext2_disk` (Ext2.Walks, Ext2.Names, Ext2.Finding),
--   `insertdir_ext2_disk` (Ext2.NewEntry, Ext2.Insertion), `ext2_disk_alloc_inode`,
--   `ext2_create`, `ext2_mkdir`, and the nodes of the virtual file system that stand for inodes
--   (Ext2.Flags).
--
-- Scheduler: src/process.c and the tick of src/timer.c: the ready queue (Queue), `sched` (Switch,
--   Slots), `fork` and `terminate_proc` (Fork). What `kmalloc` and `vm_clone_page_directory`
--   return is an argument.
--
-- Interrupts: src/gdt.c, src/idt.c, src/isrs.c, src/irqs.c and `syscall_dispatcher` of
--   src/syscalls.c: the descriptors (Descriptors) and the dispatch (Dispatch). The entry points
--   of src/start.asm are arguments.
--
-- Keyboard: src/kb.c and the tables of include/kb.h (Keyboard.Tables).
--
-- Dma: src/dmac.c, each operation as the list of its port writes.
--
-- Elf: `valid_elf` of src/elf.c.
--
-- Paging: src/paging.c, page directories and page tables as words in physical memory; the pages
--   come from Frames. Paging.Words is about the bits of an entry, Memory about the translation of
--   addresses and about who owns which page, Tables, NewTable, Entries and Mapping about
--   `vm_map_page_in_dir` and `vm_free_page`, Regions about the loops over pages, Init about
--   `vm_init_table`.
--
-- Screen: src/screen.c, the console: `putc` and `puts` (Cursor), `scroll` (Scrolling),
--   `scroll_up` and `scroll_down` (Lines, History), `puthex` and `printbin` (Numbers). `mem` is
--   memory in cells of 16 bits.
--
-- Fat32: src/fat32.c: the layout of the partitions, the loading of a file along its chain of
--   clusters (Fat32.Chain), where the clusters lie (Layout), and file names. A sector is the list
--   of its bytes; the disk is a function from sectors.
--
-- Ata: src/ata.c: a sector read or written through the ports of a drive (Ata.Transfer). What a
--   drive does with its ports is the interface Ata.Drive, an argument of the theorems;
--   Ata.Waiting is about the waits, Aiming about the registers. The disk of Ext2.Cache and of
--   Fat32 stands for the sectors of such a drive.
--
-- Vfs: src/vfs.c: where `vfs_mount` mounts and what `file_open` opens (Vfs.Mounts), the reference
--   counts of `vfs_open` and `vfs_close` (Counts), the parent of a path and `vfs_create_file`
--   (Paths). It stands on the strings of Strings; the `finddir` of a file system is an argument.
--
-- Bounds and fuel: `int` and `unsigned int` are 32 bits and wrap where the source can make them
-- wrap; the wrap is written out as a remainder. The digits of `itoa` have the fuel 32, enough for
-- every 32-bit number in base 10 and 16. The loop over `strsep` has the length of the string and
-- 2 as fuel. The search of `kmalloc` takes its fuel as an argument, which is enough when it is
-- more than the chunks of the list. `pon` has the fuel 11 and `extra_blocks` 1024, as many page
-- tables as 32 bits can address. `vm_allocate_region` has a round for each page and one more for
-- the end of its loop as fuel, which is an argument; `vm_free_region` ends with no fuel. The loop
-- of `ext2_disk_inode_write_block` that allocates blocks has its fuel as an argument; one round
-- is enough for a block that the file has. The walks along a directory have their fuel as an
-- argument, which is enough when it is more than the entries. The waits for a drive have their
-- fuel as an argument, which is enough when it is more than the reads of the status for which the
-- drive is ever busy. The loop of `file_open` has the length of the path and 2 as fuel, enough
-- for each of its components. The search of `putc` for the end of a line has its fuel as an
-- argument, which is enough when it is the number of columns. The loading of a file has a round
-- for each 512 bytes, and one more.
--
-- Not modelled: the hardware itself (a drive is an argument; the driver of src/ide.c, PCI, the
-- CPU identification), the start and the cloning of page directories and the page fault handler
-- of src/paging.c, the moving of the cursor with keys, the text modes, the format directives of
-- `printf`, the listing of FAT32 directories, `ext2_disk_mount`, the callbacks of other file
-- systems, assembly, and the copies of the C library below stdlib and bsd. Messages that the
-- source prints on errors are left out everywhere.
pub mod Prelude
pub mod Frames
pub mod KHeap
pub mod Strings
pub mod LinkedList
pub mod Ext2
pub mod Scheduler
pub mod Interrupts
pub mod Keyboard
pub mod Dma
pub mod Elf
pub mod Paging
pub mod Screen
pub mod Fat32
pub mod Vfs
pub mod Ata
