-- ===== src/Paging.antt =====
-- src/paging.c: page directories and page tables in physical memory. `mem` is that memory, read and
-- written in aligned 32-bit words at their addresses, as the source reads a `pde_t` or a `pte_t`; a
-- `page_directory_t *` or `page_table_t *` is an address. `tables[i]` of a directory is the word at
-- 4 * i, `tables_phys_addrs[i]` the word at 4096 + 4 * i. Pages come from Frames.
pub mod Words
pub mod Memory
pub mod Tables
pub mod NewTable
pub mod Entries
pub mod Mapping
pub mod Regions
pub mod Init
mod Tests
use nibras_os.Prelude.{
  ℕ, zero, suc, ◌+◌, ◌-◌, ◌*◌, ◌/◌, ◌%◌, ◌^◌, ◌<◌, ◌&&◌, ◌||◌, Bool, true, false, not, Option, none,
  some, if◌then◌else◌, ◌==◌, ltb, leb, bit_or, u32_mod,
}
use nibras_os.Frames.{Frames, mem_alloc_page, mem_free_page}

-- `paging` is the highest bit of cr0, `cr3` the directory that was loaded last.
pub record Vm : Type 0 where
  mem : ℕ → ℕ
  frames : Frames
  kernel_page_directory : ℕ
  current_page_directory : ℕ
  cr3 : ℕ
  paging : Bool

-- The arguments `ps`, `rw` and `us`.
pub record Flags : Type 0 where
  ps : Bool
  rw : Bool
  us : Bool

unfoldable pub page_directory_index : ℕ → ℕ
page_directory_index virt = virt / 4194304 % 1024

unfoldable pub page_table_index : ℕ → ℕ
page_table_index virt = virt / 4096 % 1024

-- `*(unsigned int*)x & ~0xfff`.
unfoldable pub page_get_physical_address : ℕ → ℕ
page_get_physical_address w = w / 4096 * 4096

unfoldable pub vm_set_bit : ℕ → ℕ → ℕ
vm_set_bit w b = bit_or w (2 ^ b)

-- `(w & ~0xFFFFF000) | frame`.
unfoldable pub vm_pde_set_frame : ℕ → ℕ → ℕ
vm_pde_set_frame w frame = bit_or (w % 4096) frame

unfoldable pub vm_pte_set_frame : ℕ → ℕ → ℕ
vm_pte_set_frame w frame = bit_or (w % 4096) frame

-- `if(ps) VM_SET_BIT(w, 0); if(rw) VM_SET_BIT(w, 1); if(us) VM_SET_BIT(w, 2);`.
unfoldable pub set_flags : Flags → ℕ → ℕ
unfolding vm_set_bit
set_flags fl w =
    let w1 = if fl.ps then vm_set_bit w 0 else w in
    let w2 = if fl.rw then vm_set_bit w1 1 else w1 in if fl.us then vm_set_bit w2 2 else w2

-- The bit `p` of a directory entry, and the bit `ps` of a table entry.
abbrev pub present : ℕ → Bool
present w = w % 2 == 1

unfoldable pub store : (ℕ → ℕ) → ℕ → ℕ → ℕ → ℕ
store mem a w x = if x == a then w else mem x

-- `memset(table, 0, sizeof(page_table_t))`.
unfoldable pub clear_table : (ℕ → ℕ) → ℕ → ℕ → ℕ
clear_table mem table x = if leb table x && ltb x (table + 4096) then 0 else mem x

abbrev pub pde_addr : ℕ → ℕ → ℕ
pde_addr dir virt = dir + 4 * page_directory_index virt

abbrev pub phys_addr_of : ℕ → ℕ → ℕ
phys_addr_of dir virt = dir + 4096 + 4 * page_directory_index virt

abbrev pub pte_addr : ℕ → ℕ → ℕ
pte_addr table virt = table + 4 * page_table_index virt

-- The page table that the directory entry of `virt` points to.
abbrev pub table_of : (ℕ → ℕ) → ℕ → ℕ → ℕ
table_of mem dir virt = page_get_physical_address (mem (pde_addr dir virt))

-- A cleared page becomes the page table of `virt`, with the flags of `entry_flags`.
unfoldable pub install_table : (ℕ → ℕ) → ℕ → ℕ → Flags → ℕ → ℕ → ℕ
unfolding clear_table store set_flags vm_pde_set_frame
install_table mem dir virt fl table =
    let mem1 = store (clear_table mem table) (phys_addr_of dir virt) table in
    store mem1 (pde_addr dir virt)
      (vm_pde_set_frame (set_flags fl (mem1 (pde_addr dir virt))) table)

-- `if (!e->p) { … }`: whether there is a page table afterwards.
unfoldable pub ensure_table : Vm → ℕ → ℕ → Flags → Bool × Vm
unfolding install_table
ensure_table s dir virt fl =
    let (table, frames) = mem_alloc_page (s.frames) false in
    if present (s.mem (pde_addr dir virt))
    then (true, s)
    else if table == 0
    then (false, record s { frames = frames })
    else (true, record s { mem = install_table (s.mem) dir virt fl table; frames = frames })

-- The given page, or a new one for 0: `if(!physical_address) physical_address = mem_alloc_page(0);`.
unfoldable pub given_or_new : Vm → ℕ → ℕ × Vm
given_or_new s phys =
    let (block, frames) = mem_alloc_page (s.frames) false in
    if phys == 0 then (block, record s { frames = frames }) else (phys, s)

-- The end of `vm_map_page_in_dir`, for the entry at `page`; 0 is NULL.
unfoldable pub set_page_entry : Vm → ℕ → ℕ → Flags → ℕ × Vm
unfolding given_or_new store set_flags vm_pde_set_frame
set_page_entry s page phys fl =
    let s1 = record s { mem = store (s.mem) page (set_flags fl (s.mem page)) } in
    let (block, s2) = given_or_new s1 phys in
    if block == 0 then (0, s2) else (
      page,
      record s2 { mem = store (s2.mem) page (vm_pde_set_frame (s2.mem page) block); paging = true },
    )

-- On the two error paths the paging stays disabled.
unfoldable pub vm_map_page_in_dir : Vm → ℕ → ℕ → ℕ → Flags → ℕ × Vm
unfolding ensure_table set_page_entry
vm_map_page_in_dir s dir virt phys fl =
    let (there, s1) = ensure_table (record s { paging = false }) dir virt fl in
    if dir == 0
    then (0, s)
    else if there
    then set_page_entry s1 (pte_addr (table_of (s1.mem) dir virt) virt) phys fl
    else (0, s1)

unfoldable pub vm_switch_to_page_directory : Vm → ℕ → Vm
vm_switch_to_page_directory s dir =
    if dir == 0 then s else record s { current_page_directory = dir; cr3 = dir; paging = true }

abbrev kernel_flags : Flags
kernel_flags = record { ps = true; rw = true; us = false }

-- The same in the kernel's directory, which is loaded again at the end; here the frame is set first.
unfoldable pub vm_map_page : Vm → ℕ → ℕ → Vm
unfolding ensure_table given_or_new store set_flags vm_pte_set_frame vm_switch_to_page_directory
vm_map_page s virt phys =
    let dir = s.kernel_page_directory in
    let (there, s1) = ensure_table (record s { paging = false }) dir virt kernel_flags in
    let page = pte_addr (table_of (s1.mem) dir virt) virt in
    let (block, s2) = given_or_new s1 phys in
    let w = set_flags kernel_flags (vm_pte_set_frame (s2.mem page) block) in
    if not there
    then s1
    else if block == 0
    then s2
    else vm_switch_to_page_directory (record s2 { mem = store (s2.mem) page w }) dir

unfoldable pub vm_get_physical_address : Vm → ℕ → ℕ → ℕ
unfolding page_get_physical_address page_directory_index page_table_index
vm_get_physical_address s dir virt =
    if present (s.mem (pde_addr dir virt))
    then page_get_physical_address (s.mem (pte_addr (table_of (s.mem) dir virt) virt))
    else 0

-- `&dir->tables[i]` is taken for a page table, so its `pages[j]` is the word `i + j` of the directory.
unfoldable pub vm_free_page : Vm → ℕ → ℕ → Vm
unfolding store page_directory_index page_table_index
vm_free_page s dir virt =
    let page = pte_addr (pde_addr dir virt) virt in
    let mem1 = store (s.mem) (phys_addr_of dir virt) 0 in
    let w = mem1 page in
    if dir == 0
    then s
    else if present (s.mem page)
    then record s {
      mem = store mem1 page (w % 4096 / 2 * 2);
      frames = mem_free_page (s.frames) (w / 4096 * 4096);
    }
    else s

-- `vm_create_page_table`, and -1 as `false`. The new table is mapped at its own address.
unfoldable pub vm_create_page_table : Vm → ℕ → ℕ → Flags → Bool × Vm
unfolding store set_flags vm_pde_set_frame vm_map_page_in_dir
vm_create_page_table s dir virt fl =
    let e = pde_addr dir virt in
    let (block, frames) = mem_alloc_page (s.frames) false in
    let mem1 = store (s.mem) (phys_addr_of dir virt) block in
    let mem2 = store mem1 e (vm_pde_set_frame (set_flags fl (mem1 e)) block) in
    let mapped = vm_map_page_in_dir (record s { mem = mem2; frames = frames }) dir block block fl in
    if dir == 0
    then (false, s)
    else if present (s.mem e)
    then (true, s)
    else if block == 0
    then (false, record s { frames = frames })
    else (true, mapped.1)

-- The table is the one that `tables_phys_addrs` names, present or not.
unfoldable pub vm_map_physical_address : Vm → ℕ → ℕ → ℕ → Flags → Vm
unfolding vm_create_page_table store set_flags vm_pte_set_frame
vm_map_physical_address s dir virt phys fl =
    let created = vm_create_page_table s dir virt fl in
    let s1 = if present (s.mem (pde_addr dir virt)) then s else created.1 in
    let page = pte_addr (s1.mem (phys_addr_of dir virt)) virt in
    record s1 { mem = store (s1.mem) page (set_flags fl (vm_pte_set_frame (s1.mem page) phys)) }

unfoldable pub vm_unmap_physical_address : Vm → ℕ → ℕ → Vm
unfolding store page_get_physical_address
vm_unmap_physical_address s dir virt =
    let page = pte_addr (table_of (s.mem) dir virt) virt in
    if present (s.mem (pde_addr dir virt))
    then record s {
      frames = mem_free_page (s.frames) (s.mem page / 4096 * 4096);
      mem = store (store (s.mem) (phys_addr_of dir virt) 0) page 0;
    }
    else s

-- The loop of `vm_init_table`: `n` more entries.
unfoldable pub init_entries : ℕ → (ℕ → ℕ) → ℕ → ℕ → ℕ → Flags → ℕ → ℕ
unfolding store set_flags vm_pde_set_frame
init_entries zero mem table frame virt fl = mem
init_entries (suc n) mem table frame virt fl =
    init_entries n (store mem (pte_addr table virt) (vm_pde_set_frame (set_flags fl 0) frame)) table
      ((frame + 4096) % u32_mod) ((virt + 4096) % u32_mod) fl

unfoldable pub vm_init_table : (ℕ → ℕ) → ℕ → ℕ → ℕ → Flags → ℕ → ℕ
unfolding clear_table
vm_init_table mem table frame virt fl =
    if table == 0 then mem else init_entries 1024 (clear_table mem table) table frame virt fl

-- `vm_page_dir_add_table`; the address goes to the kernel's directory, whatever `pde` is.
unfoldable pub vm_page_dir_add_table : Vm → ℕ → ℕ → ℕ → Flags → Vm
unfolding store set_flags vm_pde_set_frame
vm_page_dir_add_table s pde table virt fl =
    let mem1 = store (s.mem) (phys_addr_of (s.kernel_page_directory) virt) table in
    let e = pde_addr pde virt in
    if pde == 0 || table == 0
    then s
    else record s { mem = store mem1 e (vm_pde_set_frame (set_flags fl (mem1 e)) table) }

-- `vm_alloc_page` for the entry at `page`, and -1 as `false`.
unfoldable pub vm_alloc_page : Vm → ℕ → Bool × Vm
unfolding store vm_set_bit vm_pte_set_frame
vm_alloc_page s page =
    let (block, frames) = mem_alloc_page (s.frames) false in
    if page == 0
    then (false, s)
    else if block == 0
    then (false, record s { frames = frames })
    else (
      true,
      record s {
        frames = frames;
        mem = store (s.mem) page (vm_pte_set_frame (vm_set_bit (s.mem page) 0) block);
      },
    )

-- The loop of `vm_allocate_region` on fuel: `none` means that the fuel ran out.
unfoldable pub allocate_pages : ℕ → Vm → ℕ → ℕ → ℕ → Flags → Option Vm
unfolding vm_map_page_in_dir
allocate_pages zero s dir start_va end_va fl = none
allocate_pages (suc n) s dir start_va end_va fl =
    let rest =
      allocate_pages n ((vm_map_page_in_dir s dir start_va 0 fl).1) dir
        ((start_va + 4096) % u32_mod) end_va fl in
    if leb start_va end_va then rest else some s

-- Both values of `iden_map` do the same.
unfoldable pub vm_allocate_region : ℕ → Vm → ℕ → ℕ → ℕ → Bool → Bool → Option Vm
unfolding allocate_pages
vm_allocate_region n s dir start end rw us =
    allocate_pages n s dir (start / 4096 * 4096) (end / 4096 * 4096)
      (record { ps = true; rw = rw; us = us })

-- `while(start_va <= start_va)`.
unfoldable pub free_pages_from : ℕ → Vm → ℕ → ℕ → Option Vm
unfolding vm_free_page
free_pages_from zero s dir start_va = none
free_pages_from (suc n) s dir start_va =
    let rest = free_pages_from n (vm_free_page s dir start_va) dir ((start_va + 4096) % u32_mod) in
    if leb start_va start_va then rest else some s

unfoldable pub vm_free_region : ℕ → Vm → ℕ → ℕ → ℕ → Option Vm
unfolding free_pages_from
vm_free_region n s dir start end = free_pages_from n s dir (start / 4096 * 4096)
