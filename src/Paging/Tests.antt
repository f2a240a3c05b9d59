-- ===== src/Paging/Tests.antt =====
-- The theorems on src/paging.c at an empty directory.
use nibras_os.Prelude.{◌≡◌, refl, some, [], ◌∷◌, arith, true, false, bit}
use nibras_os.Frames.{Frames}
use nibras_os.Paging.{
  Vm, Flags, vm_map_page_in_dir, vm_get_physical_address, vm_free_page, page_table_index,
  vm_allocate_region,
}
use nibras_os.Paging.Memory.{Owned}
use nibras_os.Paging.Mapping.{Mapped, vm_map_page_in_dir-Mapped, vm_get_physical_address-free}
use nibras_os.Paging.Regions.{vm_allocate_region-ends}

-- The frames 0, 1 and 2 are in use.
abbrev frames : Frames
frames = record {
  mapped = true;
  bitmap = 7 ∷ 0 ∷ [];
  bitmap_cells = 2;
  frames_count = 64;
  allocated = 3;
  zeroed = [];
}

-- The directory at 4096 is empty.
abbrev vm : Vm
vm = record {
  mem = λ x. 0;
  frames = frames;
  kernel_page_directory = 4096;
  current_page_directory = 4096;
  cr3 = 4096;
  paging = true;
}

abbrev flags : Flags
flags = record { ps = true; rw = true; us = false }

vm-Owned : Owned vm 4096
unfolding bit
vm-Owned = record {
  valid = record { mapped = refl; storage = omega arith; addressable = omega arith };
  aligned = refl;
  dir_used = refl;
  phys_used = refl;
  table_used = λ i lt p. absurd (omega arith);
  not_dir = λ i lt p. absurd (omega arith);
  not_phys = λ i lt p. absurd (omega arith);
  apart = λ i j li lj ne p q. absurd (omega arith);
}

vm_map_page_in_dir-Mapped_example :
    Mapped vm (vm_map_page_in_dir vm 4096 3221229568 1048576 flags) 4096 3221229568 1048576
vm_map_page_in_dir-Mapped_example =
    vm_map_page_in_dir-Mapped vm 4096 3221229568 1048576 flags vm-Owned (omega arith) refl
      (omega arith) refl (omega arith)

vm_get_physical_address-free_example :
    vm_get_physical_address (vm_free_page vm 4096 3221229568) 4096 3221229568
    ≡ vm_get_physical_address vm 4096 3221229568
unfolding page_table_index
vm_get_physical_address-free_example =
    vm_get_physical_address-free vm 4096 3221229568 vm-Owned (omega arith)

vm_allocate_region-ends_example :
    (s1 : Vm) × (vm_allocate_region 3 vm 4096 3221225472 3221229568 true false ≡ some s1)
vm_allocate_region-ends_example =
    vm_allocate_region-ends 2 vm 4096 3221225472 3221229568 true false (omega arith) (omega arith)
