-- ===== src/Vmm/Tests.antt =====
-- Tests of kernel/arch/i386/vmm.c, and the theorems on mappings at concrete page tables.
use condor_fos.Base.{
  ℕ, ◌+◌, ◌*◌, ◌/◌, ◌<◌, ◌≡◌, refl, true, arith, ◌==◌, if◌then◌else◌, ones32, pos,
}
use condor_fos.Pmm.Stack.{ok}
use condor_fos.Pmm.Alloc.{Pmm}
use condor_fos.Vmm.{
  Vm, read_table, vmm_get_physical_addr, sumap_page, vmm_map_address, read_directory,
}
use condor_fos.Vmm.Paging.{IsPaging, HasTable}
use condor_fos.Vmm.Mapping.{vmm_map_address-lookup, sumap_page_lem}

abbrev pmm : Pmm
pmm = record {
  low_bitmaps = λ i. ones32;
  stacks = record { page32 = 0; page64 = 0; frames = λ page i. 0; stack32_index = pos 0 };
  is_inited = true;
}

-- The directory is frame 1 and maps table 0 to frame 2, which maps page 5 to 0x7000.
abbrev two_frames : Vm
two_frames = record {
  mem = λ frame i.
      if frame == 1
      then (if i == 1023 then 0x1003 else if i == 0 then 0x2003 else 0)
      else if (frame * 1024 + i) == (2 * 1024 + 5)
      then 0x7003
      else 0;
  cr3 = 0x1000;
  pmm = pmm;
}

paging : IsPaging two_frames
paging = record {
  recursive = refl;
  recursive_present = refl;
  apart = λ i below present. ground arith;
}

has_table : (laddr : ℕ) → laddr < 0x40_0000 → HasTable two_frames laddr
unfolding read_directory read_table
has_table laddr h = record { below = omega arith; present = ground arith }

looked_up : vmm_get_physical_addr two_frames 0x5123 ≡ 0x7123
unfolding vmm_get_physical_addr read_directory read_table
looked_up = refl

vmm_map_address-lookup_example :
    (s' : Vm) × (vmm_map_address 0 two_frames 0x6000 0x9000 3 ≡ ok (0, s'))
    × IsPaging s'
    × (vmm_get_physical_addr s' 0x5123 ≡ vmm_get_physical_addr two_frames 0x5123)
unfolding read_table
vmm_map_address-lookup_example =
    vmm_map_address-lookup 0 two_frames paging 0x6000 (has_table 0x6000 (omega arith)) 0x9000 3
      (λ e. absurd (omega arith)) (omega arith) 0x5123 (omega arith) (λ ne. absurd (ne refl)) refl
      refl

sumap_page_lem_example :
    ((sumap_page two_frames 0x5123).0 ≡ read_table two_frames 5 / 4096 * 4096)
    × IsPaging (sumap_page two_frames 0x5123).1
    × (vmm_get_physical_addr (sumap_page two_frames 0x5123).1 0x5000 ≡ 0)
unfolding read_table
sumap_page_lem_example =
    sumap_page_lem two_frames paging 0x5123 (has_table 0x5123 (omega arith)) 0x5000 (omega arith)
      (λ ne. absurd (ne refl)) refl
