-- ===== src/Pmm/Tests.antt =====
-- Tests of kernel/kernel/mm/pmm.c, and its theorems at concrete bitmaps and stacks.
use condor_fos.Base.{
  is_clear, ◌/◌, ◌%◌, ◌≡◌, refl, true, false, none, some, List, [], ◌∷◌, arith, ◌==◌, if◌then◌else◌,
  Memory, ones32, pos, test_bit-zero, test_bit, lt→ltb,
}
use condor_fos.Pmm.Lifo.{HasRoom, pop-push}
use condor_fos.Pmm.{
  PallocFlags, paddm_is_free, scan_blocks, scan_super_bit, end_super_bit, and_then, scan_super_bits,
  scan_superblock, scan_superblocks, paddm_get_first_clear_bits,
}
use condor_fos.Pmm.Blocks.{block, SuperSound, full-block}
use condor_fos.Pmm.Skips.{AllUsed, IsFirstFree}
use condor_fos.Pmm.Search.{found-IsFirstFree, not_found-AllUsed}
use condor_fos.Pmm.Stack.{Stacks, stack_push, stack_pop32}
use condor_fos.Pmm.Alloc.{
  Pmm, pmm_clear_region, kpmalloc, pfree, pmm_init, MmapEntry, blank_bitmaps, pmm_is_inited,
}
use condor_fos.Pmm.Regions.{Succeeds, rounds, cleared_block, pmm_clear_region_lem}
use condor_fos.Pmm.Boot.{Sound, pmm_init-Sound}
use condor_fos.Pmm.Pages.{pfree-kpmalloc}

-- Blocks 0 to 3 are in use.
abbrev four_used : Memory
four_used i = if i == 0 then 15 else 0

four_used-SuperSound : SuperSound four_used
four_used-SuperSound b h s = ground (arith, test_bit-zero (b / 16 % 32))

blank-SuperSound : SuperSound blank_bitmaps
blank-SuperSound b h s = full-block blank_bitmaps b (rw (lt→ltb (b / 32) 136 (omega arith)))

abbrev one_page : PallocFlags
one_page = record { align_64kb = false; low_mem = false; contiguous = true; page_alloc_num = 1 }

first_clear : paddm_get_first_clear_bits four_used one_page ≡ some 4
unfolding paddm_get_first_clear_bits scan_superblocks scan_superblock scan_super_bits end_super_bit
    and_then scan_super_bit scan_blocks paddm_is_free test_bit is_clear
first_clear = refl

none_clear : paddm_get_first_clear_bits blank_bitmaps one_page ≡ none
unfolding paddm_get_first_clear_bits scan_superblocks scan_superblock and_then
none_clear = refl

found-IsFirstFree_example : IsFirstFree four_used 4
found-IsFirstFree_example =
    found-IsFirstFree four_used one_page 4 (omega arith) four_used-SuperSound first_clear

not_found-AllUsed_example : AllUsed blank_bitmaps 4096
not_found-AllUsed_example =
    not_found-AllUsed blank_bitmaps one_page refl refl blank-SuperSound none_clear

-- Two stack pages at 0x1000000 and 0x1001000, with one page pushed.
abbrev stacks : Stacks
stacks = record {
  page32 = 0x1000000;
  page64 = 0x1001000;
  frames = λ page i. if i == 1 then 0x1002000 else ones32;
  stack32_index = pos 1;
}

abbrev drained : Stacks
drained = record stacks { stack32_index = pos 0 }

abbrev pmm : Pmm
pmm = record { low_bitmaps = four_used; stacks = stacks; is_inited = true }

has_room : HasRoom stacks 1
has_room = record {
  index = refl;
  room = omega arith;
  mapped32 = λ e. absurd (omega arith);
  mapped64 = λ e. absurd (omega arith);
}

pop-push_example :
    Succeeds
      (λ s'.
        ((stack_pop32 s').0 ≡ 0x1003000)
        × ((stack_pop32 s').1.stack32_index ≡ pos 1)
        × ((stack_pop32 s').1.page32 ≡ 0x1000000))
      (stack_push stacks 0x1003000)
pop-push_example = pop-push stacks 1 0x1003000 has_room (λ e. absurd (omega arith))

pfree-kpmalloc_example :
    Succeeds
      (λ s'. block s'.low_bitmaps 4 ≡ block four_used 4)
      (pfree (kpmalloc pmm one_page).1 (kpmalloc pmm one_page).0 1)
pfree-kpmalloc_example =
    pfree-kpmalloc pmm one_page 4 (omega arith) four_used-SuperSound first_clear 4 (omega arith)
      (omega arith)

pmm_clear_region_lem_example :
    Succeeds
      (λ p.
        (block p.low_bitmaps 16 ≡ cleared_block (rounds 0x10000 0x2000) four_used 16 16)
        × SuperSound p.low_bitmaps)
      (pmm_clear_region pmm 0x10000 0x2000)
pmm_clear_region_lem_example =
    pmm_clear_region_lem pmm 0x10000 0x2000 16 (omega arith) four_used-SuperSound

abbrev mmap : List MmapEntry
mmap =
    record { addr = 0; len = 0x9fc00; type = 1 }
    ∷ record { addr = 0x9fc00; len = 0x400; type = 2 }
    ∷ record { addr = 0x100000; len = 0x700000; type = 1 }
    ∷ []

pmm_init-Sound_example : Succeeds (λ s'. Sound s' × (pmm_is_inited s' ≡ true)) (pmm_init pmm mmap)
pmm_init-Sound_example = pmm_init-Sound pmm mmap
