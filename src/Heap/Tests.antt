-- ===== src/Heap/Tests.antt =====
-- A request of two pages to kernel/kernel/mm/alloc_hooks.c.
use condor_fos.Base.{◌≡◌, false, true, arith, pos}
use condor_fos.Tasks.Runs.{Gives}
use condor_fos.Heap.{Brk, liballoc_alloc}
use condor_fos.Heap.Grow.{liballoc_alloc_lem}

abbrev fresh : Brk
fresh = record {
  brk_limit = 0xd0001000;
  has_mapped = false;
  vm = record {
    mem = λ frame word. 0;
    cr3 = 0;
    pmm = record {
      low_bitmaps = λ i. 0;
      stacks = record { page32 = 0; page64 = 0; frames = λ f i. 0; stack32_index = pos 0 };
      is_inited = true;
    };
  };
}

liballoc_alloc_lem_example :
    Gives ⊥
      (λ r. (r.0 ≡ 0xd0001000) × (r.1.brk_limit ≡ 0xd0009000))
      (liballoc_alloc 0xc0000000 2 fresh)
liballoc_alloc_lem_example = liballoc_alloc_lem 0xc0000000 fresh 2 (omega arith)
