-- ===== src/Kernel/Body.antt =====
-- The pages of a module of the boot loader, of which `kinit` takes the negative length.
use condor_fos.Base.{
  ℕ, ◌+◌, ◌-◌, ◌*◌, ◌/◌, ◌%◌, ◌^◌, ◌≤◌, ◌<◌, ◌≡◌, arith, Bool, ◌&&◌, ◌||◌, ltb, leb, ◌==◌,
  if◌then◌else◌, u32,
}
use condor_fos.Pmm.Blocks.{block}
use condor_fos.Pmm.Alloc.{Pmm, pmm_set_region}
use condor_fos.Pmm.Regions.{block-pmm_set_region}
use condor_fos.Vmm.{Vm, vmm_get_physical_addr}
use condor_fos.Kernel.{BootModule, reserve_module}

-- Bytes of the region lie in block `j`.
abbrev pub covers : (base size j : ℕ) → Bool
covers base size j = leb (base / 4096) j && ltb (j * 4096) (base + size)

-- A region that does not wrap around marks its blocks.
block-region :
    (p : Pmm) (base size j : ℕ)
    → j < 4096
    → 0 < size
    → base + size + 0xfff < 2 ^ 32
    → block (pmm_set_region p base size).low_bitmaps j
      ≡ (if covers base size j then 1 else block p.low_bitmaps j)
block-region p base size j h some_bytes small =
    let end : u32 (base + size + 0xfff) ≡ base + size + 0xfff = omega arith in
    ground (arith, block-pmm_set_region p base size j h, end)

-- A region that ends before it begins marks nothing.
block-reversed :
    (p : Pmm) (first last j : ℕ)
    → j < 4096
    → first % 4096 ≡ 0
    → first < last
    → last ≤ 2 * first
    → last < 2 ^ 31
    → block (pmm_set_region p first (u32 (2 ^ 32 + first - last))).low_bitmaps j
      ≡ block p.low_bitmaps j
block-reversed p first last j h aligned long half small =
    let size : u32 (2 ^ 32 + first - last) ≡ 2 ^ 32 + first - last = omega arith in
    let end : u32 (first + (2 ^ 32 + first - last) + 0xfff) / 4096 ≤ first / 4096 = omega arith in
    rw size (ground (arith, block-pmm_set_region p first (2 ^ 32 + first - last) j h, end))

-- For a module that begins at a page, is not longer than its address and lies below 2 GB, `kinit`
-- marks the blocks of its entry in the list of modules and the block that its command line begins
-- in, both below 2 GB too, and no other: the pages of the module itself stay as they were.
pub reserve_module_lem :
    (s : Vm) (at : ℕ) (entry : BootModule) (j : ℕ)
    → j < 4096
    → entry.mod_start % 4096 ≡ 0
    → entry.mod_start < entry.mod_end
    → entry.mod_end ≤ 2 * entry.mod_start
    → entry.mod_end < 2 ^ 31
    → vmm_get_physical_addr s at < 2 ^ 31
    → entry.cmdline < 2 ^ 31
    → block (reserve_module s at entry).pmm.low_bitmaps j ≡ (
        if covers (vmm_get_physical_addr s at) 16 j || (j == entry.cmdline / 4096)
        then 1
        else block s.pmm.low_bitmaps j)
unfolding reserve_module
reserve_module_lem s at entry j h aligned long half small low line = ground (
  arith,
  block-region
      (pmm_set_region (pmm_set_region s.pmm (vmm_get_physical_addr s at) 16) entry.mod_start
        (u32 (2 ^ 32 + entry.mod_start - entry.mod_end)))
      entry.cmdline 1 j h (omega arith) (omega arith),
  block-reversed (pmm_set_region s.pmm (vmm_get_physical_addr s at) 16) entry.mod_start
      entry.mod_end j h aligned long half small,
  block-region s.pmm (vmm_get_physical_addr s at) 16 j h (omega arith) (omega arith),
)
