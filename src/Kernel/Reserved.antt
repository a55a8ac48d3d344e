-- ===== src/Kernel/Reserved.antt =====
-- What `kinit` has reserved when the page allocator starts.
use condor_fos.Base.{
  ℕ, ◌+◌, ◌-◌, ◌*◌, ◌/◌, ◌%◌, ◌^◌, ◌≤◌, ◌<◌, ◌≡◌, ◌≢◌, refl, arith, ◌∙◌, ◌⊎◌, inl, inr, true, false,
  List, [], ◌∷◌, ◌==◌, u32, bit_and,
}
use condor_fos.Pmm.Blocks.{block}
use condor_fos.Pmm.Stack.{Run, ok, panic}
use condor_fos.Pmm.Alloc.{Pmm, pmm_init, pmm_set_region, pmm_is_inited}
use condor_fos.Pmm.Regions.{
  Succeeds, in_range, rounds, block-pmm_set_region, pmm_set_region-SuperSound,
}
use condor_fos.Pmm.Boot.{Sound, pmm_init-Sound}
use condor_fos.Vmm.{Vm}
use condor_fos.Kernel.{
  kernel_base, BootModule, BootInfo, reserve_module, reserve_modules, reserve_boot, init_memory,
}

-- A block of the bitmap is in use.
abbrev pub IsUsed : Pmm → (j : ℕ) → Type 0
IsUsed p j = block p.low_bitmaps j ≡ 1

set_region-keeps :
    (p : Pmm) (base size j : ℕ) → j < 4096 → IsUsed p j → IsUsed (pmm_set_region p base size) j
set_region-keeps p base size j h used = ground (arith, block-pmm_set_region p base size j h, used)

-- The blocks that bytes of the region lie in.
set_region-covers :
    (p : Pmm) (base size j : ℕ)
    → j < 4096
    → base / 4096 ≤ j
    → j * 4096 < base + size
    → base + size + 0xfff < 2 ^ 32
    → 0 < size
    → IsUsed (pmm_set_region p base size) j
set_region-covers p base size j h low high small some_bytes =
    let end : u32 (base + size + 0xfff) ≡ base + size + 0xfff = omega arith in
    let inside : in_range (base / 4096) (rounds base size) j ≡ true = ground (arith, end) in
    block-pmm_set_region p base size j h ∙ rw inside refl

module _ (j : ℕ) (h : j < 4096) where
  reserve_module-keeps :
      (s : Vm) (at : ℕ) (entry : BootModule)
      → IsUsed s.pmm j
      → IsUsed (reserve_module s at entry).pmm j
  unfolding reserve_module
  reserve_module-keeps s at entry used =
      set_region-keeps _ entry.cmdline 1 j h
        (set_region-keeps _ entry.mod_start _ j h (set_region-keeps s.pmm _ 16 j h used))

  reserve_modules-keeps :
      (entries : List BootModule) (s : Vm) (at : ℕ)
      → IsUsed s.pmm j
      → IsUsed (reserve_modules s at entries).pmm j
  unfolding reserve_modules
  reserve_modules-keeps [] s at used = used
  reserve_modules-keeps (entry ∷ entries) s at used =
      reserve_modules-keeps entries _ (at + 16) (reserve_module-keeps s at entry used)

reserve_module-Sound :
    (s : Vm) (at : ℕ) (entry : BootModule) → Sound s.pmm → Sound (reserve_module s at entry).pmm
unfolding reserve_module
reserve_module-Sound s at entry sound =
    pmm_set_region-SuperSound _ entry.cmdline 1
      (pmm_set_region-SuperSound _ entry.mod_start _ (pmm_set_region-SuperSound s.pmm _ 16 sound))

reserve_modules-Sound :
    (entries : List BootModule) (s : Vm) (at : ℕ)
    → Sound s.pmm
    → Sound (reserve_modules s at entries).pmm
unfolding reserve_modules
reserve_modules-Sound [] s at sound = sound
reserve_modules-Sound (entry ∷ entries) s at sound =
    reserve_modules-Sound entries _ (at + 16) (reserve_module-Sound s at entry sound)

-- A block that holds bytes of the kernel, or of the information of the boot loader.
abbrev pub IsInUse : (kernel_start kernel_end info_struct j : ℕ) → Type 0
IsInUse kernel_start kernel_end info_struct j =
    (((kernel_start - kernel_base) / 4096 ≤ j) × (j * 4096 < kernel_end - kernel_base))
    ⊎ ((info_struct % 2 ^ 30 / 4096 ≤ j) × (j * 4096 < info_struct % 2 ^ 30 + 120))

reserve_boot_lem :
    (s : Vm) (kernel_start kernel_end info_struct : ℕ) (info : BootInfo) (j : ℕ)
    → kernel_base ≤ kernel_start
    → kernel_start < kernel_end
    → kernel_end < kernel_base + 2 ^ 24
    → j < 4096
    → IsInUse kernel_start kernel_end info_struct j
    → IsUsed (reserve_boot s kernel_start kernel_end info_struct info).pmm j
unfolding reserve_boot
reserve_boot_lem s kernel_start kernel_end info_struct info j base some_bytes small h
      (inl (low, high)) =
    reserve_modules-keeps j h info.modules _ _ (
      set_region-keeps _ (info_struct % 2 ^ 30) 120 j h (
        set_region-covers s.pmm (kernel_start - kernel_base) (kernel_end - kernel_base) j h low
          (omega (arith, high)) (omega arith) (omega arith)))
reserve_boot_lem s kernel_start kernel_end info_struct info j base some_bytes small h
      (inr (low, high)) =
    reserve_modules-keeps j h info.modules _ _
      (set_region-covers _ (info_struct % 2 ^ 30) 120 j h low high (omega arith) (omega arith))

reserve_boot-Sound :
    (s : Vm) (kernel_start kernel_end info_struct : ℕ) (info : BootInfo)
    → Sound s.pmm
    → Sound (reserve_boot s kernel_start kernel_end info_struct info).pmm
unfolding reserve_boot
reserve_boot-Sound s kernel_start kernel_end info_struct info sound =
    reserve_modules-Sound info.modules _ _ (
      pmm_set_region-SuperSound _ (info_struct % 2 ^ 30) 120
        (pmm_set_region-SuperSound s.pmm _ _ sound))

-- With a memory map, for a kernel that lies in the first 16 MB, `kinit` sets up the page allocator
-- without a panic. The bitmaps have their invariant, and each block
-- below 16 MB that holds bytes of the kernel or of the information of the boot loader is in use,
-- whatever the map says of it.
pub init_memory_lem :
    (s : Vm) (kernel_start kernel_end info_struct : ℕ) (info : BootInfo) (j : ℕ)
    → bit_and info.flags 0x40 ≢ 0
    → kernel_base ≤ kernel_start
    → kernel_start < kernel_end
    → kernel_end < kernel_base + 2 ^ 24
    → j < 4096
    → IsInUse kernel_start kernel_end info_struct j
    → Succeeds
        (λ s'. Sound s'.pmm × IsUsed s'.pmm j)
        (init_memory s kernel_start kernel_end info_struct info)
unfolding init_memory
init_memory_lem s kernel_start kernel_end info_struct info j map base some_bytes small h used =
    let has_map : (bit_and info.flags 0x40 == 0) ≡ false = ground arith in
    rw has_map (started (pmm_init s.pmm info.mmap) (pmm_init-Sound s.pmm info.mmap))
  where
    started :
        (r : Run Pmm)
        → Succeeds (λ p. Sound p × (pmm_is_inited p ≡ true)) r
        → Succeeds
            (λ s'. Sound s'.pmm × IsUsed s'.pmm j)
            (elim r as (λ r'. Run Vm) [
              | ok pmm ↦
                  ok
                    (reserve_boot (record s { pmm = pmm }) kernel_start kernel_end info_struct info)
              | panic ↦ panic
            ])
    started (ok p) (sound, inited) = (
      reserve_boot-Sound (record s { pmm = p }) kernel_start kernel_end info_struct info sound,
      reserve_boot_lem (record s { pmm = p }) kernel_start kernel_end info_struct info j base
          some_bytes small h used,
    )
    started panic p = p
