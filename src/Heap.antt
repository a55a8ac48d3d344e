-- ===== src/Heap.antt =====
-- kernel/kernel/mm/alloc_hooks.c: how the heap gets pages. A `linear_addr_t*` points to words of 4
-- bytes, so what is added to it counts four times.
pub mod Grow
pub mod Tests
use condor_fos.Base.{
  ℕ, zero, suc, ◌+◌, ◌-◌, ◌*◌, ◌/◌, ◌%◌, ◌^◌, Bool, true, false, leb, ◌==◌, if◌then◌else◌, ones32,
  u32, ◌<<<◌, bit_or,
}
use condor_fos.Pmm.Stack.{Run, ok}
use condor_fos.Pmm.Alloc.{◌>>=◌, pmalloc}
use condor_fos.Vmm.{Vm, page_present, page_rw, vmm_map_address, vmm_unmap_address}
use condor_fos.Hal.{Cpu, hal_disable_interrupts, hal_restore_interrupts}

abbrev pub heap_start : ℕ
heap_start = 0xd000_0000

abbrev pub brk_hard_limit : ℕ
brk_hard_limit = heap_start + 0x0fff_ffff

-- The static variables that change, and the paging.
pub record Brk : Type 0 where
  pub brk_limit : ℕ
  pub has_mapped : Bool
  pub vm : Vm

-- `BLOCK_SIZE` and `length << BLOCK_BITS` as steps of the pointer.
abbrev pub block_step : ℕ
block_step = 4 * 0x1000

abbrev pub limit_step : (length : ℕ) → ℕ
limit_step length = u32 (4 * u32 (length <<< 12))

-- The rounds of a loop from one address to another.
abbrev pub block_rounds : (low high : ℕ) → ℕ
block_rounds low high = (high - low + (block_step - 1)) / block_step

unfoldable pub liballoc_lock : Cpu → ℕ × Cpu
liballoc_lock c = (0, hal_disable_interrupts c)

unfoldable pub liballoc_unlock : Cpu → ℕ × Cpu
liballoc_unlock c = (0, hal_restore_interrupts c)

-- `kernel_base` is the word that C reads at the symbol `KERNEL_VIRTUAL_BASE`.
module _ (kernel_base : ℕ) where
  unfoldable pub map_block : Vm → (at : ℕ) → Run Vm
  map_block vm at =
      let (frame, pmm) = pmalloc vm.pmm in
      vmm_map_address kernel_base (record vm { pmm = pmm }) at frame (bit_or page_present page_rw)
      >>= (λ (ret, vm'). ok vm')

  -- The loops of `psbrk`, with `n` rounds left, at `current_page`.
  unfoldable pub map_blocks : (n : ℕ) → Vm → (current_page : ℕ) → Run Vm
  map_blocks zero vm current_page = ok vm
  map_blocks (suc n) vm current_page =
      map_block vm current_page >>= (λ vm'. map_blocks n vm' (current_page + block_step))

  unfoldable pub unmap_blocks : (n : ℕ) → Vm → (current_page : ℕ) → Run Vm
  unmap_blocks zero vm current_page = ok vm
  unmap_blocks (suc n) vm current_page =
      vmm_unmap_address vm current_page >>= (λ vm'. unmap_blocks n vm' (current_page - block_step))

  unfoldable pub grow : (length : ℕ) → Brk → Run (ℕ × Brk)
  grow length b =
      let moved = u32 (b.brk_limit + limit_step length) in
      if leb brk_hard_limit moved
      then ok (ones32, record b { brk_limit = moved })
      else (map_blocks (block_rounds b.brk_limit moved) b.vm b.brk_limit
          >>= (λ vm. ok (b.brk_limit, record b { brk_limit = moved; vm = vm })))

  unfoldable pub shrink : (length : ℕ) → Brk → Run (ℕ × Brk)
  shrink length b =
      let moved = u32 (b.brk_limit + (2 ^ 32 - limit_step length)) in
      if leb brk_hard_limit moved
      then ok (ones32, record b { brk_limit = moved })
      else (unmap_blocks (block_rounds moved b.brk_limit) b.vm b.brk_limit
          >>= (λ vm. ok (0, record b { brk_limit = moved; vm = vm })))

  unfoldable pub psbrk : (length : ℕ) (reduce : Bool) → Brk → Run (ℕ × Brk)
  psbrk length reduce b = if reduce then shrink length b else grow length b

  -- `if(!has_mapped)`, in both functions.
  unfoldable pub map_first : Brk → Run Brk
  map_first b =
      if b.has_mapped
      then ok b
      else (map_block b.vm heap_start >>= (λ vm. ok (record b { vm = vm; has_mapped = true })))

  unfoldable pub liballoc_alloc : (length : ℕ) → Brk → Run (ℕ × Brk)
  liballoc_alloc length b = map_first b >>= (λ b'. psbrk length false b')

  unfoldable pub liballoc_free : (length : ℕ) → Brk → Run (ℕ × Brk)
  liballoc_free length b = map_first b >>= (λ b'.
      psbrk length true b' >>= (λ (ret, b''). ok ((if ret == ones32 then 0 else 1), b'')))
