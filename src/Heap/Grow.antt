-- ===== src/Heap/Grow.antt =====
-- The limit of the heap under kernel/kernel/mm/alloc_hooks.c.
use condor_fos.Base.{
  ℕ, zero, suc, ◌+◌, ◌*◌, ◌^◌, ◌<◌, ◌≡◌, ◌≢◌, refl, ◌∙◌, leb, if◌then◌else◌, arith, Bool-cases, inl,
  inr, ones32, u32,
}
use condor_fos.Pmm.Stack.{Run}
use condor_fos.Pmm.Alloc.{pmalloc}
use condor_fos.Vmm.{Vm}
use condor_fos.Tasks.Runs.{Gives, Gives-bind, Gives-weaken}
use condor_fos.Tasks.Stacks.{vmm_map_address-two}
use condor_fos.Heap.{
  Brk, heap_start, brk_hard_limit, block_step, limit_step, block_rounds, map_block, map_blocks,
  grow, psbrk, map_first, liballoc_alloc,
}

module _ (kernel_base : ℕ) where
  Mapped : Run Vm → Type 0
  Mapped r = Gives ⊥ (λ (vm : Vm). Unit {0}) r

  map_block-Mapped : (vm : Vm) (at : ℕ) → at ≢ ones32 → Mapped (map_block kernel_base vm at)
  unfolding map_block Mapped
  map_block-Mapped vm at real =
      Gives-bind _ _
        (Gives-weaken _ real
          (vmm_map_address-two kernel_base (record vm { pmm = (pmalloc vm.pmm).1 }) at _ _))
        (λ r two. record { run = tt })

  map_blocks-Mapped :
      (n : ℕ) (vm : Vm) (at : ℕ)
      → at + n * block_step < ones32
      → Mapped (map_blocks kernel_base n vm at)
  unfolding map_blocks Mapped
  map_blocks-Mapped zero vm at below = record { run = tt }
  map_blocks-Mapped (suc n) vm at below =
      Gives-bind _ _ (map_block-Mapped vm at (omega arith))
        (λ vm' u. map_blocks-Mapped n vm' (at + block_step) (omega arith))

  map_first-limit :
      (b : Brk) → Gives ⊥ (λ (b' : Brk). b'.brk_limit ≡ b.brk_limit) (map_first kernel_base b)
  unfolding map_first Mapped
  map_first-limit b = elim (Bool-cases b.has_mapped) [
    | inl mapped ↦ rw mapped (record { run = refl })
    | inr first ↦ rw first (
        Gives-bind _ _ (map_block-Mapped b.vm heap_start (λ e. absurd (omega (arith, e))))
          (λ vm u. record { run = refl }))
  ]

  -- The address that a request gets, and the limit that is left, for a limit `limit`.
  abbrev pub IsGrown : (limit length : ℕ) → ℕ × Brk → Type 0
  IsGrown limit length r =
      (r.0 ≡ (if leb brk_hard_limit (limit + length * block_step) then ones32 else limit))
      × (r.1.brk_limit ≡ limit + length * block_step)

  grow-IsGrown :
      (b : Brk) (limit length : ℕ)
      → b.brk_limit ≡ limit
      → limit + length * block_step < 2 ^ 32
      → Gives ⊥ (IsGrown limit length) (grow kernel_base length b)
  unfolding grow Mapped
  grow-IsGrown b limit length here fits =
      let up = limit + length * block_step in
      let moved : u32 (b.brk_limit + limit_step length) ≡ up = omega (arith, here, fits) in
      elim (Bool-cases (leb brk_hard_limit up)) [
        | inl full ↦ rw (moved, full) (record { run = (rw full refl, refl) })
        | inr room ↦
            rw (moved, room)
              (Gives-bind _ _
                (map_blocks-Mapped (block_rounds b.brk_limit up) b.vm b.brk_limit
                  (ground (arith, here, room)))
                (λ vm u. record { run = (here ∙ rw room refl, refl) }))
      ]

  -- `liballoc_alloc` returns as long as the new limit fits in 32 bits. The limit goes up by four pages
  -- for every page that is asked for; the caller gets the old limit while the new one is below the
  -- hard limit, and 0xFFFFFFFF otherwise, where the limit has moved all the same.
  pub liballoc_alloc_lem :
      (b : Brk) (length : ℕ)
      → b.brk_limit + length * block_step < 2 ^ 32
      → Gives ⊥ (IsGrown b.brk_limit length) (liballoc_alloc kernel_base length b)
  unfolding liballoc_alloc psbrk
  liballoc_alloc_lem b length fits =
      Gives-bind _ _ (map_first-limit b) (λ b' e. grow-IsGrown b' b.brk_limit length e fits)
