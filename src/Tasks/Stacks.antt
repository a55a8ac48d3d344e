-- ===== src/Tasks/Stacks.antt =====
-- The mapping of the two stacks of a process in kernel/kernel/tasks.c.
use condor_fos.Base.{
  ℕ, ◌≡◌, ◌⊎◌, inl, inr, refl, ◌∙◌, Bool, true, false, ◌==◌, if◌then◌else◌, arith, Bool-cases,
  ones32,
}
use condor_fos.Pmm.Stack.{Run, ok, panic}
use condor_fos.Pmm.Alloc.{pmalloc}
use condor_fos.Vmm.{Vm, page_present, page_rw, vmm_map_address, free_page}
use condor_fos.Tasks.{Kernel, map_stack, map_user, map_kernel}
use condor_fos.Tasks.Runs.{Gives, Gives-bind, Gives-weaken, any_outcome}

-- The stacks touch neither the scheduler nor the counter.
abbrev pub Beside : Kernel → Kernel → Type 0
Beside k k' = (k'.scheduler ≡ k.scheduler) × (k'.pid_counter ≡ k.pid_counter)

Beside-trans : (a b c : Kernel) → Beside a b → Beside b c → Beside a c
Beside-trans a b c p q = (q.0 ∙ p.0, q.1 ∙ p.1)

module _ (kernel_base : ℕ) where
  pub vmm_map_address-two :
      (s : Vm) (laddr paddr flags : ℕ)
      → Gives
          (laddr ≡ ones32)
          (λ r. r.0 ≡ 2 → laddr ≡ ones32)
          (vmm_map_address kernel_base s laddr paddr flags)
  unfolding vmm_map_address condor_fos.Vmm.smap_page condor_fos.Vmm.set_entry
  vmm_map_address-two s laddr paddr flags = elim (Bool-cases (paddr == ones32)) [
    | inl full ↦ rw full (record { run = λ e. absurd (omega arith) })
    | inr some_frame ↦ elim (Bool-cases (laddr == ones32)) [
      | inl none_left ↦
          let e : laddr ≡ ones32 = ground arith in
          rw (some_frame, none_left)
            (Gives-bind (free_page s paddr) (λ s'. ok (2, s'))
              (record { run = any_outcome (free_page s paddr) e })
              (λ s' u. record { run = λ two. e }))
      | inr page ↦ rw (some_frame, page) (record { run = λ two. ground arith })
    ]
  ]

  map_stack-Beside :
      (k : Kernel) (stack flags : ℕ)
      → Gives
          (stack ≡ ones32)
          (λ r. (r.0 ≡ 2 → stack ≡ ones32) × Beside k r.1)
          (map_stack kernel_base k stack flags)
  unfolding map_stack
  map_stack-Beside k stack flags =
      Gives-bind _ _
        (vmm_map_address-two (record k.vm { pmm = (pmalloc k.vm.pmm).1 }) stack _ flags)
        (λ r two. record { run = (two, (refl, refl)) })

  -- The test for the value 2.
  checked :
      (stack ret : ℕ) {Q : Kernel → Type 0} (rest : Run Kernel)
      → (ret ≡ 2 → stack ≡ ones32)
      → {Why : Type 0} → (stack ≡ ones32 → Why)
      → Gives Why Q rest
      → Gives Why Q (if ret == 2 then panic else rest)
  checked stack ret rest two why next = elim (Bool-cases (ret == 2)) [
    | inl failed ↦ rw failed (record { run = why (two (ground arith)) })
    | inr mapped ↦ rw mapped next
  ]

  map_user-Beside :
      (k : Kernel) (stack kstack : ℕ)
      → Gives
          ((stack ≡ ones32) ⊎ (kstack ≡ ones32))
          (Beside k)
          (map_user kernel_base k stack kstack)
  unfolding map_user
  map_user-Beside k stack kstack =
      Gives-bind _ _ (Gives-weaken _ inl (map_stack-Beside k stack _)) (λ r p.
        checked stack r.0 _ p.0 inl (
          Gives-bind _ _ (Gives-weaken _ inr (map_stack-Beside r.1 kstack _)) (λ q p'.
            checked kstack q.0 _ p'.0 inr (record { run = Beside-trans k r.1 q.1 p.1 p'.1 }))))

  map_kernel-Beside :
      (k : Kernel) (stack kstack : ℕ)
      → Gives
          ((stack ≡ ones32) ⊎ (kstack ≡ ones32))
          (Beside k)
          (map_kernel kernel_base k stack kstack)
  unfolding map_kernel
  map_kernel-Beside k stack kstack =
      Gives-bind _ _ (Gives-weaken _ inl (map_stack-Beside k stack _))
        (λ r p. checked stack r.0 _ p.0 inl (record { run = p.1 }))

  pub map-Beside :
      (is_usermode : Bool) (k : Kernel) (stack kstack : ℕ)
      → Gives ((stack ≡ ones32) ⊎ (kstack ≡ ones32)) (Beside k) (
          if is_usermode
          then map_user kernel_base k stack kstack
          else map_kernel kernel_base k stack kstack)
  map-Beside true k stack kstack = map_user-Beside k stack kstack
  map-Beside false k stack kstack = map_kernel-Beside k stack kstack
