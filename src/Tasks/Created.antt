-- ===== src/Tasks/Created.antt =====
-- What `process_create` of kernel/kernel/tasks.c leaves: the queue, and the process behind it.
use condor_fos.Base.{
  ℕ, ◌+◌, ◌≡◌, ◌≢◌, ◌⊎◌, inl, inr, refl, sym, ap, ◌∙◌, Bool, ◌==◌, List, arith, Bool-cases, ones32,
  u32,
}
use mathlib.Core.Path.{subst}
use condor_fos.Pmm.Alloc.{poison_null}
use condor_fos.Vaddm.{vmalloc}
use condor_fos.Scheduler.Queue.{IsQueue, NotIn, next_of}
use condor_fos.Tasks.{
  Kernel, blank_process, put_process, number_process, start_process, fill_process, process_create,
}
use condor_fos.Tasks.Runs.{Gives, Gives-bind, Gives-mono}
use condor_fos.Tasks.Stacks.{map-Beside}
use condor_fos.Tasks.Started.{IsQueue-written, field-written, IsStarted, started}

-- The stacks of a process that is created in `k`.
abbrev pub stacks_of : Kernel → ℕ × ℕ
stacks_of k = let (stack_base, w1) = vmalloc k.window 1 in (stack_base, (vmalloc w1 1).0)

-- `fill_process` gives the process `p`, started, and counts it.
abbrev pub Filled : List ℕ → (p entry_point : ℕ) (is_usermode : Bool) → Kernel → ℕ × Kernel → Type 0
Filled xs p entry_point is_usermode k r =
    (r.0 ≡ p)
    × IsStarted p k.pid_counter entry_point (stacks_of k).0 (stacks_of k).1 is_usermode xs
        r.1.scheduler
    × (r.1.pid_counter ≡ u32 (k.pid_counter + 1))

module _ (kernel_base : ℕ) where
  module _ (xs : List ℕ) (p : ℕ) (fresh : NotIn p xs) (real : p ≢ poison_null) (entry_point : ℕ)
      (is_usermode : Bool) (k : Kernel) where
    filled :
        IsQueue k.scheduler xs
        → Gives
            (((stacks_of k).0 ≡ ones32) ⊎ ((stacks_of k).1 ≡ ones32))
            (Filled xs p entry_point is_usermode k)
            (fill_process kernel_base k p entry_point is_usermode)
    unfolding fill_process number_process start_process
    filled q =
        let s = k.scheduler in
        let numbered = number_process k p is_usermode in
        let new = numbered.scheduler.heap p in
        Gives-bind _ _ (map-Beside kernel_base is_usermode _ (stacks_of k).0 (stacks_of k).1)
          (λ mapped (beside, number). record {
            run = (
              refl,
              started xs p fresh real entry_point is_usermode mapped k.pid_counter (stacks_of k).0
                  (stacks_of k).1
                  (subst (λ t. IsQueue t xs) (sym beside) (IsQueue-written s p _ xs fresh q))
                  (ap (λ t. next_of t p) beside ∙ field-written (λ q. q.next) s p _)
                  (ap (λ t. (t.heap p).pid) beside ∙ field-written (λ q. q.pid) s p _)
                  (ap (λ t. (t.heap p).is_usermode) beside
                    ∙ field-written (λ q. q.is_usermode) s p _),
              number,
            );
          })

module _ (kmalloc : Kernel → (size : ℕ) → ℕ × Kernel) where
  -- The address of the process, and the state behind both requests to the heap.
  abbrev pub process_of : Kernel → ℕ
  process_of k = (kmalloc k 28).0

  abbrev second_request : Kernel → ℕ × Kernel
  second_request k = kmalloc (put_process (kmalloc k 28).1 (process_of k) blank_process) 76

  abbrev pub allocated : Kernel → Kernel
  allocated k = (second_request k).1

  abbrev pub NoHeap : Kernel → Type 0
  NoHeap k = (process_of k ≡ 0) ⊎ ((second_request k).0 ≡ 0)

-- `kmalloc` and `kfree` may take pages and change the heap, but no process of the queue; an address
-- that is not null is fresh.
module _ (kernel_base : ℕ) (kmalloc : Kernel → (size : ℕ) → ℕ × Kernel)
    (kfree : Kernel → ℕ → Kernel)
    (kmalloc-IsQueue : (k : Kernel) (size : ℕ) (xs : List ℕ)
      → IsQueue k.scheduler xs
      → IsQueue (kmalloc k size).1.scheduler xs)
    (kmalloc-fresh : (k : Kernel) (size : ℕ) (xs : List ℕ)
      → IsQueue k.scheduler xs
      → (kmalloc k size).0 ≢ 0
      → NotIn (kmalloc k size).0 xs × ((kmalloc k size).0 ≢ poison_null))
    (kfree-IsQueue : (k : Kernel) (p : ℕ) (xs : List ℕ)
      → IsQueue k.scheduler xs
      → IsQueue (kfree k p).scheduler xs) where
  -- `process_create` gives the poisoned pointer, with the queue as it was, where the heap has no room
  -- for the process or its registers. It panics only where one of the two stacks gets no address.
  -- Otherwise it gives the process, which stands behind the others in the queue, with the next number,
  -- the mode and the kernel stack of that mode. Its instruction pointer is the entry point, its stack
  -- pointer 4092 bytes above the base of its stack, its selectors are those of the mode, its flags
  -- 0x202, and its general registers 0.
  pub process_create_lem :
      (k : Kernel) (xs : List ℕ) (entry_point : ℕ) (is_usermode : Bool)
      → IsQueue k.scheduler xs
      → Gives
          (((stacks_of (allocated kmalloc k)).0 ≡ ones32)
            ⊎ ((stacks_of (allocated kmalloc k)).1 ≡ ones32))
          (λ r.
            (NoHeap kmalloc k × (r.0 ≡ poison_null) × IsQueue r.1.scheduler xs)
            ⊎ ((process_of kmalloc k ≢ 0)
                × Filled xs (process_of kmalloc k) entry_point is_usermode (allocated kmalloc k) r))
          (process_create kernel_base kmalloc kfree k entry_point is_usermode)
  unfolding process_create
  process_create_lem k xs entry_point is_usermode q =
      let p = process_of kmalloc k in
      let q1 = kmalloc-IsQueue k 28 xs q in
      elim (Bool-cases (p == 0)) [
        | inl none ↦ rw none (record { run = inl (inl (ground (arith, none)), refl, q1) })
        | inr some_process ↦
            let there : p ≢ 0 = ground (arith, some_process) in
            let (fresh, real) = kmalloc-fresh k 28 xs q there in
            let q2 =
              kmalloc-IsQueue (put_process (kmalloc k 28).1 p blank_process) 76 xs
                (IsQueue-written (kmalloc k 28).1.scheduler p blank_process xs fresh q1) in
            elim (Bool-cases ((second_request kmalloc k).0 == 0)) [
              | inl none ↦
                  rw (some_process, none)
                    (record {
                      run = inl (
                        inr (ground (arith, none)),
                        refl,
                        kfree-IsQueue (allocated kmalloc k) p xs q2,
                      );
                    })
              | inr some_registers ↦
                  rw (some_process, some_registers)
                    (Gives-mono _
                      (filled kernel_base xs p fresh real entry_point is_usermode
                        (allocated kmalloc k) q2)
                      (λ r f. inr (there, f)))
            ]
      ]
