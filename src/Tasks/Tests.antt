-- ===== src/Tasks/Tests.antt =====
-- The creation of a second process of kernel/kernel/tasks.c, on a heap that has room for one.
use condor_fos.Base.{
  ℕ, ◌≡◌, ◌≢◌, ◌⊎◌, refl, sym, ◌∙◌, pos, Bool, true, false, ◌&&◌, ◌==◌, if◌then◌else◌, List, [],
  ◌∷◌, arith, ones32, Bool-cases, inl, inr,
}
use condor_fos.Pmm.Alloc.{poison_null}
use condor_fos.Scheduler.{Scheduler, running}
use condor_fos.Scheduler.Queue.{IsQueue, NotIn, NotIn-last_of}
use condor_fos.Tasks.{Kernel, blank_process, process_create}
use condor_fos.Tasks.Runs.{Gives}
use condor_fos.Tasks.Created.{stacks_of, Filled, process_of, allocated, NoHeap, process_create_lem}

abbrev kernel : Kernel
kernel = record {
  vm = record {
    mem = λ frame word. 0;
    cr3 = 0;
    pmm = record {
      low_bitmaps = λ i. 0;
      stacks = record { page32 = 0; page64 = 0; frames = λ f i. 0; stack32_index = pos 0 };
      is_inited = true;
    };
  };
  window = λ i. 0;
  scheduler = record {
    heap = λ p. record blank_process { next = poison_null; current_state = running };
    p_last = poison_null;
    p_current = 5;
    is_schedueling_proc = false;
    esp0 = 0;
  };
  pid_counter = 1;
}

-- There is one process, at 5.
abbrev is_alone : Scheduler → Bool
is_alone s = (s.p_current == 5) && (s.p_last == poison_null)

abbrev kmalloc : Kernel → (size : ℕ) → ℕ × Kernel
kmalloc k size = ((if is_alone k.scheduler then (if size == 28 then 6 else 7) else 0), k)

abbrev kfree : Kernel → ℕ → Kernel
kfree k p = k

alone :
    (s : Scheduler) (xs : List ℕ) (n : ℕ)
    → IsQueue s xs
    → s.p_current ≡ 5
    → s.p_last ≡ poison_null
    → n ≢ 5
    → NotIn n xs
alone s [] n q current last other = tt
alone s (x ∷ []) n q current last other = ((λ e. other (e ∙ sym q.0 ∙ current)), tt)
alone s (x ∷ y ∷ ys) n q current last other =
    absurd (NotIn-last_of poison_null y ys q.4.1 (sym last ∙ q.1))

kmalloc-fresh :
    (k : Kernel) (size : ℕ) (xs : List ℕ)
    → IsQueue k.scheduler xs
    → (kmalloc k size).0 ≢ 0
    → NotIn (kmalloc k size).0 xs × ((kmalloc k size).0 ≢ poison_null)
kmalloc-fresh k size xs q room = elim (Bool-cases (is_alone k.scheduler)) [
  | inl one ↦ (
    alone k.scheduler xs (kmalloc k size).0 q (ground (arith, one)) (ground (arith, one))
        (ground (arith, one)),
    ground (arith, one),
  )
  | inr more ↦ absurd (room (ground (arith, more)))
]

kernel-IsQueue : IsQueue kernel.scheduler (5 ∷ [])
kernel-IsQueue = (refl, refl, refl, (tt, tt), ((λ e. absurd (omega arith)), tt))

process_create_lem_example :
    Gives
      (((stacks_of (allocated kmalloc kernel)).0 ≡ ones32)
        ⊎ ((stacks_of (allocated kmalloc kernel)).1 ≡ ones32))
      (λ r.
        (NoHeap kmalloc kernel × (r.0 ≡ poison_null) × IsQueue r.1.scheduler (5 ∷ []))
        ⊎ ((process_of kmalloc kernel ≢ 0) × Filled (5 ∷ []) 6 0x100000 true kernel r))
      (process_create 0xc0000000 kmalloc kfree kernel 0x100000 true)
process_create_lem_example =
    process_create_lem 0xc0000000 kmalloc kfree (λ k size xs q. q) kmalloc-fresh (λ k p xs q. q)
      kernel (5 ∷ []) 0x100000 true kernel-IsQueue
