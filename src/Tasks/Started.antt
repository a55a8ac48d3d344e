-- ===== src/Tasks/Started.antt =====
-- The process that kernel/kernel/tasks.c fills and hands over to kernel/arch/i386/scheduler.c.
use condor_fos.Base.{
  ℕ, ◌+◌, ◌%◌, ◌^◌, ◌≡◌, ◌≢◌, inl, inr, refl, ◌∙◌, Bool, true, ◌==◌, if◌then◌else◌, List, [], ◌∷◌,
  ◌++◌, arith, Bool-cases,
}
use condor_fos.Pmm.Alloc.{poison_null}
use condor_fos.Scheduler.{Process, Scheduler, update, schedule_process}
use condor_fos.Scheduler.Queue.{
  IsQueue, NotIn, Linked, next_of, update-field, schedule_process-IsQueue,
}
use condor_fos.Scheduler.Rotate.{update-keeps}
use condor_fos.Tasks.{Kernel, first_registers, start_process}

-- A process that is not in the queue may be written.
module _ (s : Scheduler) (p : ℕ) (new : Process) where
  abbrev pub written : Scheduler
  written = record s { heap = update s.heap p new }

  next-other : (a : ℕ) → p ≢ a → next_of written a ≡ next_of s a
  next-other a apart = update-field (λ q. q.next) s.heap p new a ∙ ground (arith, apart)

  Linked-written :
      (x : ℕ) (xs : List ℕ)
      → NotIn p (x ∷ xs)
      → Linked (next_of s) x xs
      → Linked (next_of written) x xs
  Linked-written x [] fresh linked = next-other x fresh.0 ∙ linked
  Linked-written x (y ∷ ys) fresh linked =
      (next-other x fresh.0 ∙ linked.0, Linked-written y ys fresh.1 linked.1)

  pub IsQueue-written : (xs : List ℕ) → NotIn p xs → IsQueue s xs → IsQueue written xs
  IsQueue-written [] fresh q = q
  IsQueue-written (x ∷ xs) fresh q = (q.0, q.1, Linked-written x xs fresh q.2, q.3, q.4)

-- What the hand-over keeps of a process.
module _ {B : Type 0} (f : Process → B)
    (keeps : (p : Process) (n : ℕ) → f (record p { next = n }) ≡ f p) where
  field-schedule_process :
      (s : Scheduler) (p a : ℕ) → f ((schedule_process s p).heap a) ≡ f (s.heap a)
  unfolding schedule_process
  field-schedule_process s p a = elim (Bool-cases (s.p_current == poison_null)) [
    | inl none ↦ rw none refl
    | inr running ↦ elim (Bool-cases (s.p_last == poison_null)) [
      | inl alone ↦
          rw (running, alone) (update-keeps f s.heap s.p_current _ a (keeps (s.heap s.p_current) p))
      | inr last ↦
          rw (running, last) (update-keeps f s.heap s.p_last _ a (keeps (s.heap s.p_last) p))
    ]
  ]

-- A field of the process that was written.
pub field-written :
    {B : Type 0} (f : Process → B) (s : Scheduler) (p : ℕ) (new : Process)
    → f ((written s p new).heap p) ≡ f new
field-written f s p new =
    update-field f s.heap p new p ∙ (let same : (p == p) ≡ true = ground arith in rw same refl)

-- The 18 registers of a process that starts at the entry point, at the top of its stack, by their
-- place in `stack_state_t`: the selectors of the mode, no general register, and interrupts enabled.
pub record StartAt (entry_point stack_base : ℕ) (is_usermode : Bool) (regs : ℕ → ℕ) : Type 0 where
  pub gs : regs 0 ≡ (if is_usermode then 0x23 else 0x10)
  pub fs : regs 1 ≡ (if is_usermode then 0x23 else 0x10)
  pub es : regs 2 ≡ (if is_usermode then 0x23 else 0x10)
  pub ds : regs 3 ≡ (if is_usermode then 0x23 else 0x10)
  pub edi_to_ebx : (regs 4 ≡ 0) × (regs 5 ≡ 0) × (regs 6 ≡ 0) × (regs 7 ≡ 0) × (regs 8 ≡ 0)
  pub edx_to_error : (regs 9 ≡ 0) × (regs 10 ≡ 0) × (regs 11 ≡ 0) × (regs 12 ≡ 0)
  pub eip : regs 13 ≡ entry_point % 2 ^ 32
  pub cs : regs 14 ≡ (if is_usermode then 0x1b else 0x08)
  pub eflags : regs 15 ≡ 0x202
  pub esp : regs 16 ≡ (stack_base + 4092) % 2 ^ 32
  pub ss : regs 17 ≡ (if is_usermode then 0x23 else 0x10)

first_registers-StartAt :
    (entry_point stack_base : ℕ) (is_usermode : Bool) (regs : ℕ → ℕ)
    → ((i : ℕ) → regs i ≡ first_registers entry_point stack_base is_usermode i)
    → StartAt entry_point stack_base is_usermode regs
unfolding first_registers
first_registers-StartAt entry_point stack_base is_usermode regs are = record {
  gs = are 0;
  fs = are 1;
  es = are 2;
  ds = are 3;
  edi_to_ebx = (are 4, are 5, are 6, are 7, are 8);
  edx_to_error = (are 9, are 10, are 11, are 12);
  eip = are 13;
  cs = are 14;
  eflags = are 15;
  esp = are 16;
  ss = are 17;
}

-- The process that is handed over, behind the queue as it was.
pub record IsStarted (p pid entry_point stack_base kstack_base : ℕ) (is_usermode : Bool)
    (xs : List ℕ) (s : Scheduler) : Type 0 where
  pub queue : IsQueue s (xs ++ p ∷ [])
  pub registers : StartAt entry_point stack_base is_usermode (s.heap p).regs.registers
  pub kernel_esp : (s.heap p).kernel_esp ≡ (if is_usermode then kstack_base else stack_base)
  pub pid_given : (s.heap p).pid ≡ pid
  pub mode : (s.heap p).is_usermode ≡ is_usermode

module _ (xs : List ℕ) (p : ℕ) (fresh : NotIn p xs) (real : p ≢ poison_null) (entry_point : ℕ)
    (is_usermode : Bool) where
  pub started :
      (k : Kernel) (pid stack kstack : ℕ)
      → IsQueue k.scheduler xs
      → next_of k.scheduler p ≡ poison_null
      → (k.scheduler.heap p).pid ≡ pid
      → (k.scheduler.heap p).is_usermode ≡ is_usermode
      → IsStarted p pid entry_point stack kstack is_usermode xs
          (start_process k p entry_point stack kstack is_usermode).scheduler
  unfolding start_process
  started k pid stack kstack q end number mode =
      let s = k.scheduler in
      let new = record (s.heap p) {
        regs = record { int_num = 0; registers = first_registers entry_point stack is_usermode };
        kernel_esp = if is_usermode then kstack else stack;
      } in
      let ready = written s p new in
      let queued =
        schedule_process-IsQueue ready xs p (IsQueue-written s p new xs fresh q) fresh real
          (field-written (λ q. q.next) s p new ∙ end) in
      record {
        queue = queued;
        registers = first_registers-StartAt entry_point stack is_usermode _ (λ i.
            field-schedule_process (λ q. q.regs.registers i) (λ q n. refl) ready p p
            ∙ field-written (λ q. q.regs.registers i) s p new);
        kernel_esp =
            field-schedule_process (λ q. q.kernel_esp) (λ q n. refl) ready p p
            ∙ field-written (λ q. q.kernel_esp) s p new;
        pid_given =
            field-schedule_process (λ q. q.pid) (λ q n. refl) ready p p
            ∙ field-written (λ q. q.pid) s p new
            ∙ number;
        mode =
            field-schedule_process (λ q. q.is_usermode) (λ q n. refl) ready p p
            ∙ field-written (λ q. q.is_usermode) s p new
            ∙ mode;
      }
