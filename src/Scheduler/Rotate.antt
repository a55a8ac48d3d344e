-- ===== src/Scheduler/Rotate.antt =====
-- `scheduler_preempt` on the queue: the turn passes on, and the registers with it.
use condor_fos.Base.{
  ℕ, ◌≡◌, refl, sym, ap, ◌∙◌, true, false, not, ◌&&◌, ◌||◌, ◌==◌, if◌then◌else◌, List, [], ◌∷◌,
  ◌++◌, arith, Bool-cases, inl, inr,
}
use condor_fos.Pmm.Alloc.{poison_null}
use condor_fos.Scheduler.{
  StackState, Process, Scheduler, is_initialized, update, set_next, save_registers, rotate, restore,
  scheduler_preempt,
}
use condor_fos.Scheduler.Queue.{
  update-field, next_of, last_of, IsQueue, NotIn-last_of, NotIn-append, IsDistinct-append,
  last_pointer-append, Linked-append, next_of-set_next,
}

-- What a switch leaves of a process besides its place in the queue: the registers are saved and
-- the state is running from the first turn on.
abbrev pub regs_of : Scheduler → ℕ → StackState
regs_of s p = (s.heap p).regs

-- A write that keeps a field.
pub update-keeps :
    {B : Type 0} (f : Process → B) (heap : ℕ → Process) (p : ℕ) (new : Process) (a : ℕ)
    → f new ≡ f (heap p)
    → f (update heap p new a) ≡ f (heap a)
update-keeps f heap p new a same = elim (Bool-cases (p == a)) [
  | inl here ↦
      let e : p ≡ a = ground arith in
      update-field f heap p new a ∙ rw here (same ∙ ap (λ q. f (heap q)) e)
  | inr other ↦ update-field f heap p new a ∙ rw other refl
]

next_of-save_registers :
    (s : Scheduler) (state : StackState) (a : ℕ) → next_of (save_registers s state) a ≡ next_of s a
unfolding save_registers
next_of-save_registers s state a =
    update-keeps (λ p. p.next) s.heap s.p_current _ a
      (elim (Bool-cases (is_initialized (s.heap s.p_current).current_state)) [
        | inl fresh ↦ rw fresh refl
        | inr ran ↦ rw ran refl
      ])

-- The current process with its registers saved, every other one as it was.
abbrev pub saved_regs : Scheduler → StackState → ℕ → StackState
saved_regs s state a =
    if (s.p_current == a) && not (is_initialized (s.heap s.p_current).current_state)
    then state
    else regs_of s a

regs_of-save_registers :
    (s : Scheduler) (state : StackState) (a : ℕ)
    → regs_of (save_registers s state) a ≡ saved_regs s state a
unfolding save_registers
regs_of-save_registers s state a =
    update-field (λ p. p.regs) s.heap s.p_current _ a ∙ elim (Bool-cases (s.p_current == a)) [
      | inl here ↦ elim (Bool-cases (is_initialized (s.heap s.p_current).current_state)) [
        | inl fresh ↦ let e : s.p_current ≡ a = ground arith in rw (here, fresh) (ap (regs_of s) e)
        | inr ran ↦ rw (here, ran) refl
      ]
      | inr other ↦ rw other refl
    ]

module _ (s : Scheduler) (some_last : (s.p_last == poison_null) ≡ false) where
  abbrev ring : Scheduler
  ring = set_next s s.p_last s.p_current

  rotate-pointers :
      ((rotate s).p_last ≡ s.p_current) × ((rotate s).p_current ≡ next_of ring s.p_current)
  unfolding rotate
  rotate-pointers = rw some_last (refl, refl)

  next_of-rotate :
      (a : ℕ)
      → next_of (rotate s) a ≡ (
          if s.p_current == a
          then poison_null
          else if s.p_last == a
          then s.p_current
          else next_of s a)
  unfolding rotate
  next_of-rotate a = rw some_last (
      next_of-set_next ring s.p_current poison_null a
      ∙ ap (λ n. if s.p_current == a then poison_null else n)
          (next_of-set_next s s.p_last s.p_current a))

  regs_of-rotate : (a : ℕ) → regs_of (rotate s) a ≡ regs_of s a
  unfolding rotate
  regs_of-rotate a = rw some_last (
      update-keeps (λ p. p.regs) ring.heap s.p_current _ a refl
      ∙ update-keeps (λ p. p.regs) s.heap s.p_last _ a refl)

pointers :
    (s : Scheduler) (state : StackState)
    → ((save_registers s state).p_last ≡ s.p_last)
      × ((save_registers s state).p_current ≡ s.p_current)
unfolding save_registers
pointers s state = (refl, refl)

module _ (s : Scheduler) (state : StackState) (x y : ℕ) (ys : List ℕ) (q : IsQueue s (x ∷ y ∷ ys))
    (free : s.is_schedueling_proc ≡ false) where
  abbrev last : ℕ
  last = last_of y ys

  abbrev saved : Scheduler
  saved = save_registers s state

  preempt-eq : scheduler_preempt s state ≡ (rotate saved, restore (rotate saved) state)
  unfolding scheduler_preempt
  preempt-eq =
      let some_process : (s.p_current == poison_null) ≡ false = ground (arith, q.0, q.4.0) in
      let follows : next_of s s.p_current ≡ y = ap (next_of s) q.0 ∙ q.2.0 in
      let more : (next_of s s.p_current == poison_null) ≡ false =
        ground (arith, follows, q.4.1.0) in
      rw (some_process, free, more) refl

  last-eq : saved.p_last ≡ last
  last-eq = (pointers s state).0 ∙ q.1

  current-eq : saved.p_current ≡ x
  current-eq = (pointers s state).1 ∙ q.0

  some_last : (saved.p_last == poison_null) ≡ false
  some_last = ground (arith, last-eq, NotIn-last_of poison_null y ys q.4.1)

  next-eq :
      (a : ℕ)
      → next_of (rotate saved) a
        ≡ (if x == a then poison_null else if last == a then x else next_of s a)
  next-eq a =
      next_of-rotate saved some_last a
      ∙ rw (current-eq, last-eq, next_of-save_registers s state a) refl

  turn : (rotate saved).p_current ≡ y
  turn =
      (rotate-pointers saved some_last).1
      ∙ next_of-set_next saved saved.p_last saved.p_current saved.p_current
      ∙ rw (current-eq, last-eq, next_of-save_registers s state x)
          (ground (arith, NotIn-last_of x y ys q.3.0, q.2.0))

  rotated-IsQueue : IsQueue (rotate saved) (y ∷ ys ++ x ∷ [])
  rotated-IsQueue = (
    turn,
    (rotate-pointers saved some_last).0 ∙ current-eq ∙ sym (last_pointer-append y x ys),
    Linked-append (next_of s) (next_of (rotate saved)) x y ys q.2.1 q.3.1 q.3.0
        (ground (arith, next-eq x)) (ground (arith, next-eq last, NotIn-last_of x y ys q.3.0))
        (λ a nx nl. ground (arith, next-eq a)),
    IsDistinct-append x (y ∷ ys) q.3.1 q.3.0,
    NotIn-append poison_null x (y ∷ ys) q.4.1 q.4.0,
  )

  -- With two processes or more and no scheduling under way, a preemption moves the current process
  -- to the end of the queue.
  pub scheduler_preempt-IsQueue : IsQueue (scheduler_preempt s state).0 (y ∷ ys ++ x ∷ [])
  scheduler_preempt-IsQueue = rw preempt-eq rotated-IsQueue

  -- With two processes or more and no scheduling under way, a preemption saves the registers of the
  -- current process unless it has not run yet, keeps those of every other process, and goes on with
  -- the saved registers of the next one and the interrupt number that came in.
  pub scheduler_preempt-registers :
      (a : ℕ)
      → (regs_of (scheduler_preempt s state).0 a ≡ saved_regs s state a)
        × ((scheduler_preempt s state).1 ≡ record (regs_of s y) { int_num = state.int_num })
  scheduler_preempt-registers a =
      let kept : (b : ℕ) → regs_of (rotate saved) b ≡ saved_regs s state b =
        λ b. regs_of-rotate saved some_last b ∙ regs_of-save_registers s state b in
      let other : (s.p_current == y) ≡ false = ground (arith, q.0, q.3.0.0) in
      let regs : regs_of (rotate saved) (rotate saved).p_current ≡ regs_of s y =
        ap (regs_of (rotate saved)) turn ∙ kept y ∙ rw other refl in
      rw preempt-eq (kept a, ap (λ (r : StackState). record r { int_num = state.int_num }) regs)

-- With a single process, a preemption saves nothing and goes back to the registers that were saved
-- before.
scheduler_preempt-single :
    (s : Scheduler) (state : StackState) (x : ℕ)
    → IsQueue s (x ∷ [])
    → s.is_schedueling_proc ≡ false
    → scheduler_preempt s state ≡ (s, record (regs_of s x) { int_num = state.int_num })
unfolding scheduler_preempt
scheduler_preempt-single s state x q free =
    let some_process : (s.p_current == poison_null) ≡ false = ground (arith, q.0, q.4.0) in
    let alone : next_of s s.p_current ≡ poison_null = ap (next_of s) q.0 ∙ q.2 in
    let none : (next_of s s.p_current == poison_null) ≡ true = ground arith in
    let busy : ((s.p_current == poison_null) || s.is_schedueling_proc) ≡ false =
      rw some_process free in
    rw (busy, none) (ap (λ (p : ℕ). (s, record (regs_of s p) { int_num = state.int_num })) q.0)
