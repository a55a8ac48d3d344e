-- ===== src/Scheduler/Turns.antt =====
-- Who is current after several ticks of `scheduler_preempt`.
use condor_fos.Base.{
  Bool-cases, inl, inr, ◌||◌, ℕ, zero, suc, ◌≡◌, refl, ◌∙◌, sym, false, ◌==◌, List, [], ◌∷◌, ◌++◌,
  length,
}
use mathlib.Core.Path.{subst}
use mathlib.Core.List.{append_assoc, append-nil}
use condor_fos.Pmm.Alloc.{poison_null}
use condor_fos.Scheduler.{StackState, Scheduler, scheduler_preempt, save_registers, rotate}
use condor_fos.Scheduler.Queue.{IsQueue}
use condor_fos.Scheduler.Rotate.{scheduler_preempt-IsQueue}

-- `n` ticks, each with the registers that it finds.
unfoldable pub after_ticks : (n : ℕ) → (ℕ → StackState) → Scheduler → Scheduler
after_ticks zero states s = s
after_ticks (suc n) states s =
    after_ticks n (λ i. states (suc i)) (scheduler_preempt s (states 0)).0

rotate-flag : (s : Scheduler) → (rotate s).is_schedueling_proc ≡ s.is_schedueling_proc
unfolding rotate
rotate-flag s = elim (Bool-cases (s.p_last == poison_null)) [
  | inl none ↦ rw none refl
  | inr some_last ↦ rw some_last refl
]

-- A tick does not start the scheduling of a process.
scheduler_preempt-free :
    (s : Scheduler) (state : StackState)
    → s.is_schedueling_proc ≡ false
    → (scheduler_preempt s state).0.is_schedueling_proc ≡ false
unfolding scheduler_preempt save_registers
scheduler_preempt-free s state free =
    elim (Bool-cases ((s.p_current == poison_null) || s.is_schedueling_proc)) [
      | inl stays ↦ rw stays free
      | inr goes ↦ elim (Bool-cases ((s.heap s.p_current).next == poison_null)) [
        | inl alone ↦ rw (goes, alone) free
        | inr more ↦ rw (goes, more) (rotate-flag (save_registers s state) ∙ free)
      ]
    ]

module _ (ys : List ℕ) (p : ℕ) where
  -- One tick, where `x` stands in front.
  turn :
      (s : Scheduler) (state : StackState) (x : ℕ) (xs : List ℕ)
      → IsQueue s (x ∷ xs ++ p ∷ ys)
      → s.is_schedueling_proc ≡ false
      → IsQueue (scheduler_preempt s state).0 (xs ++ p ∷ (ys ++ x ∷ []))
  turn s state x [] q free = scheduler_preempt-IsQueue s state x p ys q free
  turn s state x (y ∷ xs) q free =
      subst (IsQueue (scheduler_preempt s state).0) (append_assoc (y ∷ xs) (p ∷ ys) (x ∷ []))
        (scheduler_preempt-IsQueue s state x y (xs ++ p ∷ ys) q free)

-- With no scheduling under way, a process that waits is current after as many ticks as there are
-- processes in front of it, whatever registers the ticks find, and those stand behind the others
-- then, in the order in which they stood.
pub after_ticks-IsQueue :
    (s : Scheduler) (states : ℕ → StackState) (xs ys : List ℕ) (p : ℕ)
    → IsQueue s (xs ++ p ∷ ys)
    → s.is_schedueling_proc ≡ false
    → IsQueue (after_ticks (length xs) states s) (p ∷ ys ++ xs)
unfolding after_ticks
after_ticks-IsQueue s states [] ys p q free = subst (IsQueue s) (sym (append-nil (p ∷ ys))) q
after_ticks-IsQueue s states (x ∷ xs) ys p q free =
    let s' = (scheduler_preempt s (states 0)).0 in
    let free' = scheduler_preempt-free s (states 0) free in
    subst (IsQueue (after_ticks (length xs) (λ i. states (suc i)) s'))
      (append_assoc (p ∷ ys) (x ∷ []) xs)
      (after_ticks-IsQueue s' (λ i. states (suc i)) xs (ys ++ x ∷ []) p
        (turn ys p s (states 0) x xs q free) free')
