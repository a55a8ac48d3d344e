-- ===== src/Scheduler/Tests.antt =====
-- Tests of kernel/arch/i386/scheduler.c, and its theorems at concrete queues.
use condor_fos.Base.{ℕ, refl, false, [], ◌∷◌, ◌==◌, if◌then◌else◌, arith}
use condor_fos.Pmm.Alloc.{poison_null}
use condor_fos.Scheduler.{
  StackState, Process, Scheduler, running, schedule_process, scheduler_preempt,
}
use condor_fos.Scheduler.Queue.{IsQueue, schedule_process-IsQueue}
use condor_fos.Scheduler.Turns.{after_ticks, after_ticks-IsQueue}
use condor_fos.Scheduler.Rotate.{scheduler_preempt-IsQueue}

abbrev timer : StackState
timer = record { int_num = 32; registers = λ i. i }

abbrev process : ℕ → Process
process next = record {
  next = next;
  current_state = running;
  pid = 0;
  timeslice = 0;
  is_usermode = false;
  page_base = 0;
  regs = record { int_num = 0; registers = λ i. 0 };
  kernel_esp = 0;
}

-- Process 1 is current and process 2 follows.
abbrev two : Scheduler
two = record {
  heap = λ p. if p == 1 then process 2 else process poison_null;
  p_last = 2;
  p_current = 1;
  is_schedueling_proc = false;
  esp0 = 0;
}

abbrev one : Scheduler
one = record {
  heap = λ p. process poison_null;
  p_last = poison_null;
  p_current = 1;
  is_schedueling_proc = false;
  esp0 = 0;
}

two-IsQueue : IsQueue two (1 ∷ 2 ∷ [])
two-IsQueue = (
  refl,
  refl,
  (refl, refl),
  ((λ e. absurd (omega arith), tt), (tt, tt)),
  (λ e. absurd (omega arith), (λ e. absurd (omega arith), tt)),
)

one-IsQueue : IsQueue one (1 ∷ [])
one-IsQueue = (refl, refl, refl, (tt, tt), (λ e. absurd (omega arith), tt))

schedule_process-IsQueue_example : IsQueue (schedule_process two 3) (1 ∷ 2 ∷ 3 ∷ [])
schedule_process-IsQueue_example =
    schedule_process-IsQueue two (1 ∷ 2 ∷ []) 3 two-IsQueue
      (λ e. absurd (omega arith), (λ e. absurd (omega arith), tt)) (λ e. absurd (omega arith)) refl

scheduler_preempt-IsQueue_example : IsQueue (scheduler_preempt two timer).0 (2 ∷ 1 ∷ [])
scheduler_preempt-IsQueue_example = scheduler_preempt-IsQueue two timer 1 2 [] two-IsQueue refl

-- Process 2 has its turn after one tick.
after_ticks-IsQueue_example : IsQueue (after_ticks 1 (λ i. timer) two) (2 ∷ 1 ∷ [])
after_ticks-IsQueue_example = after_ticks-IsQueue two (λ i. timer) (1 ∷ []) [] 2 two-IsQueue refl
