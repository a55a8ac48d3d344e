-- ===== src/Scheduler.antt =====
-- kernel/arch/i386/scheduler.c: the list of processes and the switch between them. A process is a
-- record on a heap; the saved registers, which belong to one process, are kept in the record. Here
-- the preemption ends before the line that it prints, which Shown has.
pub mod Queue
pub mod Rotate
pub mod Turns
pub mod Shown
pub mod Tests
use condor_fos.Base.{ℕ, Bool, true, false, not, ◌||◌, ◌==◌, if◌then◌else◌}
use condor_fos.Pmm.Alloc.{poison_null}

-- `stack_state_t`: the interrupt number, and the other registers by their place.
pub record StackState : Type 0 where
  pub int_num : ℕ
  pub registers : ℕ → ℕ

pub data TaskState : Type 0 where
  initialized : TaskState
  running : TaskState
  sleeping : TaskState
  blocked : TaskState
  kernel_request : TaskState

abbrev pub is_initialized : TaskState → Bool
is_initialized initialized = true
is_initialized running = false
is_initialized sleeping = false
is_initialized blocked = false
is_initialized kernel_request = false

pub record Process : Type 0 where
  pub next : ℕ
  pub current_state : TaskState
  pub pid : ℕ
  pub timeslice : ℕ
  pub is_usermode : Bool
  pub page_base : ℕ
  pub regs : StackState
  pub kernel_esp : ℕ

pub record Scheduler : Type 0 where
  pub heap : ℕ → Process
  pub p_last : ℕ
  pub p_current : ℕ
  pub is_schedueling_proc : Bool
  -- The stack pointer that `tss_set_esp0` was given last.
  pub esp0 : ℕ

abbrev pub update : (ℕ → Process) → ℕ → Process → ℕ → Process
update heap p new q = if p == q then new else heap q

-- `p->next = q`.
abbrev pub set_next : Scheduler → (p q : ℕ) → Scheduler
set_next s p q = record s { heap = update s.heap p (record (s.heap p) { next = q }) }

-- Interrupts are off in between, so the flag is down again for everyone else.
unfoldable pub schedule_process : Scheduler → ℕ → Scheduler
schedule_process s process =
    if s.p_current == poison_null
    then record s { p_current = process; is_schedueling_proc = false }
    else if s.p_last == poison_null
    then record (set_next s s.p_current process) { p_last = process; is_schedueling_proc = false }
    else record (set_next s s.p_last process) { p_last = process; is_schedueling_proc = false }

-- The registers are saved unless the process has not run yet.
unfoldable pub save_registers : Scheduler → StackState → Scheduler
save_registers s state =
    let current = s.heap s.p_current in
    record s {
      heap = update s.heap s.p_current (
          if is_initialized current.current_state
          then record current { current_state = running }
          else record current { regs = state });
    }

-- From `if(p_last != POISON_NULL)` to `tss_set_esp0`.
unfoldable pub rotate : Scheduler → Scheduler
rotate s =
    let s1 = if not (s.p_last == poison_null) then set_next s s.p_last s.p_current else s in
    let second = (s1.heap s1.p_current).next in
    let s2 =
      set_next (record s1 { p_last = s1.p_current; p_current = second }) s1.p_current poison_null in
    record s2 { esp0 = (s2.heap s2.p_current).kernel_esp }

-- Behind `skip`: the registers of the current process with the interrupt number that came in.
abbrev pub restore : Scheduler → StackState → StackState
restore s state = record ((s.heap s.p_current).regs) { int_num = state.int_num }

unfoldable pub scheduler_preempt : Scheduler → StackState → Scheduler × StackState
scheduler_preempt s state =
    if (s.p_current == poison_null) || s.is_schedueling_proc
    then (s, state)
    else if (s.heap s.p_current).next == poison_null
    then (s, restore s state)
    else let s' = rotate (save_registers s state) in (s', restore s' state)
