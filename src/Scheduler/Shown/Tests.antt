-- ===== src/Scheduler/Shown/Tests.antt =====
-- The line of a process, and the theorem for it.
use condor_fos.Base.{
  ℕ, zero, suc, ◌+◌, ◌<◌, ◌≡◌, ◌≢◌, refl, arith, inl, inr, Bool, true, false, not, ◌&&◌, Bool-cases,
  some, [], ◌∷◌, ◌==◌, get_or, Memory,
}
use condor_fos.Pmm.Alloc.{poison_null}
use condor_fos.Tty.{Terminal}
use condor_fos.Format.Pieces.{IsText, IsFormat}
use condor_fos.Scheduler.{StackState, Process, Scheduler, initialized, scheduler_preempt, restore}
use condor_fos.Scheduler.Shown.{shown_args, shown_line, IsShown, preempt_shown, preempt_shown_lem}

abbrev strings : Memory
strings i =
    get_or
      (67 ∷ 117 ∷ 114 ∷ 114 ∷ 101 ∷ 110 ∷ 116 ∷ 32 ∷ 80 ∷ 73 ∷ 68 ∷ 40 ∷ 37 ∷ 100 ∷ 41 ∷ 58 ∷ 32
        ∷ 40 ∷ 69 ∷ 73 ∷ 80 ∷ 58 ∷ 32 ∷ 37 ∷ 35 ∷ 108 ∷ 120 ∷ 41 ∷ 10 ∷ [])
      i 0

-- The characters from `f` on are neither a 0 nor a %.
abbrev all_plain : (n f : ℕ) → Bool
all_plain zero f = true
all_plain (suc n) f = not (strings (f + n) == 0) && (not (strings (f + n) == 37) && all_plain n f)

all_plain_lem :
    (n f : ℕ)
    → all_plain n f ≡ true
    → (i : ℕ) → i < n
    → (strings (f + i) ≢ 0) × (strings (f + i) ≢ 37)
all_plain_lem zero f all i h = absurd (omega arith)
all_plain_lem (suc n) f all i h = elim (Bool-cases (i == n)) [
  | inl last ↦ let e : i ≡ n = ground arith in rw e (ground arith, ground arith)
  | inr before ↦ all_plain_lem n f (ground arith) i (ground arith)
]

abbrev eip : ℕ → ℕ
eip i = 0xc0101234

abbrev current : Process
current = record {
  next = poison_null;
  current_state = initialized;
  pid = 3;
  timeslice = 0;
  is_usermode = false;
  page_base = 0;
  regs = record { int_num = 0; registers = eip };
  kernel_esp = 0;
}

abbrev one_process : Scheduler
one_process = record {
  heap = λ p. current;
  p_last = poison_null;
  p_current = 0x1000;
  is_schedueling_proc = false;
  esp0 = 0;
}

abbrev state : StackState
state = record { int_num = 32; registers = λ i. 0 }

line_IsFormat : IsFormat strings (shown_args current) 40 shown_line 0 0
line_IsFormat = (
  (omega arith, omega arith, text1),
  (
    (refl, refl, omega arith, omega arith),
    (
      (omega arith, omega arith, text2),
      ((refl, refl, refl, refl, omega arith), ((omega arith, omega arith, text3), refl)),
    ),
  ),
)
  where
    text1 : IsText strings (shown_args current) 40 12 0
    text1 = record {
      some_char = omega arith;
      short = omega arith;
      plain = λ i h. all_plain_lem 12 0 refl i;
      stops = inr refl;
    }

    text2 : IsText strings (shown_args current) 40 9 14
    text2 = record {
      some_char = omega arith;
      short = omega arith;
      plain = λ i h. all_plain_lem 9 14 refl i;
      stops = inr refl;
    }

    text3 : IsText strings (shown_args current) 40 2 27
    text3 = record {
      some_char = omega arith;
      short = omega arith;
      plain = λ i h. all_plain_lem 2 27 refl i;
      stops = inl refl;
    }

abbrev screen : Terminal
screen = record {
  column = 7;
  row = 12;
  column_store = 0;
  row_store = 0;
  should_update_cursor = 1;
  default_color = 0x1f;
  buffer = λ i. 0;
  ports = [];
}

stays : scheduler_preempt one_process state ≡ (one_process, restore one_process state)
unfolding scheduler_preempt
stays = refl

preempt_shown_lem_example :
    (t' : Terminal) × (preempt_shown (λ c. 0) strings 0 0 (λ i. 0) 40 0 one_process state screen
      ≡ some (one_process, restore one_process state, t'))
    × IsShown strings 0 (one_process.heap one_process.p_current) screen t'
preempt_shown_lem_example =
    preempt_shown_lem (λ c. 0) strings 0 0 (λ i. 0) 40 0 one_process one_process state
      (restore one_process state) screen (omega arith) (omega arith) refl stays line_IsFormat
      (omega arith)
