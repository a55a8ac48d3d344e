-- ===== src/Timer/Tests.antt =====
-- Tests of kernel/arch/i386/pit.c: the start of the timer, and a tick with two processes.
use condor_fos.Base.{
  ℕ, ◌+◌, ◌*◌, ◌%◌, ◌/◌, ◌^◌, ◌<◌, ◌≤◌, ◌≡◌, refl, false, none, List, [], ◌∷◌, ◌++◌, ◌==◌,
  if◌then◌else◌, arith,
}
use condor_fos.Machine.{Ports, done}
use condor_fos.Machine.Takes.{Ends}
use condor_fos.Pmm.Alloc.{poison_null}
use condor_fos.Scheduler.{Process, running}
use condor_fos.Scheduler.Queue.{IsQueue}
use condor_fos.Timer.{World, Timer, pit_create_counter, pit_init}
use condor_fos.Timer.Rate.{IsDivisor, pit_create_counter_lem}
use condor_fos.Timer.Tick.{Ticks, isr_handler-pit_init}

-- The machine keeps what was written to its ports.
abbrev rig_ports : Ports (List (ℕ × ℕ))
rig_ports = record {
  inb = λ d port. (0, d);
  outb = λ d port v. d ++ (port, v) ∷ [];
  inw = λ d port. (0, d);
  outw = λ d port v. d;
}

abbrev process : (pid next : ℕ) → Process
process pid next = record {
  next = next;
  current_state = running;
  pid = pid;
  timeslice = 0;
  is_usermode = false;
  page_base = 0;
  regs = record { int_num = 0; registers = λ i. pid };
  kernel_esp = 0;
}

abbrev world : World (List (ℕ × ℕ))
world = record {
  scheduler = record {
    heap = λ p. if p == 1 then process 10 2 else process 20 poison_null;
    p_last = 2;
    p_current = 1;
    is_schedueling_proc = false;
    esp0 = 0;
  };
  frame = record { int_num = 32; registers = λ i. 99 };
  machine = [];
}

abbrev start : Timer rig_ports
start = record {
  counter_settings = λ i. 0;
  idt = record { isrs = λ i. none; irqs = λ i. [] };
  world = world;
}

world-IsQueue : IsQueue world.scheduler (1 ∷ 2 ∷ [])
world-IsQueue = (
  refl,
  refl,
  (refl, refl),
  ((λ e. absurd (omega arith), tt), (tt, tt)),
  (λ e. absurd (omega arith), (λ e. absurd (omega arith), tt)),
)

-- 150 Hz: the command and the two bytes of 7954.
pit_init_test :
    Ends ⊥
      (λ r. r.1.world.machine ≡ (0x43, 0x34) ∷ (0x40, 0x12) ∷ (0x40, 0x1f) ∷ [])
      (pit_init rig_ports start)
unfolding pit_init pit_create_counter condor_fos.Timer.pit_write_reload condor_fos.Timer.outb
    condor_fos.Machine.◌>>=◌ condor_fos.Machine.modify condor_fos.Machine.gets
    condor_fos.Machine.pure
pit_init_test = refl

pit_create_counter_lem_example :
    Ends ⊥
      (λ r.
        (low : ℕ) × (high : ℕ) × (r.1.world.machine
          ≡ (0x43, 2 * 64 + 0x36) ∷ (0x42, low) ∷ (0x42, high) ∷ [])
        × (low < 256)
        × (high < 256)
        × (low + 256 * high ≡ 1193182 / 440 % 2 ^ 16)
        × (19 ≤ 440 → IsDivisor (low + 256 * high) 440))
      (pit_create_counter rig_ports 440 0x42 0x36 start)
pit_create_counter_lem_example =
    pit_create_counter_lem rig_ports (λ d. d) (λ d port v. refl) start 440 2 0x36
      (λ e. absurd (omega arith)) (omega arith) (omega arith) refl

isr_handler-pit_init_example :
    Ends ⊥ (λ r. Ticks rig_ports world 1 2 [] world-IsQueue refl r.1.idt) (pit_init rig_ports start)
isr_handler-pit_init_example =
    isr_handler-pit_init rig_ports world 1 2 [] world-IsQueue refl start refl refl
