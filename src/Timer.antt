-- ===== src/Timer.antt =====
-- kernel/arch/i386/pit.c: the interval timer, whose interrupt drives the scheduler.
pub mod Rate
pub mod Tick
pub mod Tests
use condor_fos.Base.{
  ℕ, ◌+◌, ◌*◌, ◌/◌, ◌%◌, Bool, true, Option, some, leb, ◌==◌, if◌then◌else◌, u8, u16, bit_or,
}
use condor_fos.Machine.{Ports, has, Action, pure, crash, when, gets, modify, ◌>>=◌, ◌>>◌}
use condor_fos.Scheduler.{StackState, Scheduler, scheduler_preempt}
use condor_fos.Interrupts.{Idt, Irq, idt_add_irq_isr, pic_ack}

abbrev pub main_frq : ℕ
main_frq = 150

abbrev pub pit_counter0 : ℕ
pit_counter0 = 0x40

abbrev pub pit_command : ℕ
pit_command = 0x43

abbrev pub pit_access_mode_lo_hi : ℕ
pit_access_mode_lo_hi = 0x30

abbrev pub pit_mode_rate_generator : ℕ
pit_mode_rate_generator = 0x04

-- What an interrupt acts on: the scheduler, the registers that the stub has put on the stack and
-- that the handlers get a pointer to, and the machine.
pub record World (D : Type 0) : Type 0 where
  pub scheduler : Scheduler
  pub frame : StackState
  pub machine : D

module _ {D : Type 0} (io : Ports D) where
  -- `ic_ack`, which is `pic_ack`.
  abbrev pub ic_ack : World D → ℕ → World D
  ic_ack w irq = record w { machine = pic_ack (λ d port. (io.inb d port).0) io.outb w.machine irq }

  -- The static variable of the file, the handlers, and the rest.
  pub record Timer : Type 0 where
    pub counter_settings : ℕ → ℕ
    pub idt : Idt ic_ack
    pub world : World D

  -- The result `true` is `HANDLED`.
  unfoldable pub timer_isr : StackState → World D → Bool × World D
  timer_isr state w =
      let (scheduler, frame) = scheduler_preempt w.scheduler w.frame in
      (true, record w { scheduler = scheduler; frame = frame })

  unfoldable pub outb : (port value : ℕ) → Action Timer (Unit {0})
  outb port value =
      modify
        (λ s. record s { world = record s.world { machine = io.outb s.world.machine port value } })

  -- An index behind the three entries of the array is a bad access.
  unfoldable pub pit_write_reload : (value counter : ℕ) → Action Timer (Unit {0})
  pit_write_reload value counter = do
    outb counter (value % 256)
    if leb 3 (counter / 64) then crash else do
      mode ← gets (λ s. s.counter_settings (counter / 64))
      when (has mode pit_access_mode_lo_hi) (outb counter (u8 (value / 256)))

  unfoldable pub pit_create_counter : (frequency counter mode : ℕ) → Action Timer (Unit {0})
  pit_create_counter frequency counter mode =
      if frequency == 0 then pure tt else if leb 3 (counter / 64) then crash else do
        modify (λ s. record s {
          counter_settings = λ i. if (counter / 64) == i then mode else s.counter_settings i;
        })
        outb pit_command (u8 (bit_or mode (counter * 64)))
        pit_write_reload (u16 (1193182 / frequency)) counter

  unfoldable pub pit_init : Action Timer (Unit {0})
  pit_init = do
    modify (λ s. record s { idt = idt_add_irq_isr ic_ack s.idt 0 (some timer_isr) })
    pit_create_counter main_frq pit_counter0 (bit_or pit_access_mode_lo_hi pit_mode_rate_generator)
