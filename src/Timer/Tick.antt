-- ===== src/Timer/Tick.antt =====
-- A tick of kernel/arch/i386/pit.c, from the vector to the switch of kernel/arch/i386/scheduler.c.
use condor_fos.Base.{ℕ, ◌≡◌, refl, false, some, List, [], ◌∷◌, ◌++◌}
use condor_fos.Machine.{Ports, Run, done, has}
use condor_fos.Machine.Takes.{Ends}
use condor_fos.Interrupts.{Idt, isr_handler, run_actions, idt_add_irq_isr, pic_ack}
use condor_fos.Scheduler.{scheduler_preempt}
use condor_fos.Scheduler.Queue.{IsQueue}
use condor_fos.Scheduler.Rotate.{regs_of, scheduler_preempt-IsQueue, scheduler_preempt-registers}
use condor_fos.Timer.{
  World, Timer, ic_ack, timer_isr, outb, pit_write_reload, pit_create_counter, pit_init,
}

module _ {D : Type 0} (io : Ports D) where
  -- Request 0 has the handler of the timer and no other.
  abbrev IsTimed : Idt (ic_ack io) → Type 0
  IsTimed idt = idt.irqs 0 ≡ timer_isr io ∷ []

  -- What a tick makes of the world.
  abbrev ticked : World D → World D
  ticked w =
      let (scheduler, frame) = scheduler_preempt w.scheduler w.frame in
      record { scheduler = scheduler; frame = frame; machine = io.outb w.machine 0x20 0x20 }

  isr_handler-ticked :
      (idt : Idt (ic_ack io)) (w : World D)
      → IsTimed idt
      → w.frame.int_num ≡ 32
      → isr_handler (ic_ack io) idt w.frame w ≡ some (ticked w)
  unfolding isr_handler run_actions timer_isr pic_ack
  isr_handler-ticked idt w timed vector = rw (vector, timed) refl

  module _ (w : World D) (x y : ℕ) (ys : List ℕ) (q : IsQueue w.scheduler (x ∷ y ∷ ys))
      (free : w.scheduler.is_schedueling_proc ≡ false) where
    abbrev pub Ticks : Idt (ic_ack io) → Type 0
    Ticks idt =
        (w' : World D) × (isr_handler (ic_ack io) idt w.frame w ≡ some w')
        × IsQueue w'.scheduler (y ∷ ys ++ x ∷ [])
        × (w'.frame ≡ record (regs_of w.scheduler y) { int_num = w.frame.int_num })
        × (w'.machine ≡ io.outb w.machine 0x20 0x20)

    timed-Ticks : (idt : Idt (ic_ack io)) → w.frame.int_num ≡ 32 → IsTimed idt → Ticks idt
    timed-Ticks idt vector timed = (
      ticked w,
      isr_handler-ticked idt w timed vector,
      scheduler_preempt-IsQueue w.scheduler w.frame x y ys q free,
      (scheduler_preempt-registers w.scheduler w.frame x y ys q free x).1,
      refl,
    )

    -- Once `pit_init` has run where request 0 had no handler, interrupt 32 makes one turn: with two
    -- processes or more and no scheduling under way, the current process goes to the end of the queue,
    -- the frame of the interrupt gets the saved registers of the next one, and the interrupt
    -- controller is sent one acknowledgement.
    pub isr_handler-pit_init :
        (s : Timer io)
        → s.idt.irqs 0 ≡ []
        → w.frame.int_num ≡ 32
        → Ends ⊥ (λ r. Ticks r.1.idt) (pit_init io s)
    unfolding pit_init pit_create_counter pit_write_reload outb idt_add_irq_isr
        condor_fos.Machine.◌>>=◌ condor_fos.Machine.modify condor_fos.Machine.gets
        condor_fos.Machine.pure
    isr_handler-pit_init s none_yet vector = timed-Ticks _ vector (rw none_yet refl)
