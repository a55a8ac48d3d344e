-- ===== src/Interrupts/Tests.antt =====
-- Tests of kernel/arch/i386/idt.c and pic.c, and their theorems at a concrete device.
use condor_fos.Base.{
  ℕ, ◌+◌, ◌*◌, ◌<◌, ◌≡◌, ◌⊎◌, refl, true, Bool, [], none, ◌==◌, if◌then◌else◌, Memory, write,
}
use condor_fos.Scheduler.{StackState}
use condor_fos.Interrupts.{Idt}

-- A device that is a register for each port.
abbrev inb : Memory → ℕ → ℕ
inb d port = d port

abbrev outb : Memory → (port value : ℕ) → Memory
outb d port value = write d port value

reads_back :
    (d : Memory) (p q v : ℕ)
    → (p ≡ 0x21) ⊎ (p ≡ 0xa1)
    → (q ≡ 0x21) ⊎ (q ≡ 0xa1)
    → v < 256
    → inb (outb d p v) q ≡ (if p == q then v else inb d q)
reads_back d p q v hp hq small = refl

abbrev quiet : Memory
quiet port = 0

-- The world counts acknowledgements; the handler takes every request.
abbrev ack : ℕ → ℕ → ℕ
ack w irq = w + 1

abbrev take : StackState → ℕ → Bool × ℕ
take state w = (true, w)

abbrev empty : Idt ack
empty = record { isrs = λ i. none; irqs = λ i. [] }

abbrev keyboard : StackState
keyboard = record { int_num = 33; registers = λ i. 0 }

-- The stubs are 16 bytes apart.
abbrev stub : ℕ → ℕ
stub i = 0xc0100000 + i * 16
