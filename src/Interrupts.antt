-- ===== src/Interrupts.antt =====
-- kernel/arch/i386/idt.c and pic.c: the descriptor table, the handlers and the interrupt controller.
pub mod Handlers
pub mod Masks
pub mod Init
pub mod Tests
use condor_fos.Base.{
  ℕ, ◌+◌, ◌-◌, ◌*◌, ◌/◌, ◌%◌, ◌^◌, Bool, true, false, not, ◌&&◌, ◌||◌, Option, none, some, List, [],
  ◌∷◌, ◌++◌, ltb, leb, ◌==◌, if◌then◌else◌, Memory, write, u8, bit_or, bit_and, set_bit, clear_bit,
  ◌<<<◌,
}
use condor_fos.Scheduler.{StackState}

-- `idt_registerInterrupt` on the words at `descriptors`; the arguments have 16, 32, 16 and 8 bits.
unfoldable pub idt_register_interrupt :
    Memory → (int_num func_addr gdt_selector type_attrib : ℕ) → Memory
idt_register_interrupt m int_num func_addr gdt_selector type_attrib =
    if ltb 255 int_num
    then m
    else let lower = bit_or (func_addr % 2 ^ 16) (gdt_selector <<< 16) in
      let higher = bit_or (type_attrib <<< 8) (func_addr / 2 ^ 16 * 2 ^ 16) in
      write (write m (int_num * 2) lower) (int_num * 2 + 1) higher

-- `W` is what the handlers act on, and `ic_ack` the acknowledgement of the interrupt controller.
module _ {W : Type 0} (ic_ack : W → ℕ → W) where
  -- A handler of an exception, and one of an interrupt request that tells if it was `HANDLED`.
  abbrev pub Isr : Type 0
  Isr = StackState → W → W

  abbrev pub Irq : Type 0
  Irq = StackState → W → Bool × W

  -- A list of actions belongs to one request and is kept as the list of its handlers.
  pub record Idt : Type 0 where
    pub isrs : ℕ → Option Isr
    pub irqs : ℕ → List Irq

  -- The loop over the actions: the first that handles the request has it acknowledged.
  unfoldable pub run_actions : List Irq → StackState → (irq : ℕ) → W → W
  run_actions [] state irq w = w
  run_actions (handler ∷ actions) state irq w =
      let (handled, w') = handler state w in
      if handled then ic_ack w' irq else run_actions actions state irq w'

  -- The result is `none` where `kspanic` does not return.
  abbrev pub run_isr : Option Isr → StackState → W → Option W
  run_isr none state w = none
  run_isr (some handler) state w = some (handler state w)

  unfoldable pub isr_handler : Idt → StackState → W → Option W
  isr_handler idt state w =
      if ltb state.int_num 32
      then run_isr (idt.isrs state.int_num) state w
      else if ltb state.int_num 48
      then some (run_actions (idt.irqs (state.int_num - 32)) state (state.int_num - 32) w)
      else some w

  -- `none` is the poisoned pointer.
  unfoldable pub idt_add_isr : Idt → (int_num : ℕ) → Option Isr → Idt
  idt_add_isr idt int_num none = idt
  idt_add_isr idt int_num (some handler) = record idt {
    isrs = λ i. if int_num == i then some handler else idt.isrs i;
  }

  unfoldable pub idt_add_irq_isr : Idt → (int_num : ℕ) → Option Irq → Idt
  idt_add_irq_isr idt int_num none = idt
  idt_add_irq_isr idt int_num (some handler) = if leb 16 int_num then idt else record idt {
    irqs = λ i. if int_num == i then idt.irqs i ++ handler ∷ [] else idt.irqs i;
  }

-- The data port of the controller that has the request, and the request's place on it.
abbrev pub port_of : ℕ → ℕ
port_of irq = if ltb 7 irq then 0xa1 else 0x21

abbrev pub line_of : ℕ → ℕ
line_of irq = if ltb 7 irq then irq - 8 else irq

-- `D` is the device behind the ports; a read of a data port changes nothing.
module _ {D : Type 0} (inb : D → ℕ → ℕ) (outb : D → (port value : ℕ) → D) where
  unfoldable pub pic_ack : D → ℕ → D
  pic_ack d irq =
      if ltb 15 irq
      then d
      else if leb 8 irq
      then outb (outb d 0xa0 0x20) 0x20 0x20
      else outb d 0x20 0x20

  unfoldable pub pic_mask_irq : D → ℕ → D
  pic_mask_irq d irq =
      if ltb 15 irq
      then d
      else outb d (port_of irq) (u8 (set_bit (inb d (port_of irq)) (line_of irq)))

  unfoldable pub pic_unmask_irq : D → ℕ → D
  pic_unmask_irq d irq =
      if ltb 15 irq
      then d
      else outb d (port_of irq) (u8 (clear_bit (inb d (port_of irq)) (line_of irq)))

  -- `io_wait` only takes time.
  unfoldable pub pic_init : D → (irq0_base irq8_base : ℕ) → D
  pic_init d irq0_base irq8_base =
      let mask1 = inb d 0x21 in
      let mask2 = inb d 0xa1 in
      let first = outb (outb d 0x20 0x11) 0xa0 0x11 in
      let offsets = outb (outb first 0x21 irq0_base) 0xa1 irq8_base in
      let lines = outb (outb offsets 0x21 4) 0xa1 2 in
      let modes = outb (outb lines 0x21 1) 0xa1 1 in outb (outb modes 0x21 mask1) 0xa1 mask2

  abbrev pub is_pic_port : ℕ → Bool
  is_pic_port reg = (reg == 0x20) || (reg == 0xa0) || (reg == 0x21) || (reg == 0xa1)

  unfoldable pub pic_read : D → ℕ → ℕ
  pic_read d reg = if is_pic_port reg then inb d reg else 0

  unfoldable pub pic_write : D → (reg value : ℕ) → D
  pic_write d reg value = if is_pic_port reg then outb d reg (u8 value) else d

  -- The two reads of the in-service register.
  unfoldable pub pic_check_spurious : D → ℕ → ℕ × D
  pic_check_spurious d irq =
      let d' = outb (outb d 0x20 0xb) 0xa0 0xb in
      if (irq == 7) && (bit_and (inb d' 0x20) 0x80 == 0)
      then (1, d')
      else if (irq == 15) && (bit_and (inb d' 0xa0) 0x80 == 0)
      then (1, outb d' 0x20 0x20)
      else (0, d')
