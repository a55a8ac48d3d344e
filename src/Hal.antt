-- ===== src/Hal.antt =====
-- kernel/arch/i386/hal.c: the interrupt flag, and the names under which the rest of the kernel calls
-- the interrupt controller, the timer and the PS/2 controller.
pub mod Flag
pub mod Tests
use condor_fos.Base.{ℤ, ℕ, ◌+◌, Bool, not, ◌==◌, if◌then◌else◌, u8, bit_and, set_bit, clear_bit}
use condor_fos.Machine.{Ports, Action, pure, ◌>>=◌}
use condor_fos.Interrupts.{
  pic_init, pic_read, pic_write, pic_ack, pic_mask_irq, pic_unmask_irq, pic_check_spurious,
}
use condor_fos.Timer.{Timer, pit_init, pit_create_counter, pit_write_reload}
use condor_fos.Ps2.{
  Ps2, ps2_init, ps2_handle_device, ps2_send_data_to, ps2_read_data_from, ps2_get_type,
  ps2_get_dev_hid,
}

-- The flags of the processor and the static variable, which is one byte.
pub record Cpu : Type 0 where
  pub eflags : ℕ
  pub were_intrs_enabled : ℕ

abbrev pub cli : Cpu → Cpu
cli c = record c { eflags = clear_bit c.eflags 9 }

abbrev pub sti : Cpu → Cpu
sti c = record c { eflags = set_bit c.eflags 9 }

-- `movl` stores `eflags & 0x200` in four bytes; the first of them is the variable.
abbrev pub store_flag : Cpu → Cpu
store_flag c = record c { were_intrs_enabled = u8 (bit_and c.eflags 0x200) }

unfoldable pub hal_disable_interrupts : Cpu → Cpu
hal_disable_interrupts c = cli (store_flag c)

unfoldable pub hal_enable_interrupts : Cpu → Cpu
hal_enable_interrupts c = sti (store_flag c)

unfoldable pub hal_restore_interrupts : Cpu → Cpu
hal_restore_interrupts c = if not (c.were_intrs_enabled == 0) then sti c else cli c

module _ {D : Type 0} (inb : D → ℕ → ℕ) (outb : D → (port value : ℕ) → D) where
  unfoldable pub hal_init_pic : D → (irq_base : ℕ) → D
  hal_init_pic d irq_base = pic_init inb outb d irq_base (u8 (irq_base + 8))

  unfoldable pub ic_read_reg : D → (reg : ℕ) → ℕ
  ic_read_reg d reg = pic_read inb outb d reg

  unfoldable pub ic_write_reg : D → (reg value : ℕ) → D
  ic_write_reg d reg value = pic_write inb outb d reg value

  unfoldable pub ic_ack : D → (irq : ℕ) → D
  ic_ack d irq = pic_ack inb outb d irq

  unfoldable pub ic_unmask_irq : D → (irq : ℕ) → D
  ic_unmask_irq d irq = pic_unmask_irq inb outb d irq

  unfoldable pub ic_mask_irq : D → (irq : ℕ) → D
  ic_mask_irq d irq = pic_mask_irq inb outb d irq

  unfoldable pub ic_check_spurious : D → (irq : ℕ) → ℕ × D
  ic_check_spurious d irq = pic_check_spurious inb outb d irq

module _ {D : Type 0} (io : Ports D) where
  unfoldable pub hal_init_timer : Action (Timer io) (Unit {0})
  hal_init_timer = pit_init io

  unfoldable pub timer_create_counter : (frequency counter mode : ℕ) → Action (Timer io) (Unit {0})
  timer_create_counter frequency counter mode = pit_create_counter io frequency counter mode

  unfoldable pub timer_write_reload : (value counter : ℕ) → Action (Timer io) (Unit {0})
  timer_write_reload value counter = pit_write_reload io value counter

  -- The result is printed.
  unfoldable pub hal_init_controller : (fuel : ℕ) → Action (Ps2 D) (Unit {0})
  hal_init_controller fuel = do ret ← ps2_init io fuel; pure tt

  unfoldable pub controller_handle_device : (device func : ℕ) → Action (Ps2 D) (Unit {0})
  controller_handle_device device func = ps2_handle_device io device func

  unfoldable pub controller_send_data_to : (fuel device byte : ℕ) → Action (Ps2 D) ℕ
  controller_send_data_to fuel device byte = ps2_send_data_to io fuel device byte

  unfoldable pub controller_read_data_from : (device : ℕ) → Action (Ps2 D) ℕ
  controller_read_data_from device = ps2_read_data_from io device

  unfoldable pub controller_get_type : (before : ℕ → ℕ) (device : ℤ) → Action (Ps2 D) ℕ
  controller_get_type before device = ps2_get_type io before device

  unfoldable pub controller_get_dev_hid : (hid : ℕ) → Action (Ps2 D) ℕ
  controller_get_dev_hid hid = ps2_get_dev_hid io hid
