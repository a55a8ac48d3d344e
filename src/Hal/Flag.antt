-- ===== src/Hal/Flag.antt =====
-- The interrupt flag under the functions of kernel/arch/i386/hal.c.
use condor_fos.Base.{
  ℕ, ◌<◌, ◌≡◌, ◌==◌, if◌then◌else◌, arith, u8, bit_and, set_bit, clear_bit, test_bit,
  test_bit-clear_bit, test_bit-set_bit, bit_and-pow,
}
use condor_fos.Hal.{Cpu, hal_disable_interrupts, hal_enable_interrupts, hal_restore_interrupts}

-- What the variable is given.
stored : (flags : ℕ) → u8 (bit_and flags 0x200) ≡ 0
stored flags = omega (arith, bit_and-pow flags 9)

-- Bit 9 of EFLAGS lets interrupts in. `hal_disableInterrupts` clears it, `hal_enableInterrupts` sets
-- it, and `hal_restoreInterrupts` behind either of them clears it, whatever it was before. No other
-- bit changes.
pub hal_restore_interrupts_lem :
    (c : Cpu) (j : ℕ)
    → j < 32
    → (test_bit (hal_disable_interrupts c).eflags j ≡ (if 9 == j then 0 else test_bit c.eflags j))
      × (test_bit (hal_enable_interrupts c).eflags j ≡ (if 9 == j then 1 else test_bit c.eflags j))
      × (test_bit (hal_restore_interrupts (hal_disable_interrupts c)).eflags j
          ≡ (if 9 == j then 0 else test_bit c.eflags j))
      × (test_bit (hal_restore_interrupts (hal_enable_interrupts c)).eflags j
          ≡ (if 9 == j then 0 else test_bit c.eflags j))
unfolding hal_disable_interrupts hal_enable_interrupts hal_restore_interrupts
hal_restore_interrupts_lem c j h =
    let zero_stored = stored c.eflags in
    let off = test_bit-clear_bit c.eflags 9 j (omega arith) h in
    let on = test_bit-set_bit c.eflags 9 j in
    rw zero_stored (
      off,
      on,
      ground (arith, test_bit-clear_bit (clear_bit c.eflags 9) 9 j (omega arith) h, off),
      ground (arith, test_bit-clear_bit (set_bit c.eflags 9) 9 j (omega arith) h, on),
    )
