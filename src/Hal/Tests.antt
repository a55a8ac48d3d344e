-- ===== src/Hal/Tests.antt =====
-- The interrupt flag of kernel/arch/i386/hal.c, with interrupts on.
use condor_fos.Base.{◌≡◌, arith, test_bit}
use condor_fos.Hal.{Cpu, hal_disable_interrupts, hal_enable_interrupts, hal_restore_interrupts}
use condor_fos.Hal.Flag.{hal_restore_interrupts_lem}

abbrev enabled : Cpu
enabled = record { eflags = 0x202; were_intrs_enabled = 0 }

hal_restore_interrupts_lem_example :
    (test_bit (hal_disable_interrupts enabled).eflags 9 ≡ 0)
    × (test_bit (hal_enable_interrupts enabled).eflags 9 ≡ 1)
    × (test_bit (hal_restore_interrupts (hal_disable_interrupts enabled)).eflags 9 ≡ 0)
    × (test_bit (hal_restore_interrupts (hal_enable_interrupts enabled)).eflags 9 ≡ 0)
hal_restore_interrupts_lem_example = hal_restore_interrupts_lem enabled 9 (omega arith)
