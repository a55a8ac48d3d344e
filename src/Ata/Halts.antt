-- ===== src/Ata/Halts.antt =====
-- How long kernel/kernel/ata/ata.c waits for an interrupt.
use condor_fos.Base.{ℕ, suc, ◌+◌, ◌/◌, ◌<◌, ◌≤◌, ◌≡◌, Bool, arith}
use condor_fos.Machine.{Ports}
use condor_fos.Machine.Takes.{Ends}
use condor_fos.Ata.{Device, Ata, wait_for_irq}
use condor_fos.Ata.Live.{Live, IsSteady, IsKept}
use condor_fos.Ata.Wait.{wait_for_irq-Takes}

-- At most `b` halts so far.
abbrev pub Within : {D : Type 0} → (D → ℕ) → ℕ → D → Type 0
Within halts b d = halts d ≤ b

-- `halts` counts the executions of `hlt`.
module _ {D : Type 0} (io : Ports D) (halt : D → Bool × D) (halts : D → ℕ)
    (counted : (d : D) → halts (halt d).1 ≡ suc (halts d))
    (by_inb : (d : D) (port : ℕ) → halts (io.inb d port).1 ≡ halts d)
    (by_inw : (d : D) (port : ℕ) → halts (io.inw d port).1 ≡ halts d)
    (by_outb : (d : D) (port v : ℕ) → halts (io.outb d port v) ≡ halts d)
    (by_outw : (d : D) (port v : ℕ) → halts (io.outw d port v) ≡ halts d) where
  kept : (b : ℕ) → IsKept io (Within halts b)
  kept b = record {
    by_inb = λ d p h. omega (arith, by_inb d p);
    by_inw = λ d p h. omega (arith, by_inw d p);
    by_outb = λ d p v h. omega (arith, by_outb d p v);
    by_outw = λ d p v h. omega (arith, by_outw d p v);
  }

  -- For a registered drive, `waitForIRQ` returns behind at most 256 executions of `hlt`, whether the
  -- interrupt comes or not, and the drive keeps what an interrupt does not change.
  wait_for_irq-halts :
      (n b device : ℕ) (E : Device → Type 0) (s : Ata D)
      → device / 2 < n
      → IsSteady E
      → Live n (device / 2) E (Within halts b) s
      → Ends ⊥
          (λ r. Live n (device / 2) E (Within halts (256 + b)) r.1)
          (wait_for_irq io halt device s)
  wait_for_irq-halts n b device E s inside steady l =
      (wait_for_irq-Takes io halt steady (Within halts) kept (λ b d h. omega (arith, counted d))
          (λ b d h. omega arith) b device inside).at
        s l
