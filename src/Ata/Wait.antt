-- ===== src/Ata/Wait.antt =====
-- The interrupt of kernel/kernel/ata/ata.c and the wait for it: which drives stay live, and for how long.
use condor_fos.Base.{ℕ, zero, suc, ◌+◌, ◌/◌, ◌<◌, Bool, true, inl, inr, u8, Bool-cases, arith}
use mathlib.Core.Path.{subst}
use condor_fos.Machine.{Ports, gets, modify}
use condor_fos.Machine.Takes.{
  Takes, Keeps, keeps_rules, Takes-bind, Takes-pure, Takes-if, Takes-known, Keeps-gets,
}
use condor_fos.Ata.{Device, Ata, ata_irq, switch_device, hlt, wait_rounds, wait_for_irq}
use condor_fos.Ata.Live.{
  Live, IsSteady, IsKept, controller_at-Keeps, inb-Keeps, block-Keeps, live_rules, Live-machine,
}

-- More halts than there were are allowed too.
module _ {D : Type 0} (M : ℕ → D → Type 0) (more : (b : ℕ) (d : D) → M b d → M (suc b) d) where
  more_halts : (rounds b : ℕ) (d : D) → M b d → M (rounds + b) d
  more_halts zero b d h = subst (λ k. M k d) (omega arith) h
  more_halts (suc rounds) b d h =
      subst (λ k. M k d) (omega arith) (more_halts rounds (suc b) d (more b d h))

  Live-more :
      {n i : ℕ} {E : Device → Type 0} (rounds b : ℕ) (s : Ata D)
      → Live n i E (M b) s
      → Live n i E (M (rounds + b)) s
  Live-more rounds b s l =
      Live-machine s.machine s.memory l (more_halts rounds b s.machine l.machine)

module _ {D : Type 0} (io : Ports D) (halt : D → Bool × D) {Stuck : Type 0} {n i : ℕ}
    {E : Device → Type 0} (steady : IsSteady E) where
  module _ {M : D → Type 0} (kept : IsKept io M) where
    current-Takes :
        Takes Stuck
          (Live n i E M)
          (λ c s. (c / 2 < n) × Live n i E M s)
          (gets (λ s. s.current_controller))
    unfolding gets
    current-Takes = record { at = λ s l. (l.current, l) }

    ata_irq-Keeps : Keeps Stuck (Live n i E M) (ata_irq io halt)
    unfolding ata_irq
    ata_irq-Keeps = Takes-bind _ _ current-Takes (λ current.
        Takes-known {P = Live n i E M} _
          (λ inside. search (keeps_rules, live_rules, kept, steady, inside)))

  module _ {M M' : D → Type 0} (kept' : IsKept io M') (fires : (d : D) → M d → M' (halt d).1) where
    hlt-Takes : Takes Stuck (Live n i E M) (λ _. Live n i E M') (hlt io halt)
    unfolding hlt
    hlt-Takes = record {
      at = λ s l.
          let l' : Live n i E M' (record s { machine = (halt s.machine).1 }) =
            Live-machine (halt s.machine).1 s.memory l (fires s.machine l.machine) in
          elim (Bool-cases (halt s.machine).0) [
            | inl fired ↦
                rw fired ((ata_irq-Keeps kept').at (record s { machine = (halt s.machine).1 }) l')
            | inr other ↦ rw other l'
          ];
    }

  -- `M b` allows `b` halts.
  module _ (M : ℕ → D → Type 0) (kept : (b : ℕ) → IsKept io (M b))
      (fires : (b : ℕ) (d : D) → M b d → M (suc b) (halt d).1)
      (more : (b : ℕ) (d : D) → M b d → M (suc b) d) where
    wait_rounds-Takes :
        (rounds b device alt : ℕ)
        → device / 2 < n
        → Takes Stuck
            (Live n i E (M b))
            (λ _. Live n i E (M (rounds + b)))
            (wait_rounds io halt rounds device alt)
    unfolding wait_rounds
    wait_rounds-Takes zero b device alt inside = Takes-pure tt (Live-more M more 0 b)
    wait_rounds-Takes (suc rounds) b device alt inside =
        Takes-bind _ _ (controller_at-Keeps io halt (device / 2) inside) (λ c.
          Takes-if _ _ _ (λ stop. Takes-pure tt (Live-more M more (suc rounds) b))
            (λ go. Takes-bind _ _ (hlt-Takes (kept (suc b)) (fires b)) (λ _.
              Takes-bind _ _ (controller_at-Keeps io halt (device / 2) inside) (λ c.
                Takes-bind _ _ (inb-Keeps io halt (kept (suc b)) c.alt_port) (λ alt.
                  subst
                    (λ k.
                      Takes Stuck (Live n i E (M (suc b))) (λ _. Live n i E (M k))
                        (wait_rounds io halt rounds device alt))
                    (omega arith) (wait_rounds-Takes rounds (suc b) device alt inside))))))

    pub wait_for_irq-Takes :
        (b device : ℕ)
        → device / 2 < n
        → Takes Stuck
            (Live n i E (M b))
            (λ _. Live n i E (M (256 + b)))
            (wait_for_irq io halt device)
    unfolding wait_for_irq
    wait_for_irq-Takes b device inside = Takes-bind _ _ (Keeps-gets _) (λ index.
        Takes-if _ _ _ (λ far. Takes-pure tt (Live-more M more 256 b))
          (λ near.
            Takes-bind _ _ (wait_rounds-Takes 256 b device 0 inside)
              (λ _. block-Keeps io halt (kept (256 + b)) steady (device / 2) true inside)))

  -- What needs no count of the halts.
  module _ {M : D → Type 0} (kept : IsKept io M) (fires : (d : D) → M d → M (halt d).1) where
    pub wait_for_irq-Keeps :
        (device : ℕ) → device / 2 < n → Keeps Stuck (Live n i E M) (wait_for_irq io halt device)
    wait_for_irq-Keeps device inside =
        wait_for_irq-Takes (λ b. M) (λ b. kept) (λ b. fires) (λ b d h. h) 0 device inside

    pub select-Keeps :
        (device : ℕ)
        → device / 2 < n
        → Keeps Stuck (Live n i E M) (modify (λ s. record s { current_controller = u8 device }))
    unfolding modify
    select-Keeps device inside = record {
      at = λ s l. record {
        drives = l.drives;
        controllers = l.controllers;
        count = l.count;
        index = l.index;
        current = omega (arith, inside);
        drive = l.drive;
        entry = l.entry;
        holds = l.holds;
        machine = l.machine;
      };
    }

    pub switch_device-Keeps :
        (device : ℕ) → device / 2 < n → Keeps Stuck (Live n i E M) (switch_device io halt device)
    unfolding switch_device
    switch_device-Keeps device inside =
        search (keeps_rules, live_rules, select-Keeps, kept, inside) depth 12
