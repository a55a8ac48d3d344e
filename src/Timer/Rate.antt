-- ===== src/Timer/Rate.antt =====
-- The rate that kernel/arch/i386/pit.c gives a counter.
use condor_fos.Base.{
  ℕ, ◌+◌, ◌*◌, ◌/◌, ◌%◌, ◌^◌, ◌<◌, ◌≤◌, ◌≡◌, ◌≢◌, ap, ◌∙◌, true, false, List, [], ◌∷◌, ◌++◌, ◌==◌,
  arith, bit_or, bit_or-low,
}
use native.Mathlib.Nat.{div-mul-le_self, lt-div-mul-add, div-lt_iff_lt-mul}
use mathlib.Core.List.{append_assoc}
use condor_fos.Machine.{Ports, has, done}
use condor_fos.Machine.Takes.{Ends}
use condor_fos.Timer.{Timer, outb, pit_write_reload, pit_create_counter, pit_access_mode_lo_hi}

-- `reload` is the largest divisor that does not make the counter slower than `frequency`.
abbrev pub IsDivisor : (reload frequency : ℕ) → Type 0
IsDivisor reload frequency =
    (reload * frequency ≤ 1193182) × (1193182 < reload * frequency + frequency)

division : (frequency : ℕ) → frequency ≢ 0 → IsDivisor (1193182 / frequency) frequency
division frequency some_rate =
    (div-mul-le_self 1193182 frequency, lt-div-mul-add (omega (arith, some_rate)))

-- From 19 Hz on the divisor has 16 bits.
IsDivisor-word :
    (frequency : ℕ) → 19 ≤ frequency → IsDivisor (1193182 / frequency % 2 ^ 16) frequency
IsDivisor-word frequency fast =
    let positive : 0 < frequency = omega (arith, fast) in
    let small : 1193182 / frequency < 2 ^ 16 =
      (div-lt_iff_lt-mul positive).1 (omega (arith, fast)) in
    let word : 1193182 / frequency % 2 ^ 16 ≡ 1193182 / frequency = omega (arith, small) in
    rw word (division frequency (λ zero_rate. absurd (omega (arith, zero_rate, fast))))

module _ {D : Type 0} (io : Ports D) (log : D → List (ℕ × ℕ))
    (log-outb : (d : D) (port v : ℕ) → log (io.outb d port v) ≡ log d ++ (port, v) ∷ []) where
  three :
      (d : D) (p q r u v w : ℕ)
      → log (io.outb (io.outb (io.outb d p u) q v) r w) ≡ log d ++ (p, u) ∷ (q, v) ∷ (r, w) ∷ []
  three d p q r u v w =
      log-outb (io.outb (io.outb d p u) q v) r w
      ∙ ap (λ l. l ++ (r, w) ∷ [])
          (log-outb (io.outb d p u) q v
            ∙ ap (λ l. l ++ (q, v) ∷ []) (log-outb d p u)
            ∙ append_assoc (log d) ((p, u) ∷ []) ((q, v) ∷ []))
      ∙ append_assoc (log d) ((p, u) ∷ (q, v) ∷ []) ((r, w) ∷ [])

  -- `pit_createCounter` programs counter `k` of the three, in a mode of 6 bits that sends both
  -- bytes, with two bytes behind the command that selects the counter. They are the low 16 bits of
  -- 1193182 / frequency, which from 19 Hz on is the largest divisor that is not slower than the
  -- frequency.
  pub pit_create_counter_lem :
      (s : Timer io) (frequency k mode : ℕ)
      → frequency ≢ 0
      → k < 3
      → mode < 64
      → has mode pit_access_mode_lo_hi ≡ true
      → Ends ⊥
          (λ r.
            (low : ℕ) × (high : ℕ) × (log r.1.world.machine
              ≡ log s.world.machine
                ++ (0x43, k * 64 + mode) ∷ (0x40 + k, low) ∷ (0x40 + k, high) ∷ [])
            × (low < 256)
            × (high < 256)
            × (low + 256 * high ≡ 1193182 / frequency % 2 ^ 16)
            × (19 ≤ frequency → IsDivisor (low + 256 * high) frequency))
          (pit_create_counter io frequency (0x40 + k) mode s)
  unfolding pit_create_counter pit_write_reload outb condor_fos.Machine.◌>>=◌
      condor_fos.Machine.modify condor_fos.Machine.gets condor_fos.Machine.pure
  pit_create_counter_lem s frequency k mode some_rate inside plain both =
      let value = 1193182 / frequency % 2 ^ 16 in
      let some_frequency : (frequency == 0) ≡ false = ground (arith, some_rate) in
      let one : (0x40 + k) / 64 ≡ 1 = omega arith in
      let bytes : value % 256 + 256 * (value / 256 % 256) ≡ value = omega arith in
      let command : bit_or mode ((0x40 + k) * 64) % 256 ≡ k * 64 + mode =
        omega (arith, bit_or-low 6 (0x40 + k) mode plain) in
      rw (some_frequency, one, both)
        (
          value % 256,
          value / 256 % 256,
          three s.world.machine 0x43 (0x40 + k) (0x40 + k) _ _ _
              ∙ ap
                  (λ (c : ℕ).
                    log s.world.machine
                    ++ (0x43, c) ∷ (0x40 + k, value % 256) ∷ (0x40 + k, value / 256 % 256) ∷ [])
                  command,
          omega arith,
          omega arith,
          bytes,
          λ fast. rw bytes (IsDivisor-word frequency fast),
        )
