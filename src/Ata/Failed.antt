-- ===== src/Ata/Failed.antt =====
-- What an error of the drive does to a packet command of kernel/kernel/ata/ata.c.
use condor_fos.Base.{
  ℕ, zero, suc, ◌*◌, ◌/◌, ◌<◌, ◌≡◌, ◌≢◌, refl, Bool, true, false, not, ◌||◌, leb, ◌==◌, bit_or,
  ◌<<<◌, ==_iff, arith,
}
use condor_fos.Machine.{Ports, at_port, has, gets, ◌>>=◌, ◌>>◌}
use condor_fos.Machine.Takes.{
  Ends, Takes, Keeps, keeps_rules, Takes-bind, Takes-pure, Takes-if, Takes-known, Keeps-pure,
}
use condor_fos.Ata.Reg.{features, command, byte_lo, byte_hi, packet, type_atapi}
use condor_fos.Ata.{Device, Ata, inb, outb, wait_for_irq, change, is_poisoned, switch_device}
use condor_fos.Ata.Packet.{
  wait_ready, send_words, send_size8, send_command, move_words, transfer, atapi_send_command,
}
use condor_fos.Ata.Live.{
  Live, IsSteady, IsKept, live_rules, controller_at-Takes, change_at-Takes, outb-Keeps,
  Live-machine, read_four-Keeps,
}
use condor_fos.Ata.Wait.{wait_for_irq-Keeps, select-Keeps}
use condor_fos.Ata.Safe.{Any, Any-IsKept}

-- A packet drive at `base` and `alt`, in use or not.
abbrev pub PacketDrive : (used : Bool) (base alt : ℕ) → Device → Type 0
PacketDrive used base alt c =
    (c.in_use ≡ used) × (c.base_port ≡ base) × (c.alt_port ≡ alt) × (c.interface_type ≡ type_atapi)

PacketDrive-IsSteady : (used : Bool) (base alt : ℕ) → IsSteady (PacketDrive used base alt)
PacketDrive-IsSteady used base alt = record {
  on_error = λ c e h. h;
  on_success = λ c h. h;
  on_block = λ c b h. h;
}

module _ {D : Type 0} (io : Ports D) (halt : D → Bool × D) (device n base alt : ℕ)
    (inside : device / 2 < n) where
  abbrev State : Bool → Ata D → Type 0
  State used = Live n (device / 2) (PacketDrive used base alt) Any

  kept : IsKept io Any
  kept = Any-IsKept io

  steady : (used : Bool) → IsSteady (PacketDrive used base alt)
  steady used = PacketDrive-IsSteady used base alt

  tells :
      {used : Bool} (port : ℕ) (K : ℕ → Type 0)
      → ((d : D) → K (io.inb d port).0)
      → Takes ⊥ (State used) (λ v s. K v × State used s) (inb io halt port)
  unfolding inb
  tells port K law = record {
    at = λ s l. (law s.machine, Live-machine (io.inb s.machine port).1 s.memory l tt);
  }

  not_poisoned :
      {used : Bool} → Takes ⊥ (State used) (λ p s. (p ≡ false) × State used s) (is_poisoned io halt)
  unfolding is_poisoned
  not_poisoned = record { at = λ s l. (ground (arith, l.controllers), l) }

  index-Takes :
      {used : Bool}
      → Takes ⊥ (State used) (λ k s. (k ≡ 2 * n) × State used s) (gets (λ s. s.controller_index))
  unfolding gets
  index-Takes = record { at = λ s l. (l.index, l) }

  switch_device-Takes :
      {used : Bool}
      → Takes ⊥ (State used) (λ b s. (b ≡ base) × State used s) (switch_device io halt device)
  unfolding switch_device
  switch_device-Takes {used = used} = Takes-bind _ _ index-Takes (λ index.
      Takes-known {P = State used} _ (λ all.
        Takes-if (leb index device) _ _ (λ far. absurd (ground (arith, far, all, inside)))
          (λ near. Takes-bind _ _ (controller_at-Takes io halt) (λ c.
            Takes-known {P = State used} _ (λ known.
              Takes-bind _ _ (outb-Keeps io halt kept _ _) (λ _.
                Takes-bind _ _ (read_four-Keeps io halt kept _) (λ _.
                  Takes-bind _ _ (select-Keeps io halt (steady used) kept (λ d h. tt) device inside)
                    (λ _. Takes-pure c.base_port (λ s l. (known.1, l))))))))))

  send_words-Keeps :
      (count : ℕ) (bytes : ℕ → ℕ) (i : ℕ)
      → Keeps ⊥ (State true) (send_words io halt count base bytes i)
  unfolding send_words
  send_words-Keeps zero bytes i = search keeps_rules
  send_words-Keeps (suc count) bytes i =
      search (keeps_rules, live_rules, kept, send_words-Keeps count bytes) depth 14

  send_command-Keeps :
      (bytes : ℕ → ℕ) (length max : ℕ)
      → Keeps ⊥ (State true) (send_command io halt base bytes length max)
  unfolding send_command send_size8
  send_command-Keeps bytes length max = search (keeps_rules, send_words-Keeps) depth 18

  wait-Keeps : Keeps ⊥ (State true) (wait_for_irq io halt device)
  wait-Keeps = wait_for_irq-Keeps io halt (steady true) kept (λ d h. tt) device inside

  change-Takes :
      Takes ⊥
        (State false)
        (λ _. State true)
        (change io halt device (λ c. record c { in_use = true }))
  change-Takes = change_at-Takes io halt (device / 2) _ inside (λ c e.
      let here : (device / 2 == device / 2) ≡ true = (==_iff (device / 2) (device / 2)).1 refl in
      rw here (refl, e.1, e.2, e.3))

  -- The drive is not busy and shows an error, and `low` and `high` are the byte count that it gives.
  module _ (low high : ℕ) (idle : (d : D) → has (io.inb d alt).0 0x80 ≡ false)
      (failing : (d : D) → has (io.inb d alt).0 0x01 ≡ true)
      (counts_low : (d : D) → (io.inb d (at_port base byte_lo)).0 ≡ low)
      (counts_high : (d : D) → (io.inb d (at_port base byte_hi)).0 ≡ high)
      (some_words : bit_or low (high <<< 8) / 2 ≢ 0) where
    abbrev Failing : Bool → Ata D → Type 0
    Failing b s = (b ≡ false) × State true s

    wait_ready-Keeps : (fuel : ℕ) → Keeps ⊥ (State true) (wait_ready io halt (suc fuel) alt)
    unfolding wait_ready
    wait_ready-Keeps fuel = Takes-bind _ _ (tells alt (λ v. has v 0x80 ≡ false) idle) (λ v.
        Takes-known {P = State true} _
          (λ quiet. Takes-if (has v 0x80) _ _ (λ busy. cc) (λ e. Keeps-pure tt)))

    move_words-Takes :
        (rounds opcode buffer index seen : ℕ)
        → Takes ⊥
            (State true)
            (λ r s. (has r.0 0x01 ≡ true) × State true s)
            (move_words io halt (suc rounds) base alt opcode buffer index seen)
    unfolding move_words
    move_words-Takes rounds opcode buffer index seen =
        Takes-bind _ _ (tells alt (λ v. has v 0x01 ≡ true) failing) (λ v.
          Takes-known {P = State true} _ (λ bad.
            Takes-if (has v 0x1) _ _ (λ e. Takes-pure (v, index) (λ s l. (bad, l))) (λ good. cc)))

    transfer-Takes :
        (fuel opcode buffer words index : ℕ)
        → Takes ⊥
            (State true)
            Failing
            (transfer io halt (suc fuel) device base alt opcode buffer (suc words) index)
    unfolding transfer
    transfer-Takes fuel opcode buffer words index =
        Takes-bind _ _ (read_four-Keeps io halt kept alt) (λ _.
          Takes-bind _ _ (move_words-Takes words opcode buffer index 0) (λ moved.
            Takes-known {P = State true} _ (λ bad.
              Takes-if (has moved.0 0x01) _ _ (λ e. Takes-pure false (λ s l. (refl, l)))
                (λ good. cc))))

    transfer_some :
        (fuel opcode buffer words : ℕ)
        → words ≢ 0
        → Takes ⊥
            (State true)
            Failing
            (transfer io halt (suc fuel) device base alt opcode buffer words 0)
    transfer_some fuel opcode buffer zero some_word = absurd (some_word refl)
    transfer_some fuel opcode buffer (suc words) some_word =
        transfer-Takes fuel opcode buffer words 0

    rest :
        (fuel : ℕ) (bytes : ℕ → ℕ) (command_length buffer : ℕ) (c : Device)
        → Takes ⊥ (State true) Failing (do
          outb io halt (at_port base features) 0
          outb io halt (at_port base byte_lo) 0
          outb io halt (at_port base byte_hi) 1
          outb io halt (at_port base command) packet
          wait_ready io halt (suc fuel) alt
          send_command io halt base bytes command_length c.max_command_length
          wait_for_irq io halt device
          low ← inb io halt (at_port base byte_lo)
          high ← inb io halt (at_port base byte_hi)
          transfer io halt
              (suc fuel)
              device
              base
              alt
              (bytes 0)
              buffer
              (bit_or low (high <<< 8) / 2)
              0)
    rest fuel bytes command_length buffer c =
        let out = λ (p v : ℕ).
          outb-Keeps io halt {Stuck = ⊥} {n = n} {i = device / 2} {E = PacketDrive true base alt}
            kept p v in
        Takes-bind _ _ (out _ _) (λ _. Takes-bind _ _ (out _ _) (λ _. Takes-bind _ _ (out _ _) (λ _.
          Takes-bind _ _ (out _ _) (λ _. Takes-bind _ _ (wait_ready-Keeps fuel) (λ _.
            Takes-bind _ _ (send_command-Keeps bytes command_length c.max_command_length) (λ _.
              Takes-bind _ _ wait-Keeps (λ _.
                Takes-bind _ _ (tells (at_port base byte_lo) (λ v. v ≡ low) counts_low) (λ v.
                  Takes-known {P = State true} _ (λ is_low.
                    Takes-bind _ _ (tells (at_port base byte_hi) (λ v. v ≡ high) counts_high) (λ w.
                      Takes-known {P = State true} _ (λ is_high.
                        rw (is_low, is_high)
                          (transfer_some fuel (bytes 0) buffer (bit_or low (high <<< 8) / 2)
                            some_words))))))))))))

    -- When a registered packet drive that is not in use answers a packet command with an error, and
    -- with a byte count of two or more, the function returns false and leaves the drive in use.
    pub atapi_send_command-failed :
        (fuel : ℕ) (bytes : ℕ → ℕ) (command_length buffer : ℕ) (s : Ata D)
        → base ≢ 0xffff
        → Live n (device / 2) (PacketDrive false base alt) Any s
        → Ends ⊥
            (λ r. (r.0 ≡ false) × Live n (device / 2) (PacketDrive true base alt) Any r.1)
            (atapi_send_command io halt (suc fuel) device bytes command_length buffer s)
    unfolding atapi_send_command
    atapi_send_command-failed fuel bytes command_length buffer s some_base l =
        (Takes-bind _ _ not_poisoned (λ p. Takes-known {P = State false} _ (λ sound.
            Takes-if p _ _ (λ poisoned. cc)
              (λ live. Takes-bind _ _ switch_device-Takes (λ b.
                Takes-known {P = State false} _ (λ at_base.
                  Takes-bind _ _ (controller_at-Takes io halt) (λ c.
                    Takes-known {P = State false} _ (λ known.
                      Takes-if (not (c.interface_type == type_atapi) || c.in_use || (b == 0xffff)) _
                        _
                        (λ refused.
                          absurd (ground (arith, refused, known.0, known.3, at_base, some_base)))
                        (λ goes. Takes-bind _ _ change-Takes (λ _.
                          rw (at_base, known.2)
                            (rest fuel bytes command_length buffer c))))))))))).at
          s l
