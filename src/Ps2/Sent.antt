-- ===== src/Ps2/Sent.antt =====
-- What kernel/arch/i386/ps2.c writes to the controller.
use condor_fos.Base.{
  ℕ, zero, suc, ◌-◌, ◌<◌, ◌≤◌, ◌≡◌, inl, inr, refl, sym, ap, ◌∙◌, Bool, true, false, ◌&&◌, ◌||◌,
  List, [], ◌∷◌, ◌++◌, ◌==◌, ltb, leb, if◌then◌else◌, Bool-cases, arith,
}
use mathlib.Core.List.{append_assoc, append-nil}
use condor_fos.Machine.{Ports, has, when, spin, gets, modify}
use condor_fos.Machine.Takes.{
  Ends, Takes, Keeps, Takes-bind, Takes-pure, Takes-if, Takes-known, Takes-weaken, mono,
  keeps_rules,
}
use condor_fos.Ps2.Types.{dev2, dev_inv, ps2_data, ps2_stt_cmd}
use condor_fos.Ps2.{Ps2, inb, outb, wait_output, wait_ack, is_absent, wait_input, ps2_send_data_to}

-- `log` is what was written to the ports, in order.
module _ {D : Type 0} (io : Ports D) (log : D → List (ℕ × ℕ))
    (log-inb : (d : D) (port : ℕ) → log (io.inb d port).1 ≡ log d)
    (log-outb : (d : D) (port v : ℕ) → log (io.outb d port v) ≡ log d ++ (port, v) ∷ []) where
  abbrev pub Logged : List (ℕ × ℕ) → ℕ → Ps2 D → Type 0
  Logged l h s = (log s.machine ≡ l) × (s.has_dev2 ≡ h)

  module _ {Stuck : Type 0} {l : List (ℕ × ℕ)} {h : ℕ} where
    inb-Logged : (port : ℕ) → Keeps Stuck (Logged l h) (inb io port)
    unfolding inb
    inb-Logged port = record { at = λ s (e, k). (log-inb s.machine port ∙ e, k) }

    outb-Logged :
        (port v : ℕ)
        → Takes Stuck (Logged l h) (λ _. Logged (l ++ (port, v) ∷ []) h) (outb io port v)
    unfolding outb modify
    outb-Logged port v = record {
      at = λ s (e, k). (log-outb s.machine port v ∙ ap (λ m. m ++ (port, v) ∷ []) e, k);
    }

  -- The input buffer is full for `busy` reads of the status of the controller, which has an answer
  -- after at most `limit` of them.
  module _ (busy delay : D → ℕ) (limit : ℕ) (bound : (d : D) → delay d ≤ limit)
      (full : (d : D) → has (io.inb d ps2_stt_cmd).0 0x2 ≡ ltb 0 (busy d))
      (drains : (d : D) → busy (io.inb d ps2_stt_cmd).1 ≡ busy d - 1)
      (shows : (d : D) → has (io.inb d ps2_stt_cmd).0 0x1 ≡ (delay d == 0))
      (passes : (d : D) → delay (io.inb d ps2_stt_cmd).1 ≡ delay d - 1) where
    abbrev Full : ℕ → List (ℕ × ℕ) → ℕ → Ps2 D → Type 0
    Full b l h s = (busy s.machine ≡ b) × Logged l h s

    is_absent-Takes :
        {l : List (ℕ × ℕ)} {h b : ℕ} (device : ℕ)
        → Takes ⊥
            (Full b l h)
            (λ a s. (a ≡ (((device == dev2) && (h == 0)) || (device == dev_inv))) × Full b l h s)
            (is_absent io device)
    unfolding is_absent gets
    is_absent-Takes device = record {
      at = λ s (f, (e, k)).
          (ap (λ (x : ℕ). ((device == dev2) && (x == 0)) || (device == dev_inv)) k, (f, (e, k)));
    }

    busy_read :
        {l : List (ℕ × ℕ)} {h : ℕ} (b : ℕ)
        → Takes ⊥
            (Full b l h)
            (λ v s. (has v 0x2 ≡ ltb 0 b) × Full (b - 1) l h s)
            (inb io ps2_stt_cmd)
    unfolding inb
    busy_read b = record {
      at = λ s (f, (e, k)). (
        full s.machine ∙ ap (λ (n : ℕ). ltb 0 n) f,
        (drains s.machine ∙ ap (λ (n : ℕ). n - 1) f, (log-inb s.machine ps2_stt_cmd ∙ e, k)),
      );
    }

    -- The loop tells that it is late just where the buffer is full for all of its reads.
    wait_input-Takes :
        {l : List (ℕ × ℕ)} {h : ℕ} (rounds b : ℕ)
        → Takes ⊥
            (Full b l h)
            (λ late s. (late ≡ leb rounds b) × Logged l h s)
            (wait_input io rounds)
    unfolding wait_input
    wait_input-Takes zero b = Takes-pure true (λ s p. (ground arith, p.1))
    wait_input-Takes {l = l} {h = h} (suc rounds) b = Takes-bind _ _ (busy_read b) (λ v.
        Takes-known {P = Full (b - 1) l h} _ (λ seen.
          Takes-if (has v 0x2) _ _
            (λ yes.
              let some_left : ltb 0 b ≡ true = sym seen ∙ yes in
              mono _ (wait_input-Takes rounds (b - 1))
                (λ late s p. (p.0 ∙ ground (arith, some_left), p.1)))
            (λ no.
              let none_left : ltb 0 b ≡ false = sym seen ∙ no in
              Takes-pure false (λ s p. (ground (arith, none_left), p.1)))))

    abbrev Soon : ℕ → List (ℕ × ℕ) → ℕ → Ps2 D → Type 0
    Soon b l h s = (delay s.machine < b) × Logged l h s

    look :
        {l : List (ℕ × ℕ)} {h : ℕ} (b : ℕ)
        → Takes ⊥
            (Soon (suc b) l h)
            (λ v s. (has v 0x1 ≡ false → delay s.machine < b) × Logged l h s)
            (inb io ps2_stt_cmd)
    unfolding inb
    look b = record {
      at = λ s (near, (e, k)). (
        λ none. ground (arith, shows s.machine, passes s.machine, none, near),
        (log-inb s.machine ps2_stt_cmd ∙ e, k),
      );
    }

    wait_output-Logged :
        {l : List (ℕ × ℕ)} {h : ℕ} (fuel : ℕ)
        → Takes ⊥ (Soon fuel l h) (λ _. Logged l h) (wait_output io fuel)
    unfolding wait_output spin
    wait_output-Logged zero = record { at = λ s p. absurd (omega (arith, p.0)) }
    wait_output-Logged (suc fuel) = Takes-bind _ _ (look fuel) (λ v.
        Takes-if _ _ _
          (λ none.
            Takes-weaken _ (λ s p. (p.0 (ground (arith, none)), p.1)) (wait_output-Logged fuel))
          (λ ready. Takes-pure tt (λ s p. p.1)))

    wait_enough-Logged :
        {l : List (ℕ × ℕ)} {h : ℕ} (fuel : ℕ)
        → limit < fuel
        → Keeps ⊥ (Logged l h) (wait_output io fuel)
    wait_enough-Logged fuel enough =
        Takes-weaken _ (λ s p. (omega (arith, bound s.machine), p)) (wait_output-Logged fuel)

    wait_ack-Logged :
        {l : List (ℕ × ℕ)} {h : ℕ} (fuel : ℕ)
        → limit < fuel
        → Keeps ⊥ (Logged l h) (wait_ack io fuel)
    unfolding wait_ack
    wait_ack-Logged fuel enough =
        search (keeps_rules, inb-Logged, wait_enough-Logged, enough) depth 18

    -- The bytes that reach a device: the second one is addressed by a command before them.
    abbrev prefix : (device : ℕ) → List (ℕ × ℕ)
    prefix device = if device == dev2 then (ps2_stt_cmd, 0xd4) ∷ [] else []

    -- The device is not there, the input buffer is full for 1001 reads, or the byte is sent.
    abbrev pub Outcome :
        (absent late : Bool) → (device byte : ℕ) → List (ℕ × ℕ) → ℕ → ℕ → Ps2 D → Type 0
    Outcome absent late device byte l h r s =
        (r ≡ (if absent then 2 else if late then 1 else 0))
        × Logged (if absent || late then l else l ++ (prefix device ++ (ps2_data, byte) ∷ [])) h s

    prefix-Logged :
        {l : List (ℕ × ℕ)} {h : ℕ} (device : ℕ)
        → Takes ⊥
            (Logged l h)
            (λ _. Logged (l ++ prefix device) h)
            (when (device == dev2) (outb io ps2_stt_cmd 0xd4))
    prefix-Logged {l = l} device = elim (Bool-cases (device == dev2)) [
      | inl second ↦ rw second (outb-Logged ps2_stt_cmd 0xd4)
      | inr first ↦ rw first (Takes-pure tt (λ s (e, k). (e ∙ sym (append-nil l), k)))
    ]

    -- On a controller that answers in time, `ps2_sendDataTo` returns once the fuel is larger than the
    -- number of reads that the answer takes. It gives 2 for a device that is not there, and otherwise
    -- 1 just where the input buffer is full for 1001 reads of the status; then it has written
    -- nothing. In all other cases it gives 0 and has written the byte, behind the command 0xD4 for
    -- the second device.
    pub ps2_send_data_to_lem :
        (fuel device byte : ℕ) (s : Ps2 D)
        → limit < fuel
        → Ends ⊥
            (λ r.
              Outcome
                (((device == dev2) && (s.has_dev2 == 0)) || (device == dev_inv))
                (leb 1001 (busy s.machine))
                device
                byte
                (log s.machine)
                s.has_dev2
                r.0
                r.1)
            (ps2_send_data_to io fuel device byte s)
    unfolding ps2_send_data_to
    ps2_send_data_to_lem fuel device byte s enough =
        let l = log s.machine in
        let h = s.has_dev2 in
        let b = busy s.machine in
        (Takes-bind _ _ (is_absent-Takes device) (λ a. Takes-known {P = Full b l h} _ (λ e.
            Takes-if a _ _ (λ gone. Takes-pure 2 (λ s p. rw (sym e ∙ gone) (refl, p.1)))
              (λ there. Takes-bind _ _ (wait_input-Takes 1001 b) (λ late.
                Takes-known {P = Logged l h} _ (λ seen.
                  Takes-if late _ _
                    (λ full_up.
                      Takes-pure 1 (λ s p. rw (sym e ∙ there, sym seen ∙ full_up) (refl, p)))
                    (λ room. Takes-bind _ _ (prefix-Logged device) (λ _.
                      Takes-bind _ _ (outb-Logged ps2_data byte) (λ _.
                        Takes-bind _ _ (wait_ack-Logged fuel enough) (λ ack.
                          Takes-pure 0 (λ s (w, k).
                            rw (sym e ∙ there, sym seen ∙ room)
                              (
                                refl,
                                (w ∙ append_assoc l (prefix device) ((ps2_data, byte) ∷ []), k),
                              )))))))))))).at
          s (refl, (refl, refl))
