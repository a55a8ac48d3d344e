-- ===== src/Serial/Writes.antt =====
-- What serial_writes puts on the line.
use condor_fos.Base.{
  ℕ, zero, suc, ◌+◌, ◌-◌, ◌%◌, ◌^◌, ◌≤◌, ◌<◌, ◌≡◌, refl, ap, sym, ◌∙◌, true, false, some, inl, inr,
  if◌then◌else◌, List, [], ◌∷◌, ◌++◌, ltb, ◌==◌, Memory, Bool-cases, bit_and, arith,
}
use mathlib.Core.List.{append_assoc, append-nil}
use condor_fos.Bytes.Compare.{IsLength, strlen_lem}
use condor_fos.Serial.{
  register, serial_write_ready, wait, send, write_up, serial_writes, serial_writechar,
}

-- A byte as the line has it, and `n` bytes from `p` on.
abbrev pub on_line : ℕ → List ℕ
on_line c = if c == 10 then 13 ∷ 10 ∷ [] else c ∷ []

abbrev pub all_on_line : ℕ → Memory → ℕ → List ℕ
all_on_line zero m p = []
all_on_line (suc n) m p = on_line (m p) ++ all_on_line n m (p + 1)

-- `sent` is what the port has taken, and `busy` for how many reads of the status it is not ready.
module _ {D : Type 0} (inb : D → ℕ → ℕ × D) (outb : D → ℕ → ℕ → D) (io_wait : D → D) (port : ℕ)
    (sent : D → List ℕ) (busy : D → ℕ) (limit : ℕ) (busy-limit : (d : D) → busy d ≤ limit)
    (status : (d : D)
      → (bit_and (inb d (register inb outb io_wait port 5)).0 0x20 == 0) ≡ ltb 0 (busy d))
    (busy-inb : (d : D) → busy (inb d (register inb outb io_wait port 5)).1 ≡ busy d - 1)
    (sent-inb : (d : D) → sent (inb d (register inb outb io_wait port 5)).1 ≡ sent d)
    (sent-outb : (d : D) (c : ℕ) → sent (outb d port c) ≡ sent d ++ c ∷ [])
    (sent-io_wait : (d : D) → sent (io_wait d) ≡ sent d) where
  wait-ends :
      (fuel : ℕ) (d : D)
      → busy d < fuel
      → (d' : D) × (wait inb outb io_wait (serial_write_ready inb outb io_wait) fuel d port
          ≡ some d')
        × (sent d' ≡ sent d)
  unfolding wait serial_write_ready
  wait-ends zero d enough = absurd (omega arith)
  wait-ends (suc fuel) d enough = elim (Bool-cases (ltb 0 (busy d))) [
    | inl more ↦
        let d1 = (inb d (register inb outb io_wait port 5)).1 in
        let fewer : busy d1 < fuel = ground (arith, busy-inb d) in
        let (d', ends, same) = wait-ends fuel d1 fewer in
        (d', rw (status d, more) ends, same ∙ sent-inb d)
    | inr ready ↦
        ((inb d (register inb outb io_wait port 5)).1, rw (status d, ready) refl, sent-inb d)
  ]

  sent-send : (d : D) (c : ℕ) → sent (send inb outb io_wait d port c) ≡ sent d ++ on_line c
  unfolding send
  sent-send d c = elim (Bool-cases (c == 10)) [
    | inl newline ↦ rw newline (
        sent-outb (outb d port 13) 10
        ∙ ap (λ l. l ++ 10 ∷ []) (sent-outb d 13)
        ∙ append_assoc (sent d) (13 ∷ []) (10 ∷ []))
    | inr other ↦ rw other (sent-outb d c)
  ]

  write_up-more :
      (i fuel len : ℕ) (d : D) (m : Memory) (str : ℕ)
      → i < len
      → len < 2 ^ 16
      → write_up inb outb io_wait (suc fuel) len d m port str i
        ≡ write_up inb outb io_wait fuel len
            (send inb outb io_wait (io_wait d) port (m (str + i)))
            m
            port
            str
            (i + 1)
  unfolding write_up
  write_up-more i fuel len d m str inside short =
      let more : ltb i len ≡ true = ground arith in
      let wrap : (i + 1) % 2 ^ 16 ≡ i + 1 = omega arith in rw (more, wrap) refl

  write_up-ends :
      (n i fuel len : ℕ) (d : D) (m : Memory) (str : ℕ)
      → i + n ≡ len
      → len < 2 ^ 16
      → n < fuel
      → (d' : D) × (write_up inb outb io_wait fuel len d m port str i ≡ some d')
        × (sent d' ≡ sent d ++ all_on_line n m (str + i))
  unfolding write_up
  write_up-ends n i zero len d m str at short enough = absurd (omega arith)
  write_up-ends zero i (suc fuel) len d m str at short enough =
      let stop : ltb i len ≡ false = ground arith in (d, rw stop refl, sym (append-nil (sent d)))
  write_up-ends (suc n) i (suc fuel) len d m str at short enough =
      let d1 = send inb outb io_wait (io_wait d) port (m (str + i)) in
      let (d', ends, all) =
        write_up-ends n (i + 1) fuel len d1 m str (omega arith) short (omega arith) in
      let next : str + (i + 1) ≡ str + i + 1 = omega arith in
      (
        d',
        write_up-more i fuel len d m str (omega arith) short ∙ ends,
        all
            ∙ ap (λ l. l ++ all_on_line n m (str + (i + 1)))
                (sent-send (io_wait d) (m (str + i))
                  ∙ ap (λ l. l ++ on_line (m (str + i))) (sent-io_wait d))
            ∙ append_assoc (sent d) (on_line (m (str + i))) (all_on_line n m (str + (i + 1)))
            ∙ ap (λ p. sent d ++ (on_line (m (str + i)) ++ all_on_line n m p)) next,
      )

  -- A single character, on such a port as below.
  pub serial_writechar_lem :
      (fuel : ℕ) (d : D) (c : ℕ)
      → limit < fuel
      → (d' : D) × (serial_writechar inb outb io_wait fuel d port c ≡ some d')
        × (sent d' ≡ sent d ++ on_line c)
  unfolding serial_writechar
  serial_writechar_lem fuel d c waits =
      let (d1, ready, same) = wait-ends fuel d (omega (arith, busy-limit d)) in
      (
        send inb outb io_wait d1 port c,
        (rw ready refl),
        sent-send d1 c ∙ ap (λ s. s ++ on_line c) same,
      )

  -- On a port that is ready after at most `limit` reads of its status, `serial_writes` of a string of
  -- `k` bytes, fewer than 65536, ends once the fuel is larger than `limit` and `k`, and the port has
  -- then taken the bytes of the string in order, each newline as a carriage return and a newline.
  pub serial_writes_lem :
      (fuel : ℕ) (d : D) (m : Memory) (str k : ℕ)
      → IsLength m str k
      → k < 2 ^ 16
      → limit < fuel
      → k < fuel
      → (d' : D) × (serial_writes inb outb io_wait fuel d m port str ≡ some d')
        × (sent d' ≡ sent d ++ all_on_line k m str)
  unfolding serial_writes
  serial_writes_lem fuel d m str k l short waits enough =
      let (d1, ready, same1) = wait-ends fuel d (omega (arith, busy-limit d)) in
      let (d2, ends, all) = write_up-ends k 0 fuel k d1 m str (omega arith) short enough in
      let start : str + 0 ≡ str = omega arith in
      let (d3, idle, same3) = wait-ends fuel d2 (omega (arith, busy-limit d2)) in
      (
        d3,
        rw (ready, strlen_lem fuel m str k l enough, ends) idle,
        same3
            ∙ all
            ∙ ap (λ s. s ++ all_on_line k m (str + 0)) same1
            ∙ ap (λ p. sent d ++ all_on_line k m p) start,
      )
