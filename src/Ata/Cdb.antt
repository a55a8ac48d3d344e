-- ===== src/Ata/Cdb.antt =====
-- The bytes of a packet command of kernel/kernel/ata/ata.c, and the words that reach the drive.
use condor_fos.Base.{
  ℕ, zero, suc, ◌+◌, ◌*◌, ◌/◌, ◌%◌, ◌^◌, ◌<◌, ◌≡◌, ◌↔◌, refl, ap, sym, ◌∙◌, List, [], ◌∷◌, ◌++◌,
  Bool, bit_or, ◌<<<◌, bit_and-byte, arith,
}
use mathlib.Core.List.{append_assoc, append-nil}
use condor_fos.Machine.{Ports, Run, done, pure, modify, ◌>>=◌}
use condor_fos.Ata.{Ata, outw}
use condor_fos.Ata.Packet.{packet_of, send_words, send_size8, send_command}

-- The sector number of a twelve byte command, the high byte first.
abbrev pub packet_address : (ℕ → ℕ) → ℕ
packet_address bytes = bytes 2 * 2 ^ 24 + bytes 3 * 2 ^ 16 + bytes 4 * 2 ^ 8 + bytes 5

-- Below 65536, the command that is built for a sector number carries that number exactly if it is
-- below 1024: the bytes above are shifted by 10 and 18 bits instead of 16 and 24.
packet_of-address :
    (opcode lba sector_count : ℕ)
    → lba < 2 ^ 16
    → (packet_address (packet_of opcode lba sector_count) ≡ lba) ↔ (lba < 1024)
unfolding packet_of
packet_of-address opcode lba sector_count near =
    let top = bit_and-byte (lba / 2 ^ 18) in
    let high = bit_and-byte (lba / 2 ^ 10) in
    let mid = bit_and-byte (lba / 2 ^ 8) in
    let low = bit_and-byte lba in (λ e. omega (arith, e), λ below. omega arith)

-- `sent` is what a port has taken in words.
module _ {D : Type 0} (io : Ports D) (halt : D → Bool × D) (sent : D → List ℕ) (base : ℕ)
    (sent-outw : (d : D) (v : ℕ) → sent (io.outw d base v) ≡ sent d ++ v ∷ []) where
  -- `count` words of the command from word `i` on.
  abbrev pub words : (count : ℕ) → (ℕ → ℕ) → ℕ → List ℕ
  words zero bytes i = []
  words (suc count) bytes i =
      bit_or (bytes (2 * i)) (bytes (2 * i + 1) <<< 8) % 2 ^ 16 ∷ words count bytes (i + 1)

  abbrev Sends : List ℕ → Ata D → Run (Unit {0} × Ata D) → Type 0
  Sends ws s r = (s' : Ata D) × (r ≡ done (tt, s')) × (sent s'.machine ≡ sent s.machine ++ ws)

  send_words-Sends :
      (count : ℕ) (bytes : ℕ → ℕ) (i : ℕ) (s : Ata D)
      → Sends (words count bytes i) s (send_words io halt count base bytes i s)
  unfolding send_words pure outw modify ◌>>=◌
  send_words-Sends zero bytes i s = (s, refl, sym (append-nil (sent s.machine)))
  send_words-Sends (suc count) bytes i s =
      let word = bit_or (bytes (2 * i)) (bytes (2 * i + 1) <<< 8) % 2 ^ 16 in
      let s1 : Ata D = record s { machine = io.outw s.machine base word } in
      let (s', run, all) = send_words-Sends count bytes (i + 1) s1 in
      (
        s',
        run,
        all
            ∙ ap (λ l. l ++ words count bytes (i + 1)) (sent-outw s.machine word)
            ∙ append_assoc (sent s.machine) (word ∷ []) (words count bytes (i + 1)),
      )

  -- A command of twelve bytes reaches the drive as its six words in order, whatever the length is
  -- that the driver has noted for the drive.
  send_command-twelve :
      (bytes : ℕ → ℕ) (max_length : ℕ) (s : Ata D)
      → (s' : Ata D) × (send_command io halt base bytes 12 max_length s ≡ done (tt, s'))
        × (sent s'.machine ≡ sent s.machine ++ words 6 bytes 0)
  unfolding send_command send_size8 ◌>>=◌ pure
  send_command-twelve bytes max_length s =
      let (s1, run1, sent1) = send_words-Sends 3 bytes 0 s in
      let (s2, run2, sent2) = send_words-Sends 3 bytes 3 s1 in
      (
        s2,
        ground (arith, run1, run2),
        sent2
            ∙ ap (λ l. l ++ words 3 bytes 3) sent1
            ∙ append_assoc (sent s.machine) (words 3 bytes 0) (words 3 bytes 3),
      )
