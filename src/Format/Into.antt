-- ===== src/Format/Into.antt =====
-- `vsprintf` on a text: its `print` takes the place in the destination for a place in the data.
use condor_fos.Base.{
  length, ℕ, zero, suc, ◌+◌, ◌-◌, Bool-cases, inl, inr, ◌⊎◌, ◌≤◌, ◌<◌, ◌≡◌, ◌≢◌, refl, arith, ap,
  true, false, ◌&&◌, some, List, [], ◌∷◌, ltb, leb, ◌==◌, if◌then◌else◌, Memory, write, u32,
}
use condor_fos.Format.{bytes, format_loop, format_step, initial, Format}
use condor_fos.Format.Buffer.{Dest, print_from, print_into, vsprintf}
use condor_fos.Format.Pieces.{IsText}
use condor_fos.Format.Steps.{print_text_lem}

-- Data that is not longer than what has been printed is dropped.
pub print_from-short :
    (cs : List ℕ) (dest i : ℕ) (d : Dest) → i + length cs ≤ d.offset → print_from dest i cs d ≡ d
unfolding print_from
print_from-short [] dest i d short = refl
print_from-short (c ∷ cs) dest i d short =
    let before : ltb i d.offset ≡ true = ground arith in
    rw before (print_from-short cs dest (i + 1) d (omega arith))

-- The bytes of a text, copied to where nothing has been printed yet.
record Copied (n : ℕ) (m : Memory) (p dest i : ℕ) (d : Dest) : Type 0 where
  result : Dest
  is : print_from dest i (bytes n m p) d ≡ result
  at_end : result.offset ≡ i + n
  copies :
      (a : ℕ)
      → result.memory a ≡ (
          if leb (dest + i) a && ltb a (dest + i + n) then m (p + (a - (dest + i))) else d.memory a)

print_from-fresh :
    (n : ℕ) (m : Memory) (p dest i : ℕ) (d : Dest) → d.offset ≡ i → Copied n m p dest i d
unfolding print_from
print_from-fresh zero m p dest i d fresh = record {
  result = d;
  is = refl;
  at_end = ground (arith, fresh);
  copies = λ a. ground arith;
}
print_from-fresh (suc n) m p dest i d fresh =
    let here : ltb i d.offset ≡ false = ground (arith, fresh) in
    let rest =
      print_from-fresh n m (p + 1) dest (i + 1)
        (record { offset = i + 1; memory = write d.memory (dest + i) (m p) }) refl in
    record {
      result = rest.result;
      is = rw (here, print_from) rest.is;
      at_end = omega (arith, rest.at_end);
      copies = λ a. elim (Bool-cases (a == dest + i)) [
        | inl first ↦
            let at : p + (a - (dest + i)) ≡ p = ground arith in ground (arith, rest.copies a, at)
        | inr other ↦
            let at : leb (dest + (i + 1)) a ≡ true
                → p + 1 + (a - (dest + (i + 1))) ≡ p + (a - (dest + i)) =
              λ h. ground (arith, h) in
            ground (arith, rest.copies a, at)
      ];
    }

format_loop-ended :
    (print : List ℕ → Dest → Dest) (outside : ℕ → ℕ) (m : Memory) (args : ℕ → ℕ)
    (no_number k fuel f : ℕ) (st : Format Dest)
    → m f ≡ 0
    → format_loop print outside m args no_number k (suc fuel) f st ≡ some st
unfolding format_loop
format_loop-ended print outside m args no_number k fuel f st end =
    let ended : (m f == 0) ≡ true = ground arith in rw (ended, format_loop) refl

-- One round on a text, and the end.
format_loop-text :
    (print : List ℕ → Dest → Dest) (outside : ℕ → ℕ) (m : Memory) (args : ℕ → ℕ)
    (no_number k fuel f len : ℕ) (st : Format Dest)
    → IsText m args k len f
    → m f ≢ 0
    → m f ≢ 37
    → m (f + len) ≡ 0
    → format_loop print outside m args no_number k (suc (suc fuel)) f st
      ≡ some (record st {
        amount = len;
        written = u32 (st.written + len);
        sink = print (bytes len m f) st.sink;
      })
unfolding format_loop format_step
format_loop-text print outside m args no_number k fuel f len st t more other end =
    let go : (m f == 0) ≡ false = ground arith in
    let plain : (m f == 37) ≡ false = ground arith in
    rw (go, plain, print_text_lem print outside m args no_number k f len st t, format_loop)
      (format_loop-ended print outside m args no_number k fuel (f + len) _ end)

-- A format that is one text, without a `%`, is copied to the destination, and `vsprintf` returns its
-- length. No other byte changes, so no 0 is written behind the text: one that stands there was there
-- before. The fuel is the length and 2 at least.
pub vsprintf_lem :
    (outside : ℕ → ℕ) (m : Memory) (args : ℕ → ℕ) (no_amount no_number : ℕ) (buffer : Memory)
    (fuel dest format len : ℕ) (to : Memory)
    → 1 < fuel
    → IsText m args fuel len format
    → m format ≢ 0
    → m format ≢ 37
    → m (format + len) ≡ 0
    → (to' : Memory) × (vsprintf outside m args no_amount no_number buffer fuel dest format to
        ≡ some (u32 len, to'))
      × ((i : ℕ) → i < len → to' (dest + i) ≡ m (format + i))
      × ((a : ℕ) → (a < dest) ⊎ (dest + len ≤ a) → to' a ≡ to a)
unfolding vsprintf print_into
vsprintf_lem outside m args no_amount no_number buffer zero dest format len to two t more other
      end =
    absurd (omega arith)
vsprintf_lem outside m args no_amount no_number buffer (suc zero) dest format len to two t more
      other end =
    absurd (omega arith)
vsprintf_lem outside m args no_amount no_number buffer (suc (suc fuel)) dest format len to two t
      more other end =
    let c = print_from-fresh len m format dest 0 (record { offset = 0; memory = to }) refl in
    let empty : 0 + len ≡ len = omega arith in
    let dropped : print_from dest 0 (0 ∷ []) c.result ≡ c.result =
      print_from-short (0 ∷ []) dest 0 c.result (omega (arith, c.at_end, t.some_char)) in
    (
      c.result.memory,
      (rw
          (
            format_loop-text (print_into dest) outside m args no_number (suc (suc fuel)) fuel format
                len (initial no_amount buffer (record { offset = 0; memory = to })) t more other
                end,
            c.is,
            dropped,
          )
          (ap (λ (n : ℕ). some (u32 n, c.result.memory)) empty)),
      λ i h.
          let at : dest + i - (dest + 0) ≡ i = omega arith in
          ground (arith, c.copies (dest + i), at),
      λ a h. ground (arith, c.copies a),
    )
