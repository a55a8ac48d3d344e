-- ===== src/Format/Hex.antt =====
-- One round of the loop at `%lx` or `%lX`.
use condor_fos.Base.{
  ℕ, ◌+◌, ◌<◌, ◌≡◌, ◌≢◌, refl, arith, ◌∙◌, ap, Bool, true, false, some, List, [], ◌∷◌, ◌++◌,
  if◌then◌else◌, Memory, u32,
}
use condor_fos.Bytes.Compare.{IsLength, strlen_lem}
use condor_fos.Digits.{ultoa}
use condor_fos.Format.{bytes, Format, put_hex, convert, format_step, count_amount, lower_buffer}
use condor_fos.Format.Steps.{Stepped, format_step-specifier, skip_length-one, put_buffer-Converted}
use condor_fos.Format.Numerals.{Converted}
use condor_fos.Format.Pieces.{IsNumeral, spec, hex, width, prefix, IsPiece}

module _ {S : Type 0} (print : List ℕ → S → S) (outside : ℕ → ℕ) (m : Memory) (args : ℕ → ℕ)
    (no_number k : ℕ) where
  -- The digits of the case that the letter asks for.
  abbrev hex_digits : (lower : Bool) (v_len : ℕ) → Memory → Memory
  hex_digits lower v_len digits = if lower then lower_buffer outside v_len digits else digits

  hex_digits-IsLength :
      (lower : Bool) (number : ℕ) (buffer : Memory) (v : Converted 16 number buffer)
      → IsLength (hex_digits lower v.len v.digits) 0 v.len
  hex_digits-IsLength true number buffer v = v.lower_ended outside
  hex_digits-IsLength false number buffer v = v.ended

  hex_digits-IsNumeral :
      (lower : Bool) (number : ℕ) (buffer : Memory) (v : Converted 16 number buffer)
      → IsNumeral lower 16 (bytes v.len (hex_digits lower v.len v.digits) 0) number
  hex_digits-IsNumeral true number buffer v = v.lower outside
  hex_digits-IsNumeral false number buffer v = v.upper

  -- The state behind `%lx` and `%lX`.
  abbrev after_hex :
      (pound lower : Bool) (st : Format S) (number : ℕ) → Converted 16 number st.buffer → Format S
  after_hex pound lower st number v = record st {
    next_arg = st.next_arg + 1;
    buffer = hex_digits lower v.len v.digits;
    amount = u32 (st.amount + v.len);
    sink =
        print (bytes v.len (hex_digits lower v.len v.digits) 0)
          (if pound then print (48 ∷ 120 ∷ []) st.sink else st.sink);
  }

  put_hex_lem :
      (pound lower : Bool) (n : ℕ) (st : Format S)
      → 32 < k
      → st.next_arg ≡ n
      → (v : Converted 16 (args n) st.buffer)
      → put_hex print outside m args no_number k pound 1 lower st
        ≡ some (after_hex pound lower st (args n) v)
  unfolding put_hex
  put_hex_lem pound lower n st fuel here v =
      let ends : ultoa st.buffer (args st.next_arg) 0 16 ≡ some (0, v.digits) =
        ap (λ (i : ℕ). ultoa st.buffer (args i) 0 16) here ∙ v.ends in
      let short : v.len < k = omega (arith, v.short) in
      rw (ends, strlen_lem k v.digits 0 v.len v.ended short)
        (put_buffer-Converted print outside m args no_number k v.len
          (hex_digits lower v.len v.digits)
          (record st {
            next_arg = st.next_arg + 1;
            sink = if pound then print (48 ∷ 120 ∷ []) st.sink else st.sink;
          })
          (hex_digits-IsLength lower (args n) st.buffer v) short)

  convert-hex :
      (pound lower : Bool) (x : ℕ) (st : Format S)
      → x ≡ (if lower then 120 else 88)
      → convert print outside m args no_number k pound 1 x st
        ≡ put_hex print outside m args no_number k pound 1 lower st
  unfolding convert
  convert-hex pound true x st e = rw e refl
  convert-hex pound false x st e = rw e refl

  -- A round at `%lx` or `%lX`.
  format_step-hex :
      (pound lower : Bool) (f n : ℕ) (st : Format S)
      → 32 < k
      → IsPiece m args k (spec (hex pound lower)) f n
      → st.rejected_formater ≡ false
      → st.next_arg ≡ n
      → (v : Converted 16 (args n) st.buffer)
      → format_step print outside m args no_number k f st
        ≡ some
            (f + width (spec (hex pound lower)), count_amount (after_hex pound lower st (args n) v))
  format_step-hex false lower f n st fuel (percent, l, x, fits) accepts here v =
      let at : f + 1 + 1 ≡ f + 2 = omega arith in
      let end : f + 2 + 1 ≡ f + 3 = omega arith in
      let behind : m (f + 1 + 1) ≢ 108 = rw at (ground (arith, x)) in
      rw (← end) (
        format_step-specifier print outside m args no_number k false f (f + 2) 1 st _ percent
          (ground (arith, l)) accepts (ground (arith, l))
          (rw (← at)
            (skip_length-one print outside m args no_number k k (f + 1) (omega arith) l behind))
          (ground (arith, x))
          (convert-hex false lower (m (f + 2)) st x ∙ put_hex_lem false lower n st fuel here v))
  format_step-hex true lower f n st fuel (percent, hash, l, x, fits) accepts here v =
      let at : f + 1 + 1 ≡ f + 2 = omega arith in
      let next : f + 2 + 1 ≡ f + 3 = omega arith in
      let end : f + 3 + 1 ≡ f + 4 = omega arith in
      let behind : m (f + 2 + 1) ≢ 108 = rw next (ground (arith, x)) in
      rw (← end) (
        format_step-specifier print outside m args no_number k true f (f + 3) 1 st _ percent
          (ground (arith, hash)) accepts (ground (arith, hash))
          (rw (at, ← next)
            (skip_length-one print outside m args no_number k k (f + 2) (omega arith) l behind))
          (ground (arith, x))
          (convert-hex true lower (m (f + 3)) st x ∙ put_hex_lem true lower n st fuel here v))

  -- Printing two texts one behind the other is printing them together.
  abbrev pub Appends : Type 0
  Appends = (xs ys : List ℕ) (s : S) → print ys (print xs s) ≡ print (xs ++ ys) s

  after_hex-prints :
      (pound lower : Bool) (st : Format S) (number : ℕ) (v : Converted 16 number st.buffer)
      → Appends
      → (after_hex pound lower st number v).sink
        ≡ print (prefix pound ++ bytes v.len (hex_digits lower v.len v.digits) 0) st.sink
  after_hex-prints true lower st number v appends = appends (48 ∷ 120 ∷ []) _ st.sink
  after_hex-prints false lower st number v appends = refl

  pub step_hex :
      (pound lower : Bool) (f n : ℕ) (st : Format S)
      → 32 < k
      → IsPiece m args k (spec (hex pound lower)) f n
      → st.rejected_formater ≡ false
      → st.next_arg ≡ n
      → Appends
      → Converted 16 (args n) st.buffer
      → Stepped print outside m args no_number k (spec (hex pound lower)) f n st
  step_hex pound lower f n st fuel piece accepts here appends v = record {
    out = prefix pound ++ bytes v.len (hex_digits lower v.len v.digits) 0;
    next = count_amount (after_hex pound lower st (args n) v);
    steps = format_step-hex pound lower f n st fuel piece accepts here v;
    shows = (_, refl, hex_digits-IsNumeral lower (args n) st.buffer v);
    accepts = accepts;
    at_arg = omega (arith, here);
    prints = after_hex-prints pound lower st (args n) v appends;
  }
