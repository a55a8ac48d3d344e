-- ===== src/Format/Conversions.antt =====
-- One round of the loop at `%c`, `%s`, `%u`, `%d` and `%i`.
use condor_fos.Base.{
  ℕ, ◌+◌, ◌<◌, ◌≡◌, refl, arith, ◌∙◌, ap, Bool, true, false, not, ◌&&◌, some, List, [], ◌∷◌, ◌==◌,
  if◌then◌else◌, Memory, u8, u32,
}
use condor_fos.Bytes.Compare.{strlen_lem}
use condor_fos.Digits.{itoa, ultoa}
use condor_fos.Format.{
  bytes, Format, put_char, put_string, put_signed, to_int, put_unsigned, convert, is_specifier,
  count_amount,
}
use condor_fos.Format.Steps.{Stepped, format_step-letter, put_buffer-Converted}
use condor_fos.Format.Numerals.{SignConverted, Converted}
use condor_fos.Format.Pieces.{spec, character, string, unsigned, signed, IsPiece}

module _ {S : Type 0} (print : List ℕ → S → S) (outside : ℕ → ℕ) (m : Memory) (args : ℕ → ℕ)
    (no_number k : ℕ) where
  pub step_character :
      (f n : ℕ) (st : Format S)
      → 1 < k
      → IsPiece m args k (spec character) f n
      → st.rejected_formater ≡ false
      → st.next_arg ≡ n
      → Stepped print outside m args no_number k (spec character) f n st
  unfolding convert put_char
  step_character f n st fuel (percent, c) accepts here = record {
    out = u8 (args n) ∷ [];
    next = count_amount (record st {
      next_arg = st.next_arg + 1;
      sink = print (u8 (args st.next_arg) ∷ []) st.sink;
    });
    steps =
        format_step-letter print outside m args no_number k 99 f st _ fuel refl percent c accepts
          refl;
    shows = refl;
    accepts = accepts;
    at_arg = omega (arith, here);
    prints = rw here refl;
  }

  pub step_string :
      (f n : ℕ) (st : Format S)
      → 1 < k
      → IsPiece m args k (spec string) f n
      → st.rejected_formater ≡ false
      → st.next_arg ≡ n
      → Stepped print outside m args no_number k (spec string) f n st
  unfolding convert put_string
  step_string f n st fuel (percent, c, length, ended, short) accepts here = record {
    out = bytes length m (args n);
    next = count_amount (record st {
      next_arg = st.next_arg + 1;
      sink = print (bytes length m (args st.next_arg)) st.sink;
    });
    steps =
        format_step-letter print outside m args no_number k 115 f st _ fuel refl percent c accepts
          (rw (strlen_lem k m (args st.next_arg) length (rw here ended) short) refl);
    shows = (length, ended, refl);
    accepts = accepts;
    at_arg = omega (arith, here);
    prints = rw here refl;
  }

  pub step_unsigned :
      (f n : ℕ) (st : Format S)
      → 32 < k
      → IsPiece m args k (spec unsigned) f n
      → st.rejected_formater ≡ false
      → st.next_arg ≡ n
      → Converted 10 (args n) st.buffer
      → Stepped print outside m args no_number k (spec unsigned) f n st
  unfolding convert put_unsigned
  step_unsigned f n st fuel (percent, c, fits) accepts here v = record {
    out = bytes v.len v.digits 0;
    next = count_amount (record st {
      next_arg = st.next_arg + 1;
      buffer = v.digits;
      amount = u32 (st.amount + v.len);
      sink = print (bytes v.len v.digits 0) st.sink;
    });
    steps =
        let ends : ultoa st.buffer (args st.next_arg) 0 10 ≡ some (0, v.digits) =
          ap (λ (i : ℕ). ultoa st.buffer (args i) 0 10) here ∙ v.ends in
        format_step-letter print outside m args no_number k 117 f st _ (omega arith) refl percent c
          accepts
          (rw ends (
            put_buffer-Converted print outside m args no_number k v.len v.digits
              (record st { next_arg = st.next_arg + 1 }) v.ended (omega (arith, v.short))));
    shows = v.upper;
    accepts = accepts;
    at_arg = omega (arith, here);
    prints = refl;
  }

  is_signed :
      (letter_i : Bool)
      → let x : ℕ = if letter_i then 105 else 100 in
        (is_specifier x && not (x == 108) && not (x == 37) && not (x == 35)) ≡ true
  is_signed true = refl
  is_signed false = refl

  converts_signed :
      (letter_i : Bool) (st next : Format S)
      → put_signed print outside m args no_number k 0 st ≡ some next
      → convert print outside m args no_number k false 0 (if letter_i then 105 else 100) st
        ≡ some next
  unfolding convert
  converts_signed true st next put = put
  converts_signed false st next put = put

  pub step_signed :
      (letter_i : Bool) (f n : ℕ) (st : Format S)
      → 33 < k
      → IsPiece m args k (spec (signed letter_i)) f n
      → st.rejected_formater ≡ false
      → st.next_arg ≡ n
      → SignConverted (args n) st.buffer
      → Stepped print outside m args no_number k (spec (signed letter_i)) f n st
  unfolding convert put_signed
  step_signed letter_i f n st fuel (percent, c, fits, other) accepts here v = record {
    out = bytes v.len v.digits 0;
    next = count_amount (record st {
      next_arg = st.next_arg + 1;
      buffer = v.digits;
      amount = u32 (st.amount + v.len);
      sink = print (bytes v.len v.digits 0) st.sink;
    });
    steps =
        let ends : itoa st.buffer (to_int (args st.next_arg)) 0 10 ≡ some (0, v.digits) =
          ap (λ (i : ℕ). itoa st.buffer (to_int (args i)) 0 10) here ∙ v.ends in
        format_step-letter print outside m args no_number k (if letter_i then 105 else 100) f st _
          (omega arith) (is_signed letter_i) percent c accepts
          (converts_signed letter_i st _ (
            rw ends (
              put_buffer-Converted print outside m args no_number k v.len v.digits
                (record st { next_arg = st.next_arg + 1 }) v.ended (omega (arith, v.short)))));
    shows = v.signed;
    accepts = accepts;
    at_arg = omega (arith, here);
    prints = refl;
  }
