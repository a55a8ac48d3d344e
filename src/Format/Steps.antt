-- ===== src/Format/Steps.antt =====
-- One round of the loop at a piece of the format.
use condor_fos.Base.{
  ℕ, zero, suc, ◌+◌, ◌≤◌, ◌<◌, ◌≡◌, ◌≢◌, refl, arith, ap, Bool, true, false, ◌||◌, not, ◌&&◌,
  Bool-cases, inl, inr, some, List, ◌==◌, if◌then◌else◌, Memory, u32,
}
use condor_fos.Bytes.Compare.{IsLength, strlen_lem}
use condor_fos.Format.{
  bytes, Format, span, print_text, skip_length, put_buffer, convert, format_spec, format_step,
  is_specifier, count_amount,
}
use condor_fos.Format.Pieces.{Piece, text, width, takes, IsText, IsPiece, Shows}

module _ {S : Type 0} (print : List ℕ → S → S) (outside : ℕ → ℕ) (m : Memory) (args : ℕ → ℕ)
    (no_number k : ℕ) where
  -- The round at `f` has shown the piece and stands behind it.
  pub record Stepped (p : Piece) (f n : ℕ) (st : Format S) : Type 0 where
    pub out : List ℕ
    pub next : Format S
    pub steps : format_step print outside m args no_number k f st ≡ some (f + width p, next)
    pub shows : Shows m args p f n out
    pub accepts : next.rejected_formater ≡ false
    pub at_arg : next.next_arg ≡ n + takes p
    pub prints : next.sink ≡ print out st.sink

  span_lem :
      (fuel f length amount : ℕ)
      → IsText m args k length f
      → 0 < amount
      → amount ≤ length
      → length < fuel + amount
      → span print outside m args no_number k fuel f amount ≡ some length
  unfolding span
  span_lem zero f length amount t one reached enough = absurd (omega arith)
  span_lem (suc fuel) f length amount t one reached enough = elim (Bool-cases (amount == length)) [
    | inl here ↦
        let e : amount ≡ length = ground arith in
        let stop : ((m (f + amount) == 0) || (m (f + amount) == 37)) ≡ true =
          ground (arith, e, t.stops) in
        rw stop (ap some e)
    | inr before ↦
        let go : ((m (f + amount) == 0) || (m (f + amount) == 37)) ≡ false =
          ground (arith, t.plain amount one (ground arith)) in
        rw go (span_lem fuel f length (amount + 1) t (omega arith) (ground arith) (omega arith))
  ]

  pub print_text_lem :
      (f length : ℕ) (st : Format S)
      → IsText m args k length f
      → print_text print outside m args no_number k f st
        ≡ some (
          f + length,
          record st {
            amount = length;
            written = u32 (st.written + length);
            sink = print (bytes length m f) st.sink;
          },
        )
  unfolding print_text
  print_text_lem f length st t =
      rw
        (span_lem k f length 1 t (omega arith) (omega (arith, t.some_char))
          (omega (arith, t.short)))
        refl

  skip_length-none :
      (fuel f length : ℕ)
      → 0 < fuel
      → m f ≢ 108
      → skip_length print outside m args no_number k fuel f length ≡ some (length, f)
  unfolding skip_length
  skip_length-none zero f length some_fuel other = absurd (omega arith)
  skip_length-none (suc fuel) f length some_fuel other =
      let stop : (m f == 108) ≡ false = ground arith in rw stop refl

  pub skip_length-one :
      (fuel f : ℕ)
      → 1 < fuel
      → m f ≡ 108
      → m (f + 1) ≢ 108
      → skip_length print outside m args no_number k fuel f 0 ≡ some (1, f + 1)
  unfolding skip_length
  skip_length-one zero f some_fuel l other = absurd (omega arith)
  skip_length-one (suc fuel) f some_fuel l other =
      let go : (m f == 108) ≡ true = ground arith in
      rw go (skip_length-none fuel (f + 1) 1 (omega arith) other)

  -- A round at a specifier, from what its parts do.
  pub format_step-specifier :
      (pound : Bool) (f at length : ℕ) (st next : Format S)
      → m f ≡ 37
      → m (f + 1) ≢ 37
      → st.rejected_formater ≡ false
      → (m (f + 1) == 35) ≡ pound
      → skip_length print outside m args no_number k k (if pound then f + 1 + 1 else f + 1) 0
        ≡ some (length, at)
      → is_specifier (m at) ≡ true
      → convert print outside m args no_number k pound length (m at) st ≡ some next
      → format_step print outside m args no_number k f st ≡ some (at + 1, count_amount next)
  unfolding format_step format_spec
  format_step-specifier pound f at length st next percent single accepts hash skips known converts =
      let is : (m f == 37) ≡ true = ground arith in
      let one : ((m (f + 1) == 37) || st.rejected_formater) ≡ false = ground (arith, accepts) in
      rw (is, one, hash, skips, known, converts) refl

  pub put_buffer-Converted :
      (len : ℕ) (digits : Memory) (st : Format S)
      → IsLength digits 0 len
      → len < k
      → put_buffer print outside m args no_number k st (0, digits)
        ≡ some (record st {
          buffer = digits;
          amount = u32 (st.amount + len);
          sink = print (bytes len digits 0) st.sink;
        })
  unfolding put_buffer
  put_buffer-Converted len digits st ended short = rw (strlen_lem k digits 0 len ended short) refl

  pub step_text :
      (doubled : Bool) (length f n : ℕ) (st : Format S)
      → IsPiece m args k (text doubled length) f n
      → st.rejected_formater ≡ false
      → st.next_arg ≡ n
      → Stepped (text doubled length) f n st
  unfolding format_step
  step_text false length f n st (some_char, other, t) accepts here =
      let is : (m f == 37) ≡ false = ground arith in
      record {
        out = bytes length m f;
        next = record st {
          amount = length;
          written = u32 (st.written + length);
          sink = print (bytes length m f) st.sink;
        };
        steps = rw is (print_text_lem f length st t);
        shows = refl;
        accepts = accepts;
        at_arg = omega (arith, here);
        prints = refl;
      }
  step_text true length f n st (percent, again, t) accepts here =
      let is : (m f == 37) ≡ true = ground arith in
      let twice : (m (f + 1) == 37) ≡ true = ground arith in
      record {
        out = bytes length m (f + 1);
        next = record st {
          amount = length;
          written = u32 (st.written + length);
          sink = print (bytes length m (f + 1)) st.sink;
        };
        steps =
            let at : f + 1 + length ≡ f + (1 + length) = omega arith in
            rw (is, twice, ← at) (print_text_lem (f + 1) length st t);
        shows = refl;
        accepts = accepts;
        at_arg = omega (arith, here);
        prints = refl;
      }

  -- A letter behind the `%`.
  pub format_step-letter :
      (x f : ℕ) (st next : Format S)
      → 1 < k
      → (is_specifier x && not (x == 108) && not (x == 37) && not (x == 35)) ≡ true
      → m f ≡ 37
      → m (f + 1) ≡ x
      → st.rejected_formater ≡ false
      → convert print outside m args no_number k false 0 x st ≡ some next
      → format_step print outside m args no_number k f st ≡ some (f + 2, count_amount next)
  format_step-letter x f st next fuel letter percent c accepts converts =
      let at : f + 1 + 1 ≡ f + 2 = omega arith in
      rw (← at) (
        format_step-specifier false f (f + 1) 0 st next percent (ground (arith, letter, c)) accepts
          (ground (arith, letter, c))
          (skip_length-none k (f + 1) 0 (omega arith) (ground (arith, letter, c)))
          (rw c (ground (arith, letter))) (rw c converts))
