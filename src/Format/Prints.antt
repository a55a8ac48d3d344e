-- ===== src/Format/Prints.antt =====
-- A whole format: what is printed is what its pieces show.
use mathlib.Core.Option.{some-injective}
use condor_fos.Base.{
  length, ℕ, zero, suc, ◌+◌, ◌<◌, ◌≡◌, ◌≢◌, refl, arith, inl, ◌∙◌, sym, ap, true, false, some, List,
  [], ◌∷◌, ◌++◌, ◌==◌, Memory,
}
use condor_fos.Bytes.Compare.{IsLength, strlen_lem}
use condor_fos.Bytes.{strlen}
use condor_fos.Tty.{Terminal}
use condor_fos.Format.{Format, format_loop, initial, print_chars, vprintf, printf, puts, bytes}
use condor_fos.Format.Numerals.{ultoa-Converted, itoa-SignConverted}
use condor_fos.Format.Pieces.{
  Piece, IsText, text, spec, character, string, unsigned, signed, hex, width, takes, IsPiece,
  IsFormat, ShowsAll,
}
use condor_fos.Format.Steps.{Stepped, step_text}
use condor_fos.Format.Conversions.{step_character, step_string, step_unsigned, step_signed}
use condor_fos.Format.Hex.{step_hex}

module _ {S : Type 0} (print : List ℕ → S → S) (outside : ℕ → ℕ) (m : Memory) (args : ℕ → ℕ)
    (no_number k : ℕ)
    (appends : (xs ys : List ℕ) (s : S) → print ys (print xs s) ≡ print (xs ++ ys) s)
    (nothing : (s : S) → print [] s ≡ s) (fuel_k : 33 < k) where
  step_piece :
      (p : Piece) (f n : ℕ) (st : Format S)
      → IsPiece m args k p f n
      → st.rejected_formater ≡ false
      → st.next_arg ≡ n
      → Stepped print outside m args no_number k p f n st
  step_piece (text doubled count) f n st piece accepts here =
      step_text print outside m args no_number k doubled count f n st piece accepts here
  step_piece (spec character) f n st piece accepts here =
      step_character print outside m args no_number k f n st (omega arith) piece accepts here
  step_piece (spec string) f n st piece accepts here =
      step_string print outside m args no_number k f n st (omega arith) piece accepts here
  step_piece (spec unsigned) f n st piece accepts here =
      step_unsigned print outside m args no_number k f n st (omega arith) piece accepts here
        (ultoa-Converted 10 (args n) st.buffer (omega arith) (omega arith) piece.2)
  step_piece (spec (signed letter_i)) f n st piece accepts here =
      step_signed print outside m args no_number k letter_i f n st fuel_k piece accepts here
        (itoa-SignConverted (args n) st.buffer piece.2 piece.3)
  step_piece (spec (hex false lower)) f n st piece accepts here =
      step_hex print outside m args no_number k false lower f n st (omega arith) piece accepts here
        appends (ultoa-Converted 16 (args n) st.buffer (omega arith) (omega arith) piece.3)
  step_piece (spec (hex true lower)) f n st piece accepts here =
      step_hex print outside m args no_number k true lower f n st (omega arith) piece accepts here
        appends (ultoa-Converted 16 (args n) st.buffer (omega arith) (omega arith) piece.4)

  -- A piece is not the end of the format.
  piece_starts : (p : Piece) (f n : ℕ) → IsPiece m args k p f n → m f ≢ 0
  piece_starts (text false count) f n piece = piece.0
  piece_starts (text true count) f n piece = ground (arith, piece.0)
  piece_starts (spec character) f n piece = ground (arith, piece.0)
  piece_starts (spec string) f n piece = ground (arith, piece.0)
  piece_starts (spec unsigned) f n piece = ground (arith, piece.0)
  piece_starts (spec (signed letter_i)) f n piece = ground (arith, piece.0)
  piece_starts (spec (hex false lower)) f n piece = ground (arith, piece.0)
  piece_starts (spec (hex true lower)) f n piece = ground (arith, piece.0)

  pub record Printed (ps : List Piece) (fuel f n : ℕ) (st : Format S) : Type 0 where
    pub out : List ℕ
    pub last : Format S
    pub ends : format_loop print outside m args no_number k fuel f st ≡ some last
    pub shows : ShowsAll m args ps f n out
    pub prints : last.sink ≡ print out st.sink

  pub format_loop_lem :
      (ps : List Piece) (fuel f n : ℕ) (st : Format S)
      → IsFormat m args k ps f n
      → length ps < fuel
      → st.rejected_formater ≡ false
      → st.next_arg ≡ n
      → Printed ps fuel f n st
  unfolding format_loop
  format_loop_lem ps zero f n st format enough accepts here = absurd (omega arith)
  format_loop_lem [] (suc fuel) f n st format enough accepts here =
      let end : (m f == 0) ≡ true = ground arith in
      record {
        out = [];
        last = st;
        ends = rw (end, format_loop) refl;
        shows = refl;
        prints = sym (nothing st.sink);
      }
  format_loop_lem (p ∷ ps) (suc fuel) f n st format enough accepts here =
      let more : (m f == 0) ≡ false = ground (arith, piece_starts p f n format.0) in
      let first = step_piece p f n st format.0 accepts here in
      let rest =
        format_loop_lem ps fuel (f + width p) (n + takes p) first.next format.1 (omega arith)
          first.accepts first.at_arg in
      record {
        out = first.out ++ rest.out;
        last = rest.last;
        ends = rw (more, first.steps, format_loop) rest.ends;
        shows = (first.out, rest.out, first.shows, rest.shows, refl);
        prints =
            rest.prints ∙ (ap (print rest.out) first.prints ∙ appends first.out rest.out st.sink);
      }

print_chars-append :
    (xs ys : List ℕ) (t : Terminal) → print_chars ys (print_chars xs t) ≡ print_chars (xs ++ ys) t
unfolding print_chars
print_chars-append [] ys t = refl
print_chars-append (x ∷ xs) ys t = print_chars-append xs ys _

-- For a format of texts, of `%%`, and of %c, %s, %u, %d, %i, %lx and %lX with or without the #, whose
-- arguments fit, `vprintf` ends once the fuel is larger than the number of pieces, than every text
-- and string, and than 33. It prints to the terminal, character by character, the text that the
-- pieces show: texts as they are, strings up to their 0, and digits that read back as
-- the number. The number of %d and %i is not -2 ^ 31.
pub vprintf_lem :
    (outside : ℕ → ℕ) (m : Memory) (args : ℕ → ℕ) (no_amount no_number : ℕ) (buffer : Memory)
    (fuel format : ℕ) (ps : List Piece) (t : Terminal)
    → 33 < fuel
    → length ps < fuel
    → IsFormat m args fuel ps format 0
    → (out : List ℕ) × (written : ℕ) × ShowsAll m args ps format 0 out
      × (vprintf outside m args no_amount no_number buffer fuel format t
          ≡ some (written, print_chars out t))
unfolding vprintf print_chars
vprintf_lem outside m args no_amount no_number buffer fuel format ps t wide enough is =
    let r =
      format_loop_lem print_chars outside m args no_number fuel print_chars-append (λ s. refl) wide
        ps fuel format 0 (initial no_amount buffer t) is enough refl refl in
    (r.out, r.last.written, r.shows, (rw (r.ends, r.prints) refl))

IsLength-unique :
    (m : Memory) (str len len' : ℕ) → IsLength m str len → IsLength m str len' → len ≡ len'
IsLength-unique m str len len' ended ended' =
    let fuel : ℕ = suc (len + len') in
    let first : strlen fuel m str ≡ some len = strlen_lem fuel m str len ended (omega arith) in
    let second : strlen fuel m str ≡ some len' = strlen_lem fuel m str len' ended' (omega arith) in
    some-injective len len' (sym first ∙ second)

-- `puts` ends once the fuel is larger than the length of the string and than 33. It prints the
-- string up to its 0 and a newline.
puts_lem :
    (outside : ℕ → ℕ) (m : Memory) (no_amount no_number : ℕ) (buffer : Memory)
    (fuel newline str len : ℕ) (t : Terminal)
    → 33 < fuel
    → len < fuel
    → IsLength m str len
    → bytes 4 m newline ≡ 37 ∷ 115 ∷ 10 ∷ 0 ∷ []
    → (written : ℕ) × (puts outside m no_amount no_number buffer fuel newline str t
        ≡ some (written, print_chars (bytes len m str ++ (10 ∷ [])) t))
unfolding puts printf
puts_lem outside m no_amount no_number buffer fuel newline str len t wide enough ended literal =
    let percent : m newline ≡ 37 = ground (arith, literal) in
    let s : m (newline + 1) ≡ 115 = ground (arith, literal) in
    let at2 : newline + 1 + 1 ≡ newline + 2 = omega arith in
    let at3 : newline + 1 + 1 + 1 ≡ newline + 2 + 1 = omega arith in
    let line : m (newline + 2) ≡ 10 = rw (← at2) (ground (arith, literal)) in
    let last : m (newline + 2 + 1) ≡ 0 = rw (← at3) (ground (arith, literal)) in
    let text_IsText : IsText m (λ (i : ℕ). str) fuel 1 (newline + 2) = record {
      some_char = omega arith;
      short = omega arith;
      plain = λ i h h'. absurd (omega arith);
      stops = inl last;
    } in
    let (
      out,
      written,
      (first, rest, (len', ended', one), (two, none_left, shown, nil, more), all),
      is,
    ) =
      vprintf_lem outside m (λ i. str) no_amount no_number buffer fuel newline
        (spec string ∷ text false 1 ∷ []) t wide (omega arith)
        (
          (percent, s, len, ended, enough),
          ((ground (arith, line), ground (arith, line), text_IsText), last),
        ) in
    let same : len' ≡ len = IsLength-unique m str len' len ended' ended in
    let whole : out ≡ bytes len m str ++ (10 ∷ []) =
      rw (all, one, more, shown, nil, same, line) refl in
    (written, (rw (← whole) is))
