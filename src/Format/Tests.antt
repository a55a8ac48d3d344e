-- ===== src/Format/Tests.antt =====
-- Runs of the formatted output, and the theorems at such inputs.
use condor_fos.Base.{
  ℕ, ◌+◌, ◌<◌, ◌≤◌, ◌⊎◌, ◌==◌, Bool-cases, ◌≢◌, ◌≡◌, refl, arith, inl, inr, true, false, Option,
  some, List, [], ◌∷◌, ◌++◌, get_or, Memory,
}
use condor_fos.Base.Options.{◌>>=◌}
use condor_fos.Bytes.{strlen, count}
use condor_fos.Bytes.Compare.{IsLength}
use condor_fos.Ctype.{tolower}
use condor_fos.Digits.{ultoa, itoa, emit, finish, reverse, digit_char}
use condor_fos.Tty.{Terminal}
use condor_fos.Format.{
  span, print_text, skip_length, put_char, put_string, put_buffer, put_signed, put_unsigned,
  lower_buffer, put_hex, convert, format_spec, format_step, format_loop, initial, print_chars,
  vprintf,
}
use condor_fos.Format.Buffer.{vsprintf}
use condor_fos.Format.Pieces.{Piece, text, spec, hex, IsText, IsFormat, ShowsAll}
use condor_fos.Format.Prints.{vprintf_lem}
use condor_fos.Format.Into.{vsprintf_lem}

-- "n=%lx" at 0, "hi" at 6, "%s\\n" at 9, and at 13 "%d %u%%%#lX%c%z%d".
abbrev strings : Memory
strings i =
    get_or
      (110 ∷ 61 ∷ 37 ∷ 108 ∷ 120 ∷ 0 ∷ 104 ∷ 105 ∷ 0 ∷ 37 ∷ 115 ∷ 10 ∷ 0 ∷ 37 ∷ 100 ∷ 32 ∷ 37 ∷ 117
        ∷ 37 ∷ 37 ∷ 37 ∷ 35 ∷ 108 ∷ 88 ∷ 37 ∷ 99 ∷ 37 ∷ 122 ∷ 37 ∷ 100 ∷ 0 ∷ [])
      i 0

abbrev words : ℕ → ℕ
words i = get_or (4294967291 ∷ 42 ∷ 171 ∷ 65 ∷ []) i 0

abbrev zeros : Memory
zeros i = 0

abbrev shown_list : List ℕ → List ℕ → List ℕ
shown_list cs shown = shown ++ cs

abbrev shown_by : (format : ℕ) (args : ℕ → ℕ) → Option (List ℕ)
shown_by format args = do
  st ← format_loop shown_list (λ c. 0) strings args 0 40 20 format (initial 0 zeros [])
  some st.sink

-- "-5 42%0xABA", and behind the unknown %z all specifiers are text.
all_specifiers :
    shown_by 13 words
    ≡ some (45 ∷ 53 ∷ 32 ∷ 52 ∷ 50 ∷ 37 ∷ 48 ∷ 120 ∷ 65 ∷ 66 ∷ 65 ∷ 122 ∷ 100 ∷ [])
unfolding format_loop format_step format_spec convert put_hex put_unsigned put_signed put_buffer
    put_string put_char skip_length print_text span strlen count ultoa itoa emit finish reverse
    digit_char lower_buffer tolower
all_specifiers = refl

abbrev screen : Terminal
screen = record {
  column = 0;
  row = 0;
  column_store = 0;
  row_store = 0;
  should_update_cursor = 0;
  default_color = 7;
  buffer = zeros;
  ports = [];
}

abbrev equals_hex : List Piece
equals_hex = text false 2 ∷ spec (hex false true) ∷ []

vprintf_lem_example :
    (out : List ℕ) × (written : ℕ) × ShowsAll strings (λ i. 255) equals_hex 0 0 out
    × (vprintf (λ c. 0) strings (λ i. 255) 0 0 zeros 40 0 screen
        ≡ some (written, print_chars out screen))
vprintf_lem_example =
    vprintf_lem (λ c. 0) strings (λ i. 255) 0 0 zeros 40 0 equals_hex screen (omega arith)
      (omega arith) format
  where
    text_IsText : IsText strings (λ i. 255) 40 2 0
    text_IsText = record {
      some_char = omega arith;
      short = omega arith;
      plain = λ i h h'. let e : i ≡ 1 = omega arith in rw e (omega arith, omega arith);
      stops = inr refl;
    }

    format : IsFormat strings (λ i. 255) 40 equals_hex 0 0
    format = ((omega arith, omega arith, text_IsText), ((refl, refl, refl, omega arith), refl))

hi_bytes : (i : ℕ) → i < 2 → strings (6 + i) ≢ 0
hi_bytes i h = elim (Bool-cases (i == 0)) [
  | inl first ↦ let e : i ≡ 0 = ground arith in rw e (omega arith)
  | inr second ↦ let e : i ≡ 1 = ground arith in rw e (omega arith)
]

hi_IsLength : IsLength strings 6 2
hi_IsLength = (refl, hi_bytes)

vsprintf_lem_example :
    (to' : Memory) × (vsprintf (λ c. 0) strings words 0 0 zeros 40 0x100 6 (λ a. 7) ≡ some (2, to'))
    × ((i : ℕ) → i < 2 → to' (0x100 + i) ≡ strings (6 + i))
    × ((a : ℕ) → (a < 0x100) ⊎ (0x100 + 2 ≤ a) → to' a ≡ 7)
vsprintf_lem_example =
    vsprintf_lem (λ c. 0) strings words 0 0 zeros 40 0x100 6 2 (λ a. 7) (omega arith) text_IsText
      (omega arith) (omega arith) refl
  where
    text_IsText : IsText strings words 40 2 6
    text_IsText = record {
      some_char = omega arith;
      short = omega arith;
      plain = λ i h h'. let e : i ≡ 1 = omega arith in rw e (omega arith, omega arith);
      stops = inl refl;
    }
