-- ===== src/Format/Numerals.antt =====
-- The digits that `ultoa` leaves in the buffer, in either case.
use condor_fos.Base.{
  ◌-◌, pos, ℕ, zero, suc, ◌+◌, ◌*◌, ◌^◌, ◌≤◌, ◌<◌, ◌≡◌, ◌≢◌, refl, arith, ◌∙◌, ap, Bool, true,
  false, not, ◌&&◌, ◌||◌, Bool-cases, inl, inr, [], ltb, ◌==◌, Memory, u8, some,
}
use condor_fos.Bytes.Compare.{IsLength}
use condor_fos.Ctype.{tolower}
use condor_fos.Digits.{ultoa, itoa}
use condor_fos.Digits.Emit.{IsVisible, char_value, read_number}
use condor_fos.Digits.Ultoa.{ultoa_lem, itoa-negsuc}
use condor_fos.Format.{to_int, bytes, lower_buffer}
use condor_fos.Format.Pieces.{
  IsSigned, positive, negative, digit_value, read_digits, All, IsCased, IsNumeral,
}

-- Bytes that have the values of the digits read as they do.
read_digits-bytes :
    (len : ℕ) (m m' : Memory) (base p acc : ℕ)
    → ((i : ℕ) → i < len → digit_value (m (p + i)) ≡ char_value (m' (p + i)))
    → read_digits (bytes len m p) base acc ≡ read_number len m' base p acc
unfolding read_digits read_number
read_digits-bytes zero m m' base p acc same = refl
read_digits-bytes (suc len) m m' base p acc same =
    let here : digit_value (m p) ≡ char_value (m' p) = ground (arith, same 0 (omega arith)) in
    ap (λ (v : ℕ). read_digits (bytes len m (p + 1)) base (acc * base + v)) here
    ∙ (read_digits-bytes len m m' base (p + 1) _
        (λ i h. let at : p + 1 + i ≡ p + suc i = omega arith in rw at (same (suc i) (omega arith))))

All-bytes :
    (P : ℕ → Type 0) (len : ℕ) (m : Memory) (p : ℕ)
    → ((i : ℕ) → i < len → P (m (p + i)))
    → All P (bytes len m p)
All-bytes P zero m p each = tt
All-bytes P (suc len) m p each =
    let start : p + 0 ≡ p = omega arith in
    (
      (rw start at (each 0 (omega arith))),
      All-bytes P len m (p + 1) (λ i h.
          let at : p + 1 + i ≡ p + suc i = omega arith in rw at (each (suc i) (omega arith))),
    )

bytes-some : (len : ℕ) (m : Memory) (p : ℕ) → 0 < len → bytes len m p ≢ []
bytes-some zero m p some_byte = λ e. absurd (omega arith)
bytes-some (suc len) m p some_byte = λ e. ground (arith, e)

module _ (outside : ℕ → ℕ) where
  abbrev lowered : ℕ → ℕ
  lowered c = u8 (tolower outside c)

  -- What the case of a digit keeps, for the characters from 48 to 47 + n.
  abbrev all_lowered : ℕ → Bool
  all_lowered zero = true
  all_lowered (suc n) =
      (digit_value (lowered (48 + n)) == char_value (48 + n))
      && not (lowered (48 + n) == 0)
      && (ltb (lowered (48 + n)) 65 || ltb 90 (lowered (48 + n)))
      && all_lowered n

  record Lowered (c : ℕ) : Type 0 where
    keeps : digit_value (lowered c) ≡ char_value c
    nonzero : lowered c ≢ 0
    cased : IsCased true (lowered c)

  all_lowered_lem : (n c : ℕ) → 48 ≤ c → c < 48 + n → all_lowered n ≡ true → Lowered c
  all_lowered_lem zero c low high all = absurd (omega arith)
  all_lowered_lem (suc n) c low high all = elim (Bool-cases (c == 48 + n)) [
    | inl last ↦
        let e : c ≡ 48 + n = ground arith in
        rw e (record {
          keeps = ground arith;
          nonzero = ground arith;
          cased = elim (Bool-cases (ltb (lowered (48 + n)) 65)) [
            | inl h ↦ inl (ground arith)
            | inr h ↦ inr (ground arith)
          ];
        })
    | inr before ↦ all_lowered_lem n c low (ground arith) (ground arith)
  ]

  IsVisible-Lowered : (c : ℕ) → IsVisible c → Lowered c
  unfolding tolower
  IsVisible-Lowered c visible = all_lowered_lem 43 c visible.0 (omega (arith, visible.1)) refl

-- What `ultoa` leaves in the buffer is a numeral, and so are its lower case letters.
pub record Converted (base value : ℕ) (buffer : Memory) : Type 0 where
  pub len : ℕ
  pub digits : Memory
  pub ends : ultoa buffer value 0 base ≡ some (0, digits)
  pub short : len ≤ 32
  pub ended : IsLength digits 0 len
  pub upper : IsNumeral false base (bytes len digits 0) value
  pub lower_ended : (outside : ℕ → ℕ) → IsLength (lower_buffer outside len digits) 0 len
  pub lower :
      (outside : ℕ → ℕ) → IsNumeral true base (bytes len (lower_buffer outside len digits) 0) value

module _ (base value : ℕ) (digits : Memory) (len : ℕ) (some_digit : 0 < len)
    (visible : (i : ℕ) → i < len → IsVisible (digits (0 + i)))
    (reads : read_number len digits base 0 0 ≡ value) where
  upper-IsNumeral : IsNumeral false base (bytes len digits 0) value
  upper-IsNumeral = record {
    some_digit = bytes-some len digits 0 some_digit;
    cased = All-bytes (IsCased false) len digits 0 (λ i h. (visible i h).1);
    reads =
        read_digits-bytes len digits digits base 0 0 (λ i h. ground (arith, visible i h)) ∙ reads;
  }

  lower-IsNumeral :
      (outside : ℕ → ℕ) → IsNumeral true base (bytes len (lower_buffer outside len digits) 0) value
  unfolding lower_buffer
  lower-IsNumeral outside =
      let lowers =
        λ (i : ℕ) (h : i < len). IsVisible-Lowered outside (digits (0 + i)) (visible i h) in
      let inside = λ (i : ℕ) (h : i < len). (let t : ltb (0 + i) len ≡ true = ground arith in t) in
      record {
        some_digit = bytes-some len (lower_buffer outside len digits) 0 some_digit;
        cased =
            All-bytes (IsCased true) len (lower_buffer outside len digits) 0
              (λ i h. rw (inside i h) ((lowers i h).cased));
        reads =
            read_digits-bytes len (lower_buffer outside len digits) digits base 0 0
              (λ i h. rw (inside i h) ((lowers i h).keeps))
            ∙ reads;
      }

  lower-IsLength :
      (outside : ℕ → ℕ) → IsLength digits 0 len → IsLength (lower_buffer outside len digits) 0 len
  unfolding lower_buffer
  lower-IsLength outside ended = (
    ground (arith, ended.0),
    λ i h.
        let t : ltb (0 + i) len ≡ true = ground arith in
        rw t ((IsVisible-Lowered outside (digits (0 + i)) (visible i h)).nonzero),
  )

pub ultoa-Converted :
    (base value : ℕ) (buffer : Memory)
    → 2 ≤ base
    → base ≤ 36
    → value < 2 ^ 32
    → Converted base value buffer
ultoa-Converted base value buffer two small fits =
    let (len, digits, ends, some_digit, short, ended, visible, reads, kept) =
      ultoa_lem buffer value 0 base 0 two small fits in
    record {
      len = len;
      digits = digits;
      ends = ends;
      short = short;
      ended = ended;
      upper = upper-IsNumeral base value digits len some_digit visible reads;
      lower_ended =
          λ outside. lower-IsLength base value digits len some_digit visible reads outside ended;
      lower = lower-IsNumeral base value digits len some_digit visible reads;
    }

-- What `itoa` leaves in the buffer for a word that is read as an `int`.
pub record SignConverted (word : ℕ) (buffer : Memory) : Type 0 where
  pub len : ℕ
  pub digits : Memory
  pub ends : itoa buffer (to_int word) 0 10 ≡ some (0, digits)
  pub short : len ≤ 33
  pub ended : IsLength digits 0 len
  pub signed : IsSigned (bytes len digits 0) word

itoa-pos : (m : Memory) (value str base : ℕ) → itoa m (pos value) str base ≡ ultoa m value str base
unfolding itoa ultoa
itoa-pos m value str base = refl

positive-SignConverted :
    (word : ℕ) (buffer : Memory)
    → word < 2 ^ 31
    → Converted 10 word buffer
    → SignConverted word buffer
positive-SignConverted word buffer small v =
    let sign : ltb word (2 ^ 31) ≡ true = ground arith in
    record {
      len = v.len;
      digits = v.digits;
      ends = rw sign (itoa-pos buffer word 0 10 ∙ v.ends);
      short = omega (arith, v.short);
      ended = v.ended;
      signed = positive small v.upper;
    }

negative-SignConverted :
    (word : ℕ) (buffer : Memory) → 2 ^ 31 < word → word < 2 ^ 32 → SignConverted word buffer
negative-SignConverted word buffer large fits =
    let sign : ltb word (2 ^ 31) ≡ false = ground arith in
    let magnitude : 2 ^ 32 - 1 - word + 1 ≡ 2 ^ 32 - word = omega arith in
    let (len, digits, ends, some_digit, short, minus, ended, visible, reads, kept) =
      itoa-negsuc buffer (2 ^ 32 - 1 - word) 0 10 0 (omega arith) (omega arith) (omega arith) in
    record {
      len = suc len;
      digits = digits;
      ends = rw sign ends;
      short = omega (arith, short);
      ended = ended;
      signed = negative (bytes len digits 1) large (rw minus refl) (record {
        some_digit = bytes-some len digits 1 some_digit;
        cased = All-bytes (IsCased false) len digits 1 (λ i h. (visible i h).1);
        reads =
            read_digits-bytes len digits digits 10 1 0 (λ i h. ground (arith, visible i h))
            ∙ (reads ∙ magnitude);
      });
    }

pub itoa-SignConverted :
    (word : ℕ) (buffer : Memory) → word < 2 ^ 32 → word ≢ 2 ^ 31 → SignConverted word buffer
itoa-SignConverted word buffer fits other = elim (Bool-cases (ltb word (2 ^ 31))) [
  | inl small ↦
      positive-SignConverted word buffer (ground arith)
        (ultoa-Converted 10 word buffer (omega arith) (omega arith) fits)
  | inr large ↦ negative-SignConverted word buffer (ground (arith, other)) fits
]
