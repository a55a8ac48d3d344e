-- ===== src/Format/Pieces.antt =====
-- What a format says, as a list of pieces, and what each of them shows.
use condor_fos.Base.{
  ℕ, ◌+◌, ◌-◌, ◌*◌, ◌^◌, ◌≤◌, ◌<◌, ◌≡◌, ◌≢◌, ◌⊎◌, Bool, true, false, List, [], ◌∷◌, ◌++◌, ltb,
  if◌then◌else◌, Memory, u8,
}
use condor_fos.Bytes.Compare.{IsLength}
use condor_fos.Format.{bytes}

-- `%c`, `%s`, `%u`, `%d` or `%i`, and `%lx` or `%lX` with or without the `#`.
pub data Conversion : Type 0 where
  character string unsigned : Conversion
  signed : (letter_i : Bool) → Conversion
  hex : (pound lower : Bool) → Conversion

-- A text of `length` characters, of which the first may be a `%` that is written twice.
pub data Piece : Type 0 where
  text : (doubled : Bool) (length : ℕ) → Piece
  spec : Conversion → Piece

-- The value of a digit of either case, and of the digits behind `acc`.
abbrev pub digit_value : ℕ → ℕ
digit_value c = if ltb c 58 then c - 48 else if ltb c 97 then c - 55 else c - 87

unfoldable pub read_digits : List ℕ → (base acc : ℕ) → ℕ
read_digits [] base acc = acc
read_digits (c ∷ cs) base acc = read_digits cs base (acc * base + digit_value c)

-- Every character of the list.
abbrev pub All : (ℕ → Type 0) → List ℕ → Type 0
All P [] = Unit {0}
All P (c ∷ cs) = P c × All P cs

-- Letters are of one case.
abbrev pub IsCased : (lower : Bool) → ℕ → Type 0
IsCased true c = (c < 65) ⊎ (90 < c)
IsCased false c = c ≤ 90

-- At least one digit, which together are the number.
pub record IsNumeral (lower : Bool) (base : ℕ) (digits : List ℕ) (number : ℕ) : Type 0 where
  pub some_digit : digits ≢ []
  pub cased : All (IsCased lower) digits
  pub reads : read_digits digits base 0 ≡ number

-- The digits of a word read as an `int`, behind a minus sign where it is negative.
pub data IsSigned (out : List ℕ) (word : ℕ) : Type 0 where
  positive : word < 2 ^ 31 → IsNumeral false 10 out word → IsSigned out word
  negative :
      (digits : List ℕ)
      → 2 ^ 31 < word
      → out ≡ 45 ∷ digits
      → IsNumeral false 10 digits (2 ^ 32 - word)
      → IsSigned out word

abbrev pub prefix : (pound : Bool) → List ℕ
prefix pound = if pound then 48 ∷ 120 ∷ [] else []

abbrev pub width : Piece → ℕ
width (text doubled length) = if doubled then 1 + length else length
width (spec character) = 2
width (spec string) = 2
width (spec unsigned) = 2
width (spec (signed letter_i)) = 2
width (spec (hex pound lower)) = if pound then 4 else 3

-- The number of arguments.
abbrev pub takes : Piece → ℕ
takes (text doubled length) = 0
takes (spec conversion) = 1

module _ (m : Memory) (args : ℕ → ℕ) where
  -- A first character, and further ones up to a `%` or the end.
  pub record IsText (k length f : ℕ) : Type 0 where
    pub some_char : 0 < length
    pub short : length ≤ k
    pub plain : (i : ℕ) → 0 < i → i < length → (m (f + i) ≢ 0) × (m (f + i) ≢ 37)
    pub stops : (m (f + length) ≡ 0) ⊎ (m (f + length) ≡ 37)

  -- The piece stands at `f`, and argument `n` fits it.
  abbrev pub IsPiece : (k : ℕ) → Piece → (f n : ℕ) → Type 0
  IsPiece k (text false length) f n = (m f ≢ 0) × (m f ≢ 37) × IsText k length f
  IsPiece k (text true length) f n = (m f ≡ 37) × (m (f + 1) ≡ 37) × IsText k length (f + 1)
  IsPiece k (spec character) f n = (m f ≡ 37) × (m (f + 1) ≡ 99)
  IsPiece k (spec string) f n =
      (m f ≡ 37) × (m (f + 1) ≡ 115) × (length : ℕ) × IsLength m (args n) length × (length < k)
  IsPiece k (spec unsigned) f n = (m f ≡ 37) × (m (f + 1) ≡ 117) × (args n < 2 ^ 32)
  IsPiece k (spec (signed letter_i)) f n =
      (m f ≡ 37)
      × (m (f + 1) ≡ (if letter_i then 105 else 100))
      × (args n < 2 ^ 32)
      × (args n ≢ 2 ^ 31)
  IsPiece k (spec (hex false lower)) f n =
      (m f ≡ 37) × (m (f + 1) ≡ 108) × (m (f + 2) ≡ (if lower then 120 else 88)) × (args n < 2 ^ 32)
  IsPiece k (spec (hex true lower)) f n =
      (m f ≡ 37)
      × (m (f + 1) ≡ 35)
      × (m (f + 2) ≡ 108)
      × (m (f + 3) ≡ (if lower then 120 else 88))
      × (args n < 2 ^ 32)

  abbrev pub IsFormat : (k : ℕ) → List Piece → (f n : ℕ) → Type 0
  IsFormat k [] f n = m f ≡ 0
  IsFormat k (p ∷ ps) f n = IsPiece k p f n × IsFormat k ps (f + width p) (n + takes p)

  -- What one piece shows.
  abbrev pub Shows : Piece → (f n : ℕ) → List ℕ → Type 0
  Shows (text doubled length) f n out = out ≡ bytes length m (if doubled then f + 1 else f)
  Shows (spec character) f n out = out ≡ u8 (args n) ∷ []
  Shows (spec string) f n out =
      (length : ℕ) × IsLength m (args n) length × (out ≡ bytes length m (args n))
  Shows (spec unsigned) f n out = IsNumeral false 10 out (args n)
  Shows (spec (signed letter_i)) f n out = IsSigned out (args n)
  Shows (spec (hex pound lower)) f n out =
      (digits : List ℕ) × (out ≡ prefix pound ++ digits) × IsNumeral lower 16 digits (args n)

  -- The whole format shows what its pieces show, one behind the other.
  abbrev pub ShowsAll : List Piece → (f n : ℕ) → List ℕ → Type 0
  ShowsAll [] f n out = out ≡ []
  ShowsAll (p ∷ ps) f n out =
      (first : List ℕ) × (rest : List ℕ) × Shows p f n first
      × ShowsAll ps (f + width p) (n + takes p) rest
      × (out ≡ first ++ rest)
