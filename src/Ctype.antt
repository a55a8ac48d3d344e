-- ===== src/Ctype.antt =====
-- libc/ctype/ctype.c and the macros of libc/include/ctype.h.
pub mod Classes
pub mod Tests
use condor_fos.Base.{
  ℕ, ◌-◌, ◌^◌, Bool, not, List, [], ◌∷◌, bit_and, bit_or, bit_xor, ◌==◌, if◌then◌else◌, get_or,
}

abbrev pub char_bitmap : List ℕ
char_bitmap =
    0x08 ∷ 0x08 ∷ 0x08 ∷ 0x08 ∷ 0x08 ∷ 0x08 ∷ 0x08 ∷ 0x08 ∷ 0x08 ∷ 0x98 ∷ 0x18 ∷ 0x18 ∷ 0x18 ∷ 0x18
    ∷ 0x08 ∷ 0x08 ∷ 0x08 ∷ 0x08 ∷ 0x08 ∷ 0x08 ∷ 0x08 ∷ 0x08 ∷ 0x08 ∷ 0x08 ∷ 0x08 ∷ 0x08 ∷ 0x08
    ∷ 0x08 ∷ 0x08 ∷ 0x08 ∷ 0x08 ∷ 0x08 ∷ 0x90 ∷ 0x20 ∷ 0x20 ∷ 0x20 ∷ 0x20 ∷ 0x20 ∷ 0x20 ∷ 0x20
    ∷ 0x20 ∷ 0x20 ∷ 0x20 ∷ 0x20 ∷ 0x20 ∷ 0x20 ∷ 0x20 ∷ 0x20 ∷ 0x44 ∷ 0x44 ∷ 0x44 ∷ 0x44 ∷ 0x44
    ∷ 0x44 ∷ 0x44 ∷ 0x44 ∷ 0x44 ∷ 0x44 ∷ 0x20 ∷ 0x20 ∷ 0x20 ∷ 0x20 ∷ 0x20 ∷ 0x20 ∷ 0x20 ∷ 0x41
    ∷ 0x41 ∷ 0x41 ∷ 0x41 ∷ 0x41 ∷ 0x41 ∷ 0x01 ∷ 0x01 ∷ 0x01 ∷ 0x01 ∷ 0x01 ∷ 0x01 ∷ 0x01 ∷ 0x01
    ∷ 0x01 ∷ 0x01 ∷ 0x01 ∷ 0x01 ∷ 0x01 ∷ 0x01 ∷ 0x01 ∷ 0x01 ∷ 0x01 ∷ 0x01 ∷ 0x01 ∷ 0x01 ∷ 0x20
    ∷ 0x20 ∷ 0x20 ∷ 0x20 ∷ 0x20 ∷ 0x20 ∷ 0x42 ∷ 0x42 ∷ 0x42 ∷ 0x42 ∷ 0x42 ∷ 0x42 ∷ 0x02 ∷ 0x02
    ∷ 0x02 ∷ 0x02 ∷ 0x02 ∷ 0x02 ∷ 0x02 ∷ 0x02 ∷ 0x02 ∷ 0x02 ∷ 0x02 ∷ 0x02 ∷ 0x02 ∷ 0x02 ∷ 0x02
    ∷ 0x02 ∷ 0x02 ∷ 0x02 ∷ 0x02 ∷ 0x02 ∷ 0x20 ∷ 0x20 ∷ 0x20 ∷ 0x20 ∷ 0x08 ∷ 0 ∷ 0 ∷ 0 ∷ 0 ∷ 0 ∷ 0
    ∷ 0 ∷ 0 ∷ 0 ∷ 0 ∷ 0 ∷ 0 ∷ 0 ∷ 0 ∷ 0 ∷ 0 ∷ 0 ∷ 0 ∷ 0 ∷ 0 ∷ 0 ∷ 0 ∷ 0 ∷ 0 ∷ 0 ∷ 0 ∷ 0 ∷ 0 ∷ 0 ∷ 0
    ∷ 0 ∷ 0 ∷ 0 ∷ 0 ∷ 0 ∷ 0 ∷ 0 ∷ 0 ∷ 0 ∷ 0 ∷ 0 ∷ 0 ∷ 0 ∷ 0 ∷ 0 ∷ 0 ∷ 0 ∷ 0 ∷ 0 ∷ 0 ∷ 0 ∷ 0 ∷ 0 ∷ 0
    ∷ 0 ∷ 0 ∷ 0 ∷ 0 ∷ 0 ∷ 0 ∷ 0 ∷ 0 ∷ 0 ∷ 0 ∷ 0 ∷ 0 ∷ 0 ∷ 0 ∷ 0 ∷ 0 ∷ 0 ∷ 0 ∷ 0 ∷ 0 ∷ 0 ∷ 0 ∷ 0 ∷ 0
    ∷ 0 ∷ 0 ∷ 0 ∷ 0 ∷ 0 ∷ 0 ∷ 0 ∷ 0 ∷ 0 ∷ 0 ∷ 0 ∷ 0 ∷ 0 ∷ 0 ∷ 0 ∷ 0 ∷ 0 ∷ 0 ∷ 0 ∷ 0 ∷ 0 ∷ 0 ∷ 0 ∷ 0
    ∷ 0 ∷ 0 ∷ 0 ∷ 0 ∷ 0 ∷ 0 ∷ 0 ∷ 0 ∷ 0 ∷ 0 ∷ 0 ∷ 0 ∷ 0 ∷ 0 ∷ 0 ∷ 0 ∷ 0 ∷ 0 ∷ 0 ∷ 0 ∷ 0 ∷ 0 ∷ 0 ∷ 0
    ∷ 0 ∷ 0 ∷ []

-- `outside` gives what is read for an index outside the table.
module _ (outside : ℕ → ℕ) where
  abbrev pub class_of : ℕ → ℕ
  class_of c = get_or char_bitmap c (outside c)

  -- The macros that test a mask for a bit.
  abbrev pub has_class : (mask c : ℕ) → Bool
  has_class mask c = not (bit_and (class_of c) mask == 0)

  abbrev pub isupper : ℕ → Bool
  isupper c = has_class 0x01 c

  abbrev pub islower : ℕ → Bool
  islower c = has_class 0x02 c

  abbrev pub isdigit : ℕ → Bool
  isdigit c = has_class 0x04 c

  abbrev pub iscntrl : ℕ → Bool
  iscntrl c = has_class 0x08 c

  abbrev pub isspace : ℕ → Bool
  isspace c = has_class 0x10 c

  abbrev pub isalpha : ℕ → Bool
  isalpha c = has_class 0x03 c

  abbrev pub isalnum : ℕ → Bool
  isalnum c = has_class 0x07 c

  abbrev pub ispunct : ℕ → Bool
  ispunct c = has_class 0x20 c

  abbrev pub isxdigit : ℕ → Bool
  isxdigit c = has_class 0x40 c

  abbrev pub isblank : ℕ → Bool
  isblank c = has_class 0x80 c

  abbrev pub isprint : ℕ → Bool
  isprint c = not (has_class 0x08 c)

  abbrev pub isgraph : ℕ → Bool
  isgraph c = bit_xor (bit_and (class_of c) 0x18) 0x18 == 0x18

  unfoldable pub tolower : ℕ → ℕ
  tolower c = if not (isalpha c) then c else bit_or c 0x20

  unfoldable pub toupper : ℕ → ℕ
  toupper c = if not (isalpha c) then c else bit_and c (2 ^ 32 - 1 - 0x20)
