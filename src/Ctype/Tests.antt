-- ===== src/Ctype/Tests.antt =====
-- Tests of libc/ctype, and its theorems at concrete characters.
use condor_fos.Base.{ℕ, ◌≡◌, ◌&&◌, ◌||◌, not, leb, ◌==◌, arith}
use condor_fos.Ctype.{
  isupper, islower, isdigit, iscntrl, isspace, isalpha, isalnum, ispunct, isxdigit, isblank,
}
use condor_fos.Ctype.Classes.{between, is_letter, has_class_lem}

abbrev none_outside : ℕ → ℕ
none_outside c = 0

has_class_lem_example :
    (isupper none_outside 51 ≡ (between 65 90 51))
    × (islower none_outside 51 ≡ (between 97 122 51))
    × (isdigit none_outside 51 ≡ (between 48 57 51))
    × (iscntrl none_outside 51 ≡ (leb 51 31 || (51 == 127)))
    × (isspace none_outside 51 ≡ (between 9 13 51 || (51 == 32)))
    × (isalpha none_outside 51 ≡ (is_letter 51))
    × (isalnum none_outside 51 ≡ (is_letter 51 || between 48 57 51))
    × (isblank none_outside 51 ≡ ((51 == 9) || (51 == 32)))
    × (isxdigit none_outside 51 ≡ (between 48 57 51 || between 65 70 51 || between 97 102 51))
    × (ispunct none_outside 51 ≡ (between 33 126 51 && not (is_letter 51 || between 48 57 51)))
has_class_lem_example = has_class_lem none_outside 51 (omega arith)
