-- ===== src/Ctype/Classes.antt =====
-- The table of character classes against the ranges of ASCII.
use condor_fos.Base.{
  ℕ, zero, suc, ◌+◌, ◌-◌, ◌<◌, ◌≡◌, refl, Bool, true, false, not, ◌&&◌, ◌||◌, leb, ◌==◌,
  if◌then◌else◌, arith, Bool-cases, inl, inr, ==_iff,
}
use condor_fos.Ctype.{
  isupper, islower, isdigit, iscntrl, isspace, isalpha, isalnum, ispunct, isxdigit, isblank,
  tolower, toupper,
}

abbrev pub between : (low high c : ℕ) → Bool
between low high c = leb low c && leb c high

-- A test holds of every number below `n`.
abbrev all_below : (ℕ → Bool) → ℕ → Bool
all_below p zero = true
all_below p (suc n) = p n && all_below p n

all_below-holds : (p : ℕ → Bool) (n c : ℕ) → c < n → all_below p n ≡ true → p c ≡ true
all_below-holds p zero c h all = absurd (omega arith)
all_below-holds p (suc n) c h all = elim (Bool-cases (c == n)) [
  | inl last ↦ let e : c ≡ n = ground arith in rw e (ground arith)
  | inr before ↦ all_below-holds p n c (ground arith) (ground arith)
]

abbrev alike : Bool → Bool → Bool
alike true b = b
alike false b = not b

alike→eq : (a b : Bool) → alike a b ≡ true → a ≡ b
alike→eq true true e = refl
alike→eq true false e = absurd (ground arith)
alike→eq false true e = absurd (ground arith)
alike→eq false false e = refl

abbrev pub is_letter : ℕ → Bool
is_letter c = between 65 90 c || between 97 122 c

module _ (outside : ℕ → ℕ) (c : ℕ) where
  -- For a byte, the case functions exchange the letters of the two cases and keep every other byte.
  tolower-toupper :
      c < 256
      → (tolower outside c ≡ (if between 65 90 c then c + 32 else c))
        × (toupper outside c ≡ (if between 97 122 c then c - 32 else c))
  unfolding tolower toupper
  tolower-toupper h = (
    (==_iff _ _).0 (
        all_below-holds (λ c. tolower outside c == (if between 65 90 c then c + 32 else c)) 256 c h
          refl),
    (==_iff _ _).0 (
        all_below-holds (λ c. toupper outside c == (if between 97 122 c then c - 32 else c)) 256 c h
          refl),
  )

  agrees : (f g : ℕ → Bool) → c < 256 → all_below (λ c. alike (f c) (g c)) 256 ≡ true → f c ≡ g c
  agrees f g h all = alike→eq (f c) (g c) (all_below-holds (λ c. alike (f c) (g c)) 256 c h all)

  -- For a byte, the letter, digit, control and space tests hold of exactly their ASCII ranges.
  pub has_class_lem :
      c < 256
      → (isupper outside c ≡ between 65 90 c)
        × (islower outside c ≡ between 97 122 c)
        × (isdigit outside c ≡ between 48 57 c)
        × (iscntrl outside c ≡ (leb c 31 || (c == 127)))
        × (isspace outside c ≡ (between 9 13 c || (c == 32)))
        × (isalpha outside c ≡ is_letter c)
        × (isalnum outside c ≡ (is_letter c || between 48 57 c))
        × (isblank outside c ≡ ((c == 9) || (c == 32)))
        × (isxdigit outside c ≡ (between 48 57 c || between 65 70 c || between 97 102 c))
        × (ispunct outside c ≡ (between 33 126 c && not (is_letter c || between 48 57 c)))
  has_class_lem h = (
    agrees (isupper outside) (λ c. between 65 90 c) h refl,
    agrees (islower outside) (λ c. between 97 122 c) h refl,
    agrees (isdigit outside) (λ c. between 48 57 c) h refl,
    agrees (iscntrl outside) (λ c. leb c 31 || (c == 127)) h refl,
    agrees (isspace outside) (λ c. between 9 13 c || (c == 32)) h refl,
    agrees (isalpha outside) (λ c. is_letter c) h refl,
    agrees (isalnum outside) (λ c. is_letter c || between 48 57 c) h refl,
    agrees (isblank outside) (λ c. (c == 9) || (c == 32)) h refl,
    agrees (isxdigit outside) (λ c. between 48 57 c || between 65 70 c || between 97 102 c) h refl,
    agrees (ispunct outside) (λ c. between 33 126 c && not (is_letter c || between 48 57 c)) h refl,
  )
