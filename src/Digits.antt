-- ===== src/Digits.antt =====
-- libc/stdlib/ultoa.c and itoa.c: numbers written to a string. `none` is a loop that has not ended
-- within its fuel; 32 rounds are enough for a 32-bit number.
pub mod Emit
pub mod Reverse
pub mod Ultoa
pub mod Tests
use condor_fos.Base.{
  ℕ, zero, suc, ◌+◌, ◌-◌, ◌/◌, ◌%◌, ◌||◌, Bool, Option, none, some, List, [], ◌∷◌, ltb, ◌==◌,
  if◌then◌else◌, Memory, write, get_or, ℤ, pos, negsuc,
}

-- "0123456789ABCDEFGHIJKLMNOPQRSTUVWXYZ".
abbrev pub digit_chars : List ℕ
digit_chars =
    48 ∷ 49 ∷ 50 ∷ 51 ∷ 52 ∷ 53 ∷ 54 ∷ 55 ∷ 56 ∷ 57 ∷ 65 ∷ 66 ∷ 67 ∷ 68 ∷ 69 ∷ 70 ∷ 71 ∷ 72 ∷ 73
    ∷ 74 ∷ 75 ∷ 76 ∷ 77 ∷ 78 ∷ 79 ∷ 80 ∷ 81 ∷ 82 ∷ 83 ∷ 84 ∷ 85 ∷ 86 ∷ 87 ∷ 88 ∷ 89 ∷ 90 ∷ []

unfoldable pub digit_char : ℕ → ℕ
digit_char d = get_or digit_chars d 0

-- `for(index = begin; value; index++)`, the digits from the lowest one on.
unfoldable pub emit : ℕ → Memory → (str base value index : ℕ) → Option (ℕ × Memory)
emit zero m str base value index = if value == 0 then some (index, m) else none
emit (suc fuel) m str base value index =
    let rest =
      emit fuel (write m (str + index) (digit_char (value % base))) str base (value / base)
        (index + 1) in
    if value == 0 then some (index, m) else rest

abbrev pub swap : Memory → (a b : ℕ) → Memory
swap m a b = write (write m a (m b)) b (m a)

-- `for(; index > begin; index--, begin++)`; the fuel is a bound on `index - begin`.
unfoldable pub reverse : ℕ → Memory → (str begin index : ℕ) → Memory
reverse zero m str begin index = m
reverse (suc fuel) m str begin index =
    let rest = reverse fuel (swap m (str + index) (str + begin)) str (begin + 1) (index - 1) in
    if ltb begin index then rest else m

-- What follows the digits: `str[index--] = '\0'` and the reversal.
unfoldable pub finish : (str begin : ℕ) → Option (ℕ × Memory) → Option (ℕ × Memory)
finish str begin none = none
finish str begin (some (index, m)) =
    some (str, reverse index (write m (str + index) 0) str begin (index - 1))

abbrev pub write_zero : Memory → ℕ → Memory
write_zero m str = write (write m str 48) (str + 1) 0

-- A negative base leaves the string alone, as base 0 does.
unfoldable pub ultoa : Memory → (value str base : ℕ) → Option (ℕ × Memory)
ultoa m value str base =
    if ltb base 2 || ltb 36 base
    then some (str, m)
    else if value == 0
    then some (str, write_zero m str)
    else finish str 0 (emit 32 m str base value 0)

-- The value is above -2 ^ 31, where its negation does not overflow.
unfoldable pub itoa : Memory → ℤ → (str base : ℕ) → Option (ℕ × Memory)
itoa m (pos value) str base =
    if ltb base 2 || ltb 36 base
    then some (str, m)
    else if value == 0
    then some (str, write_zero m str)
    else finish str 0 (emit 32 m str base value 0)
itoa m (negsuc n) str base =
    if ltb base 2 || ltb 36 base
    then some (str, m)
    else finish str 1 (emit 32 (write m str 45) str base (n + 1) 1)
