-- ===== src/Base/Bits.antt =====
-- The bits of a word, one by one, and what the native bit operations do to them.
mod Step
use Prim.Native.Nat.{
  ℕ, zero, suc, ◌+◌, ◌-◌, ◌*◌, ◌/◌, ◌%◌, ◌^◌, ◌≤◌, ◌<◌, min, max, bit_and, bit_or,
}
use mathlib.Core.Path.{◌≡◌, refl, ap, ◌∙◌}
use mathlib.Core.Logic.{◌↔◌}
use mathlib.Core.Bool.{Bool, true}
use native.Mathlib.Omega.{arith}
use native.Mathlib.Nat.{pow-suc, one-le-pow}
use condor_fos.Base.Tests.{◌==◌, if◌then◌else◌}
use Step.{bit_and_step, bit_or_step}

-- Bit `k` of `a`, 0 or 1.
unfoldable pub test_bit : ℕ → ℕ → ℕ
test_bit a zero = a % 2
test_bit a (suc k) = test_bit (a / 2) k

pub test_bit-le-one : (a k : ℕ) → test_bit a k ≤ 1
unfolding test_bit
test_bit-le-one a zero = omega arith
test_bit-le-one a (suc k) = test_bit-le-one (a / 2) k

pub test_bit-bit_and : (a b k : ℕ) → test_bit (bit_and a b) k ≡ min (test_bit a k) (test_bit b k)
unfolding test_bit
test_bit-bit_and a b zero = omega (arith, bit_and_step a b)
test_bit-bit_and a b (suc k) =
    let halved : bit_and a b / 2 ≡ bit_and (a / 2) (b / 2) = omega (arith, bit_and_step a b) in
    rw halved (test_bit-bit_and (a / 2) (b / 2) k)

pub test_bit-bit_or : (a b k : ℕ) → test_bit (bit_or a b) k ≡ max (test_bit a k) (test_bit b k)
unfolding test_bit
test_bit-bit_or a b zero = omega (arith, bit_or_step a b)
test_bit-bit_or a b (suc k) =
    let halved : bit_or a b / 2 ≡ bit_or (a / 2) (b / 2) = omega (arith, bit_or_step a b) in
    rw halved (test_bit-bit_or (a / 2) (b / 2) k)

pub test_bit-zero : (k : ℕ) → test_bit 0 k ≡ 0
unfolding test_bit
test_bit-zero zero = refl
test_bit-zero (suc k) = test_bit-zero k

pub test_bit-pow : (k j : ℕ) → test_bit (2 ^ k) j ≡ (if k == j then 1 else 0)
unfolding test_bit
test_bit-pow zero zero = refl
test_bit-pow zero (suc j) = ground (arith, test_bit-zero j)
test_bit-pow (suc k) zero = ground (arith, pow-suc 2 k)
test_bit-pow (suc k) (suc j) =
    let halved : 2 ^ suc k / 2 ≡ 2 ^ k = omega (arith, pow-suc 2 k) in
    rw halved (ground (arith, test_bit-pow k j))

-- `2 ^ n - 1 - a` is `~a` on `n` bits.
pub test_bit-complement :
    (n a k : ℕ) → a < 2 ^ n → k < n → test_bit (2 ^ n - 1 - a) k ≡ 1 - test_bit a k
unfolding test_bit
test_bit-complement zero a k fits h = absurd (omega arith)
test_bit-complement (suc n) a zero fits h = omega (arith, pow-suc 2 n)
test_bit-complement (suc n) a (suc k) fits h =
    let halved : (2 ^ suc n - 1 - a) / 2 ≡ 2 ^ n - 1 - a / 2 = omega (arith, pow-suc 2 n) in
    rw halved (test_bit-complement n (a / 2) k (omega (arith, pow-suc 2 n)) (omega arith))

-- A number below `2 ^ n` whose `n` bits are set is `2 ^ n - 1`.
pub test_bit-all : (n a : ℕ) → a < 2 ^ n → ((k : ℕ) → k < n → test_bit a k ≡ 1) → a ≡ 2 ^ n - 1
unfolding test_bit
test_bit-all zero a fits all = omega arith
test_bit-all (suc n) a fits all = omega (
  arith,
  pow-suc 2 n,
  all 0 (omega arith),
  test_bit-all n (a / 2) (omega (arith, pow-suc 2 n)) (λ k h. all (suc k) (omega arith)),
)

pub test_bit-ones : (n k : ℕ) → k < n → test_bit (2 ^ n - 1) k ≡ 1
unfolding test_bit
test_bit-ones zero k h = absurd (omega arith)
test_bit-ones (suc n) zero h = omega (arith, pow-suc 2 n, one-le-pow n 2)
test_bit-ones (suc n) (suc k) h =
    let halved : (2 ^ suc n - 1) / 2 ≡ 2 ^ n - 1 = omega (arith, pow-suc 2 n, one-le-pow n 2) in
    rw halved (test_bit-ones n k (omega arith))

-- `w |= 1 << k`.
unfoldable pub set_bit : ℕ → ℕ → ℕ
set_bit w k = bit_or w (2 ^ k)

-- `w &= ~(1 << k)` on 32 bits.
unfoldable pub clear_bit : ℕ → ℕ → ℕ
clear_bit w k = bit_and w (2 ^ 32 - 1 - 2 ^ k)

pub test_bit-set_bit : (w k j : ℕ) → test_bit (set_bit w k) j ≡ (if k == j then 1 else test_bit w j)
unfolding set_bit
test_bit-set_bit w k j =
    ground (arith, test_bit-bit_or w (2 ^ k) j, test_bit-pow k j, test_bit-le-one w j)

pow-lt : (k n : ℕ) → k < n → 2 ^ k < 2 ^ n
pow-lt k zero h = absurd (omega arith)
pow-lt zero (suc n) h = omega (arith, pow-suc 2 n, one-le-pow n 2)
pow-lt (suc k) (suc n) h = omega (arith, pow-suc 2 n, pow-suc 2 k, pow-lt k n (omega arith))

pub test_bit-clear_bit :
    (w k j : ℕ)
    → k < 32
    → j < 32
    → test_bit (clear_bit w k) j ≡ (if k == j then 0 else test_bit w j)
unfolding clear_bit
test_bit-clear_bit w k j hk hj = ground (
  arith,
  test_bit-bit_and w (2 ^ 32 - 1 - 2 ^ k) j,
  test_bit-complement 32 (2 ^ k) j (pow-lt k 32 hk) hj,
  test_bit-pow k j,
  test_bit-le-one w j,
)

zero-right : (a n : ℕ) → a ≤ n → bit_and a 0 ≡ 0
zero-right zero n h = refl
zero-right (suc a) zero h = absurd (omega arith)
zero-right (suc a) (suc n) h =
    omega (arith, bit_and_step (suc a) 0, zero-right (suc a / 2) n (omega arith))

-- `w & (1 << k)`, as a number.
pub bit_and-pow : (w k : ℕ) → bit_and w (2 ^ k) ≡ test_bit w k * 2 ^ k
unfolding test_bit
bit_and-pow w zero = omega (arith, bit_and_step w 1, zero-right (w / 2) (w / 2) (omega arith))
bit_and-pow w (suc k) =
    let halved : 2 ^ suc k / 2 ≡ 2 ^ k = omega (arith, pow-suc 2 k) in
    let even : 2 ^ suc k % 2 ≡ 0 = omega (arith, pow-suc 2 k) in
    omega (
      arith,
      rw (halved, even) at (bit_and_step w (2 ^ suc k)),
      bit_and-pow (w / 2) k,
      ap (λ (t : ℕ). test_bit (w / 2) k * t) (pow-suc 2 k),
    )

-- The test `(w & (1 << k)) == 0`.
unfoldable pub is_clear : ℕ → ℕ → Bool
is_clear w k = bit_and w (2 ^ k) == 0

pub is_clear_iff : (w k : ℕ) → (is_clear w k ≡ true) ↔ (test_bit w k ≡ 0)
unfolding is_clear
is_clear_iff w k = ground (arith, bit_and-pow w k, one-le-pow k 2, test_bit-le-one w k)

right-zero : (a n : ℕ) → a ≤ n → bit_or a 0 ≡ a
right-zero zero n h = refl
right-zero (suc a) zero h = absurd (omega arith)
right-zero (suc a) (suc n) h =
    omega (arith, bit_or_step (suc a) 0, right-zero (suc a / 2) n (omega arith))

half-shifted : (high k : ℕ) → high * 2 ^ suc k / 2 ≡ high * 2 ^ k
half-shifted high k = omega (arith, ap (λ (t : ℕ). high * t) (pow-suc 2 k))

-- `|` of a multiple of `2 ^ k` with a number of `k` bits is their sum.
pub bit_or-add : (k high low : ℕ) → low < 2 ^ k → bit_or (high * 2 ^ k) low ≡ high * 2 ^ k + low
bit_or-add zero high low fits =
    let none_low : low ≡ 0 = omega arith in
    rw none_low (right-zero (high * 1) (high * 1) (omega arith) ∙ omega arith)
bit_or-add (suc k) high low fits = omega (
  arith,
  bit_or_step (high * 2 ^ suc k) low,
  rw (half-shifted high k) at (bit_or_step (high * 2 ^ suc k) low),
  bit_or-add k high (low / 2) (omega (arith, pow-suc 2 k)),
  ap (λ (t : ℕ). high * t) (pow-suc 2 k),
)

left-zero : (b n : ℕ) → b ≤ n → bit_or 0 b ≡ b
left-zero zero n h = refl
left-zero (suc b) zero h = absurd (omega arith)
left-zero (suc b) (suc n) h =
    omega (arith, bit_or_step 0 (suc b), left-zero (suc b / 2) n (omega arith))

-- The same with the low bits first.
pub bit_or-low : (k high low : ℕ) → low < 2 ^ k → bit_or low (high * 2 ^ k) ≡ high * 2 ^ k + low
bit_or-low zero high low fits =
    let none_low : low ≡ 0 = omega arith in
    rw none_low (left-zero (high * 1) (high * 1) (omega arith) ∙ omega arith)
bit_or-low (suc k) high low fits = omega (
  arith,
  bit_or_step low (high * 2 ^ suc k),
  rw (half-shifted high k) at (bit_or_step low (high * 2 ^ suc k)),
  bit_or-low k high (low / 2) (omega (arith, pow-suc 2 k)),
  ap (λ (t : ℕ). high * t) (pow-suc 2 k),
)

-- A mask of low bits is a remainder.
pub bit_and-one : (w : ℕ) → bit_and w 1 ≡ w % 2
bit_and-one w =
    let e : bit_and w 1 ≡ bit_and (w / 2) 0 * 2 + min (w % 2) 1 = bit_and_step w 1 in
    omega (arith, e, zero-right (w / 2) (w / 2) (omega arith))

half_mask : (w mask : ℕ) → bit_and w (2 * mask + 1) ≡ bit_and (w / 2) mask * 2 + w % 2
half_mask w mask =
    let half : (2 * mask + 1) / 2 ≡ mask = omega arith in
    let odd : (2 * mask + 1) % 2 ≡ 1 = omega arith in
    rw (half, odd) at (bit_and_step w (2 * mask + 1)) ∙ omega arith

bit_and-three : (w : ℕ) → bit_and w 3 ≡ w % 4
bit_and-three w = omega (arith, half_mask w 1, bit_and-one (w / 2))

bit_and-seven : (w : ℕ) → bit_and w 7 ≡ w % 8
bit_and-seven w = omega (arith, half_mask w 3, bit_and-three (w / 2))

pub bit_and-nibble : (w : ℕ) → bit_and w 0xf ≡ w % 16
bit_and-nibble w = omega (arith, half_mask w 7, bit_and-seven (w / 2))

pub bit_and-byte : (w : ℕ) → bit_and w 0xff ≡ w % 256
bit_and-byte w = omega (
  arith,
  half_mask w 127,
  half_mask (w / 2) 63,
  half_mask (w / 2 / 2) 31,
  half_mask (w / 2 / 2 / 2) 15,
  bit_and-nibble (w / 2 / 2 / 2 / 2),
)

pub bit_or_zero : (b : ℕ) → bit_or 0 b ≡ b
bit_or_zero b = left-zero b b (omega arith)
