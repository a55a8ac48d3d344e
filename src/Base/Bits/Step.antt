-- ===== src/Base/Bits/Step.antt =====
-- The native bit operations, by their lowest binary digit. `digits` recurs on fuel, and any fuel
-- from the first operand on gives the same number.
use Prim.Native.Nat.{
  ℕ, zero, suc, ◌+◌, ◌*◌, ◌/◌, ◌%◌, ◌≤◌, min, max, bit_and, bit_or, digits, bit_and-bitwise,
  bit_or-bitwise,
}
use mathlib.Core.Path.{◌≡◌, refl}
use native.Mathlib.Omega.{arith}

-- `rest` is what stands for the second operand once the first has run out of digits.
module _ (rest : ℕ → ℕ) (digit : ℕ → ℕ → ℕ) where
  abbrev pub joined : ℕ → ℕ → ℕ → ℕ
  joined fuel a b = digits rest digit fuel a b

  pub enough_fuel : (a b more less : ℕ) → a ≤ less → less ≤ more → joined more a b ≡ joined less a b
  enough_fuel a b zero zero p q = refl
  enough_fuel a b zero (suc less) p q = absurd (omega arith)
  enough_fuel zero b (suc more) zero p q = refl
  enough_fuel (suc a) b (suc more) zero p q = absurd (omega arith)
  enough_fuel zero b (suc more) (suc less) p q = refl
  enough_fuel (suc a) b (suc more) (suc less) p q =
      rw (enough_fuel (suc a / 2) (b / 2) more less (omega arith) (omega arith))

pub bit_and_step : (a b : ℕ) → bit_and a b ≡ bit_and (a / 2) (b / 2) * 2 + min (a % 2) (b % 2)
bit_and_step zero b = omega (arith, bit_and-bitwise 0 b, bit_and-bitwise 0 (b / 2))
bit_and_step (suc a) b =
    let half : ℕ = suc a / 2 in
    omega (
      arith,
      bit_and-bitwise (suc a) b,
      bit_and-bitwise half (b / 2),
      enough_fuel (λ y. 0) min half (b / 2) a half (omega arith) (omega arith),
    )

pub bit_or_step : (a b : ℕ) → bit_or a b ≡ bit_or (a / 2) (b / 2) * 2 + max (a % 2) (b % 2)
bit_or_step zero b = omega (arith, bit_or-bitwise 0 b, bit_or-bitwise 0 (b / 2))
bit_or_step (suc a) b =
    let half : ℕ = suc a / 2 in
    omega (
      arith,
      bit_or-bitwise (suc a) b,
      bit_or-bitwise half (b / 2),
      enough_fuel (λ y. y) max half (b / 2) a half (omega arith) (omega arith),
    )
