-- ===== src/Digits/Reverse.antt =====
-- The reversal of the digits.
use condor_fos.Base.{
  ℕ, zero, suc, ◌+◌, ◌-◌, ◌≤◌, ◌<◌, ◌≡◌, refl, arith, ◌&&◌, leb, ltb, if◌then◌else◌, Bool-cases,
  inl, inr, Memory, ◌∙◌,
}
use condor_fos.Digits.{swap, reverse}
use condor_fos.Digits.Emit.{read_number, read_reversed}

-- The byte at `a` once the bytes from `low` to `high` are reversed.
abbrev pub mirrored : Memory → (low high a : ℕ) → ℕ
mirrored m low high a = if leb low a && leb a high then m (low + high - a) else m a

mirrored-swap :
    (m : Memory) (low high a : ℕ)
    → low < high
    → mirrored (swap m high low) (low + 1) (high - 1) a ≡ mirrored m low high a
mirrored-swap m low high a h =
    let sum : low + 1 + (high - 1) ≡ low + high = omega arith in rw sum (ground arith)

pub reverse_lem :
    (fuel : ℕ) (m : Memory) (str begin index a : ℕ)
    → index ≤ begin + fuel
    → reverse fuel m str begin index a ≡ mirrored m (str + begin) (str + index) a
unfolding reverse
reverse_lem zero m str begin index a h = ground arith
reverse_lem (suc fuel) m str begin index a h = elim (Bool-cases (ltb begin index)) [
  | inl more ↦
      let low : str + (begin + 1) ≡ str + begin + 1 = omega arith in
      let high : str + (index - 1) ≡ str + index - 1 = ground arith in
      rw more (
        reverse_lem fuel (swap m (str + index) (str + begin)) str (begin + 1) (index - 1) a
          (ground arith)
        ∙ rw (low, high) (mirrored-swap m (str + begin) (str + index) a (ground arith)))
  | inr done ↦ rw done (ground arith)
]

-- Reading forwards what reads backwards in another memory.
pub read_number-reversed :
    (n : ℕ) (m m' : Memory) (base p q acc : ℕ)
    → ((i : ℕ) → i < n → m (p + i) ≡ m' (q + (n - 1 - i)))
    → read_number n m base p acc ≡ read_reversed n m' base q acc
unfolding read_number read_reversed
read_number-reversed zero m m' base p q acc mirror = refl
read_number-reversed (suc n) m m' base p q acc mirror =
    let first : m p ≡ m' (q + n) = ground (arith, mirror 0 (omega arith)) in
    rw first (
      read_number-reversed n m m' base (p + 1) q _
        (λ i h. ground (arith, mirror (suc i) (omega arith))))
