-- ===== src/Machine.antt =====
-- What the drivers share: the port instructions of
-- kernel/arch/i386/include/io.h, and C functions that change a state, may loop, and may go through
-- a bad pointer.
pub mod Takes
use condor_fos.Base.{ℕ, ◌+◌, ◌%◌, ◌^◌, Bool, not, ◌==◌, bit_and, if◌then◌else◌}

-- The port instructions, on whatever the machine behind them is.
pub record Ports (D : Type 0) : Type 0 where
  pub inb : D → ℕ → ℕ × D
  pub outb : D → (port value : ℕ) → D
  pub inw : D → ℕ → ℕ × D
  pub outw : D → (port value : ℕ) → D

-- A register at an offset from a 16 bit port.
abbrev pub at_port : (port offset : ℕ) → ℕ
at_port port offset = (port + offset) % 2 ^ 16

-- `value & mask` as a condition.
abbrev pub has : (value mask : ℕ) → Bool
has value mask = not (bit_and value mask == 0)

-- How a run ends: with a result, in an access through a bad pointer, or still in a loop when the
-- fuel is used up.
pub data Run (A : Type 0) : Type 0 where
  done : A → Run A
  fault spinning : Run A

abbrev pub Action : Type 0 → Type 0 → Type 0
Action S A = S → Run (A × S)

-- The operators are shut, so that a `do` block is seen as it is built.
module _ {S A : Type 0} where
  unfoldable pub pure : A → Action S A
  pure a s = done (a, s)

  unfoldable pub crash : Action S A
  crash s = fault

  unfoldable pub spin : Action S A
  spin s = spinning

  unfoldable pub gets : (S → A) → Action S A
  gets f s = done (f s, s)

unfoldable pub modify : {S : Type 0} → (S → S) → Action S (Unit {0})
modify f s = done (tt, f s)

module _ {S A B : Type 0} where
  infixl 5 ◌>>=◌
  unfoldable pub ◌>>=◌ : Action S A → (A → Action S B) → Action S B
  ◌>>=◌ m f s = elim (m s) [ done (a, s') ↦ f a s' | fault ↦ fault | spinning ↦ spinning ]

module _ {S B : Type 0} where
  infixl 5 ◌>>◌
  abbrev pub ◌>>◌ : Action S (Unit {0}) → Action S B → Action S B
  m >> k = m >>= λ _. k

abbrev pub when : {S : Type 0} → Bool → Action S (Unit {0}) → Action S (Unit {0})
when c m = if c then m else pure tt
