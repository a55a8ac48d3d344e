-- ===== src/Base/Store.antt =====
-- Memory as a function from addresses to cells, and the frame of a write.
use Prim.Native.Nat.{ℕ}
use mathlib.Core.Path.{◌≡◌}
use mathlib.Core.Logic.{◌≢◌}
use native.Mathlib.Omega.{arith}
use condor_fos.Base.Tests.{◌==◌, if◌then◌else◌}

-- Bytes, words or table entries, by their index.
abbrev pub Memory : Type 0
Memory = ℕ → ℕ

-- `m[p] = v`.
abbrev pub write : Memory → ℕ → ℕ → Memory
write m p v q = if p == q then v else m q

pub write_self : (m : Memory) (p v : ℕ) → write m p v p ≡ v
write_self m p v = ground arith

pub write-ne : (m : Memory) (p v q : ℕ) → p ≢ q → write m p v q ≡ m q
write-ne m p v q ne = ground arith
