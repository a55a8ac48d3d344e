-- ===== src/Digits/Tests.antt =====
-- Tests of libc/stdlib, and its theorems at concrete numbers.
use condor_fos.Base.{ℕ, ◌+◌, ◌<◌, ◌≤◌, ◌≡◌, arith, Memory, some}
use condor_fos.Bytes.Compare.{IsLength}
use condor_fos.Digits.{ultoa}
use condor_fos.Digits.Emit.{IsVisible, read_number}
use condor_fos.Digits.Ultoa.{OutsideKept, ultoa_lem}

abbrev blank : Memory
blank i = 0

ultoa_lem_example :
    (len : ℕ) × (m' : Memory) × (ultoa blank 0xbeef 100 16 ≡ some (100, m'))
    × (0 < len)
    × (len ≤ 32)
    × IsLength m' 100 len
    × ((i : ℕ) → i < len → IsVisible (m' (100 + i)))
    × (read_number len m' 16 100 0 ≡ 0xbeef)
    × OutsideKept blank m' 100 len 99
ultoa_lem_example = ultoa_lem blank 0xbeef 100 16 99 (omega arith) (omega arith) (omega arith)
