-- ===== src/Bytes/Tests.antt =====
-- Tests of libc/string, and its theorems at a concrete memory.
use condor_fos.Base.{◌+◌, ◌-◌, ◌≡◌, refl, ◌&&◌, arith, ltb, leb, if◌then◌else◌, Memory}
use condor_fos.Bytes.{memmove}
use condor_fos.Bytes.Copy.{within, memmove_lem}
use condor_fos.Bytes.Compare.{AreBytes, IsLength}

-- "AAAA" from byte 0 on, "AAAA" again from byte 10 on, and zeros.
abbrev two_strings : Memory
two_strings i = if ltb i 4 then 65 else if leb 10 i && ltb i 14 then 65 else 0

are_bytes : AreBytes two_strings
are_bytes a = ground arith

four_long : IsLength two_strings 0 4
four_long = (refl, λ i h. ground arith)

memmove_lem_example :
    (memmove two_strings 2 0 4).1 5
    ≡ (if within 2 4 5 then two_strings (0 + (5 - 2)) else two_strings 5)
memmove_lem_example = memmove_lem two_strings 2 0 4 5
