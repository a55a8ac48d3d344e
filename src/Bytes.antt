-- ===== src/Bytes.antt =====
-- libc/string: the functions on a memory of bytes. A pointer is the index of a byte, and the ranges
-- lie below the end of the address space, so pointer arithmetic does not wrap.
pub mod Copy
pub mod Compare
pub mod Bounded
pub mod Tests
use condor_fos.Base.{
  ℕ, zero, suc, ◌+◌, ◌-◌, ◌%◌, Bool, true, false, not, ◌&&◌, ◌||◌, Option, none, some, ltb, leb,
  ◌==◌, if◌then◌else◌, Memory, write, u8, ℤ, pos, negsuc,
}

-- `for(size_t i = 0; i < num; i++) cdest[i] = csrc[i]`, with `n` rounds left, at `i`.
unfoldable pub copy_up : ℕ → Memory → (dest src i : ℕ) → Memory
copy_up zero m dest src i = m
copy_up (suc n) m dest src i = copy_up n (write m (dest + i) (m (src + i))) dest src (i + 1)

-- `for(size_t i = num; i != 0; i--) cdest[i-1] = csrc[i-1]`.
unfoldable pub copy_down : ℕ → Memory → (dest src : ℕ) → Memory
copy_down zero m dest src = m
copy_down (suc i) m dest src = copy_down i (write m (dest + i) (m (src + i))) dest src

unfoldable pub memcpy : Memory → (dest src num : ℕ) → ℕ × Memory
memcpy m dest src num = if dest == src then (dest, m) else (dest, copy_up num m dest src 0)

unfoldable pub memmove : Memory → (dest src num : ℕ) → ℕ × Memory
memmove m dest src num =
    if dest == src
    then (0, m)
    else if ltb dest src
    then (dest, copy_up num m dest src 0)
    else (dest, copy_down num m dest src)

-- `for(size_t i = 0; i < num; i++) strdest[i] = c`, with `n` rounds left, at `i`.
unfoldable pub fill : ℕ → Memory → (dest c i : ℕ) → Memory
fill zero m dest c i = m
fill (suc n) m dest c i = fill n (write m (dest + i) (u8 c)) dest c (i + 1)

unfoldable pub memset : Memory → (str c num : ℕ) → ℕ × Memory
memset m str c num = (str, fill num m str c 0)

-- `ca - cb` for two signed chars.
unfoldable pub char_diff : ℕ → ℕ → ℤ
char_diff ca cb =
    let a = (ca + 128) % 256 in
    let b = (cb + 128) % 256 in if leb b a then pos (a - b) else negsuc (b - a - 1)

-- The `do ... while` of `memcmp` and `strncmp`; it compares one byte when `num` is 0.
unfoldable pub compare_bytes : ℕ → Memory → (str1 str2 : ℕ) → ℤ
compare_bytes zero m str1 str2 = char_diff (m str1) (m str2)
compare_bytes (suc num) m str1 str2 =
    let rest = compare_bytes num m (str1 + 1) (str2 + 1) in
    if (m str1 == m str2) && ltb 1 (suc num) && not (m str1 == 0) && not (m str2 == 0)
    then rest
    else char_diff (m str1) (m str2)

unfoldable pub memcmp : Memory → (ptr1 ptr2 num : ℕ) → ℤ
memcmp m ptr1 ptr2 num = if ptr1 == ptr2 then pos 0 else compare_bytes num m ptr1 ptr2

unfoldable pub strncmp : Memory → (str1 str2 num : ℕ) → ℤ
strncmp m str1 str2 num = if str1 == str2 then pos 0 else compare_bytes num m str1 str2

-- The unbounded loops take fuel; `none` is a run that has not ended.
unfoldable pub count : ℕ → Memory → (str len : ℕ) → Option ℕ
count zero m str len = none
count (suc fuel) m str len =
    let rest = count fuel m str (len + 1) in if m (str + len) == 0 then some len else rest

unfoldable pub strlen : ℕ → Memory → ℕ → Option ℕ
strlen fuel m str = count fuel m str 0

unfoldable pub strcmp : ℕ → Memory → (str1 str2 : ℕ) → Option ℤ
strcmp zero m str1 str2 = none
strcmp (suc fuel) m str1 str2 =
    let rest = strcmp fuel m (str1 + 1) (str2 + 1) in
    if (m str1 == m str2) && not (m str1 == 0) && not (m str2 == 0)
    then rest
    else some (char_diff (m str1) (m str2))

-- The body of `strcopy` behind the lengths: it copies as many bytes as the longer string has.
unfoldable pub copy_longer : Memory → (dest src : ℕ) → Option ℕ → Option ℕ → Option (ℕ × Memory)
copy_longer m dest src (some of_src) (some of_dest) =
    let num = if ltb of_dest of_src then of_src else of_dest in
    some (dest, if ltb dest src then copy_up num m dest src 0 else copy_down num m dest src)
copy_longer m dest src of_src of_dest = none

unfoldable pub strcopy : ℕ → Memory → (dest src : ℕ) → Option (ℕ × Memory)
strcopy fuel m dest src =
    if dest == src
    then some (dest, m)
    else copy_longer m dest src (strlen fuel m src) (strlen fuel m dest)
