-- ===== src/Bytes/Bounded.antt =====
-- libc/string/strncpy.c and strnicmp.c.
use condor_fos.Base.{
  ℕ, zero, suc, ◌+◌, ◌-◌, ◌^◌, not, ◌&&◌, ◌||◌, Option, none, some, ltb, ◌==◌, if◌then◌else◌,
  Memory, write, u8, u32, ones32, ℤ,
}
use condor_fos.Bytes.{char_diff}
use condor_fos.Ctype.{tolower, toupper}

-- `for(size_t i = 0; i < num || !src[i]; i++)`, which goes on while the byte of `src` is 0.
unfoldable pub copy_on_up : (fuel : ℕ) → Memory → (dest src num i : ℕ) → Option Memory
copy_on_up zero m dest src num i = none
copy_on_up (suc fuel) m dest src num i =
    let rest = copy_on_up fuel (write m (dest + i) (m (src + i))) dest src num (u32 (i + 1)) in
    if ltb i num || (m (src + i) == 0) then rest else some m

-- `for(size_t i = num; i != 0 || !src[i]; i--)`; below 0 the counter wraps, and `dest[i-1]` with it.
unfoldable pub copy_on_down : (fuel : ℕ) → Memory → (dest src i : ℕ) → Option Memory
copy_on_down zero m dest src i = none
copy_on_down (suc fuel) m dest src i =
    let before = u32 (i + ones32) in
    let at_dest = u32 (dest + before) in
    let at_src = u32 (src + before) in
    let rest = copy_on_down fuel (write m at_dest (m at_src)) dest src before in
    if not (i == 0) || (m (u32 (src + i)) == 0) then rest else some m

abbrev return_dest : ℕ → Option Memory → Option (ℕ × Memory)
return_dest dest none = none
return_dest dest (some m) = some (dest, m)

unfoldable pub strncopy : (fuel : ℕ) → Memory → (dest src num : ℕ) → Option (ℕ × Memory)
strncopy fuel m dest src num =
    if dest == src
    then some (dest, m)
    else return_dest dest (
        if ltb dest src then copy_on_up fuel m dest src num 0 else copy_on_down fuel m dest src num)

-- `outside` is what is read outside the table of characters.
module _ (outside : ℕ → ℕ) where
  -- A `char` as an `int`, and `ca = tolower(toupper(ca))`.
  abbrev pub int_of_char : ℕ → ℕ
  int_of_char c = if ltb c 128 then c else c + (2 ^ 32 - 256)

  abbrev pub fold_case : ℕ → ℕ
  fold_case c = u8 (tolower outside (toupper outside (int_of_char c)))

  -- The `do ... while`, with the `num` that is left.
  unfoldable pub strnicmp : (num : ℕ) → Memory → (str1 str2 : ℕ) → ℤ
  strnicmp zero m str1 str2 = char_diff (fold_case (m str1)) (fold_case (m str2))
  strnicmp (suc num) m str1 str2 =
      let ca = fold_case (m str1) in
      let cb = fold_case (m str2) in
      let rest = strnicmp num m (str1 + 1) (str2 + 1) in
      if (ca == cb) && ltb 1 (suc num) && not (ca == 0) && not (cb == 0)
      then rest
      else char_diff ca cb
