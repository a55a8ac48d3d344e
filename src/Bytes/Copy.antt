-- ===== src/Bytes/Copy.antt =====
-- What the copying functions leave, byte by byte.
use condor_fos.Base.{
  ℕ, zero, suc, ◌+◌, ◌-◌, ◌≤◌, ◌≡◌, ◌⊎◌, inl, inr, refl, Bool, ◌&&◌, arith, ltb, leb, ◌==◌,
  if◌then◌else◌, Memory, write, Bool-cases, u8,
}
use condor_fos.Bytes.{copy_up, copy_down, memcpy, memmove, fill, memset}

-- `a` is one of the `n` bytes from `p` on.
abbrev pub within : (p n a : ℕ) → Bool
within p n a = leb p a && ltb a (p + n)

-- Upwards, a byte is copied before it is overwritten if the destination does not begin inside the
-- source.
copy_up_lem :
    (n : ℕ) (m : Memory) (dest src i a : ℕ)
    → (dest ≤ src) ⊎ (src + i + n ≤ dest + i)
    → copy_up n m dest src i a ≡ (if within (dest + i) n a then m (src + (a - dest)) else m a)
unfolding copy_up
copy_up_lem zero m dest src i a apart = ground arith
copy_up_lem (suc n) m dest src i a apart =
    let m' = write m (dest + i) (m (src + i)) in
    ground (arith, copy_up_lem n m' dest src (i + 1) a (ground arith))

copy_down_lem :
    (n : ℕ) (m : Memory) (dest src a : ℕ)
    → src ≤ dest
    → copy_down n m dest src a ≡ (if within dest n a then m (src + (a - dest)) else m a)
unfolding copy_down
copy_down_lem zero m dest src a below = ground arith
copy_down_lem (suc n) m dest src a below =
    let m' = write m (dest + n) (m (src + n)) in ground (arith, copy_down_lem n m' dest src a below)

fill_lem :
    (n : ℕ) (m : Memory) (dest c i a : ℕ)
    → fill n m dest c i a ≡ (if within (dest + i) n a then u8 c else m a)
unfolding fill
fill_lem zero m dest c i a = ground arith
fill_lem (suc n) m dest c i a =
    ground (arith, fill_lem n (write m (dest + i) (u8 c)) dest c (i + 1) a)

-- `memmove` copies the source as it was, however the two ranges overlap, and changes no other byte.
pub memmove_lem :
    (m : Memory) (dest src num a : ℕ)
    → (memmove m dest src num).1 a ≡ (if within dest num a then m (src + (a - dest)) else m a)
unfolding memmove
memmove_lem m dest src num a = elim (Bool-cases (dest == src)) [
  | inl same ↦ rw same (ground arith)
  | inr other ↦ elim (Bool-cases (ltb dest src)) [
    | inl up ↦ rw (other, up) (ground (arith, copy_up_lem num m dest src 0 a (inl (ground arith))))
    | inr down ↦ rw (other, down) (copy_down_lem num m dest src a (ground arith))
  ]
]

-- `memcpy` returns its destination and copies the source as it was, if the destination does not
-- begin inside the source behind its first byte, and changes no other byte.
pub memcpy_lem :
    (m : Memory) (dest src num a : ℕ)
    → (dest ≤ src) ⊎ (src + num ≤ dest)
    → ((memcpy m dest src num).0 ≡ dest)
      × ((memcpy m dest src num).1 a ≡ (if within dest num a then m (src + (a - dest)) else m a))
unfolding memcpy
memcpy_lem m dest src num a apart = elim (Bool-cases (dest == src)) [
  | inl same ↦ rw same (refl, ground arith)
  | inr other ↦ rw other (refl, ground (arith, copy_up_lem num m dest src 0 a (ground arith)))
]

-- `memset` returns its argument, and sets the `num` bytes from there on to the low byte of `c` and
-- changes no other byte.
pub memset_lem :
    (m : Memory) (str c num a : ℕ)
    → ((memset m str c num).0 ≡ str)
      × ((memset m str c num).1 a ≡ (if within str num a then u8 c else m a))
unfolding memset
memset_lem m str c num a = (refl, ground (arith, fill_lem num m str c 0 a))
