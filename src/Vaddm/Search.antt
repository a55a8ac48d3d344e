-- ===== src/Vaddm/Search.antt =====
-- `vmalloc` and `vfree` of one page. The search never leaves the first 1024 pages.
use condor_fos.Base.{
  ℕ, zero, suc, ◌+◌, ◌-◌, ◌*◌, ◌/◌, ◌%◌, ◌^◌, ◌≤◌, ◌<◌, ◌≡◌, refl, true, false, arith, leb, ◌==◌,
  if◌then◌else◌, Memory, ones32, Bool-cases, inl, inr, is_clear, is_clear_iff, test_bit-le-one,
  Option, some, none, ◌⊎◌,
}
use mathlib.Core.Path.{subst}
use condor_fos.Pmm.{Scan, found, failed, going, base_bit_of}
use condor_fos.Vaddm.{
  last_bit, superpage_word, vaddm_is_free, scan_pages, scan_words, scan_super_bits, scan_superpages,
  and_then, vaddm_get_first_clear_bits, set_pages, vmalloc, vfree, take_pages,
}
use condor_fos.Vaddm.Pages.{page, page-set_pages, page-clear_pages}

abbrev pub AllUsed : Memory → ℕ → Type 0
AllUsed m n = (b : ℕ) → b < n → page m b ≡ 1

module _ (m : Memory) where
  -- A page that a scan returns is free and below 1024; a scan that runs on has counted nothing.
  abbrev Outcome : Scan → Type 0
  Outcome (found b) = (b < 1024) × (page m b ≡ 0)
  Outcome failed = ⊥
  Outcome (going base num) = num ≡ 0

  free-page : (b : ℕ) → vaddm_is_free m b ≡ true → page m b ≡ 0
  unfolding vaddm_is_free
  free-page b h = ground (arith, is_clear_iff (m (b / 32)) (b % 32))

  used-page : (b : ℕ) → b ≤ last_bit → vaddm_is_free m b ≡ false → page m b ≡ 1
  unfolding vaddm_is_free
  used-page b h e =
      ground (arith, is_clear_iff (m (b / 32)) (b % 32), test_bit-le-one (m (b / 32)) (b % 32))

  scan_pages-Outcome : (n at base : ℕ) → at + n ≤ 1024 → Outcome (scan_pages m 1 n at base 0)
  unfolding scan_pages
  scan_pages-Outcome zero at base le = refl
  scan_pages-Outcome (suc n) at base le = elim (Bool-cases (vaddm_is_free m at)) [
    | inl free ↦ rw free (omega arith, free-page at free)
    | inr taken ↦ rw taken (scan_pages-Outcome n (at + 1) base (omega arith))
  ]

  and_then-Outcome :
      (s : Scan) (next : ℕ → ℕ → Scan)
      → Outcome s
      → ((base : ℕ) → Outcome (next base 0))
      → Outcome (and_then m 1 s next)
  unfolding and_then
  and_then-Outcome (found b) next o more = o
  and_then-Outcome failed next o more = o
  and_then-Outcome (going base num) next o more = rw o (more base)

  scan_words-Outcome :
      (n at base : ℕ) → (n ≡ 0) ⊎ (at + n ≤ 32) → Outcome (scan_words m 1 n at base 0)
  unfolding scan_words
  scan_words-Outcome zero at base le = refl
  scan_words-Outcome (suc n) at base le =
      and_then-Outcome _ _ here (λ base'. scan_words-Outcome n (at + 1) base' (inr (omega arith)))
    where
      here : Outcome (if m at == ones32 then going base 0 else scan_pages m 1 32 (at * 32) base 0)
      here = elim (Bool-cases (m at == ones32)) [
        | inl full ↦ rw full refl
        | inr open_word ↦ rw open_word (scan_pages-Outcome 32 (at * 32) base (omega arith))
      ]

  rounds :
      (at base : ℕ)
      → (leb at 32 ≡ true) ⊎ (leb at 32 ≡ false)
      → Outcome (scan_words m 1 (32 - at) at base 0)
  rounds at base (inl small) = scan_words-Outcome (32 - at) at base (inr (ground arith))
  rounds at base (inr large) =
      let none_left : 32 - at ≡ 0 = ground arith in
      rw none_left (scan_words-Outcome 0 at base (inl refl))

  scan_super_bits-Outcome : (n sb xb base : ℕ) → Outcome (scan_super_bits m 1 n sb xb base 0)
  unfolding scan_super_bits
  scan_super_bits-Outcome zero sb xb base = refl
  scan_super_bits-Outcome (suc n) sb xb base =
      and_then-Outcome _ _ here (λ base'. scan_super_bits-Outcome n sb (xb + 1) base')
    where
      here : Outcome (
          if is_clear (m (superpage_word sb)) xb
          then scan_words m 1 (32 - (sb * 32 + xb)) (sb * 32 + xb) base 0
          else going base 0)
      here = elim (Bool-cases (is_clear (m (superpage_word sb)) xb)) [
        | inl open_super ↦
            rw open_super (rounds (sb * 32 + xb) base (Bool-cases (leb (sb * 32 + xb) 32)))
        | inr full ↦ rw full refl
      ]

  scan_superpages-Outcome : (n sb base : ℕ) → Outcome (scan_superpages m 1 n sb base 0)
  unfolding scan_superpages
  scan_superpages-Outcome zero sb base = refl
  scan_superpages-Outcome (suc n) sb base =
      and_then-Outcome _ _ here (λ base'. scan_superpages-Outcome n (sb + 1) base')
    where
      here : Outcome (
          if m (superpage_word sb) == ones32
          then going base 0
          else scan_super_bits m 1 32 sb 0 base 0)
      here = elim (Bool-cases (m (superpage_word sb) == ones32)) [
        | inl full ↦ rw full refl
        | inr open_super ↦ rw open_super (scan_super_bits-Outcome 32 sb 0 base)
      ]

  Answer : Option ℕ → Type 0
  Answer (some b) = (b < 1024) × (page m b ≡ 0)
  Answer none = Unit {0}

  base_bit_of-Answer : (s : Scan) → Outcome s → Answer (base_bit_of s)
  unfolding Answer
  base_bit_of-Answer (found b) o = o
  base_bit_of-Answer failed o = tt
  base_bit_of-Answer (going base num) o = tt

  -- A page that the search finds is free and one of the first 1024.
  pub found-free : (b : ℕ) → vaddm_get_first_clear_bits m 1 ≡ some b → (b < 1024) × (page m b ≡ 0)
  unfolding vaddm_get_first_clear_bits Answer
  found-free b e = subst Answer e (base_bit_of-Answer _ (scan_superpages-Outcome 32 0 0))

-- When the search succeeds, `vmalloc` of one page returns the address of a free page among the
-- first 1024 and marks that page only, and `vfree` of the address then leaves every page as it was
-- before.
pub vfree-vmalloc :
    (m : Memory) (b j : ℕ)
    → j ≤ last_bit
    → vaddm_get_first_clear_bits m 1 ≡ some b
    → (b < 1024)
      × (page m b ≡ 0)
      × ((vmalloc m 1).0 ≡ b * 4096)
      × (page (vmalloc m 1).1 j ≡ (if b == j then 1 else page m j))
      × (page (vfree (vmalloc m 1).1 (vmalloc m 1).0 1) j ≡ page m j)
unfolding vmalloc take_pages vfree
vfree-vmalloc m b j h e =
    let (low, free) = found-free m b e in
    let at : b * 4096 % 2 ^ 32 ≡ b * 4096 = omega arith in
    let frame : b * 4096 / 4096 ≡ b = omega arith in
    let real : (b * 4096 == ones32) ≡ false = ground arith in
    rw (e, at)
      (
        low,
        free,
        refl,
        ground (arith, page-set_pages 1 m b j h),
        rw (real, frame)
            (elim (Bool-cases (b == j)) [
              | inl same ↦
                  let at_b : page m j ≡ 0 = subst (λ i. page m i ≡ 0) (ground (arith, same)) free in
                  ground (arith, page-clear_pages 1 (set_pages 1 m b) b j h)
              | inr other ↦
                  ground
                    (arith, page-clear_pages 1 (set_pages 1 m b) b j h, page-set_pages 1 m b j h)
            ]),
      )
