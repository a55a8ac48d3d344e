-- ===== src/Vaddm/Pages.antt =====
-- What the virtual address manager does to the pages of its bitmap, and to regions.
use condor_fos.Base.{
  ℕ, zero, suc, ◌+◌, ◌/◌, ◌%◌, ◌≤◌, ◌<◌, ◌≡◌, ◌≢◌, Bool, ◌&&◌, arith, leb, ltb, ◌==◌, if◌then◌else◌,
  Memory, test_bit, Bool-cases, inl, inr, test_bit-bit_or, test_bit-pow, test_bit-set_bit,
  test_bit-clear_bit, test_bit-le-one,
}
use condor_fos.Pmm.Alloc.{end_block}
use condor_fos.Vaddm.{
  last_bit, mark_page, mark_superpage, vaddm_set_bit, vaddm_clear_bit, set_pages, clear_pages,
  keep_null, vaddm_set_region, region_rounds,
}

-- Bit `b` of `page_bitmap`: 1 for a page in use.
abbrev pub page : Memory → ℕ → ℕ
page m b = test_bit (m (b / 32)) (b % 32)

-- `n` pages from `s` on.
abbrev pub in_range : ℕ → ℕ → ℕ → Bool
in_range s n j = leb s j && ltb j (s + n)

page-mark_page : (m : Memory) (b j : ℕ) → page (mark_page m b) j ≡ (if b == j then 1 else page m j)
page-mark_page m b j = ground (arith, test_bit-set_bit (m (b / 32)) (b % 32) (j % 32))

page-mark_superpage : (m : Memory) (b j : ℕ) → j ≤ last_bit → page (mark_superpage m b) j ≡ page m j
page-mark_superpage m b j h = ground arith

module _ (m : Memory) (b j : ℕ) (hb : b ≤ last_bit) (hj : j ≤ last_bit) where
  pub page-vaddm_set_bit : page (vaddm_set_bit m b) j ≡ (if b == j then 1 else page m j)
  unfolding vaddm_set_bit
  page-vaddm_set_bit =
      ground (arith, page-mark_page m b j, page-mark_superpage (mark_page m b) b j hj)

  pub page-vaddm_clear_bit : page (vaddm_clear_bit m b) j ≡ (if b == j then 0 else page m j)
  unfolding vaddm_clear_bit
  page-vaddm_clear_bit = ground (arith, test_bit-clear_bit (m (b / 32)) (b % 32) (j % 32))

set_outside : (m : Memory) (b : ℕ) → last_bit < b → vaddm_set_bit m b ≡ m
unfolding vaddm_set_bit
set_outside m b h = ground arith

clear_outside : (m : Memory) (b : ℕ) → last_bit < b → vaddm_clear_bit m b ≡ m
unfolding vaddm_clear_bit
clear_outside m b h = ground arith

pub page-set_pages :
    (n : ℕ) (m : Memory) (s j : ℕ)
    → j ≤ last_bit
    → page (set_pages n m s) j ≡ (if in_range s n j then 1 else page m j)
unfolding set_pages
page-set_pages zero m s j h = ground arith
page-set_pages (suc n) m s j h = elim (Bool-cases (ltb last_bit s)) [
  | inl out ↦ rw (set_outside m s (ground arith)) (ground (arith, page-set_pages n m (s + 1) j h))
  | inr within ↦ ground (
    arith,
    page-set_pages n (vaddm_set_bit m s) (s + 1) j h,
    page-vaddm_set_bit m s j (ground arith) h,
  )
]

pub page-clear_pages :
    (n : ℕ) (m : Memory) (s j : ℕ)
    → j ≤ last_bit
    → page (clear_pages n m s) j ≡ (if in_range s n j then 0 else page m j)
unfolding clear_pages
page-clear_pages zero m s j h = ground arith
page-clear_pages (suc n) m s j h = elim (Bool-cases (ltb last_bit s)) [
  | inl out ↦
      rw (clear_outside m s (ground arith)) (ground (arith, page-clear_pages n m (s + 1) j h))
  | inr within ↦ ground (
    arith,
    page-clear_pages n (vaddm_clear_bit m s) (s + 1) j h,
    page-vaddm_clear_bit m s j (ground arith) h,
  )
]

-- `vaddm_set_region` of a region that is not empty and whose first page lies at or above the number
-- of its pages marks page 0 and nothing else.
vaddm_set_region-above :
    (m : Memory) (base size : ℕ)
    → size ≢ 0
    → end_block 0 size ≤ base / 4096
    → vaddm_set_region m base size ≡ keep_null m
unfolding vaddm_set_region set_pages
vaddm_set_region-above m base size some_bytes above =
    let rounds : region_rounds base size ≡ 0 = omega arith in rw rounds (ground arith)

page-keep_null : (m : Memory) (j : ℕ) → page (keep_null m) j ≡ (if j == 0 then 1 else page m j)
page-keep_null m j = ground (
  arith,
  test_bit-bit_or (m 0) 1 (j % 32),
  test_bit-pow 0 (j % 32),
  test_bit-le-one (m 0) (j % 32),
)

-- `vaddm_set_region` of a region from address 0 on, below 0xFFFFF000 bytes, marks every page of it
-- and changes no other page behind page 0.
page-vaddm_set_region :
    (m : Memory) (size j : ℕ)
    → 0 < size
    → size < 0xffff_f000
    → 0 < j
    → j ≤ last_bit
    → page (vaddm_set_region m 0 size) j ≡ (if ltb j ((size + 0xfff) / 4096) then 1 else page m j)
unfolding vaddm_set_region
page-vaddm_set_region m size j some_bytes fits pos h =
    let n = region_rounds 0 size in
    ground (arith, page-keep_null (set_pages n m 0) j, page-set_pages n m 0 j h)
