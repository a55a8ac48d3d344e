-- ===== src/Pmm/Search.antt =====
-- `paddm_get_first_clear_bits` when one page is asked for: the first free block. A request for
-- several pages counts free blocks across what the search skips, and has no such property.
use mathlib.Core.Path.{subst}
use condor_fos.Base.{
  ℕ, zero, suc, ◌+◌, ◌*◌, ◌%◌, ◌≤◌, ◌<◌, ◌≡◌, ◌⊎◌, inl, inr, true, false, ◌&&◌, Option, none, some,
  arith, leb, ltb, ◌==◌, Memory, ones32, ◌>>>◌, is_clear, Bool-cases, ltb→lt, ltb→le,
}
use condor_fos.Pmm.{
  PallocFlags, super_word, paddm_is_free, Scan, found, failed, going, scan_blocks, scan_super_bit,
  end_super_bit, and_then, scan_super_bits, scan_superblock, scan_superblocks,
  paddm_get_first_clear_bits, base_bit_of,
}
use condor_fos.Pmm.Blocks.{SuperSound, paddm_is_free_iff, paddm_is_free-false}
use condor_fos.Pmm.Skips.{
  AllUsed, IsFirstFree, AllUsed-suc, AllUsed-chunk, block-full_word, super_of_marked, super_of_full,
}

module _ (m : Memory) (flags : PallocFlags) where
  -- What the search knows before block `n`, at each of its three ends.
  abbrev Outcome : ℕ → Scan → Type 0
  Outcome n (found b) = IsFirstFree m b
  Outcome n failed = flags.low_mem ≡ true
  Outcome n (going base num) = (num ≡ 0) × AllUsed m n

  module _ (single : flags.page_alloc_num ≤ 1) where
    scan_blocks-Outcome :
        (n at base end : ℕ)
        → at + n ≡ end
        → end ≤ 4096
        → AllUsed m at
        → Outcome end (scan_blocks m flags n at base 0)
    unfolding scan_blocks
    scan_blocks-Outcome zero at base end e le used = (omega arith, λ b h. used b (omega arith))
    scan_blocks-Outcome (suc n) at base end e le used = elim (Bool-cases (paddm_is_free m at)) [
      | inl free ↦
          let fits : leb flags.page_alloc_num (0 + 1) ≡ true = ground arith in
          let (small, clear) = (paddm_is_free_iff m at).0 free in
          rw (free, fits) (small, clear, used)
      | inr taken ↦ rw taken (
          scan_blocks-Outcome n (at + 1) base end (omega arith) le
            (AllUsed-suc m at used (paddm_is_free-false m at (omega arith) taken)))
    ]

    -- The blocks of superblock bit `k` are `16 * k` to `16 * k + 15`.
    scan_super_bit-Outcome :
        (sb xb base : ℕ)
        → sb < 8
        → xb < 32
        → SuperSound m
        → AllUsed m ((sb * 32 + xb) * 16)
        → Outcome ((sb * 32 + xb) * 16 + 16) (scan_super_bit m flags sb xb base 0)
    unfolding scan_super_bit
    scan_super_bit-Outcome sb xb base hs hx sound used =
        elim (Bool-cases (is_clear (m (super_word sb)) (xb % 32))) [
          | inl open_super ↦ elim (Bool-cases (m ((sb * 32 + xb) >>> 1) == ones32)) [
            | inl full ↦
                rw (open_super, full)
                  (
                    omega arith,
                    AllUsed-chunk m sb xb hs hx used
                        (λ b lo hi. block-full_word m (sb * 32 + xb) b full lo hi),
                  )
            | inr some_free ↦
                rw (open_super, some_free)
                  (scan_blocks-Outcome 16 ((sb * 32 + xb) * 16) base _ (omega arith) (omega arith)
                    used)
          ]
          | inr full_super ↦ rw full_super (
            omega arith,
            AllUsed-chunk m sb xb hs hx used
                (λ b lo hi. sound b (omega arith) (super_of_marked m sb xb b hx full_super lo hi)),
          )
        ]

    end_super_bit-Outcome :
        (n sb xb : ℕ) (s : Scan) → Outcome n s → Outcome n (end_super_bit m flags sb xb s)
    unfolding end_super_bit
    end_super_bit-Outcome n sb xb (found b) o = o
    end_super_bit-Outcome n sb xb failed o = o
    end_super_bit-Outcome n sb xb (going base num) o =
        elim (Bool-cases (flags.low_mem && ltb 15 xb && (sb == 0))) [
          | inl stop ↦ rw stop (ground arith)
          | inr more ↦ elim (Bool-cases flags.align_64kb) [
            | inl reset ↦ rw (more, reset) (omega arith, o.1)
            | inr keep ↦ rw (more, keep) o
          ]
        ]

    and_then-Outcome :
        (n k : ℕ) (s : Scan) (next : ℕ → ℕ → Scan)
        → Outcome n s
        → ((base : ℕ) → AllUsed m n → Outcome k (next base 0))
        → Outcome k (and_then m flags s next)
    unfolding and_then
    and_then-Outcome n k (found b) next o more = o
    and_then-Outcome n k failed next o more = o
    and_then-Outcome n k (going base num) next o more = rw o.0 (more base o.1)

    scan_super_bits-Outcome :
        (n sb xb base : ℕ)
        → sb < 8
        → xb + n ≡ 32
        → SuperSound m
        → AllUsed m ((sb * 32 + xb) * 16)
        → Outcome ((sb + 1) * 512) (scan_super_bits m flags n sb xb base 0)
    unfolding scan_super_bits
    scan_super_bits-Outcome zero sb xb base hs e sound used =
        (omega arith, λ b h. used b (omega arith))
    scan_super_bits-Outcome (suc n) sb xb base hs e sound used =
        and_then-Outcome ((sb * 32 + xb) * 16 + 16) _ _ _
          (end_super_bit-Outcome _ sb xb _
            (scan_super_bit-Outcome sb xb base hs (omega arith) sound used))
          (λ base' used'.
            scan_super_bits-Outcome n sb (xb + 1) base' hs (omega arith) sound
              (λ b h. used' b (omega arith)))

    scan_superblock-Outcome :
        (sb base : ℕ)
        → sb < 8
        → SuperSound m
        → AllUsed m (sb * 512)
        → Outcome ((sb + 1) * 512) (scan_superblock m flags sb base 0)
    unfolding scan_superblock
    scan_superblock-Outcome sb base hs sound used =
        elim (Bool-cases (m (super_word sb) == ones32)) [
          | inl full ↦ rw full (
            omega arith,
            λ b h. elim (Bool-cases (ltb b (sb * 512))) [
              | inl before ↦ used b (ltb→lt _ _ before)
              | inr within ↦
                  sound b (omega arith)
                    (super_of_full m sb b full (ltb→le _ _ within) (omega arith))
            ],
          )
          | inr some_free ↦ rw some_free (
              scan_super_bits-Outcome 32 sb 0 base hs (omega arith) sound
                (λ b h. used b (omega arith)))
        ]

    scan_superblocks-Outcome :
        (n sb base : ℕ)
        → sb + n ≡ 8
        → SuperSound m
        → AllUsed m (sb * 512)
        → Outcome 4096 (scan_superblocks m flags n sb base 0)
    unfolding scan_superblocks
    scan_superblocks-Outcome zero sb base e sound used = (omega arith, λ b h. used b (omega arith))
    scan_superblocks-Outcome (suc n) sb base e sound used =
        and_then-Outcome ((sb + 1) * 512) _ _ _
          (scan_superblock-Outcome sb base (omega arith) sound used)
          (λ base' used'. scan_superblocks-Outcome n (sb + 1) base' (omega arith) sound used')

module _ (m : Memory) (flags : PallocFlags) where
  abbrev Answer : Option ℕ → Type 0
  Answer (some b) = IsFirstFree m b
  Answer none = (flags.low_mem ≡ true) ⊎ AllUsed m 4096

  base_bit_of-Answer : (s : Scan) → Outcome m flags 4096 s → Answer (base_bit_of s)
  base_bit_of-Answer (found b) o = o
  base_bit_of-Answer failed o = inl o
  base_bit_of-Answer (going base num) o = inr o.1

  first_free :
      flags.page_alloc_num ≤ 1
      → SuperSound m
      → Answer (base_bit_of (scan_superblocks m flags 8 0 0 0))
  first_free single sound = base_bit_of-Answer _ (
      scan_superblocks-Outcome m flags single 8 0 0 (omega arith) sound
        (λ k h. absurd (omega arith)))

  -- A request for at most one page that finds a block finds the lowest free block, if each
  -- superblock that is marked full is full.
  pub found-IsFirstFree :
      (b : ℕ)
      → flags.page_alloc_num ≤ 1
      → SuperSound m
      → paddm_get_first_clear_bits m flags ≡ some b
      → IsFirstFree m b
  unfolding paddm_get_first_clear_bits
  found-IsFirstFree b single sound e =
      elim (Bool-cases ((flags.page_alloc_num == 0) && flags.contiguous)) [
        | inl refused ↦ absurd (cc (rw refused at e))
        | inr asked ↦ subst Answer (rw asked at e) (first_free single sound)
      ]

  -- Without `low_mem`, a request for one page fails only when all 4096 blocks are in use, if each
  -- superblock that is marked full is full.
  pub not_found-AllUsed :
      flags.page_alloc_num ≡ 1
      → flags.low_mem ≡ false
      → SuperSound m
      → paddm_get_first_clear_bits m flags ≡ none
      → AllUsed m 4096
  unfolding paddm_get_first_clear_bits
  not_found-AllUsed single anywhere sound e =
      elim (Bool-cases ((flags.page_alloc_num == 0) && flags.contiguous)) [
        | inl refused ↦ absurd (ground arith)
        | inr asked ↦ elim (subst Answer (rw asked at e) (first_free (omega arith) sound)) [
          | inl low ↦ absurd (ground arith)
          | inr all ↦ all
        ]
      ]
