-- ===== src/Pmm/Skips.antt =====
-- What the blocks are that `paddm_get_first_clear_bits` skips.
use condor_fos.Base.{
  ℕ, ◌+◌, ◌*◌, ◌/◌, ◌%◌, ◌≤◌, ◌<◌, ◌≡◌, true, false, arith, ◌==◌, Memory, ones32, ◌>>>◌, is_clear,
  is_clear_iff, test_bit-le-one, test_bit-ones, ==_iff,
}
use condor_fos.Pmm.{super_word}
use condor_fos.Pmm.Blocks.{block, super, full-block}

abbrev pub AllUsed : Memory → ℕ → Type 0
AllUsed m n = (b : ℕ) → b < n → block m b ≡ 1

-- `b` is the lowest free block.
abbrev pub IsFirstFree : Memory → ℕ → Type 0
IsFirstFree m b = (b < 4096) × (block m b ≡ 0) × AllUsed m b

module _ (m : Memory) where
  pub AllUsed-suc : (n : ℕ) → AllUsed m n → block m n ≡ 1 → AllUsed m (n + 1)
  AllUsed-suc n used last b h = ground (arith, used b)

  pub AllUsed-chunk :
      (sb xb : ℕ)
      → sb < 8
      → xb < 32
      → AllUsed m ((sb * 32 + xb) * 16)
      → ((b : ℕ) → (sb * 32 + xb) * 16 ≤ b → b < (sb * 32 + xb) * 16 + 16 → block m b ≡ 1)
      → AllUsed m ((sb * 32 + xb) * 16 + 16)
  AllUsed-chunk sb xb hs hx used chunk b h = ground (arith, used b, chunk b)

  -- The three tests by which the search skips blocks, as facts about the blocks skipped.
  pub block-full_word :
      (k b : ℕ) → (m (k >>> 1) == ones32) ≡ true → k * 16 ≤ b → b < k * 16 + 16 → block m b ≡ 1
  block-full_word k b full lo hi =
      let same : b / 32 ≡ k / 2 = omega arith in
      full-block m b (rw same ((==_iff (m (k / 2)) ones32).0 full))

  pub super_of_marked :
      (sb xb b : ℕ)
      → xb < 32
      → is_clear (m (super_word sb)) (xb % 32) ≡ false
      → (sb * 32 + xb) * 16 ≤ b
      → b < (sb * 32 + xb) * 16 + 16
      → super m b ≡ 1
  super_of_marked sb xb b hx marked lo hi =
      let word : b / 512 ≡ sb = omega arith in
      let bit : b / 16 % 32 ≡ xb % 32 = omega arith in
      let le_one = test_bit-le-one (m (super_word sb)) (xb % 32) in
      rw (word, bit) (ground (arith, is_clear_iff (m (super_word sb)) (xb % 32), le_one))

  pub super_of_full :
      (sb b : ℕ)
      → (m (super_word sb) == ones32) ≡ true
      → sb * 512 ≤ b
      → b < sb * 512 + 512
      → super m b ≡ 1
  super_of_full sb b full lo hi =
      let word : b / 512 ≡ sb = omega arith in
      rw (word, (==_iff (m (super_word sb)) ones32).0 full) (test_bit-ones 32 _ (omega arith))
