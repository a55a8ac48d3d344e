-- ===== src/Pmm.antt =====
-- kernel/kernel/mm/pmm.c, the bitmap part: `lomem_bitmaps_t` and the functions on it. The page
-- at `PMM_BASE` is a memory of 32-bit words: `block_bitmap` is words 0 to 127,
-- `superblock_bitmap` words 128 to 135, `reserved` the rest of its 1024 words.
pub mod Blocks
pub mod Skips
pub mod Search
pub mod Stack
pub mod Alloc
pub mod Regions
pub mod Boot
pub mod Pages
pub mod Lifo
pub mod Tests
use condor_fos.Base.{
  ℕ, zero, suc, ◌+◌, ◌*◌, ◌/◌, ◌%◌, Bool, true, false, ◌&&◌, Option, none, some, ltb, leb, ◌==◌,
  if◌then◌else◌, Memory, write, ones32, ◌<<<◌, ◌>>>◌, set_bit, clear_bit, is_clear,
}

-- `palloc_flags_t`; `big_page` and `low_4gb` are not read by the bitmap.
pub record PallocFlags : Type 0 where
  pub align_64kb : Bool
  pub low_mem : Bool
  pub contiguous : Bool
  pub page_alloc_num : ℕ

abbrev pub max_superblocks : ℕ
max_superblocks = 8

-- The index of `superblock_bitmap[i]` in the page.
abbrev pub super_word : ℕ → ℕ
super_word i = 128 + i

-- `check_super_region`: the loop over `off`, with `n` rounds left, at word `base`.
unfoldable pub words_full : Memory → ℕ → ℕ → Bool
words_full m base zero = true
words_full m base (suc n) = (m base == ones32) && words_full m (base + 1) n

-- `bit & ~0xF` is `bit / 16 * 16`.
unfoldable pub check_super_region : Memory → ℕ → Bool
check_super_region m bit = words_full m ((bit / 16 * 16) >>> 5) 16

-- `low_bitmaps->block_bitmap[bit >> 5] |= ...`, the first statement of `paddm_set_bit`.
abbrev pub mark_block : Memory → ℕ → Memory
mark_block m bit = write m (bit >>> 5) (set_bit (m (bit >>> 5)) (bit % 32))

-- `low_bitmaps->superblock_bitmap[bit >> 9] |= ...`, its last one.
abbrev pub mark_super : Memory → ℕ → Memory
mark_super m bit =
    write m (super_word (bit >>> 9)) (set_bit (m (super_word (bit >>> 9))) (bit >>> 4 % 32))

unfoldable pub paddm_set_bit : Memory → ℕ → Memory
paddm_set_bit m bit =
    if leb 4096 bit
    then m
    else if check_super_region (mark_block m bit) bit
    then mark_super (mark_block m bit) bit
    else mark_block m bit

unfoldable pub paddm_clear_bit : Memory → ℕ → Memory
paddm_clear_bit m bit =
    if leb 4096 bit
    then m
    else let m' = write m (bit >>> 5) (clear_bit (m (bit >>> 5)) (bit % 32)) in
      write m' (super_word (bit >>> 9)) (clear_bit (m' (super_word (bit >>> 9))) (bit >>> 4 % 32))

-- The test `paddm_get_bit(bit) == 0`; a block from 4096 on counts as used.
unfoldable pub paddm_is_free : Memory → ℕ → Bool
paddm_is_free m bit = if leb 4096 bit then false else is_clear (m (bit >>> 5)) (bit % 32)

-- How a part of the search ends: with a `return base_bit`, with a `return -1`, or by running on
-- with the locals `base_bit` and `num_free_bits`.
pub data Scan : Type 0 where
  found : ℕ → Scan
  failed : Scan
  going : ℕ → ℕ → Scan

-- `return base_bit`, or the -1 that both other ends return.
abbrev pub base_bit_of : Scan → Option ℕ
base_bit_of (found b) = some b
base_bit_of failed = none
base_bit_of (going base num) = none

module _ (m : Memory) (flags : PallocFlags) where
  -- `for(size_t bit = 0; bit < 16; bit++)`, with `n` rounds left, at block `at`.
  unfoldable pub scan_blocks : ℕ → ℕ → ℕ → ℕ → Scan
  scan_blocks zero at base num = going base num
  scan_blocks (suc n) at base num =
      let base' = if num == 0 then at else base in
      let counted = scan_blocks n (at + 1) base' (num + 1) in
      let reset = scan_blocks n (at + 1) base 0 in
      if paddm_is_free m at
      then (if leb flags.page_alloc_num (num + 1) then found base' else counted)
      else reset

  -- One round of the `super_bit` loop, up to the two tests behind the block search.
  unfoldable pub scan_super_bit : ℕ → ℕ → ℕ → ℕ → Scan
  scan_super_bit superblock_base super_bit base num =
      let block_base = superblock_base * 32 + super_bit in
      if is_clear (m (super_word superblock_base)) (super_bit % 32)
      then (if m (block_base >>> 1) == ones32
          then going base num
          else scan_blocks 16 (block_base <<< 4) base num)
      else going base num

  -- `if(flags.align_64kb) ...` and `if(flags.low_mem && ...) return -1`.
  unfoldable pub end_super_bit : ℕ → ℕ → Scan → Scan
  end_super_bit superblock_base super_bit (found b) = found b
  end_super_bit superblock_base super_bit failed = failed
  end_super_bit superblock_base super_bit (going base num) =
      if flags.low_mem && ltb 15 super_bit && (superblock_base == 0)
      then failed
      else (if flags.align_64kb then going 0 0 else going base num)

  -- The loops run on through `going` and stop at a return.
  unfoldable pub and_then : Scan → (ℕ → ℕ → Scan) → Scan
  and_then (found b) next = found b
  and_then failed next = failed
  and_then (going base num) next = next base num

  -- `for(size_t super_bit = 0; super_bit < 32; super_bit++)`, with `n` rounds left.
  unfoldable pub scan_super_bits : ℕ → ℕ → ℕ → ℕ → ℕ → Scan
  scan_super_bits zero superblock_base super_bit base num = going base num
  scan_super_bits (suc n) superblock_base super_bit base num =
      and_then
        (end_super_bit superblock_base super_bit
          (scan_super_bit superblock_base super_bit base num))
        (λ base' num'. scan_super_bits n superblock_base (super_bit + 1) base' num')

  -- The body of the outermost loop.
  unfoldable pub scan_superblock : ℕ → ℕ → ℕ → Scan
  scan_superblock superblock_base base num =
      if m (super_word superblock_base) == ones32
      then going base num
      else scan_super_bits 32 superblock_base 0 base num

  -- `for(size_t superblock_base = 0; ...; superblock_base++)`, with `n` rounds left.
  unfoldable pub scan_superblocks : ℕ → ℕ → ℕ → ℕ → Scan
  scan_superblocks zero superblock_base base num = going base num
  scan_superblocks (suc n) superblock_base base num =
      and_then (scan_superblock superblock_base base num)
        (λ base' num'. scan_superblocks n (superblock_base + 1) base' num')

  -- `none` is the -1.
  unfoldable pub paddm_get_first_clear_bits : Option ℕ
  paddm_get_first_clear_bits =
      if (flags.page_alloc_num == 0) && flags.contiguous
      then none
      else base_bit_of (scan_superblocks max_superblocks 0 0 0)
