-- ===== src/Pmm/Blocks.antt =====
-- What `paddm_set_bit` and `paddm_clear_bit` do to the blocks of the bitmap, and the invariant
-- between the two bitmaps.
use condor_fos.Base.{
  ℕ, ◌/◌, ◌%◌, ◌≤◌, ◌<◌, ◌≡◌, ◌↔◌, true, false, arith, leb, ◌==◌, if◌then◌else◌, Memory, ones32,
  test_bit, Bool-cases, test_bit-set_bit, test_bit-clear_bit, test_bit-ones, is_clear_iff,
  test_bit-le-one, inl, inr, leb→le,
}
use condor_fos.Pmm.{
  super_word, words_full, check_super_region, mark_block, mark_super, paddm_set_bit,
  paddm_clear_bit, paddm_is_free,
}

-- Bit `b` of `block_bitmap`: 1 for a used block.
abbrev pub block : Memory → ℕ → ℕ
block m b = test_bit (m (b / 32)) (b % 32)

-- The bit of `superblock_bitmap` for the 16 blocks around `b`.
abbrev pub super : Memory → ℕ → ℕ
super m b = test_bit (m (super_word (b / 512))) (b / 16 % 32)

-- A superblock that is marked full is full: the search may skip it.
abbrev pub SuperSound : Memory → Type 0
SuperSound m = (b : ℕ) → b < 4096 → super m b ≡ 1 → block m b ≡ 1

block-mark_block :
    (m : Memory) (b j : ℕ) → block (mark_block m b) j ≡ (if b == j then 1 else block m j)
block-mark_block m b j = ground (arith, test_bit-set_bit (m (b / 32)) (b % 32) (j % 32))

super-mark_block : (m : Memory) (b j : ℕ) → b < 4096 → super (mark_block m b) j ≡ super m j
super-mark_block m b j h = ground arith

block-mark_super : (m : Memory) (b j : ℕ) → j < 4096 → block (mark_super m b) j ≡ block m j
block-mark_super m b j h = ground arith

super-mark_super :
    (m : Memory) (b j : ℕ)
    → super (mark_super m b) j ≡ (if (b / 16) == (j / 16) then 1 else super m j)
super-mark_super m b j =
    ground (arith, test_bit-set_bit (m (super_word (b / 512))) (b / 16 % 32) (j / 16 % 32))

module _ (m : Memory) (b j : ℕ) (hb : b < 4096) (hj : j < 4096) where
  -- `paddm_set_bit` marks its block and no other.
  pub block-paddm_set_bit : block (paddm_set_bit m b) j ≡ (if b == j then 1 else block m j)
  unfolding paddm_set_bit
  block-paddm_set_bit =
      ground (arith, block-mark_block m b j, block-mark_super (mark_block m b) b j hj)

  -- `paddm_clear_bit` frees its block and no other.
  pub block-paddm_clear_bit : block (paddm_clear_bit m b) j ≡ (if b == j then 0 else block m j)
  unfolding paddm_clear_bit
  block-paddm_clear_bit = ground (arith, test_bit-clear_bit (m (b / 32)) (b % 32) (j % 32))

  super-paddm_clear_bit :
      super (paddm_clear_bit m b) j ≡ (if (b / 16) == (j / 16) then 0 else super m j)
  unfolding paddm_clear_bit
  super-paddm_clear_bit =
      ground (arith, test_bit-clear_bit (m (super_word (b / 512))) (b / 16 % 32) (j / 16 % 32))

pub outside_range : (m : Memory) (b : ℕ) → 4096 ≤ b → paddm_set_bit m b ≡ m
unfolding paddm_set_bit
outside_range m b h = ground arith

pub clear_outside_range : (m : Memory) (b : ℕ) → 4096 ≤ b → paddm_clear_bit m b ≡ m
unfolding paddm_clear_bit
clear_outside_range m b h = ground arith

-- A full word holds 32 used blocks.
pub full-block : (m : Memory) (b : ℕ) → m (b / 32) ≡ ones32 → block m b ≡ 1
full-block m b h = ground (arith, test_bit-ones 32 (b % 32))

check-full : (m : Memory) (b : ℕ) → check_super_region m b ≡ true → m (b / 32) ≡ ones32
unfolding check_super_region words_full
check-full m b h = ground arith

-- Marking a block keeps the invariant; so does marking its superblock once its word is full.
mark_block-SuperSound : (m : Memory) (b : ℕ) → b < 4096 → SuperSound m → SuperSound (mark_block m b)
mark_block-SuperSound m b hb sound j hj s =
    ground (arith, super-mark_block m b j hb, block-mark_block m b j, sound j hj)

mark_super-SuperSound :
    (m : Memory) (b : ℕ) → m (b / 32) ≡ ones32 → SuperSound m → SuperSound (mark_super m b)
mark_super-SuperSound m b full sound j hj s =
    ground (arith, super-mark_super m b j, block-mark_super m b j hj, sound j hj, full-block m j)

-- `paddm_set_bit` keeps the invariant that a superblock that is marked full is full, for every bit.
pub paddm_set_bit-SuperSound : (m : Memory) (b : ℕ) → SuperSound m → SuperSound (paddm_set_bit m b)
unfolding paddm_set_bit
paddm_set_bit-SuperSound m b sound = elim (Bool-cases (leb 4096 b)) [
  | inl out ↦ rw out sound
  | inr within ↦
      let marked = mark_block-SuperSound m b (ground arith) sound in
      elim (Bool-cases (check_super_region (mark_block m b) b)) [
        | inl full ↦
            rw (within, full)
              (mark_super-SuperSound (mark_block m b) b (check-full (mark_block m b) b full) marked)
        | inr partial ↦ rw (within, partial) marked
      ]
]

-- `paddm_clear_bit` keeps the invariant that a superblock that is marked full is full, for every bit.
pub paddm_clear_bit-SuperSound :
    (m : Memory) (b : ℕ) → SuperSound m → SuperSound (paddm_clear_bit m b)
paddm_clear_bit-SuperSound m b sound = elim (Bool-cases (leb 4096 b)) [
  | inl out ↦ rw (clear_outside_range m b (leb→le 4096 b out)) sound
  | inr within ↦ λ j hj s.
      let hb : b < 4096 = ground arith in
      ground
        (arith, super-paddm_clear_bit m b j hb hj, block-paddm_clear_bit m b j hb hj, sound j hj)
]

pub paddm_is_free_iff :
    (m : Memory) (b : ℕ) → (paddm_is_free m b ≡ true) ↔ ((b < 4096) × (block m b ≡ 0))
unfolding paddm_is_free
paddm_is_free_iff m b = ground (arith, is_clear_iff (m (b / 32)) (b % 32))

pub paddm_is_free-false :
    (m : Memory) (b : ℕ) → b < 4096 → paddm_is_free m b ≡ false → block m b ≡ 1
unfolding paddm_is_free
paddm_is_free-false m b h e =
    ground (arith, is_clear_iff (m (b / 32)) (b % 32), test_bit-le-one (m (b / 32)) (b % 32))
