-- ===== src/Pmm/Regions.antt =====
-- The blocks that `pmm_set_region` and `pmm_clear_region` change, block by block, and the
-- invariant of the bitmaps over both.
use condor_fos.Base.{
  ℕ, zero, suc, ◌+◌, ◌-◌, ◌/◌, ◌%◌, ◌<◌, ◌≡◌, refl, Bool, ◌&&◌, ◌||◌, arith, leb, ltb, ◌==◌,
  if◌then◌else◌, Memory, ◌<<<◌, test_bit, test_bit-bit_or, ap, ◌∙◌, test_bit-zero, test_bit-le-one,
  Bool-cases, inl, inr, u32,
}
use condor_fos.Pmm.{paddm_set_bit, paddm_clear_bit}
use condor_fos.Pmm.Blocks.{
  block, SuperSound, block-paddm_set_bit, block-paddm_clear_bit, paddm_set_bit-SuperSound,
  paddm_clear_bit-SuperSound, clear_outside_range,
}
use condor_fos.Pmm.Stack.{Stacks, Run, ok, panic, stack_push}
use condor_fos.Pmm.Alloc.{
  Pmm, ◌>>=◌, keep_first, clear_one, clear_blocks, pmm_clear_region, set_blocks, pmm_set_region,
  end_block,
}

-- `n` blocks from `s` on.
abbrev pub in_range : ℕ → ℕ → ℕ → Bool
in_range s n j = leb s j && ltb j (s + n)

pub block-set_blocks :
    (n : ℕ) (m : Memory) (s j : ℕ)
    → j < 4096
    → block (set_blocks n m s) j ≡ (if in_range s n j then 1 else block m j)
unfolding set_blocks
block-set_blocks zero m s j h = ground arith
block-set_blocks (suc n) m s j h = elim (Bool-cases (leb 0x1000 s)) [
  | inl out ↦ rw out (ground arith)
  | inr within ↦ rw within (
      ground (
        arith,
        block-set_blocks n (paddm_set_bit m s) (s + 1) j h,
        block-paddm_set_bit m s j (ground arith) h,
      ))
]

test_bit-seven : (k : ℕ) → test_bit 7 k ≡ (if ltb k 3 then 1 else 0)
unfolding test_bit
test_bit-seven zero = refl
test_bit-seven (suc zero) = refl
test_bit-seven (suc (suc zero)) = refl
test_bit-seven (suc (suc (suc k))) = ground (arith, test_bit-zero k)

pub block-keep_first :
    (m : Memory) (j : ℕ) → block (keep_first m) j ≡ (if ltb j 3 then 1 else block m j)
block-keep_first m j = ground (
  arith,
  test_bit-bit_or (m 0) 7 (j % 32),
  test_bit-seven (j % 32),
  test_bit-le-one (m 0) (j % 32),
)

-- A postcondition of a run that does not panic.
abbrev pub Succeeds : {A : Type 0} → (A → Type 0) → Run A → Type 0
Succeeds P (ok a) = P a
Succeeds P panic = ⊥

abbrev Anything : {A : Type 0} → A → Type 0
Anything a = Unit {0}

pub mono-Succeeds :
    {A : Type 0} (P Q : A → Type 0) (m : Run A)
    → Succeeds P m
    → ((a : A) → P a → Q a)
    → Succeeds Q m
mono-Succeeds P Q (ok a) p weaken = weaken a p
mono-Succeeds P Q panic p weaken = p

module _ {A B : Type 0} (P : A → Type 0) (Q : B → Type 0) where
  pub bind-Succeeds :
      (m : Run A) (k : A → Run B)
      → Succeeds P m
      → ((a : A) → P a → Succeeds Q (k a))
      → Succeeds Q (m >>= k)
  bind-Succeeds (ok a) k p next = next a p
  bind-Succeeds panic k p next = p

-- A page address is never the 0xFFFFFFFF at which `stack_push` panics.
stack_push-Succeeds : (s : Stacks) (b : ℕ) → Succeeds Anything (stack_push s (u32 (b <<< 12)))
unfolding stack_push
stack_push-Succeeds s b = ground arith

push_high-Succeeds :
    (s : Stacks) (b : ℕ)
    → Succeeds Anything (if leb 0x1000 b then stack_push s (u32 (b <<< 12)) else ok s)
push_high-Succeeds s b = elim (Bool-cases (leb 0x1000 b)) [
  | inl high ↦ rw high (stack_push-Succeeds s b)
  | inr low ↦ rw low tt
]

-- The bitmaps after one round of `pmm_clear_region`: block `b` is free, 0 to 2 are reserved.
abbrev freed : Memory → ℕ → Memory
freed m b = keep_first (paddm_clear_bit m b)

block-freed :
    (m : Memory) (b j : ℕ)
    → j < 4096
    → block (freed m b) j ≡ (if ltb j 3 then 1 else if b == j then 0 else block m j)
block-freed m b j h = elim (Bool-cases (leb 4096 b)) [
  | inl out ↦ rw (clear_outside_range m b (ground arith)) (ground (arith, block-keep_first m j))
  | inr within ↦ ground (
    arith,
    block-keep_first (paddm_clear_bit m b) j,
    block-paddm_clear_bit m b j (ground arith) h,
  )
]

freed-SuperSound : (m : Memory) (b : ℕ) → SuperSound m → SuperSound (freed m b)
freed-SuperSound m b sound j hj s =
    let cleared = paddm_clear_bit-SuperSound m b sound j hj in
    ground (arith, block-keep_first (paddm_clear_bit m b) j, cleared)

clear_one-Succeeds :
    (s : Pmm) (b : ℕ) → Succeeds (λ s'. s'.low_bitmaps ≡ freed s.low_bitmaps b) (clear_one s b)
unfolding clear_one
clear_one-Succeeds s b =
    bind-Succeeds Anything (λ s'. s'.low_bitmaps ≡ freed s.low_bitmaps b) _ _
      (push_high-Succeeds s.stacks b) (λ stacks u. refl)

-- What `n` rounds from block `s` on leave of the bitmaps `m`.
abbrev pub cleared_block : ℕ → Memory → ℕ → ℕ → ℕ
cleared_block n m s j =
    if (n == 0) || leb 0xfffff s
    then block m j
    else if ltb j 3
    then 1
    else if in_range s n j
    then 0
    else block m j

cleared_block-freed :
    (n : ℕ) (m : Memory) (s j : ℕ)
    → s < 0xfffff
    → j < 4096
    → cleared_block n (freed m s) (s + 1) j ≡ cleared_block (suc n) m s j
cleared_block-freed n m s j hs hj = ground (arith, block-freed m s j hj)

abbrev Cleared : ℕ → Memory → ℕ → Pmm → Type 0
Cleared n m s p =
    ((j : ℕ) → j < 4096 → block p.low_bitmaps j ≡ cleared_block n m s j)
    × (SuperSound m → SuperSound p.low_bitmaps)

clear_blocks-Cleared :
    (n : ℕ) (p : Pmm) (s : ℕ) → Succeeds (Cleared n p.low_bitmaps s) (clear_blocks n p s)
unfolding clear_blocks
clear_blocks-Cleared zero p s = (λ j h. refl, λ sound. sound)
clear_blocks-Cleared (suc n) p s = elim (Bool-cases (leb 0xfffff s)) [
  | inl stop ↦ rw stop (λ j h. ground arith, λ sound. sound)
  | inr go ↦ rw go (
      bind-Succeeds (λ p'. p'.low_bitmaps ≡ freed p.low_bitmaps s) (Cleared (suc n) p.low_bitmaps s)
        (clear_one p s) _ (clear_one-Succeeds p s)
        (λ p' e.
          mono-Succeeds (Cleared n p'.low_bitmaps (s + 1)) (Cleared (suc n) p.low_bitmaps s) _
            (clear_blocks-Cleared n p' (s + 1))
            (λ q (blocks, sound). (
              λ j h.
                  blocks j h
                  ∙ ap (λ m. cleared_block n m (s + 1) j) e
                  ∙ cleared_block-freed n p.low_bitmaps s j (ground arith) h,
              λ before. sound (rw e (freed-SuperSound p.low_bitmaps s before)),
            ))))
]

-- The rounds of a region loop, none for an empty region.
abbrev pub rounds : ℕ → ℕ → ℕ
rounds base size = if size == 0 then 0 else end_block base size - base / 4096

pub pmm_clear_region-Cleared :
    (s : Pmm) (base size : ℕ)
    → Succeeds
        (Cleared (rounds base size) s.low_bitmaps (base / 4096))
        (pmm_clear_region s base size)
unfolding pmm_clear_region
pmm_clear_region-Cleared s base size = elim (Bool-cases (size == 0)) [
  | inl empty ↦ rw empty (λ j h. refl, λ sound. sound)
  | inr some_bytes ↦
      rw some_bytes (clear_blocks-Cleared (end_block base size - base / 4096) s (base / 4096))
]

-- `pmm_clear_region` never panics. It frees the blocks of the region that the bitmap covers and
-- changes no other, except that it reserves blocks 0 to 2 whenever its loop runs, and it keeps the
-- invariant of the bitmaps.
pub pmm_clear_region_lem :
    (s : Pmm) (base size j : ℕ)
    → j < 4096
    → SuperSound s.low_bitmaps
    → Succeeds
        (λ p.
          (block p.low_bitmaps j ≡ cleared_block (rounds base size) s.low_bitmaps (base / 4096) j)
          × SuperSound p.low_bitmaps)
        (pmm_clear_region s base size)
pmm_clear_region_lem s base size j h sound =
    mono-Succeeds (Cleared (rounds base size) s.low_bitmaps (base / 4096)) _ _
      (pmm_clear_region-Cleared s base size) (λ p (blocks, keeps). (blocks j h, keeps sound))

-- `pmm_set_region` marks the blocks of the region that the bitmap covers as used and changes no
-- other block.
pub block-pmm_set_region :
    (s : Pmm) (base size j : ℕ)
    → j < 4096
    → block (pmm_set_region s base size).low_bitmaps j
      ≡ (if in_range (base / 4096) (rounds base size) j then 1 else block s.low_bitmaps j)
unfolding pmm_set_region
block-pmm_set_region s base size j h =
    ground
      (arith, block-set_blocks (end_block base size - base / 4096) s.low_bitmaps (base / 4096) j h)

set_blocks-SuperSound : (n : ℕ) (m : Memory) (s : ℕ) → SuperSound m → SuperSound (set_blocks n m s)
unfolding set_blocks
set_blocks-SuperSound zero m s sound = sound
set_blocks-SuperSound (suc n) m s sound = elim (Bool-cases (leb 0x1000 s)) [
  | inl out ↦ rw out sound
  | inr within ↦
      rw within
        (set_blocks-SuperSound n (paddm_set_bit m s) (s + 1) (paddm_set_bit-SuperSound m s sound))
]

pub pmm_set_region-SuperSound :
    (s : Pmm) (base size : ℕ)
    → SuperSound s.low_bitmaps
    → SuperSound (pmm_set_region s base size).low_bitmaps
unfolding pmm_set_region
pmm_set_region-SuperSound s base size sound = elim (Bool-cases (size == 0)) [
  | inl empty ↦ rw empty sound
  | inr some_bytes ↦ rw some_bytes (set_blocks-SuperSound _ s.low_bitmaps (base / 4096) sound)
]
