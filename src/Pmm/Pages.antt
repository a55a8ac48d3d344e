-- ===== src/Pmm/Pages.antt =====
-- `kpmalloc` of one page and `pfree` over the bitmap.
use condor_fos.Base.{
  ℕ, zero, suc, ◌+◌, ◌*◌, ◌/◌, ◌≤◌, ◌<◌, ◌≡◌, refl, arith, leb, ◌==◌, if◌then◌else◌, Memory,
  Bool-cases, ==_iff, inl, inr, ◌∙◌, some,
}
use condor_fos.Pmm.{paddm_set_bit, paddm_clear_bit, PallocFlags, paddm_get_first_clear_bits}
use condor_fos.Pmm.Blocks.{
  block, SuperSound, block-paddm_set_bit, block-paddm_clear_bit, paddm_set_bit-SuperSound,
  paddm_clear_bit-SuperSound, clear_outside_range,
}
use condor_fos.Pmm.Skips.{IsFirstFree}
use condor_fos.Pmm.Search.{found-IsFirstFree}
use condor_fos.Pmm.Stack.{ok}
use condor_fos.Pmm.Alloc.{Pmm, take_frame, kpmalloc, pfree, clear_frames, set_frames}
use condor_fos.Pmm.Regions.{Succeeds, in_range}

module _ (s : Pmm) (flags : PallocFlags) (frame : ℕ) (single : flags.page_alloc_num ≤ 1)
    (sound : SuperSound s.low_bitmaps)
    (hit : paddm_get_first_clear_bits s.low_bitmaps flags ≡ some frame) where
  first : IsFirstFree s.low_bitmaps frame
  first = found-IsFirstFree s.low_bitmaps flags frame single sound hit

  kpmalloc-eq :
      kpmalloc s flags
      ≡ (frame * 4096, record s { low_bitmaps = paddm_set_bit s.low_bitmaps frame })
  unfolding kpmalloc take_frame set_frames
  kpmalloc-eq = rw hit (ground arith)

  -- For at most one page, when the search of the bitmap succeeds, `kpmalloc` returns the address of
  -- the lowest free block. The block is in use afterwards, no other block changes, the free stacks
  -- are not touched, and the invariant that a superblock marked full is full is kept.
  kpmalloc-single :
      (j : ℕ)
      → j < 4096
      → IsFirstFree s.low_bitmaps frame
        × ((kpmalloc s flags).0 ≡ frame * 4096)
        × (block (kpmalloc s flags).1.low_bitmaps j
            ≡ (if frame == j then 1 else block s.low_bitmaps j))
        × ((kpmalloc s flags).1.stacks ≡ s.stacks)
        × SuperSound (kpmalloc s flags).1.low_bitmaps
  kpmalloc-single j h = rw kpmalloc-eq (
    first,
    refl,
    block-paddm_set_bit s.low_bitmaps frame j first.0 h,
    refl,
    paddm_set_bit-SuperSound s.low_bitmaps frame sound,
  )

pub block-clear_frames :
    (n : ℕ) (m : Memory) (s j : ℕ)
    → j < 4096
    → block (clear_frames n m s) j ≡ (if in_range s n j then 0 else block m j)
unfolding clear_frames
block-clear_frames zero m s j h = ground arith
block-clear_frames (suc n) m s j h = elim (Bool-cases (leb 0x1000 s)) [
  | inl out ↦
      rw (clear_outside_range m s (ground arith))
        (ground (arith, block-clear_frames n m (s + 1) j h))
  | inr within ↦ ground (
    arith,
    block-clear_frames n (paddm_clear_bit m s) (s + 1) j h,
    block-paddm_clear_bit m s j (ground arith) h,
  )
]

clear_frames-SuperSound :
    (n : ℕ) (m : Memory) (s : ℕ) → SuperSound m → SuperSound (clear_frames n m s)
unfolding clear_frames
clear_frames-SuperSound zero m s sound = sound
clear_frames-SuperSound (suc n) m s sound =
    clear_frames-SuperSound n (paddm_clear_bit m s) (s + 1) (paddm_clear_bit-SuperSound m s sound)

pfree-eq :
    (s : Pmm) (base n : ℕ)
    → 4 ≤ base / 4096
    → base < 0x1000000
    → pfree s base n ≡ ok (record s { low_bitmaps = clear_frames n s.low_bitmaps (base / 4096) })
unfolding pfree
pfree-eq s base n lo hi = ground arith

-- `pfree` of `n` pages at an address below 16 MiB and from block 4 on does not panic. It frees
-- exactly those blocks of the bitmap, and keeps the free stacks and the invariant of the bitmaps.
pfree_lem :
    (s : Pmm) (base n j : ℕ)
    → 4 ≤ base / 4096
    → base < 0x1000000
    → j < 4096
    → SuperSound s.low_bitmaps
    → Succeeds
        (λ s'.
          (block s'.low_bitmaps j
            ≡ (if in_range (base / 4096) n j then 0 else block s.low_bitmaps j))
          × (s'.stacks ≡ s.stacks)
          × SuperSound s'.low_bitmaps)
        (pfree s base n)
pfree_lem s base n j lo hi h sound = rw (pfree-eq s base n lo hi) (
  block-clear_frames n s.low_bitmaps (base / 4096) j h,
  refl,
  clear_frames-SuperSound n s.low_bitmaps (base / 4096) sound,
)

-- Clearing the block that was marked, if it was free before.
restored :
    (m : Memory) (frame j : ℕ)
    → frame < 4096
    → j < 4096
    → block m frame ≡ 0
    → (if in_range (frame * 4096 / 4096) 1 j then 0 else block (paddm_set_bit m frame) j)
      ≡ block m j
restored m frame j hf hj free = elim (Bool-cases (frame == j)) [
  | inl same ↦ let e : frame ≡ j = (==_iff frame j).0 same in rw (← e) (ground arith)
  | inr other ↦ ground (arith, block-paddm_set_bit m frame j hf hj)
]

module _ (s : Pmm) (flags : PallocFlags) (frame : ℕ) (single : flags.page_alloc_num ≤ 1)
    (sound : SuperSound s.low_bitmaps)
    (hit : paddm_get_first_clear_bits s.low_bitmaps flags ≡ some frame) where
  -- A request for at most one page that `kpmalloc` answers from the bitmap, with a block from 4 on,
  -- can be undone: `pfree` of the address does not panic and leaves every block as it was, if each
  -- superblock that was marked full was full.
  pub pfree-kpmalloc :
      (j : ℕ)
      → 4 ≤ frame
      → j < 4096
      → Succeeds
          (λ s'. block s'.low_bitmaps j ≡ block s.low_bitmaps j)
          (pfree (kpmalloc s flags).1 (kpmalloc s flags).0 1)
  pfree-kpmalloc j lo h =
      let m = s.low_bitmaps in
      let taken = record s { low_bitmaps = paddm_set_bit m frame } in
      let (small, free, below) = found-IsFirstFree m flags frame single sound hit in
      rw
        (
          kpmalloc-eq s flags frame single sound hit,
          pfree-eq taken (frame * 4096) 1 (omega arith) (omega arith),
        )
        (block-clear_frames 1 (paddm_set_bit m frame) (frame * 4096 / 4096) j h
          ∙ restored m frame j small h free)
