-- ===== src/Pmm/Boot.antt =====
-- `pmm_init`: the invariant of the bitmaps holds once the memory map is read.
use condor_fos.Base.{
  ◌/◌, ◌≡◌, refl, true, ◌||◌, arith, ltb, ◌==◌, lt→ltb, Bool-cases, inl, inr, u32, List, [], ◌∷◌,
}
use condor_fos.Pmm.Blocks.{full-block, SuperSound}
use condor_fos.Pmm.Alloc.{
  Pmm, add_entry, add_entries, pmm_init, MmapEntry, blank_bitmaps, pmm_is_inited,
}
use condor_fos.Pmm.Regions.{
  Succeeds, mono-Succeeds, bind-Succeeds, pmm_clear_region-Cleared, pmm_set_region-SuperSound,
}

abbrev pub Sound : Pmm → Type 0
Sound s = SuperSound s.low_bitmaps

add_entry-Sound : (s : Pmm) (e : MmapEntry) → Sound s → Succeeds Sound (add_entry s e)
unfolding add_entry
add_entry-Sound s e sound = elim (Bool-cases ((e.type == 3) || (e.type == 1))) [
  | inl usable ↦ rw usable (
      mono-Succeeds _ Sound _ (pmm_clear_region-Cleared s (u32 e.addr) (u32 e.len))
        (λ q (blocks, keeps). keeps sound))
  | inr other ↦ elim (Bool-cases (ltb 1 e.type)) [
    | inl reserved ↦ rw (other, reserved) (pmm_set_region-SuperSound s _ _ sound)
    | inr invalid ↦ rw (other, invalid) sound
  ]
]

add_entries-Sound : (es : List MmapEntry) (s : Pmm) → Sound s → Succeeds Sound (add_entries s es)
unfolding add_entries
add_entries-Sound [] s sound = sound
add_entries-Sound (e ∷ es) s sound =
    bind-Succeeds Sound Sound (add_entry s e) _ (add_entry-Sound s e sound)
      (λ s' sound'. add_entries-Sound es s' sound')

blank-SuperSound : SuperSound blank_bitmaps
blank-SuperSound b h s = full-block blank_bitmaps b (rw (lt→ltb (b / 32) 136 (omega arith)))

-- For every memory map `pmm_init` ends without a panic; each superblock that is marked full is
-- full then, and `pmm_isInited` is true.
pub pmm_init-Sound :
    (s : Pmm) (mmap : List MmapEntry)
    → Succeeds (λ s'. Sound s' × (pmm_is_inited s' ≡ true)) (pmm_init s mmap)
unfolding pmm_init
pmm_init-Sound s mmap =
    bind-Succeeds Sound _ _ _
      (add_entries-Sound mmap (record s { low_bitmaps = blank_bitmaps }) blank-SuperSound)
      (λ s' sound. (sound, refl))
