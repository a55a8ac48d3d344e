-- ===== src/Pmm/Alloc.antt =====
-- kernel/kernel/mm/pmm.c, the public functions: regions, `kpmalloc`, `pfree` and `pmm_init`.
use condor_fos.Base.{
  ℕ, zero, suc, ◌+◌, ◌-◌, Bool, true, false, ◌&&◌, ◌||◌, Option, none, some, List, [], ◌∷◌, ltb,
  leb, ◌==◌, if◌then◌else◌, Memory, write, ones32, u32, ◌<<<◌, ◌>>>◌, bit_or,
}
use condor_fos.Pmm.{PallocFlags, paddm_set_bit, paddm_clear_bit, paddm_get_first_clear_bits}
use condor_fos.Pmm.Stack.{Stacks, Run, ok, panic, stack_push, stack_pop32}

-- The static variables of the file.
pub record Pmm : Type 0 where
  pub low_bitmaps : Memory
  pub stacks : Stacks
  pub is_inited : Bool

infixl 5 ◌>>=◌
abbrev pub ◌>>=◌ : {A B : Type 0} → Run A → (A → Run B) → Run B
ok a >>= k = k a
panic >>= k = panic

-- The page behind the last byte, `(base + size + 0xFFF) >> 12` in 32 bits.
abbrev pub end_block : ℕ → ℕ → ℕ
end_block base size = u32 (base + size + 0xfff) >>> 12

-- `low_bitmaps->block_bitmap[0] |= 0x00000007`.
abbrev pub keep_first : Memory → Memory
keep_first m = write m 0 (bit_or (m 0) 7)

-- The body of the loop of `pmm_clear_region` behind its break.
unfoldable pub clear_one : Pmm → ℕ → Run Pmm
clear_one s blocks = do
  stacks ← if leb 0x1000 blocks then stack_push s.stacks (u32 (blocks <<< 12)) else ok s.stacks
  ok (record s { low_bitmaps = keep_first (paddm_clear_bit s.low_bitmaps blocks); stacks = stacks })

-- The loop from `blocks` on, with `n` rounds left.
unfoldable pub clear_blocks : ℕ → Pmm → ℕ → Run Pmm
clear_blocks zero s blocks = ok s
clear_blocks (suc n) s blocks =
    let rest = clear_one s blocks >>= (λ s'. clear_blocks n s' (blocks + 1)) in
    if leb 0xfffff blocks then ok s else rest

unfoldable pub pmm_clear_region : Pmm → ℕ → ℕ → Run Pmm
pmm_clear_region s base size =
    if size == 0 then ok s else clear_blocks (end_block base size - base >>> 12) s (base >>> 12)

unfoldable pub set_blocks : ℕ → Memory → ℕ → Memory
set_blocks zero m blocks = m
set_blocks (suc n) m blocks =
    let rest = set_blocks n (paddm_set_bit m blocks) (blocks + 1) in
    if leb 0x1000 blocks then m else rest

unfoldable pub pmm_set_region : Pmm → ℕ → ℕ → Pmm
pmm_set_region s base size = if size == 0 then s else record s {
  low_bitmaps = set_blocks (end_block base size - base >>> 12) s.low_bitmaps (base >>> 12);
}

-- `for(size_t bit = 1; bit < page_alloc_num && contiguous; bit++)`, at frame `frame + bit`.
unfoldable pub set_frames : ℕ → Memory → ℕ → Memory
set_frames zero m frame = m
set_frames (suc n) m frame = set_frames n (paddm_set_bit m frame) (frame + 1)

-- The frame that the search found, or the free stack where it returned -1.
unfoldable pub take_frame : Pmm → PallocFlags → Option ℕ → ℕ × Pmm
take_frame s flags none =
    let (addr, stacks) = stack_pop32 s.stacks in (addr, record s { stacks = stacks })
take_frame s flags (some frame) =
    let first = paddm_set_bit s.low_bitmaps frame in
    let more : ℕ = if flags.contiguous then flags.page_alloc_num - 1 else 0 in
    (frame <<< 12, record s { low_bitmaps = set_frames more first (frame + 1) })

unfoldable pub kpmalloc : Pmm → PallocFlags → ℕ × Pmm
kpmalloc s flags = take_frame s flags (paddm_get_first_clear_bits s.low_bitmaps flags)

-- The static flags of `pmalloc` are all zero.
abbrev pub no_flags : PallocFlags
no_flags = record { align_64kb = false; low_mem = false; contiguous = false; page_alloc_num = 0 }

unfoldable pub pmalloc : Pmm → ℕ × Pmm
pmalloc s = kpmalloc s no_flags

unfoldable pub clear_frames : ℕ → Memory → ℕ → Memory
clear_frames zero m frame = m
clear_frames (suc n) m frame = clear_frames n (paddm_clear_bit m frame) (frame + 1)

abbrev pub poison_null : ℕ
poison_null = 0xfeeeeb1e

unfoldable pub pfree : Pmm → ℕ → ℕ → Run Pmm
pfree s base_address num_addresses =
    if base_address == poison_null
    then ok s
    else if base_address == ones32
    then panic
    else if leb 0x1000000 base_address && (num_addresses == 1)
    then (stack_push s.stacks base_address >>= (λ stacks. ok (record s { stacks = stacks })))
    else if ltb (base_address >>> 12) 4
    then ok s
    else ok
        (record s { low_bitmaps = clear_frames num_addresses s.low_bitmaps (base_address >>> 12) })

-- `multiboot_memory_map_t`; `pmm_init` casts both numbers to 32 bits.
pub record MmapEntry : Type 0 where
  pub addr : ℕ
  pub len : ℕ
  pub type : ℕ

-- The body of the loop of `pmm_init`: type 1 is available memory, 3 is ACPI reclaimable.
unfoldable pub add_entry : Pmm → MmapEntry → Run Pmm
add_entry s e =
    if (e.type == 3) || (e.type == 1)
    then pmm_clear_region s (u32 e.addr) (u32 e.len)
    else (if ltb 1 e.type then ok (pmm_set_region s (u32 e.addr) (u32 e.len)) else ok s)

unfoldable pub add_entries : Pmm → List MmapEntry → Run Pmm
add_entries s [] = ok s
add_entries s (e ∷ es) = add_entry s e >>= (λ s'. add_entries s' es)

-- The two `kmemset` calls: all blocks used, and the padding words.
abbrev pub blank_bitmaps : Memory
blank_bitmaps i = if ltb i 136 then ones32 else 0x2020_2020

-- The entries are those that the walk over the multiboot map meets.
unfoldable pub pmm_init : Pmm → List MmapEntry → Run Pmm
pmm_init s mmap = do
  s' ← add_entries (record s { low_bitmaps = blank_bitmaps }) mmap
  ok (record s' { is_inited = true })

abbrev pub pmm_is_inited : Pmm → Bool
pmm_is_inited s = s.is_inited
