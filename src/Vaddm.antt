-- ===== src/Vaddm.antt =====
-- kernel/arch/i386/vmm.c, the virtual address manager: `vmalloc`, `vfree` and the bitmaps. The
-- window at `VADDM_BASE` is a memory of 32-bit words: `page_bitmap` begins at word 0, and
-- `superpage_bitmap`, 0x21000 bytes further, at word 0x8400.
pub mod Pages
pub mod Search
pub mod Tests
use condor_fos.Base.{
  ℕ, zero, suc, ◌+◌, ◌-◌, ◌*◌, ◌/◌, ◌%◌, ◌^◌, Bool, false, not, ◌||◌, Option, none, some, ltb, leb,
  ◌==◌, if◌then◌else◌, Memory, write, ones32, u32, ◌<<<◌, ◌>>>◌, set_bit, clear_bit, is_clear,
  bit_or,
}
use condor_fos.Pmm.{words_full, Scan, found, failed, going, base_bit_of}
use condor_fos.Pmm.Stack.{Run, ok}
use condor_fos.Pmm.Alloc.{◌>>=◌, pmalloc, end_block}
use condor_fos.Vmm.{Vm, vmm_get_physical_addr, vmm_map_address, page_present, page_rw}

-- The index of `superpage_bitmap[i]` in the window.
abbrev pub superpage_word : ℕ → ℕ
superpage_word i = 0x8400 + i

-- `32768*32`, the last bit that the guards let pass.
abbrev pub last_bit : ℕ
last_bit = 32768 * 32

unfoldable pub check_super_region : Memory → ℕ → Bool
check_super_region m bit = words_full m ((bit / 32 * 32) >>> 5) 32

abbrev pub mark_page : Memory → ℕ → Memory
mark_page m bit = write m (bit >>> 5) (set_bit (m (bit >>> 5)) (bit % 32))

abbrev pub mark_superpage : Memory → ℕ → Memory
mark_superpage m bit =
    write m (superpage_word (bit >>> 15))
      (set_bit (m (superpage_word (bit >>> 15))) (bit >>> 10 % 32))

unfoldable pub vaddm_set_bit : Memory → ℕ → Memory
vaddm_set_bit m bit =
    if ltb last_bit bit
    then m
    else if check_super_region (mark_page m bit) bit
    then mark_superpage (mark_page m bit) bit
    else mark_page m bit

unfoldable pub vaddm_clear_bit : Memory → ℕ → Memory
vaddm_clear_bit m bit =
    if ltb last_bit bit
    then m
    else let m' = write m (bit >>> 5) (clear_bit (m (bit >>> 5)) (bit % 32)) in
      write m' (superpage_word (bit >>> 15))
        (clear_bit (m' (superpage_word (bit >>> 15))) (bit >>> 10 % 32))

-- The test `vaddm_get_bit(bit) == 0`.
unfoldable pub vaddm_is_free : Memory → ℕ → Bool
vaddm_is_free m bit = if ltb last_bit bit then false else is_clear (m (bit >>> 5)) (bit % 32)

module _ (m : Memory) (num_bits : ℕ) where
  -- `for(size_t bit = 0; bit < 32; bit++)`, with `n` rounds left, at page `at`.
  unfoldable pub scan_pages : ℕ → ℕ → ℕ → ℕ → Scan
  scan_pages zero at base num = going base num
  scan_pages (suc n) at base num =
      let base' = if num == 0 then at else base in
      let counted = scan_pages n (at + 1) base' (num + 1) in
      let reset = scan_pages n (at + 1) base 0 in
      if vaddm_is_free m at
      then (if leb num_bits (num + 1) then found base' else counted)
      else reset

  unfoldable pub and_then : Scan → (ℕ → ℕ → Scan) → Scan
  and_then (found b) next = found b
  and_then failed next = failed
  and_then (going base num) next = next base num

  -- `for(...; page_base < 32; page_base++)`, with `n` rounds left.
  unfoldable pub scan_words : ℕ → ℕ → ℕ → ℕ → Scan
  scan_words zero page_base base num = going base num
  scan_words (suc n) page_base base num =
      and_then
        (if m page_base == ones32 then going base num else scan_pages 32 (page_base * 32) base num)
        (λ base' num'. scan_words n (page_base + 1) base' num')

  -- `for(size_t super_bit = 0; super_bit < 32; super_bit++)`, with `n` rounds left.
  unfoldable pub scan_super_bits : ℕ → ℕ → ℕ → ℕ → ℕ → Scan
  scan_super_bits zero superpage_base super_bit base num = going base num
  scan_super_bits (suc n) superpage_base super_bit base num =
      let page_base = superpage_base * 32 + super_bit in
      and_then
        (if is_clear (m (superpage_word superpage_base)) super_bit
          then scan_words (32 - page_base) page_base base num
          else going base num)
        (λ base' num'. scan_super_bits n superpage_base (super_bit + 1) base' num')

  -- `for(size_t superpage_base = 0; superpage_base < 32; ...)`, with `n` rounds left.
  unfoldable pub scan_superpages : ℕ → ℕ → ℕ → ℕ → Scan
  scan_superpages zero superpage_base base num = going base num
  scan_superpages (suc n) superpage_base base num =
      and_then
        (if m (superpage_word superpage_base) == ones32
          then going base num
          else scan_super_bits 32 superpage_base 0 base num)
        (λ base' num'. scan_superpages n (superpage_base + 1) base' num')

  -- `none` is the -1.
  unfoldable pub vaddm_get_first_clear_bits : Option ℕ
  vaddm_get_first_clear_bits =
      if num_bits == 0 then none else base_bit_of (scan_superpages 32 0 0 0)

-- The loops of `vmalloc`, `vfree` and of the regions, with `n` rounds left.
unfoldable pub set_pages : ℕ → Memory → ℕ → Memory
set_pages zero m bit = m
set_pages (suc n) m bit = set_pages n (vaddm_set_bit m bit) (bit + 1)

unfoldable pub clear_pages : ℕ → Memory → ℕ → Memory
clear_pages zero m bit = m
clear_pages (suc n) m bit = clear_pages n (vaddm_clear_bit m bit) (bit + 1)

-- The pages that were found are marked; the -1 is an address by itself.
unfoldable pub take_pages : Memory → ℕ → Option ℕ → ℕ × Memory
take_pages m num_addresses none = (ones32, m)
take_pages m num_addresses (some frame) = (u32 (frame <<< 12), set_pages num_addresses m frame)

unfoldable pub vmalloc : Memory → ℕ → ℕ × Memory
vmalloc m num_addresses =
    if num_addresses == 0
    then (0, m)
    else take_pages m num_addresses (vaddm_get_first_clear_bits m num_addresses)

unfoldable pub vfree : Memory → ℕ → ℕ → Memory
vfree m base_address num_addresses =
    if (num_addresses == 0) || (base_address == ones32)
    then m
    else clear_pages num_addresses m (base_address >>> 12)

-- `page_bitmap[0] |= 0x1`.
abbrev pub keep_null : Memory → Memory
keep_null m = write m 0 (bit_or (m 0) 1)

-- The rounds of the region loops: they end at `(size + 0xFFF) >> 12`, without the base.
abbrev pub region_rounds : ℕ → ℕ → ℕ
region_rounds base size = end_block 0 size - base >>> 12

unfoldable pub vaddm_clear_region : Memory → ℕ → ℕ → Memory
vaddm_clear_region m base size =
    if size == 0 then m else keep_null (clear_pages (region_rounds base size) m (base >>> 12))

unfoldable pub vaddm_set_region : Memory → ℕ → ℕ → Memory
vaddm_set_region m base size =
    if size == 0 then m else keep_null (set_pages (region_rounds base size) m (base >>> 12))

abbrev pub vaddm_base : ℕ
vaddm_base = 0xc800_0000

module _ (kernel_base : ℕ) where
  -- `vmm_map_address(VADDM_BASE + (i << 12), pmalloc(), ...)`, with `n` rounds left.
  unfoldable pub map_window : ℕ → Vm → ℕ → Run Vm
  map_window zero vm i = ok vm
  map_window (suc n) vm i =
      let (addr, pmm) = pmalloc vm.pmm in
      vmm_map_address kernel_base (record vm { pmm = pmm }) (vaddm_base + (i <<< 12)) addr
        (bit_or page_present page_rw)
      >>= (λ (ret, vm'). map_window n vm' (i + 1))

  -- The mapping half of `vaddm_init`.
  unfoldable pub map_bitmaps : Vm → Run Vm
  map_bitmaps vm =
      if vmm_get_physical_addr vm vaddm_base == 0
      then (map_window 34 vm 0 >>= (λ vm'.
          vmm_map_address kernel_base vm' (vaddm_base + 0x22000) 0 page_present
          >>= (λ (ret, vm''). ok vm'')))
      else ok vm

  -- `kmemset` clears 0x21000 bytes, which is `page_bitmap` and not `superpage_bitmap`.
  unfoldable pub init_bitmaps : Memory → Memory
  init_bitmaps m =
      let blank : Memory = λ i. if ltb i 0x8400 then 0 else m i in
      let kernel = vaddm_set_region blank kernel_base (u32 (ones32 + 2 ^ 32 - kernel_base)) in
      keep_null (vaddm_set_region kernel 0 0x100000)

  -- The memory is what the window holds once it is mapped.
  unfoldable pub vaddm_init : Vm → Memory → Run (Vm × Memory)
  vaddm_init vm m =
      if not vm.pmm.is_inited
      then ok (vm, m)
      else (map_bitmaps vm >>= (λ vm'. ok (vm', init_bitmaps m)))
