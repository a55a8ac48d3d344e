-- ===== src/Vaddm/Tests.antt =====
-- Tests of the address manager of kernel/arch/i386/vmm.c, and its theorems at a concrete window.
use condor_fos.Base.{
  ◌*◌, ◌<◌, ◌≡◌, refl, some, arith, ◌==◌, if◌then◌else◌, Memory, test_bit, is_clear,
}
use condor_fos.Vaddm.{
  vaddm_is_free, scan_pages, scan_words, scan_super_bits, scan_superpages, and_then,
  vaddm_get_first_clear_bits, vmalloc, vfree,
}
use condor_fos.Vaddm.Pages.{page}
use condor_fos.Vaddm.Search.{vfree-vmalloc}

-- Page 0 is in use.
abbrev null_used : Memory
null_used i = if i == 0 then 1 else 0

first_clear : vaddm_get_first_clear_bits null_used 1 ≡ some 1
unfolding vaddm_get_first_clear_bits scan_superpages scan_super_bits scan_words scan_pages and_then
    vaddm_is_free test_bit is_clear
first_clear = refl

vfree-vmalloc_example :
    (1 < 1024)
    × (page null_used 1 ≡ 0)
    × ((vmalloc null_used 1).0 ≡ 1 * 4096)
    × (page (vmalloc null_used 1).1 1 ≡ (if 1 == 1 then 1 else page null_used 1))
    × (page (vfree (vmalloc null_used 1).1 (vmalloc null_used 1).0 1) 1 ≡ page null_used 1)
vfree-vmalloc_example = vfree-vmalloc null_used 1 1 (omega arith) first_clear
