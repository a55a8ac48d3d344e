-- ===== src/Vmm/Mapping.antt =====
-- `vmm_map_address`, `vmm_unmap_address` and `vmm_get_physical_addr` against a map from pages to
-- page addresses.
use condor_fos.Base.{
  ℕ, ◌+◌, ◌*◌, ◌/◌, ◌%◌, ◌^◌, ◌<◌, ◌≡◌, ◌≢◌, refl, true, false, not, ◌&&◌, arith, ◌==◌,
  if◌then◌else◌, ones32, bit_or-add, Bool-cases, inl, inr, ◌∙◌,
}
use condor_fos.Pmm.Stack.{ok}
use condor_fos.Vmm.{
  Vm, read_table, write_table, is_present, pt_index, entry_of, wants_remap, vmm_get_physical_addr,
  sumap_page, ensure_table, set_entry, smap_page, vmm_map_address,
}
use condor_fos.Vmm.Paging.{
  root, IsPaging, HasTable, directory_present, entry_at, lookup_lem, root-write_table,
  IsPaging-write_table, entry_at-write_table,
}

-- Two pages that do not stand in one table under two slots of the directory.
abbrev pub Separate : Vm → ℕ → ℕ → Type 0
Separate s l laddr =
    l / 0x40_0000 ≢ laddr / 0x40_0000
    → s.mem (root s) (l / 0x40_0000) / 4096 ≢ s.mem (root s) (laddr / 0x40_0000) / 4096

module _ (s : Vm) (w : IsPaging s) (laddr : ℕ) (t : HasTable s laddr) where
  -- The lookup of `l` where the directory is as before and the entry is `v` on the page written.
  cases_on_page :
      (v l : ℕ) {directory entry : ℕ}
      → l < 2 ^ 32
      → directory ≡ s.mem (root s) (l / 0x40_0000)
      → entry ≡ (if (l / 4096) == (laddr / 4096) then v else entry_at s l)
      → (if is_present directory && is_present entry then entry / 4096 * 4096 + l % 4096 else 0) ≡ (
          if (l / 4096) == (laddr / 4096)
          then (if is_present v then v / 4096 * 4096 + l % 4096 else 0)
          else vmm_get_physical_addr s l)
  cases_on_page v l h d e = elim (Bool-cases ((l / 4096) == (laddr / 4096))) [
    | inl same ↦
        let slot : l / 0x40_0000 ≡ laddr / 0x40_0000 = ground arith in
        let present : is_present (s.mem (root s) (l / 0x40_0000)) ≡ true =
          ground (arith, directory_present s w laddr t 0) in
        rw same (ground arith)
    | inr other ↦ rw other (ground (arith, lookup_lem s w l h))
  ]

  -- A lookup after a write of the entry of `laddr`.
  lookup-write_table :
      (v l : ℕ)
      → l < 2 ^ 32
      → Separate s l laddr
      → vmm_get_physical_addr (write_table s (pt_index laddr) v) l ≡ (
          if (l / 4096) == (laddr / 4096)
          then (if is_present v then v / 4096 * 4096 + l % 4096 else 0)
          else vmm_get_physical_addr s l)
  unfolding write_table
  lookup-write_table v l h separate =
      lookup_lem (write_table s (pt_index laddr) v) (IsPaging-write_table s w laddr t v) l h
      ∙ cases_on_page v l h (root-write_table s w laddr t v (l / 0x40_0000))
          (entry_at-write_table s w laddr t v l separate)

module _ (kernel_base : ℕ) (s : Vm) (w : IsPaging s) (laddr : ℕ) (t : HasTable s laddr)
    (paddr flags : ℕ) (valid : paddr ≢ ones32) (word : flags < 2 ^ 32) where
  step :
      vmm_map_address kernel_base s laddr paddr flags
      ≡ ok (set_entry kernel_base s laddr paddr flags)
  unfolding vmm_map_address smap_page ensure_table
  step = let below = t.below in let present = t.present in ground arith

  -- Below 0xFFC00000 and with a page table in place, `vmm_map_address` of a frame other than
  -- 0xFFFFFFFF at a page that is mapped already returns 1 and changes nothing unless `PAGE_REMAP` is given.
  pub vmm_map_address-taken :
      is_present (read_table s (pt_index laddr)) ≡ true
      → wants_remap flags ≡ false
      → vmm_map_address kernel_base s laddr paddr flags ≡ ok (1, s)
  unfolding set_entry
  vmm_map_address-taken mapped keep = rw step (ground arith)

  -- Below 0xFFC00000 and with a page table in place, `vmm_map_address` of a frame other than
  -- 0xFFFFFFFF with `PAGE_PRESENT`, at a page that is not mapped or with `PAGE_REMAP`, returns 0 and keeps the
  -- directory well formed. A lookup then gives the new frame for every address of the page, and
  -- what it gave before for an address of another page, unless two slots share one table.
  pub vmm_map_address-lookup :
      (l : ℕ)
      → l < 2 ^ 32
      → Separate s l laddr
      → (is_present (read_table s (pt_index laddr)) && not (wants_remap flags)) ≡ false
      → flags % 2 ≡ 1
      → (s' : Vm) × (vmm_map_address kernel_base s laddr paddr flags ≡ ok (0, s'))
        × IsPaging s'
        × (vmm_get_physical_addr s' l ≡ (
            if (l / 4096) == (laddr / 4096)
            then paddr / 4096 * 4096 + l % 4096
            else vmm_get_physical_addr s l))
  unfolding set_entry
  vmm_map_address-lookup l h separate free present =
      let entry = entry_of paddr flags in
      let sum : entry ≡ paddr / 4096 * 4096 + flags % 4096 =
        bit_or-add 12 (paddr / 4096) (flags % 4096) (omega arith) in
      let odd : is_present entry ≡ true = ground arith in
      let same : entry / 4096 * 4096 ≡ paddr / 4096 * 4096 = omega arith in
      (
        write_table s (pt_index laddr) entry,
        rw step (rw free refl),
        IsPaging-write_table s w laddr t entry,
        ground (arith, lookup-write_table s w laddr t entry l h separate, odd, same),
      )

module _ (s : Vm) (w : IsPaging s) (laddr : ℕ) (t : HasTable s laddr) where
  -- Below 0xFFC00000, `sumap_page` of a mapped page gives the address of its frame and keeps the directory well
  -- formed. A lookup then gives 0 for the page, and what it gave before for an address of another
  -- page, unless two slots share one table.
  pub sumap_page_lem :
      (l : ℕ)
      → l < 2 ^ 32
      → Separate s l laddr
      → is_present (read_table s (pt_index laddr)) ≡ true
      → ((sumap_page s laddr).0 ≡ read_table s (pt_index laddr) / 4096 * 4096)
        × IsPaging (sumap_page s laddr).1
        × (vmm_get_physical_addr (sumap_page s laddr).1 l
            ≡ (if (l / 4096) == (laddr / 4096) then 0 else vmm_get_physical_addr s l))
  unfolding sumap_page
  sumap_page_lem l h separate mapped =
      let present = t.present in
      rw (present, mapped)
        (refl, IsPaging-write_table s w laddr t 0, lookup-write_table s w laddr t 0 l h separate)
