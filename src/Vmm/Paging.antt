-- ===== src/Vmm/Paging.antt =====
-- Mapping, lookup and unmapping agree: the page tables as a partial map from pages to frames.
use condor_fos.Base.{
  ℕ, ◌+◌, ◌*◌, ◌/◌, ◌%◌, ◌^◌, ◌<◌, ◌≡◌, ◌≢◌, true, ◌&&◌, arith, ◌==◌, if◌then◌else◌, bit_or-add, ap,
  sym, ◌∙◌,
}
use condor_fos.Vmm.{
  Vm, table_frame, read_table, write_table, read_directory, is_present, pd_index, pt_index,
  vmm_get_physical_addr, directory_index,
}

abbrev pub root : Vm → ℕ
root s = s.cr3 / 4096

-- Directory entry 1023 is the directory itself, and no other present entry is.
pub record IsPaging (s : Vm) : Type 0 where
  pub recursive : s.mem (root s) 1023 / 4096 ≡ root s
  pub recursive_present : s.mem (root s) 1023 % 2 ≡ 1
  pub apart : (i : ℕ) → i < 1023 → s.mem (root s) i % 2 ≡ 1 → s.mem (root s) i / 4096 ≢ root s

module _ (s : Vm) (w : IsPaging s) where
  table_frame-eq : (i : ℕ) → table_frame s i ≡ s.mem (root s) (i / 1024) / 4096
  table_frame-eq i = ap (λ (f : ℕ). s.mem f (i / 1024) / 4096) w.recursive

  read_directory-eq : (i : ℕ) → i < 1024 → read_directory s i ≡ s.mem (root s) i
  unfolding read_directory
  read_directory-eq i h =
      let slot : directory_index i / 1024 ≡ 1023 = omega arith in
      let word : directory_index i % 1024 ≡ i = omega arith in
      let frame : table_frame s (directory_index i) ≡ root s =
        table_frame-eq (directory_index i)
        ∙ ap (λ (k : ℕ). s.mem (root s) k / 4096) slot
        ∙ w.recursive in
      ap (λ (f : ℕ). s.mem f (directory_index i % 1024)) frame ∙ ap (s.mem (root s)) word

  read_table-eq : (i : ℕ) → read_table s i ≡ s.mem (s.mem (root s) (i / 1024) / 4096) (i % 1024)
  unfolding read_table
  read_table-eq i = ap (λ (f : ℕ). s.mem f (i % 1024)) (table_frame-eq i)

-- A page below the recursive window whose directory entry is present.
pub record HasTable (s : Vm) (laddr : ℕ) : Type 0 where
  pub below : laddr < 0xffc0_0000
  pub present : is_present (read_directory s (pd_index laddr)) ≡ true

-- The entry of `laddr`, in the table of its directory entry.
abbrev pub entry_at : Vm → ℕ → ℕ
entry_at s laddr = s.mem (s.mem (root s) (laddr / 0x40_0000) / 4096) (laddr / 4096 % 1024)

module _ (s : Vm) (w : IsPaging s) where
  pub read_table-entry : (laddr : ℕ) → read_table s (pt_index laddr) ≡ entry_at s laddr
  read_table-entry laddr =
      let slot : laddr / 4096 / 1024 ≡ laddr / 0x40_0000 = omega arith in
      read_table-eq s w (laddr / 4096)
      ∙ ap (λ (k : ℕ). s.mem (s.mem (root s) k / 4096) (laddr / 4096 % 1024)) slot

  -- What the lookup gives, from the directory and the table.
  pub lookup_lem :
      (laddr : ℕ)
      → laddr < 2 ^ 32
      → vmm_get_physical_addr s laddr ≡ (
          if is_present (s.mem (root s) (laddr / 0x40_0000)) && is_present (entry_at s laddr)
          then entry_at s laddr / 4096 * 4096 + laddr % 4096
          else 0)
  unfolding vmm_get_physical_addr
  lookup_lem laddr h = ground (
    arith,
    read_directory-eq s w (laddr / 0x40_0000) (omega arith),
    read_table-entry laddr,
    bit_or-add 12 (entry_at s laddr / 4096) (laddr % 4096) (omega arith),
  )

  module _ (laddr : ℕ) (t : HasTable s laddr) (v : ℕ) where
    abbrev after : Vm
    after = write_table s (pt_index laddr) v

    pub directory_present : s.mem (root s) (laddr / 0x40_0000) % 2 ≡ 1
    directory_present =
        let below = t.below in
        let present = t.present in ground (arith, read_directory-eq s w (laddr / 0x40_0000))

    frame-eq : table_frame s (pt_index laddr) ≡ s.mem (root s) (laddr / 0x40_0000) / 4096
    frame-eq =
        let slot : laddr / 4096 / 1024 ≡ laddr / 0x40_0000 = omega arith in
        table_frame-eq s w (laddr / 4096) ∙ ap (λ (k : ℕ). s.mem (root s) k / 4096) slot

    frame-ne-root : table_frame s (pt_index laddr) ≢ root s
    frame-ne-root e =
        let below = t.below in
        w.apart (laddr / 0x40_0000) (omega arith) directory_present (sym frame-eq ∙ e)

    -- A write to a page table leaves the directory alone.
    pub root-write_table : (i : ℕ) → after.mem (root s) i ≡ s.mem (root s) i
    unfolding write_table
    root-write_table i = let ne = frame-ne-root in ground arith

    pub IsPaging-write_table : IsPaging after
    unfolding write_table
    IsPaging-write_table = record {
      recursive = ap (λ (e : ℕ). e / 4096) (root-write_table 1023) ∙ w.recursive;
      recursive_present = ap (λ (e : ℕ). e % 2) (root-write_table 1023) ∙ w.recursive_present;
      apart =
          λ i below present. let same = root-write_table i in ground (arith, w.apart i below, same);
    }

    -- The entry of `l` after the write, if `l` has not the same table under another slot.
    pub entry_at-write_table :
        (l : ℕ)
        → (l / 0x40_0000 ≢ laddr / 0x40_0000
            → s.mem (root s) (l / 0x40_0000) / 4096 ≢ s.mem (root s) (laddr / 0x40_0000) / 4096)
        → entry_at after l ≡ (if (l / 4096) == (laddr / 4096) then v else entry_at s l)
    unfolding write_table
    entry_at-write_table l separate =
        ap (λ (e : ℕ). after.mem (e / 4096) (l / 4096 % 1024)) (root-write_table (l / 0x40_0000))
        ∙ ground (arith, frame-eq, separate)
