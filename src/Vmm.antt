-- ===== src/Vmm.antt =====
-- kernel/arch/i386/vmm.c, the paging part: `smap_page`, `sumap_page`, the page-fault handler and
-- the functions on them. The tables are read and written through the recursive slot, as the code
-- does: `PAGE_TABLE_BASE[i]` lies at 0xFFC00000 + 4 * i, so the walk of the processor goes
-- through directory entry 1023 and entry `i / 1024` to word `i % 1024`, and `PAGE_DIRECTORY[i]`
-- is `PAGE_TABLE_BASE[1023 * 1024 + i]`. Each change is followed by `invlpg`, so no stale
-- translation is modelled.
pub mod Paging
pub mod Mapping
pub mod Tests
use condor_fos.Base.{
  ℕ, ◌+◌, ◌*◌, ◌/◌, ◌%◌, Bool, not, ◌&&◌, leb, ◌==◌, if◌then◌else◌, Memory, write, ones32, u32,
  bit_or,
}
use condor_fos.Pmm.Stack.{Run, ok, panic}
use condor_fos.Pmm.Alloc.{Pmm, ◌>>=◌, pmalloc, pfree, poison_null}

-- Physical memory by frame and word, the register CR3, and the page allocator.
pub record Vm : Type 0 where
  pub mem : ℕ → Memory
  pub cr3 : ℕ
  pub pmm : Pmm

abbrev pub page_present : ℕ
page_present = 1

abbrev pub page_rw : ℕ
page_rw = 2

-- The frame in which the walk finds `PAGE_TABLE_BASE[i]`.
abbrev pub table_frame : Vm → ℕ → ℕ
table_frame s i = s.mem (s.mem (s.cr3 / 4096) 1023 / 4096) (i / 1024) / 4096

unfoldable pub read_table : Vm → ℕ → ℕ
read_table s i = s.mem (table_frame s i) (i % 1024)

unfoldable pub write_table : Vm → ℕ → ℕ → Vm
write_table s i v = record s {
  mem = λ frame. if frame == table_frame s i then write (s.mem frame) (i % 1024) v else s.mem frame;
}

-- `memset` of the 4096 bytes around `PAGE_TABLE_BASE[i]` to 0.
unfoldable pub clear_table : Vm → ℕ → Vm
clear_table s i = record s {
  mem = λ frame. if frame == table_frame s i then (λ word. 0) else s.mem frame;
}

abbrev pub directory_index : ℕ → ℕ
directory_index i = 1023 * 1024 + i

unfoldable pub read_directory : Vm → ℕ → ℕ
unfolding read_table
read_directory s i = read_table s (directory_index i)

unfoldable pub write_directory : Vm → ℕ → ℕ → Vm
unfolding write_table
write_directory s i v = write_table s (directory_index i) v

-- The test `entry & PAGE_PRESENT`.
abbrev pub is_present : ℕ → Bool
is_present entry = entry % 2 == 1

-- `laddr >> 22` and `laddr >> 12`.
abbrev pub pd_index : ℕ → ℕ
pd_index laddr = laddr / 0x40_0000

abbrev pub pt_index : ℕ → ℕ
pt_index laddr = laddr / 4096

-- `(paddr & PAGE_ADDR_MASK) | (flags & PAGE_FLAG_MASK)`.
abbrev pub entry_of : ℕ → ℕ → ℕ
entry_of paddr flags = bit_or (paddr / 4096 * 4096) (flags % 4096)

-- The test `flags & PAGE_REMAP`, and the bit `flags & PAGE_USER`.
abbrev pub wants_remap : ℕ → Bool
wants_remap flags = flags / 0x1000 % 2 == 1

abbrev pub user_bit : ℕ → ℕ
user_bit flags = flags / 4 % 2 * 4

-- `vmm_get_physical_addr`.
unfoldable pub vmm_get_physical_addr : Vm → ℕ → ℕ
vmm_get_physical_addr s laddr =
    if not (is_present (read_directory s (pd_index laddr)))
    then 0
    else if not (is_present (read_table s (pt_index laddr)))
    then 0
    else bit_or (read_table s (pt_index laddr) / 4096 * 4096) (laddr % 4096)

-- `sumap_page`.
unfoldable pub sumap_page : Vm → ℕ → ℕ × Vm
sumap_page s laddr =
    if not (is_present (read_directory s (pd_index laddr)))
    then (0, s)
    else if not (is_present (read_table s (pt_index laddr)))
    then (0, s)
    else (read_table s (pt_index laddr) / 4096 * 4096, write_table s (pt_index laddr) 0)

-- The frees of pages go to the allocator.
unfoldable pub free_page : Vm → ℕ → Run Vm
free_page s addr = do pmm ← pfree s.pmm addr 1; ok (record s { pmm = pmm })

unfoldable pub vmm_unmap_address : Vm → ℕ → Run Vm
vmm_unmap_address s laddr = let (addr, s') = sumap_page s laddr in free_page s' addr

-- `kernel_base` is the word that C reads at the symbol `KERNEL_VIRTUAL_BASE`.
module _ (kernel_base : ℕ) where
  -- The entry for a missing page table, from the allocator or, before it is ready, frame 1.
  unfoldable pub new_table : Vm → ℕ → ℕ → ℕ × Vm
  new_table s laddr flags =
      if s.pmm.is_inited
      then (let (addr, pmm) = pmalloc s.pmm in
          (bit_or addr (if leb kernel_base laddr then 3 else 7), record s { pmm = pmm }))
      else (bit_or (bit_or 0x1000 3) (user_bit flags), s)

  -- The first `if` of `smap_page`.
  unfoldable pub ensure_table : Vm → ℕ → ℕ → Vm
  ensure_table s laddr flags =
      if is_present (read_directory s (pd_index laddr))
      then s
      else (let (entry, s') = new_table s laddr flags in
          clear_table (write_directory s' (pd_index laddr) entry) (pt_index laddr))

  -- The rest of it; the number is the return value.
  unfoldable pub set_entry : Vm → ℕ → ℕ → ℕ → ℕ × Vm
  set_entry s laddr paddr flags =
      if is_present (read_table s (pt_index laddr)) && not (wants_remap flags)
      then (1, s)
      else (0, write_table s (pt_index laddr) (entry_of paddr flags))

  unfoldable pub smap_page : Vm → ℕ → ℕ → ℕ → ℕ × Vm
  smap_page s laddr paddr flags = set_entry (ensure_table s laddr flags) laddr paddr flags

  unfoldable pub vmm_map_address : Vm → ℕ → ℕ → ℕ → Run (ℕ × Vm)
  vmm_map_address s laddr paddr flags =
      if paddr == ones32
      then ok (1, s)
      else if laddr == ones32
      then (free_page s paddr >>= (λ s'. ok (2, s')))
      else ok (smap_page s laddr paddr (u32 flags))

  -- `pf_handler`, with the faulting address that it reads from CR2; a `kspanic` does not return.
  unfoldable pub pf_handler : Vm → (cr2 err_code : ℕ) → Run Vm
  pf_handler s cr2 err_code =
      if cr2 == poison_null
      then panic
      else if err_code / 4 % 2 == 0
      then (if err_code % 2 == 0
          then (if not s.pmm.is_inited
              then panic
              else if not (vmm_get_physical_addr s cr2 == 0)
              then ok (write_table s (pt_index cr2) (bit_or (read_table s (pt_index cr2)) 1))
              else (let (addr, pmm) = pmalloc s.pmm in
                  ok (smap_page (record s { pmm = pmm }) cr2 addr (bit_or page_present page_rw)).1))
          else if err_code / 2 % 2 * 2 == 1
          then panic
          else ok s)
      else (if leb kernel_base cr2 then panic else ok s)

-- The guard of `vmm_switch_page_base` reads CR2.
unfoldable pub vmm_switch_page_base : Vm → (cr2 page_directory_base : ℕ) → Vm
vmm_switch_page_base s cr2 page_directory_base =
    if page_directory_base == (cr2 / 4096 * 4096) then s else record s { cr3 = page_directory_base }

abbrev pub vmm_get_current_page_base : Vm → ℕ
vmm_get_current_page_base s = s.cr3 / 4096 * 4096
