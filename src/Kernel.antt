-- ===== src/Kernel.antt =====
-- kernel/kernel/kernel.c: the part of `kinit` that reserves memory, and the loop of `kmain`. The
-- rest of `kinit` is not modelled. The addresses of the kernel are given by the linker.
pub mod Reserved
pub mod Body
pub mod Typed
pub mod Tests
use condor_fos.Base.{
  ℕ, ◌+◌, ◌-◌, ◌%◌, ◌^◌, Bool, not, Option, some, List, [], ◌∷◌, ◌==◌, if◌then◌else◌, Memory, u32,
  bit_or, bit_and,
}
use condor_fos.Base.Options.{◌>>=◌}
use condor_fos.Pmm.Stack.{Run, ok, panic}
use condor_fos.Pmm.Alloc.{Pmm, MmapEntry, pmm_init, pmm_set_region}
use condor_fos.Vmm.{Vm, vmm_get_physical_addr}
use condor_fos.Tty.{Terminal}
use condor_fos.Format.{printf}
use condor_fos.Keyboard.{Keyboard, keyboard_read_key, keyboard_get_key_state, keyboard_get_char}

abbrev pub kernel_base : ℕ
kernel_base = 0xc0000000

-- `multiboot_module_t`, less its padding.
pub record BootModule : Type 0 where
  pub mod_start : ℕ
  pub mod_end : ℕ
  pub cmdline : ℕ

-- What `kinit` reads of `multiboot_info_t`: the map as the entries that the walk meets, and the
-- modules as the array at `mods_addr`.
pub record BootInfo : Type 0 where
  pub flags : ℕ
  pub mmap : List MmapEntry
  pub mods_addr : ℕ
  pub modules : List BootModule

abbrev pub set_region : Vm → (base size : ℕ) → Vm
set_region s base size = record s { pmm = pmm_set_region s.pmm base size }

-- The body of the loop over the modules, for the entry at the address `at`.
unfoldable pub reserve_module : Vm → (at : ℕ) → BootModule → Vm
reserve_module s at entry =
    let s1 = set_region s (vmm_get_physical_addr s at) 16 in
    let s2 = set_region s1 entry.mod_start (u32 (2 ^ 32 + entry.mod_start - entry.mod_end)) in
    set_region s2 entry.cmdline 1

unfoldable pub reserve_modules : Vm → (at : ℕ) → List BootModule → Vm
reserve_modules s at [] = s
reserve_modules s at (entry ∷ entries) =
    reserve_modules (reserve_module s at entry) (at + 16) entries

-- The regions that are in use: the kernel, whose end is given as its size, the information of the
-- boot loader and the modules. `multiboot_info_t` has 120 bytes.
unfoldable pub reserve_boot : Vm → (kernel_start kernel_end info_struct : ℕ) → BootInfo → Vm
reserve_boot s kernel_start kernel_end info_struct info =
    let s1 = set_region s (kernel_start - kernel_base) (kernel_end - kernel_base) in
    let s2 = set_region s1 (info_struct % 2 ^ 30) 120 in
    reserve_modules s2 (bit_or info.mods_addr kernel_base) info.modules

-- `if(info_struct->flags & MULTIBOOT_INFO_MEM_MAP)`.
unfoldable pub init_memory : Vm → (kernel_start kernel_end info_struct : ℕ) → BootInfo → Run Vm
init_memory s kernel_start kernel_end info_struct info =
    if bit_and info.flags 0x40 == 0 then ok s else elim (pmm_init s.pmm info.mmap) [
      | ok pmm ↦ ok (reserve_boot (record s { pmm = pmm }) kernel_start kernel_end info_struct info)
      | panic ↦ panic
    ]

-- The variables of the loop of `kmain`, with the terminal.
pub record Echo : Type 0 where
  pub keyboard : Keyboard
  pub last_state : ℕ
  pub terminal : Terminal

-- `percent_c` is the address of the literal "%c" in the memory `m`.
module _ (outside : ℕ → ℕ) (m : Memory) (no_amount no_number : ℕ) (buffer : Memory)
    (fuel percent_c : ℕ) where
  -- `if(keyboard_getChar(new_char)) printf("%c", keyboard_getChar(new_char));`.
  unfoldable pub print_key : Keyboard → (new_char : ℕ) → Terminal → Option Terminal
  print_key kb new_char t =
      let char = keyboard_get_char kb new_char in
      if char == 0
      then some t
      else (printf outside m (λ i. char) no_amount no_number buffer fuel percent_c t
          >>= (λ (written, t'). some t'))

  -- One round of the loop.
  unfoldable pub kmain_round : Echo → Option Echo
  kmain_round e =
      let (new_char, kb1) = keyboard_read_key e.keyboard in
      let (value, kb2) = keyboard_get_key_state kb1 new_char in
      let (after, kb3) = keyboard_get_key_state kb2 new_char in
      if new_char == 0
      then some (record e { keyboard = kb1; last_state = 0 })
      else if value == e.last_state
      then some (record e { keyboard = kb2; last_state = 0 })
      else (print_key kb2 new_char e.terminal
          >>= (λ t. some (record { keyboard = kb3; last_state = after; terminal = t })))
