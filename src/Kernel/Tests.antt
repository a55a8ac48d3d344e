-- ===== src/Kernel/Tests.antt =====
-- The theorems on the start of the kernel at concrete states.
use condor_fos.Base.{
  ◌/◌, ◌≡◌, refl, arith, inl, true, ◌||◌, some, [], ◌∷◌, ◌==◌, if◌then◌else◌, get_or, Memory, pos,
}
use condor_fos.Base.Options.{◌>>=◌}
use condor_fos.Tty.{Terminal}
use condor_fos.Pmm.Blocks.{block}
use condor_fos.Pmm.Boot.{Sound}
use condor_fos.Pmm.Regions.{Succeeds}
use condor_fos.Vmm.{Vm, vmm_get_physical_addr, read_directory, read_table}
use condor_fos.Keyboard.{Keyboard, idle, no_status, default_keymap, keyboard_read_key}
use condor_fos.Keyboard.Keys.{key_a, key_b}
use condor_fos.Kernel.{BootModule, BootInfo, reserve_module, init_memory, kmain_round}
use condor_fos.Kernel.Reserved.{IsUsed, init_memory_lem}
use condor_fos.Kernel.Body.{covers, reserve_module_lem}
use condor_fos.Kernel.Typed.{echoed, kmain_round_lem}

-- The directory is frame 1 and maps no other table.
abbrev machine : Vm
machine = record {
  mem = λ frame i. if frame == 1 then (if i == 1023 then 0x1003 else 0) else 0;
  cr3 = 0x1000;
  pmm = record {
    low_bitmaps = λ i. 0;
    stacks = record { page32 = 0; page64 = 0; frames = λ page i. 0; stack32_index = pos 0 };
    is_inited = true;
  };
}

-- 1 MB to 16 MB are available, and the kernel lies in the first pages of that.
abbrev info : BootInfo
info = record {
  flags = 0x48;
  mmap = record { addr = 0x100000; len = 0xf00000; type = 1 } ∷ [];
  mods_addr = 0x10000;
  modules = [];
}

init_memory_lem_example :
    Succeeds
      (λ s'. Sound s'.pmm × IsUsed s'.pmm 0x101)
      (init_memory machine 0xc0100000 0xc0105000 0x9000 info)
init_memory_lem_example =
    init_memory_lem machine 0xc0100000 0xc0105000 0x9000 info 0x101 (omega arith) (omega arith)
      (omega arith) (omega arith) (omega arith) (inl (omega arith, omega arith))

-- A module of three pages at 3 MB.
abbrev entry : BootModule
entry = record { mod_start = 0x300000; mod_end = 0x303000; cmdline = 0x11000 }

unmapped : vmm_get_physical_addr machine 0xc0010000 ≡ 0
unfolding vmm_get_physical_addr read_directory read_table
unmapped = refl

reserve_module_lem_example :
    block (reserve_module machine 0xc0010000 entry).pmm.low_bitmaps 0x301 ≡ (
      if covers (vmm_get_physical_addr machine 0xc0010000) 16 0x301 || (0x301 == 0x11000 / 4096)
      then 1
      else block machine.pmm.low_bitmaps 0x301)
reserve_module_lem_example =
    reserve_module_lem machine 0xc0010000 entry 0x301 (omega arith) refl (omega arith) (omega arith)
      (omega arith) (rw unmapped (omega arith)) (omega arith)

-- A and B have been pressed, B last.
abbrev two_keys : Keyboard
two_keys = record {
  key_states = λ i. if (i == key_a) || (i == key_b) then 1 else 0;
  buffer_index = 2;
  key_buffer = λ i. if i == 0 then key_a else key_b;
  state = idle;
  status = no_status;
  last_caps_state = 0;
  mapping_base = default_keymap;
}

abbrev screen : Terminal
screen = record {
  column = 0;
  row = 0;
  column_store = 0;
  row_store = 0;
  should_update_cursor = 0;
  default_color = 7;
  buffer = λ i. 0;
  ports = [];
}

abbrev percent_c : Memory
percent_c i = get_or (37 ∷ 99 ∷ []) i 0

first_read : keyboard_read_key two_keys ≡ (key_b, record two_keys { buffer_index = 1 })
unfolding keyboard_read_key
first_read = refl

second_read :
    keyboard_read_key (record two_keys { buffer_index = 1 })
    ≡ (key_a, record two_keys { buffer_index = 0 })
unfolding keyboard_read_key
second_read = refl

kmain_round_lem_example :
    (kmain_round
        (λ c. 0)
        percent_c
        0
        0
        (λ i. 0)
        40
        0
        (record { keyboard = two_keys; last_state = 0; terminal = screen })
      >>= kmain_round (λ c. 0) percent_c 0 0 (λ i. 0) 40 0)
    ≡ some (record {
      keyboard = record two_keys { buffer_index = 0 };
      last_state = 0;
      terminal = echoed (record two_keys { buffer_index = 1 }) key_b screen;
    })
kmain_round_lem_example =
    kmain_round_lem (λ c. 0) percent_c 0 0 (λ i. 0) 40 0
      (record { keyboard = two_keys; last_state = 0; terminal = screen }) key_b key_a 1
      (record two_keys { buffer_index = 1 }) (record two_keys { buffer_index = 0 }) (omega arith)
      refl first_read second_read (omega arith) (omega arith) refl refl (omega arith) (omega arith)
