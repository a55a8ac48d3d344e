-- ===== src/Keyboard/Tests.antt =====
-- Tests of kernel/kernel/keyboard.c, and its theorems at concrete keyboards.
use condor_fos.Base.{ℕ, ◌≡◌, refl, true, not, ◌||◌, arith, ◌==◌, inr}
use condor_fos.Keyboard.Keys.{key_a}
use condor_fos.Keyboard.Controls.{key_lshift, key_rshift}
use condor_fos.Keyboard.{
  Keyboard, idle, no_status, default_keymap, keyboard_read_key, keyboard_isr, keyboard_get_char,
  keyboard_reset_state, state_up,
}
use condor_fos.Keyboard.Scan.{keyboard_isr-key}
use condor_fos.Keyboard.Caps.{keyboard_isr-caps}
use condor_fos.Keyboard.Sound.{IsSound}
use condor_fos.Keyboard.Reachable.{reset, scanned, read, Reachable-IsSound}

abbrev none_outside : ℕ → ℕ
none_outside i = 0

abbrev ready : Keyboard
ready = record {
  key_states = λ i. 0;
  buffer_index = 0xffff;
  key_buffer = λ i. 0;
  state = idle;
  status = no_status;
  last_caps_state = 0;
  mapping_base = default_keymap;
}

ready-IsSound : IsSound ready
ready-IsSound = record {
  valid = λ k h. omega arith;
  index = inr refl;
  synced = (refl, refl, refl, refl, refl, refl, refl);
  decoder = refl;
}

typed : keyboard_get_char ready key_a ≡ 97
unfolding keyboard_get_char
typed = refl

-- 0x1C is the scan code of A.
keyboard_isr-key_example :
    ((keyboard_isr none_outside none_outside ready 0x1c).key_states key_a ≡ 1)
    × ((keyboard_isr none_outside none_outside ready 0x1c).buffer_index ≡ 1)
    × ((keyboard_isr none_outside none_outside ready 0x1c).key_buffer 0 ≡ key_a)
    × ((keyboard_isr none_outside none_outside ready 0x1c).state ≡ idle)
    × ((keyboard_isr none_outside none_outside ready 0x1c).status.shift ≡ (
        not ((keyboard_isr none_outside none_outside ready 0x1c).key_states key_lshift == state_up)
        || not (
            (keyboard_isr none_outside none_outside ready 0x1c).key_states key_rshift == state_up)))
keyboard_isr-key_example =
    keyboard_isr-key none_outside none_outside ready ready-IsSound.valid 0x1c
      (λ e. absurd (omega arith)) (λ e. absurd (omega arith)) (λ e. absurd (omega arith)) refl refl
      (omega arith) key_a 0

-- 0x58 is the scan code of Caps Lock.
keyboard_isr-caps_example : (keyboard_isr none_outside none_outside ready 0x58).status.caps ≡ true
keyboard_isr-caps_example =
    keyboard_isr-caps none_outside none_outside ready ready-IsSound 0x58 (λ e. absurd (omega arith))
      (λ e. absurd (omega arith)) (λ e. absurd (omega arith)) refl refl (omega arith)

abbrev after_key : Keyboard
after_key = keyboard_isr none_outside none_outside (keyboard_reset_state ready) 0x1c

Reachable-IsSound_example : IsSound (keyboard_read_key after_key).1
Reachable-IsSound_example =
    Reachable-IsSound none_outside none_outside (keyboard_read_key after_key).1
      (read after_key (scanned (keyboard_reset_state ready) 0x1c (reset ready)))
