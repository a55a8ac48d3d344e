-- ===== src/Keyboard/Buffer.antt =====
-- The key buffer, and key sequences of several scan codes.
use mathlib.Core.Path.{subst}
use condor_fos.Base.{ℕ, ◌<◌, ◌≡◌, refl, true, false, arith, leb, ◌==◌, Bool-cases, inl, inr, sym}
use condor_fos.Keyboard.Keys.{key_none}
use condor_fos.Keyboard.Controls.{key_pause}
use condor_fos.Keyboard.{
  Keyboard, Decoder, idle, buffer_push, keyboard_read_key, keyboard_isr, regular_code, set_key,
  state_down, enter,
}

-- With room for a key, reading after a push gives the key that was pushed last and takes it off.
read-push :
    (kb : Keyboard) (key : ℕ)
    → kb.buffer_index < 1024
    → ((keyboard_read_key (buffer_push kb key)).0 ≡ key)
      × ((keyboard_read_key (buffer_push kb key)).1.buffer_index ≡ kb.buffer_index)
unfolding keyboard_read_key buffer_push
read-push kb key h = ground arith

-- A key that is pushed to a drained buffer is read twice before the buffer counts as empty.
read-twice :
    (kb : Keyboard) (key : ℕ)
    → kb.buffer_index ≡ 0xffff
    → ((keyboard_read_key (buffer_push kb key)).0 ≡ key)
      × ((keyboard_read_key (keyboard_read_key (buffer_push kb key)).1).0 ≡ key)
      × ((keyboard_read_key (keyboard_read_key (keyboard_read_key (buffer_push kb key)).1).1).0
          ≡ key_none)
unfolding keyboard_read_key buffer_push
read-twice kb key h = rw h (ground arith)

-- A push does not look at the decoder.
buffer_push-enter :
    (kb : Keyboard) (k : ℕ) (d : Decoder) → buffer_push (enter kb d) k ≡ enter (buffer_push kb k) d
unfolding buffer_push
buffer_push-enter kb k d = elim (Bool-cases (kb.buffer_index == 0xffff)) [
  | inl fresh ↦ rw fresh refl
  | inr used ↦ elim (Bool-cases (leb 1024 kb.buffer_index)) [
    | inl full ↦ rw (used, full) refl
    | inr room ↦ rw (used, room) refl
  ]
]

module _ (outside outside_e0 : ℕ → ℕ) where
  -- The scan codes of the Pause key, in order.
  abbrev pub scan_pause : Keyboard → Keyboard
  scan_pause kb =
      let isr = keyboard_isr outside outside_e0 in
      isr (isr (isr (isr (isr (isr (isr (isr kb 0xe1) 0x14) 0x77) 0xe1) 0xf0) 0x14) 0xf0) 0x77

  -- The decoder before the last of them.
  abbrev last_code : Decoder
  last_code = record { is_break = true; extended0 = false; extended1 = true; pause = true }

  -- The eight scan codes of Pause push that key once, leave it down, and end with an idle decoder.
  isr-pause :
      (kb : Keyboard)
      → kb.state ≡ idle
      → scan_pause kb ≡ enter (set_key (buffer_push kb key_pause) key_pause state_down) idle
  unfolding keyboard_isr regular_code
  isr-pause kb h =
      subst
        (λ d.
          scan_pause (enter kb d)
          ≡ enter (set_key (buffer_push kb key_pause) key_pause state_down) idle)
        (sym h) (rw (buffer_push-enter kb key_pause last_code) refl)
