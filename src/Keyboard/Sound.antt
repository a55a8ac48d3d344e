-- ===== src/Keyboard/Sound.antt =====
-- What holds of the keyboard after any sequence of scan codes and reads, whatever the scan codes.
use condor_fos.Base.{ℕ, ◌≤◌, ◌≡◌, refl, true, not, ◌||◌, arith, ◌⊎◌, ◌==◌, Bool-cases, inl, inr}
use condor_fos.Keyboard.Controls.{
  key_pause, key_scroll_lock, key_num_lock, key_caps_lock, key_lshift, key_rshift, key_lctrl,
  key_rctrl, key_lalt, key_ralt,
}
use condor_fos.Keyboard.{
  Keyboard, Decoder, idle, buffer_push, set_key, next_state, handle_key, update_status, state_up,
  enter, state_down, keyboard_get_key_state, is_pressed,
}
use condor_fos.Keyboard.States.{AreStates, held_down, update_status-eq, buffer_push-keeps}

abbrev pub IsIndex : ℕ → Type 0
IsIndex i = (i ≤ 1024) ⊎ (i ≡ 0xffff)

-- The status bits follow the key states, and the last state of Caps Lock is its state.
abbrev pub IsSynced : Keyboard → Type 0
IsSynced kb =
    (kb.status.scroll_lock ≡ held_down kb key_scroll_lock)
    × (kb.status.num_lock ≡ held_down kb key_num_lock)
    × (kb.status.shift ≡ (held_down kb key_lshift || held_down kb key_rshift))
    × (kb.status.ctrl ≡ (held_down kb key_lctrl || held_down kb key_rctrl))
    × (kb.status.alt ≡ held_down kb key_lalt)
    × (kb.status.altgr ≡ held_down kb key_ralt)
    × (kb.last_caps_state ≡ kb.key_states key_caps_lock)

-- The decoder reaches the pause bit through the second prefix only.
abbrev pub IsDecoder : Decoder → Type 0
IsDecoder d = (not d.pause || d.extended1) ≡ true

pub record InRange (kb : Keyboard) : Type 0 where
  pub valid : AreStates kb
  pub index : IsIndex kb.buffer_index
  pub last : kb.last_caps_state ≤ 2

InRange-get_key_state :
    (kb : Keyboard) (k : ℕ) → InRange kb → InRange (keyboard_get_key_state kb k).1
unfolding keyboard_get_key_state
InRange-get_key_state kb k r = elim (Bool-cases (kb.key_states k == key_pause)) [
  | inl odd ↦ elim (Bool-cases (kb.key_states key_pause == state_down)) [
    | inl down ↦
        rw (odd, down)
          (record { valid = λ j h. ground (arith, r.valid j h); index = r.index; last = r.last })
    | inr up ↦ rw (odd, up) r
  ]
  | inr plain ↦ rw plain r
]

InRange-set_key : (kb : Keyboard) (k v : ℕ) → v ≤ 2 → InRange kb → InRange (set_key kb k v)
InRange-set_key kb k v small r = record {
  valid = λ j h. ground (arith, r.valid j h);
  index = r.index;
  last = r.last;
}

pub IsIndex-buffer_push :
    (kb : Keyboard) (k : ℕ) → IsIndex kb.buffer_index → IsIndex (buffer_push kb k).buffer_index
unfolding buffer_push
IsIndex-buffer_push kb k i = ground arith

InRange-buffer_push : (kb : Keyboard) (k : ℕ) → InRange kb → InRange (buffer_push kb k)
InRange-buffer_push kb k r =
    rw (buffer_push-keeps kb k)
      (record { valid = r.valid; index = IsIndex-buffer_push kb k r.index; last = r.last })

pub InRange-handle_key : (kb : Keyboard) (t : ℕ) → InRange kb → InRange (handle_key kb t)
unfolding handle_key is_pressed
InRange-handle_key kb t r =
    let kb1 = (keyboard_get_key_state kb t).1 in
    let next = next_state (keyboard_get_key_state kb t).0 kb1.state.is_break in
    let r1 = InRange-get_key_state kb t r in
    let r2 = InRange-set_key kb1 t next (ground arith) r1 in
    let r3 = InRange-get_key_state (set_key kb1 t next) t r2 in
    elim (Bool-cases ((keyboard_get_key_state (set_key kb1 t next) t).0 == state_up)) [
      | inl up ↦ rw up r3
      | inr pressed ↦ rw pressed (InRange-buffer_push _ t r3)
    ]

pub record IsSound (kb : Keyboard) : Type 0 where
  pub valid : AreStates kb
  pub index : IsIndex kb.buffer_index
  pub synced : IsSynced kb
  pub decoder : IsDecoder kb.state

pub IsSound-update_status :
    (kb : Keyboard) → InRange kb → IsDecoder kb.state → IsSound (update_status kb)
IsSound-update_status kb r d = rw (update_status-eq kb r.valid) (record {
  valid = r.valid;
  index = r.index;
  synced = (refl, refl, refl, refl, refl, refl, omega (arith, r.last, r.valid key_caps_lock));
  decoder = d;
})

pub IsSound-enter : (kb : Keyboard) (d : Decoder) → IsDecoder d → IsSound kb → IsSound (enter kb d)
IsSound-enter kb d good s = record {
  valid = s.valid;
  index = s.index;
  synced = s.synced;
  decoder = good;
}

-- The last scan code of Pause.
pub IsSound-pause :
    (kb : Keyboard)
    → IsSound kb
    → IsSound (enter (set_key (buffer_push kb key_pause) key_pause state_down) idle)
IsSound-pause kb s = rw (buffer_push-keeps kb key_pause) (record {
  valid = λ j h. ground (arith, s.valid j h);
  index = IsIndex-buffer_push kb key_pause s.index;
  synced = s.synced;
  decoder = refl;
})
