-- ===== src/Keyboard/States.antt =====
-- The key states under the interrupt handler: what one scan code changes.
use condor_fos.Base.{
  ℕ, ◌+◌, ◌*◌, ◌/◌, ◌%◌, ◌≤◌, ◌<◌, ◌≡◌, refl, Bool, not, ◌&&◌, ◌||◌, arith, leb, ◌==◌,
  if◌then◌else◌, Bool-cases, inl, inr,
}
use condor_fos.Keyboard.Controls.{
  key_scroll_lock, key_num_lock, key_caps_lock, key_lshift, key_rshift, key_lctrl, key_rctrl,
  key_lalt, key_ralt,
}
use condor_fos.Keyboard.{
  Keyboard, Status, last_key, buffer_push, set_key, keyboard_get_key_state, is_pressed,
  either_pressed, next_state, handle_key, update_status, state_up, state_down,
}

-- Every key state is one of the three.
abbrev pub AreStates : Keyboard → Type 0
AreStates kb = (k : ℕ) → k < last_key → kb.key_states k ≤ 2

abbrev pub held_down : Keyboard → ℕ → Bool
held_down kb k = not (kb.key_states k == state_up)

module _ (kb : Keyboard) (valid : AreStates kb) where
  pub get_key_state-eq :
      (k : ℕ) → k < last_key → keyboard_get_key_state kb k ≡ (kb.key_states k, kb)
  unfolding keyboard_get_key_state
  get_key_state-eq k h = ground (arith, valid k h)

  pub is_pressed-eq : (k : ℕ) → k < last_key → is_pressed kb k ≡ (held_down kb k, kb)
  unfolding is_pressed
  is_pressed-eq k h = rw (get_key_state-eq k h) refl

  pub either_pressed-eq :
      (k k' : ℕ)
      → k < last_key
      → k' < last_key
      → either_pressed kb k k' ≡ (held_down kb k || held_down kb k', kb)
  unfolding either_pressed
  either_pressed-eq k k' h h' = rw (is_pressed-eq k h) (elim (Bool-cases (held_down kb k)) [
    | inl down ↦ rw down refl
    | inr up ↦ rw (up, is_pressed-eq k' h') refl
  ])

  -- The status after the check, from the key states.
  abbrev pub status_of : Status
  status_of = record {
    scroll_lock = held_down kb key_scroll_lock;
    num_lock = held_down kb key_num_lock;
    caps =
        if (kb.key_states key_caps_lock == state_down) && (kb.last_caps_state % 4 == state_up)
        then not kb.status.caps
        else kb.status.caps;
    shift = held_down kb key_lshift || held_down kb key_rshift;
    ctrl = held_down kb key_lctrl || held_down kb key_rctrl;
    alt = held_down kb key_lalt;
    altgr = held_down kb key_ralt;
  }

  pub update_status-eq : update_status kb ≡ record kb {
    status = status_of;
    last_caps_state = kb.last_caps_state / 4 % 2 * 4 + kb.key_states key_caps_lock % 4;
  }
  unfolding update_status
  update_status-eq =
      rw
        (
          is_pressed-eq key_scroll_lock (omega arith),
          is_pressed-eq key_num_lock (omega arith),
          get_key_state-eq key_caps_lock (omega arith),
          get_key_state-eq key_caps_lock (omega arith),
          either_pressed-eq key_lshift key_rshift (omega arith) (omega arith),
          either_pressed-eq key_lctrl key_rctrl (omega arith) (omega arith),
          is_pressed-eq key_lalt (omega arith),
          is_pressed-eq key_ralt (omega arith),
        )
        refl

  AreStates-next_state :
      (k : ℕ) (b : Bool) → AreStates (set_key kb k (next_state (kb.key_states k) b))
  AreStates-next_state k b j h = ground (arith, valid j h)

module _ (kb : Keyboard) (valid : AreStates kb) (t : ℕ) (h : t < last_key) where
  abbrev pub value : ℕ
  value = next_state (kb.key_states t) kb.state.is_break

  pub handle_key-eq :
      handle_key kb t
      ≡ (if value == state_up then set_key kb t value else buffer_push (set_key kb t value) t)
  unfolding handle_key
  handle_key-eq =
      rw
        (
          get_key_state-eq kb valid t h,
          is_pressed-eq (set_key kb t value) (AreStates-next_state kb valid t kb.state.is_break) t
              h,
        )
        (ground arith)

-- The buffer keeps everything but itself.
pub buffer_push-keeps :
    (kb : Keyboard) (k : ℕ)
    → buffer_push kb k ≡ record kb {
      key_buffer = (buffer_push kb k).key_buffer;
      buffer_index = (buffer_push kb k).buffer_index;
    }
unfolding buffer_push
buffer_push-keeps kb k = elim (Bool-cases (kb.buffer_index == 0xffff)) [
  | inl fresh ↦ rw fresh refl
  | inr used ↦ elim (Bool-cases (leb 1024 kb.buffer_index)) [
    | inl full ↦ rw (used, full) refl
    | inr room ↦ rw (used, room) refl
  ]
]
