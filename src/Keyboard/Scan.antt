-- ===== src/Keyboard/Scan.antt =====
-- `keyboard_isr` for one scan code that ends a key.
use condor_fos.Base.{
  ℕ, ◌+◌, ◌<◌, ◌≡◌, ◌≢◌, refl, ap, ◌∙◌, Bool, false, not, ◌&&◌, ◌||◌, ltb, leb, arith, ◌==◌,
  if◌then◌else◌, Bool-cases, inl, inr,
}
use condor_fos.Keyboard.Controls.{key_lshift, key_rshift}
use condor_fos.Keyboard.{
  Keyboard, idle, last_key, buffer_push, set_key, next_state, handle_key, update_status, state_up,
  enter, translate, regular_code, keyboard_isr,
}
use condor_fos.Keyboard.States.{
  AreStates, update_status-eq, handle_key-eq, value, buffer_push-keeps,
}

-- The key is down, and the break prefix came before its code.
abbrev pub rises : Keyboard → (key : ℕ) → Bool
rises kb key = kb.state.is_break && (kb.key_states key == 1)

-- The number of keys in the buffer.
abbrev pub held_keys : Keyboard → ℕ
held_keys kb = if kb.buffer_index == 0xffff then 0 else kb.buffer_index

module _ (kb : Keyboard) (valid : AreStates kb) (t : ℕ) (h : t < last_key) where
  pub handle_key-states :
      (j : ℕ)
      → (handle_key kb t).key_states j
        ≡ (if t == j then next_state (kb.key_states t) kb.state.is_break else kb.key_states j)
  handle_key-states j =
      rw (handle_key-eq kb valid t h) (elim (Bool-cases (value kb valid t h == state_up)) [
        | inl up ↦ rw up (ground arith)
        | inr pressed ↦
            rw (pressed, buffer_push-keeps (set_key kb t (value kb valid t h)) t) (ground arith)
      ])

  handle_key-buffer :
      ((handle_key kb t).buffer_index ≡ (
        if value kb valid t h == state_up
        then kb.buffer_index
        else (buffer_push kb t).buffer_index))
      × ((handle_key kb t).key_buffer ≡ (
          if value kb valid t h == state_up then kb.key_buffer else (buffer_push kb t).key_buffer))
  unfolding buffer_push
  handle_key-buffer = rw (handle_key-eq kb valid t h) (ground arith, ground arith)

  pub handle_key-index : (handle_key kb t).buffer_index ≡ (
      if rises kb t
      then kb.buffer_index
      else if leb 1024 (held_keys kb)
      then (held_keys kb)
      else (held_keys kb) + 1)
  unfolding buffer_push
  handle_key-index = handle_key-buffer.0 ∙ ground arith

  pub handle_key-stored :
      (place : ℕ)
      → (handle_key kb t).key_buffer place ≡ (
          if not (rises kb t) && (ltb (held_keys kb) 1024 && ((held_keys kb) == place))
          then t
          else kb.key_buffer place)
  unfolding buffer_push
  handle_key-stored place = ap (λ (b : ℕ → ℕ). b place) handle_key-buffer.1 ∙ ground arith

  pub handle_key-status :
      ((handle_key kb t).status ≡ kb.status)
      × ((handle_key kb t).last_caps_state ≡ kb.last_caps_state)
  handle_key-status =
      rw (handle_key-eq kb valid t h) (elim (Bool-cases (value kb valid t h == state_up)) [
        | inl up ↦ rw up (refl, refl)
        | inr pressed ↦
            rw (pressed, buffer_push-keeps (set_key kb t (value kb valid t h)) t) (refl, refl)
      ])

module _ (outside outside_e0 : ℕ → ℕ) (kb : Keyboard) (valid : AreStates kb) (keycode : ℕ)
    (no_e0 : keycode ≢ 0xe0) (no_e1 : keycode ≢ 0xe1) (no_f0 : keycode ≢ 0xf0)
    (no_ext : kb.state.extended1 ≡ false) (no_pause : kb.state.pause ≡ false) where
  abbrev pub key : ℕ
  key = translate outside outside_e0 kb.state.extended0 keycode

  pub isr-eq :
      keyboard_isr outside outside_e0 kb keycode ≡ update_status (enter (handle_key kb key) idle)
  unfolding keyboard_isr regular_code
  isr-eq =
      let ne0 : (keycode == 0xe0) ≡ false = ground arith in
      let ne1 : (keycode == 0xe1) ≡ false = ground arith in
      let nf0 : (keycode == 0xf0) ≡ false = ground arith in
      rw (ne0, ne1, nf0, no_ext, no_pause)
        (elim (Bool-cases kb.state.is_break) [
          | inl release ↦ rw release refl
          | inr press ↦ rw press refl
        ])

  module _ (h : key < last_key) where
    pub AreStates-handle_key : AreStates (enter (handle_key kb key) idle)
    AreStates-handle_key j hj = ground (arith, valid j hj, handle_key-states kb valid key h j)

    -- With valid key states, a scan code that is no prefix, with neither the second prefix nor the
    -- pause bit before it and a key below LAST_KEY, changes the state of that key only: from down
    -- (1) it goes up (0) behind a break prefix and counts as held (2) otherwise, and from any other
    -- state it goes down, even behind a break prefix. A key that goes up leaves the buffer as it is.
    -- Any other is stored behind the keys of the buffer while there are fewer than 1024, where the
    -- index 0xFFFF counts as 0. The decoder is idle again, and the shift status follows the two shift
    -- keys.
    pub keyboard_isr-key :
        (j place : ℕ)
        → ((keyboard_isr outside outside_e0 kb keycode).key_states j ≡ (
            if key == j
            then (if kb.key_states key == 1 then (if kb.state.is_break then 0 else 2) else 1)
            else kb.key_states j))
          × ((keyboard_isr outside outside_e0 kb keycode).buffer_index ≡ (
              if rises kb key
              then kb.buffer_index
              else if leb 1024 (held_keys kb)
              then (held_keys kb)
              else (held_keys kb) + 1))
          × ((keyboard_isr outside outside_e0 kb keycode).key_buffer place ≡ (
              if not (rises kb key) && (ltb (held_keys kb) 1024 && ((held_keys kb) == place))
              then key
              else kb.key_buffer place))
          × ((keyboard_isr outside outside_e0 kb keycode).state ≡ idle)
          × ((keyboard_isr outside outside_e0 kb keycode).status.shift ≡ (
              not ((keyboard_isr outside outside_e0 kb keycode).key_states key_lshift == state_up)
              || not
                  ((keyboard_isr outside outside_e0 kb keycode).key_states key_rshift == state_up)))
    keyboard_isr-key j place =
        rw (isr-eq, update_status-eq (enter (handle_key kb key) idle) AreStates-handle_key)
          (
            handle_key-states kb valid key h j,
            handle_key-index kb valid key h,
            handle_key-stored kb valid key h place,
            refl,
            refl,
          )
