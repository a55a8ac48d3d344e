-- ===== src/Keyboard/Caps.antt =====
-- Caps Lock.
use condor_fos.Base.{
  ℕ, ◌%◌, ◌≤◌, ◌<◌, ◌≡◌, ◌≢◌, Bool, false, not, ◌&&◌, arith, ◌==◌, if◌then◌else◌, ap,
}
use condor_fos.Keyboard.Controls.{key_caps_lock}
use condor_fos.Keyboard.{
  Keyboard, idle, last_key, keyboard_isr, translate, state_up, state_down, next_state, enter,
  handle_key,
}
use condor_fos.Keyboard.States.{update_status-eq}
use condor_fos.Keyboard.Scan.{isr-eq, AreStates-handle_key, handle_key-states, handle_key-status}
use condor_fos.Keyboard.Sound.{IsSound}

-- The test of the status check, from the key state that the scan code leaves.
toggled :
    (code old at_code : ℕ) (release caps : Bool)
    → (code ≡ key_caps_lock → at_code ≡ old)
    → old ≤ 2
    → (if ((if code == key_caps_lock then next_state at_code release else old) == state_down)
          && ((old % 4) == state_up)
        then not caps
        else caps)
      ≡ (if (code == key_caps_lock) && (old == state_up) then not caps else caps)
toggled code old at_code release caps same small = ground arith

module _ (outside outside_e0 : ℕ → ℕ) (kb : Keyboard) (sound : IsSound kb) (keycode : ℕ)
    (no_e0 : keycode ≢ 0xe0) (no_e1 : keycode ≢ 0xe1) (no_f0 : keycode ≢ 0xf0)
    (no_ext : kb.state.extended1 ≡ false) (no_pause : kb.state.pause ≡ false) where
  abbrev pub code : ℕ
  code = translate outside outside_e0 kb.state.extended0 keycode

  module _ (h : code < last_key) where
    -- In a sound state, a scan code that is no prefix, with neither the second prefix nor the pause bit
    -- before it and a key below LAST_KEY, toggles the caps status if the key is Caps Lock and was up,
    -- and keeps it otherwise.
    pub keyboard_isr-caps : (keyboard_isr outside outside_e0 kb keycode).status.caps ≡ (
        if (code == key_caps_lock) && (kb.key_states key_caps_lock == state_up)
        then not kb.status.caps
        else kb.status.caps)
    keyboard_isr-caps =
        let (same, last) = handle_key-status kb sound.valid code h in
        let caps = handle_key-states kb sound.valid code h key_caps_lock in
        let seen = sound.synced.6 in
        let small = sound.valid key_caps_lock (omega arith) in
        rw
          (
            isr-eq outside outside_e0 kb sound.valid keycode no_e0 no_e1 no_f0 no_ext no_pause,
            update_status-eq (enter (handle_key kb code) idle) (
                AreStates-handle_key outside outside_e0 kb sound.valid keycode no_e0 no_e1 no_f0
                  no_ext no_pause h),
            caps,
            same,
            last,
            seen,
          )
          (toggled code (kb.key_states key_caps_lock) (kb.key_states code) kb.state.is_break
            kb.status.caps (λ e. ap kb.key_states e) small)
