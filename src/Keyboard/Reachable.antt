-- ===== src/Keyboard/Reachable.antt =====
-- The states of the keyboard between a reset and any number of scan codes and reads.
use condor_fos.Base.{
  ℕ, ◌≡◌, ◌-◌, refl, Bool, true, false, not, ◌&&◌, ◌||◌, arith, ◌==◌, if◌then◌else◌, Bool-cases,
  inl, inr,
}
use condor_fos.Keyboard.Controls.{key_caps_lock}
use condor_fos.Keyboard.{
  update_status, Keyboard, idle, regular_code, keyboard_isr, buffer_pop, keyboard_read_key,
  keyboard_reset_state, translate, handle_key, enter,
}
use condor_fos.Keyboard.Sound.{
  IsIndex, IsSound, InRange, InRange-handle_key, IsSound-update_status, IsSound-enter,
  IsSound-pause,
}

module _ (outside outside_e0 : ℕ → ℕ) where
  pub data Reachable : Keyboard → Type 0 where
    reset : (kb : Keyboard) → Reachable (keyboard_reset_state kb)
    scanned :
        (kb : Keyboard) (keycode : ℕ)
        → Reachable kb
        → Reachable (keyboard_isr outside outside_e0 kb keycode)
    read : (kb : Keyboard) → Reachable kb → Reachable (keyboard_read_key kb).1

  InRange-IsSound : (kb : Keyboard) → IsSound kb → InRange kb
  InRange-IsSound kb s = record {
    valid = s.valid;
    index = s.index;
    last = omega (arith, s.valid key_caps_lock, s.synced.6);
  }

  IsSound-key :
      (kb : Keyboard) (t : ℕ) → IsSound kb → IsSound (update_status (enter (handle_key kb t) idle))
  IsSound-key kb t s =
      let r = InRange-handle_key kb t (InRange-IsSound kb s) in
      IsSound-update_status (enter (handle_key kb t) idle)
        (record { valid = r.valid; index = r.index; last = r.last }) refl

  either : {x y : Keyboard} (b : Bool) → IsSound x → IsSound y → IsSound (if b then x else y)
  either true sx sy = sx
  either false sx sy = sy

  either_if :
      {x y : Keyboard} (b : Bool)
      → (b ≡ true → IsSound x)
      → IsSound y
      → IsSound (if b then x else y)
  either_if true sx sy = sx refl
  either_if false sx sy = sy

  IsSound-regular_code :
      (kb : Keyboard) (keycode : ℕ)
      → IsSound kb
      → IsSound (regular_code outside outside_e0 kb keycode)
  unfolding regular_code
  IsSound-regular_code kb keycode s =
      let d = kb.state in
      elim (Bool-cases ((d.extended1 || d.is_break) && d.pause)) [
        | inl pausing ↦ elim (Bool-cases (keycode == 0x77)) [
          | inl last ↦ rw (pausing, last) (IsSound-pause kb s)
          | inr other ↦ rw (pausing, other) s
        ]
        | inr plain ↦ elim (Bool-cases (d.extended1 || d.pause)) [
          | inl skipped ↦ rw (plain, skipped) s
          | inr ends ↦
              rw (plain, ends) (IsSound-key kb (translate outside outside_e0 d.extended0 keycode) s)
        ]
      ]

  IsSound-isr :
      (kb : Keyboard) (keycode : ℕ)
      → IsSound kb
      → IsSound (keyboard_isr outside outside_e0 kb keycode)
  unfolding keyboard_isr
  IsSound-isr kb keycode s =
      let d = kb.state in
      either (keycode == 0xe0)
        (either d.extended0
          (either (d.is_break || d.extended0 || d.extended1) (IsSound-enter kb idle refl s) s)
          (IsSound-enter kb (record d { extended0 = true }) s.decoder s))
        (either (keycode == 0xe1)
          (either_if d.extended1
            (λ again. IsSound-enter kb (record d { pause = true }) (ground arith) s)
            (IsSound-enter kb (record d { extended1 = true }) (ground arith) s))
          (either (keycode == 0xf0)
            (either d.is_break
              (either (not (d.extended1 || d.pause)) (IsSound-enter kb idle refl s) s)
              (IsSound-enter kb (record d { is_break = true }) s.decoder s))
            (IsSound-regular_code kb keycode s)))

  with_index :
      (kb : Keyboard) (i : ℕ) → IsIndex i → IsSound kb → IsSound (record kb { buffer_index = i })
  with_index kb i good s = record {
    valid = s.valid;
    index = good;
    synced = s.synced;
    decoder = s.decoder;
  }

  IsSound-read : (kb : Keyboard) → IsSound kb → IsSound (keyboard_read_key kb).1
  unfolding keyboard_read_key buffer_pop
  IsSound-read kb s = elim (Bool-cases (kb.buffer_index == 0)) [
    | inl bottom ↦ rw bottom (with_index kb 0xffff (inr refl) s)
    | inr above ↦ elim (Bool-cases (kb.buffer_index == 0xffff)) [
      | inl drained ↦ rw (above, drained) s
      | inr some_key ↦
          let i = s.index in
          rw (above, some_key) (with_index kb (kb.buffer_index - 1) (ground arith) s)
    ]
  ]

  IsSound-reset : (kb : Keyboard) → IsSound (keyboard_reset_state kb)
  unfolding keyboard_reset_state
  IsSound-reset kb = record {
    valid = λ j h. ground arith;
    index = inl (omega arith);
    synced = (refl, refl, refl, refl, refl, refl, refl);
    decoder = refl;
  }

  -- After a reset and any scan codes and reads, in any order, every key state is up, down or held,
  -- the buffer index is at most 1024 or the mark 0xFFFF, the pause bit of the decoder implies the
  -- second prefix, each status bit follows the keys it stands for, and the last state of Caps Lock
  -- is the state of its key.
  pub Reachable-IsSound : (kb : Keyboard) → Reachable kb → IsSound kb
  Reachable-IsSound _ (reset kb) = IsSound-reset kb
  Reachable-IsSound _ (scanned kb keycode r) = IsSound-isr kb keycode (Reachable-IsSound kb r)
  Reachable-IsSound _ (read kb r) = IsSound-read kb (Reachable-IsSound kb r)
