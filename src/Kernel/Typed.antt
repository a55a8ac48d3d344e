-- ===== src/Kernel/Typed.antt =====
-- What `kmain` shows of the keys that are typed.
use condor_fos.Base.{
  ℕ, ◌+◌, ◌<◌, ◌≡◌, ◌≢◌, refl, arith, ◌∙◌, sym, ap, true, false, some, [], ◌∷◌, ◌==◌, if◌then◌else◌,
  Memory, u8, Bool-cases, inl, inr,
}
use condor_fos.Base.Options.{◌>>=◌}
use condor_fos.Tty.{Terminal}
use condor_fos.Format.{bytes, printf, print_chars}
use condor_fos.Format.Pieces.{spec, character}
use condor_fos.Format.Prints.{vprintf_lem}
use condor_fos.Keyboard.{Keyboard, keyboard_read_key, keyboard_get_key_state, keyboard_get_char}
use condor_fos.Keyboard.Controls.{key_pause}
use condor_fos.Kernel.{Echo, print_key, kmain_round}

-- The terminal with the character of a key, where it has one.
abbrev pub echoed : Keyboard → (key : ℕ) → Terminal → Terminal
echoed kb key t =
    if keyboard_get_char kb key == 0 then t else print_chars (u8 (keyboard_get_char kb key) ∷ []) t

key_states-read : (kb : Keyboard) → (keyboard_read_key kb).1.key_states ≡ kb.key_states
unfolding keyboard_read_key
key_states-read kb = ground arith

get_key_state-other :
    (kb : Keyboard) (key v : ℕ)
    → kb.key_states key ≡ v
    → v ≢ key_pause
    → keyboard_get_key_state kb key ≡ (v, kb)
unfolding keyboard_get_key_state
get_key_state-other kb key v here other =
    let no_pause : (kb.key_states key == key_pause) ≡ false = ground arith in
    rw no_pause (ap (λ (n : ℕ). (n, kb)) here)

module _ (outside : ℕ → ℕ) (m : Memory) (no_amount no_number : ℕ) (buffer : Memory)
    (fuel percent_c : ℕ) (wide : 33 < fuel) (literal : bytes 3 m percent_c ≡ 37 ∷ 99 ∷ 0 ∷ []) where
  print_key_lem :
      (kb : Keyboard) (key : ℕ) (t : Terminal)
      → print_key outside m no_amount no_number buffer fuel percent_c kb key t
        ≡ some (echoed kb key t)
  unfolding print_key printf
  print_key_lem kb key t = elim (Bool-cases (keyboard_get_char kb key == 0)) [
    | inl nothing ↦ rw nothing refl
    | inr shown ↦
        let char = keyboard_get_char kb key in
        let percent : m percent_c ≡ 37 = ground (arith, literal) in
        let c : m (percent_c + 1) ≡ 99 = ground (arith, literal) in
        let at : percent_c + 1 + 1 ≡ percent_c + 2 = omega arith in
        let end : m (percent_c + 2) ≡ 0 = rw (← at) (ground (arith, literal)) in
        let (out, written, (first, rest, one, none_left, all), is) =
          vprintf_lem outside m (λ i. char) no_amount no_number buffer fuel percent_c
            (spec character ∷ []) t wide (omega arith) ((percent, c), end) in
        let whole : out ≡ u8 char ∷ [] = rw (all, one, none_left) refl in rw (shown, is, whole) refl
  ]

  -- A round that reads a key whose state is not the last one shows it.
  kmain_round-shown :
      (e : Echo) (key v : ℕ) (kb : Keyboard)
      → keyboard_read_key e.keyboard ≡ (key, kb)
      → key ≢ 0
      → kb.key_states key ≡ v
      → v ≢ key_pause
      → v ≢ e.last_state
      → kmain_round outside m no_amount no_number buffer fuel percent_c e
        ≡ some (record { keyboard = kb; last_state = v; terminal = echoed kb key e.terminal })
  unfolding kmain_round
  kmain_round-shown e key v kb read some_key here other new =
      let is_key : (key == 0) ≡ false = ground arith in
      let differs : (v == e.last_state) ≡ false = ground arith in
      rw
        (
          read,
          get_key_state-other kb key v here other,
          get_key_state-other kb key v here other,
          is_key,
          differs,
          print_key_lem kb key e.terminal,
        )
        refl

  -- A round that reads a key whose state is the last one drops it.
  kmain_round-dropped :
      (e : Echo) (key v : ℕ) (kb : Keyboard)
      → keyboard_read_key e.keyboard ≡ (key, kb)
      → key ≢ 0
      → kb.key_states key ≡ v
      → v ≢ key_pause
      → v ≡ e.last_state
      → kmain_round outside m no_amount no_number buffer fuel percent_c e
        ≡ some (record e { keyboard = kb; last_state = 0 })
  unfolding kmain_round
  kmain_round-dropped e key v kb read some_key here other same =
      let is_key : (key == 0) ≡ false = ground arith in
      let equal : (v == e.last_state) ≡ true = ground arith in
      rw (read, get_key_state-other kb key v here other, is_key, equal) refl

-- Of two keys that are read one after the other and have the same state, as two keys that have both
-- just been pressed, `kmain` shows the first only, where the state differs from the last one: its
-- second round drops the other key. The state is no code of the Pause key, the fuel is above 33, and
-- "%c" stands at the literal's address.
pub kmain_round_lem :
    (outside : ℕ → ℕ) (m : Memory) (no_amount no_number : ℕ) (buffer : Memory) (fuel percent_c : ℕ)
    (e : Echo) (a b v : ℕ) (kb1 kb2 : Keyboard)
    → 33 < fuel
    → bytes 3 m percent_c ≡ 37 ∷ 99 ∷ 0 ∷ []
    → keyboard_read_key e.keyboard ≡ (a, kb1)
    → keyboard_read_key kb1 ≡ (b, kb2)
    → a ≢ 0
    → b ≢ 0
    → e.keyboard.key_states a ≡ v
    → e.keyboard.key_states b ≡ v
    → v ≢ key_pause
    → v ≢ e.last_state
    → (kmain_round outside m no_amount no_number buffer fuel percent_c e
        >>= kmain_round outside m no_amount no_number buffer fuel percent_c)
      ≡ some (record { keyboard = kb2; last_state = 0; terminal = echoed kb1 a e.terminal })
kmain_round_lem outside m no_amount no_number buffer fuel percent_c e a b v kb1 kb2 wide literal
      first second some_a some_b here_a here_b other new =
    let states1 : kb1.key_states ≡ e.keyboard.key_states =
      sym (ap (λ r. r.1.key_states) first) ∙ key_states-read e.keyboard in
    let states2 : kb2.key_states ≡ e.keyboard.key_states =
      sym (ap (λ r. r.1.key_states) second) ∙ (key_states-read kb1 ∙ states1) in
    rw
      (kmain_round-shown outside m no_amount no_number buffer fuel percent_c wide literal e a v kb1
        first some_a (ap (λ s. s a) states1 ∙ here_a) other new)
      (kmain_round-dropped outside m no_amount no_number buffer fuel percent_c wide literal
        (record { keyboard = kb1; last_state = v; terminal = echoed kb1 a e.terminal }) b v kb2
        second some_b (ap (λ s. s b) states2 ∙ here_b) other refl)
