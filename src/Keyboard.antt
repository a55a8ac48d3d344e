-- ===== src/Keyboard.antt =====
-- kernel/kernel/keyboard.c: the scan code decoder, the key states and the key buffer.
pub mod Keys
pub mod Controls
pub mod Tables
pub mod States
pub mod Scan
pub mod Sound
pub mod Reachable
pub mod Buffer
pub mod Caps
pub mod Start
pub mod Tests
use condor_fos.Base.{
  ℕ, ◌+◌, ◌-◌, ◌*◌, ◌/◌, ◌%◌, Bool, true, false, not, ◌&&◌, ◌||◌, ltb, leb, ◌==◌, if◌then◌else◌,
  Memory, write, u8, get_or,
}
use condor_fos.Keyboard.Keys.{key_none, key_z}
use condor_fos.Keyboard.Controls.{
  key_pause, key_scroll_lock, key_num_lock, key_caps_lock, key_lshift, key_rshift, key_lctrl,
  key_rctrl, key_lalt, key_ralt, key_www_fav,
}
use condor_fos.Keyboard.Tables.{translation_map, translation_map_e0, def_mapping}

-- The bits `STATE_*` of `state`.
pub record Decoder : Type 0 where
  pub is_break : Bool
  pub extended0 : Bool
  pub extended1 : Bool
  pub pause : Bool

abbrev pub idle : Decoder
idle = record { is_break = false; extended0 = false; extended1 = false; pause = false }

-- The bits `STATUS_*` of `status`; nothing sets `STATUS_KANA`.
pub record Status : Type 0 where
  pub scroll_lock : Bool
  pub num_lock : Bool
  pub caps : Bool
  pub shift : Bool
  pub ctrl : Bool
  pub alt : Bool
  pub altgr : Bool

abbrev pub no_status : Status
no_status = record {
  scroll_lock = false;
  num_lock = false;
  caps = false;
  shift = false;
  ctrl = false;
  alt = false;
  altgr = false;
}

pub record Keymap : Type 0 where
  pub normal : ℕ
  pub shifted : ℕ
  pub altgr : ℕ

-- The static variables. `key_states` has `LAST_KEY` entries; what is behind them is memory that no
-- other field stands for.
pub record Keyboard : Type 0 where
  pub key_states : Memory
  pub buffer_index : ℕ
  pub key_buffer : Memory
  pub state : Decoder
  pub status : Status
  pub last_caps_state : ℕ
  pub mapping_base : ℕ → Keymap

abbrev pub last_key : ℕ
last_key = key_www_fav

abbrev pub state_up : ℕ
state_up = 0

abbrev pub state_down : ℕ
state_down = 1

abbrev pub state_held : ℕ
state_held = 2

unfoldable pub buffer_push : Keyboard → ℕ → Keyboard
buffer_push kb keycode =
    let i : ℕ = if kb.buffer_index == 0xffff then 0 else kb.buffer_index in
    if leb 1024 i
    then record kb { buffer_index = i }
    else record kb { key_buffer = write kb.key_buffer i keycode; buffer_index = i + 1 }

unfoldable pub buffer_pop : Keyboard → ℕ × Keyboard
buffer_pop kb =
    if kb.buffer_index == 0
    then (kb.key_buffer 0, record kb { buffer_index = 0xffff })
    else if kb.buffer_index == 0xffff
    then (key_none, kb)
    else (kb.key_buffer (kb.buffer_index - 1), record kb { buffer_index = kb.buffer_index - 1 })

abbrev pub set_key : Keyboard → ℕ → ℕ → Keyboard
set_key kb key value = record kb { key_states = write kb.key_states key value }

-- The first test compares the state of the key with the code of a key.
unfoldable pub keyboard_get_key_state : Keyboard → ℕ → ℕ × Keyboard
keyboard_get_key_state kb key =
    if not (kb.key_states key == key_pause)
    then (kb.key_states key, kb)
    else if kb.key_states key_pause == state_down
    then (state_down, set_key kb key_pause state_up)
    else (state_up, kb)

-- The test `keyboard_getKeyState(key) != KEY_STATE_UP`.
unfoldable pub is_pressed : Keyboard → ℕ → Bool × Keyboard
is_pressed kb key =
    let (value, kb') = keyboard_get_key_state kb key in (not (value == state_up), kb')

-- Two such tests with `||`, which asks for the second key when the first is up.
unfoldable pub either_pressed : Keyboard → ℕ → ℕ → Bool × Keyboard
either_pressed kb key key' =
    let (first, kb') = is_pressed kb key in if first then (true, kb') else is_pressed kb' key'

-- The new state of a key, by the state it had and the break bit.
abbrev pub next_state : ℕ → Bool → ℕ
next_state value is_break =
    if value == state_down then (if is_break then state_up else state_held) else state_down

-- The part for one translated key, alike behind both tables.
unfoldable pub handle_key : Keyboard → ℕ → Keyboard
handle_key kb trans =
    let (value, kb1) = keyboard_get_key_state kb trans in
    let kb2 = set_key kb1 trans (next_state value kb1.state.is_break) in
    let (pressed, kb3) = is_pressed kb2 trans in if pressed then buffer_push kb3 trans else kb3

-- The status check behind it.
unfoldable pub update_status : Keyboard → Keyboard
update_status kb0 =
    let (scroll_lock, kb1) = is_pressed kb0 key_scroll_lock in
    let (num_lock, kb2) = is_pressed kb1 key_num_lock in
    let (caps_state, kb3) = keyboard_get_key_state kb2 key_caps_lock in
    let toggled = (caps_state == state_down) && (kb3.last_caps_state % 4 == state_up) in
    let (caps_now, kb4) = keyboard_get_key_state kb3 key_caps_lock in
    let (shift, kb5) = either_pressed kb4 key_lshift key_rshift in
    let (ctrl, kb6) = either_pressed kb5 key_lctrl key_rctrl in
    let (alt, kb7) = is_pressed kb6 key_lalt in
    let (altgr, kb8) = is_pressed kb7 key_ralt in
    record kb8 {
      last_caps_state = kb8.last_caps_state / 4 % 2 * 4 + caps_now % 4;
      status = record {
        scroll_lock = scroll_lock;
        num_lock = num_lock;
        caps = if toggled then not kb8.status.caps else kb8.status.caps;
        shift = shift;
        ctrl = ctrl;
        alt = alt;
        altgr = altgr;
      };
    }

abbrev pub enter : Keyboard → Decoder → Keyboard
enter kb d = record kb { state = d }

-- `outside` and `outside_e0` give the byte that is read for a scan code outside the tables.
module _ (outside outside_e0 : ℕ → ℕ) where
  abbrev pub translate : Bool → ℕ → ℕ
  translate false keycode =
      if ltb keycode 132 then get_or translation_map keycode 0 else u8 (outside keycode)
  translate true keycode =
      if leb 0x11 keycode && ltb (keycode - 0x11) 109
      then get_or translation_map_e0 (keycode - 0x11) 0
      else u8 (outside_e0 keycode)

  -- The branch for a scan code that is no prefix.
  unfoldable pub regular_code : Keyboard → ℕ → Keyboard
  regular_code kb keycode =
      let d = kb.state in
      if (d.extended1 || d.is_break) && d.pause
      then (if keycode == 0x77
          then enter (set_key (buffer_push kb key_pause) key_pause state_down) idle
          else kb)
      else if d.extended1 || d.pause
      then kb
      else update_status (enter (handle_key kb (translate d.extended0 keycode)) idle)

  -- `keyboard_isr`, for the byte that it reads from the controller.
  unfoldable pub keyboard_isr : Keyboard → ℕ → Keyboard
  keyboard_isr kb keycode =
      let d = kb.state in
      if keycode == 0xe0
      then (if d.extended0
          then (if d.is_break || d.extended0 || d.extended1 then enter kb idle else kb)
          else enter kb (record d { extended0 = true }))
      else if keycode == 0xe1
      then (if d.extended1
          then enter kb (record d { pause = true })
          else enter kb (record d { extended1 = true }))
      else if keycode == 0xf0
      then (if d.is_break
          then (if not (d.extended1 || d.pause) then enter kb idle else kb)
          else enter kb (record d { is_break = true }))
      else regular_code kb keycode

-- The default mapping is the initial value of `mapping_base`.
abbrev pub default_keymap : ℕ → Keymap
default_keymap i =
    let (normal, shifted) = get_or def_mapping i (0, 0) in
    record { normal = normal; shifted = shifted; altgr = 0 }

-- `memset` clears `LAST_KEY` key states; the mapping stays.
unfoldable pub keyboard_reset_state : Keyboard → Keyboard
keyboard_reset_state kb = record kb {
  buffer_index = 0;
  key_buffer = write kb.key_buffer 0 0;
  key_states = λ i. if ltb i last_key then 0 else kb.key_states i;
  state = idle;
  status = no_status;
  last_caps_state = 0;
}

unfoldable pub keyboard_read_key : Keyboard → ℕ × Keyboard
unfolding buffer_pop
keyboard_read_key kb = buffer_pop kb

abbrev pub bit_of : Bool → ℕ → ℕ
bit_of b v = if b then v else 0

abbrev pub keyboard_get_status : Keyboard → ℕ
keyboard_get_status kb =
    let s = kb.status in
    bit_of s.scroll_lock 0x1
    + bit_of s.num_lock 0x2
    + bit_of s.caps 0x4
    + bit_of s.shift 0x10
    + bit_of s.ctrl 0x20
    + bit_of s.alt 0x40
    + bit_of s.altgr 0x80

unfoldable pub keyboard_set_mapping : Keyboard → (ℕ → Keymap) → Keyboard
keyboard_set_mapping kb base = record kb {
  mapping_base = λ i. if ltb i last_key then base i else kb.mapping_base i;
}

-- `IS_ALPHA_KEY`.
abbrev pub is_alpha_key : ℕ → Bool
is_alpha_key key = leb key key_z && ltb key_none key

unfoldable pub keyboard_get_char : Keyboard → ℕ → ℕ
keyboard_get_char kb keycode =
    if kb.status.shift || (is_alpha_key keycode && kb.status.caps)
    then (kb.mapping_base keycode).shifted
    else (kb.mapping_base keycode).normal
