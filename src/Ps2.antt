-- ===== src/Ps2.antt =====
-- kernel/arch/i386/ps2.c: the controller of the keyboard and the mouse.
pub mod Types
pub mod Sent
pub mod Tests
use condor_fos.Base.{
  ℕ, zero, suc, ◌+◌, ◌/◌, ◌%◌, ◌^◌, Bool, true, false, not, ◌&&◌, ◌||◌, List, [], ◌∷◌, ◌++◌, ltb,
  ◌==◌, if◌then◌else◌, bit_and, bit_or, bit_xor, ℤ, pos, negsuc,
}
use condor_fos.Machine.{Ports, has, done, Action, pure, when, spin, gets, modify, ◌>>=◌, ◌>>◌}
use condor_fos.Ps2.Types.{
  dev1, dev2, dev_inv, ps2_data, ps2_stt_cmd, ps2_ack, ret_success, ret_fail, ret_nodev,
  type_atkbd_trans, type_ps2_mouse, type_mouse_scr, type_mf2kbd, type_mf2kbd_trans, type_unknown,
  classify, hid_keyboard, hid_mouse,
}

-- The static variables, the handlers that were registered by request, and the machine.
pub record Ps2 (D : Type 0) : Type 0 where
  pub dev_type : ℕ → ℕ
  pub has_dev2 : ℕ
  pub handlers : List (ℕ × ℕ)
  pub machine : D

module _ {D : Type 0} (io : Ports D) where
  unfoldable pub inb : ℕ → Action (Ps2 D) ℕ
  inb port s = let (v, d) = io.inb s.machine port in done (v, record s { machine = d })

  unfoldable pub outb : (port value : ℕ) → Action (Ps2 D) (Unit {0})
  outb port value = modify (λ s. record s { machine = io.outb s.machine port value })

  -- `while(!(inb(PS2_STT_CMD) & 0x1));`
  unfoldable pub wait_output : (fuel : ℕ) → Action (Ps2 D) (Unit {0})
  wait_output zero = spin
  wait_output (suc fuel) = do now ← inb ps2_stt_cmd; when (not (has now 0x1)) (wait_output fuel)

  -- 0 for an answer.
  unfoldable pub wait_ack : (fuel : ℕ) → Action (Ps2 D) ℕ
  wait_ack fuel = do
    wait_output fuel
    now ← inb ps2_stt_cmd
    answer ← inb ps2_data
    if not (answer == 0xaa) && not (answer == ps2_ack) then pure 1 else do
      when (answer == 0xaa) do next ← inb ps2_data; pure tt
      pure 0

  -- `while(inb(PS2_STT_CMD) & 0x1) inb(PS2_DATA);`
  unfoldable pub ps2_clear_buffer : (fuel : ℕ) → Action (Ps2 D) (Unit {0})
  ps2_clear_buffer zero = spin
  ps2_clear_buffer (suc fuel) = do
    now ← inb ps2_stt_cmd
    when (has now 0x1) do dropped ← inb ps2_data; ps2_clear_buffer fuel

  -- `(device == DEV2 && !hasDEV2) || device == DEV_INV`.
  unfoldable pub is_absent : (device : ℕ) → Action (Ps2 D) Bool
  is_absent device = gets (λ s. ((device == dev2) && (s.has_dev2 == 0)) || (device == dev_inv))

  -- The loop on the input buffer, left at its 1001st busy read: was it?
  unfoldable pub wait_input : (rounds : ℕ) → Action (Ps2 D) Bool
  wait_input zero = pure true
  wait_input (suc rounds) = do
    now ← inb ps2_stt_cmd
    if has now 0x2 then wait_input rounds else pure false

  unfoldable pub ps2_send_data_to : (fuel device byte : ℕ) → Action (Ps2 D) ℕ
  ps2_send_data_to fuel device byte = do
    absent ← is_absent device
    if absent then pure 2 else do
      late ← wait_input 1001
      if late then pure 1 else do
        when (device == dev2) (outb ps2_stt_cmd 0xd4)
        outb ps2_data byte
        ack ← wait_ack fuel
        pure 0

  unfoldable pub ps2_read_data_from : (device : ℕ) → Action (Ps2 D) ℕ
  ps2_read_data_from device = do absent ← is_absent device; if absent then pure 0 else inb ps2_data

  -- `while(!(inb(PS2_STT_CMD) & 0x01) && watch_dog < 0xFFFF)`, with `rounds` of the 65535 left.
  unfoldable pub watch_output : (rounds : ℕ) → Action (Ps2 D) (Unit {0})
  watch_output zero = do now ← inb ps2_stt_cmd; pure tt
  watch_output (suc rounds) = do
    now ← inb ps2_stt_cmd
    when (not (has now 0x1)) (watch_output rounds)

  unfoldable pub detect_device : (fuel device : ℕ) → Action (Ps2 D) (Unit {0})
  detect_device fuel device = do
    disabled ← ps2_send_data_to fuel device 0xf5
    asked ← ps2_send_data_to fuel device 0xf2
    watch_output 0xffff
    stored ← ps2_read_data_from device
    watch_output 0xffff
    second ← ps2_read_data_from device
    let byte0 = if not (stored == second) && not (stored == ps2_ack) then stored else second
    watch_output 0xffff
    byte1 ← ps2_read_data_from device
    ps2_clear_buffer fuel
    modify (λ s. record s {
      dev_type = λ i. if device == i then classify byte0 byte1 else s.dev_type i;
    })

  -- `while(inb(PS2_STT_CMD) & 0x02);`
  unfoldable pub wait_sent : (fuel : ℕ) → Action (Ps2 D) (Unit {0})
  wait_sent zero = spin
  wait_sent (suc fuel) = do now ← inb ps2_stt_cmd; when (has now 0x02) (wait_sent fuel)

  -- `while(!(inb(PS2_STT_CMD) ^ 0x01));`
  unfoldable pub wait_self_test : (fuel : ℕ) → Action (Ps2 D) (Unit {0})
  wait_self_test zero = spin
  wait_self_test (suc fuel) = do
    now ← inb ps2_stt_cmd
    when (bit_xor now 0x01 == 0) (wait_self_test fuel)

  -- Up to the answer to the self test.
  unfoldable pub self_test : (fuel : ℕ) → Action (Ps2 D) ℕ
  self_test fuel = do
    outb ps2_stt_cmd 0xad
    outb ps2_stt_cmd 0xa7
    ps2_clear_buffer fuel
    outb ps2_stt_cmd 0x20
    config ← inb ps2_data
    outb ps2_stt_cmd 0x60
    wait_sent fuel
    outb ps2_data (bit_and config 0xbc)
    modify (λ s. record s { has_dev2 = bit_xor config 0x20 })
    outb ps2_stt_cmd 0xaa
    wait_self_test fuel
    inb ps2_data

  -- The second look for a second port.
  unfoldable pub double_check : Action (Ps2 D) (Unit {0})
  double_check = do
    seen ← gets (λ s. s.has_dev2)
    when (not (seen == 0)) do
      outb ps2_stt_cmd 0xa8
      outb ps2_stt_cmd 0x20
      config ← inb ps2_data
      when (not (has config 0x20)) (modify (λ s. record s { has_dev2 = 0 }))
      outb ps2_stt_cmd 0xa7

  -- The tests of the ports: the channels that can be used.
  unfoldable pub test_second : (usable : ℕ) → Action (Ps2 D) ℕ
  test_second usable = do
    seen ← gets (λ s. s.has_dev2)
    if seen == 0 then pure usable else do
      outb ps2_stt_cmd 0xa9
      answer ← inb ps2_data
      modify (λ s. record s { has_dev2 = if answer == 0 then 1 else 0 })
      pure (if answer == 0 then usable else bit_and usable 0xfd)

  unfoldable pub test_ports : Action (Ps2 D) ℕ
  test_ports = do
    seen ← gets (λ s. s.has_dev2)
    outb ps2_stt_cmd 0xab
    answer ← inb ps2_data
    let usable = bit_or 0x1 (seen / 2 ^ 4)
    test_second (if answer == 0 then usable else bit_and usable 0xfe)

  -- The resets: the channels that answer, and the configuration.
  unfoldable pub reset_first : (fuel usable config : ℕ) → Action (Ps2 D) (ℕ × ℕ)
  reset_first fuel usable config = if not (has usable 0x1) then pure (usable, config) else do
    outb ps2_stt_cmd 0xae
    outb ps2_data 0xff
    failed ← wait_ack fuel
    pure (if failed == 0 then (usable, bit_or config 0x01) else (bit_and usable 0xfe, config))

  unfoldable pub reset_second : (fuel usable config : ℕ) → Action (Ps2 D) (ℕ × ℕ)
  reset_second fuel usable config = if not (has usable 0x2) then pure (usable, config) else do
    outb ps2_stt_cmd 0xa8
    outb ps2_stt_cmd 0xd4
    outb ps2_data 0xff
    failed ← wait_ack fuel
    pure (if failed == 0 then (usable, bit_or config 0x02) else (bit_and usable 0xfd, config))

  -- The detection of the devices and the last configuration.
  unfoldable pub set_up : (fuel config : ℕ) → Action (Ps2 D) ℕ
  set_up fuel config = do
    detect_device fuel dev1
    seen ← gets (λ s. s.has_dev2)
    when (not (seen == 0)) (detect_device fuel dev2)
    types ← gets (λ s. s.dev_type)
    let first = if types dev1 == dev_inv then bit_and config 0xfe else bit_and config 0xef
    let both = if types dev2 == dev_inv then bit_and first 0xfd else bit_and first 0xdf
    outb ps2_stt_cmd 0x60
    outb ps2_data both
    outb ps2_stt_cmd 0x20
    shown ← inb ps2_data
    ps2_clear_buffer fuel
    pure ret_success

  unfoldable pub ps2_init : (fuel : ℕ) → Action (Ps2 D) ℕ
  ps2_init fuel = do
    answer ← self_test fuel
    if not (answer == 0x55)
        then pure (if answer == 0xfc then ret_fail else bit_or ret_fail ret_nodev)
        else do
          double_check
          tested ← test_ports
          if tested == 0 then pure (bit_or ret_fail ret_nodev) else do
            outb ps2_stt_cmd 0x20
            config ← inb ps2_data
            first ← reset_first fuel tested config
            second ← reset_second fuel first.0 first.1
            if second.0 == 0 then pure (bit_or ret_fail ret_nodev) else set_up fuel second.1

  -- A handler is a number; `irq_addISR` puts it behind the others.
  unfoldable pub irq_add_isr : (irq func : ℕ) → Action (Ps2 D) (Unit {0})
  irq_add_isr irq func = modify (λ s. record s { handlers = s.handlers ++ (irq, func) ∷ [] })

  unfoldable pub ps2_handle_device : (device func : ℕ) → Action (Ps2 D) (Unit {0})
  ps2_handle_device device func = do
    seen ← gets (λ s. s.has_dev2)
    if (device == dev2) && ((seen == 0) || (device == dev_inv))
        then pure tt
        else do when (device == dev2) (irq_add_isr 12 func); irq_add_isr 1 func

  -- `before n` is the byte `n + 1` places before `devType`, where a negative device reads.
  unfoldable pub ps2_get_type : (before : ℕ → ℕ) (device : ℤ) → Action (Ps2 D) ℕ
  ps2_get_type before (pos n) =
      gets (λ s. if (n == dev_inv) || ltb dev2 n then type_unknown else s.dev_type n)
  ps2_get_type before (negsuc n) = pure (before n)

  unfoldable pub get_keyboard_dev : Ps2 D → ℕ
  get_keyboard_dev s =
      let second = s.dev_type 1 in
      if (second == type_atkbd_trans) || (second == type_mf2kbd) || (second == type_mf2kbd_trans)
      then dev2
      else if not (s.dev_type 0 == type_unknown)
      then dev1
      else dev_inv

  unfoldable pub get_mouse_dev : Ps2 D → ℕ
  get_mouse_dev s =
      let second = s.dev_type 1 in
      if (second == type_ps2_mouse) || (second == type_mouse_scr) || (second == type_mouse_scr)
      then dev2
      else if not (s.dev_type 0 == type_unknown)
      then dev1
      else dev_inv

  unfoldable pub ps2_get_dev_hid : (hid : ℕ) → Action (Ps2 D) ℕ
  ps2_get_dev_hid hid = gets (λ s.
      if hid == hid_keyboard
      then get_keyboard_dev s
      else if hid == hid_mouse
      then get_mouse_dev s
      else dev_inv)
