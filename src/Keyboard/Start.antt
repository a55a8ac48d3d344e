-- ===== src/Keyboard/Start.antt =====
-- `keyboard_init` of kernel/kernel/keyboard.c, over the controller of kernel/arch/i386/ps2.c.
use condor_fos.Base.{ℕ}
use condor_fos.Machine.{Ports, Run, done, fault, spinning, Action, pure, modify, ◌>>=◌, ◌>>◌}
use condor_fos.Hal.{controller_get_dev_hid, controller_handle_device, controller_send_data_to}
use condor_fos.Ps2.Types.{hid_keyboard}
use condor_fos.Ps2.{Ps2}
use condor_fos.Keyboard.{Keyboard, keyboard_reset_state}

pub record Input (D : Type 0) : Type 0 where
  pub controller : Ps2 D
  pub keyboard : Keyboard

module _ {D : Type 0} where
  -- The rest of a run of the controller.
  abbrev pub with_keyboard : {A : Type 0} → Keyboard → Run (A × Ps2 D) → Run (A × Input D)
  with_keyboard kb (done (a, c)) = done (a, record { controller = c; keyboard = kb })
  with_keyboard kb fault = fault
  with_keyboard kb spinning = spinning

  -- A function of the controller does not touch the keyboard.
  unfoldable pub on_controller : {A : Type 0} → Action (Ps2 D) A → Action (Input D) A
  on_controller m s = with_keyboard s.keyboard (m s.controller)

module _ {D : Type 0} (io : Ports D) where
  -- `controller_sendDataTo(controller_getDevHID(HID_KEYBOARD), byte)`.
  unfoldable pub send_keyboard : (fuel byte : ℕ) → Action (Input D) (Unit {0})
  send_keyboard fuel byte = do
    device ← on_controller (controller_get_dev_hid io hid_keyboard)
    sent ← on_controller (controller_send_data_to io fuel device byte)
    pure tt

  -- `keyboard_isr` is the number `func` among the handlers.
  unfoldable pub keyboard_init : (fuel func : ℕ) → Action (Input D) (Unit {0})
  keyboard_init fuel func = do
    device ← on_controller (controller_get_dev_hid io hid_keyboard)
    on_controller (controller_handle_device io device func)
    send_keyboard fuel 0xf0
    send_keyboard fuel 0x02
    send_keyboard fuel 0xf4
    modify (λ s. record s { keyboard = keyboard_reset_state s.keyboard })
