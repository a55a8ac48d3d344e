-- ===== src/Ps2/Types.antt =====
-- kernel/include/kernel/ps2.h: the constants; and what an answer says of a device.
use condor_fos.Base.{ℕ, ◌&&◌, ◌==◌, if◌then◌else◌}

-- The devices, their types, the ports, and what ps2_init returns.
abbrev pub dev1 : ℕ
dev1 = 0

abbrev pub dev2 : ℕ
dev2 = 1

abbrev pub dev_inv : ℕ
dev_inv = 255

abbrev pub type_atkbd_trans : ℕ
type_atkbd_trans = 0

abbrev pub type_ps2_mouse : ℕ
type_ps2_mouse = 1

abbrev pub type_mouse_scr : ℕ
type_mouse_scr = 2

abbrev pub type_mouse_5b : ℕ
type_mouse_5b = 3

abbrev pub type_mf2kbd : ℕ
type_mf2kbd = 4

abbrev pub type_mf2kbd_trans : ℕ
type_mf2kbd_trans = 5

abbrev pub type_unknown : ℕ
type_unknown = 255

abbrev pub ps2_data : ℕ
ps2_data = 0x60

abbrev pub ps2_stt_cmd : ℕ
ps2_stt_cmd = 0x64

abbrev pub ps2_ack : ℕ
ps2_ack = 0xfa

abbrev pub ret_success : ℕ
ret_success = 0

abbrev pub ret_fail : ℕ
ret_fail = 1

abbrev pub ret_nodev : ℕ
ret_nodev = 2

-- The kinds of device in kernel/include/kernel/hal.h.
abbrev pub hid_keyboard : ℕ
hid_keyboard = 0

abbrev pub hid_mouse : ℕ
hid_mouse = 1

-- The type that `detectDevice` takes from the two bytes of an answer.
unfoldable pub classify : (byte0 byte1 : ℕ) → ℕ
classify byte0 byte1 =
    if (byte0 == 0x00) && (byte1 == 0x00)
    then type_ps2_mouse
    else if (byte0 == 0x03) && (byte1 == 0x03)
    then type_mouse_scr
    else if (byte0 == 0x04) && (byte1 == 0x04)
    then type_mouse_5b
    else if (byte0 == 0xab) && (byte1 == 0xc1)
    then type_mf2kbd_trans
    else if (byte0 == 0xab) && (byte1 == 0x41)
    then type_mf2kbd_trans
    else if (byte0 == 0xab) && (byte1 == 0x83)
    then type_mf2kbd
    else if (byte0 == ps2_ack) && (byte1 == ps2_ack)
    then type_atkbd_trans
    else type_unknown
