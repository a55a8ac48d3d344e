-- ===== src/Keyboard/Controls.antt =====
-- kernel/include/kernel/keyboard.h: the codes of the other keys.
use condor_fos.Base.{ℕ}

abbrev pub key_caps_lock : ℕ
key_caps_lock = 68

abbrev pub key_lshift : ℕ
key_lshift = 69

abbrev pub key_lctrl : ℕ
key_lctrl = 70

abbrev pub key_lgui : ℕ
key_lgui = 71

abbrev pub key_lalt : ℕ
key_lalt = 72

abbrev pub key_rshift : ℕ
key_rshift = 73

abbrev pub key_rctrl : ℕ
key_rctrl = 74

abbrev pub key_rgui : ℕ
key_rgui = 75

abbrev pub key_ralt : ℕ
key_ralt = 76

abbrev pub key_apps : ℕ
key_apps = 77

abbrev pub key_escape : ℕ
key_escape = 78

abbrev pub key_f1 : ℕ
key_f1 = 79

abbrev pub key_f2 : ℕ
key_f2 = 80

abbrev pub key_f3 : ℕ
key_f3 = 81

abbrev pub key_f4 : ℕ
key_f4 = 82

abbrev pub key_f5 : ℕ
key_f5 = 83

abbrev pub key_f6 : ℕ
key_f6 = 84

abbrev pub key_f7 : ℕ
key_f7 = 85

abbrev pub key_f8 : ℕ
key_f8 = 86

abbrev pub key_f9 : ℕ
key_f9 = 87

abbrev pub key_f10 : ℕ
key_f10 = 88

abbrev pub key_f11 : ℕ
key_f11 = 89

abbrev pub key_f12 : ℕ
key_f12 = 90

abbrev pub key_scroll_lock : ℕ
key_scroll_lock = 92

abbrev pub key_pause : ℕ
key_pause = 93

abbrev pub key_insert : ℕ
key_insert = 94

abbrev pub key_home : ℕ
key_home = 95

abbrev pub key_pg_up : ℕ
key_pg_up = 96

abbrev pub key_delete : ℕ
key_delete = 97

abbrev pub key_end : ℕ
key_end = 98

abbrev pub key_pg_down : ℕ
key_pg_down = 99

abbrev pub key_u_arrow : ℕ
key_u_arrow = 100

abbrev pub key_l_arrow : ℕ
key_l_arrow = 101

abbrev pub key_d_arrow : ℕ
key_d_arrow = 102

abbrev pub key_r_arrow : ℕ
key_r_arrow = 103

abbrev pub key_num_lock : ℕ
key_num_lock = 104

abbrev pub key_power : ℕ
key_power = 105

abbrev pub key_sleep : ℕ
key_sleep = 106

abbrev pub key_wake : ℕ
key_wake = 107

abbrev pub key_nxt_track : ℕ
key_nxt_track = 108

abbrev pub key_prv_track : ℕ
key_prv_track = 109

abbrev pub key_stop : ℕ
key_stop = 110

abbrev pub key_play : ℕ
key_play = 111

abbrev pub key_mute : ℕ
key_mute = 112

abbrev pub key_vol_up : ℕ
key_vol_up = 113

abbrev pub key_vol_down : ℕ
key_vol_down = 114

abbrev pub key_media_sel : ℕ
key_media_sel = 115

abbrev pub key_email : ℕ
key_email = 116

abbrev pub key_calculator : ℕ
key_calculator = 117

abbrev pub key_my_pc : ℕ
key_my_pc = 118

abbrev pub key_www_search : ℕ
key_www_search = 119

abbrev pub key_www_home : ℕ
key_www_home = 120

abbrev pub key_www_back : ℕ
key_www_back = 121

abbrev pub key_www_forward : ℕ
key_www_forward = 122

abbrev pub key_www_refrsh : ℕ
key_www_refrsh = 124

abbrev pub key_www_fav : ℕ
key_www_fav = 125
