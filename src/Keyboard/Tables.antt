-- ===== src/Keyboard/Tables.antt =====
-- kernel/kernel/keyboard.c: the tables. A mapping is the pair of the characters without and with
-- shift; the character for AltGr is 0 in every row, and a row that is left out is zero.
use condor_fos.Base.{ℕ, List, [], ◌∷◌}
use condor_fos.Keyboard.Keys.{
  key_0, key_1, key_2, key_3, key_4, key_5, key_6, key_7, key_8, key_9, key_a, key_apostrophe,
  key_b, key_backslash, key_backspace, key_c, key_comma, key_d, key_dash, key_dot, key_e, key_enter,
  key_equals, key_f, key_g, key_grave, key_h, key_i, key_j, key_k, key_kp_0, key_kp_1, key_kp_2,
  key_kp_3, key_kp_4, key_kp_5, key_kp_6, key_kp_7, key_kp_8, key_kp_9, key_kp_dot, key_kp_enter,
  key_kp_minus, key_kp_plus, key_kp_slash, key_kp_star, key_l, key_lbrace, key_m, key_n, key_none,
  key_o, key_p, key_q, key_r, key_rbrace, key_s, key_semicolon, key_slash, key_space, key_t,
  key_tab, key_u, key_v, key_w, key_x, key_y, key_z,
}
use condor_fos.Keyboard.Controls.{
  key_apps, key_calculator, key_caps_lock, key_d_arrow, key_delete, key_email, key_end, key_escape,
  key_f1, key_f10, key_f11, key_f12, key_f2, key_f3, key_f4, key_f5, key_f6, key_f7, key_f8, key_f9,
  key_home, key_insert, key_l_arrow, key_lalt, key_lctrl, key_lgui, key_lshift, key_media_sel,
  key_mute, key_my_pc, key_num_lock, key_nxt_track, key_pg_down, key_pg_up, key_play, key_power,
  key_prv_track, key_r_arrow, key_ralt, key_rctrl, key_rgui, key_rshift, key_scroll_lock, key_sleep,
  key_stop, key_u_arrow, key_vol_down, key_vol_up, key_wake, key_www_back, key_www_fav,
  key_www_forward, key_www_home, key_www_refrsh, key_www_search,
}

abbrev pub translation_map : List ℕ
translation_map =
    key_none ∷ key_f9 ∷ key_none ∷ key_f5 ∷ key_f3 ∷ key_f1 ∷ key_f2 ∷ key_f12 ∷ key_none ∷ key_f10
    ∷ key_f8 ∷ key_f6 ∷ key_f4 ∷ key_tab ∷ key_grave ∷ key_none ∷ key_none ∷ key_lalt ∷ key_lshift
    ∷ key_none ∷ key_lctrl ∷ key_q ∷ key_1 ∷ key_none ∷ key_none ∷ key_none ∷ key_z ∷ key_s ∷ key_a
    ∷ key_w ∷ key_2 ∷ key_none ∷ key_none ∷ key_c ∷ key_x ∷ key_d ∷ key_e ∷ key_4 ∷ key_3 ∷ key_none
    ∷ key_none ∷ key_space ∷ key_v ∷ key_f ∷ key_t ∷ key_r ∷ key_5 ∷ key_none ∷ key_none ∷ key_n
    ∷ key_b ∷ key_h ∷ key_g ∷ key_y ∷ key_6 ∷ key_none ∷ key_none ∷ key_none ∷ key_m ∷ key_j ∷ key_u
    ∷ key_7 ∷ key_8 ∷ key_none ∷ key_none ∷ key_comma ∷ key_k ∷ key_i ∷ key_o ∷ key_0 ∷ key_9
    ∷ key_none ∷ key_none ∷ key_dot ∷ key_slash ∷ key_l ∷ key_semicolon ∷ key_p ∷ key_dash
    ∷ key_none ∷ key_none ∷ key_none ∷ key_apostrophe ∷ key_none ∷ key_lbrace ∷ key_equals
    ∷ key_none ∷ key_none ∷ key_caps_lock ∷ key_rshift ∷ key_enter ∷ key_rbrace ∷ key_none
    ∷ key_backslash ∷ key_none ∷ key_none ∷ key_none ∷ key_none ∷ key_none ∷ key_none ∷ key_none
    ∷ key_none ∷ key_backspace ∷ key_none ∷ key_none ∷ key_kp_1 ∷ key_none ∷ key_kp_4 ∷ key_kp_7
    ∷ key_none ∷ key_none ∷ key_none ∷ key_kp_0 ∷ key_kp_dot ∷ key_kp_2 ∷ key_kp_5 ∷ key_kp_6
    ∷ key_kp_8 ∷ key_escape ∷ key_num_lock ∷ key_f11 ∷ key_kp_plus ∷ key_kp_3 ∷ key_kp_minus
    ∷ key_kp_star ∷ key_kp_9 ∷ key_scroll_lock ∷ key_none ∷ key_none ∷ key_none ∷ key_none ∷ key_f7
    ∷ []

abbrev pub translation_map_e0 : List ℕ
translation_map_e0 =
    key_www_search ∷ key_ralt ∷ key_none ∷ key_none ∷ key_rctrl ∷ key_prv_track ∷ key_none
    ∷ key_none ∷ key_www_fav ∷ key_none ∷ key_none ∷ key_none ∷ key_none ∷ key_none ∷ key_none
    ∷ key_lgui ∷ key_www_refrsh ∷ key_vol_down ∷ key_none ∷ key_mute ∷ key_none ∷ key_none
    ∷ key_none ∷ key_rgui ∷ key_stop ∷ key_none ∷ key_none ∷ key_calculator ∷ key_none ∷ key_none
    ∷ key_none ∷ key_apps ∷ key_www_forward ∷ key_none ∷ key_vol_up ∷ key_none ∷ key_play ∷ key_none
    ∷ key_none ∷ key_power ∷ key_www_back ∷ key_none ∷ key_www_home ∷ key_stop ∷ key_none ∷ key_none
    ∷ key_none ∷ key_sleep ∷ key_my_pc ∷ key_none ∷ key_none ∷ key_none ∷ key_none ∷ key_none
    ∷ key_none ∷ key_email ∷ key_kp_slash ∷ key_none ∷ key_none ∷ key_nxt_track ∷ key_none
    ∷ key_none ∷ key_media_sel ∷ key_none ∷ key_none ∷ key_none ∷ key_none ∷ key_none ∷ key_none
    ∷ key_none ∷ key_none ∷ key_none ∷ key_none ∷ key_kp_enter ∷ key_none ∷ key_none ∷ key_none
    ∷ key_wake ∷ key_none ∷ key_none ∷ key_none ∷ key_none ∷ key_none ∷ key_none ∷ key_none
    ∷ key_none ∷ key_none ∷ key_none ∷ key_end ∷ key_none ∷ key_l_arrow ∷ key_home ∷ key_none
    ∷ key_none ∷ key_none ∷ key_insert ∷ key_delete ∷ key_d_arrow ∷ key_none ∷ key_r_arrow
    ∷ key_u_arrow ∷ key_none ∷ key_none ∷ key_none ∷ key_none ∷ key_pg_down ∷ key_none ∷ key_none
    ∷ key_pg_up ∷ []

abbrev pub def_mapping : List (ℕ × ℕ)
def_mapping =
    (0, 0)
    ∷ (97, 65)
    ∷ (98, 66)
    ∷ (99, 67)
    ∷ (100, 68)
    ∷ (101, 69)
    ∷ (102, 70)
    ∷ (103, 71)
    ∷ (104, 72)
    ∷ (105, 73)
    ∷ (106, 74)
    ∷ (107, 75)
    ∷ (108, 76)
    ∷ (109, 77)
    ∷ (110, 78)
    ∷ (111, 79)
    ∷ (112, 80)
    ∷ (113, 81)
    ∷ (114, 82)
    ∷ (115, 83)
    ∷ (116, 84)
    ∷ (117, 85)
    ∷ (118, 86)
    ∷ (119, 87)
    ∷ (120, 88)
    ∷ (121, 89)
    ∷ (122, 90)
    ∷ (48, 41)
    ∷ (49, 33)
    ∷ (50, 64)
    ∷ (51, 35)
    ∷ (52, 36)
    ∷ (53, 37)
    ∷ (54, 94)
    ∷ (55, 38)
    ∷ (56, 42)
    ∷ (57, 40)
    ∷ (96, 126)
    ∷ (45, 95)
    ∷ (61, 43)
    ∷ (92, 124)
    ∷ (32, 32)
    ∷ (9, 0)
    ∷ (47, 47)
    ∷ (42, 42)
    ∷ (45, 45)
    ∷ (43, 43)
    ∷ (46, 0)
    ∷ (48, 0)
    ∷ (49, 0)
    ∷ (50, 0)
    ∷ (51, 0)
    ∷ (52, 0)
    ∷ (53, 0)
    ∷ (54, 0)
    ∷ (55, 0)
    ∷ (56, 0)
    ∷ (57, 0)
    ∷ (93, 125)
    ∷ (59, 58)
    ∷ (39, 34)
    ∷ (44, 60)
    ∷ (46, 62)
    ∷ (47, 63)
    ∷ (91, 123)
    ∷ (8, 8)
    ∷ (10, 10)
    ∷ (10, 10)
    ∷ (0, 0)
    ∷ (0, 0)
    ∷ []
