-- ===== src/Keyboard/Keys.antt =====
-- kernel/include/kernel/keyboard.h: the codes of the keys that print.
use condor_fos.Base.{ℕ}

abbrev pub key_none : ℕ
key_none = 0

abbrev pub key_a : ℕ
key_a = 1

abbrev pub key_b : ℕ
key_b = 2

abbrev pub key_c : ℕ
key_c = 3

abbrev pub key_d : ℕ
key_d = 4

abbrev pub key_e : ℕ
key_e = 5

abbrev pub key_f : ℕ
key_f = 6

abbrev pub key_g : ℕ
key_g = 7

abbrev pub key_h : ℕ
key_h = 8

abbrev pub key_i : ℕ
key_i = 9

abbrev pub key_j : ℕ
key_j = 10

abbrev pub key_k : ℕ
key_k = 11

abbrev pub key_l : ℕ
key_l = 12

abbrev pub key_m : ℕ
key_m = 13

abbrev pub key_n : ℕ
key_n = 14

abbrev pub key_o : ℕ
key_o = 15

abbrev pub key_p : ℕ
key_p = 16

abbrev pub key_q : ℕ
key_q = 17

abbrev pub key_r : ℕ
key_r = 18

abbrev pub key_s : ℕ
key_s = 19

abbrev pub key_t : ℕ
key_t = 20

abbrev pub key_u : ℕ
key_u = 21

abbrev pub key_v : ℕ
key_v = 22

abbrev pub key_w : ℕ
key_w = 23

abbrev pub key_x : ℕ
key_x = 24

abbrev pub key_y : ℕ
key_y = 25

abbrev pub key_z : ℕ
key_z = 26

abbrev pub key_0 : ℕ
key_0 = 27

abbrev pub key_1 : ℕ
key_1 = 28

abbrev pub key_2 : ℕ
key_2 = 29

abbrev pub key_3 : ℕ
key_3 = 30

abbrev pub key_4 : ℕ
key_4 = 31

abbrev pub key_5 : ℕ
key_5 = 32

abbrev pub key_6 : ℕ
key_6 = 33

abbrev pub key_7 : ℕ
key_7 = 34

abbrev pub key_8 : ℕ
key_8 = 35

abbrev pub key_9 : ℕ
key_9 = 36

abbrev pub key_grave : ℕ
key_grave = 37

abbrev pub key_dash : ℕ
key_dash = 38

abbrev pub key_equals : ℕ
key_equals = 39

abbrev pub key_backslash : ℕ
key_backslash = 40

abbrev pub key_space : ℕ
key_space = 41

abbrev pub key_tab : ℕ
key_tab = 42

abbrev pub key_kp_slash : ℕ
key_kp_slash = 43

abbrev pub key_kp_star : ℕ
key_kp_star = 44

abbrev pub key_kp_minus : ℕ
key_kp_minus = 45

abbrev pub key_kp_plus : ℕ
key_kp_plus = 46

abbrev pub key_kp_dot : ℕ
key_kp_dot = 47

abbrev pub key_kp_0 : ℕ
key_kp_0 = 48

abbrev pub key_kp_1 : ℕ
key_kp_1 = 49

abbrev pub key_kp_2 : ℕ
key_kp_2 = 50

abbrev pub key_kp_3 : ℕ
key_kp_3 = 51

abbrev pub key_kp_4 : ℕ
key_kp_4 = 52

abbrev pub key_kp_5 : ℕ
key_kp_5 = 53

abbrev pub key_kp_6 : ℕ
key_kp_6 = 54

abbrev pub key_kp_7 : ℕ
key_kp_7 = 55

abbrev pub key_kp_8 : ℕ
key_kp_8 = 56

abbrev pub key_kp_9 : ℕ
key_kp_9 = 57

abbrev pub key_rbrace : ℕ
key_rbrace = 58

abbrev pub key_semicolon : ℕ
key_semicolon = 59

abbrev pub key_apostrophe : ℕ
key_apostrophe = 60

abbrev pub key_comma : ℕ
key_comma = 61

abbrev pub key_dot : ℕ
key_dot = 62

abbrev pub key_slash : ℕ
key_slash = 63

abbrev pub key_lbrace : ℕ
key_lbrace = 64

abbrev pub key_backspace : ℕ
key_backspace = 65

abbrev pub key_enter : ℕ
key_enter = 66

abbrev pub key_kp_enter : ℕ
key_kp_enter = 67
