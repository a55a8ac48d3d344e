-- ===== src/Tty/Tests.antt =====
-- Tests of kernel/arch/i386/tty.c, and its theorems at a concrete screen.
use condor_fos.Base.{◌≡◌, some, Memory, get_or, [], ◌∷◌, arith}
use condor_fos.Tty.{Terminal, terminal_puts_color}
use condor_fos.Tty.Cursor.{IsOnScreen, IsOnScreen-puts}

-- The end of row 3, with the cursor shown.
abbrev row_end : Terminal
row_end = record {
  column = 79;
  row = 3;
  column_store = 0;
  row_store = 0;
  should_update_cursor = 1;
  default_color = 7;
  buffer = λ i. 0;
  ports = [];
}

-- "A", a tab, a backspace and a newline.
abbrev line : Memory
line a = get_or (65 ∷ 9 ∷ 8 ∷ 10 ∷ []) a 0

IsOnScreen-puts_example :
    (t : Terminal) × (terminal_puts_color 8 row_end line 0 7 ≡ some t) × IsOnScreen t
IsOnScreen-puts_example =
    IsOnScreen-puts 8 row_end line 0 7 (65 ∷ 9 ∷ 8 ∷ 10 ∷ []) (omega arith) (omega arith)
      (omega arith) (omega arith, omega arith)
