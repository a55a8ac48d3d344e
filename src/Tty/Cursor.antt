-- ===== src/Tty/Cursor.antt =====
-- Where the cursor can be, and what a character changes on the screen.
use condor_fos.Base.{
  some, length, Memory, ℕ, zero, suc, ◌+◌, ◌*◌, ◌%◌, ◌^◌, ◌≤◌, ◌<◌, ◌≡◌, refl, false, List, [], ◌∷◌,
  ltb, leb, ◌==◌, if◌then◌else◌, u8, arith, Bool-cases, inl, inr,
}
use condor_fos.Tty.{
  put_one, Terminal, put_entry_at, terminal_scroll, next_line, next_column, terminal_move_cursor,
  tab, back, is_special, special, put_plain, show_cursor, terminal_putchar_color,
  terminal_puts_color, vga_make_entry,
}
use condor_fos.Tty.Strings.{HasText, put_each, printed, terminal_puts_color-HasText}

-- The cursor is in one of the 25 rows, and at most one column behind the last.
abbrev pub IsOnScreen : Terminal → Type 0
IsOnScreen t = (t.column ≤ 80) × (t.row < 25)

IsOnScreen-next_line : (t : Terminal) → t.row < 25 → IsOnScreen (next_line t)
unfolding next_line terminal_scroll
IsOnScreen-next_line t h = elim (Bool-cases (leb 25 (u8 (t.row + 1)))) [
  | inl bottom ↦ rw bottom (omega arith, ground arith)
  | inr inside ↦ rw inside (omega arith, ground arith)
]

IsOnScreen-next_column :
    (limit : ℕ) (t : Terminal) → limit ≤ 81 → t.row < 25 → IsOnScreen (next_column limit t)
unfolding next_column
IsOnScreen-next_column limit t small h = elim (Bool-cases (leb limit (u8 (t.column + 1)))) [
  | inl wrap ↦ rw wrap (IsOnScreen-next_line _ h)
  | inr stay ↦ rw stay (ground arith, h)
]

IsOnScreen-tab : (n : ℕ) (t : Terminal) → IsOnScreen t → IsOnScreen (tab n t)
unfolding tab put_entry_at
IsOnScreen-tab zero t h = h
IsOnScreen-tab (suc n) t h = IsOnScreen-tab n _ (IsOnScreen-next_column 81 _ (omega arith) h.1)

IsOnScreen-show_cursor : (t : Terminal) → t.row < 25 → IsOnScreen (show_cursor t)
unfolding terminal_move_cursor
IsOnScreen-show_cursor t h = elim (Bool-cases (t.should_update_cursor == 0)) [
  | inl hidden ↦ rw hidden (ground arith, h)
  | inr shown ↦ rw shown (ground arith, h)
]

row-special : (t : Terminal) (c : ℕ) → IsOnScreen t → (special t c).row < 25
unfolding special back put_entry_at
row-special t c h = elim (Bool-cases (c == 10)) [
  | inl line ↦ rw line (IsOnScreen-next_line t h.1).1
  | inr other ↦ elim (Bool-cases (c == 9)) [
    | inl tabs ↦ rw (other, tabs) (IsOnScreen-tab 4 t h).1
    | inr backspace ↦ rw (other, backspace) h.1
  ]
]

IsOnScreen-put_plain :
    (t : Terminal) (c color : ℕ) → IsOnScreen t → IsOnScreen (put_plain t c color)
unfolding put_plain put_entry_at
IsOnScreen-put_plain t c color h = IsOnScreen-next_column 80 _ (omega arith) h.1

-- Every character, printed anywhere on the screen, leaves the cursor on the screen.
pub IsOnScreen-putchar :
    (t : Terminal) (c color : ℕ) → IsOnScreen t → IsOnScreen (terminal_putchar_color t c color)
unfolding terminal_putchar_color
IsOnScreen-putchar t c color h = elim (Bool-cases (is_special c)) [
  | inl control ↦ rw control (IsOnScreen-show_cursor (special t c) (row-special t c h))
  | inr plain ↦
      rw plain (IsOnScreen-show_cursor (put_plain t c color) (IsOnScreen-put_plain t c color h).1)
]

IsOnScreen-put_one : (t : Terminal) (c color : ℕ) → IsOnScreen t → IsOnScreen (put_one t c color)
unfolding put_one
IsOnScreen-put_one t c color h = elim (Bool-cases (is_special c)) [
  | inl control ↦ rw control (IsOnScreen-show_cursor (special t c) (row-special t c h))
  | inr plain ↦ rw plain (IsOnScreen-put_plain t c color h)
]

IsOnScreen-put_each :
    (cs : List ℕ) (t : Terminal) (color : ℕ) → IsOnScreen t → IsOnScreen (put_each t cs color)
IsOnScreen-put_each [] t color h = h
IsOnScreen-put_each (c ∷ cs) t color h =
    IsOnScreen-put_each cs (put_one t c color) color (IsOnScreen-put_one t c color h)

-- A string of fewer than 65536 characters, printed with the cursor in one of the 25 rows and up to
-- one column behind the last, ends once the fuel is larger than its length, and leaves the cursor
-- there.
pub IsOnScreen-puts :
    (fuel : ℕ) (t : Terminal) (m : Memory) (string color : ℕ) (cs : List ℕ)
    → HasText m string cs
    → length cs < 2 ^ 16
    → length cs < fuel
    → IsOnScreen t
    → (t' : Terminal) × (terminal_puts_color fuel t m string color ≡ some t') × IsOnScreen t'
IsOnScreen-puts fuel t m string color cs has short enough h = (
  printed t cs color,
  terminal_puts_color-HasText fuel m t string color cs has short enough,
  IsOnScreen-show_cursor (put_each t cs color) (IsOnScreen-put_each cs t color h).1,
)

-- Showing the cursor changes the ports only.
show_cursor-keeps :
    (t : Terminal) (i : ℕ)
    → t.column ≤ 80
    → ((show_cursor t).column ≡ t.column)
      × ((show_cursor t).row ≡ t.row)
      × ((show_cursor t).buffer i ≡ t.buffer i)
unfolding terminal_move_cursor
show_cursor-keeps t i h =
    let inside : ltb 80 t.column ≡ false = ground arith in
    elim (Bool-cases (t.should_update_cursor == 0)) [
      | inl hidden ↦ rw (hidden, inside) (refl, refl, refl)
      | inr shown ↦ rw (shown, inside) (refl, refl, refl)
    ]

-- The cell and the cursor behind a character that is not the last of the screen.
put_plain-cell :
    (t : Terminal) (c color i : ℕ)
    → t.column < 80
    → t.row < 25
    → t.column + t.row * 80 < 1999
    → ((put_plain t c color).buffer i
        ≡ (if (t.column + t.row * 80) == i then vga_make_entry c color else t.buffer i))
      × ((put_plain t c color).column + (put_plain t c color).row * 80 ≡ t.column + t.row * 80 + 1)
      × ((put_plain t c color).column < 80)
unfolding put_plain next_column next_line put_entry_at
put_plain-cell t c color i x y fits =
    let index : (t.column + t.row * 80) % 2 ^ 16 ≡ t.column + t.row * 80 = omega arith in
    elim (Bool-cases (leb 80 (u8 (t.column + 1)))) [
      | inl wrap ↦
          let inside : leb 25 (u8 (t.row + 1)) ≡ false = ground arith in
          rw (wrap, inside, index) (refl, ground arith, omega arith)
      | inr stay ↦ rw (stay, index) (refl, ground arith, ground arith)
    ]

-- A plain character at a cursor in the 80 columns and 25 rows but not in the last cell is written to
-- the cell of the cursor, no other cell changes, and the cursor goes to the next cell.
putchar-plain :
    (t : Terminal) (c color i : ℕ)
    → is_special c ≡ false
    → t.column < 80
    → t.row < 25
    → t.column + t.row * 80 < 1999
    → ((terminal_putchar_color t c color).buffer i
        ≡ (if (t.column + t.row * 80) == i then vga_make_entry c color else t.buffer i))
      × ((terminal_putchar_color t c color).column + (terminal_putchar_color t c color).row * 80
          ≡ t.column + t.row * 80 + 1)
      × ((terminal_putchar_color t c color).column < 80)
unfolding terminal_putchar_color
putchar-plain t c color i plain x y fits =
    let (cell, place, right) = put_plain-cell t c color i x y fits in
    let kept = show_cursor-keeps (put_plain t c color) i (omega arith) in
    rw plain (rw (kept.0, kept.1, kept.2) (cell, place, right))
