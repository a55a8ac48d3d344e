-- ===== src/Tty.antt =====
-- kernel/arch/i386/tty.c: the text screen. `buffer` is the memory at `vga_buffer` in 16-bit cells,
-- 80 to a row; the screen shows 25 rows and the row behind them is used by the scroll. `ports` has
-- the bytes that were sent to ports, the last one first.
pub mod Strings
pub mod Cursor
pub mod Stored
pub mod Tests
use condor_fos.Base.{
  ℕ, zero, suc, ◌+◌, ◌-◌, ◌*◌, ◌/◌, ◌%◌, ◌^◌, Bool, true, false, ◌&&◌, Option, none, some, List, [],
  ◌∷◌, ltb, leb, ◌==◌, if◌then◌else◌, Memory, write, u8, u16, bit_or,
}
use condor_fos.Base.Options.{◌>>=◌}
use condor_fos.Bytes.{strlen}

abbrev pub vga_width : ℕ
vga_width = 80

abbrev pub vga_height : ℕ
vga_height = 25

abbrev pub vga_make_color : (foreground background : ℕ) → ℕ
vga_make_color foreground background = u8 (bit_or (u8 background * 16) (u8 foreground))

abbrev pub vga_make_entry : (uc color : ℕ) → ℕ
vga_make_entry uc color = bit_or (u8 uc) (u8 color * 256)

pub record Terminal : Type 0 where
  pub column : ℕ
  pub row : ℕ
  pub column_store : ℕ
  pub row_store : ℕ
  pub should_update_cursor : ℕ
  pub default_color : ℕ
  pub buffer : Memory
  pub ports : List (ℕ × ℕ)

unfoldable pub put_entry_at : Terminal → (x y uc : ℕ) → Terminal
put_entry_at t x y uc = record t { buffer = write t.buffer (u16 (x + y * vga_width)) uc }

-- The assembly of `terminal_scroll`, with the upper half of EAX clear. It copies 960 double words
-- from row 2 to row 1, so the hidden row 25 comes up as row 24, and fills the hidden row with the
-- double word 0x10000, which is what it makes of the color and the flags of `terminal`.
unfoldable pub scrolled : Memory → Memory
scrolled m i =
    if leb 80 i && ltb i 2000 then m (i + 80) else if leb 2000 i && ltb i 2080 then i % 2 else m i

unfoldable pub terminal_scroll : Terminal → Terminal
terminal_scroll t = record t { buffer = scrolled t.buffer; column = 0; row = u8 (t.row + 255) }

-- `terminal_column = 0; if(++terminal_row >= VGA_HEIGHT) terminal_scroll();`.
unfoldable pub next_line : Terminal → Terminal
next_line t =
    let down = record t { column = 0; row = u8 (t.row + 1) } in
    if leb vga_height down.row then terminal_scroll down else down

-- `++terminal_column` and the line break when the column has reached `limit`.
unfoldable pub next_column : (limit : ℕ) → Terminal → Terminal
next_column limit t =
    let right = record t { column = u8 (t.column + 1) } in
    if leb limit right.column then next_line right else right

unfoldable pub terminal_move_cursor : Terminal → (x y : ℕ) → Terminal
terminal_move_cursor t x y =
    let column = if ltb vga_width x then vga_width else x in
    let position = u16 (column + y * vga_width) in
    let moved = record t { column = column; row = y } in
    if t.should_update_cursor == 0 then moved else record moved {
      ports =
          (0x3d5, position / 256) ∷ (0x3d4, 0xe) ∷ (0x3d5, position % 256) ∷ (0x3d4, 0xf) ∷ t.ports;
    }

abbrev pub blank : Terminal → ℕ
blank t = vga_make_entry 32 t.default_color

-- The four rounds of a tab, which breaks the line behind column 80 only.
unfoldable pub tab : ℕ → Terminal → Terminal
tab zero t = t
tab (suc n) t = tab n (next_column 81 (put_entry_at t t.column t.row (blank t)))

unfoldable pub back : Terminal → Terminal
back t =
    let left = record t { column = u8 (t.column + 255) } in
    put_entry_at left left.column left.row (blank left)

-- The characters that `terminal_checkChar` finds.
abbrev pub is_special : ℕ → Bool
is_special c = if c == 10 then true else if c == 9 then true else c == 8

-- The branches of `terminal_specialChar` for such a character.
unfoldable pub special : Terminal → ℕ → Terminal
special t c = if c == 10 then next_line t else if c == 9 then tab 4 t else back t

-- A character without the cursor move behind it.
unfoldable pub put_plain : Terminal → (uc color : ℕ) → Terminal
put_plain t uc color =
    next_column vga_width (put_entry_at t t.column t.row (vga_make_entry uc color))

abbrev pub show_cursor : Terminal → Terminal
show_cursor t = terminal_move_cursor t t.column t.row

unfoldable pub terminal_putchar_color : Terminal → (uc color : ℕ) → Terminal
terminal_putchar_color t uc color =
    if is_special uc then show_cursor (special t uc) else show_cursor (put_plain t uc color)

unfoldable pub terminal_putchar : Terminal → ℕ → Terminal
terminal_putchar t uc = terminal_putchar_color t uc t.default_color

-- The body of the loop of `terminal_puts_Color`, and the loop over the characters of the string, which
-- does not lie in the buffer of the screen. `none` stands for a loop that has not ended.
unfoldable pub put_one : Terminal → (c color : ℕ) → Terminal
put_one t c color = if is_special c then show_cursor (special t c) else put_plain t c color

-- `len` is the length of the string, and the index has 16 bits.
unfoldable pub put_all : (fuel len : ℕ) → Terminal → Memory → (string i color : ℕ) → Option Terminal
put_all zero len t m string i color = none
put_all (suc fuel) len t m string i color =
    let t' = put_one t (m (string + i)) color in
    let rest = put_all fuel len t' m string ((i + 1) % 2 ^ 16) color in
    if ltb i len then rest else some t

unfoldable pub terminal_puts_color :
    (fuel : ℕ) → Terminal → Memory → (string color : ℕ) → Option Terminal
terminal_puts_color fuel t m string color = do
  len ← strlen fuel m string
  written ← put_all fuel len t m string 0 color
  some (show_cursor written)

-- The default color does not change while the string is printed.
unfoldable pub terminal_puts : (fuel : ℕ) → Terminal → Memory → (string : ℕ) → Option Terminal
terminal_puts fuel t m string = terminal_puts_color fuel t m string t.default_color

unfoldable pub terminal_clear : Terminal → Terminal
terminal_clear t = record t {
  buffer =
      λ i. if ltb i (vga_width * vga_height) then vga_make_entry 0 t.default_color else t.buffer i;
}

unfoldable pub terminal_init : Terminal → Terminal
terminal_init t =
    terminal_clear (record t {
      column = 0;
      row = 1;
      should_update_cursor = 1;
      default_color = vga_make_color 7 0;
    })

abbrev pub terminal_store_position : Terminal → Terminal
terminal_store_position t = record t { column_store = t.column; row_store = t.row }

abbrev pub terminal_restore_position : Terminal → Terminal
terminal_restore_position t = record t { column = t.column_store; row = t.row_store }

abbrev pub terminal_set_color : Terminal → (fg bg : ℕ) → Terminal
terminal_set_color t fg bg = record t { default_color = vga_make_color fg bg }

abbrev pub terminal_get_color : Terminal → ℕ
terminal_get_color t = t.default_color

abbrev pub terminal_set_should_update_cursor : Terminal → (value : ℕ) → Terminal
terminal_set_should_update_cursor t value = record t { should_update_cursor = value }
