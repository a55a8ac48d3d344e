-- ===== src/Log.antt =====
-- kernel/kernel/klogger.c: messages with a level, on the terminal and on the first serial line. The
-- strings lie in a memory that is not written; `levels` has the addresses in the table of that name,
-- and `closing` is the address of the literal "] ".
pub mod Levels
pub mod Lines
pub mod Tests
use condor_fos.Base.{
  ℕ, ◌+◌, ◌-◌, ◌/◌, ◌^◌, Bool, true, false, ◌||◌, Option, none, some, List, [], ◌∷◌, ltb, ◌==◌,
  if◌then◌else◌, Memory, u16, ℤ, pos, negsuc,
}
use condor_fos.Base.Options.{◌>>=◌}
use condor_fos.Bytes.{strlen}
use condor_fos.Format.{bytes}
use condor_fos.Tty.{
  Terminal, vga_make_color, terminal_get_color, terminal_putchar_color, terminal_puts_color,
  terminal_puts,
}
use condor_fos.Serial.{serial_writechar, serial_writes}

abbrev pub level_fatal : ℤ
level_fatal = pos 3

abbrev pub level_error : ℤ
level_error = pos 2

abbrev pub level_warning : ℤ
level_warning = pos 1

abbrev pub level_normal : ℤ
level_normal = pos 0

abbrev pub level_info : ℤ
level_info = negsuc 0

abbrev pub level_debug : ℤ
level_debug = negsuc 1

abbrev pub level_fine : ℤ
level_fine = negsuc 2

abbrev pub is_level : ℤ → ℤ → Bool
is_level (pos a) (pos b) = a == b
is_level (pos a) (negsuc b) = false
is_level (negsuc a) (pos b) = false
is_level (negsuc a) (negsuc b) = a == b

abbrev pub is_above : ℤ → ℤ → Bool
is_above (pos a) (pos b) = ltb b a
is_above (pos a) (negsuc b) = true
is_above (negsuc a) (pos b) = false
is_above (negsuc a) (negsuc b) = ltb a b

-- `level > LOG_FATAL || level < LOG_FINE`.
abbrev pub is_unknown : ℤ → Bool
is_unknown level = is_above level level_fatal || is_above level_fine level

-- `level + 3` as a `uint16_t`.
abbrev pub plus_three : ℤ → ℕ
plus_three (pos n) = u16 (n + 3)
plus_three (negsuc n) = if ltb n 3 then 2 - n else u16 (2 ^ 16 + 2 - n)

unfoldable pub level_index : ℤ → ℕ
level_index level = if is_unknown level then 7 else plus_three level

-- The color of the level, over the background of `color`.
unfoldable pub level_color : ℤ → (color : ℕ) → ℕ
level_color level color =
    let over = λ (foreground : ℕ). vga_make_color foreground (color / 16) in
    let c0 = over 7 in
    let c1 = if is_level level level_fine then over 8 else c0 in
    let c2 = if is_level level level_debug then over 2 else c1 in
    let c3 = if is_level level level_info then over 7 else c2 in
    let c4 = if is_level level level_normal then over 10 else c3 in
    let c5 = if is_level level level_warning then over 14 else c4 in
    let c6 = if is_level level level_error then over 4 else c5 in
    let c7 = if is_level level level_fatal then over 12 else c6 in
    if is_unknown level then over 9 else c7

abbrev pub white_over : Terminal → ℕ
white_over t = vga_make_color 15 (terminal_get_color t / 16)

abbrev pub com1 : ℕ
com1 = 0x3f8

module _ {D : Type 0} (inb : D → ℕ → ℕ × D) (outb : D → ℕ → ℕ → D) (io_wait : D → D) (fuel : ℕ)
    (m : Memory) (levels : ℕ → ℕ) (closing : ℕ) where
  -- What goes to the terminal.
  unfoldable pub show_message : ℤ → (string : ℕ) → Terminal → Option Terminal
  show_message level string t = do
    let opened = terminal_putchar_color t 91 (white_over t)
    let color = level_color level (terminal_get_color t)
    named ← terminal_puts_color fuel opened m (levels (level_index level)) color
    closed ← terminal_puts_color fuel named m closing (white_over named)
    terminal_puts fuel closed m string

  -- What goes to the serial line.
  unfoldable pub send_message : ℤ → (string : ℕ) → D → Option D
  send_message level string d = do
    d1 ← serial_writechar inb outb io_wait fuel d com1 91
    d2 ← serial_writes inb outb io_wait fuel d1 m com1 (levels (level_index level))
    d3 ← serial_writes inb outb io_wait fuel d2 m com1 closing
    d4 ← serial_writes inb outb io_wait fuel d3 m com1 string
    some (io_wait d4)

  unfoldable pub log : ℤ → (string : ℕ) → Terminal × D → Option (Terminal × D)
  log level string (t, d) = do
    t' ← show_message level string t
    d' ← send_message level string d
    some (t', d')

  unfoldable pub log_ferr : (string : ℕ) → Terminal × D → Option (Terminal × D)
  log_ferr string w = log level_fatal string w

  unfoldable pub log_erro : (string : ℕ) → Terminal × D → Option (Terminal × D)
  log_erro string w = log level_error string w

  unfoldable pub log_warn : (string : ℕ) → Terminal × D → Option (Terminal × D)
  log_warn string w = log level_warning string w

  unfoldable pub log_norm : (string : ℕ) → Terminal × D → Option (Terminal × D)
  log_norm string w = log level_normal string w

  unfoldable pub log_info : (string : ℕ) → Terminal × D → Option (Terminal × D)
  log_info string w = log level_info string w

  unfoldable pub log_debg : (string : ℕ) → Terminal × D → Option (Terminal × D)
  log_debg string w = log level_debug string w

  unfoldable pub log_fine : (string : ℕ) → Terminal × D → Option (Terminal × D)
  log_fine string w = log level_fine string w
