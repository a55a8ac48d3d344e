-- ===== src/Scheduler/Shown.antt =====
-- The line that `scheduler_preempt` shows of the current process, in the first row of the terminal.
pub mod Tests
use condor_fos.Base.{
  ℕ, zero, suc, ◌+◌, ◌*◌, ◌/◌, ◌%◌, ◌^◌, ◌<◌, ◌≡◌, refl, arith, ◌∙◌, sym, ap, Bool, true, false,
  ◌||◌, Option, some, List, [], ◌∷◌, ◌==◌, if◌then◌else◌, Memory, u8, bit_or, bit_or_zero, ◌≢◌,
  Bool-cases, inl, inr,
}
use condor_fos.Base.Options.{◌>>=◌}
use condor_fos.Pmm.Alloc.{poison_null}
use condor_fos.Tty.{
  Terminal, terminal_store_position, terminal_restore_position, terminal_set_color,
  terminal_get_color, terminal_set_should_update_cursor, terminal_move_cursor, terminal_putchar,
}
use condor_fos.Tty.Stored.{KeepsStored, same, both, KeepsStored-putchar}
use condor_fos.Format.{printf, putchar, kputchar, print_chars}
use condor_fos.Format.Pieces.{Piece, text, spec, signed, hex, IsFormat, ShowsAll}
use condor_fos.Format.Prints.{vprintf_lem}
use condor_fos.Scheduler.{StackState, Process, Scheduler, scheduler_preempt}

-- The arguments of the line: the number of the process and its `eip`, the word at place 13.
abbrev pub shown_args : Process → ℕ → ℕ
shown_args p i = if i == 0 then p.pid else p.regs.registers 13

abbrev pub at_top : Terminal → Terminal
at_top t =
    terminal_move_cursor (terminal_set_should_update_cursor (terminal_store_position t) 0) 0 0

-- From `terminal_storePosition` on. `line` is the address of the format in the memory `m`.
module _ (outside : ℕ → ℕ) (m : Memory) (no_amount no_number : ℕ) (buffer : Memory)
    (fuel line : ℕ) where
  unfoldable pub show_current : Process → Terminal → Option Terminal
  show_current p t = do
    let top = at_top t
    let old_color = terminal_get_color top
    (written, shown) ←
        printf outside m (shown_args p) no_amount no_number buffer fuel line
          (terminal_set_color top 15 0)
    let colored = terminal_set_color shown (old_color % 2 ^ 8) (old_color / 2 ^ 8)
    some (terminal_restore_position (terminal_set_should_update_cursor colored 1))

  -- The whole function, which returns early without the line.
  unfoldable pub preempt_shown :
      Scheduler → StackState → Terminal → Option (Scheduler × StackState × Terminal)
  preempt_shown s state t =
      let (s', state') = scheduler_preempt s state in
      if (s.p_current == poison_null) || s.is_schedueling_proc
      then some (s', state', t)
      else (show_current (s'.heap s'.p_current) t >>= (λ t'. some (s', state', t')))

KeepsStored-print_chars : (cs : List ℕ) (t : Terminal) → KeepsStored t (print_chars cs t)
unfolding print_chars putchar kputchar terminal_putchar
KeepsStored-print_chars [] t = same t
KeepsStored-print_chars (c ∷ cs) t =
    both t _ _ (KeepsStored-putchar t (u8 c) t.default_color) (KeepsStored-print_chars cs _)

-- "Current PID(%d): (EIP: %#lx)" and a newline.
abbrev pub shown_line : List Piece
shown_line =
    text false 12 ∷ spec (signed false) ∷ text false 9 ∷ spec (hex true true) ∷ text false 2 ∷ []

-- The position, the color and the update of the cursor as they are when the line has been shown.
pub record IsRestored (t t' : Terminal) : Type 0 where
  pub column : t'.column ≡ t.column
  pub row : t'.row ≡ t.row
  pub color : t'.default_color ≡ t.default_color
  pub update_cursor : t'.should_update_cursor ≡ 1

-- Where the line is written, and its color: white on black, without the hardware cursor.
abbrev pub white_at_top : Terminal → Terminal
white_at_top t = record t {
  column = 0;
  row = 0;
  column_store = t.column;
  row_store = t.row;
  should_update_cursor = 0;
  default_color = 15;
}

-- The terminal behind the line of a process: the text of the line, with the number of the process and
-- its `eip` for the specifiers, stands on it as the characters printed from the top left corner.
abbrev pub IsShown : (m : Memory) (line : ℕ) → Process → (t t' : Terminal) → Type 0
IsShown m line p t t' =
    (out : List ℕ) × ShowsAll m (shown_args p) shown_line line 0 out
    × (t'.buffer ≡ (print_chars out (white_at_top t)).buffer)
    × IsRestored t t'

color_back :
    (color : ℕ) → color < 256 → u8 (bit_or (u8 (color / 2 ^ 8) * 16) (u8 (color % 2 ^ 8))) ≡ color
color_back color h =
    let high : u8 (color / 2 ^ 8) * 16 ≡ 0 = omega arith in
    let low : u8 (color % 2 ^ 8) ≡ color = omega arith in
    rw (high, low, bit_or_zero color) (omega arith)

show_current_lem :
    (outside : ℕ → ℕ) (m : Memory) (no_amount no_number : ℕ) (buffer : Memory) (fuel line : ℕ)
    (p : Process) (t : Terminal)
    → 33 < fuel
    → IsFormat m (shown_args p) fuel shown_line line 0
    → t.default_color < 256
    → (t' : Terminal) × (show_current outside m no_amount no_number buffer fuel line p t ≡ some t')
      × IsShown m line p t t'
unfolding show_current printf terminal_move_cursor
show_current_lem outside m no_amount no_number buffer fuel line p t wide format small =
    let start = white_at_top t in
    let (out, written, shows, is) =
      vprintf_lem outside m (shown_args p) no_amount no_number buffer fuel line shown_line start
        wide (omega arith) format in
    let kept = KeepsStored-print_chars out start in
    (
      terminal_restore_position (
          terminal_set_should_update_cursor
            (terminal_set_color (print_chars out start) (t.default_color % 2 ^ 8)
              (t.default_color / 2 ^ 8))
            1),
      (rw is refl),
      (
        out,
        shows,
        refl,
        record {
          column = kept.column;
          row = kept.row;
          color = color_back t.default_color small;
          update_cursor = refl;
        },
      ),
    )

-- A preemption that does not return early ends: the scheduler and the registers are those of
-- `scheduler_preempt`. The screen has the characters of the line of the process that is current then,
-- with its number in decimal and its `eip` in hexadecimal, printed in white from the top left corner.
-- The terminal has its position and its color back, and the update of its cursor is on. The format
-- of the line and the number and the `eip` of the process fit each other, the color has 8 bits, and
-- the fuel is above 33.
pub preempt_shown_lem :
    (outside : ℕ → ℕ) (m : Memory) (no_amount no_number : ℕ) (buffer : Memory) (fuel line : ℕ)
    (s s' : Scheduler) (state state' : StackState) (t : Terminal)
    → 33 < fuel
    → s.p_current ≢ poison_null
    → s.is_schedueling_proc ≡ false
    → scheduler_preempt s state ≡ (s', state')
    → IsFormat m (shown_args (s'.heap s'.p_current)) fuel shown_line line 0
    → t.default_color < 256
    → (t' : Terminal) × (preempt_shown outside m no_amount no_number buffer fuel line s state t
        ≡ some (s', state', t'))
      × IsShown m line (s'.heap s'.p_current) t t'
unfolding preempt_shown
preempt_shown_lem outside m no_amount no_number buffer fuel line s s' state state' t wide
      some_process free switch format small =
    let (t', shown, restored) =
      show_current_lem outside m no_amount no_number buffer fuel line (s'.heap s'.p_current) t wide
        format small in
    let go : ((s.p_current == poison_null) || s.is_schedueling_proc) ≡ false =
      ground (arith, free) in
    (t', (rw (switch, go, shown) refl), restored)
