-- ===== src/Log/Lines.antt =====
-- The line that a message makes on the terminal and on the serial line.
use mathlib.Core.List.{append_assoc}
use condor_fos.Base.{
  length, ℕ, zero, suc, ◌+◌, ◌-◌, ◌/◌, ◌^◌, ◌≤◌, ◌<◌, ◌≡◌, refl, arith, ap, sym, ◌∙◌, some, List,
  [], ◌∷◌, ◌++◌, ltb, ◌==◌, Memory, bit_and, ℤ, pos, negsuc,
}
use condor_fos.Tty.{Terminal, vga_make_color, terminal_putchar_color, terminal_puts}
use condor_fos.Tty.Strings.{HasText, HasText-IsLength, printed, terminal_puts_color-HasText}
use condor_fos.Serial.{register, serial_writes}
use condor_fos.Serial.Writes.{on_line, all_on_line, serial_writechar_lem, serial_writes_lem}
use condor_fos.Log.{com1, white_over, level_index, level_color, show_message, send_message, log}
use condor_fos.Log.Levels.{
  name_of, color_of, level_names, level_names-level_index, level_index-fits, level_color_lem,
}

-- The bytes that characters are sent as.
abbrev pub sent_as : List ℕ → List ℕ
sent_as [] = []
sent_as (c ∷ cs) = on_line c ++ sent_as cs

sent_as-append : (xs ys : List ℕ) → sent_as (xs ++ ys) ≡ sent_as xs ++ sent_as ys
sent_as-append [] ys = refl
sent_as-append (x ∷ xs) ys =
    rw (sent_as-append xs ys) (sym (append_assoc (on_line x) (sent_as xs) (sent_as ys)))

all_on_line-HasText :
    (m : Memory) (p : ℕ) (cs : List ℕ) → HasText m p cs → all_on_line (length cs) m p ≡ sent_as cs
all_on_line-HasText m p [] end = refl
all_on_line-HasText m p (c ∷ cs) (here, nonzero, rest) =
    rw (here, all_on_line-HasText m (p + 1) cs rest) refl

length-name_of : (level : ℤ) → length (name_of level) ≡ 4
length-name_of (pos zero) = refl
length-name_of (pos (suc zero)) = refl
length-name_of (pos (suc (suc zero))) = refl
length-name_of (pos (suc (suc (suc zero)))) = refl
length-name_of (pos (suc (suc (suc (suc n))))) = refl
length-name_of (negsuc zero) = refl
length-name_of (negsuc (suc zero)) = refl
length-name_of (negsuc (suc (suc zero))) = refl
length-name_of (negsuc (suc (suc (suc n)))) = refl

-- A message on the terminal: the name in its color between white brackets, and the string.
abbrev pub message : Terminal → ℤ → List ℕ → Terminal
message t level cs =
    let opened = terminal_putchar_color t 91 (white_over t) in
    let color = vga_make_color (color_of level) (t.default_color / 16) in
    let named = printed opened (name_of level) color in
    let closed = printed named (93 ∷ 32 ∷ []) (white_over named) in
    printed closed cs closed.default_color

-- The strings of the messages: the table of names, and the literal behind a name.
pub record HasLiterals (m : Memory) (levels : ℕ → ℕ) (closing : ℕ) : Type 0 where
  pub names : (i : ℕ) → i < 8 → HasText m (levels i) (level_names i)
  pub close : HasText m closing (93 ∷ 32 ∷ [])

HasText-name :
    (m : Memory) (levels : ℕ → ℕ) (closing : ℕ) (level : ℤ)
    → HasLiterals m levels closing
    → HasText m (levels (level_index level)) (name_of level)
HasText-name m levels closing level lits =
    rw (← level_names-level_index level) (lits.names (level_index level) (level_index-fits level))

show_message_lem :
    {D : Type 0} (inb : D → ℕ → ℕ × D) (outb : D → ℕ → ℕ → D) (io_wait : D → D) (fuel : ℕ)
    (m : Memory) (levels : ℕ → ℕ) (closing : ℕ) (level : ℤ) (string : ℕ) (cs : List ℕ)
    (t : Terminal)
    → HasLiterals m levels closing
    → HasText m string cs
    → length cs < 2 ^ 16
    → 4 < fuel
    → length cs < fuel
    → show_message inb outb io_wait fuel m levels closing level string t ≡ some (message t level cs)
unfolding show_message terminal_puts
show_message_lem inb outb io_wait fuel m levels closing level string cs t lits has short four
      enough =
    let puts = terminal_puts_color-HasText fuel m in
    let opened = terminal_putchar_color t 91 (white_over t) in
    let named = printed opened (name_of level) (level_color level t.default_color) in
    let closed = printed named (93 ∷ 32 ∷ []) (white_over named) in
    rw
      (
        puts opened (levels (level_index level)) (level_color level t.default_color) (name_of level)
            (HasText-name m levels closing level lits) (omega (arith, length-name_of level))
            (omega (arith, length-name_of level)),
        puts named closing (white_over named) (93 ∷ 32 ∷ []) lits.close (omega arith) (omega arith),
        puts closed string closed.default_color cs has short enough,
        level_color_lem level t.default_color,
      )
      refl

-- The device of Serial.Writes, at the first port.
module _ {D : Type 0} (inb : D → ℕ → ℕ × D) (outb : D → ℕ → ℕ → D) (io_wait : D → D)
    (sent : D → List ℕ) (busy : D → ℕ) (limit : ℕ) (busy-limit : (d : D) → busy d ≤ limit)
    (status : (d : D)
      → (bit_and (inb d (register inb outb io_wait com1 5)).0 0x20 == 0) ≡ ltb 0 (busy d))
    (busy-inb : (d : D) → busy (inb d (register inb outb io_wait com1 5)).1 ≡ busy d - 1)
    (sent-inb : (d : D) → sent (inb d (register inb outb io_wait com1 5)).1 ≡ sent d)
    (sent-outb : (d : D) (c : ℕ) → sent (outb d com1 c) ≡ sent d ++ c ∷ [])
    (sent-io_wait : (d : D) → sent (io_wait d) ≡ sent d) where
  serial_writes-HasText :
      (fuel : ℕ) (d : D) (m : Memory) (p : ℕ) (cs : List ℕ)
      → HasText m p cs
      → length cs < 2 ^ 16
      → limit < fuel
      → length cs < fuel
      → (d' : D) × (serial_writes inb outb io_wait fuel d m com1 p ≡ some d')
        × (sent d' ≡ sent d ++ sent_as cs)
  serial_writes-HasText fuel d m p cs has short waits enough =
      let (d', ends, all) =
        serial_writes_lem inb outb io_wait com1 sent busy limit busy-limit status busy-inb sent-inb
          sent-outb sent-io_wait fuel d m p (length cs) (HasText-IsLength m p cs has) short waits
          enough in
      (d', ends, all ∙ ap (λ l. sent d ++ l) (all_on_line-HasText m p cs has))

  send_message_lem :
      (fuel : ℕ) (m : Memory) (levels : ℕ → ℕ) (closing : ℕ) (level : ℤ) (string : ℕ) (cs : List ℕ)
      (d : D)
      → HasLiterals m levels closing
      → HasText m string cs
      → length cs < 2 ^ 16
      → limit < fuel
      → 4 < fuel
      → length cs < fuel
      → (d' : D) × (send_message inb outb io_wait fuel m levels closing level string d ≡ some d')
        × (sent d' ≡ sent d ++ sent_as (91 ∷ (name_of level ++ (93 ∷ 32 ∷ cs))))
  unfolding send_message
  send_message_lem fuel m levels closing level string cs d lits has short waits four enough =
      let (d1, one, sent1) =
        serial_writechar_lem inb outb io_wait com1 sent busy limit busy-limit status busy-inb
          sent-inb sent-outb sent-io_wait fuel d 91 waits in
      let (d2, two, sent2) =
        serial_writes-HasText fuel d1 m (levels (level_index level)) (name_of level)
          (HasText-name m levels closing level lits) (omega (arith, length-name_of level)) waits
          (omega (arith, length-name_of level)) in
      let (d3, three, sent3) =
        serial_writes-HasText fuel d2 m closing (93 ∷ 32 ∷ []) lits.close (omega arith) waits
          (omega arith) in
      let (d4, four_done, sent4) =
        serial_writes-HasText fuel d3 m string cs has short waits enough in
      (
        io_wait d4,
        (rw (one, two, three, four_done) refl),
        sent-io_wait d4
            ∙ sent4
            ∙ (rw (sent3, sent2, sent1, sent_as-append (name_of level) (93 ∷ 32 ∷ cs))
                (simp append_assoc)),
      )

  -- A message of any level is shown on the terminal with the name of the level in its color, and the
  -- name and the string of fewer than 65536 characters go to the first serial line, each newline as
  -- a carriage return and a newline. The table of names and the literal stand in the memory, the
  -- port is ready after at most `limit` reads of its status, and the fuel is larger than `limit`,
  -- than the length of the string and than 4.
  pub log_lem :
      (fuel : ℕ) (m : Memory) (levels : ℕ → ℕ) (closing : ℕ) (level : ℤ) (string : ℕ) (cs : List ℕ)
      (t : Terminal) (d : D)
      → HasLiterals m levels closing
      → HasText m string cs
      → length cs < 2 ^ 16
      → limit < fuel
      → 4 < fuel
      → length cs < fuel
      → (d' : D) × (log inb outb io_wait fuel m levels closing level string (t, d)
          ≡ some (message t level cs, d'))
        × (sent d' ≡ sent d ++ sent_as (91 ∷ (name_of level ++ (93 ∷ 32 ∷ cs))))
  unfolding log
  log_lem fuel m levels closing level string cs t d lits has short waits four enough =
      let (d', ends, all) =
        send_message_lem fuel m levels closing level string cs d lits has short waits four enough in
      (
        d',
        (rw
            (
              show_message_lem inb outb io_wait fuel m levels closing level string cs t lits has
                  short four enough,
              ends,
            )
            refl),
        all,
      )
