-- ===== src/Format.antt =====
-- libc/stdio: the loop of vprintf.c and vsprintf.c, which differ in where they print, and the
-- functions on the terminal. Buffer has those on a string.
-- The strings lie in a memory `m` that is not written; `args` are the words of the variable
-- arguments. `amount` and the number of `%x` start without a value, which is a parameter.
pub mod Buffer
pub mod Pieces
pub mod Numerals
pub mod Steps
pub mod Conversions
pub mod Hex
pub mod Prints
pub mod Into
pub mod Tests
use condor_fos.Base.{
  ℕ, zero, suc, ◌+◌, ◌-◌, ◌^◌, Bool, true, false, not, ◌&&◌, ◌||◌, Option, none, some, List, [],
  ◌∷◌, ltb, ◌==◌, if◌then◌else◌, Memory, write, u8, u32, ℤ, pos, negsuc,
}
use condor_fos.Base.Options.{◌>>=◌}
use condor_fos.Bytes.{strlen}
use condor_fos.Ctype.{tolower}
use condor_fos.Digits.{ultoa, itoa}
use condor_fos.Tty.{Terminal, terminal_putchar}

-- The `n` bytes from `p` on.
abbrev pub bytes : (n : ℕ) → Memory → (p : ℕ) → List ℕ
bytes zero m p = []
bytes (suc n) m p = m p ∷ bytes n m (p + 1)

-- The local variables, with what is printed to.
pub record Format (S : Type 0) : Type 0 where
  pub amount : ℕ
  pub written : ℕ
  pub rejected_formater : Bool
  pub buffer : Memory
  pub next_arg : ℕ
  pub sink : S

-- A word as an `int`.
abbrev pub to_int : ℕ → ℤ
to_int number = if ltb number (2 ^ 31) then pos number else negsuc (2 ^ 32 - 1 - number)

-- The letters behind which `else` begins: c, s, d, i, u, x and X.
abbrev pub is_specifier : ℕ → Bool
is_specifier c =
    (c == 99)
    || ((c == 115) || ((c == 100) || ((c == 105) || ((c == 117) || ((c == 120) || (c == 88))))))

-- `for(size_t i = 0; i < strlen(buffer); i++) buffer[i] = tolower(buffer[i]);`, which keeps the
-- length. `outside` is what `tolower` reads outside its table.
unfoldable pub lower_buffer : (outside : ℕ → ℕ) (length : ℕ) → Memory → Memory
lower_buffer outside length buffer i =
    if ltb i length then u8 (tolower outside (buffer i)) else buffer i

-- The end of the round.
abbrev pub count_amount : {S : Type 0} → Format S → Format S
count_amount st = record st { written = u32 (st.written + st.amount); amount = 0 }

-- The loops that look for the end of something
-- have the fuel `k`.
module _ {S : Type 0} (print : List ℕ → S → S) (outside : ℕ → ℕ) (m : Memory) (args : ℕ → ℕ)
    (no_number k : ℕ) where
  -- `while(format[amount] && format[amount] != '%') amount++;`
  unfoldable pub span : (fuel format amount : ℕ) → Option ℕ
  span zero format amount = none
  span (suc fuel) format amount =
      let rest = span fuel format (amount + 1) in
      if (m (format + amount) == 0) || (m (format + amount) == 37) then some amount else rest

  -- `printc`: the first character whatever it is, and those up to the next `%`.
  unfoldable pub print_text : (format : ℕ) → Format S → Option (ℕ × Format S)
  print_text format st = do
    amount ← span k format 1
    some (
      format + amount,
      record st {
        amount = amount;
        written = u32 (st.written + amount);
        sink = print (bytes amount m format) st.sink;
      },
    )

  -- `while(*format == 'l')`: the length and the place behind it.
  unfoldable pub skip_length : (fuel format length : ℕ) → Option (ℕ × ℕ)
  skip_length zero format length = none
  skip_length (suc fuel) format length =
      let rest = skip_length fuel (format + 1) (length + 1) in
      if m format == 108 then rest else some (length, format)

  unfoldable pub put_char : Format S → Option (Format S)
  put_char st =
      some (record st {
        next_arg = st.next_arg + 1;
        sink = print (u8 (args st.next_arg) ∷ []) st.sink;
      })

  unfoldable pub put_string : Format S → Option (Format S)
  put_string st = do
    let s = args st.next_arg
    length ← strlen k m s
    some (record st { next_arg = st.next_arg + 1; sink = print (bytes length m s) st.sink })

  -- A number that is in the buffer at `str`.
  unfoldable pub put_buffer : Format S → ℕ × Memory → Option (Format S)
  put_buffer st (str, buffer) = do
    length ← strlen k buffer str
    some (record st {
      buffer = buffer;
      amount = u32 (st.amount + length);
      sink = print (bytes length buffer str) st.sink;
    })

  -- An `int64_t` is two words, of which `size_t number` keeps the first.
  unfoldable pub put_signed : (length : ℕ) → Format S → Option (Format S)
  put_signed length st = do
    digits ← itoa st.buffer (to_int (args st.next_arg)) 0 10
    put_buffer (record st { next_arg = st.next_arg + (if length == 2 then 2 else 1) }) digits

  unfoldable pub put_unsigned : Format S → Option (Format S)
  put_unsigned st = do
    digits ← ultoa st.buffer (args st.next_arg) 0 10
    put_buffer (record st { next_arg = st.next_arg + 1 }) digits

  -- Without a length, or with one above 2, no argument is read.
  unfoldable pub put_hex : (pound : Bool) (length : ℕ) (lower : Bool) → Format S → Option (Format S)
  put_hex pound length lower st = do
    let given = (length == 1) || (length == 2)
    let number = if given then args st.next_arg else no_number
    let prefixed = if pound then print (48 ∷ 120 ∷ []) st.sink else st.sink
    (str, digits) ← ultoa st.buffer number 0 16
    count ← strlen k digits str
    put_buffer (record st { next_arg = st.next_arg + (if given then 1 else 0); sink = prefixed })
        (str, (if lower then lower_buffer outside count digits else digits))

  unfoldable pub convert : (pound : Bool) (length specifier : ℕ) → Format S → Option (Format S)
  convert pound length specifier st =
      if specifier == 99
      then put_char st
      else if specifier == 115
      then put_string st
      else if (specifier == 100) || (specifier == 105)
      then put_signed length st
      else if specifier == 117
      then put_unsigned st
      else put_hex pound length (specifier == 120) st

  -- From `format_start` on, behind the `%`.
  unfoldable pub format_spec : (format_start : ℕ) → Format S → Option (ℕ × Format S)
  format_spec format_start st = do
    let pound = m format_start == 35
    (length, at) ← skip_length k (if pound then format_start + 1 else format_start) 0
    if is_specifier (m at)
        then (convert pound length (m at) st >>= (λ st'. some (at + 1, count_amount st')))
        else print_text format_start (record st { amount = 0; rejected_formater = true })

  -- One round of the loop.
  unfoldable pub format_step : (format : ℕ) → Format S → Option (ℕ × Format S)
  format_step format st =
      if not (m format == 37)
      then print_text format st
      else if (m (format + 1) == 37) || st.rejected_formater
      then print_text (format + 1) st
      else format_spec (format + 1) st

  unfoldable pub format_loop : (fuel format : ℕ) → Format S → Option (Format S)
  format_loop zero format st = none
  format_loop (suc fuel) format st = elim (m format == 0) [
    | true ↦ some st
    | false ↦ format_step format st >>= (λ (next, st'). format_loop fuel next st')
  ]

-- `putchar`, which calls `kputchar`.
unfoldable pub kputchar : Terminal → (c : ℕ) → Terminal
kputchar t c = terminal_putchar t (u8 c)

unfoldable pub putchar : Terminal → (ic : ℕ) → ℕ × Terminal
unfolding kputchar
putchar t ic = (ic, kputchar t ic)

-- `print` of vprintf.c.
unfoldable pub print_chars : List ℕ → Terminal → Terminal
print_chars [] t = t
print_chars (c ∷ cs) t = print_chars cs (putchar t c).1

-- The state before the first round.
abbrev pub initial : {S : Type 0} → (amount : ℕ) → Memory → S → Format S
initial amount buffer sink = record {
  amount = amount;
  written = 0;
  rejected_formater = false;
  buffer = buffer;
  next_arg = 0;
  sink = sink;
}

module _ (outside : ℕ → ℕ) (m : Memory) (args : ℕ → ℕ) (no_amount no_number : ℕ) (buffer : Memory)
    (fuel : ℕ) where
  unfoldable pub vprintf : (format : ℕ) → Terminal → Option (ℕ × Terminal)
  vprintf format t = do
    st ←
        format_loop print_chars outside m args no_number fuel fuel format
          (initial no_amount buffer t)
    some (st.written, st.sink)

  -- The arguments of `printf` are those that it passes on.
  unfoldable pub printf : (format : ℕ) → Terminal → Option (ℕ × Terminal)
  printf format t = vprintf format t

-- `newline` is the address of the literal "%s\n".
unfoldable pub puts :
    (outside : ℕ → ℕ) (m : Memory) (no_amount no_number : ℕ) (buffer : Memory) (fuel newline : ℕ)
    → (str : ℕ) → Terminal
    → Option (ℕ × Terminal)
puts outside m no_amount no_number buffer fuel newline str t =
    printf outside m (λ i. str) no_amount no_number buffer fuel newline t
