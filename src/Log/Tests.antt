-- ===== src/Log/Tests.antt =====
-- Messages of two levels, and the theorem at one of them.
use condor_fos.Base.{
  ℕ, zero, suc, ◌-◌, ◌*◌, ◌/◌, ◌%◌, ◌<◌, ◌≡◌, refl, arith, some, List, [], ◌∷◌, ◌++◌, ltb, ◌==◌,
  if◌then◌else◌, get_or, Memory, min, pos, negsuc,
}
use condor_fos.Tty.{Terminal}
use condor_fos.Log.{level_index, level_color, level_warning, log}
use condor_fos.Log.Levels.{level_names}
use condor_fos.Tty.Strings.{HasText}
use condor_fos.Log.Lines.{HasLiterals, sent_as, message, log_lem}

-- What the port has taken, and how many reads of the status it is not ready for, at most two.
abbrev Port : Type 0
Port = List ℕ × ℕ

abbrev inb : Port → ℕ → ℕ × Port
inb (taken, left) port = (if min left 2 == 0 then 32 else 0, (taken, min left 2 - 1))

abbrev outb : Port → ℕ → ℕ → Port
outb (taken, left) port c = (taken ++ c ∷ [], 2)

abbrev io_wait : Port → Port
io_wait d = d

-- The names at 0, 8, 16 and so on, "] " at 64 and "hi" with a newline at 70.
abbrev strings : Memory
strings a =
    if ltb a 64
    then get_or (level_names (a / 8)) (a % 8) 0
    else get_or (93 ∷ 32 ∷ 0 ∷ 0 ∷ 0 ∷ 0 ∷ 104 ∷ 105 ∷ 10 ∷ []) (a - 64) 0

abbrev levels : ℕ → ℕ
levels i = i * 8

names : (i : ℕ) → i < 8 → HasText strings (levels i) (level_names i)
names zero h = omega arith
names (suc zero) h = omega arith
names (suc (suc zero)) h = omega arith
names (suc (suc (suc zero))) h = omega arith
names (suc (suc (suc (suc zero)))) h = omega arith
names (suc (suc (suc (suc (suc zero))))) h = omega arith
names (suc (suc (suc (suc (suc (suc zero)))))) h = omega arith
names (suc (suc (suc (suc (suc (suc (suc zero))))))) h = omega arith
names (suc (suc (suc (suc (suc (suc (suc (suc i)))))))) h = absurd (omega arith)

literals : HasLiterals strings levels 64
literals = record { names = names; close = omega arith }

unknown_level : level_index (negsuc 32767) ≡ 7
unfolding level_index
unknown_level = refl

red_over_blue : level_color (pos 2) 0x1f ≡ 0x14
unfolding level_color
red_over_blue = refl

abbrev screen : Terminal
screen = record {
  column = 0;
  row = 0;
  column_store = 0;
  row_store = 0;
  should_update_cursor = 0;
  default_color = 7;
  buffer = λ i. 0;
  ports = [];
}

log_lem_example :
    (d' : Port) × (log inb outb io_wait 9 strings levels 64 level_warning 70 (screen, ([], 1))
      ≡ some (message screen level_warning (104 ∷ 105 ∷ 10 ∷ []), d'))
    × (d'.0 ≡ [] ++ sent_as (91 ∷ ((87 ∷ 65 ∷ 82 ∷ 78 ∷ []) ++ (93 ∷ 32 ∷ 104 ∷ 105 ∷ 10 ∷ []))))
log_lem_example =
    log_lem inb outb io_wait (λ d. d.0) (λ d. min d.1 2) 2 (λ d. omega arith) (λ d. ground arith)
      (λ d. omega arith) (λ d. refl) (λ d c. refl) (λ d. refl) 9 strings levels 64 level_warning 70
      (104 ∷ 105 ∷ 10 ∷ []) screen ([], 1) literals (omega arith) (omega arith) (omega arith)
      (omega arith) (omega arith)
