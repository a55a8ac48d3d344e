-- ===== src/Serial/Tests.antt =====
-- Tests of the serial line, and its theorem at a concrete port.
use condor_fos.Base.{
  ℕ, ◌-◌, ◌≡◌, refl, some, List, [], ◌∷◌, ◌++◌, ◌==◌, if◌then◌else◌, Memory, min, arith,
}
use condor_fos.Bytes.Compare.{IsLength}
use condor_fos.Serial.{serial_init, serial_writechar, serial_writes}
use condor_fos.Serial.Writes.{all_on_line, serial_writes_lem}

-- What the port has taken, and how many reads of the status it is not ready for, at most two.
abbrev Port : Type 0
Port = List ℕ × ℕ

abbrev inb : Port → ℕ → ℕ × Port
inb (taken, left) port = (if min left 2 == 0 then 32 else 0, (taken, min left 2 - 1))

abbrev outb : Port → ℕ → ℕ → Port
outb (taken, left) port c = (taken ++ c ∷ [], 2)

abbrev io_wait : Port → Port
io_wait d = d

-- "A", a newline, "B" and a 0.
abbrev text : Memory
text i = if i == 0 then 65 else if i == 1 then 10 else if i == 2 then 66 else 0

text-IsLength : IsLength text 0 3
text-IsLength = (refl, λ i h. ground arith)

newline_test : serial_writechar inb outb io_wait 9 ([], 1) 0x3f8 10 ≡ some (13 ∷ 10 ∷ [], 2)
unfolding serial_writechar condor_fos.Serial.wait condor_fos.Serial.serial_write_ready
    condor_fos.Serial.send
newline_test = refl

serial_writes_lem_example :
    (d' : Port) × (serial_writes inb outb io_wait 9 ([], 1) text 0x3f8 0 ≡ some d')
    × (d'.0 ≡ [] ++ all_on_line 3 text 0)
serial_writes_lem_example =
    serial_writes_lem inb outb io_wait 0x3f8 (λ d. d.0) (λ d. min d.1 2) 2 (λ d. omega arith)
      (λ d. ground arith) (λ d. omega arith) (λ d. refl) (λ d c. refl) (λ d. refl) 9 ([], 1) text 0
      3 text-IsLength (omega arith) (omega arith) (omega arith)
