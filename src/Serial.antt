-- ===== src/Serial.antt =====
-- kernel/arch/i386/serial.c: the serial line, over a device `D` that the port instructions act on.
pub mod Writes
pub mod Tests
use condor_fos.Base.{
  ℕ, zero, suc, ◌+◌, ◌/◌, ◌%◌, ◌^◌, Option, none, some, ltb, ◌==◌, if◌then◌else◌, Memory, write, u8,
  bit_and,
}
use condor_fos.Base.Options.{◌>>=◌}
use condor_fos.Bytes.{strlen}

-- `inb`, `outb` and `io_wait` are the assembly of io.h.
module _ {D : Type 0} (inb : D → ℕ → ℕ × D) (outb : D → ℕ → ℕ → D) (io_wait : D → D) where
  -- A register at an offset from a 16 bit port.
  abbrev pub register : (port offset : ℕ) → ℕ
  register port offset = (port + offset) % 2 ^ 16

  -- `outb` with the `io_wait` behind it.
  abbrev pub out_wait : D → (port value : ℕ) → D
  out_wait d port value = io_wait (outb d port value)

  unfoldable pub serial_init : D → (port divisor : ℕ) → D
  serial_init d port divisor =
      let speed = if divisor == 0 then 1 else divisor in
      let d1 = out_wait d (register port 1) 0x00 in
      let d2 = out_wait d1 (register port 3) 0x80 in
      let d3 = out_wait d2 port (bit_and speed 0xff) in
      let d4 = out_wait d3 (register port 1) (u8 (speed / 2 ^ 8)) in
      let d5 = out_wait d4 (register port 3) 0x03 in
      let d6 = out_wait d5 (register port 2) 0xc7 in out_wait d6 (register port 4) 0x03

  unfoldable pub serial_read_ready : D → ℕ → ℕ × D
  serial_read_ready d port = let (status, d') = inb d (register port 5) in (bit_and status 1, d')

  unfoldable pub serial_write_ready : D → ℕ → ℕ × D
  serial_write_ready d port =
      let (status, d') = inb d (register port 5) in (bit_and status 0x20, d')

  -- `while(ready(port) == 0);`, where `none` is a wait that has not ended.
  unfoldable pub wait : (D → ℕ → ℕ × D) → (fuel : ℕ) → D → ℕ → Option D
  wait ready zero d port = none
  wait ready (suc fuel) d port =
      let rest = wait ready fuel (ready d port).1 port in
      if (ready d port).0 == 0 then rest else some (ready d port).1

  unfoldable pub serial_readchar : (fuel : ℕ) → D → ℕ → Option (ℕ × D)
  serial_readchar fuel d port = do ready ← wait serial_read_ready fuel d port; some (inb ready port)

  -- `for(uint16_t i = 0; i < length; i++) dest[i] = inb(port)`, with `n` rounds left, at `i`.
  unfoldable pub read_up : ℕ → D → Memory → (port dest i : ℕ) → Memory × D
  read_up zero d m port dest i = (m, d)
  read_up (suc n) d m port dest i =
      let (value, d') = inb d port in read_up n d' (write m (dest + i) value) port dest (i + 1)

  unfoldable pub serial_reads :
      (fuel : ℕ) → D → Memory → (port length dest : ℕ) → Option (Memory × D)
  serial_reads fuel d m port length dest = do
    ready ← wait serial_read_ready fuel d port
    some (read_up length ready m port dest 0)

  -- A newline is sent as a carriage return and a newline.
  unfoldable pub send : D → (port uc : ℕ) → D
  send d port uc = if uc == 10 then outb (outb d port 13) port 10 else outb d port uc

  unfoldable pub serial_writechar : (fuel : ℕ) → D → (port uc : ℕ) → Option D
  serial_writechar fuel d port uc = do
    ready ← wait serial_write_ready fuel d port
    some (send ready port uc)

  -- The loop over the string at `i`, a `uint16_t`, where `len` is what `strlen` gives.
  unfoldable pub write_up : (fuel len : ℕ) → D → Memory → (port string i : ℕ) → Option D
  write_up zero len d m port string i = none
  write_up (suc fuel) len d m port string i =
      let d' = send (io_wait d) port (m (string + i)) in
      let rest = write_up fuel len d' m port string ((i + 1) % 2 ^ 16) in
      if ltb i len then rest else some d

  unfoldable pub serial_writes : (fuel : ℕ) → D → Memory → (port string : ℕ) → Option D
  serial_writes fuel d m port string = do
    ready ← wait serial_write_ready fuel d port
    len ← strlen fuel m string
    sent ← write_up fuel len ready m port string 0
    wait serial_write_ready fuel sent port
