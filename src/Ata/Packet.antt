-- ===== src/Ata/Packet.antt =====
-- The packet commands of kernel/kernel/ata/ata.c: atapi_sendCommand and the transfers on top of it.
use condor_fos.Base.{
  ℕ, zero, suc, ◌+◌, ◌*◌, ◌/◌, ◌%◌, ◌^◌, Bool, true, false, not, ◌||◌, ltb, ◌==◌, if◌then◌else◌,
  write, bit_and, bit_or, ◌<<<◌,
}
use condor_fos.Machine.{Ports, at_port, has, Action, pure, when, spin, gets, modify, ◌>>=◌, ◌>>◌}
use condor_fos.Ata.Reg.{
  features, command, byte_lo, byte_hi, type_invalid, type_atapi, packet, atapi_read_6,
  atapi_read_12, atapi_write_6, atapi_write_12, command_read, command_write, command_misc,
}
use condor_fos.Ata.{
  Ata, inb, inw, outb, outw, controller, change, is_poisoned, read_four, switch_device,
  wait_for_irq,
}

unfoldable pub atapi_get_command_type : ℕ → ℕ
atapi_get_command_type opcode =
    if bit_and opcode atapi_read_6 == atapi_read_6
    then command_read
    else if bit_and opcode atapi_write_6 == atapi_write_6
    then command_write
    else command_misc

-- The twelve bytes of a transfer of sectors.
unfoldable pub packet_of : (opcode lba sector_count : ℕ) → ℕ → ℕ
packet_of opcode lba sector_count i =
    if i == 0
    then opcode
    else if i == 2
    then bit_and (lba / 2 ^ 18) 0xff
    else if i == 3
    then bit_and (lba / 2 ^ 10) 0xff
    else if i == 4
    then bit_and (lba / 2 ^ 8) 0xff
    else if i == 5
    then bit_and lba 0xff
    else if i == 9
    then sector_count
    else 0

module _ {D : Type 0} (io : Ports D) (halt : D → Bool × D) where
  -- `while(inb(alt_status) & 0x80 && !(inb(alt_status) & 0x08)) asm("pause");`
  unfoldable pub wait_ready : (fuel alt : ℕ) → Action (Ata D) (Unit {0})
  wait_ready zero alt = spin
  wait_ready (suc fuel) alt = do
    first ← inb io halt alt
    when (has first 0x80)
        do second ← inb io halt alt; when (not (has second 0x08)) (wait_ready fuel alt)

  -- `count` words of the command from word `i` on, the low byte first.
  unfoldable pub send_words : (count base : ℕ) (bytes : ℕ → ℕ) (i : ℕ) → Action (Ata D) (Unit {0})
  send_words zero base bytes i = pure tt
  send_words (suc count) base bytes i = do
    outw io halt base (bit_or (bytes (2 * i)) (bytes (2 * i + 1) <<< 8))
    send_words count base bytes (i + 1)

  -- The label `size8`, up to the `break` or through the next case.
  unfoldable pub send_size8 :
      (base : ℕ) → (ℕ → ℕ) → (command_length : ℕ) → Action (Ata D) (Unit {0})
  send_size8 base bytes command_length =
      when (not (ltb command_length 16))
        do send_words 2 base bytes 6; when (not (ltb command_length 32)) (send_words 8 base bytes 8)

  -- The words of the command, with the `switch` on `max_command_length`.
  unfoldable pub send_command :
      (base : ℕ) → (ℕ → ℕ) → (command_length max_length : ℕ) → Action (Ata D) (Unit {0})
  send_command base bytes command_length max_length = do
    send_words 3 base bytes 0
    when (not (ltb command_length 6)) do
      send_words 3 base bytes 3
      when (max_length == 1) (send_size8 base bytes command_length)
      when (max_length == 2) (
          if ltb command_length 32
          then send_size8 base bytes command_length
          else send_words 8 base bytes 8)

  -- One word between the data register and the buffer, as the command says.
  unfoldable pub move_word : (base opcode buffer index : ℕ) → Action (Ata D) (Unit {0})
  move_word base opcode buffer index = do
    when (atapi_get_command_type opcode == command_read) do
      word ← inw io halt base
      modify (λ s. record s { memory = write s.memory (buffer + index) word })
    when (atapi_get_command_type opcode == command_write)
        do word ← gets (λ s. s.memory (buffer + index)); outw io halt base word

  -- The `for` loop with `rounds` words left: the last status and the index behind it.
  unfoldable pub move_words :
      (rounds base alt opcode buffer index status : ℕ) → Action (Ata D) (ℕ × ℕ)
  move_words zero base alt opcode buffer index status = pure (status, index)
  move_words (suc rounds) base alt opcode buffer index status = do
    now ← inb io halt alt
    if has now 0x1 then pure (now, index) else do
      again ← inb io halt alt
      if not (has again 0x08) then pure (now, index) else do
        move_word base opcode buffer index
        move_words rounds base alt opcode buffer ((index + 1) % 2 ^ 32) now

  -- From the label `tryAgain` on.
  unfoldable pub transfer :
      (fuel device base alt opcode buffer word_count index : ℕ) → Action (Ata D) Bool
  transfer zero device base alt opcode buffer word_count index = spin
  transfer (suc fuel) device base alt opcode buffer word_count index = do
    read_four io halt alt
    moved ← move_words word_count base alt opcode buffer index 0
    if has moved.0 0x01 then pure false else do
      wait_for_irq io halt device
      more ← inb io halt alt
      if has more 0x08
          then (do
            wait_for_irq io halt device
            transfer fuel device base alt opcode buffer word_count moved.1)
          else do change io halt device (λ c. record c { in_use = false }); pure true

  unfoldable pub atapi_send_command :
      (fuel device : ℕ) (bytes : ℕ → ℕ) (command_length buffer : ℕ) → Action (Ata D) Bool
  atapi_send_command fuel device bytes command_length buffer = do
    poisoned ← is_poisoned io halt
    if poisoned then pure false else do
      base ← switch_device io halt device
      c ← controller io halt device
      if not (c.interface_type == type_atapi) || c.in_use || (base == 0xffff)
          then pure false
          else do
            change io halt device (λ c. record c { in_use = true })
            outb io halt (at_port base features) 0
            outb io halt (at_port base byte_lo) 0
            outb io halt (at_port base byte_hi) 1
            outb io halt (at_port base command) packet
            wait_ready fuel c.alt_port
            send_command base bytes command_length c.max_command_length
            wait_for_irq io halt device
            low ← inb io halt (at_port base byte_lo)
            high ← inb io halt (at_port base byte_hi)
            let word_count = bit_or low (high <<< 8) / 2
            transfer fuel device base c.alt_port (bytes 0) buffer word_count 0

  -- `sector_count == 0 || lba > 0x0FFFFFFF || controllers == POISON_NULL`.
  unfoldable pub has_no_range : (lba sector_count : ℕ) → Action (Ata D) Bool
  has_no_range lba sector_count = do
    poisoned ← is_poisoned io halt
    pure ((sector_count == 0) || ltb 0x0fff_ffff lba || poisoned)

  unfoldable pub atapi_read_sectors :
      (fuel device lba sector_count destination : ℕ) → Action (Ata D) Bool
  atapi_read_sectors fuel device lba sector_count destination = do
    bad ← has_no_range lba sector_count
    if bad then pure false else do
      c ← controller io halt device
      if not (c.interface_type == type_atapi) then pure false else do
        sent ←
            atapi_send_command fuel device (packet_of atapi_read_12 lba sector_count) 12 destination
        pure true

  unfoldable pub atapi_write_sectors :
      (fuel device lba sector_count destination : ℕ) → Action (Ata D) Bool
  atapi_write_sectors fuel device lba sector_count destination = do
    bad ← has_no_range lba sector_count
    if bad then pure false else do
      c ← controller io halt device
      if (c.interface_type == type_invalid) || not (c.interface_type == type_atapi)
          then pure false
          else do
            sent ←
                atapi_send_command fuel device (packet_of atapi_write_12 lba sector_count) 12
                  destination
            pure (not (destination == 0))
