-- ===== src/Ata/Sectors.antt =====
-- The transfers of kernel/kernel/ata/ata.c that need no packet: ata_readSectors, ata_writeSectors.
use condor_fos.Base.{
  ℕ, zero, suc, ◌+◌, ◌/◌, ◌%◌, ◌^◌, Bool, true, false, not, ◌||◌, leb, ◌==◌, if◌then◌else◌, write,
  bit_and, bit_or, ◌<<<◌,
}
use condor_fos.Machine.{Ports, at_port, has, Action, pure, when, spin, gets, modify, ◌>>=◌, ◌>>◌}
use condor_fos.Ata.Reg.{
  sect_count, lba_lo, lba_mi, lba_hi, device_sel, command, status, device_invalid, type_invalid,
  type_ata, read_sectors, read_sectors_ext, write_sectors, write_sectors_ext, flush_cache,
  flush_cache_ext,
}
use condor_fos.Ata.{
  Ata, inb, inw, outb, outw, controller, change, is_poisoned, switch_device, wait_for_irq,
}

module _ {D : Type 0} (io : Ports D) (halt : D → Bool × D) where
  -- `lba + sector_count > 0x0FFFFFFF && lba48_support == 0`.
  unfoldable pub is_too_far : (device lba sector_count : ℕ) → Action (Ata D) Bool
  is_too_far device lba sector_count =
      if leb ((lba + sector_count) % 2 ^ 64) 0x0fff_ffff
      then pure false
      else do c ← controller io halt device; pure (c.lba48_support == 0)

  -- The tests at the top, which are the same in both functions: is the transfer refused?
  unfoldable pub is_refused : (device lba sector_count : ℕ) → Action (Ata D) Bool
  is_refused device lba sector_count = do
    too_far ← is_too_far device lba sector_count
    if too_far || (sector_count == 0) then pure true else do
      c ← controller io halt device
      poisoned ← is_poisoned io halt
      pure (
          c.in_use
          || poisoned
          || (device == device_invalid)
          || (c.interface_type == type_invalid)
          || not (c.interface_type == type_ata))

  -- The sector count, the address and the command.
  unfoldable pub send_address :
      (device base lba sector_count ext plain : ℕ) → Action (Ata D) (Unit {0})
  send_address device base lba sector_count ext plain = do
    outb io halt (at_port base sect_count) (bit_and sector_count 0xff)
    c ← controller io halt device
    when (c.lba48_support == 1) do
      outb io halt (at_port base lba_lo) (bit_and (lba / 2 ^ 24) 0xff)
      outb io halt (at_port base lba_mi) (bit_and (lba / 2 ^ 32) 0xff)
      outb io halt (at_port base lba_hi) (bit_and (lba / 2 ^ 40) 0xff)
    outb io halt (at_port base lba_lo) (bit_and lba 0xff)
    outb io halt (at_port base lba_mi) (bit_and (lba / 2 ^ 8) 0xff)
    outb io halt (at_port base lba_hi) (bit_and (lba / 2 ^ 16) 0xff)
    outb io halt (at_port base device_sel) (
        if c.lba48_support == 1
        then bit_or (bit_and device 1 <<< 5) 0x40
        else bit_or (bit_or (bit_and (lba / 2 ^ 24) 0xf) (bit_and device 1 <<< 5)) 0x40)
    outb io halt (at_port base command) (if c.lba48_support == 1 then ext else plain)

  -- `for(uword_t i = 0; inb(alt_port) & 0x08; i++) buffer[i] = inw(base);`
  unfoldable pub read_words : (fuel device base buffer i : ℕ) → Action (Ata D) (Unit {0})
  read_words zero device base buffer i = spin
  read_words (suc fuel) device base buffer i = do
    c ← controller io halt device
    alt ← inb io halt c.alt_port
    when (has alt 0x08) do
      word ← inw io halt base
      modify (λ s. record s { memory = write s.memory (buffer + i) word })
      read_words fuel device base buffer ((i + 1) % 2 ^ 32)

  -- The end of both functions: `in_use` is given back and the error reported.
  unfoldable pub finish : (device : ℕ) → Action (Ata D) Bool
  finish device = do
    change io halt device (λ c. record c { in_use = false })
    c ← controller io halt device
    pure (not c.has_errored)

  unfoldable pub ata_read_sectors :
      (fuel device lba sector_count destination : ℕ) → Action (Ata D) Bool
  ata_read_sectors fuel device lba sector_count destination = do
    refused ← is_refused device lba sector_count
    if refused then pure false else do
      base ← switch_device io halt device
      if base == 0 then pure false else do
        change io halt device (λ c. record c { in_use = true })
        send_address device base lba sector_count read_sectors_ext read_sectors
        wait_for_irq io halt device
        read_words fuel device base destination 0
        finish device

  -- `for(uword_t i = 0; (inb(base+ATA_STATUS) & 0x8); i++) outw(base, buffer[i]);`
  unfoldable pub write_words : (fuel base buffer i : ℕ) → Action (Ata D) (Unit {0})
  write_words zero base buffer i = spin
  write_words (suc fuel) base buffer i = do
    state ← inb io halt (at_port base status)
    when (has state 0x08) do
      word ← gets (λ s. s.memory (buffer + i))
      outw io halt base word
      write_words fuel base buffer ((i + 1) % 2 ^ 32)

  unfoldable pub ata_write_sectors : (fuel device lba sector_count source : ℕ) → Action (Ata D) Bool
  ata_write_sectors fuel device lba sector_count source = do
    refused ← is_refused device lba sector_count
    if refused then pure false else do
      base ← switch_device io halt device
      if base == 0 then pure false else do
        change io halt device (λ c. record c { in_use = true })
        send_address device base lba sector_count write_sectors_ext write_sectors
        write_words fuel base source 0
        c ← controller io halt device
        outb io halt (at_port base command)
            (if c.lba48_support == 1 then flush_cache_ext else flush_cache)
        finish device
