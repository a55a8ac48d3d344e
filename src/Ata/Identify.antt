-- ===== src/Ata/Identify.antt =====
-- The discovery of drives in kernel/kernel/ata/ata.c: ide_init and what it calls.
use condor_fos.Base.{
  ℕ, zero, suc, ◌+◌, ◌/◌, ◌%◌, ◌^◌, Bool, true, false, not, ◌&&◌, ◌||◌, Option, none, some, List,
  [], ◌∷◌, ◌++◌, ltb, leb, ◌==◌, if◌then◌else◌, write, test_bit, bit_and, bit_or, length, take,
  update_at,
}
use condor_fos.Machine.{
  Ports, at_port, has, Action, pure, when, crash, spin, gets, modify, ◌>>=◌, ◌>>◌,
}
use condor_fos.Ata.Reg.{
  sect_count, lba_lo, lba_mi, lba_hi, device_sel, command, status, type_invalid, type_ata,
  type_sata, type_atapi, type_satapi, identify_device, identify_packet_device, device_invalid,
}
use condor_fos.Ata.{Ata, Device, inb, inw, outb, outw, read_four}

-- `BIT_SUM16(x)` as the preprocessor expands it: the arguments stand without parentheses, and `>>`
-- binds tighter than `&`.
unfoldable pub bit_sum2 : (shifted masked : ℕ) → ℕ
bit_sum2 shifted masked = shifted + bit_and masked 1

-- `BIT_SUM4(x >> n)` and `BIT_SUM4(x & mask)`.
unfoldable pub bit_sum4_shifted : (x n : ℕ) → ℕ
bit_sum4_shifted x n =
    bit_sum2 (x / 2 ^ n / 2 / 2) (x / 2 ^ n / 2)
    + bit_sum2 (bit_and (x / 2 ^ n) (3 / 2)) (bit_and (x / 2 ^ n) 3)

unfoldable pub bit_sum4_masked : (x mask : ℕ) → ℕ
bit_sum4_masked x mask =
    bit_sum2 (bit_and x (mask / 2 / 2)) (bit_and x (mask / 2))
    + bit_sum2 (bit_and (bit_and x mask) (3 / 2)) (bit_and (bit_and x mask) 3)

unfoldable pub bit_sum16 : ℕ → ℕ
bit_sum16 x =
    bit_sum4_shifted x (4 + 2)
    + bit_sum4_masked (x / 2 ^ 4) 7
    + (bit_sum4_masked x (0xf / 2 ^ 2) + bit_sum4_masked (bit_and x 0xf) 7)

-- The fields of `ata_info_t` that are read, in the 32-bit words where the compiler lays them out.
module _ (info : ℕ → ℕ) where
  abbrev pub info_dma_support : ℕ
  info_dma_support = test_bit (info 31) 8

  abbrev pub info_lba_support : ℕ
  info_lba_support = test_bit (info 31) 9

  abbrev pub info_mdma_support : ℕ
  info_mdma_support = test_bit (info 42) 0 + test_bit (info 42) 1 + test_bit (info 42) 2

  abbrev pub info_major_version : ℕ
  info_major_version = info 62 / 2 % 2 ^ 15

  abbrev pub info_lba48 : ℕ
  info_lba48 = test_bit (info 64) 26

  abbrev pub info_udma_support : ℕ
  info_udma_support =
      test_bit (info 67) 0
      + test_bit (info 67) 1
      + test_bit (info 67) 2
      + test_bit (info 67) 3
      + test_bit (info 67) 4
      + test_bit (info 67) 5
      + test_bit (info 67) 6

-- What `ide_init` stores in a device; `fresh` is what `kmalloc` left there.
unfoldable pub fill_device :
    (fresh : Device) (info : ℕ → ℕ) (interface base_port alt_port irq : ℕ) → Device
fill_device fresh info interface base_port alt_port irq = record fresh {
  dev_id = device_invalid;
  interface_type = interface;
  lba_support = info_lba_support info;
  dma_support = info_dma_support info;
  ata_version = bit_sum16 (info_major_version info) % 2 ^ 4;
  udma_support = info_udma_support info;
  mdma_support = info_mdma_support info;
  lba48_support = if has interface 2 then fresh.lba48_support else info_lba48 info;
  base_port = base_port;
  alt_port = alt_port;
  irq = irq;
  is_slave = false;
  in_use = false;
  is_blocked = true;
}

-- `krealloc` to `size` entries of four bytes, and the store at `index`; a store behind the end is `none`.
unfoldable pub place : (cs : List Device) (size index : ℕ) → Device → Option (List Device)
place cs size index device =
    let kept = take size cs in
    if ltb index (length kept)
    then some (update_at (λ old. device) kept index)
    else if (index == length kept) && ltb index size
    then some (kept ++ device ∷ [])
    else none

module _ {D : Type 0} (io : Ports D) (halt : D → Bool × D) where
  unfoldable pub detect_drive_type : (base : ℕ) → Action (Ata D) ℕ
  detect_drive_type base = do
    mid ← inb io halt (at_port base lba_mi)
    high ← inb io halt (at_port base lba_hi)
    pure (
        if (mid == 0x14) && (high == 0xeb)
        then type_atapi
        else if (mid == 0x69) && (high == 0x96)
        then type_satapi
        else if (mid == 0x3c) && (high == 0xc3)
        then type_sata
        else if (mid == 0) && (high == 0)
        then type_ata
        else type_invalid)

  -- The loop of `getDeviceData` with `rounds` of its 256 left.
  unfoldable pub read_info : (rounds base buffer index : ℕ) → Action (Ata D) (Unit {0})
  read_info zero base buffer index = pure tt
  read_info (suc rounds) base buffer index = do
    word ← inw io halt base
    modify (λ s. record s { memory = write s.memory (buffer + index) word })
    read_info rounds base buffer (index + 1)

  unfoldable pub get_device_data : (base buffer : ℕ) → Action (Ata D) (Unit {0})
  get_device_data base buffer = read_info 256 base buffer 0

  -- `while(inb(STATUS) & 0x80);`
  unfoldable pub wait_idle : (fuel base : ℕ) → Action (Ata D) (Unit {0})
  wait_idle zero base = spin
  wait_idle (suc fuel) base = do
    now ← inb io halt (at_port base status)
    when (has now 0x80) (wait_idle fuel base)

  -- `while(!(inb(STATUS) & (0x08 | 0x01)));`
  unfoldable pub wait_answer : (fuel base : ℕ) → Action (Ata D) (Unit {0})
  wait_answer zero base = spin
  wait_answer (suc fuel) base = do
    now ← inb io halt (at_port base status)
    when (not (has now (bit_or 0x08 0x01))) (wait_answer fuel base)

  unfoldable pub init_device_atapi : (fuel base buffer : ℕ) → Action (Ata D) Bool
  init_device_atapi fuel base buffer = do
    outb io halt (at_port base command) identify_packet_device
    wait_idle fuel base
    wait_answer fuel base
    now ← inb io halt (at_port base status)
    if has now 0x01 then pure false else do get_device_data base buffer; pure true

  -- `a && initDevice_ATAPI(base_port, destination)`.
  unfoldable pub and_init_atapi : Bool → (fuel base buffer : ℕ) → Action (Ata D) Bool
  and_init_atapi a fuel base buffer = if a then init_device_atapi fuel base buffer else pure false

  -- The loop while the drive is busy: does the function return there, and the type.
  unfoldable pub wait_busy : (fuel base buffer dev_type : ℕ) → Action (Ata D) (Bool × ℕ)
  wait_busy zero base buffer dev_type = spin
  wait_busy (suc fuel) base buffer dev_type = do
    now ← inb io halt (at_port base status)
    if not (has now 0x80) then pure (false, dev_type) else do
      found ← and_init_atapi (dev_type == type_atapi) fuel base buffer
      if found then pure (true, dev_type) else do
        if ltb type_atapi dev_type
            then pure (true, type_invalid)
            else do next ← detect_drive_type base; wait_busy fuel base buffer next

  unfoldable pub init_device : (fuel base alt : ℕ) (is_slave : Bool) (buffer : ℕ) → Action (Ata D) ℕ
  init_device fuel base alt is_slave buffer = do
    floating ← inb io halt (at_port base status)
    if floating == 0xff then pure type_invalid else do
      outb io halt (at_port base device_sel) (if is_slave then 0x10 else 0)
      read_four io halt (at_port base status)
      a ← inw io halt (at_port base status)
      b ← inw io halt (at_port base status)
      c ← inw io halt (at_port base status)
      d ← inw io halt (at_port base status)
      outb io halt alt 0
      outw io halt (at_port base sect_count) 0
      outw io halt (at_port base lba_lo) 0
      outw io halt (at_port base lba_mi) 0
      outw io halt (at_port base lba_hi) 0
      outb io halt (at_port base command) identify_device
      answer ← inb io halt (at_port base status)
      if answer == 0 then pure type_invalid else do
        first ← detect_drive_type base
        busy ← wait_busy fuel base buffer first
        if busy.0 then pure busy.1 else do
          wait_answer fuel base
          now ← inb io halt (at_port base status)
          found ← and_init_atapi (has now 1) fuel base buffer
          if found then pure busy.1 else do get_device_data base buffer; pure busy.1

  -- The registration of a device that was found.
  unfoldable pub register_device : Device → Action (Ata D) ℕ
  register_device device = do
    modify (λ s. record s {
      handlers = if leb 16 device.irq then s.handlers else s.handlers ++ device.irq ∷ [];
    })
    device_id ← gets (λ s. s.controller_index)
    let next = (device_id + 2) % 2 ^ 32
    modify (λ s. record s { controller_index = next })
    old ← gets (λ s. elim s.controllers [ none ↦ [] | some cs ↦ cs ])
    elim (place old (next / 2 % 2 ^ 30) (device_id / 2) device) [
      | none ↦ crash
      | some cs ↦ do modify (λ s. record s { controllers = some cs }); pure device_id
    ]

  -- `fresh` and `buffer` are what the two calls of `kmalloc` give.
  unfoldable pub ide_init :
      (fuel : ℕ) (fresh : Device) (buffer base_port alt_port irq : ℕ) → Action (Ata D) ℕ
  ide_init fuel fresh buffer base_port alt_port irq =
      if (base_port == 0) || (alt_port == 0) then pure device_invalid else do
        slave ← init_device fuel base_port alt_port true buffer
        master ← init_device fuel base_port alt_port false buffer
        let found = if slave == type_invalid then master else slave
        memory ← gets (λ s. s.memory)
        if found == type_invalid
            then pure device_invalid
            else register_device
                (fill_device fresh (λ i. memory (buffer + i)) found base_port alt_port irq)
