-- ===== src/Ata.antt =====
-- kernel/kernel/ata/ata.c: the state of the driver and what it does to it outside the transfers.
pub mod Reg
pub mod Live
pub mod Wait
pub mod Tests
pub mod Failed
pub mod Register
pub mod Halts
pub mod Cdb
pub mod Address
pub mod Steps
pub mod Transfer
pub mod Safe
pub mod Sectors
pub mod Packet
pub mod Info
pub mod Identify
use condor_fos.Base.{
  ℕ, zero, suc, ◌+◌, ◌*◌, ◌/◌, ◌%◌, ◌^◌, Bool, true, false, not, ◌&&◌, ◌||◌, Option, none, some,
  List, [], ◌∷◌, ltb, leb, ◌==◌, if◌then◌else◌, Memory, write, u8, bit_and, get_elem?, update_at,
  length, bit_or, ◌<<<◌,
}
use condor_fos.Ata.Reg.{status, error, device_sel, command, device_invalid}
use condor_fos.Machine.{
  Ports, has, at_port, Run, done, fault, Action, pure, crash, gets, modify, ◌>>=◌, ◌>>◌,
}

-- `ata_device_t`, less the pointer `ata_info` and the reserved bits, which nothing uses.
pub record Device : Type 0 where
  pub dev_id : ℕ
  pub irq : ℕ
  pub base_port : ℕ
  pub alt_port : ℕ
  pub is_slave : Bool
  pub interface_type : ℕ
  pub lba_support : ℕ
  pub dma_support : ℕ
  pub ata_version : ℕ
  pub mdma_support : ℕ
  pub udma_support : ℕ
  pub lba48_support : ℕ
  pub max_command_length : ℕ
  pub in_use : Bool
  pub is_blocked : Bool
  pub has_errored : Bool
  pub error_info : ℕ

-- The static variables, the requests that `ata_irq` is registered for, the machine, and memory as
-- the words of 32 bits that a buffer has (`uword_t` is `unsigned`); every access to a buffer reaches
-- it. Of `controllers`, `none` is the poisoned pointer; each entry is an allocation of its own.
pub record Ata (D : Type 0) : Type 0 where
  pub controller_index : ℕ
  pub controllers : Option (List Device)
  pub current_controller : ℕ
  pub handlers : List ℕ
  pub machine : D
  pub memory : Memory

-- The interrupt of a drive comes while the code halts for it, and at no other time.
-- `halt` is the `hlt` instruction, which tells if it ended with the interrupt of the drives.
module _ {D : Type 0} (io : Ports D) (halt : D → Bool × D) where
  unfoldable pub inb : ℕ → Action (Ata D) ℕ
  inb port s = let (v, d) = io.inb s.machine port in done (v, record s { machine = d })

  unfoldable pub inw : ℕ → Action (Ata D) ℕ
  inw port s = let (v, d) = io.inw s.machine port in done (v, record s { machine = d })

  unfoldable pub outb : (port value : ℕ) → Action (Ata D) (Unit {0})
  outb port value = modify (λ s. record s { machine = io.outb s.machine port value })

  unfoldable pub outw : (port value : ℕ) → Action (Ata D) (Unit {0})
  outw port value = modify (λ s. record s { machine = io.outw s.machine port (value % 2 ^ 16) })

  -- `controllers[index]`, read and written.
  unfoldable pub controller_at : ℕ → Action (Ata D) Device
  controller_at index s = elim s.controllers [
    | none ↦ fault
    | some cs ↦ elim (get_elem? cs index) [ none ↦ fault | some c ↦ done (c, s) ]
  ]

  unfoldable pub change_at : ℕ → (Device → Device) → Action (Ata D) (Unit {0})
  change_at index f s = elim s.controllers [
    | none ↦ fault
    | some cs ↦
        if ltb index (length cs)
        then done (tt, record s { controllers = some (update_at f cs index) })
        else fault
  ]

  abbrev pub controller : (device : ℕ) → Action (Ata D) Device
  controller device = controller_at (device / 2)

  abbrev pub change : (device : ℕ) → (Device → Device) → Action (Ata D) (Unit {0})
  change device = change_at (device / 2)

  unfoldable pub is_poisoned : Action (Ata D) Bool
  is_poisoned s = done (elim s.controllers [ none ↦ true | some cs ↦ false ], s)

  -- Four reads of a port for the time that they take.
  abbrev pub read_four : (port : ℕ) → Action (Ata D) (Unit {0})
  read_four port = do a ← inb port; b ← inb port; c ← inb port; d ← inb port; pure tt

  -- What the status byte says, noted on the current device.
  unfoldable pub note_status : (current status_byte : ℕ) → Action (Ata D) (Unit {0})
  note_status current status_byte =
      if not (has status_byte 0x01)
      then change current (λ c. record c { has_errored = false; error_info = 0 })
      else do
        c ← controller current
        error_byte ← inb (at_port c.base_port error)
        change current (λ c. record c { has_errored = true; error_info = error_byte })

  -- `ata_irq`, which is always `HANDLED`.
  unfoldable pub ata_irq : Action (Ata D) (Unit {0})
  ata_irq = do
    current ← gets (λ s. s.current_controller)
    c ← controller current
    status_byte ← inb (at_port c.base_port status)
    note_status current status_byte
    change current (λ c. record c { is_blocked = false })

  unfoldable pub switch_device : (device : ℕ) → Action (Ata D) ℕ
  switch_device device = do
    index ← gets (λ s. s.controller_index)
    if leb index device then pure 0xffff else do
      c ← controller device
      outb (at_port c.base_port device_sel) (bit_and device 1 <<< 4)
      read_four (at_port c.base_port status)
      modify (λ s. record s { current_controller = u8 device })
      pure c.base_port

  -- `hlt`, and the interrupt that may end it.
  unfoldable pub hlt : Action (Ata D) (Unit {0})
  hlt s =
      let (fires, d) = halt s.machine in
      if fires then ata_irq (record s { machine = d }) else done (tt, record s { machine = d })

  -- The loop of `waitForIRQ` with `rounds` left of its 256.
  unfoldable pub wait_rounds : (rounds device alt_status : ℕ) → Action (Ata D) (Unit {0})
  wait_rounds zero device alt_status = pure tt
  wait_rounds (suc rounds) device alt_status = do
    c ← controller device
    if not (c.is_blocked && not (has alt_status 1))
        then pure tt
        else do hlt; c ← controller device; alt ← inb c.alt_port; wait_rounds rounds device alt

  unfoldable pub wait_for_irq : (device : ℕ) → Action (Ata D) (Unit {0})
  wait_for_irq device = do
    index ← gets (λ s. s.controller_index)
    if leb index device
        then pure tt
        else do wait_rounds 256 device 0; change device (λ c. record c { is_blocked = true })

  -- `none` is the poisoned pointer.
  unfoldable pub ata_get_device_info : (device : ℕ) → Action (Ata D) (Option Device)
  ata_get_device_info device = do
    index ← gets (λ s. s.controller_index)
    if (device == device_invalid) || leb index device
        then pure none
        else do c ← controller device; pure (some c)

  unfoldable pub ata_send_command :
      (device command_byte subcommand pointer data_length : ℕ) → Action (Ata D) Bool
  ata_send_command device command_byte subcommand pointer data_length = do
    base ← switch_device device
    if (device == device_invalid) || (data_length == 0) || (base == 0xfff) then pure false else do
      outb (at_port base command) command_byte
      wait_for_irq device
      c ← controller device
      pure c.has_errored
