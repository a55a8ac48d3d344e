-- ===== src/Ata/Safe.antt =====
-- No function of kernel/kernel/ata/ata.c makes a bad access to `controllers` for a drive that is
-- registered.
use condor_fos.Base.{ℕ, zero, suc, ◌/◌, ◌<◌, Bool, write}
use condor_fos.Machine.{Ports, Action, spin, modify}
use condor_fos.Machine.Takes.{Keeps, keeps_rules}
use condor_fos.Ata.{
  Device, Ata, change_at, wait_for_irq, switch_device, ata_get_device_info, ata_send_command,
}
use condor_fos.Ata.Sectors.{read_words, write_words, finish, ata_read_sectors, ata_write_sectors}
use condor_fos.Ata.Packet.{
  wait_ready, send_words, send_size8, send_command, move_word, move_words, transfer,
  atapi_send_command, has_no_range, atapi_read_sectors, atapi_write_sectors,
}
use condor_fos.Ata.Live.{Live, IsSteady, IsKept, live_rules, change_at-Keeps, Live-machine}
use condor_fos.Ata.Steps.{is_poisoned-Keeps, is_refused-Keeps, send_address-Keeps}
use condor_fos.Ata.Wait.{wait_for_irq-Keeps, switch_device-Keeps}

abbrev pub Any : {A : Type 0} → A → Type 0
Any a = Unit {0}

Any-IsSteady : IsSteady Any
Any-IsSteady = record { on_error = λ c e h. tt; on_success = λ c h. tt; on_block = λ c b h. tt }

pub Any-IsKept : {D : Type 0} (io : Ports D) → IsKept io Any
Any-IsKept io = record {
  by_inb = λ d p h. tt;
  by_inw = λ d p h. tt;
  by_outb = λ d p v h. tt;
  by_outw = λ d p v h. tt;
}

module _ {D : Type 0} (io : Ports D) (halt : D → Bool × D) (n i : ℕ) where
  abbrev pub Safe : {A : Type 0} → Action (Ata D) A → Type 0
  Safe m = Keeps (Unit {0}) (Live n i Any Any) m

  kept : IsKept io Any
  kept = Any-IsKept io

  spin-Safe : {A : Type 0} → Safe (spin {A = A})
  unfolding spin
  spin-Safe = record { at = λ s l. tt }

  store-Safe : (p v : ℕ) → Safe (modify (λ s. record s { memory = write s.memory p v }))
  unfolding modify
  store-Safe p v = record { at = λ s l. Live-machine s.machine (write s.memory p v) l tt }

  change-Safe : (j : ℕ) (f : Device → Device) → j < n → Safe (change_at io halt j f)
  change-Safe j f inside = change_at-Keeps io halt j f inside (λ c h. tt)

  wait-Safe : (device : ℕ) → device / 2 < n → Safe (wait_for_irq io halt device)
  wait-Safe = wait_for_irq-Keeps io halt Any-IsSteady kept (λ d h. tt)

  switch-Safe : (device : ℕ) → device / 2 < n → Safe (switch_device io halt device)
  switch-Safe = switch_device-Keeps io halt Any-IsSteady kept (λ d h. tt)

  ruleset safe_rules = (
    keeps_rules, live_rules, spin-Safe, store-Safe, is_poisoned-Keeps, is_refused-Keeps,
    send_address-Keeps, change-Safe, wait-Safe, switch-Safe, kept,
  )

  module _ (device : ℕ) (inside : device / 2 < n) where
    finish-Safe : Safe (finish io halt device)
    unfolding finish
    finish-Safe = search (safe_rules, inside) depth 14

    read_words-Safe : (fuel base buffer i : ℕ) → Safe (read_words io halt fuel device base buffer i)
    unfolding read_words
    read_words-Safe zero base buffer i = spin-Safe
    read_words-Safe (suc fuel) base buffer i =
        search (safe_rules, inside, read_words-Safe fuel base buffer) depth 14

    ata_read_sectors-Safe :
        (fuel lba count destination : ℕ)
        → Safe (ata_read_sectors io halt fuel device lba count destination)
    unfolding ata_read_sectors
    ata_read_sectors-Safe fuel lba count destination =
        search (safe_rules, inside, finish-Safe, read_words-Safe) depth 18

    write_words-Safe : (fuel base buffer i : ℕ) → Safe (write_words io halt fuel base buffer i)
    unfolding write_words
    write_words-Safe zero base buffer i = spin-Safe
    write_words-Safe (suc fuel) base buffer i =
        search (safe_rules, write_words-Safe fuel base buffer) depth 14

    ata_write_sectors-Safe :
        (fuel lba count source : ℕ) → Safe (ata_write_sectors io halt fuel device lba count source)
    unfolding ata_write_sectors
    ata_write_sectors-Safe fuel lba count source =
        search (safe_rules, inside, finish-Safe, write_words-Safe) depth 18

    ata_get_device_info-Safe : Safe (ata_get_device_info io halt device)
    unfolding ata_get_device_info
    ata_get_device_info-Safe = search (safe_rules, inside) depth 14

    ata_send_command-Safe :
        (command subcommand pointer length : ℕ)
        → Safe (ata_send_command io halt device command subcommand pointer length)
    unfolding ata_send_command
    ata_send_command-Safe command subcommand pointer length = search (safe_rules, inside) depth 14

    wait_ready-Safe : (fuel alt : ℕ) → Safe (wait_ready io halt fuel alt)
    unfolding wait_ready
    wait_ready-Safe zero alt = spin-Safe
    wait_ready-Safe (suc fuel) alt = search (safe_rules, wait_ready-Safe fuel) depth 14

    send_words-Safe :
        (count base : ℕ) (bytes : ℕ → ℕ) (i : ℕ) → Safe (send_words io halt count base bytes i)
    unfolding send_words
    send_words-Safe zero base bytes i = search safe_rules
    send_words-Safe (suc count) base bytes i =
        search (safe_rules, send_words-Safe count base bytes) depth 14

    send_command-Safe :
        (base : ℕ) (bytes : ℕ → ℕ) (length max : ℕ)
        → Safe (send_command io halt base bytes length max)
    unfolding send_command send_size8
    send_command-Safe base bytes length max = search (safe_rules, send_words-Safe) depth 18

    move_word-Safe :
        (base opcode buffer index : ℕ) → Safe (move_word io halt base opcode buffer index)
    unfolding move_word
    move_word-Safe base opcode buffer index = search safe_rules depth 14

    move_words-Safe :
        (rounds base alt opcode buffer index status : ℕ)
        → Safe (move_words io halt rounds base alt opcode buffer index status)
    unfolding move_words
    move_words-Safe zero base alt opcode buffer index status = search safe_rules
    move_words-Safe (suc rounds) base alt opcode buffer index status =
        search (safe_rules, move_word-Safe, move_words-Safe rounds base alt opcode buffer) depth 14

    transfer-Safe :
        (fuel base alt opcode buffer word_count index : ℕ)
        → Safe (transfer io halt fuel device base alt opcode buffer word_count index)
    unfolding transfer
    transfer-Safe zero base alt opcode buffer word_count index = spin-Safe
    transfer-Safe (suc fuel) base alt opcode buffer word_count index =
        search
          (
            safe_rules,
            inside,
            move_words-Safe,
            transfer-Safe fuel base alt opcode buffer word_count,
          )
          depth 18

    atapi_send_command-Safe :
        (fuel : ℕ) (bytes : ℕ → ℕ) (length buffer : ℕ)
        → Safe (atapi_send_command io halt fuel device bytes length buffer)
    unfolding atapi_send_command
    atapi_send_command-Safe fuel bytes length buffer =
        search (safe_rules, inside, wait_ready-Safe, send_command-Safe, transfer-Safe) depth 24

    atapi_read_sectors-Safe :
        (fuel lba count destination : ℕ)
        → Safe (atapi_read_sectors io halt fuel device lba count destination)
    unfolding atapi_read_sectors has_no_range
    atapi_read_sectors-Safe fuel lba count destination =
        search (safe_rules, inside, atapi_send_command-Safe) depth 18

    atapi_write_sectors-Safe :
        (fuel lba count destination : ℕ)
        → Safe (atapi_write_sectors io halt fuel device lba count destination)
    unfolding atapi_write_sectors has_no_range
    atapi_write_sectors-Safe fuel lba count destination =
        search (safe_rules, inside, atapi_send_command-Safe) depth 18

    -- All functions that are given the id of a drive.
    abbrev pub AllSafe : Type 0
    AllSafe =
        ((fuel lba count buffer : ℕ) → Safe (ata_read_sectors io halt fuel device lba count buffer))
        × ((fuel lba count buffer : ℕ)
            → Safe (ata_write_sectors io halt fuel device lba count buffer))
        × ((fuel : ℕ) (bytes : ℕ → ℕ) (length buffer : ℕ)
            → Safe (atapi_send_command io halt fuel device bytes length buffer))
        × ((fuel lba count buffer : ℕ)
            → Safe (atapi_read_sectors io halt fuel device lba count buffer))
        × ((fuel lba count buffer : ℕ)
            → Safe (atapi_write_sectors io halt fuel device lba count buffer))
        × ((command subcommand pointer length : ℕ)
            → Safe (ata_send_command io halt device command subcommand pointer length))
        × Safe (ata_get_device_info io halt device)
        × Safe (wait_for_irq io halt device)

    -- For a drive that is registered, none of the functions that are given its id makes an access to
    -- `controllers` while it is poisoned or behind its end, and behind each of them the same number of
    -- drives is registered.
    pub registered-Safe : AllSafe
    registered-Safe = (
      ata_read_sectors-Safe,
      ata_write_sectors-Safe,
      atapi_send_command-Safe,
      atapi_read_sectors-Safe,
      atapi_write_sectors-Safe,
      ata_send_command-Safe,
      ata_get_device_info-Safe,
      wait-Safe device inside,
    )
