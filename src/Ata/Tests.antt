-- ===== src/Ata/Tests.antt =====
-- Tests of kernel/kernel/ata/ata.c, and its theorems at a machine with two registers for each port.
use condor_fos.Base.{
  ℕ, suc, ◌+◌, ◌-◌, ◌*◌, ◌≡◌, ◌≢◌, refl, Bool, true, false, none, some, List, [], ◌∷◌, ◌++◌, ltb,
  ◌==◌, if◌then◌else◌, min, arith, Bool-cases, inl, inr, not, ◌||◌,
}
use condor_fos.Machine.{Ports, has, Run, done, fault, spinning, pure, gets, modify, spin, ◌>>=◌}
use condor_fos.Machine.Takes.{Ends}
use condor_fos.Ata.{
  Device, Ata, inb, inw, outb, outw, wait_for_irq, ata_send_command, ata_get_device_info,
}
use condor_fos.Ata.Sectors.{send_address, ata_read_sectors}
use condor_fos.Ata.Packet.{packet_of, atapi_send_command}
use condor_fos.Ata.Identify.{
  bit_sum16, ide_init, init_device, fill_device, detect_drive_type, wait_busy, wait_answer,
  and_init_atapi, get_device_data, read_info,
}
use condor_fos.Ata.Live.{Live, IsSteady}
use condor_fos.Ata.Address.{plain_address, ext_address, selected, send_address_lem}
use condor_fos.Ata.Safe.{Any, AllSafe, registered-Safe}
use condor_fos.Ata.Transfer.{Used, ata_read_sectors-Ends}
use condor_fos.Ata.Register.{ide_init_lem}
use condor_fos.Ata.Failed.{PacketDrive, atapi_send_command-failed}

-- The last byte of each port and the one before, the words that were sent, the words that wait, and
-- the number of halts. The two status ports give `state`, and 0x08 more while words wait, the other
-- ports give `other`.
record Rig : Type 0 where
  reg : ℕ → ℕ
  hob : ℕ → ℕ
  sent : List ℕ
  left : ℕ
  halts : ℕ

abbrev rig_ports : (state other : ℕ) → Ports Rig
rig_ports state other = record {
  inb = λ d port. (
    if not ((port == 0x1f7) || (port == 0x3f6))
        then other
        else if ltb 0 (min d.left 2)
        then state + 8
        else state,
    d,
  );
  outb = λ d port v. record d {
    reg = λ q. if port == q then v else d.reg q;
    hob = λ q. if port == q then d.reg q else d.hob q;
  };
  inw = λ d port. (7, record d { left = min d.left 2 - 1 });
  outw = λ d port v. record d { sent = d.sent ++ v ∷ [] };
}

abbrev rig_halt : Rig → Bool × Rig
rig_halt d = (true, record d { halts = suc d.halts })

abbrev rig : Rig
rig = record { reg = λ p. 0; hob = λ p. 0; sent = []; left = 2; halts = 0 }

abbrev drive : (interface lba48 : ℕ) → Device
drive interface lba48 = record {
  dev_id = 0xffff;
  irq = 14;
  base_port = 0x1f0;
  alt_port = 0x3f6;
  is_slave = false;
  interface_type = interface;
  lba_support = 1;
  dma_support = 0;
  ata_version = 6;
  mdma_support = 0;
  udma_support = 0;
  lba48_support = lba48;
  max_command_length = 0;
  in_use = false;
  is_blocked = true;
  has_errored = false;
  error_info = 0;
}

abbrev start : (interface : ℕ) → Ata Rig
start interface = record {
  controller_index = 2;
  controllers = some (drive interface 1 ∷ []);
  current_controller = 0;
  handlers = 14 ∷ [];
  machine = rig;
  memory = λ i. 0;
}

live :
    (interface : ℕ) (E : Device → Type 0) (M : Rig → Type 0)
    → E (drive interface 1)
    → M rig
    → Live 1 0 E M (start interface)
live interface E M e m = record {
  drives = drive interface 1 ∷ [];
  controllers = refl;
  count = refl;
  index = refl;
  current = omega arith;
  drive = drive interface 1;
  entry = refl;
  holds = e;
  machine = m;
}

bit_sum_test : bit_sum16 0b10000001 ≡ 8
unfolding bit_sum16 condor_fos.Ata.Identify.bit_sum4_shifted condor_fos.Ata.Identify.bit_sum4_masked
    condor_fos.Ata.Identify.bit_sum2
bit_sum_test = refl

Any-IsSteady : IsSteady Any
Any-IsSteady = record { on_error = λ c e h. tt; on_success = λ c h. tt; on_block = λ c b h. tt }

send_address_lem_example :
    (s' : Ata Rig) × (send_address
        (rig_ports 0x40 0)
        rig_halt
        1
        0x1f0
        0x123456789
        1
        0x24
        0x20
        (start 4)
      ≡ done (tt, s'))
    × ((if (drive 4 1).lba48_support == 1
          then ext_address
              (rig_ports 0x40 0)
              (λ d. d.reg)
              (λ d. d.hob)
              (λ d p v q. refl)
              (λ d p v q. refl)
              0x1f0
              (omega arith)
              s'.machine
          else plain_address
              (rig_ports 0x40 0)
              (λ d. d.reg)
              (λ d. d.hob)
              (λ d p v q. refl)
              (λ d p v q. refl)
              0x1f0
              (omega arith)
              s'.machine)
        ≡ 0x123456789)
    × (selected
          (rig_ports 0x40 0)
          (λ d. d.reg)
          (λ d. d.hob)
          (λ d p v q. refl)
          (λ d p v q. refl)
          0x1f0
          (omega arith)
          s'.machine
        ≡ 0)
send_address_lem_example =
    send_address_lem (rig_ports 0x40 0) (λ d. d.reg) (λ d. d.hob) (λ d p v q. refl)
      (λ d p v q. refl) 0x1f0 (omega arith) rig_halt (start 4) (drive 4 1 ∷ []) (drive 4 1) 1
      0x123456789 1 0x24 0x20 refl refl (omega arith)

registered-Safe_example : AllSafe (rig_ports 0x40 0) rig_halt 1 0 1 (omega arith)
registered-Safe_example = registered-Safe (rig_ports 0x40 0) rig_halt 1 0 1 (omega arith)

waiting : (d : Rig) → has ((rig_ports 0x40 0).inb d 0x3f6).0 0x08 ≡ ltb 0 (min d.left 2)
waiting d = elim (Bool-cases (ltb 0 (min d.left 2))) [ inl e ↦ rw e refl | inr e ↦ rw e refl ]

ata_read_sectors-Ends_example :
    Ends ⊥
      (λ r. Live 1 0 (Used false 0x3f6) Any r.1)
      (ata_read_sectors (rig_ports 0x40 0) rig_halt 3 0 5 1 0 (start 4))
ata_read_sectors-Ends_example =
    ata_read_sectors-Ends (rig_ports 0x40 0) rig_halt 0 1 0x3f6 2 (omega arith) (λ d. min d.left 2)
      (λ d. omega arith) waiting (λ d. refl) (λ d p. omega arith) 3 5 1 0 (start 4) (omega arith)
      (live 4 (Used false 0x3f6) Any (refl, refl) tt)

quiet : (d : Rig) → has ((rig_ports 0x41 2).inb d 0x3f6).0 0x80 ≡ false
quiet d = elim (Bool-cases (ltb 0 (min d.left 2))) [ inl e ↦ rw e refl | inr e ↦ rw e refl ]

broken : (d : Rig) → has ((rig_ports 0x41 2).inb d 0x3f6).0 0x01 ≡ true
broken d = elim (Bool-cases (ltb 0 (min d.left 2))) [ inl e ↦ rw e refl | inr e ↦ rw e refl ]

atapi_send_command-failed_example :
    Ends ⊥
      (λ r. (r.0 ≡ false) × Live 1 0 (PacketDrive true 0x1f0 0x3f6) Any r.1)
      (atapi_send_command (rig_ports 0x41 2) rig_halt 1 0 (packet_of 0xa8 500 1) 12 0 (start 6))
atapi_send_command-failed_example =
    atapi_send_command-failed (rig_ports 0x41 2) rig_halt 0 1 0x1f0 0x3f6 (omega arith) 2 2 quiet
      broken (λ d. refl) (λ d. refl) (λ e. absurd (omega arith)) 0 (packet_of 0xa8 500 1) 12 0
      (start 6) (λ e. absurd (omega arith))
      (live 6 (PacketDrive false 0x1f0 0x3f6) Any (refl, refl, refl, refl) tt)

-- Nothing registered, and a drive that has its data ready at any time.
abbrev empty : Ata Rig
empty = record {
  controller_index = 0;
  controllers = none;
  current_controller = 0;
  handlers = [];
  machine = record rig { left = 0 };
  memory = λ i. 0;
}

abbrev state_of : Run (ℕ × Ata Rig) → Ata Rig
state_of r = elim r [ done (t, s) ↦ s | fault ↦ empty | spinning ↦ empty ]

abbrev probe : Bool → Ata Rig → Run (ℕ × Ata Rig)
probe is_slave s = init_device (rig_ports 0x48 0) rig_halt 1 0x1f0 0x3f6 is_slave 0 s

found_slave : probe true empty ≡ done (4, state_of (probe true empty))
unfolding init_device ◌>>=◌ pure gets modify spin inb inw outb outw detect_drive_type wait_busy
    wait_answer and_init_atapi get_device_data read_info
found_slave = refl

-- The states behind the two probes.
probed_once : Ata Rig
probed_once = state_of (probe true empty)

found_slave_once : probe true empty ≡ done (4, probed_once)
unfolding probed_once
found_slave_once = found_slave

probed_twice : Ata Rig
probed_twice = state_of (probe false probed_once)

found_master : probe false probed_once ≡ done (4, probed_twice)
unfolding probed_once probed_twice init_device ◌>>=◌ pure gets modify spin inb inw outb outw
    detect_drive_type wait_busy wait_answer and_init_atapi get_device_data read_info
found_master = refl

abbrev found_drive : Device
found_drive = fill_device (drive 0 0) (λ i. probed_twice.memory (0 + i)) 4 0x1f0 0x3f6 14

ide_init_lem_example :
    (◌≡◌ {A = ℕ} 4 0
      → (ide_init (rig_ports 0x48 0) rig_halt 1 (drive 0 0) 0 0x1f0 0x3f6 14 empty
          ≡ done (0xffff, probed_twice))
        × (probed_twice.controllers ≡ none))
    × (◌≢◌ {A = ℕ} 4 0
        → (s' : Ata Rig) × (ide_init
              (rig_ports 0x48 0)
              rig_halt
              1
              (drive 0 0)
              0
              0x1f0
              0x3f6
              14
              empty
            ≡ done (2 * 0, s'))
          × (s'.controllers ≡ some (found_drive ∷ []))
          × (ata_get_device_info (rig_ports 0x48 0) rig_halt (2 * 0) s'
              ≡ done (some found_drive, s')))
ide_init_lem_example =
    ide_init_lem (rig_ports 0x48 0) rig_halt 1 (drive 0 0) 0 0x1f0 0x3f6 14 empty probed_once
      probed_twice 4 4 (λ e. absurd (omega arith)) (λ e. absurd (omega arith)) found_slave_once
      found_master refl (omega arith)
