-- ===== src/Ata/Address.antt =====
-- The address that a drive reads from its registers behind the writes of kernel/kernel/ata/ata.c.
use condor_fos.Base.{
  ℕ, ◌+◌, ◌*◌, ◌/◌, ◌%◌, ◌^◌, ◌<◌, ◌≡◌, ap, ◌∙◌, Bool, true, false, some, List, ◌==◌, if◌then◌else◌,
  bit_and, bit_or, ◌<<<◌, bit_and-one, bit_and-nibble, bit_and-byte, bit_or-low, get_elem?, arith,
  Bool-cases, inl, inr,
}
use condor_fos.Machine.{Ports, at_port, done, pure, modify, ◌>>=◌}
use condor_fos.Ata.{Device, Ata, outb}
use condor_fos.Ata.Sectors.{send_address}
use condor_fos.Ata.Live.{controller_at-found}

-- The byte that is written to the device register, for a plain address and an extended one.
abbrev select_plain : (device lba : ℕ) → ℕ
select_plain device lba = bit_or (bit_or (bit_and (lba / 2 ^ 24) 0xf) (bit_and device 1 <<< 5)) 0x40

abbrev select_ext : (device : ℕ) → ℕ
select_ext device = bit_or (bit_and device 1 <<< 5) 0x40

select_plain_lem :
    (device lba : ℕ) → select_plain device lba ≡ 64 + device % 2 * 32 + lba / 2 ^ 24 % 16
select_plain_lem device lba =
    let low = bit_and (lba / 2 ^ 24) 0xf in
    let mid : bit_or low (bit_and device 1 * 2 ^ 5) ≡ bit_and device 1 * 2 ^ 5 + low =
      bit_or-low 5 (bit_and device 1) low (omega (arith, bit_and-nibble (lba / 2 ^ 24))) in
    let top =
      bit_or-low 6 1 (bit_and device 1 * 2 ^ 5 + low)
        (omega (arith, bit_and-nibble (lba / 2 ^ 24), bit_and-one device)) in
    ap (λ (t : ℕ). bit_or t 0x40) mid
    ∙ top
    ∙ omega (arith, bit_and-nibble (lba / 2 ^ 24), bit_and-one device)

select_ext_lem : (device : ℕ) → select_ext device ≡ 64 + device % 2 * 32
select_ext_lem device =
    bit_or-low 6 1 (bit_and device 1 * 2 ^ 5) (omega (arith, bit_and-one device))
    ∙ omega (arith, bit_and-one device)

module _ {D : Type 0} (io : Ports D) where
  -- The machine behind the seven or ten writes.
  abbrev low_bytes : D → (base lba : ℕ) → D
  low_bytes d base lba =
      let d1 = io.outb d (at_port base 3) (bit_and lba 0xff) in
      let d2 = io.outb d1 (at_port base 4) (bit_and (lba / 2 ^ 8) 0xff) in
      io.outb d2 (at_port base 5) (bit_and (lba / 2 ^ 16) 0xff)

  abbrev high_bytes : D → (base lba : ℕ) → D
  high_bytes d base lba =
      let d1 = io.outb d (at_port base 3) (bit_and (lba / 2 ^ 24) 0xff) in
      let d2 = io.outb d1 (at_port base 4) (bit_and (lba / 2 ^ 32) 0xff) in
      io.outb d2 (at_port base 5) (bit_and (lba / 2 ^ 40) 0xff)

  abbrev plain_machine : D → (device base lba count command : ℕ) → D
  plain_machine d device base lba count command =
      let d1 = low_bytes (io.outb d (at_port base 2) (bit_and count 0xff)) base lba in
      io.outb (io.outb d1 (at_port base 6) (select_plain device lba)) (at_port base 7) command

  abbrev ext_machine : D → (device base lba count command : ℕ) → D
  ext_machine d device base lba count command =
      let d1 =
        low_bytes (high_bytes (io.outb d (at_port base 2) (bit_and count 0xff)) base lba) base
          lba in
      io.outb (io.outb d1 (at_port base 6) (select_ext device)) (at_port base 7) command

  module _ (halt : D → Bool × D) (s : Ata D) (cs : List Device) (c : Device)
      (device base lba count ext plain : ℕ) (here : s.controllers ≡ some cs)
      (found : get_elem? cs (device / 2) ≡ some c) where
    plain_run :
        (c.lba48_support == 1) ≡ false
        → send_address io halt device base lba count ext plain s
          ≡ done (tt, record s { machine = plain_machine s.machine device base lba count plain })
    unfolding send_address ◌>>=◌ outb modify pure
    plain_run e =
        let s1 : Ata D = record s {
          machine = io.outb s.machine (at_port base 2) (bit_and count 0xff);
        } in
        ground (arith, controller_at-found io halt s1 cs (device / 2) c here found, e)

    ext_run :
        (c.lba48_support == 1) ≡ true
        → send_address io halt device base lba count ext plain s
          ≡ done (tt, record s { machine = ext_machine s.machine device base lba count ext })
    unfolding send_address ◌>>=◌ outb modify pure
    ext_run e =
        let s1 : Ata D = record s {
          machine = io.outb s.machine (at_port base 2) (bit_and count 0xff);
        } in
        ground (arith, controller_at-found io halt s1 cs (device / 2) c here found, e)

-- `reg` is the byte that a port was given last, and `hob` the one before.
module _ {D : Type 0} (io : Ports D) (reg hob : D → ℕ → ℕ)
    (reg-outb : (d : D) (p v q : ℕ) → reg (io.outb d p v) q ≡ (if p == q then v else reg d q))
    (hob-outb : (d : D) (p v q : ℕ) → hob (io.outb d p v) q ≡ (if p == q then reg d q else hob d q))
    (base : ℕ) (fits : base + 7 < 2 ^ 16) where
  -- The address that the drive takes from its registers, and the drive that is selected.
  abbrev low_address : D → ℕ
  low_address d = reg d (base + 3) + 2 ^ 8 * reg d (base + 4) + 2 ^ 16 * reg d (base + 5)

  abbrev pub plain_address : D → ℕ
  plain_address d = low_address d + 2 ^ 24 * (reg d (base + 6) % 16)

  abbrev pub ext_address : D → ℕ
  ext_address d =
      low_address d
      + 2 ^ 24 * hob d (base + 3)
      + 2 ^ 32 * hob d (base + 4)
      + 2 ^ 40 * hob d (base + 5)

  abbrev pub selected : D → ℕ
  selected d = reg d (base + 6) / 16 % 2

  module _ (d : D) (device lba count command : ℕ) where
    plain_lo : reg (plain_machine io d device base lba count command) (base + 3) ≡ bit_and lba 0xff
    plain_lo = simp reg-outb (ground arith)

    plain_mi :
        reg (plain_machine io d device base lba count command) (base + 4)
        ≡ bit_and (lba / 2 ^ 8) 0xff
    plain_mi = simp reg-outb (ground arith)

    plain_hi :
        reg (plain_machine io d device base lba count command) (base + 5)
        ≡ bit_and (lba / 2 ^ 16) 0xff
    plain_hi = simp reg-outb (ground arith)

    plain_sel :
        reg (plain_machine io d device base lba count command) (base + 6) ≡ select_plain device lba
    plain_sel = simp reg-outb (ground arith)

    ext_lo : reg (ext_machine io d device base lba count command) (base + 3) ≡ bit_and lba 0xff
    ext_lo = simp reg-outb (ground arith)

    ext_mi :
        reg (ext_machine io d device base lba count command) (base + 4) ≡ bit_and (lba / 2 ^ 8) 0xff
    ext_mi = simp reg-outb (ground arith)

    ext_hi :
        reg (ext_machine io d device base lba count command) (base + 5)
        ≡ bit_and (lba / 2 ^ 16) 0xff
    ext_hi = simp reg-outb (ground arith)

    ext_sel : reg (ext_machine io d device base lba count command) (base + 6) ≡ select_ext device
    ext_sel = simp reg-outb (ground arith)

    hob_lo :
        hob (ext_machine io d device base lba count command) (base + 3)
        ≡ bit_and (lba / 2 ^ 24) 0xff
    hob_lo = simp (hob-outb, reg-outb) (ground arith)

    hob_mi :
        hob (ext_machine io d device base lba count command) (base + 4)
        ≡ bit_and (lba / 2 ^ 32) 0xff
    hob_mi = simp (hob-outb, reg-outb) (ground arith)

    hob_hi :
        hob (ext_machine io d device base lba count command) (base + 5)
        ≡ bit_and (lba / 2 ^ 40) 0xff
    hob_hi = simp (hob-outb, reg-outb) (ground arith)

    plain_address_lem :
        lba < 2 ^ 28 → plain_address (plain_machine io d device base lba count command) ≡ lba
    plain_address_lem near = omega (
      arith,
      plain_lo,
      plain_mi,
      plain_hi,
      plain_sel ∙ select_plain_lem device lba,
      bit_and-byte lba,
      bit_and-byte (lba / 2 ^ 8),
      bit_and-byte (lba / 2 ^ 16),
    )

    plain_selected : selected (plain_machine io d device base lba count command) ≡ 0
    plain_selected = omega (arith, plain_sel ∙ select_plain_lem device lba)

    ext_address_lem :
        lba < 2 ^ 48 → ext_address (ext_machine io d device base lba count command) ≡ lba
    ext_address_lem near = omega (
      arith,
      ext_lo,
      ext_mi,
      ext_hi,
      hob_lo,
      hob_mi,
      hob_hi,
      bit_and-byte lba,
      bit_and-byte (lba / 2 ^ 8),
      bit_and-byte (lba / 2 ^ 16),
      bit_and-byte (lba / 2 ^ 24),
      bit_and-byte (lba / 2 ^ 32),
      bit_and-byte (lba / 2 ^ 40),
    )

    ext_selected : selected (ext_machine io d device base lba count command) ≡ 0
    ext_selected = omega (arith, ext_sel ∙ select_ext_lem device)

  -- A drive that takes its address from the registers reads exactly the sector number that it was
  -- sent, below 2 ^ 48 from the bytes before the last where it supports them, below 2 ^ 28 otherwise.
  -- But the bit that selects one of the two drives is clear whichever drive was meant.
  pub send_address_lem :
      (halt : D → Bool × D) (s : Ata D) (cs : List Device) (c : Device)
      (device lba count ext plain : ℕ)
      → s.controllers ≡ some cs
      → get_elem? cs (device / 2) ≡ some c
      → lba < (if c.lba48_support == 1 then 2 ^ 48 else 2 ^ 28)
      → (s' : Ata D) × (send_address io halt device base lba count ext plain s ≡ done (tt, s'))
        × ((if c.lba48_support == 1 then ext_address s'.machine else plain_address s'.machine)
            ≡ lba)
        × (selected s'.machine ≡ 0)
  send_address_lem halt s cs c device lba count ext plain here found near =
      elim (Bool-cases (c.lba48_support == 1)) [
        | inl long ↦ (
          record s { machine = ext_machine io s.machine device base lba count ext },
          ext_run io halt s cs c device base lba count ext plain here found long,
          rw long (ext_address_lem s.machine device lba count ext (rw long at (near))),
          ext_selected s.machine device lba count ext,
        )
        | inr short ↦ (
          record s { machine = plain_machine io s.machine device base lba count plain },
          plain_run io halt s cs c device base lba count ext plain here found short,
          rw short (plain_address_lem s.machine device lba count plain (rw short at (near))),
          plain_selected s.machine device lba count plain,
        )
      ]
