-- ===== src/Ata/Register.antt =====
-- What ide_init of kernel/kernel/ata/ata.c registers, and what an id that was never given leads to.
use condor_fos.Base.{
  ℕ, zero, suc, ◌+◌, ◌*◌, ◌/◌, ◌%◌, ◌^◌, ◌<◌, ◌≤◌, ◌≡◌, ◌≢◌, refl, ap, ◌∙◌, Bool, true, false, none,
  some, List, [], ◌∷◌, ◌++◌, ltb, leb, ◌==◌, if◌then◌else◌, length, take, get_elem?, write, arith,
}
use mathlib.Core.Path.{subst}
use condor_fos.Machine.{Ports, done, fault, Action, pure, spin, gets, modify, ◌>>=◌}
use condor_fos.Machine.Takes.{Ends, Keeps, keeps_rules}
use condor_fos.Ata.Reg.{device_invalid}
use condor_fos.Ata.{
  Device, Ata, inb, inw, outb, outw, controller_at, switch_device, wait_for_irq,
  ata_get_device_info, ata_send_command,
}
use condor_fos.Ata.Identify.{
  fill_device, place, detect_drive_type, read_info, get_device_data, wait_idle, wait_answer,
  init_device_atapi, and_init_atapi, wait_busy, init_device, register_device, ide_init,
}

module _ {A : Type 0} where
  take-suc : (xs : List A) → take (suc (length xs)) xs ≡ xs
  take-suc [] = refl
  take-suc (x ∷ xs) = ap (λ l. x ∷ l) (take-suc xs)

  get_elem?-last : (xs : List A) (x : A) → get_elem? (xs ++ x ∷ []) (length xs) ≡ some x
  get_elem?-last [] x = refl
  get_elem?-last (y ∷ xs) x = get_elem?-last xs x

  get_elem?-none : (xs : List A) (i : ℕ) → length xs ≤ i → get_elem? xs i ≡ none
  get_elem?-none [] i h = refl
  get_elem?-none (x ∷ xs) zero h = absurd (omega arith)
  get_elem?-none (x ∷ xs) (suc i) h = get_elem?-none xs i (omega arith)

-- The list of drives that `krealloc` finds.
abbrev pub registered : {D : Type 0} → Ata D → List Device
registered s = elim s.controllers [ none ↦ [] | some cs ↦ cs ]

place-next :
    (cs : List Device) (d : Device) → place cs (suc (length cs)) (length cs) d ≡ some (cs ++ d ∷ [])
unfolding place
place-next cs d =
    let all = take-suc cs in
    let not_inside : ltb (length cs) (length cs) ≡ false = ground arith in
    let at_end : (length cs == length cs) ≡ true = ground arith in
    let room : ltb (length cs) (suc (length cs)) ≡ true = ground arith in
    rw (all, not_inside, at_end, room) refl

module _ {D : Type 0} (io : Ports D) (halt : D → Bool × D) where
  -- Another machine and other memory.
  record SameDrives (s s' : Ata D) : Type 0 where
    drives : s'.controllers ≡ s.controllers
    index : s'.controller_index ≡ s.controller_index

  module _ (s : Ata D) where
    abbrev Same : {A : Type 0} → Action (Ata D) A → Type 0
    Same m = Keeps (Unit {0}) (SameDrives s) m

    inb-Same : (port : ℕ) → Same (inb io halt port)
    unfolding inb
    inb-Same port = record { at = λ s' h. record { drives = h.drives; index = h.index } }

    inw-Same : (port : ℕ) → Same (inw io halt port)
    unfolding inw
    inw-Same port = record { at = λ s' h. record { drives = h.drives; index = h.index } }

    outb-Same : (port v : ℕ) → Same (outb io halt port v)
    unfolding outb modify
    outb-Same port v = record { at = λ s' h. record { drives = h.drives; index = h.index } }

    outw-Same : (port v : ℕ) → Same (outw io halt port v)
    unfolding outw modify
    outw-Same port v = record { at = λ s' h. record { drives = h.drives; index = h.index } }

    store-Same : (p v : ℕ) → Same (modify (λ s. record s { memory = write s.memory p v }))
    unfolding modify
    store-Same p v = record { at = λ s' h. record { drives = h.drives; index = h.index } }

    spin-Same : {A : Type 0} → Same (spin {A = A})
    unfolding spin
    spin-Same = record { at = λ s' h. tt }

    ruleset same_rules =
        (keeps_rules, inb-Same, inw-Same, outb-Same, outw-Same, store-Same, spin-Same)

    detect-Same : (base : ℕ) → Same (detect_drive_type io halt base)
    unfolding detect_drive_type
    detect-Same base = search same_rules depth 14

    read_info-Same :
        (rounds base buffer index : ℕ) → Same (read_info io halt rounds base buffer index)
    unfolding read_info
    read_info-Same zero base buffer index = search same_rules
    read_info-Same (suc rounds) base buffer index =
        search (same_rules, read_info-Same rounds base buffer) depth 14

    get_data-Same : (base buffer : ℕ) → Same (get_device_data io halt base buffer)
    unfolding get_device_data
    get_data-Same base buffer = read_info-Same 256 base buffer 0

    wait_idle-Same : (fuel base : ℕ) → Same (wait_idle io halt fuel base)
    unfolding wait_idle
    wait_idle-Same zero base = spin-Same
    wait_idle-Same (suc fuel) base = search (same_rules, wait_idle-Same fuel) depth 14

    wait_answer-Same : (fuel base : ℕ) → Same (wait_answer io halt fuel base)
    unfolding wait_answer
    wait_answer-Same zero base = spin-Same
    wait_answer-Same (suc fuel) base = search (same_rules, wait_answer-Same fuel) depth 14

    and_init-Same :
        (a : Bool) (fuel base buffer : ℕ) → Same (and_init_atapi io halt a fuel base buffer)
    unfolding and_init_atapi init_device_atapi
    and_init-Same a fuel base buffer =
        search (same_rules, wait_idle-Same, wait_answer-Same, get_data-Same) depth 14

    wait_busy-Same :
        (fuel base buffer dev_type : ℕ) → Same (wait_busy io halt fuel base buffer dev_type)
    unfolding wait_busy
    wait_busy-Same zero base buffer dev_type = spin-Same
    wait_busy-Same (suc fuel) base buffer dev_type =
        search (same_rules, and_init-Same, detect-Same, wait_busy-Same fuel base buffer) depth 14

    init_device-Same :
        (fuel base alt : ℕ) (is_slave : Bool) (buffer : ℕ)
        → Same (init_device io halt fuel base alt is_slave buffer)
    unfolding init_device
    init_device-Same fuel base alt is_slave buffer =
        search
          (same_rules, detect-Same, wait_busy-Same, wait_answer-Same, and_init-Same, get_data-Same)
          depth 40 fits 4000

  registered-same : (s s' : Ata D) → s'.controllers ≡ s.controllers → registered s' ≡ registered s
  registered-same s s' e = ground (arith, e)

  -- The id behind the last but one drive gives the last.
  info-last :
      (cs : List Device) (device : Device) (s : Ata D)
      → s.controllers ≡ some (cs ++ device ∷ [])
      → s.controller_index ≡ 2 * length cs + 2
      → length cs + 1 < 2 ^ 30
      → ata_get_device_info io halt (2 * length cs) s ≡ done (some device, s)
  unfolding ata_get_device_info controller_at ◌>>=◌ gets pure
  info-last cs device s here index room =
      let slot : 2 * length cs / 2 ≡ length cs = omega arith in
      ground (arith, slot, here, index, get_elem?-last cs device)

  -- A command for an id that was never given, other than ATA_DEVICE_INVALID, goes to a port of the
  -- machine and then through an entry behind the end of the array.
  ata_send_command-unregistered :
      (s : Ata D) (cs : List Device) (device command subcommand pointer data_length : ℕ)
      → s.controllers ≡ some cs
      → s.controller_index ≡ 2 * length cs
      → 2 * length cs ≤ device
      → device ≢ device_invalid
      → data_length ≢ 0
      → ata_send_command io halt device command subcommand pointer data_length s ≡ fault
  unfolding ata_send_command switch_device wait_for_irq controller_at outb modify ◌>>=◌ gets pure
  ata_send_command-unregistered s cs device command subcommand pointer data_length here index far
        valid some_data =
      ground (arith, here, index, get_elem?-none cs (device / 2) (omega (arith, far)))

  -- What a probe that ended leaves of the registration.
  probe-Same :
      (fuel base alt : ℕ) (is_slave : Bool) (buffer : ℕ) (s s' : Ata D) (t : ℕ)
      → init_device io halt fuel base alt is_slave buffer s ≡ done (t, s')
      → SameDrives s s'
  probe-Same fuel base alt is_slave buffer s s' t ended =
      subst (λ r. Ends (Unit {0}) (λ x. SameDrives s x.1) r) ended
        ((init_device-Same s fuel base alt is_slave buffer).at s
          (record { drives = refl; index = refl }))

  register_device-next :
      (device : Device) (cs : List Device) (s : Ata D)
      → registered s ≡ cs
      → s.controller_index ≡ 2 * length cs
      → length cs + 1 < 2 ^ 30
      → (s' : Ata D) × (register_device io halt device s ≡ done (2 * length cs, s'))
        × (s'.controllers ≡ some (cs ++ device ∷ []))
        × (s'.controller_index ≡ 2 * length cs + 2)
  unfolding register_device ◌>>=◌ gets modify pure
  register_device-next device cs s old index room =
      let size : (s.controller_index + 2) % 2 ^ 32 / 2 % 2 ^ 30 ≡ suc (length cs) =
        omega (arith, index) in
      let slot : s.controller_index / 2 ≡ length cs = omega (arith, index) in
      (
        record s {
          handlers = if leb 16 device.irq then s.handlers else s.handlers ++ device.irq ∷ [];
          controller_index = (s.controller_index + 2) % 2 ^ 32;
          controllers = some (cs ++ device ∷ []);
        },
        ground (arith, size, slot, old, place-next cs device, index),
        refl,
        omega (arith, index),
      )

  module _ (fuel : ℕ) (fresh : Device) (buffer base alt irq : ℕ) (s s1 s2 : Ata D)
      (slave master : ℕ) (some_base : base ≢ 0) (some_alt : alt ≢ 0)
      (first : init_device io halt fuel base alt true buffer s ≡ done (slave, s1))
      (second : init_device io halt fuel base alt false buffer s1 ≡ done (master, s2)) where
    abbrev found : ℕ
    found = if slave == 0 then master else slave

    abbrev found_device : Device
    found_device = fill_device fresh (λ i. s2.memory (buffer + i)) found base alt irq

    ide_init-none :
        found ≡ 0 → ide_init io halt fuel fresh buffer base alt irq s ≡ done (0xffff, s2)
    unfolding ide_init ◌>>=◌ gets pure
    ide_init-none e = ground (arith, first, second)

    ide_init-some :
        found ≢ 0
        → ide_init io halt fuel fresh buffer base alt irq s
          ≡ register_device io halt found_device s2
    unfolding ide_init ◌>>=◌ gets pure
    ide_init-some e = ground (arith, first, second)

    -- For a driver with fewer than 2 ^ 30 - 1 controllers, once the two probes of `ide_init` have
    -- ended, it gives no id and registers nothing if neither has found a drive. Otherwise it gives the
    -- next id and puts one drive behind the others, and `ata_getDeviceInfo` of that id finds that
    -- drive.
    pub ide_init_lem :
        s.controller_index ≡ 2 * length (registered s)
        → length (registered s) + 1 < 2 ^ 30
        → (found ≡ 0
            → (ide_init io halt fuel fresh buffer base alt irq s ≡ done (0xffff, s2))
              × (s2.controllers ≡ s.controllers))
          × (found ≢ 0
              → (s' : Ata D) × (ide_init io halt fuel fresh buffer base alt irq s
                  ≡ done (2 * length (registered s), s'))
                × (s'.controllers ≡ some (registered s ++ found_device ∷ []))
                × (ata_get_device_info io halt (2 * length (registered s)) s'
                    ≡ done (some found_device, s')))
    ide_init_lem index room =
        let same1 = probe-Same fuel base alt true buffer s s1 slave first in
        let same2 = probe-Same fuel base alt false buffer s1 s2 master second in
        let drives : s2.controllers ≡ s.controllers = same2.drives ∙ same1.drives in
        let old : registered s2 ≡ registered s = registered-same s s2 drives in
        (
          λ e. (ide_init-none e, drives),
          λ e.
              let (s', run, grown, next) =
                register_device-next found_device (registered s) s2 old
                  (same2.index ∙ same1.index ∙ index) room in
              (
                s',
                ide_init-some e ∙ run,
                grown,
                info-last (registered s) found_device s' grown next room,
              ),
        )
