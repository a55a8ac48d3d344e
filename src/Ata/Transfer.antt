-- ===== src/Ata/Transfer.antt =====
-- A transfer of sectors ends, and gives the drive back.
use condor_fos.Base.{
  ℕ, zero, suc, ◌+◌, ◌-◌, ◌/◌, ◌%◌, ◌^◌, ◌<◌, ◌≤◌, ◌≡◌, refl, sym, ◌∙◌, Bool, true, false, ltb,
  ◌==◌, arith, write, ==_iff,
}
use condor_fos.Machine.{Ports, has, spin, modify}
use condor_fos.Machine.Takes.{
  Ends, Takes, Keeps, Takes-bind, Takes-pure, Takes-if, Takes-known, Takes-weaken, Keeps-bind,
  Keeps-pure,
}
use condor_fos.Ata.{Device, Ata, inb, inw, change}
use condor_fos.Ata.Sectors.{read_words, finish, ata_read_sectors}
use condor_fos.Ata.Live.{
  Live, IsSteady, controller_at-Keeps, controller_at-Takes, change_at-Takes, Live-machine,
}
use condor_fos.Ata.Reg.{read_sectors, read_sectors_ext}
use condor_fos.Ata.Wait.{wait_for_irq-Keeps, switch_device-Keeps}
use condor_fos.Ata.Steps.{is_refused-Keeps, send_address-Keeps}
use condor_fos.Ata.Safe.{Any, Any-IsKept}

-- The drive is used or not, and its alternate status is at `alt`.
abbrev pub Used : (used : Bool) (alt : ℕ) → Device → Type 0
Used used alt c = (c.in_use ≡ used) × (c.alt_port ≡ alt)

Used-IsSteady : (used : Bool) (alt : ℕ) → IsSteady (Used used alt)
Used-IsSteady used alt = record {
  on_error = λ c e h. h;
  on_success = λ c h. h;
  on_block = λ c b h. h;
}

module _ {D : Type 0} (io : Ports D) (halt : D → Bool × D) {Stuck : Type 0} {n i : ℕ}
    {E : Device → Type 0} {M : D → Type 0} where
  -- A read of a port may tell something of the machine.
  inb-Takes :
      (port : ℕ) (M' : ℕ → D → Type 0)
      → ((d : D) → M d → M' (io.inb d port).0 (io.inb d port).1)
      → Takes Stuck (Live n i E M) (λ v. Live n i E (M' v)) (inb io halt port)
  unfolding inb
  inb-Takes port M' tell = record {
    at = λ s l. Live-machine (io.inb s.machine port).1 s.memory l (tell s.machine l.machine);
  }

  inw-Takes :
      (port : ℕ) (M' : D → Type 0)
      → ((d : D) → M d → M' (io.inw d port).1)
      → Takes Stuck (Live n i E M) (λ _. Live n i E M') (inw io halt port)
  unfolding inw
  inw-Takes port M' tell = record {
    at = λ s l. Live-machine (io.inw s.machine port).1 s.memory l (tell s.machine l.machine);
  }

  store-Keeps :
      (p v : ℕ)
      → Keeps Stuck (Live n i E M) (modify (λ s. record s { memory = write s.memory p v }))
  unfolding modify
  store-Keeps p v = record { at = λ s l. Live-machine s.machine (write s.memory p v) l l.machine }

-- `pending` is the number of words that the drive has to give, at most `limit`; the alternate status
-- shows if there is one, and a read of a word takes one.
module _ {D : Type 0} (io : Ports D) (halt : D → Bool × D) (device n alt limit : ℕ)
    (inside : device / 2 < n) (pending : D → ℕ) (bound : (d : D) → pending d ≤ limit)
    (request : (d : D) → has (io.inb d alt).0 0x08 ≡ ltb 0 (pending d))
    (asked : (d : D) → pending (io.inb d alt).1 ≡ pending d)
    (taken : (d : D) (port : ℕ) → pending (io.inw d port).1 ≡ pending d - 1) where
  abbrev Fewer : ℕ → D → Type 0
  Fewer b d = pending d < b

  abbrev Asked : ℕ → ℕ → D → Type 0
  Asked b v d = (pending d < b) × (has v 0x08 ≡ ltb 0 (pending d))

  abbrev State : (used : Bool) → (D → Type 0) → Ata D → Type 0
  State used M = Live n (device / 2) (Used used alt) M

  told :
      (fuel port : ℕ) (d : D)
      → port ≡ alt
      → pending d < fuel
      → Asked fuel (io.inb d port).0 (io.inb d port).1
  told fuel port d here h = rw (here, asked d) (h, request d)

  fewer :
      (fuel v port : ℕ) (d : D)
      → has v 0x08 ≡ true
      → Asked (suc fuel) v d
      → pending (io.inw d port).1 < fuel
  fewer fuel v port d more (h, e) = rw (taken d port) (ground (arith, sym more ∙ e, h))

  read_words-Takes :
      (fuel base buffer j : ℕ)
      → Takes ⊥
          (State true (Fewer fuel))
          (λ _. State true Any)
          (read_words io halt fuel device base buffer j)
  unfolding read_words spin
  read_words-Takes zero base buffer j = record { at = λ s l. absurd (omega (arith, l.machine)) }
  read_words-Takes (suc fuel) base buffer j = Takes-bind _ _ (controller_at-Takes io halt) (λ c.
      Takes-known {P = State true (Fewer (suc fuel))} _ (λ known.
        Takes-bind _ _
          (inb-Takes io halt c.alt_port (Asked (suc fuel))
            (λ d h. told (suc fuel) c.alt_port d known.1 h))
          (λ v.
            Takes-if (has v 0x08) _ _
              (λ more.
                Takes-bind _ _
                  (inw-Takes io halt base (Fewer fuel) (λ d h. fewer fuel v base d more h))
                  (λ w.
                    Takes-bind _ _ (store-Keeps io halt (buffer + j) w)
                      (λ _. read_words-Takes fuel base buffer ((j + 1) % 2 ^ 32))))
              (λ no_more. Takes-pure tt (λ s l. Live-machine s.machine s.memory l tt)))))

  few : (fuel : ℕ) → limit < fuel → (s : Ata D) → State true Any s → State true (Fewer fuel) s
  few fuel enough s l = Live-machine s.machine s.memory l (omega (arith, bound s.machine))

  change-Takes :
      (before after : Bool) (f : Device → Device)
      → ((c : Device) → (f c).in_use ≡ after)
      → ((c : Device) → (f c).alt_port ≡ c.alt_port)
      → Takes ⊥ (State before Any) (λ _. State after Any) (change io halt device f)
  change-Takes before after f sets same = change_at-Takes io halt (device / 2) f inside (λ c e.
      let here : (device / 2 == device / 2) ≡ true = (==_iff (device / 2) (device / 2)).1 refl in
      rw here (sets c, same c ∙ e.1))

  finish-Takes : Takes ⊥ (State true Any) (λ _. State false Any) (finish io halt device)
  unfolding finish
  finish-Takes =
      Takes-bind _ _ (change-Takes true false _ (λ c. refl) (λ c. refl))
        (λ _. Keeps-bind _ _ (controller_at-Keeps io halt (device / 2) inside) (λ c. Keeps-pure _))

  -- On a registered drive that is not in use, and that gives at most `limit` words, `ata_readSectors`
  -- returns once the fuel is larger than `limit`, makes no access to `controllers` while it is
  -- poisoned or behind its end, and leaves the drive not in use, whether it was refused, failed or
  -- succeeded.
  pub ata_read_sectors-Ends :
      (fuel lba count destination : ℕ) (s : Ata D)
      → limit < fuel
      → Live n (device / 2) (Used false alt) Any s
      → Ends ⊥
          (λ r. Live n (device / 2) (Used false alt) Any r.1)
          (ata_read_sectors io halt fuel device lba count destination s)
  unfolding ata_read_sectors
  ata_read_sectors-Ends fuel lba count destination s enough l =
      let kept = Any-IsKept io in
      (Takes-bind _ _ (is_refused-Keeps io halt device lba count inside) (λ refused.
          Takes-if refused _ _ (λ yes_refused. Keeps-pure false)
            (λ go.
              Takes-bind _ _
                (switch_device-Keeps io halt (Used-IsSteady false alt) kept (λ d h. tt) device
                  inside)
                (λ base.
                  Takes-if (base == 0) _ _ (λ no_base. Keeps-pure false)
                    (λ some_base.
                      Takes-bind _ _ (change-Takes false true _ (λ c. refl) (λ c. refl)) (λ _.
                        Takes-bind _ _
                          (send_address-Keeps io halt device base lba count read_sectors_ext
                            read_sectors inside kept)
                          (λ _.
                            Takes-bind _ _
                              (wait_for_irq-Keeps io halt (Used-IsSteady true alt) kept (λ d h. tt)
                                device inside)
                              (λ _.
                                Takes-bind _ _
                                  (Takes-weaken _ (few fuel enough)
                                    (read_words-Takes fuel base destination 0))
                                  (λ _. finish-Takes))))))))).at
        s l
