-- ===== src/Ata/Live.antt =====
-- The driver with `n` drives registered, and what every action of kernel/kernel/ata/ata.c keeps of it.
use condor_fos.Base.{
  ◌%◌, ◌^◌, ℕ, zero, suc, ◌*◌, ◌/◌, ◌<◌, ◌≡◌, refl, ap, ◌∙◌, Bool, true, false, inl, inr, some,
  List, [], ◌∷◌, ltb, ◌==◌, if◌then◌else◌, length, get_elem?, update_at, Bool-cases, arith, Memory,
}
use condor_fos.Machine.{Ports, done, modify}
use condor_fos.Machine.Takes.{Takes, Keeps, keeps_rules}
use condor_fos.Ata.{
  Device, Ata, inb, inw, outb, outw, controller_at, change_at, change, read_four, note_status,
}

length-update_at :
    {A : Type 0} (f : A → A) (xs : List A) (i : ℕ) → length (update_at f xs i) ≡ length xs
length-update_at f [] i = refl
length-update_at f (x ∷ xs) zero = refl
length-update_at f (x ∷ xs) (suc i) = ap suc (length-update_at f xs i)

pub get_elem?-update_at :
    {A : Type 0} (f : A → A) (xs : List A) (i j : ℕ) {x : A}
    → get_elem? xs j ≡ some x
    → get_elem? (update_at f xs i) j ≡ some (if i == j then f x else x)
get_elem?-update_at f [] i j e = cc
get_elem?-update_at f (y ∷ xs) zero zero e = ground arith
get_elem?-update_at f (y ∷ xs) zero (suc j) e = ground arith
get_elem?-update_at f (y ∷ xs) (suc i) zero e = ground arith
get_elem?-update_at f (y ∷ xs) (suc i) (suc j) e = ground (arith, get_elem?-update_at f xs i j e)

pub get_elem?-some :
    {A : Type 0} (xs : List A) (i : ℕ) → i < length xs → (x : A) × (get_elem? xs i ≡ some x)
get_elem?-some [] i h = absurd (omega arith)
get_elem?-some (x ∷ xs) zero h = (x, refl)
get_elem?-some (x ∷ xs) (suc i) h = get_elem?-some xs i (omega arith)

-- `n` drives are registered, the one at place `i` satisfies `E`, and the machine `M`.
pub record Live {D : Type 0} (n i : ℕ) (E : Device → Type 0) (M : D → Type 0) (s : Ata D)
    : Type 0 where
  pub drives : List Device
  pub controllers : s.controllers ≡ some drives
  pub count : length drives ≡ n
  pub index : s.controller_index ≡ 2 * n
  pub current : s.current_controller / 2 < n
  pub drive : Device
  pub entry : get_elem? drives i ≡ some drive
  pub holds : E drive
  pub machine : M s.machine

-- `E` does not look at what an interrupt and a wait change.
pub record IsSteady (E : Device → Type 0) : Type 0 where
  pub on_error : (c : Device) (e : ℕ) → E c → E (record c { has_errored = true; error_info = e })
  pub on_success : (c : Device) → E c → E (record c { has_errored = false; error_info = 0 })
  pub on_block : (c : Device) (b : Bool) → E c → E (record c { is_blocked = b })

-- `M` holds behind every access to a port.
pub record IsKept {D : Type 0} (io : Ports D) (M : D → Type 0) : Type 0 where
  pub by_inb : (d : D) (port : ℕ) → M d → M (io.inb d port).1
  pub by_inw : (d : D) (port : ℕ) → M d → M (io.inw d port).1
  pub by_outb : (d : D) (port v : ℕ) → M d → M (io.outb d port v)
  pub by_outw : (d : D) (port v : ℕ) → M d → M (io.outw d port v)

-- Another machine and other memory.
pub Live-machine :
    {D : Type 0} {n i : ℕ} {E : Device → Type 0} {M M' : D → Type 0} {s : Ata D} (d : D)
    (m : Memory)
    → Live n i E M s
    → M' d
    → Live n i E M' (record s { machine = d; memory = m })
Live-machine d m l h = record {
  drives = l.drives;
  controllers = l.controllers;
  count = l.count;
  index = l.index;
  current = l.current;
  drive = l.drive;
  entry = l.entry;
  holds = l.holds;
  machine = h;
}

-- A change of the drive at place `j`, which is fine for the one at place `i`.
Live-change :
    {D : Type 0} {n i : ℕ} {E E' : Device → Type 0} {M : D → Type 0} {s : Ata D}
    (f : Device → Device) (j : ℕ) (l : Live n i E M s)
    → ((c : Device) → E c → E' (if j == i then f c else c))
    → Live n i E' M (record s { controllers = some (update_at f l.drives j) })
Live-change {i = i} f j l change = record {
  drives = update_at f l.drives j;
  controllers = refl;
  count = length-update_at f l.drives j ∙ l.count;
  index = l.index;
  current = l.current;
  drive = if j == i then f l.drive else l.drive;
  entry = get_elem?-update_at f l.drives j i l.entry;
  holds = change l.drive l.holds;
  machine = l.machine;
}

module _ {D : Type 0} (io : Ports D) (halt : D → Bool × D) where
  pub controller_at-found :
      (s : Ata D) (cs : List Device) (j : ℕ) (c : Device)
      → s.controllers ≡ some cs
      → get_elem? cs j ≡ some c
      → controller_at io halt j s ≡ done (c, s)
  unfolding controller_at
  controller_at-found s cs j c e found = ground arith

module _ {D : Type 0} (io : Ports D) (halt : D → Bool × D) {Stuck : Type 0} {n i : ℕ} where
  module _ {E : Device → Type 0} {M : D → Type 0} where
    -- Any drive that is registered can be read, and the one at place `i` satisfies `E`.
    pub controller_at-Keeps : (j : ℕ) → j < n → Keeps Stuck (Live n i E M) (controller_at io halt j)
    controller_at-Keeps j inside = record {
      at = λ s l.
          let (c, found) = get_elem?-some l.drives j (omega (arith, l.count)) in
          rw (controller_at-found io halt s l.drives j c l.controllers found) l;
    }

    pub controller_at-Takes :
        Takes Stuck (Live n i E M) (λ c s. E c × Live n i E M s) (controller_at io halt i)
    controller_at-Takes = record {
      at = λ s l.
          rw (controller_at-found io halt s l.drives i l.drive l.controllers l.entry) (l.holds, l);
    }

  module _ {E E' : Device → Type 0} {M : D → Type 0} where
    pub change_at-Takes :
        (j : ℕ) (f : Device → Device)
        → j < n
        → ((c : Device) → E c → E' (if j == i then f c else c))
        → Takes Stuck (Live n i E M) (λ _. Live n i E' M) (change_at io halt j f)
    unfolding change_at
    change_at-Takes j f inside change = record {
      at = λ s l.
          let within : ltb j (length l.drives) ≡ true = ground (arith, l.count) in
          rw (l.controllers, within) (Live-change f j l change);
    }

  module _ {E : Device → Type 0} where
    pub change_at-Keeps :
        {M : D → Type 0} (j : ℕ) (f : Device → Device)
        → j < n
        → ((c : Device) → E c → E (f c))
        → Keeps Stuck (Live n i E M) (change_at io halt j f)
    change_at-Keeps j f inside keep =
        change_at-Takes j f inside (λ c e. elim (Bool-cases (j == i)) [
          | inl here ↦ rw here (keep c e)
          | inr away ↦ rw away e
        ])

    module _ {M : D → Type 0} (kept : IsKept io M) where
      pub inb-Keeps : (port : ℕ) → Keeps Stuck (Live n i E M) (inb io halt port)
      unfolding inb
      inb-Keeps port = record {
        at = λ s l.
            Live-machine (io.inb s.machine port).1 s.memory l
              (kept.by_inb s.machine port l.machine);
      }

      pub inw-Keeps : (port : ℕ) → Keeps Stuck (Live n i E M) (inw io halt port)
      unfolding inw
      inw-Keeps port = record {
        at = λ s l.
            Live-machine (io.inw s.machine port).1 s.memory l
              (kept.by_inw s.machine port l.machine);
      }

      pub outb-Keeps : (port v : ℕ) → Keeps Stuck (Live n i E M) (outb io halt port v)
      unfolding outb modify
      outb-Keeps port v = record {
        at = λ s l.
            Live-machine (io.outb s.machine port v) s.memory l
              (kept.by_outb s.machine port v l.machine);
      }

      pub outw-Keeps : (port v : ℕ) → Keeps Stuck (Live n i E M) (outw io halt port v)
      unfolding outw modify
      outw-Keeps port v = record {
        at = λ s l.
            Live-machine (io.outw s.machine port (v % 2 ^ 16)) s.memory l
              (kept.by_outw s.machine port (v % 2 ^ 16) l.machine);
      }

      ruleset ports = (inb-Keeps, inw-Keeps, outb-Keeps, outw-Keeps)

      pub read_four-Keeps : (port : ℕ) → Keeps Stuck (Live n i E M) (read_four io halt port)
      read_four-Keeps port = search (keeps_rules, ports)

      module _ (steady : IsSteady E) where
        pub failure-Keeps :
            (j e : ℕ)
            → j < n
            → Keeps Stuck
                (Live n i E M)
                (change_at io halt j (λ c. record c { has_errored = true; error_info = e }))
        failure-Keeps j e inside = change_at-Keeps j _ inside (λ c h. steady.on_error c e h)

        pub success-Keeps :
            (j : ℕ)
            → j < n
            → Keeps Stuck
                (Live n i E M)
                (change_at io halt j (λ c. record c { has_errored = false; error_info = 0 }))
        success-Keeps j inside = change_at-Keeps j _ inside steady.on_success

        pub block-Keeps :
            (j : ℕ) (b : Bool)
            → j < n
            → Keeps Stuck (Live n i E M) (change_at io halt j (λ c. record c { is_blocked = b }))
        block-Keeps j b inside = change_at-Keeps j _ inside (λ c h. steady.on_block c b h)

        pub note_status-Keeps :
            (current b : ℕ)
            → current / 2 < n
            → Keeps Stuck (Live n i E M) (note_status io halt current b)
        unfolding note_status
        note_status-Keeps current b inside =
            search (keeps_rules, ports, success-Keeps, failure-Keeps, controller_at-Keeps, inside)

pub ruleset live_rules = (
  inb-Keeps, inw-Keeps, outb-Keeps, outw-Keeps, read_four-Keeps, controller_at-Keeps,
  note_status-Keeps, block-Keeps,
)
