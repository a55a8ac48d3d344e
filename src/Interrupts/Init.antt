-- ===== src/Interrupts/Init.antt =====
-- kernel/arch/i386/idt.c, `idt_init`, and what the gates and the masks are behind it.
use condor_fos.Base.{
  ℕ, zero, suc, ◌+◌, ◌*◌, ◌/◌, ◌^◌, ◌≤◌, ◌<◌, ◌≡◌, ◌⊎◌, refl, true, false, Bool, ◌&&◌, ◌||◌, List,
  [], ◌∷◌, ◌==◌, if◌then◌else◌, arith, leb, ltb, Memory, Bool-cases, inl, inr, ◌∙◌, ap,
}
use condor_fos.Interrupts.{idt_register_interrupt, pic_init, pic_mask_irq, pic_unmask_irq}
use condor_fos.Interrupts.Handlers.{
  gate_offset, gate_selector, gate_type, idt_register_interrupt_lem,
}
use condor_fos.Interrupts.Masks.{mask_bit, pic_mask_irq-pic_unmask_irq}

-- `ISR_32_INTRGATE | ISR_ATR_PRESENT | ISR_ATR_RING0`.
abbrev pub gate_attributes : ℕ
gate_attributes = 0x8e

-- The calls of `idt_registerInterrupt` from vector `i` on, for `n` vectors; `stub i` is the address
-- of `isr<i>`.
unfoldable pub register_stubs : (stub : ℕ → ℕ) → ℕ → Memory → ℕ → Memory
register_stubs stub zero m i = m
register_stubs stub (suc n) m i =
    register_stubs stub n (idt_register_interrupt m i (stub i) 8 gate_attributes) (i + 1)

-- The last 16 calls, in order: `true` for `ic_maskIRQ`, `false` for `ic_unmaskIRQ`.
abbrev pub initial_masks : List (ℕ × Bool)
initial_masks =
    (0, false)
    ∷ (1, false)
    ∷ (2, false)
    ∷ (3, true)
    ∷ (4, true)
    ∷ (5, true)
    ∷ (6, true)
    ∷ (7, true)
    ∷ (8, true)
    ∷ (9, true)
    ∷ (10, true)
    ∷ (11, true)
    ∷ (12, false)
    ∷ (13, true)
    ∷ (14, false)
    ∷ (15, false)
    ∷ []

module _ {D : Type 0} (inb : D → ℕ → ℕ) (outb : D → (port value : ℕ) → D) where
  unfoldable pub set_masks : List (ℕ × Bool) → D → D
  set_masks [] d = d
  set_masks ((irq, masked) ∷ rest) d =
      set_masks rest (if masked then pic_mask_irq inb outb d irq else pic_unmask_irq inb outb d irq)

  -- The table and the device; `irqs` are all emptied, and `hal_initPIC` moves the controllers to the
  -- vectors 32 and 40.
  unfoldable pub idt_init : (stub : ℕ → ℕ) → Memory → D → Memory × D
  idt_init stub m d = (
    register_stubs stub 16 (register_stubs stub 32 m 0) 32,
    set_masks initial_masks (pic_init inb outb d 32 40),
  )

-- A word of a registered gate does not depend on what was there.
same_gate :
    (m m' : Memory) (f j : ℕ)
    → j / 2 ≤ 255
    → idt_register_interrupt m (j / 2) f 8 gate_attributes j
      ≡ idt_register_interrupt m' (j / 2) f 8 gate_attributes j
unfolding idt_register_interrupt
same_gate m m' f j h = let real : ltb 255 (j / 2) ≡ false = ground arith in rw real (ground arith)

other_gate :
    (m : Memory) (i f j : ℕ)
    → (j / 2 == i) ≡ false
    → idt_register_interrupt m i f 8 gate_attributes j ≡ m j
unfolding idt_register_interrupt
other_gate m i f j h = ground arith

-- The word `j` behind `n` registrations from `i` on.
abbrev registered : (stub : ℕ → ℕ) → ℕ → Memory → (i j : ℕ) → ℕ
registered stub n m i j =
    if leb i (j / 2) && ltb (j / 2) (i + n)
    then idt_register_interrupt m (j / 2) (stub (j / 2)) 8 gate_attributes j
    else m j

register_stubs_lem :
    (stub : ℕ → ℕ) (n : ℕ) (m : Memory) (i j : ℕ)
    → i + n ≤ 256
    → register_stubs stub n m i j ≡ registered stub n m i j
unfolding register_stubs
register_stubs_lem stub zero m i j h = ground arith
register_stubs_lem stub (suc n) m i j h =
    register_stubs_lem stub n (idt_register_interrupt m i (stub i) 8 gate_attributes) (i + 1) j
      (omega arith)
    ∙ elim (Bool-cases (j / 2 == i)) [
      | inl here ↦
          let e : i ≡ j / 2 = ground (arith, here) in
          let later : (leb (i + 1) (j / 2) && ltb (j / 2) (i + 1 + n)) ≡ false = ground arith in
          let first : (leb i (j / 2) && ltb (j / 2) (i + suc n)) ≡ true = ground arith in
          rw (later, first) (ap (λ k. idt_register_interrupt m k (stub k) 8 gate_attributes j) e)
      | inr other ↦ elim (Bool-cases (leb i (j / 2) && ltb (j / 2) (i + suc n))) [
        | inl inside ↦
            let later : (leb (i + 1) (j / 2) && ltb (j / 2) (i + 1 + n)) ≡ true = ground arith in
            rw (later, inside) (same_gate _ m (stub (j / 2)) j (ground arith))
        | inr outside ↦
            let later : (leb (i + 1) (j / 2) && ltb (j / 2) (i + 1 + n)) ≡ false = ground arith in
            rw (later, outside) (other_gate m i (stub i) j other)
      ]
    ]

-- The word `j` of the table behind `idt_init`.
table_lem :
    (stub : ℕ → ℕ) (m : Memory) (j : ℕ)
    → j / 2 < 48
    → register_stubs stub 16 (register_stubs stub 32 m 0) 32 j
      ≡ idt_register_interrupt m (j / 2) (stub (j / 2)) 8 gate_attributes j
table_lem stub m j h =
    register_stubs_lem stub 16 (register_stubs stub 32 m 0) 32 j (omega arith)
    ∙ elim (Bool-cases (leb 32 (j / 2))) [
      | inl request ↦
          let inside : (leb 32 (j / 2) && ltb (j / 2) (32 + 16)) ≡ true = ground arith in
          rw inside (same_gate _ m (stub (j / 2)) j (omega arith))
      | inr exception ↦
          let outside : (leb 32 (j / 2) && ltb (j / 2) (32 + 16)) ≡ false = ground arith in
          let inside : (leb 0 (j / 2) && ltb (j / 2) (0 + 32)) ≡ true = ground arith in
          rw outside (register_stubs_lem stub 32 m 0 j (omega arith) ∙ rw inside refl)
    ]

module _ {D : Type 0} (inb : D → ℕ → ℕ) (outb : D → (port value : ℕ) → D) where
  -- After `idt_init` each of the vectors 0 to 47 has a present 32-bit interrupt gate of ring 0 to
  -- its stub in the code segment 8, if the stub's address has 32 bits.
  idt_init-gates :
      (stub : ℕ → ℕ) (m : Memory) (d : D) (i : ℕ)
      → i < 48
      → stub i < 2 ^ 32
      → (gate_offset (idt_init inb outb stub m d).0 i ≡ stub i)
        × (gate_selector (idt_init inb outb stub m d).0 i ≡ 8)
        × (gate_type (idt_init inb outb stub m d).0 i ≡ 0x8e)
  unfolding idt_init
  idt_init-gates stub m d i h fits =
      let even : i * 2 / 2 ≡ i = omega arith in
      let odd : (i * 2 + 1) / 2 ≡ i = omega arith in
      let gate =
        idt_register_interrupt_lem m i (stub i) 8 gate_attributes 0 (omega arith) fits (omega arith)
          (omega arith) in
      let low = rw even at (table_lem stub m (i * 2) (omega arith)) in
      let high = rw odd at (table_lem stub m (i * 2 + 1) (omega arith)) in
      rw (low, high) (gate.0, gate.1, gate.2)

-- The mask of request `j` behind a list of calls, when it was `bit` before.
abbrev pub last_mask : List (ℕ × Bool) → (bit j : ℕ) → ℕ
last_mask [] bit j = bit
last_mask ((irq, masked) ∷ rest) bit j =
    last_mask rest (if irq == j then (if masked then 1 else 0) else bit) j

masks :
    (j bit : ℕ)
    → j < 16
    → last_mask initial_masks bit j ≡ (if leb j 2 || (j == 12) || leb 14 j then 0 else 1)
masks zero bit h = refl
masks (suc zero) bit h = refl
masks (suc (suc zero)) bit h = refl
masks (suc (suc (suc zero))) bit h = refl
masks (suc (suc (suc (suc zero)))) bit h = refl
masks (suc (suc (suc (suc (suc zero))))) bit h = refl
masks (suc (suc (suc (suc (suc (suc zero)))))) bit h = refl
masks (suc (suc (suc (suc (suc (suc (suc zero))))))) bit h = refl
masks (suc (suc (suc (suc (suc (suc (suc (suc zero)))))))) bit h = refl
masks (suc (suc (suc (suc (suc (suc (suc (suc (suc zero))))))))) bit h = refl
masks (suc (suc (suc (suc (suc (suc (suc (suc (suc (suc zero)))))))))) bit h = refl
masks (suc (suc (suc (suc (suc (suc (suc (suc (suc (suc (suc zero))))))))))) bit h = refl
masks (suc (suc (suc (suc (suc (suc (suc (suc (suc (suc (suc (suc zero)))))))))))) bit h = refl
masks (suc (suc (suc (suc (suc (suc (suc (suc (suc (suc (suc (suc (suc zero))))))))))))) bit h =
    refl
masks (suc (suc (suc (suc (suc (suc (suc (suc (suc (suc (suc (suc (suc (suc zero)))))))))))))) bit
      h =
    refl
masks (suc (suc (suc (suc (suc (suc (suc (suc (suc (suc (suc (suc (suc (suc (suc zero)))))))))))))))
      bit h =
    refl
masks
      (suc
        (suc (suc (suc (suc (suc (suc (suc (suc (suc (suc (suc (suc (suc (suc (suc j))))))))))))))))
      bit h =
    absurd (omega arith)

abbrev are_requests : List (ℕ × Bool) → Bool
are_requests [] = true
are_requests ((irq, masked) ∷ rest) = ltb irq 16 && are_requests rest

module _ {D : Type 0} (inb : D → ℕ → ℕ) (outb : D → (port value : ℕ) → D)
    (reads_back : (d : D) (p q v : ℕ)
      → (p ≡ 0x21) ⊎ (p ≡ 0xa1)
      → (q ≡ 0x21) ⊎ (q ≡ 0xa1)
      → v < 256
      → inb (outb d p v) q ≡ (if p == q then v else inb d q)) where
  mask_bit-set_masks :
      (calls : List (ℕ × Bool)) (d : D) (j : ℕ)
      → are_requests calls ≡ true
      → j < 16
      → mask_bit inb outb reads_back (set_masks inb outb calls d) j
        ≡ last_mask calls (mask_bit inb outb reads_back d j) j
  unfolding set_masks
  mask_bit-set_masks [] d j h hj = refl
  mask_bit-set_masks ((irq, true) ∷ rest) d j h hj =
      mask_bit-set_masks rest _ j (ground arith) hj
      ∙ ap (λ b. last_mask rest b j)
          (pic_mask_irq-pic_unmask_irq inb outb reads_back d irq j (ground arith) hj).0
  mask_bit-set_masks ((irq, false) ∷ rest) d j h hj =
      mask_bit-set_masks rest _ j (ground arith) hj
      ∙ ap (λ b. last_mask rest b j)
          (pic_mask_irq-pic_unmask_irq inb outb reads_back d irq j (ground arith) hj).1

  -- After `idt_init`, on a device whose two data ports read back the byte that was written to them
  -- last, the requests 0, 1, 2, 12, 14 and 15 are let through and the other ten are masked.
  idt_init-masks :
      (stub : ℕ → ℕ) (m : Memory) (d : D) (j : ℕ)
      → j < 16
      → mask_bit inb outb reads_back (idt_init inb outb stub m d).1 j
        ≡ (if leb j 2 || (j == 12) || leb 14 j then 0 else 1)
  unfolding idt_init
  idt_init-masks stub m d j h =
      mask_bit-set_masks initial_masks (pic_init inb outb d 32 40) j refl h ∙ masks j _ h
