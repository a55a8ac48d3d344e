-- ===== src/Interrupts/Masks.antt =====
-- The masks of the interrupt controller, for a device whose data ports read back what was written.
use condor_fos.Base.{
  zero, suc, ap, ℕ, ◌<◌, ◌≡◌, refl, false, ◌==◌, if◌then◌else◌, arith, ltb, u8, test_bit, set_bit,
  clear_bit, test_bit-set_bit, test_bit-clear_bit, Bool-cases, inl, inr, ◌∙◌, ◌⊎◌,
}
use condor_fos.Interrupts.{port_of, line_of, pic_mask_irq, pic_unmask_irq}

-- A word and its low byte have the same low eight bits.
test_bit-u8 : (w k : ℕ) → k < 8 → test_bit (u8 w) k ≡ test_bit w k
unfolding test_bit
test_bit-u8 w zero h = omega arith
test_bit-u8 w (suc zero) h = omega arith
test_bit-u8 w (suc (suc zero)) h = omega arith
test_bit-u8 w (suc (suc (suc zero))) h = omega arith
test_bit-u8 w (suc (suc (suc (suc zero)))) h = omega arith
test_bit-u8 w (suc (suc (suc (suc (suc zero))))) h = omega arith
test_bit-u8 w (suc (suc (suc (suc (suc (suc zero)))))) h = omega arith
test_bit-u8 w (suc (suc (suc (suc (suc (suc (suc zero))))))) h = omega arith
test_bit-u8 w (suc (suc (suc (suc (suc (suc (suc (suc k)))))))) h = absurd (omega arith)

module _ {D : Type 0} (inb : D → ℕ → ℕ) (outb : D → (port value : ℕ) → D)
    (reads_back : (d : D) (p q v : ℕ)
      → (p ≡ 0x21) ⊎ (p ≡ 0xa1)
      → (q ≡ 0x21) ⊎ (q ≡ 0xa1)
      → v < 256
      → inb (outb d p v) q ≡ (if p == q then v else inb d q)) where
  -- The mask bit of a request.
  abbrev pub mask_bit : D → ℕ → ℕ
  mask_bit d irq = test_bit (inb d (port_of irq)) (line_of irq)

  port-data : (irq : ℕ) → (port_of irq ≡ 0x21) ⊎ (port_of irq ≡ 0xa1)
  port-data irq = elim (Bool-cases (ltb 7 irq)) [
    | inl second ↦ inr (rw second refl)
    | inr first ↦ inl (rw first refl)
  ]

  -- The mask bit of `j` after a write to the port of `i`.
  mask_bit-outb :
      (d : D) (i j v : ℕ)
      → v < 256
      → mask_bit (outb d (port_of i) v) j
        ≡ (if port_of i == port_of j then test_bit v (line_of j) else mask_bit d j)
  mask_bit-outb d i j v small = elim (Bool-cases (port_of i == port_of j)) [
    | inl same ↦ rw same (ap (λ w. test_bit w (line_of j)) (read ∙ rw same refl))
    | inr apart ↦ rw apart (ap (λ w. test_bit w (line_of j)) (read ∙ rw apart refl))
  ]
    where
      read :
          inb (outb d (port_of i) v) (port_of j)
          ≡ (if port_of i == port_of j then v else inb d (port_of j))
      read = reads_back d (port_of i) (port_of j) v (port-data i) (port-data j) small

  module _ (d : D) (i j : ℕ) (hi : i < 16) (hj : j < 16) where
    -- For the 16 requests, on a device whose two data ports read back the byte that was written to
    -- them last, `pic_maskIRQ` sets the mask bit of its request and `pic_unmaskIRQ` clears it, and
    -- neither changes the mask bit of another request.
    pub pic_mask_irq-pic_unmask_irq :
        (mask_bit (pic_mask_irq inb outb d i) j ≡ (if i == j then 1 else mask_bit d j))
        × (mask_bit (pic_unmask_irq inb outb d i) j ≡ (if i == j then 0 else mask_bit d j))
    unfolding pic_mask_irq pic_unmask_irq
    pic_mask_irq-pic_unmask_irq =
        let w = inb d (port_of i) in
        let real : ltb 15 i ≡ false = ground arith in
        let line : line_of j < 8 = ground arith in
        let set = test_bit-u8 (set_bit w (line_of i)) (line_of j) line in
        let clear = test_bit-u8 (clear_bit w (line_of i)) (line_of j) line in
        (
          rw real (
              mask_bit-outb d i j _ (omega arith)
              ∙ ground (arith, set, test_bit-set_bit w (line_of i) (line_of j))),
          rw real (
              mask_bit-outb d i j _ (omega arith)
              ∙ ground (
                arith,
                clear,
                test_bit-clear_bit w (line_of i) (line_of j) (ground arith) (ground arith),
              )),
        )
