-- ===== src/Interrupts/Handlers.antt =====
-- The descriptors as the processor reads them, and the order of the handlers.
use condor_fos.Base.{
  ℕ, ◌+◌, ◌-◌, ◌*◌, ◌/◌, ◌%◌, ◌^◌, ◌≤◌, ◌<◌, ◌≡◌, refl, true, false, Bool, List, [], ◌∷◌, ◌++◌,
  some, ◌==◌, if◌then◌else◌, arith, leb, ltb, Memory, Bool-cases, inl, inr, ◌∙◌, bit_or-low, ap,
}
use condor_fos.Scheduler.{StackState}
use condor_fos.Interrupts.{Idt, run_actions, isr_handler, idt_add_irq_isr, idt_register_interrupt}

-- The fields of the gate `i`, as the processor takes them apart.
abbrev pub gate_offset : Memory → ℕ → ℕ
gate_offset m i = m (i * 2) % 2 ^ 16 + m (i * 2 + 1) / 2 ^ 16 * 2 ^ 16

abbrev pub gate_selector : Memory → ℕ → ℕ
gate_selector m i = m (i * 2) / 2 ^ 16

abbrev pub gate_type : Memory → ℕ → ℕ
gate_type m i = m (i * 2 + 1) / 2 ^ 8 % 2 ^ 8

module _ {W : Type 0} (ic_ack : W → ℕ → W) where
  -- The loop over the actions when it ends with one more: that one is asked if the others decline.
  abbrev pub declined : List (StackState → W → Bool × W) → StackState → W → Bool × W
  declined [] state w = (true, w)
  declined (handler ∷ actions) state w =
      if (handler state w).0
      then (false, (handler state w).1)
      else declined actions state (handler state w).1

  abbrev pub ask : (StackState → W → Bool × W) → StackState → (irq : ℕ) → W → W
  ask handler state irq w =
      if (handler state w).0 then ic_ack (handler state w).1 irq else (handler state w).1

  run_actions-append :
      (actions : List (StackState → W → Bool × W)) (handler : StackState → W → Bool × W)
      (state : StackState) (irq : ℕ) (w : W)
      → run_actions ic_ack (actions ++ handler ∷ []) state irq w ≡ (
          if (declined actions state w).0
          then ask handler state irq (declined actions state w).1
          else run_actions ic_ack actions state irq w)
  unfolding run_actions
  run_actions-append [] handler state irq w = refl
  run_actions-append (first ∷ actions) handler state irq w = elim (Bool-cases (first state w).0) [
    | inl handled ↦ rw handled refl
    | inr passed ↦ rw passed (run_actions-append actions handler state irq (first state w).1)
  ]

  -- A handler that is added for one of the 16 requests is asked after all handlers that the request
  -- had, if all of them decline, and the request is acknowledged if it handles it; if one of them
  -- handles it, all is as before.
  isr_handler-idt_add_irq_isr :
      (idt : Idt ic_ack) (handler : StackState → W → Bool × W) (state : StackState) (irq : ℕ)
      (w : W)
      → irq < 16
      → state.int_num ≡ irq + 32
      → isr_handler ic_ack (idt_add_irq_isr ic_ack idt irq (some handler)) state w ≡ (
          if (declined (idt.irqs irq) state w).0
          then some (ask handler state irq (declined (idt.irqs irq) state w).1)
          else isr_handler ic_ack idt state w)
  unfolding isr_handler idt_add_irq_isr
  isr_handler-idt_add_irq_isr idt handler state irq w h e =
      let valid : leb 16 irq ≡ false = ground arith in
      let low : ltb state.int_num 32 ≡ false = ground arith in
      let high : ltb state.int_num 48 ≡ true = ground arith in
      let place : state.int_num - 32 ≡ irq = omega arith in
      let self : (irq == irq) ≡ true = ground arith in
      rw (valid, low, high, place, self)
        (ap some (run_actions-append (idt.irqs irq) handler state irq w)
          ∙ elim (Bool-cases (declined (idt.irqs irq) state w).0) [
            | inl all ↦ rw all refl
            | inr taken ↦ rw taken refl
          ])

-- For a vector below 256 and arguments of their widths, the processor reads back the address, the
-- selector and the type that were registered, and the words of every other gate are kept.
pub idt_register_interrupt_lem :
    (m : Memory) (int_num func_addr gdt_selector type_attrib j : ℕ)
    → int_num ≤ 255
    → func_addr < 2 ^ 32
    → gdt_selector < 2 ^ 16
    → type_attrib < 2 ^ 8
    → (gate_offset (idt_register_interrupt m int_num func_addr gdt_selector type_attrib) int_num
        ≡ func_addr)
      × (gate_selector (idt_register_interrupt m int_num func_addr gdt_selector type_attrib) int_num
          ≡ gdt_selector)
      × (gate_type (idt_register_interrupt m int_num func_addr gdt_selector type_attrib) int_num
          ≡ type_attrib)
      × (idt_register_interrupt m int_num func_addr gdt_selector type_attrib j ≡ (
          if (j / 2) == int_num
          then idt_register_interrupt m int_num func_addr gdt_selector type_attrib j
          else m j))
unfolding idt_register_interrupt
idt_register_interrupt_lem m int_num func_addr gdt_selector type_attrib j hi hf hs ht =
    let real : ltb 255 int_num ≡ false = ground arith in
    let lower = bit_or-low 16 gdt_selector (func_addr % 2 ^ 16) (omega arith) in
    let higher = bit_or-low 16 (func_addr / 2 ^ 16) (type_attrib * 2 ^ 8) (omega arith) in
    rw (real, lower, higher) (ground arith, ground arith, ground arith, ground arith)
