-- ===== src/Ps2/Tests.antt =====
-- Runs of kernel/arch/i386/ps2.c on a controller that answers every command with an acknowledgement.
use condor_fos.Base.{
  ℕ, ◌-◌, ◌≤◌, ◌≡◌, refl, Bool, true, false, ◌==◌, ltb, List, [], ◌∷◌, ◌++◌, if◌then◌else◌, arith,
}
use condor_fos.Machine.{Ports, has}
use condor_fos.Machine.Takes.{Ends}
use condor_fos.Ps2.Types.{ps2_stt_cmd}
use condor_fos.Ps2.{Ps2, ps2_send_data_to}
use condor_fos.Ps2.Sent.{Outcome, ps2_send_data_to_lem}

-- The input buffer is full and no answer shows at the first look; the first component tells that it
-- was taken, the second what was written.
abbrev Rig : Type 0
Rig = Bool × List (ℕ × ℕ)

abbrev rig_ports : Ports Rig
rig_ports = record {
  inb = λ d port. if port == 0x64 then ((if d.0 then 0x1 else 0x2), (true, d.1)) else (0xfa, d);
  outb = λ d port v. (false, d.1 ++ (port, v) ∷ []);
  inw = λ d port. (0, d);
  outw = λ d port v. d;
}

abbrev start : Ps2 Rig
start = record { dev_type = λ i. 255; has_dev2 = 1; handlers = []; machine = (false, []) }

late : Rig → ℕ
late d = if d.0 then 0 else 1

late-bound : (d : Rig) → late d ≤ 1
unfolding late
late-bound d = ground arith

late-shows : (d : Rig) → has (rig_ports.inb d ps2_stt_cmd).0 0x1 ≡ (late d == 0)
unfolding late
late-shows (true, w) = refl
late-shows (false, w) = refl

late-full : (d : Rig) → has (rig_ports.inb d ps2_stt_cmd).0 0x2 ≡ ltb 0 (late d)
unfolding late
late-full (true, w) = refl
late-full (false, w) = refl

late-passes : (d : Rig) → late (rig_ports.inb d ps2_stt_cmd).1 ≡ late d - 1
unfolding late
late-passes (true, w) = refl
late-passes (false, w) = refl

written-inb : (d : Rig) (port : ℕ) → (rig_ports.inb d port).1.1 ≡ d.1
written-inb d port = ground arith

ps2_send_data_to_lem_example :
    Ends ⊥
      (λ r.
        Outcome rig_ports
          (λ d. d.1)
          written-inb
          (λ d port v. refl)
          late
          late
          1
          late-bound
          late-full
          late-passes
          late-shows
          late-passes
          false
          false
          1
          0xf4
          []
          1
          r.0
          r.1)
      (ps2_send_data_to rig_ports 2 1 0xf4 start)
unfolding late
ps2_send_data_to_lem_example =
    ps2_send_data_to_lem rig_ports (λ d. d.1) written-inb (λ d port v. refl) late late 1 late-bound
      late-full late-passes late-shows late-passes 2 1 0xf4 start (omega arith)
