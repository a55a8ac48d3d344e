-- ===== src/Ata/Steps.antt =====
-- The parts that the transfers of kernel/kernel/ata/ata.c share: what they keep of the driver.
use condor_fos.Base.{Bool, ℕ, ◌/◌, ◌<◌}
use condor_fos.Machine.{Ports}
use condor_fos.Machine.Takes.{Keeps, keeps_rules}
use condor_fos.Ata.{Device, is_poisoned}
use condor_fos.Ata.Sectors.{is_too_far, is_refused, send_address}
use condor_fos.Ata.Live.{Live, IsKept, live_rules}

module _ {D : Type 0} (io : Ports D) (halt : D → Bool × D) {Stuck : Type 0} {n i : ℕ}
    {E : Device → Type 0} {M : D → Type 0} where
  pub is_poisoned-Keeps : Keeps Stuck (Live n i E M) (is_poisoned io halt)
  unfolding is_poisoned
  is_poisoned-Keeps = record { at = λ s l. l }

  pub is_refused-Keeps :
      (device lba count : ℕ)
      → device / 2 < n
      → Keeps Stuck (Live n i E M) (is_refused io halt device lba count)
  unfolding is_refused is_too_far
  is_refused-Keeps device lba count inside =
      search (keeps_rules, live_rules, is_poisoned-Keeps, inside) depth 14

  pub send_address-Keeps :
      (device base lba count ext plain : ℕ)
      → device / 2 < n
      → IsKept io M
      → Keeps Stuck (Live n i E M) (send_address io halt device base lba count ext plain)
  unfolding send_address
  send_address-Keeps device base lba count ext plain inside kept =
      search (keeps_rules, live_rules, inside, kept) depth 24
