-- ===== src/Ata/Info/Fields.antt =====
-- What `ide_init` reads of `ata_info_t`, against its fields.
use native.Mathlib.Nat.{div-div-eq-div-mul}
use condor_fos.Base.{
  ℕ, zero, suc, ◌/◌, ◌%◌, ◌^◌, ◌<◌, ◌≡◌, refl, arith, sym, ap, ◌∙◌, Bool-cases, inl, inr, some, [],
  ◌∷◌, if◌then◌else◌, test_bit,
}
use condor_fos.Base.Options.{◌>>=◌}
use condor_fos.Machine.{has}
use condor_fos.Ata.{Device}
use condor_fos.Ata.Identify.{fill_device, bit_sum16}
use condor_fos.Ata.Info.{info_layout, read_field, offset_of, sum_fields, end_of}

test_bit-div : (a k : ℕ) → test_bit a k ≡ a / 2 ^ k % 2 ^ 1
unfolding test_bit
test_bit-div a zero = omega arith
test_bit-div a (suc k) = test_bit-div (a / 2) k ∙ ground (arith, div-div-eq-div-mul a 2 (2 ^ k))

-- What `ide_init` reads of the answer to an identify command, whose words are below 2 ^ 16, are the
-- fields of `ata_info_t` as the compiler lays them out in words of 32 bits: the support of linear
-- addresses and of DMA, the number of versions, of multi-word and of ultra DMA modes and, for a drive
-- without packets, the support of 48-bit addresses, which is then always 0. The structure has 231
-- words.
pub fill_device-read_field :
    (fresh : Device) (info : ℕ → ℕ) (interface base_port alt_port irq : ℕ)
    → ((i : ℕ) → info i < 2 ^ 16)
    → let device : Device = fill_device fresh info interface base_port alt_port irq in
      (read_field "lba_support" info ≡ some device.lba_support)
      × (read_field "dma_support" info ≡ some device.dma_support)
      × ((read_field "major_version" info >>= (λ v. some (bit_sum16 v % 2 ^ 4)))
          ≡ some device.ata_version)
      × (sum_fields ("mdma0_support" ∷ "mdma1_support" ∷ "mdma2_support" ∷ []) info
          ≡ some device.mdma_support)
      × (sum_fields
            ("udma0_support" ∷ "udma1_support" ∷ "udma2_support" ∷ "udma3_support" ∷ "udma4_support"
              ∷ "udma5_support" ∷ "udma6_support" ∷ [])
            info
          ≡ some device.udma_support)
      × ((if has interface 2
            then some fresh.lba48_support
            else read_field "lba48_feature_set_support" info)
          ≡ some device.lba48_support)
      × (device.lba48_support ≡ (if has interface 2 then fresh.lba48_support else 0))
      × (end_of info_layout 0 ≡ 231)
unfolding fill_device read_field offset_of sum_fields end_of
fill_device-read_field fresh info interface base_port alt_port irq fit =
    let bit = λ (i k : ℕ). sym (test_bit-div (info i) k) in
    (
      ap some (bit 31 9),
      ap some (bit 31 8),
      ap (λ (v : ℕ). some (bit_sum16 v % 2 ^ 4)) (omega (arith, fit 62)),
      ap some (omega (arith, bit 42 0, bit 42 1, bit 42 2)),
      ap some (omega (arith, bit 67 0, bit 67 1, bit 67 2, bit 67 3, bit 67 4, bit 67 5, bit 67 6)),
      elim (Bool-cases (has interface 2)) [
        | inl packet ↦ rw packet refl
        | inr plain ↦ rw plain (ap some (bit 64 26))
      ],
      elim (Bool-cases (has interface 2)) [
        | inl packet ↦ rw packet refl
        | inr plain ↦ rw plain (test_bit-div (info 64) 26 ∙ omega (arith, fit 64))
      ],
      refl,
    )
