-- ===== src/Ata/Info/Tests.antt =====
-- The fields of an answer to an identify command.
use condor_fos.Base.{ℕ, ◌%◌, ◌^◌, ◌<◌, ◌≡◌, refl, arith, false, some, [], ◌∷◌, ◌==◌, if◌then◌else◌}
use condor_fos.Base.Options.{◌>>=◌}
use condor_fos.Machine.{has}
use condor_fos.Ata.{Device}
use condor_fos.Ata.Identify.{fill_device, bit_sum16}
use condor_fos.Ata.Info.{info_layout, read_field, sum_fields, end_of, offset_of}
use condor_fos.Ata.Info.Fields.{fill_device-read_field}

-- The serial number, the name and the second command set.
offsets :
    (offset_of "serial_num" info_layout 0 ≡ some (288, 160))
    × (offset_of "model_num" info_layout 0 ≡ some (608, 320))
    × (offset_of "lba48_feature_set_support" info_layout 0 ≡ some (2074, 1))
unfolding offset_of
offsets = (refl, refl, refl)

abbrev answer : ℕ → ℕ
answer i = if i == 31 then 0x300 else if i == 64 then 0x400 else if i == 67 then 0x7f else 0

answer-fits : (i : ℕ) → answer i < 2 ^ 16
answer-fits i = ground arith

abbrev fresh : Device
fresh = record {
  dev_id = 0;
  irq = 0;
  base_port = 0;
  alt_port = 0;
  is_slave = false;
  interface_type = 0;
  lba_support = 0;
  dma_support = 0;
  ata_version = 0;
  mdma_support = 0;
  udma_support = 0;
  lba48_support = 0;
  max_command_length = 0;
  in_use = false;
  is_blocked = false;
  has_errored = false;
  error_info = 0;
}

fill_device-read_field_example :
    let device : Device = fill_device fresh answer 4 0x1f0 0x3f6 14 in
    (read_field "lba_support" answer ≡ some device.lba_support)
    × (read_field "dma_support" answer ≡ some device.dma_support)
    × ((read_field "major_version" answer >>= (λ v. some (bit_sum16 v % 2 ^ 4)))
        ≡ some device.ata_version)
    × (sum_fields ("mdma0_support" ∷ "mdma1_support" ∷ "mdma2_support" ∷ []) answer
        ≡ some device.mdma_support)
    × (sum_fields
          ("udma0_support" ∷ "udma1_support" ∷ "udma2_support" ∷ "udma3_support" ∷ "udma4_support"
            ∷ "udma5_support" ∷ "udma6_support" ∷ [])
          answer
        ≡ some device.udma_support)
    × ((if has 4 2 then some fresh.lba48_support else read_field "lba48_feature_set_support" answer)
        ≡ some device.lba48_support)
    × (device.lba48_support ≡ (if has 4 2 then fresh.lba48_support else 0))
    × (end_of info_layout 0 ≡ 231)
fill_device-read_field_example = fill_device-read_field fresh answer 4 0x1f0 0x3f6 14 answer-fits
