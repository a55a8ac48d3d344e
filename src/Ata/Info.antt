-- ===== src/Ata/Info.antt =====
-- `ata_info_t` of kernel/include/kernel/ata.h, field by field, and where the compiler puts them.
pub mod Fields
pub mod Tests
use Prim.Native.String.{String}
use text.Mathlib.Text
use native.Mathlib.Nat.{div-div-eq-div-mul}
use condor_fos.Base.{
  ℕ, ◌+◌, ◌-◌, ◌*◌, ◌/◌, ◌%◌, ◌^◌, zero, suc, ◌<◌, ◌≡◌, refl, arith, sym, ap, ◌∙◌, Bool, Bool-cases,
  inl, inr, false, Option, none, some, List, [], ◌∷◌, ◌++◌, leb, if◌then◌else◌, test_bit,
}
use condor_fos.Base.Options.{◌>>=◌}
use condor_fos.Machine.{has}
use condor_fos.Ata.{Device}
use condor_fos.Ata.Identify.{fill_device, bit_sum16}

-- A bit-field, an array of words, and an array of characters.
pub data Width : Type 0 where
  bits words chars : ℕ → Width

abbrev pub round_up : (pos unit : ℕ) → ℕ
round_up pos unit = (pos + (unit - 1)) / unit * unit

-- The first bit of a field behind `pos` bits: a bit-field does not cross the end of a word.
abbrev pub start_of : Width → (pos : ℕ) → ℕ
start_of (bits n) pos = if leb (pos % 32 + n) 32 then pos else round_up pos 32
start_of (words n) pos = round_up pos 32
start_of (chars n) pos = round_up pos 8

abbrev pub size_of : Width → ℕ
size_of (bits n) = n
size_of (words n) = n * 32
size_of (chars n) = n * 8

-- The first bit and the number of bits of a field.
unfoldable pub offset_of : String → List (String × Width) → (pos : ℕ) → Option (ℕ × ℕ)
offset_of name [] pos = none
offset_of name ((field, width) ∷ fields) pos =
    let start = start_of width pos in
    let rest = offset_of name fields (start + size_of width) in
    if Text.◌==◌ name field then some (start, size_of width) else rest

-- The words of the whole structure.
unfoldable pub end_of : List (String × Width) → (pos : ℕ) → ℕ
end_of [] pos = round_up pos 32 / 32
end_of ((field, width) ∷ fields) pos = end_of fields (start_of width pos + size_of width)

-- Up to the depth of the queue.
abbrev pub capability_fields : List (String × Width)
capability_fields =
    ("command_size", bits 2)
    ∷ ("incomplete", bits 1)
    ∷ ("reserved0", bits 2)
    ∷ ("drq_mode", bits 2)
    ∷ ("removable_media", bits 1)
    ∷ ("scsi_set", bits 5)
    ∷ ("reserved1", bits 1)
    ∷ ("ata_device", bits 2)
    ∷ ("reserved2", words 8)
    ∷ ("serial_num", chars 20)
    ∷ ("reserved3", words 3)
    ∷ ("firmware_rev", chars 8)
    ∷ ("model_num", chars 40)
    ∷ ("reserved4", words 2)
    ∷ ("vendor_specifics0", bits 8)
    ∷ ("dma_support", bits 1)
    ∷ ("lba_support", bits 1)
    ∷ ("iordy_disable", bits 1)
    ∷ ("iordy_support", bits 1)
    ∷ ("ata_srst_required", bits 1)
    ∷ ("overlap_op", bits 1)
    ∷ ("command_queue_support", bits 1)
    ∷ ("interleaved_dma_support", bits 1)
    ∷ ("reserved5", words 1)
    ∷ ("vendor_specifics1", bits 8)
    ∷ ("pio_transfer_mode", bits 1)
    ∷ ("fields_54_58_valid", bits 1)
    ∷ ("fields_64_70_valid", bits 1)
    ∷ ("field_88_valid", bits 1)
    ∷ ("reserved6", bits 13)
    ∷ ("reserved7", words 8)
    ∷ ("mdma0_support", bits 1)
    ∷ ("mdma1_support", bits 1)
    ∷ ("mdma2_support", bits 1)
    ∷ ("reserved8", bits 5)
    ∷ ("mdma0_select", bits 1)
    ∷ ("mdma1_select", bits 1)
    ∷ ("mdma2_select", bits 1)
    ∷ ("reserved9", bits 5)
    ∷ ("apio_mode_support", bits 8)
    ∷ ("vendor_specifics2", bits 8)
    ∷ ("min_mdma_cycle_time", words 1)
    ∷ ("rec_mdma_cycle_time", words 1)
    ∷ ("min_pio_cycle_time", words 1)
    ∷ ("min_pio_cycle_time_fc", words 1)
    ∷ ("reserved10", words 2)
    ∷ ("release_response_time", words 1)
    ∷ ("bsy_clear_time", words 1)
    ∷ ("reserved11", words 2)
    ∷ ("time_packet_recieve_to_bus_release", words 1)
    ∷ ("time_service_to_bsy_clear", words 1)
    ∷ ("reserved_packet", words 2)
    ∷ ("max_queue_depth", bits 5)
    ∷ ("reserved12", bits 11)
    ∷ ("reserved13", words 4)
    ∷ []

-- The versions and the sets of commands, supported and enabled.
abbrev pub command_fields : List (String × Width)
command_fields =
    ("reserved14", bits 1)
    ∷ ("major_version", bits 15)
    ∷ ("minor_version", words 1)
    ∷ ("smart_support", bits 1)
    ∷ ("secure_mode_support", bits 1)
    ∷ ("removable_media_support", bits 1)
    ∷ ("powerman_support", bits 1)
    ∷ ("packet_support", bits 1)
    ∷ ("write_cache_support", bits 1)
    ∷ ("lookahead_support", bits 1)
    ∷ ("release_int_support", bits 1)
    ∷ ("service_int_support", bits 1)
    ∷ ("drv_reset_support", bits 1)
    ∷ ("host_protected_area_support", bits 1)
    ∷ ("obsolete0", bits 1)
    ∷ ("write_buffer_support", bits 1)
    ∷ ("read_buffer_support", bits 1)
    ∷ ("nop_support", bits 1)
    ∷ ("obsolete1", bits 1)
    ∷ ("download_microcode_support", bits 1)
    ∷ ("rw_dma_queued_support", bits 1)
    ∷ ("cfa_feature_set_support", bits 1)
    ∷ ("apm_feature_set_support", bits 1)
    ∷ ("rm_media_notify_support", bits 1)
    ∷ ("powerup_standby_feature_set_support", bits 1)
    ∷ ("set_features_to_spinup", bits 1)
    ∷ ("reserved16", bits 1)
    ∷ ("set_max_extension_support", bits 1)
    ∷ ("automatic_am_feature_set_support", bits 1)
    ∷ ("lba48_feature_set_support", bits 1)
    ∷ ("device_config_overlay_feature_set_support", bits 1)
    ∷ ("flush_cache_command_support", bits 1)
    ∷ ("flush_cache_ext_command_support", bits 1)
    ∷ ("one0", bits 1)
    ∷ ("zero0", bits 1)
    ∷ ("reserved17", bits 14)
    ∷ ("one1", bits 1)
    ∷ ("zero1", bits 1)
    ∷ ("smart_enabled", bits 1)
    ∷ ("secure_mode_enabled", bits 1)
    ∷ ("removable_media_enabled", bits 1)
    ∷ ("powerman_enabled", bits 1)
    ∷ ("packet_enabled", bits 1)
    ∷ ("write_cache_enabled", bits 1)
    ∷ ("lookahead_enabled", bits 1)
    ∷ ("release_int_enabled", bits 1)
    ∷ ("service_int_enabled", bits 1)
    ∷ ("drv_reset_enabled", bits 1)
    ∷ ("host_protected_area_enabled", bits 1)
    ∷ ("obsolete2", bits 1)
    ∷ ("write_buffer_enabled", bits 1)
    ∷ ("read_buffer_enabled", bits 1)
    ∷ ("nop_enabled", bits 1)
    ∷ ("obsolete3", bits 1)
    ∷ ("download_microcode_enabled", bits 1)
    ∷ ("reserved18", bits 3)
    ∷ ("rm_media_notify_enabled", bits 1)
    ∷ ("reserved19", bits 9)
    ∷ ("one4", bits 1)
    ∷ ("zero4", bits 1)
    ∷ ("reserved20", bits 14)
    ∷ ("one5", bits 1)
    ∷ ("zero5", bits 1)
    ∷ []

-- From the ultra DMA modes on.
abbrev pub mode_fields : List (String × Width)
mode_fields =
    ("udma0_support", bits 1)
    ∷ ("udma1_support", bits 1)
    ∷ ("udma2_support", bits 1)
    ∷ ("udma3_support", bits 1)
    ∷ ("udma4_support", bits 1)
    ∷ ("udma5_support", bits 1)
    ∷ ("udma6_support", bits 1)
    ∷ ("reserved21", bits 1)
    ∷ ("udma0_selected", bits 1)
    ∷ ("udma1_selected", bits 1)
    ∷ ("udma2_selected", bits 1)
    ∷ ("udma3_selected", bits 1)
    ∷ ("udma4_selected", bits 1)
    ∷ ("udma5_selected", bits 1)
    ∷ ("udma6_selected", bits 1)
    ∷ ("reserved22", bits 1)
    ∷ ("reserved23", words 37)
    ∷ ("rm_media_status_notify_support", bits 2)
    ∷ ("reserved24", bits 14)
    ∷ ("security_support", bits 1)
    ∷ ("security_enable", bits 1)
    ∷ ("security_locked", bits 1)
    ∷ ("security_frozen", bits 1)
    ∷ ("security_count_expire", bits 1)
    ∷ ("security_erase_support", bits 1)
    ∷ ("reserved25", bits 2)
    ∷ ("security_level", bits 1)
    ∷ ("reserved26", bits 7)
    ∷ ("vendor_specifics3", words 30)
    ∷ ("reserved27", words 95)
    ∷ []

abbrev pub info_layout : List (String × Width)
info_layout = capability_fields ++ (command_fields ++ mode_fields)

-- A field of at most a word, in the words that the drive sent.
unfoldable pub read_field : String → (info : ℕ → ℕ) → Option ℕ
read_field name info = do
  (start, width) ← offset_of name info_layout 0
  some (info (start / 32) / 2 ^ (start % 32) % 2 ^ width)

-- The sum of one-bit fields, as `ide_init` adds them.
unfoldable pub sum_fields : List String → (info : ℕ → ℕ) → Option ℕ
sum_fields [] info = some 0
sum_fields (name ∷ names) info = do
  field ← read_field name info
  others ← sum_fields names info
  some (field + others)
