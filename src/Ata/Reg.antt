-- ===== src/Ata/Reg.antt =====
-- kernel/include/kernel/ata.h: the constants that the driver uses.
use condor_fos.Base.{ℕ}

-- Offsets of the registers from the base port, and their other names.
abbrev pub features : ℕ
features = 1

abbrev pub sect_count : ℕ
sect_count = 2

abbrev pub lba_lo : ℕ
lba_lo = 3

abbrev pub lba_mi : ℕ
lba_mi = 4

abbrev pub lba_hi : ℕ
lba_hi = 5

abbrev pub device_sel : ℕ
device_sel = 6

abbrev pub command : ℕ
command = 7

abbrev pub error : ℕ
error = features

abbrev pub byte_lo : ℕ
byte_lo = lba_mi

abbrev pub byte_hi : ℕ
byte_hi = lba_hi

abbrev pub status : ℕ
status = command

-- The kinds of drive.
abbrev pub type_invalid : ℕ
type_invalid = 0

abbrev pub type_ata : ℕ
type_ata = 4

abbrev pub type_sata : ℕ
type_sata = 5

abbrev pub type_atapi : ℕ
type_atapi = 6

abbrev pub type_satapi : ℕ
type_satapi = 7

-- Commands.
abbrev pub identify_device : ℕ
identify_device = 0xec

abbrev pub flush_cache : ℕ
flush_cache = 0xe7

abbrev pub read_sectors : ℕ
read_sectors = 0x20

abbrev pub write_sectors : ℕ
write_sectors = 0x30

abbrev pub packet : ℕ
packet = 0xa0

abbrev pub identify_packet_device : ℕ
identify_packet_device = 0xa1

abbrev pub flush_cache_ext : ℕ
flush_cache_ext = 0xea

abbrev pub read_sectors_ext : ℕ
read_sectors_ext = 0x24

abbrev pub write_sectors_ext : ℕ
write_sectors_ext = 0x34

-- Packet commands.
abbrev pub atapi_read_6 : ℕ
atapi_read_6 = 0x08

abbrev pub atapi_read_12 : ℕ
atapi_read_12 = 0xa8

abbrev pub atapi_write_6 : ℕ
atapi_write_6 = 0x0a

abbrev pub atapi_write_12 : ℕ
atapi_write_12 = 0xaa

-- Types of a packet command, and the id of no device.
abbrev pub command_read : ℕ
command_read = 0

abbrev pub command_write : ℕ
command_write = 1

abbrev pub command_misc : ℕ
command_misc = 2

abbrev pub device_invalid : ℕ
device_invalid = 0xffff
