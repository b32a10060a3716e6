-- ===== src/Disk.antt =====
-- Offsets on the disk: zones, volumes and the two layers of the freemap
-- (dfly/vfs/hammer/hammer_disk.h). An offset is a 64-bit word.
pub mod Fields
use hammer_linux.Base.{ℕ, ◌+◌, ◌*◌, ◌/◌, ◌%◌, bit_and, bit_or}

-- HAMMER_ZONE_DECODE
unfoldable pub zone_decode : ℕ → ℕ
zone_decode ham_off = ham_off / 0x1000000000000000

-- HAMMER_ZONE_ENCODE
pub zone_encode : (zone ham_off : ℕ) → ℕ
zone_encode zone ham_off = bit_or (zone * 0x1000000000000000 % 0x10000000000000000) ham_off

-- HAMMER_VOL_ENCODE
pub vol_encode : ℕ → ℕ
vol_encode vol_no = bit_and vol_no 255 * 0x10000000000000

-- HAMMER_VOL_DECODE
pub vol_decode : ℕ → ℕ
vol_decode ham_off = bit_and (ham_off / 0x10000000000000) 255

-- HAMMER_SHORT_OFF_ENCODE
pub short_off_encode : ℕ → ℕ
short_off_encode offset = bit_and offset 0x000fffffffffffff

-- HAMMER_ENCODE_RAW_BUFFER
pub encode_raw_buffer : (vol_no offset : ℕ) → ℕ
unfolding vol_encode short_off_encode
encode_raw_buffer vol_no offset =
    bit_or (bit_or 0x2000000000000000 (vol_encode vol_no)) (short_off_encode offset)

-- HAMMER_LARGEBLOCK_SIZE
abbrev pub largeblock_size : ℕ
largeblock_size = 0x800000

-- HAMMER_BLOCKMAP_LAYER1_OFFSET
pub layer1_offset : ℕ → ℕ
layer1_offset zone2_offset = bit_and zone2_offset 0x0fffffffffffffff / 0x40000000000 * 32

-- HAMMER_BLOCKMAP_LAYER2_OFFSET
pub layer2_offset : ℕ → ℕ
layer2_offset zone2_offset = bit_and zone2_offset 0x3ffffffffff / largeblock_size * 16
