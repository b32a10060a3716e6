-- ===== src/Disk/Fields.antt =====
-- The fields of an offset.
use native.Mathlib.Nat.{mod-eq_of_lt}
use hammer_linux.Base.{
  ap, ℕ, ◌+◌, ◌*◌, ◌/◌, ◌%◌, ◌<◌, ◌≡◌, ◌∙◌, arith, bit_and, bit_or, bit_and-low, bit_or_fields,
}
use hammer_linux.Disk.{
  zone_decode, zone_encode, vol_decode, short_off_encode, encode_raw_buffer, largeblock_size,
  layer1_offset, layer2_offset,
}

low_byte : (n : ℕ) → bit_and n 255 ≡ n % 256
low_byte n = bit_and-low 8 n

pub zone_encode_sum :
    (zone off : ℕ)
    → zone < 16
    → off < 0x1000000000000000
    → zone_encode zone off ≡ zone * 0x1000000000000000 + off
unfolding zone_encode
zone_encode_sum zone off p q =
    ap (λ x. bit_or x off) (mod-eq_of_lt (omega arith)) ∙ bit_or_fields 60 zone off q

encode_raw_buffer_sum :
    (vol_no offset : ℕ)
    → vol_no < 256
    → offset < 0x10000000000000
    → encode_raw_buffer vol_no offset ≡ (512 + vol_no) * 0x10000000000000 + offset
unfolding encode_raw_buffer
encode_raw_buffer_sum vol_no offset p q =
    rw (low_byte vol_no, bit_and-low 52 offset, mod-eq_of_lt p, mod-eq_of_lt q)
      (ap (λ x. bit_or x offset)
          (bit_or_fields 60 2 (vol_no * 0x10000000000000) (omega arith) ∙ regroup)
        ∙ bit_or_fields 52 (512 + vol_no) offset q)
  where
    regroup : 2 * 0x1000000000000000 + vol_no * 0x10000000000000 ≡ (512 + vol_no) * 0x10000000000000
    regroup = omega arith

-- A zone of at most four bits and an offset of at most 60 are read back from their encoding.
pub zone_encode_fields :
    (zone off : ℕ)
    → zone < 16
    → off < 0x1000000000000000
    → (zone_decode (zone_encode zone off) ≡ zone)
      × (bit_and (zone_encode zone off) 0x0fffffffffffffff ≡ off)
unfolding zone_decode
zone_encode_fields zone off p q =
    rw (zone_encode_sum zone off p q)
      (omega (arith, bit_and-low 60 (zone * 0x1000000000000000 + off)))

-- A raw buffer offset is in zone 2, and gives back the volume number and the offset in the volume.
pub encode_raw_buffer_fields :
    (vol_no offset : ℕ)
    → vol_no < 256
    → offset < 0x10000000000000
    → (zone_decode (encode_raw_buffer vol_no offset) ≡ 2)
      × (vol_decode (encode_raw_buffer vol_no offset) ≡ vol_no)
      × (short_off_encode (encode_raw_buffer vol_no offset) ≡ offset)
unfolding zone_decode vol_decode short_off_encode
encode_raw_buffer_fields vol_no offset p q = rw (encode_raw_buffer_sum vol_no offset p q) (
  omega arith,
  omega (arith, low_byte (((512 + vol_no) * 0x10000000000000 + offset) / 0x10000000000000)),
  omega (arith, bit_and-low 52 ((512 + vol_no) * 0x10000000000000 + offset)),
)

-- The two layers and the big-block make up the offset inside its zone: the bytes of the entries are
-- the indices times the sizes of the entries, and stay inside one big-block.
pub layer_offsets :
    (off : ℕ)
    → (layer1_offset off / 32 * 0x40000000000
          + layer2_offset off / 16 * largeblock_size
          + off % largeblock_size
        ≡ off % 0x1000000000000000)
      × (layer1_offset off < largeblock_size)
      × (layer2_offset off < largeblock_size)
unfolding layer1_offset layer2_offset
layer_offsets off = omega (arith, bit_and-low 60 off, bit_and-low 42 off)

-- Offsets below the same entry of layer 1.
pub layer1_offset_same :
    (a b : ℕ) → a / 0x40000000000 ≡ b / 0x40000000000 → layer1_offset a ≡ layer1_offset b
unfolding layer1_offset
layer1_offset_same a b e = omega (arith, bit_and-low 60 a, bit_and-low 60 b)
