-- ===== src/Blockmap/Query/Answers.antt =====
-- The answers for a well formed big-block, whoever has it.
use hammer_linux.Base.{
  ◌⊎◌, inl, inr, Option, none-some, some-same, ap, sym, ◌∙◌, ℕ, ◌/◌, ◌%◌, ◌<◌, ◌≤◌, ◌≡◌, ◌≢◌, refl,
  arith, bit_or_fields, bit_and-low, true, false, none, some, ◌==◌, nonzero_test, same_test,
  ne_test, le_test, lt_test,
}
use hammer_linux.Base.Outcome.{done, panic}
use hammer_linux.Disk.{zone_decode, largeblock_size}
use hammer_linux.Blockmap.Layers.{
  Calls, Freemap, unavail, good_zone, seal1, seal2, to_raw_buffer, to_base_off,
}
use hammer_linux.Blockmap.Reserve.{Reserve, find}
use native.Mathlib.Decide.{ℕ_discrete}
use hammer_linux.Blockmap.Layers.Block.{entry1, entry2, IsBlock}
use hammer_linux.Blockmap.Query.{right_zone, hammer_blockmap_getfree, hammer_blockmap_lookup}

-- An address in zone 2 with the same offset in the zone.
raw_lem :
    (off : ℕ)
    → (zone_decode (to_raw_buffer off) ≡ 2)
      × (to_raw_buffer off % 0x1000000000000000 ≡ off % 0x1000000000000000)
unfolding zone_decode to_raw_buffer
raw_lem off = rw (bit_and-low 60 off) (
  omega (arith, bit_or_fields 60 2 (off % 0x1000000000000000) (omega arith)),
  omega (arith, bit_or_fields 60 2 (off % 0x1000000000000000) (omega arith)),
)

-- The big-block of an offset is of its zone, or it has no zone and is reserved for it.
abbrev pub Belongs : Freemap → ℕ → Type 0
Belongs f off =
    ((entry2 f off).zone ≡ zone_decode off)
    ⊎ (((entry2 f off).zone ≡ 0)
        × (resv : Reserve) × (find (to_base_off off) f.reservations.rb_resv_root ≡ some resv)
        × (resv.zone ≡ zone_decode off))

Belongs-or_not : (f : Freemap) (off : ℕ) → Belongs f off ⊎ (¬ Belongs f off)
Belongs-or_not f off = elim (ℕ_discrete (entry2 f off).zone (zone_decode off)) [
  | yes own ↦ inl (inl own)
  | no other ↦ elim (ℕ_discrete (entry2 f off).zone 0) [
    | no used ↦ inr (not_owned other used)
    | yes free ↦ of_reservation other free (find (to_base_off off) f.reservations.rb_resv_root) refl
  ]
]
  where
    not_owned : (entry2 f off).zone ≢ zone_decode off → (entry2 f off).zone ≢ 0 → ¬ Belongs f off
    not_owned other used (inl own) = other own
    not_owned other used (inr h) = used h.0

    of_reservation :
        (entry2 f off).zone ≢ zone_decode off
        → (entry2 f off).zone ≡ 0
        → (o : Option Reserve) → find (to_base_off off) f.reservations.rb_resv_root ≡ o
        → Belongs f off ⊎ (¬ Belongs f off)
    of_reservation other free none e = inr not_reserved
      where
        not_reserved : ¬ Belongs f off
        not_reserved (inl own) = other own
        not_reserved (inr (z, resv, found, same)) = none-some resv (sym e ∙ found)
    of_reservation other free (some r) e = elim (ℕ_discrete r.zone (zone_decode off)) [
      | yes same ↦ inl (inr (free, r, e, same))
      | no differs ↦ inr (reserved_away differs)
    ]
      where
        reserved_away : r.zone ≢ zone_decode off → ¬ Belongs f off
        reserved_away differs (inl own) = other own
        reserved_away differs (inr (z, resv, found, same)) =
            differs (ap (λ x. x.zone) (some-same r resv (sym e ∙ found)) ∙ same)

module _ (calls : Calls) (f : Freemap) (off : ℕ) (ok : IsBlock calls f off)
    (low : 8 ≤ zone_decode off) (high : zone_decode off < 16) where
  good : good_zone (zone_decode off) ≡ true
  good = rw (le_test low, lt_test high) refl

  getfree-own :
      (next : ℕ)
      → (entry2 f off).zone ≡ zone_decode off
      → hammer_blockmap_getfree calls 0 f next off
        ≡ done (record {
          result = (entry2 f off).bytes_free;
          error = 0;
          cur = some (next / largeblock_size == off / largeblock_size);
        })
  unfolding hammer_blockmap_getfree
  getfree-own next zone =
      rw
        (
          good,
          ok.reads1,
          nonzero_test (entry1 f off).phys_offset ok.mapped,
          ok.crc1,
          same_test (seal1 calls (entry1 f off)).layer1_crc,
          ok.reads2,
          ok.crc2,
          same_test (seal2 calls (entry2 f off)).entry_crc,
          zone,
          same_test (zone_decode off),
        )
        refl

  getfree-other :
      (next : ℕ)
      → (entry2 f off).zone ≢ zone_decode off
      → hammer_blockmap_getfree calls 0 f next off ≡ panic
  unfolding hammer_blockmap_getfree
  getfree-other next zone =
      rw
        (
          good,
          ok.reads1,
          nonzero_test (entry1 f off).phys_offset ok.mapped,
          ok.crc1,
          same_test (seal1 calls (entry1 f off)).layer1_crc,
          ok.reads2,
          ok.crc2,
          same_test (seal2 calls (entry2 f off)).entry_crc,
          ne_test (entry2 f off).zone (zone_decode off) zone,
        )
        refl

  right_own : Belongs f off → right_zone calls 0 f (entry2 f off) off ≡ true
  right_own (inl zone) =
      rw (zone, ne_test (zone_decode off) 0 (λ e. omega arith), same_test (zone_decode off)) refl
  right_own (inr (free, resv, found, same)) =
      rw (free, found, same, same_test (zone_decode off)) refl

  right_reserved :
      (o : Option Reserve)
      → find (to_base_off off) f.reservations.rb_resv_root ≡ o
      → (entry2 f off).zone ≡ 0
      → ¬ Belongs f off
      → right_zone calls 0 f (entry2 f off) off ≡ false
  right_reserved none e free h = rw (free, e) refl
  right_reserved (some resv) e free h =
      rw (free, e, ne_test resv.zone (zone_decode off) (λ k. h (inr (free, resv, e, k)))) refl

  right_other : ¬ Belongs f off → right_zone calls 0 f (entry2 f off) off ≡ false
  right_other h = elim (ℕ_discrete (entry2 f off).zone 0) [
    | yes free ↦ right_reserved (find (to_base_off off) f.reservations.rb_resv_root) refl free h
    | no used ↦
        rw
          (
            ne_test (entry2 f off).zone 0 used,
            ne_test (entry2 f off).zone (zone_decode off) (λ k. h (inl k)),
          )
          refl
  ]

  lookup-unverified :
      hammer_blockmap_lookup calls 0 false f off
      ≡ done (record { result = to_raw_buffer off; error = 0; cur = none })
  unfolding hammer_blockmap_lookup
  lookup-unverified = rw good refl

  module _ (mapped : f.phys_offset ≢ 0) where
    lookup-own :
        Belongs f off
        → hammer_blockmap_lookup calls 0 true f off
          ≡ done (record { result = to_raw_buffer off; error = 0; cur = none })
    unfolding hammer_blockmap_lookup
    lookup-own h =
        rw
          (
            good,
            nonzero_test f.phys_offset mapped,
            ok.reads1,
            ne_test (entry1 f off).phys_offset unavail ok.available,
            ok.crc1,
            same_test (seal1 calls (entry1 f off)).layer1_crc,
            ok.reads2,
            right_own h,
            ok.crc2,
            same_test (seal2 calls (entry2 f off)).entry_crc,
          )
          refl

    lookup-other : ¬ Belongs f off → hammer_blockmap_lookup calls 0 true f off ≡ panic
    unfolding hammer_blockmap_lookup
    lookup-other h =
        rw
          (
            good,
            nonzero_test f.phys_offset mapped,
            ok.reads1,
            ne_test (entry1 f off).phys_offset unavail ok.available,
            ok.crc1,
            same_test (seal1 calls (entry1 f off)).layer1_crc,
            ok.reads2,
            right_other h,
          )
          refl

-- For an offset in a well formed big-block, with a volume that can be read and a freemap that is
-- mapped, there is an address in zone 2 with the same offset, which the lookup returns if it does not
-- verify the zone; if it does, it returns it for a big-block of the zone, or one without a zone that is
-- reserved for it, and panics for any other. The free bytes, with a flag whether the zone's next
-- allocation is in the big-block, are returned for a big-block of the zone, with a panic for others.
pub hammer_blockmap_lookup_lem :
    (calls : Calls) (f : Freemap) (zone_offset next_offset : ℕ)
    → IsBlock calls f zone_offset
    → 8 ≤ zone_decode zone_offset
    → zone_decode zone_offset < 16
    → f.phys_offset ≢ 0
    → (raw : ℕ) × (zone_decode raw ≡ 2)
      × (raw % 0x1000000000000000 ≡ zone_offset % 0x1000000000000000)
      × (hammer_blockmap_lookup calls 0 false f zone_offset
          ≡ done (record { result = raw; error = 0; cur = none }))
      × ((Belongs f zone_offset
            × (hammer_blockmap_lookup calls 0 true f zone_offset
                ≡ done (record { result = raw; error = 0; cur = none })))
          ⊎ ((¬ Belongs f zone_offset)
              × (hammer_blockmap_lookup calls 0 true f zone_offset ≡ panic)))
      × (((entry2 f zone_offset).zone ≡ zone_decode zone_offset)
            × (hammer_blockmap_getfree calls 0 f next_offset zone_offset
                ≡ done (record {
                  result = (entry2 f zone_offset).bytes_free;
                  error = 0;
                  cur = some (next_offset / largeblock_size == zone_offset / largeblock_size);
                }))
          ⊎ ((entry2 f zone_offset).zone ≢ zone_decode zone_offset)
            × (hammer_blockmap_getfree calls 0 f next_offset zone_offset ≡ panic))
hammer_blockmap_lookup_lem calls f zone_offset next_offset ok low high mapped = (
  to_raw_buffer zone_offset,
  (raw_lem zone_offset).0,
  (raw_lem zone_offset).1,
  lookup-unverified calls f zone_offset ok low high,
  elim (Belongs-or_not f zone_offset) [
    | inl h ↦ inl (h, lookup-own calls f zone_offset ok low high mapped h)
    | inr h ↦ inr (h, lookup-other calls f zone_offset ok low high mapped h)
  ],
  elim (ℕ_discrete (entry2 f zone_offset).zone (zone_decode zone_offset)) [
    | yes e ↦ inl (e, getfree-own calls f zone_offset ok low high next_offset e)
    | no n ↦ inr (n, getfree-other calls f zone_offset ok low high next_offset n)
  ],
)
