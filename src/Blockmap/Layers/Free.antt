-- ===== src/Blockmap/Layers/Free.antt =====
-- What `hammer_blockmap_free` does to a well formed big-block.
use hammer_linux.Base.{
  ℕ, ◌+◌, ◌-◌, ◌*◌, ◌/◌, ◌%◌, ◌≤◌, ◌<◌, ◌≡◌, ◌≢◌, ◌⊎◌, inl, inr, refl, ap, ◌∙◌, arith, true,
  bit_or_fields, bit_and-high, bit_and-low, same_test, ne_test, le_test, lt_test,
}
use native.Mathlib.Nat.{mod-eq_of_lt}
use native.Mathlib.Decide.{ℕ_discrete}
use hammer_linux.Base.Outcome.{done}
use hammer_linux.Disk.{zone_decode, largeblock_size}
use hammer_linux.Blockmap.Reserve.Counts.{AreCounted}
use hammer_linux.Blockmap.Reserve.Delay.{IsDelayed, hammer_reserve_setdelay-IsDelayed}
use hammer_linux.Blockmap.Layers.{
  Layer1, Layer2, Calls, Freemap, plus, align16, xbufsize, good_zone, layer1_at, layer2_at, seal1,
  seal2, to_base_off, release, free_in, hammer_blockmap_free,
}
use hammer_linux.Blockmap.Layers.Block.{
  entry1, entry2, IsBlock, dive_done, read_back, Has, Has-entry1, Has-entry2, Has-IsBlock,
}

-- A range of bytes in one big-block of a zone that holds data.
pub record IsRange (zone_offset bytes : ℕ) : Type 0 where
  pub some_bytes : bytes ≢ 0
  pub short : align16 bytes ≤ xbufsize
  pub one_block :
      zone_offset / largeblock_size ≡ (zone_offset + (align16 bytes - 1)) / largeblock_size
  pub low_zone : 8 ≤ zone_decode zone_offset
  pub high_zone : zone_decode zone_offset < 16

pub to_base_off-zone : (zone_offset : ℕ) → zone_decode (to_base_off zone_offset) ≡ 2
unfolding to_base_off zone_decode
to_base_off-zone zone_offset =
    rw (bit_and-high 23 zone_offset 0x1fffffffff, bit_and-low 37 (zone_offset / 0x800000))
      (omega (
        arith,
        bit_or_fields 60 2 (zone_offset / 0x800000 % 0x2000000000 * 0x800000) (omega arith),
      ))

plus_one : {a : ℕ} → a < 0xffffffffffffffff → plus a 1 ≡ a + 1
plus_one h = omega arith

-- What is left of a big-block after a free.
pub record IsFreed (f : Freemap) (zone_offset n : ℕ) (g : Freemap) : Type 0 where
  pub bytes : (entry2 g zone_offset).bytes_free ≡ (entry2 f zone_offset).bytes_free + n
  pub blocks :
      ((entry2 g zone_offset).bytes_free ≡ largeblock_size)
        × ((entry2 g zone_offset).zone ≡ 0)
        × ((entry1 g zone_offset).blocks_free ≡ (entry1 f zone_offset).blocks_free + 1)
        × (g.stat_freebigblocks ≡ f.stat_freebigblocks + 1)
        × IsDelayed f.reservations (to_base_off zone_offset) g.reservations
      ⊎ ((entry2 g zone_offset).bytes_free < largeblock_size)
        × ((entry2 g zone_offset).zone ≡ (entry2 f zone_offset).zone)
        × ((entry2 g zone_offset).append_off ≡ (entry2 f zone_offset).append_off)
        × ((entry1 g zone_offset).blocks_free ≡ (entry1 f zone_offset).blocks_free)
        × (g.stat_freebigblocks ≡ f.stat_freebigblocks)

module _ (calls : Calls) (f : Freemap) (zone_offset n : ℕ) (ok : IsBlock calls f zone_offset) where
  -- The entry of layer 2 with the bytes added.
  abbrev freed : Layer2
  freed = record (entry2 f zone_offset) { bytes_free = (entry2 f zone_offset).bytes_free + n }

  release_full :
      AreCounted f.reservations
      → (entry2 f zone_offset).bytes_free + n ≡ largeblock_size
      → (entry1 f zone_offset).blocks_free < 0xffffffffffffffff
      → f.stat_freebigblocks < 0xffffffffffffffff
      → IsBlock calls (release calls f zone_offset freed) zone_offset
        × IsFreed f zone_offset n (release calls f zone_offset freed)
  unfolding release
  release_full counted full b s =
      let g = release calls f zone_offset freed in
      let l1 : Layer1 = seal1 calls (record (entry1 f zone_offset) {
        blocks_free = plus (entry1 f zone_offset).blocks_free 1;
      }) in
      let l2 : Layer2 = seal2 calls (record freed { zone = 0; append_off = 0 }) in
      let has : Has f zone_offset g l1 l2 = rw full (record {
        phys = refl;
        first = read_back f.layer1 (layer1_at f zone_offset) l1;
        second = read_back f.layer2 (layer2_at f zone_offset) _;
        same = refl;
      }) in
      let e1 = Has-entry1 f g zone_offset l1 l2 has in
      let e2 = Has-entry2 f g zone_offset l1 l2 has in
      (
        Has-IsBlock f g zone_offset l1 l2 has calls ok refl refl (λ z. (full, refl))
            (λ z. absurd (z refl)),
        record {
          bytes = ap (λ l. l.bytes_free) e2;
          blocks = inl (
            rw e2 full,
            ap (λ l. l.zone) e2,
            ap (λ l. l.blocks_free) e1 ∙ plus_one b,
            rw full (plus_one s),
            rw full (
                hammer_reserve_setdelay-IsDelayed f.reservations (to_base_off zone_offset)
                  largeblock_size counted (to_base_off-zone zone_offset)),
          );
        },
      )

  release_part :
      (entry2 f zone_offset).bytes_free + n < largeblock_size
      → (entry2 f zone_offset).zone ≢ 0
      → IsBlock calls (release calls f zone_offset freed) zone_offset
        × IsFreed f zone_offset n (release calls f zone_offset freed)
  unfolding release
  release_part part zone =
      let g = release calls f zone_offset freed in
      let l2 = seal2 calls freed in
      let has : Has f zone_offset g (entry1 f zone_offset) l2 =
        rw (ne_test freed.bytes_free largeblock_size (λ e. omega arith)) (record {
          phys = refl;
          first = refl;
          second = read_back f.layer2 (layer2_at f zone_offset) l2;
          same = refl;
        }) in
      let e1 = Has-entry1 f g zone_offset (entry1 f zone_offset) l2 has in
      let e2 = Has-entry2 f g zone_offset (entry1 f zone_offset) l2 has in
      let stat : g.stat_freebigblocks ≡ f.stat_freebigblocks =
        rw (ne_test freed.bytes_free largeblock_size (λ e. omega arith)) refl in
      (
        Has-IsBlock f g zone_offset (entry1 f zone_offset) l2 has calls ok ok.crc1 refl
            (λ z. absurd (zone z)) (λ z. part),
        record {
          bytes = ap (λ l. l.bytes_free) e2;
          blocks = inr (
            rw e2 part,
            ap (λ l. l.zone) e2,
            ap (λ l. l.append_off) e2,
            ap (λ l. l.blocks_free) e1,
            stat,
          );
        },
      )

pub hammer_blockmap_free-IsFreed :
    (calls : Calls) (f : Freemap) (zone_offset bytes : ℕ)
    → IsBlock calls f zone_offset
    → IsRange zone_offset bytes
    → (entry2 f zone_offset).zone ≡ zone_decode zone_offset
    → (entry2 f zone_offset).bytes_free + align16 bytes ≤ largeblock_size
    → (entry1 f zone_offset).blocks_free < 0xffffffffffffffff
    → f.stat_freebigblocks < 0xffffffffffffffff
    → AreCounted f.reservations
    → (g : Freemap) × (hammer_blockmap_free calls f zone_offset bytes ≡ done g)
      × IsBlock calls g zone_offset
      × IsFreed f zone_offset (align16 bytes) g
unfolding hammer_blockmap_free free_in
hammer_blockmap_free-IsFreed calls f zone_offset bytes ok range zone fits b s counted = (
  release calls f zone_offset (freed calls f zone_offset (align16 bytes) ok),
  run,
  rest.0,
  rest.1,
)
  where
    n : ℕ
    n = align16 bytes

    g : Freemap
    g = release calls f zone_offset (freed calls f zone_offset n ok)

    good : good_zone (zone_decode zone_offset) ≡ true
    good = rw (le_test range.low_zone, lt_test range.high_zone) refl

    small :
        ((entry2 f zone_offset).bytes_free + n) % 0x100000000
        ≡ (entry2 f zone_offset).bytes_free + n
    small = mod-eq_of_lt (omega arith)

    freed_in : free_in calls f zone_offset n ≡ done g
    freed_in = rw (zone, same_test (zone_decode zone_offset), small, le_test fits) refl

    run : hammer_blockmap_free calls f zone_offset bytes ≡ done g
    run =
        rw
          (
            ne_test bytes 0 range.some_bytes,
            le_test range.short,
            range.one_block,
            same_test ((zone_offset + (n - 1)) / largeblock_size),
            good,
            dive_done calls f zone_offset ok,
          )
          freed_in

    rest : IsBlock calls g zone_offset × IsFreed f zone_offset n g
    rest = elim (ℕ_discrete ((entry2 f zone_offset).bytes_free + n) largeblock_size) [
      | yes full ↦ release_full calls f zone_offset n ok counted full b s
      | no part ↦ release_part calls f zone_offset n ok (omega arith) (λ z. absurd (omega arith))
    ]
