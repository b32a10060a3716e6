-- ===== src/Blockmap/Layers/Finalize.antt =====
-- What `hammer_blockmap_finalize` does to a well formed big-block.
use native.Mathlib.Decide.{ℕ_discrete}
use hammer_linux.Base.{
  ℕ, ◌+◌, ◌%◌, ◌≤◌, ◌<◌, ◌≡◌, ◌≢◌, ◌⊎◌, inl, inr, refl, sym, ap, ◌∙◌, arith, ltb, true, Option,
  same_test, ne_test, le_test, lt_test, Bool-cases,
}
use hammer_linux.Base.Outcome.{done}
use hammer_linux.Disk.{zone_decode, largeblock_size}
use hammer_linux.Blockmap.Reserve.{Reserve}
use hammer_linux.Blockmap.Layers.{
  Layer1, Layer2, Calls, Freemap, write, less_one, align16, xbufsize, good_zone, layer1_at,
  layer2_at, seal1, claim, taken, take_bytes, not_free, hammer_blockmap_finalize,
}
use hammer_linux.Blockmap.Layers.Block.{
  entry1, entry2, IsBlock, dive_done, read_back, Has, Has-at2, Has-entry1, Has-entry2, Has-IsBlock,
}

-- What is left of a big-block after bytes of it are taken.
pub record IsFinalized (calls : Calls) (resv : Option Reserve) (f : Freemap) (zone_offset n : ℕ)
    (g : Freemap) : Type 0 where
  pub bytes : (entry2 g zone_offset).bytes_free + n ≡ (entry2 f zone_offset).bytes_free
  pub zone : (entry2 g zone_offset).zone ≡ zone_decode zone_offset
  pub kept : (entry2 f zone_offset).append_off ≤ (entry2 g zone_offset).append_off
  pub reached : zone_offset % largeblock_size + n ≤ (entry2 g zone_offset).append_off
  pub highest :
      ((entry2 g zone_offset).append_off ≡ (entry2 f zone_offset).append_off)
      ⊎ ((entry2 g zone_offset).append_off ≡ zone_offset % largeblock_size + n)
  pub blocks :
      ((entry2 f zone_offset).zone ≡ 0)
        × ((entry1 g zone_offset).blocks_free + 1 ≡ (entry1 f zone_offset).blocks_free)
        × (g.stat_freebigblocks + 1 ≡ f.stat_freebigblocks)
      ⊎ ((entry2 f zone_offset).zone ≢ 0)
        × ((entry1 g zone_offset).blocks_free ≡ (entry1 f zone_offset).blocks_free)
        × (g.stat_freebigblocks ≡ f.stat_freebigblocks)
  pub held : g.reservations ≡ not_free calls resv f.reservations

less_one_lem : {a : ℕ} → 0 < a → a < 0x10000000000000000 → less_one a + 1 ≡ a
less_one_lem h k = omega arith

module _ (calls : Calls) (f : Freemap) (zone_offset : ℕ) (ok : IsBlock calls f zone_offset) where
  -- The big-block with its zone, before the bytes are taken.
  record IsClaimed (g : Freemap) : Type 0 where
    l1 : Layer1
    run : claim calls f zone_offset ≡ done g
    has : Has f zone_offset g l1 (record (entry2 f zone_offset) { zone = zone_decode zone_offset })
    sealed : l1.layer1_crc ≡ (seal1 calls l1).layer1_crc
    blocks :
        ((entry2 f zone_offset).zone ≡ 0)
          × (l1.blocks_free ≡ less_one (entry1 f zone_offset).blocks_free)
          × (g.stat_freebigblocks ≡ less_one f.stat_freebigblocks)
        ⊎ ((entry2 f zone_offset).zone ≢ 0)
          × (l1.blocks_free ≡ (entry1 f zone_offset).blocks_free)
          × (g.stat_freebigblocks ≡ f.stat_freebigblocks)
    held : g.reservations ≡ f.reservations

  claim-IsClaimed :
      ((entry2 f zone_offset).zone ≡ 0) ⊎ ((entry2 f zone_offset).zone ≡ zone_decode zone_offset)
      → 8 ≤ zone_decode zone_offset
      → (g : Freemap) × IsClaimed g
  unfolding claim
  claim-IsClaimed (inl z) low =
      let l1 : Layer1 = seal1 calls (record (entry1 f zone_offset) {
        blocks_free = less_one (entry1 f zone_offset).blocks_free;
      }) in
      let (full, none_yet) = ok.whole z in
      (
        record f {
          layer1 = write f.layer1 (layer1_at f zone_offset) l1;
          layer2 =
              write f.layer2 (layer2_at f zone_offset)
                (record (entry2 f zone_offset) { zone = zone_decode zone_offset });
          stat_freebigblocks = less_one f.stat_freebigblocks;
          copy_stat_freebigblocks = less_one f.stat_freebigblocks;
        },
        record {
          l1 = l1;
          run = rw (z, full, none_yet) refl;
          has = record {
            phys = refl;
            first = read_back f.layer1 (layer1_at f zone_offset) l1;
            second = read_back f.layer2 (layer2_at f zone_offset) _;
            same = refl;
          };
          sealed = refl;
          blocks = inl (z, refl, refl);
          held = refl;
        },
      )
  claim-IsClaimed (inr z) low = (
    f,
    record {
      l1 = entry1 f zone_offset;
      run = rw (ne_test (entry2 f zone_offset).zone 0 (λ e. omega arith)) refl;
      has = record {
        phys = refl;
        first = refl;
        second = ap (λ x. record (entry2 f zone_offset) { zone = x }) z;
        same = refl;
      };
      sealed = ok.crc1;
      blocks = inr ((λ e. omega arith), refl, refl);
      held = refl;
    },
  )

  -- The entry with its zone, and then with the bytes taken.
  abbrev claimed : Layer2
  claimed = record (entry2 f zone_offset) { zone = zone_decode zone_offset }

  abbrev took : ℕ → Layer2
  took n = taken calls claimed (zone_offset % largeblock_size + n) n

  module _ (g : Freemap) (c : IsClaimed g) (resv : Option Reserve) (n : ℕ) where
    taken-Has : Has f zone_offset (take_bytes calls g resv zone_offset n) c.l1 (took n)
    unfolding take_bytes
    taken-Has = record {
      phys = c.has.phys;
      first = c.has.first;
      second =
          ap (λ at. write g.layer2 (layer2_at g zone_offset) new at)
            (sym (Has-at2 f g zone_offset c.l1 claimed c.has))
          ∙ read_back g.layer2 (layer2_at g zone_offset) new
          ∙ ap (λ l. taken calls l (zone_offset % largeblock_size + n) n)
              (Has-entry2 f g zone_offset c.l1 claimed c.has);
      same = c.has.same;
    }
      where
        new : Layer2
        new = taken calls (entry2 g zone_offset) (zone_offset % largeblock_size + n) n

    held_taken :
        (take_bytes calls g resv zone_offset n).reservations ≡ not_free calls resv f.reservations
    unfolding take_bytes
    held_taken = ap (not_free calls resv) c.held

    stat_taken : (take_bytes calls g resv zone_offset n).stat_freebigblocks ≡ g.stat_freebigblocks
    unfolding take_bytes
    stat_taken = refl

  taken_fits :
      (n : ℕ)
      → n ≤ (entry2 f zone_offset).bytes_free
      → (entry2 f zone_offset).bytes_free ≤ largeblock_size
      → (took n).bytes_free + n ≡ (entry2 f zone_offset).bytes_free
  taken_fits n h k = omega arith

  taken_less :
      (n : ℕ)
      → 0 < n
      → n ≤ (entry2 f zone_offset).bytes_free
      → (entry2 f zone_offset).bytes_free ≤ largeblock_size
      → (took n).bytes_free < largeblock_size
  taken_less n p h k = omega arith

  highest_append :
      (n : ℕ)
      → ((entry2 f zone_offset).append_off ≤ (took n).append_off)
        × (zone_offset % largeblock_size + n ≤ (took n).append_off)
        × (((took n).append_off ≡ (entry2 f zone_offset).append_off)
            ⊎ ((took n).append_off ≡ zone_offset % largeblock_size + n))
  highest_append n =
      elim (Bool-cases
        (ltb (entry2 f zone_offset).append_off (zone_offset % largeblock_size + n))) [
          | inl t ↦ rw t (ground arith, ground arith, inr refl)
          | inr e ↦ rw e (ground arith, ground arith, inl refl)
        ]

  pub free_le : (entry2 f zone_offset).bytes_free ≤ largeblock_size
  free_le = elim (ℕ_discrete (entry2 f zone_offset).zone 0) [
    | yes z ↦ omega (arith, (ok.whole z).0)
    | no z ↦ omega (arith, ok.used z)
  ]

-- Bytes of a big-block that is well formed, without a zone or with that of the offset, are taken, no
-- more than are free: no assertion fails, the big-block stays well formed, is in the zone, and has as many
-- free bytes fewer; `append_off` is the highest offset allocated so far. A big-block that had no zone is one
-- free big-block less in the layer and in the volume. (The counts of big-blocks are words, and
-- not 0.)
pub hammer_blockmap_finalize-IsFinalized :
    (calls : Calls) (f : Freemap) (resv : Option Reserve) (zone_offset bytes : ℕ)
    → IsBlock calls f zone_offset
    → bytes ≢ 0
    → align16 bytes ≤ xbufsize
    → 8 ≤ zone_decode zone_offset
    → zone_decode zone_offset < 16
    → ((entry2 f zone_offset).zone ≡ 0) ⊎ ((entry2 f zone_offset).zone ≡ zone_decode zone_offset)
    → align16 bytes ≤ (entry2 f zone_offset).bytes_free
    → (0 < (entry1 f zone_offset).blocks_free)
      × ((entry1 f zone_offset).blocks_free < 0x10000000000000000)
    → (0 < f.stat_freebigblocks) × (f.stat_freebigblocks < 0x10000000000000000)
    → (g : Freemap) × (hammer_blockmap_finalize calls f resv zone_offset bytes ≡ done g)
      × IsBlock calls g zone_offset
      × IsFinalized calls resv f zone_offset (align16 bytes) g
unfolding hammer_blockmap_finalize
hammer_blockmap_finalize-IsFinalized calls f resv zone_offset bytes ok some_bytes short low high
      zone fits b s =
    let n = align16 bytes in
    let (g, c) = claim-IsClaimed calls f zone_offset ok zone low in
    let g' = take_bytes calls g resv zone_offset n in
    let has = taken-Has calls f zone_offset ok g c resv n in
    let good : good_zone (zone_decode zone_offset) ≡ true = rw (le_test low, lt_test high) refl in
    let top = highest_append calls f zone_offset ok n in
    let e1 = Has-entry1 f g' zone_offset c.l1 (took calls f zone_offset ok n) has in
    let e2 = Has-entry2 f g' zone_offset c.l1 (took calls f zone_offset ok n) has in
    let free : (took calls f zone_offset ok n).bytes_free + n ≡ (entry2 f zone_offset).bytes_free =
      taken_fits calls f zone_offset ok n fits (free_le calls f zone_offset ok) in
    (
      g',
      rw
          (
            ne_test bytes 0 some_bytes,
            le_test short,
            good,
            dive_done calls f zone_offset ok,
            c.run,
            ap (λ l. l.zone)
                (Has-entry2 f g zone_offset c.l1 (claimed calls f zone_offset ok) c.has),
            same_test (zone_decode zone_offset),
          )
          refl,
      Has-IsBlock f g' zone_offset c.l1 (took calls f zone_offset ok n) has calls ok c.sealed refl
          (λ z. absurd (omega arith))
          (λ z.
            taken_less calls f zone_offset ok n (omega arith) fits
              (free_le calls f zone_offset ok)),
      record {
        bytes = rw e2 free;
        zone = ap (λ l. l.zone) e2;
        kept = rw e2 top.0;
        reached = rw e2 top.1;
        highest = rw e2 top.2;
        blocks = elim c.blocks [
          | inl (z, l, t) ↦ inl (
            z,
            rw (ap (λ l. l.blocks_free) e1 ∙ l) (less_one_lem b.0 b.1),
            rw (stat_taken calls f zone_offset ok g c resv n ∙ t) (less_one_lem s.0 s.1),
          )
          | inr (z, l, t) ↦
              inr (
                z,
                ap (λ l. l.blocks_free) e1 ∙ l,
                stat_taken calls f zone_offset ok g c resv n ∙ t,
              )
        ];
        held = held_taken calls f zone_offset ok g c resv n;
      },
    )
