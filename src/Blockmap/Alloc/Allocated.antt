-- ===== src/Blockmap/Alloc/Allocated.antt =====
-- What `hammer_blockmap_alloc` gives, and what it leaves of the freemap.
use hammer_linux.Base.{
  ℕ, ◌+◌, ◌-◌, ◌/◌, ◌%◌, ◌≤◌, ◌<◌, ◌≡◌, ◌≢◌, ◌⊎◌, inl, inr, refl, sym, ap, ◌∙◌, arith, leb, false,
  Bool-cases, Option, none, some, same_test, ne_test, le_test, lt_test,
}
use hammer_linux.Base.Outcome.{Outcome, done, fail, panic}
use hammer_linux.Disk.{zone_decode, largeblock_size}
use hammer_linux.Blockmap.Reserve.{Reserve, Reservations, find, put}
use hammer_linux.Blockmap.Layers.{
  Layer1, Layer2, Calls, Freemap, write, plus, less_one, align16, xbufsize, layer1_at, layer2_at,
  to_base_off, seal1, seal2,
}
use hammer_linux.Blockmap.Layers.Block.{
  entry1, entry2, IsBlock, read_back, Has, Has-at2, Has-entry1, Has-entry2, Has-IsBlock,
}
use hammer_linux.Blockmap.Layers.Finalize.{free_le}
use hammer_linux.Blockmap.Alloc.{
  Round, again, room, ended, broken, unit_of, bufsize, enospc, assign, append_to, append_bytes,
  Allocated, take_room, hammer_blockmap_alloc,
}
use hammer_linux.Blockmap.Alloc.Forward.{
  IsUsable, IsFreemap, IsFreemap-IsUsable, IsRoom, NoneFree, Standing, end_of,
}
use hammer_linux.Blockmap.Alloc.Room.{start_of, Searched, find_room-Searched, Searched-some}

-- The reservation of the big-block after the allocation.
abbrev pub appended : (append_off : ℕ) → Option Reserve → Reservations → Reservations
appended append_off none h = h
appended append_off (some resv) h = record h {
  rb_resv_root = put (record resv { append_off = append_off; layer2free = false }) h.rb_resv_root;
}

-- The big-block after `n` bytes were allocated at its end.
pub record IsAllocated (calls : Calls) (f : Freemap) (zone offset n : ℕ) (g : Freemap)
    : Type 0 where
  pub place : IsRoom f zone n offset
  pub block : IsBlock calls g offset
  pub owned : (entry2 g offset).zone ≡ zone
  pub appended_to : (entry2 g offset).append_off ≡ offset % largeblock_size + n
  pub bytes : (entry2 g offset).bytes_free + n ≡ (entry2 f offset).bytes_free
  pub counts :
      ((entry2 f offset).zone ≡ 0)
        × ((entry1 g offset).blocks_free ≡ less_one (entry1 f offset).blocks_free)
        × (g.stat_freebigblocks ≡ less_one f.stat_freebigblocks)
      ⊎ ((entry2 f offset).zone ≢ 0)
        × ((entry1 g offset).blocks_free ≡ (entry1 f offset).blocks_free)
        × (g.stat_freebigblocks ≡ f.stat_freebigblocks)
  pub held :
      g.reservations
      ≡ appended
          (offset % largeblock_size + n)
          (find (to_base_off offset) f.reservations.rb_resv_root)
          f.reservations

small_fits :
    (offset n : ℕ)
    → offset / bufsize ≡ (offset + n - 1) / bufsize
    → 0 < n
    → offset % largeblock_size + n ≤ largeblock_size
small_fits offset n e h = omega arith

large_fits :
    (offset n : ℕ)
    → offset / largeblock_size ≡ (offset + n - 1) / largeblock_size
    → 0 < n
    → offset % largeblock_size + n ≤ largeblock_size
large_fits offset n e h = omega arith

-- Room lies inside one big-block.
pub room_fits :
    (offset n : ℕ)
    → offset / unit_of n ≡ (offset + n - 1) / unit_of n
    → 0 < n
    → offset % largeblock_size + n ≤ largeblock_size
room_fits offset n e h = elim (Bool-cases (leb n bufsize)) [
  | inl small ↦ small_fits offset n (rw small at e) h
  | inr large ↦ large_fits offset n (rw large at e) h
]

append_to-appended :
    (offset n : ℕ) (o : Option Reserve) (h : Reservations)
    → ((r : Reserve) → o ≡ some r → r.append_off ≤ offset)
    → append_to offset n o h ≡ done (appended (offset + n) o h)
unfolding append_to
append_to-appended offset n none h k = refl
append_to-appended offset n (some r) h k = rw (le_test (k r refl)) refl

module _ (calls : Calls) (f : Freemap) (ok : IsFreemap calls f) (zone offset n : ℕ)
    (place : IsRoom f zone n offset) (zone_used : zone ≢ 0) (some_bytes : 0 < n) where
  usable : IsUsable calls f offset
  usable = IsFreemap-IsUsable calls f offset ok place.available

  abbrev old : Layer2
  old = entry2 f offset

  abbrev ours : Layer2
  ours = record old { zone = zone }

  -- The big-block with its zone.
  record IsAssigned (g : Freemap) : Type 0 where
    l1 : Layer1
    run : assign calls f zone offset ≡ done g
    has : Has f offset g l1 ours
    sealed : l1.layer1_crc ≡ (seal1 calls l1).layer1_crc
    blocks :
        (old.zone ≡ 0)
          × (l1.blocks_free ≡ less_one (entry1 f offset).blocks_free)
          × (g.stat_freebigblocks ≡ less_one f.stat_freebigblocks)
        ⊎ (old.zone ≢ 0)
          × (l1.blocks_free ≡ (entry1 f offset).blocks_free)
          × (g.stat_freebigblocks ≡ f.stat_freebigblocks)
    same_held : g.reservations ≡ f.reservations

  assign-IsAssigned : (old.zone ≡ 0) ⊎ (old.zone ≡ zone) → (g : Freemap) × IsAssigned g
  unfolding assign
  assign-IsAssigned (inl z) =
      let l1 : Layer1 =
        seal1 calls
          (record (entry1 f offset) { blocks_free = less_one (entry1 f offset).blocks_free }) in
      let (full, none_yet) = usable.block.whole z in
      (
        record f {
          layer1 = write f.layer1 (layer1_at f offset) l1;
          layer2 = write f.layer2 (layer2_at f offset) ours;
          stat_freebigblocks = less_one f.stat_freebigblocks;
          copy_stat_freebigblocks = less_one f.stat_freebigblocks;
        },
        record {
          l1 = l1;
          run = rw (z, full, none_yet) refl;
          has = record {
            phys = refl;
            first = read_back f.layer1 (layer1_at f offset) l1;
            second = read_back f.layer2 (layer2_at f offset) _;
            same = refl;
          };
          sealed = refl;
          blocks = inl (z, refl, refl);
          same_held = refl;
        },
      )
  assign-IsAssigned (inr z) = (
    f,
    record {
      l1 = entry1 f offset;
      run = rw (ne_test old.zone 0 (λ e. zone_used (sym z ∙ e))) refl;
      has = record {
        phys = refl;
        first = refl;
        second = ap (λ x. record old { zone = x }) z;
        same = refl;
      };
      sealed = usable.block.crc1;
      blocks = inr ((λ e. zone_used (sym z ∙ e)), refl, refl);
      same_held = refl;
    },
  )

  fits : n ≤ old.bytes_free
  fits = omega (arith, room_fits offset n place.in_unit some_bytes, place.behind, usable.reach)

  -- The word of free bytes does not wrap.
  no_wrap : (old.bytes_free + 0x100000000 - n) % 0x100000000 ≡ old.bytes_free - n
  no_wrap = omega (arith, fits, free_le calls f offset usable.block)

  -- The entry after the bytes are taken.
  abbrev took : Layer2
  took =
      seal2 calls
        (record ours { bytes_free = old.bytes_free - n; append_off = offset % largeblock_size + n })

  abbrev reservation : Option Reserve
  reservation = find (to_base_off offset) f.reservations.rb_resv_root

  module _ (g : Freemap) (a : IsAssigned g) where
    abbrev after : Freemap
    after = record g {
      layer2 = write g.layer2 (layer2_at g offset) took;
      reservations = appended (offset % largeblock_size + n) reservation f.reservations;
    }

    after-Has : Has f offset after a.l1 took
    after-Has = record {
      phys = a.has.phys;
      first = a.has.first;
      second =
          ap (λ at. write g.layer2 (layer2_at g offset) took at)
            (sym (Has-at2 f g offset a.l1 ours a.has))
          ∙ read_back g.layer2 (layer2_at g offset) took;
      same = a.has.same;
    }

    append_bytes-run : append_bytes calls g zone offset n ≡ done after
    unfolding append_bytes
    append_bytes-run =
        let e = Has-entry2 f g offset a.l1 ours a.has in
        rw
          (
            e,
            same_test zone,
            le_test place.behind,
            no_wrap,
            a.same_held,
            append_to-appended (offset % largeblock_size) n reservation f.reservations
                (λ r h. (place.behind_reserved r h).1),
          )
          refl

    after-IsBlock : IsBlock calls after offset
    after-IsBlock =
        Has-IsBlock f after offset a.l1 took after-Has calls usable.block a.sealed refl
          (λ z. absurd (zone_used z))
          (λ z. omega (arith, fits, free_le calls f offset usable.block))

    after-IsAllocated : IsAllocated calls f zone offset n after
    after-IsAllocated =
        let e1 = Has-entry1 f after offset a.l1 took after-Has in
        let e2 = Has-entry2 f after offset a.l1 took after-Has in
        record {
          place = place;
          block = after-IsBlock;
          owned = ap (λ l. l.zone) e2;
          appended_to = ap (λ l. l.append_off) e2;
          bytes = omega (arith, ap (λ l. l.bytes_free) e2, fits);
          counts = elim a.blocks [
            | inl (z, l, t) ↦ inl (z, ap (λ x. x.blocks_free) e1 ∙ l, t)
            | inr (z, l, t) ↦ inr (z, ap (λ x. x.blocks_free) e1 ∙ l, t)
          ];
          held = refl;
        }

-- How an allocation ends: with an allocated offset, behind which the zone goes on, or with ENOSPC.
abbrev pub Allocates : Calls → Freemap → (zone n : ℕ) → Outcome Allocated → Type 0
Allocates calls f zone n (done (g, next, offset)) =
    (next ≡ plus offset n) × IsAllocated calls f zone offset n g
Allocates calls f zone n (fail error) = (error ≡ enospc) × NoneFree f (start_of zone) (end_of zone)
Allocates calls f zone n panic = ⊥

take_room-Allocates :
    (calls : Calls) (f : Freemap)
    → IsFreemap calls f
    → (zone n : ℕ) → zone ≢ 0
    → 0 < n
    → (r : Round) → Searched f zone n (some r)
    → Allocates calls f zone n (take_room calls f zone n r)
unfolding take_room
take_room-Allocates calls f ok zone n used h (again offset) s = absurd s
take_room-Allocates calls f ok zone n used h broken s = absurd s
take_room-Allocates calls f ok zone n used h (ended error) s = s
take_room-Allocates calls f ok zone n used h (room offset) (l, place) =
    let (g, a) = assign-IsAssigned calls f ok zone offset n place used h place.owner in
    rw (a.run, append_bytes-run calls f ok zone offset n place used h g a)
      (refl, after-IsAllocated calls f ok zone offset n place used h g a)

-- An allocation in a zone below the last, whose `next_offset` starts a big-block or lies in a volume,
-- from a freemap of big-blocks that are well formed or unavailable, with fuel for two passes over the
-- zone, ends. It fails with ENOSPC only if no big-block of the zone's offsets is free for every zone
-- and counted as free; else it gives an offset where the bytes cross no buffer (no big-block, if they
-- are more than a buffer), in an available big-block that no other zone has or reserves, behind
-- all that is allocated or reserved there. The big-block is well formed afterwards, in the zone, ends
-- with the new bytes, and has as many free bytes fewer; the counts of free big-blocks are one less if
-- it had no zone, and its reservation ends with the new bytes too.
pub hammer_blockmap_alloc-Allocates :
    (calls : Calls) (f : Freemap) (fuel zone bytes next : ℕ)
    → IsFreemap calls f
    → 0 < bytes
    → align16 bytes ≤ xbufsize
    → 8 ≤ zone
    → zone < 15
    → zone_decode next ≡ zone
    → Standing f next
    → end_of zone - next + 0x1000000000000001 < fuel
    → (o : Outcome Allocated) × (hammer_blockmap_alloc calls f fuel zone bytes next ≡ some o)
      × Allocates calls f zone (align16 bytes) o
unfolding hammer_blockmap_alloc zone_decode
hammer_blockmap_alloc-Allocates calls f fuel zone bytes next ok some_bytes few low high here stands
      enough =
    let n = align16 bytes in
    let (r, found, s) = Searched-some f zone n _ (
      find_room-Searched calls f ok zone n high (omega arith) few fuel next (omega arith) stands
        enough) in
    (
      take_room calls f zone n r,
      rw (lt_test positive, le_test few, le_test low, lt_test below, here, same_test zone, found)
          refl,
      take_room-Allocates calls f ok zone n (λ e. omega arith) (omega arith) r s,
    )
  where
    positive : 0 < align16 bytes
    positive = omega arith

    below : zone < 16
    below = omega arith
