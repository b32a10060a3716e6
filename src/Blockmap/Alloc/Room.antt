-- ===== src/Blockmap/Alloc/Room.antt =====
-- The loop that looks for room, and what it comes to.
use native.Mathlib.Decide.{ℕ_discrete}
use mathlib.Core.Path.{subst}
use hammer_linux.Base.{
  none-some, some-same, ℕ, zero, suc, ◌+◌, ◌-◌, ◌*◌, ◌/◌, ◌%◌, ◌≤◌, ◌<◌, ◌≡◌, ◌≢◌, ◌⊎◌, refl, sym,
  ◌∙◌, inl, inr, arith, true, false, Bool-cases, not, Option, none, some, ltb, ◌==◌, ◌&&◌,
  same_test, ne_test,
}
use hammer_linux.Disk.{largeblock_size}
use hammer_linux.Blockmap.Reserve.{Reserve, find}
use hammer_linux.Blockmap.Layers.{
  Calls, Freemap, xbufsize, unavail, layer1_at, to_base_off, seal1, seal2,
}
use hammer_linux.Blockmap.Layers.Block.{entry1, entry2}
use hammer_linux.Blockmap.Alloc.{
  Round, again, room, ended, broken, unit_of, enospc, past_reservation, past_layer2, past_layer1,
  round, find_room, on_again,
}
use hammer_linux.Blockmap.Alloc.Forward.{
  IsUsable, IsUnavailable, IsFreemap, IsRoom, NoneFree, NoneFree-join, Standing, Forward, end_of,
  Forward-block, Forward-layer, Forward-rest, Forward-append, Forward-unit, same_number, zone_end,
  zone_start, owner_of,
}

-- A round goes forward, or stays at room.
abbrev Fine : Freemap → (zone bytes next : ℕ) → Round → Type 0
Fine f zone bytes next (again n) = Forward f zone next n
Fine f zone bytes next (room n) = (n ≡ next) × IsRoom f zone bytes next
Fine f zone bytes next (ended e) = ⊥
Fine f zone bytes next broken = ⊥

other_owner : (owner zone : ℕ) → (not (owner == 0) && not (owner == zone)) ≡ true → ¬ (owner ≡ 0)
other_owner owner zone e k = ground arith

not_started : (a b : ℕ) → a ≡ 0 → ¬ (ltb b a ≡ true)
not_started a b e h = ground arith

module _ (calls : Calls) (f : Freemap) (ok : IsFreemap calls f) (zone bytes next : ℕ)
    (low_zone : zone < 15) (in_zone : next < end_of zone) (some_bytes : 0 < bytes)
    (few_bytes : bytes ≤ xbufsize) (stands : Standing f next) where
  -- What is known when the reservation is looked at.
  record Unowned : Type 0 where
    usable : IsUsable calls f next
    in_unit' : next / unit_of bytes ≡ (next + bytes - 1) / unit_of bytes
    owner' : ((entry2 f next).zone ≡ 0) ⊎ ((entry2 f next).zone ≡ zone)
    behind' : (entry2 f next).append_off ≤ next % largeblock_size

  abbrev reservation : Option Reserve
  reservation = find (to_base_off next) f.reservations.rb_resv_root

  IsRoom-of :
      Unowned
      → ((r : Reserve)
          → reservation ≡ some r
          → (r.zone ≡ zone) × (r.append_off ≤ next % largeblock_size))
      → IsRoom f zone bytes next
  IsRoom-of u h = record {
    available = u.usable.block.available;
    in_unit = u.in_unit';
    owner = u.owner';
    behind = u.behind';
    behind_reserved = h;
  }

  past_reservation-Fine :
      Unowned
      → (o : Option Reserve) → reservation ≡ o
      → Fine f zone bytes next (past_reservation zone next o)
  unfolding past_reservation
  past_reservation-Fine u none e = (refl, IsRoom-of u (λ r h. absurd (none-some r (sym e ∙ h))))
  past_reservation-Fine u (some resv) e = elim (Bool-cases (resv.zone == zone)) [
    | inr other ↦ rw other (
        Forward-block f zone next low_zone in_zone
          (λ free. none-some resv (sym free.unreserved ∙ e)))
    | inl ours ↦ elim (Bool-cases (ltb (next % largeblock_size) resv.append_off)) [
      | inl before ↦
          rw (ours, before)
            (Forward-append f zone next low_zone in_zone resv.append_off (ground arith)
              (ok.reserved (to_base_off next) resv e) u.usable.block.available
              (λ free. none-some resv (sym free.unreserved ∙ e)))
      | inr behind ↦
          rw (ours, behind)
            (
              refl,
              IsRoom-of u (λ r h.
                  subst (λ x. (x.zone ≡ zone) × (x.append_off ≤ next % largeblock_size))
                    (some-same resv r (sym e ∙ h)) (ground arith, ground arith)),
            )
    ]
  ]

  past_layer2-Fine :
      IsUsable calls f next
      → next / unit_of bytes ≡ (next + bytes - 1) / unit_of bytes
      → Fine f zone bytes next (past_layer2 f.reservations zone next (entry2 f next))
  unfolding past_layer2
  past_layer2-Fine usable in_unit =
      elim (Bool-cases (not ((entry2 f next).zone == 0) && not ((entry2 f next).zone == zone))) [
        | inl other ↦ rw other (
            Forward-rest f zone next low_zone in_zone
              (λ free. other_owner (entry2 f next).zone zone other free.unowned))
        | inr free ↦ elim (Bool-cases (ltb (next % largeblock_size) ((entry2 f next).append_off))) [
          | inl before ↦
              rw (free, before)
                (Forward-append f zone next low_zone in_zone (entry2 f next).append_off
                  (ground arith) usable.inside usable.block.available
                  (λ free. not_started _ _ (usable.block.whole free.unowned).1 before))
          | inr behind ↦
              rw (free, behind)
                (past_reservation-Fine
                  (record {
                    usable = usable;
                    in_unit' = in_unit;
                    owner' = owner_of _ zone free;
                    behind' = ground arith;
                  })
                  reservation refl)
        ]
      ]

  past_layer1-Fine :
      next / unit_of bytes ≡ (next + bytes - 1) / unit_of bytes
      → Fine f zone bytes next (past_layer1 calls f zone next)
  unfolding past_layer1
  past_layer1-Fine in_unit =
      elim (Bool-cases ((next % largeblock_size == 0) && ((entry1 f next).blocks_free == 0))) [
        | inl full ↦ rw full (Forward-layer f zone next low_zone in_zone (all_taken _ _ full))
        | inr more ↦ elim (ok.blocks next) [
          | inr none_here ↦ absurd (stopped stands none_here more)
          | inl usable ↦
              rw
                (
                  more,
                  ne_test (entry1 f next).phys_offset unavail usable.block.available,
                  usable.block.reads2,
                  usable.block.crc2,
                  same_test (seal2 calls (entry2 f next)).entry_crc,
                )
                (past_layer2-Fine usable in_unit)
        ]
      ]
    where
      all_taken : (a b : ℕ) → ((a == 0) && (b == 0)) ≡ true → b ≡ 0
      all_taken a b e = ground arith

      test_taken : (a b : ℕ) → a ≡ 0 → b ≡ 0 → ((a == 0) && (b == 0)) ≢ false
      test_taken a b e k h = ground arith

      -- Where no volume covers the offset, the whole entry of layer 1 is passed.
      stopped :
          Standing f next
          → IsUnavailable calls f next
          → ¬ (((next % largeblock_size == 0) && ((entry1 f next).blocks_free == 0)) ≡ false)
      stopped (inl start) n more = test_taken _ _ start n.none_free more
      stopped (inr available) n more = available n.no_layer2

  reads1 : calls.bread (layer1_at f next) ≡ 0
  reads1 = elim (ok.blocks next) [ inl u ↦ u.block.reads1 | inr n ↦ n.reads1 ]

  crc1 : (entry1 f next).layer1_crc ≡ (seal1 calls (entry1 f next)).layer1_crc
  crc1 = elim (ok.blocks next) [ inl u ↦ u.block.crc1 | inr n ↦ n.crc1 ]

  round-Fine : Fine f zone bytes next (round calls f zone bytes next)
  unfolding round
  round-Fine = elim (ℕ_discrete (next / unit_of bytes) ((next + bytes - 1) / unit_of bytes)) [
    | no n ↦
        rw (ne_test (next / unit_of bytes) ((next + bytes - 1) / unit_of bytes) n)
          (Forward-unit f zone next low_zone in_zone bytes some_bytes few_bytes n stands)
    | yes e ↦
        rw
          (
            same_number (next / unit_of bytes) ((next + bytes - 1) / unit_of bytes) e,
            reads1,
            crc1,
            same_test (seal1 calls (entry1 f next)).layer1_crc,
          )
          (past_layer1-Fine e)
  ]

-- The start of a zone.
abbrev pub start_of : ℕ → ℕ
start_of zone = zone * 0x1000000000000000

-- How the search for room ends: with room, or with ENOSPC, when no big-block is free.
abbrev pub Searched : Freemap → (zone bytes : ℕ) → Option Round → Type 0
Searched f zone bytes none = ⊥
Searched f zone bytes (some (again n)) = ⊥
Searched f zone bytes (some (room n)) = (n < end_of zone) × IsRoom f zone bytes n
Searched f zone bytes (some (ended e)) = (e ≡ enospc) × NoneFree f (start_of zone) (end_of zone)
Searched f zone bytes (some broken) = ⊥

module _ (calls : Calls) (f : Freemap) (ok : IsFreemap calls f) (zone bytes : ℕ)
    (low_zone : zone < 15) (some_bytes : 0 < bytes) (few_bytes : bytes ≤ xbufsize) where
  -- From inside the zone the rest of the zone is searched, with the recursive call for what follows.
  on_round :
      (next : ℕ) (k : ℕ → Option Round)
      → next < end_of zone
      → Standing f next
      → ((n : ℕ) → Forward f zone next n → Searched f zone bytes (k n))
      → Searched f zone bytes (on_again (round calls f zone bytes next) k)
  on_round next k l stands further =
      go (round calls f zone bytes next)
        (round-Fine calls f ok zone bytes next low_zone l some_bytes few_bytes stands)
    where
      go : (r : Round) → Fine f zone bytes next r → Searched f zone bytes (on_again r k)
      go (again n) h = further n h
      go (room n) (e, h) = (omega arith, subst (λ x. IsRoom f zone bytes x) (sym e) h)
      go (ended e) h = absurd h
      go broken h = absurd h

  -- After the wrap, with nothing free before `next`.
  second_pass :
      (fuel next : ℕ)
      → next ≤ end_of zone
      → Standing f next
      → NoneFree f (start_of zone) next
      → end_of zone - next < fuel
      → Searched f zone bytes (find_room calls f fuel 1 zone bytes next)
  unfolding find_room
  second_pass zero next h stands taken l = absurd (omega arith)
  second_pass (suc fuel) next h stands taken l = elim (ℕ_discrete next (end_of zone)) [
    | yes e ↦
        rw (zone_end zone low_zone, same_number next (end_of zone) e)
          (refl, subst (λ x. NoneFree f (start_of zone) x) e taken)
    | no n ↦
        rw (zone_end zone low_zone, ne_test next (end_of zone) n)
          (on_round next (find_room calls f fuel 1 zone bytes) (omega arith) stands (λ m p.
            let further = p.further in
            second_pass fuel m p.in_zone p.stands
              (NoneFree-join f (start_of zone) next m taken p.passed) (omega (arith, p.in_zone))))
  ]

  -- From anywhere in the zone.
  pub find_room-Searched :
      (fuel next : ℕ)
      → next ≤ end_of zone
      → Standing f next
      → end_of zone - next + 0x1000000000000001 < fuel
      → Searched f zone bytes (find_room calls f fuel 0 zone bytes next)
  unfolding find_room
  find_room-Searched zero next h stands l = absurd (omega arith)
  find_room-Searched (suc fuel) next h stands l = elim (ℕ_discrete next (end_of zone)) [
    | yes e ↦
        rw (zone_end zone low_zone, same_number next (end_of zone) e, zone_start zone low_zone)
          (on_round (start_of zone) (find_room calls f fuel 1 zone bytes) (omega arith)
            (inl (omega arith))
            (λ m p.
              let further = p.further in
              second_pass fuel m p.in_zone p.stands p.passed (omega (arith, p.in_zone))))
    | no n ↦
        rw (zone_end zone low_zone, ne_test next (end_of zone) n)
          (on_round next (find_room calls f fuel 0 zone bytes) (omega arith) stands (λ m p.
            let further = p.further in
            find_room-Searched fuel m p.in_zone p.stands (omega (arith, p.in_zone))))
  ]

-- A search that ends has a result.
pub Searched-some :
    (f : Freemap) (zone n : ℕ) (o : Option Round)
    → Searched f zone n o
    → (r : Round) × (o ≡ some r) × Searched f zone n (some r)
Searched-some f zone n none h = absurd h
Searched-some f zone n (some r) h = (r, refl, h)
