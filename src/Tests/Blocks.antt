-- ===== src/Tests/Blocks.antt =====
-- Offsets, reservations, and a freemap in which all big-blocks are alike.
use hammer_linux.Base.{
  ◌==◌, ◌≢◌, ◌⊎◌, ◌≤◌, ◌<◌, ℕ, ◌+◌, ◌≡◌, inl, refl, arith, true, false, none, some, [], ◌∷◌, ◌/◌,
  ◌%◌,
}
use hammer_linux.Base.Outcome.{done, panic, Returns}
use hammer_linux.Disk.{zone_decode, largeblock_size}
use hammer_linux.Blockmap.Reserve.{
  Reserve, Reservations, find, hammer_reserve_setdelay, hammer_reserve_clrdelay,
}
use hammer_linux.Blockmap.Reserve.Counts.{AreCounted, delayed}
use hammer_linux.Blockmap.Reserve.Counts.{one_if}
use hammer_linux.Blockmap.Reserve.Complete.{occurs, hammer_reserve_clrdelay-AreCounted}
use hammer_linux.Blockmap.Reserve.Delay.{IsDelayed, hammer_reserve_setdelay-IsDelayed}
use hammer_linux.Blockmap.Layers.{Calls, Freemap, hammer_blockmap_free, hammer_blockmap_finalize}
use hammer_linux.Blockmap.Layers.Block.{IsBlock, entry2}
use hammer_linux.Blockmap.Layers.Free.{IsRange}
use hammer_linux.Blockmap.Layers.Finalize.{IsFinalized, hammer_blockmap_finalize-IsFinalized}
use hammer_linux.Blockmap.Query.{hammer_blockmap_getfree, hammer_blockmap_lookup}
use hammer_linux.Blockmap.Query.Answers.{Belongs, hammer_blockmap_lookup_lem}
use hammer_linux.Blockmap.Layers.Again.{AreSame, hammer_blockmap_free-hammer_blockmap_finalize}

-- One reservation, held by the delay list.
abbrev held_back : Reserve
held_back = record {
  flush_group = 4;
  on_delay = true;
  layer2free = true;
  refs = 1;
  zone = 8;
  append_off = 0;
  zone_offset = 0x2000000000000000;
}

abbrev in_use : Reserve
in_use = record {
  flush_group = 0;
  on_delay = false;
  layer2free = false;
  refs = 2;
  zone = 8;
  append_off = 64;
  zone_offset = 0x2000000000800000;
}

abbrev two_reservations : Reservations
two_reservations = record {
  rb_resv_root = held_back ∷ in_use ∷ [];
  delay_list = 0x2000000000000000 ∷ [];
  rsv_fromdelay = 1;
  count_reservations = 2;
  flusher_next = 7;
  deleted = [];
}

two_reservations-AreCounted : AreCounted two_reservations
unfolding delayed zone_decode
two_reservations-AreCounted = record {
  held = ((omega arith, refl), ((omega arith, refl), tt));
  reservations = refl;
  from_delay = refl;
}

hammer_reserve_clrdelay-AreCounted_example :
    Returns (hammer_reserve_clrdelay two_reservations held_back) (λ g.
      AreCounted g
      × ((o : ℕ)
          → occurs o g.delay_list + one_if (held_back.zone_offset == o)
            ≡ occurs o two_reservations.delay_list))
unfolding find
hammer_reserve_clrdelay-AreCounted_example =
    hammer_reserve_clrdelay-AreCounted two_reservations held_back two_reservations-AreCounted refl
      refl (λ e. omega arith)

hammer_reserve_setdelay-IsDelayed_example :
    IsDelayed two_reservations 0x2000000001000000
      (hammer_reserve_setdelay two_reservations 0x2000000001000000 0x800000)
unfolding zone_decode
hammer_reserve_setdelay-IsDelayed_example =
    hammer_reserve_setdelay-IsDelayed two_reservations 0x2000000001000000 0x800000
      two_reservations-AreCounted refl

-- A disk that can be read, with sums in place of CRCs.
abbrev calls : Calls
calls = record {
  bread = λ _. 0;
  crc1 = λ b p r l. b + p + r + l;
  crc2 = λ z u v a f. z + u + v + a + f;
}

abbrev freemap : (zone append_off bytes_free : ℕ) → Freemap
freemap zone append_off bytes_free = record {
  phys_offset = 0x2000000000000000;
  layer1 = λ _. record {
    blocks_free = 500;
    phys_offset = 0x2000000000800000;
    reserved01 = 0;
    layer2_crc = 0;
    layer1_crc = 0x2000000000800000 + 500;
  };
  layer2 = λ _. record {
    zone = zone;
    unused01 = 0;
    unused02 = 0;
    append_off = append_off;
    bytes_free = bytes_free;
    entry_crc = zone + append_off + bytes_free;
  };
  stat_freebigblocks = 500;
  copy_stat_freebigblocks = 500;
  reservations = two_reservations;
}

-- All bytes but 64 are free.
abbrev nearly_free : Freemap
nearly_free = freemap 8 64 0x7fffc0

abbrev entirely_free : Freemap
entirely_free = freemap 0 0 0x800000

nearly_free-IsBlock : IsBlock calls nearly_free 0x8000000000000000
nearly_free-IsBlock = record {
  reads1 = refl;
  reads2 = refl;
  mapped = λ e. omega arith;
  available = λ e. omega arith;
  crc1 = omega arith;
  crc2 = omega arith;
  whole = λ e. absurd (omega arith);
  used = λ e. omega arith;
}

entirely_free-IsBlock : IsBlock calls entirely_free 0x8000000000000000
entirely_free-IsBlock = record {
  reads1 = refl;
  reads2 = refl;
  mapped = λ e. omega arith;
  available = λ e. omega arith;
  crc1 = omega arith;
  crc2 = omega arith;
  whole = λ e. (refl, refl);
  used = λ e. absurd (e refl);
}

first_bytes : IsRange 0x8000000000000000 50
unfolding zone_decode
first_bytes = record {
  some_bytes = λ e. omega arith;
  short = omega arith;
  one_block = omega arith;
  low_zone = omega arith;
  high_zone = omega arith;
}

hammer_blockmap_finalize-IsFinalized_example :
    (g : Freemap) × (hammer_blockmap_finalize calls entirely_free none 0x8000000000000000 50
      ≡ done g)
    × IsBlock calls g 0x8000000000000000
    × IsFinalized calls none entirely_free 0x8000000000000000 64 g
unfolding zone_decode
hammer_blockmap_finalize-IsFinalized_example =
    hammer_blockmap_finalize-IsFinalized calls entirely_free none 0x8000000000000000 50
      entirely_free-IsBlock (λ e. omega arith) (omega arith) (omega arith) (omega arith) (inl refl)
      (omega arith) (omega arith, omega arith) (omega arith, omega arith)

hammer_blockmap_free-hammer_blockmap_finalize_example :
    (g : Freemap) × (g' : Freemap) × (hammer_blockmap_finalize calls entirely_free
        (some in_use)
        0x8000000000000000
        50
      ≡ done g)
    × (hammer_blockmap_free calls g 0x8000000000000000 50 ≡ done g')
    × IsBlock calls g' 0x8000000000000000
    × AreSame entirely_free 0x8000000000000000 g'
unfolding find
hammer_blockmap_free-hammer_blockmap_finalize_example =
    hammer_blockmap_free-hammer_blockmap_finalize calls entirely_free (some in_use)
      0x8000000000000000 50 entirely_free-IsBlock first_bytes (inl refl) (omega arith)
      (omega arith, omega arith) (omega arith, omega arith) two_reservations-AreCounted refl

hammer_blockmap_lookup_lem_example :
    (raw : ℕ) × (zone_decode raw ≡ 2)
    × (raw % 0x1000000000000000 ≡ 0x8000000000000000 % 0x1000000000000000)
    × (hammer_blockmap_lookup calls 0 false nearly_free 0x8000000000000000
        ≡ done (record { result = raw; error = 0; cur = none }))
    × ((Belongs nearly_free 0x8000000000000000
          × (hammer_blockmap_lookup calls 0 true nearly_free 0x8000000000000000
              ≡ done (record { result = raw; error = 0; cur = none })))
        ⊎ ((¬ Belongs nearly_free 0x8000000000000000)
            × (hammer_blockmap_lookup calls 0 true nearly_free 0x8000000000000000 ≡ panic)))
    × (((entry2 nearly_free 0x8000000000000000).zone ≡ zone_decode 0x8000000000000000)
          × (hammer_blockmap_getfree calls 0 nearly_free 0x8000000000000100 0x8000000000000000
              ≡ done (record {
                result = (entry2 nearly_free 0x8000000000000000).bytes_free;
                error = 0;
                cur =
                    some (
                      0x8000000000000100 / largeblock_size == 0x8000000000000000 / largeblock_size);
              }))
        ⊎ ((entry2 nearly_free 0x8000000000000000).zone ≢ zone_decode 0x8000000000000000)
          × (hammer_blockmap_getfree calls 0 nearly_free 0x8000000000000100 0x8000000000000000
              ≡ panic))
unfolding zone_decode
hammer_blockmap_lookup_lem_example =
    hammer_blockmap_lookup_lem calls nearly_free 0x8000000000000000 0x8000000000000100
      nearly_free-IsBlock low high (λ e. omega arith)
  where
    low : 8 ≤ zone_decode 0x8000000000000000
    low = omega arith

    high : zone_decode 0x8000000000000000 < 16
    high = omega arith
