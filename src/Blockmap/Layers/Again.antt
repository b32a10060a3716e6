-- ===== src/Blockmap/Layers/Again.antt =====
-- Bytes that are taken and freed again.
use hammer_linux.Base.{
  ℕ, ◌+◌, ◌≤◌, ◌<◌, ◌≡◌, ◌⊎◌, inl, inr, sym, ◌∙◌, arith, Option, none, some, false,
}
use hammer_linux.Base.Outcome.{done}
use hammer_linux.Disk.{zone_decode, largeblock_size}
use hammer_linux.Blockmap.Reserve.{Reserve, Reservations, find}
use hammer_linux.Blockmap.Reserve.Counts.{
  IsHeld, AreCounted, All-put, All-find, length-put, delayed-put,
}
use hammer_linux.Blockmap.Layers.{
  Calls, Freemap, align16, not_free, hammer_blockmap_free, hammer_blockmap_finalize,
}
use hammer_linux.Blockmap.Layers.Block.{entry1, entry2, IsBlock}
use hammer_linux.Blockmap.Layers.Free.{IsRange, IsFreed, hammer_blockmap_free-IsFreed}
use hammer_linux.Blockmap.Layers.Finalize.{
  IsFinalized, free_le, hammer_blockmap_finalize-IsFinalized,
}

-- The reservation that is passed, if there is one, is among the reservations.
abbrev pub IsAmong : Option Reserve → Reservations → Type 0
IsAmong none h = Unit
IsAmong (some resv) h = find resv.zone_offset h.rb_resv_root ≡ some resv

not_free-AreCounted :
    (calls : Calls) (resv : Option Reserve) (h : Reservations)
    → AreCounted h
    → IsAmong resv h
    → AreCounted (not_free calls resv h)
not_free-AreCounted calls none h ok among = ok
not_free-AreCounted calls (some resv) h ok among =
    let resv' : Reserve = record resv { layer2free = false } in
    record {
      held =
          All-put resv' IsHeld h.rb_resv_root
            (All-find resv.zone_offset IsHeld h.rb_resv_root resv ok.held among).0 ok.held;
      reservations = length-put resv' h.rb_resv_root ∙ ok.reservations;
      from_delay = omega (arith, delayed-put resv' h.rb_resv_root resv among, ok.from_delay);
    }

-- The layers count the same as before.
pub record AreSame (f : Freemap) (zone_offset : ℕ) (g : Freemap) : Type 0 where
  pub bytes : (entry2 g zone_offset).bytes_free ≡ (entry2 f zone_offset).bytes_free
  pub zone : (entry2 g zone_offset).zone ≡ (entry2 f zone_offset).zone
  pub blocks : (entry1 g zone_offset).blocks_free ≡ (entry1 f zone_offset).blocks_free
  pub stat : g.stat_freebigblocks ≡ f.stat_freebigblocks

-- Between the two.
module _ (calls : Calls) (resv : Option Reserve) (f g : Freemap) (zone_offset n : ℕ)
    (ok : IsBlock calls f zone_offset) (fin : IsFinalized calls resv f zone_offset n g) where
  room : (entry2 g zone_offset).bytes_free + n ≤ largeblock_size
  room = omega (arith, free_le calls f zone_offset ok, fin.bytes)

  not_more :
      ((entry1 g zone_offset).blocks_free ≤ (entry1 f zone_offset).blocks_free)
      × (g.stat_freebigblocks ≤ f.stat_freebigblocks)
  not_more = elim fin.blocks [
    | inl (z, b, s) ↦ (omega arith, omega arith)
    | inr (z, b, s) ↦ (omega arith, omega arith)
  ]

  freed-AreSame :
      (g' : Freemap)
      → ((entry2 f zone_offset).zone ≡ 0) ⊎ ((entry2 f zone_offset).zone ≡ zone_decode zone_offset)
      → IsFreed g zone_offset n g'
      → AreSame f zone_offset g'
  freed-AreSame g' zone freed = elim (fin.blocks) [
    | inl (z, b, s) ↦ elim freed.blocks [
      | inl (full, z', b', s', d) ↦ record {
        bytes = bytes freed;
        zone = z' ∙ sym z;
        blocks = omega (arith, b, b');
        stat = omega (arith, s, s');
      }
      | inr (part, z', a, b', s') ↦ absurd (omega (arith, part, bytes freed, (ok.whole z).0))
    ]
    | inr (z, b, s) ↦ elim freed.blocks [
      | inl (full, z', b', s', d) ↦ absurd (omega (arith, full, bytes freed, ok.used z))
      | inr (part, z', a, b', s') ↦ record {
        bytes = bytes freed;
        zone = z' ∙ fin.zone ∙ sym (elim zone [ inl e ↦ absurd (z e) | inr e ↦ e ]);
        blocks = b' ∙ b;
        stat = s' ∙ s;
      }
    ]
  ]
    where
      bytes :
          IsFreed g zone_offset n g'
          → (entry2 g' zone_offset).bytes_free ≡ (entry2 f zone_offset).bytes_free
      bytes freed = freed.bytes ∙ fin.bytes

-- Under the conditions of both, finalizing bytes and freeing them again succeeds, and gives back the
-- free bytes and the zone of the big-block, and the counts of free big-blocks.
pub hammer_blockmap_free-hammer_blockmap_finalize :
    (calls : Calls) (f : Freemap) (resv : Option Reserve) (zone_offset bytes : ℕ)
    → IsBlock calls f zone_offset
    → IsRange zone_offset bytes
    → ((entry2 f zone_offset).zone ≡ 0) ⊎ ((entry2 f zone_offset).zone ≡ zone_decode zone_offset)
    → align16 bytes ≤ (entry2 f zone_offset).bytes_free
    → (0 < (entry1 f zone_offset).blocks_free)
      × ((entry1 f zone_offset).blocks_free < 0xffffffffffffffff)
    → (0 < f.stat_freebigblocks) × (f.stat_freebigblocks < 0xffffffffffffffff)
    → AreCounted f.reservations
    → IsAmong resv f.reservations
    → (g : Freemap) × (g' : Freemap) × (hammer_blockmap_finalize calls f resv zone_offset bytes
        ≡ done g)
      × (hammer_blockmap_free calls g zone_offset bytes ≡ done g')
      × IsBlock calls g' zone_offset
      × AreSame f zone_offset g'
hammer_blockmap_free-hammer_blockmap_finalize calls f resv zone_offset bytes ok range zone fits b s
      counted among =
    let (g, run, ok1, fin) =
      hammer_blockmap_finalize-IsFinalized calls f resv zone_offset bytes ok range.some_bytes
        range.short range.low_zone range.high_zone zone fits (b.0, omega arith)
        (s.0, omega arith) in
    let (g', run', ok2, freed) =
      hammer_blockmap_free-IsFreed calls g zone_offset bytes ok1 range fin.zone
        (room calls resv f g zone_offset (align16 bytes) ok fin)
        (below (not_more calls resv f g zone_offset (align16 bytes) ok fin).0 b.1)
        (below (not_more calls resv f g zone_offset (align16 bytes) ok fin).1 s.1)
        (rw fin.held (not_free-AreCounted calls resv f.reservations counted among)) in
    (
      g,
      g',
      run,
      run',
      ok2,
      freed-AreSame calls resv f g zone_offset (align16 bytes) ok fin g' zone freed,
    )
  where
    below : {m n k : ℕ} → m ≤ n → n < k → m < k
    below h k = omega arith
