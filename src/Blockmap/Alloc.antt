-- ===== src/Blockmap/Alloc.antt =====
-- Allocation from a zone: `hammer_blockmap_alloc`, `hammer_blockmap_reserve` and `hammer_checkspace`
-- (dfly/vfs/hammer/hammer_blockmap.c).
-- Both functions look for room by the same loop, which is a function here. The lock is free, so that
-- the second look at an entry sees what the first one saw; buffers that `hammer_bnew` makes are left
-- out.
pub mod Forward
pub mod Room
pub mod Allocated
pub mod Held
use hammer_linux.Base.{
  ℕ, zero, suc, ◌+◌, ◌-◌, ◌*◌, ◌/◌, ◌%◌, Bool, true, false, not, Option, none, some, List, ◌∷◌, ltb,
  leb, ◌==◌, ◌&&◌, if◌then◌else◌,
}
use mathlib.Core.Option
use hammer_linux.Base.Outcome.{Outcome, done, fail, panic, ◌>>=◌, ◌>>◌, kkassert}
use hammer_linux.Disk.{zone_decode, zone_encode, largeblock_size}
use hammer_linux.Blockmap.Reserve.{Reserve, Reservations, find, put}
use hammer_linux.Blockmap.Layers.{
  Layer1, Layer2, Calls, Freemap, write, plus, less_one, align16, xbufsize, unavail, good_zone,
  layer1_at, layer2_at, to_base_off, seal1, seal2, sealed1, sealed2,
}

-- HAMMER_BUFSIZE and HAMMER_BLOCKMAP_LAYER2
abbrev pub bufsize : ℕ
bufsize = 0x4000

abbrev pub layer2_size : ℕ
layer2_size = 0x40000000000

abbrev pub enospc : ℕ
enospc = 28

-- What one round of the loop comes to: another round at an offset, room at an offset, an error, or a
-- panic.
pub data Round : Type 0 where
  again : (next_offset : ℕ) → Round
  room : (next_offset : ℕ) → Round
  ended : (error : ℕ) → Round
  broken : Round

-- offset & ~(size - 1)
abbrev pub down_to : (size offset : ℕ) → ℕ
down_to size offset = offset / size * size

-- The unit that a request may not cross.
abbrev pub unit_of : (bytes : ℕ) → ℕ
unit_of bytes = if leb bytes bufsize then bufsize else largeblock_size

-- The reservation of the big-block.
past_reservation : (zone next_offset : ℕ) → Option Reserve → Round
past_reservation zone next_offset none = room next_offset
past_reservation zone next_offset (some resv) =
    let offset = next_offset % largeblock_size in
    if not (resv.zone == zone)
    then again (down_to largeblock_size (plus next_offset largeblock_size))
    else if ltb offset resv.append_off
    then again (plus next_offset (resv.append_off - offset))
    else room next_offset

-- The entry of layer 2.
past_layer2 : Reservations → (zone next_offset : ℕ) → Layer2 → Round
unfolding past_reservation
past_layer2 h zone next_offset l2 =
    let offset = next_offset % largeblock_size in
    if not (l2.zone == 0) && not (l2.zone == zone)
    then again (plus next_offset (largeblock_size - offset))
    else if ltb offset l2.append_off
    then again (plus next_offset (l2.append_off - offset))
    else past_reservation zone next_offset (find (to_base_off next_offset) h.rb_resv_root)

-- Another round, or the end of the loop.
abbrev on_again : Round → (ℕ → Option Round) → Option Round
on_again (again next_offset) k = k next_offset
on_again (room next_offset) k = some (room next_offset)
on_again (ended error) k = some (ended error)
on_again broken k = some broken

module _ (calls : Calls) (f : Freemap) where
  -- An error of hammer_bread, or a CRC that does not match.
  abbrev checked : (at : ℕ) → Bool → Round → Round
  checked at sealed r =
      if not (calls.bread at == 0) then ended (calls.bread at) else if not sealed then broken else r

  past_layer1 : (zone next_offset : ℕ) → Round
  unfolding past_layer2
  past_layer1 zone next_offset =
      let l1 = f.layer1 (layer1_at f next_offset) in
      let l2 = f.layer2 (layer2_at f next_offset) in
      if (next_offset % largeblock_size == 0) && (l1.blocks_free == 0)
      then again (down_to layer2_size (plus next_offset layer2_size))
      else if l1.phys_offset == unavail
      then broken
      else checked (layer2_at f next_offset) (sealed2 calls l2)
          (past_layer2 f.reservations zone next_offset l2)

  -- A round after the check for the end of the zone.
  pub round : (zone bytes next_offset : ℕ) → Round
  unfolding past_layer1
  round zone bytes next_offset =
      let tmp = next_offset + bytes - 1 in
      if not (next_offset / unit_of bytes == tmp / unit_of bytes)
      then again (down_to (unit_of bytes) tmp % 0x10000000000000000)
      else checked (layer1_at f next_offset) (sealed1 calls (f.layer1 (layer1_at f next_offset)))
          (past_layer1 zone next_offset)

  -- The loop; `none` means that the fuel ran out.
  pub find_room : (fuel loops zone bytes next_offset : ℕ) → Option Round
  unfolding round
  find_room zero loops zone bytes next_offset = none
  find_room (suc fuel) loops zone bytes next_offset =
      let at_end = next_offset == zone_encode (zone + 1) 0 in
      let loops' = if at_end then loops + 1 else loops in
      let start = if at_end then zone_encode zone 0 else next_offset in
      if at_end && (loops + 1 == 2)
      then some (ended enospc)
      else on_again (round zone bytes start) (find_room fuel loops' zone bytes)

  -- A big-block without a zone is assigned to ours.
  pub assign : (zone next_offset : ℕ) → Outcome Freemap
  assign zone next_offset =
      let at1 = layer1_at f next_offset in
      let at2 = layer2_at f next_offset in
      let l1 = f.layer1 at1 in
      let l2 = f.layer2 at2 in
      if l2.zone == 0
      then (do
        kkassert (l2.bytes_free == largeblock_size)
        kkassert (l2.append_off == 0)
        done (record f {
          layer1 =
              write f.layer1 at1
                (seal1 calls (record l1 { blocks_free = less_one l1.blocks_free }));
          layer2 = write f.layer2 at2 (record l2 { zone = zone });
          stat_freebigblocks = less_one f.stat_freebigblocks;
          copy_stat_freebigblocks = less_one f.stat_freebigblocks;
        }))
      else done f

-- resv->append_off = offset + bytes, and resv->flags &= ~HAMMER_RESF_LAYER2FREE
append_to : (offset bytes : ℕ) → Option Reserve → Reservations → Outcome Reservations
append_to offset bytes none h = done h
append_to offset bytes (some resv) h = do
  kkassert (leb resv.append_off offset)
  done (record h {
    rb_resv_root =
        put (record resv { append_off = offset + bytes; layer2free = false }) h.rb_resv_root;
  })

-- The bytes are taken behind `append_off`. `bytes_free` is an unsigned word that may wrap, so that the
-- assertion that it is not negative always holds.
pub append_bytes : Calls → Freemap → (zone next_offset bytes : ℕ) → Outcome Freemap
unfolding append_to
append_bytes calls f zone next_offset bytes = do
  let at2 = layer2_at f next_offset
  let l2 = f.layer2 at2
  let offset = next_offset % largeblock_size
  kkassert (l2.zone == zone)
  kkassert (leb l2.append_off offset)
  h ←
      append_to offset bytes (find (to_base_off next_offset) f.reservations.rb_resv_root)
        f.reservations
  done (record f {
    layer2 = write f.layer2 at2 (
        seal2 calls (record l2 {
          bytes_free = (l2.bytes_free + 0x100000000 - bytes) % 0x100000000;
          append_off = offset + bytes;
        }));
    reservations = h;
  })

-- The freemap, the zone's new `next_offset`, and the offset that is allocated.
abbrev pub Allocated : Type 0
Allocated = Freemap × ℕ × ℕ

take_room : Calls → Freemap → (zone bytes : ℕ) → Round → Outcome Allocated
unfolding assign append_bytes
take_room calls f zone bytes (again next_offset) = panic
take_room calls f zone bytes broken = panic
take_room calls f zone bytes (ended error) = fail error
take_room calls f zone bytes (room next_offset) = do
  g ← assign calls f zone next_offset
  h ← append_bytes calls g zone next_offset bytes
  done (h, plus next_offset bytes, next_offset)

-- `next_offset` is that of the zone; `none` means that the fuel ran out.
pub hammer_blockmap_alloc :
    Calls → Freemap → (fuel zone bytes next_offset : ℕ) → Option (Outcome Allocated)
unfolding find_room take_room
hammer_blockmap_alloc calls f fuel zone bytes next_offset =
    let n = align16 bytes in
    if not (ltb 0 n && leb n xbufsize && good_zone zone && (zone_decode next_offset == zone))
    then some panic
    else Option.map (take_room calls f zone n) (find_room calls f fuel 0 zone n next_offset)

-- The reservation of the big-block gets one more holder, or is made, and ends with the new bytes.
pub hold :
    (zone base_off offset bytes bytes_free : ℕ) → Option Reserve → Reservations → Reservations
hold zone base_off offset bytes bytes_free (some resv) h = record h {
  rb_resv_root =
      put (record resv { refs = resv.refs + 1; append_off = offset + bytes }) h.rb_resv_root;
}
hold zone base_off offset bytes bytes_free none h = record h {
  rb_resv_root =
      record {
        flush_group = 0;
        on_delay = false;
        layer2free = bytes_free == largeblock_size;
        refs = 1;
        zone = zone;
        append_off = offset + bytes;
        zone_offset = base_off;
      }
      ∷ h.rb_resv_root;
  count_reservations = h.count_reservations + 1;
}

-- The freemap, the zone's new `next_offset`, and the offset that is reserved.
hold_room : Freemap → (zone bytes : ℕ) → Round → Outcome Allocated
unfolding hold
hold_room f zone bytes (again next_offset) = panic
hold_room f zone bytes broken = panic
hold_room f zone bytes (ended error) = fail error
hold_room f zone bytes (room next_offset) =
    let base_off = to_base_off next_offset in
    done (
      record f {
        reservations =
            hold zone base_off (next_offset % largeblock_size) bytes
              (f.layer2 (layer2_at f next_offset)).bytes_free
              (find base_off f.reservations.rb_resv_root) f.reservations;
      },
      plus next_offset bytes,
      next_offset,
    )

-- `volume` is the error number of `hammer_get_root_volume`.
pub hammer_blockmap_reserve :
    Calls → Freemap → (fuel volume zone bytes next_offset : ℕ) → Option (Outcome Allocated)
unfolding find_room hold_room
hammer_blockmap_reserve calls f fuel volume zone bytes next_offset =
    let n = align16 bytes in
    if not (good_zone zone)
    then some panic
    else if not (volume == 0)
    then some (fail volume)
    else if not ((zone_decode next_offset == zone) && ltb 0 n && leb n xbufsize)
    then some panic
    else Option.map (hold_room f zone n) (find_room calls f fuel 0 zone n next_offset)

-- What `hammer_checkspace` reads of the mount, and the sizes of an inode, a record and the dirty buffers.
pub record Space : Type 0 where
  pub rsv_inodes : ℕ
  pub rsv_recs : ℕ
  pub rsv_databytes : ℕ
  pub rsv_fromdelay : ℕ
  pub copy_stat_freebigblocks : ℕ
  pub in_size : ℕ
  pub rec_size : ℕ
  pub hidirtybufspace : ℕ

-- `usedbytes`; the counts are not negative, and the sums do not overflow.
abbrev pub used_bytes : Space → (slop : ℕ) → ℕ
used_bytes s slop =
    s.rsv_inodes * s.in_size
    + s.rsv_recs * s.rec_size
    + s.rsv_databytes
    + s.rsv_fromdelay * largeblock_size
    + s.hidirtybufspace * 4
    + slop * largeblock_size

pub hammer_checkspace : Space → (slop : ℕ) → ℕ
hammer_checkspace s slop =
    if leb (used_bytes s slop / largeblock_size) s.copy_stat_freebigblocks then 0 else enospc
