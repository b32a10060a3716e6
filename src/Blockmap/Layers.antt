-- ===== src/Blockmap/Layers.antt =====
-- The two layers of the freemap: `hammer_blockmap_free` and `hammer_blockmap_finalize`
-- (dfly/vfs/hammer/hammer_blockmap.c).
-- The entries are functions of their offset on the disk. What the code calls is a parameter: the
-- error number of `hammer_bread` for an offset, and `crc32` of the fields before an entry's own CRC.
-- The lock `blkmap_lock` is held over each change, so that a second look at an entry sees what the
-- first one saw; a number of bytes is not negative.
pub mod Block
pub mod Finalize
pub mod Free
pub mod Again
use hammer_linux.Base.{
  ℕ, ◌+◌, ◌-◌, ◌*◌, ◌/◌, ◌%◌, bit_and, bit_or, Bool, true, false, not, Option, none, some, ltb, leb,
  ◌==◌, ◌&&◌, if◌then◌else◌,
}
use hammer_linux.Base.Outcome.{Outcome, done, fail, panic, ◌>>=◌, ◌>>◌, kkassert}
use hammer_linux.Disk.{zone_decode, layer1_offset, layer2_offset, largeblock_size}
use hammer_linux.Blockmap.Reserve.{Reserve, Reservations, find, put, hammer_reserve_setdelay}

-- struct hammer_blockmap_layer1
pub record Layer1 : Type 0 where
  pub blocks_free : ℕ
  pub phys_offset : ℕ
  pub reserved01 : ℕ
  pub layer2_crc : ℕ
  pub layer1_crc : ℕ

-- struct hammer_blockmap_layer2
pub record Layer2 : Type 0 where
  pub zone : ℕ
  pub unused01 : ℕ
  pub unused02 : ℕ
  pub append_off : ℕ
  pub bytes_free : ℕ
  pub entry_crc : ℕ

-- What the code calls.
pub record Calls : Type 0 where
  pub bread : ℕ → ℕ
  pub crc1 : (blocks_free phys_offset reserved01 layer2_crc : ℕ) → ℕ
  pub crc2 : (zone unused01 unused02 append_off bytes_free : ℕ) → ℕ

-- `phys_offset` is that of the zone of the freemap; the two counts are `vol0_stat_freebigblocks` and
-- `copy_stat_freebigblocks`.
pub record Freemap : Type 0 where
  pub phys_offset : ℕ
  pub layer1 : ℕ → Layer1
  pub layer2 : ℕ → Layer2
  pub stat_freebigblocks : ℕ
  pub copy_stat_freebigblocks : ℕ
  pub reservations : Reservations

abbrev pub write {ℓ} : {A : Type ℓ} → (ℕ → A) → ℕ → A → ℕ → A
write f at v x = if x == at then v else f x

abbrev pub plus : ℕ → ℕ → ℕ
plus a b = (a + b) % 0x10000000000000000

abbrev pub less_one : ℕ → ℕ
less_one a = (a + 0xffffffffffffffff) % 0x10000000000000000

-- bytes = (bytes + 15) & ~15
abbrev pub align16 : ℕ → ℕ
align16 bytes = (bytes + 15) / 16 * 16

-- HAMMER_XBUFSIZE
abbrev pub xbufsize : ℕ
xbufsize = 65536

-- HAMMER_BLOCKMAP_UNAVAIL
abbrev pub unavail : ℕ
unavail = 0xffffffffffffffff

-- The zone-2 address of a zone offset.
unfoldable pub to_raw_buffer : ℕ → ℕ
to_raw_buffer zone_offset = bit_or 0x2000000000000000 (bit_and zone_offset 0x0fffffffffffffff)

-- The zone-2 address of the big-block that holds a zone offset.
pub to_base_off : ℕ → ℕ
to_base_off zone_offset = bit_or 0x2000000000000000 (bit_and zone_offset 0x0fffffffff800000)

-- HAMMER_ZONE_BTREE_INDEX and HAMMER_MAX_ZONES
abbrev pub good_zone : ℕ → Bool
good_zone zone = leb 8 zone && ltb zone 16

-- Where the entries of the two layers stand.
pub layer1_at : Freemap → ℕ → ℕ
layer1_at f zone_offset = plus f.phys_offset (layer1_offset zone_offset)

pub layer2_at : Freemap → ℕ → ℕ
unfolding layer1_at
layer2_at f zone_offset =
    plus (f.layer1 (layer1_at f zone_offset)).phys_offset (layer2_offset zone_offset)

module _ (calls : Calls) where
  abbrev pub seal1 : Layer1 → Layer1
  seal1 l = record l {
    layer1_crc = calls.crc1 l.blocks_free l.phys_offset l.reserved01 l.layer2_crc;
  }

  abbrev pub seal2 : Layer2 → Layer2
  seal2 l = record l {
    entry_crc = calls.crc2 l.zone l.unused01 l.unused02 l.append_off l.bytes_free;
  }

  -- A CRC that does not match is a panic.
  abbrev pub sealed1 : Layer1 → Bool
  sealed1 l = l.layer1_crc == (seal1 l).layer1_crc

  abbrev pub sealed2 : Layer2 → Bool
  sealed2 l = l.entry_crc == (seal2 l).entry_crc

  -- hammer_bread
  abbrev pub read : ℕ → Outcome (Unit {0})
  read at = if calls.bread at == 0 then done tt else fail (calls.bread at)

  -- "Dive layer 1" and "Dive layer 2".
  pub dive : Freemap → ℕ → Outcome (Unit {0})
  unfolding layer1_at layer2_at
  dive f zone_offset = do
    read (layer1_at f zone_offset)
    let l1 = f.layer1 (layer1_at f zone_offset)
    kkassert (not (l1.phys_offset == 0) && not (l1.phys_offset == unavail))
    kkassert (sealed1 l1)
    read (layer2_at f zone_offset)
    kkassert (sealed2 (f.layer2 (layer2_at f zone_offset)))

  -- A big-block that is entirely free gives up its zone, behind a reservation.
  pub release : Freemap → ℕ → Layer2 → Freemap
  unfolding layer1_at layer2_at to_base_off
  release f zone_offset l2 =
      let at1 = layer1_at f zone_offset in
      let l1 = f.layer1 at1 in
      if l2.bytes_free == largeblock_size
      then record f {
        layer1 = write f.layer1 at1 (seal1 (record l1 { blocks_free = plus l1.blocks_free 1 }));
        layer2 =
            write f.layer2 (layer2_at f zone_offset)
              (seal2 (record l2 { zone = 0; append_off = 0 }));
        stat_freebigblocks = plus f.stat_freebigblocks 1;
        copy_stat_freebigblocks = plus f.stat_freebigblocks 1;
        reservations =
            hammer_reserve_setdelay f.reservations (to_base_off zone_offset) l2.bytes_free;
      }
      else record f { layer2 = write f.layer2 (layer2_at f zone_offset) (seal2 l2) }

  -- Past the dive.
  pub free_in : Freemap → (zone_offset bytes : ℕ) → Outcome Freemap
  unfolding release layer2_at
  free_in f zone_offset bytes = do
    let l2 = f.layer2 (layer2_at f zone_offset)
    kkassert (l2.zone == zone_decode zone_offset)
    let freed = (l2.bytes_free + bytes) % 0x100000000
    kkassert (leb freed largeblock_size)
    done (release f zone_offset (record l2 { bytes_free = freed }))

  -- An error of the dive is not returned.
  abbrev pub unless_error : Outcome (Unit {0}) → Freemap → Outcome Freemap → Outcome Freemap
  unless_error (done _) f o = o
  unless_error (fail e) f o = done f
  unless_error panic f o = panic

  pub hammer_blockmap_free : Freemap → (zone_offset bytes : ℕ) → Outcome Freemap
  unfolding dive free_in
  hammer_blockmap_free f zone_offset bytes =
      let n = align16 bytes in
      if bytes == 0 then done f else do
        kkassert (leb n xbufsize)
        kkassert (zone_offset / largeblock_size == (zone_offset + (n - 1)) / largeblock_size)
        kkassert (good_zone (zone_decode zone_offset))
        unless_error (dive f zone_offset) f (free_in f zone_offset n)

  -- A big-block without a zone takes that of the offset.
  pub claim : Freemap → ℕ → Outcome Freemap
  unfolding layer1_at layer2_at
  claim f zone_offset =
      let at1 = layer1_at f zone_offset in
      let at2 = layer2_at f zone_offset in
      let l1 = f.layer1 at1 in
      let l2 = f.layer2 at2 in
      if l2.zone == 0
      then kkassert (l2.bytes_free == largeblock_size)
        >> kkassert (l2.append_off == 0)
        >> done (record f {
          layer1 = write f.layer1 at1 (seal1 (record l1 { blocks_free = less_one l1.blocks_free }));
          layer2 = write f.layer2 at2 (record l2 { zone = zone_decode zone_offset });
          stat_freebigblocks = less_one f.stat_freebigblocks;
          copy_stat_freebigblocks = less_one f.stat_freebigblocks;
        })
      else done f

  -- `resv->flags &= ~HAMMER_RESF_LAYER2FREE`, if there is a reservation.
  abbrev pub not_free : Option Reserve → Reservations → Reservations
  not_free none h = h
  not_free (some resv) h = record h {
    rb_resv_root = put (record resv { layer2free = false }) h.rb_resv_root;
  }

  -- The bytes taken, and `append_off` moved to the highest offset that is allocated.
  abbrev pub taken : Layer2 → (offset bytes : ℕ) → Layer2
  taken l2 offset bytes = seal2 (record l2 {
    bytes_free = (l2.bytes_free + 0x100000000 - bytes) % 0x100000000;
    append_off = if ltb l2.append_off offset then offset else l2.append_off;
  })

  pub take_bytes : Freemap → Option Reserve → (zone_offset bytes : ℕ) → Freemap
  unfolding layer2_at put
  take_bytes f resv zone_offset bytes =
      let at2 = layer2_at f zone_offset in
      record f {
        layer2 =
            write f.layer2 at2 (taken (f.layer2 at2) (zone_offset % largeblock_size + bytes) bytes);
        reservations = not_free resv f.reservations;
      }

  pub hammer_blockmap_finalize :
      Freemap → Option Reserve → (zone_offset bytes : ℕ) → Outcome Freemap
  unfolding dive claim take_bytes layer2_at
  hammer_blockmap_finalize f resv zone_offset bytes =
      let n = align16 bytes in
      if bytes == 0 then done f else do
        kkassert (leb n xbufsize)
        kkassert (good_zone (zone_decode zone_offset))
        dive f zone_offset
        g ← claim f zone_offset
        kkassert ((g.layer2 (layer2_at g zone_offset)).zone == zone_decode zone_offset)
        done (take_bytes g resv zone_offset n)
