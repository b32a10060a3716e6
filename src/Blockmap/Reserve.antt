-- ===== src/Blockmap/Reserve.antt =====
-- Reservations of big-blocks: `hammer_blockmap_reserve_complete`, `hammer_reserve_setdelay` and
-- `hammer_reserve_clrdelay` (dfly/vfs/hammer/hammer_blockmap.c).
-- The reservations stand in a red-black tree by `zone_offset`, and those on delay also in a list.
-- The model keeps the reservations in a list, looked up by `zone_offset`, and the delay list as the
-- list of their offsets. A structure that is freed leaves the list. The buffer cache is not modelled:
-- the calls of `hammer_del_buffers` are recorded in their order, and its assertions on the volume and on
-- the buffers that it finds are left out.
pub mod Counts
pub mod Complete
pub mod Delay
use hammer_linux.Base.{
  ℕ, suc, ◌+◌, ◌-◌, ◌*◌, ◌/◌, ◌%◌, Bool, true, false, not, Option, none, some, List, [], ◌∷◌, ◌++◌,
  ltb, bit_and, ◌==◌, ◌&&◌, if◌then◌else◌,
}
use hammer_linux.Base.Outcome.{Outcome, done, fail, panic, ◌>>=◌, ◌>>◌, kkassert}
use hammer_linux.Disk.{zone_decode, zone_encode, largeblock_size}

-- `on_delay` and `layer2free` are HAMMER_RESF_ONDELAY and HAMMER_RESF_LAYER2FREE.
pub record Reserve : Type 0 where
  pub flush_group : ℕ
  pub on_delay : Bool
  pub layer2free : Bool
  pub refs : ℕ
  pub zone : ℕ
  pub append_off : ℕ
  pub zone_offset : ℕ

-- A call of `hammer_del_buffers`.
pub record Deleted : Type 0 where
  pub base_offset : ℕ
  pub zone2_offset : ℕ
  pub bytes : ℕ

pub record Reservations : Type 0 where
  pub rb_resv_root : List Reserve
  pub delay_list : List ℕ
  pub rsv_fromdelay : ℕ
  pub count_reservations : ℕ
  pub flusher_next : ℕ
  pub deleted : List Deleted

-- RB_LOOKUP
unfoldable pub find : ℕ → List Reserve → Option Reserve
find off [] = none
find off (r ∷ rs) = if r.zone_offset == off then some r else find off rs

-- Writes a reservation back in its place.
unfoldable pub put : Reserve → List Reserve → List Reserve
put r [] = []
put r (s ∷ rs) = if s.zone_offset == r.zone_offset then r ∷ rs else s ∷ put r rs

-- RB_REMOVE
pub take_off : ℕ → List Reserve → List Reserve
take_off off [] = []
take_off off (r ∷ rs) = if r.zone_offset == off then rs else r ∷ take_off off rs

-- TAILQ_REMOVE
pub unlist : ℕ → List ℕ → List ℕ
unlist off [] = []
unlist off (o ∷ os) = if o == off then os else o ∷ unlist off os

-- What the last holder of a reservation of a free big-block does: it stops new allocations, and
-- deletes buffers. The source calls HAMMER_ZONE_ENCODE with the offset in the place of the zone.
dispose : Reservations → Reserve → Reservations × Reserve
dispose h resv =
    if resv.refs == 1 && resv.layer2free
    then (
      record h {
        deleted =
            h.deleted
            ++ record {
              base_offset = zone_encode (bit_and resv.zone_offset 0xdfffffffffffffff) resv.zone;
              zone2_offset = resv.zone_offset;
              bytes = largeblock_size;
            }
              ∷ [];
      },
      record resv { append_off = largeblock_size; layer2free = false },
    )
    else (h, resv)

-- What is done with a reservation after its `refs` have gone down.
unref : Reservations → Reserve → Outcome Reservations
unfolding put take_off
unref h resv =
    if resv.refs == 0
    then kkassert (not resv.on_delay)
      >> done (record h {
        rb_resv_root = take_off resv.zone_offset h.rb_resv_root;
        count_reservations = h.count_reservations - 1;
      })
    else done (record h { rb_resv_root = put resv h.rb_resv_root })

pub hammer_blockmap_reserve_complete : Reservations → Reserve → Outcome Reservations
unfolding dispose unref
hammer_blockmap_reserve_complete h resv = do
  kkassert (ltb 0 resv.refs)
  kkassert (zone_decode resv.zone_offset == 2)
  let disposed = dispose h resv
  unref disposed.0 (record disposed.1 { refs = resv.refs - 1 })

abbrev pub new_reserve : (base_offset bytes_free : ℕ) → Reserve
new_reserve base_offset bytes_free = record {
  flush_group = 0;
  on_delay = false;
  layer2free = bytes_free == largeblock_size;
  refs = 0;
  zone = 0;
  append_off = 0;
  zone_offset = base_offset;
}

-- The reservation at an offset, made where there is none.
found_or_new : Reservations → (base_offset bytes_free : ℕ) → Reservations × Reserve
unfolding find
found_or_new h base_offset bytes_free = elim (find base_offset h.rb_resv_root) [
  | some resv ↦ (h, resv)
  | none ↦
      ((
        record h {
          rb_resv_root = new_reserve base_offset bytes_free ∷ h.rb_resv_root;
          count_reservations = h.count_reservations + 1;
        },
        new_reserve base_offset bytes_free,
      ))
]

-- Enters a reservation on the delay list, or moves it to its end.
enter_delay : Reservations → Reserve → Reservations
unfolding put unlist
enter_delay h resv =
    if resv.on_delay
    then record h {
      rb_resv_root = put (record resv { flush_group = h.flusher_next + 1 }) h.rb_resv_root;
      delay_list = unlist resv.zone_offset h.delay_list ++ resv.zone_offset ∷ [];
    }
    else record h {
      rb_resv_root =
          put
            (record resv {
              refs = resv.refs + 1;
              on_delay = true;
              flush_group = h.flusher_next + 1;
            })
            h.rb_resv_root;
      rsv_fromdelay = h.rsv_fromdelay + 1;
      delay_list = h.delay_list ++ resv.zone_offset ∷ [];
    }

pub hammer_reserve_setdelay : Reservations → (base_offset bytes_free : ℕ) → Reservations
unfolding found_or_new enter_delay
hammer_reserve_setdelay h base_offset bytes_free =
    let found = found_or_new h base_offset bytes_free in enter_delay found.0 found.1

pub hammer_reserve_clrdelay : Reservations → Reserve → Outcome Reservations
unfolding put unlist hammer_blockmap_reserve_complete
hammer_reserve_clrdelay h resv = do
  kkassert resv.on_delay
  let resv' : Reserve = record resv { on_delay = false }
  hammer_blockmap_reserve_complete
      (record h {
        rb_resv_root = put resv' h.rb_resv_root;
        delay_list = unlist resv.zone_offset h.delay_list;
        rsv_fromdelay = h.rsv_fromdelay - 1;
      })
      resv'
