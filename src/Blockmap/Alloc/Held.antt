-- ===== src/Blockmap/Alloc/Held.antt =====
-- What `hammer_blockmap_reserve` gives: room, and a reservation that holds it.
use hammer_linux.Base.{ℕ, ◌+◌, ◌%◌, ◌≡◌, Option, none, some}
use hammer_linux.Base.Outcome.{Outcome, done, fail, panic}
use hammer_linux.Disk.{largeblock_size}
use hammer_linux.Blockmap.Reserve.{Reserve, find}
use hammer_linux.Blockmap.Reserve.Counts.{AreCounted}
use hammer_linux.Blockmap.Layers.{Freemap, plus, to_base_off}
use hammer_linux.Blockmap.Layers.Block.{entry2}
use hammer_linux.Blockmap.Alloc.{enospc, Allocated, hold}
use hammer_linux.Blockmap.Alloc.Forward.{IsRoom, NoneFree, end_of}
use hammer_linux.Blockmap.Alloc.Room.{start_of}

-- The reservation that holds the bytes; the layers are as before.
pub record IsReserved (f : Freemap) (zone offset n : ℕ) (g : Freemap) : Type 0 where
  pub place : IsRoom f zone n offset
  pub resv : Reserve
  pub found : find (to_base_off offset) g.reservations.rb_resv_root ≡ some resv
  pub ours : resv.zone ≡ zone
  pub ends : resv.append_off ≡ offset % largeblock_size + n
  pub holders :
      (old : Reserve)
      → find (to_base_off offset) f.reservations.rb_resv_root ≡ some old
      → resv.refs ≡ old.refs + 1
  pub first_holder : find (to_base_off offset) f.reservations.rb_resv_root ≡ none → resv.refs ≡ 1
  pub counted : AreCounted f.reservations → AreCounted g.reservations
  pub same_layers :
      (entry2 g offset ≡ entry2 f offset) × (g.stat_freebigblocks ≡ f.stat_freebigblocks)

abbrev pub Reserves : Freemap → (zone n : ℕ) → Outcome Allocated → Type 0
Reserves f zone n (done (g, next, offset)) = (next ≡ plus offset n) × IsReserved f zone offset n g
Reserves f zone n (fail error) = (error ≡ enospc) × NoneFree f (start_of zone) (end_of zone)
Reserves f zone n panic = ⊥

module _ (f : Freemap) (zone offset n : ℕ) (place : IsRoom f zone n offset) where
  abbrev base_off : ℕ
  base_off = to_base_off offset

  abbrev after : Option Reserve → Freemap
  after o = record f {
    reservations =
        hold zone base_off (offset % largeblock_size) n (entry2 f offset).bytes_free o
          f.reservations;
  }
