-- ===== src/Undo/Fifo/Space.antt =====
-- The FIFO's space, and where its records lie.
use hammer_linux.Base.{
  ℕ, ◌+◌, ◌-◌, ◌*◌, ◌%◌, ◌≤◌, ◌<◌, ◌≡◌, ◌∙◌, bit_and, bit_and-low, arith, if◌then◌else◌, leb,
}
use hammer_linux.Base.Outcome.{done}
use hammer_linux.Undo.Fifo.{
  UndoMap, zone_undo, short_mask, long_mask, bufsize, hammer_undo_used, hammer_undo_space,
  hammer_undo_max, wrap, has_space,
}

-- The FIFO's three offsets, in zone 3, where it has whole big-blocks, and at most 1GB.
pub record IsUndoMap (m : UndoMap) : Type 0 where
  pub first_zone : zone_undo ≤ m.first_offset
  pub next_zone : zone_undo ≤ m.next_offset
  pub first_inside : m.first_offset ≤ m.alloc_offset
  pub nonempty : zone_undo < m.alloc_offset
  pub next_inside : m.next_offset ≤ m.alloc_offset
  pub next_aligned : m.next_offset % 8 ≡ 0
  pub bounded : m.alloc_offset ≤ zone_undo + 0x40000000
  pub whole : m.alloc_offset % 0x800000 ≡ 0

-- What is in use, from the first offset on round the end of the FIFO.
abbrev pub used : UndoMap → ℕ
used m =
    if leb m.first_offset m.next_offset
    then m.next_offset - m.first_offset
    else m.alloc_offset - m.first_offset + (m.next_offset - zone_undo)

abbrev pub capacity : UndoMap → ℕ
capacity m = m.alloc_offset - zone_undo

short_of : (m : UndoMap) → IsUndoMap m → bit_and m.alloc_offset short_mask ≡ capacity m
short_of m ok = bit_and-low 52 m.alloc_offset ∙ omega arith

long_of : (m : UndoMap) → IsUndoMap m → bit_and m.next_offset long_mask ≡ m.next_offset - zone_undo
long_of m ok = bit_and-low 60 m.next_offset ∙ omega arith

used-eq : (m : UndoMap) → IsUndoMap m → hammer_undo_used m ≡ done (used m)
unfolding hammer_undo_used
used-eq m ok = rw (short_of m ok, long_of m ok) (ground arith)

pub used-le : (m : UndoMap) → IsUndoMap m → used m ≤ capacity m
used-le m ok = ground arith

-- In a well formed FIFO the assertion of `hammer_undo_used` holds, and what is in use and what is
-- left make up the FIFO.
pub hammer_undo_space_lem :
    (m : UndoMap)
    → IsUndoMap m
    → (hammer_undo_used m ≡ done (used m))
      × (hammer_undo_space m ≡ done (capacity m - used m))
      × (used m ≤ capacity m)
      × (hammer_undo_max m ≡ capacity m)
unfolding hammer_undo_space hammer_undo_max
hammer_undo_space_lem m ok = (
  used-eq m ok,
  rw (used-eq m ok, short_of m ok) (ground (arith, used-le m ok)),
  used-le m ok,
  short_of m ok,
)

pub has_space_lem :
    (m : UndoMap) (bytes : ℕ)
    → IsUndoMap m
    → bytes + bufsize * 2 ≤ capacity m - used m
    → bytes ≤ bufsize
    → has_space m bytes ≡ done tt
unfolding has_space
has_space_lem m bytes ok h small = rw (hammer_undo_space_lem m ok).1 (ground arith)

pub wrap-IsUndoMap :
    (m : UndoMap) → IsUndoMap m → IsUndoMap (wrap m) × ((wrap m).next_offset < m.alloc_offset)
wrap-IsUndoMap m ok = ground arith

-- Wrapping leaves what is in use as it is, but for a FIFO that is full to its end.
pub wrap-used : (m : UndoMap) → IsUndoMap m → 0 < capacity m - used m → used (wrap m) ≡ used m
wrap-used m ok h = ground arith
