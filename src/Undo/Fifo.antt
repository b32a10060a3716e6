-- ===== src/Undo/Fifo.antt =====
-- The space of the UNDO FIFO, and the records that `hammer_generate_undo` lays down
-- (dfly/vfs/hammer/hammer_undo.c).
-- An offset is a 64-bit word, and the differences that the source takes as `int64_t` are patterns of
-- two's complement. The buffers of the FIFO enter as a function that gives, for an offset, the error
-- number of `hammer_bread` and `hammer_bnew`; the locks and the contents of the records, which are
-- copied to the buffer, are left out: a record is its place, its size and what it undoes.
pub mod Space
pub mod Generate
use hammer_linux.Base.{
  ℕ, zero, suc, ◌+◌, ◌-◌, ◌*◌, ◌/◌, ◌%◌, bit_and, Bool, true, false, not, List, [], ◌∷◌, ◌++◌, leb,
  ltb, ◌==◌, if◌then◌else◌,
}
use hammer_linux.Base.Outcome.{Outcome, done, fail, panic, ◌>>=◌, ◌>>◌, kkassert}
use hammer_linux.Btree.Elm.{signed}
use hammer_linux.Undo.History.{UndoHistory, hammer_enter_undo_history, e_already}

-- HAMMER_ZONE_ENCODE(HAMMER_ZONE_UNDO_INDEX, 0)
abbrev pub zone_undo : ℕ
zone_undo = 0x3000000000000000

-- HAMMER_OFF_SHORT_MASK and HAMMER_OFF_LONG_MASK
abbrev pub short_mask : ℕ
short_mask = 0x000fffffffffffff

abbrev pub long_mask : ℕ
long_mask = 0x0fffffffffffffff

-- HAMMER_BUFSIZE
abbrev pub bufsize : ℕ
bufsize = 16384

-- `first_offset` is that of the volume header, the others those of the mount.
pub record UndoMap : Type 0 where
  pub first_offset : ℕ
  pub next_offset : ℕ
  pub alloc_offset : ℕ

abbrev pub minus : ℕ → ℕ → ℕ
minus a b = (a + 0x10000000000000000 - b) % 0x10000000000000000

pub hammer_undo_max : UndoMap → ℕ
hammer_undo_max m = bit_and m.alloc_offset short_mask

pub hammer_undo_used : UndoMap → Outcome ℕ
unfolding hammer_undo_max
hammer_undo_used m =
    let bytes =
      if leb m.first_offset m.next_offset
      then minus m.next_offset m.first_offset
      else (minus m.alloc_offset m.first_offset + bit_and m.next_offset long_mask)
        % 0x10000000000000000 in
    do kkassert (leb (signed bytes) (signed (bit_and m.alloc_offset short_mask))); done bytes

pub hammer_undo_space : UndoMap → Outcome ℕ
hammer_undo_space m = do
  used ← hammer_undo_used m
  done (minus (bit_and m.alloc_offset short_mask) used)

pub data LogRecord : Type 0 where
  pad : (at size : ℕ) → LogRecord
  undo : (at size : ℕ) (undo_offset undo_data_bytes : ℕ) → LogRecord

pub record UndoLog : Type 0 where
  pub history : UndoHistory
  pub undomap : UndoMap
  pub log : List LogRecord

pub data Generated : Type 0 where
  returned : UndoLog → (error : ℕ) → Generated
  panicked : Generated
  out_of_fuel : Generated

-- The data aligned to 8 bytes, with the head and the tail of the record.
abbrev pub undo_bytes : ℕ → ℕ
undo_bytes len = (len + 7) / 8 * 8 + 32 + 8

-- (a ^ b) & ~HAMMER_BUFMASK64
abbrev pub crosses : ℕ → ℕ → Bool
crosses a b = not (a / bufsize == b / bufsize)

-- Wrap next_offset.
abbrev pub wrap : UndoMap → UndoMap
wrap m = if m.next_offset == m.alloc_offset then record m { next_offset = zone_undo } else m

pub has_space : UndoMap → ℕ → Outcome (Unit {0})
has_space m bytes = do
  space ← hammer_undo_space m
  kkassert (not (ltb (signed space) (signed (bytes + bufsize * 2))))

abbrev pub is_done : Outcome (Unit {0}) → Bool
is_done (done _) = true
is_done (fail e) = false
is_done panic = false

-- From the label `again` on.
pub emit : ℕ → (bread : ℕ → ℕ) → UndoLog → (zone_off len : ℕ) → Generated
emit zero bread s zone_off len = out_of_fuel
emit (suc fuel) bread s zone_off len =
    let bytes = undo_bytes len in
    let m = wrap s.undomap in
    let next = m.next_offset in
    let size = bufsize - next % bufsize in
    let again =
      emit fuel bread
        (record s {
          undomap = record m { next_offset = next + size };
          log = s.log ++ pad next size ∷ [];
        })
        zone_off len in
    if not (is_done (has_space s.undomap bytes))
    then panicked
    else if not (bread next == 0)
    then returned (record s { undomap = m }) (bread next)
    else if crosses next (next + bytes)
    then again
    else returned
        (record s {
          undomap = record m { next_offset = next + bytes };
          log = s.log ++ undo next bytes zone_off len ∷ [];
        })
        0

-- One padding at most comes before the record, so that two rounds are enough.
pub hammer_generate_undo : (bread : ℕ → ℕ) → UndoLog → (zone_off len : ℕ) → Generated
unfolding emit
hammer_generate_undo bread s zone_off len =
    let (history, error) = hammer_enter_undo_history s.history zone_off len in
    if error == e_already
    then returned (record s { history = history }) 0
    else emit 2 bread (record s { history = history }) zone_off len
