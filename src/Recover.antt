-- ===== src/Recover.antt =====
-- The test of a record's tail with which recovery walks the UNDO FIFO backwards,
-- `hammer_check_tail_signature` (dfly/vfs/hammer/hammer_recover.c), and the tails that
-- `hammer_generate_undo` writes (dfly/vfs/hammer/hammer_undo.c).
pub mod Tails
pub mod Records
use hammer_linux.Base.{ℕ, ◌+◌, ◌-◌, ◌/◌, ◌%◌, Bool, not, ltb, ◌==◌, ◌&&◌, ◌||◌, if◌then◌else◌}
use hammer_linux.Undo.Fifo.{bufsize, LogRecord, pad, undo}

-- struct hammer_fifo_tail
pub record Tail : Type 0 where
  pub tail_signature : ℕ
  pub tail_type : ℕ
  pub tail_size : ℕ

-- HAMMER_TAIL_SIGNATURE and HAMMER_HEAD_SIGNATURE
abbrev pub tail_signature : ℕ
tail_signature = 0xc74f

abbrev pub head_signature : ℕ
head_signature = 0xc84e

-- HAMMER_HEAD_TYPE_PAD and HAMMER_HEAD_TYPE_UNDO
abbrev pub type_pad : ℕ
type_pad = 0x8040

abbrev pub type_undo : ℕ
type_undo = 0x0043

-- `end_off` is the offset behind the tail, which has 8 bytes.
pub hammer_check_tail_signature : Tail → (end_off : ℕ) → ℕ
hammer_check_tail_signature tail end_off =
    let max_bytes = (end_off - 8) % bufsize + 8 in
    if not ((end_off - 8) / bufsize == (end_off - 1) / bufsize)
    then 1
    else if tail.tail_signature == head_signature
        && (not (tail.tail_type == type_pad) || not (tail.tail_size == 8))
    then 2
    else if ltb tail.tail_size 8 || ltb max_bytes tail.tail_size
    then 3
    else 0

-- What stands in the last 8 bytes of a record; those of the smallest padding are its head.
unfoldable pub tail_of : LogRecord → Tail
tail_of (pad at size) =
    if size == 8
    then record { tail_signature = head_signature; tail_type = type_pad; tail_size = size }
    else record { tail_signature = tail_signature; tail_type = type_pad; tail_size = size }
tail_of (undo at size undo_offset undo_data_bytes) = record {
  tail_signature = tail_signature;
  tail_type = type_undo;
  tail_size = size;
}

pub end_of : LogRecord → ℕ
end_of (pad at size) = at + size
end_of (undo at size undo_offset undo_data_bytes) = at + size
