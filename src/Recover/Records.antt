-- ===== src/Recover/Records.antt =====
-- The checks of a record before recovery applies it: the first part of `hammer_recover_undo`
-- (dfly/vfs/hammer/hammer_recover.c). The CRC of the record is a parameter; the head of a record that
-- is laid down is that of `hammer_generate_undo` (dfly/vfs/hammer/hammer_undo.c).
pub mod Checked
use hammer_linux.Base.{ℕ, ◌+◌, ◌-◌, Bool, not, ltb, ◌==◌, ◌||◌, if◌then◌else◌}
use hammer_linux.Undo.Fifo.{undo_bytes}
use hammer_linux.Recover.{Tail, head_signature, tail_signature, type_pad, type_undo}

-- struct hammer_fifo_head and struct hammer_fifo_undo, which take 16 and 32 bytes.
pub record Head : Type 0 where
  pub hdr_signature : ℕ
  pub hdr_type : ℕ
  pub hdr_size : ℕ
  pub hdr_crc : ℕ
  pub undo_data_bytes : ℕ

-- EIO, or nothing to do, or a record that goes on to be applied.
pub data Verdict : Type 0 where
  bad skip apply : Verdict

-- HAMMER_HEAD_ALIGN
abbrev pub head_align : ℕ
head_align = 8

-- `crc` is the CRC that the record should have, and `tail` what stands at its end; a size for
-- data that is below zero has no place in the model.
pub check_record : (crc : ℕ) → Head → Tail → (bytes : ℕ) → Verdict
check_record crc head tail bytes =
    if ltb bytes head_align
    then bad
    else if not (head.hdr_signature == head_signature)
    then bad
    else if ltb head.hdr_size head_align || ltb bytes head.hdr_size
    then bad
    else if head.hdr_type == type_pad
    then skip
    else if not (head.hdr_crc == crc)
    then bad
    else if not (tail.tail_size == head.hdr_size)
    then bad
    else if not (tail.tail_type == head.hdr_type)
    then bad
    else if not (head.hdr_type == type_undo)
    then skip
    else if ltb head.hdr_size (head.undo_data_bytes + (32 + 8))
    then bad
    else apply

-- The head that is laid down for `len` bytes.
pub head_for : (crc len : ℕ) → Head
head_for crc len = record {
  hdr_signature = head_signature;
  hdr_type = type_undo;
  hdr_size = undo_bytes len;
  hdr_crc = crc;
  undo_data_bytes = len;
}
