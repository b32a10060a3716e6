-- ===== src/Recover/Records/Checked.antt =====
-- Which records pass the checks.
use hammer_linux.Base.{ℕ, ◌+◌, ◌≤◌, ◌≡◌, ◌↔◌, refl, arith}
use hammer_linux.Undo.Fifo.{undo_bytes, undo}
use hammer_linux.Recover.{Tail, head_signature, type_undo, tail_of}
use hammer_linux.Recover.Records.{Head, apply, check_record, head_for}

-- A record of undo data with its CRC, which lies in the bytes that are left, has room for its data, and ends
-- with a tail of the same type and size.
pub record IsUndo (crc : ℕ) (head : Head) (tail : Tail) (bytes : ℕ) : Type 0 where
  pub signature : head.hdr_signature ≡ head_signature
  pub kind : head.hdr_type ≡ type_undo
  pub sealed : head.hdr_crc ≡ crc
  pub inside : head.hdr_size ≤ bytes
  pub room : head.undo_data_bytes + 40 ≤ head.hdr_size
  pub same_size : tail.tail_size ≡ head.hdr_size
  pub same_type : tail.tail_type ≡ head.hdr_type

-- These checks let through exactly the records of undo data that are whole (their place is checked
-- after that).
pub check_record-IsUndo :
    (crc : ℕ) (head : Head) (tail : Tail) (bytes : ℕ)
    → (check_record crc head tail bytes ≡ apply) ↔ IsUndo crc head tail bytes
unfolding check_record
check_record-IsUndo crc head tail bytes = (
  λ h. record {
    signature = ground arith;
    kind = ground arith;
    sealed = ground arith;
    inside = ground arith;
    room = ground arith;
    same_size = ground arith;
    same_type = ground arith;
  },
  λ u. ground arith,
)

-- A record as it is laid down for undo data passes these checks, if the bytes that are left hold it.
pub check_record-head_for :
    (crc at len zone_off bytes : ℕ)
    → undo_bytes len ≤ bytes
    → check_record crc (head_for crc len) (tail_of (undo at (undo_bytes len) zone_off len)) bytes
      ≡ apply
unfolding head_for tail_of
check_record-head_for crc at len zone_off bytes h =
    (check_record-IsUndo crc (head_for crc len) (tail_of (undo at (undo_bytes len) zone_off len))
        bytes).1
      (record {
        signature = refl;
        kind = refl;
        sealed = refl;
        inside = h;
        room = omega arith;
        same_size = refl;
        same_type = refl;
      })
