-- ===== src/Recover/Tails.antt =====
-- Which tails recovery takes.
use hammer_linux.Base.{
  ℕ, ◌+◌, ◌-◌, ◌/◌, ◌%◌, ◌≤◌, ◌≡◌, ◌↔◌, refl, arith, Bool-cases, inl, inr, ◌==◌,
}
use hammer_linux.Undo.Fifo.{bufsize, LogRecord, pad, undo}
use hammer_linux.Recover.{
  Tail, head_signature, tail_signature, type_pad, hammer_check_tail_signature, tail_of, end_of,
}

-- The tail lies in one buffer, its size fits between the start of the buffer and its end, and with
-- the signature of a head it is a padding of 8 bytes.
pub record Accepted (tail : Tail) (end_off : ℕ) : Type 0 where
  pub one_buffer : (end_off - 8) / bufsize ≡ (end_off - 1) / bufsize
  pub head :
      tail.tail_signature ≡ head_signature → (tail.tail_type ≡ type_pad) × (tail.tail_size ≡ 8)
  pub large : 8 ≤ tail.tail_size
  pub small : tail.tail_size ≤ (end_off - 8) % bufsize + 8

-- A tail is taken exactly if it is well placed and of a good size, and, if it has the signature of a
-- head, is the smallest padding; with any other signature no more is asked of it.
pub hammer_check_tail_signature-Accepted :
    (tail : Tail) (end_off : ℕ)
    → (hammer_check_tail_signature tail end_off ≡ 0) ↔ Accepted tail end_off
unfolding hammer_check_tail_signature
hammer_check_tail_signature-Accepted tail end_off = (
  λ h. record {
    one_buffer = ground arith;
    head = λ e. ground arith;
    large = ground arith;
    small = ground arith;
  },
  λ a. ground arith,
)

-- A record with room for its tail, inside one buffer.
abbrev pub InBuffer : LogRecord → Type 0
InBuffer (pad at size) = (8 ≤ size) × (at / bufsize ≡ (at + size - 1) / bufsize)
InBuffer (undo at size undo_offset undo_data_bytes) =
    (8 ≤ size) × (at / bufsize ≡ (at + size - 1) / bufsize)

-- Every record that is laid down inside one buffer passes the test when recovery comes to it from
-- behind.
pub hammer_check_tail_signature-tail_of :
    (r : LogRecord) → InBuffer r → hammer_check_tail_signature (tail_of r) (end_of r) ≡ 0
unfolding tail_of end_of
hammer_check_tail_signature-tail_of (pad at size) h = elim (Bool-cases (size == 8)) [
  | inl e ↦ rw e (
      (hammer_check_tail_signature-Accepted
          (record { tail_signature = head_signature; tail_type = type_pad; tail_size = size })
          (at + size)).1
        (record {
          one_buffer = omega arith;
          head = λ _. (refl, ground arith);
          large = h.0;
          small = omega arith;
        }))
  | inr e ↦ rw e (
      (hammer_check_tail_signature-Accepted
          (record { tail_signature = tail_signature; tail_type = type_pad; tail_size = size })
          (at + size)).1
        (record {
          one_buffer = omega arith;
          head = λ k. absurd (omega arith);
          large = h.0;
          small = omega arith;
        }))
]
hammer_check_tail_signature-tail_of (undo at size o b) h =
    (hammer_check_tail_signature-Accepted (tail_of (undo at size o b)) (at + size)).1 (record {
      one_buffer = omega arith;
      head = λ e. absurd (omega arith);
      large = h.0;
      small = omega arith;
    })
