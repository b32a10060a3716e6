-- ===== src/Btree/Separator/Fields.antt =====
-- The lexicographic order of five fields as an order of numbers.
use hammer_linux.Base.{ℕ, ◌+◌, ◌*◌, ◌≤◌, ◌<◌, ◌≡◌, arith}

-- The rank from its fields.
abbrev pub fields_rank : (l o r k t : ℕ) → ℕ
fields_rank l o r k t =
    (((l * 0x10000000000000000 + o) * 0x10000 + r) * 0x10000000000000000 + k) * 0x10000000000000001
    + t

abbrev pub Between : (a s b : ℕ) → Type 0
Between a s b = (a < s) × (s ≤ b)

-- The ranges of the lower fields.
pub record Words (o r k t : ℕ) : Type 0 where
  pub o_word : o < 0x10000000000000000
  pub r_word : r < 0x10000
  pub k_word : k < 0x10000000000000000
  pub t_word : t ≤ 0x10000000000000000

module _ {o1 r1 k1 t1 o2 r2 k2 t2 : ℕ} (w1 : Words o1 r1 k1 t1) (w2 : Words o2 r2 k2 t2) where
  pub by_localization :
      (l1 l2 m : ℕ)
      → l1 < m
      → m ≤ l2
      → Between
          (fields_rank l1 o1 r1 k1 t1)
          (fields_rank m o2 r2 k2 t2)
          (fields_rank l2 o2 r2 k2 t2)
  by_localization l1 l2 m p q = omega arith

  pub by_obj_id :
      (l1 l2 l o : ℕ)
      → l1 ≡ l2
      → l ≡ l2
      → o1 < o
      → o ≤ o2
      → Between (fields_rank l1 o1 r1 k1 t1) (fields_rank l o r2 k2 t2) (fields_rank l2 o2 r2 k2 t2)
  by_obj_id l1 l2 l o e1 e2 p q = omega arith

  pub by_rec_type :
      (l1 l2 l o r : ℕ)
      → l1 ≡ l2
      → l ≡ l2
      → o1 ≡ o2
      → o ≡ o2
      → r1 < r
      → r ≤ r2
      → Between (fields_rank l1 o1 r1 k1 t1) (fields_rank l o r k2 t2) (fields_rank l2 o2 r2 k2 t2)
  by_rec_type l1 l2 l o r e1 e2 e3 e4 p q = omega arith

  pub by_key :
      (l1 l2 l o r k : ℕ)
      → l1 ≡ l2
      → l ≡ l2
      → o1 ≡ o2
      → o ≡ o2
      → r1 ≡ r2
      → r ≡ r2
      → k1 < k
      → k ≤ k2
      → Between (fields_rank l1 o1 r1 k1 t1) (fields_rank l o r k t2) (fields_rank l2 o2 r2 k2 t2)
  by_key l1 l2 l o r k e1 e2 e3 e4 e5 e6 p q = omega arith

  -- Where the keys agree in all but `create_tid`, a separator that has the right key's fields.
  pub by_create_tid :
      (l1 l2 l o r k : ℕ)
      → fields_rank l1 o1 r1 k1 t1 < fields_rank l2 o2 r2 k2 t2
      → l ≡ l2
      → o ≡ o2
      → r ≡ r2
      → k ≡ k2
      → Between (fields_rank l1 o1 r1 k1 t1) (fields_rank l o r k t2) (fields_rank l2 o2 r2 k2 t2)
  by_create_tid l1 l2 l o r k h e1 e2 e3 e4 = omega arith

  pub ordered_localization :
      (l1 l2 : ℕ) → fields_rank l1 o1 r1 k1 t1 < fields_rank l2 o2 r2 k2 t2 → l1 ≤ l2
  ordered_localization l1 l2 h = omega arith

  pub ordered_obj_id :
      (l1 l2 : ℕ) → l1 ≡ l2 → fields_rank l1 o1 r1 k1 t1 < fields_rank l2 o2 r2 k2 t2 → o1 ≤ o2
  ordered_obj_id l1 l2 e h = omega arith

  pub ordered_rec_type :
      (l1 l2 : ℕ)
      → l1 ≡ l2
      → o1 ≡ o2
      → fields_rank l1 o1 r1 k1 t1 < fields_rank l2 o2 r2 k2 t2
      → r1 ≤ r2
  ordered_rec_type l1 l2 e f h = omega arith

  pub ordered_key :
      (l1 l2 : ℕ)
      → l1 ≡ l2
      → o1 ≡ o2
      → r1 ≡ r2
      → fields_rank l1 o1 r1 k1 t1 < fields_rank l2 o2 r2 k2 t2
      → k1 ≤ k2
  ordered_key l1 l2 e f g h = omega arith
