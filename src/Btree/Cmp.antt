-- ===== src/Btree/Cmp.antt =====
-- `hammer_btree_cmp` and `hammer_btree_chkts` (dfly/vfs/hammer/hammer_btree.c).
use hammer_linux.Base.{
  ℕ, zero, suc, ◌+◌, ◌*◌, ◌≤◌, ◌<◌, ◌≡◌, ◌↔◌, ◌⊎◌, inl, inr, ltb, ◌==◌, if◌then◌else◌, arith, not,
  ◌&&◌, leb,
}
use hammer_linux.Base.Int.{ℤ, pos, negsuc, neg, ◌≤ℤ◌, ◌<ℤ◌}
use hammer_linux.Btree.Elm.{BaseElm, IsBase, signed}

-- A `create_tid` of zero stands for infinity.
abbrev create_cmp : ℕ → ℕ → ℤ
create_cmp t u =
    if t == 0
    then (if u == 0 then pos 0 else pos 1)
    else if u == 0
    then negsuc 0
    else if ltb t u
    then negsuc 0
    else if ltb u t
    then pos 1
    else pos 0

unfoldable pub hammer_btree_cmp : BaseElm → BaseElm → ℤ
hammer_btree_cmp key1 key2 =
    if ltb key1.localization key2.localization
    then negsuc 4
    else if ltb key2.localization key1.localization
    then pos 5
    else if ltb (signed key1.obj_id) (signed key2.obj_id)
    then negsuc 3
    else if ltb (signed key2.obj_id) (signed key1.obj_id)
    then pos 4
    else if ltb key1.rec_type key2.rec_type
    then negsuc 2
    else if ltb key2.rec_type key1.rec_type
    then pos 3
    else if ltb (signed key1.key) (signed key2.key)
    then negsuc 1
    else if ltb (signed key2.key) (signed key1.key)
    then pos 2
    else create_cmp key1.create_tid key2.create_tid

-- The order of the keys as an order of numbers: the fields that are compared, most significant
-- first, without and with `create_tid`.
abbrev pub match_rank : BaseElm → ℕ
match_rank b =
    ((b.localization * 0x10000000000000000 + signed b.obj_id) * 0x10000 + b.rec_type)
      * 0x10000000000000000
    + signed b.key

abbrev pub tid_rank : ℕ → ℕ
tid_rank t = if t == 0 then 0x10000000000000000 else t

abbrev pub rank : BaseElm → ℕ
rank b = match_rank b * 0x10000000000000001 + tid_rank b.create_tid

-- Below -1 and above 1 the result orders the keys without `create_tid`.
cmp_below :
    (a b : BaseElm)
    → IsBase a
    → IsBase b
    → match_rank a < match_rank b
    → hammer_btree_cmp a b ≤ℤ negsuc 1
unfolding hammer_btree_cmp
cmp_below a b p q h = ground arith

pub hammer_btree_cmp-neg : (a b : BaseElm) → hammer_btree_cmp b a ≡ neg (hammer_btree_cmp a b)
unfolding hammer_btree_cmp
hammer_btree_cmp-neg a b = ground arith

cmp_matching :
    (a b : BaseElm)
    → IsBase a
    → IsBase b
    → match_rank a ≡ match_rank b
    → hammer_btree_cmp a b ≡ create_cmp a.create_tid b.create_tid
unfolding hammer_btree_cmp
cmp_matching a b p q h = ground arith

create_cmp_rank :
    (t u : ℕ)
    → t < 0x10000000000000000
    → u < 0x10000000000000000
    → ((create_cmp t u <ℤ pos 0) ↔ (tid_rank t < tid_rank u))
      × ((create_cmp t u ≤ℤ pos 0) ↔ (tid_rank t ≤ tid_rank u))
      × (tid_rank t ≤ 0x10000000000000000)
      × (tid_rank u ≤ 0x10000000000000000)
create_cmp_rank t u p q = ground arith

pub lt_or_eq_or_gt : (m n : ℕ) → (m < n) ⊎ (m ≡ n) ⊎ (n < m)
lt_or_eq_or_gt m n = ground arith

flip_order : {P : Type 0} (c : ℤ) → (neg c <ℤ pos 0) ↔ P → (pos 0 <ℤ c) ↔ P
flip_order (pos zero) h = (λ k. h.0 (omega arith), λ x. omega (arith, h.1 x))
flip_order (pos (suc n)) h = (λ k. h.0 (omega arith), λ x. omega (arith, h.1 x))
flip_order (negsuc n) h = (λ k. h.0 (omega arith), λ x. omega (arith, h.1 x))

at_most : (c : ℤ) → ¬ (pos 0 <ℤ c) → c ≤ℤ pos 0
at_most c h = omega arith

neg_bound : (c : ℤ) → neg c ≤ℤ negsuc 1 → pos 2 ≤ℤ c
neg_bound c h = ground arith

cmp_above :
    (a b : BaseElm)
    → IsBase a
    → IsBase b
    → match_rank b < match_rank a
    → pos 2 ≤ℤ hammer_btree_cmp a b
cmp_above a b p q h =
    neg_bound (hammer_btree_cmp a b) (rw (← hammer_btree_cmp-neg a b) (cmp_below b a q p h))

-- What the sign of the result says of two keys.
abbrev Orders : ℤ → (m n t u : ℕ) → Type 0
Orders c m n t u = (c <ℤ pos 0) ↔ (m * 0x10000000000000001 + t < n * 0x10000000000000001 + u)

cmp-Orders :
    (c : ℤ) (m n t u : ℕ)
    → t ≤ 0x10000000000000000
    → u ≤ 0x10000000000000000
    → (m < n → c ≤ℤ negsuc 1)
    → (n < m → pos 2 ≤ℤ c)
    → (m ≡ n → (c <ℤ pos 0) ↔ (t < u))
    → Orders c m n t u
cmp-Orders c m n t u p q below above same = elim (lt_or_eq_or_gt m n) [
  | inl h ↦ omega (arith, below h)
  | inr (inl e) ↦ (λ k. omega (arith, (same e).0 k), λ k. omega (arith, (same e).1 (omega arith)))
  | inr (inr h) ↦ omega (arith, above h)
]

pub cmp-lt_rank :
    (a b : BaseElm) → IsBase a → IsBase b → (hammer_btree_cmp a b <ℤ pos 0) ↔ (rank a < rank b)
cmp-lt_rank a b p q =
    let bounds = create_cmp_rank a.create_tid b.create_tid p.create_word q.create_word in
    cmp-Orders (hammer_btree_cmp a b) (match_rank a) (match_rank b) (tid_rank a.create_tid)
      (tid_rank b.create_tid) bounds.2 bounds.3 (cmp_below a b p q) (cmp_above a b p q)
      (λ e. rw (cmp_matching a b p q e) bounds.0)

pub cmp-le_one :
    (a b : BaseElm)
    → IsBase a
    → IsBase b
    → (hammer_btree_cmp a b ≤ℤ pos 1) ↔ (match_rank a ≤ match_rank b)
unfolding hammer_btree_cmp
cmp-le_one a b p q = ground arith

at_least : (c : ℤ) → c ≡ pos 1 → ¬ (c ≤ℤ negsuc 1)
at_least c e h = ground arith

one_le : (c : ℤ) → c ≡ pos 1 → c ≤ℤ pos 1
one_le c e = ground arith

-- At 1 the keys differ by `create_tid` only.
pub cmp-one :
    (a b : BaseElm)
    → IsBase a
    → IsBase b
    → hammer_btree_cmp a b ≡ pos 1
    → match_rank a ≡ match_rank b
cmp-one a b p q e = elim (lt_or_eq_or_gt (match_rank a) (match_rank b)) [
  | inl h ↦ absurd (at_least _ e (cmp_below a b p q h))
  | inr (inl same) ↦ same
  | inr (inr h) ↦ absurd (omega (arith, (cmp-le_one a b p q).0 (one_le _ e)))
]

-- For two keys within the ranges of the C types, the sign of `hammer_btree_cmp` is the order of
-- `rank`: it is below zero exactly if the first key is the smaller, and above zero exactly if it is
-- the larger.
pub hammer_btree_cmp_order :
    (a b : BaseElm)
    → IsBase a
    → IsBase b
    → ((hammer_btree_cmp a b <ℤ pos 0) ↔ (rank a < rank b))
      × ((pos 0 <ℤ hammer_btree_cmp a b) ↔ (rank b < rank a))
hammer_btree_cmp_order a b p q = (
  cmp-lt_rank a b p q,
  flip_order (hammer_btree_cmp a b) (rw (← hammer_btree_cmp-neg a b) (cmp-lt_rank b a q p)),
)

complement : (c : ℤ) (m n : ℕ) → (pos 0 <ℤ c) ↔ (n < m) → (c ≤ℤ pos 0) ↔ (m ≤ n)
complement c m n h = elim (lt_or_eq_or_gt n m) [
  | inl l ↦ (λ k. absurd (omega (arith, h.1 l)), λ k. absurd (omega arith))
  | inr g ↦ (λ k. omega arith, λ k. at_most c (λ l. absurd (omega (arith, h.0 l))))
]

pub cmp-le_rank :
    (a b : BaseElm) → IsBase a → IsBase b → (hammer_btree_cmp a b ≤ℤ pos 0) ↔ (rank a ≤ rank b)
cmp-le_rank a b p q = complement _ _ _ (hammer_btree_cmp_order a b p q).1

rank_fields :
    (m n t u : ℕ)
    → t ≤ 0x10000000000000000
    → u ≤ 0x10000000000000000
    → m * 0x10000000000000001 + t ≤ n * 0x10000000000000001 + u
    → m ≤ n
rank_fields m n t u p q h = omega arith

pub nonneg : (c : ℤ) → ¬ (c <ℤ pos 0) → pos 0 ≤ℤ c
nonneg c h = omega arith

pub cmp-ge_rank :
    (a b : BaseElm) → IsBase a → IsBase b → rank b ≤ rank a → pos 0 ≤ℤ hammer_btree_cmp a b
cmp-ge_rank a b p q h = nonneg _ (λ k. absurd (omega (arith, (cmp-lt_rank a b p q).0 k)))

pub match_rank-le :
    (a b : BaseElm) → IsBase a → IsBase b → rank a ≤ rank b → match_rank a ≤ match_rank b
match_rank-le a b p q h =
    let bounds = create_cmp_rank a.create_tid b.create_tid p.create_word q.create_word in
    rank_fields (match_rank a) (match_rank b) (tid_rank a.create_tid) (tid_rank b.create_tid)
      bounds.2 bounds.3 h

-- The result for an as-of timestamp: 0 if the element is visible.
pub hammer_btree_chkts : ℕ → BaseElm → ℤ
hammer_btree_chkts asof base =
    if asof == 0
    then (if base.delete_tid == 0 then pos 0 else pos 1)
    else if ltb asof base.create_tid
    then negsuc 0
    else if not (base.delete_tid == 0) && leb base.delete_tid asof
    then pos 1
    else pos 0

-- An instant, where 0 stands for the end of time.
abbrev pub instant : ℕ → ℕ
instant t = if t == 0 then 0x10000000000000000 else t

-- An element is visible as of a timestamp exactly if it was created no later and deleted
-- afterwards, where an element with no deletion is never deleted and timestamp 0 is the present.
pub hammer_btree_chkts_lem :
    (asof : ℕ) (base : BaseElm)
    → asof < 0x10000000000000000
    → base.create_tid < 0x10000000000000000
    → base.delete_tid < 0x10000000000000000
    → (hammer_btree_chkts asof base ≡ pos 0) ↔ (
        (base.create_tid ≤ instant asof)
        × ((base.delete_tid ≡ 0) ⊎ (instant asof < base.delete_tid)))
unfolding hammer_btree_chkts
hammer_btree_chkts_lem asof base p q r = ground arith
