-- ===== src/Btree/Leaf/Insert.antt =====
-- An insertion at the place that a search has found.
use mathlib.Core.Path.{subst}
use hammer_linux.Base.{
  ℕ, ◌+◌, ◌-◌, ◌≤◌, ◌<◌, ◌≡◌, ◌≢◌, refl, sym, ap, ◌∙◌, inl, inr, arith, true, nonzero_test, lt_test,
  length, get_or, set, if◌then◌else◌, ◌==◌, Bool-cases, List,
}
use hammer_linux.Base.Int.{pos, ◌≤ℤ◌, ◌<ℤ◌}
use hammer_linux.Base.Array.{
  bcopy, length-bcopy, bcopy_before, bcopy_inside, length-set, get_or-set_self, get_or-set_ne,
}
use hammer_linux.Base.Outcome.{Returns}
use hammer_linux.Btree.Elm.{BaseElm, BtreeElm, IsBase, NodeOndisk, zero_elm, type_leaf, leaf_elms}
use hammer_linux.Btree.Cmp.{
  hammer_btree_cmp, rank, cmp-lt_rank, lt_or_eq_or_gt, hammer_btree_cmp_order,
}
use hammer_linux.Btree.Search.{base_at, miss}
use hammer_linux.Btree.Search.Shortcut.{IsSorted}
use hammer_linux.Btree.Search.Leaf.{Places}
use hammer_linux.Btree.Leaf.{
  LeafCursor, insert_at, insert_checks, is_leaf, update_mirror_tid, hammer_btree_insert,
}

abbrev pub elm_at : List BtreeElm → ℕ → BtreeElm
elm_at elms i = get_or elms i zero_elm

-- The array after an insertion.
module _ (elms : List BtreeElm) (count i : ℕ) (elm : BtreeElm) (room : count < length elms)
    (inside : i ≤ count) where
  abbrev moved : List BtreeElm
  moved = if i == count then elms else bcopy elms i (i + 1) (count - i)

  length-moved : length moved ≡ length elms
  length-moved = elim (Bool-cases (i == count)) [
    | inl e ↦ rw e
    | inr n ↦ rw n (length-bcopy elms i (i + 1) (count - i) zero_elm (omega arith))
  ]

  moved_before : (j : ℕ) → j < i → elm_at moved j ≡ elm_at elms j
  moved_before j h = elim (Bool-cases (i == count)) [
    | inl e ↦ rw e
    | inr n ↦ rw n (bcopy_before elms i (i + 1) (count - i) zero_elm (omega arith) j (omega arith))
  ]

  moved_after : (j : ℕ) → i < j → j ≤ count → elm_at moved j ≡ elm_at elms (j - 1)
  moved_after j h k = elim (Bool-cases (i == count)) [
    | inl e ↦ absurd (ground arith)
    | inr n ↦ rw n (
        bcopy_inside elms i (i + 1) (count - i) zero_elm (omega arith) j (j - 1) (omega arith)
          (omega arith) (omega arith) (omega arith))
  ]

  abbrev inserted : List BtreeElm
  inserted = set moved i elm

  pub length-inserted : length inserted ≡ length elms
  length-inserted = length-set moved i elm ∙ length-moved

  pub inserted_before : (j : ℕ) → j < i → elm_at inserted j ≡ elm_at elms j
  inserted_before j h = get_or-set_ne moved i j elm zero_elm (omega arith) ∙ moved_before j h

  pub inserted_self : elm_at inserted i ≡ elm
  inserted_self = get_or-set_self moved i elm zero_elm (omega (arith, length-moved))

  pub inserted_after : (j : ℕ) → i < j → j ≤ count → elm_at inserted j ≡ elm_at elms (j - 1)
  inserted_after j h k = get_or-set_ne moved i j elm zero_elm (omega arith) ∙ moved_after j h k

-- A sequence that rises keeps rising when a value is put where it belongs.
module _ (f g : ℕ → ℕ) (n i key : ℕ) (before : (j : ℕ) → j < i → g j ≡ f j) (self : g i ≡ key)
    (after : (j : ℕ) → i < j → j ≤ n → g j ≡ f (j - 1))
    (rising : (a b : ℕ) → a < b → b < n → f a < f b) (left : (j : ℕ) → j < i → f j < key)
    (right : (j : ℕ) → i ≤ j → j < n → key < f j) where
  rising_left : (a : ℕ) → a < i → i ≤ n → g a < key
  rising_left a h k = omega (arith, before a h, left a h)

  rising_right : (b : ℕ) → i < b → b ≤ n → key < g b
  rising_right b h k = omega (arith, after b h k, right (b - 1) (omega arith) (omega arith))

  rising_both : (a b : ℕ) → a < i → i < b → b ≤ n → g a < g b
  rising_both a b p q r = omega (arith, rising_left a p (omega arith), rising_right b q r)

  rising_insert : (a b : ℕ) → a < b → b ≤ n → i ≤ n → g a < g b
  rising_insert a b h k l = elim (lt_or_eq_or_gt b i) [
    | inl p ↦ omega (arith, before a (omega arith), before b p, rising a b h (omega arith))
    | inr (inl p) ↦ subst (λ x. g a < x) (sym self ∙ ap g (sym p)) (rising_left a (omega arith) l)
    | inr (inr p) ↦ elim (lt_or_eq_or_gt a i) [
      | inl q ↦ rising_both a b q p k
      | inr (inl q) ↦ subst (λ x. x < g b) (sym self ∙ ap g (sym q)) (rising_right b p k)
      | inr (inr q) ↦ omega (
        arith,
        after a q (omega arith),
        after b p k,
        rising (a - 1) (b - 1) (omega arith) (omega arith),
      )
    ]
  ]

-- A node with room for one more element, and a place in it.
pub record HasRoom (node : NodeOndisk) (i : ℕ) : Type 0 where
  pub slots : length node.elms ≡ leaf_elms
  pub room : node.count < leaf_elms
  pub inside : i ≤ node.count

module _ (node : NodeOndisk) (i : ℕ) (elm : BtreeElm) (h : HasRoom node i) where
  room' : node.count < length node.elms
  room' = omega arith

  pub base_before : (j : ℕ) → j < i → base_at (insert_at node i elm) j ≡ base_at node j
  unfolding base_at
  base_before j l = ap BtreeElm.base (inserted_before node.elms node.count i elm room' h.inside j l)

  pub base_self : base_at (insert_at node i elm) i ≡ elm.base
  unfolding base_at
  base_self = ap BtreeElm.base (inserted_self node.elms node.count i elm room' h.inside)

  pub base_after :
      (j : ℕ) → i < j → j ≤ node.count → base_at (insert_at node i elm) j ≡ base_at node (j - 1)
  unfolding base_at
  base_after j l k =
      ap BtreeElm.base (inserted_after node.elms node.count i elm room' h.inside j l k)

  pub insert_at-IsSorted :
      IsBase elm.base
      → IsSorted node node.count
      → Places node elm.base (miss i)
      → IsSorted (insert_at node i elm) (node.count + 1)
  insert_at-IsSorted word ok place = record {
    words = λ j l. elim (lt_or_eq_or_gt j i) [
      | inl p ↦ subst IsBase (sym (base_before j p)) (ok.words j (omega arith))
      | inr (inl p) ↦
          subst (λ x. IsBase (base_at (insert_at node i elm) x)) (sym p)
            (subst IsBase (sym base_self) word)
      | inr (inr p) ↦
          subst IsBase (sym (base_after j p (omega arith))) (ok.words (j - 1) (omega arith))
    ];
    sorted = λ a b p q.
        rising_insert (λ j. rank (base_at node j)) (λ j. rank (base_at (insert_at node i elm) j))
          node.count i (rank elm.base) (λ j l. ap (λ x. rank x) (base_before j l))
          (ap (λ x. rank x) base_self) (λ j l k. ap (λ x. rank x) (base_after j l k)) ok.sorted
          place.1 place.2 a b p (omega arith) h.inside;
  }

abbrev changed : LeafCursor → BtreeElm → NodeOndisk
changed c elm = (update_mirror_tid (insert_at c.node c.index elm) elm.base).0

-- The new element lies between its neighbours and within the bounds of the leaf, so that the
-- assertions of the source hold.
checks_hold :
    (c : LeafCursor) (node : NodeOndisk) (i : ℕ) (base : BaseElm)
    → hammer_btree_cmp c.left_bound base ≤ℤ pos 0
    → pos 0 <ℤ hammer_btree_cmp c.right_bound base
    → (0 < i → hammer_btree_cmp (base_at node (i - 1)) base <ℤ pos 0)
    → (i ≢ node.count - 1 → pos 0 <ℤ hammer_btree_cmp (base_at node (i + 1)) base)
    → insert_checks c node i base ≡ true
checks_hold c node i base p q r s = ground arith

module _ (c : LeafCursor) (elm : BtreeElm) (h : HasRoom c.node c.index) (word : IsBase elm.base)
    (ok : IsSorted c.node c.node.count) (place : Places c.node elm.base (miss c.index))
    (is_record : elm.base.btype ≢ 0) (at_leaf : c.node.type ≡ type_leaf)
    (left : hammer_btree_cmp c.left_bound elm.base ≤ℤ pos 0)
    (right : pos 0 <ℤ hammer_btree_cmp c.right_bound elm.base) where
  fits : c.node.count < length c.node.elms
  fits = omega arith

  changed-IsSorted : IsSorted (changed c elm) (c.node.count + 1)
  unfolding base_at
  changed-IsSorted =
      (let k = insert_at-IsSorted c.node c.index elm h word ok place in
        record { words = k.words; sorted = k.sorted })

  self_base : base_at (changed c elm) c.index ≡ elm.base
  unfolding base_at
  self_base = base_self c.node c.index elm h

  checks : insert_checks c (changed c elm) c.index elm.base ≡ true
  checks =
      checks_hold c (changed c elm) c.index elm.base left right
        (λ l.
          subst (λ x. hammer_btree_cmp (base_at (changed c elm) (c.index - 1)) x <ℤ pos 0) self_base
            ((cmp-lt_rank _ _ (changed-IsSorted.words (c.index - 1) (omega arith))
                (changed-IsSorted.words c.index (omega arith))).1
              (changed-IsSorted.sorted (c.index - 1) c.index (omega arith) (omega arith))))
        (λ l.
          subst (λ x. pos 0 <ℤ hammer_btree_cmp (base_at (changed c elm) (c.index + 1)) x) self_base
            ((hammer_btree_cmp_order _ _ (changed-IsSorted.words (c.index + 1) (omega arith))
                (changed-IsSorted.words c.index (omega arith))).1.1
              (changed-IsSorted.sorted c.index (c.index + 1) (omega arith) (omega arith))))

  -- In a leaf that is in order and has room, an insertion at the place of a search's miss passes
  -- every assertion and returns; the leaf stays in order, has one element more, has the new one at
  -- the cursor's index, the old ones around it, and all its slots.
  pub hammer_btree_insert-IsSorted : Returns (hammer_btree_insert 0 c elm) (λ r.
      IsSorted r.0.node (c.node.count + 1)
      × (r.0.node.count ≡ c.node.count + 1)
      × (elm_at r.0.node.elms c.index ≡ elm)
      × ((j : ℕ) → j < c.index → elm_at r.0.node.elms j ≡ elm_at c.node.elms j)
      × ((j : ℕ)
          → c.index < j
          → j ≤ c.node.count
          → elm_at r.0.node.elms j ≡ elm_at c.node.elms (j - 1))
      × (length r.0.node.elms ≡ leaf_elms))
  unfolding hammer_btree_insert
  hammer_btree_insert-IsSorted =
      rw (nonzero_test elm.base.btype is_record, ap is_leaf at_leaf, lt_test h.room, checks)
        (
          changed-IsSorted,
          refl,
          inserted_self c.node.elms c.node.count c.index elm fits h.inside,
          inserted_before c.node.elms c.node.count c.index elm fits h.inside,
          inserted_after c.node.elms c.node.count c.index elm fits h.inside,
          length-inserted c.node.elms c.node.count c.index elm fits h.inside ∙ h.slots,
        )
