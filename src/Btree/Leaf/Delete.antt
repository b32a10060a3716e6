-- ===== src/Btree/Leaf/Delete.antt =====
-- A deletion, and the other cursors on a leaf after both changes.
use mathlib.Core.Path.{subst, subst₂}
use hammer_linux.Base.{
  ℕ, ◌+◌, ◌-◌, ◌≤◌, ◌<◌, ◌≡◌, ◌≢◌, refl, sym, ap, inl, inr, arith, true, lt_test, length,
  if◌then◌else◌, ◌==◌, leb, Bool-cases, List,
}
use hammer_linux.Base.Array.{bcopy, length-bcopy, bcopy_before, bcopy_inside}
use hammer_linux.Base.Outcome.{Returns}
use hammer_linux.Btree.Elm.{BtreeElm, IsBase, NodeOndisk, zero_elm, type_leaf}
use hammer_linux.Btree.Cmp.{rank, lt_or_eq_or_gt}
use hammer_linux.Btree.Search.{base_at}
use hammer_linux.Btree.Search.Shortcut.{IsSorted}
use hammer_linux.Btree.Leaf.{
  LeafCursor, Tracked, inserted_one, deleted_one, insert_at, delete_at, is_leaf,
  hammer_btree_delete_elm,
}
use hammer_linux.Btree.Leaf.Insert.{elm_at, HasRoom, inserted_before, inserted_after}

module _ (elms : List BtreeElm) (count i : ℕ) (fits : count ≤ length elms)
    (inside : i < count) where
  abbrev deleted : List BtreeElm
  deleted = if i + 1 == count then elms else bcopy elms (i + 1) i (count - i - 1)

  deleted_before : (j : ℕ) → j < i → elm_at deleted j ≡ elm_at elms j
  deleted_before j h = elim (Bool-cases (i + 1 == count)) [
    | inl e ↦ rw e
    | inr n ↦ rw n (bcopy_before elms (i + 1) i (count - i - 1) zero_elm (omega arith) j h)
  ]

  deleted_after : (j : ℕ) → i ≤ j → j + 1 < count → elm_at deleted j ≡ elm_at elms (j + 1)
  deleted_after j h k = elim (Bool-cases (i + 1 == count)) [
    | inl e ↦ absurd (ground arith)
    | inr n ↦ rw n (
        bcopy_inside elms (i + 1) i (count - i - 1) zero_elm (omega arith) j (j + 1) h (omega arith)
          (omega arith) (omega arith))
  ]

  length-deleted : length deleted ≡ length elms
  length-deleted = elim (Bool-cases (i + 1 == count)) [
    | inl e ↦ rw e
    | inr n ↦ rw n (length-bcopy elms (i + 1) i (count - i - 1) zero_elm (omega arith))
  ]

-- A sequence that rises keeps rising when one value is left out.
module _ (f g : ℕ → ℕ) (n i : ℕ) (before : (j : ℕ) → j < i → g j ≡ f j)
    (after : (j : ℕ) → i ≤ j → j + 1 < n → g j ≡ f (j + 1))
    (rising : (a b : ℕ) → a < b → b < n → f a < f b) where
  rising_delete : (a b : ℕ) → a < b → b + 1 < n → g a < g b
  rising_delete a b h k = elim (lt_or_eq_or_gt b i) [
    | inl p ↦ omega (arith, before a (omega arith), before b p, rising a b h (omega arith))
    | inr p ↦ elim (lt_or_eq_or_gt a i) [
      | inl q ↦
          omega (
            arith,
            before a q,
            after b (omega arith) k,
            rising a (b + 1) (omega arith) (omega arith),
          )
      | inr q ↦ omega (
        arith,
        after a (omega arith) (omega arith),
        after b (omega arith) k,
        rising (a + 1) (b + 1) (omega arith) (omega arith),
      )
    ]
  ]

module _ (c : LeafCursor) (fits : c.node.count ≤ length c.node.elms)
    (inside : c.index < c.node.count) (ok : IsSorted c.node c.node.count) where
  abbrev node' : NodeOndisk
  node' = delete_at c.node c.index

  base_before : (j : ℕ) → j < c.index → base_at node' j ≡ base_at c.node j
  unfolding base_at
  base_before j h =
      ap BtreeElm.base (deleted_before c.node.elms c.node.count c.index fits inside j h)

  base_after :
      (j : ℕ) → c.index ≤ j → j + 1 < c.node.count → base_at node' j ≡ base_at c.node (j + 1)
  unfolding base_at
  base_after j h k =
      ap BtreeElm.base (deleted_after c.node.elms c.node.count c.index fits inside j h k)

  delete_at-IsSorted : IsSorted node' (c.node.count - 1)
  delete_at-IsSorted = record {
    words = λ j l. elim (lt_or_eq_or_gt j c.index) [
      | inl p ↦ subst IsBase (sym (base_before j p)) (ok.words j (omega arith))
      | inr p ↦
          subst IsBase (sym (base_after j (omega arith) (omega arith)))
            (ok.words (j + 1) (omega arith))
    ];
    sorted = λ a b p q.
        rising_delete (λ j. rank (base_at c.node j)) (λ j. rank (base_at node' j)) c.node.count
          c.index (λ j l. ap (λ x. rank x) (base_before j l))
          (λ j l k. ap (λ x. rank x) (base_after j l k)) ok.sorted a b p (omega arith);
  }

  -- From a leaf in order, the deletion of the element at a cursor that stands on one returns; the
  -- leaf stays in order, and has the elements before the cursor as they were and the others one place
  -- further to the left.
  pub hammer_btree_delete_elm-IsSorted :
      c.node.type ≡ type_leaf
      → Returns (hammer_btree_delete_elm 0 c) (λ r.
        IsSorted r.node (c.node.count - 1)
        × (r.node.count ≡ c.node.count - 1)
        × ((j : ℕ) → j < c.index → elm_at r.node.elms j ≡ elm_at c.node.elms j)
        × ((j : ℕ)
            → c.index ≤ j
            → j + 1 < c.node.count
            → elm_at r.node.elms j ≡ elm_at c.node.elms (j + 1))
        × (length r.node.elms ≡ length c.node.elms))
  unfolding hammer_btree_delete_elm
  hammer_btree_delete_elm-IsSorted at_leaf =
      rw (ap is_leaf at_leaf, lt_test inside)
        (
          delete_at-IsSorted,
          refl,
          deleted_before c.node.elms c.node.count c.index fits inside,
          deleted_after c.node.elms c.node.count c.index fits inside,
          length-deleted c.node.elms c.node.count c.index fits inside,
        )

-- Another cursor on a node stays on its element through an insertion.
pub inserted_one-elm_at :
    (node : NodeOndisk) (i : ℕ) (elm : BtreeElm) (t : Tracked)
    → HasRoom node i
    → t.index < node.count
    → elm_at (insert_at node i elm).elms (inserted_one i t).index ≡ elm_at node.elms t.index
unfolding inserted_one
inserted_one-elm_at node i elm t h l = elim (Bool-cases (leb i t.index)) [
  | inl at ↦ rw at (
      subst (λ x. elm_at (insert_at node i elm).elms (t.index + 1) ≡ elm_at node.elms x)
        (omega arith)
        (inserted_after node.elms node.count i elm (omega arith) h.inside (t.index + 1)
          (ground arith) (omega arith)))
  | inr before ↦
      rw before
        (inserted_before node.elms node.count i elm (omega arith) h.inside t.index (ground arith))
]

-- Another cursor on a node stays on its element through a deletion, unless that is the element that
-- is deleted, and then it is marked.
pub deleted_one-elm_at :
    (node : NodeOndisk) (i : ℕ) (t : Tracked)
    → node.count ≤ length node.elms
    → i < node.count
    → t.index < node.count
    → ((t.index ≢ i)
        → elm_at (delete_at node i).elms (deleted_one i t).index ≡ elm_at node.elms t.index)
      × (t.index ≡ i → (deleted_one i t).ripout ≡ true)
unfolding deleted_one
deleted_one-elm_at node i t fits inside l = (
  λ n. elim (lt_or_eq_or_gt t.index i) [
    | inl p ↦
        subst (λ x. elm_at (delete_at node i).elms x ≡ elm_at node.elms t.index) (kept p)
          (deleted_before node.elms node.count i fits inside t.index p)
    | inr p ↦
        subst₂ (λ x y. elm_at (delete_at node i).elms x ≡ elm_at node.elms y) (moved (omega arith))
          (omega arith)
          (deleted_after node.elms node.count i fits inside (t.index - 1) (omega arith)
            (omega arith))
  ],
  λ e. ground arith,
)
  where
    kept : t.index < i → t.index ≡ (deleted_one i t).index
    kept p = ground arith

    moved : i < t.index → t.index - 1 ≡ (deleted_one i t).index
    moved p = ground arith
