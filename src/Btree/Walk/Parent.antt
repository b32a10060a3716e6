-- ===== src/Btree/Walk/Parent.antt =====
-- The parent of a node, and the index of the node in it.
use native.Mathlib.Decide.{dec_lt, ℕ_discrete}
use hammer_linux.Base.{
  ℕ, zero, suc, ◌+◌, ◌-◌, ◌≤◌, ◌<◌, ◌≡◌, ◌≢◌, refl, ap, inl, inr, arith, some, ne_test, same_test,
}
use hammer_linux.Base.Int.{ℤ, pos, ◌≤ℤ◌, ◌<ℤ◌}
use hammer_linux.Base.Outcome.{done}
use hammer_linux.Btree.Elm.{BaseElm, IsBase, NodeOndisk}
use hammer_linux.Btree.Cmp.{rank, hammer_btree_cmp_order}
use hammer_linux.Btree.Search.{base_at}
use hammer_linux.Btree.Search.Shortcut.{
  IsSorted, IsStart, rank_mono, hammer_btree_search_node-IsStart,
}
use hammer_linux.Btree.Tree.{Tree}
use hammer_linux.Btree.Walk.{child_at, find_child, from_start, hammer_btree_get_parent}
use hammer_linux.Btree.Shape.{IsInnerIn}

module _ (beg : BaseElm) (p : NodeOndisk) (lo hi : BaseElm) (ok : IsInnerIn beg p lo hi) (j : ℕ)
    (l : j < p.count) where
  links_differ : (i : ℕ) → i < j → child_at p i ≢ child_at p j
  links_differ i h = ok.inner_links i j h l

  find_child_lem :
      (rounds i : ℕ) → i ≤ j → i + rounds ≡ p.count → find_child p (child_at p j) rounds i ≡ some j
  unfolding find_child
  find_child_lem zero i h e = absurd (omega arith)
  find_child_lem (suc rounds) i h e = elim (dec_lt i j) [
    | yes before ↦
        rw (ne_test (child_at p i) (child_at p j) (links_differ i before))
          (find_child_lem rounds (i + 1) (omega arith) (omega arith))
    | no n ↦ (let same : i ≡ j = omega arith in rw (same, same_test (child_at p j)) (ap some refl))
  ]

  from_start_lem : (start : ℕ) → start ≤ j → from_start p (child_at p j) (some start) ≡ done j
  unfolding from_start
  from_start_lem start h = rw (find_child_lem (p.count - start) start h (omega arith)) refl

  fewer : IsSorted p p.count
  fewer = record {
    words = λ i h. ok.inner_sorted.words i (omega arith);
    sorted = λ i k h m. ok.inner_sorted.sorted i k h (omega arith);
  }

  two_pos : (c : ℤ) → pos 2 ≤ℤ c → pos 0 <ℤ c
  two_pos c h = omega arith

  -- The heuristic search for a key of the child starts at the child or before.
  start_before :
      (elm : BaseElm) (word : IsBase elm) (r : ℕ)
      → rank elm < rank (base_at p (j + 1))
      → IsStart elm p word fewer r
      → r ≤ j
  start_before elm word r high start = elim (dec_lt j r) [
    | no n ↦ omega arith
    | yes beyond ↦ elim start.reached [
      | inl e ↦ omega arith
      | inr b ↦ absurd (
          omega (
            arith,
            (hammer_btree_cmp_order elm (base_at p r) word
                  (ok.inner_sorted.words r (omega (arith, start.start_inside)))).1.0
                (two_pos _ b),
            rank_mono p (p.count + 1) ok.inner_sorted (j + 1) r (omega arith)
                (omega (arith, start.start_inside)),
          ))
    ]
  ]

  pub hammer_btree_get_parent_lem :
      (t : Tree) (offset : ℕ)
      → t.disk offset ≡ p
      → (t.disk (child_at p j)).parent ≡ offset
      → (0 < (t.disk (child_at p j)).count
          → IsBase (base_at (t.disk (child_at p j)) 0)
            × (rank (base_at (t.disk (child_at p j)) 0) < rank (base_at p (j + 1))))
      → hammer_btree_get_parent t (child_at p j) ≡ done j
  unfolding hammer_btree_get_parent base_at
  hammer_btree_get_parent_lem t offset e up first =
      elim (ℕ_discrete (t.disk (child_at p j)).count 0) [
        | yes empty ↦ rw (up, e, empty) (from_start_lem 0 (omega arith))
        | no some_elm ↦
            (let (word, high) = first (omega arith) in
              let (r, found, start) = hammer_btree_search_node-IsStart _ p word fewer in
              rw (up, e, ne_test (t.disk (child_at p j)).count 0 some_elm, found)
                (from_start_lem r (start_before _ word r high start)))
      ]
