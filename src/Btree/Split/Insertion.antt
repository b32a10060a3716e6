-- ===== src/Btree/Split/Insertion.antt =====
-- An insertion into a full leaf: the split, then `hammer_btree_insert`.
use mathlib.Core.Path.{subst}
use hammer_linux.Base.{ℕ, ◌+◌, ◌-◌, ◌≤◌, ◌<◌, ◌≡◌, ◌≢◌, ◌∙◌, Bool}
use hammer_linux.Base.Int.{pos, ◌≤ℤ◌, ◌<ℤ◌}
use hammer_linux.Base.Outcome.{Returns, Returns-map}
use hammer_linux.Btree.Elm.{BtreeElm, IsBase, type_leaf, leaf_elms}
use hammer_linux.Btree.Cmp.{rank, cmp-le_rank, hammer_btree_cmp_order, hammer_btree_cmp}
use hammer_linux.Btree.Search.{miss}
use hammer_linux.Btree.Search.Leaf.{Places}
use hammer_linux.Btree.Search.Shortcut.{IsSorted}
use hammer_linux.Btree.Leaf.{LeafCursor, hammer_btree_insert}
use hammer_linux.Btree.Leaf.Insert.{elm_at, hammer_btree_insert-IsSorted}
use hammer_linux.Btree.Tree.{Tree, Cursor, Mount, Alloc, got}
use hammer_linux.Btree.Split.{Result, split_point, btree_split_leaf}
use hammer_linux.Btree.Split.Placed.{IsPlaced}
use hammer_linux.Btree.Split.Full.{AreApart, CanSplit, btree_split_leaf-HasSplit}

-- The cursor's leaf, as `hammer_btree_insert` sees it.
abbrev pub leaf_cursor : Tree → Cursor → LeafCursor
leaf_cursor t c = record {
  node = t.disk c.node;
  index = c.index;
  left_bound = c.left_bound;
  right_bound = c.right_bound;
  cursor_list = t.cursor_list c.node;
}

-- The leaf after the insertion: in order, one element more, and the new one at the cursor.
pub record IsInserted (r : Result) (elm : BtreeElm) (l : LeafCursor × Bool) : Type 0 where
  pub in_order : IsSorted l.0.node ((r.1.disk r.2.node).count + 1)
  pub more : l.0.node.count ≡ (r.1.disk r.2.node).count + 1
  pub here : elm_at l.0.node.elms r.2.index ≡ elm
  pub before : (j : ℕ) → j < r.2.index → elm_at l.0.node.elms j ≡ elm_at (r.1.disk r.2.node).elms j
  pub after :
      (j : ℕ)
      → r.2.index < j
      → j ≤ (r.1.disk r.2.node).count
      → elm_at l.0.node.elms j ≡ elm_at (r.1.disk r.2.node).elms (j - 1)

module _ (r : Result) (elm : BtreeElm) (ok : IsPlaced (r.1.disk r.2.node) r.2)
    (spare : (r.1.disk r.2.node).count < leaf_elms) (at_leaf : (r.1.disk r.2.node).type ≡ type_leaf)
    (same : r.2.key_beg ≡ elm.base) (is_record : elm.base.btype ≢ 0) where
  elm_word : IsBase elm.base
  elm_word = subst IsBase same ok.key_word

  left_test : hammer_btree_cmp r.2.left_bound elm.base ≤ℤ pos 0
  left_test =
      (cmp-le_rank _ _ ok.left_word elm_word).1
        (subst (λ k. rank r.2.left_bound ≤ rank k) same ok.key_left)

  right_test : pos 0 <ℤ hammer_btree_cmp r.2.right_bound elm.base
  right_test =
      (hammer_btree_cmp_order _ _ ok.right_word elm_word).1.1
        (subst (λ k. rank k < rank r.2.right_bound) same ok.key_right)

  insert-IsInserted : Returns (hammer_btree_insert 0 (leaf_cursor r.1 r.2) elm) (IsInserted r elm)
  insert-IsInserted =
      Returns-map (hammer_btree_insert 0 (leaf_cursor r.1 r.2) elm)
        (λ l h. record { in_order = h.0; more = h.1; here = h.2; before = h.3; after = h.4 })
        (hammer_btree_insert-IsSorted (leaf_cursor r.1 r.2) elm
          (record { slots = ok.slots; room = spare; inside = ok.place.0 }) elm_word ok.sorted
          (subst (λ k. Places (r.1.disk r.2.node) k (miss r.2.index)) same ok.place) is_record
          at_leaf left_test right_test)

-- A record whose key the cursor has, at its place in a full leaf whose parent has room: the split and
-- the insertion that follows return, and the new record stands at the cursor of a leaf in order, with
-- the other elements of that leaf around it.
pub btree_split_leaf-hammer_btree_insert :
    (hmp : Mount) (t : Tree) (c : Cursor) (root : Alloc) (new : ℕ) (elm : BtreeElm)
    → AreApart c.node new c.parent
    → (t.disk c.node).parent ≢ 0
    → CanSplit
        (t.disk c.node)
        (t.disk c.parent)
        c.parent_index
        c
        (split_point (t.disk c.node).count c.index)
    → c.key_beg ≡ elm.base
    → elm.base.btype ≢ 0
    → Returns
        (btree_split_leaf hmp 0 root (got new) t c)
        (λ r. Returns (hammer_btree_insert 0 (leaf_cursor r.1 r.2) elm) (IsInserted r elm))
btree_split_leaf-hammer_btree_insert hmp t c root new elm apart has_parent k same is_record =
    Returns-map (btree_split_leaf hmp 0 root (got new) t c)
      (λ r h. insert-IsInserted r elm h.placed h.spare h.still_leaf (h.same_key ∙ same) is_record)
      (btree_split_leaf-HasSplit hmp t c root new apart has_parent k)
