-- ===== src/Btree/Split/Node.antt =====
-- `btree_split_internal` as a whole.
use mathlib.Core.Path.{subst, subst₂}
use hammer_linux.Base.{
  ℕ, ◌+◌, ◌-◌, ◌≤◌, ◌<◌, ◌≡◌, ◌≢◌, refl, sym, ap, ◌∙◌, arith, length, Bool, true, false,
  if◌then◌else◌, leb, ne_test,
}
use hammer_linux.Base.Outcome.{Returns, Returns-map}
use hammer_linux.Btree.Elm.{BtreeElm, NodeOndisk, type_internal, leaf_elms, int_elms}
use hammer_linux.Btree.Leaf.{is_leaf}
use hammer_linux.Btree.Leaf.Insert.{elm_at}
use hammer_linux.Btree.Tree.{
  Tree, Cursor, Mount, Alloc, got, write, write_same, write_ne, zero_node, subtree_offset,
}
use hammer_linux.Btree.Split.{
  Spot, ready, Family, Result, split_internal_nodes, store_family, settle, split_point,
  finish_internal, make_room, btree_split_internal, set_parents,
}
use hammer_linux.Btree.Split.Placed.{IsParent}
use hammer_linux.Btree.Split.Full.{
  AreApart, IsLinked, family_at, store_family-other, store_family-new, store_family-old,
  store_family-parent,
}
use hammer_linux.Btree.Split.Inner.{
  IsInner, IsInner-bounds_checks, IsSplitInner, split_internal_nodes-IsSplitInner, settle-Settled,
}
use hammer_linux.Btree.Split.Children.{IsLink, set_parents-other, set_parents_lem}

-- The node that element `j` refers to.
abbrev pub child : NodeOndisk → ℕ → ℕ
child node j = subtree_offset (elm_at node.elms j).payload

-- What a split of the cursor's internal node leaves behind, given the node and its parent as they
-- were.
pub record HasSplitInner (t : Tree) (c : Cursor) (node p : NodeOndisk) (s : Spot) (new split : ℕ)
    (r : Result) : Type 0 where
  pub no_error : r.0 ≡ 0
  pub nodes : IsSplitInner node p s.parent_index new split (family_at r.1 c.node new s.parent)
  pub links : IsLinked node p s (family_at r.1 c.node new s.parent)
  pub inner : IsInner (r.1.disk r.2.node) r.2
  pub same_child : elm_at (r.1.disk r.2.node).elms r.2.index ≡ elm_at node.elms c.index
  pub linked :
      (j : ℕ)
      → split ≤ j
      → j < node.count
      → IsLink (elm_at node.elms j)
      → (r.1.disk (child node j)).parent ≡ new
  pub others :
      (a : ℕ)
      → a ≢ c.node
      → a ≢ new
      → a ≢ s.parent
      → ((j : ℕ) → split ≤ j → j < node.count → a ≢ child node j)
      → r.1.disk a ≡ t.disk a
  pub root : r.1.vol0_btree_root ≡ (if s.made_root then s.parent else t.vol0_btree_root)

-- An internal node to split, a parent with room, and children that are other nodes.
pub record CanSplitInner (node p : NodeOndisk) (i : ℕ) (c : Cursor) (new parent split : ℕ)
    : Type 0 where
  pub ok : IsInner node c
  pub par : IsParent p i c
  pub some_left : 0 < split
  pub some_right : split < node.count
  pub full : node.count ≤ int_elms
  pub at_internal : node.type ≡ type_internal
  pub child_old : (j : ℕ) → split ≤ j → j < node.count → c.node ≢ child node j
  pub child_new : (j : ℕ) → split ≤ j → j < node.count → new ≢ child node j
  pub child_parent : (j : ℕ) → split ≤ j → j < node.count → parent ≢ child node j

module _ (t : Tree) (c : Cursor) (s : Spot) (new split : ℕ) (apart : AreApart c.node new s.parent)
    (empty : length (t.disk new).elms ≡ leaf_elms)
    (k : CanSplitInner (t.disk c.node) (t.disk s.parent) s.parent_index c new s.parent split) where
  abbrev node : NodeOndisk
  node = t.disk c.node

  abbrev f : Family
  f = split_internal_nodes t c s new split

  abbrev in_new : Bool
  in_new = leb split c.index

  abbrev c' : Cursor
  c' = settle c s new split f in_new

  abbrev stored : Tree
  stored = store_family t c s new split f

  abbrev linked_disk : ℕ → NodeOndisk
  linked_disk = set_parents f.new.count 0 new f.new stored.disk

  parts : IsSplitInner node (t.disk s.parent) s.parent_index new split f
  parts =
      split_internal_nodes-IsSplitInner t c s new split k.ok k.par empty k.some_left k.some_right
        k.full

  parts-IsLinked : IsLinked node (t.disk s.parent) s f
  unfolding split_internal_nodes
  parts-IsLinked = record {
    old_type = refl;
    old_mirror = refl;
    old_parent = refl;
    new_type = sym k.at_internal;
    new_mirror = refl;
    new_parent = refl;
    parent_type = refl;
    parent_mirror = refl;
    parent_parent = refl;
  }

  same_children : (j : ℕ) → j ≤ f.new.count → child f.new j ≡ child node (split + j)
  same_children j h = ap (λ e. subtree_offset (BtreeElm.payload e)) (parts.new_elms j h)

  -- The nodes that are no children are as stored.
  not_child :
      (a : ℕ)
      → ((j : ℕ) → split ≤ j → j < node.count → a ≢ child node j)
      → linked_disk a ≡ stored.disk a
  not_child a h = set_parents-other new f.new f.new.count 0 stored.disk a (λ j p q e.
      h (split + j) (omega arith) (omega (arith, parts.new_count))
        (e ∙ same_children j (omega arith)))

  linked_family :
      f ≡ record { old = linked_disk c.node; new = linked_disk new; parent = linked_disk s.parent }
  linked_family = sym (
      ap (λ x. record { old = x; new = linked_disk new; parent = linked_disk s.parent })
        (not_child c.node k.child_old ∙ store_family-old t c s new split f apart)
      ∙ ap (λ x. record { old = f.old; new = x; parent = linked_disk s.parent })
          (not_child new k.child_new ∙ store_family-new t c s new split f apart)
      ∙ ap (λ x. record { old = f.old; new = f.new; parent = x })
          (not_child s.parent k.child_parent ∙ store_family-parent t c s new split f apart))

  linked_settled :
      (b : Bool) → linked_disk (settle c s new split f b).node ≡ (if b then f.new else f.old)
  unfolding settle
  linked_settled true = not_child new k.child_new ∙ store_family-new t c s new split f apart
  linked_settled false = not_child c.node k.child_old ∙ store_family-old t c s new split f apart

  relinked :
      (j : ℕ)
      → split ≤ j
      → j < node.count
      → IsLink (elm_at node.elms j)
      → (linked_disk (child node j)).parent ≡ new
  relinked j p q h =
      let back : elm_at f.new.elms (j - split) ≡ elm_at node.elms j =
        parts.new_elms (j - split) (omega (arith, parts.new_count))
        ∙ ap (λ x. elm_at node.elms x) (omega arith) in
      subst (λ e. (linked_disk (subtree_offset (BtreeElm.payload e))).parent ≡ new) back
        (set_parents_lem new f.new f.new.count 0 stored.disk (j - split) (omega arith)
          (omega (arith, parts.new_count)) (subst IsLink (sym back) h))

  finish_internal_lem :
      Returns
        (finish_internal c split (ready t s new))
        (HasSplitInner t c node (t.disk s.parent) s new split)
  unfolding finish_internal
  finish_internal_lem =
      let placed =
        settle-Settled t c s new split k.ok k.par empty k.some_left k.some_right k.full in
      rw
        (
          ap is_leaf k.at_internal,
          ne_test (t.disk s.parent).count int_elms (omega (arith, k.par.room)),
          IsInner-bounds_checks _ _ placed.0,
        )
        (record {
          no_error = refl;
          nodes =
              subst (IsSplitInner node (t.disk s.parent) s.parent_index new split) linked_family
                parts;
          links = subst (IsLinked node (t.disk s.parent) s) linked_family parts-IsLinked;
          inner = subst (λ x. IsInner x c') (sym (linked_settled in_new)) placed.0;
          same_child =
              ap (λ x. elm_at (NodeOndisk.elms x) (c'.index)) (linked_settled in_new) ∙ placed.1;
          linked = relinked;
          others = λ a x y z w. not_child a w ∙ store_family-other t c s new split f apart a x y z;
          root = unfold store_family in refl;
        })

-- The same for the nodes under other names.
finish_internal-HasSplitInner :
    (t : Tree) (c : Cursor) (s : Spot) (new split : ℕ)
    → AreApart c.node new s.parent
    → length (t.disk new).elms ≡ leaf_elms
    → (old p : NodeOndisk) → old ≡ t.disk c.node
    → p ≡ t.disk s.parent
    → CanSplitInner old p s.parent_index c new s.parent split
    → Returns (finish_internal c split (ready t s new)) (HasSplitInner t c old p s new split)
finish_internal-HasSplitInner t c s new split apart empty old p e e' =
    subst₂
      (λ old p.
        CanSplitInner old p s.parent_index c new s.parent split
        → Returns (finish_internal c split (ready t s new)) (HasSplitInner t c old p s new split))
      (sym e) (sym e') (finish_internal_lem t c s new split apart empty)

HasSplitInner-from :
    (t t' : Tree) (c : Cursor) (old p : NodeOndisk) (s : Spot) (new split : ℕ)
    → ((a : ℕ) → a ≢ new → a ≢ s.parent → t'.disk a ≡ t.disk a)
    → (if s.made_root then s.parent else t'.vol0_btree_root)
      ≡ (if s.made_root then s.parent else t.vol0_btree_root)
    → (r : Result) → HasSplitInner t' c old p s new split r
    → HasSplitInner t c old p s new split r
HasSplitInner-from t t' c old p s new split same e r h = record {
  no_error = h.no_error;
  nodes = h.nodes;
  links = h.links;
  inner = h.inner;
  same_child = h.same_child;
  linked = h.linked;
  others = λ a x y z w. h.others a x y z w ∙ same a y z;
  root = h.root ∙ e;
}

module _ (hmp : Mount) (t : Tree) (c : Cursor) (root : Alloc) (new : ℕ)
    (apart : AreApart c.node new c.parent) (has_parent : (t.disk c.node).parent ≢ 0) where
  abbrev pub split : ℕ
  split = split_point (t.disk c.node).count c.index

  abbrev pub spot : Spot
  spot = record { parent = c.parent; parent_index = c.parent_index; made_root = false }

  abbrev zeroed : Tree
  zeroed = record t { disk = write t.disk new zero_node }

  is_ready : make_room hmp root (got new) t c ≡ ready zeroed spot new
  unfolding make_room
  is_ready = rw (ne_test (t.disk c.node).parent 0 has_parent)

  -- An internal node in order, within the cursor's bounds, whose parent has room, is split without
  -- error: its children are kept in two nodes in order, the boundary at the split ends the one, begins
  -- the other and separates them in the parent, which stays in order, the children that moved have the
  -- new node for their parent, the new node has the parent, type and mirror_tid of the old one, which
  -- keeps its own, other nodes are unchanged, and the cursor stands at the same child.
  pub btree_split_internal-HasSplitInner :
      CanSplitInner (t.disk c.node) (t.disk c.parent) c.parent_index c new c.parent split
      → Returns
          (btree_split_internal hmp 0 0 root (got new) t c)
          (HasSplitInner t c (t.disk c.node) (t.disk c.parent) spot new split)
  unfolding btree_split_internal
  btree_split_internal-HasSplitInner k = rw is_ready (
      Returns-map (finish_internal c split (ready zeroed spot new))
        (HasSplitInner-from t zeroed c _ _ spot new split
          (λ a x y. write_ne t.disk new a zero_node x) refl)
        (finish_internal-HasSplitInner zeroed c spot new split apart
          (ap (λ n. length (n.elms)) (write_same t.disk new zero_node)) _ _
          (sym (write_ne t.disk new c.node zero_node (λ e. apart.new_old (sym e))))
          (sym (write_ne t.disk new c.parent zero_node (λ e. apart.new_parent (sym e)))) k))
