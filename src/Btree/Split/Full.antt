-- ===== src/Btree/Split/Full.antt =====
-- `btree_split_leaf` as a whole.
use mathlib.Core.Path.{subst, subst₂}
use hammer_linux.Base.{
  ℕ, ◌+◌, ◌-◌, ◌≤◌, ◌<◌, ◌≡◌, ◌≢◌, refl, sym, ap, ◌∙◌, arith, length, Bool, true, false,
  if◌then◌else◌, nonzero_test, ne_test,
}
use hammer_linux.Base.Outcome.{Returns, Returns-map}
use hammer_linux.Btree.Elm.{NodeOndisk, type_leaf, leaf_elms, int_elms}
use hammer_linux.Btree.Separator.Cases.{Fits}
use hammer_linux.Btree.Search.{base_at}
use hammer_linux.Btree.Leaf.{is_leaf}
use hammer_linux.Btree.Tree.{
  Tree, Cursor, Mount, Alloc, got, write, write_same, write_ne, zero_node,
}
use hammer_linux.Btree.Split.{
  Spot, ready, Family, Result, split_leaf_nodes, store_family, settle, in_new_leaf, split_point,
  finish_leaf, make_room, btree_split_leaf,
}
use hammer_linux.Btree.Split.Placed.{
  IsPlaced, IsParent, IsPlaced-settled_checks, IsPlaced-leaf_checks,
}
use hammer_linux.Btree.Split.Leaf.{IsSplit, split_leaf_nodes-IsSplit, settle-IsPlaced}

-- The nodes of a split as the tree has them.
abbrev pub family_at : Tree → (old new parent : ℕ) → Family
family_at t old new parent = record { old = t.disk old; new = t.disk new; parent = t.disk parent }

-- Three different nodes.
pub record AreApart (old new parent : ℕ) : Type 0 where
  pub new_old : new ≢ old
  pub new_parent : new ≢ parent
  pub old_parent : old ≢ parent

module _ (t : Tree) (c : Cursor) (s : Spot) (new split : ℕ) (f : Family)
    (apart : AreApart c.node new s.parent) where
  abbrev after : Tree
  after = store_family t c s new split f

  pub store_family-parent : after.disk s.parent ≡ f.parent
  unfolding store_family
  store_family-parent = write_same _ s.parent f.parent

  pub store_family-old : after.disk c.node ≡ f.old
  unfolding store_family
  store_family-old =
      write_ne _ s.parent c.node f.parent apart.old_parent ∙ write_same _ c.node f.old

  pub store_family-new : after.disk new ≡ f.new
  unfolding store_family
  store_family-new =
      write_ne _ s.parent new f.parent apart.new_parent
      ∙ write_ne _ c.node new f.old apart.new_old
      ∙ write_same _ new f.new

  pub store_family-family_at : f ≡ family_at after c.node new s.parent
  store_family-family_at = sym (
      ap (λ x. record { old = x; new = after.disk new; parent = after.disk s.parent })
        store_family-old
      ∙ ap (λ x. record { old = f.old; new = x; parent = after.disk s.parent }) store_family-new
      ∙ ap (λ x. record { old = f.old; new = f.new; parent = x }) store_family-parent)

  pub store_family-other : (a : ℕ) → a ≢ c.node → a ≢ new → a ≢ s.parent → after.disk a ≡ t.disk a
  unfolding store_family
  store_family-other a p q r =
      write_ne _ s.parent a f.parent r ∙ write_ne _ c.node a f.old p ∙ write_ne _ new a f.new q

  pub store_family-settled :
      (b : Bool) → after.disk (settle c s new split f b).node ≡ (if b then f.new else f.old)
  unfolding settle
  store_family-settled true = store_family-new
  store_family-settled false = store_family-old

-- The headers of the three nodes after a split: types and mirror_tids are those of the node that was
-- split and of its parent as they were, the new node is below the parent, and so is the old one,
-- which had the same parent before unless the parent is a new root.
pub record IsLinked (node p : NodeOndisk) (s : Spot) (f : Family) : Type 0 where
  pub old_type : f.old.type ≡ node.type
  pub old_mirror : f.old.mirror_tid ≡ node.mirror_tid
  pub old_parent : f.old.parent ≡ (if s.made_root then s.parent else node.parent)
  pub new_type : f.new.type ≡ node.type
  pub new_mirror : f.new.mirror_tid ≡ node.mirror_tid
  pub new_parent : f.new.parent ≡ s.parent
  pub parent_type : f.parent.type ≡ p.type
  pub parent_mirror : f.parent.mirror_tid ≡ p.mirror_tid
  pub parent_parent : f.parent.parent ≡ p.parent

-- What a split of the cursor's leaf leaves behind, given the leaf and the parent as they were.
pub record HasSplit (t : Tree) (c : Cursor) (node p : NodeOndisk) (s : Spot) (new split : ℕ)
    (r : Result) : Type 0 where
  pub no_error : r.0 ≡ 0
  pub nodes : IsSplit node p s.parent_index new split (family_at r.1 c.node new s.parent)
  pub links : IsLinked node p s (family_at r.1 c.node new s.parent)
  pub placed : IsPlaced (r.1.disk r.2.node) r.2
  pub same_key : r.2.key_beg ≡ c.key_beg
  pub spare : (r.1.disk r.2.node).count < leaf_elms
  pub still_leaf : (r.1.disk r.2.node).type ≡ type_leaf
  pub others : (a : ℕ) → a ≢ c.node → a ≢ new → a ≢ s.parent → r.1.disk a ≡ t.disk a
  pub root : r.1.vol0_btree_root ≡ (if s.made_root then s.parent else t.vol0_btree_root)

-- A full enough leaf at the place of the cursor's key, a parent with room, and a separator between
-- the halves.
pub record CanSplit (node p : NodeOndisk) (i : ℕ) (c : Cursor) (split : ℕ) : Type 0 where
  pub ok : IsPlaced node c
  pub par : IsParent p i c
  pub some_left : 0 < split
  pub some_right : split + 1 < node.count
  pub full : node.count ≤ leaf_elms
  pub fits : Fits (base_at node (split - 1)) (base_at node split)
  pub at_leaf : node.type ≡ type_leaf

module _ (t : Tree) (c : Cursor) (s : Spot) (new split : ℕ) (apart : AreApart c.node new s.parent)
    (empty : length (t.disk new).elms ≡ leaf_elms) where
  abbrev f : Family
  f = split_leaf_nodes t c s new split

  abbrev in_new : Bool
  in_new = in_new_leaf c s split f

  -- Both leaves have room for one more element.
  halves_spare :
      (t.disk c.node).type ≡ type_leaf
      → 0 < split
      → split + 1 < (t.disk c.node).count
      → (t.disk c.node).count ≤ leaf_elms
      → (b : Bool)
      → ((if b then f.new else f.old).count < leaf_elms)
        × ((if b then f.new else f.old).type ≡ type_leaf)
  unfolding split_leaf_nodes
  halves_spare e h k l true = (omega arith, refl)
  halves_spare e h k l false = (omega arith, e)

  split_leaf_nodes-IsLinked :
      (t.disk c.node).type ≡ type_leaf → IsLinked (t.disk c.node) (t.disk s.parent) s f
  unfolding split_leaf_nodes
  split_leaf_nodes-IsLinked e = record {
    old_type = refl;
    old_mirror = refl;
    old_parent = refl;
    new_type = sym e;
    new_mirror = refl;
    new_parent = refl;
    parent_type = refl;
    parent_mirror = refl;
    parent_parent = refl;
  }

  finish_leaf_lem :
      CanSplit (t.disk c.node) (t.disk s.parent) s.parent_index c split
      → Returns
          (finish_leaf c split (ready t s new))
          (HasSplit t c (t.disk c.node) (t.disk s.parent) s new split)
  unfolding finish_leaf
  finish_leaf_lem k =
      let placed =
        settle-IsPlaced t c s new split k.ok k.par empty k.some_left k.some_right k.full k.fits in
      let here = store_family-settled t c s new split f apart in_new in
      let spare = halves_spare k.at_leaf k.some_left k.some_right k.full in_new in
      rw
        (
          ap is_leaf k.at_leaf,
          nonzero_test split (omega (arith, k.some_left)),
          ne_test (t.disk s.parent).count int_elms (omega (arith, k.par.room)),
          IsPlaced-settled_checks _ _ placed,
        )
        (record {
          no_error = refl;
          nodes =
              subst (IsSplit (t.disk c.node) (t.disk s.parent) s.parent_index new split)
                (store_family-family_at t c s new split f apart)
                (split_leaf_nodes-IsSplit t c s new split k.ok k.par empty k.some_left k.some_right
                  k.full k.fits);
          links =
              subst (IsLinked (t.disk c.node) (t.disk s.parent) s)
                (store_family-family_at t c s new split f apart)
                (split_leaf_nodes-IsLinked k.at_leaf);
          placed = subst (λ x. IsPlaced x (settle c s new split f in_new)) (sym here) placed;
          same_key = unfold settle in refl;
          spare = subst (λ x. x.count < leaf_elms) (sym here) spare.0;
          still_leaf = ap NodeOndisk.type here ∙ spare.1;
          others = store_family-other t c s new split f apart;
          root = unfold store_family in refl;
        })

  -- The same for the nodes under other names.
  pub finish_leaf-HasSplit :
      (node p : NodeOndisk)
      → node ≡ t.disk c.node
      → p ≡ t.disk s.parent
      → CanSplit node p s.parent_index c split
      → Returns (finish_leaf c split (ready t s new)) (HasSplit t c node p s new split)
  finish_leaf-HasSplit node p e e' =
      subst₂
        (λ node p.
          CanSplit node p s.parent_index c split
          → Returns (finish_leaf c split (ready t s new)) (HasSplit t c node p s new split))
        (sym e) (sym e') finish_leaf_lem

-- What was changed to make room is not among the other nodes.
pub HasSplit-from :
    (t t' : Tree) (c : Cursor) (node p : NodeOndisk) (s : Spot) (new split : ℕ)
    → ((a : ℕ) → a ≢ new → a ≢ s.parent → t'.disk a ≡ t.disk a)
    → (if s.made_root then s.parent else t'.vol0_btree_root)
      ≡ (if s.made_root then s.parent else t.vol0_btree_root)
    → (r : Result) → HasSplit t' c node p s new split r
    → HasSplit t c node p s new split r
HasSplit-from t t' c node p s new split same e r h = record {
  no_error = h.no_error;
  nodes = h.nodes;
  links = h.links;
  placed = h.placed;
  same_key = h.same_key;
  spare = h.spare;
  still_leaf = h.still_leaf;
  others = λ a x y z. h.others a x y z ∙ same a y z;
  root = h.root ∙ e;
}

pub full_split :
    (count index : ℕ)
    → count ≡ leaf_elms
    → (0 < split_point count index) × (split_point count index + 1 < count)
full_split count index e = ground arith

-- The split of a leaf whose parent has room.
module _ (hmp : Mount) (t : Tree) (c : Cursor) (root : Alloc) (new : ℕ)
    (apart : AreApart c.node new c.parent) (has_parent : (t.disk c.node).parent ≢ 0) where
  abbrev pub split : ℕ
  split = split_point (t.disk c.node).count c.index

  abbrev pub spot : Spot
  spot = record { parent = c.parent; parent_index = c.parent_index; made_root = false }

  abbrev zeroed : Tree
  zeroed = record t { disk = write t.disk new zero_node }

  is_ready : make_room hmp root (got new) t c ≡ ready zeroed spot new
  unfolding make_room
  is_ready = rw (ne_test (t.disk c.node).parent 0 has_parent)

  -- A leaf at the place of the cursor's key, whose parent has room and whose halves have a separator,
  -- is split without error: its elements are kept in two leaves in order, the parent has their
  -- separator and stays in order, other nodes are unchanged, and the cursor stands at the place of its
  -- key in one of the leaves, between its bounds.
  pub btree_split_leaf-HasSplit :
      CanSplit (t.disk c.node) (t.disk c.parent) c.parent_index c split
      → Returns
          (btree_split_leaf hmp 0 root (got new) t c)
          (HasSplit t c (t.disk c.node) (t.disk c.parent) spot new split)
  unfolding btree_split_leaf
  btree_split_leaf-HasSplit k =
      rw (IsPlaced-leaf_checks _ c k.ok split k.some_left k.some_right, is_ready)
        (Returns-map (finish_leaf c split (ready zeroed spot new))
          (HasSplit-from t zeroed c _ _ spot new split (λ a x y. write_ne t.disk new a zero_node x)
            refl)
          (finish_leaf-HasSplit zeroed c spot new split apart
            (ap (λ n. length (n.elms)) (write_same t.disk new zero_node)) _ _
            (sym (write_ne t.disk new c.node zero_node (λ e. apart.new_old (sym e))))
            (sym (write_ne t.disk new c.parent zero_node (λ e. apart.new_parent (sym e)))) k))
