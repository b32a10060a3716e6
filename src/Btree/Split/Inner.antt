-- ===== src/Btree/Split/Inner.antt =====
-- The nodes after a split of a full internal node.
use native.Mathlib.Nat.{lt_of_lt_of_le, lt_of_le_of_lt}
use mathlib.Core.Path.{subst}
use hammer_linux.Base.{
  ℕ, ◌+◌, ◌-◌, ◌≤◌, ◌<◌, ◌≡◌, refl, sym, ap, ◌∙◌, inl, inr, arith, length, Bool, true, false,
  Bool-cases, if◌then◌else◌, leb, ◌==◌,
}
use hammer_linux.Base.Array.{length-set, get_or-set_self, get_or-set_ne}
use hammer_linux.Base.Int.{pos, ◌≤ℤ◌, leb_ℤ}
use hammer_linux.Btree.Elm.{
  BaseElm, BtreeElm, IsBase, NodeOndisk, internal, type_internal, leaf_elms, int_elms, zero_elm,
}
use hammer_linux.Btree.Cmp.{rank, cmp-ge_rank}
use hammer_linux.Btree.Search.{base_at}
use hammer_linux.Btree.Search.Shortcut.{IsSorted}
use hammer_linux.Btree.Leaf.Insert.{elm_at}
use hammer_linux.Btree.Tree.{type_byte, Tree, Cursor, subtree_offset}
use hammer_linux.Btree.Split.{Spot, Family, split_internal_nodes, settle, bounds_checks, no_subtree}
use hammer_linux.Btree.Split.Halves.{
  right_half-elm_at, right_half-base_at, length-right_half, right_half-IsSorted, separator_self,
  separator_elm, separator_elm_before, separator_elm_after, separator_before, separator_after,
  add_separator-IsSorted,
}
use hammer_linux.Btree.Split.Placed.{IsParent, test_above}

-- A cursor at a child of an internal node whose boundaries are in order, within the cursor's bounds.
pub record IsInner (node : NodeOndisk) (c : Cursor) : Type 0 where
  pub slots : length node.elms ≡ leaf_elms
  pub sorted : IsSorted node (node.count + 1)
  pub left_word : IsBase c.left_bound
  pub right_word : IsBase c.right_bound
  pub at_child : c.index < node.count
  pub first : rank c.left_bound ≤ rank (base_at node 0)
  pub last : rank (base_at node node.count) ≤ rank c.right_bound

pub IsInner-bounds_checks :
    (node : NodeOndisk) (c : Cursor) → IsInner node c → bounds_checks node c ≡ true
unfolding bounds_checks
IsInner-bounds_checks node c ok =
    rw (test_above _ _ ok.left_word (ok.sorted.words 0 (omega arith)) ok.first) (
      right_test _
        (cmp-ge_rank _ _ ok.right_word (ok.sorted.words node.count (omega arith)) ok.last))
  where
    right_test : (r : _) → pos 0 ≤ℤ r → leb_ℤ (pos 0) r ≡ true
    right_test r h = ground arith

-- The family after a split at `split`: the children are where they were or `split` further to the
-- left, the boundary at the split is the last one of the old node, without a child, and the first one
-- of the new node, and separates the two in the parent.
pub record IsSplitInner (node p : NodeOndisk) (i new split : ℕ) (f : Family) : Type 0 where
  pub old_count : f.old.count ≡ split
  pub new_count : split + f.new.count ≡ node.count
  pub old_elms : (j : ℕ) → j < split → elm_at f.old.elms j ≡ elm_at node.elms j
  pub boundary : base_at f.old split ≡ base_at node split
  pub no_child : subtree_offset (elm_at f.old.elms split).payload ≡ 0
  pub new_elms : (j : ℕ) → j ≤ f.new.count → elm_at f.new.elms j ≡ elm_at node.elms (split + j)
  pub old_slots : length f.old.elms ≡ leaf_elms
  pub new_slots : length f.new.elms ≡ leaf_elms
  pub old_order : IsSorted f.old (split + 1)
  pub new_order : IsSorted f.new (f.new.count + 1)
  pub separator : rank (base_at f.parent (i + 1)) ≡ rank (base_at node split)
  pub parent_count : f.parent.count ≡ p.count + 1
  pub parent_order : IsSorted f.parent (p.count + 2)
  pub reference : (elm_at f.parent.elms (i + 1)).payload ≡ internal f.new.mirror_tid new
  pub reference_type : (elm_at f.parent.elms (i + 1)).base.btype ≡ type_byte f.new.type
  pub parent_before : (j : ℕ) → j ≤ i → elm_at f.parent.elms j ≡ elm_at p.elms j
  pub parent_after :
      (j : ℕ) → i + 1 < j → j ≤ p.count + 1 → elm_at f.parent.elms j ≡ elm_at p.elms (j - 1)

module _ (t : Tree) (c : Cursor) (s : Spot) (new split : ℕ) (ok : IsInner (t.disk c.node) c)
    (par : IsParent (t.disk s.parent) s.parent_index c)
    (empty : length (t.disk new).elms ≡ leaf_elms) (some_left : 0 < split)
    (some_right : split < (t.disk c.node).count) (full : (t.disk c.node).count ≤ int_elms) where
  abbrev node : NodeOndisk
  node = t.disk c.node

  abbrev p : NodeOndisk
  p = t.disk s.parent

  abbrev blank : NodeOndisk
  blank = record (t.disk new) { type = type_internal }

  abbrev i : ℕ
  i = s.parent_index

  abbrev sep : BaseElm
  sep = base_at node split

  sep-IsBase : IsBase sep
  sep-IsBase = ok.sorted.words split (omega arith)

  sep_low : rank (base_at p i) < rank sep
  sep_low =
      subst (λ x. x < rank sep) (sym par.left_same)
        (lt_of_le_of_lt ok.first (ok.sorted.sorted 0 split some_left (omega arith)))

  sep_high : rank sep < rank (base_at p (i + 1))
  sep_high =
      subst (λ x. rank sep < x) (sym par.right_same)
        (lt_of_lt_of_le (ok.sorted.sorted split node.count some_right (omega arith)) ok.last)

  abbrev f : Family
  f = split_internal_nodes t c s new split

  abbrev moved : ℕ
  moved = node.count - split + 1

  sep_at : rank (base_at f.parent (i + 1)) ≡ rank sep
  unfolding split_internal_nodes
  sep_at = ap (λ x. rank x) (separator_self p i sep f.new new par.parent_slots par.room par.inside)

  old_base : (j : ℕ) → j < split + 1 → base_at f.old j ≡ base_at node j
  unfolding split_internal_nodes base_at
  old_base j h = elim (Bool-cases (j == split)) [
    | inl e ↦ subst (λ x. base_at f.old x ≡ base_at node x) (ground arith) at_split
    | inr e ↦ ap BtreeElm.base (
        get_or-set_ne node.elms split j (no_subtree (elm_at node.elms split)) zero_elm
          (ground arith))
  ]
    where
      at_split : base_at f.old split ≡ base_at node split
      at_split = ap BtreeElm.base (
          get_or-set_self node.elms split (no_subtree (elm_at node.elms split)) zero_elm
            (omega (arith, ok.slots)))

  old_order : IsSorted f.old (split + 1)
  old_order = record {
    words = λ j h. subst IsBase (sym (old_base j h)) (ok.sorted.words j (omega arith));
    sorted = λ a b h k. omega (
      arith,
      ap (λ x. rank x) (old_base a (omega arith)),
      ap (λ x. rank x) (old_base b k),
      ok.sorted.sorted a b h (omega arith),
    );
  }

  pub split_internal_nodes-IsSplitInner : IsSplitInner node p i new split f
  unfolding split_internal_nodes base_at
  split_internal_nodes-IsSplitInner = record {
    old_count = refl;
    new_count = omega arith;
    old_elms = λ j h.
        get_or-set_ne node.elms split j (no_subtree (elm_at node.elms split)) zero_elm
          (omega arith);
    boundary = old_base split (omega arith);
    no_child =
        ap (λ x. subtree_offset (BtreeElm.payload x))
          (get_or-set_self node.elms split (no_subtree (elm_at node.elms split)) zero_elm
            (omega (arith, ok.slots)));
    new_elms = λ j h.
        right_half-elm_at node blank split moved s.parent ok.slots empty (omega arith) j
          (omega arith);
    old_slots = length-set node.elms split (no_subtree (elm_at node.elms split)) ∙ ok.slots;
    new_slots = length-right_half node blank split moved s.parent ok.slots empty (omega arith);
    old_order = old_order;
    new_order =
        right_half-IsSorted node blank split moved s.parent ok.slots empty (omega arith)
          (node.count + 1) (omega arith) ok.sorted;
    separator = sep_at;
    parent_count = refl;
    parent_order =
        add_separator-IsSorted p i sep f.new new par.parent_slots par.room par.inside sep-IsBase
          par.parent_sorted sep_low sep_high;
    reference =
        ap BtreeElm.payload (separator_elm p i sep f.new new par.parent_slots par.room par.inside);
    reference_type =
        ap (λ e. BaseElm.btype (BtreeElm.base e))
          (separator_elm p i sep f.new new par.parent_slots par.room par.inside);
    parent_before = separator_elm_before p i sep f.new new par.parent_slots par.room par.inside;
    parent_after = separator_elm_after p i sep f.new new par.parent_slots par.room par.inside;
  }

  bound_left : rank (base_at f.parent i) ≡ rank c.left_bound
  unfolding split_internal_nodes
  bound_left =
      ap (λ x. rank x)
        (separator_before p i sep f.new new par.parent_slots par.room par.inside i (omega arith))
      ∙ par.left_same

  bound_right : rank (base_at f.parent (i + 1 + 1)) ≡ rank c.right_bound
  unfolding split_internal_nodes
  bound_right =
      ap (λ x. rank x) (separator_after p i sep f.new new par.parent_slots par.room par.inside)
      ∙ par.right_same

  parent_words : (j : ℕ) → j < p.count + 2 → IsBase (base_at f.parent j)
  parent_words j h = split_internal_nodes-IsSplitInner.parent_order.words j h

  new_rank : (j : ℕ) → j < moved → rank (base_at f.new j) ≡ rank (base_at node (split + j))
  unfolding split_internal_nodes
  new_rank j h =
      ap (λ x. rank x)
        (right_half-base_at node blank split moved s.parent ok.slots empty (omega arith) j h)

  old-IsInner : c.index < split → IsInner f.old (settle c s new split f false)
  unfolding settle split_internal_nodes
  old-IsInner h = record {
    slots = length-set node.elms split (no_subtree (elm_at node.elms split)) ∙ ok.slots;
    sorted = old_order;
    left_word = parent_words i (omega (arith, par.inside));
    right_word = parent_words (i + 1) (omega (arith, par.inside));
    at_child = h;
    first = omega (arith, bound_left, ok.first, ap (λ x. rank x) (old_base 0 (omega arith)));
    last = omega (arith, sep_at, ap (λ x. rank x) (old_base split (omega arith)));
  }

  last_same : rank (base_at f.new (node.count - split)) ≡ rank (base_at node node.count)
  last_same =
      new_rank (node.count - split) (omega arith) ∙ ap (λ x. rank (base_at node x)) (omega arith)

  first_same : rank (base_at f.new 0) ≡ rank sep
  first_same = new_rank 0 (omega arith) ∙ ap (λ x. rank (base_at node x)) (omega arith)

  new-IsInner : split ≤ c.index → IsInner f.new (settle c s new split f true)
  unfolding settle split_internal_nodes
  new-IsInner h = record {
    slots = length-right_half node blank split moved s.parent ok.slots empty (omega arith);
    sorted =
        right_half-IsSorted node blank split moved s.parent ok.slots empty (omega arith)
          (node.count + 1) (omega arith) ok.sorted;
    left_word = parent_words (i + 1) (omega (arith, par.inside));
    right_word = parent_words (i + 1 + 1) (omega (arith, par.inside));
    at_child = omega (arith, ok.at_child);
    first = omega (arith, sep_at, first_same);
    last = omega (arith, bound_right, last_same, ok.last);
  }

  -- The cursor is at the same child as before.
  abbrev Settled : Bool → Type 0
  Settled b =
      IsInner (if b then f.new else f.old) (settle c s new split f b)
      × (elm_at (if b then f.new else f.old).elms (settle c s new split f b).index
          ≡ elm_at node.elms c.index)

  new-Settled : split ≤ c.index → Settled true
  unfolding settle split_internal_nodes
  new-Settled h = (
    new-IsInner h,
    right_half-elm_at node blank split moved s.parent ok.slots empty (omega arith) (c.index - split)
          (omega (arith, ok.at_child))
        ∙ ap (λ x. elm_at node.elms x) (omega arith),
  )

  old-Settled : c.index < split → Settled false
  unfolding settle split_internal_nodes
  old-Settled h = (
    old-IsInner h,
    get_or-set_ne node.elms split c.index (no_subtree (elm_at node.elms split)) zero_elm
        (omega arith),
  )

  pub settle-Settled : Settled (leb split c.index)
  settle-Settled = elim (Bool-cases (leb split c.index)) [
    | inl e ↦ rw e (new-Settled (ground arith))
    | inr e ↦ rw e (old-Settled (ground arith))
  ]
