-- ===== src/Btree/Split/Leaf.antt =====
-- The nodes and the cursor after a split of a full leaf.
use native.Mathlib.Nat.{le_trans, lt_trans, lt_of_le_of_lt, le_of_lt, le_refl}
use mathlib.Core.Path.{subst, subst₂}
use hammer_linux.Base.{
  ℕ, ◌+◌, ◌-◌, ◌≤◌, ◌<◌, ◌≡◌, ◌↔◌, ◌⊎◌, refl, sym, ap, ◌∙◌, inl, inr, arith, length, Bool, true,
  false, Bool-cases, if◌then◌else◌, ltb, ◌==◌, ◌&&◌, ◌||◌,
}
use hammer_linux.Base.Int.{ℤ, pos, ◌<ℤ◌, leb_ℤ}
use hammer_linux.Btree.Elm.{BaseElm, BtreeElm, IsBase, NodeOndisk, internal, type_leaf, leaf_elms}
use hammer_linux.Btree.Cmp.{hammer_btree_cmp, rank, cmp-lt_rank}
use hammer_linux.Btree.Separator.{hammer_make_separator}
use hammer_linux.Btree.Separator.Cases.{Fits}
use hammer_linux.Btree.Separator.Order.{hammer_make_separator-IsBase, sep_rank}
use hammer_linux.Btree.Search.{base_at}
use hammer_linux.Btree.Search.Shortcut.{IsSorted, rank_mono}
use hammer_linux.Btree.Leaf.Insert.{elm_at}
use hammer_linux.Btree.Tree.{type_byte, Tree, Cursor}
use hammer_linux.Btree.Split.{Spot, Family, split_leaf_nodes, settle, in_new_leaf}
use hammer_linux.Btree.Split.Halves.{
  right_half-elm_at, right_half-base_at, length-right_half, right_half-IsSorted, separator_self,
  separator_elm, separator_elm_before, separator_elm_after, separator_before, separator_after,
  add_separator-IsSorted,
}
use hammer_linux.Btree.Split.Placed.{IsPlaced, IsParent}

-- The family after a split at `split`: the elements are where they were or `split` further to the
-- left, the separator lies between the halves, and the parent is in order and has one element more,
-- which refers to the new node.
pub record IsSplit (node p : NodeOndisk) (i new split : ℕ) (f : Family) : Type 0 where
  pub old_count : f.old.count ≡ split
  pub new_count : split + f.new.count ≡ node.count
  pub old_elms : (j : ℕ) → j < split → elm_at f.old.elms j ≡ elm_at node.elms j
  pub new_elms : (j : ℕ) → j < f.new.count → elm_at f.new.elms j ≡ elm_at node.elms (split + j)
  pub old_slots : length f.old.elms ≡ leaf_elms
  pub new_slots : length f.new.elms ≡ leaf_elms
  pub sep_left : rank (base_at f.old (split - 1)) < rank (base_at f.parent (i + 1))
  pub sep_right : rank (base_at f.parent (i + 1)) ≤ rank (base_at f.new 0)
  pub parent_count : f.parent.count ≡ p.count + 1
  pub parent_order : IsSorted f.parent (p.count + 2)
  pub reference : (elm_at f.parent.elms (i + 1)).payload ≡ internal f.new.mirror_tid new
  pub reference_type : (elm_at f.parent.elms (i + 1)).base.btype ≡ type_byte f.new.type
  pub parent_before : (j : ℕ) → j ≤ i → elm_at f.parent.elms j ≡ elm_at p.elms j
  pub parent_after :
      (j : ℕ) → i + 1 < j → j ≤ p.count + 1 → elm_at f.parent.elms j ≡ elm_at p.elms (j - 1)

-- What the choice between the leaves says, by the sign of the comparison with the separator.
chose_new :
    (split index : ℕ) (r : ℤ) (m n : ℕ)
    → (r <ℤ pos 0) ↔ (m < n)
    → (ltb split index || ((index == split) && leb_ℤ (pos 0) r)) ≡ true
    → (split < index) ⊎ ((index ≡ split) × (n ≤ m))
chose_new split index r m n h e = ground arith

chose_old :
    (split index : ℕ) (r : ℤ) (m n : ℕ)
    → (r <ℤ pos 0) ↔ (m < n)
    → (ltb split index || ((index == split) && leb_ℤ (pos 0) r)) ≡ false
    → (index < split) ⊎ ((index ≡ split) × (m < n))
chose_old split index r m n h e = ground arith

module _ (t : Tree) (c : Cursor) (s : Spot) (new split : ℕ) (ok : IsPlaced (t.disk c.node) c)
    (par : IsParent (t.disk s.parent) s.parent_index c)
    (empty : length (t.disk new).elms ≡ leaf_elms) (some_left : 0 < split)
    (some_right : split + 1 < (t.disk c.node).count) (full : (t.disk c.node).count ≤ leaf_elms)
    (fits : Fits (base_at (t.disk c.node) (split - 1)) (base_at (t.disk c.node) split)) where
  abbrev node : NodeOndisk
  node = t.disk c.node

  abbrev p : NodeOndisk
  p = t.disk s.parent

  abbrev blank : NodeOndisk
  blank = record (t.disk new) { type = type_leaf }

  abbrev i : ℕ
  i = s.parent_index

  abbrev sep : BaseElm
  sep = hammer_make_separator (base_at node (split - 1)) (base_at node split)

  left_IsBase : IsBase (base_at node (split - 1))
  left_IsBase = ok.sorted.words (split - 1) (omega arith)

  sep-IsBase : IsBase sep
  sep-IsBase = hammer_make_separator-IsBase _ _ left_IsBase (ok.sorted.words split (omega arith))

  sep_between :
      (rank (base_at node (split - 1)) < rank sep) × (rank sep ≤ rank (base_at node split))
  sep_between =
      sep_rank _ _ left_IsBase (ok.sorted.words split (omega arith)) fits
        (ok.sorted.sorted (split - 1) split (omega arith) (omega arith))

  sep_low : rank (base_at p i) < rank sep
  sep_low =
      subst (λ x. x < rank sep) (sym par.left_same)
        (lt_of_le_of_lt
          (le_trans ok.first
            (rank_mono node node.count ok.sorted 0 (split - 1) (omega arith) (omega arith)))
          sep_between.0)

  sep_high : rank sep < rank (base_at p (i + 1))
  sep_high =
      subst (λ x. rank sep < x) (sym par.right_same)
        (lt_of_le_of_lt
          (le_trans sep_between.1 (
            rank_mono node node.count ok.sorted split (node.count - 1) (omega arith) (omega arith)))
          ok.last)

  abbrev f : Family
  f = split_leaf_nodes t c s new split

  sep_at : rank (base_at f.parent (i + 1)) ≡ rank sep
  unfolding split_leaf_nodes
  sep_at = ap (λ x. rank x) (separator_self p i sep f.new new par.parent_slots par.room par.inside)

  new_first : base_at f.new 0 ≡ base_at node split
  unfolding split_leaf_nodes
  new_first =
      right_half-base_at node blank split (node.count - split) s.parent ok.slots empty (omega arith)
        0 (omega arith)
      ∙ ap (λ x. base_at node x) (omega arith)

  pub split_leaf_nodes-IsSplit : IsSplit node p i new split f
  unfolding split_leaf_nodes base_at
  split_leaf_nodes-IsSplit = record {
    old_count = refl;
    new_count = omega arith;
    old_elms = λ j h. refl;
    new_elms = λ j h.
        right_half-elm_at node blank split (node.count - split) s.parent ok.slots empty
          (omega arith) j h;
    old_slots = ok.slots;
    new_slots =
        length-right_half node blank split (node.count - split) s.parent ok.slots empty
          (omega arith);
    sep_left = subst (λ x. rank (base_at node (split - 1)) < x) (sym sep_at) sep_between.0;
    sep_right = omega (arith, sep_at, ap (λ x. rank x) new_first, sep_between.1);
    parent_count = refl;
    parent_order =
        add_separator-IsSorted p i sep f.new new par.parent_slots par.room par.inside sep-IsBase
          par.parent_sorted sep_low sep_high;
    reference =
        ap BtreeElm.payload (separator_elm p i sep f.new new par.parent_slots par.room par.inside);
    reference_type =
        ap (λ e. BaseElm.btype (BtreeElm.base e))
          (separator_elm p i sep f.new new par.parent_slots par.room par.inside);
    parent_before = separator_elm_before p i sep f.new new par.parent_slots par.room par.inside;
    parent_after = separator_elm_after p i sep f.new new par.parent_slots par.room par.inside;
  }

  sep_IsBase_at : (j : ℕ) → j < p.count + 2 → IsBase (base_at f.parent j)
  sep_IsBase_at j h = split_leaf_nodes-IsSplit.parent_order.words j h

  bound_left : rank (base_at f.parent i) ≡ rank c.left_bound
  unfolding split_leaf_nodes
  bound_left =
      ap (λ x. rank x)
        (separator_before p i sep f.new new par.parent_slots par.room par.inside i (le_refl i))
      ∙ par.left_same

  bound_right : rank (base_at f.parent (i + 1 + 1)) ≡ rank c.right_bound
  unfolding split_leaf_nodes
  bound_right =
      ap (λ x. rank x) (separator_after p i sep f.new new par.parent_slots par.room par.inside)
      ∙ par.right_same

  old_base : (j : ℕ) → base_at f.old j ≡ base_at node j
  unfolding split_leaf_nodes base_at
  old_base j = refl

  new_base : (j : ℕ) → j < node.count - split → base_at f.new j ≡ base_at node (split + j)
  unfolding split_leaf_nodes
  new_base j h =
      right_half-base_at node blank split (node.count - split) s.parent ok.slots empty (omega arith)
        j h

  -- The old leaf has the place of a key below the separator.
  old-IsPlaced :
      c.index ≤ split → rank c.key_beg < rank sep → IsPlaced f.old (settle c s new split f false)
  unfolding settle split_leaf_nodes base_at
  old-IsPlaced h k = record {
    slots = ok.slots;
    sorted = record {
      words = λ j l. ok.sorted.words j (omega arith);
      sorted = λ a b l m. ok.sorted.sorted a b l (omega arith);
    };
    key_word = ok.key_word;
    left_word = sep_IsBase_at i (omega (arith, par.inside));
    right_word = sep_IsBase_at (i + 1) (omega (arith, par.inside));
    place = (h, ok.place.1, λ j l m. ok.place.2 j l (omega arith));
    filled = some_left;
    first = subst (λ x. x ≤ rank (base_at node 0)) (sym bound_left) ok.first;
    last = subst (λ x. rank (base_at node (split - 1)) < x) (sym sep_at) sep_between.0;
    key_left = subst (λ x. x ≤ rank c.key_beg) (sym bound_left) ok.key_left;
    key_right = subst (λ x. rank c.key_beg < x) (sym sep_at) k;
  }

  new_rank :
      (j : ℕ) → j < node.count - split → rank (base_at f.new j) ≡ rank (base_at node (split + j))
  new_rank j h = ap (λ x. rank x) (new_base j h)

  sep_same : (j : ℕ) → j < node.count - split → rank sep ≤ rank (base_at f.new j)
  sep_same j h =
      subst (λ x. rank sep ≤ x) (sym (new_rank j h))
        (le_trans sep_between.1
          (rank_mono node node.count ok.sorted split (split + j) (omega arith) (omega arith)))

  last_same : rank (base_at f.new (node.count - split - 1)) ≡ rank (base_at node (node.count - 1))
  last_same =
      new_rank (node.count - split - 1) (omega arith)
      ∙ ap (λ x. rank (base_at node x)) (omega arith)

  -- The new leaf has the place of a key at the separator or above.
  new-IsPlaced :
      split ≤ c.index → rank sep ≤ rank c.key_beg → IsPlaced f.new (settle c s new split f true)
  unfolding settle split_leaf_nodes
  new-IsPlaced h k = record {
    slots =
        length-right_half node blank split (node.count - split) s.parent ok.slots empty
          (omega arith);
    sorted =
        right_half-IsSorted node blank split (node.count - split) s.parent ok.slots empty
          (omega arith) node.count (omega arith) ok.sorted;
    key_word = ok.key_word;
    left_word = sep_IsBase_at (i + 1) (omega (arith, par.inside));
    right_word = sep_IsBase_at (i + 1 + 1) (omega (arith, par.inside));
    place = (
      omega (arith, ok.place.0),
      λ j l.
          subst (λ x. x < rank c.key_beg) (sym (new_rank j (omega (arith, ok.place.0))))
            (ok.place.1 (split + j) (omega arith)),
      λ j l m.
          subst (λ x. rank c.key_beg < x) (sym (new_rank j m))
            (ok.place.2 (split + j) (omega arith) (omega arith)),
    );
    filled = omega arith;
    first = subst (λ x. x ≤ rank (base_at f.new 0)) (sym sep_at) (sep_same 0 (omega arith));
    last = subst₂ (λ x y. x < y) (sym last_same) (sym bound_right) ok.last;
    key_left = subst (λ x. x ≤ rank c.key_beg) (sym sep_at) k;
    key_right = subst (λ x. rank c.key_beg < x) (sym bound_right) ok.key_right;
  }

  key_order :
      (hammer_btree_cmp c.key_beg (base_at f.parent (i + 1)) <ℤ pos 0)
      ↔ (rank c.key_beg < rank (base_at f.parent (i + 1)))
  key_order = cmp-lt_rank _ _ ok.key_word (sep_IsBase_at (i + 1) (omega (arith, par.inside)))

  above_sep : in_new_leaf c s split f ≡ true → (split ≤ c.index) × (rank sep ≤ rank c.key_beg)
  unfolding in_new_leaf
  above_sep e = elim (chose_new split c.index _ _ _ key_order e) [
    | inl h ↦ (le_of_lt h, le_of_lt (lt_of_le_of_lt sep_between.1 (ok.place.1 split h)))
    | inr (same, h) ↦ (omega arith, subst (λ x. x ≤ rank c.key_beg) sep_at h)
  ]

  below_sep : in_new_leaf c s split f ≡ false → (c.index ≤ split) × (rank c.key_beg < rank sep)
  unfolding in_new_leaf
  below_sep e = elim (chose_old split c.index _ _ _ key_order e) [
    | inl h ↦
        (le_of_lt h, lt_trans (ok.place.2 (split - 1) (omega arith) (omega arith)) sep_between.0)
    | inr (same, h) ↦ (omega arith, subst (λ x. rank c.key_beg < x) sep_at h)
  ]

  -- The leaf that the cursor stands on has the place of its key.
  abbrev Settled : Bool → Type 0
  Settled b = IsPlaced (if b then f.new else f.old) (settle c s new split f b)

  pub settle-IsPlaced : Settled (in_new_leaf c s split f)
  settle-IsPlaced = elim (Bool-cases (in_new_leaf c s split f)) [
    | inl e ↦ rw e (new-IsPlaced (above_sep e).0 (above_sep e).1)
    | inr e ↦ rw e (old-IsPlaced (below_sep e).0 (below_sep e).1)
  ]
