-- ===== src/Tests/Splits.antt =====
-- Splits of a full leaf, of a root leaf and of an internal node.
use mathlib.Core.Path.{subst}
use hammer_linux.Base.{
  inl, inr, ℕ, zero, suc, ◌+◌, ◌*◌, ◌≤◌, ◌<◌, ◌≡◌, refl, sym, ap, ◌∙◌, arith, true, false, List, [],
  ◌∷◌, if◌then◌else◌, ◌==◌,
}
use hammer_linux.Base.Outcome.{Returns}
use hammer_linux.Btree.Elm.{
  BaseElm, BtreeElm, IsBase, NodeOndisk, NodeType, internal, leaf, type_leaf, type_internal,
}
use hammer_linux.Btree.Cmp.{rank}
use hammer_linux.Btree.Search.{base_at}
use hammer_linux.Btree.Search.Shortcut.{IsSorted}
use hammer_linux.Btree.Leaf.{hammer_btree_insert}
use hammer_linux.Btree.Leaf.Insert.{elm_at}
use hammer_linux.Btree.Tree.{Tree, Cursor, Mount, Alloc, got, refused, zero_node, subtree_offset}
use hammer_linux.Btree.Separator.Cases.{Fits}
use hammer_linux.Btree.Split.{Spot, btree_split_leaf, btree_split_internal, new_root}
use hammer_linux.Btree.Split.Placed.{IsPlaced, IsParent, IsPlaced-leaf_checks}
use hammer_linux.Btree.Split.Full.{AreApart, CanSplit, HasSplit, btree_split_leaf-HasSplit}
use hammer_linux.Btree.Split.Root.{IsNewRoot, IsRootCursor, btree_split_leaf-IsNewRoot}
use hammer_linux.Btree.Split.Errors.{Failed, btree_split_leaf-Failed, btree_split_internal-Failed}
use hammer_linux.Btree.Split.Inner.{IsInner}
use hammer_linux.Btree.Split.Node.{HasSplitInner, child, btree_split_internal-HasSplitInner}
use hammer_linux.Btree.Split.Insertion.{
  IsInserted, leaf_cursor, btree_split_leaf-hammer_btree_insert,
}
use hammer_linux.Tests.Keys.{record_at, record_at-IsBase}

abbrev elm : ℕ → BtreeElm
elm key = record { base = record_at key; payload = leaf 0 0 0 0 0 }

abbrev pub child_elm : ℕ → BtreeElm
child_elm key = record {
  base = record (record_at key) { btype = 0x4C };
  payload = internal 0 (key + 0x100000);
}

pub child_elm-IsBase : (key : ℕ) → key < 1000 → IsBase (child_elm key).base
child_elm-IsBase key h = record {
  obj_id_word = omega arith;
  key_word = omega arith;
  create_word = omega arith;
  delete_word = omega arith;
  rec_word = omega arith;
  localization_word = omega arith;
}

-- The elements of keys `10 * i`, for `n` values of `i`.
abbrev pub ladder : (ℕ → BtreeElm) → (n i : ℕ) → List BtreeElm
ladder make zero i = []
ladder make (suc n) i = make (10 * i) ∷ ladder make n (i + 1)

ladder-elm_at :
    (make : ℕ → BtreeElm) (n i j : ℕ) → j < n → elm_at (ladder make n i) j ≡ make (10 * (i + j))
ladder-elm_at make zero i j h = absurd (omega arith)
ladder-elm_at make (suc n) i zero h = ap (λ k. make (10 * k)) (omega arith)
ladder-elm_at make (suc n) i (suc j) h =
    ladder-elm_at make n (i + 1) j (omega arith) ∙ ap (λ k. make (10 * k)) (omega arith)

-- A node with such elements.
abbrev ladder_node : NodeType → (ℕ → BtreeElm) → (parent count : ℕ) → NodeOndisk
ladder_node type make parent count = record {
  parent = parent;
  count = count;
  type = type;
  mirror_tid = 0;
  elms = ladder make 63 0;
}

module _ (node : NodeOndisk) (b : ℕ → BaseElm)
    (same : (j : ℕ) → j < 63 → base_at node j ≡ b (10 * (0 + j)))
    (words : (key : ℕ) → key < 1000 → IsBase (b key))
    (rising : (k l : ℕ) → k < l → l < 1000 → rank (b k) < rank (b l)) where
  pub rising-IsSorted : (n : ℕ) → n ≤ 63 → IsSorted node n
  rising-IsSorted n h = record {
    words = λ i l. subst IsBase (sym (same i (omega arith))) (words (10 * (0 + i)) (omega arith));
    sorted = λ i j l k. omega (
      arith,
      ap (λ x. rank x) (same i (omega arith)),
      ap (λ x. rank x) (same j (omega arith)),
      rising (10 * (0 + i)) (10 * (0 + j)) (omega arith) (omega arith),
    );
  }

pub record_at-rising : (k l : ℕ) → k < l → l < 1000 → rank (record_at k) < rank (record_at l)
record_at-rising k l h m = omega arith

pub small_IsBase : (key : ℕ) → key < 1000 → IsBase (record_at key)
small_IsBase key h = record_at-IsBase key (omega arith)

-- A full leaf of the keys 0, 10, …, 620, below a parent or as the root.
abbrev pub full_leaf : ℕ → NodeOndisk
full_leaf parent = ladder_node type_leaf elm parent 63

pub full_leaf-base_at :
    (parent j : ℕ) → j < 63 → base_at (full_leaf parent) j ≡ record_at (10 * (0 + j))
unfolding base_at
full_leaf-base_at parent j h = ap BtreeElm.base (ladder-elm_at elm 63 0 j h)

pub full_leaf-rank :
    (parent j : ℕ) → j < 63 → rank (base_at (full_leaf parent) j) ≡ rank (record_at (10 * j))
full_leaf-rank parent j h =
    ap (λ x. rank x) (full_leaf-base_at parent j h) ∙ ap (λ k. rank (record_at k)) (omega arith)

-- A parent of that one leaf.
abbrev one_child : NodeOndisk
one_child = record {
  parent = 0;
  count = 1;
  type = type_internal;
  mirror_tid = 0;
  elms = child_elm 0 ∷ ladder child_elm 62 99;
}

abbrev pub hmp : Mount
hmp = record { root_btree_beg = record_at 0; root_btree_end = record_at 990 }

abbrev tree : NodeOndisk → Tree
tree node = record {
  disk = λ a. if a == 0x1000 then node else if a == 0x2000 then one_child else zero_node;
  cursor_list = λ a. record { index = 40; ripout = false } ∷ [];
  vol0_btree_root = 0x2000;
}

-- A cursor at the place of key 155.
abbrev at_155 : ℕ → Cursor
at_155 parent = record {
  node = 0x1000;
  index = 16;
  parent = parent;
  parent_index = 0;
  key_beg = record_at 155;
  left_bound = record_at 0;
  right_bound = record_at 990;
}

at_155-IsPlaced : (parent offset : ℕ) → IsPlaced (full_leaf parent) (at_155 offset)
at_155-IsPlaced parent offset = record {
  slots = refl;
  sorted =
      rising-IsSorted (full_leaf parent) record_at (full_leaf-base_at parent) small_IsBase
        record_at-rising 63 (omega arith);
  key_word = small_IsBase 155 (omega arith);
  left_word = small_IsBase 0 (omega arith);
  right_word = small_IsBase 990 (omega arith);
  place = (
    omega arith,
    λ j h. omega (
      arith,
      full_leaf-rank parent j (omega arith),
      record_at-rising (10 * j) 155 (omega arith) (omega arith),
    ),
    λ j h k. omega (
      arith,
      full_leaf-rank parent j k,
      record_at-rising 155 (10 * j) (omega arith) (omega arith),
    ),
  );
  filled = omega arith;
  first = omega (arith, full_leaf-rank parent 0 (omega arith));
  last = omega (arith, full_leaf-rank parent 62 (omega arith));
  key_left = omega arith;
  key_right = omega arith;
}

one_child-IsSorted : IsSorted one_child 2
unfolding base_at
one_child-IsSorted = record { words = λ i h. words i h; sorted = λ i j p q. sorted i j p q }
  where
    words : (i : ℕ) → i < 2 → IsBase (base_at one_child i)
    words zero h = child_elm-IsBase 0 (omega arith)
    words (suc zero) h = child_elm-IsBase 990 (omega arith)
    words (suc (suc i)) h = absurd (omega arith)

    sorted : (i j : ℕ) → i < j → j < 2 → rank (base_at one_child i) < rank (base_at one_child j)
    sorted i zero p q = absurd (omega arith)
    sorted zero (suc zero) p q = omega arith
    sorted (suc i) (suc zero) p q = absurd (omega arith)
    sorted i (suc (suc j)) p q = absurd (omega arith)

one_child-IsParent : IsParent one_child 0 (at_155 0x2000)
unfolding base_at
one_child-IsParent = record {
  parent_slots = refl;
  parent_sorted = one_child-IsSorted;
  room = omega arith;
  inside = omega arith;
  left_same = refl;
  right_same = refl;
}

leaf-Fits : (parent : ℕ) → Fits (base_at (full_leaf parent) 30) (base_at (full_leaf parent) 31)
unfolding base_at
leaf-Fits parent = record {
  localization_fits = omega arith;
  obj_id_fits = omega arith;
  key_fits = omega arith;
}

can_split : CanSplit (full_leaf 0x2000) one_child 0 (at_155 0x2000) 31
can_split = record {
  ok = at_155-IsPlaced 0x2000 0x2000;
  par = one_child-IsParent;
  some_left = omega arith;
  some_right = omega arith;
  full = omega arith;
  fits = leaf-Fits 0x2000;
  at_leaf = refl;
}

abbrev spot_2000 : Spot
spot_2000 = record { parent = 0x2000; parent_index = 0; made_root = false }

apart : AreApart 0x1000 0x3000 0x2000
apart = record {
  new_old = λ e. omega arith;
  new_parent = λ e. omega arith;
  old_parent = λ e. omega arith;
}

btree_split_leaf-HasSplit_example :
    Returns
      (btree_split_leaf hmp 0 (got 0x4000) (got 0x3000) (tree (full_leaf 0x2000)) (at_155 0x2000))
      (HasSplit
        (tree (full_leaf 0x2000))
        (at_155 0x2000)
        (full_leaf 0x2000)
        one_child
        spot_2000
        0x3000
        31)
btree_split_leaf-HasSplit_example =
    btree_split_leaf-HasSplit hmp (tree (full_leaf 0x2000)) (at_155 0x2000) (got 0x4000) 0x3000
      apart (λ e. omega arith) can_split

abbrev tree_2000 : Tree
tree_2000 = tree (full_leaf 0x2000)

btree_split_leaf-hammer_btree_insert_example :
    Returns (btree_split_leaf hmp 0 (got 0x4000) (got 0x3000) tree_2000 (at_155 0x2000)) (λ r.
      Returns (hammer_btree_insert 0 (leaf_cursor r.1 r.2) (elm 155)) (IsInserted r (elm 155)))
btree_split_leaf-hammer_btree_insert_example =
    btree_split_leaf-hammer_btree_insert hmp tree_2000 (at_155 0x2000) (got 0x4000) 0x3000 (elm 155)
      apart (λ e. omega arith) can_split refl (λ e. omega arith)

at_root : IsRootCursor hmp (at_155 0)
at_root = record {
  beg_word = small_IsBase 0 (omega arith);
  end_word = small_IsBase 990 (omega arith);
  whole = omega arith;
  at_beg = refl;
  at_end = refl;
}

abbrev tree_0 : Tree
tree_0 = tree (full_leaf 0)

btree_split_leaf-IsNewRoot_example :
    Returns (btree_split_leaf hmp 0 (got 0x4000) (got 0x3000) tree_0 (at_155 0)) (λ r.
      HasSplit tree_0
        (at_155 0)
        (full_leaf 0)
        (new_root hmp (full_leaf 0) 0x1000)
        (record { parent = 0x4000; parent_index = 0; made_root = true })
        0x3000
        31
        r
      × IsNewRoot hmp (full_leaf 0) 0x1000 (r.1.disk 0x4000))
btree_split_leaf-IsNewRoot_example =
    btree_split_leaf-IsNewRoot hmp tree_0 (at_155 0) 0x4000 0x3000
      (record {
        new_old = λ e. omega arith;
        new_parent = λ e. omega arith;
        old_parent = λ e. omega arith;
      })
      refl at_root (at_155-IsPlaced 0 0) refl (leaf-Fits 0) refl

abbrev is_got : Alloc → ℕ
is_got (got offset) = 1
is_got (refused error) = 0

-- The lock is not upgraded, though there is space.
btree_split_leaf-Failed_example :
    Returns
      (btree_split_leaf hmp 11 (got 0x4000) (got 0x3000) tree_0 (at_155 0))
      (Failed (got 0x4000) tree_0 (at_155 0))
btree_split_leaf-Failed_example =
    btree_split_leaf-Failed hmp 11 (got 0x4000) (got 0x3000) tree_0 (at_155 0)
      (inl (λ e. omega arith))
      (IsPlaced-leaf_checks (full_leaf 0) (at_155 0) (at_155-IsPlaced 0 0) 31 (omega arith)
        (omega arith))

-- An internal node of 62 children.
abbrev full_inner : NodeOndisk
full_inner = ladder_node type_internal child_elm 0x2000 62

abbrev at_child_40 : Cursor
at_child_40 = record (at_155 0x2000) { index = 40 }

full_inner-elm_at : (j : ℕ) → j < 63 → elm_at full_inner.elms j ≡ child_elm (10 * (0 + j))
full_inner-elm_at j h = ladder-elm_at child_elm 63 0 j h

full_inner-base_at : (j : ℕ) → j < 63 → base_at full_inner j ≡ (child_elm (10 * (0 + j))).base
unfolding base_at
full_inner-base_at j h = ap BtreeElm.base (full_inner-elm_at j h)

full_inner-child : (j : ℕ) → j < 63 → child full_inner j ≡ 10 * (0 + j) + 0x100000
full_inner-child j h = ap (λ e. subtree_offset (BtreeElm.payload e)) (full_inner-elm_at j h)

full_inner-IsInner : IsInner full_inner at_child_40
full_inner-IsInner = record {
  slots = refl;
  sorted =
      rising-IsSorted full_inner (λ k. (child_elm k).base) full_inner-base_at child_elm-IsBase
        record_at-rising 63 (omega arith);
  left_word = small_IsBase 0 (omega arith);
  right_word = small_IsBase 990 (omega arith);
  at_child = omega arith;
  first = omega (arith, ap (λ x. rank x) (full_inner-base_at 0 (omega arith)));
  last = omega (arith, ap (λ x. rank x) (full_inner-base_at 62 (omega arith)));
}

btree_split_internal-HasSplitInner_example :
    Returns
      (btree_split_internal hmp 0 0 (got 0x4000) (got 0x3000) (tree full_inner) at_child_40)
      (HasSplitInner (tree full_inner) at_child_40 full_inner one_child spot_2000 0x3000 31)
btree_split_internal-HasSplitInner_example =
    btree_split_internal-HasSplitInner hmp (tree full_inner) at_child_40 (got 0x4000) 0x3000 apart
      (λ e. omega arith)
      (record {
        ok = full_inner-IsInner;
        par = one_child-at_40;
        some_left = omega arith;
        some_right = omega arith;
        full = omega arith;
        at_internal = refl;
        child_old = λ j h k e. omega (arith, full_inner-child j (omega arith), e);
        child_new = λ j h k e. omega (arith, full_inner-child j (omega arith), e);
        child_parent = λ j h k e. omega (arith, full_inner-child j (omega arith), e);
      })
  where
    one_child-at_40 : IsParent one_child 0 at_child_40
    one_child-at_40 = record {
      parent_slots = refl;
      parent_sorted = one_child-IsSorted;
      room = omega arith;
      inside = omega arith;
      left_same = one_child-IsParent.left_same;
      right_same = one_child-IsParent.right_same;
    }

btree_split_internal-Failed_example :
    Returns
      (btree_split_internal hmp 0 0 (got 0x4000) (refused 28) (tree full_inner) at_child_40)
      (Failed (got 0x4000) (tree full_inner) at_child_40)
btree_split_internal-Failed_example =
    btree_split_internal-Failed hmp 0 0 (got 0x4000) (refused 28) (tree full_inner) at_child_40
      (inr (inr (inr ((λ e. omega (arith, ap is_got e)), λ e. omega arith))))
