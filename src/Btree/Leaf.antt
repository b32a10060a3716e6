-- ===== src/Btree/Leaf.antt =====
-- Changes of the elements of one leaf: `hammer_btree_insert`, and `hammer_btree_delete` up to the
-- removal of an empty leaf (dfly/vfs/hammer/hammer_btree.c), with the tracking of the other cursors
-- that stand on the node (dfly/vfs/hammer/hammer_cursor.c).
-- The lock of the node enters as the error number that `hammer_cursor_upgrade` returns; marking the
-- buffer as modified has no effect on the elements. The assertions of `hammer_btree_delete` on the
-- transaction's lock and on the parent of the node are left out.
pub mod Insert
pub mod Delete
use hammer_linux.Base.{
  ℕ, zero, suc, ◌+◌, ◌-◌, Bool, true, false, not, List, map, set, ltb, leb, ◌==◌, ◌&&◌, ◌||◌,
  if◌then◌else◌,
}
use hammer_linux.Base.Int.{pos, negsuc, leb_ℤ, ltb_ℤ}
use hammer_linux.Base.Array.{bcopy}
use hammer_linux.Base.Outcome.{Outcome, done, fail, panic, ◌>>=◌, ◌>>◌, kkassert}
use hammer_linux.Btree.Elm.{
  BaseElm, BtreeElm, NodeOndisk, NodeType, type_leaf, type_internal, leaf_elms,
}
use hammer_linux.Btree.Cmp.{hammer_btree_cmp}
use hammer_linux.Btree.Search.{base_at}

-- Another cursor on the node's cursor_list; `ripout` is HAMMER_CURSOR_TRACKED_RIPOUT.
pub record Tracked : Type 0 where
  pub index : ℕ
  pub ripout : Bool

pub inserted_one : ℕ → Tracked → Tracked
inserted_one index c = if leb index c.index then record c { index = c.index + 1 } else c

pub hammer_cursor_inserted_element : List Tracked → ℕ → List Tracked
unfolding inserted_one
hammer_cursor_inserted_element cursors index = map (inserted_one index) cursors

pub deleted_one : ℕ → Tracked → Tracked
deleted_one index c =
    if c.index == index
    then record c { ripout = true }
    else if ltb index c.index
    then record c { index = c.index - 1 }
    else c

pub hammer_cursor_deleted_element : List Tracked → ℕ → List Tracked
unfolding deleted_one
hammer_cursor_deleted_element cursors index = map (deleted_one index) cursors

-- A cursor at a leaf, with the bounds that its parent gives, and the other cursors there.
pub record LeafCursor : Type 0 where
  pub node : NodeOndisk
  pub index : ℕ
  pub left_bound : BaseElm
  pub right_bound : BaseElm
  pub cursor_list : List Tracked

abbrev pub is_leaf : NodeType → Bool
is_leaf type_leaf = true
is_leaf type_internal = false

-- The elements and the count after an insertion at `i`.
abbrev pub insert_at : NodeOndisk → ℕ → BtreeElm → NodeOndisk
insert_at node i elm = record node {
  count = node.count + 1;
  elms =
      set (if i == node.count then node.elms else bcopy node.elms i (i + 1) (node.count - i)) i elm;
}

abbrev pub raise_tid : ℕ → ℕ → Bool → ℕ × Bool
raise_tid tid by prop = if ltb tid by then (by, true) else (tid, prop)

-- The aggregate `mirror_tid`, and whether it changed (`*doprop`).
abbrev pub update_mirror_tid : NodeOndisk → BaseElm → NodeOndisk × Bool
update_mirror_tid node base =
    let (tid1, prop1) = raise_tid node.mirror_tid base.delete_tid false in
    let (tid2, prop2) = raise_tid tid1 base.create_tid prop1 in
    (record node { mirror_tid = tid2 }, prop2)

-- The assertions after the insertion.
abbrev pub insert_checks : LeafCursor → NodeOndisk → ℕ → BaseElm → Bool
insert_checks c node i base =
    leb_ℤ (hammer_btree_cmp c.left_bound base) (pos 0)
    && ltb_ℤ (pos 0) (hammer_btree_cmp c.right_bound base)
    && (i == 0 || ltb_ℤ (hammer_btree_cmp (base_at node (i - 1)) base) (pos 0))
    && (i == node.count - 1 || ltb_ℤ (pos 0) (hammer_btree_cmp (base_at node (i + 1)) base))

pub hammer_btree_insert : (upgrade : ℕ) → LeafCursor → BtreeElm → Outcome (LeafCursor × Bool)
unfolding hammer_cursor_inserted_element
hammer_btree_insert upgrade c elm = if not (upgrade == 0) then fail upgrade else do
  kkassert (not (elm.base.btype == 0))
  kkassert (is_leaf c.node.type)
  kkassert (ltb c.node.count leaf_elms)
  let updated = update_mirror_tid (insert_at c.node c.index elm) elm.base
  kkassert (insert_checks c updated.0 c.index elm.base)
  done (
    record c {
      node = updated.0;
      cursor_list = hammer_cursor_inserted_element c.cursor_list c.index;
    },
    updated.1,
  )

-- The elements and the count after a deletion at `i`.
abbrev pub delete_at : NodeOndisk → ℕ → NodeOndisk
delete_at node i = record node {
  count = node.count - 1;
  elms = if i + 1 == node.count then node.elms else bcopy node.elms (i + 1) i (node.count - i - 1);
}

pub hammer_btree_delete_elm : (upgrade : ℕ) → LeafCursor → Outcome LeafCursor
unfolding hammer_cursor_deleted_element
hammer_btree_delete_elm upgrade c = if not (upgrade == 0) then fail upgrade else do
  kkassert (is_leaf c.node.type)
  kkassert (ltb c.index c.node.count)
  done (record c {
    node = delete_at c.node c.index;
    cursor_list = hammer_cursor_deleted_element c.cursor_list c.index;
  })
