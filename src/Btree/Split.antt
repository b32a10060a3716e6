-- ===== src/Btree/Split.antt =====
-- Splits of full nodes: `btree_split_leaf`, `btree_split_internal` and `btree_set_parent`
-- (dfly/vfs/hammer/hammer_btree.c), `hammer_cursor_split_node` (dfly/vfs/hammer/hammer_cursor.c) and
-- the zeroing of a new node by `hammer_alloc_btree` (dfly/vfs/hammer/hammer_ondisk.c).
-- The locks enter as the error number of `hammer_btree_lock_children` and `hammer_cursor_upgrade`,
-- and the allocator as its answers. An error is returned with the tree and the cursor as they are
-- then.
pub mod Halves
pub mod Placed
pub mod Leaf
pub mod Full
pub mod Root
pub mod Errors
pub mod Inner
pub mod Children
pub mod Node
pub mod Insertion
use hammer_linux.Base.{
  ℕ, zero, suc, ◌+◌, ◌-◌, ◌/◌, Bool, true, false, not, List, [], ◌∷◌, ◌++◌, map, set, ltb, leb,
  ◌==◌, ◌&&◌, ◌||◌, if◌then◌else◌, take, drop,
}
use hammer_linux.Base.Int.{pos, leb_ℤ, ltb_ℤ}
use hammer_linux.Base.Array.{bcopy, overwrite}
use hammer_linux.Base.Outcome.{Outcome, done, fail, panic, ◌>>=◌, ◌>>◌, kkassert}
use hammer_linux.Base.{get_or}
use hammer_linux.Btree.Elm.{
  BaseElm, BtreeElm, NodeOndisk, NodeType, Payload, internal, type_leaf, type_internal, int_elms,
  zero_elm,
}
use hammer_linux.Btree.Cmp.{hammer_btree_cmp}
use hammer_linux.Btree.Search.{base_at}
use hammer_linux.Btree.Separator.{hammer_make_separator}
use hammer_linux.Btree.Leaf.{Tracked, hammer_cursor_inserted_element, is_leaf}
use hammer_linux.Btree.Tree.{
  Tree, Cursor, Mount, Alloc, got, refused, write, type_byte, zero_node, subtree_offset,
  mirror_tid_of,
}

-- How many elements stay in the old node.
abbrev pub split_point : (count index : ℕ) → ℕ
split_point count index =
    let split = (count + 1) / 2 in if leb index split then split - 1 else split

-- The new root over a node at `offset`.
pub new_root : Mount → NodeOndisk → (offset : ℕ) → NodeOndisk
new_root hmp node offset = record zero_node {
  count = 1;
  parent = 0;
  mirror_tid = node.mirror_tid;
  type = type_internal;
  elms =
      set
        (set zero_node.elms 0 (record {
          base = record (hmp.root_btree_beg) { btype = type_byte node.type };
          payload = internal 0 offset;
        }))
        1 (record { base = hmp.root_btree_end; payload = zero_elm.payload });
}

-- The element of the parent that refers to the node to be split.
pub record Spot : Type 0 where
  pub parent : ℕ
  pub parent_index : ℕ
  pub made_root : Bool

-- Whether there is room for the split: the zeroed new node, and a new root if it needs one.
pub data Room : Type 0 where
  no_room : (error : ℕ) → Tree → Room
  ready : Tree → Spot → (new : ℕ) → Room

abbrev new_half : Alloc → Tree → Spot → Room
new_half (refused error) t s = no_room error t
new_half (got new) t s = ready (record t { disk = write t.disk new zero_node }) s new

abbrev with_root : Mount → Alloc → Alloc → Tree → (node : ℕ) → Room
with_root hmp (refused error) half t node = no_room error t
with_root hmp (got root) half t node =
    new_half half (record t { disk = write t.disk root (new_root hmp (t.disk node) node) })
      (record { parent = root; parent_index = 0; made_root = true })

pub make_room : Mount → (root half : Alloc) → Tree → Cursor → Room
unfolding new_root
make_room hmp root half t c =
    if (t.disk c.node).parent == 0
    then with_root hmp root half t c.node
    else new_half half t
        (record { parent = c.parent; parent_index = c.parent_index; made_root = false })

-- The cursors from the split point on move along with the elements.
abbrev stays : ℕ → List Tracked → List Tracked
stays index [] = []
stays index (c ∷ cs) = let rest = stays index cs in if ltb c.index index then c ∷ rest else rest

abbrev moves : ℕ → List Tracked → List Tracked
moves index [] = []
moves index (c ∷ cs) =
    let rest = moves index cs in
    if ltb c.index index then rest else record c { index = c.index - index } ∷ rest

pub hammer_cursor_split_node : (onode nnode : List Tracked) → ℕ → List Tracked × List Tracked
hammer_cursor_split_node onode nnode index = (stays index onode, nnode ++ moves index onode)

-- The new node: `n` elements of the old one from the split point on.
abbrev pub right_half : (old new : NodeOndisk) → (split n parent : ℕ) → NodeOndisk
right_half old new split n parent = record new {
  elms = overwrite new.elms 0 (take n (drop split old.elms));
  count = old.count - split;
  parent = parent;
  mirror_tid = old.mirror_tid;
}

-- The separator and the reference to the new node after element `i` of the parent.
abbrev pub add_separator : NodeOndisk → (i : ℕ) → BaseElm → (new : NodeOndisk) → ℕ → NodeOndisk
add_separator p i base new offset = record p {
  elms = set (bcopy p.elms (i + 1) (i + 2) (p.count - i)) (i + 1) (record {
    base = record base { btype = type_byte new.type };
    payload = internal new.mirror_tid offset;
  });
  count = p.count + 1;
}

-- The node, its new sibling and its parent after a split.
pub record Family : Type 0 where
  pub old : NodeOndisk
  pub new : NodeOndisk
  pub parent : NodeOndisk

pub split_leaf_nodes : Tree → Cursor → Spot → (new split : ℕ) → Family
split_leaf_nodes t c s new split =
    let node = t.disk c.node in
    let half =
      right_half node (record (t.disk new) { type = type_leaf }) split (node.count - split)
        s.parent in
    record {
      old = record node { count = split; parent = if s.made_root then s.parent else node.parent };
      new = half;
      parent =
          add_separator (t.disk s.parent) s.parent_index
            (hammer_make_separator (base_at node (split - 1)) (base_at node split)) half new;
    }

-- elm->internal.subtree_offset = 0
abbrev pub no_subtree : BtreeElm → BtreeElm
no_subtree elm = record elm { payload = internal (mirror_tid_of elm.payload) 0 }

pub split_internal_nodes : Tree → Cursor → Spot → (new split : ℕ) → Family
split_internal_nodes t c s new split =
    let node = t.disk c.node in
    let half =
      right_half node (record (t.disk new) { type = type_internal }) split (node.count - split + 1)
        s.parent in
    record {
      old = record node {
        elms = set node.elms split (no_subtree (get_or node.elms split zero_elm));
        count = split;
        parent = if s.made_root then s.parent else node.parent;
      };
      new = half;
      parent = add_separator (t.disk s.parent) s.parent_index (base_at node split) half new;
    }

-- The tree with the nodes written, the cursors moved, and the root of the volume.
pub store_family : Tree → Cursor → Spot → (new split : ℕ) → Family → Tree
unfolding hammer_cursor_split_node
store_family t c s new split f =
    let lists = hammer_cursor_split_node (t.cursor_list c.node) (t.cursor_list new) split in
    let moved = write (write t.cursor_list c.node lists.0) new lists.1 in
    record {
      disk = write (write (write t.disk new f.new) c.node f.old) s.parent f.parent;
      cursor_list =
          write moved s.parent
            (hammer_cursor_inserted_element (moved s.parent) (s.parent_index + 1));
      vol0_btree_root = if s.made_root then s.parent else t.vol0_btree_root;
    }

-- The cursor after the split, on the old node or on the new one, with the bounds of the parent.
pub settle : Cursor → Spot → (new split : ℕ) → Family → (in_new : Bool) → Cursor
settle c s new split f in_new =
    let i = if in_new then s.parent_index + 1 else s.parent_index in
    record c {
      node = if in_new then new else c.node;
      index = if in_new then c.index - split else c.index;
      parent = s.parent;
      parent_index = i;
      left_bound = base_at f.parent i;
      right_bound = base_at f.parent (i + 1);
    }

-- The comparisons of the assertions.
abbrev pub at_or_above : BaseElm → BaseElm → Bool
at_or_above bound key = leb_ℤ (hammer_btree_cmp bound key) (pos 0)

abbrev pub below : BaseElm → BaseElm → Bool
below bound key = ltb_ℤ (pos 0) (hammer_btree_cmp bound key)

pub leaf_checks : NodeOndisk → Cursor → (split : ℕ) → Bool
leaf_checks node c split =
    at_or_above c.left_bound (base_at node 0)
    && below c.right_bound (base_at node (node.count - 1))
    && at_or_above c.left_bound (base_at node (split - 1))
    && at_or_above c.left_bound (base_at node split)
    && below c.right_bound (base_at node split)
    && below c.right_bound (base_at node (split + 1))

pub settled_checks : NodeOndisk → Cursor → Bool
settled_checks node c =
    at_or_above c.left_bound (base_at node 0)
    && below c.right_bound (base_at node (node.count - 1))
    && at_or_above c.left_bound c.key_beg
    && below c.right_bound c.key_beg

-- Where the key goes: to the new leaf behind the split point, and at the split point by the
-- separator.
pub in_new_leaf : Cursor → Spot → (split : ℕ) → Family → Bool
in_new_leaf c s split f =
    ltb split c.index
    || ((c.index == split)
        && leb_ℤ (pos 0) (hammer_btree_cmp c.key_beg (base_at f.parent (s.parent_index + 1))))

abbrev pub Result : Type 0
Result = ℕ × Tree × Cursor

pub finish_leaf : Cursor → (split : ℕ) → Room → Outcome Result
unfolding split_leaf_nodes store_family settle settled_checks in_new_leaf
finish_leaf c split (no_room error t) = done (error, t, c)
finish_leaf c split (ready t s new) = do
  kkassert (is_leaf (t.disk c.node).type)
  kkassert (not (split == 0))
  kkassert (not ((t.disk s.parent).count == int_elms))
  let f = split_leaf_nodes t c s new split
  let in_new = in_new_leaf c s split f
  let c' = settle c s new split f in_new
  kkassert (settled_checks (if in_new then f.new else f.old) c')
  done (0, store_family t c s new split f, c')

pub btree_split_leaf : Mount → (upgrade : ℕ) → (root half : Alloc) → Tree → Cursor → Outcome Result
unfolding make_room leaf_checks
btree_split_leaf hmp upgrade root half t c = if not (upgrade == 0) then done (upgrade, t, c) else do
  let node = t.disk c.node
  let split = split_point node.count c.index
  kkassert (leaf_checks node c split)
  finish_leaf c split (make_room hmp root half t c)

-- The parent pointers of the children from `i` on, with `rounds` elements left.
pub btree_set_parent : (ℕ → NodeOndisk) → (node : ℕ) → BtreeElm → ℕ → NodeOndisk
btree_set_parent disk node elm =
    if elm.base.btype == type_byte type_internal || elm.base.btype == type_byte type_leaf
    then write disk (subtree_offset elm.payload)
        (record (disk (subtree_offset elm.payload)) { parent = node })
    else disk

pub set_parents : (rounds i : ℕ) → (new : ℕ) → NodeOndisk → (ℕ → NodeOndisk) → ℕ → NodeOndisk
unfolding btree_set_parent
set_parents zero i new node disk = disk
set_parents (suc rounds) i new node disk =
    set_parents rounds (i + 1) new node (btree_set_parent disk new (get_or node.elms i zero_elm))

pub bounds_checks : NodeOndisk → Cursor → Bool
bounds_checks node c =
    at_or_above c.left_bound (base_at node 0)
    && leb_ℤ (pos 0) (hammer_btree_cmp c.right_bound (base_at node node.count))

pub finish_internal : Cursor → (split : ℕ) → Room → Outcome Result
unfolding split_internal_nodes store_family settle set_parents bounds_checks
finish_internal c split (no_room error t) = done (error, t, c)
finish_internal c split (ready t s new) = do
  kkassert (not (is_leaf (t.disk c.node).type))
  kkassert (not ((t.disk s.parent).count == int_elms))
  let f = split_internal_nodes t c s new split
  let in_new = leb split c.index
  let c' = settle c s new split f in_new
  let t' = store_family t c s new split f
  kkassert (bounds_checks (if in_new then f.new else f.old) c')
  done (0, record t' { disk = set_parents f.new.count 0 new f.new t'.disk }, c')

pub btree_split_internal :
    Mount → (lock_children upgrade : ℕ) → (root half : Alloc) → Tree → Cursor → Outcome Result
unfolding make_room
btree_split_internal hmp lock_children upgrade root half t c =
    if not (lock_children == 0)
    then done (lock_children, t, c)
    else if not (upgrade == 0)
    then done (upgrade, t, c)
    else finish_internal c (split_point (t.disk c.node).count c.index) (make_room hmp root half t c)
