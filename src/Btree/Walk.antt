-- ===== src/Btree/Walk.antt =====
-- Movements of a cursor over the tree: `hammer_cursor_up`, `hammer_cursor_down` and
-- `hammer_load_cursor_parent` (dfly/vfs/hammer/hammer_cursor.c), and `hammer_btree_get_parent`
-- (dfly/vfs/hammer/hammer_btree.c).
-- Shared locks are granted, so that `try_exclusive` is 0 and no lock fails.
pub mod Moves
pub mod Parent
pub mod Places
use hammer_linux.Base.{
  ℕ, zero, suc, ◌+◌, ◌-◌, Bool, true, false, not, Option, none, some, ltb, ◌==◌, ◌||◌,
  if◌then◌else◌, get_or,
}
use hammer_linux.Base.Outcome.{Outcome, done, fail, panic, ◌>>=◌, ◌>>◌, kkassert}
use hammer_linux.Btree.Elm.{BaseElm, BtreeElm, NodeOndisk, type_internal, type_leaf, zero_elm}
use hammer_linux.Btree.Search.{base_at, hammer_btree_search_node}
use hammer_linux.Btree.Leaf.{is_leaf}
use hammer_linux.Btree.Tree.{Tree, Cursor, Mount, type_byte, subtree_offset}

abbrev pub enoent : ℕ
enoent = 2

-- The node that element `i` refers to.
abbrev pub child_at : NodeOndisk → ℕ → ℕ
child_at node i = subtree_offset ((get_or node.elms i zero_elm).payload)

-- The element that refers to the child, with `rounds` elements left.
find_child : NodeOndisk → (child rounds i : ℕ) → Option ℕ
find_child parent child zero i = none
find_child parent child (suc rounds) i =
    let next = find_child parent child rounds (i + 1) in
    if child_at parent i == child then some i else next

abbrev or_panic : Option ℕ → Outcome ℕ
or_panic none = panic
or_panic (some i) = done i

from_start : NodeOndisk → (child : ℕ) → Option ℕ → Outcome ℕ
from_start parent child none = panic
from_start parent child (some start) =
    or_panic (find_child parent child (parent.count - start) start)

-- The index in the parent of the node at `offset`.
pub hammer_btree_get_parent : Tree → (offset : ℕ) → Outcome ℕ
unfolding find_child from_start
hammer_btree_get_parent t offset =
    let node = t.disk offset in
    let parent = t.disk node.parent in
    from_start parent offset
      (if node.count == 0 then some 0 else hammer_btree_search_node (base_at node 0) parent)

pub hammer_load_cursor_parent : Mount → Tree → Cursor → Outcome Cursor
hammer_load_cursor_parent hmp t c =
    let parent = (t.disk c.node).parent in
    if parent == 0
    then done (record c {
      parent = 0;
      parent_index = 0;
      left_bound = hmp.root_btree_beg;
      right_bound = hmp.root_btree_end;
    })
    else do
      i ← hammer_btree_get_parent t c.node
      done (record c {
        parent = parent;
        parent_index = i;
        left_bound = base_at (t.disk parent) i;
        right_bound = base_at (t.disk parent) (i + 1);
      })

pub hammer_cursor_up : Mount → Tree → Cursor → Outcome Cursor
unfolding hammer_load_cursor_parent
hammer_cursor_up hmp t c =
    if c.parent == 0
    then fail enoent
    else hammer_load_cursor_parent hmp t
        (record c { node = c.parent; index = c.parent_index; parent = 0; parent_index = 0 })

abbrev pub is_node_type : ℕ → Bool
is_node_type btype = btype == type_byte type_internal || btype == type_byte type_leaf

pub hammer_cursor_down : Tree → Cursor → Outcome Cursor
hammer_cursor_down t c = do
  let node = t.disk c.node
  let elm = get_or node.elms c.index zero_elm
  kkassert (ltb c.index node.count)
  kkassert (is_node_type elm.base.btype)
  kkassert (not (is_leaf node.type))
  kkassert (not (subtree_offset elm.payload == 0))
  let child = t.disk (subtree_offset elm.payload)
  kkassert (elm.base.btype == type_byte child.type)
  kkassert (child.parent == c.node)
  done (record c {
    node = subtree_offset elm.payload;
    index = 0;
    parent = c.node;
    parent_index = c.index;
    left_bound = base_at node c.index;
    right_bound = base_at node (c.index + 1);
  })
