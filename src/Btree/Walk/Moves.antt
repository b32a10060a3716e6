-- ===== src/Btree/Walk/Moves.antt =====
-- The movements of a cursor in a well formed tree.
use hammer_linux.Base.{ℕ, ◌+◌, ◌<◌, ◌≡◌, refl, ap, arith, true, ◌==◌, lt_test, nonzero_test}
use hammer_linux.Base.Outcome.{done}
use hammer_linux.Btree.Elm.{NodeType, type_internal, type_leaf}
use hammer_linux.Btree.Search.{base_at}
use hammer_linux.Btree.Leaf.{is_leaf}
use hammer_linux.Btree.Tree.{Tree, Cursor, type_byte}
use hammer_linux.Btree.Walk.{child_at, hammer_cursor_down, is_node_type}
use hammer_linux.Btree.Shape.{IsChild}

node_type_test : (b : ℕ) (type : NodeType) → b ≡ type_byte type → is_node_type b ≡ true
node_type_test b type_internal e = ground arith
node_type_test b type_leaf e = ground arith

same_number : (a b : ℕ) → a ≡ b → (a == b) ≡ true
same_number a b e = ground arith

-- The cursor after a push into element `i`.
abbrev pub pushed : Tree → Cursor → Cursor
pushed t c = record c {
  node = child_at (t.disk c.node) c.index;
  index = 0;
  parent = c.node;
  parent_index = c.index;
  left_bound = base_at (t.disk c.node) c.index;
  right_bound = base_at (t.disk c.node) (c.index + 1);
}

pub hammer_cursor_down_lem :
    (t : Tree) (c : Cursor)
    → (t.disk c.node).type ≡ type_internal
    → c.index < (t.disk c.node).count
    → IsChild t.disk c.node c.index
    → hammer_cursor_down t c ≡ done (pushed t c)
unfolding hammer_cursor_down base_at
hammer_cursor_down_lem t c inner l k =
    rw
      (
        lt_test l,
        node_type_test _ _ k.child_type,
        ap is_leaf inner,
        nonzero_test (child_at (t.disk c.node) c.index) k.not_null,
        same_number _ _ k.child_type,
        same_number _ _ k.child_parent,
      )
      refl
