-- ===== src/Btree/Tree.antt =====
-- The nodes of the B-Tree by their offsets, and a cursor over them (dfly/vfs/hammer/hammer_cursor.h,
-- dfly/vfs/hammer/hammer_ondisk.c).
-- `disk` stands for the buffers that `hammer_get_node` reads: what it returns is the node, and I/O
-- errors are left out. References and locks of nodes have no effect on the elements.
use hammer_linux.Base.{
  ℕ, zero, suc, ◌+◌, ◌*◌, ◌≡◌, ◌≢◌, List, ◌∷◌, [], ◌==◌, if◌then◌else◌, same_test, ne_test,
}
use hammer_linux.Btree.Elm.{
  BaseElm, BtreeElm, NodeOndisk, NodeType, Payload, internal, leaf, type_internal, type_leaf,
  zero_elm, leaf_elms,
}
use hammer_linux.Btree.Leaf.{Tracked}

-- A function with one value replaced.
unfoldable pub write {ℓ} : {A : Type ℓ} → (ℕ → A) → ℕ → A → ℕ → A
write f a x b = if b == a then x else f b

pub write_same {ℓ} : {A : Type ℓ} (f : ℕ → A) (a : ℕ) (x : A) → write f a x a ≡ x
unfolding write
write_same f a x = rw (same_test a)

pub write_ne {ℓ} : {A : Type ℓ} (f : ℕ → A) (a b : ℕ) (x : A) → b ≢ a → write f a x b ≡ f b
unfolding write
write_ne f a b x n = rw (ne_test b a n)

-- `cursor_list` has the cursors that are tracked at a node.
pub record Tree : Type 0 where
  pub disk : ℕ → NodeOndisk
  pub cursor_list : ℕ → List Tracked
  pub vol0_btree_root : ℕ

-- `node` and `parent` are node offsets, and 0 is the null pointer. The bounds are those that the
-- pointers of the source refer to.
pub record Cursor : Type 0 where
  pub node : ℕ
  pub index : ℕ
  pub parent : ℕ
  pub parent_index : ℕ
  pub key_beg : BaseElm
  pub left_bound : BaseElm
  pub right_bound : BaseElm

-- hmp->root_btree_beg and hmp->root_btree_end.
pub record Mount : Type 0 where
  pub root_btree_beg : BaseElm
  pub root_btree_end : BaseElm

-- HAMMER_BTREE_TYPE_INTERNAL and HAMMER_BTREE_TYPE_LEAF, as `btype` has them.
abbrev pub type_byte : NodeType → ℕ
type_byte type_internal = 0x49
type_byte type_leaf = 0x4C

-- The fields of an internal element, read and written in the union of the elements.
abbrev pub subtree_offset : Payload → ℕ
subtree_offset (internal mirror_tid offset) = offset
subtree_offset (leaf create_ts delete_ts offset len crc) = offset

abbrev pub mirror_tid_of : Payload → ℕ
mirror_tid_of (internal mirror_tid offset) = mirror_tid
mirror_tid_of (leaf create_ts delete_ts offset len crc) = create_ts + delete_ts * 0x100000000

abbrev pub zero_slots : ℕ → List BtreeElm
zero_slots zero = []
zero_slots (suc n) = zero_elm ∷ zero_slots n

-- A node after bzero.
abbrev pub zero_node : NodeOndisk
zero_node = record {
  parent = 0;
  count = 0;
  type = type_internal;
  mirror_tid = 0;
  elms = zero_slots leaf_elms;
}

-- What `hammer_blockmap_alloc` answers to `hammer_alloc_btree`.
pub data Alloc : Type 0 where
  got : (offset : ℕ) → Alloc
  refused : (error : ℕ) → Alloc
