-- ===== src/Btree/Split/Root.antt =====
-- The new root that a split of the root leaf makes.
use hammer_linux.Base.{ℕ, zero, suc, ◌-◌, ◌<◌, ◌≡◌, refl, sym, ap, ◌∙◌, arith, length, true}
use hammer_linux.Base.Outcome.{Returns, Returns-map}
use hammer_linux.Btree.Elm.{
  BtreeElm, internal, type_internal, IsBase, NodeOndisk, type_leaf, leaf_elms,
}
use hammer_linux.Btree.Cmp.{rank}
use hammer_linux.Btree.Separator.Cases.{Fits}
use hammer_linux.Btree.Search.{base_at}
use hammer_linux.Btree.Leaf.Insert.{elm_at}
use hammer_linux.Btree.Tree.{
  type_byte, Tree, Cursor, Mount, got, write, write_same, write_ne, zero_node,
}
use hammer_linux.Btree.Split.{
  Result, Spot, ready, split_point, make_room, finish_leaf, btree_split_leaf, new_root,
}
use hammer_linux.Btree.Split.Placed.{IsPlaced, IsParent, IsPlaced-leaf_checks}
use hammer_linux.Btree.Split.Full.{
  AreApart, HasSplit, HasSplit-from, finish_leaf-HasSplit, full_split,
}

-- The bounds of the whole tree, in order, and the cursor at them.
pub record IsRootCursor (hmp : Mount) (c : Cursor) : Type 0 where
  pub beg_word : IsBase hmp.root_btree_beg
  pub end_word : IsBase hmp.root_btree_end
  pub whole : rank hmp.root_btree_beg < rank hmp.root_btree_end
  pub at_beg : c.left_bound ≡ hmp.root_btree_beg
  pub at_end : c.right_bound ≡ hmp.root_btree_end

-- A root over the node at `offset`, which was `node`, and one more: an internal node without a parent,
-- from the beginning of the file system to its end.
pub record IsNewRoot (hmp : Mount) (node : NodeOndisk) (offset : ℕ) (root : NodeOndisk)
    : Type 0 where
  pub two : root.count ≡ 2
  pub top : root.parent ≡ 0
  pub inner : root.type ≡ type_internal
  pub mirror : root.mirror_tid ≡ node.mirror_tid
  pub first : elm_at root.elms 0 ≡ record {
    base = record (hmp.root_btree_beg) { btype = type_byte node.type };
    payload = internal 0 offset;
  }
  pub last : base_at root 2 ≡ hmp.root_btree_end

module _ (hmp : Mount) (node : NodeOndisk) (offset : ℕ) (c : Cursor) (at : IsRootCursor hmp c) where
  new_root-words : (i : ℕ) → i < 2 → IsBase (base_at (new_root hmp node offset) i)
  unfolding new_root base_at
  new_root-words zero h = record {
    obj_id_word = at.beg_word.obj_id_word;
    key_word = at.beg_word.key_word;
    create_word = at.beg_word.create_word;
    delete_word = at.beg_word.delete_word;
    rec_word = at.beg_word.rec_word;
    localization_word = at.beg_word.localization_word;
  }
  new_root-words (suc zero) h = at.end_word
  new_root-words (suc (suc i)) h = absurd (omega arith)

  new_root-sorted :
      (i j : ℕ)
      → i < j
      → j < 2
      → rank (base_at (new_root hmp node offset) i) < rank (base_at (new_root hmp node offset) j)
  unfolding new_root base_at
  new_root-sorted i zero p q = absurd (omega arith)
  new_root-sorted zero (suc zero) p q = at.whole
  new_root-sorted (suc i) (suc zero) p q = absurd (omega arith)
  new_root-sorted i (suc (suc j)) p q = absurd (omega arith)

  pub new_root-IsParent : IsParent (new_root hmp node offset) 0 c
  unfolding new_root base_at
  new_root-IsParent = record {
    parent_slots = refl;
    parent_sorted = record {
      words = λ i h. new_root-words i h;
      sorted = λ i j p q. new_root-sorted i j p q;
    };
    room = omega arith;
    inside = omega arith;
    left_same = ap (λ x. rank x) (sym at.at_beg);
    right_same = ap (λ x. rank x) (sym at.at_end);
  }

module _ (hmp : Mount) (t : Tree) (c : Cursor) (root new : ℕ) (apart : AreApart c.node new root)
    (is_root : (t.disk c.node).parent ≡ 0) (at : IsRootCursor hmp c) where
  abbrev pub split : ℕ
  split = split_point (t.disk c.node).count c.index

  abbrev pub spot : Spot
  spot = record { parent = root; parent_index = 0; made_root = true }

  abbrev pub over : NodeOndisk
  over = new_root hmp (t.disk c.node) c.node

  abbrev grown : ℕ → NodeOndisk
  grown = write t.disk root over

  abbrev zeroed : Tree
  zeroed = record t { disk = write grown new zero_node }

  is_ready : make_room hmp (got root) (got new) t c ≡ ready zeroed spot new
  unfolding make_room
  is_ready = rw is_root refl

  HasSplit-IsNewRoot :
      (r : Result)
      → HasSplit t c (t.disk c.node) over spot new split r
      → IsNewRoot hmp (t.disk c.node) c.node (r.1.disk root)
  unfolding new_root base_at
  HasSplit-IsNewRoot r h = record {
    two = h.nodes.parent_count;
    top = h.links.parent_parent;
    inner = h.links.parent_type;
    mirror = h.links.parent_mirror;
    first = h.nodes.parent_before 0 (omega arith);
    last = ap (λ e. BtreeElm.base e) (h.nodes.parent_after 2 (omega arith) (omega arith));
  }

  -- A root leaf at the place of the cursor's key, whose halves have a separator, is split below a new
  -- root: an internal node without a parent, with the old leaf below the beginning of the file system,
  -- the new leaf below the separator, and the end of the file system behind them. Both leaves have it
  -- for their parent, the volume's root is the new one, and the elements, the order and the cursor are
  -- as after a split below another parent.
  pub btree_split_leaf-IsNewRoot :
      IsPlaced (t.disk c.node) c
      → (t.disk c.node).count ≡ leaf_elms
      → Fits (base_at (t.disk c.node) (split - 1)) (base_at (t.disk c.node) split)
      → (t.disk c.node).type ≡ type_leaf
      → Returns (btree_split_leaf hmp 0 (got root) (got new) t c) (λ r.
        HasSplit t c (t.disk c.node) over spot new split r
        × IsNewRoot hmp (t.disk c.node) c.node (r.1.disk root))
  unfolding btree_split_leaf
  btree_split_leaf-IsNewRoot ok full fits at_leaf =
      let (some_left, some_right) = full_split _ c.index full in
      rw (IsPlaced-leaf_checks _ c ok split some_left some_right, is_ready)
        (Returns-map (finish_leaf c split (ready zeroed spot new))
          (λ r h.
            let split_up =
              HasSplit-from t zeroed c _ _ spot new split
                (λ a x y. write_ne grown new a zero_node x ∙ write_ne t.disk root a over y) refl r
                h in
            (split_up, HasSplit-IsNewRoot r split_up))
          (finish_leaf-HasSplit zeroed c spot new split apart
            (ap (λ n. length (n.elms)) (write_same grown new zero_node)) _ over
            (sym (
              write_ne grown new c.node zero_node (λ e. apart.new_old (sym e))
              ∙ write_ne t.disk root c.node over apart.old_parent))
            (sym (
              write_ne grown new root zero_node (λ e. apart.new_parent (sym e))
              ∙ write_same t.disk root over))
            (record {
              ok = ok;
              par = new_root-IsParent hmp (t.disk c.node) c.node c at;
              some_left = some_left;
              some_right = some_right;
              full = omega arith;
              fits = fits;
              at_leaf = at_leaf;
            })))
