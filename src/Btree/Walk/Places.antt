-- ===== src/Btree/Walk/Places.antt =====
-- The places of nodes in a whole tree, and the way from a node to its parent.
use native.Mathlib.Nat.{le_trans, lt_of_lt_of_le}
use mathlib.Core.Path.{subst, subst₂}
use hammer_linux.Base.{ℕ, zero, suc, ◌+◌, ◌≤◌, ◌<◌, ◌≡◌, ◌≢◌, refl, sym, ap, ◌∙◌, arith, ne_test}
use hammer_linux.Base.Outcome.{done}
use hammer_linux.Btree.Elm.{BaseElm, BtreeElm, IsBase}
use hammer_linux.Btree.Cmp.{rank, match_rank}
use hammer_linux.Btree.Search.{base_at}
use hammer_linux.Btree.Search.Shortcut.{rank_mono}
use hammer_linux.Btree.Tree.{Tree, Cursor, Mount}
use hammer_linux.Btree.Walk.{child_at, hammer_cursor_up, hammer_load_cursor_parent}
use hammer_linux.Btree.Walk.Parent.{hammer_btree_get_parent_lem}
use hammer_linux.Btree.Shape.{IsTree, Holds, Holds-child}

-- A whole tree: its root has no parent, and the bounds are those of the file system.
pub record IsWhole (hmp : Mount) (t : Tree) (height top : ℕ) : Type 0 where
  pub top_offset : top ≢ 0
  pub top_parent : (t.disk top).parent ≡ 0
  pub beg_word : IsBase hmp.root_btree_beg
  pub end_word : IsBase hmp.root_btree_end
  pub tree_of : IsTree hmp.root_btree_beg t.disk height top hmp.root_btree_beg hmp.root_btree_end

-- The place of a node: `d` levels below the root and `n` above the leaves, with its parent, its index
-- there, and its bounds.
pub record Place : Type 0 where
  pub node : ℕ
  pub parent : ℕ
  pub parent_index : ℕ
  pub lo : BaseElm
  pub hi : BaseElm

abbrev pub Stands : Mount → Tree → (height top d n : ℕ) → Place → Type 0
Stands hmp t height top zero n x =
    (n ≡ height)
    × (x ≡ record {
      node = top;
      parent = 0;
      parent_index = 0;
      lo = hmp.root_btree_beg;
      hi = hmp.root_btree_end;
    })
Stands hmp t height top (suc d) n x =
    (up : Place) × (j : ℕ) × Stands hmp t height top d (suc n) up
    × (j < (t.disk up.node).count)
    × (x ≡ record {
      node = child_at (t.disk up.node) j;
      parent = up.node;
      parent_index = j;
      lo = base_at (t.disk up.node) j;
      hi = base_at (t.disk up.node) (j + 1);
    })

abbrev pub place_of : Cursor → Place
place_of c = record {
  node = c.node;
  parent = c.parent;
  parent_index = c.parent_index;
  lo = c.left_bound;
  hi = c.right_bound;
}

-- A cursor at a place.
abbrev pub put : Cursor → Place → Cursor
put c x = record c {
  node = x.node;
  parent = x.parent;
  parent_index = x.parent_index;
  left_bound = x.lo;
  right_bound = x.hi;
}

module _ (hmp : Mount) (t : Tree) (height top : ℕ) (whole : IsWhole hmp t height top) where
  pub Stands-IsTree :
      (d n : ℕ) (x : Place)
      → Stands hmp t height top d n x
      → IsTree hmp.root_btree_beg t.disk n x.node x.lo x.hi
  Stands-IsTree zero n x (e, same) =
      subst (λ y. IsTree hmp.root_btree_beg t.disk n y.node y.lo y.hi) (sym same)
        (subst (λ m. IsTree hmp.root_btree_beg t.disk m top hmp.root_btree_beg hmp.root_btree_end)
          (sym e) whole.tree_of)
  Stands-IsTree (suc d) n x (up, j, h, l, same) =
      subst (λ y. IsTree hmp.root_btree_beg t.disk n y.node y.lo y.hi) (sym same)
        ((Stands-IsTree d (suc n) up h).1 j l).1

  -- The words of the bounds.
  pub Stands-words :
      (d n : ℕ) (x : Place) → Stands hmp t height top d n x → IsBase x.lo × IsBase x.hi
  Stands-words zero n x (e, same) =
      subst (λ y. IsBase y.lo × IsBase y.hi) (sym same) (whole.beg_word, whole.end_word)
  Stands-words (suc d) n x (up, j, h, l, same) =
      let ok = (Stands-IsTree d (suc n) up h).0 in
      subst (λ y. IsBase y.lo × IsBase y.hi) (sym same)
        (ok.inner_sorted.words j (omega arith), ok.inner_sorted.words (j + 1) (omega arith))

  Stands-not_null : (d n : ℕ) (x : Place) → Stands hmp t height top d n x → x.node ≢ 0
  Stands-not_null zero n x (e, same) = subst (λ y. y.node ≢ 0) (sym same) whole.top_offset
  Stands-not_null (suc d) n x (up, j, h, l, same) =
      subst (λ y. y.node ≢ 0) (sym same) ((Stands-IsTree d (suc n) up h).1 j l).0.not_null

  -- An internal node finds its place again.
  load_lem :
      (d n : ℕ) (c : Cursor) (x : Place)
      → Stands hmp t height top d (suc n) x
      → c.node ≡ x.node
      → hammer_load_cursor_parent hmp t c ≡ done (put c x)
  unfolding hammer_load_cursor_parent
  load_lem zero n c x (e, same) at =
      subst (λ y. c.node ≡ y.node → hammer_load_cursor_parent hmp t c ≡ done (put c y)) (sym same)
        (λ at. rw (at, whole.top_parent) refl) at
  load_lem (suc d) n c x (up, j, h, l, same) at =
      subst (λ y. c.node ≡ y.node → hammer_load_cursor_parent hmp t c ≡ done (put c y)) (sym same)
        (λ at.
          let (ok, children) = Stands-IsTree d (suc (suc n)) up h in
          let link = (children j l).0 in
          let inner = (children j l).1.0 in
          let found =
            hammer_btree_get_parent_lem hmp.root_btree_beg (t.disk up.node) up.lo up.hi ok j l t
              up.node refl link.child_parent
              (λ k. (
                inner.inner_sorted.words 0 (omega arith),
                lt_of_lt_of_le (inner.inner_sorted.sorted 0 _ k (omega arith)) inner.inner_high,
              )) in
          rw
            (at, link.child_parent, ne_test up.node 0 (Stands-not_null d (suc (suc n)) up h), found)
            refl)
        at

  -- Up from a place below the root to the place of the parent.
  pub hammer_cursor_up_lem :
      (d n : ℕ) (c : Cursor) (up : Place)
      → Stands hmp t height top d (suc n) up
      → c.parent ≡ up.node
      → hammer_cursor_up hmp t c ≡ done (put (record c { index = c.parent_index }) up)
  unfolding hammer_cursor_up
  hammer_cursor_up_lem d n c up h e =
      rw (e, ne_test up.node 0 (Stands-not_null d (suc n) up h))
        (load_lem d n
          (record c { node = up.node; index = c.parent_index; parent = 0; parent_index = 0 }) up h
          refl)

  pub Stands-parent : (d n : ℕ) (x : Place) → Stands hmp t height top (suc d) n x → x.parent ≢ 0
  Stands-parent d n x (up, j, h, l, same) =
      subst (λ y. y.parent ≢ 0) (sym same) (Stands-not_null d (suc n) up h)

  -- Only the first key of the file system has a bound that was created at instant 1.
  pub Stands-created :
      (d n : ℕ) (x : Place)
      → Stands hmp t height top d n x
      → x.lo.create_tid ≡ 1
      → match_rank x.lo ≡ match_rank hmp.root_btree_beg
  Stands-created zero n x (e, same) one = ap (λ y. match_rank (Place.lo y)) same
  Stands-created (suc d) n x (up, j, h, l, same) one =
      ap (λ y. match_rank (Place.lo y)) same
      ∙ (Stands-IsTree d (suc n) up h).0.inner_created j (omega arith)
          (sym (ap (λ y. y.lo.create_tid) same) ∙ one)

  -- The elements below a place are elements of the tree, and an element of the tree that lies between
  -- the bounds of the place is below it.
  pub Holds-up :
      (d n : ℕ) (x : Place)
      → Stands hmp t height top d n x
      → (elm : BtreeElm) → Holds t.disk n x.node elm
      → Holds t.disk height top elm
  Holds-up zero n x (e, same) elm h = subst₂ (λ m y. Holds t.disk m y elm) e (ap Place.node same) h
  Holds-up (suc d) n x (up, j, above, l, same) elm h =
      Holds-up d (suc n) up above elm
        (j, l, subst (λ y. Holds t.disk n y elm) (ap Place.node same) h)

  pub Holds-down :
      (d n : ℕ) (x : Place)
      → Stands hmp t height top d n x
      → (elm : BtreeElm) → Holds t.disk height top elm
      → rank x.lo ≤ rank elm.base
      → rank elm.base < rank x.hi
      → Holds t.disk n x.node elm
  Holds-down zero n x (e, same) elm h low high =
      subst₂ (λ m y. Holds t.disk m y elm) (sym e) (sym (ap Place.node same)) h
  Holds-down (suc d) n x (up, j, above, l, same) elm h low high =
      let tree = Stands-IsTree d (suc n) up above in
      let mono = rank_mono (t.disk up.node) ((t.disk up.node).count + 1) tree.0.inner_sorted in
      let low' : rank (base_at (t.disk up.node) j) ≤ rank elm.base =
        subst (λ y. rank y.lo ≤ rank elm.base) same low in
      let high' : rank elm.base < rank (base_at (t.disk up.node) (j + 1)) =
        subst (λ y. rank elm.base < rank y.hi) same high in
      subst (λ y. Holds t.disk n y elm) (sym (ap Place.node same))
        (Holds-child hmp.root_btree_beg t.disk n up.node up.lo up.hi tree j l elm
          (Holds-down d (suc n) up above elm h
            (le_trans (le_trans tree.0.inner_low (mono 0 j (omega arith) (omega arith))) low')
            (lt_of_lt_of_le high'
              (le_trans (mono (j + 1) _ (omega arith) (omega arith)) tree.0.inner_high)))
          low' high')

  pub Stands-height : (d n : ℕ) (x : Place) → Stands hmp t height top d n x → d + n ≡ height
  Stands-height zero n x (e, same) = omega arith
  Stands-height (suc d) n x (up, j, h, l, same) = omega (arith, Stands-height d (suc n) up h)
