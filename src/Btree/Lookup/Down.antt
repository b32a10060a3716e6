-- ===== src/Btree/Lookup/Down.antt =====
-- The way down of a lookup: to the one leaf that can have the key.
use native.Mathlib.Decide.{ℕ_discrete}
use hammer_linux.Base.{
  ℕ, zero, suc, ◌+◌, ◌-◌, ◌≤◌, ◌<◌, ◌≡◌, ◌≢◌, refl, ap, ◌∙◌, arith, false, some, ne_test, same_test,
  nonzero_test,
}
use hammer_linux.Base.Outcome.{done, Returns, Returns-map}
use hammer_linux.Btree.Elm.{BaseElm, BtreeElm, IsBase, NodeOndisk, type_internal}
use hammer_linux.Btree.Cmp.{rank, match_rank, cmp-one}
use hammer_linux.Btree.Search.{base_at, CreateCheck, internal_search}
use hammer_linux.Btree.Search.Shortcut.{rank_mono}
use hammer_linux.Btree.Search.Internal.{internal_search-Splits}
use hammer_linux.Btree.Leaf.{is_leaf}
use hammer_linux.Btree.Tree.{Tree, Mount}
use hammer_linux.Btree.Walk.{enoent, child_at}
use hammer_linux.Btree.Lookup.{
  Flags, Answers, State, Progress, stop, go, node_of, level, descend, push_index, correct,
  split_and_down, push_down,
}
use hammer_linux.Btree.Shape.{Holds, IsLeafIn, IsChild, IsTree, Holds-between, Holds-child}
use hammer_linux.Btree.Walk.Moves.{pushed, hammer_cursor_down_lem}

-- A lookup: not for an insertion, not for pruning, and by the whole key.
abbrev pub plain : Flags
plain = record {
  is_insert = false;
  is_pruning = false;
  is_backend = false;
  is_asof = false;
  asof = 0;
}

-- The rounds at an internal node, by the result of its search.
module _ (hmp : Mount) (a : Answers) (st : State) (i : ℕ) (check : CreateCheck)
    (found : internal_search st.cursor.key_beg (node_of st) st.check ≡ some (i, check)) where
  abbrev checked : State
  checked = record st { check = check }

  level_left :
      i ≡ 0
      → level hmp plain a st
        ≡ done (stop enoent (record checked { cursor = record (st.cursor) { index = 0 } }))
  unfolding level push_down push_index correct split_and_down
  level_left e = rw (found, e) refl

  level_right :
      i ≡ (node_of st).count + 1
      → level hmp plain a st
        ≡ done (
            stop enoent
              (record checked { cursor = record (st.cursor) { index = (node_of st).count } }))
  unfolding level push_down push_index correct split_and_down
  level_right e =
      rw
        (
          found,
          e,
          ne_test ((node_of st).count + 1) 0 (λ x. omega arith),
          same_test ((node_of st).count + 1),
        )
        refl

  level_push :
      i ≢ 0
      → i ≢ (node_of st).count + 1
      → (node_of st).type ≡ type_internal
      → i - 1 < (node_of st).count
      → IsChild st.tree.disk st.cursor.node (i - 1)
      → level hmp plain a st
        ≡ done
            (go (record checked { cursor = pushed st.tree (record (st.cursor) { index = i - 1 }) }))
  unfolding level push_down push_index correct split_and_down
  level_push n m inner l k =
      rw
        (
          found,
          ne_test i 0 n,
          ne_test i ((node_of st).count + 1) m,
          nonzero_test (child_at (node_of st) (i - 1)) k.not_null,
          hammer_cursor_down_lem st.tree (record (st.cursor) { index = i - 1 }) inner l k,
        )
        refl

-- No element below the node has the key.
abbrev pub IsAbsent : (ℕ → NodeOndisk) → (n offset : ℕ) → BaseElm → Type 0
IsAbsent disk n offset key = (elm : BtreeElm) → Holds disk n offset elm → rank elm.base ≢ rank key

-- The search stands at the one leaf that can have the key.
pub record IsLanded (t : Tree) (n offset : ℕ) (key : BaseElm) (st : State) : Type 0 where
  pub low : BaseElm
  pub high : BaseElm
  pub in_leaf : IsLeafIn (t.disk st.cursor.node) low high
  pub same_tree : st.tree ≡ t
  pub same_key : st.cursor.key_beg ≡ key
  pub enough_space : st.is_enospc ≡ false
  pub within : (elm : BtreeElm) → Holds t.disk 0 st.cursor.node elm → Holds t.disk n offset elm
  pub only :
      (elm : BtreeElm)
      → Holds t.disk n offset elm
      → rank elm.base ≡ rank key
      → Holds t.disk 0 st.cursor.node elm

abbrev pub Lands : Tree → (n offset : ℕ) → BaseElm → Progress → Type 0
Lands t n offset key (stop error st) = (error ≡ enoent) × IsAbsent t.disk n offset key
Lands t n offset key (go st) = IsLanded t n offset key st

-- What is known of a child holds for the whole node.
module _ (beg : BaseElm) (t : Tree) (n offset : ℕ) (lo hi key : BaseElm)
    (ok : IsTree beg t.disk (suc n) offset lo hi) (i : ℕ) (inside : i < (t.disk offset).count)
    (left : rank (base_at (t.disk offset) i) ≤ rank key)
    (right : rank key < rank (base_at (t.disk offset) (i + 1))) where
  abbrev child : ℕ
  child = child_at (t.disk offset) i

  in_child :
      (elm : BtreeElm)
      → Holds t.disk (suc n) offset elm
      → rank elm.base ≡ rank key
      → Holds t.disk n child elm
  in_child elm h e =
      Holds-child beg t.disk n offset lo hi ok i inside elm h (omega arith) (omega arith)

  Lands-child : (p : Progress) → Lands t n child key p → Lands t (suc n) offset key p
  Lands-child (stop error st) (e, absent) = (e, λ elm h s. absent elm (in_child elm h s) s)
  Lands-child (go st) h = record {
    low = h.low;
    high = h.high;
    in_leaf = h.in_leaf;
    same_tree = h.same_tree;
    same_key = h.same_key;
    enough_space = h.enough_space;
    within = λ elm k. (i, inside, h.within elm k);
    only = λ elm k s. h.only elm (in_child elm k s) s;
  }

module _ (beg : BaseElm) (t : Tree) (n offset : ℕ) (lo hi key : BaseElm)
    (ok : IsTree beg t.disk (suc n) offset lo hi) where
  abbrev node : NodeOndisk
  node = t.disk offset

  IsAbsent-left : rank key < rank (base_at node 0) → IsAbsent t.disk (suc n) offset key
  IsAbsent-left h elm (j, l, k) e = omega (
    arith,
    (Holds-between beg t.disk n _ _ _ (ok.1 j l).1 elm k).0,
    rank_mono node (node.count + 1) ok.0.inner_sorted 0 j (omega arith) (omega arith),
  )

  IsAbsent-right : rank (base_at node node.count) ≤ rank key → IsAbsent t.disk (suc n) offset key
  IsAbsent-right h elm (j, l, k) e = omega (
    arith,
    (Holds-between beg t.disk n _ _ _ (ok.1 j l).1 elm k).1,
    rank_mono node (node.count + 1) ok.0.inner_sorted (j + 1) node.count (omega arith)
        (omega arith),
  )

module _ (hmp : Mount) (answers : ℕ → Answers) (beg : BaseElm) where
  abbrev Descends : (levels n : ℕ) → State → Type 0
  Descends levels n st =
      Returns (descend levels hmp plain answers st)
        (Lands st.tree n st.cursor.node st.cursor.key_beg)

  descend-leaf :
      (levels : ℕ) (st : State) (lo hi : BaseElm)
      → IsLeafIn (node_of st) lo hi
      → st.is_enospc ≡ false
      → Descends levels 0 st
  unfolding descend
  descend-leaf zero st lo hi ok e = rw (ap is_leaf ok.leaf_type) (record {
    low = lo;
    high = hi;
    in_leaf = ok;
    same_tree = refl;
    same_key = refl;
    enough_space = e;
    within = λ elm h. h;
    only = λ elm h s. h;
  })
  descend-leaf (suc levels) st lo hi ok e = rw (ap is_leaf ok.leaf_type) (record {
    low = lo;
    high = hi;
    in_leaf = ok;
    same_tree = refl;
    same_key = refl;
    enough_space = e;
    within = λ elm h. h;
    only = λ elm h s. h;
  })

  -- A search with as many levels as the tree has lands at a leaf, or ends early where the key is in
  -- none.
  pub descend-Lands :
      (levels n : ℕ) (st : State) (lo hi : BaseElm)
      → n ≤ levels
      → IsTree beg st.tree.disk n st.cursor.node lo hi
      → IsBase st.cursor.key_beg
      → match_rank st.cursor.key_beg ≢ match_rank beg
      → st.is_enospc ≡ false
      → Descends levels n st
  unfolding descend
  descend-Lands levels zero st lo hi l ok word above e = descend-leaf levels st lo hi ok e
  descend-Lands zero (suc n) st lo hi l ok word above e = absurd (omega arith)
  descend-Lands (suc levels) (suc n) st lo hi l ok word above e =
      let (r, found, split) =
        internal_search-Splits st.cursor.key_beg (node_of st) word ok.0.inner_sorted
          (λ i l one least. above (
            cmp-one _ _ word (ok.0.inner_sorted.words i (omega arith)) one
            ∙ ok.0.inner_created i l least))
          st.check in
      elim (ℕ_discrete r.0 0) [
        | yes none_left ↦
            rw
              (
                ap is_leaf ok.0.inner_type,
                level_left hmp (answers levels) st r.0 r.1 found none_left,
              )
              (
                refl,
                IsAbsent-left beg st.tree n st.cursor.node lo hi st.cursor.key_beg ok
                    (split.right 0 (omega arith) (omega arith)),
              )
        | no some_left ↦ elim (ℕ_discrete r.0 ((node_of st).count + 1)) [
          | yes none_right ↦
              rw
                (
                  ap is_leaf ok.0.inner_type,
                  level_right hmp (answers levels) st r.0 r.1 found none_right,
                )
                (
                  refl,
                  IsAbsent-right beg st.tree n st.cursor.node lo hi st.cursor.key_beg ok
                      (split.left (node_of st).count (omega arith)),
                )
          | no some_right ↦
              (let inside : r.0 - 1 < (node_of st).count = omega (arith, split.inside) in
                let (link, below) = ok.1 (r.0 - 1) inside in
                let c = pushed st.tree (record (st.cursor) { index = r.0 - 1 }) in
                let st' = record st { check = r.1; cursor = c } in
                rw
                  (
                    ap is_leaf ok.0.inner_type,
                    level_push hmp (answers levels) st r.0 r.1 found some_left some_right
                        ok.0.inner_type inside link,
                  )
                  (Returns-map (descend levels hmp plain answers st')
                    (Lands-child beg st.tree n st.cursor.node lo hi st.cursor.key_beg ok (r.0 - 1)
                      inside (split.left (r.0 - 1) (omega arith))
                      (split.right (r.0 - 1 + 1) (omega arith) (omega (arith, split.inside))))
                    (descend-Lands levels n st' _ _ (omega arith) below word above e)))
        ]
      ]
