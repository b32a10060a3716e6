-- ===== src/Btree/Lookup/Find.antt =====
-- A lookup by `btree_search` as a search of the set of elements.
use native.Mathlib.Decide.{dec_lt}
use mathlib.Core.Path.{subst, subst₂}
use hammer_linux.Base.{
  ℕ, ◌≤◌, ◌<◌, ◌≡◌, ◌≢◌, ◌⊎◌, refl, sym, ap, ◌∙◌, inl, inr, arith, true, false, Bool, Bool-cases,
  some, ne_test, ◌&&◌, le_test,
}
use hammer_linux.Base.Int.{ℤ, pos, ◌<ℤ◌, leb_ℤ, ltb_ℤ}
use hammer_linux.Base.Outcome.{Returns, Returns-map, ◌>>=◌, Returns-bind}
use hammer_linux.Btree.Elm.{BaseElm, BtreeElm, IsBase, NodeOndisk}
use hammer_linux.Btree.Cmp.{rank, match_rank, hammer_btree_cmp, cmp-lt_rank, cmp-one}
use hammer_linux.Btree.Search.{base_at, CreateCheck, Scan, hit, miss}
use hammer_linux.Btree.Search.Leaf.{Places, leaf_search-Places, not_lt}
use hammer_linux.Btree.Leaf.Insert.{elm_at}
use hammer_linux.Btree.Tree.{Tree, Cursor, Mount}
use hammer_linux.Btree.Walk.{enoent}
use hammer_linux.Btree.Walk.Places.{
  IsWhole, Stands, place_of, Stands-words, Stands-created, Stands-IsTree, Stands-height, Holds-up,
  Holds-down,
}
use hammer_linux.Btree.Shape.{Holds, IsLeafIn}
use hammer_linux.Btree.Lookup.{
  Answers, State, node_of, Progress, stop, go, covers, eq_one, first_check, climb, descend, at_leaf,
  leaf_end, split_leaf, finish, btree_search,
}
use hammer_linux.Btree.Lookup.Down.{plain, IsAbsent, Lands, descend-Lands}
use hammer_linux.Btree.Lookup.Up.{IsKey, climb-IsCovered}

-- The result of a lookup in a set of elements: the element with the key, at the cursor, or ENOENT, and
-- no element has the key.
abbrev pub Finds : Tree → (n offset : ℕ) → BaseElm → ℕ × State → Type 0
Finds t n offset key (error, st) =
    ((error ≡ 0)
      × (elm : BtreeElm) × Holds t.disk n offset elm
      × (rank elm.base ≡ rank key)
      × (elm_at (t.disk st.cursor.node).elms st.cursor.index ≡ elm))
    ⊎ ((error ≡ enoent) × IsAbsent t.disk n offset key)

-- The end of a search at a leaf, by what its linear loop found.
module _ (hmp : Mount) (a : Answers) (st : State) (space : st.is_enospc ≡ false) where
  abbrev node : NodeOndisk
  node = node_of st

  abbrev sought : BaseElm
  sought = st.cursor.key_beg

  leaf_end-Finds :
      (s : Scan)
      → Places node sought s
      → Returns (leaf_end hmp plain a st (some s)) (Finds st.tree 0 st.cursor.node sought)
  unfolding leaf_end split_leaf base_at
  leaf_end-Finds (hit i) (l, e) = inl (refl, elm_at node.elms i, (i, l, refl), e, refl)
  leaf_end-Finds (miss i) (l, before, after) = rw space (inr (refl, none_has))
    where
      none_has : IsAbsent st.tree.disk 0 st.cursor.node sought
      none_has elm (j, k, same) e =
          let here = ap (λ x. rank (BtreeElm.base x)) same in
          elim (dec_lt j i) [
            | yes b ↦ omega (arith, here, before j b)
            | no n ↦ omega (arith, here, after j (omega arith) k)
          ]
  leaf_end-Finds Scan.panic h = absurd h

  at_leaf-Finds :
      (lo hi : BaseElm)
      → IsLeafIn node lo hi
      → IsBase sought
      → Returns (at_leaf hmp plain a st) (Finds st.tree 0 st.cursor.node sought)
  unfolding at_leaf
  at_leaf-Finds lo hi ok word =
      let (s, found, place) = leaf_search-Places sought node word ok.leaf_sorted ok.leaf_records in
      rw (le_test ok.leaf_count, found) (leaf_end-Finds s place)

-- What is found below a node that can have the key is found in the tree.
Finds-up :
    (t : Tree) (n offset : ℕ) (key : BaseElm) (m node : ℕ)
    → ((elm : BtreeElm) → Holds t.disk m node elm → Holds t.disk n offset elm)
    → ((elm : BtreeElm)
        → Holds t.disk n offset elm
        → rank elm.base ≡ rank key
        → Holds t.disk m node elm)
    → (r : ℕ × State) → Finds t m node key r
    → Finds t n offset key r
Finds-up t n offset key m below within only r (inl (e, elm, h, same, here)) =
    inl (e, elm, within elm h, same, here)
Finds-up t n offset key m below within only r (inr (e, absent)) =
    inr (e, λ elm h s. absent elm (only elm h s) s)

finish-Finds :
    (hmp : Mount) (a : Answers) (t : Tree) (n offset : ℕ) (key : BaseElm)
    → IsBase key
    → (p : Progress) → Lands t n offset key p
    → Returns (finish hmp plain a p) (Finds t n offset key)
unfolding finish
finish-Finds hmp a t n offset key word (stop error st) (e, absent) = inr (e, absent)
finish-Finds hmp a t n offset key word (go st) h =
    Returns-map (at_leaf hmp plain a st) (Finds-up t n offset key 0 st.cursor.node h.within h.only)
      (subst₂ (λ u k. Returns (at_leaf hmp plain a st) (Finds u 0 st.cursor.node k)) h.same_tree
        h.same_key
        (at_leaf-Finds hmp a st h.enough_space h.low h.high
          (subst (λ u. IsLeafIn (u.disk st.cursor.node) h.low h.high) (sym h.same_tree) h.in_leaf)
          (subst IsBase (sym h.same_key) word)))

nonneg_test : (c : ℤ) → (leb_ℤ (pos 0) c) ≡ true → ¬ (c <ℤ pos 0)
nonneg_test c e = ground arith

both_true : (a b : Bool) → (a && b) ≡ true → (a ≡ true) × (b ≡ true)
both_true a b e = ground arith

neg_test : (c : ℤ) → (ltb_ℤ c (pos 0)) ≡ true → c <ℤ pos 0
neg_test c e = ground arith

one_test : (c : ℤ) → eq_one c ≡ true → c ≡ pos 1
one_test c e = ground arith

module _ (hmp : Mount) (t : Tree) (height top : ℕ) (whole : IsWhole hmp t height top) where
  -- A key that is not the first one of the file system.
  pub record IsSought (key : BaseElm) : Type 0 where
    pub is_key : IsKey hmp key
    pub not_first : match_rank key ≢ match_rank hmp.root_btree_beg

  module _ (c : Cursor) (k : IsSought c.key_beg) (d n : ℕ)
      (h : Stands hmp t height top d n (place_of c)) (e : covers c ≡ true) where
    covered_low : rank c.left_bound ≤ rank c.key_beg
    covered_low = not_lt _ _ (λ l. nonneg_test _ (both_true _ _ e).0 (
        (cmp-lt_rank c.key_beg c.left_bound k.is_key.key_word
            (Stands-words hmp t height top whole d n (place_of c) h).0).1
          l))

    covered_high : rank c.key_beg < rank c.right_bound
    covered_high =
        (cmp-lt_rank c.key_beg c.right_bound k.is_key.key_word
            (Stands-words hmp t height top whole d n (place_of c) h).1).0
          (neg_test _ (both_true _ _ e).1)

    -- The assertion on the parent's boundary holds.
    first_check-Returns : (check : CreateCheck) → Returns (first_check c check) (λ _. Unit {0})
    unfolding first_check
    first_check-Returns check =
        elim (Bool-cases (eq_one (hammer_btree_cmp c.key_beg c.left_bound))) [
          | inr other ↦ rw other tt
          | inl one ↦
              rw
                (
                  one,
                  ne_test c.left_bound.create_tid 1 (λ first. k.not_first (
                      cmp-one _ _ k.is_key.key_word
                        (Stands-words hmp t height top whole d n (place_of c) h).0 (one_test _ one)
                      ∙ Stands-created hmp t height top whole d n (place_of c) h first)),
                )
                tt
        ]

    -- From there on the search is that of the whole tree.
    from_here :
        (levels : ℕ) (answers : ℕ → Answers) (a : Answers) (check : CreateCheck)
        → height ≤ levels
        → Returns
            (descend levels hmp plain answers
                (record { tree = t; cursor = c; check = check; is_enospc = false })
              >>= finish hmp plain a)
            (Finds t height top c.key_beg)
    from_here levels answers a check l =
        Returns-bind (Finds t height top c.key_beg)
          (descend levels hmp plain answers
            (record { tree = t; cursor = c; check = check; is_enospc = false }))
          (finish hmp plain a)
          (descend-Lands hmp answers hmp.root_btree_beg levels n
            (record { tree = t; cursor = c; check = check; is_enospc = false }) _ _
            (omega (arith, Stands-height hmp t height top whole d n (place_of c) h))
            (Stands-IsTree hmp t height top whole d n (place_of c) h) k.is_key.key_word k.not_first
            refl)
          (λ p land.
            Returns-map (finish hmp plain a p)
              (Finds-up t height top c.key_beg n c.node
                (Holds-up hmp t height top whole d n (place_of c) h)
                (λ elm held same.
                  Holds-down hmp t height top whole d n (place_of c) h elm held
                    (subst (λ x. rank c.left_bound ≤ x) (sym same) covered_low)
                    (subst (λ x. x < rank c.right_bound) (sym same) covered_high)))
              (finish-Finds hmp a t n c.node c.key_beg k.is_key.key_word p land))

  -- A lookup by the whole key, which lies inside the bounds of the file system and is not its first
  -- one, from a cursor that stands anywhere in a well formed tree, with as many levels as the tree has,
  -- returns. It returns 0, with the cursor at the element of the tree that has
  -- the key, or ENOENT, and then no element of the tree has it.
  pub btree_search-Finds :
      (levels : ℕ) (answers : ℕ → Answers) (leaf_answers : Answers) (c : Cursor)
      (check : CreateCheck) (d n : ℕ)
      → height ≤ levels
      → Stands hmp t height top d n (place_of c)
      → IsSought c.key_beg
      → Returns
          (btree_search levels hmp plain answers leaf_answers
            (record { tree = t; cursor = c; check = check; is_enospc = false }))
          (Finds t height top c.key_beg)
  unfolding btree_search
  btree_search-Finds levels answers leaf_answers c check d n l h k =
      Returns-bind (Finds t height top c.key_beg) (climb levels hmp t c) _
        (climb-IsCovered hmp t height top whole levels d n c
          (omega (arith, Stands-height hmp t height top whole d n (place_of c) h)) h k.is_key)
        (λ c' cov.
          let k' = subst IsSought (sym cov.same_key) k in
          subst
            (λ key.
              Returns
                (first_check c' check >>= λ check'.
                  descend levels hmp plain answers
                    (record { tree = t; cursor = c'; check = check'; is_enospc = false })
                  >>= finish hmp plain leaf_answers)
                (Finds t height top key))
            cov.same_key
            (Returns-bind (Finds t height top c'.key_beg) (first_check c' check) _
              (first_check-Returns c' k' cov.depth cov.above cov.stands cov.covered check)
              (λ check' _.
                from_here c' k' cov.depth cov.above cov.stands cov.covered levels answers
                  leaf_answers check' l)))
