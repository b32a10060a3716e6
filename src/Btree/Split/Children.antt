-- ===== src/Btree/Split/Children.antt =====
-- The parent pointers of the children that move to the new node.
use native.Mathlib.Decide.{dec_lt, ℕ_discrete}
use mathlib.Core.Path.{subst}
use hammer_linux.Base.{
  ℕ, zero, suc, ◌+◌, ◌≤◌, ◌<◌, ◌≡◌, ◌≢◌, ◌⊎◌, refl, ap, ◌∙◌, inl, inr, arith, true, Bool-cases,
  ◌==◌, ◌||◌,
}
use hammer_linux.Btree.Elm.{BtreeElm, NodeOndisk}
use hammer_linux.Btree.Leaf.Insert.{elm_at}
use hammer_linux.Btree.Tree.{write_same, write_ne, subtree_offset}
use hammer_linux.Btree.Split.{btree_set_parent, set_parents}

-- An element that refers to a node.
abbrev pub IsLink : BtreeElm → Type 0
IsLink elm = (elm.base.btype ≡ 0x49) ⊎ (elm.base.btype ≡ 0x4C)

link_test : (b : ℕ) → (b ≡ 0x49) ⊎ (b ≡ 0x4C) → (b == 0x49 || b == 0x4C) ≡ true
link_test b h = ground arith

module _ (disk : ℕ → NodeOndisk) (node : ℕ) (elm : BtreeElm) where
  btree_set_parent-link :
      IsLink elm → (btree_set_parent disk node elm (subtree_offset elm.payload)).parent ≡ node
  unfolding btree_set_parent
  btree_set_parent-link h = rw (link_test elm.base.btype h) (
      ap NodeOndisk.parent (
        write_same disk (subtree_offset elm.payload)
          (record (disk (subtree_offset elm.payload)) { parent = node })))

  -- Only the node that the element refers to is changed.
  btree_set_parent-other :
      (a : ℕ) → a ≢ subtree_offset elm.payload → btree_set_parent disk node elm a ≡ disk a
  unfolding btree_set_parent
  btree_set_parent-other a n =
      elim (Bool-cases (elm.base.btype == 0x49 || elm.base.btype == 0x4C)) [
        | inl e ↦ rw e (write_ne disk (subtree_offset elm.payload) a _ n)
        | inr e ↦ rw e refl
      ]

  -- A parent pointer that is right stays right.
  btree_set_parent-kept :
      (a : ℕ) → (disk a).parent ≡ node → (btree_set_parent disk node elm a).parent ≡ node
  unfolding btree_set_parent
  btree_set_parent-kept a h = elim (Bool-cases (elm.base.btype == 0x49 || elm.base.btype == 0x4C)) [
    | inr e ↦ rw e h
    | inl e ↦ rw e (elim (ℕ_discrete a (subtree_offset elm.payload)) [
      | yes same ↦ rw same (ap NodeOndisk.parent (write_same disk (subtree_offset elm.payload) _))
      | no n ↦ ap NodeOndisk.parent (write_ne disk (subtree_offset elm.payload) a _ n) ∙ h
    ])
  ]

module _ (new : ℕ) (node : NodeOndisk) where
  set_parents-kept :
      (rounds i : ℕ) (disk : ℕ → NodeOndisk) (a : ℕ)
      → (disk a).parent ≡ new
      → (set_parents rounds i new node disk a).parent ≡ new
  unfolding set_parents
  set_parents-kept zero i disk a h = h
  set_parents-kept (suc rounds) i disk a h =
      set_parents-kept rounds (i + 1) (btree_set_parent disk new (elm_at node.elms i)) a
        (btree_set_parent-kept disk new (elm_at node.elms i) a h)

  pub set_parents-other :
      (rounds i : ℕ) (disk : ℕ → NodeOndisk) (a : ℕ)
      → ((j : ℕ) → i ≤ j → j < i + rounds → a ≢ subtree_offset (elm_at node.elms j).payload)
      → set_parents rounds i new node disk a ≡ disk a
  unfolding set_parents
  set_parents-other zero i disk a h = refl
  set_parents-other (suc rounds) i disk a h =
      set_parents-other rounds (i + 1) (btree_set_parent disk new (elm_at node.elms i)) a
        (λ j p q. h j (omega arith) (omega arith))
      ∙ btree_set_parent-other disk new (elm_at node.elms i) a (h i (omega arith) (omega arith))

  pub set_parents_lem :
      (rounds i : ℕ) (disk : ℕ → NodeOndisk) (j : ℕ)
      → i ≤ j
      → j < i + rounds
      → IsLink (elm_at node.elms j)
      → (set_parents rounds i new node disk (subtree_offset (elm_at node.elms j).payload)).parent
        ≡ new
  unfolding set_parents
  set_parents_lem zero i disk j p q h = absurd (omega arith)
  set_parents_lem (suc rounds) i disk j p q h =
      let next = btree_set_parent disk new (elm_at node.elms i) in
      elim (dec_lt i j) [
        | yes l ↦ set_parents_lem rounds (i + 1) next j (omega arith) (omega arith) h
        | no n ↦
            set_parents-kept rounds (i + 1) next (subtree_offset (elm_at node.elms j).payload) (
              subst
                (λ x.
                  (btree_set_parent disk new (elm_at node.elms x)
                    (subtree_offset (elm_at node.elms j).payload)).parent
                  ≡ new)
                (omega arith) (btree_set_parent-link disk new (elm_at node.elms j) h))
      ]
