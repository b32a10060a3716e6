-- ===== src/Btree/Shape.antt =====
-- A B-Tree as an abstract set of elements, and the shape that makes it one.
use native.Mathlib.Nat.{le_trans, lt_of_lt_of_le}
use native.Mathlib.Decide.{dec_lt}
use mathlib.Core.Path.{subst}
use hammer_linux.Base.{ℕ, zero, suc, ◌+◌, ◌≤◌, ◌<◌, ◌≡◌, ◌≢◌, arith, ap}
use hammer_linux.Btree.Elm.{BaseElm, BtreeElm, NodeOndisk, type_internal, type_leaf, leaf_elms}
use hammer_linux.Btree.Cmp.{rank, match_rank}
use hammer_linux.Btree.Search.{base_at}
use hammer_linux.Btree.Search.Shortcut.{IsSorted, rank_mono}
use hammer_linux.Btree.Search.Leaf.{AreRecords}
use hammer_linux.Btree.Leaf.Insert.{elm_at}
use hammer_linux.Btree.Tree.{type_byte}
use hammer_linux.Btree.Walk.{child_at}

-- The elements below a node, at a height of `n` above the leaves.
abbrev pub Holds : (ℕ → NodeOndisk) → (n offset : ℕ) → BtreeElm → Type 0
Holds disk zero offset elm =
    (j : ℕ) × (j < (disk offset).count) × (elm_at (disk offset).elms j ≡ elm)
Holds disk (suc n) offset elm =
    (j : ℕ) × (j < (disk offset).count) × Holds disk n (child_at (disk offset) j) elm

-- A leaf in order whose records lie between two bounds; it may be empty.
pub record IsLeafIn (node : NodeOndisk) (lo hi : BaseElm) : Type 0 where
  pub leaf_type : node.type ≡ type_leaf
  pub leaf_count : node.count ≤ leaf_elms
  pub leaf_sorted : IsSorted node node.count
  pub leaf_records : AreRecords node
  pub leaf_low : (j : ℕ) → j < node.count → rank lo ≤ rank (base_at node j)
  pub leaf_high : (j : ℕ) → j < node.count → rank (base_at node j) < rank hi

-- An internal node whose boundaries are in order and whose children differ. Only
-- the first key of the file system, `beg`, is created at instant 1. The bounds of the parent may be
-- wider.
pub record IsInnerIn (beg : BaseElm) (node : NodeOndisk) (lo hi : BaseElm) : Type 0 where
  pub inner_type : node.type ≡ type_internal
  pub inner_count : 0 < node.count
  pub inner_sorted : IsSorted node (node.count + 1)
  pub inner_created :
      (j : ℕ)
      → j ≤ node.count
      → (base_at node j).create_tid ≡ 1
      → match_rank (base_at node j) ≡ match_rank beg
  pub inner_low : rank lo ≤ rank (base_at node 0)
  pub inner_high : rank (base_at node node.count) ≤ rank hi
  pub inner_links : (i j : ℕ) → i < j → j < node.count → child_at node i ≢ child_at node j

-- The child of element `j` of the node at `offset`.
pub record IsChild (disk : ℕ → NodeOndisk) (offset j : ℕ) : Type 0 where
  pub not_null : child_at (disk offset) j ≢ 0
  pub child_type :
      (base_at (disk offset) j).btype ≡ type_byte (disk (child_at (disk offset) j)).type
  pub child_parent : (disk (child_at (disk offset) j)).parent ≡ offset

-- A tree of height `n` whose elements lie between two bounds.
abbrev pub IsTree : (beg : BaseElm) → (ℕ → NodeOndisk) → (n offset : ℕ) → (lo hi : BaseElm) → Type 0
IsTree beg disk zero offset lo hi = IsLeafIn (disk offset) lo hi
IsTree beg disk (suc n) offset lo hi =
    IsInnerIn beg (disk offset) lo hi
    × ((j : ℕ)
        → j < (disk offset).count
        → IsChild disk offset j
          × IsTree beg disk n (child_at (disk offset) j) (base_at (disk offset) j)
              (base_at (disk offset) (j + 1)))

module _ (beg : BaseElm) (disk : ℕ → NodeOndisk) where
  -- The elements lie between the bounds.
  pub Holds-between :
      (n offset : ℕ) (lo hi : BaseElm)
      → IsTree beg disk n offset lo hi
      → (elm : BtreeElm) → Holds disk n offset elm
      → (rank lo ≤ rank elm.base) × (rank elm.base < rank hi)
  unfolding base_at
  Holds-between zero offset lo hi ok elm (j, l, e) =
      let same = ap (λ x. rank (BtreeElm.base x)) e in
      (omega (arith, same, ok.leaf_low j l), omega (arith, same, ok.leaf_high j l))
  Holds-between (suc n) offset lo hi (ok, children) elm (j, l, h) =
      let (low, high) = Holds-between n _ _ _ (children j l).1 elm h in
      let node = disk offset in
      (
        le_trans ok.inner_low (
            le_trans
              (rank_mono node (node.count + 1) ok.inner_sorted 0 j (omega arith) (omega arith))
              low),
        lt_of_lt_of_le high (
            le_trans
              (rank_mono node (node.count + 1) ok.inner_sorted (j + 1) node.count (omega arith)
                (omega arith))
              ok.inner_high),
      )

  -- An element whose rank lies between two neighbouring boundaries is below the child between them.
  pub Holds-child :
      (n offset : ℕ) (lo hi : BaseElm)
      → IsTree beg disk (suc n) offset lo hi
      → (i : ℕ) → i < (disk offset).count
      → (elm : BtreeElm) → Holds disk (suc n) offset elm
      → rank (base_at (disk offset) i) ≤ rank elm.base
      → rank elm.base < rank (base_at (disk offset) (i + 1))
      → Holds disk n (child_at (disk offset) i) elm
  Holds-child n offset lo hi (ok, children) i l elm (j, k, h) low high =
      let node = disk offset in
      let (low', high') = Holds-between n _ _ _ (children j k).1 elm h in
      let mono = rank_mono node (node.count + 1) ok.inner_sorted in
      elim (dec_lt i j) [
        | yes p ↦ absurd (omega (arith, mono (i + 1) j (omega arith) (omega arith)))
        | no p ↦ elim (dec_lt j i) [
          | yes q ↦ absurd (omega (arith, mono (j + 1) i (omega arith) (omega arith)))
          | no q ↦ subst (λ x. Holds disk n (child_at node x) elm) (omega arith) h
        ]
      ]
