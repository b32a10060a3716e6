-- ===== src/Btree/Split/Placed.antt =====
-- A cursor at the place of its key in a leaf, and the assertions that hold of it.
use native.Mathlib.Nat.{le_trans, lt_of_le_of_lt}
use hammer_linux.Base.{ℕ, ◌+◌, ◌-◌, ◌≤◌, ◌<◌, ◌≡◌, refl, arith, length, Bool, true, ◌&&◌}
use hammer_linux.Btree.Elm.{BaseElm, IsBase, NodeOndisk, leaf_elms, int_elms}
use hammer_linux.Btree.Cmp.{rank, cmp-le_rank, hammer_btree_cmp_order}
use hammer_linux.Btree.Search.{base_at, miss}
use hammer_linux.Btree.Search.Shortcut.{IsSorted, rank_mono}
use hammer_linux.Btree.Search.Leaf.{Places}
use hammer_linux.Btree.Tree.{Cursor}
use hammer_linux.Btree.Split.{settled_checks, leaf_checks, at_or_above, below}

-- A cursor that stands at the place of its key in a leaf, within its bounds.
pub record IsPlaced (node : NodeOndisk) (c : Cursor) : Type 0 where
  pub slots : length node.elms ≡ leaf_elms
  pub sorted : IsSorted node node.count
  pub key_word : IsBase c.key_beg
  pub left_word : IsBase c.left_bound
  pub right_word : IsBase c.right_bound
  pub place : Places node c.key_beg (miss c.index)
  pub filled : 0 < node.count
  pub first : rank c.left_bound ≤ rank (base_at node 0)
  pub last : rank (base_at node (node.count - 1)) < rank c.right_bound
  pub key_left : rank c.left_bound ≤ rank c.key_beg
  pub key_right : rank c.key_beg < rank c.right_bound

-- A parent with room for a separator after its element `i`, which has the cursor's bounds.
pub record IsParent (p : NodeOndisk) (i : ℕ) (c : Cursor) : Type 0 where
  pub parent_slots : length p.elms ≡ leaf_elms
  pub parent_sorted : IsSorted p (p.count + 1)
  pub room : p.count < int_elms
  pub inside : i < p.count
  pub left_same : rank (base_at p i) ≡ rank c.left_bound
  pub right_same : rank (base_at p (i + 1)) ≡ rank c.right_bound

pub test_above : (a b : BaseElm) → IsBase a → IsBase b → rank a ≤ rank b → at_or_above a b ≡ true
test_above a b p q h = ground (arith, (cmp-le_rank a b p q).1 h)

pub test_below : (a b : BaseElm) → IsBase a → IsBase b → rank b < rank a → below a b ≡ true
test_below a b p q h = ground (arith, (hammer_btree_cmp_order a b p q).1.1 h)

all_tests : (a b c d : Bool) → a ≡ true → b ≡ true → c ≡ true → d ≡ true → (a && b && c && d) ≡ true
all_tests a b c d p q r s = rw (p, q, r, s) refl

pub IsPlaced-settled_checks :
    (node : NodeOndisk) (c : Cursor) → IsPlaced node c → settled_checks node c ≡ true
unfolding settled_checks
IsPlaced-settled_checks node c ok =
    all_tests _ _ _ _ (test_above _ _ ok.left_word (ok.sorted.words 0 ok.filled) ok.first)
      (test_below _ _ ok.right_word (ok.sorted.words (node.count - 1) (omega (arith, ok.filled)))
        ok.last)
      (test_above _ _ ok.left_word ok.key_word ok.key_left)
      (test_below _ _ ok.right_word ok.key_word ok.key_right)

-- The assertions before the split.
module _ (node : NodeOndisk) (c : Cursor) (ok : IsPlaced node c) where
  inside_left : (j : ℕ) → j < node.count → at_or_above c.left_bound (base_at node j) ≡ true
  inside_left j h =
      test_above _ _ ok.left_word (ok.sorted.words j h)
        (le_trans ok.first (rank_mono node node.count ok.sorted 0 j (omega arith) h))

  inside_right : (j : ℕ) → j < node.count → below c.right_bound (base_at node j) ≡ true
  inside_right j h = test_below _ _ ok.right_word (ok.sorted.words j h) (
      lt_of_le_of_lt
        (rank_mono node node.count ok.sorted j (node.count - 1) (omega arith) (omega arith))
        ok.last)

  pub IsPlaced-leaf_checks :
      (split : ℕ) → 0 < split → split + 1 < node.count → leaf_checks node c split ≡ true
  unfolding leaf_checks
  IsPlaced-leaf_checks split h k =
      rw
        (
          inside_left 0 (omega arith),
          inside_right (node.count - 1) (omega arith),
          inside_left (split - 1) (omega arith),
          inside_left split (omega arith),
          inside_right split (omega arith),
          inside_right (split + 1) k,
        )
        refl
