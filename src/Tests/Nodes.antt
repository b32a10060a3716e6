-- ===== src/Tests/Nodes.antt =====
-- Searches, insertions and deletions in a leaf of two records.
use hammer_linux.Base.{
  ℕ, zero, suc, ◌+◌, ◌-◌, ◌<◌, ◌≤◌, ◌≡◌, ◌≢◌, refl, arith, true, false, none, some, List, [], ◌∷◌,
  length,
}
use hammer_linux.Base.Int.{pos}
use hammer_linux.Base.Outcome.{Returns}
use hammer_linux.Btree.Elm.{
  BaseElm, BtreeElm, IsBase, NodeOndisk, leaf, zero_elm, type_leaf, type_internal, leaf_elms,
}
use hammer_linux.Btree.Cmp.{rank, hammer_btree_cmp}
use hammer_linux.Btree.Search.{
  base_at, Scan, CreateCheck, hammer_btree_search_node, leaf_search, internal_search,
}
use hammer_linux.Btree.Search.Shortcut.{IsSorted, IsStart, hammer_btree_search_node-IsStart}
use hammer_linux.Btree.Search.Leaf.{
  AreRecords, Places, Sees, exactly, as_of, leaf_search-Places, leaf_search-Sees,
}
use hammer_linux.Btree.Search.Internal.{Splits, internal_search-Splits}
use hammer_linux.Btree.Leaf.{
  LeafCursor, Tracked, insert_at, delete_at, inserted_one, deleted_one, hammer_btree_insert,
  hammer_btree_delete_elm,
}
use hammer_linux.Btree.Leaf.Insert.{elm_at, HasRoom, hammer_btree_insert-IsSorted}
use hammer_linux.Btree.Leaf.Delete.{
  hammer_btree_delete_elm-IsSorted, inserted_one-elm_at, deleted_one-elm_at,
}
use hammer_linux.Tests.Keys.{record_at, record_at-IsBase}

abbrev elm : ℕ → BtreeElm
elm key = record { base = record_at key; payload = leaf 0 0 0 0 0 }

abbrev slots : ℕ → List BtreeElm
slots zero = []
slots (suc n) = zero_elm ∷ slots n

abbrev two_records : NodeOndisk
two_records = record {
  parent = 0;
  count = 2;
  type = type_leaf;
  mirror_tid = 0;
  elms = elm 100 ∷ elm 200 ∷ slots 61;
}

-- Three boundaries, two children.
abbrev two_children : NodeOndisk
two_children = record {
  parent = 0;
  count = 2;
  type = type_internal;
  mirror_tid = 0;
  elms = elm 0 ∷ elm 100 ∷ elm 200 ∷ slots 60;
}

two_records-IsSorted : IsSorted two_records 2
unfolding base_at
two_records-IsSorted = record { words = λ i h. words i h; sorted = λ i j p q. sorted i j p q }
  where
    words : (i : ℕ) → i < 2 → IsBase (base_at two_records i)
    words zero h = record_at-IsBase 100 (omega arith)
    words (suc zero) h = record_at-IsBase 200 (omega arith)
    words (suc (suc i)) h = absurd (omega arith)

    sorted : (i j : ℕ) → i < j → j < 2 → rank (base_at two_records i) < rank (base_at two_records j)
    sorted zero zero p q = absurd (omega arith)
    sorted zero (suc zero) p q = omega arith
    sorted i (suc (suc j)) p q = absurd (omega arith)
    sorted (suc i) zero p q = absurd (omega arith)
    sorted (suc i) (suc zero) p q = absurd (omega arith)

two_records-AreRecords : AreRecords two_records
unfolding base_at
two_records-AreRecords zero h = refl
two_records-AreRecords (suc zero) h = refl
two_records-AreRecords (suc (suc i)) h = absurd (omega arith)

-- The key of the searches.
abbrev key : BaseElm
key = record_at 150

key-IsBase : IsBase key
key-IsBase = record_at-IsBase 150 (omega arith)

hammer_btree_search_node-IsStart_example :
    (r : ℕ) × (hammer_btree_search_node key two_records ≡ some r)
    × IsStart key two_records key-IsBase two_records-IsSorted r
hammer_btree_search_node-IsStart_example =
    hammer_btree_search_node-IsStart key two_records key-IsBase two_records-IsSorted

leaf_search-Places_example :
    (s : Scan) × (leaf_search
        (exactly key two_records key-IsBase two_records-IsSorted two_records-AreRecords)
        two_records
      ≡ some s)
    × Places two_records key s
leaf_search-Places_example =
    leaf_search-Places key two_records key-IsBase two_records-IsSorted two_records-AreRecords

two_records-created : (i : ℕ) → i < 2 → 0 < (base_at two_records i).create_tid
unfolding base_at
two_records-created zero h = omega arith
two_records-created (suc zero) h = omega arith
two_records-created (suc (suc i)) h = absurd (omega arith)

leaf_search-Sees_example :
    (s : Scan) × (leaf_search
        (as_of key two_records key-IsBase two_records-IsSorted two_records-AreRecords)
        two_records
      ≡ some s)
    × Sees two_records key 0x10 s
leaf_search-Sees_example =
    leaf_search-Sees key two_records key-IsBase two_records-IsSorted two_records-AreRecords
      two_records-created

two_children-IsSorted : IsSorted two_children 3
unfolding base_at
two_children-IsSorted = record { words = λ i h. words i h; sorted = λ i j p q. sorted i j p q }
  where
    words : (i : ℕ) → i < 3 → IsBase (base_at two_children i)
    words zero h = record_at-IsBase 0 (omega arith)
    words (suc zero) h = record_at-IsBase 100 (omega arith)
    words (suc (suc zero)) h = record_at-IsBase 200 (omega arith)
    words (suc (suc (suc i))) h = absurd (omega arith)

    sorted :
        (i j : ℕ) → i < j → j < 3 → rank (base_at two_children i) < rank (base_at two_children j)
    sorted i zero p q = absurd (omega arith)
    sorted zero (suc zero) p q = omega arith
    sorted (suc i) (suc zero) p q = absurd (omega arith)
    sorted zero (suc (suc zero)) p q = omega arith
    sorted (suc zero) (suc (suc zero)) p q = omega arith
    sorted (suc (suc i)) (suc (suc zero)) p q = absurd (omega arith)
    sorted i (suc (suc (suc j))) p q = absurd (omega arith)

two_children-created :
    (i : ℕ)
    → i ≤ 2
    → hammer_btree_cmp key (base_at two_children i) ≡ pos 1
    → (base_at two_children i).create_tid ≢ 1
unfolding base_at
two_children-created zero h k = λ e. omega arith
two_children-created (suc zero) h k = λ e. omega arith
two_children-created (suc (suc zero)) h k = λ e. omega arith
two_children-created (suc (suc (suc i))) h k = absurd (omega arith)

internal_search-Splits_example :
    (r : ℕ × CreateCheck) × (internal_search key two_children none ≡ some r)
    × Splits two_children key none r
internal_search-Splits_example =
    internal_search-Splits key two_children key-IsBase two_children-IsSorted two_children-created
      none

-- A cursor between the two records, with another one on the second.
abbrev at_150 : LeafCursor
at_150 = record {
  node = two_records;
  index = 1;
  left_bound = record_at 0;
  right_bound = record_at 1000;
  cursor_list = record { index = 1; ripout = false } ∷ [];
}

two_records-HasRoom : HasRoom two_records 1
two_records-HasRoom = record { slots = refl; room = omega arith; inside = omega arith }

hammer_btree_insert-IsSorted_example : Returns (hammer_btree_insert 0 at_150 (elm 150)) (λ r.
    IsSorted r.0.node 3
    × (r.0.node.count ≡ 3)
    × (elm_at r.0.node.elms 1 ≡ elm 150)
    × ((j : ℕ) → j < 1 → elm_at r.0.node.elms j ≡ elm_at two_records.elms j)
    × ((j : ℕ) → 1 < j → j ≤ 2 → elm_at r.0.node.elms j ≡ elm_at two_records.elms (j - 1))
    × (length r.0.node.elms ≡ leaf_elms))
unfolding base_at hammer_btree_cmp
hammer_btree_insert-IsSorted_example =
    hammer_btree_insert-IsSorted at_150 (elm 150) two_records-HasRoom key-IsBase
      two_records-IsSorted (omega arith, left, right) (λ e. omega arith) refl (omega arith)
      (omega arith)
  where
    left : (j : ℕ) → j < 1 → rank (base_at two_records j) < rank key
    left zero h = omega arith
    left (suc j) h = absurd (omega arith)

    right : (j : ℕ) → 1 ≤ j → j < 2 → rank key < rank (base_at two_records j)
    right zero h k = absurd (omega arith)
    right (suc zero) h k = omega arith
    right (suc (suc j)) h k = absurd (omega arith)

hammer_btree_delete_elm-IsSorted_example : Returns (hammer_btree_delete_elm 0 at_150) (λ r.
    IsSorted r.node 1
    × (r.node.count ≡ 1)
    × ((j : ℕ) → j < 1 → elm_at r.node.elms j ≡ elm_at two_records.elms j)
    × ((j : ℕ) → 1 ≤ j → j + 1 < 2 → elm_at r.node.elms j ≡ elm_at two_records.elms (j + 1))
    × (length r.node.elms ≡ 63))
hammer_btree_delete_elm-IsSorted_example =
    hammer_btree_delete_elm-IsSorted at_150 (omega arith) (omega arith) two_records-IsSorted refl

abbrev tracked : Tracked
tracked = record { index = 1; ripout = false }

inserted_one-elm_at_example :
    elm_at (insert_at two_records 1 (elm 150)).elms (inserted_one 1 tracked).index
    ≡ elm_at two_records.elms 1
inserted_one-elm_at_example =
    inserted_one-elm_at two_records 1 (elm 150) tracked two_records-HasRoom (omega arith)

deleted_one-elm_at_example :
    ((tracked.index ≢ 0)
      → elm_at (delete_at two_records 0).elms (deleted_one 0 tracked).index
        ≡ elm_at two_records.elms 1)
    × (tracked.index ≡ 0 → (deleted_one 0 tracked).ripout ≡ true)
deleted_one-elm_at_example =
    deleted_one-elm_at two_records 0 tracked (omega arith) (omega arith) (omega arith)
