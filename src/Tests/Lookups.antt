-- ===== src/Tests/Lookups.antt =====
-- A lookup in a tree of one full leaf below a root.
use hammer_linux.Base.{
  ℕ, zero, suc, ◌+◌, ◌*◌, ◌≤◌, ◌<◌, ◌≡◌, refl, ap, arith, false, none, [], ◌∷◌, if◌then◌else◌, ◌==◌,
}
use hammer_linux.Base.Outcome.{Returns}
use hammer_linux.Btree.Elm.{BaseElm, BtreeElm, IsBase, NodeOndisk, internal, type_internal}
use hammer_linux.Btree.Cmp.{rank, match_rank}
use hammer_linux.Btree.Search.{base_at}
use hammer_linux.Btree.Search.Shortcut.{IsSorted}
use hammer_linux.Btree.Tree.{Tree, Cursor, refused, zero_node}
use hammer_linux.Btree.Walk.{child_at}
use hammer_linux.Btree.Walk.Places.{IsWhole}
use hammer_linux.Btree.Shape.{IsLeafIn, IsChild}
use hammer_linux.Btree.Lookup.{Answers, btree_search}
use hammer_linux.Btree.Lookup.Down.{plain}
use hammer_linux.Btree.Lookup.Find.{Finds, btree_search-Finds}
use hammer_linux.Tests.Keys.{record_at}
use hammer_linux.Tests.Splits.{
  full_leaf, full_leaf-base_at, full_leaf-rank, small_IsBase, record_at-rising, rising-IsSorted,
  hmp, child_elm, child_elm-IsBase, ladder,
}

abbrev link : (key offset : ℕ) → BtreeElm
link key offset = record {
  base = record (record_at key) { btype = 0x4C };
  payload = internal 0 offset;
}

abbrev root : NodeOndisk
root = record {
  parent = 0;
  count = 1;
  type = type_internal;
  mirror_tid = 0;
  elms = link 0 0x1000 ∷ ladder child_elm 62 99;
}

abbrev two_levels : Tree
two_levels = record {
  disk = λ a. if a == 0x1000 then full_leaf 0x2000 else if a == 0x2000 then root else zero_node;
  cursor_list = λ a. [];
  vol0_btree_root = 0x2000;
}

leaf_in : IsLeafIn (full_leaf 0x2000) (record_at 0) (record_at 990)
leaf_in = record {
  leaf_type = refl;
  leaf_count = omega arith;
  leaf_sorted =
      rising-IsSorted (full_leaf 0x2000) record_at (full_leaf-base_at 0x2000) small_IsBase
        record_at-rising 63 (omega arith);
  leaf_records = λ i h. ap BaseElm.btype (full_leaf-base_at 0x2000 i h);
  leaf_low = λ j h. omega (arith, full_leaf-rank 0x2000 j h);
  leaf_high = λ j h.
      omega (
        arith,
        full_leaf-rank 0x2000 j h,
        record_at-rising (10 * j) 990 (omega arith) (omega arith),
      );
}

root-IsSorted : IsSorted root 2
unfolding base_at
root-IsSorted = record { words = λ i h. words i h; sorted = λ i j p q. sorted i j p q }
  where
    words : (i : ℕ) → i < 2 → IsBase (base_at root i)
    words zero h = child_elm-IsBase 0 (omega arith)
    words (suc zero) h = child_elm-IsBase 990 (omega arith)
    words (suc (suc i)) h = absurd (omega arith)

    sorted : (i j : ℕ) → i < j → j < 2 → rank (base_at root i) < rank (base_at root j)
    sorted i zero p q = absurd (omega arith)
    sorted zero (suc zero) p q = omega arith
    sorted (suc i) (suc zero) p q = absurd (omega arith)
    sorted i (suc (suc j)) p q = absurd (omega arith)

two_levels-IsWhole : IsWhole hmp two_levels 1 0x2000
unfolding base_at
two_levels-IsWhole = record {
  top_offset = λ e. omega arith;
  top_parent = refl;
  beg_word = small_IsBase 0 (omega arith);
  end_word = small_IsBase 990 (omega arith);
  tree_of = (
    record {
      inner_type = refl;
      inner_count = omega arith;
      inner_sorted = root-IsSorted;
      inner_created = λ j h. created j h;
      inner_low = omega arith;
      inner_high = omega arith;
      inner_links = λ i j h k. absurd (omega arith);
    },
    λ j h. children j h,
  );
}
  where
    created :
        (j : ℕ)
        → j ≤ 1
        → (base_at root j).create_tid ≡ 1
        → match_rank (base_at root j) ≡ match_rank (record_at 0)
    created zero h e = refl
    created (suc zero) h e = absurd (omega arith)
    created (suc (suc j)) h e = absurd (omega arith)

    children :
        (j : ℕ)
        → j < 1
        → IsChild two_levels.disk 0x2000 j
          × IsLeafIn (two_levels.disk (child_at root j)) (base_at root j) (base_at root (j + 1))
    children zero h = (
      record { not_null = λ e. omega arith; child_type = refl; child_parent = refl },
      record {
        leaf_type = refl;
        leaf_count = leaf_in.leaf_count;
        leaf_sorted = leaf_in.leaf_sorted;
        leaf_records = leaf_in.leaf_records;
        leaf_low = leaf_in.leaf_low;
        leaf_high = leaf_in.leaf_high;
      },
    )
    children (suc j) h = absurd (omega arith)

-- A cursor that starts at the leaf.
abbrev at_leaf_1000 : ℕ → Cursor
at_leaf_1000 key = record {
  node = 0x1000;
  index = 0;
  parent = 0x2000;
  parent_index = 0;
  key_beg = record_at key;
  left_bound = (link 0 0x1000).base;
  right_bound = (child_elm 990).base;
}

abbrev no_answers : Answers
no_answers = record { lock_children = 0; upgrade = 0; root = refused 28; half = refused 28 }

btree_search-Finds_example :
    Returns
      (btree_search 1 hmp plain
        (λ _. no_answers)
        no_answers
        (record { tree = two_levels; cursor = at_leaf_1000 150; check = none; is_enospc = false }))
      (Finds two_levels 1 0x2000 (record_at 150))
unfolding base_at
btree_search-Finds_example =
    btree_search-Finds hmp two_levels 1 0x2000 two_levels-IsWhole 1 (λ _. no_answers) no_answers
      (at_leaf_1000 150) none 1 0 (omega arith)
      (
        record {
          node = 0x2000;
          parent = 0;
          parent_index = 0;
          lo = record_at 0;
          hi = record_at 990;
        },
        0,
        (refl, refl),
        omega arith,
        refl,
      )
      (record {
        is_key = record {
          key_word = small_IsBase 150 (omega arith);
          above_beg = omega arith;
          below_end = omega arith;
        };
        not_first = λ e. omega arith;
      })
