-- ===== src/Tests/Keys.antt =====
-- Keys and separators.
use hammer_linux.Base.{ℕ, ◌<◌, ◌≡◌, ◌↔◌, refl, arith}
use hammer_linux.Base.Int.{pos, negsuc, ◌<ℤ◌, ◌≤ℤ◌}
use hammer_linux.Btree.Elm.{BaseElm, IsBase}
use hammer_linux.Btree.Cmp.{hammer_btree_cmp, rank, hammer_btree_cmp_order}
use hammer_linux.Btree.Separator.{hammer_make_separator}
use hammer_linux.Btree.Separator.Cases.{Fits}
use hammer_linux.Btree.Separator.Order.{hammer_make_separator_order}

-- A record of object 5.
abbrev pub record_at : ℕ → BaseElm
record_at key = record {
  obj_id = 5;
  key = key;
  create_tid = 0x10;
  delete_tid = 0;
  rec_type = 1;
  obj_type = 0;
  btype = 0x52;
  localization = 1;
}

pub record_at-IsBase : (key : ℕ) → key < 0x10000000000000000 → IsBase (record_at key)
record_at-IsBase key h = record {
  obj_id_word = omega arith;
  key_word = h;
  create_word = omega arith;
  delete_word = omega arith;
  rec_word = omega arith;
  localization_word = omega arith;
}

abbrev deleted_at : ℕ → BaseElm
deleted_at tid = record (record_at 100) { delete_tid = tid }

-- A negative key is below the others.
negative_key : hammer_btree_cmp (record_at 0xffffffffffffffff) (record_at 0) ≡ negsuc 1
unfolding hammer_btree_cmp
negative_key = refl

hammer_btree_cmp_order_example :
    ((hammer_btree_cmp (record_at 100) (record_at 200) <ℤ pos 0)
      ↔ (rank (record_at 100) < rank (record_at 200)))
    × ((pos 0 <ℤ hammer_btree_cmp (record_at 100) (record_at 200))
        ↔ (rank (record_at 200) < rank (record_at 100)))
hammer_btree_cmp_order_example =
    hammer_btree_cmp_order (record_at 100) (record_at 200) (record_at-IsBase 100 (omega arith))
      (record_at-IsBase 200 (omega arith))

hammer_make_separator_order_example :
    (hammer_btree_cmp (record_at 100) (hammer_make_separator (record_at 100) (record_at 200))
      <ℤ pos 0)
    × (hammer_btree_cmp (hammer_make_separator (record_at 100) (record_at 200)) (record_at 200)
        ≤ℤ pos 0)
unfolding hammer_btree_cmp
hammer_make_separator_order_example =
    hammer_make_separator_order (record_at 100) (record_at 200) (record_at-IsBase 100 (omega arith))
      (record_at-IsBase 200 (omega arith)) fits below
  where
    fits : Fits (record_at 100) (record_at 200)
    fits = record {
      localization_fits = omega arith;
      obj_id_fits = omega arith;
      key_fits = omega arith;
    }

    below : hammer_btree_cmp (record_at 100) (record_at 200) <ℤ pos 0
    below = omega arith
