-- ===== src/Btree/Split/Halves.antt =====
-- The arrays after a split: the half that moves, and the parent with the separator.
use native.Mathlib.Nat.{zero-add, lt_of_lt_of_le, lt_of_le_of_lt}
use mathlib.Core.Path.{subst}
use hammer_linux.Base.{
  ℕ, ◌+◌, ◌-◌, ◌≤◌, ◌<◌, ◌≡◌, sym, ap, ◌∙◌, arith, length, set, take, drop, ne_test, length-take,
  length-drop,
}
use hammer_linux.Base.Array.{
  bcopy, get_or-overwrite_inside, length-overwrite, get_or-take, get_or-drop,
}
use hammer_linux.Btree.Elm.{
  BaseElm, BtreeElm, IsBase, NodeOndisk, zero_elm, internal, leaf_elms, int_elms,
}
use hammer_linux.Btree.Cmp.{rank}
use hammer_linux.Btree.Search.{base_at, miss}
use hammer_linux.Btree.Search.Shortcut.{IsSorted, rank_mono}
use hammer_linux.Btree.Search.Leaf.{Places}
use hammer_linux.Btree.Leaf.{insert_at}
use hammer_linux.Btree.Leaf.Insert.{
  HasRoom, elm_at, insert_at-IsSorted, base_before, base_self, inserted_before, inserted_self,
  inserted_after,
}
use hammer_linux.Btree.Tree.{type_byte}
use hammer_linux.Btree.Split.{right_half, add_separator}

-- The new node has the elements from the split point on.
module _ (old new : NodeOndisk) (split n parent : ℕ) (slots : length old.elms ≡ leaf_elms)
    (empty : length new.elms ≡ leaf_elms) (inside : split + n ≤ leaf_elms) where
  pub right_half-elm_at :
      (j : ℕ)
      → j < n
      → elm_at (right_half old new split n parent).elms j ≡ elm_at old.elms (split + j)
  right_half-elm_at j h =
      rw (zero-add j) at (
        get_or-overwrite_inside new.elms 0 (take n (drop split old.elms)) j zero_elm
          (omega (arith, length-take n (drop split old.elms), length-drop split old.elms))
          (omega arith))
      ∙ get_or-take n (drop split old.elms) j zero_elm h
      ∙ get_or-drop split old.elms j zero_elm

  pub right_half-base_at :
      (j : ℕ) → j < n → base_at (right_half old new split n parent) j ≡ base_at old (split + j)
  unfolding base_at
  right_half-base_at j h = ap BtreeElm.base (right_half-elm_at j h)

  pub length-right_half : length (right_half old new split n parent).elms ≡ leaf_elms
  length-right_half = length-overwrite new.elms 0 (take n (drop split old.elms)) ∙ empty

  pub right_half-IsSorted :
      (m : ℕ) → split + n ≤ m → IsSorted old m → IsSorted (right_half old new split n parent) n
  right_half-IsSorted m l ok = record {
    words = λ i h. subst IsBase (sym (right_half-base_at i h)) (ok.words (split + i) (omega arith));
    sorted = λ i j h k. omega (
      arith,
      ap (λ x. rank x) (right_half-base_at i (omega arith)),
      ap (λ x. rank x) (right_half-base_at j k),
      ok.sorted (split + i) (split + j) (omega arith) (omega arith),
    );
  }

-- The parent with a separator after its element `i`.
module _ (p : NodeOndisk) (i : ℕ) (base : BaseElm) (new : NodeOndisk) (offset : ℕ)
    (slots : length p.elms ≡ leaf_elms) (room : p.count < int_elms) (inside : i < p.count) where
  abbrev separator : BtreeElm
  separator = record {
    base = record base { btype = type_byte new.type };
    payload = internal new.mirror_tid offset;
  }

  -- The right-hand boundary counts as an element here.
  abbrev bounded : NodeOndisk
  bounded = record p { count = p.count + 1 }

  bounded-HasRoom : HasRoom bounded (i + 1)
  bounded-HasRoom = record { slots = slots; room = omega arith; inside = omega arith }

  two : i + 2 ≡ i + 1 + 1
  two = omega arith

  rest : p.count - i ≡ p.count + 1 - (i + 1)
  rest = omega arith

  add_separator-insert_at :
      (add_separator p i base new offset).elms ≡ (insert_at bounded (i + 1) separator).elms
  add_separator-insert_at = rw (ne_test (i + 1) (p.count + 1) (omega arith)) (
      ap (λ d. set (bcopy p.elms (i + 1) d (p.count - i)) (i + 1) separator) two
      ∙ ap (λ n. set (bcopy p.elms (i + 1) (i + 1 + 1) n) (i + 1) separator) rest)

  abbrev after : NodeOndisk
  after = add_separator p i base new offset

  same_base : (j : ℕ) → base_at after j ≡ base_at (insert_at bounded (i + 1) separator) j
  unfolding base_at
  same_base j = ap (λ xs. (elm_at xs j).base) add_separator-insert_at

  pub separator_before : (j : ℕ) → j ≤ i → base_at after j ≡ base_at p j
  unfolding base_at
  separator_before j h =
      same_base j ∙ base_before bounded (i + 1) separator bounded-HasRoom j (omega arith)

  pub separator_self : base_at after (i + 1) ≡ record base { btype = type_byte new.type }
  separator_self = same_base (i + 1) ∙ base_self bounded (i + 1) separator bounded-HasRoom

  pub separator_elm : elm_at after.elms (i + 1) ≡ separator
  separator_elm =
      ap (λ xs. elm_at xs (i + 1)) add_separator-insert_at
      ∙ inserted_self p.elms (p.count + 1) (i + 1) separator (omega arith) (omega arith)

  pub separator_elm_before : (j : ℕ) → j ≤ i → elm_at after.elms j ≡ elm_at p.elms j
  separator_elm_before j h =
      ap (λ xs. elm_at xs j) add_separator-insert_at
      ∙ inserted_before p.elms (p.count + 1) (i + 1) separator (omega arith) (omega arith) j
          (omega arith)

  pub separator_elm_after :
      (j : ℕ) → i + 1 < j → j ≤ p.count + 1 → elm_at after.elms j ≡ elm_at p.elms (j - 1)
  separator_elm_after j h k =
      ap (λ xs. elm_at xs j) add_separator-insert_at
      ∙ inserted_after p.elms (p.count + 1) (i + 1) separator (omega arith) (omega arith) j h k

  pub separator_after : base_at after (i + 1 + 1) ≡ base_at p (i + 1)
  unfolding base_at
  separator_after =
      ap BtreeElm.base (separator_elm_after (i + 1 + 1) (omega arith) (omega arith))
      ∙ ap (λ x. base_at p x) (omega arith)

  -- A separator between its neighbours keeps the parent in order.
  pub add_separator-IsSorted :
      IsBase base
      → IsSorted p (p.count + 1)
      → rank (base_at p i) < rank base
      → rank base < rank (base_at p (i + 1))
      → IsSorted after (p.count + 2)
  unfolding base_at
  add_separator-IsSorted word ok low high =
      let place : Places bounded separator.base (miss (i + 1)) = (
        omega arith,
        λ j h. lt_of_le_of_lt (rank_mono p (p.count + 1) ok j i (omega arith) (omega arith)) low,
        λ j h k. lt_of_lt_of_le high (rank_mono p (p.count + 1) ok (i + 1) j h k),
      ) in
      let k =
        insert_at-IsSorted bounded (i + 1) separator bounded-HasRoom
          (record {
            obj_id_word = word.obj_id_word;
            key_word = word.key_word;
            create_word = word.create_word;
            delete_word = word.delete_word;
            rec_word = word.rec_word;
            localization_word = word.localization_word;
          })
          (record { words = ok.words; sorted = ok.sorted }) place in
      record {
        words = λ j h. subst IsBase (sym (same_base j)) (k.words j (omega arith));
        sorted = λ a b h l. omega (
          arith,
          ap (λ x. rank x) (same_base a),
          ap (λ x. rank x) (same_base b),
          k.sorted a b h (omega arith),
        );
      }
