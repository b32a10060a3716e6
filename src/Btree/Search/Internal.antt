-- ===== src/Btree/Search/Internal.antt =====
-- What the search of an internal node finds: the boundary elements around the key.
use native.Mathlib.Decide.{dec_lt}
use native.Mathlib.Nat.{le_of_lt, lt_of_lt_of_le}
use hammer_linux.Base.{
  ℕ, zero, suc, ◌+◌, ◌-◌, ◌≤◌, ◌<◌, ◌≡◌, ◌≢◌, refl, ◌⊎◌, inl, inr, some, arith, ◌∙◌,
}
use hammer_linux.Base.Int.{ℤ, ℤ-discrete, pos, ◌≤ℤ◌, ◌<ℤ◌}
use hammer_linux.Btree.Elm.{BaseElm, IsBase, NodeOndisk}
use hammer_linux.Btree.Cmp.{
  hammer_btree_cmp, rank, cmp-lt_rank, cmp-ge_rank, hammer_btree_cmp_order,
}
use hammer_linux.Btree.Search.{base_at, internal_scan, internal_search, CreateCheck}
use hammer_linux.Btree.Search.Shortcut.{
  IsSorted, rank_mono, up_to, hammer_btree_search_node-IsStart,
}

-- CREATE_CHECK holds what it held, or the instant before an element among the first `n`, which
-- differs from the key by its creation only, was created.
abbrev pub CheckFrom : NodeOndisk → BaseElm → CreateCheck → (n : ℕ) → CreateCheck → Type 0
CheckFrom node key before n after =
    (after ≡ before)
    ⊎ ((j : ℕ) × (j < n)
        × (hammer_btree_cmp key (base_at node j) ≡ pos 1)
        × (after ≡ some ((base_at node j).create_tid - 1)))

-- The place of a key among the boundary elements: how many are not above it.
pub record Splits (node : NodeOndisk) (key : BaseElm) (check : CreateCheck) (r : ℕ × CreateCheck)
    : Type 0 where
  pub inside : r.0 ≤ node.count + 1
  pub left : (j : ℕ) → j < r.0 → rank (base_at node j) ≤ rank key
  pub right : (j : ℕ) → r.0 ≤ j → j ≤ node.count → rank key < rank (base_at node j)
  pub checked : CheckFrom node key check r.0 r.1

module _ (key : BaseElm) (node : NodeOndisk) (rounds i : ℕ) (check : CreateCheck) where
  abbrev result : ℤ
  result = hammer_btree_cmp key (base_at node i)

  round_below : result <ℤ pos 0 → internal_scan key node (suc rounds) i check ≡ some (i, check)
  unfolding internal_scan
  round_below h = ground arith

  round_created :
      (base_at node i).create_tid ≢ 1
      → result ≡ pos 1
      → internal_scan key node (suc rounds) i check
        ≡ internal_scan key node rounds (i + 1) (some ((base_at node i).create_tid - 1))
  unfolding internal_scan
  round_created n h = ground arith

  round_else :
      pos 0 ≤ℤ result
      → result ≢ pos 1
      → internal_scan key node (suc rounds) i check ≡ internal_scan key node rounds (i + 1) check
  unfolding internal_scan
  round_else h n = ground arith

weaken :
    (node : NodeOndisk) (key : BaseElm) (b : CreateCheck) (n : ℕ) (a : CreateCheck)
    → CheckFrom node key b n a
    → CheckFrom node key b (n + 1) a
weaken node key b n a (inl e) = inl e
weaken node key b n a (inr (j, h, e, f)) = inr (j, omega arith, e, f)

one_pos : (c : ℤ) → c ≡ pos 1 → pos 0 ≤ℤ c
one_pos c e = ground arith

module _ (key : BaseElm) (node : NodeOndisk) (word : IsBase key)
    (ok : IsSorted node (node.count + 1))
    (created : (i : ℕ)
      → i ≤ node.count
      → hammer_btree_cmp key (base_at node i) ≡ pos 1
      → (base_at node i).create_tid ≢ 1)
    (before : CreateCheck) where
  abbrev Reaches : (rounds i : ℕ) → CreateCheck → Type 0
  Reaches rounds i check =
      (r : ℕ × CreateCheck) × (internal_scan key node rounds i check ≡ some r)
      × Splits node key before r

  internal_scan_lem :
      (rounds i : ℕ) (check : CreateCheck)
      → i + rounds ≡ node.count + 1
      → ((j : ℕ) → j < i → rank (base_at node j) ≤ rank key)
      → CheckFrom node key before i check
      → Reaches rounds i check
  internal_scan_lem zero i check e left from = (
    (i, check),
    unfold internal_scan in refl,
    record {
      inside = omega arith;
      left = left;
      right = λ j h k. absurd (omega arith);
      checked = from;
    },
  )
  internal_scan_lem (suc rounds) i check e left from =
      let l : i < node.count + 1 = omega arith in
      let w = ok.words i l in
      elim (dec_lt (rank key) (rank (base_at node i))) [
        | yes h ↦ (
          (i, check),
          round_below key node rounds i check ((cmp-lt_rank key _ word w).1 h),
          record {
            inside = omega arith;
            left = left;
            right =
                λ j p q. lt_of_lt_of_le h (rank_mono node (node.count + 1) ok i j p (omega arith));
            checked = from;
          },
        )
        | no n ↦
            (let here : rank (base_at node i) ≤ rank key = omega arith in
              let low = cmp-ge_rank key _ word w here in
              let left' = up_to (λ j. rank (base_at node j) ≤ rank key) i left here in
              elim (ℤ-discrete (hammer_btree_cmp key (base_at node i)) (pos 1)) [
                | yes one ↦
                    (let more =
                        internal_scan_lem rounds (i + 1) (some ((base_at node i).create_tid - 1))
                          (omega arith) left' (inr (i, omega arith, one, refl)) in
                      (
                        more.0,
                        round_created key node rounds i check (created i (omega arith) one) one
                            ∙ more.1,
                        more.2,
                      ))
                | no other ↦
                    (let more =
                        internal_scan_lem rounds (i + 1) check (omega arith) left'
                          (weaken node key before i check from) in
                      (more.0, round_else key node rounds i check low other ∙ more.1, more.2))
              ])
      ]

  fewer : IsSorted node node.count
  fewer = record {
    words = λ i h. ok.words i (omega arith);
    sorted = λ i j p q. ok.sorted i j p (omega arith);
  }

  beyond-le : (c : ℤ) → pos 2 ≤ℤ c → pos 0 <ℤ c
  beyond-le c h = omega arith

  -- In an internal node whose boundary elements are in order, none of which was created at instant 1
  -- and differs from the key by its creation only, the search passes its assertion and splits the boundaries at the key: the elements to the left of the
  -- index are not above the key, the others are above it, and CREATE_CHECK keeps its value or is the
  -- instant before the creation of an element on the left that differs by its creation only.
  pub internal_search-Splits :
      (r : ℕ × CreateCheck) × (internal_search key node before ≡ some r) × Splits node key before r
  unfolding internal_search internal_scan
  internal_search-Splits =
      let (r, e, start) = hammer_btree_search_node-IsStart key node word fewer in
      let more =
        internal_scan_lem (node.count + 1 - r) r before (omega (arith, start.start_inside))
          (λ j h. le_of_lt (
            (hammer_btree_cmp_order key _ word (ok.words j (omega (arith, start.start_inside)))).1.0
              (beyond-le _ (start.before_start j h))))
          (inl refl) in
      (more.0, rw e more.1, more.2)
