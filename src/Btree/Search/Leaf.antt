-- ===== src/Btree/Search/Leaf.antt =====
-- What the search of a leaf finds.
use hammer_linux.Base.{
  ℕ, zero, suc, ◌+◌, ◌-◌, ◌*◌, ◌≤◌, ◌<◌, ◌≡◌, ◌≢◌, refl, sym, ◌⊎◌, inl, inr, some, arith, true,
  false,
}
use native.Mathlib.Decide.{dec_lt}
use native.Mathlib.Nat.{le_of_eq, lt_of_lt_of_le, le_antisymm}
use hammer_linux.Base.Int.{ℤ, ℤ-discrete, pos, ◌≤ℤ◌, ◌<ℤ◌}
use hammer_linux.Btree.Elm.{BaseElm, IsBase, NodeOndisk}
use hammer_linux.Btree.Cmp.{
  hammer_btree_cmp, match_rank, match_rank-le, tid_rank, rank, cmp-le_one, cmp-lt_rank, cmp-le_rank,
  cmp-ge_rank, hammer_btree_chkts_lem, hammer_btree_cmp_order, lt_or_eq_or_gt, instant,
  hammer_btree_chkts,
}
use hammer_linux.Btree.Search.{
  base_at, LeafQuery, Scan, hit, miss, panic, leaf_scan, leaf_search, type_record,
}
use hammer_linux.Btree.Search.Shortcut.{
  IsSorted, rank_mono, up_to, hammer_btree_search_node-IsStart,
}

-- All elements of a leaf are records.
abbrev pub AreRecords : NodeOndisk → Type 0
AreRecords node = (i : ℕ) → i < node.count → (base_at node i).btype ≡ type_record

-- The place of a key in a leaf: the element that has it, or where an insertion keeps the order.
abbrev pub Places : NodeOndisk → BaseElm → Scan → Type 0
Places node key (hit i) = (i < node.count) × (rank (base_at node i) ≡ rank key)
Places node key (miss i) =
    (i ≤ node.count)
    × ((j : ℕ) → j < i → rank (base_at node j) < rank key)
    × ((j : ℕ) → i ≤ j → j < node.count → rank key < rank (base_at node j))
Places node key panic = ⊥

-- What an as-of search says of a leaf: a visible element with the key, or none is visible.
abbrev pub Sees : NodeOndisk → BaseElm → ℕ → Scan → Type 0
Sees node key asof (hit i) =
    (i < node.count)
    × (match_rank (base_at node i) ≡ match_rank key)
    × (hammer_btree_chkts asof (base_at node i) ≡ pos 0)
Sees node key asof (miss i) =
    (i ≤ node.count)
    × ((j : ℕ)
        → j < node.count
        → match_rank (base_at node j) ≡ match_rank key
        → hammer_btree_chkts asof (base_at node j) ≢ pos 0)
Sees node key asof panic = ⊥

-- One round of the loop, by the result of the comparison.
module _ (q : LeafQuery) (node : NodeOndisk) (rounds i : ℕ)
    (is_record : (base_at node i).btype ≡ type_record) where
  abbrev result : ℤ
  result = hammer_btree_cmp q.key_beg (base_at node i)

  round_below : result <ℤ pos 0 → leaf_scan q node (suc rounds) i ≡ miss i
  unfolding leaf_scan
  round_below h = ground arith

  round_beyond : pos 2 ≤ℤ result → leaf_scan q node (suc rounds) i ≡ leaf_scan q node rounds (i + 1)
  unfolding leaf_scan
  round_beyond h = ground arith

  round_above :
      q.is_asof ≡ false
      → pos 0 <ℤ result
      → leaf_scan q node (suc rounds) i ≡ leaf_scan q node rounds (i + 1)
  unfolding leaf_scan
  round_above e h = ground arith

  round_equal :
      q.is_asof ≡ false
      → pos 0 ≤ℤ result
      → result ≤ℤ pos 0
      → leaf_scan q node (suc rounds) i ≡ hit i
  unfolding leaf_scan
  round_equal e h k = ground arith

  round_visible :
      q.is_asof ≡ true
      → pos 0 ≤ℤ result
      → result ≤ℤ pos 1
      → hammer_btree_chkts q.asof (base_at node i) ≡ pos 0
      → leaf_scan q node (suc rounds) i ≡ hit i
  unfolding leaf_scan
  round_visible e h k v = ground arith

  round_invisible :
      q.is_asof ≡ true
      → pos 0 ≤ℤ result
      → hammer_btree_chkts q.asof (base_at node i) ≢ pos 0
      → leaf_scan q node (suc rounds) i ≡ leaf_scan q node rounds (i + 1)
  unfolding leaf_scan
  round_invisible e h v = ground arith

positive : (c : ℤ) → pos 2 ≤ℤ c → pos 0 <ℤ c
positive c h = omega arith

pub not_lt : (m n : ℕ) → ¬ (m < n) → n ≤ m
not_lt m n h = omega arith

three : (c : ℤ) → (c <ℤ pos 0) ⊎ (pos 2 ≤ℤ c) ⊎ ((pos 0 ≤ℤ c) × (c ≤ℤ pos 1))
three c = grind arith

tid_order :
    (m n t u : ℕ) → m ≡ n → m * 0x10000000000000001 + t < n * 0x10000000000000001 + u → t < u
tid_order m n t u e h = omega arith

tid_rank-pos : (t : ℕ) → 0 < t → tid_rank t ≡ t
tid_rank-pos t h = ground arith

later :
    (a b : BaseElm)
    → 0 < b.create_tid
    → match_rank a ≡ match_rank b
    → rank a < rank b
    → instant a.create_tid < b.create_tid
later a b h e l = omega (
  arith,
  tid_order (match_rank a) (match_rank b) (tid_rank a.create_tid) (tid_rank b.create_tid) e l,
  tid_rank-pos b.create_tid h,
)

module _ (key : BaseElm) (node : NodeOndisk) (word : IsBase key) (ok : IsSorted node node.count)
    (records : AreRecords node) where
  abbrev pub exactly : LeafQuery
  exactly = record { is_asof = false; asof = 0; key_beg = key }

  leaf_scan_exact :
      (rounds i : ℕ)
      → i + rounds ≡ node.count
      → ((j : ℕ) → j < i → rank (base_at node j) < rank key)
      → Places node key (leaf_scan exactly node rounds i)
  unfolding leaf_scan
  leaf_scan_exact zero i e before = (omega arith, before, λ j h k. absurd (omega arith))
  leaf_scan_exact (suc rounds) i e before =
      let l : i < node.count = omega arith in
      let w = ok.words i l in
      elim (lt_or_eq_or_gt (rank key) (rank (base_at node i))) [
        | inl h ↦
            rw (round_below exactly node rounds i (records i l) ((cmp-lt_rank key _ word w).1 h)) (
              omega arith,
              before,
              λ j p q. lt_of_lt_of_le h (rank_mono node node.count ok i j p q),
            )
        | inr (inl h) ↦
            rw
              (round_equal exactly node rounds i (records i l) refl
                (cmp-ge_rank key _ word w (le_of_eq (sym h)))
                ((cmp-le_rank key _ word w).1 (le_of_eq h)))
              (l, sym h)
        | inr (inr h) ↦
            rw
              (round_above exactly node rounds i (records i l) refl
                ((hammer_btree_cmp_order key _ word w).1.1 h))
              (leaf_scan_exact rounds (i + 1) (omega arith)
                (up_to (λ j. rank (base_at node j) < rank key) i before h))
      ]

  -- An as-of search gives the key the timestamp for its `create_tid`.
  abbrev pub as_of : LeafQuery
  as_of = record { is_asof = true; asof = key.create_tid; key_beg = key }

  abbrev Hidden : ℕ → Type 0
  Hidden j =
      match_rank (base_at node j) ≡ match_rank key
      → hammer_btree_chkts key.create_tid (base_at node j) ≢ pos 0

  module _ (created : (i : ℕ) → i < node.count → 0 < (base_at node i).create_tid) where
    -- An element that compares above the key was created after the timestamp.
    above-Hidden : (j : ℕ) → j < node.count → rank key < rank (base_at node j) → Hidden j
    above-Hidden j l h e v = absurd (
        omega (
          arith,
          ((hammer_btree_chkts_lem key.create_tid (base_at node j) word.create_word
                (ok.words j l).create_word (ok.words j l).delete_word).0
              v).0,
          later key (base_at node j) (created j l) (sym e) h,
        ))

    beyond-Hidden :
        (j : ℕ) → j < node.count → pos 2 ≤ℤ hammer_btree_cmp key (base_at node j) → Hidden j
    beyond-Hidden j l h e v =
        absurd (omega (arith, (cmp-le_one key _ word (ok.words j l)).1 (le_of_eq (sym e))))

    same :
        (i : ℕ)
        → i < node.count
        → pos 0 ≤ℤ hammer_btree_cmp key (base_at node i)
        → hammer_btree_cmp key (base_at node i) ≤ℤ pos 1
        → match_rank (base_at node i) ≡ match_rank key
    same i l low high =
        let w = ok.words i l in
        le_antisymm
          (match_rank-le _ key w word
            (not_lt _ _ (λ h. absurd (omega (arith, (cmp-lt_rank key _ word w).1 h)))))
          ((cmp-le_one key _ word w).0 high)

    leaf_scan-as_of :
        (rounds i : ℕ)
        → i + rounds ≡ node.count
        → ((j : ℕ) → j < i → Hidden j)
        → Sees node key key.create_tid (leaf_scan as_of node rounds i)
    unfolding leaf_scan
    leaf_scan-as_of zero i e before = (omega arith, λ j h. before j (omega arith))
    leaf_scan-as_of (suc rounds) i e before =
        let l : i < node.count = omega arith in
        let w = ok.words i l in
        let next = λ (hidden : Hidden i).
          leaf_scan-as_of rounds (i + 1) (omega arith) (up_to Hidden i before hidden) in
        elim (three (hammer_btree_cmp key (base_at node i))) [
          | inl below ↦ rw (round_below as_of node rounds i (records i l) below) (
            omega arith,
            λ j k. elim (dec_lt j i) [
              | yes b ↦ before j b
              | no n ↦ above-Hidden j k (
                  lt_of_lt_of_le ((cmp-lt_rank key _ word w).0 below)
                    (rank_mono node node.count ok i j (omega arith) k))
            ],
          )
          | inr (inl beyond) ↦
              rw (round_beyond as_of node rounds i (records i l) beyond)
                (next (beyond-Hidden i l beyond))
          | inr (inr (low, high)) ↦
              elim (ℤ-discrete (hammer_btree_chkts key.create_tid (base_at node i)) (pos 0)) [
                | yes v ↦
                    rw (round_visible as_of node rounds i (records i l) refl low high v)
                      (l, same i l low high, v)
                | no n ↦
                    rw (round_invisible as_of node rounds i (records i l) refl low n)
                      (next (λ _. n))
              ]
        ]

    -- In a leaf whose elements are records, in order, and whose `create_tid` is not 0, an as-of search
    -- whose key has the timestamp for its `create_tid` ends at an element that has the key and is
    -- visible as of the timestamp, or at a miss, and then no element with that key is visible.
    pub leaf_search-Sees :
        (s : Scan) × (leaf_search as_of node ≡ some s) × Sees node key key.create_tid s
    unfolding leaf_search
    leaf_search-Sees =
        let (r, e, start) = hammer_btree_search_node-IsStart key node word ok in
        (
          leaf_scan as_of node (node.count - r) r,
          rw e,
          leaf_scan-as_of (node.count - r) r (omega (arith, start.start_inside))
              (λ j h. beyond-Hidden j (omega (arith, start.start_inside)) (start.before_start j h)),
        )

  -- In a leaf whose elements are records and in order, a search by the whole key ends at the element
  -- that has it, or at a miss where an insertion keeps the order: the elements to the left are
  -- smaller, and the others larger.
  pub leaf_search-Places : (s : Scan) × (leaf_search exactly node ≡ some s) × Places node key s
  unfolding leaf_search
  leaf_search-Places =
      let (r, e, start) = hammer_btree_search_node-IsStart key node word ok in
      (
        leaf_scan exactly node (node.count - r) r,
        rw e,
        leaf_scan_exact (node.count - r) r (omega (arith, start.start_inside)) (λ j h.
            (hammer_btree_cmp_order key _ word (ok.words j (omega (arith, start.start_inside)))).1.0
              (positive _ (start.before_start j h))),
      )
