-- ===== src/Btree/Search/Shortcut.antt =====
-- The heuristic search of a node as a start for the linear one.
use hammer_linux.Base.{
  ℕ, zero, suc, ◌+◌, ◌-◌, ◌/◌, ◌≤◌, ◌<◌, ◌≡◌, ◌⊎◌, refl, inl, inr, some, arith, ltb, Bool-cases,
  true, false,
}
use native.Mathlib.Decide.{dec_lt}
use native.Mathlib.Nat.{le_refl, le_trans, le_of_lt}
use mathlib.Core.Path.{subst}
use hammer_linux.Base.Int.{ℤ, pos, ◌≤ℤ◌, leb_ℤ}
use hammer_linux.Btree.Elm.{BaseElm, IsBase, NodeOndisk}
use hammer_linux.Btree.Cmp.{hammer_btree_cmp, match_rank, match_rank-le, rank, cmp-le_one}
use hammer_linux.Btree.Search.{base_at, search_loop, hammer_btree_search_node}

-- The first `n` elements are in the order of the B-Tree.
pub record IsSorted (node : NodeOndisk) (n : ℕ) : Type 0 where
  pub words : (i : ℕ) → i < n → IsBase (base_at node i)
  pub sorted : (i j : ℕ) → i < j → j < n → rank (base_at node i) < rank (base_at node j)

-- `elm` compares above the element without regard to `create_tid`, or not.
abbrev pub Beyond : BaseElm → NodeOndisk → ℕ → Type 0
Beyond elm node i = pos 2 ≤ℤ hammer_btree_cmp elm (base_at node i)

abbrev pub Stops : BaseElm → NodeOndisk → ℕ → Type 0
Stops elm node i = hammer_btree_cmp elm (base_at node i) ≤ℤ pos 1

pub rank_mono :
    (node : NodeOndisk) (n : ℕ)
    → IsSorted node n
    → (i j : ℕ) → i ≤ j
    → j < n
    → rank (base_at node i) ≤ rank (base_at node j)
rank_mono node n ok i j h k = elim (dec_lt i j) [
  | yes l ↦ le_of_lt (ok.sorted i j l k)
  | no g ↦ subst (λ x. rank (base_at node i) ≤ rank (base_at node x)) (omega arith) (le_refl _)
]

-- What holds below `i` and at `i` holds below `i + 1`.
pub up_to : (P : ℕ → Type 0) (i : ℕ) → ((j : ℕ) → j < i → P j) → P i → (j : ℕ) → j < i + 1 → P j
up_to P i before here j h = elim (dec_lt j i) [
  | yes l ↦ before j l
  | no n ↦ subst P (omega arith) here
]

at_least_two : (c : ℤ) → ¬ (c ≤ℤ pos 1) → pos 2 ≤ℤ c
at_least_two c h = omega arith

module _ (elm : BaseElm) (node : NodeOndisk) (word : IsBase elm)
    (ok : IsSorted node node.count) where
  match_mono :
      (i j : ℕ) → i ≤ j → j < node.count → match_rank (base_at node i) ≤ match_rank (base_at node j)
  match_mono i j h k =
      match_rank-le _ _ (ok.words i (omega arith)) (ok.words j k)
        (rank_mono node node.count ok i j h k)

  -- Once a comparison stops the search, so does every later one.
  Stops-mono : (i j : ℕ) → i ≤ j → j < node.count → Stops elm node i → Stops elm node j
  Stops-mono i j h k st =
      (cmp-le_one elm _ word (ok.words j k)).1
        (le_trans ((cmp-le_one elm _ word (ok.words i (omega arith))).0 st) (match_mono i j h k))

  Beyond-anti : (i j : ℕ) → i ≤ j → j < node.count → Beyond elm node j → Beyond elm node i
  Beyond-anti i j h k bey = at_least_two _ (λ st. absurd (omega (arith, Stops-mono i j h k st)))

  -- What the loop knows of its two variables.
  record Inv (b s : ℕ) : Type 0 where
    ordered : b ≤ s
    inside : s ≤ node.count
    before : (j : ℕ) → j < b → Beyond elm node j
    after : (j : ℕ) → s ≤ j → j < node.count → Stops elm node j
    low : (b ≡ 0) ⊎ Beyond elm node b

  -- A safe start for a search from the left, at most four elements before the place.
  pub record IsStart (r : ℕ) : Type 0 where
    pub start_inside : r ≤ node.count
    pub before_start : (j : ℕ) → j < r → Beyond elm node j
    pub near : (j : ℕ) → r + 4 ≤ j → j < node.count → Stops elm node j
    pub reached : (r ≡ 0) ⊎ Beyond elm node r

  Inv-left :
      (b s i : ℕ)
      → Inv b s
      → b ≤ i
      → i ≤ s
      → i < s
      → leb_ℤ (hammer_btree_cmp elm (base_at node i)) (pos 1) ≡ true
      → Inv b i
  Inv-left b s i inv p q l st = record {
    ordered = p;
    inside = omega arith;
    before = inv.before;
    after = λ j h k. Stops-mono i j h k (ground arith);
    low = inv.low;
  }

  Inv-right :
      (b s i : ℕ)
      → Inv b s
      → i < s
      → leb_ℤ (hammer_btree_cmp elm (base_at node i)) (pos 1) ≡ false
      → Inv i s
  Inv-right b s i inv l st = record {
    ordered = omega arith;
    inside = inv.inside;
    before = λ j h. Beyond-anti j i (omega arith) (omega arith) (ground arith);
    after = inv.after;
    low = inr (ground arith);
  }

  Inv-IsStart : (b s : ℕ) → Inv b s → s ≤ b + 4 → IsStart b
  Inv-IsStart b s inv h = record {
    start_inside = omega arith;
    before_start = inv.before;
    near = λ j p q. inv.after j (omega arith) q;
    reached = inv.low;
  }

  abbrev Found : (fuel b s : ℕ) → Type 0
  Found fuel b s = (r : ℕ) × (search_loop fuel elm node b s ≡ some r) × IsStart r

  search_loop_lem : (fuel b s : ℕ) → s - b < fuel → Inv b s → Found fuel b s
  unfolding search_loop
  search_loop_lem zero b s h inv = absurd (omega arith)
  search_loop_lem (suc fuel) b s h inv =
      let i = b + (s - b) / 2 in
      elim (Bool-cases (ltb 4 (s - b))) [
        | inr small ↦ (b, rw small, Inv-IsStart b s inv (ground arith))
        | inl wide ↦ elim (Bool-cases (leb_ℤ (hammer_btree_cmp elm (base_at node i)) (pos 1))) [
          | inl st ↦
              (let more =
                  search_loop_lem fuel b i (ground arith)
                    (Inv-left b s i inv (omega arith) (omega arith) (ground arith) st) in
                (more.0, rw (wide, st) more.1, more.2))
          | inr st ↦
              (let more =
                  search_loop_lem fuel i s (ground arith) (Inv-right b s i inv (ground arith) st) in
                (more.0, rw (wide, st) more.1, more.2))
        ]
      ]

  -- In a node whose elements are in order the search ends, and its result is a safe start for the
  -- linear search: it lies in the node, the key is beyond every element to its left and, unless it is
  -- 0, beyond its own, and every element from the fourth after it on stops the search.
  pub hammer_btree_search_node-IsStart :
      (r : ℕ) × (hammer_btree_search_node elm node ≡ some r) × IsStart r
  unfolding hammer_btree_search_node
  hammer_btree_search_node-IsStart =
      search_loop_lem (suc node.count) 0 node.count (omega arith) (record {
        ordered = omega arith;
        inside = omega arith;
        before = λ j h. absurd (omega arith);
        after = λ j h k. absurd (omega arith);
        low = inl refl;
      })
