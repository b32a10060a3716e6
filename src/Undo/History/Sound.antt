-- ===== src/Undo/History/Sound.antt =====
-- The history against the requests that were made.
use hammer_linux.Base.{
  ℕ, suc, ◌+◌, ◌≤◌, ◌<◌, ◌≡◌, ◌≢◌, refl, sym, ap, ◌∙◌, ◌⊎◌, inl, inr, arith, none, some,
  Option-cases, List, [], ◌∷◌, ◌++◌, length, length-append,
}
use native.Mathlib.Decide.{dec_le, ℕ_discrete}
use native.Mathlib.Nat.{le_refl}
use mathlib.Core.Path.{subst}
use hammer_linux.Undo.History.{
  UndoNode, UndoHistory, lookup, remove, rest, max_undos, e_already, hammer_enter_undo_history,
  hammer_clear_undo_history,
}
use hammer_linux.Undo.History.Nodes.{
  All-append, All-remove, All-rest, All-lookup, All, Distinct, remove_absent, Distinct-remove,
  Distinct-append, lookup-append, length-remove, lookup-none,
}

-- The nodes in use are the ones that the counter says, and no two of them have one offset.
pub record IsHistory (h : UndoHistory) : Type 0 where
  pub counted : length h.lru_list ≡ h.undo_alloc
  pub bounded : h.undo_alloc ≤ max_undos
  pub distinct : Distinct h.lru_list

Distinct-rest : (ns : List UndoNode) → Distinct ns → Distinct (rest ns)
Distinct-rest [] d = d
Distinct-rest (n ∷ ns) d = d.1

length-rest :
    (ns : List UndoNode) {h : UndoHistory}
    → IsHistory h
    → h.undo_alloc ≡ max_undos
    → h.lru_list ≡ ns
    → suc (length (rest ns)) ≡ h.undo_alloc
length-rest [] ok full e = absurd (omega (arith, ok.counted, ap length e))
length-rest (n ∷ ns) ok full e = omega (arith, ok.counted, ap length e)

All-Unit : (ns : List UndoNode) → All (λ _. Unit) ns
All-Unit [] = tt
All-Unit (n ∷ ns) = (tt, All-Unit ns)

-- The four ways of entering a request.
module _ (h : UndoHistory) (offset bytes : ℕ) where
  abbrev fresh : UndoNode
  fresh = record { offset = offset; bytes = bytes }

  enter_covered :
      (node : UndoNode)
      → lookup offset h.lru_list ≡ some node
      → bytes ≤ node.bytes
      → hammer_enter_undo_history h offset bytes
        ≡ (record h { lru_list = remove offset h.lru_list ++ node ∷ [] }, e_already)
  unfolding hammer_enter_undo_history
  enter_covered node e l = ground arith

  enter_larger :
      (node : UndoNode)
      → lookup offset h.lru_list ≡ some node
      → node.bytes < bytes
      → hammer_enter_undo_history h offset bytes ≡ (
        record h { lru_list = remove offset h.lru_list ++ (record node { bytes = bytes }) ∷ [] },
        0,
      )
  unfolding hammer_enter_undo_history
  enter_larger node e l = ground arith

  enter_new :
      lookup offset h.lru_list ≡ none
      → h.undo_alloc ≢ max_undos
      → hammer_enter_undo_history h offset bytes
        ≡ (record { undo_alloc = h.undo_alloc + 1; lru_list = h.lru_list ++ fresh ∷ [] }, 0)
  unfolding hammer_enter_undo_history
  enter_new e n = ground arith

  enter_evict :
      lookup offset h.lru_list ≡ none
      → h.undo_alloc ≡ max_undos
      → hammer_enter_undo_history h offset bytes
        ≡ (record h { lru_list = rest h.lru_list ++ fresh ∷ [] }, 0)
  unfolding hammer_enter_undo_history
  enter_evict e n = ground arith

  -- How the history is left: with a node for the offset at its end, and no other one.
  abbrev Entered : UndoHistory × ℕ → Type 0
  Entered r =
      (others : List UndoNode) × (node : UndoNode) × (r.0.lru_list ≡ others ++ node ∷ [])
      × (node.offset ≡ offset)
      × (bytes ≤ node.bytes)
      × All (λ m. m.offset ≢ offset) others
      × Distinct others
      × (suc (length others) ≡ r.0.undo_alloc)
      × (r.0.undo_alloc ≤ max_undos)

  Entered-enter : IsHistory h → Entered (hammer_enter_undo_history h offset bytes)
  Entered-enter ok = elim (Option-cases (lookup offset h.lru_list)) [
    | inl e ↦ elim (ℕ_discrete h.undo_alloc max_undos) [
      | yes full ↦ rw (enter_evict e full) (
        rest h.lru_list,
        fresh,
        refl,
        refl,
        le_refl _,
        All-rest (λ m. m.offset ≢ offset) h.lru_list (lookup-none offset h.lru_list e),
        Distinct-rest h.lru_list ok.distinct,
        length-rest h.lru_list ok full refl,
        ok.bounded,
      )
      | no room ↦ rw (enter_new e room) (
        h.lru_list,
        fresh,
        refl,
        refl,
        le_refl _,
        lookup-none offset h.lru_list e,
        ok.distinct,
        omega (arith, ok.counted),
        omega (arith, ok.bounded),
      )
    ]
    | inr (node, e) ↦
        (let at = (All-lookup (λ _. Unit) offset h.lru_list node (All-Unit h.lru_list) e).1 in
          let len = length-remove offset h.lru_list node e in
          elim (dec_le bytes node.bytes) [
            | yes l ↦ rw (enter_covered node e l) (
              remove offset h.lru_list,
              node,
              refl,
              at,
              l,
              remove_absent offset h.lru_list ok.distinct,
              Distinct-remove offset h.lru_list ok.distinct,
              len ∙ ok.counted,
              ok.bounded,
            )
            | no g ↦ rw (enter_larger node e (omega arith)) (
              remove offset h.lru_list,
              record node { bytes = bytes },
              refl,
              at,
              le_refl _,
              remove_absent offset h.lru_list ok.distinct,
              Distinct-remove offset h.lru_list ok.distinct,
              len ∙ ok.counted,
              ok.bounded,
            )
          ])
  ]

-- Entering a request keeps the history well formed: the counter counts the nodes in use, which are
-- at most the nodes that there are, and no two of them have one offset.
pub hammer_enter_undo_history-IsHistory :
    (h : UndoHistory) (offset bytes : ℕ)
    → IsHistory h
    → IsHistory (hammer_enter_undo_history h offset bytes).0
hammer_enter_undo_history-IsHistory h offset bytes ok =
    let (others, node, list, at, wide, absent, distinct, counted, bounded) =
      Entered-enter h offset bytes ok in
    record {
      counted = ap length list ∙ length-append others (node ∷ []) ∙ omega (arith, counted);
      bounded = bounded;
      distinct = rw list (Distinct-append others node distinct (rw at absent));
    }

-- A request that follows another for the same offset, and is no longer, is answered by EALREADY.
pub hammer_enter_undo_history_twice :
    (h : UndoHistory) (offset bytes fewer : ℕ)
    → IsHistory h
    → fewer ≤ bytes
    → (hammer_enter_undo_history (hammer_enter_undo_history h offset bytes).0 offset fewer).1
      ≡ e_already
hammer_enter_undo_history_twice h offset bytes fewer ok l =
    let (others, node, list, at, wide, absent, distinct, counted, bounded) =
      Entered-enter h offset bytes ok in
    ap (λ r. r.1)
      (enter_covered (hammer_enter_undo_history h offset bytes).0 offset fewer node
        (rw list (lookup-append offset others node absent at)) (omega (arith, wide)))

-- A history after requests, the last one first in the list.
unfoldable pub enter_all : List (ℕ × ℕ) → UndoHistory
enter_all [] = hammer_clear_undo_history
enter_all ((offset, bytes) ∷ rs) = (hammer_enter_undo_history (enter_all rs) offset bytes).0

-- A request for these bytes at this offset is among them.
abbrev pub Asked : (offset bytes : ℕ) → List (ℕ × ℕ) → Type 0
Asked offset bytes [] = ⊥
Asked offset bytes ((o, b) ∷ rs) = ((o ≡ offset) × (b ≡ bytes)) ⊎ Asked offset bytes rs

abbrev AskedNode : List (ℕ × ℕ) → UndoNode → Type 0
AskedNode rs n = Asked n.offset n.bytes rs

All-mono :
    (P Q : UndoNode → Type 0)
    → ((n : UndoNode) → P n → Q n)
    → (ns : List UndoNode) → All P ns
    → All Q ns
All-mono P Q f [] h = tt
All-mono P Q f (n ∷ ns) h = (f n h.0, All-mono P Q f ns h.1)

module _ (h : UndoHistory) (offset bytes : ℕ) (rs : List (ℕ × ℕ))
    (asked : All (AskedNode rs) h.lru_list) where
  abbrev later : List (ℕ × ℕ)
  later = (offset, bytes) ∷ rs

  kept : (ns : List UndoNode) → All (AskedNode rs) ns → All (AskedNode later) ns
  kept = All-mono (AskedNode rs) (AskedNode later) (λ n a. inr a)

  asked-enter : All (AskedNode later) (hammer_enter_undo_history h offset bytes).0.lru_list
  asked-enter = elim (Option-cases (lookup offset h.lru_list)) [
    | inl e ↦ elim (ℕ_discrete h.undo_alloc max_undos) [
      | yes full ↦ rw (enter_evict h offset bytes e full) (
          All-append (AskedNode later) (rest h.lru_list) _
            (kept _ (All-rest (AskedNode rs) h.lru_list asked)) (inl (refl, refl), tt))
      | no room ↦
          rw (enter_new h offset bytes e room)
            (All-append (AskedNode later) h.lru_list _ (kept _ asked) (inl (refl, refl), tt))
    ]
    | inr (node, e) ↦
        (let (old, at) = All-lookup (AskedNode rs) offset h.lru_list node asked e in
          elim (dec_le bytes node.bytes) [
            | yes l ↦ rw (enter_covered h offset bytes node e l) (
                All-append (AskedNode later) (remove offset h.lru_list) _
                  (kept _ (All-remove (AskedNode rs) offset h.lru_list asked)) (inr old, tt))
            | no g ↦ rw (enter_larger h offset bytes node e (omega arith)) (
                All-append (AskedNode later) (remove offset h.lru_list) _
                  (kept _ (All-remove (AskedNode rs) offset h.lru_list asked))
                  (inl (sym at, refl), tt))
          ])
  ]

enter_all-asked : (rs : List (ℕ × ℕ)) → All (AskedNode rs) (enter_all rs).lru_list
unfolding enter_all hammer_clear_undo_history
enter_all-asked [] = tt
enter_all-asked ((offset, bytes) ∷ rs) =
    asked-enter (enter_all rs) offset bytes rs (enter_all-asked rs)

-- Since the history was cleared, EALREADY is only answered to a request whose bytes an earlier request
-- for the same offset covered.
pub hammer_enter_undo_history_sound :
    (rs : List (ℕ × ℕ)) (offset bytes : ℕ)
    → (hammer_enter_undo_history (enter_all rs) offset bytes).1 ≡ e_already
    → (b : ℕ) × (bytes ≤ b) × Asked offset b rs
hammer_enter_undo_history_sound rs offset bytes already =
    elim (Option-cases (lookup offset (enter_all rs).lru_list)) [
      | inl e ↦ elim (ℕ_discrete (enter_all rs).undo_alloc max_undos) [
        | yes full ↦
            absurd (omega (arith, rw (enter_evict (enter_all rs) offset bytes e full) at already))
        | no room ↦
            absurd (omega (arith, rw (enter_new (enter_all rs) offset bytes e room) at already))
      ]
      | inr (node, e) ↦ elim (dec_le bytes node.bytes) [
        | yes l ↦
            (let (old, at) =
                All-lookup (AskedNode rs) offset (enter_all rs).lru_list node (enter_all-asked rs)
                  e in
              (node.bytes, l, subst (λ o. Asked o node.bytes rs) at old))
        | no g ↦ absurd (
            omega (
              arith,
              rw (enter_larger (enter_all rs) offset bytes node e (omega arith)) at already,
            ))
      ]
    ]
