-- ===== src/Undo/History/Nodes.antt =====
-- Lists of nodes of the history, looked up by their offset.
use hammer_linux.Base.{
  ℕ, suc, ◌≡◌, ◌≢◌, sym, inl, inr, arith, none, some, Bool-cases, List, [], ◌∷◌, ◌++◌, length, ◌==◌,
}
use mathlib.Core.Path.{subst}
use hammer_linux.Undo.History.{UndoNode, lookup, remove, rest}

found : (m n : UndoNode) → some m ≡ some n → m ≡ n
found m n e = cc

abbrev pub All : (UndoNode → Type 0) → List UndoNode → Type 0
All P [] = Unit
All P (n ∷ ns) = P n × All P ns

-- No two nodes have one offset.
abbrev pub Distinct : List UndoNode → Type 0
Distinct [] = Unit
Distinct (n ∷ ns) = All (λ m. m.offset ≢ n.offset) ns × Distinct ns

module _ (P : UndoNode → Type 0) where
  pub All-append : (ns ms : List UndoNode) → All P ns → All P ms → All P (ns ++ ms)
  All-append [] ms h k = k
  All-append (n ∷ ns) ms h k = (h.0, All-append ns ms h.1 k)

  pub All-remove : (o : ℕ) (ns : List UndoNode) → All P ns → All P (remove o ns)
  unfolding remove
  All-remove o [] h = h
  All-remove o (n ∷ ns) h = elim (Bool-cases (n.offset == o)) [
    | inl e ↦ rw e h.1
    | inr e ↦ rw e (h.0, All-remove o ns h.1)
  ]

  pub All-rest : (ns : List UndoNode) → All P ns → All P (rest ns)
  All-rest [] h = h
  All-rest (n ∷ ns) h = h.1

  pub All-lookup :
      (o : ℕ) (ns : List UndoNode) (n : UndoNode)
      → All P ns
      → lookup o ns ≡ some n
      → P n × (n.offset ≡ o)
  unfolding lookup
  All-lookup o [] n h e = cc
  All-lookup o (m ∷ ns) n h e = elim (Bool-cases (m.offset == o)) [
    | inl t ↦ subst (λ x. P x × (x.offset ≡ o)) (found m n (rw t at e)) (h.0, ground arith)
    | inr t ↦ All-lookup o ns n h.1 (rw t at e)
  ]

pub remove_absent :
    (o : ℕ) (ns : List UndoNode) → Distinct ns → All (λ m. m.offset ≢ o) (remove o ns)
unfolding remove
remove_absent o [] d = tt
remove_absent o (n ∷ ns) d = elim (Bool-cases (n.offset == o)) [
  | inl e ↦ rw e (subst (λ x. All (λ m. m.offset ≢ x) ns) (ground arith) d.0)
  | inr e ↦ rw e (ground arith, remove_absent o ns d.1)
]

pub Distinct-remove : (o : ℕ) (ns : List UndoNode) → Distinct ns → Distinct (remove o ns)
unfolding remove
Distinct-remove o [] d = d
Distinct-remove o (n ∷ ns) d = elim (Bool-cases (n.offset == o)) [
  | inl e ↦ rw e d.1
  | inr e ↦ rw e (All-remove (λ m. m.offset ≢ n.offset) o ns d.0, Distinct-remove o ns d.1)
]

pub Distinct-append :
    (ns : List UndoNode) (n : UndoNode)
    → Distinct ns
    → All (λ m. m.offset ≢ n.offset) ns
    → Distinct (ns ++ n ∷ [])
Distinct-append [] n d a = (tt, tt)
Distinct-append (m ∷ ns) n d a = (
  All-append (λ x. x.offset ≢ m.offset) ns (n ∷ []) d.0 (λ e. a.0 (sym e), tt),
  Distinct-append ns n d.1 a.1,
)

pub lookup-append :
    (o : ℕ) (ns : List UndoNode) (n : UndoNode)
    → All (λ m. m.offset ≢ o) ns
    → n.offset ≡ o
    → lookup o (ns ++ n ∷ []) ≡ some n
unfolding lookup
lookup-append o [] n a e = ground arith
lookup-append o (m ∷ ns) n a e = ground (arith, lookup-append o ns n)

pub length-remove :
    (o : ℕ) (ns : List UndoNode) (n : UndoNode)
    → lookup o ns ≡ some n
    → suc (length (remove o ns)) ≡ length ns
unfolding remove lookup
length-remove o [] n e = cc
length-remove o (m ∷ ns) n e = ground (arith, length-remove o ns n)

pub lookup-none : (o : ℕ) (ns : List UndoNode) → lookup o ns ≡ none → All (λ m. m.offset ≢ o) ns
unfolding lookup
lookup-none o [] e = tt
lookup-none o (m ∷ ns) e = elim (Bool-cases (m.offset == o)) [
  | inl t ↦ absurd (cc (rw t at e))
  | inr t ↦ (ground arith, lookup-none o ns (rw t at e))
]
