-- ===== src/Prune/Kept.antt =====
-- The records that are pruned, and the instants that are kept.
use native.Mathlib.Decide.{dec_lt}
use native.Mathlib.Nat.{div-lt_iff_lt-mul, le-div_iff_mul-le}
use hammer_linux.Base.{
  ℕ, ◌+◌, ◌-◌, ◌*◌, ◌/◌, ◌<◌, ◌≤◌, ◌≡◌, ◌≢◌, ◌⊎◌, inl, inr, refl, arith, Bool, true, false,
  Bool-cases, not, List, [], ◌∷◌, ltb, leb, ◌==◌, ◌&&◌, ◌||◌,
}
use hammer_linux.Base.Int.{pos}
use hammer_linux.Btree.Elm.{BaseElm, IsBase}
use hammer_linux.Btree.Cmp.{hammer_btree_chkts, hammer_btree_chkts_lem, instant}
use hammer_linux.Prune.{PruneElm, Prune, minus, is_covered, scan_elms, prune_should_delete}

-- Some element of the list satisfies `P`.
abbrev pub Any : (PruneElm → Type 0) → List PruneElm → Type 0
Any P [] = ⊥
Any P (x ∷ xs) = P x ⊎ Any P xs

-- The record lies within the element's time span, and is visible at none of the instants, `mod_tid`
-- apart, that the element keeps, but at that of its own creation.
pub record Unseen (base : BaseElm) (scan : PruneElm) : Type 0 where
  pub begins : scan.beg_tid ≤ base.create_tid
  pub ends : base.delete_tid ≤ scan.end_tid
  pub unseen :
      (k : ℕ)
      → scan.beg_tid + k * scan.mod_tid < 0x10000000000000000
      → 0 < scan.beg_tid + k * scan.mod_tid
      → scan.beg_tid + k * scan.mod_tid ≢ base.create_tid
      → hammer_btree_chkts (scan.beg_tid + k * scan.mod_tid) base ≢ pos 0

same_interval :
    (create delete beg step k : ℕ)
    → 0 < step
    → beg ≤ create
    → create ≤ delete
    → (create - beg) / step ≡ (delete - beg) / step
    → beg + k * step ≢ create
    → create ≤ beg + k * step
    → beg + k * step < delete
    → ⊥
same_interval create delete beg step k p b c e ne l u = elim (dec_lt ((create - beg) / step) k) [
  | yes above ↦ omega (arith, (div-lt_iff_lt-mul {x = delete - beg} {y = k} p).0 (omega (arith, e)))
  | no below ↦ ne (omega (arith, (le-div_iff_mul-le {x = k} {y = create - beg} p).0 (omega arith)))
]

both : (x y : Bool) → (x && y) ≡ true → (x ≡ true) × (y ≡ true)
both true y h = (refl, h)
both false y h = cc

minus_lem : (a b : ℕ) → b ≤ a → a < 0x10000000000000000 → minus a b ≡ a - b
minus_lem a b h k = omega arith

-- What the test of one element of the list says.
covered_lem :
    (scan : PruneElm) (base : BaseElm)
    → is_covered scan base ≡ true
    → base.create_tid < 0x10000000000000000
    → base.delete_tid < 0x10000000000000000
    → base.create_tid ≤ base.delete_tid
    → (base.delete_tid ≢ 0)
      × (scan.beg_tid ≤ base.create_tid)
      × (base.delete_tid ≤ scan.end_tid)
      × ((base.create_tid - scan.beg_tid) / scan.mod_tid
          ≡ (base.delete_tid - scan.beg_tid) / scan.mod_tid)
covered_lem scan base h p q l =
    let (h3, same) =
      both _
        (minus base.create_tid scan.beg_tid / scan.mod_tid
          == minus base.delete_tid scan.beg_tid / scan.mod_tid)
        h in
    let (h2, ends) = both _ (leb base.delete_tid scan.end_tid) h3 in
    let (deleted, begins) =
      both (not (base.delete_tid == 0)) (leb scan.beg_tid base.create_tid) h2 in
    let begun : scan.beg_tid ≤ base.create_tid = ground arith in
    let equal : minus base.create_tid scan.beg_tid / scan.mod_tid
        ≡ minus base.delete_tid scan.beg_tid / scan.mod_tid =
      ground arith in
    (
      λ e. ground arith,
      begun,
      ground arith,
      rw
          (
            minus_lem base.create_tid scan.beg_tid begun p,
            minus_lem base.delete_tid scan.beg_tid (omega arith) q,
          )
          at equal,
    )

now : {t : ℕ} → 0 < t → instant t ≡ t
now h = ground arith

-- Every element of the list counts in steps.
abbrev pub HaveSteps : List PruneElm → Type 0
HaveSteps [] = Unit
HaveSteps (x ∷ xs) = (0 < x.mod_tid) × HaveSteps xs

module _ (base : BaseElm) (word : IsBase base) (ordered : base.create_tid ≤ base.delete_tid) where
  covered-Unseen :
      (scan : PruneElm) → 0 < scan.mod_tid → is_covered scan base ≡ true → Unseen base scan
  covered-Unseen scan step h =
      let (deleted, begins, ends, same) =
        covered_lem scan base h word.create_word word.delete_word ordered in
      record {
        begins = begins;
        ends = ends;
        unseen = λ k w p ne v.
            (let (created, alive) =
                (hammer_btree_chkts_lem (scan.beg_tid + k * scan.mod_tid) base w word.create_word
                    word.delete_word).0
                  v in
              same_interval base.create_tid base.delete_tid scan.beg_tid scan.mod_tid k step begins
                ordered same ne (omega (arith, created, now p))
                (elim alive [ inl z ↦ absurd (deleted z) | inr a ↦ omega (arith, a, now p) ]));
      }

  scan_elms-Unseen :
      (scans : List PruneElm)
      → HaveSteps scans
      → scan_elms scans base ≡ true
      → Any (Unseen base) scans
  unfolding scan_elms
  scan_elms-Unseen [] steps h = cc
  scan_elms-Unseen (scan ∷ scans) steps h =
      elim (Bool-cases (leb scan.end_tid base.create_tid || ltb scan.end_tid base.delete_tid)) [
        | inl stop ↦ cc (rw stop at h)
        | inr go ↦ elim (Bool-cases (is_covered scan base)) [
          | inl c ↦ inl (covered-Unseen scan steps.0 c)
          | inr n ↦ inr (scan_elms-Unseen scans steps.1 (rw (go, n) at h))
        ]
      ]

-- A record that is pruned, but by HAMMER_IOC_PRUNE_ALL, is within the time span of an element of the
-- list, and at none of the instants that this element keeps, the one of its own creation excepted, was it visible.
-- (The elements count in steps above 0, and the record was not deleted before it was created.)
pub prune_should_delete-Unseen :
    (prune : Prune) (base : BaseElm)
    → IsBase base
    → base.create_tid ≤ base.delete_tid
    → HaveSteps prune.elms
    → prune.prune_all ≡ false
    → prune_should_delete prune base ≡ true
    → Any (Unseen base) prune.elms
unfolding prune_should_delete
prune_should_delete-Unseen prune base word ordered steps listed h =
    scan_elms-Unseen base word ordered prune.elms steps (rw listed at h)
