-- ===== src/Btree/Lookup/Up.antt =====
-- The way up of a search: from any node of the tree to one whose range covers the key.
use mathlib.Core.Path.{subst}
use hammer_linux.Base.{
  ℕ, zero, suc, ◌≤◌, ◌<◌, ◌≡◌, refl, sym, ap, inl, inr, arith, true, Bool-cases, nonzero_test, ◌&&◌,
}
use hammer_linux.Base.Int.{ℤ, pos, ◌≤ℤ◌, ◌<ℤ◌, leb_ℤ, ltb_ℤ}
use hammer_linux.Base.Outcome.{Returns}
use hammer_linux.Btree.Elm.{BaseElm, IsBase}
use hammer_linux.Btree.Cmp.{rank, cmp-lt_rank, cmp-ge_rank}
use hammer_linux.Btree.Tree.{Tree, Cursor, Mount}
use hammer_linux.Btree.Walk.Places.{
  IsWhole, Place, Stands, place_of, put, Stands-words, Stands-parent, hammer_cursor_up_lem,
}
use hammer_linux.Btree.Lookup.{covers, climb}

-- A key between the bounds of the file system.
pub record IsKey (hmp : Mount) (key : BaseElm) : Type 0 where
  pub key_word : IsBase key
  pub above_beg : rank hmp.root_btree_beg ≤ rank key
  pub below_end : rank key < rank hmp.root_btree_end

both_tests : (a b : ℤ) → pos 0 ≤ℤ a → b <ℤ pos 0 → (leb_ℤ (pos 0) a && ltb_ℤ b (pos 0)) ≡ true
both_tests a b h k = ground arith

module _ (hmp : Mount) (t : Tree) (height top : ℕ) (whole : IsWhole hmp t height top) where
  -- The root's range covers every key.
  top_covers :
      (n : ℕ) (c : Cursor)
      → Stands hmp t height top 0 n (place_of c)
      → IsKey hmp c.key_beg
      → covers c ≡ true
  top_covers n c h k =
      let (lo_word, hi_word) = Stands-words hmp t height top whole 0 n (place_of c) h in
      both_tests _ _
        (cmp-ge_rank c.key_beg c.left_bound k.key_word lo_word
          (subst (λ x. rank x.lo ≤ rank c.key_beg) (sym h.1) k.above_beg))
        ((cmp-lt_rank c.key_beg c.right_bound k.key_word hi_word).1
          (subst (λ x. rank c.key_beg < rank x.hi) (sym h.1) k.below_end))

  -- A cursor that stands somewhere in the tree, with the same key, at a range that covers it.
  pub record IsCovered (key : BaseElm) (c : Cursor) : Type 0 where
    pub depth : ℕ
    pub above : ℕ
    pub stands : Stands hmp t height top depth above (place_of c)
    pub same_key : c.key_beg ≡ key
    pub covered : covers c ≡ true

  climb_here :
      (levels d n : ℕ) (c : Cursor)
      → Stands hmp t height top d n (place_of c)
      → covers c ≡ true
      → Returns (climb levels hmp t c) (IsCovered c.key_beg)
  unfolding climb
  climb_here zero d n c h e =
      rw e (record { depth = d; above = n; stands = h; same_key = refl; covered = e })
  climb_here (suc levels) d n c h e =
      rw e (record { depth = d; above = n; stands = h; same_key = refl; covered = e })

  -- As many rounds as the cursor is levels below the root are enough.
  pub climb-IsCovered :
      (levels d n : ℕ) (c : Cursor)
      → d ≤ levels
      → Stands hmp t height top d n (place_of c)
      → IsKey hmp c.key_beg
      → Returns (climb levels hmp t c) (IsCovered c.key_beg)
  unfolding climb
  climb-IsCovered levels zero n c l h k = climb_here levels 0 n c h (top_covers n c h k)
  climb-IsCovered zero (suc d) n c l h k = absurd (omega arith)
  climb-IsCovered (suc levels) (suc d) n c l h k = elim (Bool-cases (covers c)) [
    | inl e ↦ climb_here (suc levels) (suc d) n c h e
    | inr e ↦
        (let (up, j, above, inside, same) = h in
          rw
            (
              e,
              nonzero_test c.parent (Stands-parent hmp t height top whole d n (place_of c) h),
              hammer_cursor_up_lem hmp t height top whole d n c up above (ap Place.parent same),
            )
            (climb-IsCovered levels d (suc n) (put (record c { index = c.parent_index }) up)
              (omega arith) above k))
  ]
