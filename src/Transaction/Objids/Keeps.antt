-- ===== src/Transaction/Objids/Keeps.antt =====
-- An invariant of the cache, and each operation of it.
use mathlib.Core.Path.{subst}
use hammer_linux.Base.{
  ℕ, ◌+◌, ◌-◌, ◌≤◌, ◌<◌, ◌≡◌, ◌≢◌, ◌⊎◌, same_test, ne_test, sym, arith, Bool-cases, true, false,
  ◌==◌, inl, inr, Option, none, some, List, [], ◌∷◌, length, length-append, ltb,
}
use hammer_linux.Base.Outcome.{
  Returns, Returns-map, Returns-bind, Ensures, Ensures-of, Ensures-bind, Returns-Ensures, done,
}
use hammer_linux.Transaction.{Tids, word, hammer_alloc_tid}
use hammer_linux.Transaction.Fresh.{hammer_alloc_tid-IsFresh, IsMaster, Above, ids_of-Above}
use hammer_linux.Transaction.Objids.{
  Ocp, ObjidCache, is_at, pick, reuse, obtain, step_of, use_one, hammer_alloc_objid, to_head,
  objid_cache_size, objid_cache_bulk,
}
use hammer_linux.Transaction.Objids.Entries.{
  total, one_if, owns, used_up, belongs, times, total-append, total-length, IsPicked, pick-IsPicked,
  owns-low, owns-high, marks_up, owns_le, owns-use, may_own, has_ids, not_below, owns-first,
  no_wrap,
}

-- The ids that were handed out and those that the entries still have are apart from each other and
-- not above `next_tid`; a directory has one entry at most, no entry is used up, and the count is right.
pub record Sound (o : Option ℕ) (ids : List ℕ) (c : ObjidCache) : Type 0 where
  pub once : (x : ℕ) → times x ids + total (owns o x) c.objid_cache_list ≤ 1
  pub below : (x : ℕ) → c.tids.next_tid < x → times x ids + total (owns o x) c.objid_cache_list ≡ 0
  pub alone : (d : ℕ) → total (belongs d) c.objid_cache_list ≤ 1
  pub unspent : total used_up c.objid_cache_list ≡ 0
  pub counted : c.objid_cache_count ≡ length c.objid_cache_list
  pub same_master : c.tids.master_id ≡ o
  pub limit : c.tids.next_tid < 0xffffffffff200000

-- The cache with another list.
abbrev with_list : ObjidCache → List Ocp → ObjidCache
with_list c l = record c { objid_cache_list = l }

Sound-order :
    (o : Option ℕ) (ids : List ℕ) (c : ObjidCache) (l : List Ocp)
    → ((f : Ocp → ℕ) → total f c.objid_cache_list ≡ total f l)
    → Sound o ids c
    → Sound o ids (with_list c l)
Sound-order o ids c l same s = record {
  once = λ x. omega (arith, same (owns o x), s.once x);
  below = λ x h. omega (arith, same (owns o x), s.below x h);
  alone = λ d. omega (arith, same (belongs d), s.alone d);
  unspent = omega (arith, same used_up, s.unspent);
  counted =
      omega (arith, same (λ _. 1), total-length c.objid_cache_list, total-length l, s.counted);
  same_master = s.same_master;
  limit = s.limit;
}

-- The ids of `m` are allocated for `next_tid` and on: the marks move.
pub alloc-Above :
    (o : Option ℕ) (c : ObjidCache) (count : ℕ) (ids : List ℕ)
    → Sound o ids c
    → IsMaster o
    → 0 < count
    → count ≤ 100000
    → Ensures (hammer_alloc_tid c.tids count) (λ r. Above c.tids.next_tid count r.1 o r.0)
alloc-Above o c count ids s master some_ids few = Ensures-of (hammer_alloc_tid c.tids count) (λ r e.
    ids_of-Above c.tids.next_tid count r.1 o r.0 master s.limit some_ids few (
      subst
        (λ k.
          hammer_alloc_tid (record { next_tid = c.tids.next_tid; master_id = k }) count ≡ done r)
        s.same_master e))

-- The entry that a call takes its id from, put back at the head of the list.
IsObtained : Option ℕ → List ℕ → ℕ → Ocp × ObjidCache → Type 0
IsObtained o ids dip r =
    (is_at dip r.0.dip ≡ true) × Sound o ids (with_list r.1 (r.0 ∷ r.1.objid_cache_list))

new_entry :
    (o : Option ℕ) (ids : List ℕ) (c : ObjidCache) (dip tid : ℕ) (m : Tids)
    → Sound o ids c
    → Above c.tids.next_tid objid_cache_bulk tid o m
    → total (belongs dip) c.objid_cache_list ≡ 0
    → Sound o ids (record {
      tids = m;
      objid_cache_list =
          record { dip = some dip; next_tid = tid; count = objid_cache_bulk } ∷ c.objid_cache_list;
      objid_cache_count = c.objid_cache_count + 1;
    })
new_entry o ids c dip tid m s a free = record {
  once = λ x. once x (Bool-cases (ltb c.tids.next_tid x));
  below = λ x h. omega (
    arith,
    owns-high o c.tids.next_tid objid_cache_bulk tid x (some dip) m a h,
    s.below x (omega (arith, marks_up o c.tids.next_tid objid_cache_bulk tid m (omega arith) a)),
  );
  alone = may_own dip c.objid_cache_list free s.alone;
  unspent = omega (arith, s.unspent);
  counted = omega (arith, s.counted);
  same_master = a.same_master;
  limit = a.limit;
}
  where
    ocp : Ocp
    ocp = record { dip = some dip; next_tid = tid; count = objid_cache_bulk }

    once :
        (x : ℕ)
        → (ltb c.tids.next_tid x ≡ true) ⊎ (ltb c.tids.next_tid x ≡ false)
        → times x ids + (owns o x ocp + total (owns o x) c.objid_cache_list) ≤ 1
    once x (inl above) = omega (arith, s.below x (ground arith), owns_le o x ocp)
    once x (inr not_above) = omega (
      arith,
      owns-low o c.tids.next_tid objid_cache_bulk tid x (some dip) m a (ground arith),
      s.once x,
    )

-- The first entry changes its directory.
rename_first :
    (o dip : Option ℕ) (ids : List ℕ) (c : ObjidCache) (ocp : Ocp) (l : List Ocp)
    → Sound o ids (with_list c (ocp ∷ l))
    → ((d : ℕ) → one_if (is_at d dip) + total (belongs d) l ≤ 1)
    → Sound o ids (with_list c (record ocp { dip = dip } ∷ l))
rename_first o dip ids c ocp l s free = record {
  once = s.once;
  below = s.below;
  alone = free;
  unspent = s.unspent;
  counted = s.counted;
  same_master = s.same_master;
  limit = s.limit;
}

reuse-IsObtained :
    (o : Option ℕ) (ids : List ℕ) (c : ObjidCache) (dip : ℕ) (l : List Ocp)
    → Sound o ids (with_list c l)
    → 0 < length l
    → total (belongs dip) l ≡ 0
    → Returns (reuse dip c l) (IsObtained o ids dip)
unfolding reuse IsObtained
reuse-IsObtained o ids c dip [] s some_entries free = absurd (omega arith)
reuse-IsObtained o ids c dip (ocp ∷ l) s some_entries free = (
  same_test dip,
  rename_first o (some dip) ids c ocp l s
      (may_own dip l (omega arith) (λ d. omega (arith, s.alone d))),
)

obtain-IsObtained :
    (o : Option ℕ) (ids : List ℕ) (c : ObjidCache) (dip : ℕ) (r : Option (Ocp × List Ocp))
    → IsMaster o
    → Sound o ids c
    → IsPicked dip c.objid_cache_list r
    → Ensures (obtain dip c r) (IsObtained o ids dip)
unfolding obtain IsObtained
obtain-IsObtained o ids c dip (some p) master s picked =
    (picked.0, Sound-order o ids c (p.0 ∷ p.1) picked.1 s)
obtain-IsObtained o ids c dip none master s picked =
    elim (Bool-cases (ltb c.objid_cache_count objid_cache_size)) [
      | inl few ↦ rw few (
          Ensures-bind (IsObtained o ids dip) (hammer_alloc_tid c.tids objid_cache_bulk) _
            (alloc-Above o c objid_cache_bulk ids s master (omega arith) (omega arith))
            (λ r a. (same_test dip, new_entry o ids c dip r.1 r.0 s a picked)))
      | inr many ↦ rw many (
          Returns-Ensures (IsObtained o ids dip) (reuse dip c c.objid_cache_list)
            (reuse-IsObtained o ids c dip c.objid_cache_list s (ground (arith, s.counted)) picked))
    ]

-- What the entry gives up and keeps.
use_one-Sound :
    (o : Option ℕ) (ids : List ℕ) (c : ObjidCache) (ocp : Ocp)
    → Sound o ids (with_list c (ocp ∷ c.objid_cache_list))
    → Sound o ((use_one ocp c).1 ∷ ids) (use_one ocp c).0
unfolding use_one
use_one-Sound o ids c ocp s = elim (Bool-cases (ocp.count - 1 == 0)) [
  | inl last ↦ rw last (record {
    once = λ x. omega (arith, s.once x, owns-use o x ocp count_lem);
    below = λ x h. omega (arith, s.below x h, owns-use o x ocp count_lem);
    alone = λ d. omega (arith, s.alone d);
    unspent = omega (arith, s.unspent);
    counted = omega (arith, s.counted);
    same_master = s.same_master;
    limit = s.limit;
  })
  | inr more ↦
      rw (more, next_lem)
        (record {
          once = λ x. omega (
            arith,
            s.once x,
            owns-use o x ocp count_lem,
            total-append (owns o x) c.objid_cache_list left,
          );
          below = λ x h. omega (
            arith,
            s.below x h,
            owns-use o x ocp count_lem,
            total-append (owns o x) c.objid_cache_list left,
          );
          alone = λ d. omega (arith, s.alone d, total-append (belongs d) c.objid_cache_list left);
          unspent =
              rw (total-append used_up c.objid_cache_list left, more) (omega (arith, s.unspent));
          counted = omega (arith, s.counted, length-append c.objid_cache_list (left ∷ []));
          same_master = s.same_master;
          limit = s.limit;
        })
]
  where
    count_lem : ocp.count ≢ 0
    count_lem = has_ids ocp (omega (arith, s.unspent))

    low : ocp.next_tid ≤ c.tids.next_tid
    low =
        not_below c.tids.next_tid ocp.next_tid
          (λ h. omega (arith, s.below ocp.next_tid h, owns-first o ocp count_lem))

    next_lem : word (ocp.next_tid + step_of c.tids.master_id) ≡ ocp.next_tid + step_of o
    next_lem = rw s.same_master (no_wrap o ocp.next_tid (omega (arith, low, s.limit)))

    left : Ocp
    left = record ocp { next_tid = ocp.next_tid + step_of o; count = ocp.count - 1 }

pub hammer_alloc_objid-Sound :
    (o : Option ℕ) (ids : List ℕ) (c : ObjidCache) (dip : ℕ)
    → IsMaster o
    → Sound o ids c
    → Ensures (hammer_alloc_objid dip c) (λ r. Sound o (r.1 ∷ ids) r.0)
unfolding hammer_alloc_objid IsObtained
hammer_alloc_objid-Sound o ids c dip master s =
    Ensures-bind (λ r. Sound o (r.1 ∷ ids) r.0) (obtain dip c (pick dip c.objid_cache_list)) _
      (obtain-IsObtained o ids c dip _ master s (pick-IsPicked dip c.objid_cache_list))
      (λ r h. use_one-Sound o ids r.1 r.0 h.1)

-- A transaction id is above the mark.
pub transaction-Sound :
    (o : Option ℕ) (ids : List ℕ) (c : ObjidCache) (m : Tids) (tid : ℕ)
    → Sound o ids c
    → Above c.tids.next_tid 1 tid o m
    → Sound o (tid ∷ ids) (record c { tids = m })
transaction-Sound o ids c m tid s a =
    let (after, before) = marks_up o c.tids.next_tid 1 tid m (omega arith) a in
    record {
      once = λ x. elim (Bool-cases (x == tid)) [
        | inl same ↦ rw same (omega (arith, s.below x (ground arith)))
        | inr other ↦ rw other (omega (arith, s.once x))
      ];
      below = λ x h. rw (ne_test x tid (λ e. omega arith)) (omega (arith, s.below x (omega arith)));
      alone = s.alone;
      unspent = s.unspent;
      counted = s.counted;
      same_master = a.same_master;
      limit = a.limit;
    }

pub to_head-Sound :
    (o : Option ℕ) (ids : List ℕ) (c : ObjidCache) (dip : ℕ) (r : Option (Ocp × List Ocp))
    → Sound o ids c
    → IsPicked dip c.objid_cache_list r
    → Sound o ids (to_head c r)
unfolding to_head
to_head-Sound o ids c dip none s picked = s
to_head-Sound o ids c dip (some p) s picked =
    rename_first o none ids c p.0 p.1 (Sound-order o ids c (p.0 ∷ p.1) picked.1 s)
      (λ d. omega (arith, picked.1 (belongs d), s.alone d))

obtain-Returns :
    (o : Option ℕ) (ids : List ℕ) (c : ObjidCache) (dip : ℕ) (r : Option (Ocp × List Ocp))
    → IsMaster o
    → c.tids.next_tid < 0xfffffffffe000000
    → Sound o ids c
    → IsPicked dip c.objid_cache_list r
    → Returns (obtain dip c r) (λ p. Unit)
unfolding obtain
obtain-Returns o ids c dip (some p) master small s picked = tt
obtain-Returns o ids c dip none master small s picked =
    elim (Bool-cases (ltb c.objid_cache_count objid_cache_size)) [
      | inl few ↦ rw few (
          Returns-bind (λ p. Unit) (hammer_alloc_tid c.tids objid_cache_bulk) _
            (hammer_alloc_tid-IsFresh c.tids objid_cache_bulk
              (subst IsMaster (sym s.same_master) master) small (omega arith))
            (λ r a. tt))
      | inr many ↦ rw many (
          Returns-map (reuse dip c c.objid_cache_list) (λ p h. tt)
            (reuse-IsObtained o ids c dip c.objid_cache_list s (ground (arith, s.counted)) picked))
    ]

pub alloc-Returns :
    (o : Option ℕ) (ids : List ℕ) (c : ObjidCache) (dip : ℕ)
    → IsMaster o
    → c.tids.next_tid < 0xfffffffffe000000
    → Sound o ids c
    → Returns (hammer_alloc_objid dip c) (λ r. Unit)
unfolding hammer_alloc_objid
alloc-Returns o ids c dip master small s =
    Returns-bind (λ r. Unit) (obtain dip c (pick dip c.objid_cache_list)) _
      (obtain-Returns o ids c dip _ master small s (pick-IsPicked dip c.objid_cache_list))
      (λ r h. tt)
