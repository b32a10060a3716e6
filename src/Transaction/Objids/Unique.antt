-- ===== src/Transaction/Objids/Unique.antt =====
-- The ids that a file system hands out, over all orders of calls.
use mathlib.Core.Path.{subst}
use hammer_linux.Base.{ℕ, ◌≤◌, ◌<◌, ◌≡◌, refl, arith, List, [], ◌∷◌}
use hammer_linux.Base.Outcome.{Returns, Returns-and, Ensures}
use hammer_linux.Transaction.{Tids}
use hammer_linux.Transaction.Fresh.{IsMaster, Above}
use hammer_linux.Transaction.Objids.{
  ObjidCache, hammer_alloc_objid, hammer_clear_objid, Issued, mounted, object, transaction, clear,
}
use hammer_linux.Transaction.Objids.Entries.{times, pick-IsPicked, new_id}
use hammer_linux.Transaction.Objids.Keeps.{
  Sound, alloc-Above, hammer_alloc_objid-Sound, transaction-Sound, to_head-Sound, alloc-Returns,
}

mounted-Sound :
    (start : Tids)
    → start.next_tid < 0xffffffffff200000
    → Sound start.master_id []
        (record { tids = start; objid_cache_list = []; objid_cache_count = 0 })
mounted-Sound start small = record {
  once = λ x. omega arith;
  below = λ x h. refl;
  alone = λ d. omega arith;
  unspent = refl;
  counted = refl;
  same_master = refl;
  limit = small;
}

Issued-Sound :
    (start : Tids) (ids : List ℕ) (c : ObjidCache)
    → IsMaster start.master_id
    → start.next_tid < 0xffffffffff200000
    → Issued start ids c
    → Sound start.master_id ids c
unfolding hammer_clear_objid
Issued-Sound start ids c master small mounted = mounted-Sound start small
Issued-Sound start ids' d master small (object {ids = ids} {c = c} before dip e) =
    subst (λ r. Ensures r (λ p. Sound start.master_id (p.1 ∷ ids) p.0)) e
      (hammer_alloc_objid-Sound start.master_id ids c dip master
        (Issued-Sound start ids c master small before))
Issued-Sound start ids' d master small
      (transaction {ids = ids} {c = c} {tids = m} {tid = tid} before e) =
    let s = Issued-Sound start ids c master small before in
    transaction-Sound start.master_id ids c m tid s (
      subst (λ r. Ensures r (λ p. Above c.tids.next_tid 1 p.1 start.master_id p.0)) e
        (alloc-Above start.master_id c 1 ids s master (omega arith) (omega arith)))
Issued-Sound start ids d master small (clear {c = c} before dip) =
    to_head-Sound start.master_id ids c dip _ (Issued-Sound start ids c master small before)
      (pick-IsPicked dip c.objid_cache_list)

-- From a mount whose ids have not run out, whatever object ids and transactions are asked for, on
-- whichever directories and with entries given up and reused in any order, no id is handed out twice.
pub Issued-times :
    (start : Tids) (ids : List ℕ) (c : ObjidCache) (x : ℕ)
    → IsMaster start.master_id
    → start.next_tid < 0xffffffffff200000
    → Issued start ids c
    → times x ids ≤ 1
Issued-times start ids c x master small h =
    omega (arith, (Issued-Sound start ids c master small h).once x)

-- While the ids are far from running out, an allocation of an object id returns, also where the cache is
-- full and an entry of another directory has to be reused, and the id is none that was handed out.
pub hammer_alloc_objid-Returns :
    (start : Tids) (ids : List ℕ) (c : ObjidCache) (dip : ℕ)
    → IsMaster start.master_id
    → start.next_tid < 0xffffffffff200000
    → Issued start ids c
    → c.tids.next_tid < 0xfffffffffe000000
    → Returns (hammer_alloc_objid dip c) (λ r. times r.1 ids ≡ 0)
hammer_alloc_objid-Returns start ids c dip master small h room =
    let s = Issued-Sound start ids c master small h in
    Returns-and (λ r. Sound start.master_id (r.1 ∷ ids) r.0) (λ r. times r.1 ids ≡ 0)
      (hammer_alloc_objid dip c) (alloc-Returns start.master_id ids c dip master room s)
      (hammer_alloc_objid-Sound start.master_id ids c dip master s)
      (λ r k. new_id r.1 ids (omega (arith, k.once r.1)))
