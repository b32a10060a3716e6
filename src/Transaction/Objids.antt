-- ===== src/Transaction/Objids.antt =====
-- The cache of object ids: `hammer_alloc_objid`, `hammer_clear_objid` and `hammer_destroy_objid_cache`
-- (dfly/vfs/hammer/hammer_transaction.c).
-- An entry and its directory point at each other; the pointer kept here is that of the entry, and a
-- directory's `objid_cache` is the entry that points at it. Memory is there at once, so that nothing
-- else runs inside a call.
pub mod Entries
pub mod Keeps
pub mod Unique
use hammer_linux.Base.{
  ℕ, ◌+◌, ◌-◌, ◌==◌, ◌≡◌, Bool, false, Option, none, some, List, [], ◌∷◌, ◌++◌, ltb, if◌then◌else◌,
}
use mathlib.Core.Option
use hammer_linux.Base.Outcome.{Outcome, done, panic, ◌>>=◌}
use hammer_linux.Transaction.{Tids, max_masters, word, hammer_alloc_tid}

-- OBJID_CACHE_SIZE and OBJID_CACHE_BULK
abbrev pub objid_cache_size : ℕ
objid_cache_size = 1024

abbrev pub objid_cache_bulk : ℕ
objid_cache_bulk = 100000

-- An entry: its directory, the next id, and how many there are.
pub record Ocp : Type 0 where
  pub dip : Option ℕ
  pub next_tid : ℕ
  pub count : ℕ

-- The fields of the mount.
pub record ObjidCache : Type 0 where
  pub tids : Tids
  pub objid_cache_list : List Ocp
  pub objid_cache_count : ℕ

abbrev pub is_at : ℕ → Option ℕ → Bool
is_at dip none = false
is_at dip (some d) = d == dip

-- The entry of a directory, and the list without it.
unfoldable pub pick : (dip : ℕ) → List Ocp → Option (Ocp × List Ocp)
pick dip [] = none
pick dip (ocp ∷ list) =
    if is_at dip ocp.dip
    then some (ocp, list)
    else Option.map (λ p. (p.0, ocp ∷ p.1)) (pick dip list)

-- The first entry, which its directory gives up.
pub reuse : (dip : ℕ) → ObjidCache → List Ocp → Outcome (Ocp × ObjidCache)
reuse dip c [] = panic
reuse dip c (ocp ∷ list) =
    done (record ocp { dip = some dip }, record c { objid_cache_list = list })

-- The entry that the loop ends with, after it is taken off the list.
unfoldable pub obtain :
    (dip : ℕ) → ObjidCache → Option (Ocp × List Ocp) → Outcome (Ocp × ObjidCache)
unfolding reuse
obtain dip c (some p) = done (p.0, record c { objid_cache_list = p.1 })
obtain dip c none =
    if ltb c.objid_cache_count objid_cache_size
    then (do
      r ← hammer_alloc_tid c.tids objid_cache_bulk
      done (
        record { dip = some dip; next_tid = r.1; count = objid_cache_bulk },
        record c { tids = r.0; objid_cache_count = c.objid_cache_count + 1 },
      ))
    else reuse dip c c.objid_cache_list

-- From one id to the next one.
abbrev pub step_of : Option ℕ → ℕ
step_of none = 1
step_of (some id) = max_masters

-- The first id of the entry, which is freed behind its last one.
unfoldable pub use_one : Ocp → ObjidCache → ObjidCache × ℕ
use_one ocp c =
    let left = record ocp {
      next_tid = word (ocp.next_tid + step_of c.tids.master_id);
      count = ocp.count - 1;
    } in
    (
      if ocp.count - 1 == 0
          then record c { objid_cache_count = c.objid_cache_count - 1 }
          else record c { objid_cache_list = c.objid_cache_list ++ (left ∷ []) },
      ocp.next_tid,
    )

-- The cache, and the object id.
unfoldable pub hammer_alloc_objid : (dip : ℕ) → ObjidCache → Outcome (ObjidCache × ℕ)
unfolding obtain use_one
hammer_alloc_objid dip c = do r ← obtain dip c (pick dip c.objid_cache_list); done (use_one r.0 r.1)

-- The entry goes to the head of the list, where it is reused first.
pub to_head : ObjidCache → Option (Ocp × List Ocp) → ObjidCache
to_head c none = c
to_head c (some p) = record c { objid_cache_list = record p.0 { dip = none } ∷ p.1 }

pub hammer_clear_objid : (dip : ℕ) → ObjidCache → ObjidCache
unfolding to_head
hammer_clear_objid dip c = to_head c (pick dip c.objid_cache_list)

-- All entries are freed; the count stays.
pub hammer_destroy_objid_cache : ObjidCache → ObjidCache
hammer_destroy_objid_cache c = record c { objid_cache_list = [] }

-- What a file system can come to that is mounted with the ids of `start`, and the ids that it has handed out, the latest first. The
-- cache is destroyed by the unmount only.
pub data Issued (start : Tids) : List ℕ → ObjidCache → Type 0 where
  mounted : Issued start [] (record { tids = start; objid_cache_list = []; objid_cache_count = 0 })
  object :
      {ids : List ℕ} {c d : ObjidCache} {tid : ℕ}
      → Issued start ids c
      → (dip : ℕ) → hammer_alloc_objid dip c ≡ done (d, tid)
      → Issued start (tid ∷ ids) d
  transaction :
      {ids : List ℕ} {c : ObjidCache} {tids : Tids} {tid : ℕ}
      → Issued start ids c
      → hammer_alloc_tid c.tids 1 ≡ done (tids, tid)
      → Issued start (tid ∷ ids) (record c { tids = tids })
  clear :
      {ids : List ℕ} {c : ObjidCache}
      → Issued start ids c
      → (dip : ℕ) → Issued start ids (hammer_clear_objid dip c)
