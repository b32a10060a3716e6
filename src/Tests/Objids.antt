-- ===== src/Tests/Objids.antt =====
-- Object ids for two directories, from a master and with an entry given up.
use hammer_linux.Base.{◌≤◌, ◌≡◌, refl, arith, [], ◌∷◌, some}
use hammer_linux.Base.Outcome.{Returns}
use hammer_linux.Transaction.{Tids, hammer_alloc_tid}
use hammer_linux.Transaction.Objids.{
  ObjidCache, pick, obtain, use_one, hammer_alloc_objid, hammer_clear_objid, Issued, mounted,
  object, clear,
}
use hammer_linux.Transaction.Objids.Entries.{times}
use hammer_linux.Transaction.Objids.Unique.{Issued-times, hammer_alloc_objid-Returns}

abbrev start : Tids
start = record { next_tid = 0x1234; master_id = some 3 }

abbrev one_entry : ObjidCache
one_entry = record {
  tids = record { next_tid = 0x187c40; master_id = some 3 };
  objid_cache_list = record { dip = some 7; next_tid = 0x1253; count = 99999 } ∷ [];
  objid_cache_count = 1;
}

-- Directory 7 gets an id, and directory 8.
abbrev two_entries : ObjidCache
two_entries = record {
  tids = record { next_tid = 0x30e650; master_id = some 3 };
  objid_cache_list =
      record { dip = some 7; next_tid = 0x1253; count = 99999 }
      ∷ record { dip = some 8; next_tid = 0x187c63; count = 99999 }
      ∷ [];
  objid_cache_count = 2;
}

first_object : Issued start (0x1243 ∷ []) one_entry
unfolding hammer_alloc_objid pick obtain use_one hammer_alloc_tid
first_object = object mounted 7 refl

second_object : Issued start (0x187c53 ∷ 0x1243 ∷ []) two_entries
unfolding hammer_alloc_objid pick obtain use_one hammer_alloc_tid
second_object = object first_object 8 refl

-- Directory 8 gives up its entry.
given_up : Issued start (0x187c53 ∷ 0x1243 ∷ []) (hammer_clear_objid 8 two_entries)
given_up = clear second_object 8

Issued-times_example : times 0x1243 (0x187c53 ∷ 0x1243 ∷ []) ≤ 1
Issued-times_example =
    Issued-times start (0x187c53 ∷ 0x1243 ∷ []) (hammer_clear_objid 8 two_entries) 0x1243
      (omega arith) (omega arith) given_up

hammer_alloc_objid-Returns_example :
    Returns (hammer_alloc_objid 8 two_entries) (λ r. times r.1 (0x187c53 ∷ 0x1243 ∷ []) ≡ 0)
hammer_alloc_objid-Returns_example =
    hammer_alloc_objid-Returns start (0x187c53 ∷ 0x1243 ∷ []) two_entries 8 (omega arith)
      (omega arith) second_object (omega arith)
