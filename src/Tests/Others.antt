-- ===== src/Tests/Others.antt =====
-- Locks, pruning, transaction ids and tails.
use hammer_linux.Base.{ℕ, List, [], ◌∷◌, ◌+◌, ◌≡◌, ◌↔◌, refl, arith, true, false, some, [], ◌∷◌}
use hammer_linux.Base.Int.{pos}
use hammer_linux.Btree.Elm.{BaseElm, IsBase}
use hammer_linux.Lock.{
  Lock, lock_ex, ref, perform, Reached, new, step_ended, step_asleep, hammer_lock_ex_ident,
  hammer_lock_sh, hammer_ref,
}
use hammer_linux.Lock.Held.{IsLock, Reached-IsLock}
use hammer_linux.Lock.Exclusion.{Undone, hammer_unlock-Undone}
use hammer_linux.Prune.{Prune, prune_should_delete, scan_elms}
use hammer_linux.Prune.Kept.{Any, Unseen, prune_should_delete-Unseen}
use hammer_linux.Transaction.{Tids}
use hammer_linux.Recover.{Tail, hammer_check_tail_signature, tail_of, end_of}
use hammer_linux.Undo.Fifo.{undo}
use hammer_linux.Recover.Records.{Head, apply, check_record, head_for}
use hammer_linux.Recover.Records.Checked.{IsUndo, check_record-IsUndo, check_record-head_for}
use hammer_linux.Recover.Tails.{
  Accepted, hammer_check_tail_signature-Accepted, hammer_check_tail_signature-tail_of,
}
use hammer_linux.Names.{alg1, hammer_directory_namekey}
use hammer_linux.Names.Key.{IsKey, hammer_directory_namekey-IsKey}
use hammer_linux.Tests.Keys.{record_at}

-- Thread 7 holds the lock, thread 8 waits for it.
abbrev contended : Lock
contended = record {
  refs = 1;
  lockcount = pos 1;
  wanted = true;
  exwanted = 1;
  locktd = some 7;
  sleepers = 8 ∷ [];
}

contended-Reached : Reached contended
unfolding perform hammer_lock_ex_ident hammer_ref
contended-Reached =
    step_asleep (step_ended (step_ended new (ref 7) refl) (lock_ex 7) refl) (lock_ex 8) refl

Reached-IsLock_example : IsLock contended
Reached-IsLock_example = Reached-IsLock contended contended-Reached

contended-IsLock : IsLock contended
contended-IsLock = ((λ e. cc), λ e. cc)

hammer_unlock-Undone_example :
    Undone 7 contended (hammer_lock_ex_ident 7 contended)
    × Undone 7 contended (hammer_lock_sh 7 contended)
hammer_unlock-Undone_example = hammer_unlock-Undone 7 contended contended-IsLock

-- Every 0x100 instants are kept.
abbrev snapshots : Prune
snapshots = record {
  prune_all = false;
  elms = record { beg_tid = 0; end_tid = 0x1000; mod_tid = 0x100 } ∷ [];
}

abbrev deleted : BaseElm
deleted = record (record_at 100) { delete_tid = 0x20 }

prune_should_delete-Unseen_example : Any (Unseen deleted) snapshots.elms
unfolding prune_should_delete scan_elms
prune_should_delete-Unseen_example =
    prune_should_delete-Unseen snapshots deleted deleted-IsBase (omega arith) (omega arith, tt) refl
      refl
  where
    deleted-IsBase : IsBase deleted
    deleted-IsBase = record {
      obj_id_word = omega arith;
      key_word = omega arith;
      create_word = omega arith;
      delete_word = omega arith;
      rec_word = omega arith;
      localization_word = omega arith;
    }

abbrev master : Tids
master = record { next_tid = 0x1234; master_id = some 3 }

abbrev tail : Tail
tail = record { tail_signature = 0xc84e; tail_type = 0x8040; tail_size = 8 }

hammer_check_tail_signature-Accepted_example :
    (hammer_check_tail_signature tail 16384 ≡ 0) ↔ Accepted tail 16384
hammer_check_tail_signature-Accepted_example = hammer_check_tail_signature-Accepted tail 16384

hammer_check_tail_signature-tail_of_example :
    hammer_check_tail_signature (tail_of (undo 16384 144 0 100)) (end_of (undo 16384 144 0 100)) ≡ 0
hammer_check_tail_signature-tail_of_example =
    hammer_check_tail_signature-tail_of (undo 16384 144 0 100) (omega arith, omega arith)

-- A sum in place of the CRC.
abbrev sum : List ℕ → ℕ
sum [] = 0
sum (x ∷ xs) = x + sum xs

hammer_directory_namekey-IsKey_example :
    IsKey sum alg1 (hammer_directory_namekey sum alg1 (0x61 ∷ 0x62 ∷ []))
hammer_directory_namekey-IsKey_example = hammer_directory_namekey-IsKey sum alg1 (0x61 ∷ 0x62 ∷ [])

abbrev whole : Head
whole = record {
  hdr_signature = 0xc84e;
  hdr_type = 0x43;
  hdr_size = 144;
  hdr_crc = 5;
  undo_data_bytes = 100;
}

abbrev whole_tail : Tail
whole_tail = record { tail_signature = 0xc74f; tail_type = 0x43; tail_size = 144 }

check_record-IsUndo_example :
    (check_record 5 whole whole_tail 16384 ≡ apply) ↔ IsUndo 5 whole whole_tail 16384
check_record-IsUndo_example = check_record-IsUndo 5 whole whole_tail 16384

check_record-head_for_example :
    check_record 5 (head_for 5 100) (tail_of (undo 16384 144 0 100)) 16384 ≡ apply
check_record-head_for_example = check_record-head_for 5 16384 100 0 16384 (omega arith)
