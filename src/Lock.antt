-- ===== src/Lock.antt =====
-- Locks that a thread holds exclusively or several threads share
-- (dfly/vfs/hammer/hammer_subs.c). A critical section makes each operation atomic, up to the call of
-- `tsleep`; the threads that sleep on a lock are part of its state, and `wakeup` wakes all of them. A
-- thread is a number. A thread that is woken runs its operation again, with `hammer_lock_ex_again`
-- for the loop of `hammer_lock_ex_ident`.
pub mod Held
pub mod Exclusion
use hammer_linux.Base.{
  ℕ, zero, suc, ◌+◌, ◌-◌, ◌≡◌, Bool, true, false, not, Option, none, some, List, [], ◌∷◌, ltb, ◌==◌,
  if◌then◌else◌,
}
use hammer_linux.Base.Int.{ℤ, pos, negsuc}

-- struct hammer_lock; `lockcount` is below zero while the lock is shared.
pub record Lock : Type 0 where
  pub refs : ℕ
  pub lockcount : ℤ
  pub wanted : Bool
  pub exwanted : ℕ
  pub locktd : Option ℕ
  pub sleepers : List ℕ

-- EAGAIN and EDEADLK
abbrev pub e_again : ℕ
e_again = 11

abbrev pub e_deadlk : ℕ
e_deadlk = 35

-- How a call goes: it returns, with an error number or 0, or it sleeps, or it panics.
pub data Call : Type 0 where
  ended : Lock → (error : ℕ) → Call
  asleep : Lock → Call
  panicked : Call

abbrev pub up : ℤ → ℤ
up (pos n) = pos (suc n)
up (negsuc zero) = pos 0
up (negsuc (suc n)) = negsuc n

abbrev pub down : ℤ → ℤ
down (pos zero) = negsuc 0
down (pos (suc n)) = pos n
down (negsuc n) = negsuc (suc n)

-- lock->locktd == td
abbrev pub is_owner : ℕ → Option ℕ → Bool
is_owner td none = false
is_owner td (some t) = t == td

-- lock->locktd != NULL || lock->lockcount
abbrev pub is_held : Option ℕ → ℤ → Bool
is_held none (pos n) = not (n == 0)
is_held none (negsuc n) = true
is_held (some t) c = true

-- if (lock->wanted) { lock->wanted = 0; wakeup(lock); }
abbrev pub wakeup : Lock → Lock
wakeup l = if l.wanted then record l { wanted = false; sleepers = [] } else l

-- KKASSERT(lock->lockcount >= 0); ++lock->lockcount;
abbrev pub count_up : Lock → ℤ → Call
count_up l (pos n) = ended (record l { lockcount = pos (suc n) }) 0
count_up l (negsuc n) = panicked

-- KKASSERT(lock->lockcount <= 0); --lock->lockcount;
abbrev pub count_down : Lock → ℤ → Call
count_down l (pos zero) = ended (record l { lockcount = negsuc 0 }) 0
count_down l (pos (suc n)) = panicked
count_down l (negsuc n) = ended (record l { lockcount = negsuc (suc n) }) 0

-- One round of the loop, which sleeps or ends with the lock taken.
abbrev pub ex_loop : (td : ℕ) → Lock → Call
ex_loop td l =
    if is_held l.locktd l.lockcount
    then asleep (record l { exwanted = l.exwanted + 1; wanted = true; sleepers = td ∷ l.sleepers })
    else count_up (record l { locktd = some td }) l.lockcount

unfoldable pub hammer_lock_ex_ident : (td : ℕ) → Lock → Call
hammer_lock_ex_ident td l =
    if l.refs == 0
    then panicked
    else if is_owner td l.locktd
    then count_up l l.lockcount
    else ex_loop td l

-- The loop goes on after `tsleep`.
pub hammer_lock_ex_again : (td : ℕ) → Lock → Call
hammer_lock_ex_again td l = ex_loop td (record l { exwanted = l.exwanted - 1 })

pub hammer_lock_ex_try : (td : ℕ) → Lock → Call
hammer_lock_ex_try td l =
    if l.refs == 0
    then panicked
    else if is_owner td l.locktd
    then count_up l l.lockcount
    else if is_held l.locktd l.lockcount
    then ended l e_again
    else count_up (record l { locktd = some td }) l.lockcount

-- A shared lock on a lock that the caller holds exclusively counts as exclusive.
pub hammer_lock_sh : (td : ℕ) → Lock → Call
hammer_lock_sh td l = if l.refs == 0 then panicked else elim l.locktd [
  | some t ↦
      (if t == td
        then ended (record l { lockcount = up l.lockcount }) 0
        else asleep (record l { wanted = true; sleepers = td ∷ l.sleepers }))
  | none ↦ count_down l l.lockcount
]

pub hammer_lock_sh_try : Lock → Call
hammer_lock_sh_try l =
    if l.refs == 0
    then panicked
    else elim l.locktd [ some t ↦ ended l e_again | none ↦ count_down l l.lockcount ]

pub hammer_lock_upgrade : (td : ℕ) → Lock → Call
hammer_lock_upgrade td l = elim l.lockcount [
  | pos zero ↦ panicked
  | pos (suc n) ↦ if is_owner td l.locktd then ended l 0 else panicked
  | negsuc zero ↦ ended (record l { lockcount = pos 1; locktd = some td }) 0
  | negsuc (suc n) ↦ ended l e_deadlk
]

pub hammer_lock_downgrade : (td : ℕ) → Lock → Call
hammer_lock_downgrade td l = elim l.lockcount [
  | pos zero ↦ panicked
  | pos (suc n) ↦
      (if not (n == 0)
        then panicked
        else if is_owner td l.locktd
        then ended (wakeup (record l { lockcount = negsuc 0; locktd = none })) 0
        else panicked)
  | negsuc n ↦ panicked
]

pub hammer_unlock : (td : ℕ) → Lock → Call
hammer_unlock td l = elim l.lockcount [
  | pos zero ↦ panicked
  | pos (suc zero) ↦
      (if is_owner td l.locktd
        then ended (wakeup (record l { lockcount = pos 0; locktd = none })) 0
        else panicked)
  | pos (suc (suc n)) ↦
      (if is_owner td l.locktd then ended (record l { lockcount = pos (suc n) }) 0 else panicked)
  | negsuc zero ↦ ended (wakeup (record l { lockcount = pos 0 })) 0
  | negsuc (suc n) ↦ ended (record l { lockcount = negsuc n }) 0
]

unfoldable pub hammer_ref : Lock → Call
hammer_ref l = ended (record l { refs = l.refs + 1 }) 0

pub hammer_unref : Lock → Call
hammer_unref l = if l.refs == 0 then panicked else ended (record l { refs = l.refs - 1 }) 0

-- A call by a thread.
pub data Op : Type 0 where
  lock_ex lock_ex_again lock_ex_try lock_sh lock_sh_try upgrade downgrade unlock ref unref :
      (td : ℕ) → Op

unfoldable pub perform : Op → Lock → Call
unfolding hammer_lock_ex_ident hammer_lock_ex_again hammer_lock_ex_try hammer_lock_sh
    hammer_lock_sh_try hammer_lock_upgrade hammer_lock_downgrade hammer_unlock hammer_ref
    hammer_unref
perform (lock_ex td) l = hammer_lock_ex_ident td l
perform (lock_ex_again td) l = hammer_lock_ex_again td l
perform (lock_ex_try td) l = hammer_lock_ex_try td l
perform (lock_sh td) l = hammer_lock_sh td l
perform (lock_sh_try td) l = hammer_lock_sh_try l
perform (upgrade td) l = hammer_lock_upgrade td l
perform (downgrade td) l = hammer_lock_downgrade td l
perform (unlock td) l = hammer_unlock td l
perform (ref td) l = hammer_ref l
perform (unref td) l = hammer_unref l

-- The states that calls of any threads, in any order, lead to.
pub data Reached : Lock → Type 0 where
  new : Reached (record {
    refs = 0;
    lockcount = pos 0;
    wanted = false;
    exwanted = 0;
    locktd = none;
    sleepers = [];
  })
  step_ended :
      {l l' : Lock} {error : ℕ} → Reached l → (op : Op) → perform op l ≡ ended l' error → Reached l'
  step_asleep : {l l' : Lock} → Reached l → (op : Op) → perform op l ≡ asleep l' → Reached l'
