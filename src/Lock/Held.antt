-- ===== src/Lock/Held.antt =====
-- The states that a lock can come to.
use hammer_linux.Base.{
  ℕ, zero, suc, ◌-◌, ◌≡◌, ◌≢◌, refl, sym, Bool, true, false, not, Option, none, some, List, [],
  ◌==◌, if◌then◌else◌,
}
use mathlib.Core.Path.{subst}
use hammer_linux.Base.Int.{ℤ, pos, negsuc}
use hammer_linux.Lock.{
  Lock, Call, ended, asleep, panicked, is_owner, wakeup, Op, lock_ex, lock_ex_again, lock_ex_try,
  lock_sh, lock_sh_try, upgrade, downgrade, unlock, ref, unref, perform, Reached, new, step_ended,
  step_asleep, ex_loop, hammer_lock_ex_ident, hammer_lock_ex_again, hammer_lock_ex_try,
  hammer_lock_sh, hammer_lock_sh_try, hammer_lock_upgrade, hammer_lock_downgrade, hammer_unlock,
  hammer_ref, hammer_unref,
}

-- The count, the owner and the sleepers agree.
abbrev pub Agree : ℤ → Option ℕ → List ℕ → Type 0
Agree (pos zero) o s = (o ≡ none) × (s ≡ [])
Agree (pos (suc n)) o s = o ≢ none
Agree (negsuc n) o s = o ≡ none

-- A lock without an owner is shared or free, a free one has no sleepers, and sleepers are wanted.
abbrev pub IsLock : Lock → Type 0
IsLock l = Agree l.lockcount l.locktd l.sleepers × (l.wanted ≡ false → l.sleepers ≡ [])

abbrev Keeps : Call → Type 0
Keeps (ended l e) = IsLock l
Keeps (asleep l) = IsLock l
Keeps panicked = Unit

abbrev lock : (refs : ℕ) → ℤ → Bool → (exwanted : ℕ) → Option ℕ → List ℕ → Lock
lock r c w x o s = record {
  refs = r;
  lockcount = c;
  wanted = w;
  exwanted = x;
  locktd = o;
  sleepers = s;
}

if_Keeps : (b : Bool) (p q : Call) → Keeps p → Keeps q → Keeps (if b then p else q)
if_Keeps true p q h k = h
if_Keeps false p q h k = k

some_ne : (t : ℕ) → some t ≢ none
some_ne t e = cc

wakeup-IsLock :
    (r : ℕ) (c : ℤ) (w : Bool) (x : ℕ) (o : Option ℕ) (s : List ℕ)
    → Agree c o []
    → (w ≡ false → s ≡ [])
    → IsLock (wakeup (lock r c w x o s))
wakeup-IsLock r c true x o s a h = (a, λ e. refl)
wakeup-IsLock r c false x o s a h = (subst (Agree c o) (sym (h refl)) a, λ e. h refl)

module _ (td r x : ℕ) (w : Bool) (s : List ℕ) where
  ex-Keeps :
      (c : ℤ) (o : Option ℕ)
      → IsLock (lock r c w x o s)
      → Keeps (hammer_lock_ex_ident td (lock r c w x o s))
  unfolding hammer_lock_ex_ident
  ex-Keeps (pos zero) none h = if_Keeps (r == 0) _ _ tt (some_ne td, h.1)
  ex-Keeps (pos zero) (some t) h = absurd (some_ne t h.0.0)
  ex-Keeps (pos (suc n)) none h = absurd (h.0 refl)
  ex-Keeps (pos (suc n)) (some t) h =
      if_Keeps (r == 0) _ _ tt (if_Keeps (t == td) _ _ (some_ne t, h.1) (some_ne t, λ e. cc))
  ex-Keeps (negsuc n) none h = if_Keeps (r == 0) _ _ tt (refl, λ e. cc)
  ex-Keeps (negsuc n) (some t) h = absurd (some_ne t h.0)

  again-Keeps :
      (c : ℤ) (o : Option ℕ) → IsLock (lock r c w x o s) → Keeps (ex_loop td (lock r c w x o s))
  again-Keeps (pos zero) none h = (some_ne td, h.1)
  again-Keeps (pos zero) (some t) h = absurd (some_ne t h.0.0)
  again-Keeps (pos (suc n)) none h = absurd (h.0 refl)
  again-Keeps (pos (suc n)) (some t) h = (some_ne t, λ e. cc)
  again-Keeps (negsuc n) none h = (refl, λ e. cc)
  again-Keeps (negsuc n) (some t) h = absurd (some_ne t h.0)

  try-Keeps :
      (c : ℤ) (o : Option ℕ)
      → IsLock (lock r c w x o s)
      → Keeps (hammer_lock_ex_try td (lock r c w x o s))
  unfolding hammer_lock_ex_try
  try-Keeps (pos zero) none h = if_Keeps (r == 0) _ _ tt (some_ne td, h.1)
  try-Keeps (pos zero) (some t) h = absurd (some_ne t h.0.0)
  try-Keeps (pos (suc n)) none h = absurd (h.0 refl)
  try-Keeps (pos (suc n)) (some t) h =
      if_Keeps (r == 0) _ _ tt (if_Keeps (t == td) _ _ (some_ne t, h.1) h)
  try-Keeps (negsuc n) none h = if_Keeps (r == 0) _ _ tt h
  try-Keeps (negsuc n) (some t) h = absurd (some_ne t h.0)

  sh-Keeps :
      (c : ℤ) (o : Option ℕ)
      → IsLock (lock r c w x o s)
      → Keeps (hammer_lock_sh td (lock r c w x o s))
  unfolding hammer_lock_sh
  sh-Keeps (pos zero) none h = if_Keeps (r == 0) _ _ tt (refl, h.1)
  sh-Keeps (pos zero) (some t) h = absurd (some_ne t h.0.0)
  sh-Keeps (pos (suc n)) none h = absurd (h.0 refl)
  sh-Keeps (pos (suc n)) (some t) h =
      if_Keeps (r == 0) _ _ tt (if_Keeps (t == td) _ _ (some_ne t, h.1) (some_ne t, λ e. cc))
  sh-Keeps (negsuc n) none h = if_Keeps (r == 0) _ _ tt h
  sh-Keeps (negsuc n) (some t) h = absurd (some_ne t h.0)

  sh_try-Keeps :
      (c : ℤ) (o : Option ℕ)
      → IsLock (lock r c w x o s)
      → Keeps (hammer_lock_sh_try (lock r c w x o s))
  unfolding hammer_lock_sh_try
  sh_try-Keeps (pos zero) none h = if_Keeps (r == 0) _ _ tt (refl, h.1)
  sh_try-Keeps (pos (suc n)) none h = absurd (h.0 refl)
  sh_try-Keeps (negsuc n) none h = if_Keeps (r == 0) _ _ tt h
  sh_try-Keeps c (some t) h = if_Keeps (r == 0) _ _ tt h

  upgrade-Keeps :
      (c : ℤ) (o : Option ℕ)
      → IsLock (lock r c w x o s)
      → Keeps (hammer_lock_upgrade td (lock r c w x o s))
  unfolding hammer_lock_upgrade
  upgrade-Keeps (pos zero) o h = tt
  upgrade-Keeps (pos (suc n)) o h = if_Keeps (is_owner td o) _ _ h tt
  upgrade-Keeps (negsuc zero) o h = (some_ne td, h.1)
  upgrade-Keeps (negsuc (suc n)) o h = h

  downgrade-Keeps :
      (c : ℤ) (o : Option ℕ)
      → IsLock (lock r c w x o s)
      → Keeps (hammer_lock_downgrade td (lock r c w x o s))
  unfolding hammer_lock_downgrade
  downgrade-Keeps (pos zero) o h = tt
  downgrade-Keeps (pos (suc n)) o h =
      if_Keeps (not (n == 0)) _ _ tt
        (if_Keeps (is_owner td o) _ _ (wakeup-IsLock r (negsuc 0) w x none s refl h.1) tt)
  downgrade-Keeps (negsuc n) o h = tt

  unlock-Keeps :
      (c : ℤ) (o : Option ℕ)
      → IsLock (lock r c w x o s)
      → Keeps (hammer_unlock td (lock r c w x o s))
  unfolding hammer_unlock
  unlock-Keeps (pos zero) o h = tt
  unlock-Keeps (pos (suc zero)) o h =
      if_Keeps (is_owner td o) _ _ (wakeup-IsLock r (pos 0) w x none s (refl, refl) h.1) tt
  unlock-Keeps (pos (suc (suc n))) o h = if_Keeps (is_owner td o) _ _ h tt
  unlock-Keeps (negsuc zero) o h = wakeup-IsLock r (pos 0) w x o s (h.0, refl) h.1
  unlock-Keeps (negsuc (suc n)) o h = h

perform-Keeps : (op : Op) (l : Lock) → IsLock l → Keeps (perform op l)
unfolding perform hammer_lock_ex_again hammer_ref hammer_unref
perform-Keeps (lock_ex td) l h =
    ex-Keeps td l.refs l.exwanted l.wanted l.sleepers l.lockcount l.locktd h
perform-Keeps (lock_ex_again td) l h =
    again-Keeps td l.refs (l.exwanted - 1) l.wanted l.sleepers l.lockcount l.locktd h
perform-Keeps (lock_ex_try td) l h =
    try-Keeps td l.refs l.exwanted l.wanted l.sleepers l.lockcount l.locktd h
perform-Keeps (lock_sh td) l h =
    sh-Keeps td l.refs l.exwanted l.wanted l.sleepers l.lockcount l.locktd h
perform-Keeps (lock_sh_try td) l h =
    sh_try-Keeps td l.refs l.exwanted l.wanted l.sleepers l.lockcount l.locktd h
perform-Keeps (upgrade td) l h =
    upgrade-Keeps td l.refs l.exwanted l.wanted l.sleepers l.lockcount l.locktd h
perform-Keeps (downgrade td) l h =
    downgrade-Keeps td l.refs l.exwanted l.wanted l.sleepers l.lockcount l.locktd h
perform-Keeps (unlock td) l h =
    unlock-Keeps td l.refs l.exwanted l.wanted l.sleepers l.lockcount l.locktd h
perform-Keeps (ref td) l h = h
perform-Keeps (unref td) l h = if_Keeps (l.refs == 0) _ _ tt h

-- Whatever threads do, in any order, an exclusive lock has an owner, a shared or a free one has
-- none, no thread sleeps on a free lock, and a lock that threads sleep on is wanted, so that giving it
-- up wakes them.
pub Reached-IsLock : (l : Lock) → Reached l → IsLock l
Reached-IsLock l new = ((refl, refl), λ e. refl)
Reached-IsLock l' (step_ended {l = l} before op e) =
    subst Keeps e (perform-Keeps op l (Reached-IsLock l before))
Reached-IsLock l' (step_asleep {l = l} before op e) =
    subst Keeps e (perform-Keeps op l (Reached-IsLock l before))
