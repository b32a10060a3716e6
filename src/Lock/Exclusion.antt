-- ===== src/Lock/Exclusion.antt =====
-- Locks that are held, and the calls of their holders and of other threads.
use hammer_linux.Base.{
  ℕ, zero, suc, ◌≡◌, ◌≢◌, refl, Bool, true, false, same_test, Option, none, some, List, ◌==◌,
  if◌then◌else◌,
}
use hammer_linux.Base.Int.{ℤ, pos, negsuc}
use hammer_linux.Lock.{
  Lock, Call, ended, asleep, panicked, wakeup, Op, lock_ex, lock_ex_again, lock_ex_try, lock_sh,
  lock_sh_try, upgrade, downgrade, unlock, ref, unref, hammer_lock_ex_ident, hammer_lock_sh,
  hammer_unlock,
}
use hammer_linux.Lock.Held.{IsLock}

abbrev pub thread : Op → ℕ
thread (lock_ex td) = td
thread (lock_ex_again td) = td
thread (lock_ex_try td) = td
thread (lock_sh td) = td
thread (lock_sh_try td) = td
thread (upgrade td) = td
thread (downgrade td) = td
thread (unlock td) = td
thread (ref td) = td
thread (unref td) = td

-- The count and the owner are the same after the call, if there is an after.
abbrev pub Unmoved : Lock → Call → Type 0
Unmoved l (ended l' e) = (l'.lockcount ≡ l.lockcount) × (l'.locktd ≡ l.locktd)
Unmoved l (asleep l') = (l'.lockcount ≡ l.lockcount) × (l'.locktd ≡ l.locktd)
Unmoved l panicked = Unit

by_test :
    (P : Call → Type 0) (b : Bool) {p q : Call}
    → (b ≡ true → P p)
    → (b ≡ false → P q)
    → P (if b then p else q)
by_test P true f g = f refl
by_test P false f g = g refl

abbrev owned : (refs : ℕ) → ℤ → Bool → (exwanted : ℕ) → Option ℕ → List ℕ → Lock
owned r c w x o s = record {
  refs = r;
  lockcount = c;
  wanted = w;
  exwanted = x;
  locktd = o;
  sleepers = s;
}

module _ (r x t td : ℕ) (w : Bool) (s : List ℕ) (other : t ≢ td) where
  module _ (n : ℕ) where
    abbrev l : Lock
    l = owned r (pos (suc n)) w x (some t) s

-- A call that returns without an error is undone by `hammer_unlock`.
abbrev pub Unlocks : Lock → Call → Type 0
Unlocks l (ended l' zero) = (l'.lockcount ≡ l.lockcount) × (l'.locktd ≡ l.locktd)
Unlocks l (ended l' (suc e)) = ⊥
Unlocks l (asleep l') = ⊥
Unlocks l panicked = ⊥

abbrev pub Undone : (td : ℕ) → Lock → Call → Type 0
Undone td l (ended l' zero) = Unlocks l (hammer_unlock td l')
Undone td l (ended l' (suc e)) = Unit
Undone td l (asleep l') = Unit
Undone td l panicked = Unit

wakeup-Unlocks :
    (l : Lock) (r x : ℕ) (c : ℤ) (w : Bool) (o : Option ℕ) (s : List ℕ)
    → c ≡ l.lockcount
    → o ≡ l.locktd
    → Unlocks l (ended (wakeup (owned r c w x o s)) 0)
wakeup-Unlocks l r x c true o s e f = (e, f)
wakeup-Unlocks l r x c false o s e f = (e, f)

module _ (td r x : ℕ) (w : Bool) (s : List ℕ) where
  abbrev at : ℤ → Option ℕ → Lock
  at c o = owned r c w x o s

  unless_null : (k : Lock) (c : Call) → Undone td k c → Undone td k (if r == 0 then panicked else c)
  unless_null k c h = by_test (Undone td k) (r == 0) (λ _. tt) (λ _. h)

  ex-Undone :
      (c : ℤ) (o : Option ℕ)
      → IsLock (at c o)
      → Undone td (at c o) (hammer_lock_ex_ident td (at c o))
  unfolding hammer_lock_ex_ident hammer_unlock
  ex-Undone (pos zero) none h =
      unless_null (at (pos zero) none) _
        (rw (same_test td) (wakeup-Unlocks (at (pos zero) none) r x (pos 0) w none s refl refl))
  ex-Undone (pos zero) (some t) h = absurd (cc h.0.0)
  ex-Undone (pos (suc n)) none h = absurd (h.0 refl)
  ex-Undone (pos (suc n)) (some t) h =
      unless_null (at (pos (suc n)) (some t)) _ (
        by_test (Undone td (at (pos (suc n)) (some t))) (t == td) (λ e. rw e (refl, refl))
          (λ _. tt))
  ex-Undone (negsuc n) none h = unless_null (at (negsuc n) none) _ tt
  ex-Undone (negsuc n) (some t) h = absurd (cc h.0)

  sh-Undone :
      (c : ℤ) (o : Option ℕ) → IsLock (at c o) → Undone td (at c o) (hammer_lock_sh td (at c o))
  unfolding hammer_lock_sh hammer_unlock
  sh-Undone (pos zero) none h =
      unless_null (at (pos zero) none) _
        (wakeup-Unlocks (at (pos zero) none) r x (pos 0) w none s refl refl)
  sh-Undone (pos zero) (some t) h = absurd (cc h.0.0)
  sh-Undone (pos (suc n)) none h = absurd (h.0 refl)
  sh-Undone (pos (suc n)) (some t) h =
      unless_null (at (pos (suc n)) (some t)) _ (
        by_test (Undone td (at (pos (suc n)) (some t))) (t == td) (λ e. rw e (refl, refl))
          (λ _. tt))
  sh-Undone (negsuc n) none h = unless_null (at (negsuc n) none) _ (refl, refl)
  sh-Undone (negsuc n) (some t) h = absurd (cc h.0)

-- An exclusive and a shared lock that a thread has taken without waiting are undone by giving them up: the count
-- and the owner are as before.
pub hammer_unlock-Undone :
    (td : ℕ) (l : Lock)
    → IsLock l
    → Undone td l (hammer_lock_ex_ident td l) × Undone td l (hammer_lock_sh td l)
hammer_unlock-Undone td l ok = (
  ex-Undone td l.refs l.exwanted l.wanted l.sleepers l.lockcount l.locktd ok,
  sh-Undone td l.refs l.exwanted l.wanted l.sleepers l.lockcount l.locktd ok,
)
