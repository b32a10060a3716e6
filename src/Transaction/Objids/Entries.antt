-- ===== src/Transaction/Objids/Entries.antt =====
-- Sums over the entries of the cache, and the ids that an entry still has.
use mathlib.Core.Path.{subst}
use hammer_linux.Base.{
  ℕ, ◌+◌, ◌*◌, ◌-◌, ◌≤◌, ◌<◌, ◌≡◌, ◌≢◌, refl, arith, Bool, Bool-cases, true, false, ◌&&◌, ◌==◌, inl,
  inr, Option, none, some, List, [], ◌∷◌, ◌++◌, length, leb, if◌then◌else◌,
}
use hammer_linux.Transaction.{Tids, word}
use hammer_linux.Transaction.Fresh.{Above}
use hammer_linux.Transaction.Objids.{Ocp, is_at, pick, step_of}

-- A sum over the entries.
abbrev pub total : (Ocp → ℕ) → List Ocp → ℕ
total f [] = 0
total f (ocp ∷ list) = f ocp + total f list

abbrev pub one_if : Bool → ℕ
one_if b = if b then 1 else 0

-- Is `x` one of the ids that the entry still has (or lies between them)?
abbrev pub owns : Option ℕ → ℕ → Ocp → ℕ
owns o x ocp =
    one_if (leb ocp.next_tid x && leb (x + step_of o) (ocp.next_tid + ocp.count * step_of o))

abbrev pub used_up : Ocp → ℕ
used_up ocp = one_if (ocp.count == 0)

abbrev pub belongs : ℕ → Ocp → ℕ
belongs d ocp = one_if (is_at d ocp.dip)

-- How often `x` was handed out.
abbrev pub times : ℕ → List ℕ → ℕ
times x [] = 0
times x (y ∷ ys) = one_if (x == y) + times x ys

pub total-append :
    (f : Ocp → ℕ) (l : List Ocp) (ocp : Ocp) → total f (l ++ (ocp ∷ [])) ≡ total f l + f ocp
total-append f [] ocp = omega arith
total-append f (o ∷ l) ocp = omega (arith, total-append f l ocp)

pub total-length : (l : List Ocp) → total (λ _. 1) l ≡ length l
total-length [] = refl
total-length (o ∷ l) = omega (arith, total-length l)

-- The entry that is picked is a summand.
abbrev pub IsPicked : ℕ → List Ocp → Option (Ocp × List Ocp) → Type 0
IsPicked d l none = total (belongs d) l ≡ 0
IsPicked d l (some p) = (is_at d p.0.dip ≡ true) × ((f : Ocp → ℕ) → total f l ≡ f p.0 + total f p.1)

IsPicked-behind :
    (d : ℕ) (ocp : Ocp) (l : List Ocp) (r : Option (Ocp × List Ocp))
    → is_at d ocp.dip ≡ false
    → IsPicked d l r
    → IsPicked d (ocp ∷ l) (mathlib.Core.Option.map (λ p. (p.0, ocp ∷ p.1)) r)
IsPicked-behind d ocp l none other h = rw other (omega (arith, h))
IsPicked-behind d ocp l (some p) other h = (h.0, λ f. omega (arith, h.1 f))

pub pick-IsPicked : (d : ℕ) (l : List Ocp) → IsPicked d l (pick d l)
unfolding pick
pick-IsPicked d [] = refl
pick-IsPicked d (ocp ∷ l) = elim (Bool-cases (is_at d ocp.dip)) [
  | inl here ↦ rw here (here, λ f. refl)
  | inr other ↦ rw other (IsPicked-behind d ocp l (pick d l) other (pick-IsPicked d l))
]

-- The ids of an allocation lie between the marks.
pub owns-low :
    (o : Option ℕ) (next count tid x : ℕ) (d : Option ℕ) (m : Tids)
    → Above next count tid o m
    → x ≤ next
    → owns o x (record { dip = d; next_tid = tid; count = count }) ≡ 0
owns-low none next count tid x d m a h = let after = a.after in ground arith
owns-low (some id) next count tid x d m a h = let after = a.after in ground arith

pub owns-high :
    (o : Option ℕ) (next count tid x : ℕ) (d : Option ℕ) (m : Tids)
    → Above next count tid o m
    → m.next_tid < x
    → owns o x (record { dip = d; next_tid = tid; count = count }) ≡ 0
owns-high none next count tid x d m a h = let before = a.before in ground arith
owns-high (some id) next count tid x d m a h = let before = a.before in ground arith

-- The marks of an allocation move up.
pub marks_up :
    (o : Option ℕ) (next count tid : ℕ) (m : Tids)
    → 0 < count
    → Above next count tid o m
    → (next < tid) × (tid ≤ m.next_tid)
marks_up none next count tid m h a = let before = a.before in (a.after, omega arith)
marks_up (some id) next count tid m h a = let before = a.before in (a.after, omega arith)

pub owns_le : (o : Option ℕ) (x : ℕ) (ocp : Ocp) → owns o x ocp ≤ 1
owns_le o x ocp = ground arith

pub owns-use :
    (o : Option ℕ) (x : ℕ) (ocp : Ocp)
    → ocp.count ≢ 0
    → one_if (x == ocp.next_tid)
        + owns o x (record ocp { next_tid = ocp.next_tid + step_of o; count = ocp.count - 1 })
      ≤ owns o x ocp
owns-use none x ocp h = ground arith
owns-use (some id) x ocp h = ground arith

test_same : (m n : ℕ) → (m == n) ≡ true → m ≡ n
test_same m n h = ground arith

-- A directory without an entry may get one.
pub may_own :
    (dip : ℕ) (l : List Ocp)
    → total (belongs dip) l ≡ 0
    → ((d : ℕ) → total (belongs d) l ≤ 1)
    → (d : ℕ) → one_if (dip == d) + total (belongs d) l ≤ 1
may_own dip l free alone d = elim (Bool-cases (dip == d)) [
  | inl same ↦
      rw same (omega (arith, subst (λ k. total (belongs k) l ≡ 0) (test_same dip d same) free))
  | inr other ↦ rw other (omega (arith, alone d))
]

pub has_ids : (ocp : Ocp) → used_up ocp ≡ 0 → ocp.count ≢ 0
has_ids ocp h = ground arith

pub not_below : (m n : ℕ) → ¬ (m < n) → n ≤ m
not_below m n h = omega arith

pub owns-first : (o : Option ℕ) (ocp : Ocp) → ocp.count ≢ 0 → owns o ocp.next_tid ocp ≡ 1
owns-first none ocp h = ground arith
owns-first (some id) ocp h = ground arith

pub no_wrap : (o : Option ℕ) (n : ℕ) → n < 0xffffffffff200000 → word (n + step_of o) ≡ n + step_of o
no_wrap none n h = omega arith
no_wrap (some id) n h = omega arith

pub new_id : (x : ℕ) (ids : List ℕ) → times x (x ∷ ids) ≤ 1 → times x ids ≡ 0
new_id x ids h = ground (arith, h)
