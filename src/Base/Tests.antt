-- ===== src/Base/Tests.antt =====
-- Boolean tests on the native numbers, and the conditional.
use Prim.Native.Nat.{ℕ, ◌≤◌, ◌<◌, compare, Ordering}
use mathlib.Core.Path.{◌≡◌, refl}
use mathlib.Core.Logic.{◌≢◌, ◌⊎◌, inl, inr}
use mathlib.Core.Bool.{Bool, true, false, not}
use mathlib.Core.Option.{Option, none, some}
use native.Mathlib.Omega.{arith}

abbrev pub ltb : ℕ → ℕ → Bool
ltb a b = elim (compare a b) [ Ordering.lt ↦ true | _ ↦ false ]

abbrev pub leb : ℕ → ℕ → Bool
leb a b = elim (compare a b) [ Ordering.gt ↦ false | _ ↦ true ]

infix 50 ◌==◌
abbrev pub ◌==◌ : ℕ → ℕ → Bool
a == b = elim (compare a b) [ Ordering.eq ↦ true | _ ↦ false ]

infix 1 if◌then◌else◌
abbrev pub if◌then◌else◌ {ℓ} : {A : Type ℓ} → Bool → A → A → A
if true then x else y = x
if false then x else y = y

-- To split on a computed value and keep the equation.
pub Bool-cases : (b : Bool) → (b ≡ true) ⊎ (b ≡ false)
Bool-cases true = inl refl
Bool-cases false = inr refl

pub Option-cases {ℓ} : {A : Type ℓ} (o : Option A) → (o ≡ none) ⊎ ((a : A) × (o ≡ some a))
Option-cases none = inl refl
Option-cases (some a) = inr (a, refl)

-- Tests that a hypothesis decides.
pub nonzero_test : (n : ℕ) → n ≢ 0 → not (n == 0) ≡ true
nonzero_test n h = ground arith

pub lt_test : {m n : ℕ} → m < n → ltb m n ≡ true
lt_test h = ground arith

pub ne_test : (m n : ℕ) → m ≢ n → (m == n) ≡ false
ne_test m n h = ground arith

pub same_test : (n : ℕ) → (n == n) ≡ true
same_test n = ground arith

pub le_test : {m n : ℕ} → m ≤ n → leb m n ≡ true
le_test h = ground arith

pub none-some {ℓ} : {A : Type ℓ} → (a : A) → ¬ (none ≡ some a)
none-some a e = cc

pub some-same {ℓ} : {A : Type ℓ} → (a b : A) → some a ≡ some b → a ≡ b
some-same a b e = cc
