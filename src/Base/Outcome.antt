-- ===== src/Base/Outcome.antt =====
-- How an operation of the kernel ends: with a result, with an error number, or in a panic, which is
-- also what a failed KKASSERT comes to.
use Prim.Native.Nat.{ℕ}
use mathlib.Core.Path.{◌≡◌, refl}
use mathlib.Core.Bool.{Bool, true, false}

pub data Outcome {ℓ} (A : Type ℓ) : Type ℓ where
  done : A → Outcome A
  fail : (error : ℕ) → Outcome A
  panic : Outcome A

infixl 5 ◌>>=◌ ◌>>◌
abbrev pub ◌>>=◌ {ℓ κ} : {A : Type ℓ} {B : Type κ} → Outcome A → (A → Outcome B) → Outcome B
done a >>= f = f a
fail e >>= f = fail e
panic >>= f = panic

abbrev pub ◌>>◌ {ℓ} : {B : Type ℓ} → Outcome (Unit {0}) → Outcome B → Outcome B
m >> k = m >>= λ _. k

-- KKASSERT
abbrev pub kkassert : Bool → Outcome (Unit {0})
kkassert true = done tt
kkassert false = panic

-- The operation returns, and its result satisfies `P`.
abbrev pub Returns {ℓ} : {A : Type ℓ} → Outcome A → (A → Type 0) → Type 0
Returns (done a) P = P a
Returns (fail e) P = ⊥
Returns panic P = ⊥

pub Returns-map {ℓ} :
    {A : Type ℓ} {P Q : A → Type 0} (o : Outcome A)
    → ((a : A) → P a → Q a)
    → Returns o P
    → Returns o Q
Returns-map (done a) f h = f a h
Returns-map (fail error) f h = absurd h
Returns-map panic f h = absurd h

pub Returns-bind {ℓ κ} :
    {A : Type ℓ} {B : Type κ} {P : A → Type 0} (Q : B → Type 0) (o : Outcome A) (f : A → Outcome B)
    → Returns o P
    → ((a : A) → P a → Returns (f a) Q)
    → Returns (o >>= f) Q
Returns-bind Q (done a) f h k = k a h
Returns-bind Q (fail error) f h k = absurd h
Returns-bind Q panic f h k = absurd h

-- The operation does not return, or its result satisfies `P`.
abbrev pub Ensures {ℓ} : {A : Type ℓ} → Outcome A → (A → Type 0) → Type 0
Ensures (done a) P = P a
Ensures (fail e) P = Unit
Ensures panic P = Unit

pub Ensures-of {ℓ} :
    {A : Type ℓ} {P : A → Type 0} (o : Outcome A) → ((a : A) → o ≡ done a → P a) → Ensures o P
Ensures-of (done a) h = h a refl
Ensures-of (fail error) h = tt
Ensures-of panic h = tt

pub Ensures-bind {ℓ κ} :
    {A : Type ℓ} {B : Type κ} {P : A → Type 0} (Q : B → Type 0) (o : Outcome A) (f : A → Outcome B)
    → Ensures o P
    → ((a : A) → P a → Ensures (f a) Q)
    → Ensures (o >>= f) Q
Ensures-bind Q (done a) f h k = k a h
Ensures-bind Q (fail error) f h k = tt
Ensures-bind Q panic f h k = tt

pub Returns-Ensures {ℓ} : {A : Type ℓ} (P : A → Type 0) (o : Outcome A) → Returns o P → Ensures o P
Returns-Ensures P (done a) h = h
Returns-Ensures P (fail error) h = absurd h
Returns-Ensures P panic h = absurd h

pub Returns-and {ℓ} :
    {A : Type ℓ} (Q R : A → Type 0) (o : Outcome A)
    → Returns o (λ a. Unit)
    → Ensures o Q
    → ((a : A) → Q a → R a)
    → Returns o R
Returns-and Q R (done a) h k f = f a k
Returns-and Q R (fail error) h k f = absurd h
Returns-and Q R panic h k f = absurd h
