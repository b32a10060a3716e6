-- ===== src/Base/Array.antt =====
-- `bcopy` within one array, and reads after it.
use hammer_linux.Base.Lists.{length, get_or, set, take, drop, length-take, length-drop}
use Prim.Native.Nat.{ℕ, zero, suc, ◌+◌, ◌-◌, ◌<◌, ◌≤◌}
use mathlib.Core.Path.{◌≡◌, refl, ap, ◌∙◌, subst₂}
use mathlib.Core.Logic.{◌≢◌}
use mathlib.Core.List.{List, [], ◌∷◌}
use native.Mathlib.Nat.{zero-add, suc-add}
use native.Mathlib.Omega.{arith}

module _ {ℓ} {A : Type ℓ} where
  -- Writes `ys` over `xs` from an index on; what does not fit is dropped.
  unfoldable pub overwrite : List A → ℕ → List A → List A
  overwrite [] i ys = []
  overwrite (x ∷ xs) zero [] = x ∷ xs
  overwrite (x ∷ xs) zero (y ∷ ys) = y ∷ overwrite xs zero ys
  overwrite (x ∷ xs) (suc i) ys = x ∷ overwrite xs i ys

  -- bcopy(&xs[src], &xs[dst], n * size)
  unfoldable pub bcopy : List A → (src dst n : ℕ) → List A
  unfolding overwrite
  bcopy xs src dst n = overwrite xs dst (take n (drop src xs))

module _ {ℓ} {A : Type ℓ} where
  pub length-overwrite :
      (xs : List A) (i : ℕ) (ys : List A) → length (overwrite xs i ys) ≡ length xs
  unfolding overwrite
  length-overwrite [] i ys = refl
  length-overwrite (x ∷ xs) zero [] = refl
  length-overwrite (x ∷ xs) zero (y ∷ ys) = ap suc (length-overwrite xs zero ys)
  length-overwrite (x ∷ xs) (suc i) ys = ap suc (length-overwrite xs i ys)

  pub get_or-overwrite_before :
      (xs : List A) (i : ℕ) (ys : List A) (j : ℕ) (d : A)
      → j < i
      → get_or (overwrite xs i ys) j d ≡ get_or xs j d
  unfolding overwrite
  get_or-overwrite_before [] i ys j d h = refl
  get_or-overwrite_before (x ∷ xs) zero ys j d h = absurd (omega arith)
  get_or-overwrite_before (x ∷ xs) (suc i) ys zero d h = refl
  get_or-overwrite_before (x ∷ xs) (suc i) ys (suc j) d h =
      get_or-overwrite_before xs i ys j d (omega arith)

  pub get_or-overwrite_inside :
      (xs : List A) (i : ℕ) (ys : List A) (j : ℕ) (d : A)
      → j < length ys
      → i + j < length xs
      → get_or (overwrite xs i ys) (i + j) d ≡ get_or ys j d
  unfolding overwrite
  get_or-overwrite_inside [] i ys j d h k = absurd (omega arith)
  get_or-overwrite_inside (x ∷ xs) zero [] j d h k = absurd (omega arith)
  get_or-overwrite_inside (x ∷ xs) zero (y ∷ ys) zero d h k = refl
  get_or-overwrite_inside (x ∷ xs) zero (y ∷ ys) (suc j) d h k =
      rw zero-add
        (rw zero-add at (get_or-overwrite_inside xs zero ys j d (omega arith) (omega arith)))
  get_or-overwrite_inside (x ∷ xs) (suc i) ys j d h k =
      rw suc-add (get_or-overwrite_inside xs i ys j d h (omega (arith, suc-add i j)))

  pub get_or-overwrite_after :
      (xs : List A) (i : ℕ) (ys : List A) (j : ℕ) (d : A)
      → i + length ys ≤ j
      → get_or (overwrite xs i ys) j d ≡ get_or xs j d
  unfolding overwrite
  get_or-overwrite_after [] i ys j d h = refl
  get_or-overwrite_after (x ∷ xs) zero [] j d h = refl
  get_or-overwrite_after (x ∷ xs) zero (y ∷ ys) zero d h = absurd (omega arith)
  get_or-overwrite_after (x ∷ xs) zero (y ∷ ys) (suc j) d h =
      get_or-overwrite_after xs zero ys j d (omega arith)
  get_or-overwrite_after (x ∷ xs) (suc i) ys zero d h = absurd (omega arith)
  get_or-overwrite_after (x ∷ xs) (suc i) ys (suc j) d h =
      get_or-overwrite_after xs i ys j d (omega arith)

  pub get_or-take :
      (n : ℕ) (xs : List A) (j : ℕ) (d : A) → j < n → get_or (take n xs) j d ≡ get_or xs j d
  get_or-take zero xs j d h = absurd (omega arith)
  get_or-take (suc n) [] j d h = refl
  get_or-take (suc n) (x ∷ xs) zero d h = refl
  get_or-take (suc n) (x ∷ xs) (suc j) d h = get_or-take n xs j d (omega arith)

  pub get_or-drop :
      (n : ℕ) (xs : List A) (j : ℕ) (d : A) → get_or (drop n xs) j d ≡ get_or xs (n + j) d
  get_or-drop zero xs j d = rw zero-add refl
  get_or-drop (suc n) [] j d = refl
  get_or-drop (suc n) (x ∷ xs) j d = rw suc-add (get_or-drop n xs j d)

  pub length-set : (xs : List A) (i : ℕ) (v : A) → length (set xs i v) ≡ length xs
  length-set [] i v = refl
  length-set (x ∷ xs) zero v = refl
  length-set (x ∷ xs) (suc i) v = ap suc (length-set xs i v)

  pub get_or-set_self :
      (xs : List A) (i : ℕ) (v d : A) → i < length xs → get_or (set xs i v) i d ≡ v
  get_or-set_self [] i v d h = absurd (omega arith)
  get_or-set_self (x ∷ xs) zero v d h = refl
  get_or-set_self (x ∷ xs) (suc i) v d h = get_or-set_self xs i v d (omega arith)

  pub get_or-set_ne :
      (xs : List A) (i j : ℕ) (v d : A) → i ≢ j → get_or (set xs i v) j d ≡ get_or xs j d
  get_or-set_ne [] i j v d h = refl
  get_or-set_ne (x ∷ xs) zero zero v d h = absurd (h refl)
  get_or-set_ne (x ∷ xs) zero (suc j) v d h = refl
  get_or-set_ne (x ∷ xs) (suc i) zero v d h = refl
  get_or-set_ne (x ∷ xs) (suc i) (suc j) v d h = get_or-set_ne xs i j v d (λ e. h (ap suc e))

  -- Reads after a `bcopy` whose source and destination lie in the array.
  module _ (xs : List A) (src dst n : ℕ) (d : A) (source : src + n ≤ length xs) where
    copied : length (take n (drop src xs)) ≡ n
    copied = omega (arith, length-take n (drop src xs), length-drop src xs)

    pub length-bcopy : length (bcopy xs src dst n) ≡ length xs
    unfolding bcopy
    length-bcopy = length-overwrite xs dst (take n (drop src xs))

    pub bcopy_before : (j : ℕ) → j < dst → get_or (bcopy xs src dst n) j d ≡ get_or xs j d
    unfolding bcopy
    bcopy_before j h = get_or-overwrite_before xs dst (take n (drop src xs)) j d h

    bcopy_offset :
        (t : ℕ)
        → t < n
        → dst + t < length xs
        → get_or (bcopy xs src dst n) (dst + t) d ≡ get_or xs (src + t) d
    unfolding bcopy
    bcopy_offset t h k =
        get_or-overwrite_inside xs dst (take n (drop src xs)) t d (omega (arith, copied)) k
        ∙ get_or-take n (drop src xs) t d h
        ∙ get_or-drop src xs t d

    -- The element at `j` comes from `k`, at the same distance from the source.
    pub bcopy_inside :
        (j k : ℕ)
        → dst ≤ j
        → j < dst + n
        → j < length xs
        → k + dst ≡ j + src
        → get_or (bcopy xs src dst n) j d ≡ get_or xs k d
    bcopy_inside j k p q r e =
        subst₂ (λ x y. get_or (bcopy xs src dst n) x d ≡ get_or xs y d) (omega arith) (omega arith)
          (bcopy_offset (j - dst) (omega arith) (omega arith))

    pub bcopy_after : (j : ℕ) → dst + n ≤ j → get_or (bcopy xs src dst n) j d ≡ get_or xs j d
    unfolding bcopy
    bcopy_after j h =
        get_or-overwrite_after xs dst (take n (drop src xs)) j d (omega (arith, copied))
