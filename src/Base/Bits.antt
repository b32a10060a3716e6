-- ===== src/Base/Bits.antt =====
-- Masks and disjoint fields of unsigned words: `&` and `|` as arithmetic, at every width.
use Prim.Native.Nat.{
  ℕ, zero, suc, ◌+◌, ◌-◌, ◌*◌, ◌/◌, ◌%◌, ◌^◌, ◌≤◌, ◌<◌, min, max, bit_and, bit_or, digits, bitwise,
  bit_and-bitwise, bit_or-bitwise,
}
use mathlib.Core.Path.{◌≡◌, refl, ap, sym, ◌∙◌}
use native.Mathlib.Omega.{arith}
use native.Mathlib.Nat.{pow-suc, one-le-pow}

-- An operation on binary digits, which `bitwise` computes on fuel: `f` on two digits, and `g` on what
-- is left of the second number.
module _ (g : ℕ → ℕ) (f : ℕ → ℕ → ℕ) where
  digits-zero : (fuel b : ℕ) → digits g f fuel 0 b ≡ g b
  digits-zero zero b = refl
  digits-zero (suc fuel) b = refl

  settled : (a b n m : ℕ) → a ≤ n → a ≤ m → digits g f n a b ≡ digits g f m a b
  settled zero b n m h k = digits-zero n b ∙ sym (digits-zero m b)
  settled (suc a) b n zero h k = absurd (omega arith)
  settled (suc a) b zero m h k = absurd (omega arith)
  settled (suc a) b (suc n) (suc m) h k =
      ap (λ r. r * 2 + f (suc a % 2) (b % 2))
        (settled (suc a / 2) (b / 2) n m (omega arith) (omega arith))

  lowest :
      ((b : ℕ) → g b ≡ g (b / 2) * 2 + f 0 (b % 2))
      → (a b : ℕ) → bitwise g f a b ≡ bitwise g f (a / 2) (b / 2) * 2 + f (a % 2) (b % 2)
  lowest rest zero b = rest b
  lowest rest (suc a) b =
      ap (λ r. r * 2 + f (suc a % 2) (b % 2))
        (settled (suc a / 2) (b / 2) a (suc a / 2) (omega arith) (omega arith))

  -- With 0 on the right the operation is `k`, if `k` has the same digits.
  with_zero :
      (k : ℕ → ℕ)
      → g 0 ≡ k 0
      → ((a : ℕ) → k a ≡ k (a / 2) * 2 + f (a % 2) 0)
      → (fuel a : ℕ) → a ≤ fuel
      → digits g f fuel a 0 ≡ k a
  with_zero k start halves fuel zero h = digits-zero fuel 0 ∙ start
  with_zero k start halves zero (suc a) h = absurd (omega arith)
  with_zero k start halves (suc fuel) (suc a) h =
      ap (λ r. r * 2 + f (suc a % 2) 0) (with_zero k start halves fuel (suc a / 2) (omega arith))
      ∙ sym (halves (suc a))

bit_and_step : (a b : ℕ) → bit_and a b ≡ bit_and (a / 2) (b / 2) * 2 + min (a % 2) (b % 2)
bit_and_step a b =
    rw (bit_and-bitwise a b, bit_and-bitwise (a / 2) (b / 2))
      (lowest (λ _. 0) min (λ y. omega arith) a b)

bit_or_step : (a b : ℕ) → bit_or a b ≡ bit_or (a / 2) (b / 2) * 2 + max (a % 2) (b % 2)
bit_or_step a b =
    rw (bit_or-bitwise a b, bit_or-bitwise (a / 2) (b / 2))
      (lowest (λ y. y) max (λ y. omega arith) a b)

bit_and-zero : (a : ℕ) → bit_and a 0 ≡ 0
bit_and-zero a =
    bit_and-bitwise a 0 ∙ with_zero (λ _. 0) min (λ _. 0) refl (λ x. omega arith) a a (omega arith)

bit_or-zero : (a : ℕ) → bit_or a 0 ≡ a
bit_or-zero a =
    bit_or-bitwise a 0 ∙ with_zero (λ y. y) max (λ x. x) refl (λ x. omega arith) a a (omega arith)

shifted : (q k : ℕ) → q * 2 ^ suc k ≡ 2 * (q * 2 ^ k)
shifted q k = omega (arith, ap (λ (t : ℕ). q * t) (pow-suc 2 k))

-- A mask of the `k` low bits.
pub bit_and-low_fields : (k q r : ℕ) → r < 2 ^ k → bit_and (q * 2 ^ k + r) (2 ^ k - 1) ≡ r
bit_and-low_fields zero q r h = omega (arith, bit_and-zero (q * 1 + r))
bit_and-low_fields (suc k) q r h = ground (
  arith,
  bit_and_step (q * 2 ^ suc k + r) (2 ^ suc k - 1),
  shifted q k,
  pow-suc 2 k,
  one-le-pow k 2,
  bit_and-low_fields k q (r / 2) (omega (arith, pow-suc 2 k)),
)

-- A mask that is clear in the `k` low bits acts on the bits above.
pub bit_and-high_fields :
    (k q r c : ℕ) → r < 2 ^ k → bit_and (q * 2 ^ k + r) (c * 2 ^ k) ≡ bit_and q c * 2 ^ k
bit_and-high_fields zero q r c h = ground arith
bit_and-high_fields (suc k) q r c h = ground (
  arith,
  bit_and_step (q * 2 ^ suc k + r) (c * 2 ^ suc k),
  shifted q k,
  shifted c k,
  shifted (bit_and q c) k,
  bit_and-high_fields k q (r / 2) c (omega (arith, pow-suc 2 k)),
)

-- `(q << k) | r` is a sum when `r` fits the `k` low bits.
pub bit_or_fields : (k q r : ℕ) → r < 2 ^ k → bit_or (q * 2 ^ k) r ≡ q * 2 ^ k + r
bit_or_fields zero q r h = ground (arith, bit_or-zero q)
bit_or_fields (suc k) q r h = ground (
  arith,
  bit_or_step (q * 2 ^ suc k) r,
  shifted q k,
  bit_or_fields k q (r / 2) (omega (arith, pow-suc 2 k)),
)

pub bit_and-low : (k a : ℕ) → bit_and a (2 ^ k - 1) ≡ a % 2 ^ k
bit_and-low k a = ground (arith, one-le-pow k 2, bit_and-low_fields k (a / 2 ^ k) (a % 2 ^ k))

pub bit_and-high : (k a c : ℕ) → bit_and a (c * 2 ^ k) ≡ bit_and (a / 2 ^ k) c * 2 ^ k
bit_and-high k a c = ground (arith, one-le-pow k 2, bit_and-high_fields k (a / 2 ^ k) (a % 2 ^ k) c)

-- Bounds of `|`.
pub bit_or-lt : (k a b : ℕ) → a < 2 ^ k → b < 2 ^ k → bit_or a b < 2 ^ k
bit_or-lt zero zero zero h l = omega (arith, bit_or-zero 0)
bit_or-lt zero (suc a) b h l = absurd (omega arith)
bit_or-lt zero zero (suc b) h l = absurd (omega arith)
bit_or-lt (suc k) a b h l = ground (
  arith,
  bit_or_step a b,
  pow-suc 2 k,
  bit_or-lt k (a / 2) (b / 2) (omega (arith, pow-suc 2 k)) (omega (arith, pow-suc 2 k)),
)

at_least : (fuel a b : ℕ) → b ≤ fuel → b ≤ bit_or a b
at_least zero a zero h = omega arith
at_least zero a (suc b) h = absurd (omega arith)
at_least (suc fuel) a zero h = omega arith
at_least (suc fuel) a (suc b) h =
    ground (arith, bit_or_step a (suc b), at_least fuel (a / 2) (suc b / 2) (omega arith))

pub bit_or-ge : (a b : ℕ) → b ≤ bit_or a b
bit_or-ge a b = at_least b a b (omega arith)

pub bit_or_even : (a b : ℕ) → a % 2 ≡ 0 → b % 2 ≡ 0 → bit_or a b % 2 ≡ 0
bit_or_even a b h l = omega (arith, bit_or_step a b)
