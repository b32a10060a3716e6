-- ===== src/Names/Key.antt =====
-- The range of a name key.
use hammer_linux.Base.{
  ℕ, ◌-◌, ◌*◌, ◌/◌, ◌%◌, ◌^◌, ◌<◌, ◌≤◌, ◌≡◌, refl, ◌∙◌, arith, bit_and, bit_or, bit_or-lt,
  bit_or-ge, bit_or_even, bit_and-low, bit_and-high, Bool, true, false, Bool-cases, inl, inr, List,
  length, get_or, ltb, ◌==◌, if◌then◌else◌,
}
use hammer_linux.Base.Outcome.{Outcome, done, fail, panic}
use hammer_linux.Names.{
  Algorithm, alg0, alg1, alg2, alg3, letter, middle, mixed_key, hammer_directory_namekey,
}

-- An even number of 63 bits.
abbrev Even63 : ℕ → Type 0
Even63 n = (n < 2 ^ 63) × (n % 2 ≡ 0)

bit_or-Even63 : (a b : ℕ) → Even63 a → Even63 b → Even63 (bit_or a b)
bit_or-Even63 a b h k = (bit_or-lt 63 a b h.0 k.0, bit_or_even a b h.1 k.1)

if-Even63 : (b : Bool) (m n : ℕ) → Even63 m → Even63 n → Even63 (if b then m else n)
if-Even63 true m n h k = h
if-Even63 false m n h k = k

low_five : (c : ℕ) → bit_and c 0x1f < 32
low_five c = omega (arith, bit_and-low 5 c)

low_six : (c : ℕ) → bit_and c 0x3f < 64
low_six c = omega (arith, bit_and-low 6 c)

upper : (crc : ℕ) → bit_and crc 0xfffffffe ≡ crc / 2 % 0x80000000 * 2
upper crc = bit_and-high 1 crc 0x7fffffff ∙ omega (arith, bit_and-low 31 (crc / 2))

module _ (crc32 : List ℕ → ℕ) where
  mixed_key-Even63 : (name : List ℕ) → Even63 (mixed_key crc32 name)
  unfolding mixed_key
  mixed_key-Even63 name =
      let len = length name in
      let start : Even63 (bit_and (crc32 name) 0xfffffffe) =
        (omega (arith, upper (crc32 name)), omega (arith, upper (crc32 name))) in
      let five =
        if-Even63 (ltb 5 len) _ _ (bit_or-Even63 _ (middle crc32 name) start (centre name)) start in
      let three =
        if-Even63 (ltb 2 len) _ _
          (bit_or-Even63 _ (letter name 2 0x1000000000000) five (third (get_or name 2 0))) five in
      let two =
        if-Even63 (ltb 1 len) _ _
          (bit_or-Even63 _ _ three
            (bit_or-Even63 _ _ (second (get_or name 1 0)) (second_last (get_or name (len - 2) 0))))
          three in
      if-Even63 (ltb 0 len) _ _
        (bit_or-Even63 _ _ two
          (bit_or-Even63 _ _ (first (get_or name 0 0)) (last (get_or name (len - 1) 0))))
        two
    where
      centre : (name : List ℕ) → Even63 (middle crc32 name)
      centre name = (omega (arith, low_six _), omega arith)

      first : (c : ℕ) → Even63 (bit_and c 0x1f * 0x400000000000000)
      first c = (omega (arith, low_five c), omega arith)

      second : (c : ℕ) → Even63 (bit_and c 0x1f * 0x20000000000000)
      second c = (omega (arith, low_five c), omega arith)

      third : (c : ℕ) → Even63 (bit_and c 0x1f * 0x1000000000000)
      third c = (omega (arith, low_five c), omega arith)

      second_last : (c : ℕ) → Even63 (bit_and c 0x1f * 0x2000000000)
      second_last c = (omega (arith, low_five c), omega arith)

      last : (c : ℕ) → Even63 (bit_and c 0x1f * 0x100000000)
      last c = (omega (arith, low_five c), omega arith)

  -- A key that is positive as a signed number, with something in its upper half.
  abbrev pub IsKey : Algorithm → Outcome (ℕ × ℕ) → Type 0
  IsKey alg0 (done (key, iterations)) =
      (0x100000000 ≤ key) × (key < 0x8000000000000000) × (key % 0x100000000 ≡ 0)
  IsKey alg0 (fail e) = ⊥
  IsKey alg0 panic = ⊥
  IsKey alg1 (done (key, iterations)) =
      (0x100000000 ≤ key) × (key < 0x8000000000000000) × (key % 2 ≡ 0)
  IsKey alg1 (fail e) = ⊥
  IsKey alg1 panic = ⊥
  IsKey alg2 o = o ≡ panic
  IsKey alg3 o = o ≡ panic

  upper_half :
      (key : ℕ) → key < 2 ^ 63 → bit_and key 0xffffffff00000000 ≡ key / 0x100000000 * 0x100000000
  upper_half key h =
      bit_and-high 32 key 0xffffffff ∙ omega (arith, bit_and-low 32 (key / 0x100000000))

  -- A key of either algorithm is positive, and not below 2^32, where the keys of artificial entries are;
  -- the first algorithm leaves the lower half 0, and the second one bit 0. The other numbers
  -- panic.
  pub hammer_directory_namekey-IsKey :
      (algorithm : Algorithm) (name : List ℕ)
      → IsKey algorithm (hammer_directory_namekey crc32 algorithm name)
  unfolding hammer_directory_namekey
  hammer_directory_namekey-IsKey alg0 name =
      elim (Bool-cases (bit_and (crc32 name) 0x7fffffff * 0x100000000 == 0)) [
        | inl z ↦ rw (z, nothing z) (omega arith, omega arith, refl)
        | inr n ↦ rw n (ground arith, omega (arith, bit_and-low 31 (crc32 name)), omega arith)
      ]
    where
      nothing :
          bit_and (crc32 name) 0x7fffffff * 0x100000000 == 0 ≡ true
          → bit_and (crc32 name) 0x7fffffff * 0x100000000 ≡ 0
      nothing z = ground arith
  hammer_directory_namekey-IsKey alg1 name =
      let even = mixed_key-Even63 name in
      elim (Bool-cases (bit_and (mixed_key crc32 name) 0xffffffff00000000 == 0)) [
        | inl z ↦ rw z (
          bit_or-ge (mixed_key crc32 name) 0x100000000,
          bit_or-lt 63 (mixed_key crc32 name) 0x100000000 even.0 (omega arith),
          bit_or_even (mixed_key crc32 name) 0x100000000 even.1 (omega arith),
        )
        | inr n ↦
            rw n (ground (arith, upper_half (mixed_key crc32 name) even.0), omega arith, even.1)
      ]
  hammer_directory_namekey-IsKey alg2 name = refl
  hammer_directory_namekey-IsKey alg3 name = refl
