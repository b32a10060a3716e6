-- ===== src/Names.antt =====
-- The hash of a name in a directory, `hammer_directory_namekey` (hammer_subs.c). The name is a list
-- of bytes, and `crc32` a parameter.
pub mod Key
use hammer_linux.Base.{
  ℕ, suc, ◌+◌, ◌-◌, ◌*◌, ◌/◌, bit_and, bit_or, bit_xor, List, length, get_or, drop, take, ltb, ◌==◌,
  if◌then◌else◌,
}
use hammer_linux.Base.Outcome.{Outcome, done, panic}

-- HAMMER_INODE_CAP_DIRHASH_ALG0 to _ALG3
pub data Algorithm : Type 0 where
  alg0 alg1 alg2 alg3 : Algorithm

-- The low five bits of a character, shifted.
abbrev pub letter : List ℕ → (i shift : ℕ) → ℕ
letter name i shift = bit_and (get_or name i 0) 0x1f * shift

module _ (crc32 : List ℕ → ℕ) where
  -- The six bits of the characters in the middle.
  abbrev pub middle : List ℕ → ℕ
  middle name =
      let crcx = crc32 (take (length name - 5) (drop 3 name)) in
      bit_and (bit_xor (bit_xor crcx (crcx / 0x40)) (crcx / 0x1000)) 0x3f * 0x40000000000

  -- Every case of the length falls through to the shorter ones.
  pub mixed_key : List ℕ → ℕ
  mixed_key name =
      let len = length name in
      let key = bit_and (crc32 name) 0xfffffffe in
      let key5 = if ltb 5 len then bit_or key (middle name) else key in
      let key3 = if ltb 2 len then bit_or key5 (letter name 2 0x1000000000000) else key5 in
      let key2 =
        if ltb 1 len
        then bit_or key3
            (bit_or (letter name 1 0x20000000000000) (letter name (len - 2) 0x2000000000))
        else key3 in
      if ltb 0 len
      then bit_or key2
          (bit_or (letter name 0 0x400000000000000) (letter name (len - 1) 0x100000000))
      else key2

  -- The key and the number of iterations.
  pub hammer_directory_namekey : Algorithm → List ℕ → Outcome (ℕ × ℕ)
  unfolding mixed_key
  hammer_directory_namekey alg0 name =
      let key = bit_and (crc32 name) 0x7fffffff * 0x100000000 in
      done (if key == 0 then bit_or key 0x100000000 else key, 0xffffffff)
  hammer_directory_namekey alg1 name =
      let key = mixed_key name in
      done (if bit_and key 0xffffffff00000000 == 0 then bit_or key 0x100000000 else key, 0x00ffffff)
  hammer_directory_namekey alg2 name = panic
  hammer_directory_namekey alg3 name = panic
