-- ===== src/Blockmap/Alloc/Forward.antt =====
-- Freemaps of zones, room in them, and the steps of the search for it.
use native.Mathlib.Decide.{ℕ_discrete}
use mathlib.Core.Path.{subst}
use hammer_linux.Base.{
  ap, ℕ, ◌+◌, ◌-◌, ◌*◌, ◌/◌, ◌%◌, ◌≤◌, ◌<◌, ◌≡◌, ◌≢◌, ◌⊎◌, ◌∙◌, inl, inr, arith, true, false,
  Bool-cases, not, none, some, ltb, leb, ◌==◌, ◌&&◌,
}
use hammer_linux.Disk.{zone_encode, largeblock_size}
use hammer_linux.Disk.Fields.{zone_encode_sum, layer1_offset_same}
use hammer_linux.Blockmap.Reserve.{Reserve, find}
use hammer_linux.Blockmap.Layers.{
  Calls, Freemap, plus, xbufsize, unavail, layer1_at, to_base_off, seal1,
}
use hammer_linux.Blockmap.Layers.Block.{IsBlock, entry1, entry2, entry1_same}
use hammer_linux.Blockmap.Alloc.{unit_of, down_to, bufsize, layer2_size}

-- A big-block that can be allocated from: it is well formed, and its free bytes reach from
-- `append_off` to its end at least.
pub record IsUsable (calls : Calls) (f : Freemap) (offset : ℕ) : Type 0 where
  pub block : IsBlock calls f offset
  pub inside : (entry2 f offset).append_off ≤ largeblock_size
  pub reach : largeblock_size ≤ (entry2 f offset).append_off + (entry2 f offset).bytes_free

-- An offset that no volume covers.
pub record IsUnavailable (calls : Calls) (f : Freemap) (offset : ℕ) : Type 0 where
  pub reads1 : calls.bread (layer1_at f offset) ≡ 0
  pub crc1 : (entry1 f offset).layer1_crc ≡ (seal1 calls (entry1 f offset)).layer1_crc
  pub no_layer2 : (entry1 f offset).phys_offset ≡ unavail
  pub none_free : (entry1 f offset).blocks_free ≡ 0

-- Each big-block can be allocated from or is unavailable, and reservations end inside their big-blocks.
pub record IsFreemap (calls : Calls) (f : Freemap) : Type 0 where
  pub blocks : (offset : ℕ) → IsUsable calls f offset ⊎ IsUnavailable calls f offset
  pub reserved :
      (offset : ℕ) (r : Reserve)
      → find offset f.reservations.rb_resv_root ≡ some r
      → r.append_off ≤ largeblock_size

-- Room for `bytes` at an offset that a volume covers: the request crosses no unit, the big-block has no other owner, and
-- the request lies behind all that is allocated or reserved.
pub record IsRoom (f : Freemap) (zone bytes next : ℕ) : Type 0 where
  pub available : (entry1 f next).phys_offset ≢ unavail
  pub in_unit : next / unit_of bytes ≡ (next + bytes - 1) / unit_of bytes
  pub owner : ((entry2 f next).zone ≡ 0) ⊎ ((entry2 f next).zone ≡ zone)
  pub behind : (entry2 f next).append_off ≤ next % largeblock_size
  pub behind_reserved :
      (r : Reserve)
      → find (to_base_off next) f.reservations.rb_resv_root ≡ some r
      → (r.zone ≡ zone) × (r.append_off ≤ next % largeblock_size)

-- The end of a zone below the last one.
abbrev pub end_of : ℕ → ℕ
end_of zone = (zone + 1) * 0x1000000000000000

-- The start of a big-block that is free for every zone.
pub record IsFree (f : Freemap) (x : ℕ) : Type 0 where
  pub start : x % largeblock_size ≡ 0
  pub counted : (entry1 f x).blocks_free ≢ 0
  pub unowned : (entry2 f x).zone ≡ 0
  pub unreserved : find (to_base_off x) f.reservations.rb_resv_root ≡ none

-- No big-block that starts from `a` on and before `b` is free.
abbrev pub NoneFree : Freemap → (a b : ℕ) → Type 0
NoneFree f a b = (x : ℕ) → a ≤ x → x < b → ¬ IsFree f x

pub NoneFree-join : (f : Freemap) (a b c : ℕ) → NoneFree f a b → NoneFree f b c → NoneFree f a c
NoneFree-join f a b c h k x p q = elim (Bool-cases (ltb x b)) [
  | inl e ↦ h x p (ground arith)
  | inr e ↦ k x (ground arith) q
]

-- Where the search may stand: at the start of a big-block, or where a volume covers the offset.
abbrev pub Standing : Freemap → ℕ → Type 0
Standing f n = (n % largeblock_size ≡ 0) ⊎ ((entry1 f n).phys_offset ≢ unavail)

pub IsFreemap-IsUsable :
    (calls : Calls) (f : Freemap) (offset : ℕ)
    → IsFreemap calls f
    → (entry1 f offset).phys_offset ≢ unavail
    → IsUsable calls f offset
IsFreemap-IsUsable calls f offset ok h = elim (ok.blocks offset) [
  | inl u ↦ u
  | inr n ↦ absurd (h n.no_layer2)
]

-- Offsets below the same entry of layer 1.
pub entry1_below :
    (f : Freemap) (a b : ℕ) → a / layer2_size ≡ b / layer2_size → entry1 f a ≡ entry1 f b
entry1_below f a b e = entry1_same f a b (layer1_offset_same a b e)

-- Where a step inside a big-block, or to its end, comes to.
Standing-step :
    (f : Freemap) (a b : ℕ)
    → (entry1 f a).phys_offset ≢ unavail
    → (b % largeblock_size ≡ 0) ⊎ (b / largeblock_size ≡ a / largeblock_size)
    → Standing f b
Standing-step f a b h (inl e) = inl e
Standing-step f a b h (inr e) =
    inr (λ k. h (ap (λ l. l.phys_offset) (entry1_below f a b (omega arith)) ∙ k))

pub owner_of :
    (owner zone : ℕ)
    → (not (owner == 0) && not (owner == zone)) ≡ false
    → (owner ≡ 0) ⊎ (owner ≡ zone)
owner_of owner zone e = ground arith

pub same_number : (a b : ℕ) → a ≡ b → (a == b) ≡ true
same_number a b e = ground arith

pub zone_end : (zone : ℕ) → zone < 15 → zone_encode (zone + 1) 0 ≡ end_of zone
zone_end zone h = zone_encode_sum (zone + 1) 0 (omega arith) (omega arith) ∙ omega arith

pub zone_start : (zone : ℕ) → zone < 15 → zone_encode zone 0 ≡ zone * 0x1000000000000000
zone_start zone h = zone_encode_sum zone 0 (omega arith) (omega arith) ∙ omega arith

-- Forward from `next` to `n`: inside the zone, to where the search may stand, and past nothing free.
pub record Forward (f : Freemap) (zone next n : ℕ) : Type 0 where
  pub further : next < n
  pub in_zone : n ≤ end_of zone
  pub stands : Standing f n
  pub passed : NoneFree f next n

-- The ways forward.
module _ (f : Freemap) (zone next : ℕ) (low_zone : zone < 15) (in_zone : next < end_of zone) where
  -- Up to the end of the big-block only its own start can be passed.
  passed_here :
      (n : ℕ)
      → n ≤ (next / largeblock_size + 1) * largeblock_size
      → ¬ IsFree f next
      → NoneFree f next n
  passed_here n h taken x p q free = taken (subst (λ y. IsFree f y) (only x p q free.start) free)
    where
      only : (x : ℕ) → next ≤ x → x < n → x % largeblock_size ≡ 0 → x ≡ next
      only x p q e = omega arith

  pub Forward-block :
      ¬ IsFree f next → Forward f zone next (down_to largeblock_size (plus next largeblock_size))
  Forward-block taken = record {
    further = omega arith;
    in_zone = omega arith;
    stands = inl (omega arith);
    passed = passed_here _ (omega arith) taken;
  }

  pub Forward-layer :
      (entry1 f next).blocks_free ≡ 0
      → Forward f zone next (down_to layer2_size (plus next layer2_size))
  Forward-layer full = record {
    further = omega arith;
    in_zone = omega arith;
    stands = inl (omega arith);
    passed = λ x p q free.
        free.counted (ap (λ l. l.blocks_free) (entry1_below f x next (omega arith)) ∙ full);
  }

  pub Forward-rest :
      ¬ IsFree f next → Forward f zone next (plus next (largeblock_size - next % largeblock_size))
  Forward-rest taken = record {
    further = omega arith;
    in_zone = omega arith;
    stands = inl (omega arith);
    passed = passed_here _ (omega arith) taken;
  }

  step_lem :
      (append_off : ℕ)
      → next % largeblock_size < append_off
      → append_off ≤ largeblock_size
      → (plus next (append_off - next % largeblock_size) % largeblock_size ≡ 0)
        ⊎ (plus next (append_off - next % largeblock_size) / largeblock_size
            ≡ next / largeblock_size)
  step_lem append_off h k = elim (ℕ_discrete append_off largeblock_size) [
    | yes e ↦ inl (omega arith)
    | no n ↦ inr (omega arith)
  ]

  pub Forward-append :
      (append_off : ℕ)
      → next % largeblock_size < append_off
      → append_off ≤ largeblock_size
      → (entry1 f next).phys_offset ≢ unavail
      → ¬ IsFree f next
      → Forward f zone next (plus next (append_off - next % largeblock_size))
  Forward-append append_off h k available taken = record {
    further = omega arith;
    in_zone = omega arith;
    stands = Standing-step f next _ available (step_lem append_off h k);
    passed = passed_here _ (omega arith) taken;
  }

  -- A request that crosses a buffer does not start at the start of a big-block.
  module _ (bytes : ℕ) (some_bytes : 0 < bytes) where
    small_end :
        bytes ≤ bufsize
        → next / bufsize ≢ (next + bytes - 1) / bufsize
        → down_to bufsize (next + bytes - 1) % 0x10000000000000000 ≡ (next / bufsize + 1) * bufsize
    small_end k n = omega arith

    small_step :
        ((next / bufsize + 1) * bufsize % largeblock_size ≡ 0)
        ⊎ ((next / bufsize + 1) * bufsize / largeblock_size ≡ next / largeblock_size)
    small_step = elim (ℕ_discrete ((next / bufsize + 1) * bufsize % largeblock_size) 0) [
      | yes e ↦ inl e
      | no n ↦ inr (omega arith)
    ]

    small_passed :
        bytes ≤ bufsize
        → next / bufsize ≢ (next + bytes - 1) / bufsize
        → (x : ℕ) → next ≤ x
        → x < (next / bufsize + 1) * bufsize
        → x % largeblock_size ≢ 0
    small_passed k n x p q e = omega arith

    Forward-small :
        bytes ≤ bufsize
        → next / bufsize ≢ (next + bytes - 1) / bufsize
        → Standing f next
        → Forward f zone next (down_to bufsize (next + bytes - 1) % 0x10000000000000000)
    Forward-small k n stands = rw (small_end k n) (record {
      further = omega arith;
      in_zone = omega arith;
      stands = small_stands stands;
      passed = λ x p q free. small_passed k n x p q free.start;
    })
      where
        small_stands : Standing f next → Standing f ((next / bufsize + 1) * bufsize)
        small_stands (inr available) = Standing-step f next _ available small_step
        small_stands (inl e) = absurd (small_passed k n next (omega arith) (omega arith) e)

    Forward-large :
        bytes ≤ xbufsize
        → next / largeblock_size ≢ (next + bytes - 1) / largeblock_size
        → Forward f zone next (down_to largeblock_size (next + bytes - 1) % 0x10000000000000000)
    Forward-large k n = record {
      further = omega arith;
      in_zone = omega arith;
      stands = inl (omega arith);
      passed = λ x p q free. large_passed x p q free.start;
    }
      where
        large_passed :
            (x : ℕ)
            → next ≤ x
            → x < down_to largeblock_size (next + bytes - 1) % 0x10000000000000000
            → x % largeblock_size ≢ 0
        large_passed x p q e = omega arith

    pub Forward-unit :
        bytes ≤ xbufsize
        → next / unit_of bytes ≢ (next + bytes - 1) / unit_of bytes
        → Standing f next
        → Forward f zone next (down_to (unit_of bytes) (next + bytes - 1) % 0x10000000000000000)
    Forward-unit k n stands = elim (Bool-cases (leb bytes bufsize)) [
      | inl e ↦ rw e (Forward-small (ground arith) (rw e at n) stands)
      | inr e ↦ rw e (Forward-large k (rw e at n))
    ]
