-- ===== src/Btree/Separator/Cases.antt =====
-- The separator in each of its cases, and its fields as numbers half way between.
use hammer_linux.Base.{ℕ, ◌+◌, ◌-◌, ◌/◌, ◌≤◌, ◌<◌, ◌≡◌, ◌≢◌, arith}
use hammer_linux.Btree.Elm.{BaseElm, signed, zero_base}
use hammer_linux.Btree.Separator.{half_u32, half_s64, half_u16, hammer_make_separator}

-- The differences that the code halves do not leave their types.
pub record Fits (key1 key2 : BaseElm) : Type 0 where
  pub localization_fits : key2.localization < key1.localization + 0xffffffff
  pub obj_id_fits : signed key2.obj_id < signed key1.obj_id + 0x7fffffffffffffff
  pub key_fits : signed key2.key < signed key1.key + 0x7fffffffffffffff

abbrev pub mid : ℕ → ℕ → ℕ
mid a b = a + (b - a + 1) / 2

pub half_s64_lem :
    (f1 f2 : ℕ)
    → f1 < 0x10000000000000000
    → f2 < 0x10000000000000000
    → signed f1 ≤ signed f2
    → signed f2 < signed f1 + 0x7fffffffffffffff
    → signed (half_s64 f1 f2) ≡ mid (signed f1) (signed f2)
unfolding half_s64
half_s64_lem f1 f2 p q h k = ground arith

pub half_u32_lem :
    (f1 f2 : ℕ)
    → f1 < 0x100000000
    → f2 < 0x100000000
    → f1 ≤ f2
    → f2 < f1 + 0xffffffff
    → half_u32 f1 f2 ≡ mid f1 f2
unfolding half_u32
half_u32_lem f1 f2 p q h k = omega arith

pub half_u16_lem : (f1 f2 : ℕ) → f1 < 0x10000 → f2 < 0x10000 → f1 ≤ f2 → half_u16 f1 f2 ≡ mid f1 f2
unfolding half_u16
half_u16_lem f1 f2 p q h = ground arith

pub signed_injective :
    (x y : ℕ) → x < 0x10000000000000000 → y < 0x10000000000000000 → signed x ≡ signed y → x ≡ y
signed_injective x y p q h = omega arith

-- The separator in each of its four cases: the first field in which the keys differ.
module _ (key1 key2 : BaseElm) where
  abbrev dest : (l o r k : ℕ) → BaseElm
  dest l o r k = record zero_base {
    localization = l;
    obj_id = o;
    rec_type = r;
    key = k;
    create_tid = key2.create_tid;
  }

  pub at_localization :
      key1.localization ≢ key2.localization
      → hammer_make_separator key1 key2
        ≡ dest (half_u32 key1.localization key2.localization) key2.obj_id key2.rec_type key2.key
  unfolding hammer_make_separator
  at_localization h = ground arith

  pub at_obj_id :
      key1.localization ≡ key2.localization
      → key1.obj_id ≢ key2.obj_id
      → hammer_make_separator key1 key2
        ≡ dest
            (half_u32 key1.localization key2.localization)
            (half_s64 key1.obj_id key2.obj_id)
            key2.rec_type
            key2.key
  unfolding hammer_make_separator
  at_obj_id e h = ground arith

  pub at_rec_type :
      key1.localization ≡ key2.localization
      → key1.obj_id ≡ key2.obj_id
      → key1.rec_type ≢ key2.rec_type
      → hammer_make_separator key1 key2
        ≡ dest
            (half_u32 key1.localization key2.localization)
            (half_s64 key1.obj_id key2.obj_id)
            (half_u16 key1.rec_type key2.rec_type)
            key2.key
  unfolding hammer_make_separator
  at_rec_type e f h = ground arith

  pub at_key :
      key1.localization ≡ key2.localization
      → key1.obj_id ≡ key2.obj_id
      → key1.rec_type ≡ key2.rec_type
      → hammer_make_separator key1 key2
        ≡ dest
            (half_u32 key1.localization key2.localization)
            (half_s64 key1.obj_id key2.obj_id)
            (half_u16 key1.rec_type key2.rec_type)
            (half_s64 key1.key key2.key)
  unfolding hammer_make_separator
  at_key e f g = ground arith
