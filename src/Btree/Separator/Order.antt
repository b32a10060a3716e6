-- ===== src/Btree/Separator/Order.antt =====
-- A separator in the order of keys.
use hammer_linux.Base.{ℕ, ◌≤◌, ◌<◌, ◌≡◌, ◌≢◌, arith, ap}
use native.Mathlib.Decide.{ℕ_discrete}
use hammer_linux.Base.Int.{pos, ◌≤ℤ◌, ◌<ℤ◌}
use hammer_linux.Btree.Elm.{BaseElm, IsBase, signed}
use hammer_linux.Btree.Cmp.{hammer_btree_cmp, rank, tid_rank, cmp-lt_rank, cmp-le_rank}
use hammer_linux.Btree.Separator.Fields.{
  Between, Words, by_localization, by_obj_id, by_rec_type, by_key, by_create_tid,
  ordered_localization, ordered_obj_id, ordered_rec_type, ordered_key,
}
use hammer_linux.Btree.Separator.{half_u32, half_s64, half_u16, hammer_make_separator}
use hammer_linux.Btree.Separator.Cases.{
  at_localization, at_obj_id, at_rec_type, at_key, Fits, mid, half_s64_lem, half_u32_lem,
  half_u16_lem, signed_injective,
}

mid_between : (a b : ℕ) → a < b → (a < mid a b) × (mid a b ≤ b)
mid_between a b h = omega arith

mid_same : (a b : ℕ) → a ≡ b → mid a b ≡ b
mid_same a b h = omega arith

lt_of_le_ne : {a b : ℕ} → a ≤ b → a ≢ b → a < b
lt_of_le_ne h n = omega arith

tid_rank_le : (t : ℕ) → t < 0x10000000000000000 → tid_rank t ≤ 0x10000000000000000
tid_rank_le t h = ground arith

signed_lt : (x : ℕ) → signed x < 0x10000000000000000
signed_lt x = omega arith

base_words :
    (b : BaseElm)
    → IsBase b
    → Words (signed b.obj_id) b.rec_type (signed b.key) (tid_rank b.create_tid)
base_words b p = record {
  o_word = signed_lt _;
  r_word = p.rec_word;
  k_word = signed_lt _;
  t_word = tid_rank_le _ p.create_word;
}

module _ (key1 key2 : BaseElm) (p : IsBase key1) (q : IsBase key2) (f : Fits key1 key2) where
  abbrev w1 : Words (signed key1.obj_id) key1.rec_type (signed key1.key) (tid_rank key1.create_tid)
  w1 = base_words key1 p

  abbrev w2 : Words (signed key2.obj_id) key2.rec_type (signed key2.key) (tid_rank key2.create_tid)
  w2 = base_words key2 q

  -- Half way between two localizations or record types, and between two signed fields.
  u32-Between :
      key1.localization < key2.localization
      → Between key1.localization (half_u32 key1.localization key2.localization) key2.localization
  u32-Between h = omega (
    arith,
    half_u32_lem key1.localization key2.localization p.localization_word q.localization_word
        (omega arith) f.localization_fits,
  )

  u32_same :
      key1.localization ≡ key2.localization
      → half_u32 key1.localization key2.localization ≡ key2.localization
  u32_same e = omega (
    arith,
    half_u32_lem key1.localization key2.localization p.localization_word q.localization_word
        (omega arith) f.localization_fits,
  )

  obj_id-Between :
      signed key1.obj_id < signed key2.obj_id
      → Between
          (signed key1.obj_id)
          (signed (half_s64 key1.obj_id key2.obj_id))
          (signed key2.obj_id)
  obj_id-Between h = omega (
    arith,
    half_s64_lem key1.obj_id key2.obj_id p.obj_id_word q.obj_id_word (omega arith) f.obj_id_fits,
  )

  obj_id_same :
      key1.obj_id ≡ key2.obj_id → signed (half_s64 key1.obj_id key2.obj_id) ≡ signed key2.obj_id
  obj_id_same e = omega (
    arith,
    half_s64_lem key1.obj_id key2.obj_id p.obj_id_word q.obj_id_word (omega arith) f.obj_id_fits,
  )

  sep_localization :
      rank key1 < rank key2
      → key1.localization ≢ key2.localization
      → Between (rank key1) (rank (hammer_make_separator key1 key2)) (rank key2)
  sep_localization h n = rw (at_localization key1 key2 n) (
      let b = u32-Between (lt_of_le_ne (ordered_localization w1 w2 _ _ h) n) in
      by_localization w1 w2 _ _ _ b.0 b.1)

  rec_type-Between :
      key1.rec_type < key2.rec_type
      → Between key1.rec_type (half_u16 key1.rec_type key2.rec_type) key2.rec_type
  rec_type-Between h =
      omega (arith, half_u16_lem key1.rec_type key2.rec_type p.rec_word q.rec_word (omega arith))

  rec_type_same :
      key1.rec_type ≡ key2.rec_type → half_u16 key1.rec_type key2.rec_type ≡ key2.rec_type
  rec_type_same e =
      omega (arith, half_u16_lem key1.rec_type key2.rec_type p.rec_word q.rec_word (omega arith))

  key-Between :
      signed key1.key < signed key2.key
      → Between (signed key1.key) (signed (half_s64 key1.key key2.key)) (signed key2.key)
  key-Between h =
      omega (arith, half_s64_lem key1.key key2.key p.key_word q.key_word (omega arith) f.key_fits)

  key_same : key1.key ≡ key2.key → signed (half_s64 key1.key key2.key) ≡ signed key2.key
  key_same e =
      omega (arith, half_s64_lem key1.key key2.key p.key_word q.key_word (omega arith) f.key_fits)

  abbrev Separates : Type 0
  Separates = Between (rank key1) (rank (hammer_make_separator key1 key2)) (rank key2)

  sep_obj_id :
      rank key1 < rank key2
      → key1.localization ≡ key2.localization
      → key1.obj_id ≢ key2.obj_id
      → Separates
  sep_obj_id h e n = rw (at_obj_id key1 key2 e n) (
      let b = obj_id-Between (
        lt_of_le_ne (ordered_obj_id w1 w2 _ _ e h)
          (λ s. n (signed_injective _ _ p.obj_id_word q.obj_id_word s))) in
      by_obj_id w1 w2 _ _ _ _ e (u32_same e) b.0 b.1)

  sep_rec_type :
      rank key1 < rank key2
      → key1.localization ≡ key2.localization
      → key1.obj_id ≡ key2.obj_id
      → key1.rec_type ≢ key2.rec_type
      → Separates
  sep_rec_type h e e' n = rw (at_rec_type key1 key2 e e' n) (
      let b = rec_type-Between (lt_of_le_ne (ordered_rec_type w1 w2 _ _ e (ap signed e') h) n) in
      by_rec_type w1 w2 _ _ _ _ _ e (u32_same e) (ap signed e') (obj_id_same e') b.0 b.1)

  sep_key :
      rank key1 < rank key2
      → key1.localization ≡ key2.localization
      → key1.obj_id ≡ key2.obj_id
      → key1.rec_type ≡ key2.rec_type
      → Separates
  sep_key h e e' e'' = rw (at_key key1 key2 e e' e'') (elim (ℕ_discrete key1.key key2.key) [
    | yes same ↦
        by_create_tid w1 w2 _ _ _ _ _ _ h (u32_same e) (obj_id_same e') (rec_type_same e'')
          (key_same same)
    | no n ↦
        (let b = key-Between (
            lt_of_le_ne (ordered_key w1 w2 _ _ e (ap signed e') e'' h)
              (λ s. n (signed_injective _ _ p.key_word q.key_word s))) in
          by_key w1 w2 _ _ _ _ _ _ e (u32_same e) (ap signed e') (obj_id_same e') e''
            (rec_type_same e'') b.0 b.1)
  ])

  pub sep_rank : rank key1 < rank key2 → Separates
  sep_rank h = elim (ℕ_discrete key1.localization key2.localization) [
    | no n ↦ sep_localization h n
    | yes e ↦ elim (ℕ_discrete key1.obj_id key2.obj_id) [
      | no n ↦ sep_obj_id h e n
      | yes e' ↦ elim (ℕ_discrete key1.rec_type key2.rec_type) [
        | no n ↦ sep_rec_type h e e' n
        | yes e'' ↦ sep_key h e e' e''
      ]
    ]
  ]

-- A separator is in the ranges of its types.
half_s64_lt : (a b : ℕ) → half_s64 a b < 0x10000000000000000
unfolding half_s64
half_s64_lt a b = omega arith

half_u32_lt : (a b : ℕ) → half_u32 a b < 0x100000000
unfolding half_u32
half_u32_lt a b = omega arith

half_u16_lt : (a b : ℕ) → a < 0x10000 → half_u16 a b < 0x10000
unfolding half_u16
half_u16_lt a b h = ground arith

pub hammer_make_separator-IsBase :
    (key1 key2 : BaseElm) → IsBase key1 → IsBase key2 → IsBase (hammer_make_separator key1 key2)
unfolding hammer_make_separator
hammer_make_separator-IsBase key1 key2 p q = ground (
  arith,
  half_s64_lt key1.obj_id key2.obj_id,
  half_s64_lt key1.key key2.key,
  half_u32_lt key1.localization key2.localization,
  half_u16_lt key1.rec_type key2.rec_type p.rec_word,
)

-- Of two keys in order, whose differences stay within their types, the separator compares above
-- the left one, and not above the right one.
pub hammer_make_separator_order :
    (key1 key2 : BaseElm)
    → IsBase key1
    → IsBase key2
    → Fits key1 key2
    → hammer_btree_cmp key1 key2 <ℤ pos 0
    → (hammer_btree_cmp key1 (hammer_make_separator key1 key2) <ℤ pos 0)
      × (hammer_btree_cmp (hammer_make_separator key1 key2) key2 ≤ℤ pos 0)
hammer_make_separator_order key1 key2 p q f h =
    let s = hammer_make_separator-IsBase key1 key2 p q in
    let b = sep_rank key1 key2 p q f ((cmp-lt_rank key1 key2 p q).0 h) in
    ((cmp-lt_rank key1 _ p s).1 b.0, (cmp-le_rank _ key2 s q).1 b.1)
