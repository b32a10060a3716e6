-- ===== src/Blockmap/Reserve/Counts.antt =====
-- The counters of reservations against the reservations that there are.
use hammer_linux.Base.{
  ℕ, suc, ◌+◌, ◌<◌, ◌≡◌, refl, arith, Bool, Bool-cases, inl, inr, some, List, [], ◌∷◌,
  if◌then◌else◌, ◌==◌, length,
}
use mathlib.Core.Path.{subst}
use hammer_linux.Disk.{zone_decode}
use hammer_linux.Blockmap.Reserve.{Reserve, Reservations, find, put, take_off}

abbrev pub one_if : Bool → ℕ
one_if b = if b then 1 else 0

-- How many reservations are on delay.
unfoldable pub delayed : List Reserve → ℕ
delayed [] = 0
delayed (r ∷ rs) = one_if r.on_delay + delayed rs

abbrev pub All : (Reserve → Type 0) → List Reserve → Type 0
All P [] = Unit
All P (r ∷ rs) = P r × All P rs

-- A reservation that is kept has a holder, and covers raw buffers.
abbrev pub IsHeld : Reserve → Type 0
IsHeld r = (0 < r.refs) × (zone_decode r.zone_offset ≡ 2)

pub record AreCounted (h : Reservations) : Type 0 where
  pub held : All IsHeld h.rb_resv_root
  pub reservations : length h.rb_resv_root ≡ h.count_reservations
  pub from_delay : delayed h.rb_resv_root ≡ h.rsv_fromdelay

module _ (r : Reserve) where
  pub delayed-put :
      (rs : List Reserve) (old : Reserve)
      → find r.zone_offset rs ≡ some old
      → delayed (put r rs) + one_if old.on_delay ≡ delayed rs + one_if r.on_delay
  unfolding delayed put find
  delayed-put [] old e = cc
  delayed-put (s ∷ rs) old e = ground (arith, delayed-put rs old)

  pub length-put : (rs : List Reserve) → length (put r rs) ≡ length rs
  unfolding put
  length-put [] = refl
  length-put (s ∷ rs) = ground (arith, length-put rs)

  pub All-put : (P : Reserve → Type 0) (rs : List Reserve) → P r → All P rs → All P (put r rs)
  unfolding put
  All-put P [] p h = h
  All-put P (s ∷ rs) p h = elim (Bool-cases (s.zone_offset == r.zone_offset)) [
    | inl e ↦ rw e (p, h.1)
    | inr e ↦ rw e (h.0, All-put P rs p h.1)
  ]

  pub find-put :
      (rs : List Reserve) (old : Reserve)
      → find r.zone_offset rs ≡ some old
      → find r.zone_offset (put r rs) ≡ some r
  unfolding put find
  find-put [] old e = cc
  find-put (s ∷ rs) old e = ground (arith, find-put rs old)

module _ (off : ℕ) where
  pub delayed-take_off :
      (rs : List Reserve) (old : Reserve)
      → find off rs ≡ some old
      → delayed (take_off off rs) + one_if old.on_delay ≡ delayed rs
  unfolding delayed take_off find
  delayed-take_off [] old e = cc
  delayed-take_off (s ∷ rs) old e = ground (arith, delayed-take_off rs old)

  pub length-take_off :
      (rs : List Reserve) (old : Reserve)
      → find off rs ≡ some old
      → suc (length (take_off off rs)) ≡ length rs
  unfolding take_off find
  length-take_off [] old e = cc
  length-take_off (s ∷ rs) old e = ground (arith, length-take_off rs old)

  pub All-take_off : (P : Reserve → Type 0) (rs : List Reserve) → All P rs → All P (take_off off rs)
  unfolding take_off
  All-take_off P [] h = h
  All-take_off P (s ∷ rs) h = elim (Bool-cases (s.zone_offset == off)) [
    | inl e ↦ rw e h.1
    | inr e ↦ rw e (h.0, All-take_off P rs h.1)
  ]

  pub All-find :
      (P : Reserve → Type 0) (rs : List Reserve) (r : Reserve)
      → All P rs
      → find off rs ≡ some r
      → P r × (r.zone_offset ≡ off)
  unfolding find
  All-find P [] r h e = cc
  All-find P (s ∷ rs) r h e = elim (Bool-cases (s.zone_offset == off)) [
    | inl t ↦ subst (λ x. P x × (x.zone_offset ≡ off)) (only s r (rw t at e)) (h.0, ground arith)
    | inr t ↦ All-find P rs r h.1 (rw t at e)
  ]
    where
      only : (a b : Reserve) → some a ≡ some b → a ≡ b
      only a b k = cc

  pub find-zone_offset :
      (rs : List Reserve) (r : Reserve) → find off rs ≡ some r → r.zone_offset ≡ off
  find-zone_offset rs r e = (All-find (λ _. Unit {0}) rs r (every rs) e).1
    where
      every : (rs : List Reserve) → All (λ _. Unit {0}) rs
      every [] = tt
      every (s ∷ rs) = (tt, every rs)
