-- ===== src/Blockmap/Reserve/Complete.antt =====
-- Giving up a reservation: `hammer_blockmap_reserve_complete` and `hammer_reserve_clrdelay`.
use hammer_linux.Base.{
  ap, ◌≢◌, List, [], ◌∷◌, ℕ, zero, suc, ◌+◌, ◌-◌, ◌<◌, ◌≡◌, ◌⊎◌, refl, sym, ◌∙◌, arith, true, false,
  Bool, Bool-cases, inl, inr, some, ◌==◌, ne_test, lt_test, ◌&&◌,
}
use hammer_linux.Base.Outcome.{Returns, Returns-map}
use hammer_linux.Disk.{zone_decode}
use hammer_linux.Blockmap.Reserve.{
  Reserve, Reservations, find, put, unlist, dispose, unref, hammer_blockmap_reserve_complete,
  hammer_reserve_clrdelay,
}
use hammer_linux.Blockmap.Reserve.Counts.{
  one_if, IsHeld, AreCounted, delayed-put, length-put, All-put, find-put, delayed-take_off,
  length-take_off, All-take_off, All-find,
}

-- What a holder may give up: it holds the reservation, which is there.
pub record IsHolder (h : Reservations) (resv : Reserve) : Type 0 where
  pub there : find resv.zone_offset h.rb_resv_root ≡ some resv
  -- The delay list is a holder of its own.
  pub other : resv.on_delay ≡ true → 1 < resv.refs

is_zero : (a : ℕ) → (a ≡ 0) ⊎ (0 < a)
is_zero zero = inl refl
is_zero (suc a) = inr (omega arith)

unref-AreCounted :
    (h : Reservations) (old resv : Reserve)
    → AreCounted h
    → find resv.zone_offset h.rb_resv_root ≡ some old
    → resv.on_delay ≡ old.on_delay
    → zone_decode resv.zone_offset ≡ 2
    → (resv.refs ≡ 0 → resv.on_delay ≡ false)
    → Returns (unref h resv) (λ g. AreCounted g × (g.delay_list ≡ h.delay_list))
unfolding unref
unref-AreCounted h old resv ok there same zone off = elim (is_zero resv.refs) [
  | inl z ↦
      rw (z, off z)
        (
          (record {
            held = All-take_off resv.zone_offset IsHeld h.rb_resv_root ok.held;
            reservations =
                omega (
                  arith,
                  ok.reservations,
                  length-take_off resv.zone_offset h.rb_resv_root old there,
                );
            from_delay =
                delayed-taken (old.on_delay) (sym same ∙ off z)
                  (delayed-take_off resv.zone_offset h.rb_resv_root old there)
                ∙ ok.from_delay;
          }),
          refl,
        )
  | inr p ↦ rw (ne_test resv.refs 0 (λ e. omega arith)) (
    (record {
      held = All-put resv IsHeld h.rb_resv_root (p, zone) ok.held;
      reservations = length-put resv h.rb_resv_root ∙ ok.reservations;
      from_delay = same_delay (delayed-put resv h.rb_resv_root old there) ∙ ok.from_delay;
    }),
    refl,
  )
]
  where
    delayed-taken : (b : Bool) → b ≡ false → {x y : ℕ} → x + one_if b ≡ y → x ≡ y
    delayed-taken b e k = ground arith

    same_delay : {x y : ℕ} → x + one_if old.on_delay ≡ y + one_if resv.on_delay → x ≡ y
    same_delay k = ground (arith, same)

dispose_keeps :
    (h : Reservations) (resv : Reserve)
    → ((dispose h resv).0.rb_resv_root ≡ h.rb_resv_root)
      × ((dispose h resv).0.count_reservations ≡ h.count_reservations)
      × ((dispose h resv).0.rsv_fromdelay ≡ h.rsv_fromdelay)
      × ((dispose h resv).1.zone_offset ≡ resv.zone_offset)
      × ((dispose h resv).1.on_delay ≡ resv.on_delay)
      × ((dispose h resv).0.delay_list ≡ h.delay_list)
unfolding dispose
dispose_keeps h resv = elim (Bool-cases (resv.refs == 1 && resv.layer2free)) [
  | inl e ↦ rw e (refl, refl, refl, refl, refl, refl)
  | inr e ↦ rw e (refl, refl, refl, refl, refl, refl)
]

pub hammer_blockmap_reserve_complete-AreCounted :
    (h : Reservations) (resv : Reserve)
    → AreCounted h
    → IsHolder h resv
    → Returns
        (hammer_blockmap_reserve_complete h resv)
        (λ g. AreCounted g × (g.delay_list ≡ h.delay_list))
unfolding hammer_blockmap_reserve_complete
hammer_blockmap_reserve_complete-AreCounted h resv ok holder =
    let (found, at) = All-find resv.zone_offset IsHeld h.rb_resv_root resv ok.held holder.there in
    let (root, count, from, offset, on, same_list) = dispose_keeps h resv in
    rw (lt_test found.0, found.1)
      (Returns-map {Q = λ g. AreCounted g × (g.delay_list ≡ h.delay_list)} _
        (λ g k. (k.0, k.1 ∙ same_list))
        (unref-AreCounted (dispose h resv).0 resv
          (record (dispose h resv).1 { refs = resv.refs - 1 })
          (record {
            held = rw root ok.held;
            reservations = rw (root, count) ok.reservations;
            from_delay = rw (root, from) ok.from_delay;
          })
          (rw (offset, root) holder.there) on (rw offset found.1) (λ z. off z)))
  where
    off : resv.refs - 1 ≡ 0 → (dispose h resv).1.on_delay ≡ false
    off z = elim (Bool-cases resv.on_delay) [
      | inl t ↦ absurd (omega (arith, holder.other t))
      | inr f ↦ (dispose_keeps h resv).4 ∙ f
    ]

-- How often an offset stands on a list.
abbrev pub occurs : ℕ → List ℕ → ℕ
occurs o [] = 0
occurs o (x ∷ xs) = one_if (x == o) + occurs o xs

occurs-unlist :
    (off o : ℕ) (l : List ℕ)
    → occurs off l ≢ 0
    → occurs o (unlist off l) + one_if (off == o) ≡ occurs o l
unfolding unlist
occurs-unlist off o [] h = absurd (h refl)
occurs-unlist off o (x ∷ xs) h = ground (arith, occurs-unlist off o xs)

-- The delay list gives up a reservation that stands on it: no assertion fails, the counters go on
-- agreeing with the reservations, and the delay list has lost one entry, that of the reservation.
pub hammer_reserve_clrdelay-AreCounted :
    (h : Reservations) (resv : Reserve)
    → AreCounted h
    → find resv.zone_offset h.rb_resv_root ≡ some resv
    → resv.on_delay ≡ true
    → occurs resv.zone_offset h.delay_list ≢ 0
    → Returns (hammer_reserve_clrdelay h resv) (λ g.
      AreCounted g
      × ((o : ℕ) → occurs o g.delay_list + one_if (resv.zone_offset == o) ≡ occurs o h.delay_list))
unfolding hammer_reserve_clrdelay
hammer_reserve_clrdelay-AreCounted h resv ok there on listed =
    let resv' : Reserve = record resv { on_delay = false } in
    let (held, at) = All-find resv.zone_offset IsHeld h.rb_resv_root resv ok.held there in
    let count = delayed-put resv' h.rb_resv_root resv there in
    rw on (
      Returns-map
        {Q = λ g.
          AreCounted g
          × ((o : ℕ)
              → occurs o g.delay_list + one_if (resv.zone_offset == o) ≡ occurs o h.delay_list)}
        _
        (λ g k. (
          k.0,
          λ o.
              ap (λ l. occurs o l + one_if (resv.zone_offset == o)) k.1
              ∙ occurs-unlist resv.zone_offset o h.delay_list listed,
        ))
        (hammer_blockmap_reserve_complete-AreCounted
          (record h {
            rb_resv_root = put resv' h.rb_resv_root;
            delay_list = unlist resv.zone_offset h.delay_list;
            rsv_fromdelay = h.rsv_fromdelay - 1;
          })
          resv'
          (record {
            held = All-put resv' IsHeld h.rb_resv_root held ok.held;
            reservations = length-put resv' h.rb_resv_root ∙ ok.reservations;
            from_delay = omega (arith, rw on at count, ok.from_delay);
          })
          (record { there = find-put resv' h.rb_resv_root resv there; other = λ e. cc })))
