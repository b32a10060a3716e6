-- ===== src/Blockmap/Reserve/Delay.antt =====
-- Holding a free big-block back: `hammer_reserve_setdelay`.
use hammer_linux.Base.{
  ℕ, ◌+◌, ◌≡◌, refl, sym, ◌∙◌, arith, true, Bool-cases, Option-cases, inl, inr, none, some, ◌∷◌,
  same_test,
}
use mathlib.Core.Path.{subst}
use hammer_linux.Disk.{zone_decode}
use hammer_linux.Blockmap.Reserve.{
  Reserve, Reservations, find, put, new_reserve, enter_delay, found_or_new, hammer_reserve_setdelay,
}
use hammer_linux.Blockmap.Reserve.Counts.{
  delayed, IsHeld, AreCounted, delayed-put, length-put, All-put, find-put, All-find,
}

-- What `hammer_reserve_setdelay` leaves: a reservation of the big-block, on delay.
pub record IsDelayed (h : Reservations) (base_offset : ℕ) (after : Reservations) : Type 0 where
  pub counted : AreCounted after
  pub resv : Reserve
  pub there : find base_offset after.rb_resv_root ≡ some resv
  pub on : resv.on_delay ≡ true
  pub group : resv.flush_group ≡ h.flusher_next + 1

enter_delay-IsDelayed :
    (h : Reservations) (resv : Reserve)
    → AreCounted h
    → find resv.zone_offset h.rb_resv_root ≡ some resv
    → IsDelayed h resv.zone_offset (enter_delay h resv)
unfolding enter_delay
enter_delay-IsDelayed h resv ok there = elim (Bool-cases resv.on_delay) [
  | inl t ↦
      (let resv' : Reserve = record resv { on_delay = true; flush_group = h.flusher_next + 1 } in
        rw t (record {
          counted = record {
            held = All-put resv' IsHeld h.rb_resv_root held ok.held;
            reservations = length-put resv' h.rb_resv_root ∙ ok.reservations;
            from_delay =
                omega (arith, rw t at (delayed-put resv' h.rb_resv_root resv there), ok.from_delay);
          };
          resv = resv';
          there = find-put resv' h.rb_resv_root resv there;
          on = refl;
          group = refl;
        }))
  | inr f ↦
      (let resv' : Reserve = record resv {
        refs = resv.refs + 1;
        on_delay = true;
        flush_group = h.flusher_next + 1;
      } in
        rw f (record {
          counted = record {
            held = All-put resv' IsHeld h.rb_resv_root (omega arith, held.1) ok.held;
            reservations = length-put resv' h.rb_resv_root ∙ ok.reservations;
            from_delay =
                omega (arith, rw f at (delayed-put resv' h.rb_resv_root resv there), ok.from_delay);
          };
          resv = resv';
          there = find-put resv' h.rb_resv_root resv there;
          on = refl;
          group = refl;
        }))
]
  where
    held : IsHeld resv
    held = (All-find resv.zone_offset IsHeld h.rb_resv_root resv ok.held there).0

found_or_new-some :
    (h : Reservations) (base_offset bytes_free : ℕ) (resv : Reserve)
    → find base_offset h.rb_resv_root ≡ some resv
    → found_or_new h base_offset bytes_free ≡ (h, resv)
unfolding found_or_new
found_or_new-some h base_offset bytes_free resv e = rw (e, found_or_new) refl

found_or_new-none :
    (h : Reservations) (base_offset bytes_free : ℕ)
    → find base_offset h.rb_resv_root ≡ none
    → found_or_new h base_offset bytes_free ≡ (
      record h {
        rb_resv_root = new_reserve base_offset bytes_free ∷ h.rb_resv_root;
        count_reservations = h.count_reservations + 1;
      },
      new_reserve base_offset bytes_free,
    )
unfolding found_or_new
found_or_new-none h base_offset bytes_free e = rw (e, found_or_new) refl

-- After a free, the big-block has a reservation, on delay until the flush group after the next, and
-- the counters agree with the reservations.
pub hammer_reserve_setdelay-IsDelayed :
    (h : Reservations) (base_offset bytes_free : ℕ)
    → AreCounted h
    → zone_decode base_offset ≡ 2
    → IsDelayed h base_offset (hammer_reserve_setdelay h base_offset bytes_free)
unfolding hammer_reserve_setdelay enter_delay put find delayed
hammer_reserve_setdelay-IsDelayed h base_offset bytes_free ok zone =
    elim (Option-cases (find base_offset h.rb_resv_root)) [
      | inl e ↦
          rw (found_or_new-none h base_offset bytes_free e, same_test base_offset)
            (record {
              counted = record {
                held = ((omega arith, zone), ok.held);
                reservations = omega (arith, ok.reservations);
                from_delay = omega (arith, ok.from_delay);
              };
              resv = record (new_reserve base_offset bytes_free) {
                flush_group = h.flusher_next + 1;
                on_delay = true;
                refs = 1;
              };
              there = rw (same_test base_offset) refl;
              on = refl;
              group = refl;
            })
      | inr (resv, e) ↦
          (let (held, at) = All-find base_offset IsHeld h.rb_resv_root resv ok.held e in
            rw (found_or_new-some h base_offset bytes_free resv e) (
              subst (λ o. IsDelayed h o (enter_delay h resv)) at
                (enter_delay-IsDelayed h resv ok (rw (sym at) at e))))
    ]
