-- ===== src/Transaction/Fresh.antt =====
-- The ids that `hammer_alloc_tid` gives.
use hammer_linux.Base.{
  ℕ, ◌+◌, ◌*◌, ◌/◌, ◌%◌, ◌<◌, ◌≤◌, ◌≡◌, refl, ◌∙◌, arith, bit_or, bit_or_fields, false, Option,
  none, some, leb, Bool, true, if◌then◌else◌,
}
use hammer_linux.Base.Outcome.{Returns, done, panic}
use mathlib.Core.Path.{subst}
use hammer_linux.Transaction.{Tids, max_masters, last_tid, word, hammer_alloc_tid}

-- From one id to the next one of the same allocation.
abbrev pub stride : Option ℕ → ℕ
stride none = 1
stride (some id) = max_masters

abbrev pub IsMaster : Option ℕ → Type 0
IsMaster none = Unit
IsMaster (some id) = id < max_masters

-- Ids carry the number of their master.
abbrev pub IsOf : Option ℕ → ℕ → Type 0
IsOf none tid = Unit
IsOf (some id) tid = tid % max_masters ≡ id

-- The `count` ids from the one that is returned on are above `next_tid`, not above the new
-- `next_tid`, and of the master.
pub record IsFresh (m : Tids) (count : ℕ) (r : Tids × ℕ) : Type 0 where
  pub master : r.0.master_id ≡ m.master_id
  pub above : m.next_tid < r.1
  pub marked : (i : ℕ) → i < count → r.1 + i * stride m.master_id ≤ r.0.next_tid
  pub own : (i : ℕ) → IsOf m.master_id (r.1 + i * stride m.master_id)

-- The ids from `tid` on are above the mark `next`, and below the new one, which does not pass the
-- last id by more than one allocation.
pub record Above (next count tid : ℕ) (o : Option ℕ) (m : Tids) : Type 0 where
  pub same_master : m.master_id ≡ o
  pub after : next < tid
  pub before : tid + count * stride o ≤ m.next_tid + stride o
  pub limit : m.next_tid < 0xffffffffff200000

master_tid :
    (next id : ℕ)
    → id < max_masters
    → next < 0xfffffffffff00000
    → bit_or (word (next + max_masters) / max_masters * max_masters) id
      ≡ (next + max_masters) / max_masters * max_masters + id
master_tid next id h k =
    bit_or_fields 4 (word (next + max_masters) / max_masters) id h ∙ omega arith

early : (n : ℕ) → n < last_tid → leb last_tid n ≡ false
early n h = ground arith

not_panic :
    {A : Type 0} (b : Bool) (a r : A)
    → (if b then panic else done a) ≡ done r
    → (b ≡ false) × (a ≡ r)
not_panic true a r e = absurd (ne e)
  where
    ne : ¬ (panic ≡ done r)
    ne k = cc
not_panic false a r e = (refl, same e)
  where
    same : done a ≡ done r → a ≡ r
    same k = cc

below_last : (n : ℕ) → leb last_tid n ≡ false → n < last_tid
below_last n h = ground arith

pub ids_of-Above :
    (next count tid : ℕ) (o : Option ℕ) (m : Tids)
    → IsMaster o
    → next < 0xffffffffff200000
    → 0 < count
    → count ≤ 100000
    → hammer_alloc_tid (record { next_tid = next; master_id = o }) count ≡ done (m, tid)
    → Above next count tid o m
unfolding hammer_alloc_tid
ids_of-Above next count tid none m master small some_ids few e =
    let (ok, same) = not_panic _ _ _ e in
    let low = below_last _ ok in
    subst (λ r. Above next count r.1 none r.0) same
      (record {
        same_master = refl;
        after = omega arith;
        before = omega arith;
        limit = omega arith;
      })
ids_of-Above next count tid (some id) m master small some_ids few e =
    let (ok, same) = not_panic _ _ _ (rw (master_tid next id master (omega arith)) at e) in
    let low = below_last _ ok in
    subst (λ r. Above next count r.1 (some id) r.0) same
      (record {
        same_master = refl;
        after = omega arith;
        before = omega arith;
        limit = omega arith;
      })

fresh :
    (next count : ℕ) (o : Option ℕ)
    → IsMaster o
    → next < 0xfffffffffe000000
    → count ≤ 100000
    → Returns
        (hammer_alloc_tid (record { next_tid = next; master_id = o }) count)
        (IsFresh (record { next_tid = next; master_id = o }) count)
unfolding hammer_alloc_tid
fresh next count none master small few =
    rw (early (word (next + 1)) (omega arith))
      (record { master = refl; above = omega arith; marked = λ i h. omega arith; own = λ i. tt })
fresh next count (some id) master small few =
    rw
      (
        master_tid next id master (omega arith),
        early ((next + max_masters) / max_masters * max_masters + id) (omega arith),
      )
      (record {
        master = refl;
        above = omega arith;
        marked = λ i h. omega arith;
        own = λ i. omega arith;
      })

-- While ids are far from running out, an allocation of at most 100000 ids returns, and its ids are
-- fresh: above the mark that earlier allocations left, and not above the mark that it leaves, at which the next one starts;
-- on a master, each has the number of the master in its low bits.
pub hammer_alloc_tid-IsFresh :
    (m : Tids) (count : ℕ)
    → IsMaster m.master_id
    → m.next_tid < 0xfffffffffe000000
    → count ≤ 100000
    → Returns (hammer_alloc_tid m count) (IsFresh m count)
hammer_alloc_tid-IsFresh m count master small few =
    fresh m.next_tid count m.master_id master small few
