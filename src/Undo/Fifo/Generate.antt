-- ===== src/Undo/Fifo/Generate.antt =====
-- Where `hammer_generate_undo` lays down a record.
use hammer_linux.Base.{
  ℕ, suc, ◌+◌, ◌-◌, ◌*◌, ◌/◌, ◌%◌, ◌≤◌, ◌<◌, ◌≡◌, ◌≢◌, ◌⊎◌, refl, ◌∙◌, arith, true, false,
  Bool-cases, inl, inr, List, [], ◌∷◌, ◌++◌, append_assoc, ap, ne_test, ◌==◌,
}
use mathlib.Core.Path.{subst}
use native.Mathlib.Decide.{ℕ_discrete}
use hammer_linux.Undo.History.{hammer_enter_undo_history, e_already}
use hammer_linux.Base.Outcome.{done}
use hammer_linux.Undo.Fifo.{
  UndoMap, UndoLog, zone_undo, bufsize, LogRecord, pad, undo, Generated, returned, undo_bytes,
  crosses, wrap, has_space, emit, hammer_generate_undo,
}
use hammer_linux.Undo.Fifo.Space.{
  IsUndoMap, used, capacity, has_space_lem, wrap-IsUndoMap, wrap-used,
}

-- Where the FIFO stands, and the bytes to the end of that buffer.
abbrev next : UndoLog → ℕ
next s = (wrap s.undomap).next_offset

abbrev size : UndoLog → ℕ
size s = bufsize - next s % bufsize

-- The log after padding to the end of the buffer.
abbrev padded : UndoLog → UndoLog
padded s = record s {
  undomap = record (wrap s.undomap) { next_offset = next s + size s };
  log = s.log ++ pad (next s) (size s) ∷ [];
}

-- The log after the record.
abbrev recorded : UndoLog → (zone_off len : ℕ) → UndoLog
recorded s zone_off len = record s {
  undomap = record (wrap s.undomap) { next_offset = next s + undo_bytes len };
  log = s.log ++ undo (next s) (undo_bytes len) zone_off len ∷ [];
}

-- One round.
module _ (fuel : ℕ) (bread : ℕ → ℕ) (s : UndoLog) (zone_off len : ℕ)
    (space : has_space s.undomap (undo_bytes len) ≡ done tt) where
  round_pad :
      bread (next s) ≡ 0
      → crosses (next s) (next s + undo_bytes len) ≡ true
      → emit (suc fuel) bread s zone_off len ≡ emit fuel bread (padded s) zone_off len
  unfolding emit
  round_pad b c = ground arith

  round_undo :
      bread (next s) ≡ 0
      → crosses (next s) (next s + undo_bytes len) ≡ false
      → emit (suc fuel) bread s zone_off len ≡ returned (recorded s zone_off len) 0
  unfolding emit
  round_undo b c = ground arith

  round_error :
      bread (next s) ≢ 0
      → emit (suc fuel) bread s zone_off len
        ≡ returned (record s { undomap = wrap s.undomap }) (bread (next s))
  unfolding emit
  round_error b = ground arith

abbrev pub padding_bytes : List LogRecord → ℕ
padding_bytes [] = 0
padding_bytes (pad at size ∷ rs) = size + padding_bytes rs
padding_bytes (undo at size o b ∷ rs) = size + padding_bytes rs

-- Where the FIFO goes on: where it stands, or at the start of the zone if it stands at its end.
abbrev pub GoesOnAt : UndoMap → ℕ → Type 0
GoesOnAt m at =
    ((m.next_offset ≢ m.alloc_offset) × (at ≡ m.next_offset))
    ⊎ ((m.next_offset ≡ m.alloc_offset) × (at ≡ zone_undo))

-- No padding, and the record where the FIFO goes on; or one PAD record there, up to the end of its
-- buffer, since the record would cross it, and the record behind the padding.
abbrev pub IsPadding : UndoMap → (bytes at : ℕ) → List LogRecord → Type 0
IsPadding m bytes at padding =
    ((padding ≡ []) × GoesOnAt m at)
    ⊎ ((from : ℕ) × (size : ℕ) × (padding ≡ pad from size ∷ [])
        × GoesOnAt m from
        × (size ≡ bufsize - from % bufsize)
        × (from / bufsize ≢ (from + bytes) / bufsize)
        × GoesOnAt (record m { next_offset = from + size }) at)

-- What a call that does not fail has done: padding or none, then the record, both without a gap from
-- the place where the FIFO stood, the record inside one buffer and inside the FIFO, which is left
-- standing behind it.
pub record LaidDown (s : UndoLog) (zone_off len : ℕ) (r : Generated) : Type 0 where
  pub undomap : UndoMap
  pub padding : List LogRecord
  pub at : ℕ
  pub padded_by : IsPadding s.undomap (undo_bytes len) at padding
  pub result :
      r
      ≡ returned
          (record s {
            undomap = undomap;
            log = s.log ++ (padding ++ undo at (undo_bytes len) zone_off len ∷ []);
          })
          0
  pub ok : IsUndoMap undomap
  pub stands : undomap.next_offset ≡ at + undo_bytes len
  pub one_buffer : at / bufsize ≡ (at + undo_bytes len) / bufsize
  pub inside : at + undo_bytes len < undomap.alloc_offset
  pub starts : (zone_undo ≤ at) × (at % 8 ≡ 0)
  pub kept :
      (undomap.first_offset ≡ s.undomap.first_offset)
      × (undomap.alloc_offset ≡ s.undomap.alloc_offset)
  pub spent : used undomap ≡ used s.undomap + padding_bytes padding + undo_bytes len
  pub short : padding_bytes padding ≤ bufsize

undo_bytes_fits :
    (len : ℕ)
    → len ≤ 16336
    → (undo_bytes len < bufsize) × (undo_bytes len % 8 ≡ 0) × (0 < undo_bytes len)
undo_bytes_fits len h = omega arith

wrap_keeps :
    (m : UndoMap)
    → ((wrap m).first_offset ≡ m.first_offset) × ((wrap m).alloc_offset ≡ m.alloc_offset)
wrap_keeps m = ground arith

crossing : (a b : ℕ) → crosses a b ≡ true → a / bufsize ≢ b / bufsize
crossing a b h = ground arith

goes_on : (m : UndoMap) → GoesOnAt m (wrap m).next_offset
goes_on m = elim (ℕ_discrete m.next_offset m.alloc_offset) [
  | yes e ↦ rw (test_same m.next_offset m.alloc_offset e) (inr (e, refl))
  | no n ↦ rw (ne_test m.next_offset m.alloc_offset n) (inl (n, refl))
]
  where
    test_same : (a b : ℕ) → a ≡ b → (a == b) ≡ true
    test_same a b h = ground arith

no_cross : (a b : ℕ) → crosses a b ≡ false → a / bufsize ≡ b / bufsize
no_cross a b h = ground arith

-- Standing `n` bytes further on, inside the same buffer or at its end.
advance :
    (m : UndoMap) (n : ℕ)
    → IsUndoMap m
    → m.next_offset < m.alloc_offset
    → n % 8 ≡ 0
    → n ≤ bufsize - m.next_offset % bufsize
    → n < capacity m - used m
    → IsUndoMap (record m { next_offset = m.next_offset + n })
      × (used (record m { next_offset = m.next_offset + n }) ≡ used m + n)
advance m n ok h e l k = ground arith

-- The room that a call needs at most: the padding, the record, and the two buffers held back.
abbrev pub HasRoom : UndoMap → ℕ → Type 0
HasRoom m len = undo_bytes len + bufsize * 3 ≤ capacity m - used m

module _ (fuel : ℕ) (bread : ℕ → ℕ) (zone_off len : ℕ) (reads : (o : ℕ) → bread o ≡ 0)
    (small : len ≤ 16336) where
  -- A round that lays down the record.
  lay :
      (s : UndoLog)
      → IsUndoMap s.undomap
      → undo_bytes len + bufsize * 2 ≤ capacity s.undomap - used s.undomap
      → crosses (next s) (next s + undo_bytes len) ≡ false
      → (l : LaidDown s zone_off len (emit (suc fuel) bread s zone_off len)) × (l.padding ≡ [])
        × GoesOnAt s.undomap l.at
  lay s ok room c =
      let fits = undo_bytes_fits len small in
      let space = has_space_lem s.undomap (undo_bytes len) ok room (omega arith) in
      let wrapped = wrap-IsUndoMap s.undomap ok in
      let same = wrap-used s.undomap ok (omega arith) in
      let (first, alloc) = wrap_keeps s.undomap in
      let one = no_cross (next s) (next s + undo_bytes len) c in
      let after =
        advance (wrap s.undomap) (undo_bytes len) wrapped.0 (omega arith) fits.1 (omega arith)
          (omega arith) in
      (
        record {
          undomap = record (wrap s.undomap) { next_offset = next s + undo_bytes len };
          padding = [];
          at = next s;
          padded_by = inl (refl, goes_on s.undomap);
          result = round_undo fuel bread s zone_off len space (reads _) c;
          ok = after.0;
          stands = refl;
          one_buffer = one;
          inside = omega arith;
          starts = (omega arith, omega arith);
          kept = (first, alloc);
          spent = omega arith;
          short = omega arith;
        },
        refl,
        goes_on s.undomap,
      )

  -- After padding the FIFO stands at the start of a buffer.
  padded_start : (s : UndoLog) → IsUndoMap s.undomap → (next s + size s) % bufsize ≡ 0
  padded_start s ok = omega arith

  start_of_buffer : (s : UndoLog) → s.undomap.next_offset % bufsize ≡ 0 → next s % bufsize ≡ 0
  start_of_buffer s h = ground arith

  start_inside : (a b : ℕ) → a % bufsize ≡ 0 → b < bufsize → crosses a (a + b) ≡ false
  start_inside a b h k = ground arith

  -- A round that pads, and the one that lays down the record behind the padding.
  pad_and_lay :
      (s : UndoLog)
      → IsUndoMap s.undomap
      → HasRoom s.undomap len
      → crosses (next s) (next s + undo_bytes len) ≡ true
      → LaidDown s zone_off len (emit (suc (suc fuel)) bread s zone_off len)
  pad_and_lay s ok room c =
      let fits = undo_bytes_fits len small in
      let space = has_space_lem s.undomap (undo_bytes len) ok (omega arith) (omega arith) in
      let wrapped = wrap-IsUndoMap s.undomap ok in
      let same = wrap-used s.undomap ok (omega arith) in
      let (first, alloc) = wrap_keeps s.undomap in
      let after =
        advance (wrap s.undomap) (size s) wrapped.0 (omega arith) (omega arith) (omega arith)
          (omega arith) in
      let (inner, none_more, behind) = lay (padded s) after.0 (omega arith) (
        start_inside (next (padded s)) (undo_bytes len)
          (start_of_buffer (padded s) (padded_start s ok)) fits.0) in
      record {
        undomap = inner.undomap;
        padding = pad (next s) (size s) ∷ inner.padding;
        at = inner.at;
        padded_by = inr (
          next s,
          size s,
          ap (λ l. pad (next s) (size s) ∷ l) none_more,
          goes_on s.undomap,
          refl,
          crossing (next s) (next s + undo_bytes len) c,
          subst
              (λ a.
                ((next s + size s ≢ a) × (inner.at ≡ next s + size s))
                ⊎ ((next s + size s ≡ a) × (inner.at ≡ zone_undo)))
              alloc behind,
        );
        result =
            round_pad (suc fuel) bread s zone_off len space (reads _) c
            ∙ inner.result
            ∙ ap (λ l. returned (record s { undomap = inner.undomap; log = l }) 0)
                (append_assoc s.log (pad (next s) (size s) ∷ [])
                  (inner.padding ++ undo inner.at (undo_bytes len) zone_off len ∷ []));
        ok = inner.ok;
        stands = inner.stands;
        one_buffer = inner.one_buffer;
        inside = inner.inside;
        starts = inner.starts;
        kept = (inner.kept.0 ∙ first, inner.kept.1 ∙ alloc);
        spent = omega (arith, inner.spent, after.1);
        short = omega (arith, ap padding_bytes none_more);
      }

emit-LaidDown :
    (bread : ℕ → ℕ) (s : UndoLog) (zone_off len : ℕ)
    → ((o : ℕ) → bread o ≡ 0)
    → len ≤ 16336
    → IsUndoMap s.undomap
    → HasRoom s.undomap len
    → LaidDown s zone_off len (emit 2 bread s zone_off len)
emit-LaidDown bread s zone_off len reads small ok room =
    elim (Bool-cases (crosses (next s) (next s + undo_bytes len))) [
      | inl c ↦ pad_and_lay 0 bread zone_off len reads small s ok room c
      | inr c ↦ (lay 1 bread zone_off len reads small s ok (omega arith) c).0
    ]

-- With a well formed FIFO that has room for the padding, the record and the two buffers held back,
-- buffers that can be read, and at most 16336 bytes to undo, the call ends without an error: if
-- the history covers the request it changes nothing else, and otherwise it lays down the record, in
-- one buffer and without a gap, behind one PAD record to the end of the buffer if the record would
-- cross it, and behind no padding if it would not.
pub hammer_generate_undo_lem :
    (bread : ℕ → ℕ) (s : UndoLog) (zone_off len : ℕ)
    → ((o : ℕ) → bread o ≡ 0)
    → len ≤ 16336
    → IsUndoMap s.undomap
    → HasRoom s.undomap len
    → let (history, error) = hammer_enter_undo_history s.history zone_off len in
      ((error ≡ e_already)
        × (hammer_generate_undo bread s zone_off len ≡ returned (record s { history = history }) 0))
      ⊎ ((error ≢ e_already)
          × LaidDown
              (record s { history = history })
              zone_off
              len
              (hammer_generate_undo bread s zone_off len))
unfolding hammer_generate_undo
hammer_generate_undo_lem bread s zone_off len reads small ok room =
    let (history, error) = hammer_enter_undo_history s.history zone_off len in
    elim (ℕ_discrete error e_already) [
      | yes e ↦ inl (e, rw e refl)
      | no n ↦ inr (
        n,
        rw (ne_test error e_already n)
            (emit-LaidDown bread (record s { history = history }) zone_off len reads small ok room),
      )
    ]
