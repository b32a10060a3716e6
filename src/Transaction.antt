-- ===== src/Transaction.antt =====
-- Transaction ids: `hammer_alloc_tid` (dfly/vfs/hammer/hammer_transaction.c).
-- A master has a number below HAMMER_MAX_MASTERS; a negative `master_id` is `none`.
pub mod Fresh
pub mod Objids
use hammer_linux.Base.{ℕ, ◌+◌, ◌*◌, ◌/◌, ◌%◌, bit_or, Option, none, some, leb, if◌then◌else◌}
use hammer_linux.Base.Outcome.{Outcome, done, panic}

-- The two fields of the mount.
pub record Tids : Type 0 where
  pub next_tid : ℕ
  pub master_id : Option ℕ

-- HAMMER_MAX_MASTERS
abbrev pub max_masters : ℕ
max_masters = 16

-- Ids from here on panic.
abbrev pub last_tid : ℕ
last_tid = 0xffffffffff000000

abbrev pub word : ℕ → ℕ
word n = n % 0x10000000000000000

-- The id, and the `next_tid` behind the `count` ids after it.
abbrev pub next_ids : Tids → ℕ → ℕ × ℕ
next_ids m count = elim m.master_id [
  | none ↦ (word (m.next_tid + 1), word (m.next_tid + 1 + count))
  | some id ↦
      (let tid = word (m.next_tid + max_masters) / max_masters * max_masters in
        (bit_or tid id, word (tid + count * max_masters)))
]

unfoldable pub hammer_alloc_tid : Tids → (count : ℕ) → Outcome (Tids × ℕ)
hammer_alloc_tid m count =
    let ids = next_ids m count in
    if leb last_tid ids.0 then panic else done (record m { next_tid = ids.1 }, ids.0)
