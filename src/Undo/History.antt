-- ===== src/Undo/History.antt =====
-- The cache of recent undos: `hammer_enter_undo_history` and `hammer_clear_undo_history`
-- (dfly/vfs/hammer/hammer_undo.c).
-- The nodes in use stand both in a red-black tree by offset and in a list by age. The model keeps
-- the list, the least recently used node first, and looks an offset up in it; the allocation counter
-- is the source's `undo_alloc`.
mod Nodes
pub mod Sound
use hammer_linux.Base.{
  ℕ, suc, ◌+◌, Bool, true, false, not, Option, none, some, List, [], ◌∷◌, ◌++◌, leb, ◌==◌,
  if◌then◌else◌,
}

-- HAMMER_MAX_UNDOS
abbrev pub max_undos : ℕ
max_undos = 1024

-- EALREADY
abbrev pub e_already : ℕ
e_already = 114

pub record UndoNode : Type 0 where
  pub offset : ℕ
  pub bytes : ℕ

pub record UndoHistory : Type 0 where
  pub undo_alloc : ℕ
  pub lru_list : List UndoNode

-- RB_LOOKUP
unfoldable pub lookup : ℕ → List UndoNode → Option UndoNode
lookup offset [] = none
lookup offset (n ∷ ns) = if n.offset == offset then some n else lookup offset ns

-- Takes the node at an offset off the list.
unfoldable pub remove : ℕ → List UndoNode → List UndoNode
remove offset [] = []
remove offset (n ∷ ns) = if n.offset == offset then ns else n ∷ remove offset ns

abbrev pub rest : List UndoNode → List UndoNode
rest [] = []
rest (n ∷ ns) = ns

-- The new state and the error number.
unfoldable pub hammer_enter_undo_history : UndoHistory → (offset bytes : ℕ) → UndoHistory × ℕ
unfolding lookup remove
hammer_enter_undo_history h offset bytes = elim (lookup offset h.lru_list) [
  | some node ↦
      (let others = remove offset h.lru_list in
        if leb bytes node.bytes
        then (record h { lru_list = others ++ node ∷ [] }, e_already)
        else (record h { lru_list = others ++ (record node { bytes = bytes }) ∷ [] }, 0))
  | none ↦
      (let node : UndoNode = record { offset = offset; bytes = bytes } in
        if not (h.undo_alloc == max_undos)
        then (record { undo_alloc = h.undo_alloc + 1; lru_list = h.lru_list ++ node ∷ [] }, 0)
        else (record h { lru_list = rest h.lru_list ++ node ∷ [] }, 0))
]

unfoldable pub hammer_clear_undo_history : UndoHistory
hammer_clear_undo_history = record { undo_alloc = 0; lru_list = [] }
