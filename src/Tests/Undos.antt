-- ===== src/Tests/Undos.antt =====
-- Histories, and a FIFO of one big-block.
use hammer_linux.Base.{ℕ, ◌+◌, ◌≤◌, ◌≡◌, ◌≢◌, ◌⊎◌, refl, arith, List, [], ◌∷◌}
use hammer_linux.Undo.History.{
  UndoHistory, hammer_enter_undo_history, hammer_clear_undo_history, e_already, lookup, remove,
}
use hammer_linux.Undo.History.Sound.{
  IsHistory, Asked, enter_all, hammer_enter_undo_history-IsHistory, hammer_enter_undo_history_sound,
}
use hammer_linux.Undo.Fifo.{UndoMap, UndoLog, zone_undo, returned, hammer_generate_undo}
use hammer_linux.Undo.Fifo.Space.{IsUndoMap}
use hammer_linux.Undo.Fifo.Generate.{LaidDown, hammer_generate_undo_lem}

-- One request, and what it leaves.
abbrev one_request : List (ℕ × ℕ)
one_request = (0x1000, 64) ∷ []

abbrev one_node : UndoHistory
one_node = record { undo_alloc = 1; lru_list = record { offset = 0x1000; bytes = 64 } ∷ [] }

one_node-IsHistory : IsHistory one_node
one_node-IsHistory = record { counted = refl; bounded = omega arith; distinct = (tt, tt) }

hammer_enter_undo_history-IsHistory_example :
    IsHistory (hammer_enter_undo_history one_node 0x2000 32).0
hammer_enter_undo_history-IsHistory_example =
    hammer_enter_undo_history-IsHistory one_node 0x2000 32 one_node-IsHistory

hammer_enter_undo_history_sound_example : (b : ℕ) × (48 ≤ b) × Asked 0x1000 b one_request
unfolding hammer_enter_undo_history enter_all hammer_clear_undo_history lookup remove
hammer_enter_undo_history_sound_example =
    hammer_enter_undo_history_sound one_request 0x1000 48 already
  where
    already : (hammer_enter_undo_history (enter_all one_request) 0x1000 48).1 ≡ e_already
    already = refl

abbrev one_block : UndoMap
one_block = record {
  first_offset = zone_undo;
  next_offset = zone_undo + 16320;
  alloc_offset = zone_undo + 0x800000;
}

one_block-IsUndoMap : IsUndoMap one_block
one_block-IsUndoMap = record {
  first_zone = omega arith;
  next_zone = omega arith;
  first_inside = omega arith;
  nonempty = omega arith;
  next_inside = omega arith;
  next_aligned = omega arith;
  bounded = omega arith;
  whole = omega arith;
}

abbrev near_the_end : UndoLog
near_the_end = record { history = one_node; undomap = one_block; log = [] }

-- The record of 100 bytes does not fit into the buffer.
hammer_generate_undo_lem_example :
    let (history, error) = hammer_enter_undo_history one_node 0x2000 100 in
    ((error ≡ e_already)
      × (hammer_generate_undo (λ _. 0) near_the_end 0x2000 100
          ≡ returned (record near_the_end { history = history }) 0))
    ⊎ ((error ≢ e_already)
        × LaidDown
            (record near_the_end { history = history })
            0x2000
            100
            (hammer_generate_undo (λ _. 0) near_the_end 0x2000 100))
hammer_generate_undo_lem_example =
    hammer_generate_undo_lem (λ _. 0) near_the_end 0x2000 100 (λ _. refl) (omega arith)
      one_block-IsUndoMap (omega arith)
