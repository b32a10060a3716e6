-- ===== src/Btree/Lookup.antt =====
-- `btree_search` (dfly/vfs/hammer/hammer_btree.c), composed of the searches of single nodes, the
-- movements of the cursor, and the splits.
-- A number of levels bounds each loop: a tree has no more than its height.
pub mod Down
pub mod Up
pub mod Find
use hammer_linux.Base.{
  ℕ, zero, suc, ◌+◌, ◌-◌, Bool, true, false, not, Option, none, some, set, ltb, leb, ◌==◌, ◌&&◌,
  ◌||◌, if◌then◌else◌, get_or,
}
use hammer_linux.Base.Int.{ℤ, pos, negsuc, leb_ℤ, ltb_ℤ}
use hammer_linux.Base.Outcome.{Outcome, done, fail, panic, ◌>>=◌, ◌>>◌, kkassert}
use hammer_linux.Btree.Elm.{
  BaseElm, BtreeElm, NodeOndisk, NodeType, type_internal, type_leaf, zero_elm, leaf_elms, int_elms,
}
use hammer_linux.Btree.Cmp.{hammer_btree_cmp}
use hammer_linux.Btree.Search.{
  base_at, CreateCheck, LeafQuery, Scan, hit, miss, leaf_search, internal_search,
}
use hammer_linux.Btree.Leaf.{is_leaf}
use hammer_linux.Btree.Tree.{Tree, Cursor, Mount, Alloc, write}
use hammer_linux.Btree.Split.{Result, btree_split_leaf, btree_split_internal}
use hammer_linux.Btree.Walk.{enoent, child_at, hammer_cursor_up, hammer_cursor_down}

-- cursor->flags and cursor->asof.
pub record Flags : Type 0 where
  pub is_insert : Bool
  pub is_pruning : Bool
  pub is_backend : Bool
  pub is_asof : Bool
  pub asof : ℕ

-- What the locks and the allocator answer at one level of the tree.
pub record Answers : Type 0 where
  pub lock_children : ℕ
  pub upgrade : ℕ
  pub root : Alloc
  pub half : Alloc

abbrev pub enospc : ℕ
enospc = 28

-- `is_enospc` is the local variable `enospc`.
pub record State : Type 0 where
  pub tree : Tree
  pub cursor : Cursor
  pub check : CreateCheck
  pub is_enospc : Bool

abbrev pub node_of : State → NodeOndisk
node_of st = st.tree.disk st.cursor.node

-- The end of a search, or the state to go on with.
pub data Progress : Type 0 where
  stop : (error : ℕ) → State → Progress
  go : State → Progress

abbrev pub on_go : Progress → (State → Outcome Progress) → Outcome Progress
on_go (stop error st) f = done (stop error st)
on_go (go st) f = f st

-- The key lies within the cursor's bounds.
abbrev pub covers : Cursor → Bool
covers c =
    leb_ℤ (pos 0) (hammer_btree_cmp c.key_beg c.left_bound)
    && ltb_ℤ (hammer_btree_cmp c.key_beg c.right_bound) (pos 0)

-- Up the tree to a node whose range covers the key.
pub climb : (levels : ℕ) → Mount → Tree → Cursor → Outcome Cursor
climb zero hmp t c = if covers c then done c else panic
climb (suc levels) hmp t c =
    if covers c
    then done c
    else do kkassert (not (c.parent == 0)); c' ← hammer_cursor_up hmp t c; climb levels hmp t c'

abbrev pub eq_one : ℤ → Bool
eq_one (pos n) = n == 1
eq_one (negsuc n) = false

-- CREATE_CHECK from the parent's boundary.
pub first_check : Cursor → CreateCheck → Outcome CreateCheck
first_check c check =
    if eq_one (hammer_btree_cmp c.key_beg c.left_bound)
    then (do
      kkassert (not (c.left_bound.create_tid == 1))
      done (some (c.left_bound.create_tid - 1)))
    else done check

pub btree_node_is_full : NodeOndisk → Bool
btree_node_is_full node =
    if is_leaf node.type then node.count == leaf_elms else node.count == int_elms

-- Up the tree while neither the node nor its parent has room.
pub climb_full : (levels : ℕ) → Mount → Tree → Cursor → Outcome Cursor
unfolding btree_node_is_full
climb_full zero hmp t c = panic
climb_full (suc levels) hmp t c =
    let node = t.disk c.node in
    if not (btree_node_is_full node)
      || (node.parent == 0)
      || not ((t.disk c.parent).count == int_elms)
    then done c
    else hammer_cursor_up hmp t c >>= climb_full levels hmp t

-- An element with another key and the same `btype`, or with the whole of the bound.
abbrev set_base : NodeOndisk → ℕ → BaseElm → NodeOndisk
set_base node i base = record node {
  elms = set node.elms i (record (get_or node.elms i zero_elm) { base = base });
}

abbrev at_index : State → ℕ → State
at_index st i = record st { cursor = record (st.cursor) { index = i } }

abbrev with_node : State → NodeOndisk → State
with_node st node = record st {
  tree = record (st.tree) { disk = write st.tree.disk st.cursor.node node };
}

-- A mismatch of the left or the right boundary ends the search, or is corrected by the bound of the
-- cursor.
pub correct : Flags → (upgrade : ℕ) → State → NodeOndisk → (last i : ℕ) → Outcome Progress
correct flags upgrade st node last i =
    if not (flags.is_insert || flags.is_pruning)
    then done (stop enoent (at_index st last))
    else if not (upgrade == 0)
    then done (stop upgrade st)
    else do kkassert flags.is_backend; done (go (at_index (with_node st node) i))

-- The index to push down into.
pub push_index : Flags → (upgrade : ℕ) → State → (i : ℕ) → Outcome Progress
unfolding correct
push_index flags upgrade st i =
    let node = node_of st in
    let c = st.cursor in
    if i == 0
    then correct flags upgrade st
        (set_base node 0 (record (c.left_bound) { btype = (base_at node 0).btype })) 0 0
    else if i == node.count + 1
    then correct flags upgrade st (set_base node node.count c.right_bound) node.count
        (node.count - 1)
    else done (go (at_index st (i - 1)))

-- The result of a split: ENOSPC is kept for the end, another error ends the search.
after_split : State → Result → Progress
after_split st (error, t, c) =
    let st' = record st { tree = t; cursor = c } in
    if error == 0
    then go st'
    else if error == enospc
    then go (record st' { is_enospc = true })
    else stop error st'

abbrev wants_split : Flags → State → Bool
wants_split flags st = flags.is_insert && not st.is_enospc && btree_node_is_full (node_of st)

abbrev down : State → Outcome Progress
down st = do c ← hammer_cursor_down st.tree st.cursor; done (go (record st { cursor = c }))

split_and_down : Mount → Flags → Answers → Progress → Outcome Progress
unfolding after_split
split_and_down hmp flags a (stop error st) = done (stop error st)
split_and_down hmp flags a (go st) = do
  kkassert (not (child_at (node_of st) st.cursor.index == 0))
  p ←
      if wants_split flags st
      then (do
        r ← btree_split_internal hmp a.lock_children a.upgrade a.root a.half st.tree st.cursor
        done (after_split st r))
      else done (go st)
  on_go p down

-- After the search of an internal node; `none` is its failed KKASSERT.
push_down : Mount → Flags → Answers → State → Option (ℕ × CreateCheck) → Outcome Progress
unfolding split_and_down push_index
push_down hmp flags a st none = panic
push_down hmp flags a st (some (i, check)) =
    push_index flags a.upgrade (record st { check = check }) i >>= split_and_down hmp flags a

-- One round of the loop at an internal node.
pub level : Mount → Flags → Answers → State → Outcome Progress
unfolding push_down
level hmp flags a st =
    push_down hmp flags a st (internal_search st.cursor.key_beg (node_of st) st.check)

-- Down to a leaf; `answers` gives the answers by the levels that are left.
pub descend : (levels : ℕ) → Mount → Flags → (ℕ → Answers) → State → Outcome Progress
unfolding level
descend zero hmp flags answers st = if is_leaf (node_of st).type then done (go st) else panic
descend (suc levels) hmp flags answers st =
    if is_leaf (node_of st).type
    then done (go st)
    else level hmp flags (answers levels) st >>= λ p.
        on_go p (λ st'. descend levels hmp flags answers st')

abbrev Ended : Type 0
Ended = ℕ × State

abbrev not_found : State → ℕ
not_found st = if st.is_enospc then enospc else enoent

abbrev ended : Progress → Ended
ended (stop error st') = (error, st')
ended (go st') = (not_found st', st')

-- The split of a full leaf before an insertion.
split_leaf : Mount → Flags → Answers → State → Outcome Ended
unfolding after_split
split_leaf hmp flags a st =
    if wants_split flags st
    then (do
      r ← btree_split_leaf hmp a.upgrade a.root a.half st.tree st.cursor
      done (ended (after_split st r)))
    else done (not_found st, st)

-- After the search of a leaf.
leaf_end : Mount → Flags → Answers → State → Option Scan → Outcome Ended
unfolding split_leaf
leaf_end hmp flags a st none = panic
leaf_end hmp flags a st (some Scan.panic) = panic
leaf_end hmp flags a st (some (hit i)) = done (0, at_index st i)
leaf_end hmp flags a st (some (miss i)) = split_leaf hmp flags a (at_index st i)

-- cursor->flags, cursor->asof and cursor->key_beg, as the search of a leaf reads them.
abbrev pub query : Flags → Cursor → LeafQuery
query flags c = record { is_asof = flags.is_asof; asof = flags.asof; key_beg = c.key_beg }

-- The search of the leaf.
pub at_leaf : Mount → Flags → Answers → State → Outcome Ended
unfolding leaf_end
at_leaf hmp flags a st = do
  kkassert (leb (node_of st).count leaf_elms)
  leaf_end hmp flags a st (leaf_search (query flags st.cursor) (node_of st))

finish : Mount → Flags → Answers → Progress → Outcome Ended
unfolding at_leaf
finish hmp flags a (stop error st) = done (error, st)
finish hmp flags a (go st) = at_leaf hmp flags a st

-- `leaf_answers` is for the split of the leaf.
pub btree_search :
    (levels : ℕ)
    → Mount
    → Flags
    → (answers : ℕ → Answers) → (leaf_answers : Answers) → State
    → Outcome Ended
unfolding climb first_check climb_full descend finish
btree_search levels hmp flags answers leaf_answers st = do
  c ← climb levels hmp st.tree st.cursor
  check ← first_check c st.check
  c' ← if flags.is_insert then climb_full levels hmp st.tree c else done c
  p ← descend levels hmp flags answers (record st { cursor = c'; check = check; is_enospc = false })
  finish hmp flags leaf_answers p
