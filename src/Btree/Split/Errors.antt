-- ===== src/Btree/Split/Errors.antt =====
-- What a split that has no lock or no room leaves behind.
use native.Mathlib.Decide.{ℕ_discrete}
use hammer_linux.Base.{ne_test, ◌⊎◌, ℕ, ◌≡◌, ◌≢◌, refl, inl, inr, true, ◌==◌, Bool-cases, sym, ap}
use hammer_linux.Base.Outcome.{Returns}
use hammer_linux.Btree.Tree.{Tree, Cursor, Mount, Alloc, got, refused, write_ne}
use hammer_linux.Btree.Split.{
  Result, Room, no_room, ready, split_point, make_room, finish_leaf, finish_internal,
  btree_split_leaf, btree_split_internal, leaf_checks,
}

-- The cursor, the tracked cursors, the root of the volume and the nodes are as before, but for a new
-- root that was allocated and given up again.
pub record IsUnchanged (root : Alloc) (t : Tree) (c : Cursor) (r : Result) : Type 0 where
  pub same_cursor : r.2 ≡ c
  pub same_lists : r.1.cursor_list ≡ t.cursor_list
  pub same_root : r.1.vol0_btree_root ≡ t.vol0_btree_root
  pub same_nodes : (a : ℕ) → root ≢ got a → r.1.disk a ≡ t.disk a

IsUnchanged-refl :
    (root : Alloc) (t : Tree) (c : Cursor) (error : ℕ) → IsUnchanged root t c (error, t, c)
IsUnchanged-refl root t c error = record {
  same_cursor = refl;
  same_lists = refl;
  same_root = refl;
  same_nodes = λ a h. refl;
}

-- The allocator refuses, with an error.
abbrev pub IsRefused : Alloc → Type 0
IsRefused (got offset) = ⊥
IsRefused (refused error) = error ≢ 0

-- Why there is no room: the new root or the new node is refused.
abbrev pub HasNoRoom : Tree → Cursor → (root half : Alloc) → Type 0
HasNoRoom t c root half =
    (((t.disk c.node).parent ≡ 0) × IsRefused root) ⊎ ((root ≢ refused 0) × IsRefused half)

-- Without room nothing else is changed.
abbrev Kept : Alloc → Tree → Room → Type 0
Kept root t (no_room error t') =
    (error ≢ 0)
    × (t'.cursor_list ≡ t.cursor_list)
    × (t'.vol0_btree_root ≡ t.vol0_btree_root)
    × ((a : ℕ) → root ≢ got a → t'.disk a ≡ t.disk a)
Kept root t (ready t' s new) = ⊥

make_room-Kept :
    (hmp : Mount) (root half : Alloc) (t : Tree) (c : Cursor)
    → HasNoRoom t c root half
    → Kept root t (make_room hmp root half t c)
unfolding make_room
make_room-Kept hmp (got offset) half t c (inl (e, h)) = absurd h
make_room-Kept hmp (refused number) half t c (inl (e, h)) = rw e (h, refl, refl, λ a l. refl)
make_room-Kept hmp root (got new) t c (inr (k, h)) = absurd h
make_room-Kept hmp (got offset) (refused error) t c (inr (k, h)) =
    elim (Bool-cases ((t.disk c.node).parent == 0)) [
      | inl e ↦ rw e (h, refl, refl, λ a l. write_ne t.disk offset a _ (λ s. l (ap got (sym s))))
      | inr e ↦ rw e (h, refl, refl, λ a l. refl)
    ]
make_room-Kept hmp (refused number) (refused error) t c (inr (k, h)) =
    elim (Bool-cases ((t.disk c.node).parent == 0)) [
      | inl e ↦ rw e (λ s. k (ap refused s), refl, refl, λ a l. refl)
      | inr e ↦ rw e (h, refl, refl, λ a l. refl)
    ]

-- An error, and nothing changed.
abbrev pub Failed : Alloc → Tree → Cursor → Result → Type 0
Failed root t c r = (r.0 ≢ 0) × IsUnchanged root t c r

finish_leaf-Failed :
    (root : Alloc) (t : Tree) (c : Cursor) (split : ℕ) (room : Room)
    → Kept root t room
    → Returns (finish_leaf c split room) (Failed root t c)
unfolding finish_leaf
finish_leaf-Failed root t c split (no_room error t') (h, l, v, n) =
    (h, record { same_cursor = refl; same_lists = l; same_root = v; same_nodes = n })
finish_leaf-Failed root t c split (ready t' s new) h = absurd h

finish_internal-Failed :
    (root : Alloc) (t : Tree) (c : Cursor) (split : ℕ) (room : Room)
    → Kept root t room
    → Returns (finish_internal c split room) (Failed root t c)
unfolding finish_internal
finish_internal-Failed root t c split (no_room error t') (h, l, v, n) =
    (h, record { same_cursor = refl; same_lists = l; same_root = v; same_nodes = n })
finish_internal-Failed root t c split (ready t' s new) h = absurd h

-- Split of an internal node, with any answers of the allocator: if the children cannot be locked, the
-- lock cannot be upgraded, or the new root or node is refused, an error is returned, and the cursor, the
-- tracked cursors, the root of the volume and the nodes are unchanged, but for a new root that was given
-- up.
pub btree_split_internal-Failed :
    (hmp : Mount) (lock_children upgrade : ℕ) (root half : Alloc) (t : Tree) (c : Cursor)
    → (lock_children ≢ 0) ⊎ (upgrade ≢ 0) ⊎ HasNoRoom t c root half
    → Returns (btree_split_internal hmp lock_children upgrade root half t c) (Failed root t c)
unfolding btree_split_internal
btree_split_internal-Failed hmp lock_children upgrade root half t c why =
    elim (ℕ_discrete lock_children 0) [
      | no l ↦ rw (ne_test lock_children 0 l) (l, IsUnchanged-refl root t c lock_children)
      | yes l ↦ rw l (elim (ℕ_discrete upgrade 0) [
        | no u ↦ rw (ne_test upgrade 0 u) (u, IsUnchanged-refl root t c upgrade)
        | yes u ↦ rw u (
            finish_internal-Failed root t c _ _
              (make_room-Kept hmp root half t c (no_lock_left why l u)))
      ])
    ]
  where
    no_lock_left :
        (lock_children ≢ 0) ⊎ (upgrade ≢ 0) ⊎ HasNoRoom t c root half
        → lock_children ≡ 0
        → upgrade ≡ 0
        → HasNoRoom t c root half
    no_lock_left (inl h) l u = absurd (h l)
    no_lock_left (inr (inl h)) l u = absurd (h u)
    no_lock_left (inr (inr h)) l u = h

-- Split of a leaf, with any answers of the allocator, when its assertions hold: if the lock cannot be
-- upgraded, or the new root or node is refused, an error is returned, and the cursor, the tracked
-- cursors, the root of the volume and the nodes are unchanged, but for a new root that was given up.
pub btree_split_leaf-Failed :
    (hmp : Mount) (upgrade : ℕ) (root half : Alloc) (t : Tree) (c : Cursor)
    → (upgrade ≢ 0) ⊎ HasNoRoom t c root half
    → leaf_checks (t.disk c.node) c (split_point (t.disk c.node).count c.index) ≡ true
    → Returns (btree_split_leaf hmp upgrade root half t c) (Failed root t c)
unfolding btree_split_leaf
btree_split_leaf-Failed hmp upgrade root half t c why checks = elim (ℕ_discrete upgrade 0) [
  | no u ↦ rw (ne_test upgrade 0 u) (u, IsUnchanged-refl root t c upgrade)
  | yes u ↦
      rw (u, checks)
        (finish_leaf-Failed root t c _ _ (make_room-Kept hmp root half t c (no_lock_left why u)))
]
  where
    no_lock_left : (upgrade ≢ 0) ⊎ HasNoRoom t c root half → upgrade ≡ 0 → HasNoRoom t c root half
    no_lock_left (inl h) u = absurd (h u)
    no_lock_left (inr h) u = h
