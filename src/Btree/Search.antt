-- ===== src/Btree/Search.antt =====
-- The searches inside one node: `hammer_btree_search_node`, and the two linear loops of
-- `btree_search` that start from its result (dfly/vfs/hammer/hammer_btree.c).
-- The counters for statistics and the debugging output are left out.
pub mod Shortcut
pub mod Leaf
pub mod Internal
use hammer_linux.Base.{
  ℕ, zero, suc, ◌+◌, ◌-◌, ◌/◌, ◌≡◌, Bool, true, false, not, Option, none, some, List, ltb, leb,
  ◌==◌, if◌then◌else◌, ◌&&◌,
}
use mathlib.Core.Option
use hammer_linux.Base.Int.{ℤ, pos, negsuc, leb_ℤ, ltb_ℤ}
use hammer_linux.Base.{get_or}
use hammer_linux.Btree.Elm.{BaseElm, BtreeElm, NodeOndisk, zero_elm}
use hammer_linux.Btree.Cmp.{hammer_btree_cmp, hammer_btree_chkts}

abbrev pub eq_zero : ℤ → Bool
eq_zero (pos n) = n == 0
eq_zero (negsuc n) = false

-- node->elms[i].base
unfoldable pub base_at : NodeOndisk → ℕ → BaseElm
base_at node i = (get_or node.elms i zero_elm).base

-- The loop of `hammer_btree_search_node`; `none` means that the fuel ran out.
search_loop : ℕ → BaseElm → NodeOndisk → (b s : ℕ) → Option ℕ
search_loop zero elm node b s = none
search_loop (suc fuel) elm node b s =
    let i = b + (s - b) / 2 in
    let left = search_loop fuel elm node b i in
    let right = search_loop fuel elm node i s in
    if ltb 4 (s - b)
    then (if leb_ℤ (hammer_btree_cmp elm (base_at node i)) (pos 1) then left else right)
    else some b

pub hammer_btree_search_node : BaseElm → NodeOndisk → Option ℕ
hammer_btree_search_node elm node = search_loop (suc node.count) elm node 0 node.count

-- How a linear search ends: at a matching element, at the place where the key belongs, or by a
-- failed KKASSERT.
pub data Scan : Type 0 where
  hit : (index : ℕ) → Scan
  miss : (index : ℕ) → Scan
  panic : Scan

-- cursor->flags & HAMMER_CURSOR_ASOF, cursor->asof and cursor->key_beg.
pub record LeafQuery : Type 0 where
  pub is_asof : Bool
  pub asof : ℕ
  pub key_beg : BaseElm

-- HAMMER_BTREE_TYPE_RECORD
abbrev pub type_record : ℕ
type_record = 0x52

-- The `while (i < node->count)` loop at a leaf, with `rounds` elements left.
leaf_scan : LeafQuery → NodeOndisk → (rounds i : ℕ) → Scan
leaf_scan q node zero i = miss i
leaf_scan q node (suc rounds) i =
    let elm = base_at node i in
    let r = hammer_btree_cmp q.key_beg elm in
    let next = leaf_scan q node rounds (i + 1) in
    if not (elm.btype == type_record)
    then panic
    else if ltb_ℤ r (pos 0)
    then miss i
    else if ltb_ℤ (pos 1) r
    then next
    else if q.is_asof
    then (if eq_zero (hammer_btree_chkts q.asof elm) then hit i else next)
    else if ltb_ℤ (pos 0) r
    then next
    else hit i

-- The search of a leaf: the shortcut, then the loop.
pub leaf_search : LeafQuery → NodeOndisk → Option Scan
leaf_search q node =
    Option.map (λ i. leaf_scan q node (node.count - i) i) (hammer_btree_search_node q.key_beg node)

-- cursor->create_check, where HAMMER_CURSOR_CREATE_CHECK is set.
abbrev pub CreateCheck : Type 0
CreateCheck = Option ℕ

-- The `while (i <= node->count)` loop at an internal node, with `rounds` boundary elements left;
-- `none` is a failed KKASSERT.
internal_scan : BaseElm → NodeOndisk → (rounds i : ℕ) → CreateCheck → Option (ℕ × CreateCheck)
internal_scan key node zero i check = some (i, check)
internal_scan key node (suc rounds) i check =
    let elm = base_at node i in
    let r = hammer_btree_cmp key elm in
    if ltb_ℤ r (pos 0)
    then some (i, check)
    else if leb_ℤ r (pos 1) && ltb_ℤ (pos 0) r && elm.create_tid == 1
    then none
    else internal_scan key node rounds (i + 1)
        (if leb_ℤ r (pos 1) && ltb_ℤ (pos 0) r then some (elm.create_tid - 1) else check)

pub internal_search : BaseElm → NodeOndisk → CreateCheck → Option (ℕ × CreateCheck)
unfolding Option.bind
internal_search key node check =
    Option.bind (hammer_btree_search_node key node)
      (λ i. internal_scan key node (node.count + 1 - i) i check)
