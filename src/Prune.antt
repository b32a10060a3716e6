-- ===== src/Prune.antt =====
-- The decision to prune a record: `prune_should_delete` (dfly/vfs/hammer/hammer_prune.c).
pub mod Kept
use hammer_linux.Base.{
  ℕ, ◌+◌, ◌-◌, ◌/◌, ◌%◌, Bool, true, false, not, List, [], ◌∷◌, ltb, leb, ◌==◌, ◌&&◌, ◌||◌,
  if◌then◌else◌,
}
use hammer_linux.Btree.Elm.{BaseElm}

-- struct hammer_ioc_prune_elm
pub record PruneElm : Type 0 where
  pub beg_tid : ℕ
  pub end_tid : ℕ
  pub mod_tid : ℕ

-- struct hammer_ioc_prune; `prune_all` is HAMMER_IOC_PRUNE_ALL, and `elms` has the `nelms` elements.
pub record Prune : Type 0 where
  pub prune_all : Bool
  pub elms : List PruneElm

abbrev pub minus : ℕ → ℕ → ℕ
minus a b = (a + 0x10000000000000000 - b) % 0x10000000000000000

-- The test of one element of the list.
abbrev pub is_covered : PruneElm → BaseElm → Bool
is_covered scan base =
    not (base.delete_tid == 0)
    && leb scan.beg_tid base.create_tid
    && leb base.delete_tid scan.end_tid
    && minus base.create_tid scan.beg_tid / scan.mod_tid
      == minus base.delete_tid scan.beg_tid / scan.mod_tid

unfoldable pub scan_elms : List PruneElm → BaseElm → Bool
scan_elms [] base = false
scan_elms (scan ∷ scans) base =
    let rest = scan_elms scans base in
    if leb scan.end_tid base.create_tid || ltb scan.end_tid base.delete_tid
    then false
    else if is_covered scan base
    then true
    else rest

unfoldable pub prune_should_delete : Prune → BaseElm → Bool
unfolding scan_elms
prune_should_delete prune base =
    if prune.prune_all then not (base.delete_tid == 0) else scan_elms prune.elms base
