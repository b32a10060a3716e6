-- ===== src/Blockmap/Query.antt =====
-- What is asked of the freemap: `hammer_blockmap_getfree` and `hammer_blockmap_lookup`
-- (dfly/vfs/hammer/hammer_blockmap.c). The error number of `hammer_get_root_volume` is an argument.
pub mod Answers
use hammer_linux.Base.{ℕ, ◌+◌, ◌/◌, Bool, true, false, not, Option, none, some, ◌==◌, if◌then◌else◌}
use hammer_linux.Base.Outcome.{Outcome, done, fail, panic, ◌>>=◌, ◌>>◌, kkassert}
use hammer_linux.Disk.{zone_decode, largeblock_size}
use hammer_linux.Blockmap.Reserve.{Reserve, find}
use hammer_linux.Blockmap.Layers.{
  Layer1, Layer2, Calls, Freemap, unavail, good_zone, layer1_at, layer2_at, sealed1, sealed2, read,
  to_raw_buffer, to_base_off,
}

-- The result, `*errorp`, and `*curp` where it is written.
pub record Answer : Type 0 where
  pub result : ℕ
  pub error : ℕ
  pub cur : Option Bool

-- An error of a read ends the call with a result.
abbrev pub or_error : Outcome (Unit {0}) → (ℕ → Answer) → Outcome Answer → Outcome Answer
or_error (done _) answer o = o
or_error (fail e) answer o = done (answer e)
or_error panic answer o = panic

module _ (calls : Calls) (root_error : ℕ) where
  -- `next_offset` is that of the blockmap of the zone.
  pub hammer_blockmap_getfree : Freemap → (next_offset zone_offset : ℕ) → Outcome Answer
  hammer_blockmap_getfree f next_offset zone_offset =
      let l1 = f.layer1 (layer1_at f zone_offset) in
      let l2 = f.layer2 (layer2_at f zone_offset) in
      let failed : ℕ → Answer = λ e. record { result = 0; error = e; cur = none } in
      kkassert (good_zone (zone_decode zone_offset))
      >> (if not (root_error == 0)
          then done (record { result = 0; error = root_error; cur = some false })
          else or_error (read calls (layer1_at f zone_offset)) failed (
              kkassert (not (l1.phys_offset == 0))
              >> kkassert (sealed1 calls l1)
              >> or_error (read calls (layer2_at f zone_offset)) failed (
                  kkassert (sealed2 calls l2)
                  >> kkassert (l2.zone == zone_decode zone_offset)
                  >> done (record {
                    result = l2.bytes_free;
                    error = 0;
                    cur = some (next_offset / largeblock_size == zone_offset / largeblock_size);
                  }))))

  -- A big-block without a zone has a reservation for it.
  abbrev pub right_zone : Freemap → Layer2 → ℕ → Bool
  right_zone f l2 zone_offset =
      if l2.zone == 0
      then elim (find (to_base_off zone_offset) f.reservations.rb_resv_root) [
        | some resv ↦ resv.zone == zone_decode zone_offset
        | none ↦ false
      ]
      else l2.zone == zone_decode zone_offset

  -- `verify_zone` is `hammer_verify_zone`; a wrong zone panics.
  pub hammer_blockmap_lookup : (verify_zone : Bool) → Freemap → (zone_offset : ℕ) → Outcome Answer
  hammer_blockmap_lookup verify_zone f zone_offset =
      let l1 = f.layer1 (layer1_at f zone_offset) in
      let l2 = f.layer2 (layer2_at f zone_offset) in
      let raw = to_raw_buffer zone_offset in
      let found : ℕ → Answer = λ e. record { result = raw; error = e; cur = none } in
      kkassert (good_zone (zone_decode zone_offset))
      >> (if not verify_zone
          then done (found 0)
          else if not (root_error == 0)
          then done (record { result = 0; error = root_error; cur = none })
          else kkassert (not (f.phys_offset == 0))
            >> or_error (read calls (layer1_at f zone_offset)) found (
                kkassert (not (l1.phys_offset == unavail))
                >> kkassert (sealed1 calls l1)
                >> or_error (read calls (layer2_at f zone_offset)) found (
                    kkassert (right_zone f l2 zone_offset)
                    >> kkassert (sealed2 calls l2)
                    >> done (found 0))))
