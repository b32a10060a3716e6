-- ===== src/Btree/Separator.antt =====
-- `hammer_make_separator` (dfly/vfs/hammer/hammer_btree.c).
mod Fields
pub mod Cases
pub mod Order
use hammer_linux.Base.{ℕ, ◌+◌, ◌-◌, ◌/◌, ◌%◌, ltb, ◌==◌, if◌then◌else◌}
use hammer_linux.Btree.Elm.{BaseElm, zero_base}

-- MAKE_SEPARATOR on a `u_int32_t` field, on an `int64_t` field (in two's complement, with the
-- arithmetic shift of a signed value) and on a `u_int16_t` field, which is promoted to `int`.
pub half_u32 : ℕ → ℕ → ℕ
half_u32 f1 f2 = (f1 + (f2 + 0x100000000 - f1 + 1) % 0x100000000 / 2) % 0x100000000

abbrev shift_one : ℕ → ℕ
shift_one d = if ltb d 0x8000000000000000 then d / 2 else d / 2 + 0x8000000000000000

pub half_s64 : ℕ → ℕ → ℕ
half_s64 f1 f2 =
    (f1 + shift_one ((f2 + 0x10000000000000000 - f1 + 1) % 0x10000000000000000))
    % 0x10000000000000000

pub half_u16 : ℕ → ℕ → ℕ
half_u16 f1 f2 = if ltb f2 f1 then f1 - (f1 - f2) / 2 else (f1 + (f2 - f1 + 1) / 2) % 0x10000

pub hammer_make_separator : BaseElm → BaseElm → BaseElm
hammer_make_separator key1 key2 =
    let dest = record zero_base {
      rec_type = key2.rec_type;
      key = key2.key;
      obj_id = key2.obj_id;
      create_tid = key2.create_tid;
      localization = half_u32 key1.localization key2.localization;
    } in
    if key1.localization == key2.localization
    then (let dest1 = record dest { obj_id = half_s64 key1.obj_id key2.obj_id } in
        if key1.obj_id == key2.obj_id
        then (let dest2 = record dest1 { rec_type = half_u16 key1.rec_type key2.rec_type } in
            if key1.rec_type == key2.rec_type
            then record dest2 { key = half_s64 key1.key key2.key }
            else dest2)
        else dest1)
    else dest
