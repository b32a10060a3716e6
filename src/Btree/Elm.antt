-- ===== src/Btree/Elm.antt =====
-- The on-disk B-Tree structures (dfly/vfs/hammer/hammer_btree.h).
-- An unsigned field is its value. A signed 64-bit field (`obj_id`, `key`) is its bit pattern, and
-- is compared through `signed`, which moves the patterns of the negative values below the others.
use hammer_linux.Base.{ℕ, ◌+◌, ◌%◌, ◌<◌, List}

abbrev pub signed : ℕ → ℕ
signed x = (x + 0x8000000000000000) % 0x10000000000000000

pub record BaseElm : Type 0 where
  pub obj_id : ℕ  -- int64_t
  pub key : ℕ  -- int64_t
  pub create_tid : ℕ
  pub delete_tid : ℕ
  pub rec_type : ℕ
  pub obj_type : ℕ
  pub btype : ℕ
  pub localization : ℕ

-- The ranges that the C types give.
pub record IsBase (b : BaseElm) : Type 0 where
  pub obj_id_word : b.obj_id < 0x10000000000000000
  pub key_word : b.key < 0x10000000000000000
  pub create_word : b.create_tid < 0x10000000000000000
  pub delete_word : b.delete_tid < 0x10000000000000000
  pub rec_word : b.rec_type < 0x10000
  pub localization_word : b.localization < 0x100000000

abbrev pub zero_base : BaseElm
zero_base = record {
  obj_id = 0;
  key = 0;
  create_tid = 0;
  delete_tid = 0;
  rec_type = 0;
  obj_type = 0;
  btype = 0;
  localization = 0;
}

-- The second half of the element union.
pub data Payload : Type 0 where
  internal : (mirror_tid subtree_offset : ℕ) → Payload
  leaf : (create_ts delete_ts data_offset data_len data_crc : ℕ) → Payload

pub record BtreeElm : Type 0 where
  pub base : BaseElm
  pub payload : Payload

abbrev pub zero_elm : BtreeElm
zero_elm = record { base = zero_base; payload = leaf 0 0 0 0 0 }

pub data NodeType : Type 0 where
  type_internal type_leaf : NodeType

abbrev pub leaf_elms : ℕ
leaf_elms = 63

abbrev pub int_elms : ℕ
int_elms = 62

-- `elms` has all 63 slots of the array; `count` says how many are in use, and an internal node
-- uses one more for its right-hand boundary.
pub record NodeOndisk : Type 0 where
  pub parent : ℕ
  pub count : ℕ
  pub type : NodeType
  pub mirror_tid : ℕ
  pub elms : List BtreeElm
