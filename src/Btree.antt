-- ===== src/Btree.antt =====
-- The B-Tree (dfly/vfs/hammer/hammer_btree.c).
pub mod Elm
pub mod Cmp
pub mod Separator
pub mod Search
pub mod Leaf
pub mod Tree
pub mod Split
pub mod Walk
pub mod Shape
pub mod Lookup
