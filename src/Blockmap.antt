-- ===== src/Blockmap.antt =====
-- The freemap and its reservations (dfly/vfs/hammer/hammer_blockmap.c).
pub mod Alloc
pub mod Reserve
pub mod Layers
pub mod Query
