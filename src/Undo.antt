-- ===== src/Undo.antt =====
-- The UNDO log (dfly/vfs/hammer/hammer_undo.c).
pub mod History
pub mod Fifo
