-- ===== src/Tests.antt =====
-- Concrete runs, and the theorems applied to them.
mod Keys
mod Nodes
mod Splits
mod Lookups
mod Undos
mod Blocks
mod Allocations
mod Objids
mod Others
