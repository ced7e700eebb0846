-- ===== src/Examples.antt =====
-- Runs on concrete inputs.
pub mod Deltas
pub mod Tables
pub mod Objects
pub mod Trees
pub mod Hashes
pub mod Merges
pub mod Packets
pub mod Lookups
pub mod Files
pub mod Packs
