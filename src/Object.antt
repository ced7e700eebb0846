-- ===== src/Object.antt =====
-- Names of objects, and how commits and tags are written out.
pub mod Oid
pub mod Commit
pub mod Tag
pub mod Tree
