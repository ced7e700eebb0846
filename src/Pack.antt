-- ===== src/Pack.antt =====
-- Packs: include/fastgit/pack.h and src/pack/.
pub mod Varint
pub mod Header
pub mod Delta
pub mod Compress
pub mod Lookup
pub mod Read
pub mod Write
pub mod IndexFile
pub mod Open
