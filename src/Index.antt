-- ===== src/Index.antt =====
-- The index (staging area): src/index/index.c and include/fastgit/index.h.
pub mod Entry
pub mod Table
pub mod Store
pub mod Conflicts
pub mod Disk
