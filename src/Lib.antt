-- ===== src/Lib.antt =====
-- A model of fastgit, and theorems about it.
--
-- The parts and the files:
--   Common: Boolean tests, lists over the native numbers, the bits of `uint32_t` and `uint64_t`, and
--     `Result`, in which a function of the model answers `ok`, an error code of
--     include/fastgit/fastgit.h (`err`), undefined behaviour (`fault`: an access out of bounds, a
--     shift by the width of the type or more), or that its fuel was used up (`stuck`).
--   Pack/Varint: include/fastgit/pack.h, `fastgit_encode_varint` and `fastgit_decode_varint`.
--   Pack/Header: src/pack/packfile.c, `parse_pack_header`, `encode_pack_header` and
--     `parse_ofs_delta_offset`.
--   Pack/Delta: src/pack/delta.c, `fastgit_delta_apply` is `delta_apply`; src/pack/packfile.c,
--     `git_delta_apply`. Both read their sizes by the functions of Pack/Varint. Bounds is about the
--     buffer in every run, Safety about the ends of the loops, Agreement about the two functions.
--   Pack/Compress: src/pack/delta.c, `fastgit_delta_compress` is `delta_compress`; Chains is about the
--     hash chains, Match about the search in them, Commands about the commands it writes.
--   Pack/Lookup: src/pack/packfile.c, `fastgit_pack_index_find` with the fan-out that
--     `fastgit_pack_index_create` builds; src/pack/midx.c, `fastgit_midx_find`.
--   Pack/Read: src/pack/packfile.c, `pack_read_object_at` and `fastgit_pack_read_entry`; Chains is about
--     objects behind chains of deltas, Compressed about the deltas of Pack/Compress in a pack.
--   Pack/Write: src/pack/packfile.c, `fastgit_pack_create`, `fastgit_pack_add_object`,
--     `fastgit_pack_close` and the sort in `fastgit_pack_index_create`; Stored and Closed say where the
--     objects stand, Order and Names what the sort does, RoundTrip reads the pack by Pack/Read.
--   Pack/IndexFile: src/pack/packfile.c, the file that `fastgit_pack_index_create` writes and
--     `fastgit_pack_index_load`; Opened reads a pack by the index that is loaded.
--   Pack/Open: src/pack/packfile.c, `fastgit_pack_open`; RoundTrip is about a pack and its index, both
--     written and opened again.
--   Index/Entry, Index/Table: src/index/index.c, the hash table `fg_ht_*` over the entries of an
--     index; Slots, Find, Insert and Rebuild are about its invariant.
--   Index/Store: src/index/index.c, the index in memory: `fastgit_index_new`,
--     `fastgit_index_add_from_buffer`, `fastgit_index_find`, `fastgit_index_clear`,
--     `fastgit_index_has_conflicts`. Its operations call those of Index/Table. The abstract view of an
--     index is a partial function from a path and a stage to an entry (View).
--   Index/Conflicts: src/index/index.c, `fastgit_index_remove`, `fastgit_index_find_by_oid`,
--     `fastgit_index_conflict_add` and `fastgit_index_conflict_remove`, which leave the table as it is.
--   Index/Disk: src/index/index.c, `fastgit_index_write_to` and `fastgit_index_read`, the file as the
--     list of its bytes; Words, Stored, Loop, Sorting and RoundTrip lead to the round trip, Hostile and
--     Overrun are about bytes that nobody wrote. An access behind the file or the array is `fault`.
--   Object/Oid: src/object/object.c, `fastgit_oid_to_hex` and `fastgit_oid_from_hex`; Oid/Order,
--     `fastgit_oid_cmp` and `fastgit_oid_equal`.
--   Object/Commit, Object/Tag: src/object/commit.c and src/object/tag.c, the size that is counted for
--     a commit or a tag, and what is written. The text of a time is what the C library prints.
--   Object/Tree: src/object/tree.c, a tree as the list of its entries: adding, removing, writing,
--     and `tree_parse_raw`.
--   Hash/Blocks: the buffer that src/hash/sha256.c and src/hash/sha384.c fill and transform block by
--     block; Stream is about feeding it a message in pieces, Padding about the end of a message.
--   Hash/Sha256, Hash/Sha384, Hash/Keccak: src/hash/sha256.c, src/hash/sha384.c and src/hash/sha3.c,
--     the versions without OpenSSL. Sha256/Standard writes SHA-256 out as FIPS 180-4 has it, apart from
--     the code.
--   Merge: src/merge/merge.c, `fastgit_merge` and `fastgit_merge_analysis` with the walk
--     `is_ancestor` over the history; src/merge/rebase.c, `fastgit_rebase`. What they call of the
--     repository is the record `Repo`, whose state stands for HEAD, the index and the work tree.
--   Network/Pktline: src/network/protocol.c, `fastgit_pktline_encode`, `fastgit_pktline_parse_refs` as
--     `parse_refs`, `extract_pack_from_response` as `extract_pack`; Frames, Refs and SideBand are about
--     packets as a writer or a server writes them, Hostile and Limits about arbitrary bytes.
--   Examples: runs on concrete inputs.
--
-- State. An index is a record; the arrays `entries` and `ht` are lists, `count` and `ht_cap` their
-- lengths. A pointer into a buffer is the list of the bytes behind it. Integers are numbers with
-- their wrap-around written out (`% 2 ^ 32`, `% 2 ^ 64`).
--
-- Fuel. The loops of a delta get as many rounds as it has bytes, and each round takes one at least.
-- The loops of the encoders and of a search in the base get the bounds the code has: ten groups of
-- seven bits, 32 candidates. A probe of the table gets as many rounds as the table has slots. The
-- update of a hash and the squeeze of SHA-3 take a byte at least in every round, the parser of trees
-- 34, the loops over packets four. A search in a pack index shrinks its range in every round. The
-- fuel of `is_ancestor` is an argument: on a history without cycles there is enough (Termination).
-- `pack_read_object_at` has the 33 calls that the code's limit on the depth leaves.
--
-- Outside: `malloc` is a parameter of the functions on deltas and of those that read a pack,
-- `realloc` of `fastgit_index_read`; elsewhere memory can be had. The name that a blob gets by its
-- hash, zlib's `inflate`, `compress2` and `crc32`, the name of an object as a hash, the checksum
-- of an index file, and of the C library `qsort`, the digits that "%o" and "%04zx" print and
-- `strtoul`, are parameters; a read of a file that is open and mapped succeeds. The file system,
-- the object store behind `fastgit_odb_write`, the parser of commits, the checks for null pointers
-- that a C caller may pass, the transports, the work tree, the commands, the versions of the hash
-- functions that call OpenSSL are not modelled.
pub mod Common
pub mod Pack
pub mod Index
pub mod Hash
pub mod Merge
pub mod Network
pub mod Object
pub mod Examples
