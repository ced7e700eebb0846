-- ===== src/Pack/Open.antt =====
-- src/pack/packfile.c: `fastgit_pack_open`, on a little-endian machine. The two files can be opened
-- and mapped.
pub mod RoundTrip
use fastgit.Common.{
  ℕ, ◌+◌, ◌*◌, Bool, true, false, not, ◌||◌, List, [], ◌∷◌, length, take, drop, ltb, ◌==◌,
  if◌then◌else◌, some, Result, ok, err, fault, stuck, error,
}
use fastgit.Index.Entry.{str_eq}
use fastgit.Index.Disk.{read32}
use fastgit.Pack.Read.{Pack}
use fastgit.Pack.IndexFile.{IndexData, index_load, index_of}

-- "PACK"
abbrev pub pack_word : List ℕ
pack_word = 0x50 ∷ 0x41 ∷ 0x43 ∷ 0x4B ∷ []

-- Behind the tests: the pack and `header.object_count`, by the result of `fastgit_pack_index_load`.
unfoldable pub pack_with_index : List ℕ → Result IndexData → Result (Pack × ℕ)
pack_with_index mapped (ok loaded) = ok (
  record { mapped = mapped; index = some (index_of loaded); objects_read = 0; bytes_read = 0 },
  read32 (drop 8 mapped),
)
pack_with_index mapped (err e) = err error
pack_with_index mapped fault = fault
pack_with_index mapped stuck = stuck

-- `fastgit_pack_open`: the bytes of the pack, and those of its index.
unfoldable pub pack_open : List ℕ → List ℕ → Result (Pack × ℕ)
pack_open mapped idx_file =
    if ltb (length mapped) 12 || not (str_eq (take 4 mapped) pack_word)
    then err error
    else if not (read32 (drop 4 mapped) == 2)
    then err error
    else pack_with_index mapped (index_load idx_file)
