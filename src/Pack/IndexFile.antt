-- ===== src/Pack/IndexFile.antt =====
-- src/pack/packfile.c: the file of a pack index, `fastgit_pack_index_create` behind the sort and
-- `fastgit_pack_index_load`, on a little-endian machine. The calls of the file system and `malloc`
-- succeed; `digest` is the hash of src/hash.
pub mod Words
pub mod RoundTrip
pub mod Opened
use fastgit.Common.{
  ℕ, zero, suc, ◌+◌, ◌-◌, ◌*◌, ◌%◌, ◌^◌, bit_and, Bool, true, false, not, ◌&&◌, ◌||◌, List, [], ◌∷◌,
  ◌++◌, length, take, drop, replicate, map, get_or, ltb, leb, ◌==◌, if◌then◌else◌, Option, none,
  some, Result, ok, err, fault, error, ◌>>=◌,
}
use fastgit.Index.Entry.{str_eq}
use fastgit.Index.Disk.{be32, read32}
use fastgit.Pack.Lookup.{fanout_at}
use fastgit.Pack.Read.{PackIndex}
use fastgit.Pack.Write.{Row, index_order, row_oid, row_offset}

-- The signature and the version 2 of an index.
abbrev pub index_magic : List ℕ
index_magic = 0xFF ∷ 0x74 ∷ 0x4F ∷ 0x63 ∷ 0x00 ∷ 0x00 ∷ 0x00 ∷ 0x02 ∷ []

-- Numbers of four bytes, in front of `rest`.
unfoldable pub write_words : List ℕ → List ℕ → List ℕ
write_words [] rest = rest
write_words (x ∷ xs) rest = be32 (x % 2 ^ 32) ++ write_words xs rest

-- `fanout[f]` for the `n` numbers from `f` on.
unfoldable pub fanout_from : ℕ → ℕ → List (List ℕ) → List ℕ
fanout_from zero f oids = []
fanout_from (suc n) f oids = fanout_at oids f ∷ fanout_from n (f + 1) oids

unfoldable pub write_oids : ℕ → List (List ℕ) → List ℕ → List ℕ
write_oids oid_len [] rest = rest
write_oids oid_len (o ∷ os) rest = take oid_len o ++ write_oids oid_len os rest

abbrev pub row_crc : Row → ℕ
row_crc r = r.crc

-- `n ? pack->w_oids[0].len : 32`
abbrev pub oid_length : List Row → ℕ
oid_length [] = 32
oid_length (r ∷ rs) = length r.oid

-- The last 32 bytes of the pack.
unfoldable pub pack_tail : ℕ → List ℕ → List ℕ
pack_tail oid_len pack =
    if leb 32 (length pack) then take 32 (drop (length pack - 32) pack) else replicate oid_len 0

unfoldable pub index_body : List Row → List ℕ → List ℕ
index_body rows pack =
    let order = index_order rows in
    let oids = map row_oid order in
    index_magic
    ++ write_words (fanout_from 256 0 oids) (
        write_oids (oid_length rows) oids (
          write_words (map row_crc order)
            (write_words (map row_offset order) (pack_tail (oid_length rows) pack))))

-- `fastgit_pack_index_create`: the file, with its own hash at the end. The `int j` of the sort starts
-- at `i - 1`: from 2 ^ 31 on it turns negative, and a place in front of `order` is written.
unfoldable pub write_index : (List ℕ → List ℕ) → List Row → List ℕ → Result (List ℕ)
write_index digest rows pack =
    if ltb (2 ^ 31 + 1) (length rows)
    then fault
    else ok (index_body rows pack ++ digest (index_body rows pack))

unfoldable pub read_words : ℕ → List ℕ → List ℕ
read_words zero bytes = []
read_words (suc n) bytes = read32 bytes ∷ read_words n (drop 4 bytes)

unfoldable pub read_oids : ℕ → ℕ → List ℕ → List (List ℕ)
read_oids hash_len zero bytes = []
read_oids hash_len (suc n) bytes = take hash_len bytes ∷ read_oids hash_len n (drop hash_len bytes)

-- A length of the names that goes with the size of the file.
unfoldable pub fits_size : ℕ → ℕ → ℕ → Bool
fits_size size count hl =
    let base = 8 + 1024 + count * hl + count * 4 + count * 4 + 2 * hl in
    size == base || (ltb base size && ((size - base) % 8 == 0 && leb (size - base) (count * 8)))

-- The loop over `cand_lens`.
unfoldable pub detect_length : ℕ → ℕ → List ℕ → ℕ
detect_length size count [] = 32
detect_length size count (hl ∷ hls) =
    let later = detect_length size count hls in if fits_size size count hl then hl else later

-- An offset with the top bit stands for the next eight bytes; the last component are the bytes left.
unfoldable pub large_offsets : List ℕ → List ℕ → Result (List ℕ × List ℕ)
large_offsets [] bytes = ok ([], bytes)
large_offsets (off ∷ offs) bytes =
    let small = large_offsets offs bytes >>= λ r. ok (off ∷ r.0, r.1) in
    let large = large_offsets offs (drop 8 bytes) >>= λ r.
    ok ((read32 bytes * 2 ^ 32 + read32 (drop 4 bytes)) ∷ r.0, r.1) in
    if bit_and off 0x80000000 == 0 then small else if ltb (length bytes) 8 then err error else large

-- `fastgit_pack_index_data_t`
pub record IndexData : Type 0 where
  pub fanout : List ℕ
  pub oids : List (List ℕ)
  pub crc32s : List ℕ
  pub offsets : List ℕ
  pub pack_checksum : Option (List ℕ)

-- `if (ptr + (int)hash_len <= end)`
abbrev pub read_checksum : ℕ → List ℕ → Option (List ℕ)
read_checksum hash_len bytes =
    if leb hash_len (length bytes) then some (take hash_len bytes) else none

-- The part behind the fan-out. The code does not test that the file has the tables.
unfoldable pub load_tables : List ℕ → ℕ → ℕ → List ℕ → Result IndexData
load_tables fanout count hash_len bytes =
    let behind_oids = drop (count * hash_len) bytes in
    let behind_crcs = drop (count * 4) behind_oids in
    if ltb (length bytes) (count * hash_len + count * 4 + count * 4)
    then fault
    else (large_offsets (read_words count behind_crcs) (drop (count * 4) behind_crcs) >>= λ r.
        ok (record {
          fanout = fanout;
          oids = read_oids hash_len count bytes;
          crc32s = read_words count behind_oids;
          offsets = r.0;
          pack_checksum = read_checksum hash_len r.1;
        }))

-- `fastgit_pack_index_load`
unfoldable pub index_load : List ℕ → Result IndexData
index_load bytes =
    let fanout = read_words 256 (drop 8 bytes) in
    let count = get_or fanout 255 0 in
    if not (str_eq (take 8 bytes) index_magic)
    then err error
    else if ltb (length bytes) (8 + 1024)
    then fault
    else load_tables fanout count (detect_length (length bytes) count (20 ∷ 32 ∷ 48 ∷ 64 ∷ []))
        (drop 1032 bytes)

-- The index that the search looks at.
abbrev pub index_of : IndexData → PackIndex
index_of data' = record {
  fanout = λ f. get_or data'.fanout f 0;
  oids = data'.oids;
  offsets = data'.offsets;
}
