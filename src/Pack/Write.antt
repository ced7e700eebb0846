-- ===== src/Pack/Write.antt =====
-- src/pack/packfile.c: a pack that is written, `fastgit_pack_create`, `fastgit_pack_add_object`,
-- `fastgit_pack_close` and the order that `fastgit_pack_index_create` gives the names. The file is
-- the list of its bytes, and the calls of the file system and `malloc` succeed. Of the libraries,
-- `compress` is zlib's `compress2`, `crc32` zlib's, `digest` the hash of src/hash, `decimal` what
-- "%zu" prints.
pub mod Order
pub mod Permuted
pub mod Names
pub mod Rows
pub mod Stored
pub mod Closed
pub mod RoundTrip
use Prim.Native.Nat.{Ordering, lt, eq, gt}
use fastgit.Common.{
  ℕ, zero, suc, ◌+◌, ◌%◌, ◌^◌, Bool, true, false, List, [], ◌∷◌, ◌++◌, length, take, drop, map,
  get_or, ◌==◌, if◌then◌else◌,
}
use fastgit.Index.Disk.{be32}
use fastgit.Object.Oid.Order.{memcmp}
use fastgit.Pack.Header.{encode_pack_header}
use fastgit.Pack.Lookup.{fanout_at}
use fastgit.Pack.Read.{Pack, PackIndex, PackObject}

-- An element of `w_oids`, `w_crcs` and `w_offsets`.
pub record Row : Type 0 where
  pub oid : List ℕ
  pub crc : ℕ
  pub offset : ℕ

-- The rows stand in the order in which they were added; `w_count` is their number.
pub record PackWriter : Type 0 where
  pub file : List ℕ
  pub rows : List Row
  pub cur_offset : ℕ
  pub object_count : ℕ
  pub objects_written : ℕ
  pub bytes_written : ℕ

-- FASTGIT_PACK_SIGNATURE, the version 2, and a count of 0.
unfoldable pub pack_create : PackWriter
pack_create = record {
  file = be32 0x5041434B ++ (be32 2 ++ be32 0);
  rows = [];
  cur_offset = 12;
  object_count = 0;
  objects_written = 0;
  bytes_written = 0;
}

-- "commit", "tree", "tag", "blob"
unfoldable pub type_string : ℕ → List ℕ
type_string type =
    if type == 3
    then 99 ∷ 111 ∷ 109 ∷ 109 ∷ 105 ∷ 116 ∷ []
    else if type == 2
    then 116 ∷ 114 ∷ 101 ∷ 101 ∷ []
    else if type == 4
    then 116 ∷ 97 ∷ 103 ∷ []
    else 98 ∷ 108 ∷ 111 ∷ 98 ∷ []

-- FASTGIT_OBJ_* to FASTGIT_PACK_OBJ_*
unfoldable pub pack_type : ℕ → ℕ
pack_type t =
    if t == 3 then 1 else if t == 2 then 2 else if t == 1 then 3 else if t == 4 then 4 else 3

module _ (digest : List ℕ → List ℕ) (decimal : ℕ → List ℕ) where
  -- `oid_of_object`: "%s %zu", the 0 behind it, and the data.
  unfoldable pub oid_of_object : ℕ → List ℕ → List ℕ
  oid_of_object type bytes =
      digest (type_string type ++ (32 ∷ (decimal (length bytes) ++ (0 ∷ bytes))))

module _ (digest : List ℕ → List ℕ) (decimal : ℕ → List ℕ) (compress : List ℕ → List ℕ)
    (crc32 : ℕ → List ℕ → ℕ) where
  -- `fastgit_pack_add_object`
  unfoldable pub pack_add_object : PackWriter → ℕ → List ℕ → PackWriter
  pack_add_object w type bytes =
      let hdr = encode_pack_header (pack_type type) (length bytes) in
      let comp = compress bytes in
      record {
        file = w.file ++ (hdr ++ comp);
        rows =
            w.rows
            ++ (record {
              oid = oid_of_object digest decimal type bytes;
              crc = crc32 (crc32 0 hdr) comp;
              offset = w.cur_offset;
            }
                ∷ []);
        cur_offset = (w.cur_offset + (length hdr + length comp)) % 2 ^ 64;
        object_count = (w.object_count + 1) % 2 ^ 32;
        objects_written = (w.objects_written + 1) % 2 ^ 64;
        bytes_written = (w.bytes_written + length bytes) % 2 ^ 64;
      }

  -- One call after another.
  unfoldable pub pack_add_all : PackWriter → List PackObject → PackWriter
  pack_add_all w [] = w
  pack_add_all w (o ∷ os) = pack_add_all (pack_add_object w o.type o.bytes) os

-- The count is written over the bytes 8 to 11, the hash of all of it behind the file.
unfoldable pub pack_close : (List ℕ → List ℕ) → PackWriter → List ℕ
pack_close digest w =
    let counted = take 8 w.file ++ (be32 w.object_count ++ drop 12 w.file) in
    counted ++ digest counted

-- `… > 0`
abbrev pub is_gt : Ordering → Bool
is_gt lt = false
is_gt eq = false
is_gt gt = true

-- `while (j >= 0 && memcmp(…) > 0)`: the rows so far, the last one first. For the `int j` see
-- `write_index`.
unfoldable pub place_row : Row → List Row → List Row
place_row key [] = key ∷ []
place_row key (r ∷ rs) =
    let below = place_row key rs in if is_gt (memcmp r.oid key.oid) then r ∷ below else key ∷ r ∷ rs

unfoldable pub place_rows : List Row → List Row → List Row
place_rows rs [] = rs
place_rows rs (key ∷ keys) = place_rows (place_row key rs) keys

-- From the last one first to the first one first.
unfoldable pub rev_onto : List Row → List Row → List Row
rev_onto [] acc = acc
rev_onto (r ∷ rs) acc = rev_onto rs (r ∷ acc)

-- `order`
unfoldable pub index_order : List Row → List Row
index_order rows = rev_onto (place_rows [] rows) []

abbrev pub row_oid : Row → List ℕ
row_oid r = r.oid

-- The offsets are written in 32 bits.
abbrev pub row_offset : Row → ℕ
row_offset r = r.offset % 2 ^ 32

-- The names, the fan-out and the offsets that `fastgit_pack_index_create` writes.
unfoldable pub pack_index_create : List Row → PackIndex
pack_index_create rows =
    let order = index_order rows in
    record {
      fanout = fanout_at (map row_oid order);
      oids = map row_oid order;
      offsets = map row_offset order;
    }
