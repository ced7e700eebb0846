-- ===== src/Examples/Packs.antt =====
-- Runs of src/pack/packfile.c on packs.
use fastgit.Common.{
  zero, suc, IsBytes, get_elem?, ◌%◌, ◌^◌, ◌<◌, ◌+◌, ℕ, ◌≡◌, refl, arith, Bool, true, List, [], ◌∷◌,
  ◌++◌, length, take, take-length-append, ap, replicate, none, some, ok,
}
use fastgit.Pack.Varint.{decode_varint, decode_loop}
use fastgit.Pack.Delta.{
  git_delta_apply, git_apply_loop, apply_command, read_sizes, read_copy, read_arg, copy_base,
  insert_bytes,
}
use fastgit.Pack.Header.{
  encode_pack_header, encode_header_loop, parse_ofs_delta_offset, parse_ofs_loop,
}
use fastgit.Pack.Read.{Pack, PackObject, Stream, ended, pack_obj_type_from_git, pack_read_object_at}
use fastgit.Pack.Write.{
  PackWriter, Row, pack_close, pack_add_all, pack_add_object, pack_create, pack_type,
}
use fastgit.Pack.Write.Stored.{name_of}
use fastgit.Pack.Write.RoundTrip.{IsStorable, ReadsBack}
use fastgit.Pack.IndexFile.{IndexData, write_index, index_of}
use fastgit.Pack.IndexFile.RoundTrip.{Reloaded, index_load-write_index}
use fastgit.Pack.Open.{pack_open}
use fastgit.Pack.Read.Entry.{fresh_pack}
use fastgit.Pack.Open.RoundTrip.{pack_open-pack_close}
use fastgit.Pack.Read.Compressed.{pack_read_object_at-delta_compress}
use fastgit.Pack.Compress.{delta_compress, make_tables, compress_loop, best_match, flush}
use fastgit.Pack.Varint.{encode_varint, encode_loop}
use fastgit.Pack.Read.Chains.{Chain, pack_read_object_at-Chain}

-- Memory for everything.
abbrev memory : ℕ → Bool
memory size = true

-- A format without compression, in place of zlib's.
abbrev stored : List ℕ → List ℕ
stored bytes = bytes

abbrev unpacked : List ℕ → ℕ → Stream
unpacked bytes room = ended (take room bytes)

unpacked-stored : (d rest : List ℕ) → unpacked (stored d ++ rest) (length d) ≡ ended d
unpacked-stored d rest = ap ended (take-length-append d rest)

-- A blob of the bytes 7 and 8, and behind it a delta that adds a 9.
abbrev delta_bytes : List ℕ
delta_bytes = 2 ∷ 3 ∷ 0x90 ∷ 2 ∷ 1 ∷ 9 ∷ []

abbrev tail_bytes : List ℕ
tail_bytes = 0x66 ∷ 3 ∷ (delta_bytes ++ replicate 32 0)

abbrev pack : Pack
pack = record {
  mapped = 0x50 ∷ 0x41 ∷ 0x43 ∷ 0x4b ∷ 0 ∷ 0 ∷ 0 ∷ 2 ∷ 0 ∷ 0 ∷ 0 ∷ 2 ∷ 0x32 ∷ 7 ∷ 8 ∷ tail_bytes;
  index = none;
  objects_read = 0;
  bytes_read = 0;
}

abbrev blob : PackObject
blob = record { type = 1; bytes = 7 ∷ 8 ∷ [] }

blob-Chain : Chain memory stored unpacked unpacked-stored pack 0 12 blob
unfolding encode_pack_header encode_header_loop pack_obj_type_from_git
blob-Chain =
    Chain.plain 12 3 (7 ∷ 8 ∷ []) tail_bytes refl (omega arith) (omega arith) (omega arith)
      (omega arith) refl

applied : git_delta_apply memory (some (7 ∷ 8 ∷ [])) delta_bytes ≡ ok (7 ∷ 8 ∷ 9 ∷ [], 3)
unfolding git_delta_apply git_apply_loop apply_command read_sizes read_copy read_arg copy_base
    insert_bytes decode_varint decode_loop
applied = refl

longer-Chain :
    Chain memory stored unpacked unpacked-stored pack 1 15
      (record { type = 1; bytes = 7 ∷ 8 ∷ 9 ∷ [] })
unfolding encode_pack_header encode_header_loop parse_ofs_delta_offset parse_ofs_loop
longer-Chain =
    Chain.delta 0 15 3 delta_bytes (3 ∷ []) (replicate 32 0) (7 ∷ 8 ∷ 9 ∷ []) blob refl refl
      (omega arith) (omega arith) (omega arith) refl (omega arith) blob-Chain applied

pack_read_object_at-Chain_example :
    pack_read_object_at memory unpacked pack 33 15
    ≡ ok (record { type = 1; bytes = 7 ∷ 8 ∷ 9 ∷ [] })
pack_read_object_at-Chain_example =
    pack_read_object_at-Chain memory stored unpacked unpacked-stored pack 33 (omega arith)
      longer-Chain

-- The same with a delta as `fastgit_delta_compress` makes it: for a base of two bytes, an insertion.
abbrev made_delta : List ℕ
made_delta = 2 ∷ 3 ∷ 3 ∷ 7 ∷ 8 ∷ 9 ∷ []

abbrev made_tail : List ℕ
made_tail = 0x66 ∷ 3 ∷ (made_delta ++ replicate 32 0)

abbrev made_pack : Pack
made_pack = record pack { mapped = take 12 pack.mapped ++ (0x32 ∷ 7 ∷ 8 ∷ made_tail) }

made_blob-Chain : Chain memory stored unpacked unpacked-stored made_pack 0 12 blob
unfolding encode_pack_header encode_header_loop pack_obj_type_from_git
made_blob-Chain =
    Chain.plain 12 3 (7 ∷ 8 ∷ []) made_tail refl (omega arith) (omega arith) (omega arith)
      (omega arith) refl

made_delta_made : delta_compress memory (some (7 ∷ 8 ∷ [])) (7 ∷ 8 ∷ 9 ∷ []) ≡ ok made_delta
unfolding delta_compress make_tables compress_loop best_match flush encode_varint encode_loop
made_delta_made = refl

pack_read_object_at-delta_compress_example :
    pack_read_object_at memory unpacked made_pack 33 15
    ≡ ok (record { type = 1; bytes = 7 ∷ 8 ∷ 9 ∷ [] })
unfolding encode_pack_header encode_header_loop parse_ofs_delta_offset parse_ofs_loop
pack_read_object_at-delta_compress_example =
    pack_read_object_at-delta_compress memory stored unpacked unpacked-stored memory made_pack 0 15
      3 blob (7 ∷ 8 ∷ 9 ∷ []) made_delta (3 ∷ []) (replicate 32 0) (omega arith) made_blob-Chain
      (omega arith) (omega arith, (omega arith, tt)) (omega arith)
      (omega arith, (omega arith, (omega arith, tt))) (omega arith) refl refl made_delta_made
      (omega arith) refl refl refl (omega arith) (omega arith) (omega arith)

-- A name that depends on the length alone, in place of a hash.
abbrev short_digest : List ℕ → List ℕ
short_digest bytes = replicate 32 (length bytes % 2 ^ 8)

abbrev one_digit : ℕ → List ℕ
one_digit n = (48 + n) ∷ []

abbrev short_crc : ℕ → List ℕ → ℕ
short_crc crc bytes = length bytes % 2 ^ 32

short_digest-IsBytes : (bytes : List ℕ) → IsBytes (short_digest bytes)
short_digest-IsBytes bytes = All-replicate 32 (length bytes % 2 ^ 8) (omega arith)
  where
    All-replicate : (n b : ℕ) → b < 256 → IsBytes (replicate n b)
    All-replicate zero b h = tt
    All-replicate (suc n) b h = (h, All-replicate n b h)

abbrev commit : PackObject
commit = record { type = 3; bytes = 5 ∷ 6 ∷ 7 ∷ [] }

abbrev two_objects : List PackObject
two_objects = commit ∷ blob ∷ []

small-IsStorable :
    (o : PackObject)
    → 0 < o.type
    → o.type < 5
    → length o.bytes < 2 ^ 32
    → IsStorable short_digest one_digit stored short_crc memory unpacked unpacked-stored
        (λ bytes. refl)
        o
small-IsStorable o above below size = record {
  above = above;
  below = below;
  size = size;
  memory = refl;
}

abbrev writer : PackWriter
writer = pack_add_all short_digest one_digit stored short_crc pack_create two_objects

pack_open-pack_close_example :
    (idx_file : List ℕ) × (write_index short_digest writer.rows (pack_close short_digest writer)
      ≡ ok idx_file)
    × (loaded : IndexData) × (pack_open (pack_close short_digest writer) idx_file
        ≡ ok (fresh_pack (pack_close short_digest writer) (index_of loaded), 2))
    × ((i : ℕ) (o : PackObject)
        → get_elem? two_objects i ≡ some o
        → ReadsBack short_digest one_digit stored short_crc memory unpacked unpacked-stored
            (λ bytes. refl)
            two_objects
            (index_of loaded)
            (name_of short_digest one_digit o))
unfolding pack_close pack_add_all pack_add_object pack_create encode_pack_header encode_header_loop
    pack_type
pack_open-pack_close_example =
    pack_open-pack_close short_digest one_digit stored short_crc memory unpacked unpacked-stored
      (λ bytes. refl) short_digest-IsBytes (λ crc bytes. omega arith) two_objects
      (
        small-IsStorable commit (omega arith) (omega arith) (omega arith),
        (small-IsStorable blob (omega arith) (omega arith) (omega arith), tt),
      )
      (omega arith) (omega arith)

-- Two rows that the sort swaps.
abbrev row_at : ℕ → ℕ → Row
row_at n offset = record { oid = replicate 32 n; crc = 77; offset = offset }

abbrev two_rows : List Row
two_rows = row_at 9 12 ∷ row_at 4 300 ∷ []

index_load-write_index_example : Reloaded short_digest two_rows (replicate 400 1)
index_load-write_index_example =
    index_load-write_index short_digest two_rows (replicate 400 1) (λ bytes. refl)
      (
        record { sized = refl; first = omega arith; crc = omega arith; offset = omega arith },
        (record { sized = refl; first = omega arith; crc = omega arith; offset = omega arith }, tt),
      )
      (omega arith)
