-- ===== src/Pack/Read.antt =====
-- src/pack/packfile.c: `pack_read_object_at` with `inflate_slice`, `fastgit_pack_read_entry`,
-- `fastgit_pack_read_header` and `fastgit_pack_exists`. A pack is the bytes that are mapped and its
-- index in memory. `inflate` is zlib's: what it makes of the stream at the front of the bytes, with
-- room for so many.
pub mod Chains
pub mod Entry
pub mod Compressed
use fastgit.Common.{
  ℕ, zero, suc, ◌+◌, ◌-◌, ◌%◌, ◌^◌, Bool, true, false, List, [], ◌∷◌, length, take, drop, get_elem?,
  ltb, ◌==◌, if◌then◌else◌, Option, none, some, Result, ok, err, fault, stuck, error, enoent,
  enomem, ◌>>=◌, ◌>>◌, guard,
}
use fastgit.Pack.Delta.{git_delta_apply}
use fastgit.Pack.Header.{parse_pack_header, parse_ofs_delta_offset}
use fastgit.Pack.Lookup.{pack_index_find}

-- The part of `fastgit_pack_index_data_t` that a read looks at.
pub record PackIndex : Type 0 where
  pub fanout : ℕ → ℕ
  pub oids : List (List ℕ)
  pub offsets : List ℕ

pub record Pack : Type 0 where
  pub mapped : List ℕ
  pub index : Option PackIndex
  pub objects_read : ℕ
  pub bytes_read : ℕ

-- `*type_out`, and the `*size_out` bytes at `*data_out`.
pub record PackObject : Type 0 where
  pub type : ℕ
  pub bytes : List ℕ

-- `pack_obj_type_from_git`: FASTGIT_PACK_OBJ_* to FASTGIT_OBJ_*.
unfoldable pub pack_obj_type_from_git : ℕ → ℕ
pack_obj_type_from_git t =
    if t == 1
    then 3
    else if t == 2
    then 2
    else if t == 3
    then 1
    else if t == 4
    then 4
    else if t == 6
    then 6
    else if t == 7
    then 7
    else 1

-- `mapped_size - cur - 32` for the bytes from `cur` on, in a `size_t`.
abbrev pub left_for : ℕ → ℕ
left_for size = (size + 2 ^ 64 - 32) % 2 ^ 64

-- What zlib answers: Z_STREAM_END with the content; that it has used up the bytes; any other error.
pub data Stream : Type 0 where
  ended : List ℕ → Stream
  used_up broken : Stream

-- The result of `inflate`; a stream that goes on where more bytes were promised than are mapped is
-- read out of bounds.
unfoldable pub inflated : ℕ → Bool → Stream → Result (List ℕ)
inflated out_len beyond used_up = if beyond then fault else err error
inflated out_len beyond broken = err error
inflated out_len beyond (ended out) = if length out == out_len then ok out else err error

-- `e != FASTGIT_OK` of the search in the index.
unfoldable pub or_enoent : Result ℕ → Result ℕ
or_enoent (ok i) = ok i
or_enoent (err e) = err enoent
or_enoent fault = fault
or_enoent stuck = stuck

-- `pack->index->data.offsets[bi]`
unfoldable pub offset_of : PackIndex → ℕ → Result ℕ
offset_of idx i = elim (get_elem? idx.offsets i) [ none ↦ fault | some off ↦ ok off ]

-- `pack->index?pack->index->data.oids[0].len:32`
unfoldable pub hash_length : Option PackIndex → Result ℕ
hash_length none = ok 32
hash_length (some idx) = elim (get_elem? idx.oids 0) [ none ↦ fault | some oid ↦ ok (length oid) ]

-- Where the base of a FASTGIT_PACK_OBJ_REF_DELTA stands.
unfoldable pub find_base : Option PackIndex → List ℕ → Result ℕ
find_base none oid = err enoent
find_base (some idx) oid =
    or_enoent (pack_index_find idx.fanout idx.oids oid) >>= λ i. offset_of idx i

module _ (malloc : ℕ → Bool) (inflate : List ℕ → ℕ → Stream) where
  -- `zs.avail_in` and `zs.avail_out` have 32 bits; `zs.total_out` is tested against all of `out_len`.
  unfoldable pub inflate_slice : List ℕ → ℕ → ℕ → Result (List ℕ)
  inflate_slice bytes avail out_len =
      let avail_in = avail % 2 ^ 32 in
      inflated out_len (ltb (length bytes) avail_in)
        (inflate (take avail_in bytes) (out_len % 2 ^ 32))

  unfoldable pub read_plain : ℕ → ℕ → List ℕ → Result PackObject
  read_plain type psize body =
      guard (malloc psize) enomem
      >> (inflate_slice body (left_for (length body)) psize >>= λ out.
          ok (record { type = pack_obj_type_from_git type; bytes = out }))

  -- The delta on its base, which is read behind the delta.
  unfoldable pub read_on_base : Result PackObject → List ℕ → Result PackObject
  read_on_base base delta = base >>= λ b. git_delta_apply malloc (some b.bytes) delta >>= λ r.
      ok (record { type = b.type; bytes = r.0 })

  -- The last argument stands for the call of `pack_read_object_at` itself.
  unfoldable pub read_ofs_delta : ℕ → ℕ → ℕ → List ℕ → (ℕ → Result PackObject) → Result PackObject
  read_ofs_delta mapped_size offset psize body read = parse_ofs_delta_offset body >>= λ o.
      let rest = drop o.0 body in
      let avail = left_for (length rest) in
      guard (malloc psize) enomem
      >> (inflate_slice rest (if ltb mapped_size avail then 0 else avail) psize >>= λ delta.
          read_on_base (read ((offset + 2 ^ 64 - o.1) % 2 ^ 64)) delta)

  unfoldable pub read_ref_delta :
      Option PackIndex → ℕ → List ℕ → (ℕ → Result PackObject) → Result PackObject
  read_ref_delta index psize body read = hash_length index >>= λ hash_len.
      let rest = drop hash_len body in
      if ltb (length body) hash_len
      then err error
      else (guard (malloc psize) enomem
          >> (inflate_slice rest (left_for (length rest)) psize >>= λ delta.
              find_base index (take hash_len body) >>= λ base_off.
              read_on_base (read base_off) delta))

  -- The three branches behind the header.
  unfoldable pub read_typed :
      Pack → ℕ → ℕ × ℕ × ℕ → List ℕ → (ℕ → Result PackObject) → Result PackObject
  read_typed pack offset header body read =
      if header.0 == 6
      then read_ofs_delta (length pack.mapped) offset header.1 body read
      else if header.0 == 7
      then read_ref_delta pack.index header.1 body read
      else read_plain header.0 header.1 body

  -- `offset + 12` wraps; an offset behind the map is read out of bounds.
  unfoldable pub read_at : Pack → ℕ → (ℕ → Result PackObject) → Result PackObject
  read_at pack offset read =
      let bytes = drop offset pack.mapped in
      if ltb (length pack.mapped) ((offset + 12) % 2 ^ 64)
      then err enoent
      else if ltb (length pack.mapped) offset
      then fault
      else (parse_pack_header bytes >>= λ header.
          read_typed pack offset header (drop header.2 bytes) read)

  -- `pack_read_object_at`, where `33 - depth` calls are left.
  unfoldable pub pack_read_object_at : Pack → ℕ → ℕ → Result PackObject
  pack_read_object_at pack zero offset = err error
  pack_read_object_at pack (suc left) offset =
      read_at pack offset (λ base_off. pack_read_object_at pack left base_off)

  -- `fastgit_pack_read_entry`
  unfoldable pub pack_read_entry : Pack → List ℕ → Result (Pack × PackObject)
  pack_read_entry pack oid = elim pack.index [
    | none ↦ err enoent
    | some idx ↦ pack_index_find idx.fanout idx.oids oid >>= λ i. offset_of idx i >>= λ off.
        pack_read_object_at pack 33 off >>= λ o. ok (
          record pack {
            objects_read = (pack.objects_read + 1) % 2 ^ 64;
            bytes_read = (pack.bytes_read + length o.bytes) % 2 ^ 64;
          },
          o,
        )
  ]

  -- `fastgit_pack_read_header`
  unfoldable pub pack_read_header : Pack → List ℕ → Result (Pack × ℕ × ℕ)
  pack_read_header pack oid = pack_read_entry pack oid >>= λ r. ok (r.0, r.1.type, length r.1.bytes)

-- `fastgit_pack_exists`
unfoldable pub pack_exists : Pack → List ℕ → Result ℕ
pack_exists pack oid = elim pack.index [
  | none ↦ err enoent
  | some idx ↦ pack_index_find idx.fanout idx.oids oid
]
