-- ===== src/Pack/Header.antt =====
-- src/pack/packfile.c: the header of an object in a pack, `parse_pack_header` and
-- `encode_pack_header`, and the distance to the base of a delta, `parse_ofs_delta_offset`. The
-- `avail` bytes at `p` are a list.
pub mod Overlong
pub mod Bounds
pub mod RoundTrip
use fastgit.Common.{
  ℕ, zero, suc, ◌+◌, ◌*◌, ◌/◌, ◌%◌, ◌^◌, bit_and, bit_or, List, [], ◌∷◌, ltb, leb, ◌==◌,
  if◌then◌else◌, Result, ok, err, fault, error, ◌>>=◌,
}

-- `while (c & 0x80)`: the bytes from `p[i]` on, `c`, `i`, `shift` and `sz`; the pair is `sz` and `i`.
-- A shift of a `uint64_t` by 64 or more is undefined.
unfoldable pub parse_header_loop : List ℕ → ℕ → ℕ → ℕ → ℕ → Result (ℕ × ℕ)
parse_header_loop [] c i shift sz = if bit_and c 0x80 == 0 then ok (sz, i) else err error
parse_header_loop (b ∷ rest) c i shift sz =
    let sz' = bit_or sz (bit_and b 0x7F * 2 ^ shift % 2 ^ 64) in
    let more = parse_header_loop rest b (i + 1) (shift + 7) sz' in
    if bit_and c 0x80 == 0
    then ok (sz, i)
    else if leb 64 shift
    then fault
    else if ltb 10 (i + 1)
    then err error
    else more

-- The results are the type, the size and the length of the header.
unfoldable pub parse_pack_header : List ℕ → Result (ℕ × ℕ × ℕ)
parse_pack_header [] = err error
parse_pack_header (c ∷ rest) =
    parse_header_loop rest c 1 4 (bit_and c 0x0F) >>= λ r. ok (bit_and (c / 2 ^ 4) 0x07, r.0, r.1)

-- `while (p[i-1] & 0x80)`: the bytes from `p[i]` on, `p[i-1]`, `i` and `off`; the pair is `i` and `off`.
unfoldable pub parse_ofs_loop : List ℕ → ℕ → ℕ → ℕ → Result (ℕ × ℕ)
parse_ofs_loop [] c i off = if bit_and c 0x80 == 0 then ok (i, off) else err error
parse_ofs_loop (b ∷ rest) c i off =
    let off' = bit_or ((off + 1) * 2 ^ 7 % 2 ^ 64) (bit_and b 0x7F) in
    let more = parse_ofs_loop rest b (i + 1) off' in
    if bit_and c 0x80 == 0 then ok (i, off) else if ltb 10 (i + 1) then err error else more

-- The results are the length and the distance.
unfoldable pub parse_ofs_delta_offset : List ℕ → Result (ℕ × ℕ)
parse_ofs_delta_offset [] = err error
parse_ofs_delta_offset (c ∷ rest) = parse_ofs_loop rest c 1 (bit_and c 0x7F)

-- `if (size) c |= 0x80;`, with the size that is left
abbrev pub mark_more : ℕ → ℕ → ℕ
mark_more c left = if left == 0 then c else bit_or c 0x80

-- `while (size)`, on fuel
unfoldable pub encode_header_loop : ℕ → ℕ → List ℕ
encode_header_loop zero size = []
encode_header_loop (suc fuel) size =
    let more =
      mark_more (bit_and size 0x7F) (size / 2 ^ 7) ∷ encode_header_loop fuel (size / 2 ^ 7) in
    if size == 0 then [] else more

-- The bytes of the header; of the 60 bits behind the first byte every round takes seven.
unfoldable pub encode_pack_header : ℕ → ℕ → List ℕ
encode_pack_header type size =
    mark_more (bit_or (type * 2 ^ 4) (bit_and size 0x0F) % 2 ^ 8) (size / 2 ^ 4)
    ∷ encode_header_loop 9 (size / 2 ^ 4)
