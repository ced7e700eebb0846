-- ===== src/Pack/Varint.antt =====
-- include/fastgit/pack.h: the variable-length integers in front of a delta.
pub mod RoundTrip
use fastgit.Common.{
  ℕ, zero, suc, ◌+◌, ◌*◌, ◌/◌, ◌%◌, ◌^◌, bit_and, bit_or, List, [], ◌∷◌, ltb, leb, ◌==◌,
  if◌then◌else◌, Result, ok, fault,
}

-- The loop of `fastgit_encode_varint`, on fuel; the bytes are what it writes to `buf`.
unfoldable pub encode_loop : ℕ → ℕ → List ℕ
encode_loop zero val = []
encode_loop (suc f) val =
    let more = bit_or (bit_and val 0x7f) 0x80 ∷ encode_loop f (val / 2 ^ 7) in
    if leb 0x80 val then more else bit_and val 0x7f ∷ []

-- A `uint64_t` takes 10 rounds at most.
unfoldable pub encode_varint : ℕ → List ℕ
encode_varint val = encode_loop 10 val

-- The loop of `fastgit_decode_varint`: the bytes not yet read, `val`, `shift` and `i`. The pair is
-- the value returned (0 when the input ends inside a number) and `*out`. A shift of a `uint64_t`
-- by 64 or more is undefined.
unfoldable pub decode_loop : List ℕ → ℕ → ℕ → ℕ → Result (ℕ × ℕ)
decode_loop [] val shift i = ok (0, 0)
decode_loop (b ∷ rest) val shift i =
    let val' = bit_or val (bit_and b 0x7f * 2 ^ shift % 2 ^ 64) in
    let more = decode_loop rest val' (shift + 7) (i + 1) in
    if leb 64 shift then fault else if bit_and b 0x80 == 0 then ok (i + 1, val') else more

unfoldable pub decode_varint : List ℕ → Result (ℕ × ℕ)
decode_varint buf = decode_loop buf 0 0 0
