-- ===== src/Pack/Header/Bounds.antt =====
-- The parsers read inside their buffer, and ten bytes at most.
use fastgit.Common.{
  ℕ, ◌+◌, ◌*◌, ◌/◌, ◌%◌, ◌^◌, ◌≤◌, ◌<◌, bit_and, bit_or, ◌≡◌, arith, List, [], ◌∷◌, length, ok,
  >>=-Post,
}
use fastgit.Common.Bits.{bit_and-mask}
use fastgit.Pack.Header.{
  parse_header_loop, parse_pack_header, parse_ofs_loop, parse_ofs_delta_offset,
}

parse_header_loop-le :
    (p : List ℕ) (c i shift sz : ℕ) (r : ℕ × ℕ)
    → i ≤ 10
    → parse_header_loop p c i shift sz ≡ ok r
    → (r.1 ≤ i + length p) × (r.1 ≤ 10)
unfolding parse_header_loop
parse_header_loop-le [] c i shift sz r short = ground arith
parse_header_loop-le (b ∷ rest) c i shift sz r short = ground (
  arith,
  parse_header_loop-le rest b (i + 1) (shift + 7) (bit_or sz (bit_and b 0x7F * 2 ^ shift % 2 ^ 64))
      r,
)

parse_ofs_loop-le :
    (p : List ℕ) (c i off : ℕ) (r : ℕ × ℕ)
    → i ≤ 10
    → parse_ofs_loop p c i off ≡ ok r
    → (r.0 ≤ i + length p) × (r.0 ≤ 10)
unfolding parse_ofs_loop
parse_ofs_loop-le [] c i off r short = ground arith
parse_ofs_loop-le (b ∷ rest) c i off r short = ground (
  arith,
  parse_ofs_loop-le rest b (i + 1) (bit_or ((off + 1) * 2 ^ 7 % 2 ^ 64) (bit_and b 0x7F)) r,
)

-- A header that `parse_pack_header` accepts ends inside the buffer, is ten bytes long at most, and
-- has a type below 8.
pub parse_pack_header-le :
    (p : List ℕ) (r : ℕ × ℕ × ℕ)
    → parse_pack_header p ≡ ok r
    → (r.2 ≤ length p) × (r.2 ≤ 10) × (r.0 < 8)
unfolding parse_pack_header
parse_pack_header-le [] r h = cc
parse_pack_header-le (c ∷ rest) r h =
    >>=-Post (λ (t : ℕ × ℕ × ℕ). (t.2 ≤ length (c ∷ rest)) × (t.2 ≤ 10) × (t.0 < 8))
      (parse_header_loop rest c 1 4 (bit_and c 0x0F)) _
      (λ s e t f. ground (
        arith,
        parse_header_loop-le rest c 1 4 (bit_and c 0x0F) s (omega arith) e,
        bit_and-mask 3 (c / 2 ^ 4),
      ))
      r h

-- A distance that `parse_ofs_delta_offset` accepts ends inside the buffer and takes ten bytes at
-- most.
pub parse_ofs_delta_offset-le :
    (p : List ℕ) (r : ℕ × ℕ) → parse_ofs_delta_offset p ≡ ok r → (r.0 ≤ length p) × (r.0 ≤ 10)
unfolding parse_ofs_delta_offset
parse_ofs_delta_offset-le [] r h = cc
parse_ofs_delta_offset-le (c ∷ rest) r h =
    omega (arith, parse_ofs_loop-le rest c 1 (bit_and c 0x7F) r (omega arith) h)
