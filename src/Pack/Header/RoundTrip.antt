-- ===== src/Pack/Header/RoundTrip.antt =====
-- The parser of the header of an object after its writer.
use fastgit.Common.{
  ℕ, zero, suc, ◌+◌, ◌*◌, ◌/◌, ◌%◌, ◌^◌, ◌≤◌, ◌<◌, bit_and, bit_or, ◌≡◌, refl, ap, ◌∙◌, arith,
  Bool-cases, inl, inr, true, false, List, [], ◌∷◌, ◌++◌, length, ◌==◌, if◌then◌else◌, Result, ok,
}
use fastgit.Common.Bits.{bit_and-mask, bit_or-disjoint, bit_or-high}
use native.Mathlib.Nat.{pow-suc}
use fastgit.Pack.Varint.RoundTrip.{top_bit, or_group, split_group, shift_seven, group_below}
use fastgit.Pack.Header.{
  parse_header_loop, parse_pack_header, mark_more, encode_header_loop, encode_pack_header,
}

-- A byte below 128 with its mark: the low bits, and the test of the mark.
mark_more-low : (c left : ℕ) → c < 128 → bit_and (mark_more c left) 0x7F ≡ c
mark_more-low c left small = elim (Bool-cases (left == 0)) [
  | inl done ↦ rw done (omega (arith, bit_and-mask 7 c))
  | inr more ↦ rw more (omega (arith, bit_and-mask 7 (bit_or c 0x80), bit_or-disjoint 7 c 1 small))
]

mark_more_value : (c left : ℕ) → c < 128 → mark_more c left ≡ c + (if left == 0 then 0 else 128)
mark_more_value c left small = elim (Bool-cases (left == 0)) [
  | inl done ↦ rw done (omega arith)
  | inr more ↦ rw more (bit_or-disjoint 7 c 1 small)
]

mark_more-top : (c left : ℕ) → c < 128 → (bit_and (mark_more c left) 0x80 == 0) ≡ (left == 0)
mark_more-top c left small = elim (Bool-cases (left == 0)) [
  | inl done ↦ rw done (ground (arith, top_bit c))
  | inr more ↦ rw more (ground (arith, top_bit (bit_or c 0x80), bit_or-disjoint 7 c 1 small))
]

stop_at :
    (rest : List ℕ) (c i shift sz : ℕ)
    → (bit_and c 0x80 == 0) ≡ true
    → parse_header_loop rest c i shift sz ≡ ok (sz, i)
unfolding parse_header_loop
stop_at [] c i shift sz h = ground arith
stop_at (b ∷ rest) c i shift sz h = ground arith

go_on :
    (b : ℕ) (rest : List ℕ) (c i shift sz : ℕ)
    → (bit_and c 0x80 == 0) ≡ false
    → shift < 64
    → i < 10
    → parse_header_loop (b ∷ rest) c i shift sz
      ≡ parse_header_loop rest b
          (i + 1)
          (shift + 7)
          (bit_or sz (bit_and b 0x7F * 2 ^ shift % 2 ^ 64))
unfolding parse_header_loop
go_on b rest c i shift sz h small short = ground arith

encode_none : (fuel w : ℕ) → w ≡ 0 → encode_header_loop fuel w ≡ []
unfolding encode_header_loop
encode_none zero w h = refl
encode_none (suc fuel) w h = rw h refl

encode_some :
    (fuel w : ℕ)
    → (w == 0) ≡ false
    → encode_header_loop (suc fuel) w
      ≡ mark_more (bit_and w 0x7F) (w / 128) ∷ encode_header_loop fuel (w / 128)
unfolding encode_header_loop
encode_some fuel w h = rw h refl

result : (a b x y : ℕ) → a ≡ x → b ≡ y → ◌≡◌ {A = Result (ℕ × ℕ)} (ok (a, b)) (ok (x, y))
result a b x y p q = rw (p, q) refl

Parses : ℕ → ℕ → ℕ → ℕ → ℕ → ℕ → List ℕ → Type 0
Parses fuel w c i shift sz rest =
    parse_header_loop (encode_header_loop fuel w ++ rest) c i shift sz
    ≡ ok (sz + w * 2 ^ shift, i + length (encode_header_loop fuel w))

parse_none :
    (fuel w c i shift sz : ℕ) (rest : List ℕ)
    → (bit_and c 0x80 == 0) ≡ (w == 0)
    → w ≡ 0
    → Parses fuel w c i shift sz rest
unfolding Parses
parse_none fuel w c i shift sz rest top none =
    let gone : w * 2 ^ shift ≡ 0 = rw none (omega arith) in
    rw (encode_none fuel w none) (
      stop_at rest c i shift sz (top ∙ ground arith)
      ∙ result sz i (sz + w * 2 ^ shift) (i + 0) (omega (arith, gone)) (omega arith))

parse_some :
    (fuel w c i shift sz : ℕ) (rest : List ℕ)
    → (bit_and c 0x80 == 0) ≡ (w == 0)
    → (w == 0) ≡ false
    → i < 10
    → shift < 64
    → sz < 2 ^ shift
    → sz + w * 2 ^ shift < 2 ^ 64
    → Parses fuel
        (w / 128)
        (mark_more (bit_and w 0x7F) (w / 128))
        (i + 1)
        (shift + 7)
        (sz + w % 128 * 2 ^ shift)
        rest
    → Parses (suc fuel) w c i shift sz rest
unfolding Parses
parse_some fuel w c i shift sz rest top more short small low fits next =
    let b = mark_more (bit_and w 0x7F) (w / 128) in
    let group : bit_and w 0x7F ≡ w % 128 = bit_and-mask 7 w in
    let low_bits : bit_and b 0x7F ≡ w % 128 =
      mark_more-low (bit_and w 0x7F) (w / 128) (omega (arith, group)) ∙ group in
    let split = split_group w shift in
    let added = or_group (w % 128) sz shift low (omega (arith, split)) in
    rw (encode_some fuel w more) (
      go_on b (encode_header_loop fuel (w / 128) ++ rest) c i shift sz (top ∙ more) small short
      ∙ rw (low_bits, added) next
      ∙ result (sz + w % 128 * 2 ^ shift + w / 128 * 2 ^ (shift + 7))
          (i + 1 + length (encode_header_loop fuel (w / 128))) (sz + w * 2 ^ shift)
          (i + length (b ∷ encode_header_loop fuel (w / 128))) (omega (arith, split)) (omega arith))

parse_header_loop-encode :
    (fuel w c i shift sz : ℕ) (rest : List ℕ)
    → (bit_and c 0x80 == 0) ≡ (w == 0)
    → w < 128 ^ fuel
    → i + fuel ≤ 10
    → shift + 7 * fuel ≡ 67
    → sz < 2 ^ shift
    → sz + w * 2 ^ shift < 2 ^ 64
    → Parses fuel w c i shift sz rest
parse_header_loop-encode zero w c i shift sz rest top small room bits low fits =
    parse_none zero w c i shift sz rest top (omega arith)
parse_header_loop-encode (suc fuel) w c i shift sz rest top small room bits low fits =
    elim (Bool-cases (w == 0)) [
      | inl done ↦ parse_none (suc fuel) w c i shift sz rest top (ground (arith, done))
      | inr more ↦
          let group : bit_and w 0x7F ≡ w % 128 = bit_and-mask 7 w in
          let split = split_group w shift in
          let seven = shift_seven shift in
          parse_some fuel w c i shift sz rest top more (omega arith) (omega arith) low fits (
            parse_header_loop-encode fuel (w / 128) (mark_more (bit_and w 0x7F) (w / 128)) (i + 1)
              (shift + 7) (sz + w % 128 * 2 ^ shift) rest
              (mark_more-top (bit_and w 0x7F) (w / 128) (omega (arith, group)))
              (omega (arith, pow-suc 128 fuel)) (omega arith) (omega arith)
              (omega (arith, seven, group_below (w % 128) (2 ^ shift) sz)) (omega (arith, split)))
    ]

-- `parse_pack_header` reads back the type, below 8, and the `uint64_t` size that
-- `encode_pack_header` wrote, whatever follows, and returns the number of bytes written.
pub parse_pack_header-encode_pack_header :
    (type size : ℕ) (rest : List ℕ)
    → type < 8
    → size < 2 ^ 64
    → parse_pack_header (encode_pack_header type size ++ rest)
      ≡ ok (type, size, length (encode_pack_header type size))
unfolding parse_pack_header encode_pack_header Parses
parse_pack_header-encode_pack_header type size rest known fits =
    let c = bit_or (type * 2 ^ 4) (bit_and size 0x0F) % 2 ^ 8 in
    let low : bit_and size 0x0F ≡ size % 16 = bit_and-mask 4 size in
    let first : c ≡ type * 16 + size % 16 =
      omega (arith, low, bit_or-high 4 (bit_and size 0x0F) type) in
    let top = mark_more-top c (size / 2 ^ 4) (omega (arith, first)) in
    let m = mark_more c (size / 2 ^ 4) in
    let value = mark_more_value c (size / 2 ^ 4) (omega (arith, first)) in
    let nibble : bit_and m 0x0F ≡ size % 16 = ground (arith, bit_and-mask 4 m, value, first) in
    let kind : bit_and (m / 2 ^ 4) 0x07 ≡ type =
      ground (arith, bit_and-mask 3 (m / 2 ^ 4), value, first) in
    let run =
      parse_header_loop-encode 9 (size / 2 ^ 4) m 1 4 (size % 16) rest top (omega arith)
        (omega arith) (omega arith) (omega arith) (omega arith) in
    let whole : size % 16 + size / 2 ^ 4 * 2 ^ 4 ≡ size = omega arith in
    rw (nibble, run, kind, whole) (ap (λ (n : ℕ). ok (type, size, n)) (omega arith))
