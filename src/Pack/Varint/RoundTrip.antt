-- ===== src/Pack/Varint/RoundTrip.antt =====
-- `fastgit_decode_varint` against `fastgit_encode_varint`.
use fastgit.Common.{
  ℕ, zero, suc, ◌+◌, ◌*◌, ◌/◌, ◌%◌, ◌^◌, ◌≤◌, ◌<◌, bit_and, bit_or, ◌≡◌, refl, ap, arith, List, [],
  ◌∷◌, ◌++◌, length, All, ltb, ltb→lt, Bool-cases, inl, inr, ok, fault,
}
use fastgit.Common.Bits.{bit_and-mask, bit_or-disjoint, all_below, agree_below}
use fastgit.Pack.Varint.{encode_loop, encode_varint, decode_loop, decode_varint}
use native.Mathlib.Numerals.{towards_suc}
use native.Mathlib.Nat.{div-add-mod}

pub top_bit : (b : ℕ) → b < 256 → bit_and b 0x80 ≡ b / 128 * 128
unfolding all_below
top_bit = agree_below 256 (λ b. bit_and b 0x80) (λ b. b / 128 * 128) refl

inner_group : (w : ℕ) → bit_or (bit_and w 0x7f) 0x80 ≡ w % 128 + 128
inner_group w = rw (bit_and-mask 7 w) (bit_or-disjoint 7 (w % 128) 1 (omega arith))

pub shift_seven : (shift : ℕ) → 2 ^ (shift + 7) ≡ 128 * 2 ^ shift
shift_seven shift = simp towards_suc (omega arith)

pub split_group : (v shift : ℕ) → v * 2 ^ shift ≡ v % 128 * 2 ^ shift + v / 128 * 2 ^ (shift + 7)
split_group v shift =
    let whole = ap (λ (n : ℕ). n * 2 ^ shift) (div-add-mod v 128) in
    let above = ap (λ (n : ℕ). v / 128 * n) (shift_seven shift) in omega (arith, whole, above)

-- One round on a byte with the group `g`, below the bits read before.
pub or_group :
    (g val shift : ℕ)
    → val < 2 ^ shift
    → val + g * 2 ^ shift < 2 ^ 64
    → bit_or val (g * 2 ^ shift % 2 ^ 64) ≡ val + g * 2 ^ shift
or_group g val shift low fits =
    let e : g * 2 ^ shift % 2 ^ 64 ≡ g * 2 ^ shift = omega arith in
    rw e (bit_or-disjoint shift val g low)

last_byte :
    (w val shift i : ℕ) (rest : List ℕ)
    → w < 128
    → shift < 64
    → val < 2 ^ shift
    → val + w * 2 ^ shift < 2 ^ 64
    → decode_loop (w ∷ rest) val shift i ≡ ok (i + 1, val + w * 2 ^ shift)
unfolding decode_loop
last_byte w val shift i rest hw hs low fits =
    ground (arith, bit_and-mask 7 w, top_bit w, or_group w val shift)

inner_byte :
    (g val shift i : ℕ) (rest : List ℕ)
    → g < 128
    → shift < 64
    → val < 2 ^ shift
    → val + g * 2 ^ shift < 2 ^ 64
    → decode_loop ((g + 128) ∷ rest) val shift i
      ≡ decode_loop rest (val + g * 2 ^ shift) (shift + 7) (i + 1)
unfolding decode_loop
inner_byte g val shift i rest hg hs low fits =
    ground (arith, bit_and-mask 7 (g + 128), top_bit (g + 128), or_group g val shift)

encode_last : (f w : ℕ) → w < 128 → encode_loop (suc f) w ≡ w ∷ []
unfolding encode_loop
encode_last f w h = ground (arith, bit_and-mask 7 w)

encode_more :
    (f w : ℕ) → 128 ≤ w → encode_loop (suc f) w ≡ (w % 128 + 128) ∷ encode_loop f (w / 128)
unfolding encode_loop
encode_more f w h = ground (arith, inner_group w)

pub group_below : (g p val : ℕ) → g < 128 → val < p → val + g * p < 128 * p
group_below g p val hg hv = grind arith

decode_loop-encode :
    (f w val shift i : ℕ) (rest : List ℕ)
    → w < 128 ^ suc f
    → shift + 7 * f ≡ 63
    → val < 2 ^ shift
    → val + w * 2 ^ shift < 2 ^ 64
    → decode_loop (encode_loop (suc f) w ++ rest) val shift i
      ≡ ok (i + length (encode_loop (suc f) w), val + w * 2 ^ shift)
decode_loop-encode zero w val shift i rest hw hf low fits =
    rw (encode_last zero w (omega arith))
      (last_byte w val shift i rest (omega arith) (omega arith) low fits)
decode_loop-encode (suc f) w val shift i rest hw hf low fits = elim (Bool-cases (ltb w 128)) [
  | inl h ↦
      let small = ltb→lt w 128 h in
      rw (encode_last (suc f) w small) (last_byte w val shift i rest small (omega arith) low fits)
  | inr h ↦ ground (
    arith,
    encode_more (suc f) w,
    split_group w shift,
    shift_seven shift,
    inner_byte (w % 128) val shift i (encode_loop (suc f) (w / 128) ++ rest),
    group_below (w % 128) (2 ^ shift) val,
    decode_loop-encode f (w / 128) (val + w % 128 * 2 ^ shift) (shift + 7) (i + 1) rest,
  )
]

-- `fastgit_decode_varint` reads back the `uint64_t` that `fastgit_encode_varint` wrote, whatever
-- follows it, and returns the number of bytes written.
pub decode_varint-encode_varint :
    (v : ℕ) (rest : List ℕ)
    → v < 2 ^ 64
    → decode_varint (encode_varint v ++ rest) ≡ ok (length (encode_varint v), v)
unfolding decode_varint encode_varint
decode_varint-encode_varint v rest h = ground (arith, decode_loop-encode 9 v 0 0 0 rest)

decode_loop_continue :
    (bs : List ℕ) (x val shift i : ℕ) (rest : List ℕ)
    → All (λ b. (128 ≤ b) × (b < 256)) bs
    → 64 ≤ shift + 7 * length bs
    → decode_loop (bs ++ (x ∷ rest)) val shift i ≡ fault
unfolding decode_loop
decode_loop_continue [] x val shift i rest all far = ground arith
decode_loop_continue (b ∷ bs) x val shift i rest (range, all) far = ground (
  arith,
  top_bit b,
  decode_loop_continue bs x (bit_or val (bit_and b 0x7f * 2 ^ shift % 2 ^ 64)) (shift + 7) (i + 1)
      rest all,
)

-- Ten bytes with the top bit set, followed by any byte, make `fastgit_decode_varint` shift a
-- `uint64_t` by 70, which is undefined: the length of a number is not limited.
pub decode_varint_overlong :
    (bs : List ℕ) (x : ℕ) (rest : List ℕ)
    → All (λ b. (128 ≤ b) × (b < 256)) bs
    → length bs ≡ 10
    → decode_varint (bs ++ (x ∷ rest)) ≡ fault
unfolding decode_varint
decode_varint_overlong bs x rest all ten = decode_loop_continue bs x 0 0 0 rest all (omega arith)
