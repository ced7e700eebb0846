-- ===== src/Object/Oid/Hex.antt =====
-- `fastgit_oid_from_hex` against `fastgit_oid_to_hex`.
use fastgit.Common.{
  ℕ, ◌*◌, ◌/◌, ◌^◌, ◌≤◌, ◌<◌, bit_and, ◌≡◌, refl, arith, List, [], ◌∷◌, length, IsBytes, Result, ok,
  err, fault, stuck,
}
use fastgit.Common.Bits.{bit_and-mask, all_below, agree_below}
use fastgit.Index.Entry.{Oid}
use fastgit.Object.Oid.{
  hex_digit, to_hex, digit_value, hex_byte, from_hex_loop, algo_of_length, oid_from_hex,
}

pub length-to_hex : (bs : List ℕ) → length (to_hex bs) ≡ length bs * 2
unfolding to_hex
length-to_hex [] = refl
length-to_hex (b ∷ bs) = omega (arith, length-to_hex bs)

value_or : Result ℕ → ℕ
value_or (ok v) = v
value_or (err e) = 99
value_or fault = 99
value_or stuck = 99

value_or→ok : (r : Result ℕ) (v : ℕ) → value_or r ≡ v → v < 16 → r ≡ ok v
unfolding value_or
value_or→ok (ok w) v h small = rw h refl
value_or→ok (err e) v h small = absurd (omega arith)
value_or→ok fault v h small = absurd (omega arith)
value_or→ok stuck v h small = absurd (omega arith)

digit_value-hex_digit : (v : ℕ) → v < 16 → digit_value (hex_digit v) ≡ ok v
unfolding all_below value_or digit_value hex_digit
digit_value-hex_digit v small =
    value_or→ok (digit_value (hex_digit v)) v
      (agree_below 16 (λ x. value_or (digit_value (hex_digit x))) (λ x. x) refl v small) small

hex_byte-digits : (b : ℕ) → b < 256 → hex_byte (b / 2 ^ 4) (bit_and b 0x0F) ≡ b
unfolding all_below hex_byte
hex_byte-digits = agree_below 256 (λ b. hex_byte (b / 2 ^ 4) (bit_and b 0x0F)) (λ b. b) refl

from_hex_loop-to_hex : (bs : List ℕ) → IsBytes bs → from_hex_loop (to_hex bs) ≡ ok bs
unfolding to_hex from_hex_loop
from_hex_loop-to_hex [] h = refl
from_hex_loop-to_hex (b ∷ bs) (byte, h) =
    let high = digit_value-hex_digit (b / 2 ^ 4) (omega arith) in
    let low = digit_value-hex_digit (bit_and b 0x0F) (omega (arith, bit_and-mask 4 b)) in
    rw (high, low, from_hex_loop-to_hex bs h, hex_byte-digits b byte) refl

-- `fastgit_oid_from_hex` reads the name back that `fastgit_oid_to_hex` wrote, for a name of 64
-- bytes at most whose algorithm is the one that its length stands for.
pub oid_from_hex-to_hex :
    (oid : Oid)
    → IsBytes oid.hash
    → length oid.hash ≤ 64
    → oid.algo ≡ algo_of_length (length oid.hash)
    → oid_from_hex (to_hex oid.hash) ≡ ok oid
unfolding oid_from_hex
oid_from_hex-to_hex oid bytes short algo =
    let len = length-to_hex oid.hash in
    let half : length oid.hash * 2 / 2 ≡ length oid.hash = omega arith in
    ground (arith, len, half, from_hex_loop-to_hex oid.hash bytes)
