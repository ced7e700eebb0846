-- ===== src/Pack/Header/Overlong.antt =====
-- A header whose size has too many bytes.
use fastgit.Common.{
  ℕ, ◌+◌, ◌*◌, ◌%◌, ◌^◌, ◌≤◌, ◌<◌, bit_and, bit_or, ◌≡◌, refl, arith, List, [], ◌∷◌, ◌++◌, length,
  All, fault,
}
use fastgit.Pack.Varint.RoundTrip.{top_bit}
use fastgit.Pack.Header.{parse_header_loop, parse_pack_header}

parse_header_loop_continue :
    (bs : List ℕ) (x c i shift sz : ℕ) (rest : List ℕ)
    → (128 ≤ c) × (c < 256)
    → All (λ b. (128 ≤ b) × (b < 256)) bs
    → shift + 7 * length bs ≡ 67
    → i + length bs ≡ 10
    → parse_header_loop (bs ++ (x ∷ rest)) c i shift sz ≡ fault
unfolding parse_header_loop
parse_header_loop_continue [] x c i shift sz rest top all far end = ground (arith, top_bit c)
parse_header_loop_continue (b ∷ bs) x c i shift sz rest top (range, all) far end = ground (
  arith,
  top_bit c,
  parse_header_loop_continue bs x b (i + 1) (shift + 7)
      (bit_or sz (bit_and b 0x7F * 2 ^ shift % 2 ^ 64)) rest range all,
)

-- Ten bytes with the top bit set, followed by any byte, make `parse_pack_header` shift a
-- `uint64_t` by 67, which is undefined: the test on the length comes behind the shift.
pub parse_pack_header_overlong :
    (c : ℕ) (bs : List ℕ) (x : ℕ) (rest : List ℕ)
    → (128 ≤ c) × (c < 256)
    → All (λ b. (128 ≤ b) × (b < 256)) bs
    → length bs ≡ 9
    → parse_pack_header ((c ∷ bs) ++ (x ∷ rest)) ≡ fault
unfolding parse_pack_header
parse_pack_header_overlong c bs x rest top all nine =
    rw
      (parse_header_loop_continue bs x c 1 4 (bit_and c 0x0F) rest top all (omega arith)
        (omega arith))
      refl
