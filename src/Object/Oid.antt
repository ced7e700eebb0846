-- ===== src/Object/Oid.antt =====
-- src/object/object.c: `fastgit_oid_cmp`, `fastgit_oid_to_hex`, `fastgit_oid_from_hex`. The first
-- `len` bytes of `hash` are the list `hash`; a string is the list of its characters' codes.
pub mod Hex
pub mod Order
use fastgit.Common.{
  ℕ, ◌+◌, ◌-◌, ◌*◌, ◌/◌, ◌%◌, ◌^◌, bit_and, bit_or, Bool, true, false, ◌&&◌, List, [], ◌∷◌, length,
  get_or, ltb, leb, ◌==◌, if◌then◌else◌, Result, ok, err, einval, eoverflow, ◌>>=◌,
}
use fastgit.Index.Entry.{Oid}

-- "0123456789abcdef"
abbrev pub hex_digits : List ℕ
hex_digits = 48 ∷ 49 ∷ 50 ∷ 51 ∷ 52 ∷ 53 ∷ 54 ∷ 55 ∷ 56 ∷ 57 ∷ 97 ∷ 98 ∷ 99 ∷ 100 ∷ 101 ∷ 102 ∷ []

-- `hex[i]` for an index below 16
unfoldable pub hex_digit : ℕ → ℕ
hex_digit i = get_or hex_digits i 0

-- The loop over the bytes.
unfoldable pub to_hex : List ℕ → List ℕ
to_hex [] = []
to_hex (b ∷ bs) = hex_digit (b / 2 ^ 4) ∷ hex_digit (bit_and b 0x0F) ∷ to_hex bs

-- The three tests on a character.
unfoldable pub digit_value : ℕ → Result ℕ
digit_value c =
    if leb 48 c && leb c 57
    then ok (c - 48)
    else if leb 97 c && leb c 102
    then ok (c - 97 + 10)
    else if leb 65 c && leb c 70
    then ok (c - 65 + 10)
    else err einval

-- `val = high << 4; val |= low;` in a `uint8_t`
unfoldable pub hex_byte : ℕ → ℕ → ℕ
hex_byte high low = bit_or (high * 2 ^ 4 % 2 ^ 8) low

-- The loop over the pairs of characters.
unfoldable pub from_hex_loop : List ℕ → Result (List ℕ)
from_hex_loop [] = ok []
from_hex_loop (c ∷ []) = err einval
from_hex_loop (c ∷ d ∷ rest) =
    let more = from_hex_loop rest in
    digit_value c >>= λ high.
    digit_value d >>= λ low. more >>= λ bytes. ok (hex_byte high low ∷ bytes)

-- The algorithm by the length: FASTGIT_HASH_SHA1, FASTGIT_HASH_SHA384, FASTGIT_HASH_SHA3_512, or
-- FASTGIT_HASH_SHA256.
unfoldable pub algo_of_length : ℕ → ℕ
algo_of_length len =
    if len == 20
    then 0
    else if len == 32
    then 1
    else if len == 48
    then 2
    else if len == 64
    then 5
    else 1

-- FASTGIT_HASH_MAX_DIGEST is 64.
unfoldable pub oid_from_hex : List ℕ → Result Oid
oid_from_hex hex =
    let bytes = from_hex_loop hex in
    if length hex % 2 == 0
    then (if ltb 64 (length hex / 2)
        then err eoverflow
        else bytes >>= λ bs. ok (record { hash = bs; algo = algo_of_length (length hex / 2) }))
    else err einval
