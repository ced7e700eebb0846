-- ===== src/Hash/Sha384.antt =====
-- src/hash/sha384.c, without OpenSSL.
pub mod Undefined
use fastgit.Common.{
  ℕ, zero, suc, ◌+◌, ◌-◌, ◌*◌, ◌/◌, ◌%◌, ◌^◌, bit_and, bit_or, bit_xor, List, [], ◌∷◌, ◌++◌, length,
  get_or, take, drop, leb, if◌then◌else◌, Result, ok, fault, ◌>>=◌,
}
use fastgit.Hash.Blocks.{BlockCtx, write_at, be_bytes, update, start_final}
use fastgit.Hash.Sha256.{Regs, load_regs}

abbrev pub round_constants64 : List ℕ
round_constants64 =
    0x428a2f98d728ae22 ∷ 0x7137449123ef65cd ∷ 0xb5c0fbcfec4d3b2f ∷ 0xe9b5dba58189dbbc
    ∷ 0x3956c25bf348b538 ∷ 0x59f111f1b605d019 ∷ 0x923f82a4af194f9b ∷ 0xab1c5ed5da6d8118
    ∷ 0xd807aa98a3030242 ∷ 0x12835b0145706fbe ∷ 0x243185be4ee4b28c ∷ 0x550c7dc3d5ffb4e2
    ∷ 0x72be5d74f27b896f ∷ 0x80deb1fe3b1696b1 ∷ 0x9bdc06a725c71235 ∷ 0xc19bf174cf692694
    ∷ 0xe49b69c19ef14ad2 ∷ 0xefbe4786384f25e3 ∷ 0x0fc19dc68b8cd5b5 ∷ 0x240ca1cc77ac9c65
    ∷ 0x2de92c6f592b0275 ∷ 0x4a7484aa6ea6e483 ∷ 0x5cb0a9dcbd41fbd4 ∷ 0x76f988da831153b5
    ∷ 0x983e5152ee66dfab ∷ 0xa831c66d2db43210 ∷ 0xb00327c898fb213f ∷ 0xbf597fc7beef0ee4
    ∷ 0xc6e00bf33da88fc2 ∷ 0xd5a79147930aa725 ∷ 0x06ca6351e003826f ∷ 0x142929670a0e6e70
    ∷ 0x27b70a8546d22ffc ∷ 0x2e1b21385c26c926 ∷ 0x4d2c6dfc5ac42aed ∷ 0x53380d139d95b3df
    ∷ 0x650a73548baf63de ∷ 0x766a0abb3c77b2a8 ∷ 0x81c2c92e47edaee6 ∷ 0x92722c851482353b
    ∷ 0xa2bfe8a14cf10364 ∷ 0xa81a664bbc423001 ∷ 0xc24b8b70d0f89791 ∷ 0xc76c51a30654be30
    ∷ 0xd192e819d6ef5218 ∷ 0xd69906245565a910 ∷ 0xf40e35855771202a ∷ 0x106aa07032bbd1b8
    ∷ 0x19a4c116b8d2d0c8 ∷ 0x1e376c085141ab53 ∷ 0x2748774cdf8eeb99 ∷ 0x34b0bcb5e19b48a8
    ∷ 0x391c0cb3c5c95a63 ∷ 0x4ed8aa4ae3418acb ∷ 0x5b9cca4f7763e373 ∷ 0x682e6ff3d6b2b8a3
    ∷ 0x748f82ee5defb2fc ∷ 0x78a5636f43172f60 ∷ 0x84c87814a1f0ab72 ∷ 0x8cc702081a6439ec
    ∷ 0x90befffa23631e28 ∷ 0xa4506cebde82bde9 ∷ 0xbef9a3f7b2c67915 ∷ 0xc67178f2e372532b
    ∷ 0xca273eceea26619c ∷ 0xd186b8c721c0c207 ∷ 0xeada7dd6cde0eb1e ∷ 0xf57d4f7fee6ed178
    ∷ 0x06f067aa72176fba ∷ 0x0a637dc5a2c898a6 ∷ 0x113f9804bef90dae ∷ 0x1b710b35131c471b
    ∷ 0x28db77f523047d84 ∷ 0x32caab7b40c72493 ∷ 0x3c9ebe0a15c9bebc ∷ 0x431d67c49c100d4c
    ∷ 0x4cc5d4becb3e42b6 ∷ 0x597f299cfc657e2a ∷ 0x5fcb6fab3ad6faec ∷ 0x6c44198c4a475817 ∷ []

-- ROTR64
unfoldable pub rotr64 : ℕ → ℕ → ℕ
rotr64 x n = bit_or (x / 2 ^ n) (x * 2 ^ (64 - n) % 2 ^ 64)

-- SIGMA0_64, SIGMA1_64, sigma0_64, sigma1_64, CH64, MAJ64
unfoldable pub big_sigma0_64 : ℕ → ℕ
big_sigma0_64 x = bit_xor (bit_xor (rotr64 x 28) (rotr64 x 34)) (rotr64 x 39)

unfoldable pub big_sigma1_64 : ℕ → ℕ
big_sigma1_64 x = bit_xor (bit_xor (rotr64 x 14) (rotr64 x 18)) (rotr64 x 41)

unfoldable pub sigma0_64 : ℕ → ℕ
sigma0_64 x = bit_xor (bit_xor (rotr64 x 1) (rotr64 x 8)) (x / 2 ^ 7)

unfoldable pub sigma1_64 : ℕ → ℕ
sigma1_64 x = bit_xor (bit_xor (rotr64 x 19) (rotr64 x 61)) (x / 2 ^ 6)

unfoldable pub ch64 : ℕ → ℕ → ℕ → ℕ
ch64 x y z = bit_xor (bit_and x y) (bit_and (2 ^ 64 - 1 - x) z)

unfoldable pub maj64 : ℕ → ℕ → ℕ → ℕ
maj64 x y z = bit_xor (bit_xor (bit_and x y) (bit_and x z)) (bit_and y z)

-- `W[0]` to `W[15]`: `n` words from the block
unfoldable pub block_words64 : ℕ → List ℕ → List ℕ
block_words64 zero block = []
block_words64 (suc n) block =
    bit_or
      (bit_or
        (bit_or
          (bit_or
            (bit_or
              (bit_or (bit_or (get_or block 0 0 * 2 ^ 56) (get_or block 1 0 * 2 ^ 48))
                (get_or block 2 0 * 2 ^ 40))
              (get_or block 3 0 * 2 ^ 32))
            (get_or block 4 0 * 2 ^ 24))
          (get_or block 5 0 * 2 ^ 16))
        (get_or block 6 0 * 2 ^ 8))
      (get_or block 7 0)
    ∷ block_words64 n (drop 8 block)

-- `W[16]` to `W[79]`, by the rounds left; `i` is the number of words that are there.
unfoldable pub schedule64 : ℕ → List ℕ → List ℕ
schedule64 zero w = w
schedule64 (suc n) w =
    let i = length w in
    let word =
      (sigma1_64 (get_or w (i - 2) 0)
        + get_or w (i - 7) 0
        + sigma0_64 (get_or w (i - 15) 0)
        + get_or w (i - 16) 0)
      % 2 ^ 64 in
    schedule64 n (w ++ (word ∷ []))

-- One round, on `K[i]` and `W[i]`
unfoldable pub compress_round64 : Regs → ℕ → ℕ → Regs
compress_round64 r k w =
    let t1 = (r.h + big_sigma1_64 r.e + ch64 r.e r.f r.g + k + w) % 2 ^ 64 in
    let t2 = (big_sigma0_64 r.a + maj64 r.a r.b r.c) % 2 ^ 64 in
    record {
      a = (t1 + t2) % 2 ^ 64;
      b = r.a;
      c = r.b;
      d = r.c;
      e = (r.d + t1) % 2 ^ 64;
      f = r.e;
      g = r.f;
      h = r.g;
    }

-- The loop over the 80 constants.
unfoldable pub compress64 : List ℕ → List ℕ → Regs → Regs
compress64 (k ∷ ks) (w ∷ ws) r = compress64 ks ws (compress_round64 r k w)
compress64 ks ws r = r

-- `sha512_transform`
unfoldable pub transform64 : List ℕ → List ℕ → List ℕ
transform64 state block =
    let s = load_regs state in
    let r = compress64 round_constants64 (schedule64 64 (block_words64 16 block)) s in
    (s.a + r.a) % 2 ^ 64
    ∷ (s.b + r.b) % 2 ^ 64
    ∷ (s.c + r.c) % 2 ^ 64
    ∷ (s.d + r.d) % 2 ^ 64
    ∷ (s.e + r.e) % 2 ^ 64
    ∷ (s.f + r.f) % 2 ^ 64
    ∷ (s.g + r.g) % 2 ^ 64
    ∷ (s.h + r.h) % 2 ^ 64
    ∷ []

abbrev pub initial_state64 : List ℕ
initial_state64 =
    0xcbbb9d5dc1059ed8 ∷ 0x629a292a367cd507 ∷ 0x9159015a3070dd17 ∷ 0x152fecd8f70e5939
    ∷ 0x67332667ffc00b31 ∷ 0x8eb44a8768581511 ∷ 0xdb0c2e0d64f98fa7 ∷ 0x47b5481dbefa4fa4 ∷ []

unfoldable pub sha384_init : BlockCtx → BlockCtx
sha384_init ctx = record ctx { state = initial_state64; count = 0 }

unfoldable pub sha384_reset : BlockCtx → BlockCtx
sha384_reset ctx = sha384_init ctx

unfoldable pub sha384_update : BlockCtx → List ℕ → Result BlockCtx
sha384_update = update 128 transform64

-- `(bits >> (120 - i * 8)) & 0xFF` for the 16 values of `i`, by the rounds left. A shift of a
-- `uint64_t` by 64 or more is undefined.
unfoldable pub length_bytes : ℕ → ℕ → ℕ → Result (List ℕ)
length_bytes zero i bits = ok []
length_bytes (suc n) i bits =
    if leb 64 (120 - i * 8)
    then fault
    else (length_bytes n (i + 1) bits >>= λ rest.
        ok (bit_and (bits / 2 ^ (120 - i * 8)) 0xFF ∷ rest))

-- The bytes of the words of the state, the highest first.
unfoldable pub digest_bytes64 : List ℕ → List ℕ
digest_bytes64 [] = []
digest_bytes64 (w ∷ ws) = be_bytes 8 w ++ digest_bytes64 ws

unfoldable pub sha384_final : BlockCtx → Result (List ℕ)
sha384_final ctx =
    let (state, buffer) = start_final 128 transform64 112 ctx in
    length_bytes 16 0 (ctx.count * 8 % 2 ^ 64) >>= λ bytes.
    ok (digest_bytes64 (take 6 (transform64 state (write_at buffer 112 bytes))))
