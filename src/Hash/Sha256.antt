-- ===== src/Hash/Sha256.antt =====
-- src/hash/sha256.c, without OpenSSL.
pub mod Standard
pub mod Streaming
use fastgit.Common.{
  ℕ, zero, suc, ◌+◌, ◌-◌, ◌*◌, ◌/◌, ◌%◌, ◌^◌, bit_and, bit_or, bit_xor, List, [], ◌∷◌, ◌++◌, length,
  get_or, drop, Result, ok, ◌>>=◌,
}
use fastgit.Hash.Blocks.{BlockCtx, write_at, be_bytes, update, start_final}

abbrev pub round_constants : List ℕ
round_constants =
    0x428a2f98 ∷ 0x71374491 ∷ 0xb5c0fbcf ∷ 0xe9b5dba5 ∷ 0x3956c25b ∷ 0x59f111f1 ∷ 0x923f82a4
    ∷ 0xab1c5ed5 ∷ 0xd807aa98 ∷ 0x12835b01 ∷ 0x243185be ∷ 0x550c7dc3 ∷ 0x72be5d74 ∷ 0x80deb1fe
    ∷ 0x9bdc06a7 ∷ 0xc19bf174 ∷ 0xe49b69c1 ∷ 0xefbe4786 ∷ 0x0fc19dc6 ∷ 0x240ca1cc ∷ 0x2de92c6f
    ∷ 0x4a7484aa ∷ 0x5cb0a9dc ∷ 0x76f988da ∷ 0x983e5152 ∷ 0xa831c66d ∷ 0xb00327c8 ∷ 0xbf597fc7
    ∷ 0xc6e00bf3 ∷ 0xd5a79147 ∷ 0x06ca6351 ∷ 0x14292967 ∷ 0x27b70a85 ∷ 0x2e1b2138 ∷ 0x4d2c6dfc
    ∷ 0x53380d13 ∷ 0x650a7354 ∷ 0x766a0abb ∷ 0x81c2c92e ∷ 0x92722c85 ∷ 0xa2bfe8a1 ∷ 0xa81a664b
    ∷ 0xc24b8b70 ∷ 0xc76c51a3 ∷ 0xd192e819 ∷ 0xd6990624 ∷ 0xf40e3585 ∷ 0x106aa070 ∷ 0x19a4c116
    ∷ 0x1e376c08 ∷ 0x2748774c ∷ 0x34b0bcb5 ∷ 0x391c0cb3 ∷ 0x4ed8aa4a ∷ 0x5b9cca4f ∷ 0x682e6ff3
    ∷ 0x748f82ee ∷ 0x78a5636f ∷ 0x84c87814 ∷ 0x8cc70208 ∷ 0x90befffa ∷ 0xa4506ceb ∷ 0xbef9a3f7
    ∷ 0xc67178f2 ∷ []

unfoldable pub rotr : ℕ → ℕ → ℕ
rotr x n = bit_or (x / 2 ^ n) (x * 2 ^ (32 - n) % 2 ^ 32)

-- SIGMA0, SIGMA1, sigma0, sigma1, CH, MAJ
unfoldable pub big_sigma0 : ℕ → ℕ
big_sigma0 x = bit_xor (bit_xor (rotr x 2) (rotr x 13)) (rotr x 22)

unfoldable pub big_sigma1 : ℕ → ℕ
big_sigma1 x = bit_xor (bit_xor (rotr x 6) (rotr x 11)) (rotr x 25)

unfoldable pub sigma0 : ℕ → ℕ
sigma0 x = bit_xor (bit_xor (rotr x 7) (rotr x 18)) (x / 2 ^ 3)

unfoldable pub sigma1 : ℕ → ℕ
sigma1 x = bit_xor (bit_xor (rotr x 17) (rotr x 19)) (x / 2 ^ 10)

unfoldable pub ch : ℕ → ℕ → ℕ → ℕ
ch x y z = bit_xor (bit_and x y) (bit_and (2 ^ 32 - 1 - x) z)

unfoldable pub maj : ℕ → ℕ → ℕ → ℕ
maj x y z = bit_xor (bit_xor (bit_and x y) (bit_and x z)) (bit_and y z)

-- `W[0]` to `W[15]`: `n` words from the block
unfoldable pub block_words : ℕ → List ℕ → List ℕ
block_words zero block = []
block_words (suc n) block =
    bit_or
      (bit_or (bit_or (get_or block 0 0 * 2 ^ 24) (get_or block 1 0 * 2 ^ 16))
        (get_or block 2 0 * 2 ^ 8))
      (get_or block 3 0)
    ∷ block_words n (drop 4 block)

-- `W[16]` to `W[63]`, by the rounds left; `i` is the number of words that are there.
unfoldable pub schedule : ℕ → List ℕ → List ℕ
schedule zero w = w
schedule (suc n) w =
    let i = length w in
    let word =
      (sigma1 (get_or w (i - 2) 0)
        + get_or w (i - 7) 0
        + sigma0 (get_or w (i - 15) 0)
        + get_or w (i - 16) 0)
      % 2 ^ 32 in
    schedule n (w ++ (word ∷ []))

pub record Regs : Type 0 where
  pub a : ℕ
  pub b : ℕ
  pub c : ℕ
  pub d : ℕ
  pub e : ℕ
  pub f : ℕ
  pub g : ℕ
  pub h : ℕ

-- One round, on `K[i]` and `W[i]`
unfoldable pub compress_round : Regs → ℕ → ℕ → Regs
compress_round r k w =
    let t1 = (r.h + big_sigma1 r.e + ch r.e r.f r.g + k + w) % 2 ^ 32 in
    let t2 = (big_sigma0 r.a + maj r.a r.b r.c) % 2 ^ 32 in
    record {
      a = (t1 + t2) % 2 ^ 32;
      b = r.a;
      c = r.b;
      d = r.c;
      e = (r.d + t1) % 2 ^ 32;
      f = r.e;
      g = r.f;
      h = r.g;
    }

-- The loop over the 64 constants.
unfoldable pub compress : List ℕ → List ℕ → Regs → Regs
compress (k ∷ ks) (w ∷ ws) r = compress ks ws (compress_round r k w)
compress ks ws r = r

unfoldable pub load_regs : List ℕ → Regs
load_regs state = record {
  a = get_or state 0 0;
  b = get_or state 1 0;
  c = get_or state 2 0;
  d = get_or state 3 0;
  e = get_or state 4 0;
  f = get_or state 5 0;
  g = get_or state 6 0;
  h = get_or state 7 0;
}

unfoldable pub transform : List ℕ → List ℕ → List ℕ
transform state block =
    let s = load_regs state in
    let r = compress round_constants (schedule 48 (block_words 16 block)) s in
    (s.a + r.a) % 2 ^ 32
    ∷ (s.b + r.b) % 2 ^ 32
    ∷ (s.c + r.c) % 2 ^ 32
    ∷ (s.d + r.d) % 2 ^ 32
    ∷ (s.e + r.e) % 2 ^ 32
    ∷ (s.f + r.f) % 2 ^ 32
    ∷ (s.g + r.g) % 2 ^ 32
    ∷ (s.h + r.h) % 2 ^ 32
    ∷ []

abbrev pub initial_state : List ℕ
initial_state =
    0x6a09e667 ∷ 0xbb67ae85 ∷ 0x3c6ef372 ∷ 0xa54ff53a ∷ 0x510e527f ∷ 0x9b05688c ∷ 0x1f83d9ab
    ∷ 0x5be0cd19 ∷ []

-- The buffer keeps what it held.
unfoldable pub sha256_init : BlockCtx → BlockCtx
sha256_init ctx = record ctx { state = initial_state; count = 0 }

unfoldable pub sha256_reset : BlockCtx → BlockCtx
sha256_reset ctx = sha256_init ctx

unfoldable pub sha256_update : BlockCtx → List ℕ → Result BlockCtx
sha256_update = update 64 transform

-- The bytes of the words of the state, the highest first.
unfoldable pub digest_bytes : List ℕ → List ℕ
digest_bytes [] = []
digest_bytes (w ∷ ws) = be_bytes 4 w ++ digest_bytes ws

unfoldable pub sha256_final : BlockCtx → List ℕ
sha256_final ctx =
    let (state, buffer) = start_final 64 transform 56 ctx in
    digest_bytes (transform state (write_at buffer 56 (be_bytes 8 (ctx.count * 8 % 2 ^ 64))))
