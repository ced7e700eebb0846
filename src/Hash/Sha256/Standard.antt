-- ===== src/Hash/Sha256/Standard.antt =====
-- FIPS 180-4: SHA-256 as the standard writes it, apart from src/hash/sha256.c.
use fastgit.Common.{
  ℕ, zero, suc, ◌+◌, ◌-◌, ◌*◌, ◌/◌, ◌%◌, ◌^◌, ◌≡◌, refl, ap, ◌∙◌, bit_and, bit_or, bit_xor, leb,
  if◌then◌else◌, List, [], ◌∷◌, ◌++◌, length, get_or, map, take, drop, replicate, ◌<◌, arith,
}
use fastgit.Common.Bits.{bit_and-mask}
use fastgit.Hash.Blocks.{be_bytes}
use fastgit.Hash.Blocks.Padding.{zeros}
use fastgit.Hash.Blocks.Stream.{fold_blocks}
use fastgit.Hash.Sha256.{
  Regs, round_constants, initial_state, rotr, big_sigma0, big_sigma1, sigma0, sigma1, ch, maj,
  block_words, schedule, compress_round, compress, load_regs, transform, digest_bytes,
}

-- The greatest number with a power of at most `x`, by its bits from `n - 1` down.
root : ℕ → ℕ → ℕ → ℕ → ℕ
root zero power x acc = acc
root (suc n) power x acc =
    root n power x (if leb ((acc + 2 ^ n) ^ power) x then acc + 2 ^ n else acc)

-- The first 32 bits of the fractional part of a root.
fraction : ℕ → ℕ → ℕ
fraction power p = root 36 power (p * 2 ^ (32 * power)) 0 % 2 ^ 32

-- The first 64 prime numbers.
abbrev primes : List ℕ
primes =
    2 ∷ 3 ∷ 5 ∷ 7 ∷ 11 ∷ 13 ∷ 17 ∷ 19 ∷ 23 ∷ 29 ∷ 31 ∷ 37 ∷ 41 ∷ 43 ∷ 47 ∷ 53 ∷ 59 ∷ 61 ∷ 67 ∷ 71
    ∷ 73 ∷ 79 ∷ 83 ∷ 89 ∷ 97 ∷ 101 ∷ 103 ∷ 107 ∷ 109 ∷ 113 ∷ 127 ∷ 131 ∷ 137 ∷ 139 ∷ 149 ∷ 151 ∷ 157
    ∷ 163 ∷ 167 ∷ 173 ∷ 179 ∷ 181 ∷ 191 ∷ 193 ∷ 197 ∷ 199 ∷ 211 ∷ 223 ∷ 227 ∷ 229 ∷ 233 ∷ 239 ∷ 241
    ∷ 251 ∷ 257 ∷ 263 ∷ 269 ∷ 271 ∷ 277 ∷ 281 ∷ 283 ∷ 293 ∷ 307 ∷ 311 ∷ []

-- 4.2.2: from the cube roots; 5.3.3: from the square roots of the first eight.
constants : List ℕ
constants = map (fraction 3) primes

initial_hash : List ℕ
initial_hash = map (fraction 2) (take 8 primes)

constants-eq : round_constants ≡ constants
unfolding constants fraction root
constants-eq = refl

initial_hash-eq : initial_state ≡ initial_hash
unfolding initial_hash fraction root
initial_hash-eq = refl

-- 3.2: the rotation to the right of a word of 32 bits.
right_rotation : ℕ → ℕ → ℕ
right_rotation n x = bit_or (x / 2 ^ n) (x * 2 ^ (32 - n) % 2 ^ 32)

-- 4.1.2: the sum of three rotations, and of two rotations and a shift.
rotations : ℕ → ℕ → ℕ → ℕ → ℕ
rotations i j k x = bit_xor (bit_xor (right_rotation i x) (right_rotation j x)) (right_rotation k x)

rotations_shift : ℕ → ℕ → ℕ → ℕ → ℕ
rotations_shift i j k x = bit_xor (bit_xor (right_rotation i x) (right_rotation j x)) (x / 2 ^ k)

choice : ℕ → ℕ → ℕ → ℕ
choice x y z = bit_xor (bit_and x y) (bit_and (2 ^ 32 - 1 - x) z)

majority : ℕ → ℕ → ℕ → ℕ
majority x y z = bit_xor (bit_xor (bit_and x y) (bit_and x z)) (bit_and y z)

-- 6.2.2, 1: the first words are those of the block, the next ones depend on those 2, 7, 15 and 16
-- places before.
message_words : ℕ → List ℕ → List ℕ
message_words zero block = []
message_words (suc n) block =
    bit_or
      (bit_or (bit_or (get_or block 0 0 * 2 ^ 24) (get_or block 1 0 * 2 ^ 16))
        (get_or block 2 0 * 2 ^ 8))
      (get_or block 3 0)
    ∷ message_words n (drop 4 block)

next_words : ℕ → List ℕ → List ℕ
next_words zero w = w
next_words (suc n) w =
    let t = length w in
    next_words n (
      w
      ++ ((rotations_shift 17 19 10 (get_or w (t - 2) 0)
              + get_or w (t - 7) 0
              + rotations_shift 7 18 3 (get_or w (t - 15) 0)
              + get_or w (t - 16) 0)
            % 2 ^ 32
          ∷ []))

-- 6.2.2, 3: one step, and all of them.
step : Regs → ℕ → ℕ → Regs
step v k w =
    let t₁ = (v.h + rotations 6 11 25 v.e + choice v.e v.f v.g + k + w) % 2 ^ 32 in
    let t₂ = (rotations 2 13 22 v.a + majority v.a v.b v.c) % 2 ^ 32 in
    record {
      h = v.g;
      g = v.f;
      f = v.e;
      e = (v.d + t₁) % 2 ^ 32;
      d = v.c;
      c = v.b;
      b = v.a;
      a = (t₁ + t₂) % 2 ^ 32;
    }

steps : List ℕ → List ℕ → Regs → Regs
steps (k ∷ ks) (w ∷ ws) v = steps ks ws (step v k w)
steps ks ws v = v

-- 6.2.2, 2 and 4: the working variables start as the hash, and are added to it.
next_hash : List ℕ → List ℕ → List ℕ
next_hash hash block =
    let word = λ (i : ℕ). get_or hash i 0 in
    let v = steps constants (next_words 48 (message_words 16 block)) (record {
      a = word 0;
      b = word 1;
      c = word 2;
      d = word 3;
      e = word 4;
      f = word 5;
      g = word 6;
      h = word 7;
    }) in
    (word 0 + v.a) % 2 ^ 32
    ∷ (word 1 + v.b) % 2 ^ 32
    ∷ (word 2 + v.c) % 2 ^ 32
    ∷ (word 3 + v.d) % 2 ^ 32
    ∷ (word 4 + v.e) % 2 ^ 32
    ∷ (word 5 + v.f) % 2 ^ 32
    ∷ (word 6 + v.g) % 2 ^ 32
    ∷ (word 7 + v.h) % 2 ^ 32
    ∷ []

-- A number in `n` bytes, the highest first.
big_endian : ℕ → ℕ → List ℕ
big_endian zero x = []
big_endian (suc n) x = x / 2 ^ (8 * n) % 2 ^ 8 ∷ big_endian n x

-- 5.1.1: the bit 1, the fewest zeros that leave 8 bytes in a block, and the number of bits.
padding_of : ℕ → List ℕ
padding_of n = 0x80 ∷ (replicate ((119 - n % 64) % 64) 0 ++ big_endian 8 (n * 8))

digest_of : List ℕ → List ℕ
digest_of [] = []
digest_of (x ∷ xs) = big_endian 4 x ++ digest_of xs

-- 6.2: the padded message, block by block.
pub sha256_standard : List ℕ → List ℕ
sha256_standard msg =
    let padded = msg ++ padding_of (length msg) in
    digest_of (fold_blocks 64 next_hash (length padded / 64) initial_hash padded)

-- What the code feeds behind a message: the byte 0x80, zeros up to 56 bytes in a block, and the bits.
unfoldable pub padding : ℕ → List ℕ
padding n = 0x80 ∷ (replicate (zeros 64 56 (n % 64)) 0 ++ be_bytes 8 (n * 8 % 2 ^ 64))

-- The code's round is the standard's.
compress_round-step : (r : Regs) (k w : ℕ) → compress_round r k w ≡ step r k w
unfolding compress_round step big_sigma0 big_sigma1 rotr rotations right_rotation ch choice maj
    majority
compress_round-step r k w = refl

compress-steps : (ks ws : List ℕ) (r : Regs) → compress ks ws r ≡ steps ks ws r
unfolding compress steps
compress-steps [] ws r = refl
compress-steps (k ∷ ks) [] r = refl
compress-steps (k ∷ ks) (w ∷ ws) r =
    ap (compress ks ws) (compress_round-step r k w) ∙ compress-steps ks ws (step r k w)

block_words-message_words : (n : ℕ) (block : List ℕ) → block_words n block ≡ message_words n block
unfolding block_words message_words
block_words-message_words zero block = refl
block_words-message_words (suc n) block = rw (block_words-message_words n (drop 4 block)) refl

schedule-next_words : (n : ℕ) (w : List ℕ) → schedule n w ≡ next_words n w
unfolding schedule next_words sigma0 sigma1 rotr rotations_shift right_rotation
schedule-next_words zero w = refl
schedule-next_words (suc n) w = schedule-next_words n _

transform-next_hash : (state block : List ℕ) → transform state block ≡ next_hash state block
unfolding transform next_hash load_regs
transform-next_hash state block =
    rw
      (
        block_words-message_words 16 block,
        schedule-next_words 48 (message_words 16 block),
        compress-steps round_constants (next_words 48 (message_words 16 block)) (load_regs state),
        constants-eq,
      )
      refl

fold_blocks-eq :
    (n : ℕ) (state xs : List ℕ)
    → fold_blocks 64 transform n state xs ≡ fold_blocks 64 next_hash n state xs
unfolding fold_blocks
fold_blocks-eq zero state xs = refl
fold_blocks-eq (suc n) state xs =
    fold_blocks-eq n (transform state (take 64 xs)) (drop 64 xs)
    ∙ ap (λ s. fold_blocks 64 next_hash n s (drop 64 xs)) (transform-next_hash state (take 64 xs))

be_bytes-big_endian : (n x : ℕ) → be_bytes n x ≡ big_endian n x
unfolding be_bytes big_endian
be_bytes-big_endian zero x = refl
be_bytes-big_endian (suc n) x = rw (bit_and-mask 8 (x / 2 ^ (8 * n)), be_bytes-big_endian n x) refl

digest_bytes-digest_of : (ws : List ℕ) → digest_bytes ws ≡ digest_of ws
unfolding digest_bytes digest_of
digest_bytes-digest_of [] = refl
digest_bytes-digest_of (w ∷ ws) = rw (be_bytes-big_endian 4 w, digest_bytes-digest_of ws) refl

padding-padding_of : (n : ℕ) → n < 2 ^ 61 → padding n ≡ padding_of n
unfolding padding padding_of
padding-padding_of n small =
    let some_zeros : zeros 64 56 (n % 64) ≡ (119 - n % 64) % 64 = ground arith in
    let bits : n * 8 % 2 ^ 64 ≡ n * 8 = omega arith in
    rw (some_zeros, bits, be_bytes-big_endian 8 (n * 8)) refl

-- The digest of the padded message by the code's transform is the standard's.
pub digest-standard :
    (msg : List ℕ)
    → length msg < 2 ^ 61
    → let padded = msg ++ padding (length msg) in
      digest_bytes (fold_blocks 64 transform (length padded / 64) initial_state padded)
      ≡ sha256_standard msg
unfolding sha256_standard
digest-standard msg small =
    let padded = msg ++ padding_of (length msg) in
    rw
      (
        padding-padding_of (length msg) small,
        fold_blocks-eq (length padded / 64) initial_state padded,
        initial_hash-eq,
        digest_bytes-digest_of (fold_blocks 64 next_hash (length padded / 64) initial_hash padded),
      )
      refl
