-- ===== src/Hash/Keccak.antt =====
-- src/hash/sha3.c, without OpenSSL, on a little-endian machine. The five algorithms differ in the
-- rate, the length of the digest and the delimiter.
pub mod Digest
use fastgit.Common.{
  ℕ, zero, suc, ◌+◌, ◌-◌, ◌*◌, ◌/◌, ◌%◌, ◌^◌, min, bit_and, bit_or, bit_xor, Bool, true, false,
  List, [], ◌∷◌, ◌++◌, length, get_or, set, take, drop, replicate, ltb, ◌==◌, if◌then◌else◌, Result,
  ok, err, fault, stuck, einval, ◌>>=◌,
}

abbrev pub keccak_rc : List ℕ
keccak_rc =
    0x0000000000000001 ∷ 0x0000000000008082 ∷ 0x800000000000808a ∷ 0x8000000080008000
    ∷ 0x000000000000808b ∷ 0x0000000080000001 ∷ 0x8000000080008081 ∷ 0x8000000000008009
    ∷ 0x000000000000008a ∷ 0x0000000000000088 ∷ 0x0000000080008009 ∷ 0x000000008000000a
    ∷ 0x000000008000808b ∷ 0x800000000000008b ∷ 0x8000000000008089 ∷ 0x8000000000008003
    ∷ 0x8000000000008002 ∷ 0x8000000000000080 ∷ 0x000000000000800a ∷ 0x800000008000000a
    ∷ 0x8000000080008081 ∷ 0x8000000000008080 ∷ 0x0000000080000001 ∷ 0x8000000080008008 ∷ []

abbrev pub keccak_rho : List ℕ
keccak_rho =
    1 ∷ 3 ∷ 6 ∷ 10 ∷ 15 ∷ 21 ∷ 28 ∷ 36 ∷ 45 ∷ 55 ∷ 2 ∷ 14 ∷ 27 ∷ 41 ∷ 56 ∷ 8 ∷ 25 ∷ 43 ∷ 62 ∷ 18
    ∷ 39 ∷ 61 ∷ 20 ∷ 44 ∷ []

abbrev pub keccak_pi : List ℕ
keccak_pi =
    10 ∷ 7 ∷ 11 ∷ 17 ∷ 18 ∷ 3 ∷ 5 ∷ 16 ∷ 8 ∷ 21 ∷ 24 ∷ 4 ∷ 15 ∷ 23 ∷ 19 ∷ 13 ∷ 12 ∷ 2 ∷ 20 ∷ 14 ∷ 22
    ∷ 9 ∷ 6 ∷ 1 ∷ []

-- `(x << n) | (x >> (64 - n))`
unfoldable pub rotl64 : ℕ → ℕ → ℕ
rotl64 x n = bit_or (x * 2 ^ n % 2 ^ 64) (x / 2 ^ (64 - n))

-- `f i`, `f (i + 1)`, …: what a loop over `n` places of an array writes.
unfoldable pub tabulate : ℕ → ℕ → (ℕ → ℕ) → List ℕ
tabulate zero i f = []
tabulate (suc n) i f = f i ∷ tabulate n (i + 1) f

abbrev pub lane : List ℕ → ℕ → ℕ
lane state i = get_or state i 0

-- The first two loops of a round.
unfoldable pub theta : List ℕ → List ℕ
theta state =
    let bc = tabulate 5 0 (λ x.
      bit_xor
        (bit_xor (bit_xor (bit_xor (lane state x) (lane state (x + 5))) (lane state (x + 10)))
          (lane state (x + 15)))
        (lane state (x + 20))) in
    tabulate 25 0 (λ i.
      let x = i % 5 in
      bit_xor (lane state i) (bit_xor (lane bc ((x + 4) % 5)) (rotl64 (lane bc ((x + 1) % 5)) 1)))

-- The loop over KECCAK_PI and KECCAK_RHO, with `t`.
unfoldable pub rho_pi : ℕ → List ℕ → List ℕ → List ℕ → List ℕ
rho_pi t (j ∷ js) (r ∷ rs) state = rho_pi (lane state j) js rs (set state j (rotl64 t r))
rho_pi t js rs state = state

-- The loop over the rows, each from a copy of the row.
unfoldable pub chi : List ℕ → List ℕ
chi state = tabulate 25 0 (λ i.
    let y = i / 5 * 5 in
    let x = i % 5 in
    bit_xor (lane state i)
      (bit_and (2 ^ 64 - 1 - lane state (y + (x + 1) % 5)) (lane state (y + (x + 2) % 5))))

-- One round, with `KECCAK_RC[round]`
unfoldable pub keccak_round : ℕ → List ℕ → List ℕ
keccak_round rc state =
    let mixed = theta state in
    let turned = chi (rho_pi (lane mixed 1) keccak_pi keccak_rho mixed) in
    set turned 0 (bit_xor (lane turned 0) rc)

unfoldable pub keccak_rounds : List ℕ → List ℕ → List ℕ
keccak_rounds [] state = state
keccak_rounds (rc ∷ rcs) state = keccak_rounds rcs (keccak_round rc state)

unfoldable pub keccak_f1600 : List ℕ → List ℕ
keccak_f1600 state = keccak_rounds keccak_rc state

-- `keccak_ctx_t`, whose `capacity` nothing reads
pub record KeccakCtx : Type 0 where
  pub state : List ℕ
  pub rate : ℕ
  pub pos : ℕ
  pub buffer : List ℕ
  pub delim : ℕ
  pub squeezing : Bool

-- `buffer[pos + i] ^= bytes[i]`; a place beyond the array is undefined.
unfoldable pub xor_at : List ℕ → ℕ → List ℕ → Result (List ℕ)
xor_at buffer pos [] = ok buffer
xor_at buffer pos (x ∷ xs) =
    if ltb pos (length buffer)
    then xor_at (set buffer pos (bit_xor (get_or buffer pos 0) x)) (pos + 1) xs
    else fault

-- `*(uint64_t*)(buffer + i * 8)`, on a little-endian machine
unfoldable pub load64 : ℕ → List ℕ → ℕ
load64 zero bytes = 0
load64 (suc n) [] = 0
load64 (suc n) (b ∷ bs) = b + 256 * load64 n bs

-- `state[i] ^= …` for the lanes of the rate, and the permutation.
unfoldable pub absorb_block : KeccakCtx → List ℕ
absorb_block ctx = keccak_f1600 (
    tabulate 25 0 (λ i.
      if ltb i (ctx.rate / 8)
      then bit_xor (lane ctx.state i) (load64 8 (drop (i * 8) ctx.buffer))
      else lane ctx.state i))

-- One round of the loop of `keccak_absorb`, on `take` bytes.
unfoldable pub absorb_round : KeccakCtx → List ℕ → Result KeccakCtx
absorb_round ctx piece = xor_at ctx.buffer ctx.pos piece >>= λ buffer.
    let ctx' : KeccakCtx = record ctx { buffer = buffer; pos = ctx.pos + length piece } in
    ok (if ctx'.pos == ctx.rate then record ctx' { state = absorb_block ctx'; pos = 0 } else ctx')

unfoldable pub absorb_loop : ℕ → KeccakCtx → List ℕ → Result KeccakCtx
absorb_loop fuel ctx [] = ok ctx
absorb_loop zero ctx (x ∷ xs) = stuck
absorb_loop (suc fuel) ctx (x ∷ xs) =
    let n = min (ctx.rate - ctx.pos) (length (x ∷ xs)) in
    absorb_round ctx (take n (x ∷ xs)) >>= λ ctx'. absorb_loop fuel ctx' (drop n (x ∷ xs))

-- The state before any output: the delimiter and the last bit, and one more block.
unfoldable pub start_squeeze : KeccakCtx → Result KeccakCtx
start_squeeze ctx = xor_at ctx.buffer ctx.pos (ctx.delim ∷ []) >>= λ marked.
    xor_at marked (ctx.rate - 1) (0x80 ∷ []) >>= λ buffer.
    let ctx' : KeccakCtx = record ctx { buffer = buffer } in
    ok (record ctx' { state = absorb_block ctx'; pos = 0; squeezing = true })

-- `out[i] = (state[pos / 8] >> ((pos % 8) * 8)) & 0xFF`, which does not depend on `i`
unfoldable pub squeezed_byte : KeccakCtx → ℕ
squeezed_byte ctx = bit_and (lane ctx.state (ctx.pos / 8) / 2 ^ (ctx.pos % 8 * 8)) 0xFF

-- The loop of `keccak_squeeze` behind the test of `squeezing`; `len` bytes are left.
unfoldable pub squeeze_loop : ℕ → KeccakCtx → ℕ → Result (List ℕ × KeccakCtx)
squeeze_loop fuel ctx zero = ok ([], ctx)
squeeze_loop zero ctx (suc len) = stuck
squeeze_loop (suc fuel) ctx (suc len) =
    let n = min (ctx.rate - ctx.pos) (suc len) in
    let moved : KeccakCtx = record ctx { pos = ctx.pos + n } in
    let next : KeccakCtx =
      if moved.pos == ctx.rate
      then record moved { state = keccak_f1600 ctx.state; pos = 0 }
      else moved in
    squeeze_loop fuel next (suc len - n) >>= λ r. ok (replicate n (squeezed_byte ctx) ++ r.0, r.1)

-- The buffer keeps what it held.
unfoldable pub keccak_init : KeccakCtx → ℕ → ℕ → KeccakCtx
keccak_init ctx rate delim = record ctx {
  state = replicate 25 0;
  rate = rate;
  pos = 0;
  delim = delim;
  squeezing = false;
}

unfoldable pub keccak_reset : KeccakCtx → KeccakCtx
keccak_reset ctx = record ctx { state = replicate 25 0; pos = 0; squeezing = false }

unfoldable pub keccak_update : KeccakCtx → List ℕ → Result KeccakCtx
keccak_update ctx input = if ctx.squeezing then err einval else absorb_loop (length input) ctx input

-- `len` is the length of the digest; the second test of `squeezing` in `keccak_squeeze` fails.
unfoldable pub keccak_final : KeccakCtx → ℕ → Result (List ℕ × KeccakCtx)
keccak_final ctx len =
    if len == 0
    then err einval
    else (if ctx.squeezing then ok ctx else start_squeeze ctx) >>= λ ctx'. squeeze_loop len ctx' len
