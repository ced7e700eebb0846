-- ===== src/Hash/Blocks.antt =====
-- What src/hash/sha256.c and src/hash/sha384.c share: a message goes into a buffer of `size` bytes,
-- which is transformed when it is full. Both files write this out, with sizes 64 and 128.
pub mod Stream
pub mod Padding
use fastgit.Common.{
  ℕ, zero, suc, ◌+◌, ◌-◌, ◌*◌, ◌/◌, ◌%◌, ◌^◌, min, bit_and, List, [], ◌∷◌, ◌++◌, length, set, take,
  drop, replicate, ltb, ◌==◌, if◌then◌else◌, Result, ok, stuck,
}

-- `sha256_ctx_t`, `sha512_ctx_t`
pub record BlockCtx : Type 0 where
  pub state : List ℕ
  pub count : ℕ
  pub buffer : List ℕ

-- `memcpy(buffer + pos, bytes, …)`
unfoldable pub write_at : List ℕ → ℕ → List ℕ → List ℕ
write_at buffer pos bytes = take pos buffer ++ (bytes ++ drop (pos + length bytes) buffer)

-- `(bits >> (8 * k)) & 0xFF`, from the highest of `n` bytes on
unfoldable pub be_bytes : ℕ → ℕ → List ℕ
be_bytes zero bits = []
be_bytes (suc k) bits = bit_and (bits / 2 ^ (8 * k)) 0xFF ∷ be_bytes k bits

module _ (size : ℕ) (transform : List ℕ → List ℕ → List ℕ) where
  -- One round of `while (len > 0)`, on `take` bytes.
  unfoldable pub update_round : BlockCtx → List ℕ → BlockCtx
  update_round ctx piece =
      let count = (ctx.count + length piece) % 2 ^ 64 in
      let buffer = write_at ctx.buffer (ctx.count % size) piece in
      record {
        state = if count % size == 0 then transform ctx.state buffer else ctx.state;
        count = count;
        buffer = buffer;
      }

  -- `size_t take = size - buf_pos; if (take > len) take = len;`
  abbrev pub piece_length : BlockCtx → List ℕ → ℕ
  piece_length ctx input = min (size - ctx.count % size) (length input)

  unfoldable pub update_loop : ℕ → BlockCtx → List ℕ → Result BlockCtx
  update_loop fuel ctx [] = ok ctx
  update_loop zero ctx (x ∷ xs) = stuck
  update_loop (suc fuel) ctx (x ∷ xs) =
      let n = piece_length ctx (x ∷ xs) in
      update_loop fuel (update_round ctx (take n (x ∷ xs))) (drop n (x ∷ xs))

  -- Every round takes a byte at least.
  unfoldable pub update : BlockCtx → List ℕ → Result BlockCtx
  update ctx input = update_loop (length input) ctx input

  -- The padding up to the offset `room` of the length: the state and the buffer.
  unfoldable pub start_final : ℕ → BlockCtx → List ℕ × List ℕ
  start_final room ctx =
      let marked = set ctx.buffer (ctx.count % size) 0x80 in
      let pos = ctx.count % size + 1 in
      let filled = write_at marked pos (replicate (size - pos) 0) in
      if ltb room pos
      then (transform ctx.state filled, write_at filled 0 (replicate room 0))
      else (ctx.state, write_at marked pos (replicate (room - pos) 0))
