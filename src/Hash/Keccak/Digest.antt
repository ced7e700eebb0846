-- ===== src/Hash/Keccak/Digest.antt =====
-- What a SHA-3 computation without OpenSSL ends in.
use fastgit.Common.{◌≤◌, ◌<◌, ◌≡◌, false, length}
use fastgit.Hash.Keccak.{KeccakCtx}

-- The position is inside the rate, and the rate inside the buffer.
pub record IsReady (ctx : KeccakCtx) : Type 0 where
  pub inside : ctx.pos < ctx.rate
  pub room : ctx.rate ≤ length ctx.buffer
  pub absorbing : ctx.squeezing ≡ false
