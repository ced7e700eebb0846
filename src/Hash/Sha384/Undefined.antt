-- ===== src/Hash/Sha384/Undefined.antt =====
-- The end of a SHA-384 computation.
use fastgit.Common.{ℕ, ◌^◌, ◌<◌, ◌≡◌, refl, arith, List, [], length, ok, fault}
use fastgit.Hash.Blocks.{BlockCtx}
use fastgit.Hash.Blocks.Stream.{feed, update-IsAt}
use fastgit.Hash.Sha384.{
  sha384_init, sha384_update, sha384_final, transform64, initial_state64, length_bytes,
}

-- One update with a message shorter than 2 ^ 64 bytes ends normally, with the message processed
-- block by block; but then `sha384_final` shifts a `uint64_t` by 120, which is undefined.
pub sha384_undefined :
    (junk : BlockCtx) (msg : List ℕ)
    → length junk.buffer ≡ 128
    → length msg < 2 ^ 64
    → (ctx : BlockCtx) × (sha384_update (sha384_init junk) msg ≡ ok ctx)
      × (ctx.state ≡ (feed 128 transform64 initial_state64 [] msg).0)
      × (sha384_final ctx ≡ fault)
unfolding sha384_init sha384_update sha384_final length_bytes
sha384_undefined junk msg whole small =
    let (ctx, run, at) =
      update-IsAt 128 transform64 (omega arith) (sha384_init junk) msg whole (omega arith) in
    (ctx, run, at.state, refl)
