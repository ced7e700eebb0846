-- ===== src/Hash/Sha256/Streaming.antt =====
-- The digest of a message that comes in pieces, against the standard.
use fastgit.Common.{
  ℕ, zero, suc, ◌+◌, ◌*◌, ◌/◌, ◌%◌, ◌^◌, ◌<◌, ◌≡◌, refl, sym, ap, ◌∙◌, arith, List, [], ◌∷◌, ◌++◌,
  append_assoc, append-nil, length, length-append, ◌>>=◌, Result, ok,
}
use fastgit.Hash.Blocks.{BlockCtx, write_at, be_bytes, start_final}
use fastgit.Hash.Blocks.Stream.{
  IsAt, IsAt-trans, pending_of, feed, feed-append, update-IsAt, fold_blocks, feed-fold_blocks,
}
use fastgit.Hash.Blocks.Padding.{zero_bytes, length-zero_bytes, zeros, start_final-feed}
use fastgit.Hash.Sha256.Standard.{padding, sha256_standard, digest-standard}
use fastgit.Hash.Sha256.{
  sha256_init, sha256_update, sha256_final, transform, initial_state, digest_bytes,
}

abbrev pub concat : List (List ℕ) → List ℕ
concat [] = []
concat (p ∷ ps) = p ++ concat ps

-- One call of the update for each piece.
unfoldable pub update_all : BlockCtx → List (List ℕ) → Result BlockCtx
update_all ctx [] = ok ctx
update_all ctx (p ∷ ps) = sha256_update ctx p >>= λ ctx'. update_all ctx' ps

IsAt-same :
    (ctx : BlockCtx) (n m : ℕ) (xs ys : List ℕ)
    → n ≡ m
    → xs ≡ ys
    → IsAt 64 transform ctx n (feed 64 transform initial_state [] xs)
    → IsAt 64 transform ctx m (feed 64 transform initial_state [] ys)
IsAt-same ctx n m xs ys e f is = rw (← e, ← f) is

update_all-IsAt :
    (ctx : BlockCtx) (n : ℕ) (xs : List ℕ) (pieces : List (List ℕ))
    → IsAt 64 transform ctx n (feed 64 transform initial_state [] xs)
    → n + length (concat pieces) < 2 ^ 61
    → (ctx' : BlockCtx) × (update_all ctx pieces ≡ ok ctx')
      × IsAt 64 transform ctx'
          (n + length (concat pieces))
          (feed 64 transform initial_state [] (xs ++ concat pieces))
unfolding update_all sha256_update
update_all-IsAt ctx n xs [] is small =
    (ctx, refl, IsAt-same ctx n (n + 0) xs (xs ++ []) (omega arith) (sym (append-nil xs)) is)
update_all-IsAt ctx n xs (p ∷ ps) is small =
    let split = length-append p (concat ps) in
    let (one, run, at) =
      update-IsAt 64 transform (omega arith) ctx p is.buffer (omega (arith, is.count)) in
    let next =
      IsAt-trans 64 transform (omega arith) one ctx n (ctx.count + length p) (n + length p)
        initial_state [] xs p (xs ++ p) (omega (arith, is.count)) refl is at in
    let (ctx', rest, end) = update_all-IsAt one (n + length p) (xs ++ p) ps next (omega arith) in
    (
      ctx',
      rw (run, sha256_update) rest,
      IsAt-same ctx' (n + length p + length (concat ps)) (n + length (concat (p ∷ ps)))
          ((xs ++ p) ++ concat ps) (xs ++ (p ++ concat ps)) (omega arith)
          (append_assoc xs p (concat ps)) end,
    )

length-be_bytes : (k bits : ℕ) → length (be_bytes k bits) ≡ k
unfolding be_bytes
length-be_bytes zero bits = refl
length-be_bytes (suc k) bits = omega (arith, length-be_bytes k bits)

length-padding : (n : ℕ) → n + length (padding n) ≡ (n + length (padding n)) / 64 * 64
unfolding padding
length-padding n =
    let bits = be_bytes 8 (n * 8 % 2 ^ 64) in
    ground (
      arith,
      length-append (zero_bytes (zeros 64 56 (n % 64))) bits,
      length-be_bytes 8 (n * 8 % 2 ^ 64),
      length-zero_bytes (zeros 64 56 (n % 64)),
    )

feed-padding :
    (ctx : BlockCtx)
    → length ctx.buffer ≡ 64
    → feed 64 transform ctx.state (pending_of 64 transform ctx) (padding ctx.count) ≡ (
      transform
          (start_final 64 transform 56 ctx).0
          (write_at (start_final 64 transform 56 ctx).1 56 (be_bytes 8 (ctx.count * 8 % 2 ^ 64))),
      [],
    )
unfolding padding
feed-padding ctx whole =
    let n = length-be_bytes 8 (ctx.count * 8 % 2 ^ 64) in
    start_final-feed 64 transform 56 ctx (be_bytes 8 (ctx.count * 8 % 2 ^ 64)) whole (omega arith)
      (omega (arith, n)) (omega (arith, n))

closing :
    (ctx : BlockCtx) (msg : List ℕ)
    → IsAt 64 transform ctx (length msg) (feed 64 transform initial_state [] msg)
    → transform
        (start_final 64 transform 56 ctx).0
        (write_at (start_final 64 transform 56 ctx).1 56 (be_bytes 8 (ctx.count * 8 % 2 ^ 64)))
      ≡ fold_blocks 64 transform
          ((length (msg ++ padding (length msg))) / 64)
          initial_state
          (msg ++ padding (length msg))
closing ctx msg is =
    let m = length msg in
    let all = msg ++ padding m in
    let size = length-append msg (padding m) in
    let blocks =
      feed-fold_blocks 64 transform (length all / 64) initial_state all (omega arith)
        (omega (arith, length-padding m, size)) in
    let fed : feed 64 transform initial_state [] all
        ≡ feed 64 transform ctx.state (pending_of 64 transform ctx) (padding ctx.count) =
      feed-append 64 transform initial_state [] msg (padding m)
      ∙ rw (is.state, is.pending, is.count) refl in
    ap (λ (r : List ℕ × List ℕ). r.0) (sym (feed-padding ctx is.buffer) ∙ sym fed ∙ blocks)

IsAt-start :
    (junk : BlockCtx)
    → length junk.buffer ≡ 64
    → IsAt 64 transform (sha256_init junk) 0 (feed 64 transform initial_state [] [])
unfolding sha256_init feed
IsAt-start junk whole = record { state = refl; pending = refl; count = refl; buffer = whole }

-- A message shorter than 2 ^ 61 bytes, fed in any pieces to a fresh context, gives the SHA-256 digest
-- that FIPS 180-4 defines, written out apart from the code: every update ends normally, and the digest does not depend on the pieces or on
-- what the buffer held.
pub sha256_pieces :
    (junk : BlockCtx) (pieces : List (List ℕ))
    → length junk.buffer ≡ 64
    → length (concat pieces) < 2 ^ 61
    → (ctx : BlockCtx) × (update_all (sha256_init junk) pieces ≡ ok ctx)
      × (sha256_final ctx ≡ sha256_standard (concat pieces))
unfolding sha256_init sha256_final
sha256_pieces junk pieces whole small =
    let start = IsAt-start junk whole in
    let (ctx, run, at) = update_all-IsAt (sha256_init junk) 0 [] pieces start (omega arith) in
    let here =
      IsAt-same ctx (0 + length (concat pieces)) (length (concat pieces)) ([] ++ concat pieces)
        (concat pieces) (omega arith) refl at in
    (
      ctx,
      run,
      ap digest_bytes (closing ctx (concat pieces) here) ∙ digest-standard (concat pieces) small,
    )
