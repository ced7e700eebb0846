-- ===== src/Hash/Blocks/Stream.antt =====
-- What the buffered update computes, whatever the pieces a message comes in.
use fastgit.Common.{
  ℕ, zero, suc, ◌+◌, ◌-◌, ◌*◌, ◌%◌, ◌^◌, ◌≤◌, ◌<◌, ◌≡◌, refl, sym, ap, ◌∙◌, arith, Bool-cases, inl,
  inr, List, [], ◌∷◌, ◌++◌, append_assoc, append-nil, length, take, drop, length-append,
  length-take, length-drop, take-length-append, take-append-drop, false, true, ◌==◌, if◌then◌else◌,
  ok,
}
use fastgit.Hash.Blocks.{BlockCtx, write_at, update_round, piece_length, update_loop, update}

mod_within : (c s n : ℕ) → c % s + n < s → (c + n) % s ≡ c % s + n
mod_within c s n h = grind arith

pub mod_lt : (c s : ℕ) → 0 < s → c % s < s
mod_lt c s h = grind arith

mod_full : (c s n : ℕ) → 0 < s → c % s + n ≡ s → (c + n) % s ≡ 0
mod_full c s n pos h = grind arith

pub take-write_at :
    (buffer : List ℕ) (pos : ℕ) (bytes : List ℕ)
    → pos ≤ length buffer
    → take (pos + length bytes) (write_at buffer pos bytes) ≡ take pos buffer ++ bytes
unfolding write_at
take-write_at buffer pos bytes inside =
    let rest = drop (pos + length bytes) buffer in
    let size : length (take pos buffer ++ bytes) ≡ pos + length bytes =
      omega (arith, length-append (take pos buffer) bytes, length-take pos buffer) in
    ap (λ (n : ℕ). take n (take pos buffer ++ (bytes ++ rest))) (sym size)
    ∙ rw (← append_assoc (take pos buffer) bytes rest)
        (take-length-append (take pos buffer ++ bytes) rest)

pub take_whole : (n : ℕ) (xs : List ℕ) → n ≡ length xs → take n xs ≡ xs
take_whole zero [] h = refl
take_whole zero (x ∷ xs) h = absurd (omega arith)
take_whole (suc n) [] h = refl
take_whole (suc n) (x ∷ xs) h = ap (λ ys. x ∷ ys) (take_whole n xs (omega arith))

pub length-write_at :
    (buffer : List ℕ) (pos : ℕ) (bytes : List ℕ)
    → pos + length bytes ≤ length buffer
    → length (write_at buffer pos bytes) ≡ length buffer
unfolding write_at
length-write_at buffer pos bytes inside = omega (
  arith,
  length-append (take pos buffer) (bytes ++ drop (pos + length bytes) buffer),
  length-append bytes (drop (pos + length bytes) buffer),
  length-take pos buffer,
  length-drop (pos + length bytes) buffer,
)

module _ (size : ℕ) (transform : List ℕ → List ℕ → List ℕ) where
  -- The same, a byte at a time: the state, and the bytes that wait for a full block.
  unfoldable pub feed : List ℕ → List ℕ → List ℕ → List ℕ × List ℕ
  feed state pending [] = (state, pending)
  feed state pending (x ∷ xs) =
      let full = feed (transform state (pending ++ (x ∷ []))) [] xs in
      let more = feed state (pending ++ (x ∷ [])) xs in
      if length pending + 1 == size then full else more

  pub feed-append :
      (state pending xs ys : List ℕ)
      → feed state pending (xs ++ ys) ≡ feed (feed state pending xs).0 (feed state pending xs).1 ys
  unfolding feed
  feed-append state pending [] ys = refl
  feed-append state pending (x ∷ xs) ys = elim (Bool-cases (length pending + 1 == size)) [
    | inl full ↦ rw full (feed-append (transform state (pending ++ (x ∷ []))) [] xs ys)
    | inr more ↦ rw more (feed-append state (pending ++ (x ∷ [])) xs ys)
  ]

  -- A piece that leaves the block short only waits.
  pub feed_within :
      (state pending xs : List ℕ)
      → length pending + length xs < size
      → feed state pending xs ≡ (state, pending ++ xs)
  unfolding feed
  feed_within state pending [] short = rw (append-nil pending) refl
  feed_within state pending (x ∷ xs) short =
      let one = length-append pending (x ∷ []) in
      let more : (length pending + 1 == size) ≡ false = ground arith in
      rw
        (
          more,
          feed_within state (pending ++ (x ∷ [])) xs (omega (arith, one)),
          append_assoc pending (x ∷ []) xs,
        )
        refl

  -- A piece that fills the block exactly is transformed with what waits.
  pub feed_full :
      (state pending : List ℕ) (x : ℕ) (xs : List ℕ)
      → length pending + length (x ∷ xs) ≡ size
      → feed state pending (x ∷ xs) ≡ (transform state (pending ++ (x ∷ xs)), [])
  unfolding feed
  feed_full state pending x [] full =
      let now : (length pending + 1 == size) ≡ true = ground arith in rw now refl
  feed_full state pending x (y ∷ xs) full =
      let one = length-append pending (x ∷ []) in
      let more : (length pending + 1 == size) ≡ false = ground arith in
      rw
        (
          more,
          feed_full state (pending ++ (x ∷ [])) y xs (omega (arith, one)),
          append_assoc pending (x ∷ []) (y ∷ xs),
        )
        refl

  pub feed_whole :
      (state pending xs : List ℕ)
      → 0 < length xs
      → length pending + length xs ≡ size
      → feed state pending xs ≡ (transform state (pending ++ xs), [])
  feed_whole state pending [] some_byte full = absurd (omega arith)
  feed_whole state pending (x ∷ xs) some_byte full = feed_full state pending x xs full

  -- The standard's view: whole blocks, one after the other.
  unfoldable pub fold_blocks : ℕ → List ℕ → List ℕ → List ℕ
  fold_blocks zero state xs = state
  fold_blocks (suc n) state xs = fold_blocks n (transform state (take size xs)) (drop size xs)

  pub feed-fold_blocks :
      (n : ℕ) (state xs : List ℕ)
      → 0 < size
      → length xs ≡ n * size
      → feed state [] xs ≡ (fold_blocks n state xs, [])
  unfolding fold_blocks
  feed-fold_blocks zero state [] pos e = rw (feed_within state [] [] pos) refl
  feed-fold_blocks zero state (x ∷ xs) pos e = absurd (omega arith)
  feed-fold_blocks (suc n) state xs pos e =
      let many : length xs ≡ size + n * size = grind arith in
      let taken = length-take size xs in
      let left = length-drop size xs in
      let one = feed_whole state [] (take size xs) (omega arith) (omega arith) in
      ap (λ ys. feed state [] ys) (sym (take-append-drop size xs))
      ∙ feed-append state [] (take size xs) (drop size xs)
      ∙ rw one
          (feed-fold_blocks n (transform state (take size xs)) (drop size xs) pos (omega arith))

  -- The bytes in the buffer that wait for a full block.
  abbrev pub pending_of : BlockCtx → List ℕ
  pending_of ctx = take (ctx.count % size) ctx.buffer

  -- The context has taken `n` bytes and stands where `fed` says.
  pub record IsAt (ctx : BlockCtx) (n : ℕ) (fed : List ℕ × List ℕ) : Type 0 where
    pub state : ctx.state ≡ fed.0
    pub pending : pending_of ctx ≡ fed.1
    pub count : ctx.count ≡ n
    pub buffer : length ctx.buffer ≡ size

  module _ (pos : 0 < size) where
    pub pending-lt :
        (ctx : BlockCtx) → length ctx.buffer ≡ size → length (pending_of ctx) ≡ ctx.count % size
    pending-lt ctx whole = grind (arith, length-take (ctx.count % size) ctx.buffer)

    update_round-IsAt :
        (ctx : BlockCtx) (x : ℕ) (xs : List ℕ)
        → length ctx.buffer ≡ size
        → ctx.count % size + length (x ∷ xs) ≤ size
        → ctx.count + length (x ∷ xs) < 2 ^ 64
        → IsAt
            (update_round size transform ctx (x ∷ xs))
            (ctx.count + length (x ∷ xs))
            (feed ctx.state (pending_of ctx) (x ∷ xs))
    unfolding update_round
    update_round-IsAt ctx x xs whole room small =
        let piece = x ∷ xs in
        let at = ctx.count % size in
        let wide : (ctx.count + length piece) % 2 ^ 64 ≡ ctx.count + length piece = omega arith in
        let waits = pending-lt ctx whole in
        let taken = take-write_at ctx.buffer at piece (omega arith) in
        let kept = length-write_at ctx.buffer at piece (omega arith) in
        elim (Bool-cases (at + length piece == size)) [
          | inl full ↦
              let exact : at + length piece ≡ size = ground arith in
              let wraps = mod_full ctx.count size (length piece) pos exact in
              let block : write_at ctx.buffer at piece ≡ take at ctx.buffer ++ piece =
                sym (take_whole (at + length piece) (write_at ctx.buffer at piece) (omega arith))
                ∙ taken in
              let fed = feed_full ctx.state (pending_of ctx) x xs (omega arith) in
              record {
                state = rw (wide, wraps, fed) (ap (transform ctx.state) block);
                pending = rw (wide, wraps, fed) refl;
                count = wide;
                buffer = kept ∙ whole;
              }
          | inr more ↦
              let short : at + length piece < size = ground arith in
              let stays = mod_within ctx.count size (length piece) short in
              let fed = feed_within ctx.state (pending_of ctx) piece (omega arith) in
              let waiting : (at + length piece == 0) ≡ false = ground arith in
              record {
                state = rw (wide, stays, waiting, fed) refl;
                pending = rw (wide, stays, fed) taken;
                count = wide;
                buffer = kept ∙ whole;
              }
        ]

    pub IsAt-trans :
        (ctx one : BlockCtx) (n m k : ℕ) (state pending xs ys zs : List ℕ)
        → m ≡ k
        → xs ++ ys ≡ zs
        → IsAt one n (feed state pending xs)
        → IsAt ctx m (feed one.state (pending_of one) ys)
        → IsAt ctx k (feed state pending zs)
    IsAt-trans ctx one n m k state pending xs ys zs total joined first second =
        rw (← total, ← joined, feed-append state pending xs ys, ← first.state, ← first.pending)
          second

    update_loop_step :
        (fuel : ℕ) (ctx : BlockCtx) (x : ℕ) (xs : List ℕ) (m : ℕ)
        → piece_length size transform ctx (x ∷ xs) ≡ suc m
        → update_loop size transform (suc fuel) ctx (x ∷ xs)
          ≡ update_loop size transform fuel
              (update_round size transform ctx (x ∷ take m xs))
              (drop m xs)
    unfolding update_loop
    update_loop_step fuel ctx x xs m e =
        ap
          (λ (n : ℕ).
            update_loop size transform fuel (update_round size transform ctx (take n (x ∷ xs)))
              (drop n (x ∷ xs)))
          e

    IsAt-nil :
        (ctx : BlockCtx)
        → length ctx.buffer ≡ size
        → IsAt ctx (ctx.count + 0) (feed ctx.state (pending_of ctx) [])
    unfolding feed
    IsAt-nil ctx whole = record {
      state = refl;
      pending = refl;
      count = omega arith;
      buffer = whole;
    }

    update_loop-nil : (fuel : ℕ) (ctx : BlockCtx) → update_loop size transform fuel ctx [] ≡ ok ctx
    unfolding update_loop
    update_loop-nil fuel ctx = refl

    update_loop-IsAt :
        (fuel : ℕ) (ctx : BlockCtx) (input : List ℕ)
        → length input ≤ fuel
        → length ctx.buffer ≡ size
        → ctx.count + length input < 2 ^ 64
        → (ctx' : BlockCtx) × (update_loop size transform fuel ctx input ≡ ok ctx')
          × IsAt ctx' (ctx.count + length input) (feed ctx.state (pending_of ctx) input)
    update_loop-IsAt fuel ctx [] enough whole small =
        (ctx, update_loop-nil fuel ctx, IsAt-nil ctx whole)
    update_loop-IsAt zero ctx (x ∷ xs) enough whole small = absurd (omega arith)
    update_loop-IsAt (suc fuel) ctx (x ∷ xs) enough whole small =
        let m = piece_length size transform ctx (x ∷ xs) - 1 in
        let below = mod_lt ctx.count size pos in
        let taken = length-take m xs in
        let left = length-drop m xs in
        let one = update_round size transform ctx (x ∷ take m xs) in
        let first =
          update_round-IsAt ctx x (take m xs) whole (omega (arith, below)) (omega arith) in
        let (ctx', run, last) =
          update_loop-IsAt fuel one (drop m xs) (omega arith) first.buffer
            (omega (arith, first.count)) in
        (
          ctx',
          update_loop_step fuel ctx x xs m (omega (arith, below)) ∙ run,
          IsAt-trans ctx' one (ctx.count + length (x ∷ take m xs)) (one.count + length (drop m xs))
              (ctx.count + length (x ∷ xs)) ctx.state (pending_of ctx) (x ∷ take m xs) (drop m xs)
              (x ∷ xs) (omega (arith, first.count)) (ap (λ ys. x ∷ ys) (take-append-drop m xs))
              first last,
        )

    -- An update that does not overflow the count ends where feeding the bytes one at a time ends.
    pub update-IsAt :
        (ctx : BlockCtx) (input : List ℕ)
        → length ctx.buffer ≡ size
        → ctx.count + length input < 2 ^ 64
        → (ctx' : BlockCtx) × (update size transform ctx input ≡ ok ctx')
          × IsAt ctx' (ctx.count + length input) (feed ctx.state (pending_of ctx) input)
    unfolding update
    update-IsAt ctx input whole small =
        update_loop-IsAt (length input) ctx input (omega arith) whole small
