-- ===== src/Hash/Blocks/Padding.antt =====
-- The padding is the one of the standard: a byte 0x80, zeros, and the length, fed as a message.
use fastgit.Common.{
  ℕ, zero, suc, ◌+◌, ◌-◌, ◌%◌, ◌≤◌, ◌<◌, ◌≡◌, refl, sym, ap, ◌∙◌, arith, Bool-cases, inl, inr, List,
  [], ◌∷◌, ◌++◌, append_assoc, length, set, take, replicate, length-append, length-take, length-set,
  length-replicate, ltb, if◌then◌else◌, true, false,
}
use fastgit.Hash.Blocks.{BlockCtx, write_at, start_final}
use fastgit.Hash.Blocks.Stream.{
  feed, feed-append, feed_full, feed_whole, pending_of, take_whole, take-write_at, length-write_at,
}

take-set :
    (buffer : List ℕ) (pos x : ℕ)
    → pos < length buffer
    → take (pos + 1) (set buffer pos x) ≡ take pos buffer ++ (x ∷ [])
take-set [] pos x inside = absurd (omega arith)
take-set (b ∷ bs) zero x inside = refl
take-set (b ∷ bs) (suc pos) x inside =
    let e : suc pos + 1 ≡ suc (pos + 1) = omega arith in
    rw e (ap (λ ys. b ∷ ys) (take-set bs pos x (omega arith)))

abbrev pub zero_bytes : ℕ → List ℕ
zero_bytes n = replicate n 0

zero_bytes-add : (n m : ℕ) → zero_bytes (n + m) ≡ zero_bytes n ++ zero_bytes m
zero_bytes-add zero m = let e : 0 + m ≡ m = omega arith in rw e refl
zero_bytes-add (suc n) m =
    let e : suc n + m ≡ suc (n + m) = omega arith in rw e (ap (λ ys. 0 ∷ ys) (zero_bytes-add n m))

pub length-zero_bytes : (n : ℕ) → length (zero_bytes n) ≡ n
length-zero_bytes n = length-replicate n 0

-- A write that ends where the buffer ends.
write_at_end :
    (buffer : List ℕ) (pos : ℕ) (bytes : List ℕ)
    → pos + length bytes ≡ length buffer
    → write_at buffer pos bytes ≡ take pos buffer ++ bytes
write_at_end buffer pos bytes ends =
    sym (
      take_whole (pos + length bytes) (write_at buffer pos bytes)
        (omega (arith, length-write_at buffer pos bytes (omega arith))))
    ∙ take-write_at buffer pos bytes (omega arith)

-- The zeros that the standard puts behind the byte 0x80, after `p` bytes of a block.
abbrev pub zeros : ℕ → ℕ → ℕ → ℕ
zeros size room p = if ltb room (p + 1) then size - (p + 1) + room else room - (p + 1)

module _ (size : ℕ) (transform : List ℕ → List ℕ → List ℕ) (room : ℕ) where
  module _ (ctx : BlockCtx) (tail : List ℕ) (whole : length ctx.buffer ≡ size)
      (inside : ctx.count % size < size) (some_tail : 0 < length tail)
      (exact : room + length tail ≡ size) where
    abbrev at : ℕ
    at = ctx.count % size

    abbrev marked : List ℕ
    marked = set ctx.buffer at 0x80

    abbrev waiting : List ℕ
    waiting = pending_of size transform ctx

    marked-take : take (at + 1) marked ≡ waiting ++ (0x80 ∷ [])
    marked-take = take-set ctx.buffer at 0x80 (omega arith)

    length-marked : length marked ≡ size
    length-marked = length-set ctx.buffer at 0x80 ∙ whole

    length-waiting : length waiting ≡ at
    length-waiting = omega (arith, length-take at ctx.buffer)

    two_blocks :
        ltb room (at + 1) ≡ true
        → feed size transform ctx.state waiting
            (0x80 ∷ (zero_bytes (size - (at + 1) + room) ++ tail))
          ≡ (
            transform
                (start_final size transform room ctx).0
                (write_at (start_final size transform room ctx).1 room tail),
            [],
          )
    unfolding start_final
    two_blocks late =
        let fill = zero_bytes (size - (at + 1)) in
        let fresh = zero_bytes room in
        let n = length-zero_bytes (size - (at + 1)) in
        let filled = write_at marked (at + 1) fill in
        let state' = transform ctx.state filled in
        let same : waiting ++ (0x80 ∷ fill) ≡ filled =
          sym (append_assoc waiting (0x80 ∷ []) fill)
          ∙ ap (λ ys. ys ++ fill) (sym marked-take)
          ∙ sym (write_at_end marked (at + 1) fill (omega (arith, length-marked, n))) in
        let size_filled = length-write_at marked (at + 1) fill (omega (arith, length-marked, n)) in
        let m = length-zero_bytes room in
        let cleared = write_at filled 0 fresh in
        let size_cleared =
          length-write_at filled 0 fresh (omega (arith, size_filled, length-marked, m)) in
        let front : take room cleared ≡ fresh =
          ap (λ (k : ℕ). take k cleared) (omega (arith, m))
          ∙ take-write_at filled 0 fresh (omega arith) in
        let last : write_at cleared room tail ≡ fresh ++ tail =
          write_at_end cleared room tail (omega (arith, size_cleared, size_filled, length-marked))
          ∙ ap (λ ys. ys ++ tail) front in
        let parts : zero_bytes (size - (at + 1) + room) ++ tail ≡ fill ++ (fresh ++ tail) =
          ap (λ ys. ys ++ tail) (zero_bytes-add (size - (at + 1)) room)
          ∙ append_assoc fill fresh tail in
        let first =
          feed_full size transform ctx.state waiting 0x80 fill (omega (arith, n, length-waiting)) in
        let second =
          feed_whole size transform state' [] (fresh ++ tail)
            (omega (arith, length-append fresh tail))
            (omega (arith, length-append fresh tail, m)) in
        rw (late, last, ← second, ← same)
          (ap (λ ys. feed size transform ctx.state waiting (0x80 ∷ ys)) parts
            ∙ feed-append size transform ctx.state waiting (0x80 ∷ fill) (fresh ++ tail)
            ∙ rw first refl)

    one_block :
        ltb room (at + 1) ≡ false
        → feed size transform ctx.state waiting (0x80 ∷ (zero_bytes (room - (at + 1)) ++ tail)) ≡ (
          transform
              (start_final size transform room ctx).0
              (write_at (start_final size transform room ctx).1 room tail),
          [],
        )
    unfolding start_final
    one_block early =
        let early_le : at + 1 ≤ room = ground arith in
        let fill = zero_bytes (room - (at + 1)) in
        let n = length-zero_bytes (room - (at + 1)) in
        let filled = write_at marked (at + 1) fill in
        let size_filled =
          length-write_at marked (at + 1) fill (omega (arith, length-marked, n, early_le)) in
        let front : take room filled ≡ take (at + 1) marked ++ fill =
          ap (λ (k : ℕ). take k filled) (omega (arith, n, early_le))
          ∙ take-write_at marked (at + 1) fill (omega (arith, length-marked)) in
        let same : write_at filled room tail ≡ waiting ++ (0x80 ∷ (fill ++ tail)) =
          write_at_end filled room tail (omega (arith, size_filled, length-marked))
          ∙ ap (λ ys. ys ++ tail) (front ∙ ap (λ ys. ys ++ fill) marked-take)
          ∙ append_assoc (waiting ++ (0x80 ∷ [])) fill tail
          ∙ append_assoc waiting (0x80 ∷ []) (fill ++ tail) in
        rw (early, same)
          (feed_full size transform ctx.state waiting 0x80 (fill ++ tail)
            (omega (arith, length-append fill tail, n, length-waiting, early_le)))

    -- Closing a message feeds the padding and the bytes of the length.
    pub start_final-feed :
        feed size transform ctx.state waiting (0x80 ∷ (zero_bytes (zeros size room at) ++ tail)) ≡ (
          transform
              (start_final size transform room ctx).0
              (write_at (start_final size transform room ctx).1 room tail),
          [],
        )
    start_final-feed = elim (Bool-cases (ltb room (at + 1))) [
      | inl late ↦ rw late (two_blocks late)
      | inr early ↦ rw early (one_block early)
    ]
