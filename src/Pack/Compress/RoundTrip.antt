-- ===== src/Pack/Compress/RoundTrip.antt =====
-- A delta that `fastgit_delta_compress` makes, applied to the same base, gives the target.
use fastgit.Common.{
  ℕ, zero, suc, ◌+◌, ◌*◌, ◌^◌, ◌≤◌, ◌<◌, ◌≡◌, refl, ap, ◌∙◌, sym, arith, ◌⊎◌, Bool, true, false,
  ◌&&◌, List, [], ◌∷◌, ◌++◌, length, take, drop, IsBytes, All-drop, leb, ◌==◌, Bool-cases, inl, inr,
  Option, none, some, length-drop, length-take, length-append, drop-length-append, take-append-drop,
  append-nil, append_assoc, ok,
}
use fastgit.Pack.Compress.{
  make_tables, best_match, compress_loop, copy_command, flush, base_length, delta_compress,
  buffer_size, Tables,
}
use fastgit.Pack.Varint.{encode_loop, encode_varint}
use fastgit.Pack.Varint.RoundTrip.{decode_varint-encode_varint}
use fastgit.Pack.Compress.Match.{IsCopy, best_match-IsMatch}
use fastgit.Pack.Compress.Commands.{flush-Reaches, copy-Reaches, length-copy_command}
use fastgit.Pack.Delta.{apply_loop, read_sizes, delta_apply, git_delta_apply}
use fastgit.Pack.Compress.Git.{apply_loop-git_apply_loop}

-- Nothing, or a stretch of the base that `t` begins with.
abbrev CopyOf : Option (List ℕ) → List ℕ → ℕ → ℕ → Type 0
CopyOf base t len off = (len ≡ 0) ⊎ ((b : List ℕ) × (base ≡ some b) × IsCopy b t len off)

best_match-CopyOf :
    (malloc : ℕ → Bool) (base : Option (List ℕ)) (t : List ℕ)
    → ((b : List ℕ) → base ≡ some b → IsBytes b)
    → IsBytes t
    → CopyOf base t
        (best_match (make_tables malloc base) t).0
        (best_match (make_tables malloc base) t).1
unfolding make_tables
best_match-CopyOf malloc none t hb ht = unfold best_match in inl refl
best_match-CopyOf malloc (some b) t hb ht = elim (Bool-cases (leb 4 (length b))) [
  | inr short ↦ rw short (unfold best_match in inl refl)
  | inl long ↦ elim (Bool-cases (malloc (2 ^ 14 * 4) && malloc (length b * 4))) [
    | inr fails ↦ rw (long, fails) (unfold best_match in inl refl)
    | inl have ↦
        rw (long, have)
          (elim (best_match-IsMatch b t (hb b refl) ht (ground arith)) [
            | inl e ↦ inl e
            | inr c ↦ inr (b, refl, c)
          ])
  ]
]

length-flush :
    (lit rest : List ℕ)
    → (length rest ≤ length (flush lit rest))
      × (length (flush lit rest) ≤ length rest + 2 * length lit)
unfolding flush
length-flush [] rest = omega arith
length-flush (x ∷ lit) rest = omega (arith, length-append lit rest)

-- The commands `body` turn the output so far into that output with `text` behind it.
abbrev Writes : Option (List ℕ) → ℕ → List ℕ → List ℕ → Type 0
Writes base dst_size body text =
    (fuel : ℕ) (out : List ℕ)
    → length body ≤ fuel
    → length out + length text ≤ dst_size
    → apply_loop base dst_size fuel body out ≡ ok (out ++ text)

apply_loop-end :
    (base : Option (List ℕ)) (dst_size fuel : ℕ) (out : List ℕ)
    → apply_loop base dst_size fuel [] out ≡ ok out
unfolding apply_loop
apply_loop-end base dst_size zero out = refl
apply_loop-end base dst_size (suc fuel) out = refl

module _ (base : Option (List ℕ)) (dst_size : ℕ) where
  flush-Writes :
      (lit rest text : List ℕ)
      → length lit ≤ 127
      → Writes base dst_size rest text
      → Writes base dst_size (flush lit rest) (lit ++ text)
  flush-Writes lit rest text short w fuel out enough total =
      let (left, more, e) =
        flush-Reaches base dst_size fuel lit rest out short enough
          (omega (arith, length-append lit text)) in
      e
      ∙ w left (out ++ lit) more (omega (arith, length-append lit text, length-append out lit))
      ∙ ap ok (append_assoc out lit text)

  end-Writes : Writes base dst_size [] []
  end-Writes fuel out enough total =
      apply_loop-end base dst_size fuel out ∙ ap ok (sym (append-nil out))

copy-Writes :
    (b : List ℕ) (dst_size : ℕ) (t rest : List ℕ) (len off : ℕ)
    → length b < 2 ^ 31
    → IsCopy b t len off
    → Writes (some b) dst_size rest (drop len t)
    → Writes (some b) dst_size (copy_command off len rest) t
copy-Writes b dst_size t rest len off small c w fuel out enough total =
    let (left, more, run) =
      copy-Reaches b dst_size fuel off len rest out c.long c.short c.inside small enough
        (omega (arith, c.ahead)) in
    run
    ∙ rw c.equal (
        w left (out ++ take len t) more (
          omega
            (arith, length-append out (take len t), length-take len t, length-drop len t, c.ahead)))
    ∙ ap ok
        (append_assoc out (take len t) (drop len t) ∙ ap (λ u. out ++ u) (take-append-drop len t))

-- The loop of the compression ends, with commands that write the literals and the rest of the
-- target, in two bytes for one at most.
record Codes (base : Option (List ℕ)) (lit t body : List ℕ) : Type 0 where
  writes : (dst_size : ℕ) → Writes base dst_size body (lit ++ t)
  size : length body ≤ 2 * (length lit + length t)

-- The three ways through the body of the loop.
module _ (tables : Option (List ℕ × Tables)) (fuel x : ℕ) (t lit rest : List ℕ) where
  abbrev best : ℕ × ℕ
  best = best_match tables (x ∷ t)

  step_copy :
      leb 4 best.0 ≡ true
      → compress_loop tables fuel (drop best.0 (x ∷ t)) [] ≡ ok rest
      → compress_loop tables (suc fuel) (x ∷ t) lit
        ≡ ok (flush lit (copy_command best.1 best.0 rest))
  unfolding compress_loop
  step_copy e r = rw (e, r)

  step_full :
      leb 4 best.0 ≡ false
      → (length lit + 1 == 127) ≡ true
      → compress_loop tables fuel t [] ≡ ok rest
      → compress_loop tables (suc fuel) (x ∷ t) lit ≡ ok (flush (lit ++ (x ∷ [])) rest)
  unfolding compress_loop
  step_full e full r = rw (e, full, r)

  step_more :
      leb 4 best.0 ≡ false
      → (length lit + 1 == 127) ≡ false
      → compress_loop tables fuel t (lit ++ (x ∷ [])) ≡ ok rest
      → compress_loop tables (suc fuel) (x ∷ t) lit ≡ ok rest
  unfolding compress_loop
  step_more e full r = rw (e, full) r

module _ (base : Option (List ℕ)) (tables : Option (List ℕ × Tables))
    (small : (b : List ℕ) → base ≡ some b → length b < 2 ^ 31)
    (found : (t : List ℕ)
      → IsBytes t
      → CopyOf base t (best_match tables t).0 (best_match tables t).1) where
  compress_loop-Codes :
      (fuel : ℕ) (t lit : List ℕ)
      → length t ≤ fuel
      → length lit ≤ 126
      → IsBytes t
      → (body : List ℕ) × (compress_loop tables fuel t lit ≡ ok body) × Codes base lit t body
  compress_loop-Codes fuel [] lit enough short ht = (
    flush lit [],
    unfold compress_loop in refl,
    record {
      writes =
          λ dst_size. flush-Writes base dst_size lit [] [] (omega arith) (end-Writes base dst_size);
      size = omega (arith, length-flush lit []);
    },
  )
  compress_loop-Codes zero (x ∷ t) lit enough short ht = absurd (omega arith)
  compress_loop-Codes (suc fuel) (x ∷ t) lit enough short ht = elim (found (x ∷ t) ht) [
    | inr (b, e, c) ↦
        let len = (best_match tables (x ∷ t)).0 in
        let off = (best_match tables (x ∷ t)).1 in
        let left = drop len (x ∷ t) in
        let (rest, run, codes) =
          compress_loop-Codes fuel left [] (omega (arith, length-drop len (x ∷ t), c.long))
            (omega arith) (All-drop _ len (x ∷ t) ht) in
        (
          flush lit (copy_command off len rest),
          step_copy tables fuel x t lit rest (ground (arith, c.long)) run,
          record {
            writes = λ dst_size.
                flush-Writes base dst_size lit (copy_command off len rest) (x ∷ t) (omega arith) (
                  rw e (
                    copy-Writes b dst_size (x ∷ t) rest len off (small b e) c
                      (rw e at (codes.writes dst_size))));
            size = omega (
              arith,
              length-flush lit (copy_command off len rest),
              length-copy_command off len rest,
              codes.size,
              c.long,
              c.ahead,
              length-drop len (x ∷ t),
            );
          },
        )
    | inl none_found ↦ elim (Bool-cases (length lit + 1 == 127)) [
      | inl full ↦
          let (rest, run, codes) = compress_loop-Codes fuel t [] (omega arith) (omega arith) ht.1 in
          (
            flush (lit ++ (x ∷ [])) rest,
            step_full tables fuel x t lit rest (ground arith) full run,
            record {
              writes = λ dst_size. rw (← append_assoc lit (x ∷ []) t) (
                  flush-Writes base dst_size (lit ++ (x ∷ [])) rest t
                    (omega (arith, length-append lit (x ∷ []))) (codes.writes dst_size));
              size = omega (
                arith,
                length-flush (lit ++ (x ∷ [])) rest,
                length-append lit (x ∷ []),
                codes.size,
              );
            },
          )
      | inr room ↦
          let (rest, run, codes) =
            compress_loop-Codes fuel t (lit ++ (x ∷ [])) (omega arith)
              (ground (arith, length-append lit (x ∷ []))) ht.1 in
          (
            rest,
            step_more tables fuel x t lit rest (ground arith) room run,
            record {
              writes = λ dst_size. rw (append_assoc lit (x ∷ []) t) at (codes.writes dst_size);
              size = omega (arith, length-append lit (x ∷ []), codes.size);
            },
          )
    ]
  ]

length-encode_varint_pos : (v : ℕ) → 0 < length (encode_varint v)
unfolding encode_varint
length-encode_varint_pos v = unfold encode_loop in ground arith

-- The two sizes in front of a delta are read back, with what follows them.
pub read_sizes-encode :
    (m n : ℕ) (body : List ℕ)
    → m < 2 ^ 64
    → n < 2 ^ 64
    → read_sizes (encode_varint m ++ (encode_varint n ++ body)) ≡ ok (m, n, body)
unfolding read_sizes
read_sizes-encode m n body hm hn =
    let pos = λ (v : ℕ). nonzero v in
    rw (
      decode_varint-encode_varint m (encode_varint n ++ body) hm,
      pos m,
      drop-length-append (encode_varint m) (encode_varint n ++ body),
      decode_varint-encode_varint n body hn,
      pos n,
      drop-length-append (encode_varint n) body,
    )
  where
    nonzero : (v : ℕ) → (length (encode_varint v) == 0) ≡ false
    nonzero v = ground (arith, length-encode_varint_pos v)

-- Compressing a target of bytes against a base shorter than 2 ^ 31 bytes (or none) succeeds when
-- the buffer can be had, whether or not the hash arrays can; the delta fits in that buffer; and
-- `fastgit_delta_apply` and `git_delta_apply` on the same base give back the target, whole.
pub delta_apply-delta_compress :
    (malloc malloc' : ℕ → Bool) (base : Option (List ℕ)) (target : List ℕ)
    → ((b : List ℕ) → base ≡ some b → IsBytes b × (length b < 2 ^ 31))
    → IsBytes target
    → length target < 2 ^ 64
    → malloc (buffer_size (base_length base) (length target)) ≡ true
    → malloc' (length target) ≡ true
    → (delta : List ℕ) × (delta_compress malloc base target ≡ ok delta)
      × (length delta ≤ buffer_size (base_length base) (length target))
      × (delta_apply malloc' base delta ≡ ok (target, length target))
      × (git_delta_apply malloc' base delta ≡ ok (target, length target))
unfolding delta_compress delta_apply git_delta_apply buffer_size
delta_apply-delta_compress malloc malloc' base target hb ht small have have' =
    let (body, run, codes) =
      compress_loop-Codes base (make_tables malloc base) (λ b e. (hb b e).1)
        (λ t h. best_match-CopyOf malloc base t (λ b e. (hb b e).0) h) (length target) target []
        (omega arith) (omega arith) ht in
    (
      encode_varint (base_length base) ++ (encode_varint (length target) ++ body),
      rw (have, run),
      omega (
        arith,
        length-append (encode_varint (base_length base)) (encode_varint (length target) ++ body),
        length-append (encode_varint (length target)) body,
        codes.size,
      ),
      rw (
        read_sizes-encode (base_length base) (length target) body (base_small base hb) small,
        have',
        codes.writes (length target) (length body) [] (omega arith) (omega arith),
      ),
      rw
          (
            read_sizes-encode (base_length base) (length target) body (base_small base hb) small,
            have',
            apply_loop-git_apply_loop base (length target) (length body) body [] target
                (codes.writes (suc (length target)) (length body) [] (omega arith) (omega arith))
                (omega arith),
            whole target,
          )
          refl,
    )
  where
    whole : (t : List ℕ) → (length t == length t) ≡ true
    whole t = ground arith

    base_small :
        (base : Option (List ℕ))
        → ((b : List ℕ) → base ≡ some b → IsBytes b × (length b < 2 ^ 31))
        → base_length base < 2 ^ 64
    base_small none h = omega arith
    base_small (some b) h = omega (arith, (h b refl).1)
