-- ===== src/Pack/Delta/Agreement.antt =====
-- `fastgit_delta_apply` (src/pack/delta.c) against `git_delta_apply` (src/pack/packfile.c), and the
-- deltas on which the first goes wrong.
use fastgit.Common.{
  ℕ, zero, suc, ◌+◌, ◌^◌, ◌≤◌, ◌<◌, ◌≡◌, refl, arith, Bool, true, List, [], ◌∷◌, ◌++◌, length, ◌==◌,
  Option, some, ok, err, fault, guard, error, enomem, >>=-Post, guard-eq-ok, lt→ltb, le→ltb,
}
use fastgit.Pack.Varint.{encode_varint}
use fastgit.Pack.Delta.{
  read_arg, next_byte, read_copy, copy_base, apply_command, apply_loop, read_sizes, delta_apply,
  git_apply_loop, git_delta_apply,
}
use fastgit.Pack.Delta.Safety.{apply_command-Advances}
use fastgit.Pack.Compress.RoundTrip.{read_sizes-encode}

-- A run of the loop of `git_delta_apply` that succeeds is a run of the other loop.
git_apply_loop-apply_loop :
    (base : Option (List ℕ)) (dst_size fuel : ℕ) (d out o : List ℕ)
    → git_apply_loop base dst_size fuel d out ≡ ok o
    → apply_loop base dst_size fuel d out ≡ ok o
unfolding git_apply_loop apply_loop
git_apply_loop-apply_loop base dst_size zero [] out o = λ e. e
git_apply_loop-apply_loop base dst_size (suc fuel) [] out o = λ e. e
git_apply_loop-apply_loop base dst_size zero (c ∷ d) out o = λ e. cc
git_apply_loop-apply_loop base dst_size (suc fuel) (c ∷ d) out o =
    >>=-Post (λ x. apply_loop base dst_size (suc fuel) (c ∷ d) out ≡ ok x)
      (apply_command base dst_size c d out) _
      (λ r e o h.
        let a = apply_command-Advances base dst_size c d out e in
        rw (lt→ltb (length out) dst_size (omega (arith, a.longer, a.inside)), e)
          (git_apply_loop-apply_loop base dst_size fuel r.0 r.1 o h))
      o

-- Where `git_delta_apply` succeeds the output is as long as the delta says, and
-- `fastgit_delta_apply` succeeds with the same output.
pub git_delta_apply-delta_apply :
    (malloc : ℕ → Bool) (base : Option (List ℕ)) (delta : List ℕ) (r : List ℕ × ℕ)
    → git_delta_apply malloc base delta ≡ ok r
    → (length r.0 ≡ r.1) × (delta_apply malloc base delta ≡ ok r)
unfolding git_delta_apply delta_apply
git_delta_apply-delta_apply malloc base delta = >>=-Post _ (read_sizes delta) _ λ s e₁.
    >>=-Post _ (guard (malloc s.1) enomem) _ λ u e₂.
      >>=-Post _ (git_apply_loop base s.1 (length s.2) s.2 []) _ λ o e₃.
        >>=-Post _ (guard (length o == s.1) error) _ λ v e₄ r e. (
          ground (arith, guard-eq-ok (length o == s.1) error v e₄),
          rw (e₁, e₂, git_apply_loop-apply_loop base s.1 (length s.2) s.2 [] o e₃) e,
        )

-- A delta that ends behind its two sizes, the second not 0, where the memory can be had:
-- `fastgit_delta_apply` reports success although it has
-- written none of the `n` bytes, and `git_delta_apply` reports an error.
pub delta_apply_incomplete :
    (malloc : ℕ → Bool) (base : Option (List ℕ)) (m n : ℕ)
    → m < 2 ^ 64
    → n < 2 ^ 64
    → 0 < n
    → malloc n ≡ true
    → (delta_apply malloc base (encode_varint m ++ (encode_varint n ++ [])) ≡ ok ([], n))
      × (git_delta_apply malloc base (encode_varint m ++ (encode_varint n ++ [])) ≡ err error)
unfolding delta_apply git_delta_apply apply_loop git_apply_loop
delta_apply_incomplete malloc base m n hm hn pos have = (
  rw (read_sizes-encode m n [] hm hn, have),
  rw (read_sizes-encode m n [] hm hn, have) (ground arith),
)

wrapping_copy : List ℕ → List ℕ
wrapping_copy rest = 255 ∷ 255 ∷ 255 ∷ 255 ∷ 1 ∷ rest

read-wrapping_copy :
    (rest : List ℕ) → read_copy 0x9f (wrapping_copy rest) ≡ ok (0xffffffff, 1, rest)
unfolding wrapping_copy read_copy read_arg next_byte
read-wrapping_copy rest = refl

copy-wraps :
    (base : List ℕ) (n off sz : ℕ)
    → sz ≤ n
    → off + sz ≡ 2 ^ 32
    → length base < 2 ^ 32
    → copy_base (some base) n off sz [] ≡ fault
unfolding copy_base
copy-wraps base n off sz fits e small = rw e (
    rw (
      le→ltb (length base) 0 (omega arith),
      le→ltb n (0 + sz) (omega arith),
      lt→ltb (length base) (2 ^ 32) small,
    ))

command-wraps :
    (base : List ℕ) (n : ℕ) (rest : List ℕ)
    → 0 < n
    → length base < 2 ^ 32
    → apply_command (some base) n 0x9f (wrapping_copy rest) [] ≡ fault
unfolding apply_command
command-wraps base n rest pos small =
    rw (read-wrapping_copy rest, copy-wraps base n 0xffffffff 1 pos refl small)

loop-wraps :
    (base : List ℕ) (n fuel : ℕ) (rest : List ℕ)
    → 0 < n
    → length base < 2 ^ 32
    → apply_loop (some base) n (suc fuel) (0x9f ∷ wrapping_copy rest) [] ≡ fault
unfolding apply_loop
loop-wraps base n fuel rest pos small = rw (lt→ltb 0 n pos, command-wraps base n rest pos small)

-- Where the memory can be had and the output is not empty, one copy command whose offset and size add up to 2 ^ 32 passes the test on the bounds, because
-- the sum of the two `uint32_t` is 0, and `memcpy` reads beyond the end of every base that is
-- shorter than 4 GiB.
pub delta_apply_wraps :
    (malloc : ℕ → Bool) (base : List ℕ) (m n : ℕ) (rest : List ℕ)
    → m < 2 ^ 64
    → n < 2 ^ 64
    → 0 < n
    → malloc n ≡ true
    → length base < 2 ^ 32
    → delta_apply malloc
        (some base)
        (encode_varint m ++ (encode_varint n ++ (0x9f ∷ 255 ∷ 255 ∷ 255 ∷ 255 ∷ 1 ∷ rest)))
      ≡ fault
unfolding delta_apply wrapping_copy
delta_apply_wraps malloc base m n rest hm hn pos have small = rw (
  read_sizes-encode m n (0x9f ∷ wrapping_copy rest) hm hn,
  have,
  loop-wraps base n (length (wrapping_copy rest)) rest pos small,
)
