-- ===== src/Pack/Delta/Safety.antt =====
-- `fastgit_delta_apply` and `git_delta_apply` on any delta: bounds, ends, and the wrapping sum.
use fastgit.Common.{
  >>=-eq-ok, >>=-Post, >>=-ne-stuck, guard-ne-stuck, enomem, if◌then◌else◌, Bool-cases, ℕ, zero,
  suc, ◌+◌, ◌*◌, ◌%◌, ◌^◌, ◌≤◌, ◌<◌, bit_and, bit_or, ◌≡◌, ◌≢◌, arith, Bool, List, [], ◌∷◌, length,
  take, drop, ltb, ◌==◌, Option, none, some, ok, stuck, length-append, length-take, length-drop,
  Bool-cases, inl, inr, not, error,
}
use fastgit.Pack.Varint.{decode_loop, decode_varint}
use fastgit.Pack.Delta.{
  read_arg, read_copy, copy_base, insert_bytes, apply_command, apply_loop, read_sizes, delta_apply,
  git_apply_loop, git_delta_apply,
}

read_arg_shorter :
    (cmd flag shift acc : ℕ) (d : List ℕ) {x : ℕ} {d' : List ℕ}
    → read_arg cmd flag shift acc d ≡ ok (x, d')
    → length d' ≤ length d
unfolding read_arg
read_arg_shorter cmd flag shift acc [] e = ground arith
read_arg_shorter cmd flag shift acc (b ∷ d) e = ground arith

-- What a command does when it succeeds: it never moves `d` back, and writes one byte at least,
-- inside the buffer.
pub record Advances (dst_size : ℕ) (d out d' out' : List ℕ) : Type 0 where
  pub shorter : length d' ≤ length d
  pub longer : length out < length out'
  pub inside : length out' ≤ dst_size

copy_base_bounds :
    (base : Option (List ℕ)) (dst_size off sz : ℕ) (out : List ℕ) {out' : List ℕ}
    → copy_base base dst_size off sz out ≡ ok out'
    → (length out' ≡ length out + sz) × (length out' ≤ dst_size)
unfolding copy_base
copy_base_bounds none dst_size off sz out e = cc
copy_base_bounds (some b) dst_size off sz out e = ground (
  arith,
  length-append out (take sz (drop off b)),
  length-take sz (drop off b),
  length-drop off b,
)

insert_bytes_bounds :
    (dst_size copy_len : ℕ) (d out : List ℕ) {d' out' : List ℕ}
    → insert_bytes dst_size copy_len d out ≡ ok (d', out')
    → Advances dst_size d out d' out'
unfolding insert_bytes
insert_bytes_bounds dst_size n d out e =
    ground (arith, length-append out (take n d), length-take n d, length-drop n d)

abbrev CopyPost : List ℕ → ℕ × ℕ × List ℕ → Type 0
CopyPost d r = (length r.2 ≤ length d) × (0 < r.1)

read_copy_bounds :
    (cmd : ℕ) (d : List ℕ) (r : ℕ × ℕ × List ℕ) → read_copy cmd d ≡ ok r → CopyPost d r
unfolding read_copy
read_copy_bounds cmd d = >>=-Post (CopyPost d) _ _ λ (x₁, d₁) r₁.
    >>=-Post (CopyPost d) _ _ λ (x₂, d₂) r₂. >>=-Post (CopyPost d) _ _ λ (x₃, d₃) r₃.
      >>=-Post (CopyPost d) _ _ λ (x₄, d₄) r₄. >>=-Post (CopyPost d) _ _ λ (y₁, d₅) r₅.
        >>=-Post (CopyPost d) _ _ λ (y₂, d₆) r₆. >>=-Post (CopyPost d) _ _ λ (y₃, d₇) r₇.
          copy_end d x₄ y₃ d₇ (
            omega (
              arith,
              read_arg_shorter cmd 0x01 0 0 d r₁,
              read_arg_shorter cmd 0x02 8 x₁ d₁ r₂,
              read_arg_shorter cmd 0x04 16 x₂ d₂ r₃,
              read_arg_shorter cmd 0x08 24 x₃ d₃ r₄,
              read_arg_shorter cmd 0x10 0 0 d₄ r₅,
              read_arg_shorter cmd 0x20 8 y₁ d₅ r₆,
              read_arg_shorter cmd 0x40 16 y₂ d₆ r₇,
            ))
  where
    copy_end :
        (d : List ℕ) (x y : ℕ) (l : List ℕ)
        → length l ≤ length d
        → (r : ℕ × ℕ × List ℕ) → ok (x, (if y == 0 then 0x10000 else y), l) ≡ ok r
        → CopyPost d r
    copy_end d x y l h r e = ground arith

pub apply_command-Advances :
    (base : Option (List ℕ)) (dst_size cmd : ℕ) (d out : List ℕ) {d' out' : List ℕ}
    → apply_command base dst_size cmd d out ≡ ok (d', out')
    → Advances dst_size d out d' out'
unfolding apply_command
apply_command-Advances base dst_size cmd d out {d'} {out'} e =
    elim (Bool-cases (bit_and cmd 0x80 == 0)) [
      | inl low ↦ insert_bytes_bounds dst_size (bit_and cmd 0x7f) d out (rw low at e)
      | inr high ↦
          let (a, r, e₁) = >>=-eq-ok (read_copy cmd d) _ (rw high at e) in
          let (o, r₂, e₂) = >>=-eq-ok (copy_base base dst_size a.0 a.1 out) _ e₁ in
          let (shorter, pos) = read_copy_bounds cmd d a r in
          let (len, inside) = copy_base_bounds base dst_size a.0 a.1 out r₂ in ground (arith, e₂)
    ]

read_arg-ne-stuck : (cmd flag shift acc : ℕ) (d : List ℕ) → read_arg cmd flag shift acc d ≢ stuck
unfolding read_arg
read_arg-ne-stuck cmd flag shift acc [] = ground arith
read_arg-ne-stuck cmd flag shift acc (b ∷ d) = ground arith

read_copy-ne-stuck : (cmd : ℕ) (d : List ℕ) → read_copy cmd d ≢ stuck
unfolding read_copy
read_copy-ne-stuck cmd d = >>=-ne-stuck _ _ (read_arg-ne-stuck cmd 0x01 0 0 d) λ a₁ _.
    >>=-ne-stuck _ _ (read_arg-ne-stuck cmd 0x02 8 a₁.0 a₁.1) λ a₂ _.
      >>=-ne-stuck _ _ (read_arg-ne-stuck cmd 0x04 16 a₂.0 a₂.1) λ a₃ _.
        >>=-ne-stuck _ _ (read_arg-ne-stuck cmd 0x08 24 a₃.0 a₃.1) λ a₄ _.
          >>=-ne-stuck _ _ (read_arg-ne-stuck cmd 0x10 0 0 a₄.1) λ a₅ _.
            >>=-ne-stuck _ _ (read_arg-ne-stuck cmd 0x20 8 a₅.0 a₅.1)
              λ a₆ _. >>=-ne-stuck _ _ (read_arg-ne-stuck cmd 0x40 16 a₆.0 a₆.1) λ a₇ _ e. cc

copy_base-ne-stuck :
    (base : Option (List ℕ)) (dst_size off sz : ℕ) (out : List ℕ)
    → copy_base base dst_size off sz out ≢ stuck
unfolding copy_base
copy_base-ne-stuck none dst_size off sz out = λ e. cc
copy_base-ne-stuck (some b) dst_size off sz out = ground arith

insert_bytes-ne-stuck : (dst_size n : ℕ) (d out : List ℕ) → insert_bytes dst_size n d out ≢ stuck
unfolding insert_bytes
insert_bytes-ne-stuck dst_size n d out = ground arith

pub apply_command-ne-stuck :
    (base : Option (List ℕ)) (dst_size cmd : ℕ) (d out : List ℕ)
    → apply_command base dst_size cmd d out ≢ stuck
unfolding apply_command
apply_command-ne-stuck base dst_size cmd d out = elim (Bool-cases (bit_and cmd 0x80 == 0)) [
  | inl low ↦ rw low (insert_bytes-ne-stuck dst_size (bit_and cmd 0x7f) d out)
  | inr high ↦ rw high (
      >>=-ne-stuck _ _ (read_copy-ne-stuck cmd d)
        λ a _. >>=-ne-stuck _ _ (copy_base-ne-stuck base dst_size a.0 a.1 out) λ o _ e. cc)
]

-- With a round for each byte the loop ends.
apply_loop-ne-stuck :
    (base : Option (List ℕ)) (dst_size fuel : ℕ) (d out : List ℕ)
    → length d ≤ fuel
    → apply_loop base dst_size fuel d out ≢ stuck
unfolding apply_loop
apply_loop-ne-stuck base dst_size zero [] out h = λ e. cc
apply_loop-ne-stuck base dst_size (suc fuel) [] out h = λ e. cc
apply_loop-ne-stuck base dst_size zero (c ∷ d) out h = absurd (omega arith)
apply_loop-ne-stuck base dst_size (suc fuel) (c ∷ d) out h =
    elim (Bool-cases (ltb (length out) dst_size)) [
      | inr full ↦ rw full (λ e. cc)
      | inl room ↦ rw room (
          >>=-ne-stuck _ _ (apply_command-ne-stuck base dst_size c d out) λ r e.
            apply_loop-ne-stuck base dst_size fuel r.0 r.1
              (omega (arith, (apply_command-Advances base dst_size c d out e).shorter)))
    ]

git_apply_loop-ne-stuck :
    (base : Option (List ℕ)) (dst_size fuel : ℕ) (d out : List ℕ)
    → length d ≤ fuel
    → git_apply_loop base dst_size fuel d out ≢ stuck
unfolding git_apply_loop
git_apply_loop-ne-stuck base dst_size zero [] out h = λ e. cc
git_apply_loop-ne-stuck base dst_size (suc fuel) [] out h = λ e. cc
git_apply_loop-ne-stuck base dst_size zero (c ∷ d) out h = absurd (omega arith)
git_apply_loop-ne-stuck base dst_size (suc fuel) (c ∷ d) out h =
    >>=-ne-stuck _ _ (apply_command-ne-stuck base dst_size c d out) λ r e.
      git_apply_loop-ne-stuck base dst_size fuel r.0 r.1
        (omega (arith, (apply_command-Advances base dst_size c d out e).shorter))

decode_loop-ne-stuck : (bs : List ℕ) (val shift i : ℕ) → decode_loop bs val shift i ≢ stuck
unfolding decode_loop
decode_loop-ne-stuck [] val shift i = λ e. cc
decode_loop-ne-stuck (b ∷ bs) val shift i = ground (
  arith,
  decode_loop-ne-stuck bs (bit_or val (bit_and b 0x7f * 2 ^ shift % 2 ^ 64)) (shift + 7) (i + 1),
)

read_sizes-ne-stuck : (delta : List ℕ) → read_sizes delta ≢ stuck
unfolding read_sizes decode_varint
read_sizes-ne-stuck delta = >>=-ne-stuck _ _ (decode_loop-ne-stuck delta 0 0 0) λ a _.
    >>=-ne-stuck _ _ (guard-ne-stuck (not (a.0 == 0)) error) λ _ _.
      >>=-ne-stuck _ _ (decode_loop-ne-stuck (drop a.0 delta) 0 0 0)
        λ b _. >>=-ne-stuck _ _ (guard-ne-stuck (not (b.0 == 0)) error) λ _ _ e. cc

-- Both functions end on every delta: the rounds that their loops are given are enough.
pub apply_ends :
    (malloc : ℕ → Bool) (base : Option (List ℕ)) (delta : List ℕ)
    → (delta_apply malloc base delta ≢ stuck) × (git_delta_apply malloc base delta ≢ stuck)
unfolding delta_apply git_delta_apply
apply_ends malloc base delta = (
  (>>=-ne-stuck _ _ (read_sizes-ne-stuck delta) λ a _.
      >>=-ne-stuck _ _ (guard-ne-stuck (malloc a.1) enomem) λ _ _.
        >>=-ne-stuck _ _ (apply_loop-ne-stuck base a.1 (length a.2) a.2 [] (omega arith))
          λ o _ e. cc),
  (>>=-ne-stuck _ _ (read_sizes-ne-stuck delta) λ a _.
      >>=-ne-stuck _ _ (guard-ne-stuck (malloc a.1) enomem) λ _ _.
        >>=-ne-stuck _ _ (git_apply_loop-ne-stuck base a.1 (length a.2) a.2 [] (omega arith))
          λ o _. >>=-ne-stuck _ _ (guard-ne-stuck (length o == a.1) error) λ _ _ e. cc),
)
