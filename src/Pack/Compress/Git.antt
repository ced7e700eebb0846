-- ===== src/Pack/Compress/Git.antt =====
-- A delta that `fastgit_delta_compress` makes, applied by `git_delta_apply`.
use fastgit.Common.{
  ℕ, zero, suc, ◌≤◌, ◌≡◌, arith, List, [], ◌∷◌, length, take, drop, ltb, ◌==◌, Option, none, some,
  ok, Bool-cases, inl, inr, bit_and, length-append, length-take, length-drop, >>=-eq-ok,
}
use fastgit.Pack.Delta.{
  read_copy, copy_base, insert_bytes, apply_command, apply_loop, git_apply_loop,
}
use fastgit.Pack.Delta.Safety.{apply_command-Advances}

copy_base-narrow :
    (base : Option (List ℕ)) (n off sz : ℕ) (out out' : List ℕ)
    → copy_base base (suc n) off sz out ≡ ok out'
    → length out' ≤ n
    → copy_base base n off sz out ≡ ok out'
unfolding copy_base
copy_base-narrow none n off sz out out' e inside = cc
copy_base-narrow (some b) n off sz out out' e inside = ground (
  arith,
  length-append out (take sz (drop off b)),
  length-take sz (drop off b),
  length-drop off b,
)

insert_bytes-narrow :
    (n size : ℕ) (d out : List ℕ) (r : List ℕ × List ℕ)
    → insert_bytes (suc n) size d out ≡ ok r
    → length r.1 ≤ n
    → insert_bytes n size d out ≡ ok r
unfolding insert_bytes
insert_bytes-narrow n size d out r e inside =
    ground (arith, length-append out (take size d), length-take size d)

-- A command that leaves a byte of the room succeeds with one byte of room less.
apply_command-narrow :
    (base : Option (List ℕ)) (n c : ℕ) (d out : List ℕ) (r : List ℕ × List ℕ)
    → apply_command base (suc n) c d out ≡ ok r
    → length r.1 ≤ n
    → apply_command base n c d out ≡ ok r
unfolding apply_command
apply_command-narrow base n c d out r e inside = elim (Bool-cases (bit_and c 0x80 == 0)) [
  | inl low ↦ rw low (insert_bytes-narrow n (bit_and c 0x7f) d out r (rw low at e) inside)
  | inr high ↦
      let (a, r₁, e₁) = >>=-eq-ok (read_copy c d) _ (rw high at e) in
      let (o, r₂, e₂) = >>=-eq-ok (copy_base base (suc n) a.0 a.1 out) _ e₁ in
      let same : (a.2, o) ≡ r = cc in
      let kept = copy_base-narrow base n a.0 a.1 out o r₂ (rw (← same) at inside) in
      rw (high, r₁, kept) e₂
]

apply_loop-longer :
    (base : Option (List ℕ)) (n fuel : ℕ) (d out o : List ℕ)
    → apply_loop base n fuel d out ≡ ok o
    → length out ≤ length o
unfolding apply_loop
apply_loop-longer base n zero [] out o e = ground arith
apply_loop-longer base n (suc fuel) [] out o e = ground arith
apply_loop-longer base n zero (c ∷ d) out o e = ground arith
apply_loop-longer base n (suc fuel) (c ∷ d) out o e = elim (Bool-cases (ltb (length out) n)) [
  | inr full ↦ ground arith
  | inl room ↦
      let (r, run, next) = >>=-eq-ok (apply_command base n c d out) _ (rw room at e) in
      omega (
        arith,
        (apply_command-Advances base n c d out run).longer,
        apply_loop-longer base n fuel r.0 r.1 o next,
      )
]

-- A run that leaves a byte of the room has read the whole delta.
pub apply_loop-git_apply_loop :
    (base : Option (List ℕ)) (n fuel : ℕ) (d out o : List ℕ)
    → apply_loop base (suc n) fuel d out ≡ ok o
    → length o ≤ n
    → git_apply_loop base n fuel d out ≡ ok o
unfolding apply_loop git_apply_loop
apply_loop-git_apply_loop base n zero [] out o e inside = e
apply_loop-git_apply_loop base n (suc fuel) [] out o e inside = e
apply_loop-git_apply_loop base n zero (c ∷ d) out o e inside = ground arith
apply_loop-git_apply_loop base n (suc fuel) (c ∷ d) out o e inside =
    elim (Bool-cases (ltb (length out) (suc n))) [
      | inr full ↦ ground arith
      | inl room ↦
          let (r, run, next) = >>=-eq-ok (apply_command base (suc n) c d out) _ (rw room at e) in
          let longer = apply_loop-longer base (suc n) fuel r.0 r.1 o next in
          let narrow = apply_command-narrow base n c d out r run (omega arith) in
          rw narrow (apply_loop-git_apply_loop base n fuel r.0 r.1 o next inside)
    ]
