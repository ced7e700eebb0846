-- ===== src/Pack/Delta/Bounds.antt =====
-- What `fastgit_delta_apply` reads and writes in every run, those that end in an error included.
use fastgit.Common.{
  ℕ, zero, suc, ◌+◌, ◌≤◌, ◌<◌, ◌≡◌, ◌≢◌, refl, arith, Bool, Bool-cases, inl, inr, List, [], ◌∷◌,
  length, ltb, ◌==◌, bit_and, Option, none, some, Result, ok, err, fault, stuck, ◌>>=◌,
}
use fastgit.Pack.Delta.{
  read_arg, read_copy, copy_base, insert_bytes, apply_command, apply_loop, read_sizes, delta_apply,
}
use fastgit.Pack.Delta.Safety.{apply_command-Advances, apply_command-ne-stuck}

>>=-ne-fault {ℓ κ} :
    {A : Type ℓ} {B : Type κ} (m : Result A) (f : A → Result B)
    → m ≢ fault
    → ((a : A) → f a ≢ fault)
    → (m >>= f) ≢ fault
>>=-ne-fault (ok a) f h k = k a
>>=-ne-fault (err e) f h k = λ p. cc
>>=-ne-fault stuck f h k = λ p. cc
>>=-ne-fault fault f h k = absurd (h refl)

>>=-eq-fault {ℓ κ} :
    {A : Type ℓ} {B : Type κ} (m : Result A) (f : A → Result B)
    → m ≢ fault
    → (m >>= f) ≡ fault
    → (a : A) × (m ≡ ok a) × (f a ≡ fault)
>>=-eq-fault (ok a) f h e = (a, refl, e)
>>=-eq-fault (err x) f h e = cc
>>=-eq-fault stuck f h e = cc
>>=-eq-fault fault f h e = absurd (h refl)

read_arg-ne-fault : (cmd flag shift acc : ℕ) (d : List ℕ) → read_arg cmd flag shift acc d ≢ fault
unfolding read_arg
read_arg-ne-fault cmd flag shift acc [] = ground arith
read_arg-ne-fault cmd flag shift acc (b ∷ d) = ground arith

read_copy-ne-fault : (cmd : ℕ) (d : List ℕ) → read_copy cmd d ≢ fault
unfolding read_copy
read_copy-ne-fault cmd d = >>=-ne-fault _ _ (read_arg-ne-fault cmd 0x01 0 0 d) λ a₁.
    >>=-ne-fault _ _ (read_arg-ne-fault cmd 0x02 8 a₁.0 a₁.1) λ a₂.
      >>=-ne-fault _ _ (read_arg-ne-fault cmd 0x04 16 a₂.0 a₂.1) λ a₃.
        >>=-ne-fault _ _ (read_arg-ne-fault cmd 0x08 24 a₃.0 a₃.1) λ a₄.
          >>=-ne-fault _ _ (read_arg-ne-fault cmd 0x10 0 0 a₄.1) λ a₅.
            >>=-ne-fault _ _ (read_arg-ne-fault cmd 0x20 8 a₅.0 a₅.1)
              λ a₆. >>=-ne-fault _ _ (read_arg-ne-fault cmd 0x40 16 a₆.0 a₆.1) λ a₇ e. cc

insert_bytes-ne-fault : (n size : ℕ) (d out : List ℕ) → insert_bytes n size d out ≢ fault
unfolding insert_bytes
insert_bytes-ne-fault n size d out = ground arith

-- A copy of `sz` bytes from `off` on that the base does not have, and that the buffer has room for.
abbrev pub IsOverread : Option (List ℕ) → ℕ → List ℕ → ℕ → ℕ → Type 0
IsOverread none n out off sz = ⊥
IsOverread (some base) n out off sz = (length base < off + sz) × (length out + sz ≤ n)

copy_base-IsOverread :
    (base : Option (List ℕ)) (n off sz : ℕ) (out : List ℕ)
    → copy_base base n off sz out ≡ fault
    → IsOverread base n out off sz
unfolding copy_base
copy_base-IsOverread none n off sz out e = cc
copy_base-IsOverread (some b) n off sz out e = ground arith

apply_command-IsOverread :
    (base : Option (List ℕ)) (n cmd : ℕ) (d out : List ℕ)
    → apply_command base n cmd d out ≡ fault
    → (off : ℕ) × (sz : ℕ) × (rest : List ℕ) × (read_copy cmd d ≡ ok (off, sz, rest))
      × IsOverread base n out off sz
unfolding apply_command
apply_command-IsOverread base n cmd d out e = elim (Bool-cases (bit_and cmd 0x80 == 0)) [
  | inl low ↦ absurd (insert_bytes-ne-fault n (bit_and cmd 0x7f) d out (rw low at e))
  | inr high ↦
      let (a, r, e₁) = >>=-eq-fault (read_copy cmd d) _ (read_copy-ne-fault cmd d) (rw high at e) in
      let copied : copy_base base n a.0 a.1 out ≡ fault =
        back (copy_base base n a.0 a.1 out) _ (λ o p. cc) e₁ in
      (a.0, a.1, a.2, r, copy_base-IsOverread base n a.0 a.1 out copied)
]
  where
    back :
        (r : Result (List ℕ)) (f : List ℕ → Result (List ℕ × List ℕ))
        → ((o : List ℕ) → f o ≢ fault)
        → (r >>= f) ≡ fault
        → r ≡ fault
    back (ok o) f h e = absurd (h o e)
    back (err x) f h e = cc
    back fault f h e = refl
    back stuck f h e = cc

-- Where the loop stands after some rounds: what is left of the delta, and the output so far.
pub data Reached (base : Option (List ℕ)) (n : ℕ) (delta : List ℕ) : List ℕ → List ℕ → Type 0 where
  start : Reached base n delta delta []
  round :
      (cmd : ℕ) (d out d' out' : List ℕ)
      → Reached base n delta (cmd ∷ d) out
      → length out < n
      → apply_command base n cmd d out ≡ ok (d', out')
      → Reached base n delta d' out'

-- A round that copies bytes which the base does not have.
pub record Overreads (base : Option (List ℕ)) (n : ℕ) (delta : List ℕ) : Type 0 where
  cmd : ℕ
  d : List ℕ
  out : List ℕ
  off : ℕ
  sz : ℕ
  rest : List ℕ
  reached : Reached base n delta (cmd ∷ d) out
  copy : read_copy cmd d ≡ ok (off, sz, rest)
  beyond : IsOverread base n out off sz

-- What the loop, and the function behind it, may end with: output that fits, an error, or a copy from
-- beyond the base that fits into the buffer.
abbrev pub Within {ℓ} :
    {A : Type ℓ} → (A → Type 0) → Option (List ℕ) → ℕ → List ℕ → Result A → Type 0
Within P base n delta (ok a) = P a
Within P base n delta (err e) = Unit {0}
Within P base n delta fault = Overreads base n delta
Within P base n delta stuck = ⊥

module _ (base : Option (List ℕ)) (n : ℕ) (delta : List ℕ) where
  abbrev Ends : Result (List ℕ) → Type 0
  Ends = Within (λ out. length out ≤ n) base n delta

  overread :
      (cmd : ℕ) (d out : List ℕ)
      → Reached base n delta (cmd ∷ d) out
      → apply_command base n cmd d out ≡ fault
      → Overreads base n delta
  overread cmd d out reached e =
      let (off, sz, rest, read, beyond) = apply_command-IsOverread base n cmd d out e in
      record {
        cmd = cmd;
        d = d;
        out = out;
        off = off;
        sz = sz;
        rest = rest;
        reached = reached;
        copy = read;
        beyond = beyond;
      }

  after_command :
      (fuel cmd : ℕ) (d out : List ℕ) (r : Result (List ℕ × List ℕ))
      → apply_command base n cmd d out ≡ r
      → Reached base n delta (cmd ∷ d) out
      → length out < n
      → length d ≤ fuel
      → ((d' out' : List ℕ)
          → Reached base n delta d' out'
          → length out' ≤ n
          → length d' ≤ fuel
          → Ends (apply_loop base n fuel d' out'))
      → Ends (r >>= λ x. apply_loop base n fuel x.0 x.1)
  after_command fuel cmd d out (ok (d', out')) e reached room enough next =
      let a = apply_command-Advances base n cmd d out e in
      next d' out' (Reached.round cmd d out d' out' reached room e) a.inside
        (omega (arith, a.shorter))
  after_command fuel cmd d out (err x) e reached room enough next = tt
  after_command fuel cmd d out fault e reached room enough next = overread cmd d out reached e
  after_command fuel cmd d out stuck e reached room enough next =
      absurd (apply_command-ne-stuck base n cmd d out e)

  apply_loop-Ends :
      (fuel : ℕ) (d out : List ℕ)
      → Reached base n delta d out
      → length out ≤ n
      → length d ≤ fuel
      → Ends (apply_loop base n fuel d out)
  unfolding apply_loop
  apply_loop-Ends zero [] out reached fits enough = fits
  apply_loop-Ends (suc fuel) [] out reached fits enough = fits
  apply_loop-Ends zero (cmd ∷ d) out reached fits enough = absurd (omega arith)
  apply_loop-Ends (suc fuel) (cmd ∷ d) out reached fits enough =
      elim (Bool-cases (ltb (length out) n)) [
        | inr full ↦ rw full fits
        | inl room ↦ rw room (
            after_command fuel cmd d out (apply_command base n cmd d out) refl reached
              (ground arith) (omega arith) (apply_loop-Ends fuel))
      ]

abbrev with_size : ℕ → List ℕ → Result (List ℕ × ℕ)
with_size n out = ok (out, n)

sized :
    (base : Option (List ℕ)) (n : ℕ) (delta : List ℕ) (r : Result (List ℕ))
    → Within (λ out. length out ≤ n) base n delta r
    → Within {A = List ℕ × ℕ} (λ o. (length o.0 ≤ n) × (o.1 ≡ n)) base n delta (r >>= with_size n)
sized base n delta (ok out) h = (h, refl)
sized base n delta (err e) h = tt
sized base n delta fault h = h
sized base n delta stuck h = h

-- On a delta whose two sizes can be read, the second is `*out_len`, and in every run of
-- `fastgit_delta_apply`, those that return an error included, every copy fits into the buffer of that
-- size: the run ends with at most so many bytes written, with an error, or with undefined behaviour in
-- a round of the loop that copies, to a place where they fit, bytes which the base does not have.
pub delta_apply-Within :
    (malloc : ℕ → Bool) (base : Option (List ℕ)) (delta d : List ℕ) (m n : ℕ)
    → read_sizes delta ≡ ok (m, n, d)
    → Within (λ o. (length o.0 ≤ n) × (o.1 ≡ n)) base n d (delta_apply malloc base delta)
unfolding delta_apply
delta_apply-Within malloc base delta d m n sizes = elim (Bool-cases (malloc n)) [
  | inr missing ↦ rw (sizes, missing) tt
  | inl have ↦
      rw (sizes, have)
        (sized base n d (apply_loop base n (length d) d [])
          (apply_loop-Ends base n d (length d) d [] Reached.start (omega arith) (omega arith)))
]
