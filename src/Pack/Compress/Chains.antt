-- ===== src/Pack/Compress/Chains.antt =====
-- The hash chains of `fastgit_delta_compress`: what they hold, and why the first byte of a
-- candidate needs no comparison.
use fastgit.Common.{
  ℕ, zero, suc, ◌+◌, ◌-◌, ◌*◌, ◌/◌, ◌%◌, ◌^◌, ◌≤◌, ◌<◌, ◌≡◌, ◌∙◌, sym, arith, List, [], ◌∷◌, length,
  get_or, IsBytes, none, some,
}
use fastgit.Common.Bits.{big_endian_word}
use fastgit.Pack.Compress.{Tables, hash4, index_step, index_loop, index_base}

-- The hash as arithmetic.
hash_of : ℕ → ℕ → ℕ → ℕ → ℕ
hash_of a x y z = (a * 2 ^ 24 + x * 2 ^ 16 + y * 2 ^ 8 + z) * 2654435761 % 2 ^ 32 / 2 ^ 18

get_or-byte : (b : List ℕ) (i : ℕ) → IsBytes b → get_or b i 0 < 256
get_or-byte [] i h = omega arith
get_or-byte (x ∷ b) zero (p, h) = p
get_or-byte (x ∷ b) (suc i) (p, h) = get_or-byte b i h

hash4-of :
    (b : List ℕ) (i : ℕ)
    → IsBytes b
    → hash4 b i
      ≡ hash_of (get_or b i 0) (get_or b (i + 1) 0) (get_or b (i + 2) 0) (get_or b (i + 3) 0)
unfolding hash4 hash_of
hash4-of b i h = rw (
    big_endian_word (get_or b i 0) (get_or b (i + 1) 0) (get_or b (i + 2) 0) (get_or b (i + 3) 0)
      (get_or-byte b i h) (get_or-byte b (i + 1) h) (get_or-byte b (i + 2) h)
      (get_or-byte b (i + 3) h))

-- The multiplier is odd, so the top byte of the product, which the hash keeps, tells the first
-- bytes apart.
hash_of_injective :
    (a c x y z : ℕ)
    → a < 256
    → c < 256
    → x < 256
    → y < 256
    → z < 256
    → hash_of a x y z ≡ hash_of c x y z
    → a ≡ c
unfolding hash_of
hash_of_injective a c x y z ha hc hx hy hz e = omega arith

-- Words with the same hash that agree in the last three bytes agree in the first.
pub first_byte :
    (b t : List ℕ) (i : ℕ)
    → IsBytes b
    → IsBytes t
    → hash4 b i ≡ hash4 t 0
    → get_or b (i + 1) 0 ≡ get_or t 1 0
    → get_or b (i + 2) 0 ≡ get_or t 2 0
    → get_or b (i + 3) 0 ≡ get_or t 3 0
    → get_or b i 0 ≡ get_or t 0 0
first_byte b t i hb ht e e₁ e₂ e₃ =
    hash_of_injective (get_or b i 0) (get_or t 0 0) (get_or t 1 0) (get_or t 2 0) (get_or t 3 0)
      (get_or-byte b i hb) (get_or-byte t 0 ht) (get_or-byte t 1 ht) (get_or-byte t 2 ht)
      (get_or-byte t 3 ht) (rw (e₁, e₂, e₃) at (sym (hash4-of b i hb) ∙ e ∙ hash4-of t 0 ht))

-- What the arrays hold: a chain begins at a position with its hash, and goes on at positions with
-- the same hash; four bytes stand at each.
pub record IsIndexed (b : List ℕ) (s : Tables) : Type 0 where
  pub head_ok : (h p : ℕ) → s.head h ≡ some p → (p + 4 ≤ length b) × (hash4 b p ≡ h)
  pub nxt_ok : (p q : ℕ) → s.nxt p ≡ some q → (q + 4 ≤ length b) × (hash4 b q ≡ hash4 b p)

index_step-IsIndexed :
    (b : List ℕ) (i : ℕ) (s : Tables)
    → i + 4 ≤ length b
    → IsIndexed b s
    → IsIndexed b (index_step b i s)
unfolding index_step
index_step-IsIndexed b i s h v = record {
  head_ok = λ k p e. ground (arith, v.head_ok k p);
  nxt_ok = λ p q e. ground (arith, v.nxt_ok p q, v.head_ok (hash4 b i) q);
}

index_loop-IsIndexed :
    (b : List ℕ) (rounds i : ℕ) (s : Tables)
    → i + rounds + 3 ≤ length b
    → IsIndexed b s
    → IsIndexed b (index_loop b rounds i s)
unfolding index_loop
index_loop-IsIndexed b zero i s h v = v
index_loop-IsIndexed b (suc rounds) i s h v =
    index_loop-IsIndexed b rounds (i + 1) (index_step b i s) (omega arith)
      (index_step-IsIndexed b i s (omega arith) v)

pub index_base-IsIndexed : (b : List ℕ) → 4 ≤ length b → IsIndexed b (index_base b)
unfolding index_base
index_base-IsIndexed b h =
    index_loop-IsIndexed b (length b - 3) 0 (record { head = λ _. none; nxt = λ _. none })
      (omega arith) (record { head_ok = λ k p e. cc; nxt_ok = λ p q e. cc })
