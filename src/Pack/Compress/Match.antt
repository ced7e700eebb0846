-- ===== src/Pack/Compress/Match.antt =====
-- What the search of `fastgit_delta_compress` finds.
use fastgit.Common.{
  ℕ, zero, suc, ◌+◌, ◌-◌, ◌≤◌, min, ◌≡◌, refl, ap, ◌∙◌, sym, arith, ◌⊎◌, List, [], ◌∷◌, length,
  get_or, take, drop, IsBytes, leb, Bool-cases, inl, inr, Option, none, some, get_or-drop,
  drop-drop, length-drop,
}
use fastgit.Pack.Compress.{Tables, hash4, index_base, extend, consider, search_chain, best_match}
use fastgit.Pack.Compress.Chains.{first_byte, IsIndexed, index_base-IsIndexed}

-- Nothing found, or `len` bytes of `b` from `off` on that begin `t`, four at least.
pub record IsCopy (b t : List ℕ) (len off : ℕ) : Type 0 where
  pub long : 4 ≤ len
  pub short : len ≤ 0x10000
  pub inside : off + len ≤ length b
  pub ahead : len ≤ length t
  pub equal : take len (drop off b) ≡ take len t

abbrev pub IsMatch : List ℕ → List ℕ → ℕ → ℕ → Type 0
IsMatch b t len off = (len ≡ 0) ⊎ IsCopy b t len off

extend_lem :
    (rounds : ℕ) (xs ys : List ℕ)
    → rounds ≤ length xs
    → rounds ≤ length ys
    → (extend rounds xs ys ≤ rounds)
      × (take (extend rounds xs ys) xs ≡ take (extend rounds xs ys) ys)
unfolding extend
extend_lem (suc r) (x ∷ xs) (y ∷ ys) h k =
    ground (arith, extend_lem r xs ys (omega arith) (omega arith))
extend_lem (suc r) [] ys h k = absurd (omega arith)
extend_lem (suc r) (x ∷ xs) [] h k = absurd (omega arith)
extend_lem zero xs ys h k = (omega arith, refl)

take_four :
    (k : ℕ) (xs ys : List ℕ)
    → 4 ≤ length xs
    → 4 ≤ length ys
    → get_or xs 0 0 ≡ get_or ys 0 0
    → get_or xs 1 0 ≡ get_or ys 1 0
    → get_or xs 2 0 ≡ get_or ys 2 0
    → get_or xs 3 0 ≡ get_or ys 3 0
    → take k (drop 4 xs) ≡ take k (drop 4 ys)
    → take (4 + k) xs ≡ take (4 + k) ys
take_four k (a ∷ b ∷ c ∷ d ∷ xs) (a' ∷ b' ∷ c' ∷ d' ∷ ys) hx hy e₀ e₁ e₂ e₃ e =
    let four : 4 + k ≡ suc (suc (suc (suc k))) = omega arith in rw four (cc (e₀, e₁, e₂, e₃, e))
take_four k xs ys hx hy e₀ e₁ e₂ e₃ e = absurd (omega arith)

module _ (b t : List ℕ) (hb : IsBytes b) (ht : IsBytes t) (room : 4 ≤ length t) where
  -- A candidate of the chain whose last three bytes agree.
  candidate-IsCopy :
      (boff rounds : ℕ)
      → hash4 b boff ≡ hash4 t 0
      → boff + 4 ≤ length b
      → rounds + 4 ≤ length b - boff
      → rounds + 4 ≤ length t
      → rounds + 4 ≤ 0x10000
      → get_or b (boff + 1) 0 ≡ get_or t 1 0
      → get_or b (boff + 2) 0 ≡ get_or t 2 0
      → get_or b (boff + 3) 0 ≡ get_or t 3 0
      → IsCopy b t (4 + extend rounds (drop (boff + 4) b) (drop 4 t)) boff
  candidate-IsCopy boff rounds same inside r₁ r₂ r₃ e₁ e₂ e₃ =
      let (near, equal) =
        extend_lem rounds (drop (boff + 4) b) (drop 4 t) (omega (arith, length-drop (boff + 4) b))
          (omega (arith, length-drop 4 t)) in
      record {
        long = omega arith;
        short = omega arith;
        inside = omega arith;
        ahead = omega arith;
        equal =
            take_four (extend rounds (drop (boff + 4) b) (drop 4 t)) (drop boff b) t
              (omega (arith, length-drop boff b)) room (rw (get_or-drop boff 0 b 0) at (first_at))
              (rw (get_or-drop boff 1 b 0) at e₁) (rw (get_or-drop boff 2 b 0) at e₂)
              (rw (get_or-drop boff 3 b 0) at e₃)
              (ap (take (extend rounds (drop (boff + 4) b) (drop 4 t))) (sym (drop-drop boff 4 b))
                ∙ equal);
      }
    where
      first_at : get_or b (boff + 0) 0 ≡ get_or t 0 0
      first_at =
          let e : boff + 0 ≡ boff = omega arith in rw e (first_byte b t boff hb ht same e₁ e₂ e₃)

  consider-IsMatch :
      (boff len off : ℕ)
      → hash4 b boff ≡ hash4 t 0
      → boff + 4 ≤ length b
      → IsMatch b t len off
      → IsMatch b t (consider b t boff len off).0 (consider b t boff len off).1
  unfolding consider
  consider-IsMatch boff len off same inside m = ground (
    arith,
    candidate-IsCopy boff (min (min (length b - boff) (length t)) 0x10000 - 4) same inside,
  )

  search_chain-IsMatch :
      (s : Tables)
      → IsIndexed b s
      → (visits : ℕ) (boff : Option ℕ) (len off : ℕ)
      → ((p : ℕ) → boff ≡ some p → (p + 4 ≤ length b) × (hash4 b p ≡ hash4 t 0))
      → IsMatch b t len off
      → IsMatch b t
          (search_chain s b t visits boff len off).0
          (search_chain s b t visits boff len off).1
  unfolding search_chain
  search_chain-IsMatch s v zero boff len off h m = m
  search_chain-IsMatch s v (suc visits) none len off h m = m
  search_chain-IsMatch s v (suc visits) (some p) len off h m =
      let (inside, same) = h p refl in
      let r = consider b t p len off in
      let m' = consider-IsMatch p len off same inside m in
      let rest =
        search_chain-IsMatch s v visits (s.nxt p) r.0 r.1 (λ q e. ground (arith, v.nxt_ok p q e))
          m' in
      elim (Bool-cases r.2) [ inl stop ↦ rw stop m' | inr on ↦ rw on rest ]

-- For a base of 4 bytes at least, and a rest of the target, what the search reports is a stretch
-- of the base, of 4 to 0x10000 bytes, that the rest begins with, or no match.
pub best_match-IsMatch :
    (b t : List ℕ)
    → IsBytes b
    → IsBytes t
    → 4 ≤ length b
    → IsMatch b t
        (best_match (some (b, index_base b)) t).0
        (best_match (some (b, index_base b)) t).1
unfolding best_match
best_match-IsMatch b t hb ht long = elim (Bool-cases (leb 4 (length t))) [
  | inl room ↦
      let v = index_base-IsIndexed b long in
      rw room (
        search_chain-IsMatch b t hb ht (ground arith) (index_base b) v 32
          ((index_base b).head (hash4 t 0)) 0 0 (λ p e. v.head_ok (hash4 t 0) p e) (inl refl))
  | inr short ↦ rw short (inl refl)
]
