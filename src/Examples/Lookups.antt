-- ===== src/Examples/Lookups.antt =====
-- Runs of the search in src/pack/packfile.c.
use Prim.Native.Nat.{gt}
use fastgit.Common.{
  ℕ, zero, suc, ◌≤◌, ◌≡◌, ◌≢◌, refl, ap, arith, List, [], ◌∷◌, length, get_elem?, get_or, some, ok,
  err, enoent,
}
use fastgit.Object.Oid.Order.{memcmp}
use fastgit.Pack.Lookup.{fanout_at, pack_index_find}
use fastgit.Pack.Lookup.Search.{IsTableOf, pack_index_find-found, pack_index_find_missing}

-- Two names of two bytes.
abbrev names : List (List ℕ)
names = (1 ∷ 9 ∷ []) ∷ (4 ∷ 2 ∷ []) ∷ []

same : (a b : List ℕ) → some a ≡ some b → a ≡ b
same a b h = cc

names-lengths : (i : ℕ) (a : List ℕ) → get_elem? names i ≡ some a → length a ≡ 2
names-lengths zero a h = omega (arith, ap length (same (1 ∷ 9 ∷ []) a h))
names-lengths (suc zero) a h = omega (arith, ap length (same (4 ∷ 2 ∷ []) a h))
names-lengths (suc (suc i)) a h = cc

ordered : (x y a b : List ℕ) → memcmp x y ≢ gt → some x ≡ some a → some y ≡ some b → memcmp a b ≢ gt
ordered x y a b le h k = rw (← same x a h, ← same y b k) le

names-sorted :
    (i j : ℕ) (a b : List ℕ)
    → i ≤ j
    → get_elem? names i ≡ some a
    → get_elem? names j ≡ some b
    → memcmp a b ≢ gt
unfolding memcmp
names-sorted zero zero a b le h k = ordered (1 ∷ 9 ∷ []) (1 ∷ 9 ∷ []) a b (λ e. cc) h k
names-sorted zero (suc zero) a b le h k = ordered (1 ∷ 9 ∷ []) (4 ∷ 2 ∷ []) a b (λ e. cc) h k
names-sorted (suc zero) (suc zero) a b le h k = ordered (4 ∷ 2 ∷ []) (4 ∷ 2 ∷ []) a b (λ e. cc) h k
names-sorted (suc i) zero a b le h k = absurd (omega arith)
names-sorted zero (suc (suc j)) a b le h k = cc
names-sorted (suc zero) (suc (suc j)) a b le h k = cc
names-sorted (suc (suc i)) (suc j) a b le h k = cc

names-IsTableOf : IsTableOf 2 names
names-IsTableOf = record { positive = omega arith; lengths = names-lengths; sorted = names-sorted }

second_byte : List ℕ → ℕ
second_byte a = get_or a 1 0

absent : (m : ℕ) → get_elem? names m ≢ some (4 ∷ 3 ∷ [])
unfolding second_byte
absent zero h =
    let e : 9 ≡ 3 = ap second_byte (same (1 ∷ 9 ∷ []) (4 ∷ 3 ∷ []) h) in absurd (omega (arith, e))
absent (suc zero) h =
    let e : 2 ≡ 3 = ap second_byte (same (4 ∷ 2 ∷ []) (4 ∷ 3 ∷ []) h) in absurd (omega (arith, e))
absent (suc (suc m)) h = cc

pack_index_find-found_example :
    (m : ℕ) × (pack_index_find (fanout_at names) names (4 ∷ 2 ∷ []) ≡ ok m)
    × (get_elem? names m ≡ some (4 ∷ 2 ∷ []))
pack_index_find-found_example =
    pack_index_find-found 2 names (4 ∷ 2 ∷ []) names-IsTableOf (omega arith) 1 refl

pack_index_find_missing_example : pack_index_find (fanout_at names) names (4 ∷ 3 ∷ []) ≡ err enoent
pack_index_find_missing_example =
    pack_index_find_missing 2 names (4 ∷ 3 ∷ []) names-IsTableOf (omega arith) absent
