-- ===== src/Object/Oid/Order.antt =====
-- `fastgit_oid_cmp` and `fastgit_oid_equal` of src/object/object.c, and `rebase_oid_equal` of
-- src/merge/rebase.c. Of the result of a comparison the sign is kept.
use Prim.Native.Nat.{compare, Ordering, lt, eq, gt}
use fastgit.Common.{
  ℕ, ◌≡◌, ◌↔◌, refl, sym, subst, arith, Bool, true, false, List, [], ◌∷◌, length, ◌==◌,
  if◌then◌else◌,
}
use fastgit.Index.Entry.{Oid}

-- `memcmp` on as many bytes as the shorter list has.
unfoldable pub memcmp : List ℕ → List ℕ → Ordering
memcmp [] ys = eq
memcmp (x ∷ xs) [] = eq
memcmp (x ∷ xs) (y ∷ ys) =
    let rest = memcmp xs ys in elim (compare x y) [ eq ↦ rest | lt ↦ lt | gt ↦ gt ]

unfoldable pub oid_cmp : Oid → Oid → Ordering
oid_cmp a b =
    let bytes = memcmp a.hash b.hash in
    let lengths = compare (length a.hash) (length b.hash) in
    if a.algo == b.algo
    then elim bytes [ eq ↦ lengths | lt ↦ lt | gt ↦ gt ]
    else compare a.algo b.algo

abbrev pub is_eq : Ordering → Bool
is_eq eq = true
is_eq lt = false
is_eq gt = false

unfoldable pub oid_equal : Oid → Oid → Bool
oid_equal a b = is_eq (oid_cmp a b)

unfoldable pub rebase_oid_equal : Oid → Oid → Bool
rebase_oid_equal a b =
    if length a.hash == length b.hash then is_eq (memcmp a.hash b.hash) else false

pub memcmp-eq : (xs ys : List ℕ) → memcmp xs ys ≡ eq → length xs ≡ length ys → xs ≡ ys
unfolding memcmp
memcmp-eq [] [] h e = refl
memcmp-eq [] (y ∷ ys) h e = absurd (omega arith)
memcmp-eq (x ∷ xs) [] h e = absurd (omega arith)
memcmp-eq (x ∷ xs) (y ∷ ys) h e = ground (arith, memcmp-eq xs ys)

pub memcmp_refl : (xs : List ℕ) → memcmp xs xs ≡ eq
unfolding memcmp
memcmp_refl [] = refl
memcmp_refl (x ∷ xs) = ground (arith, memcmp_refl xs)

oid_equal_refl : (a : Oid) → oid_equal a a ≡ true
unfolding oid_equal oid_cmp
oid_equal_refl a = ground (arith, memcmp_refl a.hash)

-- Two names are equal for `fastgit_oid_equal` exactly when they are the same: algorithm, length
-- and bytes.
pub oid_equal_iff : (a b : Oid) → (oid_equal a b ≡ true) ↔ (a ≡ b)
unfolding oid_equal oid_cmp
oid_equal_iff a b = (
  λ h. ground (arith, memcmp-eq a.hash b.hash),
  λ e. subst (λ x. oid_equal x b ≡ true) (sym e) (oid_equal_refl b),
)

pub rebase_oid_equal-hash : (a b : Oid) → rebase_oid_equal a b ≡ true → a.hash ≡ b.hash
unfolding rebase_oid_equal
rebase_oid_equal-hash a b h = ground (arith, memcmp-eq a.hash b.hash)
