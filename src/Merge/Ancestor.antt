-- ===== src/Merge/Ancestor.antt =====
-- What the walks over the history find.
use fastgit.Common.{
  ℕ, zero, suc, ◌≡◌, refl, subst, Bool-cases, inl, inr, true, List, [], ◌∷◌, length, get_elem?, All,
  ltb, Option, none, some, Result, ok, err, fault, stuck,
}
use fastgit.Index.Entry.{Oid}
use fastgit.Object.Commit.{Commit}
use fastgit.Object.Oid.Order.{oid_equal, oid_equal_iff}
use fastgit.Merge.{contains, visit, push_parents, parents_of, ancestor_loop, is_ancestor}

-- The commit is reached from the other by parents.
pub data IsAncestor (lookup : Oid → Result (Option Commit)) (a : Oid) : Oid → Type 0 where
  here : IsAncestor lookup a a
  parent :
      {d p : Oid} (c : Commit) (i : ℕ)
      → lookup d ≡ ok (some c)
      → get_elem? c.parents i ≡ some p
      → IsAncestor lookup a p
      → IsAncestor lookup a d

All-get_elem? :
    (P : Oid → Type 0) (xs : List Oid)
    → ((i : ℕ) (a : Oid) → get_elem? xs i ≡ some a → P a)
    → All P xs
All-get_elem? P [] all = tt
All-get_elem? P (x ∷ xs) all = (all 0 x refl, All-get_elem? P xs (λ i. all (suc i)))

pub All-push_parents :
    (P : Oid → Type 0) (ps stack : List Oid)
    → All P ps
    → All P stack
    → All P (push_parents ps stack)
unfolding push_parents
All-push_parents P [] stack h k = k
All-push_parents P (p ∷ ps) stack (hp, h) k = elim (Bool-cases (ltb (length stack) 256)) [
  | inl room ↦ rw room (All-push_parents P ps (p ∷ stack) h (hp, k))
  | inr full ↦ rw full k
]

module _ (lookup : Oid → Result (Option Commit)) where
  IsAncestor-trans :
      (a b : Oid) {d : Oid} → IsAncestor lookup a b → IsAncestor lookup b d → IsAncestor lookup a d
  IsAncestor-trans a b ab here = ab
  IsAncestor-trans a b ab (parent c i found at bp) =
      parent c i found at (IsAncestor-trans a b ab bp)

  All-parents_of :
      (d : Oid) (r : Result (Option Commit))
      → lookup d ≡ r
      → All (λ p. IsAncestor lookup p d) (parents_of r)
  All-parents_of d (ok (some c)) e =
      All-get_elem? (λ p. IsAncestor lookup p d) c.parents (λ i a at. parent c i e at here)
  All-parents_of d (ok none) e = tt
  All-parents_of d (err x) e = tt
  All-parents_of d fault e = tt
  All-parents_of d stuck e = tt

  All-trans :
      (b d : Oid) (ps : List Oid)
      → IsAncestor lookup b d
      → All (λ p. IsAncestor lookup p b) ps
      → All (λ p. IsAncestor lookup p d) ps
  All-trans b d [] bd h = tt
  All-trans b d (p ∷ ps) bd (hp, h) = (IsAncestor-trans p b hp bd, All-trans b d ps bd h)

  ancestor_loop-IsAncestor :
      (fuel : ℕ) (anc desc : Oid) (stack visited : List Oid)
      → All (λ s. IsAncestor lookup s desc) stack
      → ancestor_loop lookup fuel anc stack visited ≡ ok true
      → IsAncestor lookup anc desc
  unfolding ancestor_loop
  ancestor_loop-IsAncestor fuel anc desc [] visited all h = cc
  ancestor_loop-IsAncestor zero anc desc (cur ∷ stack) visited all h = cc
  ancestor_loop-IsAncestor (suc fuel) anc desc (cur ∷ stack) visited (at, all) h =
      elim (Bool-cases (contains visited cur)) [
        | inl seen ↦ ancestor_loop-IsAncestor fuel anc desc stack visited all (rw seen at h)
        | inr new ↦ elim (Bool-cases (oid_equal cur anc)) [
          | inl found ↦ subst (λ o. IsAncestor lookup o desc) ((oid_equal_iff cur anc).0 found) at
          | inr other ↦
              let up =
                All-trans cur desc (parents_of (lookup cur)) at
                  (All-parents_of cur (lookup cur) refl) in
              ancestor_loop-IsAncestor fuel anc desc (push_parents (parents_of (lookup cur)) stack)
                (visit visited cur)
                (All-push_parents (λ s. IsAncestor lookup s desc) (parents_of (lookup cur)) stack up
                  all)
                (rw (new, other) at h)
        ]
      ]

  -- Where `is_ancestor` says yes, the commit is an ancestor of the other.
  pub is_ancestor-IsAncestor :
      (fuel : ℕ) (anc desc : Oid)
      → is_ancestor lookup fuel anc desc ≡ ok true
      → IsAncestor lookup anc desc
  unfolding is_ancestor
  is_ancestor-IsAncestor fuel anc desc h = elim (Bool-cases (oid_equal anc desc)) [
    | inl same ↦ subst (IsAncestor lookup anc) ((oid_equal_iff anc desc).0 same) here
    | inr other ↦ ancestor_loop-IsAncestor fuel anc desc (desc ∷ []) [] (here, tt) (rw other at h)
  ]
