-- ===== src/Merge/Termination.antt =====
-- The walk of `is_ancestor` ends on a history without cycles.
use fastgit.Common.{
  ℕ, zero, suc, ◌+◌, ◌≤◌, ◌≢◌, arith, Bool-cases, inl, inr, List, [], ◌∷◌, Option, Result, stuck,
}
use fastgit.Index.Entry.{Oid}
use fastgit.Object.Commit.{Commit}
use fastgit.Object.Oid.Order.{oid_equal}
use fastgit.Merge.{contains, visit, push_parents, parents_of, ancestor_loop, is_ancestor}

module _ (lookup : Oid → Result (Option Commit)) (weight : Oid → ℕ) where
  abbrev pub total : List Oid → ℕ
  total [] = 0
  total (o ∷ os) = weight o + total os

  -- A commit weighs more than its parents together.
  abbrev pub IsAcyclic : Type 0
  IsAcyclic = (d : Oid) → total (parents_of (lookup d)) + 1 ≤ weight d

  push_parents-le : (ps stack : List Oid) → total (push_parents ps stack) ≤ total ps + total stack
  unfolding push_parents
  push_parents-le [] stack = omega arith
  push_parents-le (p ∷ ps) stack = ground (arith, push_parents-le ps (p ∷ stack))

  ancestor_loop-ne-stuck :
      (fuel : ℕ) (anc : Oid) (stack visited : List Oid)
      → IsAcyclic
      → total stack ≤ fuel
      → ancestor_loop lookup fuel anc stack visited ≢ stuck
  unfolding ancestor_loop
  ancestor_loop-ne-stuck fuel anc [] visited acyclic enough = λ p. cc
  ancestor_loop-ne-stuck zero anc (cur ∷ stack) visited acyclic enough =
      absurd (omega (arith, acyclic cur))
  ancestor_loop-ne-stuck (suc fuel) anc (cur ∷ stack) visited acyclic enough =
      elim (Bool-cases (contains visited cur)) [
        | inl seen ↦
            rw seen
              (ancestor_loop-ne-stuck fuel anc stack visited acyclic (omega (arith, acyclic cur)))
        | inr new ↦ elim (Bool-cases (oid_equal cur anc)) [
          | inl found ↦ rw (new, found) (λ p. cc)
          | inr other ↦
              rw (new, other)
                (ancestor_loop-ne-stuck fuel anc (push_parents (parents_of (lookup cur)) stack)
                  (visit visited cur) acyclic
                  (omega (arith, acyclic cur, push_parents-le (parents_of (lookup cur)) stack)))
        ]
      ]

  -- On a history without cycles the walk of `is_ancestor` ends, within as many rounds as there are
  -- ways down from the commit that it starts at.
  pub is_ancestor-ne-stuck :
      (anc desc : Oid) → IsAcyclic → is_ancestor lookup (weight desc) anc desc ≢ stuck
  unfolding is_ancestor
  is_ancestor-ne-stuck anc desc acyclic = elim (Bool-cases (oid_equal anc desc)) [
    | inl same ↦ rw same (λ p. cc)
    | inr other ↦
        rw other (ancestor_loop-ne-stuck (weight desc) anc (desc ∷ []) [] acyclic (omega arith))
  ]
