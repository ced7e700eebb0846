-- ===== src/Merge/FastForward.antt =====
-- A merge that succeeds loses no commit.
use fastgit.Common.{
  ℕ, ◌≡◌, subst, Bool-cases, inl, inr, Bool, true, false, if◌then◌else◌, Option, none, some, ok,
  >>=-eq-ok,
}
use fastgit.Index.Entry.{Oid}
use fastgit.Object.Commit.{Commit}
use fastgit.Object.Oid.Order.{oid_equal, oid_equal_iff}
use fastgit.Merge.{
  Repo, is_ancestor, refresh_index, advance, fast_forward, merge_behind, merge_apart, merge_heads,
  merge,
}
use fastgit.Merge.Ancestor.{IsAncestor, here, is_ancestor-IsAncestor}

module _ {W : Type 0} (repo : Repo W) where
  -- The state has a HEAD above both commits.
  abbrev pub Joins : Oid → Oid → W → Type 0
  Joins ours theirs w' =
      (new : Oid) × (repo.head w' ≡ ok new)
      × IsAncestor repo.lookup ours new
      × IsAncestor repo.lookup theirs new

module _ {W : Type 0} (repo : Repo W)
    (update-head : (w w' : W) (o : Oid)
      → repo.reference_update w o ≡ ok w'
      → repo.head w' ≡ ok o) where
  advance-head :
      (w w' : W) (theirs : Oid) (found : Option Commit)
      → advance repo w theirs found ≡ ok w'
      → repo.head w' ≡ ok theirs
  unfolding advance
  advance-head w w' theirs none h = cc
  advance-head w w' theirs (some c) h =
      let (w₁, run, rest) = >>=-eq-ok (refresh_index repo w c.tree) _ h in
      update-head (if repo.has_worktree then (repo.checkout_tree w₁ c.tree).0 else w₁) w' theirs
        rest

  fast_forward-head :
      (w w' : W) (theirs : Oid) → fast_forward repo w theirs ≡ ok w' → repo.head w' ≡ ok theirs
  unfolding fast_forward
  fast_forward-head w w' theirs h =
      let (found, at, rest) = >>=-eq-ok (repo.lookup theirs) _ h in
      advance-head w w' theirs found rest

  merge_behind-Joins :
      (fuel : ℕ) (w w' : W) (ours theirs : Oid) (behind : Bool)
      → repo.head w ≡ ok ours
      → is_ancestor repo.lookup fuel theirs ours ≡ ok behind
      → merge_behind repo w behind ≡ ok w'
      → Joins repo ours theirs w'
  unfolding merge_behind
  merge_behind-Joins fuel w w' ours theirs true at found h =
      let same : w ≡ w' = cc in
      (
        ours,
        subst (λ v. repo.head v ≡ ok ours) same at,
        here,
        is_ancestor-IsAncestor repo.lookup fuel theirs ours found,
      )
  merge_behind-Joins fuel w w' ours theirs false at found h = cc

  merge_apart-Joins :
      (fuel : ℕ) (w w' : W) (ours theirs : Oid) (forward : Bool)
      → repo.head w ≡ ok ours
      → is_ancestor repo.lookup fuel ours theirs ≡ ok forward
      → merge_apart repo fuel w ours theirs forward ≡ ok w'
      → Joins repo ours theirs w'
  unfolding merge_apart
  merge_apart-Joins fuel w w' ours theirs true at found h = (
    theirs,
    fast_forward-head w w' theirs h,
    is_ancestor-IsAncestor repo.lookup fuel ours theirs found,
    here,
  )
  merge_apart-Joins fuel w w' ours theirs false at found h =
      let (behind, found', rest) = >>=-eq-ok (is_ancestor repo.lookup fuel theirs ours) _ h in
      merge_behind-Joins fuel w w' ours theirs behind at found' rest

  merge_heads-Joins :
      (fuel : ℕ) (w w' : W) (ours theirs : Oid)
      → repo.head w ≡ ok ours
      → merge_heads repo fuel w ours theirs ≡ ok w'
      → Joins repo ours theirs w'
  unfolding merge_heads
  merge_heads-Joins fuel w w' ours theirs at h = elim (Bool-cases (oid_equal ours theirs)) [
    | inl same ↦
        let kept : w ≡ w' = cc (rw same at h) in
        let one = (oid_equal_iff ours theirs).0 same in
        (
          ours,
          subst (λ v. repo.head v ≡ ok ours) kept at,
          here,
          subst (λ o. IsAncestor repo.lookup o ours) one here,
        )
    | inr other ↦
        let (forward, found, rest) =
          >>=-eq-ok (is_ancestor repo.lookup fuel ours theirs) _ (rw other at h) in
        merge_apart-Joins fuel w w' ours theirs forward at found rest
  ]

  -- Where an update of HEAD sets it, a merge that succeeds on a repository with a HEAD leaves a
  -- HEAD of which the old HEAD and the merged commit are both ancestors: no commit is lost.
  pub merge-Joins :
      (fuel : ℕ) (w w' : W) (ours theirs : Oid)
      → repo.head w ≡ ok ours
      → merge repo fuel w theirs ≡ ok w'
      → Joins repo ours theirs w'
  unfolding merge
  merge-Joins fuel w w' ours theirs at h =
      merge_heads-Joins fuel w w' ours theirs at (rw (at, merge) at h)
