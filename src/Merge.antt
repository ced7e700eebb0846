-- ===== src/Merge.antt =====
-- src/merge/merge.c and src/merge/rebase.c. What they call of the repository is the record `Repo`:
-- the objects do not change, the reference HEAD, the index and the work tree are the state `W`.
pub mod Ancestor
pub mod FastForward
pub mod Termination
pub mod Predictions
use fastgit.Common.{
  ℕ, zero, suc, ◌+◌, ◌-◌, ◌≡◌, Bool, true, false, List, [], ◌∷◌, ◌++◌, length, ltb, if◌then◌else◌,
  Option, none, some, Error, Result, ok, err, fault, stuck, enoent, einval, eunsupported, ◌>>=◌,
}
use fastgit.Index.Entry.{Oid}
use fastgit.Object.Commit.{Commit}
use fastgit.Object.Oid.Order.{oid_equal, rebase_oid_equal}

-- `fastgit_merge_analysis_t`
pub data Analysis : Type 0 where
  normal up_to_date fastforward unborn : Analysis

-- `lookup` is `fastgit_object_lookup` with `fastgit_commit_parse`: `ok none` where the object is
-- there and no commit; `head` is `fastgit_rev_parse_single` of HEAD, in a rebase
-- `fastgit_rev_parse`. A work tree may not be there; a checkout returns the state it leaves.
pub record Repo (W : Type 0) : Type 0 where
  pub lookup : Oid → Result (Option Commit)
  pub head : W → Result Oid
  pub has_index : Bool
  pub has_worktree : Bool
  pub index_read_tree : W → Oid → Result W
  pub index_write : W → Result W
  pub checkout_tree : W → Oid → W × Option Error
  pub reference_update : W → Oid → Result W

-- The test in front of the loop body: whether a name is in the list.
unfoldable pub contains : List Oid → Oid → Bool
contains [] cur = false
contains (v ∷ vs) cur = if oid_equal v cur then true else contains vs cur

-- `if (vc < 256) visited[vc++] = cur;`
abbrev pub visit : List Oid → Oid → List Oid
visit visited cur = if ltb (length visited) 256 then visited ++ (cur ∷ []) else visited

-- `for (i = 0; i < parent_count && sp < 256; i++) stack[sp++] = parents[i];`, the top first
unfoldable pub push_parents : List Oid → List Oid → List Oid
push_parents [] stack = stack
push_parents (p ∷ ps) stack = if ltb (length stack) 256 then push_parents ps (p ∷ stack) else stack

abbrev pub parents_of : Result (Option Commit) → List Oid
parents_of (ok (some c)) = c.parents
parents_of (ok none) = []
parents_of (err e) = []
parents_of fault = []
parents_of stuck = []

module _ (lookup : Oid → Result (Option Commit)) where
  -- `while (sp > 0)`, on fuel
  unfoldable pub ancestor_loop : ℕ → Oid → List Oid → List Oid → Result Bool
  ancestor_loop fuel anc [] visited = ok false
  ancestor_loop zero anc (cur ∷ stack) visited = stuck
  ancestor_loop (suc fuel) anc (cur ∷ stack) visited =
      let skip = ancestor_loop fuel anc stack visited in
      let on =
        ancestor_loop fuel anc (push_parents (parents_of (lookup cur)) stack) (visit visited cur) in
      if contains visited cur then skip else if oid_equal cur anc then ok true else on

  unfoldable pub is_ancestor : ℕ → Oid → Oid → Result Bool
  is_ancestor fuel anc desc =
      let search = ancestor_loop fuel anc (desc ∷ []) [] in
      if oid_equal anc desc then ok true else search

  -- The loop of `rebase_is_ancestor`, which follows first parents, by the rounds left.
  unfoldable pub rebase_ancestor_loop : ℕ → Oid → Oid → Bool
  rebase_ancestor_loop zero anc cur = false
  rebase_ancestor_loop (suc rounds) anc cur =
      if rebase_oid_equal cur anc then true else (elim (parents_of (lookup cur)) [
        | [] ↦ false
        | next ∷ _ ↦
            let more = rebase_ancestor_loop rounds anc next in
            if rebase_oid_equal next cur then false else more
      ])

  unfoldable pub rebase_is_ancestor : Oid → Oid → Bool
  rebase_is_ancestor anc desc =
      if rebase_oid_equal anc desc then true else rebase_ancestor_loop 256 anc desc

module _ {W : Type 0} (repo : Repo W) where
  open repo use {
    lookup, head, has_index, has_worktree, index_read_tree, index_write, checkout_tree,
    reference_update,
  }

  -- `if (idx) { … }`
  unfoldable pub refresh_index : W → Oid → Result W
  refresh_index w tree =
      if has_index then (index_read_tree w tree >>= λ w'. index_write w') else ok w

  -- The branch of a fast-forward of `fastgit_merge`, behind the lookup; the result of the checkout
  -- is not looked at.
  unfoldable pub advance : W → Oid → Option Commit → Result W
  advance w theirs none = err einval
  advance w theirs (some c) = refresh_index w c.tree >>= λ w'.
      reference_update (if has_worktree then (checkout_tree w' c.tree).0 else w') theirs

  unfoldable pub fast_forward : W → Oid → Result W
  fast_forward w theirs = lookup theirs >>= λ found. advance w theirs found

  -- The second test of `is_ancestor`, the other way round.
  unfoldable pub merge_behind : W → Bool → Result W
  merge_behind w behind = if behind then ok w else err eunsupported

  unfoldable pub merge_apart : ℕ → W → Oid → Oid → Bool → Result W
  merge_apart fuel w ours theirs forward =
      if forward
      then fast_forward w theirs
      else (is_ancestor lookup fuel theirs ours >>= λ behind. merge_behind w behind)

  unfoldable pub merge_heads : ℕ → W → Oid → Oid → Result W
  merge_heads fuel w ours theirs =
      if oid_equal ours theirs
      then ok w
      else (is_ancestor lookup fuel ours theirs >>= λ forward.
          merge_apart fuel w ours theirs forward)

  -- What `fastgit_rev_parse_single` answers for HEAD decides: an unborn HEAD is set.
  unfoldable pub merge : ℕ → W → Oid → Result W
  merge fuel w theirs = elim (head w) [
    | ok ours ↦ merge_heads fuel w ours theirs
    | err enoent ↦ reference_update w theirs
    | err e ↦ err e
    | fault ↦ fault
    | stuck ↦ stuck
  ]

  -- The branch of a fast-forward of `fastgit_rebase`: every error of a call of the library ends it.
  unfoldable pub rebase_forward : W → Oid → Result W
  rebase_forward w upstream = elim (lookup upstream) [
    | ok (some c) ↦
        if has_index
        then (index_read_tree w c.tree >>= λ w₁. index_write w₁ >>= λ w₂.
            elim (checkout_tree w₂ c.tree).1 [
              | none ↦ reference_update (checkout_tree w₂ c.tree).0 upstream
              | some e ↦ err e
            ])
        else err einval
    | ok none ↦ err einval
    | err e ↦ err enoent
    | fault ↦ fault
    | stuck ↦ stuck
  ]

  unfoldable pub rebase_heads : W → Oid → Oid → Result W
  rebase_heads w ours upstream =
      if rebase_oid_equal ours upstream
      then ok w
      else if rebase_is_ancestor lookup ours upstream
      then rebase_forward w upstream
      else if rebase_is_ancestor lookup upstream ours
      then ok w
      else err eunsupported

  unfoldable pub rebase : W → Oid → Result W
  rebase w upstream = elim (head w) [
    | ok ours ↦ rebase_heads w ours upstream
    | err enoent ↦ reference_update w upstream
    | err e ↦ err e
    | fault ↦ fault
    | stuck ↦ stuck
  ]

  -- `fastgit_merge_analysis`: `*out`, and `*merge_heads`, for a caller that asks for them.
  abbrev pub analysis_behind : Oid → Bool → Result (Analysis × List Oid)
  analysis_behind theirs true = ok (up_to_date, [])
  analysis_behind theirs false = ok (normal, theirs ∷ [])

  abbrev pub analysis_apart : ℕ → Oid → Oid → Bool → Result (Analysis × List Oid)
  analysis_apart fuel ours theirs true = ok (fastforward, theirs ∷ [])
  analysis_apart fuel ours theirs false =
      is_ancestor lookup fuel theirs ours >>= λ behind. analysis_behind theirs behind

  unfoldable pub analysis_heads : ℕ → Oid → Oid → Result (Analysis × List Oid)
  analysis_heads fuel ours theirs =
      if oid_equal ours theirs
      then ok (up_to_date, [])
      else (is_ancestor lookup fuel ours theirs >>= λ forward.
          analysis_apart fuel ours theirs forward)

  unfoldable pub merge_analysis : ℕ → W → Oid → Result (Analysis × List Oid)
  merge_analysis fuel w theirs = elim (head w) [
    | ok ours ↦ analysis_heads fuel ours theirs
    | err enoent ↦ ok (unborn, theirs ∷ [])
    | err e ↦ err e
    | fault ↦ fault
    | stuck ↦ stuck
  ]
