-- ===== src/Examples/Merges.antt =====
-- Runs of src/merge/merge.c, on a history of two commits: the second has the first as its parent.
use fastgit.Common.{
  ℕ, ◌≢◌, refl, arith, List, [], ◌∷◌, Option, none, some, Result, ok, stuck, Bool, Bool-cases, inl,
  inr, sym, true, false,
}
use fastgit.Index.Entry.{Oid}
use fastgit.Object.Commit.{Commit}
use fastgit.Object.Oid.Order.{memcmp, oid_cmp, oid_equal}
use fastgit.Merge.{
  Repo, fastforward, contains, push_parents, ancestor_loop, is_ancestor, refresh_index, advance,
  fast_forward, merge_apart, merge_heads, merge, analysis_heads, merge_analysis,
}
use fastgit.Merge.Ancestor.{IsAncestor, is_ancestor-IsAncestor}
use fastgit.Merge.FastForward.{Joins, merge-Joins}
use fastgit.Merge.Termination.{IsAcyclic, is_ancestor-ne-stuck}
use fastgit.Merge.Predictions.{Predicts, merge_analysis-Predicts}

abbrev first : Oid
first = record { hash = 1 ∷ []; algo = 1 }

abbrev second : Oid
second = record { hash = 2 ∷ []; algo = 1 }

abbrev commit_on : List Oid → Commit
commit_on parents = record {
  tree = first;
  parents = parents;
  author = none;
  committer = none;
  message = none;
  encoding = none;
  gpg_signature = none;
}

abbrev parents_if : Bool → List Oid
parents_if true = first ∷ []
parents_if false = []

abbrev history : Oid → Result (Option Commit)
history o = ok (some (commit_on (parents_if (oid_equal o second))))

abbrev weight_if : Bool → ℕ
weight_if true = 2
weight_if false = 1

abbrev weight : Oid → ℕ
weight o = weight_if (oid_equal o second)

weight-IsAcyclic : IsAcyclic history weight
unfolding oid_equal oid_cmp memcmp
weight-IsAcyclic d = elim (Bool-cases (oid_equal d second)) [
  | inl is ↦ rw is (omega arith)
  | inr other ↦ rw other (omega arith)
]

-- HEAD is the whole state; there is no work tree.
abbrev on_head : Repo Oid
on_head = record {
  lookup = history;
  head = λ w. ok w;
  has_index = true;
  has_worktree = false;
  index_read_tree = λ w tree. ok w;
  index_write = λ w. ok w;
  checkout_tree = λ w tree. (w, none);
  reference_update = λ w o. ok o;
}

is_ancestor-IsAncestor_example : IsAncestor history first second
unfolding is_ancestor ancestor_loop contains push_parents oid_equal oid_cmp memcmp
is_ancestor-IsAncestor_example = is_ancestor-IsAncestor history 2 first second refl

is_ancestor-ne-stuck_example : is_ancestor history (weight second) first second ≢ stuck
is_ancestor-ne-stuck_example = is_ancestor-ne-stuck history weight first second weight-IsAcyclic

merge-Joins_example : Joins on_head first second second
unfolding merge merge_heads merge_apart fast_forward advance refresh_index is_ancestor ancestor_loop
    contains push_parents oid_equal oid_cmp memcmp
merge-Joins_example = merge-Joins on_head (λ w w' o h. sym h) 2 first second first second refl refl

merge_analysis-Predicts_example : Predicts on_head 2 first second fastforward
unfolding merge_analysis analysis_heads is_ancestor ancestor_loop contains push_parents oid_equal
    oid_cmp memcmp
merge_analysis-Predicts_example =
    merge_analysis-Predicts on_head 2 first second fastforward (second ∷ []) refl
