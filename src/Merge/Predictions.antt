-- ===== src/Merge/Predictions.antt =====
-- `fastgit_merge_analysis` against `fastgit_merge`.
use fastgit.Common.{ℕ, ◌≡◌, arith, List, ok, err, eunsupported}
use fastgit.Index.Entry.{Oid}
use fastgit.Merge.{
  Repo, Analysis, normal, up_to_date, fastforward, unborn, fast_forward, merge_behind, merge_apart,
  merge_heads, merge, analysis_heads, merge_analysis,
}

module _ {W : Type 0} (repo : Repo W) where
  -- What a merge of `theirs` does, for each answer of the analysis.
  abbrev pub Predicts : ℕ → W → Oid → Analysis → Type 0
  Predicts fuel w theirs up_to_date = merge repo fuel w theirs ≡ ok w
  Predicts fuel w theirs fastforward = merge repo fuel w theirs ≡ fast_forward repo w theirs
  Predicts fuel w theirs normal = merge repo fuel w theirs ≡ err eunsupported
  Predicts fuel w theirs unborn = merge repo fuel w theirs ≡ repo.reference_update w theirs

  -- The answer of `fastgit_merge_analysis` tells what `fastgit_merge` then does: nothing where it
  -- says up-to-date, the fast-forward where it says so, FASTGIT_EUNSUPPORTED where a true merge is
  -- needed, and the update of an unborn HEAD.
  pub merge_analysis-Predicts :
      (fuel : ℕ) (w : W) (theirs : Oid) (a : Analysis) (heads : List Oid)
      → merge_analysis repo fuel w theirs ≡ ok (a, heads)
      → Predicts fuel w theirs a
  unfolding merge merge_analysis merge_heads analysis_heads merge_apart merge_behind
  merge_analysis-Predicts fuel w theirs up_to_date heads h = ground arith
  merge_analysis-Predicts fuel w theirs fastforward heads h = ground arith
  merge_analysis-Predicts fuel w theirs normal heads h = ground arith
  merge_analysis-Predicts fuel w theirs unborn heads h = ground arith
