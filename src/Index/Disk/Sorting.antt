-- ===== src/Index/Disk/Sorting.antt =====
-- The sort in front of the writing.
use fastgit.Common.{
  ℕ, ◌≡◌, refl, sym, inl, inr, Bool-cases, true, not, ◌&&◌, List, length, All, ltb, ok,
}
use mathlib.Core.List.{Permᴰ}
use fastgit.Index.Entry.{Entry}
use fastgit.Index.Table.Rebuild.{ht_rebuild-IsTable}
use fastgit.Index.Store.{Index}
use fastgit.Index.Store.View.{view}
use fastgit.Index.Store.Add.{IsIndex}
use fastgit.Index.Store.Order.{sorted_index, Permᴰ-All, Permᴰ-length}
use fastgit.Index.Disk.{sort_entries}
use fastgit.Index.Disk.Stored.{IsStored}

-- The table is of the entries, which are those of `es` in some order.
pub record IsSorting (es : List Entry) (idx idx' : Index) : Type 0 where
  pub algo : idx'.oid_algo ≡ idx.oid_algo
  pub oid_len : idx'.oid_len ≡ idx.oid_len
  pub valid : IsIndex idx'
  pub stored : All (IsStored idx.oid_algo idx.oid_len) idx'.entries
  pub size : length idx'.entries ≡ length es
  pub same : (p : List ℕ) (s : ℕ) → view idx'.entries p s ≡ view es p s

module _ (qsort : List Entry → List Entry) (perm : (es : List Entry) → Permᴰ es (qsort es)) where
  pub sort_entries-IsSorting :
      (idx : Index)
      → IsIndex idx
      → All (IsStored idx.oid_algo idx.oid_len) idx.entries
      → (idx' : Index) × (sort_entries qsort idx ≡ ok idx') × IsSorting idx.entries idx idx'
  unfolding sort_entries
  sort_entries-IsSorting idx v stored =
      let (distinct, fits, same) = sorted_index qsort idx perm v in
      let (ht, run, table, room) = ht_rebuild-IsTable (qsort idx.entries) in
      elim (Bool-cases (not idx.sorted && ltb 1 (length idx.entries))) [
        | inl sort ↦ (
          record idx { entries = qsort idx.entries; sorted = true; ht = ht },
          rw (sort, run) refl,
          record {
            algo = refl;
            oid_len = refl;
            valid = record { table = table; distinct = distinct; fits = fits };
            stored = Permᴰ-All (IsStored idx.oid_algo idx.oid_len) (perm idx.entries) stored;
            size = sym (Permᴰ-length (perm idx.entries));
            same = same;
          },
        )
        | inr keep ↦ (
          record idx { sorted = true },
          rw keep refl,
          record {
            algo = refl;
            oid_len = refl;
            valid = record { table = v.table; distinct = v.distinct; fits = v.fits };
            stored = stored;
            size = refl;
            same = λ p s. refl;
          },
        )
      ]
