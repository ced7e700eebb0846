-- ===== src/Index/Conflicts/Stale.antt =====
-- The table behind the removal of a conflict.
use fastgit.Common.{
  ℕ, zero, suc, ◌≡◌, refl, ap, ◌∙◌, List, [], ◌∷◌, length, get_or, All, some, ok, fault,
}
use fastgit.Index.Entry.{Entry, str_eq_refl}
use fastgit.Index.Table.{Slot, empty, tomb, entry, home, next, entry_matches, find_loop, ht_find}
use fastgit.Index.Table.Find.{position, ht_find-position}
use fastgit.Index.Store.{Index, index_find}
use fastgit.Index.Store.Add.{IsIndex}
use fastgit.Index.Conflicts.{drop_path, conflict_remove}

module _ (es : List Entry) (ht : List Slot) (path : List ℕ) (stage : ℕ) where
  find_slot-gone :
      (probes pos i : ℕ) (slot : Slot)
      → get_or ht pos empty ≡ slot
      → (find_loop es ht path stage probes (next ht pos) ≡ ok (some i)
          → find_loop [] ht path stage probes (next ht pos) ≡ fault)
      → find_loop es ht path stage (suc probes) pos ≡ ok (some i)
      → find_loop [] ht path stage (suc probes) pos ≡ fault
  unfolding find_loop entry_matches
  find_slot-gone probes pos i empty e next_gone h = cc (rw (e, find_loop) at h)
  find_slot-gone probes pos i tomb e next_gone h =
      rw (e, find_loop) (next_gone (rw (e, find_loop) at h))
  find_slot-gone probes pos i (entry v) e next_gone h = rw (e, find_loop) refl

  find_loop-gone :
      (probes pos i : ℕ)
      → find_loop es ht path stage probes pos ≡ ok (some i)
      → find_loop [] ht path stage probes pos ≡ fault
  unfolding find_loop
  find_loop-gone zero pos i h = cc
  find_loop-gone (suc probes) pos i h =
      find_slot-gone probes pos i (get_or ht pos empty) refl (find_loop-gone probes (next ht pos) i)
        h

drop_path-nil :
    (path : List ℕ) (es : List Entry) → All (λ e. e.path ≡ path) es → drop_path path es ≡ []
unfolding drop_path
drop_path-nil path [] h = refl
drop_path-nil path (e ∷ es) (same, h) = rw (same, str_eq_refl path) (drop_path-nil path es h)

-- Where every entry of an index stands under one path, `fastgit_index_conflict_remove` of that path
-- leaves slots of the table behind: a search for any of the entries then reads behind the count,
-- where the path has been freed.
pub conflict_remove-Stale :
    (qsort : List Entry → List Entry) (idx : Index) (path : List ℕ) (stage i : ℕ)
    → IsIndex idx
    → All (λ e. e.path ≡ path) idx.entries
    → position idx.entries path stage ≡ some i
    → index_find qsort (conflict_remove idx path).0 path stage ≡ fault
unfolding index_find conflict_remove ht_find
conflict_remove-Stale qsort idx path stage i v same there =
    let found = ht_find-position idx.entries idx.ht path stage v.table v.distinct in
    let gone =
      find_loop-gone idx.entries idx.ht path stage (length idx.ht) (home idx.ht path stage) i
        (found ∙ ap ok there) in
    rw (drop_path-nil path idx.entries same, gone) refl
