-- ===== src/Examples/Tables.antt =====
-- Runs of src/index/index.c.
use fastgit.Common.{
  ℕ, zero, suc, ◌*◌, ◌+◌, ◌≤◌, ◌≡◌, ◌≢◌, refl, sym, ap, arith, List, [], ◌∷◌, length, Option, none,
  true, if◌then◌else◌, some, ok, err, fault, stuck,
}
use fastgit.Index.Entry.{Oid, Entry, has_key, str_eq}
use fastgit.Index.Table.{Slot, ht_find, ht_insert, ht_rebuild}
use fastgit.Index.Table.Find.{IsTable, IsDistinct, position, ht_find-position}
use fastgit.Index.Table.Rebuild.{ht_rebuild-IsTable, ht_insert-IsTable}
use fastgit.Index.Store.{Index, index_new, fresh, add_from_buffer, index_find, has_conflicts}
use fastgit.Index.Store.View.{view}
use fastgit.Index.Conflicts.{conflict_remove, conflict_add}
use fastgit.Index.Conflicts.Stages.{conflict_stage, conflict_add-view}
use fastgit.Index.Conflicts.Stale.{conflict_remove-Stale}
use fastgit.Index.Store.Add.{IsIndex, Added, add_from_buffer-Added, index_find-view}

-- A name for a blob, in place of its hash.
abbrev name : List ℕ → Oid
name blob = record { hash = length blob ∷ []; algo = 1 }

-- "a" and "bb"
abbrev pub path_a : List ℕ
path_a = 97 ∷ []

abbrev pub path_b : List ℕ
path_b = 98 ∷ 98 ∷ []

abbrev entry_a : Entry
entry_a = fresh (name (1 ∷ 2 ∷ [])) 33188 2 path_a

abbrev entry_b : Entry
entry_b = fresh (name []) 33261 0 path_b

abbrev entries : List Entry
entries = entry_a ∷ entry_b ∷ []

pub rebuilt : List Entry → List Slot
rebuilt es = elim (ht_rebuild es) [ ok ht ↦ ht | err e ↦ [] | fault ↦ [] | stuck ↦ [] ]

pub rebuilt-IsTable : (es : List Entry) → IsTable es (rebuilt es)
unfolding rebuilt
rebuilt-IsTable es = let (ht, run, v, room) = ht_rebuild-IsTable es in rw (run, rebuilt) v

option_length : Option Entry → ℕ
option_length none = 0
option_length (some e) = length e.path

path_a-ne-path_b : (e f : Entry) → some entry_a ≡ some e → some entry_b ≡ some f → e.path ≢ f.path
unfolding option_length
path_a-ne-path_b e f g h p =
    let pa : 1 ≡ length e.path = ap option_length g in
    let pb : 2 ≡ length f.path = ap option_length h in omega (arith, pa, pb, ap length p)

entries-IsDistinct : IsDistinct entries
entries-IsDistinct zero zero e f g h p s = refl
entries-IsDistinct (suc zero) (suc zero) e f g h p s = refl
entries-IsDistinct zero (suc zero) e f g h p s = absurd (path_a-ne-path_b e f g h p)
entries-IsDistinct (suc zero) zero e f g h p s = absurd (path_a-ne-path_b f e h g (sym p))
entries-IsDistinct (suc (suc i)) j e f g h p s = cc
entries-IsDistinct zero (suc (suc j)) e f g h p s = cc
entries-IsDistinct (suc zero) (suc (suc j)) e f g h p s = cc

one-IsDistinct : IsDistinct (entry_a ∷ [])
one-IsDistinct zero zero e f g h p s = refl
one-IsDistinct zero (suc k) e f g h p s = cc
one-IsDistinct (suc j) k e f g h p s = cc

abbrev two : Index
two = record index_new { entries = entries; ht = rebuilt entries }

two-IsIndex : IsIndex two
unfolding index_new
two-IsIndex = record {
  table = rebuilt-IsTable entries;
  distinct = entries-IsDistinct;
  fits = omega arith;
}

ht_find-position_example :
    ht_find entries (rebuilt entries) path_b 0 ≡ ok (position entries path_b 0)
ht_find-position_example =
    ht_find-position entries (rebuilt entries) path_b 0 (rebuilt-IsTable entries) entries-IsDistinct

ht_insert-IsTable_example :
    (ht : List Slot) × (ht_insert (entry_a ∷ []) (rebuilt (entry_a ∷ [])) path_b 0 1 ≡ ok ht)
    × IsTable entries ht
ht_insert-IsTable_example =
    ht_insert-IsTable (entry_a ∷ []) (rebuilt (entry_a ∷ [])) entry_b
      (rebuilt-IsTable (entry_a ∷ []))

ht_rebuild-IsTable_example :
    (ht : List Slot) × (ht_rebuild entries ≡ ok ht)
    × IsTable entries ht
    × (length entries * 2 + 64 ≤ length ht)
ht_rebuild-IsTable_example = ht_rebuild-IsTable entries

-- The path "bb" again, with new content.
add_from_buffer-Added_example :
    (idx : Index) × (add_from_buffer name two path_b 33188 (5 ∷ 6 ∷ 7 ∷ []) ≡ ok idx)
    × Added two (name (5 ∷ 6 ∷ 7 ∷ [])) path_b 33188 3 idx
add_from_buffer-Added_example =
    add_from_buffer-Added name two path_b 33188 (5 ∷ 6 ∷ 7 ∷ []) two-IsIndex

index_find-view_example : index_find (λ es. es) two path_b 0 ≡ ok (two, entry_b)
unfolding view has_key str_eq
index_find-view_example = index_find-view (λ es. es) two path_b 0 entry_b two-IsIndex refl

abbrev one : Index
one = record index_new { entries = entry_a ∷ []; ht = rebuilt (entry_a ∷ []) }

one-IsIndex : IsIndex one
unfolding index_new
one-IsIndex = record {
  table = rebuilt-IsTable (entry_a ∷ []);
  distinct = one-IsDistinct;
  fits = omega arith;
}

conflict_remove-Stale_example :
    index_find (λ es. es) (conflict_remove one path_a).0 path_a 0 ≡ fault
unfolding index_new position has_key str_eq
conflict_remove-Stale_example =
    conflict_remove-Stale (λ es. es) one path_a 0 0 one-IsIndex (refl, tt) refl

conflict_add-view_example :
    (idx' : Index) × (conflict_add two path_a none (some (name [])) none ≡ ok idx')
    × (has_conflicts idx'.entries ≡ true)
    × ((p : List ℕ) (s : ℕ)
        → view idx'.entries p s ≡ (
            if str_eq path_a p
            then conflict_stage path_a none (some (name [])) none s
            else view two.entries p s))
conflict_add-view_example = conflict_add-view two path_a none (some (name [])) none refl
