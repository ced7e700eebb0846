-- ===== src/Index/Conflicts.antt =====
-- src/index/index.c: removal, the search by a name, and the entries of a conflict. A result with an
-- error beside it is what the C function leaves and what it returns; `none` is FASTGIT_OK.
pub mod Stages
pub mod Stale
use fastgit.Common.{
  ℕ, ◌+◌, ◌-◌, ◌*◌, ◌^◌, bit_or, Bool, true, false, not, ◌||◌, List, [], ◌∷◌, ◌++◌, length, take,
  get_elem?, set, leb, ◌==◌, if◌then◌else◌, Option, none, some, Error, Result, ok, err, fault,
  enoent, einval, ◌>>=◌,
}
use fastgit.Index.Entry.{Oid, Entry, str_eq}
use fastgit.Index.Table.{Slot, ht_find, ht_remove}
use fastgit.Index.Store.{Index, ht_insert_unchecked, path_flags}
use fastgit.Object.Oid.Order.{oid_equal}

-- `fastgit_index_remove` behind the first `fg_ht_remove`: the last entry, if there is another one,
-- takes the place `i`, and its slot is made anew. The count still includes the last place.
unfoldable pub move_last : Index → List Slot → ℕ → Option Entry → Result Index
move_last idx ht i none = fault
move_last idx ht i (some last) =
    let n = length idx.entries - 1 in
    let moved = set idx.entries i last in
    if i == n
    then ok (record idx { entries = take n idx.entries; dirty = true; sorted = false; ht = ht })
    else (ht_remove moved ht last.path last.stage >>= λ ht₁.
        ht_insert_unchecked moved ht₁ last.path last.stage i >>= λ ht₂.
        ok (record idx { entries = take n moved; dirty = true; sorted = false; ht = ht₂ }))

unfoldable pub remove_found : Index → List ℕ → ℕ → Option ℕ → Result Index
remove_found idx path stage none = err enoent
remove_found idx path stage (some i) = ht_remove idx.entries idx.ht path stage >>= λ ht.
    move_last idx ht i (get_elem? idx.entries (length idx.entries - 1))

-- `fastgit_index_remove`
unfoldable pub index_remove : Index → List ℕ → ℕ → Result Index
index_remove idx path stage =
    ht_find idx.entries idx.ht path stage >>= λ found. remove_found idx path stage found

-- `fastgit_index_find_by_oid`
unfoldable pub find_by_oid : List Entry → Oid → Result Entry
find_by_oid [] oid = err enoent
find_by_oid (e ∷ es) oid =
    let rest = find_by_oid es oid in if oid_equal e.oid oid then ok e else rest

-- `fastgit_index_entry_by_index`
unfoldable pub entry_by_index : Index → ℕ → Option Entry
entry_by_index idx n = get_elem? idx.entries n

-- The loop of `fastgit_index_conflict_remove`.
unfoldable pub drop_path : List ℕ → List Entry → List Entry
drop_path path [] = []
drop_path path (e ∷ es) =
    let rest = drop_path path es in if str_eq e.path path then rest else e ∷ rest

-- `fastgit_index_conflict_remove`, which does not look at the table.
unfoldable pub conflict_remove : Index → List ℕ → Index × Option Error
conflict_remove idx path =
    let left = drop_path path idx.entries in
    let removed = not (length left == length idx.entries) in
    (
      record idx { entries = left; dirty = if removed then true else idx.dirty },
      if removed then none else some enoent,
    )

-- The entry of a stage; 33188 is 0100644.
abbrev pub conflict_entry : List ℕ → Oid → ℕ → Entry
conflict_entry path oid stage = record {
  oid = oid;
  path = path;
  mode = 33188;
  stage = stage;
  ctime_sec = 0;
  ctime_nsec = 0;
  mtime_sec = 0;
  mtime_nsec = 0;
  dev = 0;
  ino = 0;
  uid = 0;
  gid = 0;
  size = 0;
  flags = bit_or (path_flags path) (stage * 2 ^ 12);
  flags_extended = 0;
}

-- `if (index->count >= index->capacity) { … realloc … }`
unfoldable pub conflict_grow : Index → Index
conflict_grow idx =
    if leb idx.capacity (length idx.entries)
    then record idx { capacity = if idx.capacity == 0 then 16 else idx.capacity * 2 }
    else idx

-- One round of the loop over the stages.
unfoldable pub add_stage : List ℕ → Index → Option Oid → ℕ → Index
add_stage path idx none stage = idx
add_stage path idx (some oid) stage = record (conflict_grow idx) {
  entries = idx.entries ++ (conflict_entry path oid stage ∷ []);
}

abbrev pub is_given : Option Oid → Bool
is_given none = false
is_given (some oid) = true

-- `fastgit_index_conflict_add`; the result of `fastgit_index_conflict_remove` is not looked at.
unfoldable pub conflict_add : Index → List ℕ → Option Oid → Option Oid → Option Oid → Result Index
conflict_add idx path ancestor ours theirs =
    let base = add_stage path (conflict_remove idx path).0 ancestor 1 in
    let all = add_stage path (add_stage path base ours 2) theirs 3 in
    if is_given ancestor || (is_given ours || is_given theirs)
    then ok (record all { dirty = true; sorted = false })
    else err einval
