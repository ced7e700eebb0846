-- ===== src/Index/Conflicts/Stages.antt =====
-- What an index holds behind the change of a conflict.
use fastgit.Common.{
  ℕ, ◌<◌, ◌≡◌, refl, sym, ◌∙◌, arith, Bool, true, false, ◌||◌, List, [], ◌∷◌, ◌++◌, append_assoc,
  append-nil, ◌==◌, if◌then◌else◌, Option, none, some, ok,
}
use fastgit.Index.Entry.{Oid, Entry, str_eq, str_eq→eq, str_eq_refl, has_key}
use fastgit.Index.Store.{Index, has_conflicts}
use fastgit.Index.Store.View.{view}
use fastgit.Index.Conflicts.{
  drop_path, conflict_remove, conflict_entry, add_stage, is_given, conflict_add,
}

abbrev or_else : Option Entry → Option Entry → Option Entry
or_else none o = o
or_else (some e) o = some e

or_else-none : (o : Option Entry) → or_else o none ≡ o
or_else-none none = refl
or_else-none (some e) = refl

view-append :
    (xs ys : List Entry) (path : List ℕ) (stage : ℕ)
    → view (xs ++ ys) path stage ≡ or_else (view xs path stage) (view ys path stage)
unfolding view
view-append [] ys path stage = refl
view-append (x ∷ xs) ys path stage = ground (arith, view-append xs ys path stage)

view-drop_path :
    (es : List Entry) (gone path : List ℕ) (stage : ℕ)
    → view (drop_path gone es) path stage ≡ (if str_eq path gone then none else view es path stage)
unfolding view drop_path has_key
view-drop_path [] gone path stage = ground arith
view-drop_path (e ∷ es) gone path stage = ground (
  arith,
  view-drop_path es gone path stage,
  str_eq→eq e.path gone,
  str_eq→eq e.path path,
  str_eq_refl gone,
)

-- The entry that a name gets, and the list that one round of the loop adds.
abbrev pub staged : List ℕ → ℕ → Option Oid → Option Entry
staged path stage none = none
staged path stage (some oid) = some (conflict_entry path oid stage)

abbrev added : List ℕ → Option Oid → ℕ → List Entry
added path none stage = []
added path (some oid) stage = conflict_entry path oid stage ∷ []

add_stage-added :
    (path : List ℕ) (idx : Index) (o : Option Oid) (stage : ℕ)
    → (add_stage path idx o stage).entries ≡ idx.entries ++ added path o stage
unfolding add_stage
add_stage-added path idx none stage = sym (append-nil idx.entries)
add_stage-added path idx (some oid) stage = refl

view-added :
    (path p : List ℕ) (o : Option Oid) (stage s : ℕ)
    → view (added path o stage) p s
      ≡ (if str_eq path p then (if stage == s then staged path stage o else none) else none)
unfolding view has_key
view-added path p none stage s = ground arith
view-added path p (some oid) stage s = ground arith

has_conflicts-append :
    (xs ys : List Entry) → has_conflicts (xs ++ ys) ≡ (has_conflicts xs || has_conflicts ys)
unfolding has_conflicts
has_conflicts-append [] ys = refl
has_conflicts-append (x ∷ xs) ys = ground (arith, has_conflicts-append xs ys)

has_conflicts-added :
    (path : List ℕ) (o : Option Oid) (stage : ℕ)
    → 0 < stage
    → has_conflicts (added path o stage) ≡ is_given o
unfolding has_conflicts
has_conflicts-added path none stage positive = refl
has_conflicts-added path (some oid) stage positive = ground arith

-- The entry under each stage of a conflict.
abbrev pub conflict_stage : List ℕ → Option Oid → Option Oid → Option Oid → ℕ → Option Entry
conflict_stage path ancestor ours theirs stage =
    if 1 == stage
    then staged path 1 ancestor
    else if 2 == stage
    then staged path 2 ours
    else if 3 == stage
    then staged path 3 theirs
    else none

or_else-stages :
    (b c : Bool) (stage : ℕ) (v x y z : Option Entry)
    → b ≡ c
    → or_else (if c then none else v) (
        or_else (if b then (if 1 == stage then x else none) else none) (
          or_else
            (if b then (if 2 == stage then y else none) else none)
            (if b then (if 3 == stage then z else none) else none)))
      ≡ (if b
          then (if 1 == stage then x else if 2 == stage then y else if 3 == stage then z else none)
          else v)
or_else-stages true true stage v x y z h = ground (arith, or_else-none x, or_else-none y)
or_else-stages true false stage v x y z h = cc
or_else-stages false true stage v x y z h = cc
or_else-stages false false stage v x y z h = or_else-none v

str_eq-sym : (a b : List ℕ) → str_eq a b ≡ str_eq b a
unfolding str_eq
str_eq-sym [] [] = refl
str_eq-sym [] (y ∷ ys) = refl
str_eq-sym (x ∷ xs) [] = refl
str_eq-sym (x ∷ xs) (y ∷ ys) = ground (arith, str_eq-sym xs ys)

all_stages : (idx : Index) (path : List ℕ) (a o t : Option Oid) → List Entry
all_stages idx path a o t =
    drop_path path idx.entries ++ (added path a 1 ++ (added path o 2 ++ added path t 3))

conflict_add-entries :
    (idx : Index) (path : List ℕ) (a o t : Option Oid)
    → (add_stage path
        (add_stage path (add_stage path (conflict_remove idx path).0 a 1) o 2)
        t
        3).entries
      ≡ all_stages idx path a o t
unfolding conflict_remove all_stages
conflict_add-entries idx path a o t =
    let base = (conflict_remove idx path).0 in
    let one = add_stage path base a 1 in
    let two = add_stage path one o 2 in
    add_stage-added path two t 3
    ∙ rw (add_stage-added path one o 2, add_stage-added path base a 1)
        (append_assoc (drop_path path idx.entries ++ added path a 1) (added path o 2)
            (added path t 3)
          ∙ append_assoc (drop_path path idx.entries) (added path a 1)
              (added path o 2 ++ added path t 3))

view-all_stages :
    (idx : Index) (path : List ℕ) (a o t : Option Oid) (p : List ℕ) (s : ℕ)
    → view (all_stages idx path a o t) p s
      ≡ (if str_eq path p then conflict_stage path a o t s else view idx.entries p s)
unfolding all_stages
view-all_stages idx path a o t p s =
    let front = drop_path path idx.entries in
    rw
      (
        view-append front (added path a 1 ++ (added path o 2 ++ added path t 3)) p s,
        view-append (added path a 1) (added path o 2 ++ added path t 3) p s,
        view-append (added path o 2) (added path t 3) p s,
        view-drop_path idx.entries path p s,
        view-added path p a 1 s,
        view-added path p o 2 s,
        view-added path p t 3 s,
      )
      (or_else-stages (str_eq path p) (str_eq p path) s (view idx.entries p s) (staged path 1 a)
        (staged path 2 o) (staged path 3 t) (str_eq-sym path p))

or_given : (b x y z : Bool) → (x || (y || z)) ≡ true → (b || (x || (y || z))) ≡ true
or_given true x y z h = refl
or_given false x y z h = h

has_conflicts-all_stages :
    (idx : Index) (path : List ℕ) (a o t : Option Oid)
    → (is_given a || (is_given o || is_given t)) ≡ true
    → has_conflicts (all_stages idx path a o t) ≡ true
unfolding all_stages
has_conflicts-all_stages idx path a o t given =
    let front = drop_path path idx.entries in
    rw
      (
        has_conflicts-append front (added path a 1 ++ (added path o 2 ++ added path t 3)),
        has_conflicts-append (added path a 1) (added path o 2 ++ added path t 3),
        has_conflicts-append (added path o 2) (added path t 3),
        has_conflicts-added path a 1 (omega arith),
        has_conflicts-added path o 2 (omega arith),
        has_conflicts-added path t 3 (omega arith),
      )
      (or_given (has_conflicts front) (is_given a) (is_given o) (is_given t) given)

-- With a name for one stage at least, `fastgit_index_conflict_add` succeeds: the index then has
-- conflicts, the path has the entries of the given stages and no other, and every other path has
-- the entries that it had.
pub conflict_add-view :
    (idx : Index) (path : List ℕ) (ancestor ours theirs : Option Oid)
    → (is_given ancestor || (is_given ours || is_given theirs)) ≡ true
    → (idx' : Index) × (conflict_add idx path ancestor ours theirs ≡ ok idx')
      × (has_conflicts idx'.entries ≡ true)
      × ((p : List ℕ) (s : ℕ)
          → view idx'.entries p s ≡ (
              if str_eq path p
              then conflict_stage path ancestor ours theirs s
              else view idx.entries p s))
unfolding conflict_add
conflict_add-view idx path a o t given =
    let all =
      add_stage path (add_stage path (add_stage path (conflict_remove idx path).0 a 1) o 2) t 3 in
    let same = conflict_add-entries idx path a o t in
    (
      record all { dirty = true; sorted = false },
      rw given refl,
      rw same (has_conflicts-all_stages idx path a o t given),
      λ p s. rw same (view-all_stages idx path a o t p s),
    )
