-- ===== src/Pack/Write/Names.antt =====
-- The sorted names: they are in order, and every name that was there is there.
use Prim.Native.Nat.{gt}
use fastgit.Common.{
  ℕ, zero, suc, ◌≤◌, ◌<◌, ◌≡◌, ◌≢◌, refl, sym, ap, ◌∙◌, arith, true, false, List, [], ◌∷◌, length,
  map, get_elem?, get_elem?-All, some, Bool-cases, inl, inr, ◌⊎◌,
}
use fastgit.Object.Oid.Order.{memcmp, memcmp_refl}
use fastgit.Pack.Lookup.Search.{IsTableOf}
use fastgit.Pack.Write.{Row, is_gt, place_row, place_rows, rev_onto, index_order, row_oid}
use fastgit.Pack.Write.Order.{IsBelow, IsAscending, IsSized, index_order-IsAscending}

-- Some row satisfies `P`.
abbrev pub Any : (Row → Type 0) → List Row → Type 0
Any P [] = ⊥
Any P (r ∷ rs) = P r ⊎ Any P rs

place_row-Any :
    (P : Row → Type 0) (key : Row) (rs : List Row) → P key ⊎ Any P rs → Any P (place_row key rs)
unfolding place_row
place_row-Any P key [] h = h
place_row-Any P key (r ∷ rs) h = elim (Bool-cases (is_gt (memcmp r.oid key.oid))) [
  | inr below ↦ rw below h
  | inl above ↦ rw above (elim h [
    | inl p ↦ inr (place_row-Any P key rs (inl p))
    | inr (inl q) ↦ inl q
    | inr (inr q) ↦ inr (place_row-Any P key rs (inr q))
  ])
]

place_rows-Any :
    (P : Row → Type 0) (rs keys : List Row) → Any P rs ⊎ Any P keys → Any P (place_rows rs keys)
unfolding place_rows
place_rows-Any P rs [] (inl h) = h
place_rows-Any P rs [] (inr h) = absurd h
place_rows-Any P rs (key ∷ keys) (inl h) =
    place_rows-Any P (place_row key rs) keys (inl (place_row-Any P key rs (inr h)))
place_rows-Any P rs (key ∷ keys) (inr (inl p)) =
    place_rows-Any P (place_row key rs) keys (inl (place_row-Any P key rs (inl p)))
place_rows-Any P rs (key ∷ keys) (inr (inr h)) = place_rows-Any P (place_row key rs) keys (inr h)

rev_onto-Any :
    (P : Row → Type 0) (rs acc : List Row) → Any P rs ⊎ Any P acc → Any P (rev_onto rs acc)
unfolding rev_onto
rev_onto-Any P [] acc (inl h) = absurd h
rev_onto-Any P [] acc (inr h) = h
rev_onto-Any P (r ∷ rs) acc (inl (inl p)) = rev_onto-Any P rs (r ∷ acc) (inr (inl p))
rev_onto-Any P (r ∷ rs) acc (inl (inr h)) = rev_onto-Any P rs (r ∷ acc) (inl h)
rev_onto-Any P (r ∷ rs) acc (inr h) = rev_onto-Any P rs (r ∷ acc) (inr (inr h))

pub index_order-Any : (P : Row → Type 0) (rows : List Row) → Any P rows → Any P (index_order rows)
unfolding index_order
index_order-Any P rows h =
    rev_onto-Any P (place_rows [] rows) [] (inl (place_rows-Any P [] rows (inr h)))

pub get_elem?-Any :
    (key : List ℕ) (rows : List Row)
    → Any (λ r. r.oid ≡ key) rows
    → (k : ℕ) × (get_elem? (map row_oid rows) k ≡ some key)
get_elem?-Any key [] h = absurd h
get_elem?-Any key (r ∷ rows) (inl e) = (0, ap some e)
get_elem?-Any key (r ∷ rows) (inr h) = let (k, e) = get_elem?-Any key rows h in (suc k, e)

-- The row behind a name.
pub get_elem?-row :
    (rows : List Row) (k : ℕ) (key : List ℕ)
    → get_elem? (map row_oid rows) k ≡ some key
    → (r : Row) × (get_elem? rows k ≡ some r) × (r.oid ≡ key)
get_elem?-row [] k key h = absurd (cc)
get_elem?-row (r ∷ rows) zero key h = (r, refl, cc)
get_elem?-row (r ∷ rows) (suc k) key h = get_elem?-row rows k key h

ne-gt : (a b : List ℕ) → IsBelow a b → memcmp a b ≢ gt
ne-gt a b h = λ e. let above : true ≡ false = sym (ap is_gt e) ∙ h in cc

names-sorted :
    (rows : List Row) (i j : ℕ) (a b : List ℕ)
    → IsAscending rows
    → i ≤ j
    → get_elem? (map row_oid rows) i ≡ some a
    → get_elem? (map row_oid rows) j ≡ some b
    → memcmp a b ≢ gt
unfolding IsAscending
names-sorted [] i j a b asc le h k = absurd (cc)
names-sorted (r ∷ rows) zero zero a b asc le h k =
    let same : a ≡ b = cc in rw (same, memcmp_refl b) (λ e. cc)
names-sorted (r ∷ rows) (suc i) zero a b asc le h k = absurd (omega arith)
names-sorted (r ∷ rows) zero (suc j) a b (low, asc) le h k =
    let (x, at, name) = get_elem?-row rows j b k in
    let below = get_elem?-All (λ y. IsBelow r.oid y.oid) rows j x low at in
    let first : r.oid ≡ a = cc in ne-gt a b (rw (← first, ← name) below)
names-sorted (r ∷ rows) (suc i) (suc j) a b (low, asc) le h k =
    names-sorted rows i j a b asc (omega arith) h k

-- The sorted names are a table that `fastgit_pack_index_find` can search.
pub index_order-IsTableOf :
    (size : ℕ) (rows : List Row)
    → 0 < size
    → IsSized size rows
    → IsTableOf size (map row_oid (index_order rows))
index_order-IsTableOf size rows positive sized =
    let (asc, sized') = index_order-IsAscending size rows sized in
    record {
      positive = positive;
      lengths = λ i a h.
          let (r, at, name) = get_elem?-row (index_order rows) i a h in
          ap length (sym name)
          ∙ get_elem?-All (λ y. length y.oid ≡ size) (index_order rows) i r sized' at;
      sorted = λ i j a b le h k. names-sorted (index_order rows) i j a b asc le h k;
    }
