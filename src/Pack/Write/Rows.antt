-- ===== src/Pack/Write/Rows.antt =====
-- Types, lengths and places of the rows of a pack that is written.
use fastgit.Common.{
  sym, ◌∙◌, ℕ, zero, suc, ◌+◌, ◌<◌, ◌≡◌, refl, ap, arith, Bool-cases, inl, inr, List, [], ◌∷◌,
  length, map, get_elem?, some,
}
use fastgit.Object.Oid.Order.{memcmp}
use fastgit.Pack.Read.{pack_obj_type_from_git}
use fastgit.Pack.Write.{
  Row, is_gt, pack_type, place_row, place_rows, rev_onto, index_order, row_oid, row_offset,
}

-- The numbers of the types of objects go through the numbers of a pack and back.
pub pack_obj_type_from_git-pack_type :
    (t : ℕ) → 0 < t → t < 5 → pack_obj_type_from_git (pack_type t) ≡ t
unfolding pack_obj_type_from_git pack_type
pack_obj_type_from_git-pack_type t above below = ground arith

pub pack_type_lt : (t : ℕ) → pack_type t < 6
unfolding pack_type
pack_type_lt t = ground arith

length-place_row : (key : Row) (rs : List Row) → length (place_row key rs) ≡ suc (length rs)
unfolding place_row
length-place_row key [] = refl
length-place_row key (r ∷ rs) = elim (Bool-cases (is_gt (memcmp r.oid key.oid))) [
  | inl above ↦ rw above (ap suc (length-place_row key rs))
  | inr below ↦ rw below refl
]

length-place_rows : (rs keys : List Row) → length (place_rows rs keys) ≡ length rs + length keys
unfolding place_rows
length-place_rows rs [] = omega arith
length-place_rows rs (key ∷ keys) =
    omega (arith, length-place_rows (place_row key rs) keys, length-place_row key rs)

length-rev_onto : (rs acc : List Row) → length (rev_onto rs acc) ≡ length rs + length acc
unfolding rev_onto
length-rev_onto [] acc = omega arith
length-rev_onto (r ∷ rs) acc = omega (arith, length-rev_onto rs (r ∷ acc))

length-map_oid : (rs : List Row) → length (map row_oid rs) ≡ length rs
length-map_oid [] = refl
length-map_oid (r ∷ rs) = ap suc (length-map_oid rs)

pub length-names : (rows : List Row) → length (map row_oid (index_order rows)) ≡ length rows
unfolding index_order
length-names rows = omega (
  arith,
  length-map_oid (rev_onto (place_rows [] rows) []),
  length-rev_onto (place_rows [] rows) [],
  length-place_rows [] rows,
)

pub get_elem?-row_offset :
    (rows : List Row) (m : ℕ) (r : Row)
    → get_elem? rows m ≡ some r
    → get_elem? (map row_offset rows) m ≡ some (row_offset r)
get_elem?-row_offset [] m r h = absurd (cc)
get_elem?-row_offset (x ∷ rows) zero r h = let same : x ≡ r = cc in rw same refl
get_elem?-row_offset (x ∷ rows) (suc m) r h = get_elem?-row_offset rows m r h

pub length-map_row {ℓ} :
    {B : Type ℓ} (f : Row → B) (rows : List Row) → length (map f (index_order rows)) ≡ length rows
length-map_row f rows =
    length-map_each f (index_order rows)
    ∙ sym (length-map_oid (index_order rows))
    ∙ length-names rows
  where
    length-map_each : {B : Type ℓ} (f : Row → B) (rs : List Row) → length (map f rs) ≡ length rs
    length-map_each f [] = refl
    length-map_each f (r ∷ rs) = ap suc (length-map_each f rs)
