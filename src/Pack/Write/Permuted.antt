-- ===== src/Pack/Write/Permuted.antt =====
-- The sort of `fastgit_pack_index_create` loses no row and adds none.
use fastgit.Common.{refl, List, [], ◌∷◌, ◌++◌, Bool-cases, inl, inr}
use mathlib.Core.List.{Permᴰ}
use mathlib.Core.List.Permᴰ
use fastgit.Object.Oid.Order.{memcmp}
use fastgit.Pack.Write.{Row, is_gt, place_row, place_rows, rev_onto, index_order}

place_row-Permᴰ : (key : Row) (rs : List Row) → Permᴰ (key ∷ rs) (place_row key rs)
unfolding place_row
place_row-Permᴰ key [] = Permᴰ.refl (key ∷ [])
place_row-Permᴰ key (r ∷ rs) = elim (Bool-cases (is_gt (memcmp r.oid key.oid))) [
  | inl above ↦
      rw above (Permᴰ.trans (Permᴰ.swap refl refl) (Permᴰ.cons refl (place_row-Permᴰ key rs)))
  | inr below ↦ rw below (Permᴰ.refl (key ∷ r ∷ rs))
]

place_rows-Permᴰ : (rs keys : List Row) → Permᴰ (rs ++ keys) (place_rows rs keys)
unfolding place_rows
place_rows-Permᴰ rs [] = Permᴰ.append-nil rs
place_rows-Permᴰ rs (key ∷ keys) = Permᴰ.trans (Permᴰ.middle key rs keys) (
    Permᴰ.trans (Permᴰ.append_right keys (place_row-Permᴰ key rs))
      (place_rows-Permᴰ (place_row key rs) keys))

rev_onto-Permᴰ : (rs acc : List Row) → Permᴰ (rs ++ acc) (rev_onto rs acc)
unfolding rev_onto
rev_onto-Permᴰ [] acc = Permᴰ.refl acc
rev_onto-Permᴰ (r ∷ rs) acc =
    Permᴰ.trans (Permᴰ.symm (Permᴰ.middle r rs acc)) (rev_onto-Permᴰ rs (r ∷ acc))

pub index_order-Permᴰ : (rows : List Row) → Permᴰ rows (index_order rows)
unfolding index_order
index_order-Permᴰ rows = Permᴰ.trans (place_rows-Permᴰ [] rows) (
    Permᴰ.trans (Permᴰ.symm (Permᴰ.append-nil (place_rows [] rows)))
      (rev_onto-Permᴰ (place_rows [] rows) []))
