-- ===== src/Pack/Write/Order.antt =====
-- The insertion sort of `fastgit_pack_index_create`.

use fastgit.Common.{
  ℕ, ◌≡◌, refl, arith, true, false, List, [], ◌∷◌, length, All, Bool-cases, inl, inr,
}
use fastgit.Object.Oid.Order.{memcmp}
use fastgit.Pack.Write.{Row, is_gt, place_row, place_rows, rev_onto, index_order}

-- The first is not above the second.
abbrev pub IsBelow : List ℕ → List ℕ → Type 0
IsBelow a b = is_gt (memcmp a b) ≡ false

IsBelow-trans :
    (a b c : List ℕ)
    → length a ≡ length b
    → length b ≡ length c
    → IsBelow a b
    → IsBelow b c
    → IsBelow a c
unfolding memcmp
IsBelow-trans [] b c p q h k = refl
IsBelow-trans (x ∷ a) [] c p q h k = absurd (omega arith)
IsBelow-trans (x ∷ a) (y ∷ b) [] p q h k = absurd (omega arith)
IsBelow-trans (x ∷ a) (y ∷ b) (z ∷ c) p q h k =
    ground (arith, IsBelow-trans a b c (omega arith) (omega arith))

above-IsBelow : (a b : List ℕ) → is_gt (memcmp a b) ≡ true → IsBelow b a
unfolding memcmp
above-IsBelow [] b h = cc
above-IsBelow (x ∷ a) [] h = cc
above-IsBelow (x ∷ a) (y ∷ b) h = ground (arith, above-IsBelow a b)

abbrev pub IsSized : ℕ → List Row → Type 0
IsSized size = All (λ r. length r.oid ≡ size)

-- The last one first.
IsDescending : List Row → Type 0
IsDescending [] = Unit {0}
IsDescending (r ∷ rs) = All (λ x. IsBelow x.oid r.oid) rs × IsDescending rs

unfoldable pub IsAscending : List Row → Type 0
IsAscending [] = Unit {0}
IsAscending (r ∷ rs) = All (λ x. IsBelow r.oid x.oid) rs × IsAscending rs

pub place_row-All {κ} :
    (P : Row → Type κ) (key : Row) (rs : List Row) → P key → All P rs → All P (place_row key rs)
unfolding place_row
place_row-All P key [] p all = (p, tt)
place_row-All P key (r ∷ rs) p (q, all) = elim (Bool-cases (is_gt (memcmp r.oid key.oid))) [
  | inl above ↦ rw above (q, place_row-All P key rs p all)
  | inr below ↦ rw below (p, (q, all))
]

All-trans :
    (size : ℕ) (a b : Row) (rs : List Row)
    → length b.oid ≡ size
    → length a.oid ≡ size
    → IsBelow b.oid a.oid
    → IsSized size rs
    → All (λ x. IsBelow x.oid b.oid) rs
    → All (λ x. IsBelow x.oid a.oid) rs
All-trans size a b [] hb ha below sized all = tt
All-trans size a b (r ∷ rs) hb ha below (hr, sized) (h, all) = (
  IsBelow-trans r.oid b.oid a.oid (omega arith) (omega arith) h below,
  All-trans size a b rs hb ha below sized all,
)

place_row-IsDescending :
    (size : ℕ) (key : Row) (rs : List Row)
    → length key.oid ≡ size
    → IsSized size rs
    → IsDescending rs
    → IsDescending (place_row key rs)
unfolding place_row IsDescending
place_row-IsDescending size key [] hk sized d = (tt, tt)
place_row-IsDescending size key (r ∷ rs) hk (hr, sized) (top, d) =
    elim (Bool-cases (is_gt (memcmp r.oid key.oid))) [
      | inl above ↦ rw above (
        place_row-All (λ x. IsBelow x.oid r.oid) key rs (above-IsBelow r.oid key.oid above) top,
        place_row-IsDescending size key rs hk sized d,
      )
      | inr below ↦ rw below ((below, All-trans size key r rs hr hk below sized top), (top, d))
    ]

place_rows-IsDescending :
    (size : ℕ) (rs keys : List Row)
    → IsSized size rs
    → IsSized size keys
    → IsDescending rs
    → IsDescending (place_rows rs keys) × IsSized size (place_rows rs keys)
unfolding place_rows
place_rows-IsDescending size rs [] sized hk d = (d, sized)
place_rows-IsDescending size rs (key ∷ keys) sized (hk, hks) d =
    place_rows-IsDescending size (place_row key rs) keys
      (place_row-All (λ r. length r.oid ≡ size) key rs hk sized) hks
      (place_row-IsDescending size key rs hk sized d)

-- Every row of the first list is below every row of the second.
abbrev IsAllBelow : List Row → List Row → Type 0
IsAllBelow rs acc = All (λ r. All (λ x. IsBelow r.oid x.oid) acc) rs

All-cons_each :
    (r : Row) (rs acc : List Row)
    → All (λ x. IsBelow x.oid r.oid) rs
    → IsAllBelow rs acc
    → IsAllBelow rs (r ∷ acc)
All-cons_each r [] acc h k = tt
All-cons_each r (x ∷ rs) acc (h, hs) (k, ks) = ((h, k), All-cons_each r rs acc hs ks)

rev_onto-IsAscending :
    (rs acc : List Row)
    → IsDescending rs
    → IsAscending acc
    → IsAllBelow rs acc
    → IsAscending (rev_onto rs acc)
unfolding rev_onto IsDescending IsAscending
rev_onto-IsAscending [] acc d a below = a
rev_onto-IsAscending (r ∷ rs) acc (top, d) a (h, below) =
    rev_onto-IsAscending rs (r ∷ acc) d (h, a) (All-cons_each r rs acc top below)

pub rev_onto-All {κ} :
    (P : Row → Type κ) (rs acc : List Row) → All P rs → All P acc → All P (rev_onto rs acc)
unfolding rev_onto
rev_onto-All P [] acc h k = k
rev_onto-All P (r ∷ rs) acc (p, h) k = rev_onto-All P rs (r ∷ acc) h (p, k)

place_rows-All {κ} :
    (P : Row → Type κ) (rs keys : List Row) → All P rs → All P keys → All P (place_rows rs keys)
unfolding place_rows
place_rows-All P rs [] h k = h
place_rows-All P rs (key ∷ keys) h (p, k) =
    place_rows-All P (place_row key rs) keys (place_row-All P key rs p h) k

-- The sort keeps what holds of every row.
pub index_order-All {κ} :
    (P : Row → Type κ) (rows : List Row) → All P rows → All P (index_order rows)
unfolding index_order
index_order-All P rows h = rev_onto-All P (place_rows [] rows) [] (place_rows-All P [] rows tt h) tt

empty-IsAllBelow : (rs : List Row) → IsAllBelow rs []
empty-IsAllBelow [] = tt
empty-IsAllBelow (r ∷ rs) = (tt, empty-IsAllBelow rs)

-- The sort puts names of one length in order.
pub index_order-IsAscending :
    (size : ℕ) (rows : List Row)
    → IsSized size rows
    → IsAscending (index_order rows) × IsSized size (index_order rows)
unfolding index_order IsDescending IsAscending
index_order-IsAscending size rows sized =
    let (d, kept) = place_rows-IsDescending size [] rows tt sized tt in
    (
      rev_onto-IsAscending (place_rows [] rows) [] d tt (empty-IsAllBelow (place_rows [] rows)),
      index_order-All (λ r. length r.oid ≡ size) rows sized,
    )
