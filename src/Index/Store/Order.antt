-- ===== src/Index/Store/Order.antt =====
-- The order of the entries does not show in the abstract view: what the sort of the C library does
-- to an index.
use fastgit.Common.{
  ℕ, zero, suc, ◌≤◌, ◌≡◌, refl, sym, ap, subst, ◌∙◌, arith, true, false, List, [], ◌∷◌, length,
  get_elem?, All, none, some, Option-cases, inl, inr, ok, err, enoent, Bool-cases, ltb, not, ◌&&◌,
}
use mathlib.Core.List.{Permᴰ}
use fastgit.Index.Entry.{Entry, has_key, has_key→eq, has_key_self}
use fastgit.Index.Table.{Slot, ht_find}
use fastgit.Index.Table.Find.{IsTable, IsDistinct, position, position-some, ht_find-position}
use fastgit.Index.Table.Rebuild.{ht_rebuild-IsTable}
use fastgit.Index.Store.{Index, index_find}
use fastgit.Index.Store.View.{view, view-position}
use fastgit.Index.Store.Add.{IsIndex}

-- No key stands twice, entry by entry.
unfoldable pub IsUnique : List Entry → Type 0
IsUnique [] = Unit {0}
IsUnique (e ∷ es) = (view es e.path e.stage ≡ none) × IsUnique es

view-absent :
    (es : List Entry) (path : List ℕ) (stage i : ℕ) (e : Entry)
    → view es path stage ≡ none
    → get_elem? es i ≡ some e
    → has_key e path stage ≡ false
unfolding view
view-absent [] path stage i e h g = absurd (cc)
view-absent (f ∷ es) path stage zero e h g = ground arith
view-absent (f ∷ es) path stage (suc i) e h g = ground (arith, view-absent es path stage i e)

all_absent-view :
    (es : List Entry) (path : List ℕ) (stage : ℕ)
    → ((i : ℕ) (e : Entry) → get_elem? es i ≡ some e → has_key e path stage ≡ false)
    → view es path stage ≡ none
unfolding view
all_absent-view [] path stage h = refl
all_absent-view (f ∷ es) path stage h =
    rw (h 0 f refl) (all_absent-view es path stage (λ i e g. h (suc i) e g))

same_key : (e f : Entry) → has_key f e.path e.stage ≡ true → (e.path ≡ f.path) × (e.stage ≡ f.stage)
same_key e f h = let (p, q) = has_key→eq f e.path e.stage h in (sym p, sym q)

pub IsDistinct-IsUnique : (es : List Entry) → IsDistinct es → IsUnique es
unfolding IsUnique
IsDistinct-IsUnique [] d = tt
IsDistinct-IsUnique (e ∷ es) d = (
  all_absent-view es e.path e.stage (λ i f g. elim (Bool-cases (has_key f e.path e.stage)) [
    | inr other ↦ other
    | inl same ↦
        let (p, q) = same_key e f same in
        let clash : 0 ≡ suc i = d 0 (suc i) e f refl g p q in absurd (omega arith)
  ]),
  IsDistinct-IsUnique es
      (λ i j x y g h p q. let next : suc i ≡ suc j = d (suc i) (suc j) x y g h p q in omega arith),
)

absent-entry :
    (es : List Entry) (e f : Entry) (i : ℕ)
    → view es e.path e.stage ≡ none
    → get_elem? es i ≡ some f
    → f.path ≡ e.path
    → f.stage ≡ e.stage
    → ⊥
absent-entry es e f i missing g p q =
    let other = view-absent es e.path e.stage i f missing g in
    let own : has_key f e.path e.stage ≡ true = rw (sym p, sym q) (has_key_self f) in
    cc (own, other)

pub IsUnique-IsDistinct : (es : List Entry) → IsUnique es → IsDistinct es
unfolding IsUnique
IsUnique-IsDistinct [] u i j x y g h p q = absurd (cc)
IsUnique-IsDistinct (e ∷ es) (a, u) zero zero x y g h p q = refl
IsUnique-IsDistinct (e ∷ es) (a, u) zero (suc j) x y g h p q =
    let same : e ≡ x = cc in
    absurd (
      absent-entry es e y j a h (sym p ∙ ap (λ (z : Entry). z.path) (sym same))
        (sym q ∙ ap (λ (z : Entry). z.stage) (sym same)))
IsUnique-IsDistinct (e ∷ es) (a, u) (suc i) zero x y g h p q =
    let same : e ≡ y = cc in
    absurd (
      absent-entry es e x i a g (p ∙ ap (λ (z : Entry). z.path) (sym same))
        (q ∙ ap (λ (z : Entry). z.stage) (sym same)))
IsUnique-IsDistinct (e ∷ es) (a, u) (suc i) (suc j) x y g h p q =
    ap suc (IsUnique-IsDistinct es u i j x y g h p q)

-- What a sort keeps.
abbrev SameEntries : List Entry → List Entry → Type 0
SameEntries xs ys =
    IsUnique ys × ((path : List ℕ) (stage : ℕ) → view ys path stage ≡ view xs path stage)

cons-SameEntries :
    (a : Entry) (xs ys : List Entry)
    → IsUnique (a ∷ xs)
    → SameEntries xs ys
    → SameEntries (a ∷ xs) (a ∷ ys)
unfolding IsUnique view
cons-SameEntries a xs ys (new, u) (w, same) =
    ((same a.path a.stage ∙ new, w), λ p s. rw (same p s) refl)

both_keys :
    (a b : Entry) (path : List ℕ) (stage : ℕ)
    → has_key a path stage ≡ true
    → has_key b path stage ≡ true
    → has_key b a.path a.stage ≡ true
both_keys a b path stage h k = let (p, q) = has_key→eq a path stage h in rw (p, q) k

swap-SameEntries :
    (a b : Entry) (xs : List Entry) → IsUnique (a ∷ b ∷ xs) → SameEntries (a ∷ b ∷ xs) (b ∷ a ∷ xs)
unfolding IsUnique view
swap-SameEntries a b xs (new, (new', u)) = (
  (ground (arith, both_keys a b b.path b.stage, has_key_self b), (ground (arith), u)),
  λ p s. ground (arith, both_keys a b p s),
)

tail-IsUnique : (a : Entry) (xs : List Entry) → IsUnique (a ∷ xs) → IsUnique xs
unfolding IsUnique
tail-IsUnique a xs (new, u) = u

pub Permᴰ-SameEntries : {xs ys : List Entry} → Permᴰ xs ys → IsUnique xs → SameEntries xs ys
Permᴰ-SameEntries Permᴰ.nil u = (u, λ p s. refl)
Permᴰ-SameEntries (Permᴰ.cons {a} {b} {l₁} {l₂} e d) u =
    subst (λ (c : Entry). SameEntries (a ∷ l₁) (c ∷ l₂)) e
      (cons-SameEntries a l₁ l₂ u (Permᴰ-SameEntries d (tail-IsUnique a l₁ u)))
Permᴰ-SameEntries (Permᴰ.swap {a} {b} {a'} {b'} {l} e₁ e₂) u =
    subst (λ (c : Entry). SameEntries (a ∷ b ∷ l) (c ∷ b' ∷ l)) e₂
      (subst (λ (c : Entry). SameEntries (a ∷ b ∷ l) (b ∷ c ∷ l)) e₁ (swap-SameEntries a b l u))
Permᴰ-SameEntries (Permᴰ.trans d₁ d₂) u =
    let (v, same) = Permᴰ-SameEntries d₁ u in
    let (w, same') = Permᴰ-SameEntries d₂ v in (w, λ p s. same' p s ∙ same p s)

pub Permᴰ-All {κ} : (P : Entry → Type κ) {xs ys : List Entry} → Permᴰ xs ys → All P xs → All P ys
Permᴰ-All P Permᴰ.nil h = h
Permᴰ-All P (Permᴰ.cons {a} {b} {l₁} {l₂} e d) (p, h) = (subst P e p, Permᴰ-All P d h)
Permᴰ-All P (Permᴰ.swap {a} {b} {a'} {b'} {l} e₁ e₂) (p, (q, h)) = (subst P e₂ q, (subst P e₁ p, h))
Permᴰ-All P (Permᴰ.trans d₁ d₂) h = Permᴰ-All P d₂ (Permᴰ-All P d₁ h)

pub Permᴰ-length : {xs ys : List Entry} → Permᴰ xs ys → length xs ≡ length ys
Permᴰ-length Permᴰ.nil = refl
Permᴰ-length (Permᴰ.cons e d) = ap suc (Permᴰ-length d)
Permᴰ-length (Permᴰ.swap e₁ e₂) = refl
Permᴰ-length (Permᴰ.trans d₁ d₂) = Permᴰ-length d₁ ∙ Permᴰ-length d₂

-- A sorted index with its table made anew is valid and means what it did.
pub sorted_index :
    (qsort : List Entry → List Entry) (idx : Index)
    → ((es : List Entry) → Permᴰ es (qsort es))
    → IsIndex idx
    → IsDistinct (qsort idx.entries)
      × (length (qsort idx.entries) ≤ idx.capacity)
      × ((path : List ℕ) (stage : ℕ)
          → view (qsort idx.entries) path stage ≡ view idx.entries path stage)
sorted_index qsort idx perm v =
    let (u, same) =
      Permᴰ-SameEntries (perm idx.entries) (IsDistinct-IsUnique idx.entries v.distinct) in
    (
      IsUnique-IsDistinct (qsort idx.entries) u,
      omega (arith, v.fits, Permᴰ-length (perm idx.entries)),
      same,
    )

-- A search in the table of distinct entries finds nothing where the abstract view has nothing.
ht_find-none :
    (es : List Entry) (ht : List Slot) (path : List ℕ) (stage : ℕ)
    → IsTable es ht
    → IsDistinct es
    → view es path stage ≡ none
    → ht_find es ht path stage ≡ ok none
ht_find-none es ht path stage table distinct unseen =
    let find = ht_find-position es ht path stage table distinct in
    elim (Option-cases (position es path stage)) [
      | inl missing ↦ rw missing at find
      | inr (i, at_i) ↦
          let (f, got, key) = position-some es path stage i at_i in
          let there = view-position es path stage i f at_i got in cc (there, unseen)
    ]

-- `fastgit_index_find` on a valid index, sorted or not, answers FASTGIT_ENOENT where the abstract
-- view has no entry under the path and stage, if `qsort` keeps the entries.
pub index_find_absent :
    (qsort : List Entry → List Entry) (idx : Index) (path : List ℕ) (stage : ℕ)
    → ((es : List Entry) → Permᴰ es (qsort es))
    → IsIndex idx
    → view idx.entries path stage ≡ none
    → index_find qsort idx path stage ≡ err enoent
unfolding index_find
index_find_absent qsort idx path stage perm v unseen =
    let first = ht_find-none idx.entries idx.ht path stage v.table v.distinct unseen in
    let (distinct, fits, same) = sorted_index qsort idx perm v in
    let (ht, run, table, room) = ht_rebuild-IsTable (qsort idx.entries) in
    let again =
      ht_find-none (qsort idx.entries) ht path stage table distinct (same path stage ∙ unseen) in
    elim (Bool-cases (not idx.sorted && ltb 1 (length idx.entries))) [
      | inl sort ↦ rw (first, sort, run, again)
      | inr keep ↦ rw (first, keep)
    ]
