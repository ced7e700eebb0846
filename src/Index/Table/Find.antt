-- ===== src/Index/Table/Find.antt =====
-- The invariant of the table, and `fg_ht_find` against a linear search.
use fastgit.Common.{
  ℕ, zero, suc, ◌^◌, ◌≤◌, ◌<◌, ◌≡◌, ◌≢◌, refl, ap, ◌∙◌, sym, arith, ◌⊎◌, inl, inr, true, false,
  List, [], ◌∷◌, length, get_elem?, Option, none, some, ok, Bool-cases, Option-cases,
  get_elem?-some_of_lt, if◌then◌else◌,
}
use mathlib.Core.Bool.{false≢true}
use fastgit.Index.Entry.{Entry, has_key, has_key→eq}
use fastgit.Index.Table.{Slot, empty, tomb, entry, home, next, entry_matches, find_loop, ht_find}
use fastgit.Index.Table.Slots.{at, occupied, walk}

-- No probe stops in the first `k` slots from `pos` on.
abbrev pub IsClear : List Slot → ℕ → ℕ → Type 0
IsClear ht zero pos = Unit
IsClear ht (suc k) pos = (at ht pos ≢ empty) × IsClear ht k (next ht pos)

-- A probe from `pos` on comes to the slot of the entry `i`.
abbrev pub Reaches : List Slot → ℕ → ℕ → Type 0
Reaches ht pos i =
    (k : ℕ) × (k < length ht) × IsClear ht k pos × (at ht (walk (length ht) k pos) ≡ entry i)

-- No two entries have the same path and stage.
abbrev pub IsDistinct : List Entry → Type 0
IsDistinct es =
    (i j : ℕ) (e f : Entry)
    → get_elem? es i ≡ some e
    → get_elem? es j ≡ some f
    → e.path ≡ f.path
    → e.stage ≡ f.stage
    → i ≡ j

-- Every slot names an entry, every entry is reached from its home and stands in one slot only, and
-- the slots in use are no more than the entries.
pub record IsTable (es : List Entry) (ht : List Slot) : Type 0 where
  pub power : (m : ℕ) × (length ht ≡ 2 ^ m)
  pub names : (p v : ℕ) → at ht p ≡ entry v → v < length es
  pub reach : (i : ℕ) (e : Entry) → get_elem? es i ≡ some e → Reaches ht (home ht e.path e.stage) i
  pub once : (p q v : ℕ) → at ht p ≡ entry v → at ht q ≡ entry v → p ≡ q
  pub load : occupied ht ≤ length es

-- The first entry under a path and stage, by a linear search.
unfoldable pub position : List Entry → List ℕ → ℕ → Option ℕ
position [] path stage = none
position (e ∷ es) path stage =
    if has_key e path stage
    then some 0
    else (elim (position es path stage) [ none ↦ none | some i ↦ some (suc i) ])

pub position-some :
    (es : List Entry) (path : List ℕ) (stage i : ℕ)
    → position es path stage ≡ some i
    → (e : Entry) × (get_elem? es i ≡ some e) × (has_key e path stage ≡ true)
unfolding position
position-some [] path stage i h = absurd (cc)
position-some (e ∷ es) path stage zero h = (e, refl, ground arith)
position-some (e ∷ es) path stage (suc i) h =
    let (f, g, k) = position-some es path stage i (ground arith) in (f, g, k)

pub position-none :
    (es : List Entry) (path : List ℕ) (stage i : ℕ) (e : Entry)
    → position es path stage ≡ none
    → get_elem? es i ≡ some e
    → has_key e path stage ≡ false
unfolding position
position-none [] path stage i e h g = absurd (cc)
position-none (f ∷ es) path stage zero e h g = ground arith
position-none (f ∷ es) path stage (suc i) e h g = ground (arith, position-none es path stage i e)

module _ (es : List Entry) (ht : List Slot) (path : List ℕ) (stage : ℕ) where
  find_empty :
      (probes pos : ℕ) → at ht pos ≡ empty → find_loop es ht path stage (suc probes) pos ≡ ok none
  unfolding find_loop
  find_empty probes pos e = ground arith

  find_tomb :
      (probes pos : ℕ)
      → at ht pos ≡ tomb
      → find_loop es ht path stage (suc probes) pos
        ≡ find_loop es ht path stage probes (next ht pos)
  unfolding find_loop
  find_tomb probes pos e = ground arith

  find_entry :
      (probes pos v : ℕ) (e : Entry)
      → at ht pos ≡ entry v
      → get_elem? es v ≡ some e
      → find_loop es ht path stage (suc probes) pos ≡ (
          if has_key e path stage
          then ok (some v)
          else find_loop es ht path stage probes (next ht pos))
  unfolding find_loop entry_matches
  find_entry probes pos v e h g = ground arith

  module _ (names : (p v : ℕ) → at ht p ≡ entry v → v < length es) where
    -- A probe that comes to the entry, the only one with its key, returns it.
    find_loop-Reaches :
        (i : ℕ) (e : Entry)
        → IsDistinct es
        → get_elem? es i ≡ some e
        → has_key e path stage ≡ true
        → (k probes pos : ℕ) → k < probes
        → IsClear ht k pos
        → at ht (walk (length ht) k pos) ≡ entry i
        → find_loop es ht path stage probes pos ≡ ok (some i)
    find_loop-Reaches i e distinct g key k zero pos h clear here = absurd (omega arith)
    find_loop-Reaches i e distinct g key zero (suc probes) pos h clear here =
        find_entry probes pos i e here g ∙ rw key
    find_loop-Reaches i e distinct g key (suc k) (suc probes) pos h (full, clear) here =
        go (at ht pos) refl
          (find_loop-Reaches i e distinct g key k probes (next ht pos) (omega arith) clear here)
      where
        go :
            (s : Slot)
            → at ht pos ≡ s
            → find_loop es ht path stage probes (next ht pos) ≡ ok (some i)
            → find_loop es ht path stage (suc probes) pos ≡ ok (some i)
        go empty at_pos rest = absurd (full at_pos)
        go tomb at_pos rest = find_tomb probes pos at_pos ∙ rest
        go (entry v) at_pos rest =
            let (f, got) = get_elem?-some_of_lt es v (names pos v at_pos) in
            find_entry probes pos v f at_pos got ∙ elim (Bool-cases (has_key f path stage)) [
              | inr other ↦ rw other rest
              | inl same ↦
                  let (p, q) = has_key→eq f path stage same in
                  let (p', q') = has_key→eq e path stage key in
                  rw same (ap (λ x. ok (some x)) (distinct v i f e got g (p ∙ sym p') (q ∙ sym q')))
            ]

    -- A probe ends normally, and what it returns is an entry with the key.
    find_loop_sound :
        (probes pos : ℕ)
        → (find_loop es ht path stage probes pos ≡ ok none)
          ⊎ ((i : ℕ) × (e : Entry) × (find_loop es ht path stage probes pos ≡ ok (some i))
              × (get_elem? es i ≡ some e)
              × (has_key e path stage ≡ true))
    find_loop_sound zero pos = inl (unfold find_loop in refl)
    find_loop_sound (suc probes) pos = go (at ht pos) refl (find_loop_sound probes (next ht pos))
      where
        go :
            (s : Slot)
            → at ht pos ≡ s
            → (find_loop es ht path stage probes (next ht pos) ≡ ok none)
              ⊎ ((i : ℕ) × (e : Entry) × (find_loop es ht path stage probes (next ht pos)
                    ≡ ok (some i))
                  × (get_elem? es i ≡ some e)
                  × (has_key e path stage ≡ true))
            → (find_loop es ht path stage (suc probes) pos ≡ ok none)
              ⊎ ((i : ℕ) × (e : Entry) × (find_loop es ht path stage (suc probes) pos ≡ ok (some i))
                  × (get_elem? es i ≡ some e)
                  × (has_key e path stage ≡ true))
        go empty at_pos rest = inl (find_empty probes pos at_pos)
        go tomb at_pos rest = rw (find_tomb probes pos at_pos) rest
        go (entry v) at_pos rest =
            let (f, got) = get_elem?-some_of_lt es v (names pos v at_pos) in
            rw (find_entry probes pos v f at_pos got) (elim (Bool-cases (has_key f path stage)) [
              | inr other ↦ rw other rest
              | inl same ↦ rw same (inr (v, f, refl, got, same))
            ])

-- On a table that satisfies the invariant, over entries of which no two have the same path and
-- stage, `fg_ht_find` ends without a fault and answers what a linear search over the entries
-- answers: the index of the entry under the path and stage, or -1 if there is none.
pub ht_find-position :
    (es : List Entry) (ht : List Slot) (path : List ℕ) (stage : ℕ)
    → IsTable es ht
    → IsDistinct es
    → ht_find es ht path stage ≡ ok (position es path stage)
unfolding ht_find
ht_find-position es ht path stage v distinct = elim (Option-cases (position es path stage)) [
  | inr (i, e) ↦
      let (f, got, key) = position-some es path stage i e in
      let (p, q) = has_key→eq f path stage key in
      let (k, lt, clear, here) = v.reach i f got in
      rw e (
        find_loop-Reaches es ht path stage v.names i f distinct got key k (length ht)
          (home ht path stage) lt (rw (p, q) at clear) (rw (p, q) at here))
  | inl e ↦ elim (find_loop_sound es ht path stage v.names (length ht) (home ht path stage)) [
    | inl missing ↦ rw e missing
    | inr (i, f, found, got, key) ↦
        absurd (false≢true (sym (position-none es path stage i f e got) ∙ key))
  ]
]
