-- ===== src/Pack/Lookup/Search.antt =====
-- The search in a sorted table.
use Prim.Native.Nat.{Ordering, lt, eq, gt}
use fastgit.Common.{
  ℕ, zero, suc, ◌+◌, ◌-◌, ◌/◌, ◌%◌, ◌^◌, ◌≤◌, ◌<◌, ◌≡◌, ◌≢◌, refl, sym, ap, ◌∙◌, arith, Bool-cases,
  inl, inr, true, false, List, [], ◌∷◌, length, get_elem?, get_elem?-some_of_lt, lt_of_get_elem?,
  get_or, ltb, ◌==◌, Option, none, some, Result, ok, err, fault, enoent,
}
use fastgit.Object.Oid.Order.{memcmp, memcmp-eq}
use fastgit.Pack.Lookup.{fanout_at, order_at, search_loop, low, pack_index_find, midx_find}

memcmp_flip : (xs ys : List ℕ) → memcmp xs ys ≡ lt → memcmp ys xs ≡ gt
unfolding memcmp
memcmp_flip [] ys h = cc
memcmp_flip (x ∷ xs) [] h = cc
memcmp_flip (x ∷ xs) (y ∷ ys) h = ground (arith, memcmp_flip xs ys)

memcmp-first :
    (xs ys : List ℕ)
    → 0 < length xs
    → 0 < length ys
    → memcmp xs ys ≢ gt
    → get_or xs 0 0 ≤ get_or ys 0 0
unfolding memcmp
memcmp-first [] ys px py h = absurd (omega arith)
memcmp-first (x ∷ xs) [] px py h = absurd (omega arith)
memcmp-first (x ∷ xs) (y ∷ ys) px py h = ground arith

-- Names of one positive length, in the order of `memcmp`.
pub record IsTableOf (size : ℕ) (oids : List (List ℕ)) : Type 0 where
  pub positive : 0 < size
  pub lengths : (i : ℕ) (a : List ℕ) → get_elem? oids i ≡ some a → length a ≡ size
  pub sorted :
      (i j : ℕ) (a b : List ℕ)
      → i ≤ j
      → get_elem? oids i ≡ some a
      → get_elem? oids j ≡ some b
      → memcmp a b ≢ gt

tail-IsTableOf :
    (size : ℕ) (x : List ℕ) (xs : List (List ℕ)) → IsTableOf size (x ∷ xs) → IsTableOf size xs
tail-IsTableOf size x xs v = record {
  positive = v.positive;
  lengths = λ i. v.lengths (suc i);
  sorted = λ i j a b le. v.sorted (suc i) (suc j) a b (omega arith);
}

pub fanout_at-le : (oids : List (List ℕ)) (f : ℕ) → fanout_at oids f ≤ length oids
unfolding fanout_at
fanout_at-le [] f = omega arith
fanout_at-le (x ∷ xs) f = ground (arith, fanout_at-le xs f)

first_above :
    (size : ℕ) (x : List ℕ) (xs : List (List ℕ)) (k : ℕ) (key : List ℕ)
    → IsTableOf size (x ∷ xs)
    → get_elem? xs k ≡ some key
    → get_or x 0 0 ≤ get_or key 0 0
first_above size x xs k key v at =
    memcmp-first x key (omega (arith, v.positive, v.lengths 0 x refl))
      (omega (arith, v.positive, v.lengths (suc k) key at))
      (v.sorted 0 (suc k) x key (omega arith) refl at)

-- Behind a name of the table the names do not have a smaller first byte.
fanout_at-zero :
    (size : ℕ) (x : List ℕ) (xs : List (List ℕ)) (f : ℕ)
    → IsTableOf size (x ∷ xs)
    → f < get_or x 0 0
    → fanout_at (x ∷ xs) f ≡ 0
unfolding fanout_at
fanout_at-zero size x [] f v below = ground arith
fanout_at-zero size x (y ∷ ys) f v below =
    let above = first_above size x (y ∷ ys) 0 y v refl in
    let rest = fanout_at-zero size y ys f (tail-IsTableOf size x (y ∷ ys) v) (omega arith) in
    ground (arith, rest)

fanout_at-above :
    (size : ℕ) (oids : List (List ℕ)) (k : ℕ) (key : List ℕ)
    → IsTableOf size oids
    → get_elem? oids k ≡ some key
    → k < fanout_at oids (get_or key 0 0)
unfolding fanout_at
fanout_at-above size [] k key v at = cc
fanout_at-above size (x ∷ xs) zero key v at = let e : x ≡ key = cc in rw (← e) (ground arith)
fanout_at-above size (x ∷ xs) (suc k) key v at =
    let rest = fanout_at-above size xs k key (tail-IsTableOf size x xs v) at in
    ground (arith, rest, first_above size x xs k key v at)

fanout_at-below :
    (size : ℕ) (oids : List (List ℕ)) (k f : ℕ) (key : List ℕ)
    → IsTableOf size oids
    → get_elem? oids k ≡ some key
    → f < get_or key 0 0
    → fanout_at oids f ≤ k
unfolding fanout_at
fanout_at-below size [] k f key v at below = cc
fanout_at-below size (x ∷ xs) zero f key v at below =
    let e : x ≡ key = cc in omega (arith, fanout_at-zero size x xs f v (rw e below))
fanout_at-below size (x ∷ xs) (suc k) f key v at below =
    ground (arith, fanout_at-below size xs k f key (tail-IsTableOf size x xs v) at below)

-- One round, by the order at the middle.
search_step :
    (fuel : ℕ) (oids : List (List ℕ)) (key : List ℕ) (lo hi : ℕ) (o : Option Ordering)
    → lo < hi
    → order_at (get_elem? oids ((lo + hi) % 2 ^ 32 / 2)) key ≡ o
    → search_loop (suc fuel) oids key lo hi ≡ (elim o as (λ x. Result ℕ) [
      | none ↦ fault
      | some lt ↦ search_loop fuel oids key ((lo + hi) % 2 ^ 32 / 2 + 1) hi
      | some gt ↦ search_loop fuel oids key lo ((lo + hi) % 2 ^ 32 / 2)
      | some eq ↦ ok ((lo + hi) % 2 ^ 32 / 2)
    ])
unfolding search_loop
search_step fuel oids key lo hi o inside e =
    let open_range : ltb lo hi ≡ true = ground arith in rw (e, search_loop, open_range) refl

first_name : (oids : List (List ℕ)) → 0 < length oids → get_elem? oids 0 ≡ some (get_or oids 0 [])
first_name [] some_names = absurd (omega arith)
first_name (x ∷ xs) some_names = refl

-- With the same fan-out `fastgit_midx_find` answers like `fastgit_pack_index_find`.
midx_find-pack_index_find :
    (oids : List (List ℕ)) (key : List ℕ)
    → midx_find (fanout_at oids) oids key ≡ pack_index_find (fanout_at oids) oids key
unfolding midx_find pack_index_find fanout_at search_loop
midx_find-pack_index_find [] key = ground arith
midx_find-pack_index_find (x ∷ xs) key = ground arith

module _ (size : ℕ) (oids : List (List ℕ)) (key : List ℕ) (v : IsTableOf size oids)
    (small : length oids < 2 ^ 31) where
  abbrev Hits : Result ℕ → Type 0
  Hits r = (m : ℕ) × (r ≡ ok m) × (get_elem? oids m ≡ some key)

  -- What a smaller bound is worth: the search goes on in it.
  abbrev Continues : (ℕ → ℕ → Type 0) → ℕ → ℕ → Type 0
  Continues P lo hi = (lo' hi' : ℕ) → lo ≤ lo' → hi' ≤ hi → hi' - lo' < hi - lo → P lo' hi'

  step_at :
      (fuel lo hi : ℕ) (x : List ℕ) (o : Ordering)
      → lo < hi
      → get_elem? oids ((lo + hi) % 2 ^ 32 / 2) ≡ some x
      → memcmp x key ≡ o
      → search_loop (suc fuel) oids key lo hi ≡ (elim o as (λ x. Result ℕ) [
        | lt ↦ search_loop fuel oids key ((lo + hi) % 2 ^ 32 / 2 + 1) hi
        | gt ↦ search_loop fuel oids key lo ((lo + hi) % 2 ^ 32 / 2)
        | eq ↦ ok ((lo + hi) % 2 ^ 32 / 2)
      ])
  step_at fuel lo hi x o inside at_mid c =
      search_step fuel oids key lo hi (some o) inside (ap (λ g. order_at g key) at_mid ∙ ap some c)

  same_as_key :
      (m : ℕ) (x : List ℕ)
      → length key ≡ size
      → get_elem? oids m ≡ some x
      → memcmp x key ≡ eq
      → get_elem? oids m ≡ some key
  same_as_key m x long at c = at ∙ ap some (memcmp-eq x key c (v.lengths m x at ∙ sym long))

  key_above :
      (m k : ℕ) (x : List ℕ)
      → get_elem? oids k ≡ some key
      → get_elem? oids m ≡ some x
      → memcmp x key ≡ lt
      → m < k
  key_above m k x at at_m c = elim (Bool-cases (ltb m k)) [
    | inl above ↦ ground (arith, above)
    | inr below ↦ absurd (v.sorted k m key x (ground (arith, below)) at at_m (memcmp_flip x key c))
  ]

  key_below :
      (m k : ℕ) (x : List ℕ)
      → get_elem? oids k ≡ some key
      → get_elem? oids m ≡ some x
      → memcmp x key ≡ gt
      → k < m
  key_below m k x at at_m c = elim (Bool-cases (ltb k m)) [
    | inl below ↦ ground (arith, below)
    | inr above ↦ absurd (v.sorted m k x key (ground (arith, above)) at_m at c)
  ]

  found_round :
      (fuel lo hi k : ℕ) (x : List ℕ) (o : Ordering)
      → lo ≤ k
      → k < hi
      → hi ≤ length oids
      → get_elem? oids k ≡ some key
      → get_elem? oids ((lo + hi) % 2 ^ 32 / 2) ≡ some x
      → memcmp x key ≡ o
      → Continues (λ lo' hi'. lo' ≤ k → k < hi' → Hits (search_loop fuel oids key lo' hi')) lo hi
      → Hits (search_loop (suc fuel) oids key lo hi)
  found_round fuel lo hi k x lt lo_k k_hi inside at at_mid c next =
      let mid = (lo + hi) % 2 ^ 32 / 2 in
      let (m, run, got) =
        next (mid + 1) hi (omega arith) (omega arith) (omega arith)
          (omega (arith, key_above mid k x at at_mid c)) k_hi in
      (m, step_at fuel lo hi x lt (omega arith) at_mid c ∙ run, got)
  found_round fuel lo hi k x gt lo_k k_hi inside at at_mid c next =
      let mid = (lo + hi) % 2 ^ 32 / 2 in
      let (m, run, got) =
        next lo mid (omega arith) (omega arith) (omega arith) lo_k
          (key_below mid k x at at_mid c) in
      (m, step_at fuel lo hi x gt (omega arith) at_mid c ∙ run, got)
  found_round fuel lo hi k x eq lo_k k_hi inside at at_mid c next =
      let mid = (lo + hi) % 2 ^ 32 / 2 in
      (
        mid,
        step_at fuel lo hi x eq (omega arith) at_mid c,
        same_as_key mid x (v.lengths k key at) at_mid c,
      )

  missing_round :
      (fuel lo hi : ℕ) (x : List ℕ) (o : Ordering)
      → lo < hi
      → hi ≤ length oids
      → length key ≡ size
      → ((m : ℕ) → get_elem? oids m ≢ some key)
      → get_elem? oids ((lo + hi) % 2 ^ 32 / 2) ≡ some x
      → memcmp x key ≡ o
      → Continues (λ lo' hi'. search_loop fuel oids key lo' hi' ≡ err enoent) lo hi
      → search_loop (suc fuel) oids key lo hi ≡ err enoent
  missing_round fuel lo hi x lt lo_hi inside long absent at_mid c next =
      step_at fuel lo hi x lt lo_hi at_mid c
      ∙ next ((lo + hi) % 2 ^ 32 / 2 + 1) hi (omega arith) (omega arith) (omega arith)
  missing_round fuel lo hi x gt lo_hi inside long absent at_mid c next =
      step_at fuel lo hi x gt lo_hi at_mid c
      ∙ next lo ((lo + hi) % 2 ^ 32 / 2) (omega arith) (omega arith) (omega arith)
  missing_round fuel lo hi x eq lo_hi inside long absent at_mid c next =
      absurd
        (absent ((lo + hi) % 2 ^ 32 / 2) (same_as_key ((lo + hi) % 2 ^ 32 / 2) x long at_mid c))

  search_loop-found :
      (fuel lo hi k : ℕ)
      → hi - lo ≤ fuel
      → hi ≤ length oids
      → get_elem? oids k ≡ some key
      → lo ≤ k
      → k < hi
      → Hits (search_loop fuel oids key lo hi)
  search_loop-found zero lo hi k enough inside at lo_k k_hi = absurd (omega arith)
  search_loop-found (suc fuel) lo hi k enough inside at lo_k k_hi =
      let (x, at_mid) = get_elem?-some_of_lt oids ((lo + hi) % 2 ^ 32 / 2) (omega arith) in
      found_round fuel lo hi k x (memcmp x key) lo_k k_hi inside at at_mid refl
        (λ lo' hi' a b c. search_loop-found fuel lo' hi' k (omega arith) (omega arith) at)

  search_loop-missing :
      (fuel lo hi : ℕ)
      → hi - lo ≤ fuel
      → hi ≤ length oids
      → length key ≡ size
      → ((m : ℕ) → get_elem? oids m ≢ some key)
      → search_loop fuel oids key lo hi ≡ err enoent
  unfolding search_loop
  search_loop-missing zero lo hi enough inside long absent =
      let done : ltb lo hi ≡ false = ground arith in rw done refl
  search_loop-missing (suc fuel) lo hi enough inside long absent = elim (Bool-cases (ltb lo hi)) [
    | inl more ↦
        let lo_hi : lo < hi = ground (arith, more) in
        let (x, at_mid) = get_elem?-some_of_lt oids ((lo + hi) % 2 ^ 32 / 2) (omega arith) in
        missing_round fuel lo hi x (memcmp x key) lo_hi inside long absent at_mid refl
          (λ lo' hi' a b c.
            search_loop-missing fuel lo' hi' (omega arith) (omega arith) long absent)
    | inr done ↦ rw done refl
  ]

  low-le : (k : ℕ) → get_elem? oids k ≡ some key → low (fanout_at oids) (get_or key 0 0) ≤ k
  low-le k at = elim (Bool-cases (get_or key 0 0 == 0)) [
    | inl none_below ↦ rw none_below (omega arith)
    | inr some_below ↦
        rw some_below
          (fanout_at-below size oids k (get_or key 0 0 - 1) key v at (ground (arith, some_below)))
  ]

  first-length : 0 < length oids → length (get_or oids 0 []) ≡ size
  first-length some_names = v.lengths 0 (get_or oids 0 []) (first_name oids some_names)

  -- In a sorted table of fewer than 2 ^ 31 names of one positive length, with the fan-out that
  -- `fastgit_pack_index_create` builds for it, `fastgit_pack_index_find` ends with a place of a name
  -- that is there.
  pub pack_index_find-found :
      (k : ℕ)
      → get_elem? oids k ≡ some key
      → (m : ℕ) × (pack_index_find (fanout_at oids) oids key ≡ ok m) × (get_elem? oids m ≡ some key)
  unfolding pack_index_find
  pack_index_find-found k at =
      let first = get_or key 0 0 in
      let (m, run, got) =
        search_loop-found (fanout_at oids first) (low (fanout_at oids) first) (fanout_at oids first)
          k (omega arith) (fanout_at-le oids first) at (low-le k at)
          (fanout_at-above size oids k key v at) in
      let inside = lt_of_get_elem? oids k key at in
      let not_empty : (length oids == 0) ≡ false = ground arith in
      let long : (length key == length (get_or oids 0 [])) ≡ true =
        ground (arith, v.lengths k key at, first-length (omega arith)) in
      (m, rw (not_empty, long) run, got)

  -- In a sorted table of fewer than 2 ^ 31 names of one positive length, with the fan-out that
  -- `fastgit_pack_index_create` builds for it, `fastgit_pack_index_find` answers FASTGIT_ENOENT for a
  -- name of any length that is not there.
  pub pack_index_find_missing :
      ((m : ℕ) → get_elem? oids m ≢ some key)
      → pack_index_find (fanout_at oids) oids key ≡ err enoent
  unfolding pack_index_find
  pack_index_find_missing absent = elim (Bool-cases (length oids == 0)) [
    | inl empty ↦ rw empty refl
    | inr full ↦ elim (Bool-cases (length key == length (get_or oids 0 []))) [
      | inl long ↦
          rw (full, long)
            (search_loop-missing (fanout_at oids (get_or key 0 0))
              (low (fanout_at oids) (get_or key 0 0)) (fanout_at oids (get_or key 0 0))
              (omega arith) (fanout_at-le oids (get_or key 0 0))
              (ground (arith, long, full, first-length)) absent)
      | inr short ↦ rw (full, short) refl
    ]
  ]
