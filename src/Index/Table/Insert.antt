-- ===== src/Index/Table/Insert.antt =====
-- Writing an entry into a slot of the table keeps the invariant, and `fg_ht_insert` finds one.
use fastgit.Common.{
  ℕ, zero, suc, ◌+◌, ◌-◌, ◌<◌, bit_and, ◌≡◌, ◌≢◌, refl, ap, ◌∙◌, sym, subst, arith, ◌⊎◌, inl, inr,
  false, List, [], ◌∷◌, ◌++◌, length, get_elem?, set, some, ok, get_or-set_self, get_or-set_ne,
  length-set, length-append, get_elem?-snoc,
}
use fastgit.Index.Entry.{Entry}
use fastgit.Index.Table.{Slot, empty, tomb, entry, hash_path_stage, home, next, insert_loop}
use fastgit.Index.Table.Slots.{
  at, is_entry, occupied-set_entry, free_slot, walk, masked-lt, walked-lt, walked_onto,
}
use fastgit.Index.Table.Find.{IsClear, Reaches, IsTable}
use native.Mathlib.Decide.{ℕ_discrete}

-- The loop of `fg_ht_insert` stops at the first slot without an entry.
record Placed (ht : List Slot) (i pos probes : ℕ) : Type 0 where
  steps : ℕ
  near : steps < probes
  clear : IsClear ht steps pos
  free : is_entry (at ht (walk (length ht) steps pos)) ≡ false
  result : insert_loop ht i probes pos ≡ ok (set ht (walk (length ht) steps pos) (entry i))

insert_here :
    (ht : List Slot) (i probes pos : ℕ)
    → is_entry (at ht pos) ≡ false
    → insert_loop ht i (suc probes) pos ≡ ok (set ht pos (entry i))
unfolding insert_loop
insert_here ht i probes pos free = ground arith

insert_on :
    (ht : List Slot) (i probes pos v : ℕ)
    → at ht pos ≡ entry v
    → insert_loop ht i (suc probes) pos ≡ insert_loop ht i probes (next ht pos)
unfolding insert_loop
insert_on ht i probes pos v e = ground arith

insert_loop-Placed :
    (ht : List Slot) (i k probes pos : ℕ)
    → k < probes
    → is_entry (at ht (walk (length ht) k pos)) ≡ false
    → Placed ht i pos probes
insert_loop-Placed ht i k zero pos h free = absurd (omega arith)
insert_loop-Placed ht i zero (suc probes) pos h free = record {
  steps = 0;
  near = omega arith;
  clear = tt;
  free = free;
  result = insert_here ht i probes pos free;
}
insert_loop-Placed ht i (suc k) (suc probes) pos h free =
    go (at ht pos) refl (insert_loop-Placed ht i k probes (next ht pos) (omega arith) free)
  where
    here : is_entry (at ht pos) ≡ false → Placed ht i pos (suc probes)
    here e = record {
      steps = 0;
      near = omega arith;
      clear = tt;
      free = e;
      result = insert_here ht i probes pos e;
    }

    go :
        (s : Slot) → at ht pos ≡ s → Placed ht i (next ht pos) probes → Placed ht i pos (suc probes)
    go empty e later = here (rw e)
    go tomb e later = here (rw e)
    go (entry v) e later = record {
      steps = suc later.steps;
      near = omega (arith, later.near);
      clear = (λ x. cc, later.clear);
      free = later.free;
      result = insert_on ht i probes pos v e ∙ later.result;
    }

module _ (ht : List Slot) (i p : ℕ) (inside : p < length ht)
    (free : is_entry (at ht p) ≡ false) where
  abbrev after : List Slot
  after = set ht p (entry i)

  at-after : (q : ℕ) → q ≢ p → at after q ≡ at ht q
  at-after q h = get_or-set_ne ht p q (entry i) empty (λ e. h (sym e))

  at-after_self : at after p ≡ entry i
  at-after_self = get_or-set_self ht p (entry i) empty inside

  -- What a slot held before it holds still, unless it is the one that is written.
  kept : (q v : ℕ) → at ht q ≡ entry v → at after q ≡ entry v
  kept q v e = at-after q (λ same. elsewhere q v e same) ∙ e
    where
      elsewhere : (q v : ℕ) → at ht q ≡ entry v → q ≡ p → ⊥
      elsewhere q v e same = ground (arith, free)

  written : (q v : ℕ) → at after q ≡ entry v → (at ht q ≡ entry v) ⊎ ((q ≡ p) × (v ≡ i))
  written q v e = elim (ℕ_discrete q p) [
    | yes same ↦ inr (same, named same)
    | no other ↦ inl (sym (at-after q other) ∙ e)
  ]
    where
      named : q ≡ p → v ≡ i
      named same = cc (at-after_self, ap (at after) same, e)

  IsClear-after : (k pos : ℕ) → IsClear ht k pos → IsClear after k pos
  IsClear-after zero pos c = tt
  IsClear-after (suc k) pos (full, c) =
      (not_empty, rw (length-set ht p (entry i)) (IsClear-after k (next ht pos) c))
    where
      not_empty : at after pos ≢ empty
      not_empty e = elim (ℕ_discrete pos p) [
        | yes same ↦ cc (at-after_self, ap (at after) same, e)
        | no other ↦ full (sym (at-after pos other) ∙ e)
      ]

  Reaches-after : (pos v : ℕ) → Reaches ht pos v → Reaches after pos v
  Reaches-after pos v (k, lt, clear, here) = (
    k,
    rw (length-set ht p (entry i)) lt,
    IsClear-after k pos clear,
    rw (length-set ht p (entry i)) (kept (walk (length ht) k pos) v here),
  )

-- A new entry, written into the first slot from its home that is free.
module _ (es : List Entry) (ht : List Slot) (e : Entry) (v : IsTable es ht) (k : ℕ)
    (near : k < length ht) (clear : IsClear ht k (home ht e.path e.stage))
    (inside : walk (length ht) k (home ht e.path e.stage) < length ht)
    (free : is_entry (at ht (walk (length ht) k (home ht e.path e.stage))) ≡ false) where
  abbrev slot : ℕ
  slot = walk (length ht) k (home ht e.path e.stage)

  abbrev grown : List Slot
  grown = set ht slot (entry (length es))

  length-grown : length grown ≡ length ht
  length-grown = length-set ht slot (entry (length es))

  home-grown : (f : Entry) → home grown f.path f.stage ≡ home ht f.path f.stage
  home-grown f = ap (λ n. bit_and (hash_path_stage f.path f.stage) (n - 1)) length-grown

  one_more : length (es ++ (e ∷ [])) ≡ length es + 1
  one_more = omega (arith, length-append es (e ∷ []))

  grown-reach :
      (i : ℕ) (f : Entry)
      → get_elem? (es ++ (e ∷ [])) i ≡ some f
      → Reaches grown (home grown f.path f.stage) i
  grown-reach i f g = elim (get_elem?-snoc es e i f g) [
    | inl old ↦
        subst (λ x. Reaches grown x i) (sym (home-grown f))
          (Reaches-after ht (length es) slot inside free (home ht f.path f.stage) i
            (v.reach i f old))
    | inr (last, same) ↦
        rw (last, same)
          (subst (λ x. Reaches grown x (length es)) (sym (home-grown e))
            (
              k,
              rw length-grown near,
              IsClear-after ht (length es) slot inside free k (home ht e.path e.stage) clear,
              subst (λ n. at grown (walk n k (home ht e.path e.stage)) ≡ entry (length es))
                  (sym length-grown) (at-after_self ht (length es) slot inside free),
            ))
  ]

  grown-once : (p q w : ℕ) → at grown p ≡ entry w → at grown q ≡ entry w → p ≡ q
  grown-once p q w a b = elim (written ht (length es) slot inside free p w a) [
    | inl old ↦ elim (written ht (length es) slot inside free q w b) [
      | inl old' ↦ v.once p q w old old'
      | inr (_, last) ↦ absurd (omega (arith, v.names p w old))
    ]
    | inr (here, last) ↦ elim (written ht (length es) slot inside free q w b) [
      | inl old' ↦ absurd (omega (arith, v.names q w old'))
      | inr (here', _) ↦ here ∙ sym here'
    ]
  ]

  grown-names : (p w : ℕ) → at grown p ≡ entry w → w < length (es ++ (e ∷ []))
  grown-names p w a = elim (written ht (length es) slot inside free p w a) [
    | inl old ↦ omega (arith, one_more, v.names p w old)
    | inr (_, last) ↦ omega (arith, one_more)
  ]

  pub grown-IsTable : IsTable (es ++ (e ∷ [])) grown
  grown-IsTable = record {
    power = (v.power.0, length-grown ∙ v.power.1);
    names = grown-names;
    reach = grown-reach;
    once = grown-once;
    load = omega (arith, one_more, v.load, occupied-set_entry ht slot (length es) inside free);
  }

-- A table to which nothing was removed.
abbrev pub NoTomb : List Slot → Type 0
NoTomb ht = (q : ℕ) → at ht q ≢ tomb

NoTomb-set : (ht : List Slot) (p i : ℕ) → NoTomb ht → NoTomb (set ht p (entry i))
NoTomb-set ht p i clean q e = go ht p q (clean q) e
  where
    go : (ht : List Slot) (p q : ℕ) → at ht q ≢ tomb → at (set ht p (entry i)) q ≢ tomb
    go [] p q h e = cc
    go (s ∷ ht) zero zero h e = cc
    go (s ∷ ht) zero (suc q) h e = h e
    go (s ∷ ht) (suc p) zero h e = h e
    go (s ∷ ht) (suc p) (suc q) h e = go ht p q h e

-- With a free slot the loop succeeds, keeps the number of slots, and the table holds one entry
-- more.
pub insert_loop-IsTable :
    (es : List Entry) (ht : List Slot) (e : Entry)
    → IsTable es ht
    → length es < length ht
    → (ht' : List Slot) × (insert_loop ht (length es) (length ht) (home ht e.path e.stage) ≡ ok ht')
      × IsTable (es ++ (e ∷ [])) ht'
      × (length ht' ≡ length ht)
      × (NoTomb ht → NoTomb ht')
insert_loop-IsTable es ht e v room =
    let (m, pow) = v.power in
    let (q, lt, free) = free_slot ht (omega (arith, v.load)) in
    let start = masked-lt (length ht) m pow (hash_path_stage e.path e.stage) in
    let (k, few, there) = walked_onto (length ht) m pow (home ht e.path e.stage) q start lt in
    let p =
      insert_loop-Placed ht (length es) k (length ht) (home ht e.path e.stage) few
        (rw there free) in
    let inside = walked-lt (length ht) m pow p.steps (home ht e.path e.stage) start in
    (
      set ht (walk (length ht) p.steps (home ht e.path e.stage)) (entry (length es)),
      p.result,
      grown-IsTable es ht e v p.steps p.near p.clear inside p.free,
      length-set ht (walk (length ht) p.steps (home ht e.path e.stage)) (entry (length es)),
      NoTomb-set ht (walk (length ht) p.steps (home ht e.path e.stage)) (length es),
    )
