-- ===== src/Index/Store/View.antt =====
-- What the index means: the entry under each path and stage.
use fastgit.Common.{
  ℕ, zero, suc, ◌≡◌, refl, ap, ◌∙◌, sym, subst, arith, inl, inr, true, false, List, [], ◌∷◌, ◌++◌,
  get_elem?, set, length-set, get_elem?-set, Option, none, some, if◌then◌else◌,
}
use fastgit.Index.Entry.{Entry, has_key, has_key→eq}
use fastgit.Index.Table.{Slot}
use fastgit.Index.Table.Find.{IsTable, IsDistinct, position, position-some}

-- The entry under a path and stage, by a linear search.
unfoldable pub view : List Entry → List ℕ → ℕ → Option Entry
view [] path stage = none
view (e ∷ es) path stage = if has_key e path stage then some e else view es path stage

pub view-position :
    (es : List Entry) (path : List ℕ) (stage i : ℕ) (e : Entry)
    → position es path stage ≡ some i
    → get_elem? es i ≡ some e
    → view es path stage ≡ some e
unfolding view position
view-position [] path stage i e h g = cc
view-position (f ∷ es) path stage zero e h g = ground arith
view-position (f ∷ es) path stage (suc i) e h g = ground (arith, view-position es path stage i e)

pub view-position-none :
    (es : List Entry) (path : List ℕ) (stage : ℕ)
    → position es path stage ≡ none
    → view es path stage ≡ none
unfolding view position
view-position-none [] path stage h = refl
view-position-none (f ∷ es) path stage h = ground (arith, view-position-none es path stage)

pub view-snoc :
    (es : List Entry) (e : Entry) (path : List ℕ) (stage : ℕ)
    → view es e.path e.stage ≡ none
    → view (es ++ (e ∷ [])) path stage
      ≡ (if has_key e path stage then some e else view es path stage)
unfolding view
view-snoc [] e path stage h = refl
view-snoc (f ∷ es) e path stage h =
    ground (arith, view-snoc es e path stage, has_key→eq e path stage)

-- `has_key` looks at the path and the stage alone.
has_key_congr :
    (e f : Entry) (path : List ℕ) (stage : ℕ)
    → e.path ≡ f.path
    → e.stage ≡ f.stage
    → has_key e path stage ≡ has_key f path stage
unfolding has_key
has_key_congr e f path stage p q = rw (p, q)

-- An entry without the key of another has none of the keys of the other.
other_key :
    (es : List Entry) (path₀ : List ℕ) (stage₀ i : ℕ) (e f : Entry) (path : List ℕ) (stage : ℕ)
    → position es path₀ stage₀ ≡ some i
    → get_elem? es i ≡ some e
    → has_key f path₀ stage₀ ≡ false
    → has_key e path stage ≡ true
    → has_key f path stage ≡ false
other_key es path₀ stage₀ i e f path stage h g no_key key =
    let (e₁, g₁, key₁) = position-some es path₀ stage₀ i h in
    let same : e₁ ≡ e = cc (g₁, g) in
    let (p, q) = has_key→eq e path₀ stage₀ (subst (λ x. has_key x path₀ stage₀ ≡ true) same key₁) in
    let (p', q') = has_key→eq e path stage key in rw (sym p' ∙ p, sym q' ∙ q) no_key

pub view-set :
    (es : List Entry) (path₀ : List ℕ) (stage₀ i : ℕ) (e e' : Entry) (path : List ℕ) (stage : ℕ)
    → position es path₀ stage₀ ≡ some i
    → get_elem? es i ≡ some e
    → e'.path ≡ e.path
    → e'.stage ≡ e.stage
    → view (set es i e') path stage ≡ (if has_key e path stage then some e' else view es path stage)
unfolding view position
view-set [] path₀ stage₀ i e e' path stage h g p q = cc
view-set (f ∷ es) path₀ stage₀ zero e e' path stage h g p q =
    ground (arith, has_key_congr e' e path stage)
view-set (f ∷ es) path₀ stage₀ (suc i) e e' path stage h g p q =
    ground (
      arith,
      view-set es path₀ stage₀ i e e' path stage,
      other_key es path₀ stage₀ i e f path stage,
    )

-- The same, by the key of the new entry.
pub view-set_new :
    (es : List Entry) (path₀ : List ℕ) (stage₀ i : ℕ) (e e' : Entry) (path : List ℕ) (stage : ℕ)
    → position es path₀ stage₀ ≡ some i
    → get_elem? es i ≡ some e
    → e'.path ≡ e.path
    → e'.stage ≡ e.stage
    → view (set es i e') path stage
      ≡ (if has_key e' path stage then some e' else view es path stage)
view-set_new es path₀ stage₀ i e e' path stage h g p q =
    rw (has_key_congr e' e path stage p q) (view-set es path₀ stage₀ i e e' path stage h g p q)

-- Writing an entry anew under the same key changes neither the table's invariant nor the keys.
module _ (es : List Entry) (i : ℕ) (e e' : Entry) (g : get_elem? es i ≡ some e)
    (p : e'.path ≡ e.path) (q : e'.stage ≡ e.stage) where
  set_key :
      (j : ℕ) (f : Entry)
      → get_elem? (set es i e') j ≡ some f
      → (f₀ : Entry) × (get_elem? es j ≡ some f₀) × (f.path ≡ f₀.path) × (f.stage ≡ f₀.stage)
  set_key j f h = elim (get_elem?-set es i j e' f h) [
    | inl old ↦ (f, old, refl, refl)
    | inr (here, new) ↦
        (e, rw (← here) g, ap (λ (x : Entry). x.path) new ∙ p, ap (λ (x : Entry). x.stage) new ∙ q)
  ]

  pub set-IsDistinct : IsDistinct es → IsDistinct (set es i e')
  set-IsDistinct d j k f f' h h' a b =
      let (x, gx, ax, bx) = set_key j f h in
      let (y, gy, ay, by) = set_key k f' h' in d j k x y gx gy (sym ax ∙ a ∙ ay) (sym bx ∙ b ∙ by)

  pub set-IsTable : (ht : List Slot) → IsTable es ht → IsTable (set es i e') ht
  set-IsTable ht v = record {
    power = v.power;
    names = λ r w h. omega (arith, v.names r w h, length-set es i e');
    reach = λ j f h. let (x, gx, ax, bx) = set_key j f h in rw (ax, bx) (v.reach j x gx);
    once = v.once;
    load = omega (arith, v.load, length-set es i e');
  }
