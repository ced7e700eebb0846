-- ===== src/Index/Store/Add.antt =====
-- `fastgit_index_add_from_buffer` and `fastgit_index_find` against the abstract view.
use fastgit.Common.{
  ℕ, ◌%◌, ◌^◌, ◌≤◌, ◌<◌, ◌≡◌, refl, ap, ◌∙◌, sym, arith, inl, inr, true, false, List, [], ◌∷◌, ◌++◌,
  length, get_elem?, set, length-set, length-append, get_elem?-snoc, none, some, Option-cases,
  Bool-cases, if◌then◌else◌, leb, ok, err, enoent, >>=-eq-ok,
}
use mathlib.Core.Bool.{false≢true}
use fastgit.Index.Entry.{Oid, Entry, has_key, has_key→eq, has_key_self}
use fastgit.Index.Table.{Slot, ht_reserve, ht_insert}
use fastgit.Index.Table.Find.{
  IsTable, IsDistinct, position, position-some, position-none, ht_find-position,
}
use fastgit.Index.Table.Rebuild.{ht_init-IsTable, ht_insert-IsTable, ht_rebuild-IsTable}
use fastgit.Index.Store.{
  Index, index_new, grow, replaced, fresh, replace_at, ht_insert_unchecked, append_entry,
  add_from_buffer, index_find, entry_result, index_clear,
}
use fastgit.Index.Store.View.{
  view, view-position, view-position-none, view-snoc, view-set_new, set-IsTable, set-IsDistinct,
}

-- The table is in order, no key stands twice, and the array has room for the entries.
pub record IsIndex (idx : Index) : Type 0 where
  pub table : IsTable idx.entries idx.ht
  pub distinct : IsDistinct idx.entries
  pub fits : length idx.entries ≤ idx.capacity

ht_insert_unchecked-ok :
    (es : List Entry) (ht ht' : List Slot) (path : List ℕ) (stage i : ℕ)
    → ht_insert es ht path stage i ≡ ok ht'
    → ht_insert_unchecked es ht path stage i ≡ ok ht'
unfolding ht_insert ht_insert_unchecked
ht_insert_unchecked-ok es ht ht' path stage i h =
    let (a, reserved, inserted) = >>=-eq-ok (ht_reserve es ht i) _ h in
    rw reserved (ground (arith, inserted))

-- A key that is nowhere is not that of an entry.
absent :
    (es : List Entry) (e f : Entry) (i : ℕ)
    → position es e.path e.stage ≡ none
    → get_elem? es i ≡ some f
    → f.path ≡ e.path
    → f.stage ≡ e.stage
    → ⊥
absent es e f i missing g p q =
    false≢true
      (sym (position-none es e.path e.stage i f missing g) ∙ rw (← p, ← q) (has_key_self f))

snoc-IsDistinct :
    (es : List Entry) (e : Entry)
    → IsDistinct es
    → position es e.path e.stage ≡ none
    → IsDistinct (es ++ (e ∷ []))
snoc-IsDistinct es e d missing i j f g hf hg p q = elim (get_elem?-snoc es e i f hf) [
  | inl old ↦ elim (get_elem?-snoc es e j g hg) [
    | inl old' ↦ d i j f g old old' p q
    | inr (_, last) ↦ absurd (
        absent es e f i missing old (p ∙ ap (λ (x : Entry). x.path) last)
          (q ∙ ap (λ (x : Entry). x.stage) last))
  ]
  | inr (here, first) ↦ elim (get_elem?-snoc es e j g hg) [
    | inl old' ↦ absurd (
        absent es e g j missing old' (sym p ∙ ap (λ (x : Entry). x.path) first)
          (sym q ∙ ap (λ (x : Entry). x.stage) first))
    | inr (here', _) ↦ here ∙ sym here'
  ]
]

-- What an addition returns: a valid index in which the path has an entry with the new name, mode
-- and size, and every other key has what it had.
pub record Added (idx : Index) (oid : Oid) (path : List ℕ) (mode len : ℕ) (idx' : Index)
    : Type 0 where
  pub valid : IsIndex idx'
  pub changed : idx'.dirty ≡ true
  pub entry : Entry
  pub named : (entry.oid ≡ oid) × (entry.mode ≡ mode) × (entry.size ≡ len % 2 ^ 32)
  pub keyed : (entry.path ≡ path) × (entry.stage ≡ 0)
  pub views :
      (p : List ℕ) (s : ℕ)
      → view idx'.entries p s ≡ (if has_key entry p s then some entry else view idx.entries p s)

append_entry-IsIndex :
    (idx : Index) (e : Entry)
    → IsIndex idx
    → length idx.entries < idx.capacity
    → position idx.entries e.path e.stage ≡ none
    → (idx' : Index) × (append_entry idx e ≡ ok idx')
      × IsIndex idx'
      × (idx'.entries ≡ idx.entries ++ (e ∷ []))
      × (idx'.dirty ≡ true)
unfolding append_entry
append_entry-IsIndex idx e v room missing =
    let (ht', run, table) = ht_insert-IsTable idx.entries idx.ht e v.table in
    (
      record idx { entries = idx.entries ++ (e ∷ []); dirty = true; sorted = false; ht = ht' },
      rw (ht_insert_unchecked-ok idx.entries idx.ht ht' e.path e.stage (length idx.entries) run),
      record {
        table = table;
        distinct = snoc-IsDistinct idx.entries e v.distinct missing;
        fits = omega (arith, length-append idx.entries (e ∷ []));
      },
      refl,
      refl,
    )

grow-entries : (idx : Index) → (grow idx).entries ≡ idx.entries
unfolding grow
grow-entries idx = ground arith

from_grown :
    (idx : Index) (oid : Oid) (path : List ℕ) (mode len : ℕ) (idx' : Index)
    → Added (grow idx) oid path mode len idx'
    → Added idx oid path mode len idx'
from_grown idx oid path mode len idx' a = record {
  valid = a.valid;
  changed = a.changed;
  entry = a.entry;
  named = a.named;
  keyed = a.keyed;
  views = λ p s. rw (← grow-entries idx) (a.views p s);
}

replace_at_lem :
    (idx : Index) (i : ℕ) (f : Entry → Entry) (e : Entry)
    → get_elem? idx.entries i ≡ some e
    → replace_at idx i f ≡ ok (record idx { entries = set idx.entries i (f e); dirty = true })
unfolding replace_at
replace_at_lem idx i f e g = rw (g, replace_at)

-- The two ways through the body, behind the growth.
replace_at-Added :
    (idx : Index) (oid : Oid) (path : List ℕ) (mode len i : ℕ)
    → IsIndex idx
    → position idx.entries path 0 ≡ some i
    → (idx' : Index) × (replace_at idx i (replaced oid mode len path) ≡ ok idx')
      × Added idx oid path mode len idx'
replace_at-Added idx oid path mode len i v at_i =
    let (e, got, key) = position-some idx.entries path 0 i at_i in
    let e' = replaced oid mode len path e in
    (
      record idx { entries = set idx.entries i e'; dirty = true },
      replace_at_lem idx i (replaced oid mode len path) e got,
      record {
        valid = record {
          table = set-IsTable idx.entries i e e' got refl refl idx.ht v.table;
          distinct = set-IsDistinct idx.entries i e e' got refl refl v.distinct;
          fits = rw (length-set idx.entries i e') v.fits;
        };
        changed = refl;
        entry = e';
        named = (refl, refl, refl);
        keyed = has_key→eq e path 0 key;
        views = λ p s. view-set_new idx.entries path 0 i e e' p s at_i got refl refl;
      },
    )

append_entry-Added :
    (idx : Index) (oid : Oid) (path : List ℕ) (mode len : ℕ)
    → IsIndex idx
    → length idx.entries < idx.capacity
    → position idx.entries path 0 ≡ none
    → (idx' : Index) × (append_entry idx (fresh oid mode len path) ≡ ok idx')
      × Added idx oid path mode len idx'
append_entry-Added idx oid path mode len v room missing =
    let e = fresh oid mode len path in
    let (idx', run, valid, entries, dirty) = append_entry-IsIndex idx e v room missing in
    (
      idx',
      run,
      record {
        valid = valid;
        changed = dirty;
        entry = e;
        named = (refl, refl, refl);
        keyed = (refl, refl);
        views = λ p s.
            ap (λ es. view es p s) entries
            ∙ view-snoc idx.entries e p s (view-position-none idx.entries path 0 missing);
      },
    )

grow-IsIndex :
    (idx : Index)
    → IsIndex idx
    → IsIndex (grow idx) × (length (grow idx).entries < (grow idx).capacity)
unfolding grow
grow-IsIndex idx v = elim (Bool-cases (leb idx.capacity (length idx.entries))) [
  | inl full ↦
      rw full (record { table = v.table; distinct = v.distinct; fits = ground arith }, ground arith)
  | inr room ↦ rw room (v, ground arith)
]

module _ (blob_oid : List ℕ → Oid) where
  -- `fastgit_index_add_from_buffer` on a valid index ends normally with a valid, dirty index: the
  -- path has, at stage 0, an entry with the name of the blob, the mode and the size modulo 2 ^ 32;
  -- the entry under every other path and stage is what it was.
  pub add_from_buffer-Added :
      (idx : Index) (path : List ℕ) (mode : ℕ) (buffer : List ℕ)
      → IsIndex idx
      → (idx' : Index) × (add_from_buffer blob_oid idx path mode buffer ≡ ok idx')
        × Added idx (blob_oid buffer) path mode (length buffer) idx'
  unfolding add_from_buffer
  add_from_buffer-Added idx path mode buffer v =
      let idx₁ = grow idx in
      let (v₁, room) = grow-IsIndex idx v in
      let find = ht_find-position idx₁.entries idx₁.ht path 0 v₁.table v₁.distinct in
      elim (Option-cases (position idx₁.entries path 0)) [
        | inl missing ↦
            let (idx', run, a) =
              append_entry-Added idx₁ (blob_oid buffer) path mode (length buffer) v₁ room missing in
            (
              idx',
              rw (find, missing) run,
              from_grown idx (blob_oid buffer) path mode (length buffer) idx' a,
            )
        | inr (i, at_i) ↦
            let (idx', run, a) =
              replace_at-Added idx₁ (blob_oid buffer) path mode (length buffer) i v₁ at_i in
            (
              idx',
              rw (find, at_i) run,
              from_grown idx (blob_oid buffer) path mode (length buffer) idx' a,
            )
      ]

-- A fresh index is valid and has no entry.
pub index_new-IsIndex :
    IsIndex index_new × ((p : List ℕ) (s : ℕ) → view index_new.entries p s ≡ none)
unfolding index_new view
index_new-IsIndex = (
  record { table = (ht_init-IsTable 1024).0; distinct = λ i j e f g h p q. cc; fits = omega arith },
  λ p s. refl,
)

-- `fastgit_index_clear` ends with a valid index that has no entry.
pub index_clear-IsIndex :
    (idx : Index)
    → (idx' : Index) × (index_clear idx ≡ ok idx')
      × IsIndex idx'
      × ((p : List ℕ) (s : ℕ) → view idx'.entries p s ≡ none)
unfolding index_clear view
index_clear-IsIndex idx =
    let (ht', run, table, room) = ht_rebuild-IsTable [] in
    (
      record idx { entries = []; dirty = true; sorted = true; ht = ht' },
      rw run,
      record { table = table; distinct = λ i j e f g h p q. cc; fits = omega arith },
      λ p s. refl,
    )

-- `fastgit_index_find` on a valid index returns the entry that the abstract view has under the
-- path and stage, and changes nothing.
pub index_find-view :
    (qsort : List Entry → List Entry) (idx : Index) (path : List ℕ) (stage : ℕ) (e : Entry)
    → IsIndex idx
    → view idx.entries path stage ≡ some e
    → index_find qsort idx path stage ≡ ok (idx, e)
unfolding index_find entry_result
index_find-view qsort idx path stage e v seen =
    let find = ht_find-position idx.entries idx.ht path stage v.table v.distinct in
    elim (Option-cases (position idx.entries path stage)) [
      | inl missing ↦ cc (view-position-none idx.entries path stage missing, seen)
      | inr (i, at_i) ↦
          let (f, got, key) = position-some idx.entries path stage i at_i in
          let there = view-position idx.entries path stage i f at_i got in
          let same : f ≡ e = cc (there, seen) in
          rw (find, at_i) (rw (got, entry_result) (ap (λ x. ok (idx, x)) same))
    ]

-- `fastgit_index_find` on a valid sorted index answers FASTGIT_ENOENT where the abstract view has
-- no entry under the path and stage.
pub index_find_missing :
    (qsort : List Entry → List Entry) (idx : Index) (path : List ℕ) (stage : ℕ)
    → IsIndex idx
    → idx.sorted ≡ true
    → view idx.entries path stage ≡ none
    → index_find qsort idx path stage ≡ err enoent
unfolding index_find entry_result
index_find_missing qsort idx path stage v sorted unseen =
    let find = ht_find-position idx.entries idx.ht path stage v.table v.distinct in
    elim (Option-cases (position idx.entries path stage)) [
      | inl missing ↦ rw (find, missing, sorted)
      | inr (i, at_i) ↦
          let (f, got, key) = position-some idx.entries path stage i at_i in
          let there = view-position idx.entries path stage i f at_i got in cc (there, unseen)
    ]
