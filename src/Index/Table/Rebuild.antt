-- ===== src/Index/Table/Rebuild.antt =====
-- `fg_ht_rebuild` and the growth in `fg_ht_insert` keep the invariant.
use fastgit.Common.{
  ℕ, zero, suc, ◌+◌, ◌*◌, ◌≤◌, ◌<◌, ◌≡◌, refl, ◌∙◌, arith, inl, inr, false, List, [], ◌∷◌, ◌++◌,
  append_assoc, append-nil, length, none, ok, Bool-cases, ltb, le→ltb, ◌==◌, length-append,
}
use fastgit.Index.Entry.{Entry}
use fastgit.Index.Table.{
  Slot, home, next, insert_loop, place_loop, place_all, ht_init, ht_rebuild, ht_reserve, ht_insert,
}
use fastgit.Index.Table.{round_up}
use fastgit.Index.Table.Slots.{occupied-replicate, at-replicate, ht_init-pow, le-length-ht_init}
use fastgit.Index.Table.Find.{IsTable}
use fastgit.Index.Table.Insert.{insert_loop-IsTable, NoTomb}

-- Without tombstones the loop of the rebuild is the loop of the insertion.
place-insert :
    (ht : List Slot) (i n pos : ℕ) (r : List Slot)
    → NoTomb ht
    → insert_loop ht i n pos ≡ ok r
    → place_loop ht i n pos ≡ ok r
unfolding insert_loop place_loop
place-insert ht i zero pos r clean e = cc
place-insert ht i (suc n) pos r clean e =
    ground (arith, clean pos, place-insert ht i n (next ht pos) r clean)

place_all_step :
    (ht ht' : List Slot) (i : ℕ) (e : Entry) (es : List Entry)
    → place_loop ht i (length ht) (home ht e.path e.stage) ≡ ok ht'
    → place_all none ht i (e ∷ es) ≡ place_all none ht' (i + 1) es
unfolding place_all
place_all_step ht ht' i e es h = rw h

record Built (pre es : List Entry) (ht : List Slot) : Type 0 where
  table : List Slot
  result : place_all none ht (length pre) es ≡ ok table
  holds : IsTable (pre ++ es) table
  size : length table ≡ length ht

next_index : (pre : List Entry) (e : Entry) → length (pre ++ (e ∷ [])) ≡ length pre + 1
next_index pre e = omega (arith, length-append pre (e ∷ []))

place_all-Built :
    (pre es : List Entry) (ht : List Slot)
    → IsTable pre ht
    → NoTomb ht
    → length pre + length es < length ht
    → Built pre es ht
place_all-Built pre [] ht v clean room = record {
  table = ht;
  result = unfold place_all in refl;
  holds = rw append-nil v;
  size = refl;
}
place_all-Built pre (e ∷ es) ht v clean room =
    let (ht', run, v', size, clean') = insert_loop-IsTable pre ht e v (omega arith) in
    let rest =
      place_all-Built (pre ++ (e ∷ [])) es ht' v' (clean' clean)
        (omega (arith, length-append pre (e ∷ []))) in
    let placed = place-insert ht (length pre) (length ht) (home ht e.path e.stage) ht' clean run in
    record {
      table = rest.table;
      result =
          place_all_step ht ht' (length pre) e es placed ∙ rw (next_index pre e) at rest.result;
      holds = rw (append_assoc pre (e ∷ []) es) at rest.holds;
      size = rest.size ∙ size;
    }

pub ht_init-IsTable : (cap : ℕ) → IsTable [] (ht_init cap) × NoTomb (ht_init cap)
unfolding ht_init
ht_init-IsTable cap = (
  record {
    power = ht_init-pow cap;
    names = λ p v e. cc (at-replicate (round_up cap 1024 cap) p, e);
    reach = λ i e h. cc;
    once = λ p q v e. cc (at-replicate (round_up cap 1024 cap) p, e);
    load = omega (arith, occupied-replicate (round_up cap 1024 cap));
  },
  λ p e. cc (at-replicate (round_up cap 1024 cap) p, e),
)

-- `fg_ht_rebuild` ends, with a table of the entries that has room for as many again.
pub ht_rebuild-IsTable :
    (es : List Entry)
    → (ht : List Slot) × (ht_rebuild es ≡ ok ht) × IsTable es ht × (length es * 2 + 64 ≤ length ht)
unfolding ht_rebuild
ht_rebuild-IsTable [] =
    (ht_init 1024, refl, (ht_init-IsTable 1024).0, omega (arith, le-length-ht_init 1024))
ht_rebuild-IsTable (e ∷ es) =
    let cap = length (e ∷ es) * 2 + 64 in
    let room = le-length-ht_init cap in
    let (v, clean) = ht_init-IsTable cap in
    let b = place_all-Built [] (e ∷ es) (ht_init cap) v clean (omega (arith, room)) in
    (b.table, rw (not_zero es) b.result, b.holds, omega (arith, room, b.size))
  where
    not_zero : (es : List Entry) → (suc (length es) == 0) ≡ false
    not_zero es = ground arith

-- The head of `fg_ht_insert` leaves room.
ht_reserve-IsTable :
    (es : List Entry) (ht : List Slot) (i : ℕ)
    → IsTable es ht
    → (ht' : List Slot) × (ht_reserve es ht i ≡ ok ht')
      × IsTable es ht'
      × (length es * 2 + 64 ≤ length ht')
unfolding ht_reserve
ht_reserve-IsTable es ht i v = elim (Bool-cases (ltb (length ht) (length es * 2 + 64))) [
  | inr fits ↦ (ht, rw fits, v, ground arith)
  | inl full ↦
      let (ht', run, v', room) = ht_rebuild-IsTable es in
      (ht', rw (full, run, le→ltb (length ht') (length es * 2 + 64) room), v', room)
]

-- On a table that satisfies the invariant, `fg_ht_insert` of an entry that is written behind the
-- others ends with a table of all of them that satisfies it.
pub ht_insert-IsTable :
    (es : List Entry) (ht : List Slot) (e : Entry)
    → IsTable es ht
    → (ht' : List Slot) × (ht_insert es ht e.path e.stage (length es) ≡ ok ht')
      × IsTable (es ++ (e ∷ [])) ht'
unfolding ht_insert
ht_insert-IsTable es ht e v =
    let (ht₁, run₁, v₁, room) = ht_reserve-IsTable es ht (length es) v in
    let (ht₂, run₂, v₂, _, _) = insert_loop-IsTable es ht₁ e v₁ (omega (arith, room)) in
    (ht₂, rw (run₁, run₂), v₂)
