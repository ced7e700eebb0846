-- ===== src/Index/Disk/Overrun.antt =====
-- The doubling of the capacity in `fastgit_index_read`.
use fastgit.Common.{
  ℕ, zero, suc, ◌+◌, ◌*◌, ◌%◌, ◌^◌, ◌≤◌, ◌<◌, ◌≡◌, refl, ap, ◌∙◌, arith, Bool, Bool-cases, inl, inr,
  true, false, List, [], ◌∷◌, ◌++◌, length, length-append, All, ltb, ◌==◌, ok, fault,
}
use fastgit.Index.Entry.{Entry}
use fastgit.Index.Store.{Index}
use fastgit.Index.Disk.{
  fixed_size, write_entry, write_entries, write_header, read_entries, capacity_for, make_room,
  read_body, index_read,
}
use fastgit.Index.Disk.Stored.{IsStored, length-write_entry}
use fastgit.Index.Disk.Loop.{read_entries_step}
use fastgit.Index.Disk.RoundTrip.{with_oid_len-eq, index_read-header}

-- The entry for an array that is full is written behind it.
read_entries_full :
    (count algo oid_len : ℕ) (es : List Entry) (e : Entry) (rest : List ℕ)
    → IsStored algo oid_len e
    → read_entries (suc count) algo oid_len (length es) es (write_entry oid_len e rest) ≡ fault
unfolding read_entries
read_entries_full count algo oid_len es e rest v =
    let enough : ltb (length (write_entry oid_len e rest)) (fixed_size oid_len) ≡ false =
      ground (arith, length-write_entry algo oid_len e rest v) in
    let full : ltb (length es) (length es) ≡ false = ground arith in rw (enough, full) refl

-- More entries than an array has places for.
read_entries_overrun :
    (count algo oid_len capacity : ℕ) (es xs : List Entry)
    → All (IsStored algo oid_len) xs
    → length xs ≤ count
    → length es ≤ capacity
    → capacity < length es + length xs
    → read_entries count algo oid_len capacity es (write_entries oid_len xs) ≡ fault
unfolding write_entries
read_entries_overrun count algo oid_len capacity es [] all enough room many = absurd (omega arith)
read_entries_overrun zero algo oid_len capacity es (e ∷ xs) all enough room many =
    absurd (omega arith)
read_entries_overrun (suc count) algo oid_len capacity es (e ∷ xs) (v, all) enough room many =
    let rest = write_entries oid_len xs in
    elim (Bool-cases (ltb (length es) capacity)) [
      | inl fits ↦
          read_entries_step algo oid_len count capacity es e rest v (ground arith)
          ∙ read_entries_overrun count algo oid_len capacity (es ++ (e ∷ [])) xs all (omega arith)
              (ground (arith, length-append es (e ∷ []))) (omega (arith, length-append es (e ∷ [])))
      | inr full ↦
          let same : capacity ≡ length es = ground arith in
          ap (λ (n : ℕ). read_entries (suc count) algo oid_len n es (write_entry oid_len e rest))
            same
          ∙ read_entries_full count algo oid_len es e rest v
    ]

-- The capacity is doubled in 32 bits, and `realloc` is asked for that.
wrapped_room :
    (realloc : ℕ → Bool) (capacity k : ℕ)
    → capacity < 2 ^ 31
    → k < 2 ^ 31
    → realloc (k * 2) ≡ true
    → (make_room realloc capacity (2147483648 + k) ≡ ok tt)
      × (capacity_for capacity (2147483648 + k) ≡ k * 2)
unfolding make_room
wrapped_room realloc capacity k small few have =
    let some_there : ltb 0 (2147483648 + k) ≡ true = ground arith in
    let more : ltb capacity (2147483648 + k) ≡ true = ground arith in
    let same : (2147483648 + k) * 2 % 2 ^ 32 ≡ k * 2 = omega arith in
    (rw (some_there, more, same, have) refl, rw (some_there, more, same) refl)

read_body_overrun :
    (realloc : ℕ → Bool) (idx : Index) (old : List ℕ) (k : ℕ) (es : List Entry)
    → idx.entries ≡ []
    → idx.capacity < 2 ^ 31
    → 32 ≤ idx.oid_len
    → idx.oid_len ≤ 64
    → All (IsStored idx.oid_algo idx.oid_len) es
    → k < 2 ^ 31
    → realloc (k * 2) ≡ true
    → k * 2 < length es
    → length es ≤ 2147483648 + k
    → read_body realloc idx old (2147483648 + k) (write_entries idx.oid_len es) ≡ fault
unfolding read_body
read_body_overrun realloc idx old k es empty small long short all few have many enough =
    let (given, room) = wrapped_room realloc idx.capacity k small few have in
    let known_len : ltb 64 idx.oid_len ≡ false = ground arith in
    let known = with_oid_len-eq idx long in
    let some_there : (2147483648 + k == 0) ≡ false = ground arith in
    let run =
      read_entries_overrun (2147483648 + k) idx.oid_algo idx.oid_len (k * 2) [] es all enough
        (omega arith) (omega arith) in
    rw (some_there, known, given, known_len, room, empty, run) refl

-- A file whose header counts 2 ^ 31 + k entries, k below 2 ^ 31, with more than 2 * k good ones, is
-- read into an empty index that had room for fewer than 2 ^ 31: the capacity, doubled in 32 bits, is
-- 2 * k, and where `realloc` gives an array of that size an entry is written behind it.
pub index_read_wraps :
    (realloc : ℕ → Bool) (idx : Index) (old : List ℕ) (k : ℕ) (es : List Entry)
    → idx.entries ≡ []
    → idx.capacity < 2 ^ 31
    → 32 ≤ idx.oid_len
    → idx.oid_len ≤ 64
    → All (IsStored idx.oid_algo idx.oid_len) es
    → k < 2 ^ 31
    → realloc (k * 2) ≡ true
    → k * 2 < length es
    → length es ≤ 2147483648 + k
    → index_read realloc idx old (write_header (2147483648 + k) (write_entries idx.oid_len es))
      ≡ fault
unfolding write_entries
index_read_wraps realloc idx old k [] empty small long short all few have many enough =
    absurd (omega arith)
index_read_wraps realloc idx old k (e ∷ es) empty small long short (v, all) few have many enough =
    let bytes = write_entries idx.oid_len (e ∷ es) in
    let size : 32 ≤ length bytes =
      omega
        (arith, length-write_entry idx.oid_algo idx.oid_len e (write_entries idx.oid_len es) v) in
    index_read-header realloc idx old bytes (2147483648 + k) (omega arith) size
    ∙ read_body_overrun realloc idx old k (e ∷ es) empty small long short (v, all) few have many
        enough
