-- ===== src/Index/Disk/Hostile.antt =====
-- `fastgit_index_read` on bytes that nobody wrote.
use fastgit.Common.{
  ℕ, zero, suc, ◌+◌, ◌*◌, ◌^◌, ◌≤◌, ◌<◌, ◌≡◌, refl, arith, inl, inr, Bool-cases, true, false, List,
  [], ◌∷◌, ◌++◌, length, drop, ltb, ◌==◌, if◌then◌else◌, Result, ok, err, fault, stuck, ◌>>=◌,
  length-append, length-take, length-drop, All, All-append, take, ◌≢◌, ◌/◌, bit_and, Bool, not,
  ◌&&◌, ◌||◌, ◌%◌, leb, readable-ok,
}
use fastgit.Common.Bits.{bit_and-mask}
use fastgit.Index.Entry.{Entry}
use fastgit.Index.Table.Find.{IsTable}
use fastgit.Index.Table.Rebuild.{ht_rebuild-IsTable}
use fastgit.Index.Store.{Index}
use fastgit.Index.Disk.{
  read32, read16, read_fields, fixed_size, strnlen, with_oid_len, read_path, read_entry,
  read_entries, capacity_for, read_sum, make_room, read_body, index_read,
}
use fastgit.Index.Disk.RoundTrip.{le-capacity_for}

-- An error, or a result of which `P` holds.
abbrev pub Holds {ℓ} : {A : Type ℓ} → (A → Type 0) → Result A → Type 0
Holds P (ok a) = P a
Holds P (err code) = Unit {0}
Holds P fault = ⊥
Holds P stuck = ⊥

Holds->>= {ℓ κ} :
    {A : Type ℓ} {B : Type κ} (P : A → Type 0) (Q : B → Type 0) (r : Result A) (next : A → Result B)
    → Holds P r
    → ((a : A) → P a → Holds Q (next a))
    → Holds Q (r >>= next)
Holds->>= P Q (ok a) next h k = k a h
Holds->>= P Q (err code) next h k = tt
Holds->>= P Q fault next h k = absurd h
Holds->>= P Q stuck next h k = absurd h

-- An entry as a caller may rely on it: a C string for a path, a name of the index's length.
pub record IsRead (oid_len : ℕ) (e : Entry) : Type 0 where
  pub path : All (λ b. b ≢ 0) e.path
  pub hash : length e.oid.hash ≡ oid_len
  pub stage : e.stage < 4

strnlen-clean : (bytes : List ℕ) → All (λ b. b ≢ 0) (take (strnlen bytes) bytes)
unfolding strnlen
strnlen-clean [] = tt
strnlen-clean (b ∷ bytes) = elim (Bool-cases (b == 0)) [
  | inl zero_byte ↦ rw zero_byte tt
  | inr other ↦ rw other (ground arith, strnlen-clean bytes)
]

strnlen-le : (bytes : List ℕ) → strnlen bytes ≤ length bytes
unfolding strnlen
strnlen-le [] = omega arith
strnlen-le (b ∷ bytes) = ground (arith, strnlen-le bytes)

read_path-Holds :
    (oid_len flags : ℕ) (tail : List ℕ)
    → Holds (λ r. All (λ b. b ≢ 0) r.0) (read_path oid_len flags tail)
unfolding read_path
read_path-Holds oid_len flags tail = elim (Bool-cases (strnlen tail == length tail)) [
  | inl open_end ↦ rw open_end tt
  | inr closed ↦
      let inside = strnlen-le tail in
      let read = readable-ok (strnlen tail + 1) tail (ground (arith, inside)) in
      rw (closed, read) (strnlen-clean tail)
]

two_bits : (n : ℕ) → bit_and n 0x3 < 4
two_bits n = omega (arith, bit_and-mask 2 n)

read_entry-Holds :
    (algo oid_len : ℕ) (bytes : List ℕ)
    → fixed_size oid_len ≤ length bytes
    → Holds (λ r. IsRead oid_len r.0) (read_entry algo oid_len bytes)
unfolding read_entry read_fields
read_entry-Holds algo oid_len bytes long =
    let size = length-drop 40 bytes in
    let size' = length-drop oid_len (drop 40 bytes) in
    let head = readable-ok 40 bytes (omega arith) in
    let name = readable-ok oid_len (drop 40 bytes) (omega (arith, size)) in
    let two = readable-ok 2 (drop oid_len (drop 40 bytes)) (omega (arith, size, size')) in
    let body = drop 40 bytes in
    let back = drop oid_len body in
    rw (head, name, two)
      (Holds->>= (λ r. All (λ b. b ≢ 0) r.0) (λ r. IsRead oid_len r.0)
        (read_path oid_len (read16 back) (drop 2 back)) _
        (read_path-Holds oid_len (read16 back) (drop 2 back))
        (λ r clean. record {
          path = clean;
          hash = omega (arith, length-take oid_len body, length-drop 40 bytes);
          stage = two_bits (read16 back / 2 ^ 12);
        }))

read_entries-Holds :
    (count algo oid_len capacity : ℕ) (es : List Entry) (bytes : List ℕ)
    → length es + count ≤ capacity
    → All (IsRead oid_len) es
    → Holds
        (λ r. (length r.0 ≤ capacity) × All (IsRead oid_len) r.0)
        (read_entries count algo oid_len capacity es bytes)
unfolding read_entries
read_entries-Holds zero algo oid_len capacity es bytes room all = (omega arith, all)
read_entries-Holds (suc count) algo oid_len capacity es bytes room all =
    elim (Bool-cases (ltb (length bytes) (fixed_size oid_len))) [
      | inl short ↦ rw short (omega arith, all)
      | inr long ↦
          let fits : ltb (length es) capacity ≡ true = ground arith in
          rw (long, fits)
            (Holds->>= (λ r. IsRead oid_len r.0)
              (λ r. (length r.0 ≤ capacity) × All (IsRead oid_len) r.0)
              (read_entry algo oid_len bytes) _ (read_entry-Holds algo oid_len bytes (ground arith))
              (λ r read.
                read_entries-Holds count algo oid_len capacity (es ++ (r.0 ∷ [])) r.1
                  (omega (arith, length-append es (r.0 ∷ [])))
                  (All-append (IsRead oid_len) es (r.0 ∷ []) all (read, tt))))
    ]

-- What a read leaves: a table of the entries, room for them, and entries as a caller may rely on.
pub record IsLoaded (oid_len : ℕ) (idx : Index) : Type 0 where
  pub table : IsTable idx.entries idx.ht
  pub fits : length idx.entries ≤ idx.capacity
  pub entries : All (IsRead oid_len) idx.entries

make_room-Holds :
    (realloc : ℕ → Bool) (capacity count : ℕ)
    → Holds (λ _. Unit {0}) (make_room realloc capacity count)
unfolding make_room
make_room-Holds realloc capacity count =
    elim (Bool-cases (not (ltb 0 count && ltb capacity count) || realloc (count * 2 % 2 ^ 32))) [
      | inl given ↦ rw given tt
      | inr missing ↦ rw missing tt
    ]

read_sum-Holds : (old bytes : List ℕ) → Holds (λ _. Unit {0}) (read_sum old bytes)
unfolding read_sum
read_sum-Holds old bytes = elim (Bool-cases (leb 32 (length bytes))) [
  | inl long ↦ let inside = readable-ok 32 bytes (ground arith) in rw (long, inside) tt
  | inr short ↦ rw short tt
]

read_body-Holds :
    (realloc : ℕ → Bool) (idx : Index) (old : List ℕ) (count : ℕ) (bytes : List ℕ)
    → idx.entries ≡ []
    → 0 < idx.oid_len
    → idx.oid_len ≤ 64
    → count * 2 < 2 ^ 32
    → Holds (λ r. IsLoaded idx.oid_len r.0) (read_body realloc idx old count bytes)
unfolding read_body
read_body-Holds realloc idx old count bytes empty given short few =
    let known : with_oid_len idx ≡ idx =
      let some_len : (idx.oid_len == 0) ≡ false = ground arith in rw some_len refl in
    let chosen : (if count == 0 then idx else with_oid_len idx) ≡ idx =
      elim (Bool-cases (count == 0)) [
        | inl none_there ↦ rw none_there refl
        | inr some_there ↦ rw (some_there, known) refl
      ] in
    let known_len : ltb 64 idx.oid_len ≡ false = ground arith in
    let capacity = capacity_for idx.capacity count in
    let room : count ≤ capacity = le-capacity_for idx.capacity count few in
    Holds->>= (λ _. Unit {0}) (λ r. IsLoaded idx.oid_len r.0) (make_room realloc idx.capacity count)
      _ (make_room-Holds realloc idx.capacity count)
      (λ _ _.
        rw (chosen, known_len, empty)
          (Holds->>= (λ r. (length r.0 ≤ capacity) × All (IsRead idx.oid_len) r.0)
            (λ r. IsLoaded idx.oid_len r.0)
            (read_entries count idx.oid_algo idx.oid_len capacity [] bytes) _
            (read_entries-Holds count idx.oid_algo idx.oid_len capacity [] bytes
              (omega (arith, room)) tt)
            (λ r read.
              let (ht, run, table, _) = ht_rebuild-IsTable r.0 in
              Holds->>= (λ _. Unit {0}) (λ r. IsLoaded idx.oid_len r.0) (read_sum old r.1) _
                (read_sum-Holds old r.1)
                (λ _ _. rw run (record { table = table; fits = read.0; entries = read.1 })))))

-- `fastgit_index_read` of any bytes into an empty index of names of 1 to 64 bytes ends with an
-- error or a loaded index, if the header counts less than 2 ^ 31 entries: nothing is read behind
-- the end of the file, no entry is written behind the array, the table is in order, no path holds a 0, every name has the index's
-- length and every stage is below 4.
pub index_read-Holds :
    (realloc : ℕ → Bool) (idx : Index) (old bytes : List ℕ)
    → idx.entries ≡ []
    → 0 < idx.oid_len
    → idx.oid_len ≤ 64
    → read32 (drop 8 bytes) * 2 < 2 ^ 32
    → Holds (λ r. IsLoaded idx.oid_len r.0) (index_read realloc idx old bytes)
unfolding index_read
index_read-Holds realloc idx old bytes empty given short few =
    let body =
      read_body-Holds realloc idx old (read32 (drop 8 bytes)) (drop 12 bytes) empty given short
        few in
    elim (Bool-cases (ltb (length bytes) (12 + 32))) [
      | inl small ↦ rw small tt
      | inr large ↦
          let front = readable-ok 12 bytes (ground arith) in
          elim (Bool-cases (read32 bytes == 0x44495243)) [
            | inr other ↦ rw (large, front, other) tt
            | inl signature ↦ elim (Bool-cases (read32 (drop 4 bytes) == 2)) [
              | inr newer ↦ rw (large, front, signature, newer) tt
              | inl version ↦ rw (large, front, signature, version) body
            ]
          ]
    ]
