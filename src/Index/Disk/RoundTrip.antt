-- ===== src/Index/Disk/RoundTrip.antt =====
-- `fastgit_index_write_to` against `fastgit_index_read`.
use fastgit.Common.{
  ℕ, ◌+◌, ◌*◌, ◌%◌, ◌^◌, ◌≤◌, ◌<◌, ◌≡◌, refl, ap, ◌∙◌, arith, inl, inr, Bool-cases, true, false,
  List, [], ◌++◌, length, take, drop, All, ltb, leb, ◌==◌, if◌then◌else◌, ok, length-append, Bool,
  not, ◌&&◌, readable-ok,
}
use mathlib.Core.List.{Permᴰ}
use fastgit.Index.Entry.{Entry}
use fastgit.Index.Table.Rebuild.{ht_rebuild-IsTable}
use fastgit.Index.Table.Find.{IsTable}
use fastgit.Index.Store.{Index}
use fastgit.Index.Store.View.{view}
use fastgit.Index.Store.Add.{IsIndex}
use fastgit.Index.Disk.{
  read32, write_entries, write_header, entries_size, total_size, with_oid_len, write_body,
  index_write_to, capacity_for, read_sum, make_room, read_body, index_read,
}
use fastgit.Index.Disk.Words.{read32-be32}
use fastgit.Index.Disk.Loop.{read_entries-write_entries, length-write_entries}
use fastgit.Index.Disk.Sorting.{sort_entries-IsSorting}
use fastgit.Index.Disk.Stored.{IsStored}

pub with_oid_len-eq : (idx : Index) → 32 ≤ idx.oid_len → with_oid_len idx ≡ idx
with_oid_len-eq idx long = let given : (idx.oid_len == 0) ≡ false = ground arith in rw given refl

pub le-capacity_for :
    (capacity count : ℕ) → count * 2 < 2 ^ 32 → count ≤ capacity_for capacity count
le-capacity_for capacity count small = ground arith

pub make_room-ok :
    (realloc : ℕ → Bool) (capacity count : ℕ)
    → count * 2 < 2 ^ 32
    → realloc (count * 2) ≡ true
    → make_room realloc capacity count ≡ ok tt
unfolding make_room
make_room-ok realloc capacity count small have =
    let same : count * 2 % 2 ^ 32 ≡ count * 2 = omega arith in
    rw (same, have)
      (elim (Bool-cases (not (ltb 0 count && ltb capacity count))) [
        | inl kept ↦ rw kept refl
        | inr more ↦ rw more refl
      ])

read_sum-long : (old sum : List ℕ) → 32 ≤ length sum → read_sum old sum ≡ ok (take 32 sum)
unfolding read_sum
read_sum-long old sum long =
    let enough : leb 32 (length sum) ≡ true = ground arith in
    rw (enough, readable-ok 32 sum long) refl

-- The header, read again.
module _ (count : ℕ) (rest : List ℕ) where
  header_numbers :
      count < 2 ^ 32
      → (read32 (write_header count rest) ≡ 0x44495243)
        × (read32 (drop 4 (write_header count rest)) ≡ 2)
        × (read32 (drop 8 (write_header count rest)) ≡ count)
        × (drop 12 (write_header count rest) ≡ rest)
  unfolding write_header
  header_numbers small = (
    read32-be32 0x44495243 _ (omega arith),
    read32-be32 2 _ (omega arith),
    let same : count % 2 ^ 32 ≡ count = omega arith in
        read32-be32 (count % 2 ^ 32) rest (omega arith) ∙ same,
    refl,
  )

  length-write_header : length (write_header count rest) ≡ 12 + length rest
  unfolding write_header
  length-write_header = omega arith

write_header-append :
    (count : ℕ) (rest behind : List ℕ)
    → write_header count rest ++ behind ≡ write_header count (rest ++ behind)
unfolding write_header
write_header-append count rest behind = refl

module _ (algo oid_len : ℕ) where
  write_body-bytes :
      (digest : ℕ → List ℕ → List ℕ) (idx : Index)
      → idx.oid_algo ≡ algo
      → idx.oid_len ≡ oid_len
      → ((bytes : List ℕ) → length (digest algo bytes) ≡ oid_len)
      → All (IsStored algo oid_len) idx.entries
      → let front = write_header (length idx.entries) (write_entries oid_len idx.entries) in
        write_body digest idx ≡ ok (record idx { dirty = false }, front ++ digest algo front)
  unfolding write_body total_size
  write_body-bytes digest idx same_algo same_len size stored =
      let count = length idx.entries in
      let ws = write_entries oid_len idx.entries in
      let front = write_header count ws in
      let exact : (length front + length (digest algo front)
            == 12 + entries_size oid_len idx.entries + oid_len)
          ≡ true =
        ground (
          arith,
          length-write_header count ws,
          length-write_entries algo oid_len idx.entries stored,
          size front,
        ) in
      rw (same_algo, same_len, exact) refl

  -- What the reader makes of an index that is written whole.
  read_body-write_entries :
      (realloc : ℕ → Bool) (idx : Index) (es : List Entry) (old sum : List ℕ)
      → idx.oid_algo ≡ algo
      → idx.oid_len ≡ oid_len
      → idx.entries ≡ []
      → All (IsStored algo oid_len) es
      → 32 ≤ oid_len
      → oid_len ≤ 64
      → length sum ≡ oid_len
      → length es * 2 < 2 ^ 32
      → realloc (length es * 2) ≡ true
      → (idx' : Index) × (read_body realloc idx old (length es) (write_entries oid_len es ++ sum)
          ≡ ok (idx', take 32 sum))
        × (idx'.entries ≡ es)
        × IsTable idx'.entries idx'.ht
        × (length es ≤ idx'.capacity)
  unfolding read_body
  read_body-write_entries realloc idx es old sum same_algo same_len empty stored long short size few
        have =
      let count = length es in
      let capacity = capacity_for idx.capacity count in
      let (ht, run, table, room) = ht_rebuild-IsTable es in
      let known = with_oid_len-eq idx (rw same_len long) in
      let fits = le-capacity_for idx.capacity count few in
      let read =
        read_entries-write_entries algo oid_len capacity [] es sum stored (omega (arith, fits)) in
      let taken = read_sum-long old sum (omega arith) in
      let given = make_room-ok realloc idx.capacity count few have in
      let known_len : ltb 64 oid_len ≡ false = ground arith in
      let chosen : (if count == 0 then idx else with_oid_len idx) ≡ idx =
        elim (Bool-cases (count == 0)) [
          | inl none_there ↦ rw none_there refl
          | inr some_there ↦ rw (some_there, known) refl
        ] in
      (
        record idx { entries = es; capacity = capacity; sorted = true; ht = ht },
        rw (chosen, given, same_algo, same_len, known_len, empty, read, taken, run) refl,
        refl,
        table,
        fits,
      )

-- An index file that was written and read again: the two indices and the bytes between them.
pub record Reread (qsort : List Entry → List Entry) (digest : ℕ → List ℕ → List ℕ)
    (realloc : ℕ → Bool) (idx fresh : Index) (old : List ℕ) : Type 0 where
  written : Index
  front : List ℕ
  writes : index_write_to qsort digest idx ≡ ok (written, front ++ digest idx.oid_algo front)
  read : Index
  reads :
      index_read realloc fresh old (front ++ digest idx.oid_algo front)
      ≡ ok (read, take 32 (digest idx.oid_algo front))
  written_IsIndex : IsIndex written
  read_IsIndex : IsIndex read
  same_entries : read.entries ≡ written.entries
  same_view : (p : List ℕ) (s : ℕ) → view read.entries p s ≡ view idx.entries p s

pub index_read-header :
    (realloc : ℕ → Bool) (idx : Index) (old rest : List ℕ) (count : ℕ)
    → count < 2 ^ 32
    → 32 ≤ length rest
    → index_read realloc idx old (write_header count rest) ≡ read_body realloc idx old count rest
unfolding index_read
index_read-header realloc idx old rest count few long =
    let (signature, version, number, behind) = header_numbers count rest few in
    let enough : ltb (length (write_header count rest)) (12 + 32) ≡ false =
      ground (arith, length-write_header count rest) in
    let front =
      readable-ok 12 (write_header count rest) (omega (arith, length-write_header count rest)) in
    rw (enough, front, signature, version, number, behind) refl

-- A valid index of entries that the format can hold, with names of 32 to 64 bytes, is written, and
-- `fastgit_index_read` into an empty index of the same kind of names reads the file: both are valid
-- and have the same entries, those that the first had in memory. `qsort` permutes, the checksum is
-- as long as a name, and room for twice the entries can be had.
pub index_read-index_write_to :
    (qsort : List Entry → List Entry) (digest : ℕ → List ℕ → List ℕ) (realloc : ℕ → Bool)
    (idx fresh : Index) (old : List ℕ)
    → ((es : List Entry) → Permᴰ es (qsort es))
    → ((bytes : List ℕ) → length (digest idx.oid_algo bytes) ≡ idx.oid_len)
    → IsIndex idx
    → All (IsStored idx.oid_algo idx.oid_len) idx.entries
    → 32 ≤ idx.oid_len
    → idx.oid_len ≤ 64
    → length idx.entries * 2 < 2 ^ 32
    → fresh.entries ≡ []
    → fresh.oid_algo ≡ idx.oid_algo
    → fresh.oid_len ≡ idx.oid_len
    → realloc (length idx.entries * 2) ≡ true
    → Reread qsort digest realloc idx fresh old
unfolding index_write_to
index_read-index_write_to qsort digest realloc idx fresh old perm size v stored long short few
      none_yet algo len have =
    let (sorted, sort, s) = sort_entries-IsSorting qsort perm idx v stored in
    let es = sorted.entries in
    let n = length es in
    let ws = write_entries idx.oid_len es in
    let front = write_header n ws in
    let sum = digest idx.oid_algo front in
    let write =
      write_body-bytes idx.oid_algo idx.oid_len digest sorted s.algo s.oid_len size s.stored in
    let known = with_oid_len-eq sorted (rw s.oid_len long) in
    let few_es : n * 2 < 2 ^ 32 = omega (arith, s.size) in
    let (read, run, same, table, fits) =
      read_body-write_entries idx.oid_algo idx.oid_len realloc fresh es old sum algo len none_yet
        s.stored long short (size front) few_es (ap (λ (k : ℕ). realloc (k * 2)) s.size ∙ have) in
    let header =
      index_read-header realloc fresh old (ws ++ sum) n (omega arith)
        (omega (arith, length-append ws sum, size front)) in
    record {
      written = record sorted { dirty = false };
      front = front;
      writes = rw (sort, known, write) refl;
      read = read;
      reads = rw (write_header-append n ws sum, header) run;
      written_IsIndex = record {
        table = s.valid.table;
        distinct = s.valid.distinct;
        fits = s.valid.fits;
      };
      read_IsIndex = record {
        table = table;
        distinct = rw same s.valid.distinct;
        fits = omega (arith, fits, ap length same);
      };
      same_entries = same;
      same_view = λ p t. rw same (s.same p t);
    }
