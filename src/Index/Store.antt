-- ===== src/Index/Store.antt =====
-- src/index/index.c: the index in memory and its operations. What the file system holds and the
-- blob that `fastgit_odb_write` stores are outside; the name of a blob is a parameter.
pub mod View
pub mod Add
pub mod Order
use fastgit.Common.{
  ℕ, zero, suc, ◌+◌, ◌*◌, ◌%◌, ◌^◌, bit_and, Bool, true, false, not, ◌&&◌, List, [], ◌∷◌, ◌++◌,
  length, get_elem?, set, ltb, leb, ◌==◌, if◌then◌else◌, Option, none, some, Result, ok, err, fault,
  stuck, enoent, ◌>>=◌,
}
use fastgit.Index.Entry.{Oid, Entry, str_eq}
use fastgit.Index.Table.{Slot, home, insert_loop, ht_init, ht_rebuild, ht_find, ht_reserve}

pub record Index : Type 0 where
  pub entries : List Entry
  pub capacity : ℕ
  pub dirty : Bool
  pub sorted : Bool
  pub oid_algo : ℕ
  pub oid_len : ℕ
  pub ht : List Slot

-- `fastgit_index_new`; FASTGIT_HASH_SHA256 is 1.
unfoldable pub index_new : Index
index_new = record {
  entries = [];
  capacity = 1024;
  dirty = false;
  sorted = true;
  oid_algo = 1;
  oid_len = 32;
  ht = ht_init 1024;
}

-- The call `fg_ht_insert(…)` of a caller that does not look at its result: on an error the table
-- stays as the growth left it.
unfoldable pub ht_insert_unchecked : List Entry → List Slot → List ℕ → ℕ → ℕ → Result (List Slot)
ht_insert_unchecked entries ht path stage entry_idx = ht_reserve entries ht entry_idx >>= λ ht'.
    elim (insert_loop ht' entry_idx (length ht') (home ht' path stage)) [
      | ok ht'' ↦ ok ht''
      | err e ↦ ok ht'
      | fault ↦ fault
      | stuck ↦ stuck
    ]

-- `if (index->count >= index->capacity) { … realloc … }`
unfoldable pub grow : Index → Index
grow idx =
    if leb idx.capacity (length idx.entries)
    then record idx { capacity = if idx.capacity == 0 then 1024 else idx.capacity * 2 }
    else idx

-- `(uint16_t)(strlen(path) & 0xFFF)`
abbrev pub path_flags : List ℕ → ℕ
path_flags path = bit_and (length path) 0xFFF

-- The fields that are written when the path is in the index already.
abbrev pub replaced : Oid → ℕ → ℕ → List ℕ → Entry → Entry
replaced oid mode len path e = record e {
  oid = oid;
  mode = mode;
  size = len % 2 ^ 32;
  flags = path_flags path;
}

abbrev pub fresh : Oid → ℕ → ℕ → List ℕ → Entry
fresh oid mode len path = record {
  oid = oid;
  path = path;
  mode = mode;
  stage = 0;
  ctime_sec = 0;
  ctime_nsec = 0;
  mtime_sec = 0;
  mtime_nsec = 0;
  dev = 0;
  ino = 0;
  uid = 0;
  gid = 0;
  size = len % 2 ^ 32;
  flags = path_flags path;
  flags_extended = 0;
}

-- `index->entries[i]` is written; the index is dirty.
unfoldable pub replace_at : Index → ℕ → (Entry → Entry) → Result Index
replace_at idx i f = elim (get_elem? idx.entries i) [
  | none ↦ fault
  | some e ↦ ok (record idx { entries = set idx.entries i (f e); dirty = true })
]

-- The entry is written behind the others and put into the table.
unfoldable pub append_entry : Index → Entry → Result Index
append_entry idx e =
    ht_insert_unchecked idx.entries idx.ht e.path e.stage (length idx.entries) >>= λ ht'.
    ok (record idx { entries = idx.entries ++ (e ∷ []); dirty = true; sorted = false; ht = ht' })

module _ (blob_oid : List ℕ → Oid) where
  unfoldable pub add_from_buffer : Index → List ℕ → ℕ → List ℕ → Result Index
  add_from_buffer idx₀ path mode buffer =
      let idx = grow idx₀ in
      ht_find idx.entries idx.ht path 0 >>= λ found. elim found [
        | some i ↦ replace_at idx i (replaced (blob_oid buffer) mode (length buffer) path)
        | none ↦ append_entry idx (fresh (blob_oid buffer) mode (length buffer) path)
      ]

-- `*out = &index->entries[pos];`
unfoldable pub entry_result : Index → ℕ → Result (Index × Entry)
entry_result idx i = elim (get_elem? idx.entries i) [ none ↦ fault | some e ↦ ok (idx, e) ]

-- `fastgit_index_find`, with the sort of the C library as a parameter; the result is the index,
-- which a find may sort, and the entry.
module _ (qsort : List Entry → List Entry) where
  unfoldable pub index_find : Index → List ℕ → ℕ → Result (Index × Entry)
  index_find idx path stage = ht_find idx.entries idx.ht path stage >>= λ found. elim found [
    | some i ↦ entry_result idx i
    | none ↦
        if not idx.sorted && ltb 1 (length idx.entries)
        then (ht_rebuild (qsort idx.entries) >>= λ ht'.
            let idx' : Index = record idx {
              entries = qsort idx.entries;
              sorted = true;
              ht = ht';
            } in
            ht_find idx'.entries idx'.ht path stage >>= λ again. elim again [
              | none ↦ err enoent
              | some i ↦ entry_result idx' i
            ])
        else err enoent
  ]

-- `fastgit_index_clear`
unfoldable pub index_clear : Index → Result Index
index_clear idx =
    ht_rebuild [] >>= λ ht'. ok (record idx { entries = []; dirty = true; sorted = true; ht = ht' })

-- `fastgit_index_has_conflicts`
unfoldable pub has_conflicts : List Entry → Bool
has_conflicts [] = false
has_conflicts (e ∷ es) = if e.stage == 0 then has_conflicts es else true
