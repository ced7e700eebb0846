-- ===== src/Index/Disk.antt =====
-- src/index/index.c: `fastgit_index_write_to` and `fastgit_index_read`, on a little-endian machine.
-- The file is the list of its bytes: the calls that open, map, lock and rename it succeed. `qsort`
-- is the C library's, `digest` is `fastgit_hash`. What an error leaves of the index is not modelled.
pub mod Words
pub mod Stored
pub mod Loop
pub mod RoundTrip
pub mod Hostile
pub mod Sorting
pub mod Overrun
use fastgit.Common.{
  ℕ, zero, suc, ◌+◌, ◌-◌, ◌*◌, ◌/◌, ◌%◌, ◌^◌, bit_and, bit_or, Bool, true, false, not, ◌&&◌, List,
  [], ◌∷◌, ◌++◌, length, take, drop, replicate, get_or, ltb, leb, ◌==◌, if◌then◌else◌, Result, ok,
  err, fault, error, enomem, eunsupported, ◌>>=◌, ◌>>◌, guard, readable, ◌||◌,
}
use fastgit.Index.Entry.{Oid, Entry}
use fastgit.Index.Table.{ht_rebuild}
use fastgit.Index.Store.{Index, path_flags}

-- FASTGIT_BSWAP32, `__builtin_bswap16` and `memcpy`: the bytes, the highest first.
abbrev pub be32 : ℕ → List ℕ
be32 v = v / 2 ^ 24 % 2 ^ 8 ∷ v / 2 ^ 16 % 2 ^ 8 ∷ v / 2 ^ 8 % 2 ^ 8 ∷ v % 2 ^ 8 ∷ []

abbrev pub be16 : ℕ → List ℕ
be16 v = v / 2 ^ 8 % 2 ^ 8 ∷ v % 2 ^ 8 ∷ []

-- The numbers at the front of the bytes.
unfoldable pub read32 : List ℕ → ℕ
read32 bytes =
    get_or bytes 0 0 * 2 ^ 24
    + get_or bytes 1 0 * 2 ^ 16
    + get_or bytes 2 0 * 2 ^ 8
    + get_or bytes 3 0

unfoldable pub read16 : List ℕ → ℕ
read16 bytes = get_or bytes 0 0 * 2 ^ 8 + get_or bytes 1 0

-- `size_t fixed_sz = 40 + index->oid_len + 2;`
abbrev pub fixed_size : ℕ → ℕ
fixed_size oid_len = 40 + oid_len + 2

-- `(8 - (entry_len % 8)) % 8`
abbrev pub pad_of : ℕ → ℕ
pad_of entry_len = (8 - entry_len % 8) % 8

-- The name, cut or filled up with zeros to `oid_len` bytes.
unfoldable pub disk_oid : ℕ → List ℕ → List ℕ
disk_oid oid_len hash = take oid_len hash ++ replicate (oid_len - length hash) 0

-- The flags of an entry, made anew where they are 0.
unfoldable pub disk_flags : Entry → ℕ
disk_flags e =
    if e.flags == 0 then bit_or (path_flags e.path) (e.stage * 2 ^ 12 % 2 ^ 16) else e.flags

-- The ten numbers in front of the name.
unfoldable pub write_fields : Entry → List ℕ → List ℕ
write_fields e rest =
    be32 e.ctime_sec
    ++ (be32 e.ctime_nsec
        ++ (be32 e.mtime_sec
            ++ (be32 e.mtime_nsec
                ++ (be32 e.dev
                    ++ (be32 e.ino
                        ++ (be32 e.mode
                            ++ (be32 e.uid ++ (be32 e.gid ++ (be32 e.size ++ rest)))))))))

-- One round of the loop over the entries.
unfoldable pub write_entry : ℕ → Entry → List ℕ → List ℕ
write_entry oid_len e rest = write_fields e (
    disk_oid oid_len e.oid.hash
    ++ (be16 (disk_flags e)
        ++ (e.path
            ++ (0 ∷ (replicate (pad_of (fixed_size oid_len + length e.path + 1)) 0 ++ rest)))))

unfoldable pub write_entries : ℕ → List Entry → List ℕ
write_entries oid_len [] = []
write_entries oid_len (e ∷ es) = write_entry oid_len e (write_entries oid_len es)

-- The header: FASTGIT_INDEX_SIGNATURE, FASTGIT_INDEX_VERSION, the count.
unfoldable pub write_header : ℕ → List ℕ → List ℕ
write_header count rest = be32 0x44495243 ++ (be32 2 ++ (be32 (count % 2 ^ 32) ++ rest))

-- `total_size`
unfoldable pub entries_size : ℕ → List Entry → ℕ
entries_size oid_len [] = 0
entries_size oid_len (e ∷ es) =
    let entry_len = fixed_size oid_len + length e.path + 1 in
    entry_len + pad_of entry_len + entries_size oid_len es

unfoldable pub total_size : ℕ → List Entry → ℕ
total_size oid_len es = 12 + entries_size oid_len es + oid_len

-- `if (index->oid_len == 0) { … }`
abbrev pub with_oid_len : Index → Index
with_oid_len idx = if idx.oid_len == 0 then record idx { oid_len = 32; oid_algo = 1 } else idx

-- The sort at the head of `fastgit_index_write_to`.
unfoldable pub sort_entries : (List Entry → List Entry) → Index → Result Index
sort_entries qsort idx =
    if not idx.sorted && ltb 1 (length idx.entries)
    then (ht_rebuild (qsort idx.entries) >>= λ ht.
        ok (record idx { entries = qsort idx.entries; sorted = true; ht = ht }))
    else ok (record idx { sorted = true })

-- The checksum is written behind the entries; one of another length would leave the buffer, or
-- leave a part of it undefined.
unfoldable pub write_body : (ℕ → List ℕ → List ℕ) → Index → Result (Index × List ℕ)
write_body digest idx =
    let bytes = write_header (length idx.entries) (write_entries idx.oid_len idx.entries) in
    let sum = digest idx.oid_algo bytes in
    if length bytes + length sum == total_size idx.oid_len idx.entries
    then ok (record idx { dirty = false }, bytes ++ sum)
    else fault

unfoldable pub index_write_to :
    (List Entry → List Entry) → (ℕ → List ℕ → List ℕ) → Index → Result (Index × List ℕ)
index_write_to qsort digest idx =
    sort_entries qsort idx >>= λ sorted. write_body digest (with_oid_len sorted)

-- `strnlen`
unfoldable pub strnlen : List ℕ → ℕ
strnlen [] = 0
strnlen (b ∷ bs) = let more = suc (strnlen bs) in if b == 0 then 0 else more

-- The fields of `index_entry_from_disk`, and what the caller fills in; `back` are the bytes behind
-- the name.
unfoldable pub read_fields : List ℕ → List ℕ → ℕ → ℕ → List ℕ → Entry
read_fields bytes hash algo flags path = record {
  oid = record { hash = hash; algo = algo };
  path = path;
  mode = read32 (drop 24 bytes);
  stage = bit_and (flags / 2 ^ 12) 0x3;
  ctime_sec = read32 bytes;
  ctime_nsec = read32 (drop 4 bytes);
  mtime_sec = read32 (drop 8 bytes);
  mtime_nsec = read32 (drop 12 bytes);
  dev = read32 (drop 16 bytes);
  ino = read32 (drop 20 bytes);
  uid = read32 (drop 28 bytes);
  gid = read32 (drop 32 bytes);
  size = read32 (drop 36 bytes);
  flags = flags;
  flags_extended = 0;
}

-- `actual`: where the length in the flags is full the bytes are counted again.
abbrev pub path_length : ℕ → List ℕ → ℕ
path_length flags tail = if bit_and flags 0x0FFF == 0x0FFF then strnlen tail else strnlen tail

-- The path and the padding behind `fixed_sz` bytes: the path, and the bytes behind. `strdup` reads
-- the 0 as well.
unfoldable pub read_path : ℕ → ℕ → List ℕ → Result (List ℕ × List ℕ)
read_path oid_len flags tail =
    let actual = path_length flags tail in
    if strnlen tail == length tail
    then err error
    else (readable (strnlen tail + 1) tail
        >> ok (
          take (strnlen tail) tail,
          drop (actual + 1 + pad_of (fixed_size oid_len + actual + 1)) tail,
        ))

-- One round of the loop, behind the test of the size. `memcpy` behind the end of the file is out of
-- bounds.
unfoldable pub read_entry : ℕ → ℕ → List ℕ → Result (Entry × List ℕ)
read_entry algo oid_len bytes =
    let body = drop 40 bytes in
    let back = drop oid_len body in
    readable 40 bytes
    >> (readable oid_len body
        >> (readable 2 back
            >> (read_path oid_len (read16 back) (drop 2 back) >>= λ r.
                ok (read_fields bytes (take oid_len body) algo (read16 back) r.0, r.1))))

-- The loop over `header.count` entries; an entry behind `capacity` others is written behind the
-- array, before its path is looked at.
unfoldable pub read_entries : ℕ → ℕ → ℕ → ℕ → List Entry → List ℕ → Result (List Entry × List ℕ)
read_entries zero algo oid_len capacity es bytes = ok (es, bytes)
read_entries (suc count) algo oid_len capacity es bytes =
    let next = read_entry algo oid_len bytes >>= λ r.
    read_entries count algo oid_len capacity (es ++ (r.0 ∷ [])) r.1 in
    if ltb (length bytes) (fixed_size oid_len)
    then ok (es, bytes)
    else if ltb (length es) capacity
    then next
    else fault

-- `index->capacity`, where there are entries to read: a `uint32_t` is doubled.
abbrev pub capacity_for : ℕ → ℕ → ℕ
capacity_for capacity count =
    if ltb 0 count && ltb capacity count then count * 2 % 2 ^ 32 else capacity

-- `if (ptr + 32 <= end) …`: the checksum, which stays as it was where the file is too short.
unfoldable pub read_sum : List ℕ → List ℕ → Result (List ℕ)
read_sum sum bytes =
    if leb 32 (length bytes) then (readable 32 bytes >> ok (take 32 bytes)) else ok sum

-- `if (index->capacity < header.count) …`: what is asked of `realloc`, which 0 elements may not give.
unfoldable pub make_room : (ℕ → Bool) → ℕ → ℕ → Result (Unit {0})
make_room realloc capacity count =
    guard (not (ltb 0 count && ltb capacity count) || realloc (count * 2 % 2 ^ 32)) enomem

-- The part behind the tests of the header; an `oid_len` above 64 overruns the entry on the stack.
-- `realloc n` says whether an array of `n` entries can be had in place of the old one; `strdup`
-- succeeds.
unfoldable pub read_body : (ℕ → Bool) → Index → List ℕ → ℕ → List ℕ → Result (Index × List ℕ)
read_body realloc idx sum count bytes =
    let idx' = if count == 0 then idx else with_oid_len idx in
    let capacity = capacity_for idx.capacity count in
    make_room realloc idx.capacity count
    >> (if ltb 64 idx'.oid_len
        then fault
        else (read_entries count idx'.oid_algo idx'.oid_len capacity idx.entries bytes >>= λ r.
            read_sum sum r.1 >>= λ sum'. ht_rebuild r.0 >>= λ ht.
            ok (record idx' { entries = r.0; capacity = capacity; sorted = true; ht = ht }, sum')))

-- `fastgit_index_read`; the pair is the index and its checksum.
unfoldable pub index_read : (ℕ → Bool) → Index → List ℕ → List ℕ → Result (Index × List ℕ)
index_read realloc idx sum bytes =
    if ltb (length bytes) (12 + 32)
    then err error
    else (readable 12 bytes
        >> (if not (read32 bytes == 0x44495243)
            then err error
            else if not (read32 (drop 4 bytes) == 2)
            then err eunsupported
            else read_body realloc idx sum (read32 (drop 8 bytes)) (drop 12 bytes)))
