-- ===== src/Index/Disk/Stored.antt =====
-- One entry of the index file: what is written is read again, and the loop goes on behind it.
use fastgit.Common.{
  ℕ, suc, ◌+◌, ◌-◌, ◌/◌, ◌^◌, bit_and, ◌<◌, ◌≡◌, ◌≢◌, refl, sym, ap, ◌∙◌, arith, inl, inr,
  Bool-cases, false, List, [], ◌∷◌, ◌++◌, length, take, drop, replicate, All, ◌==◌, ok,
  length-append, length-replicate, take-length-append, drop-length-append, append-nil, append_assoc,
  readable-ok,
}
use fastgit.Index.Entry.{Entry}
use fastgit.Index.Disk.{
  be16, fixed_size, pad_of, disk_oid, disk_flags, write_fields, write_entry, strnlen, path_length,
  read_path, read_entry,
}
use fastgit.Index.Disk.Words.{
  HasWords, read16-be16, drop-write_fields, length-write_fields, read_fields-write_fields,
}

-- An entry that the format can hold, in an index whose names have `oid_len` bytes.
pub record IsStored (algo oid_len : ℕ) (e : Entry) : Type 0 where
  pub words : HasWords e
  pub hash : length e.oid.hash ≡ oid_len
  pub names : e.oid.algo ≡ algo
  pub path : All (λ b. b ≢ 0) e.path
  pub flags_range : e.flags < 2 ^ 16
  pub flags : disk_flags e ≡ e.flags
  pub stage : bit_and (e.flags / 2 ^ 12) 0x3 ≡ e.stage
  pub extended : e.flags_extended ≡ 0

strnlen-append :
    (path rest : List ℕ) → All (λ b. b ≢ 0) path → strnlen (path ++ (0 ∷ rest)) ≡ length path
unfolding strnlen
strnlen-append [] rest h = refl
strnlen-append (b ∷ path) rest (hb, h) = ground (arith, strnlen-append path rest h)

path_length-strnlen : (flags : ℕ) (tail : List ℕ) → path_length flags tail ≡ strnlen tail
path_length-strnlen flags tail = elim (Bool-cases (bit_and flags 0x0FFF == 0x0FFF)) [
  | inl full ↦ rw full
  | inr short ↦ rw short
]

drop-path :
    (path rest : List ℕ) (pad : ℕ)
    → drop (length path + 1 + pad) (path ++ (0 ∷ (replicate pad 0 ++ rest))) ≡ rest
drop-path [] rest pad =
    let n : length {A = ℕ} [] + 1 + pad ≡ suc pad = omega arith in
    let k : length (replicate pad 0) ≡ pad = length-replicate pad 0 in
    rw n (
      ap (λ m. drop m (replicate pad 0 ++ rest)) (sym k)
      ∙ drop-length-append (replicate pad 0) rest)
drop-path (b ∷ path) rest pad =
    let n : length (b ∷ path) + 1 + pad ≡ suc (length path + 1 + pad) = omega arith in
    rw n (drop-path path rest pad)

read_path-bytes :
    (oid_len flags : ℕ) (path rest : List ℕ)
    → All (λ b. b ≢ 0) path
    → read_path oid_len flags
        (path ++ (0 ∷ (replicate (pad_of (fixed_size oid_len + length path + 1)) 0 ++ rest)))
      ≡ ok (path, rest)
unfolding read_path
read_path-bytes oid_len flags path rest clean =
    let pad = pad_of (fixed_size oid_len + length path + 1) in
    let behind = 0 ∷ (replicate pad 0 ++ rest) in
    let n = strnlen-append path (replicate pad 0 ++ rest) clean in
    let m = path_length-strnlen flags (path ++ behind) in
    let more : (length path == length (path ++ behind)) ≡ false =
      ground (arith, length-append path behind) in
    let read =
      readable-ok (length path + 1) (path ++ behind) (omega (arith, length-append path behind)) in
    rw (m, n, more, read, take-length-append path behind, drop-path path rest pad)

disk_oid-hash : (oid_len : ℕ) (hash : List ℕ) → length hash ≡ oid_len → disk_oid oid_len hash ≡ hash
unfolding disk_oid
disk_oid-hash oid_len hash size =
    let none_left : length hash - length hash ≡ 0 = omega arith in
    let whole : take (length hash) hash ≡ hash =
      ap (take (length hash)) (sym (append-nil hash)) ∙ take-length-append hash [] in
    rw (sym size, none_left, whole, append-nil hash) refl

-- The bytes behind the ten numbers.
abbrev pub tail_of : ℕ → Entry → List ℕ → List ℕ
tail_of oid_len e rest =
    e.path ++ (0 ∷ (replicate (pad_of (fixed_size oid_len + length e.path + 1)) 0 ++ rest))

write_entry-eq :
    (algo oid_len : ℕ) (e : Entry) (rest : List ℕ)
    → IsStored algo oid_len e
    → write_entry oid_len e rest
      ≡ write_fields e (e.oid.hash ++ (be16 e.flags ++ tail_of oid_len e rest))
unfolding write_entry
write_entry-eq algo oid_len e rest v = rw (disk_oid-hash oid_len e.oid.hash v.hash, v.flags) refl

-- A round of the reader on what a round of the writer left: the entry, and the bytes behind it.
pub read_entry-write_entry :
    (algo oid_len : ℕ) (e : Entry) (rest : List ℕ)
    → IsStored algo oid_len e
    → read_entry algo oid_len (write_entry oid_len e rest) ≡ ok (e, rest)
unfolding read_entry
read_entry-write_entry algo oid_len e rest v =
    let tail = tail_of oid_len e rest in
    let back = be16 e.flags ++ tail in
    let body = e.oid.hash ++ back in
    let bytes = write_fields e body in
    let d = drop-write_fields e body in
    let hash : take oid_len body ≡ e.oid.hash =
      ap (λ (k : ℕ). take k body) (sym v.hash) ∙ take-length-append e.oid.hash back in
    let left : drop oid_len body ≡ back =
      ap (λ (k : ℕ). drop k body) (sym v.hash) ∙ drop-length-append e.oid.hash back in
    let fl = read16-be16 e.flags tail v.flags_range in
    let path = read_path-bytes oid_len e.flags e.path rest v.path in
    let fields = read_fields-write_fields e body e.flags v.words in
    let head = readable-ok 40 bytes (omega (arith, length-write_fields e body)) in
    let name = readable-ok oid_len body (omega (arith, v.hash, length-append e.oid.hash back)) in
    let two = readable-ok 2 back (omega arith) in
    rw
      (
        write_entry-eq algo oid_len e rest v,
        head,
        d,
        name,
        hash,
        left,
        two,
        fl,
        path,
        sym v.names,
        fields,
        v.stage,
        sym v.extended,
      )
      refl

pub length-write_entry :
    (algo oid_len : ℕ) (e : Entry) (rest : List ℕ)
    → IsStored algo oid_len e
    → length (write_entry oid_len e rest)
      ≡ fixed_size oid_len
        + length e.path
        + 1
        + pad_of (fixed_size oid_len + length e.path + 1)
        + length rest
length-write_entry algo oid_len e rest v =
    let pad = pad_of (fixed_size oid_len + length e.path + 1) in
    let tail = tail_of oid_len e rest in
    rw (write_entry-eq algo oid_len e rest v) (
      omega (
        arith,
        length-write_fields e (e.oid.hash ++ (be16 e.flags ++ tail)),
        length-append e.oid.hash (be16 e.flags ++ tail),
        length-append e.path (0 ∷ (replicate pad 0 ++ rest)),
        length-append (replicate pad 0) rest,
        length-replicate {A = ℕ} pad 0,
        v.hash,
      ))

tail_of-append :
    (oid_len : ℕ) (e : Entry) (rest behind : List ℕ)
    → tail_of oid_len e rest ++ behind ≡ tail_of oid_len e (rest ++ behind)
tail_of-append oid_len e rest behind =
    let pads = replicate {A = ℕ} (pad_of (fixed_size oid_len + length e.path + 1)) 0 in
    rw (append_assoc e.path (0 ∷ (pads ++ rest)) behind, append_assoc pads rest behind) refl

write_fields-append :
    (e : Entry) (rest behind : List ℕ)
    → write_fields e rest ++ behind ≡ write_fields e (rest ++ behind)
unfolding write_fields
write_fields-append e rest behind = refl

-- The bytes behind an entry are written where they are.
pub write_entry-append :
    (algo oid_len : ℕ) (e : Entry) (rest behind : List ℕ)
    → IsStored algo oid_len e
    → write_entry oid_len e rest ++ behind ≡ write_entry oid_len e (rest ++ behind)
write_entry-append algo oid_len e rest behind v =
    let back = be16 e.flags ++ tail_of oid_len e rest in
    let split = append_assoc e.oid.hash back behind in
    let inner = tail_of-append oid_len e rest behind in
    rw
      (
        write_entry-eq algo oid_len e rest v,
        write_entry-eq algo oid_len e (rest ++ behind) v,
        write_fields-append e (e.oid.hash ++ back) behind,
        split,
        inner,
      )
      refl
