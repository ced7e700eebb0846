-- ===== src/Index/Disk/Loop.antt =====
-- The loops over the entries of the index file.
use fastgit.Common.{
  ℕ, suc, ◌+◌, ◌≤◌, ◌<◌, ◌≡◌, refl, arith, true, false, List, [], ◌∷◌, ◌++◌, length, All, ltb, ok,
  append_assoc, length-append, append-nil,
}
use fastgit.Index.Entry.{Entry}
use fastgit.Index.Disk.{fixed_size, write_entry, write_entries, entries_size, read_entries}
use fastgit.Index.Disk.Stored.{
  IsStored, read_entry-write_entry, length-write_entry, write_entry-append,
}

module _ (algo oid_len : ℕ) where
  pub read_entries_step :
      (count capacity : ℕ) (es : List Entry) (e : Entry) (rest : List ℕ)
      → IsStored algo oid_len e
      → length es < capacity
      → read_entries (suc count) algo oid_len capacity es (write_entry oid_len e rest)
        ≡ read_entries count algo oid_len capacity (es ++ (e ∷ [])) rest
  unfolding read_entries
  read_entries_step count capacity es e rest v room =
      let bytes = write_entry oid_len e rest in
      let enough : ltb (length bytes) (fixed_size oid_len) ≡ false =
        ground (arith, length-write_entry algo oid_len e rest v) in
      let fits : ltb (length es) capacity ≡ true = ground arith in
      rw (enough, fits, read_entry-write_entry algo oid_len e rest v) refl

  pub read_entries-write_entries :
      (capacity : ℕ) (es xs : List Entry) (rest : List ℕ)
      → All (IsStored algo oid_len) xs
      → length es + length xs ≤ capacity
      → read_entries (length xs) algo oid_len capacity es (write_entries oid_len xs ++ rest)
        ≡ ok (es ++ xs, rest)
  unfolding write_entries
  read_entries-write_entries capacity es [] rest all room =
      unfold read_entries in rw (append-nil es) refl
  read_entries-write_entries capacity es (e ∷ xs) rest (v, all) room =
      let more = write_entries oid_len xs in
      let next =
        read_entries-write_entries capacity (es ++ (e ∷ [])) xs rest all
          (omega (arith, length-append es (e ∷ []))) in
      let step = read_entries_step (length xs) capacity es e (more ++ rest) v (omega arith) in
      let split = write_entry-append algo oid_len e more rest v in
      rw (split, step, next, append_assoc es (e ∷ []) xs) refl

  pub length-write_entries :
      (xs : List Entry)
      → All (IsStored algo oid_len) xs
      → length (write_entries oid_len xs) ≡ entries_size oid_len xs
  unfolding write_entries entries_size
  length-write_entries [] all = refl
  length-write_entries (e ∷ xs) (v, all) = omega (
    arith,
    length-write_entry algo oid_len e (write_entries oid_len xs) v,
    length-write_entries xs all,
  )
