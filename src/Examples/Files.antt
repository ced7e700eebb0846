-- ===== src/Examples/Files.antt =====
-- Runs of src/index/index.c on index files.
use fastgit.Common.{
  ℕ, ◌%◌, ◌^◌, ◌≡◌, refl, arith, List, [], ◌∷◌, false, length, replicate, err, fault, enoent, Bool,
  true, ◌+◌,
}
use mathlib.Core.List.{Permᴰ}
use fastgit.Index.Entry.{Oid, Entry, has_key, str_eq}
use fastgit.Index.Store.{Index, index_new, fresh, index_find}
use fastgit.Index.Conflicts.{conflict_entry}
use fastgit.Index.Store.View.{view}
use fastgit.Index.Store.Add.{IsIndex}
use fastgit.Index.Store.Order.{IsUnique, IsUnique-IsDistinct, index_find_absent}
use fastgit.Index.Disk.{read32, disk_flags, write_header, write_entries, index_read}
use fastgit.Index.Disk.Stored.{IsStored}
use fastgit.Index.Disk.RoundTrip.{Reread, index_read-index_write_to}
use fastgit.Index.Disk.Hostile.{Holds, IsLoaded, index_read-Holds}
use fastgit.Index.Disk.Overrun.{index_read_wraps}
use fastgit.Examples.Tables.{path_a, path_b, rebuilt, rebuilt-IsTable}

-- A C library's sort that swaps two entries.
swap_two : List Entry → List Entry
swap_two [] = []
swap_two (a ∷ []) = a ∷ []
swap_two (a ∷ b ∷ rest) = b ∷ a ∷ rest

swap_two-Permᴰ : (es : List Entry) → Permᴰ es (swap_two es)
unfolding swap_two
swap_two-Permᴰ [] = Permᴰ.nil
swap_two-Permᴰ (a ∷ []) = Permᴰ.cons refl Permᴰ.nil
swap_two-Permᴰ (a ∷ b ∷ rest) = Permᴰ.swap refl refl

-- Memory that is never short.
abbrev memory : ℕ → Bool
memory n = true

-- A checksum of 32 bytes, in place of a hash.
abbrev checksum : ℕ → List ℕ → List ℕ
checksum algo bytes = replicate 32 (length bytes % 2 ^ 8)

abbrev full_name : ℕ → Oid
full_name n = record { hash = replicate 32 n; algo = 1 }

-- A file under "bb", and one side of a conflict under "a".
abbrev plain : Entry
plain = fresh (full_name 7) 33188 2 path_b

abbrev ours : Entry
ours = conflict_entry path_a (full_name 9) 2

plain-IsStored : IsStored 1 32 plain
unfolding disk_flags
plain-IsStored = record {
  words = record {
    ctime_sec = omega arith;
    ctime_nsec = omega arith;
    mtime_sec = omega arith;
    mtime_nsec = omega arith;
    dev = omega arith;
    ino = omega arith;
    mode = omega arith;
    uid = omega arith;
    gid = omega arith;
    size = omega arith;
  };
  hash = refl;
  names = refl;
  path = (omega arith, (omega arith, tt));
  flags_range = omega arith;
  flags = refl;
  stage = refl;
  extended = refl;
}

ours-IsStored : IsStored 1 32 ours
unfolding disk_flags
ours-IsStored = record {
  words = record {
    ctime_sec = omega arith;
    ctime_nsec = omega arith;
    mtime_sec = omega arith;
    mtime_nsec = omega arith;
    dev = omega arith;
    ino = omega arith;
    mode = omega arith;
    uid = omega arith;
    gid = omega arith;
    size = omega arith;
  };
  hash = refl;
  names = refl;
  path = (omega arith, tt);
  flags_range = omega arith;
  flags = refl;
  stage = refl;
  extended = refl;
}

abbrev unsorted : Index
unsorted = record index_new {
  entries = plain ∷ ours ∷ [];
  sorted = false;
  ht = rebuilt (plain ∷ ours ∷ []);
}

unsorted-IsIndex : IsIndex unsorted
unfolding index_new IsUnique view has_key str_eq
unsorted-IsIndex = record {
  table = rebuilt-IsTable (plain ∷ ours ∷ []);
  distinct = IsUnique-IsDistinct (plain ∷ ours ∷ []) (refl, (refl, tt));
  fits = omega arith;
}

index_read-index_write_to_example : Reread swap_two checksum memory unsorted index_new []
unfolding index_new
index_read-index_write_to_example =
    index_read-index_write_to swap_two checksum memory unsorted index_new [] swap_two-Permᴰ
      (λ bytes. refl) unsorted-IsIndex (plain-IsStored, (ours-IsStored, tt)) (omega arith)
      (omega arith) (omega arith) refl refl refl refl

index_find_absent_example : index_find swap_two unsorted path_b 2 ≡ err enoent
unfolding index_new view has_key str_eq
index_find_absent_example =
    index_find_absent swap_two unsorted path_b 2 swap_two-Permᴰ unsorted-IsIndex refl

-- A header that promises three entries, and nothing behind it but zeros.
abbrev cut_file : List ℕ
cut_file = 0x44 ∷ 0x49 ∷ 0x52 ∷ 0x43 ∷ 0 ∷ 0 ∷ 0 ∷ 2 ∷ 0 ∷ 0 ∷ 0 ∷ 3 ∷ replicate 80 0

index_read-Holds_example : Holds (λ r. IsLoaded 32 r.0) (index_read memory index_new [] cut_file)
unfolding index_new read32
index_read-Holds_example =
    index_read-Holds memory index_new [] cut_file refl (omega arith) (omega arith) (omega arith)

index_read_wraps_example :
    index_read memory index_new []
      (write_header (2147483648 + 1) (write_entries 32 (plain ∷ ours ∷ plain ∷ [])))
    ≡ fault
unfolding index_new
index_read_wraps_example =
    index_read_wraps memory index_new [] 1 (plain ∷ ours ∷ plain ∷ []) refl (omega arith)
      (omega arith) (omega arith) (plain-IsStored, (ours-IsStored, (plain-IsStored, tt)))
      (omega arith) refl (omega arith) (omega arith)
