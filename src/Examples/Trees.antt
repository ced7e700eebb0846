-- ===== src/Examples/Trees.antt =====
-- Runs of src/object/tree.c and of the comparison of names in src/object/object.c.
use fastgit.Common.{ℕ, ◌≡◌, refl, arith, List, [], ◌∷◌, length, replicate, ok}
use fastgit.Index.Entry.{Oid}
use fastgit.Object.Tree.{TreeEntry, tree_serialize_size, tree_serialize_write, tree_parse_raw}
use fastgit.Object.Tree.Written.{Avoids, IsWritable, tree_parse_raw-write}

abbrev name_of : ℕ → Oid
name_of b = record { hash = replicate 32 b; algo = 1 }

-- The only mode of the example, octal 7, and its digits.
abbrev digits : ℕ → List ℕ
digits mode = 55 ∷ []

abbrev value : List ℕ → ℕ
value text = 7

writable :
    (b : ℕ) (path : List ℕ)
    → Avoids 0 path
    → IsWritable digits value (record { oid = name_of b; path = path; mode = 7 })
writable b path clean = record {
  mode = refl;
  mode_range = omega arith;
  digits = omega arith;
  no_space = (omega arith, tt);
  path = clean;
  hash = refl;
  algo = refl;
}

abbrev same_order : List TreeEntry → List TreeEntry
same_order es = es

abbrev two_files : List TreeEntry
two_files =
    record { oid = name_of 3; path = 97 ∷ []; mode = 7 }
    ∷ record { oid = name_of 5; path = 98 ∷ 98 ∷ []; mode = 7 }
    ∷ []

tree_parse_raw-write_example :
    (bytes : List ℕ) × (tree_serialize_write digits two_files ≡ ok bytes)
    × (length bytes ≡ tree_serialize_size digits two_files)
    × (tree_parse_raw value same_order bytes ≡ ok two_files)
tree_parse_raw-write_example = tree_parse_raw-write digits value same_order two_files (
  writable 3 (97 ∷ []) (omega arith, tt),
  (writable 5 (98 ∷ 98 ∷ []) (omega arith, (omega arith, tt)), tt),
)
