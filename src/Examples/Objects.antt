-- ===== src/Examples/Objects.antt =====
-- Runs of src/object/object.c, src/object/commit.c and src/object/tag.c.
use fastgit.Common.{◌+◌, ◌≡◌, refl, arith, [], ◌∷◌, length, none, some, ok}
use fastgit.Index.Entry.{Oid}
use fastgit.Object.Oid.{to_hex, algo_of_length, oid_from_hex}
use fastgit.Object.Oid.Hex.{oid_from_hex-to_hex}
use fastgit.Object.Commit.{Signature, Commit, commit_serialize_size, commit_serialize_write}
use fastgit.Object.Commit.Size.{length-commit_serialize_write}
use fastgit.Object.Tag.{Tag}

abbrev short_oid : Oid
short_oid = record { hash = 0xde ∷ 0xad ∷ []; algo = 1 }

abbrev person : Signature
person = record { name = 65 ∷ []; email = 66 ∷ []; timebuf = 48 ∷ 32 ∷ 43 ∷ [] }

-- A commit with a signature.
abbrev signed : Commit
signed = record {
  tree = short_oid;
  parents = short_oid ∷ [];
  author = some person;
  committer = some person;
  message = some (72 ∷ 105 ∷ []);
  encoding = none;
  gpg_signature = some (83 ∷ []);
}

-- A tag without a message.
abbrev bare_tag : Tag
bare_tag = record {
  object = short_oid;
  type_name = 98 ∷ 108 ∷ 111 ∷ 98 ∷ [];
  name = 118 ∷ 49 ∷ [];
  tagger = none;
  message = none;
  gpg_signature = none;
}

oid_from_hex-to_hex_example : oid_from_hex (to_hex (0xde ∷ 0xad ∷ [])) ≡ ok short_oid
unfolding algo_of_length
oid_from_hex-to_hex_example = oid_from_hex-to_hex short_oid (ground arith) (omega arith) refl

length-commit_serialize_write_example :
    length (commit_serialize_write signed) ≡ commit_serialize_size signed + 8
length-commit_serialize_write_example = length-commit_serialize_write signed
