-- ===== src/Object/Tag.antt =====
-- src/object/tag.c: the size that is counted for a tag, and the bytes that are written.
pub mod Size
use fastgit.Common.{ℕ, ◌+◌, List, [], ◌∷◌, ◌++◌, length, Option, none, some}
use fastgit.Index.Entry.{Oid}
use fastgit.Object.Oid.{to_hex}
use fastgit.Object.Commit.{Signature, signature_to_buf, size_of, line}

-- `type_name` is what `fastgit_obj_type_name` answers for the type of the object.
pub record Tag : Type 0 where
  pub object : Oid
  pub type_name : List ℕ
  pub name : List ℕ
  pub tagger : Option Signature
  pub message : Option (List ℕ)
  pub gpg_signature : Option (List ℕ)

abbrev pub tagger_size : Option Signature → ℕ
tagger_size none = 0
tagger_size (some s) = 7 + length (signature_to_buf (some s)) + 1

unfoldable pub tag_serialize_size : Tag → ℕ
tag_serialize_size t =
    7
    + length (to_hex t.object.hash)
    + 1
    + (5 + length t.type_name + 1)
    + (4 + length t.name + 1)
    + tagger_size t.tagger
    + size_of 1 t.message
    + size_of 1 t.gpg_signature

-- "object ", "type ", "tag ", "tagger "
abbrev pub object_word : List ℕ
object_word = 111 ∷ 98 ∷ 106 ∷ 101 ∷ 99 ∷ 116 ∷ 32 ∷ []

abbrev pub type_word : List ℕ
type_word = 116 ∷ 121 ∷ 112 ∷ 101 ∷ 32 ∷ []

abbrev pub tag_word : List ℕ
tag_word = 116 ∷ 97 ∷ 103 ∷ 32 ∷ []

abbrev pub tagger_word : List ℕ
tagger_word = 116 ∷ 97 ∷ 103 ∷ 103 ∷ 101 ∷ 114 ∷ 32 ∷ []

-- "-----BEGIN PGP SIGNATURE-----" and "-----END PGP SIGNATURE-----"
abbrev pub dashes : List ℕ
dashes = 45 ∷ 45 ∷ 45 ∷ 45 ∷ 45 ∷ []

-- " PGP SIGNATURE"
abbrev pub pgp_signature : List ℕ
pgp_signature = 32 ∷ 80 ∷ 71 ∷ 80 ∷ 32 ∷ 83 ∷ 73 ∷ 71 ∷ 78 ∷ 65 ∷ 84 ∷ 85 ∷ 82 ∷ 69 ∷ []

abbrev pub begin_line : List ℕ
begin_line = dashes ++ ((66 ∷ 69 ∷ 71 ∷ 73 ∷ 78 ∷ pgp_signature) ++ dashes)

abbrev pub end_line : List ℕ
end_line = dashes ++ ((69 ∷ 78 ∷ 68 ∷ pgp_signature) ++ dashes)

abbrev pub write_tagger : Option Signature → List ℕ → List ℕ
write_tagger none rest = rest
write_tagger (some s) rest = line tagger_word (signature_to_buf (some s)) rest

abbrev pub write_text : Option (List ℕ) → List ℕ → List ℕ
write_text none rest = rest
write_text (some s) rest = s ++ rest

abbrev pub write_pgp : Option (List ℕ) → List ℕ
write_pgp none = []
write_pgp (some s) = 10 ∷ line begin_line [] (line [] s end_line)

-- `tag_serialize_write`: what it writes from `buf + *pos` on.
unfoldable pub tag_serialize_write : Tag → List ℕ
tag_serialize_write t = line object_word (to_hex t.object.hash) (
    line type_word t.type_name (
      line tag_word t.name
        (write_tagger t.tagger (10 ∷ write_text t.message (write_pgp t.gpg_signature)))))
