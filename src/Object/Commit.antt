-- ===== src/Object/Commit.antt =====
-- src/object/commit.c and src/object/tag.c: the size that is counted for a commit or a tag, and
-- the bytes that are written. A string is the list of its bytes, `none` a null pointer. A name has
-- 64 bytes at most, the size of its array, so the buffer for its digits is long enough.
pub mod Size
use fastgit.Common.{ℕ, ◌+◌, ◌*◌, List, [], ◌∷◌, ◌++◌, length, Option, none, some}
use fastgit.Index.Entry.{Oid}
use fastgit.Object.Oid.{to_hex}

-- `fastgit_signature_t`; `timebuf` is what the C library prints of `when` and `offset`.
pub record Signature : Type 0 where
  pub name : List ℕ
  pub email : List ℕ
  pub timebuf : List ℕ

-- "%s <%s> %s"
abbrev pub signature_to_buf : Option Signature → List ℕ
signature_to_buf none = []
signature_to_buf (some s) = s.name ++ (32 ∷ 60 ∷ (s.email ++ (62 ∷ 32 ∷ s.timebuf)))

pub record Commit : Type 0 where
  pub tree : Oid
  pub parents : List Oid
  pub author : Option Signature
  pub committer : Option Signature
  pub message : Option (List ℕ)
  pub encoding : Option (List ℕ)
  pub gpg_signature : Option (List ℕ)

-- `if (s) size += n + strlen(s);`
abbrev pub size_of : ℕ → Option (List ℕ) → ℕ
size_of n none = 0
size_of n (some s) = n + length s

unfoldable pub parents_size : List Oid → ℕ
parents_size [] = 0
parents_size (p ∷ ps) = 7 + length p.hash * 2 + 1 + parents_size ps

unfoldable pub commit_serialize_size : Commit → ℕ
commit_serialize_size c =
    5
    + length c.tree.hash * 2
    + 1
    + parents_size c.parents
    + (7 + length (signature_to_buf c.author) + 1)
    + (10 + length (signature_to_buf c.committer) + 1)
    + size_of (9 + 1) c.encoding
    + size_of 1 c.message
    + size_of 1 c.gpg_signature

-- "tree ", "parent ", "author ", "committer ", "encoding ", "gpgsig "
abbrev pub tree_word : List ℕ
tree_word = 116 ∷ 114 ∷ 101 ∷ 101 ∷ 32 ∷ []

abbrev pub parent_word : List ℕ
parent_word = 112 ∷ 97 ∷ 114 ∷ 101 ∷ 110 ∷ 116 ∷ 32 ∷ []

abbrev pub author_word : List ℕ
author_word = 97 ∷ 117 ∷ 116 ∷ 104 ∷ 111 ∷ 114 ∷ 32 ∷ []

abbrev pub committer_word : List ℕ
committer_word = 99 ∷ 111 ∷ 109 ∷ 109 ∷ 105 ∷ 116 ∷ 116 ∷ 101 ∷ 114 ∷ 32 ∷ []

abbrev pub encoding_word : List ℕ
encoding_word = 101 ∷ 110 ∷ 99 ∷ 111 ∷ 100 ∷ 105 ∷ 110 ∷ 103 ∷ 32 ∷ []

abbrev pub gpgsig_word : List ℕ
gpgsig_word = 103 ∷ 112 ∷ 103 ∷ 115 ∷ 105 ∷ 103 ∷ 32 ∷ []

-- A word, a text and a line feed, in front of `rest`.
unfoldable pub line : List ℕ → List ℕ → List ℕ → List ℕ
line word text rest = word ++ (text ++ (10 ∷ rest))

unfoldable pub write_parents : List Oid → List ℕ → List ℕ
write_parents [] rest = rest
write_parents (p ∷ ps) rest = line parent_word (to_hex p.hash) (write_parents ps rest)

abbrev pub write_encoding : Option (List ℕ) → List ℕ → List ℕ
write_encoding none rest = rest
write_encoding (some s) rest = line encoding_word s rest

-- The signature stands behind an empty line.
abbrev pub write_gpgsig : Option (List ℕ) → List ℕ → List ℕ
write_gpgsig none rest = rest
write_gpgsig (some s) rest = 10 ∷ line gpgsig_word s rest

abbrev pub write_message : Option (List ℕ) → List ℕ
write_message none = 10 ∷ []
write_message (some s) = 10 ∷ s

-- `commit_serialize_write`: what it writes from `buf + *pos` on.
unfoldable pub commit_serialize_write : Commit → List ℕ
commit_serialize_write c = line tree_word (to_hex c.tree.hash) (
    write_parents c.parents (
      line author_word (signature_to_buf c.author) (
        line committer_word (signature_to_buf c.committer)
          (write_encoding c.encoding (write_gpgsig c.gpg_signature (write_message c.message))))))
