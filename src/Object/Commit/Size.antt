-- ===== src/Object/Commit/Size.antt =====
-- The size that is counted for a commit against the bytes that are written.
use fastgit.Common.{
  ℕ, ◌+◌, ◌≡◌, refl, arith, List, [], ◌∷◌, ◌++◌, length, length-append, Option, none, some,
}
use fastgit.Index.Entry.{Oid}
use fastgit.Object.Oid.{to_hex}
use fastgit.Object.Oid.Hex.{length-to_hex}
use fastgit.Object.Commit.{
  Commit, signature_to_buf, size_of, parents_size, commit_serialize_size, tree_word, author_word,
  committer_word, line, write_parents, write_encoding, write_gpgsig, write_message,
  commit_serialize_write,
}

pub length-line :
    (word text rest : List ℕ)
    → length (line word text rest) ≡ length word + length text + 1 + length rest
unfolding line
length-line word text rest =
    omega (arith, length-append word (text ++ (10 ∷ rest)), length-append text (10 ∷ rest))

length-write_parents :
    (ps : List Oid) (rest : List ℕ) → length (write_parents ps rest) ≡ parents_size ps + length rest
unfolding write_parents parents_size
length-write_parents [] rest = omega arith
length-write_parents (p ∷ ps) rest = omega (
  arith,
  length-line (112 ∷ 97 ∷ 114 ∷ 101 ∷ 110 ∷ 116 ∷ 32 ∷ []) (to_hex p.hash) (write_parents ps rest),
  length-to_hex p.hash,
  length-write_parents ps rest,
)

length-write_encoding :
    (s : Option (List ℕ)) (rest : List ℕ)
    → length (write_encoding s rest) ≡ size_of (9 + 1) s + length rest
length-write_encoding none rest = omega arith
length-write_encoding (some s) rest =
    omega (arith, length-line (101 ∷ 110 ∷ 99 ∷ 111 ∷ 100 ∷ 105 ∷ 110 ∷ 103 ∷ 32 ∷ []) s rest)

-- How far the writer goes beyond the size: 8 bytes for a signature, and 1 for a missing message.
abbrev pub overrun : Option (List ℕ) → Option (List ℕ) → ℕ
overrun none none = 1
overrun none (some m) = 0
overrun (some g) none = 9
overrun (some g) (some m) = 8

length-tail :
    (g m : Option (List ℕ))
    → length (write_gpgsig g (write_message m)) ≡ size_of 1 m + size_of 1 g + overrun g m
length-tail none none = refl
length-tail none (some m) = omega arith
length-tail (some g) none =
    omega (arith, length-line (103 ∷ 112 ∷ 103 ∷ 115 ∷ 105 ∷ 103 ∷ 32 ∷ []) g (10 ∷ []))
length-tail (some g) (some m) =
    omega (arith, length-line (103 ∷ 112 ∷ 103 ∷ 115 ∷ 105 ∷ 103 ∷ 32 ∷ []) g (10 ∷ m))

-- `commit_serialize_write` writes exactly the bytes that `commit_serialize_size` counts for a
-- commit with a message and without a signature; it writes 8 bytes more for a signature, and 1
-- more where there is no message.
pub length-commit_serialize_write :
    (c : Commit)
    → length (commit_serialize_write c)
      ≡ commit_serialize_size c + overrun c.gpg_signature c.message
unfolding commit_serialize_size commit_serialize_write
length-commit_serialize_write c =
    let tail = write_gpgsig c.gpg_signature (write_message c.message) in
    let encoded = write_encoding c.encoding tail in
    let committed = line committer_word (signature_to_buf c.committer) encoded in
    let authored = line author_word (signature_to_buf c.author) committed in
    let inherited = write_parents c.parents authored in
    omega (
      arith,
      length-line tree_word (to_hex c.tree.hash) inherited,
      length-to_hex c.tree.hash,
      length-write_parents c.parents authored,
      length-line author_word (signature_to_buf c.author) committed,
      length-line committer_word (signature_to_buf c.committer) encoded,
      length-write_encoding c.encoding tail,
      length-tail c.gpg_signature c.message,
    )
