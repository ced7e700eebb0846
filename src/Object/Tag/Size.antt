-- ===== src/Object/Tag/Size.antt =====
-- The size that is counted for a tag against the bytes that are written.
use fastgit.Common.{
  ℕ, ◌+◌, ◌≡◌, refl, arith, List, [], ◌∷◌, length, length-append, Option, none, some,
}
use fastgit.Object.Oid.{to_hex}
use fastgit.Object.Commit.{Signature, signature_to_buf, size_of, line}
use fastgit.Object.Commit.Size.{length-line}
use fastgit.Object.Tag.{
  Tag, tagger_size, tag_serialize_size, object_word, type_word, tag_word, tagger_word, begin_line,
  end_line, write_tagger, write_text, write_pgp, tag_serialize_write,
}

length-write_tagger :
    (s : Option Signature) (rest : List ℕ)
    → length (write_tagger s rest) ≡ tagger_size s + length rest
length-write_tagger none rest = omega arith
length-write_tagger (some s) rest =
    omega (arith, length-line tagger_word (signature_to_buf (some s)) rest)

-- How far the writer goes beyond the size: 58 bytes for a signature, and 1 for a missing message.
abbrev pub tag_overrun : Option (List ℕ) → Option (List ℕ) → ℕ
tag_overrun none none = 1
tag_overrun none (some m) = 0
tag_overrun (some g) none = 59
tag_overrun (some g) (some m) = 58

length-write_pgp : (g : List ℕ) → length (write_pgp (some g)) ≡ length g + 59
length-write_pgp g =
    omega (arith, length-line begin_line [] (line [] g end_line), length-line [] g end_line)

length-tag_tail :
    (g m : Option (List ℕ))
    → length (10 ∷ write_text m (write_pgp g)) ≡ size_of 1 m + size_of 1 g + tag_overrun g m
length-tag_tail none none = refl
length-tag_tail none (some m) = omega (arith, length-append m [])
length-tag_tail (some g) none = omega (arith, length-write_pgp g)
length-tag_tail (some g) (some m) =
    omega (arith, length-write_pgp g, length-append m (write_pgp (some g)))

-- `tag_serialize_write` writes exactly the bytes that `tag_serialize_size` counts for a tag with a
-- message and without a signature; it writes 58 bytes more for a signature, and 1 more where there
-- is no message.
pub length-tag_serialize_write :
    (t : Tag)
    → length (tag_serialize_write t) ≡ tag_serialize_size t + tag_overrun t.gpg_signature t.message
unfolding tag_serialize_size tag_serialize_write
length-tag_serialize_write t =
    let tail = 10 ∷ write_text t.message (write_pgp t.gpg_signature) in
    let tagged = write_tagger t.tagger tail in
    let named = line tag_word t.name tagged in
    omega (
      arith,
      length-line object_word (to_hex t.object.hash) (line type_word t.type_name named),
      length-line type_word t.type_name named,
      length-line tag_word t.name tagged,
      length-write_tagger t.tagger tail,
      length-tag_tail t.gpg_signature t.message,
    )
