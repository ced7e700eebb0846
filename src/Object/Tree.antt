-- ===== src/Object/Tree.antt =====
-- src/object/tree.c. A tree is the list of its entries. `qsort` with `tree_entry_cmp`, the digits
-- that "%o" prints and `strtoul` of base 8 are the C library's. Allocation succeeds.
pub mod Written
use fastgit.Common.{
  ℕ, zero, suc, ◌+◌, ◌*◌, ◌%◌, ◌^◌, Bool, List, [], ◌∷◌, ◌++◌, length, take, drop, get_elem?, ltb,
  leb, ◌==◌, if◌then◌else◌, Option, none, some, Result, ok, err, fault, stuck, einval, enoent,
  ◌>>=◌, ◌>>◌, guard,
}
use fastgit.Index.Entry.{Oid, str_eq}

-- `fastgit_tree_entry_t`
pub record TreeEntry : Type 0 where
  pub oid : Oid
  pub path : List ℕ
  pub mode : ℕ

abbrev pub next_place : Option ℕ → Option ℕ
next_place none = none
next_place (some i) = some (suc i)

-- `memchr`: the place of the first byte `c`
unfoldable pub memchr : ℕ → List ℕ → Option ℕ
memchr c [] = none
memchr c (b ∷ bs) = let rest = next_place (memchr c bs) in if b == c then some 0 else rest

-- `fastgit_tree_remove_entry`: the first entry with the path goes.
unfoldable pub tree_remove : List TreeEntry → List ℕ → Result (List TreeEntry)
tree_remove [] path = err enoent
tree_remove (e ∷ es) path =
    let rest = tree_remove es path >>= λ es'. ok (e ∷ es') in
    if str_eq e.path path then ok es else rest

-- `fastgit_tree_entry_by_index`
unfoldable pub tree_entry_by_index : List TreeEntry → ℕ → Option TreeEntry
tree_entry_by_index entries i = get_elem? entries i

module _ (qsort : List TreeEntry → List TreeEntry) where
  -- `fastgit_tree_add_entry`
  unfoldable pub tree_add : List TreeEntry → TreeEntry → List TreeEntry
  tree_add entries e = qsort (entries ++ (e ∷ []))

module _ (octal : ℕ → List ℕ) where
  -- What `mode_len` bytes of `mode_str` hold: `snprintf` writes 7 digits at most and a 0, and returns
  -- the number of all digits.
  unfoldable pub mode_bytes : ℕ → Result (List ℕ)
  mode_bytes mode =
      let text = octal mode in
      if ltb (length text) 8
      then ok text
      else if length text == 8
      then ok (take 7 text ++ (0 ∷ []))
      else fault

  unfoldable pub tree_serialize_size : List TreeEntry → ℕ
  tree_serialize_size [] = 0
  tree_serialize_size (e ∷ es) =
      length (octal e.mode) + 1 + length e.path + 1 + length e.oid.hash + tree_serialize_size es

  unfoldable pub tree_serialize_write : List TreeEntry → Result (List ℕ)
  tree_serialize_write [] = ok []
  tree_serialize_write (e ∷ es) = mode_bytes e.mode >>= λ mode.
      tree_serialize_write es >>= λ rest. ok (mode ++ (32 ∷ (e.path ++ (0 ∷ (e.oid.hash ++ rest)))))

module _ (strtoul8 : List ℕ → ℕ) where
  -- The part of the loop body behind the mode: the path, the checks, the name.
  unfoldable pub parse_path : ℕ → List ℕ → Result (TreeEntry × List ℕ)
  parse_path mode bytes = elim (memchr 0 bytes) [
    | none ↦ err einval
    | some path_len ↦
        if ltb (length bytes) (path_len + 1 + 32)
        then err einval
        else ok (
          record {
            oid = record { hash = take 32 (drop (path_len + 1) bytes); algo = 1 };
            path = take path_len bytes;
            mode = mode;
          },
          drop (path_len + 1 + 32) bytes,
        )
  ]

  -- The body of the loop, on the bytes from `pos` on: an entry, and the bytes behind it.
  unfoldable pub parse_entry : List ℕ → Result (TreeEntry × List ℕ)
  parse_entry bytes = elim (memchr 32 bytes) [
    | none ↦ err einval
    | some ml ↦
        if leb 16 ml
        then err einval
        else parse_path (strtoul8 (take ml bytes) % 2 ^ 32) (drop (ml + 1) bytes)
  ]

  -- `while (pos < len)`
  unfoldable pub parse_entries : ℕ → List ℕ → Result (List TreeEntry)
  parse_entries fuel [] = ok []
  parse_entries zero (b ∷ bs) = stuck
  parse_entries (suc fuel) (b ∷ bs) =
      parse_entry (b ∷ bs) >>= λ r. parse_entries fuel r.1 >>= λ es. ok (r.0 ∷ es)

  -- Every round takes 34 bytes at least.
  unfoldable pub tree_parse_raw :
      (List TreeEntry → List TreeEntry) → List ℕ → Result (List TreeEntry)
  tree_parse_raw qsort bytes = parse_entries (length bytes) bytes >>= λ es. ok (qsort es)
