-- ===== src/Object/Tree/Written.antt =====
-- The parser of trees against the writer.
use fastgit.Common.{
  ℕ, zero, suc, ◌+◌, ◌%◌, ◌^◌, ◌≤◌, ◌<◌, ◌≡◌, ◌≢◌, refl, sym, ap, ◌∙◌, arith, List, [], ◌∷◌, ◌++◌,
  length, take, drop, All, length-append, take-length-append, drop-length-append, drop-drop, ltb,
  leb, some, Result, ok, ◌>>=◌, true, false,
}
use fastgit.Object.Tree.{
  TreeEntry, memchr, mode_bytes, tree_serialize_size, tree_serialize_write, parse_path, parse_entry,
  parse_entries, tree_parse_raw,
}

abbrev pub Avoids : ℕ → List ℕ → Type 0
Avoids c = All (λ b. b ≢ c)

memchr-append :
    (c : ℕ) (xs rest : List ℕ) → Avoids c xs → memchr c (xs ++ (c ∷ rest)) ≡ some (length xs)
unfolding memchr
memchr-append c [] rest h = ground arith
memchr-append c (x ∷ xs) rest (hx, h) = ground (arith, memchr-append c xs rest)

module _ (octal : ℕ → List ℕ) (strtoul8 : List ℕ → ℕ) where
  -- The C library reads the mode back, and the entry has the form that a tree can hold.
  pub record IsWritable (e : TreeEntry) : Type 0 where
    pub mode : strtoul8 (octal e.mode) ≡ e.mode
    pub mode_range : e.mode < 2 ^ 32
    pub digits : length (octal e.mode) < 8
    pub no_space : Avoids 32 (octal e.mode)
    pub path : Avoids 0 e.path
    pub hash : length e.oid.hash ≡ 32
    pub algo : e.oid.algo ≡ 1

  abbrev pub entry_bytes : TreeEntry → List ℕ → List ℕ
  entry_bytes e rest = octal e.mode ++ (32 ∷ (e.path ++ (0 ∷ (e.oid.hash ++ rest))))

  drop-next : (xs : List ℕ) (c : ℕ) (rest : List ℕ) → drop (length xs + 1) (xs ++ (c ∷ rest)) ≡ rest
  drop-next xs c rest =
      drop-drop (length xs) 1 (xs ++ (c ∷ rest)) ∙ ap (drop 1) (drop-length-append xs (c ∷ rest))

  same_entry :
      (e : TreeEntry) (rest : List ℕ)
      → e.oid.algo ≡ 1
      → ◌≡◌ {A = Result (TreeEntry × List ℕ)}
          (ok (
            record { oid = record { hash = e.oid.hash; algo = 1 }; path = e.path; mode = e.mode },
            rest,
          ))
          (ok (e, rest))
  same_entry e rest algo =
      ap
        (λ (a : ℕ). ok (
          record { oid = record { hash = e.oid.hash; algo = a }; path = e.path; mode = e.mode },
          rest,
        ))
        (sym algo)

  parse_path-bytes :
      (e : TreeEntry) (rest : List ℕ)
      → IsWritable e
      → parse_path strtoul8 e.mode (e.path ++ (0 ∷ (e.oid.hash ++ rest))) ≡ ok (e, rest)
  unfolding parse_path
  parse_path-bytes e rest v =
      let n = length e.path in
      let bytes = e.path ++ (0 ∷ (e.oid.hash ++ rest)) in
      let found = memchr-append 0 e.path (e.oid.hash ++ rest) v.path in
      let size : (ltb (length bytes) (n + 1 + 32)) ≡ false = ground (
        arith,
        v.hash,
        length-append e.path (0 ∷ (e.oid.hash ++ rest)),
        length-append e.oid.hash rest,
      ) in
      let name = drop-next e.path 0 (e.oid.hash ++ rest) in
      let front : take n bytes ≡ e.path = take-length-append e.path (0 ∷ (e.oid.hash ++ rest)) in
      let hash : take 32 (e.oid.hash ++ rest) ≡ e.oid.hash =
        ap (λ (k : ℕ). take k (e.oid.hash ++ rest)) (sym v.hash)
        ∙ take-length-append e.oid.hash rest in
      let behind : drop 32 (e.oid.hash ++ rest) ≡ rest =
        ap (λ (k : ℕ). drop k (e.oid.hash ++ rest)) (sym v.hash)
        ∙ drop-length-append e.oid.hash rest in
      let left : drop (n + 1 + 32) bytes ≡ rest =
        drop-drop (n + 1) 32 bytes ∙ ap (drop 32) name ∙ behind in
      rw (found, parse_path, size, left, name, front, hash) (same_entry e rest v.algo)

  parse_entry-bytes :
      (e : TreeEntry) (rest : List ℕ)
      → IsWritable e
      → parse_entry strtoul8 (entry_bytes e rest) ≡ ok (e, rest)
  unfolding parse_entry
  parse_entry-bytes e rest v =
      let tail = e.path ++ (0 ∷ (e.oid.hash ++ rest)) in
      let text = octal e.mode in
      let found = memchr-append 32 text tail v.no_space in
      let short : leb 16 (length text) ≡ false = ground (arith, v.digits) in
      let name = drop-next text 32 tail in
      let digits = take-length-append text (32 ∷ tail) in
      let mode : e.mode % 2 ^ 32 ≡ e.mode = omega arith in
      rw (found, parse_entry, short, name, digits, v.mode, mode) (parse_path-bytes e rest v)

  length-entry_bytes :
      (e : TreeEntry) (rest : List ℕ)
      → length (entry_bytes e rest)
        ≡ length (octal e.mode) + 1 + length e.path + 1 + length e.oid.hash + length rest
  length-entry_bytes e rest = omega (
    arith,
    length-append (octal e.mode) (32 ∷ (e.path ++ (0 ∷ (e.oid.hash ++ rest)))),
    length-append e.path (0 ∷ (e.oid.hash ++ rest)),
    length-append e.oid.hash rest,
  )

  parse_entries_step :
      (fuel : ℕ) (bytes : List ℕ) (r : TreeEntry × List ℕ)
      → 0 < length bytes
      → parse_entry strtoul8 bytes ≡ ok r
      → parse_entries strtoul8 (suc fuel) bytes
        ≡ (parse_entries strtoul8 fuel r.1 >>= λ es. ok (r.0 ∷ es))
  unfolding parse_entries
  parse_entries_step fuel [] r some_byte h = absurd (omega arith)
  parse_entries_step fuel (b ∷ bs) r some_byte h = rw h refl

  parse_entries-nil : (fuel : ℕ) → length {A = ℕ} [] ≤ fuel → parse_entries strtoul8 fuel [] ≡ ok []
  unfolding parse_entries
  parse_entries-nil fuel enough = refl

  parse_more :
      (fuel : ℕ) (e : TreeEntry) (es : List TreeEntry) (bytes : List ℕ)
      → IsWritable e
      → length bytes + 1 ≤ length (entry_bytes e bytes)
      → length (entry_bytes e bytes) ≤ fuel
      → ((fuel : ℕ) → length bytes ≤ fuel → parse_entries strtoul8 fuel bytes ≡ ok es)
      → parse_entries strtoul8 fuel (entry_bytes e bytes) ≡ ok (e ∷ es)
  parse_more zero e es bytes v longer enough back = absurd (omega arith)
  parse_more (suc fuel) e es bytes v longer enough back =
      parse_entries_step fuel (entry_bytes e bytes) (e, bytes) (omega arith)
        (parse_entry-bytes e bytes v)
      ∙ rw (back fuel (omega arith)) refl

  -- The writer succeeds, the size it was given is exact, and the parser reads the entries back.
  abbrev pub Reads : List TreeEntry → Type 0
  Reads es =
      (bytes : List ℕ) × (tree_serialize_write octal es ≡ ok bytes)
      × (length bytes ≡ tree_serialize_size octal es)
      × ((fuel : ℕ) → length bytes ≤ fuel → parse_entries strtoul8 fuel bytes ≡ ok es)

  write-Reads : (es : List TreeEntry) → All IsWritable es → Reads es
  unfolding tree_serialize_write tree_serialize_size mode_bytes
  write-Reads [] all = ([], refl, refl, parse_entries-nil)
  write-Reads (e ∷ es) (v, all) =
      let (bytes, run, size, back) = write-Reads es all in
      let text : ltb (length (octal e.mode)) 8 ≡ true = ground (arith, v.digits) in
      let long = length-entry_bytes e bytes in
      (
        entry_bytes e bytes,
        rw (text, run) refl,
        omega (arith, long, size),
        λ fuel enough. parse_more fuel e es bytes v (omega (arith, long)) enough back,
      )

  -- Writable entries are written in as many bytes as `tree_serialize_size` counts, and
  -- `tree_parse_raw` reads them back, sorted.
  pub tree_parse_raw-write :
      (qsort : List TreeEntry → List TreeEntry) (es : List TreeEntry)
      → All IsWritable es
      → (bytes : List ℕ) × (tree_serialize_write octal es ≡ ok bytes)
        × (length bytes ≡ tree_serialize_size octal es)
        × (tree_parse_raw strtoul8 qsort bytes ≡ ok (qsort es))
  unfolding tree_parse_raw
  tree_parse_raw-write qsort es all =
      let (bytes, run, size, back) = write-Reads es all in
      (bytes, run, size, rw (back (length bytes) (omega arith)) refl)
