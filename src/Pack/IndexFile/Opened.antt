-- ===== src/Pack/IndexFile/Opened.antt =====
-- A pack and its index, both written to their files and opened again.
use fastgit.Common.{
  ℕ, ◌+◌, ◌-◌, ◌^◌, ◌<◌, ◌≡◌, refl, ap, ◌∙◌, arith, Bool, Bool-cases, inl, inr, List, [], ◌∷◌, ◌++◌,
  length, map, get_elem?, get_or, All, All-map, All-append, IsBytes, some, ok, ◌==◌,
}
use fastgit.Pack.Lookup.{fanout_at, low, pack_index_find}
use fastgit.Pack.Read.{PackObject, Stream, ended}
use fastgit.Pack.Write.{
  Row, PackWriter, pack_create, pack_add_object, pack_add_all, pack_close, index_order, row_oid,
  row_offset,
}
use fastgit.Pack.Write.{oid_of_object}
use fastgit.Pack.Write.Stored.{name_of}
use fastgit.Pack.Write.RoundTrip.{
  IsStorable, written, ReadsBack, written-IsRow, few_rows, read_by_name,
}
use fastgit.Pack.IndexFile.{
  IndexData, fanout_from, write_index, index_load, index_of, row_crc, pack_tail,
}
use fastgit.Pack.IndexFile.Words.{get_or-fanout_from}
use fastgit.Pack.IndexFile.RoundTrip.{IsIndexed, index_load-write_index}

-- The search looks at the fan-out in two places.
pack_index_find-fanout :
    (f g : ℕ → ℕ) (oids : List (List ℕ)) (key : List ℕ)
    → ((i : ℕ) → i < 256 → f i ≡ g i)
    → get_or key 0 0 < 256
    → pack_index_find f oids key ≡ pack_index_find g oids key
unfolding pack_index_find
pack_index_find-fanout f g oids key same byte =
    let here = same (get_or key 0 0) byte in
    let below : low f (get_or key 0 0) ≡ low g (get_or key 0 0) =
      elim (Bool-cases (get_or key 0 0 == 0)) [
        | inl first ↦ rw first refl
        | inr later ↦ rw later (same (get_or key 0 0 - 1) (omega arith))
      ] in
    rw (here, below) refl

same_place : (oids : List (List ℕ)) (f : ℕ) → fanout_at oids (0 + f) ≡ fanout_at oids f
same_place oids f = let e : 0 + f ≡ f = omega arith in ap (fanout_at oids) e

first_byte : (bytes : List ℕ) → IsBytes bytes → get_or bytes 0 0 < 256
first_byte [] h = omega arith
first_byte (b ∷ bytes) (hb, h) = hb

module _ (digest : List ℕ → List ℕ) (decimal : ℕ → List ℕ) (compress : List ℕ → List ℕ)
    (crc32 : ℕ → List ℕ → ℕ)
    (crc32_word : (crc : ℕ) (bytes : List ℕ) → crc32 crc bytes < 2 ^ 32) where
  pack_add_all-crc :
      (w : PackWriter) (os : List PackObject)
      → All (λ r. r.crc < 2 ^ 32) w.rows
      → All (λ r. r.crc < 2 ^ 32) (pack_add_all digest decimal compress crc32 w os).rows
  unfolding pack_add_all pack_add_object
  pack_add_all-crc w [] h = h
  pack_add_all-crc w (o ∷ os) h =
      pack_add_all-crc (pack_add_object digest decimal compress crc32 w o.type o.bytes) os
        (All-append (λ r. r.crc < 2 ^ 32) w.rows _ h (crc32_word _ _, tt))

All-both {κ μ} :
    {A : Type 0} (P : A → Type κ) (Q : A → Type μ) (xs : List A)
    → All P xs
    → All Q xs
    → All (λ x. P x × Q x) xs
All-both P Q [] h k = tt
All-both P Q (x ∷ xs) (p, h) (q, k) = ((p, q), All-both P Q xs h k)

module _ (digest : List ℕ → List ℕ) (decimal : ℕ → List ℕ) (compress : List ℕ → List ℕ)
    (crc32 : ℕ → List ℕ → ℕ) (malloc : ℕ → Bool) (inflate : List ℕ → ℕ → Stream)
    (zlib : (d rest : List ℕ) → inflate (compress d ++ rest) (length d) ≡ ended d)
    (digest_size : (bytes : List ℕ) → length (digest bytes) ≡ 32)
    (digest_bytes : (bytes : List ℕ) → IsBytes (digest bytes))
    (crc32_word : (crc : ℕ) (bytes : List ℕ) → crc32 crc bytes < 2 ^ 32) where
  abbrev pub pack_file : List PackObject → List ℕ
  pack_file objects =
      pack_close digest
        (written digest decimal compress crc32 malloc inflate zlib digest_size objects)

  abbrev pub pack_rows : List PackObject → List Row
  pack_rows objects =
      (written digest decimal compress crc32 malloc inflate zlib digest_size objects).rows

  rows-IsIndexed :
      (objects : List PackObject)
      → All (IsStorable digest decimal compress crc32 malloc inflate zlib digest_size) objects
      → length (pack_file objects) < 2 ^ 31
      → All IsIndexed (pack_rows objects)
  unfolding oid_of_object pack_create
  rows-IsIndexed objects all small =
      let rows = pack_rows objects in
      let kept =
        written-IsRow digest decimal compress crc32 malloc inflate zlib digest_size objects all
          small in
      let crcs = pack_add_all-crc digest decimal compress crc32 crc32_word pack_create objects tt in
      All-map _ IsIndexed rows
        (λ row r. record {
          sized = ap length r.0.0.named ∙ digest_size _;
          first = rw r.0.0.named (first_byte _ (digest_bytes _));
          crc = r.1;
          offset = omega (arith, r.0.0.inside);
        })
        (All-both _ _ rows kept crcs)

  -- Objects of the four types are added to a new pack of less than 2 ^ 31 bytes; if `inflate` undoes
  -- `compress`, the index that `fastgit_pack_index_create` writes can be loaded, and with it
  -- `fastgit_pack_read_entry` finds every object by its name and returns an added object of that name.
  pub pack_read_entry-index_load :
      (objects : List PackObject)
      → All (IsStorable digest decimal compress crc32 malloc inflate zlib digest_size) objects
      → length (pack_file objects) < 2 ^ 31
      → (idx_file : List ℕ) × (write_index digest (pack_rows objects) (pack_file objects)
          ≡ ok idx_file)
        × (loaded : IndexData) × (index_load idx_file ≡ ok loaded)
        × ((i : ℕ) (o : PackObject)
            → get_elem? objects i ≡ some o
            → ReadsBack digest decimal compress crc32 malloc inflate zlib digest_size objects
                (index_of loaded)
                (name_of digest decimal o))
  unfolding oid_of_object
  pack_read_entry-index_load objects all small =
      let rows = pack_rows objects in
      let oids = map row_oid (index_order rows) in
      let few =
        few_rows digest decimal compress crc32 malloc inflate zlib digest_size objects all small in
      let again =
        index_load-write_index digest rows (pack_file objects) digest_size
          (rows-IsIndexed objects all small) (omega (arith, few)) in
      (
        again.file,
        again.writes,
        record {
          fanout = fanout_from 256 0 oids;
          oids = oids;
          crc32s = map row_crc (index_order rows);
          offsets = map row_offset (index_order rows);
          pack_checksum = some (pack_tail 32 (pack_file objects));
        },
        again.loads,
        λ i o at.
            read_by_name digest decimal compress crc32 malloc inflate zlib digest_size objects i o _
              all small at refl
              (pack_index_find-fanout (λ f. get_or (fanout_from 256 0 oids) f 0) (fanout_at oids)
                oids (name_of digest decimal o)
                (λ f below. get_or-fanout_from 256 0 f oids below ∙ same_place oids f)
                (first_byte (name_of digest decimal o) (digest_bytes _))),
      )
