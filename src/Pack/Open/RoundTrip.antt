-- ===== src/Pack/Open/RoundTrip.antt =====
-- A pack that is written, closed and opened again.
use fastgit.Common.{
  ℕ, zero, suc, ◌+◌, ◌^◌, ◌≤◌, ◌<◌, ◌≡◌, refl, ap, ◌∙◌, arith, Bool, true, false, List, [], ◌∷◌,
  ◌++◌, length, take, drop, get_elem?, All, IsBytes, some, ok, ltb, length-append,
}
use fastgit.Index.Entry.{str_eq, str_eq_refl}
use fastgit.Index.Disk.{be32, read32}
use fastgit.Index.Disk.Words.{read32-be32}
use fastgit.Pack.Header.{encode_pack_header}
use fastgit.Pack.Read.{PackObject, Stream, ended}
use fastgit.Pack.Write.{
  PackWriter, pack_type, pack_create, pack_add_object, pack_add_all, pack_close,
}
use fastgit.Pack.Write.Stored.{name_of}
use fastgit.Pack.Write.RoundTrip.{IsStorable, ReadsBack}
use fastgit.Pack.Read.Entry.{fresh_pack}
use fastgit.Pack.IndexFile.{IndexData, write_index, index_load, index_of}
use fastgit.Pack.IndexFile.Opened.{pack_read_entry-index_load}
use fastgit.Pack.Open.{pack_word, pack_with_index, pack_open}

-- The bytes in front of the count.
abbrev front : List ℕ
front = 0x50 ∷ 0x41 ∷ 0x43 ∷ 0x4B ∷ 0 ∷ 0 ∷ 0 ∷ 2 ∷ []

take-append_inside : (n : ℕ) (xs ys : List ℕ) → n ≤ length xs → take n (xs ++ ys) ≡ take n xs
take-append_inside zero xs ys h = refl
take-append_inside (suc n) [] ys h = absurd (omega arith)
take-append_inside (suc n) (x ∷ xs) ys h =
    ap (λ zs. x ∷ zs) (take-append_inside n xs ys (omega arith))

module _ (digest : List ℕ → List ℕ) (decimal : ℕ → List ℕ) (compress : List ℕ → List ℕ)
    (crc32 : ℕ → List ℕ → ℕ) where
  -- The front of the file stays, and every object is counted.
  pack_add_all-front :
      (w : PackWriter) (os : List PackObject)
      → 8 ≤ length w.file
      → take 8 (pack_add_all digest decimal compress crc32 w os).file ≡ take 8 w.file
  unfolding pack_add_all pack_add_object
  pack_add_all-front w [] long = refl
  pack_add_all-front w (o ∷ os) long =
      let w' = pack_add_object digest decimal compress crc32 w o.type o.bytes in
      let more = encode_pack_header (pack_type o.type) (length o.bytes) ++ compress o.bytes in
      pack_add_all-front w' os (omega (arith, length-append w.file more))
      ∙ take-append_inside 8 w.file more long

  pack_add_all-count :
      (w : PackWriter) (os : List PackObject)
      → w.object_count + length os < 2 ^ 32
      → (pack_add_all digest decimal compress crc32 w os).object_count ≡ w.object_count + length os
  unfolding pack_add_all pack_add_object
  pack_add_all-count w [] few = omega arith
  pack_add_all-count w (o ∷ os) few =
      let w' = pack_add_object digest decimal compress crc32 w o.type o.bytes in
      let next : w'.object_count ≡ w.object_count + 1 = omega arith in
      omega (arith, next, pack_add_all-count w' os (omega (arith, next)))

-- The tests of `fastgit_pack_open` on a closed pack.
pack_open-front :
    (count : ℕ) (rest idx_file : List ℕ) (loaded : IndexData)
    → count < 2 ^ 32
    → index_load idx_file ≡ ok loaded
    → pack_open (front ++ (be32 count ++ rest)) idx_file
      ≡ ok (fresh_pack (front ++ (be32 count ++ rest)) (index_of loaded), count)
unfolding pack_open pack_with_index
pack_open-front count rest idx_file loaded few load =
    let file = front ++ (be32 count ++ rest) in
    let long : ltb (length file) 12 ≡ false = ground arith in
    let word : str_eq (take 4 file) pack_word ≡ true = str_eq_refl pack_word in
    let version : read32 (drop 4 file) ≡ 2 = read32-be32 2 (be32 count ++ rest) (omega arith) in
    let number : read32 (drop 8 file) ≡ count = read32-be32 count rest few in
    rw (long, word, version, load, number) refl

pack_close-front :
    (digest : List ℕ → List ℕ) (w : PackWriter)
    → take 8 w.file ≡ front
    → (rest : List ℕ) × (pack_close digest w ≡ front ++ (be32 w.object_count ++ rest))
unfolding pack_close
pack_close-front digest w same =
    (drop 12 w.file ++ digest (front ++ (be32 w.object_count ++ drop 12 w.file)), rw same refl)

pack_open-written :
    (digest : List ℕ → List ℕ) (w : PackWriter) (idx_file : List ℕ) (loaded : IndexData)
    → take 8 w.file ≡ front
    → w.object_count < 2 ^ 32
    → index_load idx_file ≡ ok loaded
    → pack_open (pack_close digest w) idx_file
      ≡ ok (fresh_pack (pack_close digest w) (index_of loaded), w.object_count)
pack_open-written digest w idx_file loaded same few load =
    let (rest, e) = pack_close-front digest w same in
    rw e (pack_open-front w.object_count rest idx_file loaded few load)

module _ (digest : List ℕ → List ℕ) (decimal : ℕ → List ℕ) (compress : List ℕ → List ℕ)
    (crc32 : ℕ → List ℕ → ℕ) (malloc : ℕ → Bool) (inflate : List ℕ → ℕ → Stream)
    (zlib : (d rest : List ℕ) → inflate (compress d ++ rest) (length d) ≡ ended d)
    (digest_size : (bytes : List ℕ) → length (digest bytes) ≡ 32)
    (digest_bytes : (bytes : List ℕ) → IsBytes (digest bytes))
    (crc32_word : (crc : ℕ) (bytes : List ℕ) → crc32 crc bytes < 2 ^ 32) where
  -- Objects of the four types, each shorter than 2 ^ 32 bytes, are added to a new pack of less than
  -- 2 ^ 31 bytes. If `inflate`, with room for the content and any bytes behind the stream, undoes
  -- `compress`, the hash gives 32 bytes and `crc32` 32 bits, the memory for every object can be had,
  -- and there are fewer than 2 ^ 31 objects: `fastgit_pack_open` opens the closed pack with the index that
  -- `fastgit_pack_index_create` writes, counts the objects, and `fastgit_pack_read_entry` finds every
  -- one of them by its name and returns an added object of that name.
  pub pack_open-pack_close :
      (objects : List PackObject)
      → All (IsStorable digest decimal compress crc32 malloc inflate zlib digest_size) objects
      → length (pack_close digest (pack_add_all digest decimal compress crc32 pack_create objects))
        < 2 ^ 31
      → length objects < 2 ^ 31
      → (idx_file : List ℕ) × (write_index digest
            (pack_add_all digest decimal compress crc32 pack_create objects).rows
            (pack_close digest (pack_add_all digest decimal compress crc32 pack_create objects))
          ≡ ok idx_file)
        × (loaded : IndexData) × (pack_open
              (pack_close digest (pack_add_all digest decimal compress crc32 pack_create objects))
              idx_file
            ≡ ok (
              fresh_pack
                  (pack_close digest
                    (pack_add_all digest decimal compress crc32 pack_create objects))
                  (index_of loaded),
              length objects,
            ))
        × ((i : ℕ) (o : PackObject)
            → get_elem? objects i ≡ some o
            → ReadsBack digest decimal compress crc32 malloc inflate zlib digest_size objects
                (index_of loaded)
                (name_of digest decimal o))
  unfolding pack_create
  pack_open-pack_close objects all small few =
      let w = pack_add_all digest decimal compress crc32 pack_create objects in
      let (idx_file, writes, loaded, load, reads) =
        pack_read_entry-index_load digest decimal compress crc32 malloc inflate zlib digest_size
          digest_bytes crc32_word objects all small in
      let same : take 8 w.file ≡ front =
        pack_add_all-front digest decimal compress crc32 pack_create objects (omega arith) in
      let count : w.object_count ≡ length objects = omega (
        arith,
        pack_add_all-count digest decimal compress crc32 pack_create objects (omega arith),
      ) in
      let opens = pack_open-written digest w idx_file loaded same (omega (arith, count)) load in
      (
        idx_file,
        writes,
        loaded,
        opens ∙ ap (λ (n : ℕ). ok (fresh_pack (pack_close digest w) (index_of loaded), n)) count,
        reads,
      )
