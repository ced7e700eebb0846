-- ===== src/Pack/IndexFile/RoundTrip.antt =====
-- The file of a pack index, written and loaded.
use fastgit.Common.{
  ℕ, zero, suc, ◌+◌, ◌-◌, ◌*◌, ◌%◌, ◌^◌, ◌<◌, ◌≡◌, refl, sym, ap, ◌∙◌, arith, true, false, List, [],
  ◌∷◌, ◌++◌, length, take, drop, map, get_or, All, All-map, ltb, leb, some, ok, length-append,
  length-drop, length-take, take-length-append, append_assoc, length-replicate, Bool-cases, inl,
  inr,
}
use fastgit.Index.Entry.{str_eq, str_eq_refl}
use fastgit.Pack.Lookup.{fanout_at}
use fastgit.Pack.Lookup.Search.{fanout_at-le}
use fastgit.Pack.Write.{Row, index_order, row_oid, row_offset}
use mathlib.Core.List.{Permᴰ}
use fastgit.Pack.Write.Order.{IsAscending, index_order-All, index_order-IsAscending}
use fastgit.Pack.Write.Permuted.{index_order-Permᴰ}
use fastgit.Pack.Write.Rows.{length-names, length-map_row}
use fastgit.Pack.IndexFile.{
  index_magic, write_words, write_oids, fanout_from, row_crc, oid_length, pack_tail, index_body,
  write_index, read_words, detect_length, load_tables, index_load,
}
use fastgit.Pack.IndexFile.Words.{
  IsWords, HasLength, read_words-write_words, drop-write_words, length-write_words,
  read_oids-write_oids, get_or-fanout_from, length-fanout_from, large_offsets-small,
  detect_length-32,
}

write_words-append :
    (xs rest behind : List ℕ) → write_words xs rest ++ behind ≡ write_words xs (rest ++ behind)
unfolding write_words
write_words-append [] rest behind = refl
write_words-append (x ∷ xs) rest behind = rw (write_words-append xs rest behind) refl

write_oids-append :
    (size : ℕ) (os : List (List ℕ)) (rest behind : List ℕ)
    → write_oids size os rest ++ behind ≡ write_oids size os (rest ++ behind)
unfolding write_oids
write_oids-append size [] rest behind = refl
write_oids-append size (o ∷ os) rest behind =
    append_assoc (take size o) (write_oids size os rest) behind
    ∙ ap (λ xs. take size o ++ xs) (write_oids-append size os rest behind)

-- The tables of names, checksums and offsets, with 32 bytes of a checksum behind.
module _ (oids : List (List ℕ)) (crcs offs sum behind : List ℕ) where
  abbrev tables : List ℕ
  tables = write_oids 32 oids (write_words crcs (write_words offs (sum ++ behind)))

  length-tables :
      HasLength 32 oids
      → length tables
        ≡ length oids * 32 + length crcs * 4 + length offs * 4 + length (sum ++ behind)
  length-tables sized =
      let (_, _, size) =
        read_oids-write_oids 32 oids (write_words crcs (write_words offs (sum ++ behind))) sized in
      omega (
        arith,
        size,
        length-write_words crcs (write_words offs (sum ++ behind)),
        length-write_words offs (sum ++ behind),
      )

  load_tables-written :
      (fanout : List ℕ)
      → HasLength 32 oids
      → length crcs ≡ length oids
      → length offs ≡ length oids
      → IsWords crcs
      → All (λ x. x < 2 ^ 31) offs
      → IsWords offs
      → length sum ≡ 32
      → load_tables fanout (length oids) 32 tables
        ≡ ok (record {
          fanout = fanout;
          oids = oids;
          crc32s = crcs;
          offsets = offs;
          pack_checksum = some sum;
        })
  unfolding load_tables
  load_tables-written fanout sized same same' words low words' long =
      let n = length oids in
      let rest = write_words offs (sum ++ behind) in
      let (names, left, size) = read_oids-write_oids 32 oids (write_words crcs rest) sized in
      let whole : ltb (length tables) (n * 32 + n * 4 + n * 4) ≡ false =
        ground (arith, length-tables sized) in
      let crc = rw same at (read_words-write_words crcs rest words) in
      let crc_left = rw same at (drop-write_words crcs rest) in
      let off = rw same' at (read_words-write_words offs (sum ++ behind) words') in
      let off_left = rw same' at (drop-write_words offs (sum ++ behind)) in
      let large = large_offsets-small offs (sum ++ behind) low in
      let more : leb 32 (length (sum ++ behind)) ≡ true =
        ground (arith, length-append sum behind) in
      let first : take 32 (sum ++ behind) ≡ sum =
        ap (λ k. take k (sum ++ behind)) (sym long) ∙ take-length-append sum behind in
      rw (whole, left, crc_left, off, off_left, large, names, crc, more, first) refl

-- The fan-out counts every name of bytes at 255, and its numbers are small.
fanout_at-last :
    (oids : List (List ℕ)) → All (λ o. get_or o 0 0 < 256) oids → fanout_at oids 255 ≡ length oids
unfolding fanout_at
fanout_at-last [] h = refl
fanout_at-last (o ∷ oids) (ho, h) = ground (arith, fanout_at-last oids h)

fanout_from-IsWords :
    (n f : ℕ) (oids : List (List ℕ)) → length oids < 2 ^ 32 → IsWords (fanout_from n f oids)
unfolding fanout_from
fanout_from-IsWords zero f oids few = tt
fanout_from-IsWords (suc n) f oids few =
    (omega (arith, fanout_at-le oids f), fanout_from-IsWords n (f + 1) oids few)

All-over_map {ℓ κ} :
    {B : Type ℓ} (P : B → Type κ) (f : Row → B) (rows : List Row)
    → All (λ r. P (f r)) rows
    → All P (map f rows)
All-over_map P f [] h = tt
All-over_map P f (r ∷ rows) (p, h) = (p, All-over_map P f rows h)

-- A row that the file can hold: a name of 32 bytes, a checksum of 32 bits, an offset of 31.
pub record IsIndexed (r : Row) : Type 0 where
  pub sized : length r.oid ≡ 32
  pub first : get_or r.oid 0 0 < 256
  pub crc : r.crc < 2 ^ 32
  pub offset : r.offset < 2 ^ 31

oid_length-32 : (rows : List Row) → All IsIndexed rows → oid_length rows ≡ 32
oid_length-32 [] h = refl
oid_length-32 (r ∷ rows) (v, h) = v.sized

low_offset : (r : Row) → IsIndexed r → r.offset % 2 ^ 32 < 2 ^ 31
low_offset r v = omega (arith, v.offset)

length-pack_tail : (pack : List ℕ) → length (pack_tail 32 pack) ≡ 32
unfolding pack_tail
length-pack_tail pack = elim (Bool-cases (leb 32 (length pack))) [
  | inl long ↦ rw long (
      ground (
        arith,
        long,
        length-take 32 (drop (length pack - 32) pack),
        length-drop (length pack - 32) pack,
      ))
  | inr short ↦ rw short (length-replicate {A = ℕ} 32 0)
]

-- The file is the signature, the fan-out and the tables.
index_body-tables :
    (rows : List Row) (pack behind : List ℕ)
    → All IsIndexed rows
    → index_body rows pack ++ behind
      ≡ index_magic
        ++ write_words (fanout_from 256 0 (map row_oid (index_order rows))) (
            tables
              (map row_oid (index_order rows))
              (map row_crc (index_order rows))
              (map row_offset (index_order rows))
              (pack_tail 32 pack)
              behind)
unfolding index_body
index_body-tables rows pack behind all =
    let oids = map row_oid (index_order rows) in
    let crcs = map row_crc (index_order rows) in
    let offs = map row_offset (index_order rows) in
    let tail = pack_tail 32 pack in
    let inner = write_words crcs (write_words offs tail) in
    rw (oid_length-32 rows all) (
      ap (λ xs. index_magic ++ xs)
        (write_words-append (fanout_from 256 0 oids) (write_oids 32 oids inner) behind
          ∙ ap (write_words (fanout_from 256 0 oids)) (
              write_oids-append 32 oids inner behind
              ∙ ap (write_oids 32 oids) (
                  write_words-append crcs (write_words offs tail) behind
                  ∙ ap (write_words crcs) (write_words-append offs tail behind)))))

index_load-bytes :
    (fanout rest : List ℕ)
    → IsWords fanout
    → length fanout ≡ 256
    → index_load (index_magic ++ write_words fanout rest)
      ≡ load_tables fanout
          (get_or fanout 255 0)
          (detect_length (1032 + length rest) (get_or fanout 255 0) (20 ∷ 32 ∷ 48 ∷ 64 ∷ []))
          rest
unfolding index_load
index_load-bytes fanout rest words size =
    let bytes = index_magic ++ write_words fanout rest in
    let magic : str_eq (take 8 bytes) index_magic ≡ true = str_eq_refl index_magic in
    let total : length bytes ≡ 1032 + length rest =
      omega (arith, length-write_words fanout rest, size) in
    let long : ltb (1032 + length rest) (8 + 1024) ≡ false = ground arith in
    let numbers : read_words 256 (drop 8 bytes) ≡ fanout =
      rw size at (read_words-write_words fanout rest words) in
    let behind : drop 1032 bytes ≡ rest =
      ap (λ n. drop n (write_words fanout rest)) (ap (λ n. n * 4) (sym size))
      ∙ drop-write_words fanout rest in
    rw (magic, numbers, behind, total, long) refl

-- An index file that was written and loaded again, and the order of its rows.
pub record Reloaded (digest : List ℕ → List ℕ) (rows : List Row) (pack : List ℕ) : Type 0 where
  pub file : List ℕ
  pub writes : write_index digest rows pack ≡ ok file
  pub loads :
      index_load file
      ≡ ok (record {
        fanout = fanout_from 256 0 (map row_oid (index_order rows));
        oids = map row_oid (index_order rows);
        crc32s = map row_crc (index_order rows);
        offsets = map row_offset (index_order rows);
        pack_checksum = some (pack_tail 32 pack);
      })
  pub ascending : IsAscending (index_order rows)
  pub same_rows : Permᴰ rows (index_order rows)

-- `fastgit_pack_index_create` writes a file for fewer than 2 ^ 31 rows that it can hold, and
-- `fastgit_pack_index_load` loads it: the fan-out, the names, checksums and offsets of the same rows
-- in the ascending order of their names, and the hash at the end of the pack. The hash of the file
-- has 32 bytes.
pub index_load-write_index :
    (digest : List ℕ → List ℕ) (rows : List Row) (pack : List ℕ)
    → ((bytes : List ℕ) → length (digest bytes) ≡ 32)
    → All IsIndexed rows
    → length rows < 2 ^ 31
    → Reloaded digest rows pack
unfolding write_index
index_load-write_index digest rows pack size all few =
    let order = index_order rows in
    let oids = map row_oid order in
    let crcs = map row_crc order in
    let offs = map row_offset order in
    let tail = pack_tail 32 pack in
    let behind = digest (index_body rows pack) in
    let fanout = fanout_from 256 0 oids in
    let n = length oids in
    let kept = index_order-All IsIndexed rows all in
    let sized : HasLength 32 oids =
      All-over_map (λ o. length o ≡ 32) row_oid order (All-map _ _ order (λ r v. v.sized) kept) in
    let words : IsWords crcs =
      All-over_map (λ x. x < 2 ^ 32) row_crc order (All-map _ _ order (λ r v. v.crc) kept) in
    let low : All (λ x. x < 2 ^ 31) offs =
      All-over_map (λ x. x < 2 ^ 31) row_offset order (All-map _ _ order low_offset kept) in
    let words' : IsWords offs = All-map _ _ offs (λ x h. omega arith) low in
    let bytes : All (λ o. get_or o 0 0 < 256) oids =
      All-over_map (λ o. get_or o 0 0 < 256) row_oid order
        (All-map _ _ order (λ r v. v.first) kept) in
    let all_names = length-names rows in
    let same : length crcs ≡ n = length-map_row row_crc rows ∙ sym all_names in
    let same' : length offs ≡ n = length-map_row row_offset rows ∙ sym all_names in
    let count : get_or fanout 255 0 ≡ n =
      get_or-fanout_from 256 0 255 oids (omega arith) ∙ fanout_at-last oids bytes in
    let long = length-pack_tail pack in
    let rest = tables oids crcs offs tail behind in
    let total : 1032 + length rest ≡ 1032 + n * 32 + n * 4 + n * 4 + 64 = omega (
      arith,
      length-tables oids crcs offs tail behind sized,
      length-append tail behind,
      long,
      size (index_body rows pack),
      same,
      same',
    ) in
    let hash_len = detect_length-32 (1032 + length rest) n total in
    let load =
      load_tables-written oids crcs offs tail behind fanout sized same same' words low words'
        long in
    let few_rows : ltb (2 ^ 31 + 1) (length rows) ≡ false = ground arith in
    let (ascending, _) = index_order-IsAscending 32 rows (All-map _ _ rows (λ r v. v.sized) all) in
    record {
      file = index_body rows pack ++ behind;
      writes = rw few_rows refl;
      loads =
          ap index_load (index_body-tables rows pack behind all)
          ∙ index_load-bytes fanout rest (fanout_from-IsWords 256 0 oids (omega (arith, all_names)))
              (length-fanout_from 256 0 oids)
          ∙ rw (count, hash_len) load;
      ascending = ascending;
      same_rows = index_order-Permᴰ rows;
    }
