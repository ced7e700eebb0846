-- ===== src/Pack/Write/Stored.antt =====
-- Where the objects of a pack that is written stand.
use fastgit.Common.{
  ℕ, zero, suc, ◌^◌, ◌≤◌, ◌<◌, ◌≡◌, refl, sym, ap, ◌∙◌, arith, List, [], ◌∷◌, ◌++◌, length, drop,
  All, All-append, append_assoc, append-nil, length-append, get_elem?, some, drop-length-append,
  inl, inr, ◌⊎◌,
}
use fastgit.Pack.Header.{encode_pack_header}
use fastgit.Pack.Read.{PackObject}
use fastgit.Pack.Write.{
  Row, PackWriter, pack_create, pack_type, oid_of_object, pack_add_object, pack_add_all,
}
use fastgit.Pack.Write.Names.{Any}

drop-append_inside : (n : ℕ) (xs ys : List ℕ) → n ≤ length xs → drop n (xs ++ ys) ≡ drop n xs ++ ys
drop-append_inside zero xs ys h = refl
drop-append_inside (suc n) [] ys h = absurd (omega arith)
drop-append_inside (suc n) (x ∷ xs) ys h = drop-append_inside n xs ys (omega arith)

length-encode_pack_header_pos : (type size : ℕ) → 0 < length (encode_pack_header type size)
unfolding encode_pack_header
length-encode_pack_header_pos type size = omega arith

-- The name of an object.
abbrev pub name_of : (List ℕ → List ℕ) → (ℕ → List ℕ) → PackObject → List ℕ
name_of digest decimal o = oid_of_object digest decimal o.type o.bytes

module _ (digest : List ℕ → List ℕ) (decimal : ℕ → List ℕ) (compress : List ℕ → List ℕ)
    (crc32 : ℕ → List ℕ → ℕ) where
  -- The row names an object of which `P` holds, and the object stands at its offset.
  pub record IsWritten (P : PackObject → Type 0) (file : List ℕ) (row : Row) : Type 0 where
    pub object : PackObject
    pub known : P object
    pub named : row.oid ≡ name_of digest decimal object
    pub behind : List ℕ
    pub here :
        drop row.offset file
        ≡ encode_pack_header (pack_type object.type) (length object.bytes)
          ++ (compress object.bytes ++ behind)
    pub above : 12 ≤ row.offset
    pub inside : row.offset ≤ length file

  pub append-IsWritten :
      (P : PackObject → Type 0) (file more : List ℕ) (row : Row)
      → IsWritten P file row
      → (w : IsWritten P (file ++ more) row) × (length more ≤ length w.behind)
  append-IsWritten P file more row w =
      let header = encode_pack_header (pack_type w.object.type) (length w.object.bytes) in
      let body = compress w.object.bytes in
      (
        record {
          object = w.object;
          known = w.known;
          named = w.named;
          behind = w.behind ++ more;
          here =
              drop-append_inside row.offset file more w.inside
              ∙ ap (λ xs. xs ++ more) w.here
              ∙ append_assoc header (body ++ w.behind) more
              ∙ ap (λ xs. header ++ xs) (append_assoc body w.behind more);
          above = w.above;
          inside = omega (arith, w.inside, length-append file more);
        },
        omega (arith, length-append w.behind more),
      )

  append-All :
      (P : PackObject → Type 0) (file more : List ℕ) (rows : List Row)
      → All (IsWritten P file) rows
      → All (IsWritten P (file ++ more)) rows
  append-All P file more [] all = tt
  append-All P file more (r ∷ rows) (w, all) =
      ((append-IsWritten P file more r w).0, append-All P file more rows all)

  -- What holds of a pack while it is written.
  pub record IsPacking (P : PackObject → Type 0) (w : PackWriter) : Type 0 where
    pub rows : All (IsWritten P w.file) w.rows
    pub offset : w.cur_offset ≡ length w.file
    pub header : 12 ≤ length w.file
    pub count : length w.rows ≤ length w.file

  pub pack_create-IsPacking : (P : PackObject → Type 0) → IsPacking P pack_create
  unfolding pack_create
  pack_create-IsPacking P = record {
    rows = tt;
    offset = refl;
    header = omega arith;
    count = omega arith;
  }

  pack_add_object-IsPacking :
      (P : PackObject → Type 0) (w : PackWriter) (o : PackObject)
      → P o
      → IsPacking P w
      → length (pack_add_object digest decimal compress crc32 w o.type o.bytes).file < 2 ^ 64
      → IsPacking P (pack_add_object digest decimal compress crc32 w o.type o.bytes)
  unfolding pack_add_object
  pack_add_object-IsPacking P w o p v small =
      let hdr = encode_pack_header (pack_type o.type) (length o.bytes) in
      let comp = compress o.bytes in
      let size = length-append w.file (hdr ++ comp) in
      let size' = length-append hdr comp in
      let row : Row = record {
        oid = name_of digest decimal o;
        crc = crc32 (crc32 0 hdr) comp;
        offset = w.cur_offset;
      } in
      record {
        rows =
            All-append (IsWritten P (w.file ++ (hdr ++ comp))) w.rows _
              (append-All P w.file (hdr ++ comp) w.rows v.rows)
              (
                record {
                  object = o;
                  known = p;
                  named = refl;
                  behind = [];
                  here =
                      ap (λ n. drop n (w.file ++ (hdr ++ comp))) v.offset
                      ∙ drop-length-append w.file (hdr ++ comp)
                      ∙ ap (λ xs. hdr ++ xs) (sym (append-nil comp));
                  above = omega (arith, v.offset, v.header);
                  inside = omega (arith, v.offset, size);
                },
                tt,
              );
        offset = omega (arith, v.offset, size, size');
        header = omega (arith, v.header, size);
        count = omega (
          arith,
          v.count,
          size,
          size',
          length-encode_pack_header_pos (pack_type o.type) (length o.bytes),
          length-append w.rows (row ∷ []),
        );
      }

  le-pack_add_all :
      (w : PackWriter) (os : List PackObject)
      → length w.file ≤ length (pack_add_all digest decimal compress crc32 w os).file
  unfolding pack_add_all pack_add_object
  le-pack_add_all w [] = omega arith
  le-pack_add_all w (o ∷ os) =
      let hdr = encode_pack_header (pack_type o.type) (length o.bytes) in
      omega (
        arith,
        length-append w.file (hdr ++ compress o.bytes),
        le-pack_add_all (pack_add_object digest decimal compress crc32 w o.type o.bytes) os,
      )

  pub pack_add_all-IsPacking :
      (P : PackObject → Type 0) (w : PackWriter) (os : List PackObject)
      → All P os
      → IsPacking P w
      → length (pack_add_all digest decimal compress crc32 w os).file < 2 ^ 64
      → IsPacking P (pack_add_all digest decimal compress crc32 w os)
  unfolding pack_add_all
  pack_add_all-IsPacking P w [] all v small = v
  pack_add_all-IsPacking P w (o ∷ os) (p, all) v small =
      let w' = pack_add_object digest decimal compress crc32 w o.type o.bytes in
      pack_add_all-IsPacking P w' os all
        (pack_add_object-IsPacking P w o p v (omega (arith, le-pack_add_all w' os))) small

  Any-append : (Q : Row → Type 0) (rs ss : List Row) → Any Q rs ⊎ Any Q ss → Any Q (rs ++ ss)
  Any-append Q [] ss (inl h) = absurd h
  Any-append Q [] ss (inr h) = h
  Any-append Q (r ∷ rs) ss (inl (inl q)) = inl q
  Any-append Q (r ∷ rs) ss (inl (inr h)) = inr (Any-append Q rs ss (inl h))
  Any-append Q (r ∷ rs) ss (inr h) = inr (Any-append Q rs ss (inr h))

  -- A name that has a row keeps it, and every object gets one.
  pub pack_add_all-Any :
      (w : PackWriter) (os : List PackObject) (key : List ℕ)
      → Any (λ r. r.oid ≡ key) w.rows
        ⊎ ((i : ℕ) × (o : PackObject) × (get_elem? os i ≡ some o)
            × (name_of digest decimal o ≡ key))
      → Any (λ r. r.oid ≡ key) (pack_add_all digest decimal compress crc32 w os).rows
  unfolding pack_add_all pack_add_object
  pack_add_all-Any w [] key (inl h) = h
  pack_add_all-Any w [] key (inr (i, o, at, named)) = absurd (cc)
  pack_add_all-Any w (x ∷ os) key (inl h) =
      pack_add_all-Any (pack_add_object digest decimal compress crc32 w x.type x.bytes) os key
        (inl (Any-append (λ r. r.oid ≡ key) w.rows _ (inl h)))
  pack_add_all-Any w (x ∷ os) key (inr (zero, o, at, named)) =
      let same : x ≡ o = cc in
      pack_add_all-Any (pack_add_object digest decimal compress crc32 w x.type x.bytes) os key (
        inl (
          Any-append (λ r. r.oid ≡ key) w.rows _
            (inr (inl (ap (name_of digest decimal) same ∙ named)))))
  pack_add_all-Any w (x ∷ os) key (inr (suc i, o, at, named)) =
      pack_add_all-Any (pack_add_object digest decimal compress crc32 w x.type x.bytes) os key
        (inr (i, o, at, named))
