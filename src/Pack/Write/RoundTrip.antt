-- ===== src/Pack/Write/RoundTrip.antt =====
-- A pack that is written object by object and closed, read by the names of its objects.
use fastgit.Common.{
  take, drop, length-take, ℕ, ◌+◌, ◌%◌, ◌^◌, ◌≤◌, ◌<◌, ◌≡◌, refl, sym, ap, ◌∙◌, arith, Bool, true,
  inr, List, ◌++◌, length, map, get_elem?, All, All-map, All-at, get_elem?-All, some, ok,
  length-append, length-drop,
}
use fastgit.Index.Disk.{be32}
use fastgit.Pack.Header.{encode_pack_header}
use fastgit.Pack.Lookup.{fanout_at, pack_index_find}
use fastgit.Pack.Lookup.Search.{pack_index_find-found}
use fastgit.Pack.Read.{
  Pack, PackIndex, PackObject, Stream, ended, pack_obj_type_from_git, pack_read_object_at,
  pack_read_entry,
}
use fastgit.Pack.Read.Chains.{Chain, pack_read_object_at-Chain}
use fastgit.Pack.Write.{
  Row, PackWriter, pack_create, pack_type, pack_add_all, pack_close, index_order, oid_of_object,
  row_oid, row_offset, pack_index_create,
}
use fastgit.Pack.Write.Order.{IsSized, index_order-All}
use fastgit.Pack.Write.Names.{index_order-Any, get_elem?-Any, get_elem?-row, index_order-IsTableOf}
use fastgit.Pack.Write.Rows.{
  pack_obj_type_from_git-pack_type, pack_type_lt, length-names, get_elem?-row_offset,
}
use fastgit.Pack.Read.Entry.{fresh_pack, pack_read_entry_steps}
use fastgit.Pack.Write.Closed.{pack_close-IsWritten}
use fastgit.Pack.Write.Stored.{
  name_of, IsWritten, IsPacking, pack_create-IsPacking, pack_add_all-IsPacking, pack_add_all-Any,
}

module _ (digest : List ℕ → List ℕ) (decimal : ℕ → List ℕ) (compress : List ℕ → List ℕ)
    (crc32 : ℕ → List ℕ → ℕ) (malloc : ℕ → Bool) (inflate : List ℕ → ℕ → Stream)
    (zlib : (d rest : List ℕ) → inflate (compress d ++ rest) (length d) ≡ ended d)
    (digest_size : (bytes : List ℕ) → length (digest bytes) ≡ 32) where
  -- An object of one of the four types, shorter than 2 ^ 32 bytes, with memory for it.
  pub record IsStorable (o : PackObject) : Type 0 where
    pub above : 0 < o.type
    pub below : o.type < 5
    pub size : length o.bytes < 2 ^ 32
    pub memory : malloc (length o.bytes) ≡ true

  -- The pack after its objects are added, in its file and its index.
  abbrev pub written : List PackObject → PackWriter
  written objects = pack_add_all digest decimal compress crc32 pack_create objects

  abbrev pub IsMember : List PackObject → PackObject → Type 0
  IsMember objects o = IsStorable o × (j : ℕ) × (get_elem? objects j ≡ some o)

  abbrev pub IsRow : List PackObject → Row → Type 0
  IsRow objects row =
      (v : IsWritten digest decimal compress crc32 (IsMember objects)
        (pack_close digest (written objects)) row)
      × (32 ≤ length v.behind)

  le-pack_close : (w : PackWriter) → length w.file ≤ length (pack_close digest w)
  unfolding pack_close
  le-pack_close w = omega (
    arith,
    length-append (take 8 w.file ++ (be32 w.object_count ++ drop 12 w.file))
        (digest (take 8 w.file ++ (be32 w.object_count ++ drop 12 w.file))),
    length-append (take 8 w.file) (be32 w.object_count ++ drop 12 w.file),
    length-take 8 w.file,
    length-drop 12 w.file,
  )

  written-IsPacking :
      (objects : List PackObject)
      → All IsStorable objects
      → length (pack_close digest (written objects)) < 2 ^ 31
      → IsPacking digest decimal compress crc32 (IsMember objects) (written objects)
  written-IsPacking objects all small =
      let members : All (IsMember objects) objects =
        All-at (IsMember objects) objects
          (λ i x h. (get_elem?-All IsStorable objects i x all h, i, h)) in
      pack_add_all-IsPacking digest decimal compress crc32 (IsMember objects) pack_create objects
        members (pack_create-IsPacking digest decimal compress crc32 (IsMember objects))
        (omega (arith, le-pack_close (written objects)))

  pub few_rows :
      (objects : List PackObject)
      → All IsStorable objects
      → length (pack_close digest (written objects)) < 2 ^ 31
      → length (written objects).rows < 2 ^ 31
  few_rows objects all small =
      omega (arith, (written-IsPacking objects all small).count, le-pack_close (written objects))

  pub written-IsRow :
      (objects : List PackObject)
      → All IsStorable objects
      → length (pack_close digest (written objects)) < 2 ^ 31
      → All (IsRow objects) (written objects).rows
  written-IsRow objects all small =
      let packing = written-IsPacking objects all small in
      All-map _ (IsRow objects) (written objects).rows
        (λ row v.
          pack_close-IsWritten digest decimal compress crc32 (IsMember objects) (written objects)
            row digest_size packing.header v)
        packing.rows

  -- A row is read as the object that it names.
  read_row :
      (objects : List PackObject) (idx : PackIndex) (row : Row)
      → length (pack_close digest (written objects)) < 2 ^ 31
      → (r : IsRow objects row)
      → (row.offset % 2 ^ 32 ≡ row.offset)
        × (pack_read_object_at malloc inflate
              (fresh_pack (pack_close digest (written objects)) idx)
              33
              row.offset
            ≡ ok r.0.object)
  read_row objects idx row small (v, long) =
      let o = v.object in
      let storable = v.known.0 in
      let type = pack_obj_type_from_git-pack_type o.type storable.above storable.below in
      let header = encode_pack_header (pack_type o.type) (length o.bytes) in
      let file = pack_close digest (written objects) in
      let room : row.offset + 12 ≤ length file = omega (
        arith,
        ap length v.here,
        length-drop row.offset file,
        length-append header (compress o.bytes ++ v.behind),
        length-append (compress o.bytes) v.behind,
        long,
      ) in
      let chain : Chain malloc compress inflate zlib (fresh_pack file idx) 0 row.offset
          (record { type = pack_obj_type_from_git (pack_type o.type); bytes = o.bytes }) =
        Chain.plain row.offset (pack_type o.type) o.bytes v.behind v.here room long
          (pack_type_lt o.type) storable.size storable.memory in
      (
        omega (arith, room),
        pack_read_object_at-Chain malloc compress inflate zlib (fresh_pack file idx) 33
              (omega arith) chain
            ∙ ap (λ (t : ℕ). ok (record { type = t; bytes = o.bytes })) type,
      )

  pub rows-IsSized :
      (objects : List PackObject)
      → All (IsRow objects) (written objects).rows
      → IsSized 32 (written objects).rows
  unfolding oid_of_object
  rows-IsSized objects all =
      All-map (IsRow objects) (λ r. length r.oid ≡ 32) (written objects).rows
        (λ row r. ap length r.0.named ∙ digest_size _) all

  -- What a read by the name of an object gives.
  abbrev pub ReadsBack : List PackObject → PackIndex → List ℕ → Type 0
  ReadsBack objects idx key =
      (j : ℕ) × (m : PackObject) × (pack' : Pack) × (get_elem? objects j ≡ some m)
      × (name_of digest decimal m ≡ key)
      × (pack_read_entry malloc inflate (fresh_pack (pack_close digest (written objects)) idx) key
          ≡ ok (pack', m))

  -- The same for any index that has the names and offsets, and a fan-out that leads to the same place.
  pub read_by_name :
      (objects : List PackObject) (i : ℕ) (o : PackObject) (idx : PackIndex)
      → All IsStorable objects
      → length (pack_close digest (written objects)) < 2 ^ 31
      → get_elem? objects i ≡ some o
      → idx.offsets ≡ map row_offset (index_order (written objects).rows)
      → pack_index_find idx.fanout idx.oids (name_of digest decimal o)
        ≡ pack_index_find
            (fanout_at (map row_oid (index_order (written objects).rows)))
            (map row_oid (index_order (written objects).rows))
            (name_of digest decimal o)
      → ReadsBack objects idx (name_of digest decimal o)
  read_by_name objects i o idx all small at offs agree =
      let key = name_of digest decimal o in
      let rows = (written objects).rows in
      let order = index_order rows in
      let kept = written-IsRow objects all small in
      let few = few_rows objects all small in
      let table = index_order-IsTableOf 32 rows (omega arith) (rows-IsSized objects kept) in
      let any =
        pack_add_all-Any digest decimal compress crc32 pack_create objects key
          (inr (i, o, at, refl)) in
      let (k, at_k) = get_elem?-Any key order (index_order-Any (λ r. r.oid ≡ key) rows any) in
      let (m, run, at_m) =
        pack_index_find-found 32 (map row_oid order) key table
          (omega (arith, length-names rows, few)) k at_k in
      let (row, at_row, named) = get_elem?-row order m key at_m in
      let r =
        get_elem?-All (IsRow objects) order m row (index_order-All (IsRow objects) rows kept)
          at_row in
      let (same, read) = read_row objects idx row small r in
      let offset = get_elem?-row_offset order m row at_row in
      let (storable, j, at_j) = r.0.known in
      let (pack', reads) =
        pack_read_entry_steps malloc inflate (pack_close digest (written objects)) idx key m
          row.offset r.0.object (agree ∙ run) (rw offs (rw same at offset)) read in
      (j, r.0.object, pack', at_j, sym r.0.named ∙ named, reads)

  -- Objects of the four types are added to a new pack, which is closed and indexed: if the file has
  -- less than 2 ^ 31 bytes, and `inflate` undoes `compress`, `fastgit_pack_read_entry` finds every one
  -- of them by its name, and returns an added object with that name.
  pub pack_read_entry-pack_close :
      (objects : List PackObject) (i : ℕ) (o : PackObject)
      → All IsStorable objects
      → length (pack_close digest (written objects)) < 2 ^ 31
      → get_elem? objects i ≡ some o
      → ReadsBack objects (pack_index_create (written objects).rows) (name_of digest decimal o)
  unfolding pack_index_create
  pack_read_entry-pack_close objects i o all small at =
      read_by_name objects i o (pack_index_create (written objects).rows) all small at refl refl
