-- ===== src/Pack/Read/Chains.antt =====
-- Chains of deltas in a pack, and what `pack_read_object_at` makes of them.
use fastgit.Common.{
  ℕ, zero, suc, ◌+◌, ◌-◌, ◌%◌, ◌^◌, ◌≤◌, ◌<◌, ◌≡◌, refl, ap, ◌∙◌, arith, Bool, true, false, List,
  [], ◌∷◌, ◌++◌, length, take, drop, ltb, ◌==◌, if◌then◌else◌, some, Result, ok, err, error,
  drop-length-append, length-append, length-drop, Bool-cases, inl, inr,
}
use fastgit.Pack.Delta.{git_delta_apply}
use fastgit.Pack.Header.{parse_ofs_delta_offset, encode_pack_header}
use fastgit.Pack.Header.RoundTrip.{parse_pack_header-encode_pack_header}
use fastgit.Pack.Read.{
  Pack, PackObject, Stream, ended, pack_obj_type_from_git, left_for, inflated, inflate_slice,
  read_plain, read_on_base, read_ofs_delta, read_typed, read_at, pack_read_object_at,
}

take-append_more :
    (xs ys : List ℕ) (n : ℕ) → length xs ≤ n → take n (xs ++ ys) ≡ xs ++ take (n - length xs) ys
take-append_more [] ys n long = let e : n - 0 ≡ n = omega arith in rw e refl
take-append_more (x ∷ xs) ys zero long = absurd (omega arith)
take-append_more (x ∷ xs) ys (suc n) long =
    let e : suc n - suc (length xs) ≡ n - length xs = omega arith in
    rw e (ap (λ zs. x ∷ zs) (take-append_more xs ys n (omega arith)))

inflated_whole : (beyond : Bool) (d : List ℕ) → inflated (length d) beyond (ended d) ≡ ok d
unfolding inflated
inflated_whole beyond d = ground arith

inflated-ended :
    (beyond : Bool) (s : Stream) (d : List ℕ) → s ≡ ended d → inflated (length d) beyond s ≡ ok d
inflated-ended beyond s d e = ap (inflated (length d) beyond) e ∙ inflated_whole beyond d

-- The length of the bytes behind a header at an offset.
length-behind :
    (mapped header body : List ℕ) (offset : ℕ)
    → drop offset mapped ≡ header ++ body
    → length body ≤ length mapped
length-behind mapped header body offset e =
    omega (arith, length-drop offset mapped, ap length e, length-append header body)

module _ (malloc : ℕ → Bool) (compress : List ℕ → List ℕ) (inflate : List ℕ → ℕ → Stream)
    (zlib : (d rest : List ℕ) → inflate (compress d ++ rest) (length d) ≡ ended d) where
  inflate_slice-compress :
      (d rest : List ℕ) (avail : ℕ)
      → avail < 2 ^ 32
      → length (compress d) ≤ avail
      → length d < 2 ^ 32
      → inflate_slice malloc inflate (compress d ++ rest) avail (length d) ≡ ok d
  unfolding inflate_slice inflated
  inflate_slice-compress d rest avail small long fits =
      let same : avail % 2 ^ 32 ≡ avail = omega arith in
      let room : length d % 2 ^ 32 ≡ length d = omega arith in
      let front = take-append_more (compress d) rest avail long in
      inflated-ended _ _ d
        (rw (same, room, front) (zlib d (take (avail - length (compress d)) rest)))

  -- The last 32 bytes of the map are left to the checksum.
  inflate_slice-left :
      (d behind : List ℕ) (limit : ℕ)
      → 32 ≤ length behind
      → length (compress d ++ behind) ≤ limit
      → limit < 2 ^ 32
      → length d < 2 ^ 32
      → (inflate_slice malloc inflate
            (compress d ++ behind)
            (left_for (length (compress d ++ behind)))
            (length d)
          ≡ ok d)
        × (ltb limit (left_for (length (compress d ++ behind))) ≡ false)
  inflate_slice-left d behind limit long inside small fits =
      let size = length-append (compress d) behind in
      let n = length (compress d ++ behind) in
      let avail : left_for n ≡ n - 32 = omega arith in
      (
        rw avail
            (inflate_slice-compress d behind (n - 32) (omega arith) (omega (arith, size)) fits),
        rw avail (ground arith),
      )

  read_plain-compress :
      (type : ℕ) (d behind : List ℕ)
      → 32 ≤ length behind
      → length (compress d ++ behind) < 2 ^ 32
      → length d < 2 ^ 32
      → malloc (length d) ≡ true
      → read_plain malloc inflate type (length d) (compress d ++ behind)
        ≡ ok (record { type = pack_obj_type_from_git type; bytes = d })
  unfolding read_plain
  read_plain-compress type d behind long small fits have =
      let (run, _) =
        inflate_slice-left d behind (length (compress d ++ behind)) long (omega arith) small fits in
      rw (have, run) refl

  read_ofs_delta-compress :
      (limit offset ofs : ℕ) (d ofs_bytes behind : List ℕ) (read : ℕ → Result PackObject)
      → parse_ofs_delta_offset (ofs_bytes ++ (compress d ++ behind)) ≡ ok (length ofs_bytes, ofs)
      → 32 ≤ length behind
      → length (compress d ++ behind) ≤ limit
      → limit < 2 ^ 32
      → length d < 2 ^ 32
      → offset < 2 ^ 32
      → ofs ≤ offset
      → malloc (length d) ≡ true
      → read_ofs_delta malloc inflate limit offset
          (length d)
          (ofs_bytes ++ (compress d ++ behind))
          read
        ≡ read_on_base malloc inflate (read (offset - ofs)) d
  unfolding read_ofs_delta
  read_ofs_delta-compress limit offset ofs d ofs_bytes behind read parsed long inside small fits
        near below have =
      let (run, kept) = inflate_slice-left d behind limit long inside small fits in
      let rest = drop-length-append ofs_bytes (compress d ++ behind) in
      let back : (offset + 2 ^ 64 - ofs) % 2 ^ 64 ≡ offset - ofs = omega arith in
      rw (parsed, rest, have, kept, run, back) refl

  read_at-header :
      (pack : Pack) (offset type size : ℕ) (body : List ℕ) (read : ℕ → Result PackObject)
      → drop offset pack.mapped ≡ encode_pack_header type size ++ body
      → offset + 12 ≤ length pack.mapped
      → length pack.mapped < 2 ^ 32
      → type < 8
      → size < 2 ^ 64
      → read_at malloc inflate pack offset read
        ≡ read_typed malloc inflate pack offset
            (type, size, length (encode_pack_header type size))
            body
            read
  unfolding read_at
  read_at-header pack offset type size body read here inside small known fits =
      let room : ltb (length pack.mapped) ((offset + 12) % 2 ^ 64) ≡ false = ground arith in
      let near : ltb (length pack.mapped) offset ≡ false = ground arith in
      let parsed = parse_pack_header-encode_pack_header type size body known fits in
      let rest = drop-length-append (encode_pack_header type size) body in
      rw (room, near, here, parsed, rest) refl

  -- The object at an offset, behind how many deltas: the bytes there are those that a writer leaves,
  -- at least the 32 bytes of a checksum follow, and what is compressed is shorter than 2 ^ 32 bytes.
  pub data Chain (pack : Pack) : ℕ → ℕ → PackObject → Type 0 where
    plain :
        (offset type : ℕ) (d behind : List ℕ)
        → drop offset pack.mapped ≡ encode_pack_header type (length d) ++ (compress d ++ behind)
        → offset + 12 ≤ length pack.mapped
        → 32 ≤ length behind
        → type < 6
        → length d < 2 ^ 32
        → malloc (length d) ≡ true
        → Chain pack 0 offset (record { type = pack_obj_type_from_git type; bytes = d })
    delta :
        (depth offset ofs : ℕ) (d ofs_bytes behind out : List ℕ) (base : PackObject)
        → drop offset pack.mapped
          ≡ encode_pack_header 6 (length d) ++ (ofs_bytes ++ (compress d ++ behind))
        → parse_ofs_delta_offset (ofs_bytes ++ (compress d ++ behind)) ≡ ok (length ofs_bytes, ofs)
        → offset + 12 ≤ length pack.mapped
        → 32 ≤ length behind
        → length d < 2 ^ 32
        → malloc (length d) ≡ true
        → ofs ≤ offset
        → Chain pack depth (offset - ofs) base
        → git_delta_apply malloc (some base.bytes) d ≡ ok (out, length out)
        → Chain pack (suc depth) offset (record { type = base.type; bytes = out })

  -- What a read with `left` calls gives for an object behind `depth` deltas.
  abbrev answer : ℕ → ℕ → PackObject → Result PackObject
  answer depth left obj = if ltb depth left then ok obj else err error

  no_calls : (depth : ℕ) (obj : PackObject) → err error ≡ answer depth 0 obj
  no_calls depth obj = let deep : ltb depth 0 ≡ false = ground arith in rw deep refl

  read_on_base-answer :
      (depth left : ℕ) (base : PackObject) (d out : List ℕ) (read : Result PackObject)
      → read ≡ answer depth left base
      → git_delta_apply malloc (some base.bytes) d ≡ ok (out, length out)
      → read_on_base malloc inflate read d
        ≡ answer (suc depth) (suc left) (record { type = base.type; bytes = out })
  unfolding read_on_base
  read_on_base-answer depth left base d out read run applied = elim (Bool-cases (ltb depth left)) [
    | inl shallow ↦
        let above : ltb (suc depth) (suc left) ≡ true = ground arith in
        rw (run, shallow, above, applied) refl
    | inr deep ↦
        let below : ltb (suc depth) (suc left) ≡ false = ground arith in rw (run, deep, below) refl
  ]

  -- In a pack of less than 2 ^ 32 bytes, `pack_read_object_at` with `left` calls gives the object of a
  -- chain with fewer deltas than that, and an error for a longer chain, if `inflate` undoes
  -- `compress`. In a chain every content that is compressed is shorter than 2 ^ 32 bytes.
  pub pack_read_object_at-Chain :
      (pack : Pack) (left : ℕ) {depth offset : ℕ} {obj : PackObject}
      → length pack.mapped < 2 ^ 32
      → Chain pack depth offset obj
      → pack_read_object_at malloc inflate pack left offset
        ≡ (if ltb depth left then ok obj else err error)
  unfolding pack_read_object_at read_typed
  pack_read_object_at-Chain pack zero {depth} {offset} {obj} small c = no_calls depth obj
  pack_read_object_at-Chain pack (suc left) small
        (Chain.plain offset type d behind here inside long known fits have) =
      let other : (type == 6) ≡ false = ground arith in
      let another : (type == 7) ≡ false = ground arith in
      let enough : ltb 0 (suc left) ≡ true = ground arith in
      let size =
        length-behind pack.mapped (encode_pack_header type (length d)) (compress d ++ behind) offset
          here in
      read_at-header pack offset type (length d) (compress d ++ behind) _ here inside small
        (omega arith) (omega arith)
      ∙ rw (other, another, enough)
          (read_plain-compress type d behind long (omega (arith, size)) fits have)
  pack_read_object_at-Chain pack (suc left) small
        (Chain.delta depth offset ofs d ofs_bytes behind out base here parsed inside long fits have
          below c applied) =
      let body = ofs_bytes ++ (compress d ++ behind) in
      let size = length-behind pack.mapped (encode_pack_header 6 (length d)) body offset here in
      read_at-header pack offset 6 (length d) body _ here inside small (omega arith) (omega arith)
      ∙ read_ofs_delta-compress (length pack.mapped) offset ofs d ofs_bytes behind _ parsed long
          (omega (arith, size, length-append ofs_bytes (compress d ++ behind))) small fits
          (omega arith) below have
      ∙ read_on_base-answer depth left base d out _ (pack_read_object_at-Chain pack left small c)
          applied
