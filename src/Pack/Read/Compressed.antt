-- ===== src/Pack/Read/Compressed.antt =====
-- A delta that `fastgit_delta_compress` makes, stored in a pack and read.
use fastgit.Common.{
  ℕ, suc, ◌+◌, ◌-◌, ◌^◌, ◌≤◌, ◌<◌, ◌≡◌, refl, subst, ◌∙◌, arith, Bool, true, List, ◌++◌, length,
  drop, IsBytes, some, ok, ltb,
}
use fastgit.Pack.Delta.{git_delta_apply}
use fastgit.Pack.Compress.{buffer_size, delta_compress}
use fastgit.Pack.Compress.RoundTrip.{delta_apply-delta_compress}
use fastgit.Pack.Header.{parse_ofs_delta_offset, encode_pack_header}
use fastgit.Pack.Read.{Pack, PackObject, Stream, ended, pack_read_object_at}
use fastgit.Pack.Read.Chains.{Chain, pack_read_object_at-Chain}

git_delta_apply-compressed :
    (malloc malloc' : ℕ → Bool) (base target d : List ℕ)
    → IsBytes base
    → length base < 2 ^ 31
    → IsBytes target
    → length target < 2 ^ 64
    → malloc (buffer_size (length base) (length target)) ≡ true
    → malloc' (length target) ≡ true
    → delta_compress malloc (some base) target ≡ ok d
    → git_delta_apply malloc' (some base) d ≡ ok (target, length target)
git_delta_apply-compressed malloc malloc' base target d hb short ht long have have' run =
    let (made, made_run, size, applied, git) =
      delta_apply-delta_compress malloc malloc' (some base) target
        (λ b e.
          let same : base ≡ b = cc in subst (λ x. IsBytes x × (length x < 2 ^ 31)) same (hb, short))
        ht long have have' in
    let same : made ≡ d = cc in
    subst (λ x. git_delta_apply malloc' (some base) x ≡ ok (target, length target)) same git

module _ (malloc : ℕ → Bool) (compress : List ℕ → List ℕ) (inflate : List ℕ → ℕ → Stream)
    (zlib : (d rest : List ℕ) → inflate (compress d ++ rest) (length d) ≡ ended d) where
  -- In a pack of less than 2 ^ 32 bytes an object stands behind at most 31 deltas, and a delta that
  -- `fastgit_delta_compress` makes of it to a target is shorter than 2 ^ 32 bytes and stored at an
  -- offset above it: reading there gives the target, with the type of the object, if `inflate` undoes
  -- `compress`.
  pub pack_read_object_at-delta_compress :
      (malloc' : ℕ → Bool) (pack : Pack) (depth offset ofs : ℕ) (base : PackObject)
      (target d ofs_bytes behind : List ℕ)
      → length pack.mapped < 2 ^ 32
      → Chain malloc compress inflate zlib pack depth (offset - ofs) base
      → depth < 32
      → IsBytes base.bytes
      → length base.bytes < 2 ^ 31
      → IsBytes target
      → length target < 2 ^ 64
      → malloc' (buffer_size (length base.bytes) (length target)) ≡ true
      → malloc (length target) ≡ true
      → delta_compress malloc' (some base.bytes) target ≡ ok d
      → length d < 2 ^ 32
      → malloc (length d) ≡ true
      → drop offset pack.mapped
        ≡ encode_pack_header 6 (length d) ++ (ofs_bytes ++ (compress d ++ behind))
      → parse_ofs_delta_offset (ofs_bytes ++ (compress d ++ behind)) ≡ ok (length ofs_bytes, ofs)
      → ofs ≤ offset
      → offset + 12 ≤ length pack.mapped
      → 32 ≤ length behind
      → pack_read_object_at malloc inflate pack 33 offset
        ≡ ok (record { type = base.type; bytes = target })
  pack_read_object_at-delta_compress malloc' pack depth offset ofs base target d ofs_bytes behind
        small chain shallow hb short ht long have have' run fits memory here parsed below inside
        sum =
      let applied =
        git_delta_apply-compressed malloc' malloc base.bytes target d hb short ht long have have'
          run in
      let enough : ltb (suc depth) 33 ≡ true = ground arith in
      let longer : Chain malloc compress inflate zlib pack (suc depth) offset
          (record { type = base.type; bytes = target }) =
        Chain.delta depth offset ofs d ofs_bytes behind target base here parsed inside sum fits
          memory below chain applied in
      pack_read_object_at-Chain malloc compress inflate zlib pack 33 small longer ∙ rw enough refl
