-- ===== src/Examples/Deltas.antt =====
-- Runs of src/pack/delta.c, src/pack/packfile.c and include/fastgit/pack.h.
use fastgit.Common.{
  ℕ, ◌≤◌, ◌≡◌, ◌≢◌, refl, arith, Bool, true, List, [], ◌∷◌, ◌++◌, length, drop, some, ok, fault,
  stuck, IsBytes,
}
use fastgit.Pack.Varint.{encode_loop, encode_varint, decode_loop, decode_varint}
use fastgit.Pack.Varint.RoundTrip.{decode_varint-encode_varint, decode_varint_overlong}
use fastgit.Pack.Header.{parse_pack_header, encode_pack_header}
use fastgit.Pack.Header.RoundTrip.{parse_pack_header-encode_pack_header}
use fastgit.Pack.Delta.{
  read_arg, read_copy, copy_base, insert_bytes, apply_command, read_sizes, delta_apply,
  git_apply_loop, git_delta_apply,
}
use fastgit.Pack.Delta.Safety.{apply_ends}
use fastgit.Pack.Delta.Bounds.{Within, delta_apply-Within}
use fastgit.Pack.Delta.Agreement.{git_delta_apply-delta_apply, delta_apply_wraps}
use fastgit.Pack.Compress.{buffer_size, base_length, index_base, best_match, delta_compress}
use fastgit.Pack.Compress.Match.{IsMatch, best_match-IsMatch}
use fastgit.Pack.Compress.RoundTrip.{delta_apply-delta_compress}

abbrev have_memory : ℕ → Bool
have_memory n = true

-- "abcdefgh"
abbrev base : List ℕ
base = 97 ∷ 98 ∷ 99 ∷ 100 ∷ 101 ∷ 102 ∷ 103 ∷ 104 ∷ []

-- "xcdefghy"
abbrev target : List ℕ
target = 120 ∷ 99 ∷ 100 ∷ 101 ∷ 102 ∷ 103 ∷ 104 ∷ 121 ∷ []

-- Insert "x", copy 6 bytes from offset 2, insert "y".
abbrev delta : List ℕ
delta = 8 ∷ 8 ∷ 1 ∷ 120 ∷ 0x91 ∷ 2 ∷ 6 ∷ 1 ∷ 121 ∷ []

base-IsBytes : IsBytes base
base-IsBytes = ground arith

target-IsBytes : IsBytes target
target-IsBytes = ground arith

delta_apply-delta_compress_example :
    (d : List ℕ) × (delta_compress have_memory (some base) target ≡ ok d)
    × (length d ≤ buffer_size (base_length (some base)) (length target))
    × (delta_apply have_memory (some base) d ≡ ok (target, length target))
    × (git_delta_apply have_memory (some base) d ≡ ok (target, length target))
delta_apply-delta_compress_example =
    delta_apply-delta_compress have_memory have_memory (some base) target (λ b e. ground arith)
      target-IsBytes (omega arith) refl refl

git_delta_apply-delta_apply_example :
    (length target ≡ 8) × (delta_apply have_memory (some base) delta ≡ ok (target, 8))
unfolding git_delta_apply read_sizes decode_varint decode_loop git_apply_loop apply_command
    insert_bytes read_copy read_arg copy_base
git_delta_apply-delta_apply_example =
    git_delta_apply-delta_apply have_memory (some base) delta (target, 8) refl

delta_apply-Within_example :
    Within {A = List ℕ × ℕ}
      (λ o. (length o.0 ≤ 8) × (o.1 ≡ 8))
      (some base)
      8
      (drop 2 delta)
      (delta_apply have_memory (some base) delta)
unfolding read_sizes decode_varint decode_loop
delta_apply-Within_example =
    delta_apply-Within have_memory (some base) delta (drop 2 delta) 8 8 refl

apply_ends_example :
    (delta_apply have_memory (some base) delta ≢ stuck)
    × (git_delta_apply have_memory (some base) delta ≢ stuck)
apply_ends_example = apply_ends have_memory (some base) delta

delta_apply_wraps_example :
    delta_apply have_memory (some base) (8 ∷ 5 ∷ 0x9f ∷ 255 ∷ 255 ∷ 255 ∷ 255 ∷ 1 ∷ 7 ∷ []) ≡ fault
unfolding encode_varint encode_loop
delta_apply_wraps_example =
    delta_apply_wraps have_memory base 8 5 (7 ∷ []) (omega arith) (omega arith) (omega arith) refl
      (omega arith)

decode_varint-encode_varint_example : decode_varint (0xac ∷ 0x02 ∷ 9 ∷ []) ≡ ok (2, 300)
unfolding encode_varint encode_loop
decode_varint-encode_varint_example = decode_varint-encode_varint 300 (9 ∷ []) (omega arith)

abbrev ten_high : List ℕ
ten_high = 128 ∷ 255 ∷ 128 ∷ 128 ∷ 128 ∷ 128 ∷ 128 ∷ 128 ∷ 128 ∷ 200 ∷ []

decode_varint_overlong_example : decode_varint (ten_high ++ (1 ∷ [])) ≡ fault
decode_varint_overlong_example = decode_varint_overlong ten_high 1 [] (ground arith) refl

best_match-IsMatch_example :
    IsMatch base
      (99 ∷ 100 ∷ 101 ∷ 102 ∷ 0 ∷ [])
      (best_match (some (base, index_base base)) (99 ∷ 100 ∷ 101 ∷ 102 ∷ 0 ∷ [])).0
      (best_match (some (base, index_base base)) (99 ∷ 100 ∷ 101 ∷ 102 ∷ 0 ∷ [])).1
best_match-IsMatch_example =
    best_match-IsMatch base (99 ∷ 100 ∷ 101 ∷ 102 ∷ 0 ∷ []) base-IsBytes (ground arith)
      (omega arith)

-- A header of two bytes: type 3, size 5 + 16 * 9.
parse_pack_header-encode_pack_header_example :
    parse_pack_header (encode_pack_header 3 149 ++ (7 ∷ []))
    ≡ ok (3, 149, length (encode_pack_header 3 149))
parse_pack_header-encode_pack_header_example =
    parse_pack_header-encode_pack_header 3 149 (7 ∷ []) (omega arith) (omega arith)

abbrev nine_high : List ℕ
nine_high = 255 ∷ 128 ∷ 128 ∷ 128 ∷ 128 ∷ 128 ∷ 128 ∷ 128 ∷ 200 ∷ []
