-- ===== src/Examples/Hashes.antt =====
-- Runs of src/hash/sha256.c, src/hash/sha384.c and src/hash/sha3.c.
use fastgit.Common.{ℕ, ◌≡◌, refl, arith, List, [], ◌∷◌, replicate, false, ok, fault}
use fastgit.Hash.Blocks.{BlockCtx}
use fastgit.Hash.Blocks.Stream.{feed}
use fastgit.Hash.Sha256.{sha256_init, sha256_final}
use fastgit.Hash.Sha256.Standard.{sha256_standard}
use fastgit.Hash.Sha256.Streaming.{update_all, concat, sha256_pieces}
use fastgit.Hash.Sha384.{sha384_init, sha384_update, sha384_final, transform64, initial_state64}
use fastgit.Hash.Sha384.Undefined.{sha384_undefined}
use fastgit.Hash.Keccak.{KeccakCtx}

-- A context before its start, with a buffer of `size` bytes.
abbrev unset : ℕ → BlockCtx
unset size = record { state = []; count = 7; buffer = replicate size 9 }

-- "ab" and "c"
abbrev two_pieces : List (List ℕ)
two_pieces = (97 ∷ 98 ∷ []) ∷ (99 ∷ []) ∷ []

abbrev unset_keccak : KeccakCtx
unset_keccak = record {
  state = [];
  rate = 0;
  pos = 0;
  buffer = replicate 200 0;
  delim = 0;
  squeezing = false;
}

sha256_pieces_example :
    (ctx : BlockCtx) × (update_all (sha256_init (unset 64)) two_pieces ≡ ok ctx)
    × (sha256_final ctx ≡ sha256_standard (concat two_pieces))
sha256_pieces_example = sha256_pieces (unset 64) two_pieces refl (omega arith)

sha384_undefined_example :
    (ctx : BlockCtx) × (sha384_update (sha384_init (unset 128)) (97 ∷ []) ≡ ok ctx)
    × (ctx.state ≡ (feed 128 transform64 initial_state64 [] (97 ∷ [])).0)
    × (sha384_final ctx ≡ fault)
sha384_undefined_example = sha384_undefined (unset 128) (97 ∷ []) refl (omega arith)
