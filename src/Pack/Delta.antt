-- ===== src/Pack/Delta.antt =====
-- Applying a delta: `fastgit_delta_apply` of src/pack/delta.c and `git_delta_apply` of
-- src/pack/packfile.c. The pointer `d` is the list of the bytes up to `dend`; `out` is the list of
-- the bytes written from `*out` on. `base` is `none` for a null pointer.
pub mod Safety
pub mod Agreement
pub mod Bounds
use fastgit.Common.{
  ℕ, zero, suc, ◌+◌, ◌*◌, ◌%◌, ◌^◌, bit_and, bit_or, Bool, not, ◌||◌, List, [], ◌∷◌, ◌++◌, length,
  take, drop, ltb, ◌==◌, if◌then◌else◌, Option, none, some, Result, ok, err, fault, stuck, error,
  enomem, guard, ◌>>=◌, ◌>>◌,
}
use fastgit.Pack.Varint.{decode_varint}

-- `if (d >= dend) return FASTGIT_ERROR; acc |= (uint32_t)*d++ << shift;`
next_byte : ℕ → ℕ → List ℕ → Result (ℕ × List ℕ)
next_byte shift acc [] = err error
next_byte shift acc (b ∷ d) = ok (bit_or acc (b * 2 ^ shift), d)

-- One line `if (cmd & flag) { … }`.
unfoldable pub read_arg : ℕ → ℕ → ℕ → ℕ → List ℕ → Result (ℕ × List ℕ)
unfolding next_byte
read_arg cmd flag shift acc d = if bit_and cmd flag == 0 then ok (acc, d) else next_byte shift acc d

-- The seven lines that read `off` and `sz`, with the test for a size of 0.
unfoldable pub read_copy : ℕ → List ℕ → Result (ℕ × ℕ × List ℕ)
read_copy cmd d₀ = do
  (off₁, d₁) ← read_arg cmd 0x01 0 0 d₀
  (off₂, d₂) ← read_arg cmd 0x02 8 off₁ d₁
  (off₃, d₃) ← read_arg cmd 0x04 16 off₂ d₂
  (off₄, d₄) ← read_arg cmd 0x08 24 off₃ d₃
  (sz₁, d₅) ← read_arg cmd 0x10 0 0 d₄
  (sz₂, d₆) ← read_arg cmd 0x20 8 sz₁ d₅
  (sz₃, d₇) ← read_arg cmd 0x40 16 sz₂ d₆
  ok (off₄, (if sz₃ == 0 then 0x10000 else sz₃), d₇)

-- The checks on a copy, and the copy. `off + sz` is a sum of two `uint32_t`, which wraps; a copy
-- from beyond the end of `base`, or to a place beyond the buffer, is undefined.
unfoldable pub copy_base : Option (List ℕ) → ℕ → ℕ → ℕ → List ℕ → Result (List ℕ)
copy_base none dst_size off sz out = err error
copy_base (some base) dst_size off sz out =
    if ltb (length base) ((off + sz) % 2 ^ 32)
    then err error
    else if ltb dst_size (length out + sz)
    then err error
    else if ltb (length base) (off + sz)
    then fault
    else if ltb dst_size (length out + sz)
    then fault
    else ok (out ++ take sz (drop off base))

-- A command whose top bit is clear: `copy_len` bytes of the delta itself. Like above, the copy is
-- undefined where the tests in front of it let too much through.
unfoldable pub insert_bytes : ℕ → ℕ → List ℕ → List ℕ → Result (List ℕ × List ℕ)
insert_bytes dst_size copy_len d out =
    if copy_len == 0
    then err error
    else if ltb (length d) copy_len
    then err error
    else if ltb dst_size (length out + copy_len)
    then err error
    else if ltb (length d) copy_len || ltb dst_size (length out + copy_len)
    then fault
    else ok (drop copy_len d, out ++ take copy_len d)

-- The body of the loop of both functions, on the command `cmd`: the new `d` and the new output.
-- The two differ in the order of checks that all return FASTGIT_ERROR, and in `git_delta_apply` the
-- byte that is shifted by 24 is an `int`: a byte of 128 or more is taken to end in the top bit, as
-- compilers do.
unfoldable pub apply_command : Option (List ℕ) → ℕ → ℕ → List ℕ → List ℕ → Result (List ℕ × List ℕ)
apply_command base dst_size cmd d out =
    if bit_and cmd 0x80 == 0 then insert_bytes dst_size (bit_and cmd 0x7f) d out else do
      (off, sz, d') ← read_copy cmd d
      out' ← copy_base base dst_size off sz out
      ok (d', out')

-- `while (d < dend && out_ptr < out_end)`
unfoldable pub apply_loop : Option (List ℕ) → ℕ → ℕ → List ℕ → List ℕ → Result (List ℕ)
apply_loop base dst_size fuel [] out = ok out
apply_loop base dst_size zero (cmd ∷ d) out = if ltb (length out) dst_size then stuck else ok out
apply_loop base dst_size (suc fuel) (cmd ∷ d) out =
    let more =
      apply_command base dst_size cmd d out >>= λ r. apply_loop base dst_size fuel r.0 r.1 in
    if ltb (length out) dst_size then more else ok out

-- The two numbers in front of a delta, with the commands that follow.
unfoldable pub read_sizes : List ℕ → Result (ℕ × ℕ × List ℕ)
read_sizes delta = do
  (n₁, src_size) ← decode_varint delta
  guard (not (n₁ == 0)) error
  (n₂, dst_size) ← decode_varint (drop n₁ delta)
  guard (not (n₂ == 0)) error
  ok (src_size, dst_size, drop n₂ (drop n₁ delta))

-- The result is the bytes written and `*out_len`; where there are fewer bytes, the rest of the
-- buffer is as `malloc` left it. `malloc n` says whether `n` bytes can be had.
module _ (malloc : ℕ → Bool) where
  unfoldable pub delta_apply : Option (List ℕ) → List ℕ → Result (List ℕ × ℕ)
  delta_apply base delta = do
    (src_size, dst_size, d) ← read_sizes delta
    guard (malloc dst_size) enomem
    out ← apply_loop base dst_size (length d) d []
    ok (out, dst_size)

-- The loop of `git_delta_apply`: `while (d < dend)`.
unfoldable pub git_apply_loop : Option (List ℕ) → ℕ → ℕ → List ℕ → List ℕ → Result (List ℕ)
git_apply_loop base dst_size fuel [] out = ok out
git_apply_loop base dst_size zero (cmd ∷ d) out = stuck
git_apply_loop base dst_size (suc fuel) (cmd ∷ d) out =
    apply_command base dst_size cmd d out >>= λ r. git_apply_loop base dst_size fuel r.0 r.1

module _ (malloc : ℕ → Bool) where
  unfoldable pub git_delta_apply : Option (List ℕ) → List ℕ → Result (List ℕ × ℕ)
  git_delta_apply base delta = do
    (src_size, dst_size, d) ← read_sizes delta
    guard (malloc dst_size) enomem
    out ← git_apply_loop base dst_size (length d) d []
    guard (length out == dst_size) error
    ok (out, dst_size)
