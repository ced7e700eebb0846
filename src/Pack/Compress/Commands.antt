-- ===== src/Pack/Compress/Commands.antt =====
-- What `fastgit_delta_apply` does with the commands that `fastgit_delta_compress` writes.
use fastgit.Common.{
  ℕ, zero, suc, ◌+◌, ◌*◌, ◌/◌, ◌%◌, ◌^◌, ◌≤◌, ◌<◌, bit_and, ◌≡◌, refl, arith, Bool, true, List, [],
  ◌∷◌, ◌++◌, length, take, drop, ◌==◌, if◌then◌else◌, Option, some, lt→ltb, length-append,
  take-length-append, drop-length-append, append-nil, ok,
}
use fastgit.Common.Bits.{bit_and-mask, bit_and-shifted_mask, bit_or-disjoint}
use fastgit.Pack.Compress.{command_byte, put_arg, has_bits, copy_command, flush}
use fastgit.Pack.Varint.RoundTrip.{top_bit}
use fastgit.Pack.Delta.{read_arg, read_copy, copy_base, insert_bytes, apply_command, apply_loop}

abbrev bit : Bool → ℕ → ℕ
bit f n = if f then n else 0

module _ (f₀ f₁ f₂ f₃ f₄ f₅ f₆ : Bool) where
  abbrev cmd : ℕ
  cmd = command_byte f₀ f₁ f₂ f₃ f₄ f₅ f₆

  flags :
      (bit_and cmd 0x01 ≡ bit f₀ 0x01)
      × (bit_and cmd 0x02 ≡ bit f₁ 0x02)
      × (bit_and cmd 0x04 ≡ bit f₂ 0x04)
      × (bit_and cmd 0x08 ≡ bit f₃ 0x08)
      × (bit_and cmd 0x10 ≡ bit f₄ 0x10)
      × (bit_and cmd 0x20 ≡ bit f₅ 0x20)
      × (bit_and cmd 0x40 ≡ bit f₆ 0x40)
      × (bit_and cmd 0x80 ≡ 0x80)
  unfolding command_byte
  flags = ground arith

-- An argument that was written is read back; one that was left out is 0.
arg_back :
    (cmd flag shift acc byte : ℕ) (rest : List ℕ)
    → ((bit_and cmd flag == 0) ≡ true → byte ≡ 0)
    → acc < 2 ^ shift
    → read_arg cmd flag shift acc (put_arg cmd flag byte rest) ≡ ok (acc + byte * 2 ^ shift, rest)
unfolding read_arg
arg_back cmd flag shift acc byte rest h low = ground (arith, bit_or-disjoint shift acc byte low)

byte_of : (x : ℕ) → bit_and x 0xFF ≡ x % 256
byte_of x = bit_and-mask 8 x

-- The tests `x & 0xFF…` of the command byte, at each of the four bytes.
test_byte : (k x : ℕ) → bit_and x (0xFF * 2 ^ k) ≡ x / 2 ^ k % 256 * 2 ^ k
test_byte k x = rw (bit_and-shifted_mask k x 0xFF, byte_of (x / 2 ^ k))

module _ (off len : ℕ) where
  abbrev sent : ℕ
  sent = if len == 0x10000 then 0 else len

  abbrev the_cmd : ℕ
  the_cmd =
      command_byte (has_bits off 0xFF) (has_bits off 0xFF00) (has_bits off 0xFF0000)
        (has_bits off 0xFF000000) (has_bits len 0xFF) (has_bits len 0xFF00) (has_bits len 0xFF0000)

  the_flags :
      ((bit_and the_cmd 0x01 == 0) ≡ true → bit_and off 0xFF ≡ 0)
      × ((bit_and the_cmd 0x02 == 0) ≡ true → bit_and (off / 2 ^ 8) 0xFF ≡ 0)
      × ((bit_and the_cmd 0x04 == 0) ≡ true → bit_and (off / 2 ^ 16) 0xFF ≡ 0)
      × ((bit_and the_cmd 0x08 == 0) ≡ true → bit_and (off / 2 ^ 24) 0xFF ≡ 0)
  the_flags =
      let f =
        flags (has_bits off 0xFF) (has_bits off 0xFF00) (has_bits off 0xFF0000)
          (has_bits off 0xFF000000) (has_bits len 0xFF) (has_bits len 0xFF00)
          (has_bits len 0xFF0000) in
      (
        ground (arith, f.0),
        ground (arith, f.1, test_byte 8 off, byte_of (off / 2 ^ 8)),
        ground (arith, f.2, test_byte 16 off, byte_of (off / 2 ^ 16)),
        ground (arith, f.3, test_byte 24 off, byte_of (off / 2 ^ 24)),
      )

  the_size_flags :
      ((bit_and the_cmd 0x10 == 0) ≡ true → bit_and sent 0xFF ≡ 0)
      × ((bit_and the_cmd 0x20 == 0) ≡ true → bit_and (sent / 2 ^ 8) 0xFF ≡ 0)
      × ((bit_and the_cmd 0x40 == 0) ≡ true → bit_and (sent / 2 ^ 16) 0xFF ≡ 0)
  the_size_flags =
      let f =
        flags (has_bits off 0xFF) (has_bits off 0xFF00) (has_bits off 0xFF0000)
          (has_bits off 0xFF000000) (has_bits len 0xFF) (has_bits len 0xFF00)
          (has_bits len 0xFF0000) in
      (
        ground (arith, f.4),
        ground (arith, f.5, test_byte 8 len, byte_of (len / 2 ^ 8)),
        ground (arith, f.6, test_byte 16 len, byte_of (len / 2 ^ 16)),
      )

  the_args : List ℕ → List ℕ
  the_args rest = put_arg the_cmd 0x01 (bit_and off 0xFF) (
      put_arg the_cmd 0x02 (bit_and (off / 2 ^ 8) 0xFF) (
        put_arg the_cmd 0x04 (bit_and (off / 2 ^ 16) 0xFF) (
          put_arg the_cmd 0x08 (bit_and (off / 2 ^ 24) 0xFF) (
            put_arg the_cmd 0x10 (bit_and sent 0xFF) (
              put_arg the_cmd 0x20 (bit_and (sent / 2 ^ 8) 0xFF)
                (put_arg the_cmd 0x40 (bit_and (sent / 2 ^ 16) 0xFF) rest))))))

  copy_command-args : (rest : List ℕ) → copy_command off len rest ≡ the_cmd ∷ the_args rest
  unfolding copy_command the_args
  copy_command-args rest = refl

-- The seven bytes of a copy, each below 256, read back as `off` and `sz`.
read_copy_back :
    (cmd a b c d x y z : ℕ) (rest : List ℕ)
    → ((bit_and cmd 0x01 == 0) ≡ true → a ≡ 0)
      × ((bit_and cmd 0x02 == 0) ≡ true → b ≡ 0)
      × ((bit_and cmd 0x04 == 0) ≡ true → c ≡ 0)
      × ((bit_and cmd 0x08 == 0) ≡ true → d ≡ 0)
    → ((bit_and cmd 0x10 == 0) ≡ true → x ≡ 0)
      × ((bit_and cmd 0x20 == 0) ≡ true → y ≡ 0)
      × ((bit_and cmd 0x40 == 0) ≡ true → z ≡ 0)
    → a < 256
    → b < 256
    → c < 256
    → x < 256
    → y < 256
    → read_copy cmd (
        put_arg cmd 0x01 a (
          put_arg cmd 0x02 b (
            put_arg cmd 0x04 c (
              put_arg cmd 0x08 d
                (put_arg cmd 0x10 x (put_arg cmd 0x20 y (put_arg cmd 0x40 z rest)))))))
      ≡ ok (
        0 + a * 1 + b * 2 ^ 8 + c * 2 ^ 16 + d * 2 ^ 24,
        (if 0 + x * 1 + y * 2 ^ 8 + z * 2 ^ 16 == 0
            then 0x10000
            else 0 + x * 1 + y * 2 ^ 8 + z * 2 ^ 16),
        rest,
      )
unfolding read_copy
read_copy_back cmd a b c d x y z rest (f₀, f₁, f₂, f₃) (f₄, f₅, f₆) ha hb hc hx hy = rw (
  arg_back cmd 0x01 0 0 a _ f₀ (omega arith),
  arg_back cmd 0x02 8 (0 + a * 1) b _ f₁ (omega arith),
  arg_back cmd 0x04 16 (0 + a * 1 + b * 2 ^ 8) c _ f₂ (omega arith),
  arg_back cmd 0x08 24 (0 + a * 1 + b * 2 ^ 8 + c * 2 ^ 16) d _ f₃ (omega arith),
  arg_back cmd 0x10 0 0 x _ f₄ (omega arith),
  arg_back cmd 0x20 8 (0 + x * 1) y _ f₅ (omega arith),
  arg_back cmd 0x40 16 (0 + x * 1 + y * 2 ^ 8) z rest f₆ (omega arith),
)

read_copy-the_args :
    (off len : ℕ) (rest : List ℕ)
    → off < 2 ^ 32
    → 4 ≤ len
    → len ≤ 0x10000
    → read_copy (the_cmd off len) (the_args off len rest) ≡ ok (off, len, rest)
unfolding the_args
read_copy-the_args off len rest small long short =
    let s = sent off len in
    ground (
      arith,
      byte_of off,
      byte_of (off / 2 ^ 8),
      byte_of (off / 2 ^ 16),
      byte_of (off / 2 ^ 24),
      byte_of s,
      byte_of (s / 2 ^ 8),
      byte_of (s / 2 ^ 16),
      read_copy_back (the_cmd off len) (bit_and off 0xFF) (bit_and (off / 2 ^ 8) 0xFF)
          (bit_and (off / 2 ^ 16) 0xFF) (bit_and (off / 2 ^ 24) 0xFF) (bit_and s 0xFF)
          (bit_and (s / 2 ^ 8) 0xFF) (bit_and (s / 2 ^ 16) 0xFF) rest (the_flags off len)
          (the_size_flags off len),
    )

apply_copy :
    (base : List ℕ) (dst_size cmd off len : ℕ) (args rest out : List ℕ)
    → bit_and cmd 0x80 ≡ 0x80
    → read_copy cmd args ≡ ok (off, len, rest)
    → off + len ≤ length base
    → length base < 2 ^ 31
    → length out + len ≤ dst_size
    → apply_command (some base) dst_size cmd args out ≡ ok (rest, out ++ take len (drop off base))
unfolding apply_command copy_base
apply_copy base dst_size cmd off len args rest out top read inside small fits =
    rw (top, read) (ground arith)

-- A copy command, applied, appends the stretch of the base that it names.
pub apply-copy_command :
    (base : List ℕ) (dst_size off len : ℕ) (rest out : List ℕ)
    → 4 ≤ len
    → len ≤ 0x10000
    → off + len ≤ length base
    → length base < 2 ^ 31
    → length out + len ≤ dst_size
    → (cmd : ℕ) × (args : List ℕ) × (copy_command off len rest ≡ cmd ∷ args)
      × (apply_command (some base) dst_size cmd args out
          ≡ ok (rest, out ++ take len (drop off base)))
apply-copy_command base dst_size off len rest out long short inside small fits =
    (the_cmd off len, the_args off len rest, copy_command-args off len rest, applied)
  where
    top : bit_and (the_cmd off len) 0x80 ≡ 0x80
    top =
        (flags (has_bits off 0xFF) (has_bits off 0xFF00) (has_bits off 0xFF0000)
          (has_bits off 0xFF000000) (has_bits len 0xFF) (has_bits len 0xFF00)
          (has_bits len 0xFF0000)).7

    applied :
        apply_command (some base) dst_size (the_cmd off len) (the_args off len rest) out
        ≡ ok (rest, out ++ take len (drop off base))
    applied =
        apply_copy base dst_size (the_cmd off len) off len (the_args off len rest) rest out top
          (read_copy-the_args off len rest (omega arith) long short) inside small fits

-- The literals that are flushed, applied, are appended.
apply_literals :
    (base : Option (List ℕ)) (dst_size x : ℕ) (lit rest out : List ℕ)
    → length (x ∷ lit) ≤ 127
    → length out + length (x ∷ lit) ≤ dst_size
    → apply_command base dst_size (length (x ∷ lit)) ((x ∷ lit) ++ rest) out
      ≡ ok (rest, out ++ (x ∷ lit))
unfolding apply_command insert_bytes
apply_literals base dst_size x lit rest out short fits = ground (
  arith,
  top_bit (length (x ∷ lit)),
  bit_and-mask 7 (length (x ∷ lit)),
  length-append lit rest,
  take-length-append lit rest,
  drop-length-append lit rest,
)

-- What the loop does on a command: some rounds later the rest stands before it.
abbrev pub Reaches : Option (List ℕ) → ℕ → ℕ → List ℕ → List ℕ → List ℕ → List ℕ → Type 0
Reaches base dst_size fuel d out rest out' =
    (left : ℕ) × (length rest ≤ left)
    × (apply_loop base dst_size fuel d out ≡ apply_loop base dst_size left rest out')

loop_command :
    (base : Option (List ℕ)) (dst_size fuel cmd : ℕ) (args rest out out' : List ℕ)
    → apply_command base dst_size cmd args out ≡ ok (rest, out')
    → length out < dst_size
    → apply_loop base dst_size (suc fuel) (cmd ∷ args) out ≡ apply_loop base dst_size fuel rest out'
unfolding apply_loop
loop_command base dst_size fuel cmd args rest out out' e room = rw (lt→ltb _ _ room, e)

pub flush-Reaches :
    (base : Option (List ℕ)) (dst_size fuel : ℕ) (lit rest out : List ℕ)
    → length lit ≤ 127
    → length (flush lit rest) ≤ fuel
    → length out + length lit ≤ dst_size
    → Reaches base dst_size fuel (flush lit rest) out rest (out ++ lit)
unfolding flush
flush-Reaches base dst_size fuel [] rest out short enough fits = (fuel, enough, rw append-nil)
flush-Reaches base dst_size zero (x ∷ lit) rest out short enough fits = absurd (omega arith)
flush-Reaches base dst_size (suc fuel) (x ∷ lit) rest out short enough fits = (
  fuel,
  omega (arith, length-append lit rest),
  loop_command base dst_size fuel (length (x ∷ lit)) ((x ∷ lit) ++ rest) rest out (out ++ (x ∷ lit))
      (apply_literals base dst_size x lit rest out short fits) (omega arith),
)

length-put_arg_le :
    (cmd flag byte : ℕ) (rest : List ℕ)
    → (length rest ≤ length (put_arg cmd flag byte rest))
      × (length (put_arg cmd flag byte rest) ≤ length rest + 1)
length-put_arg_le cmd flag byte rest = ground arith

pub length-copy_command :
    (off len : ℕ) (rest : List ℕ)
    → (length rest < length (copy_command off len rest))
      × (length (copy_command off len rest) ≤ length rest + 8)
unfolding copy_command
length-copy_command off len rest = omega (arith, length-put_arg_le)

pub copy-Reaches :
    (base : List ℕ) (dst_size fuel off len : ℕ) (rest out : List ℕ)
    → 4 ≤ len
    → len ≤ 0x10000
    → off + len ≤ length base
    → length base < 2 ^ 31
    → length (copy_command off len rest) ≤ fuel
    → length out + len ≤ dst_size
    → Reaches
        (some base)
        dst_size
        fuel
        (copy_command off len rest)
        out
        rest
        (out ++ take len (drop off base))
copy-Reaches base dst_size zero off len rest out long short inside small enough fits =
    absurd (omega (arith, length-copy_command off len rest))
copy-Reaches base dst_size (suc fuel) off len rest out long short inside small enough fits =
    let (cmd, args, written, applied) =
      apply-copy_command base dst_size off len rest out long short inside small fits in
    (
      fuel,
      omega (arith, length-copy_command off len rest),
      rw written (loop_command (some base) dst_size fuel cmd args rest out _ applied (omega arith)),
    )
