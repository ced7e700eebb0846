-- ===== src/Pack/Compress.antt =====
-- src/pack/delta.c: `fastgit_delta_compress`. The rest of the target, from `t + tpos` on, is a
-- list. The arrays `head` and `nxt` are functions, with `none` for -1.
use fastgit.Common.{
  ℕ, zero, suc, ◌+◌, ◌-◌, ◌*◌, ◌/◌, ◌%◌, ◌^◌, min, bit_and, bit_or, Bool, true, false, not, ◌&&◌,
  ◌||◌, List, [], ◌∷◌, ◌++◌, length, get_or, take, drop, ltb, leb, ◌==◌, if◌then◌else◌, Option,
  none, some, Result, ok, err, stuck, error, enomem, guard, ◌>>=◌, ◌>>◌,
}
pub mod Chains
pub mod Match
pub mod Commands
pub mod RoundTrip
pub mod Git
use fastgit.Pack.Varint.{encode_varint}

pub record Tables : Type 0 where
  pub head : ℕ → Option ℕ
  pub nxt : ℕ → Option ℕ

-- `f[k] = v`
abbrev pub store : (ℕ → Option ℕ) → ℕ → Option ℕ → ℕ → Option ℕ
store f k v j = if j == k then v else f j

-- The four bytes from `i` on as a big-endian word, and the 14-bit hash of it.
unfoldable pub hash4 : List ℕ → ℕ → ℕ
hash4 b i =
    let h =
      bit_or
        (bit_or (bit_or (get_or b i 0 * 2 ^ 24) (get_or b (i + 1) 0 * 2 ^ 16))
          (get_or b (i + 2) 0 * 2 ^ 8))
        (get_or b (i + 3) 0) in
    h * 2654435761 % 2 ^ 32 / 2 ^ 18

-- `nxt[i] = head[h]; head[h] = (int)i;`
unfoldable pub index_step : List ℕ → ℕ → Tables → Tables
index_step b i s =
    let h = hash4 b i in record { head = store s.head h (some i); nxt = store s.nxt i (s.head h) }

-- `for (size_t i = 0; i + 4 <= base_len; i++)`, by the rounds left
unfoldable pub index_loop : List ℕ → ℕ → ℕ → Tables → Tables
index_loop b zero i s = s
index_loop b (suc rounds) i s = index_loop b rounds (i + 1) (index_step b i s)

unfoldable pub index_base : List ℕ → Tables
index_base b = index_loop b (length b - 3) 0 (record { head = λ _. none; nxt = λ _. none })

-- `while (ml < max_ml && b[boff + ml] == t[tpos + ml]) ml++;`, by the rounds left: how far `ml`
-- moves. `max_ml` keeps the loop inside both arrays; of a byte behind the end of one nothing is known,
-- and here it goes on.
unfoldable pub extend : ℕ → List ℕ → List ℕ → ℕ
extend (suc rounds) (x ∷ xs) (y ∷ ys) =
    let more = suc (extend rounds xs ys) in if x == y then more else 0
extend (suc rounds) [] ys = suc (extend rounds [] ys)
extend (suc rounds) (x ∷ xs) [] = suc (extend rounds xs [])
extend zero xs ys = 0

-- One round of the loop over a chain: `best_len`, `best_off`, and whether the loop breaks.
unfoldable pub consider : List ℕ → List ℕ → ℕ → ℕ → ℕ → ℕ × ℕ × Bool
consider b t boff best_len best_off =
    let same = λ (k : ℕ). get_or b (boff + k) 0 == get_or t k 0 in
    let max_ml = min (min (length b - boff) (length t)) 0x10000 in
    let ml = 4 + extend (max_ml - 4) (drop (boff + 4) b) (drop 4 t) in
    if ltb (length b) (boff + 4)
    then (best_len, best_off, false)
    else if not (same 1 && (same 2 && same 3))
    then (best_len, best_off, false)
    else if ltb best_len ml
    then (ml, boff, leb (length t) ml || ml == 0x10000)
    else (best_len, best_off, false)

-- `for (int boff = head[h]; boff != -1 && visits < 32; boff = nxt[boff], visits++)`
unfoldable pub search_chain : Tables → List ℕ → List ℕ → ℕ → Option ℕ → ℕ → ℕ → ℕ × ℕ
search_chain s b t zero boff best_len best_off = (best_len, best_off)
search_chain s b t (suc visits) none best_len best_off = (best_len, best_off)
search_chain s b t (suc visits) (some boff) best_len best_off =
    let r = consider b t boff best_len best_off in
    let more = search_chain s b t visits (s.nxt boff) r.0 r.1 in if r.2 then (r.0, r.1) else more

-- `best_len` and `best_off` for the rest `t` of the target; the tables are there if `b` is not
-- null, has 4 bytes at least, and both arrays could be had.
unfoldable pub best_match : Option (List ℕ × Tables) → List ℕ → ℕ × ℕ
best_match none t = (0, 0)
best_match (some (b, s)) t =
    if leb 4 (length t) then search_chain s b t 32 (s.head (hash4 t 0)) 0 0 else (0, 0)

-- `if (test) cmd |= flag;`
abbrev pub set_flag : Bool → ℕ → ℕ → ℕ
set_flag test flag cmd = if test then bit_or cmd flag else cmd

-- The command byte of a copy, from the seven tests.
unfoldable pub command_byte : Bool → Bool → Bool → Bool → Bool → Bool → Bool → ℕ
command_byte f₀ f₁ f₂ f₃ f₄ f₅ f₆ = set_flag f₆ 0x40 (
    set_flag f₅ 0x20 (
      set_flag f₄ 0x10
        (set_flag f₃ 0x08 (set_flag f₂ 0x04 (set_flag f₁ 0x02 (set_flag f₀ 0x01 0x80))))))

-- `if (cmd & flag) delta[pos++] = byte;`
abbrev pub put_arg : ℕ → ℕ → ℕ → List ℕ → List ℕ
put_arg cmd flag byte rest = if bit_and cmd flag == 0 then rest else byte ∷ rest

-- `x & mask` as a test
abbrev pub has_bits : ℕ → ℕ → Bool
has_bits x mask = not (bit_and x mask == 0)

-- What a copy writes to the delta, in front of `rest`.
unfoldable pub copy_command : ℕ → ℕ → List ℕ → List ℕ
copy_command best_off best_len rest =
    let cmd =
      command_byte (has_bits best_off 0xFF) (has_bits best_off 0xFF00) (has_bits best_off 0xFF0000)
        (has_bits best_off 0xFF000000) (has_bits best_len 0xFF) (has_bits best_len 0xFF00)
        (has_bits best_len 0xFF0000) in
    let len = if best_len == 0x10000 then 0 else best_len in
    cmd
    ∷ put_arg cmd 0x01 (bit_and best_off 0xFF) (
        put_arg cmd 0x02 (bit_and (best_off / 2 ^ 8) 0xFF) (
          put_arg cmd 0x04 (bit_and (best_off / 2 ^ 16) 0xFF) (
            put_arg cmd 0x08 (bit_and (best_off / 2 ^ 24) 0xFF) (
              put_arg cmd 0x10 (bit_and len 0xFF) (
                put_arg cmd 0x20 (bit_and (len / 2 ^ 8) 0xFF)
                  (put_arg cmd 0x40 (bit_and (len / 2 ^ 16) 0xFF) rest))))))

-- `if (lit_len) { delta[pos++] = (uint8_t)lit_len; memcpy(…); lit_len = 0; }`
unfoldable pub flush : List ℕ → List ℕ → List ℕ
flush [] rest = rest
flush (x ∷ lit) rest = length (x ∷ lit) ∷ (x ∷ lit) ++ rest

-- `while (tpos < target_len)` and the flush behind it: the bytes written, from the rest of the
-- target and the literal buffer.
unfoldable pub compress_loop : Option (List ℕ × Tables) → ℕ → List ℕ → List ℕ → Result (List ℕ)
compress_loop tables fuel [] lit = ok (flush lit [])
compress_loop tables zero (x ∷ t) lit = stuck
compress_loop tables (suc fuel) (x ∷ t) lit =
    let best = best_match tables (x ∷ t) in
    let copied = compress_loop tables fuel (drop best.0 (x ∷ t)) [] in
    let full = compress_loop tables fuel t [] in
    let more = compress_loop tables fuel t (lit ++ (x ∷ [])) in
    if leb 4 best.0
    then (copied >>= λ rest. ok (flush lit (copy_command best.1 best.0 rest)))
    else if length lit + 1 == 127
    then (full >>= λ rest. ok (flush (lit ++ (x ∷ [])) rest))
    else more

-- `b && base_len >= 4`, and the two arrays.
unfoldable pub make_tables : (ℕ → Bool) → Option (List ℕ) → Option (List ℕ × Tables)
make_tables malloc none = none
make_tables malloc (some b) =
    if leb 4 (length b) && (malloc (2 ^ 14 * 4) && malloc (length b * 4))
    then some (b, index_base b)
    else none

-- `base_len`
abbrev pub base_length : Option (List ℕ) → ℕ
base_length none = 0
base_length (some b) = length b

-- The size of the buffer for the delta. The `size_t` wraps for a target of about 2 ^ 63 bytes, more
-- than an address space holds, and not before.
unfoldable pub buffer_size : ℕ → ℕ → ℕ
buffer_size base_len target_len =
    length (encode_varint base_len) + length (encode_varint target_len) + target_len * 2 + 16

unfoldable pub delta_compress : (ℕ → Bool) → Option (List ℕ) → List ℕ → Result (List ℕ)
delta_compress malloc base target = do
  guard (malloc (buffer_size (base_length base) (length target))) enomem
  body ← compress_loop (make_tables malloc base) (length target) target []
  ok (encode_varint (base_length base) ++ (encode_varint (length target) ++ body))
