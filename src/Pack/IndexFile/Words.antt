-- ===== src/Pack/IndexFile/Words.antt =====
-- The tables of the file of a pack index, written and read.
use fastgit.Common.{
  ℕ, zero, suc, ◌+◌, ◌*◌, ◌/◌, ◌%◌, ◌^◌, ◌<◌, bit_and, ◌≡◌, refl, sym, ap, ◌∙◌, arith, true, List,
  [], ◌∷◌, ◌++◌, length, take, drop, get_or, All, ◌==◌, ok, length-append, take-length-append,
  drop-length-append, drop-drop,
}
use fastgit.Common.Bits.{bit_and-shifted_mask}
use fastgit.Index.Disk.Words.{read32-be32}
use fastgit.Pack.Lookup.{fanout_at}
use fastgit.Pack.IndexFile.{
  write_words, write_oids, read_words, read_oids, fanout_from, fits_size, detect_length,
  large_offsets,
}

abbrev pub IsWords : List ℕ → Type 0
IsWords = All (λ x. x < 2 ^ 32)

pub read_words-write_words :
    (xs rest : List ℕ) → IsWords xs → read_words (length xs) (write_words xs rest) ≡ xs
unfolding read_words write_words
read_words-write_words [] rest h = refl
read_words-write_words (x ∷ xs) rest (hx, h) =
    let same : x % 2 ^ 32 ≡ x = omega arith in
    let first = read32-be32 (x % 2 ^ 32) (write_words xs rest) (omega arith) in
    rw (first, same, read_words-write_words xs rest h) refl

pub drop-write_words : (xs rest : List ℕ) → drop (length xs * 4) (write_words xs rest) ≡ rest
unfolding write_words
drop-write_words [] rest = refl
drop-write_words (x ∷ xs) rest =
    let four : length (x ∷ xs) * 4 ≡ 4 + length xs * 4 = omega arith in
    rw four (drop-drop 4 (length xs * 4) _ ∙ drop-write_words xs rest)

pub length-write_words :
    (xs rest : List ℕ) → length (write_words xs rest) ≡ length xs * 4 + length rest
unfolding write_words
length-write_words [] rest = omega arith
length-write_words (x ∷ xs) rest = omega (arith, length-write_words xs rest)

abbrev pub HasLength : ℕ → List (List ℕ) → Type 0
HasLength size = All (λ o. length o ≡ size)

take_whole : (o rest : List ℕ) (size : ℕ) → length o ≡ size → take size (o ++ rest) ≡ o
take_whole o rest size h = ap (λ n. take n (o ++ rest)) (sym h) ∙ take-length-append o rest

drop_whole : (o rest : List ℕ) (size : ℕ) → length o ≡ size → drop size (o ++ rest) ≡ rest
drop_whole o rest size h = ap (λ n. drop n (o ++ rest)) (sym h) ∙ drop-length-append o rest

take_all : (o : List ℕ) (size : ℕ) → length o ≡ size → take size o ≡ o
take_all [] zero h = refl
take_all [] (suc size) h = refl
take_all (x ∷ o) zero h = absurd (omega arith)
take_all (x ∷ o) (suc size) h = ap (λ xs. x ∷ xs) (take_all o size (omega arith))

pub read_oids-write_oids :
    (size : ℕ) (os : List (List ℕ)) (rest : List ℕ)
    → HasLength size os
    → (read_oids size (length os) (write_oids size os rest) ≡ os)
      × (drop (length os * size) (write_oids size os rest) ≡ rest)
      × (length (write_oids size os rest) ≡ length os * size + length rest)
unfolding read_oids write_oids
read_oids-write_oids size [] rest h =
    let none_left : 0 * size ≡ 0 = omega arith in (refl, rw none_left refl, omega arith)
read_oids-write_oids size (o ∷ os) rest (ho, h) =
    let (back, left, len) = read_oids-write_oids size os rest h in
    let more = write_oids size os rest in
    let next : length (o ∷ os) * size ≡ size + length os * size = omega arith in
    (
      rw (take_all o size ho, take_whole o more size ho, drop_whole o more size ho, back) refl,
      rw (next, take_all o size ho)
          (drop-drop size (length os * size) (o ++ more)
            ∙ ap (drop (length os * size)) (drop_whole o more size ho)
            ∙ left),
      rw (next, take_all o size ho) (omega (arith, length-append o more, len, ho)),
    )

-- The entry of the fan-out for a byte.
pub get_or-fanout_from :
    (n f i : ℕ) (oids : List (List ℕ))
    → i < n
    → get_or (fanout_from n f oids) i 0 ≡ fanout_at oids (f + i)
unfolding fanout_from
get_or-fanout_from zero f i oids h = absurd (omega arith)
get_or-fanout_from (suc n) f zero oids h = let e : f + 0 ≡ f = omega arith in rw e refl
get_or-fanout_from (suc n) f (suc i) oids h =
    let e : f + suc i ≡ f + 1 + i = omega arith in
    rw e (get_or-fanout_from n (f + 1) i oids (omega arith))

pub length-fanout_from : (n f : ℕ) (oids : List (List ℕ)) → length (fanout_from n f oids) ≡ n
unfolding fanout_from
length-fanout_from zero f oids = refl
length-fanout_from (suc n) f oids = ap suc (length-fanout_from n (f + 1) oids)

-- Offsets below 2 ^ 31 stand for themselves.
pub large_offsets-small :
    (offs bytes : List ℕ) → All (λ x. x < 2 ^ 31) offs → large_offsets offs bytes ≡ ok (offs, bytes)
unfolding large_offsets
large_offsets-small [] bytes h = refl
large_offsets-small (x ∷ offs) bytes (hx, h) =
    let low : (bit_and x 0x80000000 == 0) ≡ true =
      let high : x / 2 ^ 31 ≡ 0 = omega arith in
      let none_set : bit_and x (1 * 2 ^ 31) ≡ 0 = bit_and-shifted_mask 31 x 1 ∙ rw high refl in
      rw none_set refl in
    rw (low, large_offsets-small offs bytes h) refl

-- With names, and two hashes at the end, of 32 bytes, no other length goes with the size.
pub detect_length-32 :
    (size count : ℕ)
    → size ≡ 1032 + count * 32 + count * 4 + count * 4 + 64
    → detect_length size count (20 ∷ 32 ∷ 48 ∷ 64 ∷ []) ≡ 32
unfolding detect_length fits_size
detect_length-32 size count h = ground arith
