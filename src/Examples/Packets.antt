-- ===== src/Examples/Packets.antt =====
-- Runs of the packets of src/network/protocol.c.
use fastgit.Common.{
  ℕ, ◌+◌, ◌-◌, ◌*◌, ◌/◌, ◌%◌, ◌≤◌, ◌<◌, ◌≡◌, ◌⊎◌, refl, ap, arith, true, List, [], ◌∷◌, length,
  replicate, All, ltb, if◌then◌else◌, inl, Option, none, some, ok, err, enoent,
}
use fastgit.Object.Oid.{algo_of_length}
use fastgit.Network.Pktline.{Ref, is_hex, parse_refs, extract_pack}
use fastgit.Network.Pktline.Frames.{IsLibrary}
use fastgit.Network.Pktline.Refs.{IsAdvertised, advertise, parse_refs-advertise}
use fastgit.Network.Pktline.SideBand.{Message, first_band, response, extract_pack-response}
use fastgit.Network.Pktline.Hostile.{IsSane, parse_refs-AreSane}
use fastgit.Network.Pktline.Limits.{extract_pack-IsPart}

-- A hexadecimal digit, its value, and the numbers of four digits.
abbrev digit : ℕ → ℕ
digit d = if ltb d 10 then 48 + d else 87 + d

abbrev value : ℕ → ℕ
value c = if ltb c 58 then c - 48 else c - 87

abbrev four_digits : ℕ → List ℕ
four_digits n = digit (n / 4096) ∷ digit (n / 256 % 16) ∷ digit (n / 16 % 16) ∷ digit (n % 16) ∷ []

abbrev number : List ℕ → Option ℕ
number (a ∷ b ∷ c ∷ d ∷ []) =
    if is_hex a then some (value a * 4096 + value b * 256 + value c * 16 + value d) else none
number text = none

value-digit : (d : ℕ) → d < 16 → value (digit d) ≡ d
value-digit d small = ground arith

digit-IsHex : (d : ℕ) → d < 16 → is_hex (digit d) ≡ true
unfolding is_hex
digit-IsHex d small = ground arith

number-four_digits : (n : ℕ) → n ≤ 65535 → number (four_digits n) ≡ some n
number-four_digits n small =
    rw
      (
        digit-IsHex (n / 4096) (omega arith),
        value-digit (n / 4096) (omega arith),
        value-digit (n / 256 % 16) (omega arith),
        value-digit (n / 16 % 16) (omega arith),
        value-digit (n % 16) (omega arith),
      )
      (ap some (omega arith))

four_digits-IsLibrary : IsLibrary four_digits number
unfolding is_hex
four_digits-IsLibrary = record {
  four = λ n small. refl;
  reads = number-four_digits;
  zeros = refl;
  letters = refl;
}

-- A branch "refs" at a commit with a name of SHA-1.
abbrev branch : Ref
branch = record {
  name = 114 ∷ 101 ∷ 102 ∷ 115 ∷ [];
  oid = record { hash = replicate 20 7; algo = 0 };
}

abbrev progress : Message
progress = record { band = 2; chunk = 42 ∷ [] }

abbrev data_of : ℕ → Message
data_of n = record { band = 1; chunk = replicate n 80 }

branch-IsAdvertised : IsAdvertised branch
unfolding algo_of_length
branch-IsAdvertised = record {
  bytes = ground arith;
  size = inl refl;
  algo = refl;
  named = omega arith;
  short = omega arith;
  clean = ground arith;
}

parse_refs-advertise_example :
    parse_refs number (advertise four_digits number (branch ∷ [])) ≡ ok (branch ∷ [])
parse_refs-advertise_example =
    parse_refs-advertise four_digits number four_digits-IsLibrary (branch ∷ [])
      (branch-IsAdvertised, tt)

extract_pack-response_example :
    extract_pack number (response four_digits number (data_of 6 ∷ progress ∷ data_of 8 ∷ []))
    ≡ ok (first_band (data_of 6 ∷ progress ∷ data_of 8 ∷ []))
unfolding first_band
extract_pack-response_example =
    extract_pack-response four_digits number four_digits-IsLibrary
      (data_of 6 ∷ progress ∷ data_of 8 ∷ [])
      (
        record { low = omega arith; high = omega arith; fits = omega arith },
        (
          record { low = omega arith; high = omega arith; fits = omega arith },
          (record { low = omega arith; high = omega arith; fits = omega arith }, tt),
        ),
      )
      (omega arith)

parse_refs-AreSane_example :
    (refs : List Ref) × (parse_refs number (48 ∷ 48 ∷ 49 ∷ []) ≡ ok refs) × All IsSane refs
parse_refs-AreSane_example = parse_refs-AreSane number (48 ∷ 48 ∷ 49 ∷ [])

-- A packet that promises more bytes than there are.
abbrev noise : List ℕ
noise = 48 ∷ 48 ∷ 102 ∷ 102 ∷ 1 ∷ 2 ∷ 80 ∷ 65 ∷ []

extract_pack-IsPart_example :
    (extract_pack number noise ≡ err enoent)
    ⊎ ((pack : List ℕ) × (extract_pack number noise ≡ ok pack)
        × (4 ≤ length pack)
        × (length pack ≤ length noise))
extract_pack-IsPart_example = extract_pack-IsPart number noise
