-- ===== src/Network/Pktline.antt =====
-- src/network/protocol.c: packets of git's protocol, four digits with their length in front.
-- `strtoul16` is `strtoul` of base 16 on four characters, `none` where no digit is read; `digits` is
-- what "%04zx" prints. Allocation succeeds.
pub mod Frames
pub mod Refs
pub mod SideBand
pub mod Hostile
pub mod Limits
use fastgit.Common.{
  ℕ, zero, suc, ◌+◌, ◌-◌, ◌*◌, min, Bool, true, false, ◌&&◌, ◌||◌, List, [], ◌∷◌, ◌++◌, length,
  take, drop, get_or, ltb, leb, ◌==◌, if◌then◌else◌, Option, none, some, Result, ok, err, fault,
  stuck, enoent, ◌>>=◌, ◌>>◌, readable,
}
use fastgit.Index.Entry.{Oid, str_eq}
use fastgit.Object.Oid.{oid_from_hex}

-- `fastgit_ref_t`, whose `target` stays null
pub record Ref : Type 0 where
  pub name : List ℕ
  pub oid : Oid

-- What the head of a loop over packets decides: to leave the loop, to go on behind four bytes, or
-- to look at a packet of this length.
pub data Packet : Type 0 where
  stop skip : Packet
  packet : ℕ → Packet

-- The tests of `fastgit_pktline_parse_refs` on the length, with `left` bytes from `off` on.
unfoldable pub refs_packet : Option ℕ → ℕ → Packet
refs_packet none left = stop
refs_packet (some pkt) left =
    if ltb 65535 pkt
    then stop
    else if pkt == 0
    then skip
    else if pkt == 1
    then skip
    else if ltb pkt 4 || ltb left pkt
    then stop
    else packet pkt

-- The tests of `extract_pack_from_response`.
unfoldable pub pack_packet : Option ℕ → ℕ → Packet
pack_packet none left = stop
pack_packet (some pkt) left =
    if ltb 65535 pkt
    then stop
    else if pkt == 0
    then skip
    else if ltb pkt 4 || ltb left pkt
    then stop
    else packet pkt

-- `while (plen > 0 && (payload[plen - 1] == '\n' || …)) plen--;`: one byte in front of what is left.
abbrev pub trim_front : ℕ → List ℕ → List ℕ
trim_front b [] = if (b == 10) || (b == 13) then [] else b ∷ []
trim_front b (x ∷ xs) = b ∷ x ∷ xs

unfoldable pub trim : List ℕ → List ℕ
trim [] = []
trim (b ∷ bs) = trim_front b (trim bs)

unfoldable pub is_hex : ℕ → Bool
is_hex c = (leb 48 c && leb c 57) || ((leb 97 c && leb c 102) || (leb 65 c && leb c 70))

-- `hexlen`
unfoldable pub hex_run : List ℕ → ℕ
hex_run [] = 0
hex_run (c ∷ cs) = let more = suc (hex_run cs) in if is_hex c then more else 0

-- The bytes in front of the first 0.
unfoldable pub until_nul : List ℕ → List ℕ
until_nul [] = []
until_nul (b ∷ bs) = let more = b ∷ until_nul bs in if b == 0 then [] else more

-- `payload[0] == '#' && payload[1] == ' '`, for a line of two bytes at least
unfoldable pub is_comment : List ℕ → Bool
is_comment line = leb 2 (length line) && ((get_or line 0 0 == 35) && (get_or line 1 0 == 32))

abbrev pub with_oid : List ℕ → Result Oid → Option Ref
with_oid name (ok oid) = some (record { name = name; oid = oid })
with_oid name (err e) = none
with_oid name fault = none
with_oid name stuck = none

unfoldable pub named_ref : List ℕ → List ℕ → Option Ref
named_ref hex name =
    if (length name == 0) || ltb 1024 (length name) then none else with_oid name (oid_from_hex hex)

-- The tests on `hexlen`, and the name behind the space.
unfoldable pub ref_at : List ℕ → ℕ → Option Ref
ref_at line hexlen =
    if ((hexlen == 40) || (hexlen == 64))
      && (ltb hexlen (length line) && (get_or line hexlen 0 == 32))
    then named_ref (take hexlen line) (until_nul (drop (hexlen + 1) line))
    else none

-- The reference that a payload holds, `none` where the loop goes on without one.
unfoldable pub ref_of : List ℕ → Option Ref
ref_of payload =
    let line = trim payload in if is_comment line then none else ref_at line (hex_run line)

abbrev pub add_ref : List Ref → Option Ref → List Ref
add_ref refs none = refs
add_ref refs (some r) = refs ++ (r ∷ [])

unfoldable pub has_prefix : List ℕ → List ℕ → Bool
has_prefix word bytes = str_eq (take (length word) bytes) word

-- "PACK" and "NAK\n"
abbrev pub pack_word : List ℕ
pack_word = 80 ∷ 65 ∷ 67 ∷ 75 ∷ []

abbrev pub nak_word : List ℕ
nak_word = 78 ∷ 65 ∷ 75 ∷ 10 ∷ []

-- What a packet adds to the pack, and whether the loop is left: the branch without a side band.
unfoldable pub take_plain : List ℕ → List ℕ → List ℕ → List ℕ × Bool
take_plain payload tail pack =
    let more = if has_prefix pack_word payload then pack ++ payload else pack in
    if (length payload == 8) && (has_prefix nak_word payload && has_prefix pack_word tail)
    then (more ++ tail, true)
    else (more, false)

-- The side band of a payload: 1 for the pack, 2 for progress, 3 for an error.
unfoldable pub take_payload : List ℕ → List ℕ → List ℕ → List ℕ × Bool
take_payload [] tail pack = take_plain [] tail pack
take_payload (band ∷ chunk) tail pack =
    if band == 1
    then (pack ++ chunk, false)
    else if (band == 2) || (band == 3)
    then (pack, false)
    else take_plain (band ∷ chunk) tail pack

-- `memchr` for 'P' and the test of four bytes, over and over: the bytes from "PACK" on.
unfoldable pub find_pack : List ℕ → Option (List ℕ)
find_pack [] = none
find_pack (b ∷ bs) =
    let more = find_pack bs in if has_prefix pack_word (b ∷ bs) then some (b ∷ bs) else more

unfoldable pub fall_back : List ℕ → List ℕ → List ℕ
fall_back rdata pack = elim (find_pack rdata) [ none ↦ pack | some found ↦ found ]

-- The search behind the loop, and the last test.
unfoldable pub finish_pack : List ℕ → List ℕ → Result (List ℕ)
finish_pack rdata pack =
    let found = if ltb (length pack) 12 then fall_back rdata pack else pack in
    if ltb (length found) 12 then err enoent else ok found

module _ (digits : ℕ → List ℕ) where
  -- `fastgit_pktline_encode`: `none` is the null pointer. `snprintf` writes four digits.
  unfoldable pub encode : Option (List ℕ) → List ℕ
  encode none = 48 ∷ 48 ∷ 48 ∷ 48 ∷ []
  encode (some payload) =
      let tlen = min (length payload + 4) 65535 in take 4 (digits tlen) ++ take (tlen - 4) payload

  -- `pktline_append`
  unfoldable pub pktline_append : List ℕ → Option (List ℕ) → List ℕ
  pktline_append buf payload = buf ++ encode payload

module _ (strtoul16 : List ℕ → Option ℕ) where
  -- `while (off + 4 <= len)` and the head of the body.
  unfoldable pub refs_head : List ℕ → Packet
  refs_head bytes =
      if ltb (length bytes) 4 then stop else refs_packet (strtoul16 (take 4 bytes)) (length bytes)

  unfoldable pub pack_head : List ℕ → Packet
  pack_head bytes =
      if ltb (length bytes) 4 then stop else pack_packet (strtoul16 (take 4 bytes)) (length bytes)

  -- The loop of `fastgit_pktline_parse_refs`, on the bytes from `off` on.
  unfoldable pub refs_loop : ℕ → List ℕ → List Ref → Result (List Ref)
  refs_loop zero bytes refs = stuck
  refs_loop (suc fuel) bytes refs = elim (refs_head bytes) [
    | stop ↦ ok refs
    | skip ↦ readable 4 bytes >> refs_loop fuel (drop 4 bytes) refs
    | packet pkt ↦
        readable pkt bytes
        >> refs_loop fuel (drop pkt bytes) (add_ref refs (ref_of (take (pkt - 4) (drop 4 bytes))))
  ]

  -- Every round takes four bytes at least.
  unfoldable pub parse_refs : List ℕ → Result (List Ref)
  parse_refs bytes = refs_loop (suc (length bytes)) bytes []

  -- The loop of `extract_pack_from_response`. A packet that goes on behind the response is read out
  -- of bounds.
  unfoldable pub pack_loop : ℕ → List ℕ → List ℕ → Result (List ℕ)
  pack_loop zero bytes pack = stuck
  pack_loop (suc fuel) bytes pack = elim (pack_head bytes) [
    | stop ↦ ok pack
    | skip ↦ readable 4 bytes >> pack_loop fuel (drop 4 bytes) pack
    | packet pkt ↦
        let (more, left) = take_payload (take (pkt - 4) (drop 4 bytes)) (drop pkt bytes) pack in
        readable pkt bytes
        >> elim left [ true ↦ ok more | false ↦ pack_loop fuel (drop pkt bytes) more ]
  ]

  unfoldable pub extract_pack : List ℕ → Result (List ℕ)
  extract_pack rdata =
      if has_prefix pack_word rdata
      then ok rdata
      else (pack_loop (suc (length rdata)) rdata [] >>= λ pack. finish_pack rdata pack)
