-- ===== src/Network/Pktline/Limits.antt =====
-- The pack that is taken from arbitrary bytes.
use fastgit.Common.{
  ℕ, zero, suc, ◌+◌, ◌-◌, ◌≤◌, ◌<◌, ◌≡◌, ◌⊎◌, inl, inr, refl, ap, subst, arith, Bool-cases, Bool,
  true, false, ◌&&◌, ◌||◌, List, [], ◌∷◌, ◌++◌, length, take, drop, ltb, ◌==◌, if◌then◌else◌,
  length-append, length-take, length-drop, Option, none, some, Result, ok, err, enoent, readable-ok,
}
use fastgit.Index.Entry.{str_eq→eq}
use fastgit.Network.Pktline.{
  Packet, packet, skip, stop, has_prefix, pack_word, nak_word, take_plain, take_payload, find_pack,
  fall_back, finish_pack, pack_packet, pack_head, pack_loop, extract_pack,
}
use fastgit.Network.Pktline.Hostile.{IsInside}

-- What a payload can add, in front of `tail`.
IsSmall : List ℕ → List ℕ → List ℕ → List ℕ × Bool → Type 0
IsSmall payload tail pack (more, true) = length more ≤ length pack + length payload + length tail
IsSmall payload tail pack (more, false) = length more ≤ length pack + length payload

take_plain-IsSmall :
    (payload tail pack : List ℕ) → IsSmall payload tail pack (take_plain payload tail pack)
unfolding take_plain IsSmall
take_plain-IsSmall payload tail pack =
    let more = if has_prefix pack_word payload then pack ++ payload else pack in
    let size : length more ≤ length pack + length payload =
      elim (Bool-cases (has_prefix pack_word payload)) [
        | inl starts ↦ rw starts (omega (arith, length-append pack payload))
        | inr other ↦ rw other (omega arith)
      ] in
    elim (Bool-cases
      ((length payload == 8) && (has_prefix nak_word payload && has_prefix pack_word tail))) [
        | inl nak ↦ rw nak (omega (arith, size, length-append more tail))
        | inr other ↦ rw other size
      ]

take_payload-IsSmall :
    (payload tail pack : List ℕ) → IsSmall payload tail pack (take_payload payload tail pack)
unfolding take_payload IsSmall
take_payload-IsSmall [] tail pack = take_plain-IsSmall [] tail pack
take_payload-IsSmall (band ∷ chunk) tail pack = elim (Bool-cases (band == 1)) [
  | inl first ↦ rw first (omega (arith, length-append pack chunk))
  | inr other ↦ elim (Bool-cases ((band == 2) || (band == 3))) [
    | inl side ↦ rw (other, side) (omega arith)
    | inr plain ↦ rw (other, plain) (take_plain-IsSmall (band ∷ chunk) tail pack)
  ]
]

has_prefix-length :
    (word bytes : List ℕ) → has_prefix word bytes ≡ true → length word ≤ length bytes
unfolding has_prefix
has_prefix-length word bytes h =
    let same = str_eq→eq (take (length word) bytes) word h in
    omega (arith, ap length same, length-take (length word) bytes)

find_pack-length :
    (bytes found : List ℕ) → find_pack bytes ≡ some found → length found ≤ length bytes
unfolding find_pack
find_pack-length [] found h = cc
find_pack-length (b ∷ bs) found h = elim (Bool-cases (has_prefix pack_word (b ∷ bs))) [
  | inl here ↦ let same : b ∷ bs ≡ found = cc (rw here at h) in omega (arith, ap length same)
  | inr later ↦ omega (arith, find_pack-length bs found (rw later at h))
]

fall_back-length :
    (rdata pack : List ℕ) (o : Option (List ℕ))
    → find_pack rdata ≡ o
    → length pack ≤ length rdata
    → length (fall_back rdata pack) ≤ length rdata
unfolding fall_back
fall_back-length rdata pack none e h = rw (e, fall_back) h
fall_back-length rdata pack (some found) e h = rw (e, fall_back) (find_pack-length rdata found e)

-- A pack of four bytes at least, and no longer than what was received.
abbrev pub IsPart : List ℕ → Result (List ℕ) → Type 0
IsPart rdata result =
    (result ≡ err enoent)
    ⊎ ((pack : List ℕ) × (result ≡ ok pack) × (4 ≤ length pack) × (length pack ≤ length rdata))

finish_pack-IsPart :
    (rdata pack : List ℕ) → length pack ≤ length rdata → IsPart rdata (finish_pack rdata pack)
unfolding finish_pack
finish_pack-IsPart rdata pack inside =
    let found = if ltb (length pack) 12 then fall_back rdata pack else pack in
    let size : length found ≤ length rdata = elim (Bool-cases (ltb (length pack) 12)) [
      | inl short ↦ rw short (fall_back-length rdata pack (find_pack rdata) refl inside)
      | inr long ↦ rw long inside
    ] in
    elim (Bool-cases (ltb (length found) 12)) [
      | inl short ↦ inl (rw short refl)
      | inr long ↦ inr (found, rw long refl, ground (arith, long), size)
    ]

module _ (strtoul16 : List ℕ → Option ℕ) where
  pack_head-IsInside :
      (bytes : List ℕ) (p : Packet) → pack_head strtoul16 bytes ≡ p → IsInside strtoul16 bytes p
  unfolding pack_head pack_packet
  pack_head-IsInside bytes stop e = tt
  pack_head-IsInside bytes skip e = ground arith
  pack_head-IsInside bytes (packet pkt) e = ground arith

  abbrev Within : ℕ → Result (List ℕ) → Type 0
  Within n result = (out : List ℕ) × (result ≡ ok out) × (length out ≤ n)

  pack_loop-packet :
      (fuel pkt n : ℕ) (bytes pack : List ℕ) (r : List ℕ × Bool)
      → pack_head strtoul16 bytes ≡ packet pkt
      → take_payload (take (pkt - 4) (drop 4 bytes)) (drop pkt bytes) pack ≡ r
      → length bytes < suc fuel
      → length pack + length bytes ≤ n
      → ((bytes' pack' : List ℕ)
          → length bytes' < fuel
          → length pack' + length bytes' ≤ n
          → Within n (pack_loop strtoul16 fuel bytes' pack'))
      → Within n (pack_loop strtoul16 (suc fuel) bytes pack)
  unfolding pack_loop IsSmall
  pack_loop-packet fuel pkt n bytes pack (more, true) e takes enough fits next =
      let payload = take (pkt - 4) (drop 4 bytes) in
      let small : IsSmall payload (drop pkt bytes) pack (more, true) =
        subst (IsSmall payload (drop pkt bytes) pack) takes
          (take_payload-IsSmall payload (drop pkt bytes) pack) in
      let (some_bytes, inside) = pack_head-IsInside bytes (packet pkt) e in
      (
        more,
        rw (e, pack_loop, takes, takes, readable-ok pkt bytes inside) refl,
        omega (
          arith,
          small,
          length-take (pkt - 4) (drop 4 bytes),
          length-drop 4 bytes,
          length-drop pkt bytes,
        ),
      )
  pack_loop-packet fuel pkt n bytes pack (more, false) e takes enough fits next =
      let payload = take (pkt - 4) (drop 4 bytes) in
      let small : IsSmall payload (drop pkt bytes) pack (more, false) =
        subst (IsSmall payload (drop pkt bytes) pack) takes
          (take_payload-IsSmall payload (drop pkt bytes) pack) in
      let (some_bytes, inside) = pack_head-IsInside bytes (packet pkt) e in
      let (out, run, size) = next (drop pkt bytes) more (omega (arith, length-drop pkt bytes)) (
        omega (
          arith,
          small,
          length-take (pkt - 4) (drop 4 bytes),
          length-drop 4 bytes,
          length-drop pkt bytes,
        )) in
      (out, rw (e, pack_loop, takes, takes, readable-ok pkt bytes inside) run, size)

  pack_loop-step :
      (fuel n : ℕ) (bytes pack : List ℕ) (p : Packet)
      → pack_head strtoul16 bytes ≡ p
      → length bytes < suc fuel
      → length pack + length bytes ≤ n
      → ((bytes' pack' : List ℕ)
          → length bytes' < fuel
          → length pack' + length bytes' ≤ n
          → Within n (pack_loop strtoul16 fuel bytes' pack'))
      → Within n (pack_loop strtoul16 (suc fuel) bytes pack)
  unfolding pack_loop
  pack_loop-step fuel n bytes pack stop e enough fits next =
      (pack, rw (e, pack_loop) refl, omega arith)
  pack_loop-step fuel n bytes pack skip e enough fits next =
      let inside = pack_head-IsInside bytes skip e in
      rw (e, pack_loop, readable-ok 4 bytes inside)
        (next (drop 4 bytes) pack (omega (arith, inside, length-drop 4 bytes))
          (omega (arith, length-drop 4 bytes)))
  pack_loop-step fuel n bytes pack (packet pkt) e enough fits next =
      pack_loop-packet fuel pkt n bytes pack
        (take_payload (take (pkt - 4) (drop 4 bytes)) (drop pkt bytes) pack) e refl enough fits next

  pack_loop-Within :
      (fuel n : ℕ) (bytes pack : List ℕ)
      → length bytes < fuel
      → length pack + length bytes ≤ n
      → Within n (pack_loop strtoul16 fuel bytes pack)
  pack_loop-Within zero n bytes pack enough fits = absurd (omega arith)
  pack_loop-Within (suc fuel) n bytes pack enough fits =
      pack_loop-step fuel n bytes pack (pack_head strtoul16 bytes) refl enough fits
        (pack_loop-Within fuel n)

  -- On any bytes that a server sends, `extract_pack_from_response` ends and reads no packet behind the
  -- end of the response: it gives FASTGIT_ENOENT, or a pack of four bytes at least that is no longer
  -- than the response.
  pub extract_pack-IsPart :
      (rdata : List ℕ)
      → (extract_pack strtoul16 rdata ≡ err enoent)
        ⊎ ((pack : List ℕ) × (extract_pack strtoul16 rdata ≡ ok pack)
            × (4 ≤ length pack)
            × (length pack ≤ length rdata))
  unfolding extract_pack
  extract_pack-IsPart rdata = elim (Bool-cases (has_prefix pack_word rdata)) [
    | inl raw ↦ inr (rdata, rw raw refl, has_prefix-length pack_word rdata raw, omega arith)
    | inr other ↦
        let (pack, run, size) =
          pack_loop-Within (suc (length rdata)) (length rdata) rdata [] (omega arith)
            (omega arith) in
        rw (other, run) (finish_pack-IsPart rdata pack size)
  ]
