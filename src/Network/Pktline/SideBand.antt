-- ===== src/Network/Pktline/SideBand.antt =====
-- A pack that a server sends in side-band packets.
use fastgit.Common.{
  ℕ, zero, suc, ◌+◌, ◌≤◌, ◌≡◌, refl, sym, ap, ◌∙◌, arith, Bool-cases, inl, inr, true, false, ◌||◌,
  List, [], ◌∷◌, ◌++◌, append_assoc, append-nil, length, drop, All, ltb, ◌==◌, if◌then◌else◌,
  Option, none, some, ok, readable-ok,
}
use fastgit.Index.Entry.{str_eq, str_eq→eq}
use fastgit.Network.Pktline.{
  encode, pack_word, has_prefix, take_payload, pack_packet, pack_head, pack_loop, finish_pack,
  extract_pack,
}
use fastgit.Network.Pktline.Frames.{IsLibrary, frame, frame-IsSplit, pack_head-frame}

-- A band and its bytes.
pub record Message : Type 0 where
  pub band : ℕ
  pub chunk : List ℕ

-- One of the three bands, and bytes that fit in a packet.
pub record IsMessage (m : Message) : Type 0 where
  pub low : 1 ≤ m.band
  pub high : m.band ≤ 3
  pub fits : length m.chunk ≤ 65530

-- The bytes of the first band.
unfoldable pub first_band : List Message → List ℕ
first_band [] = []
first_band (m ∷ ms) = if m.band == 1 then m.chunk ++ first_band ms else first_band ms

finish_pack-long : (rdata pack : List ℕ) → 12 ≤ length pack → finish_pack rdata pack ≡ ok pack
unfolding finish_pack
finish_pack-long rdata pack long =
    let enough : ltb (length pack) 12 ≡ false = ground arith in rw (enough, enough) refl

module _ (digits : ℕ → List ℕ) (strtoul16 : List ℕ → Option ℕ) where
  -- The packets of the messages, and the packet of length 0 at their end.
  unfoldable pub response : List Message → List ℕ
  response [] = encode digits none
  response (m ∷ ms) = frame digits strtoul16 (m.band ∷ m.chunk) (response ms)

  module _ (lib : IsLibrary digits strtoul16) where
    pack_loop-packet :
        (fuel : ℕ) (m : Message) (rest pack more : List ℕ)
        → IsMessage m
        → ((tail : List ℕ) → take_payload (m.band ∷ m.chunk) tail pack ≡ (more, false))
        → pack_loop strtoul16 (suc fuel) (frame digits strtoul16 (m.band ∷ m.chunk) rest) pack
          ≡ pack_loop strtoul16 fuel rest more
    unfolding pack_loop
    pack_loop-packet fuel m rest pack more v takes =
        let payload = m.band ∷ m.chunk in
        let short : length payload ≤ 65531 = omega (arith, v.fits) in
        let is = frame-IsSplit digits strtoul16 lib payload rest short in
        let behind = drop (length payload + 4) (frame digits strtoul16 payload rest) in
        let inside =
          readable-ok (length payload + 4) (frame digits strtoul16 payload rest)
            (omega (arith, is.size)) in
        let taken = ap (λ p. take_payload p behind pack) is.body ∙ takes behind in
        rw
          (
            pack_head-frame digits strtoul16 lib payload rest short,
            pack_loop,
            taken,
            taken,
            is.tail,
            inside,
          )
          refl

    pack_loop-end :
        (fuel : ℕ) (pack : List ℕ)
        → 2 ≤ fuel
        → pack_loop strtoul16 fuel (encode digits none) pack ≡ ok pack
    unfolding pack_loop pack_head pack_packet encode
    pack_loop-end zero pack enough = absurd (omega arith)
    pack_loop-end (suc zero) pack enough = absurd (omega arith)
    pack_loop-end (suc (suc fuel)) pack enough =
        rw (lib.zeros, pack_loop, readable-ok 4 (48 ∷ 48 ∷ 48 ∷ 48 ∷ []) (omega arith)) refl

    length-end : length (encode digits none) ≡ 4
    unfolding encode
    length-end = refl

    pack_loop-response :
        (fuel : ℕ) (ms : List Message) (pack : List ℕ)
        → All IsMessage ms
        → length (response ms) ≤ fuel
        → pack_loop strtoul16 (suc fuel) (response ms) pack ≡ ok (pack ++ first_band ms)
    unfolding response first_band take_payload
    pack_loop-response fuel [] pack all enough =
        pack_loop-end (suc fuel) pack (omega (arith, length-end)) ∙ ap ok (sym (append-nil pack))
    pack_loop-response zero (m ∷ ms) pack (v, all) enough =
        let size =
          (frame-IsSplit digits strtoul16 lib (m.band ∷ m.chunk) (response ms)
            (omega (arith, v.fits))).size in
        absurd (omega (arith, size))
    pack_loop-response (suc fuel) (m ∷ ms) pack (v, all) enough =
        let size =
          (frame-IsSplit digits strtoul16 lib (m.band ∷ m.chunk) (response ms)
            (omega (arith, v.fits))).size in
        let enough' : length (response ms) ≤ fuel = omega (arith, size) in
        elim (Bool-cases (m.band == 1)) [
          | inl first ↦
              pack_loop-packet (suc fuel) m (response ms) pack (pack ++ m.chunk) v
                (λ tail. rw first refl)
              ∙ pack_loop-response fuel ms (pack ++ m.chunk) all enough'
              ∙ rw first (ap ok (append_assoc pack m.chunk (first_band ms)))
          | inr other ↦
              let side : ((m.band == 2) || (m.band == 3)) ≡ true = ground (arith, v.low, v.high) in
              pack_loop-packet (suc fuel) m (response ms) pack pack v
                (λ tail. rw (other, side) refl)
              ∙ pack_loop-response fuel ms pack all enough'
              ∙ rw other refl
        ]

    response-prefix :
        (m : Message) (ms : List Message)
        → IsMessage m
        → has_prefix pack_word (response (m ∷ ms)) ≡ false
    unfolding response has_prefix
    response-prefix m ms v =
        let payload = m.band ∷ m.chunk in
        let n = length payload + 4 in
        let is = frame-IsSplit digits strtoul16 lib payload (response ms) (omega (arith, v.fits)) in
        elim (Bool-cases (str_eq (digits n) pack_word)) [
          | inl same ↦
              let number : some n ≡ none =
                sym (lib.reads n (omega (arith, v.fits)))
                ∙ ap strtoul16 (str_eq→eq (digits n) pack_word same)
                ∙ lib.letters in
              cc
          | inr other ↦ rw is.front other
        ]

    -- `extract_pack_from_response` returns the bytes of the first band, in their order, of a response
    -- in side-band packets that sends twelve of them at least.
    pub extract_pack-response :
        (ms : List Message)
        → All IsMessage ms
        → 12 ≤ length (first_band ms)
        → extract_pack strtoul16 (response ms) ≡ ok (first_band ms)
    unfolding extract_pack first_band
    extract_pack-response [] all long = absurd (omega arith)
    extract_pack-response (m ∷ ms) (v, all) long =
        let run =
          pack_loop-response (length (response (m ∷ ms))) (m ∷ ms) [] (v, all) (omega arith) in
        rw (response-prefix m ms v, run)
          (finish_pack-long (response (m ∷ ms)) (first_band (m ∷ ms)) long)
