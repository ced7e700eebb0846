-- ===== src/Network/Pktline/Frames.antt =====
-- The packets that the writer writes, as the two loops over packets see them.
use fastgit.Common.{
  ℕ, ◌+◌, ◌-◌, ◌≤◌, ◌≡◌, sym, ap, ◌∙◌, arith, min, List, [], ◌∷◌, ◌++◌, append_assoc, append-nil,
  length, take, drop, length-append, take-length-append, drop-length-append, drop-drop, Option,
  none, some,
}
use fastgit.Network.Pktline.{encode, packet, refs_packet, pack_packet, refs_head, pack_head}

module _ (digits : ℕ → List ℕ) (strtoul16 : List ℕ → Option ℕ) where
  -- What the C library does: four digits are printed, and they are read back; "PACK" is no number.
  pub record IsLibrary : Type 0 where
    pub four : (n : ℕ) → n ≤ 65535 → length (digits n) ≡ 4
    pub reads : (n : ℕ) → n ≤ 65535 → strtoul16 (digits n) ≡ some n
    pub zeros : strtoul16 (48 ∷ 48 ∷ 48 ∷ 48 ∷ []) ≡ some 0
    pub letters : strtoul16 (80 ∷ 65 ∷ 67 ∷ 75 ∷ []) ≡ none

  abbrev pub frame : List ℕ → List ℕ → List ℕ
  frame payload rest = digits (length payload + 4) ++ (payload ++ rest)

  pub record IsSplit (payload rest : List ℕ) : Type 0 where
    pub front : take 4 (frame payload rest) ≡ digits (length payload + 4)
    pub body : take (length payload + 4 - 4) (drop 4 (frame payload rest)) ≡ payload
    pub tail : drop (length payload + 4) (frame payload rest) ≡ rest
    pub size : length (frame payload rest) ≡ length payload + 4 + length rest

  take-same : (n : ℕ) (xs ys : List ℕ) → length xs ≡ n → take n (xs ++ ys) ≡ xs
  take-same n xs ys e = ap (λ k. take k (xs ++ ys)) (sym e) ∙ take-length-append xs ys

  take-whole : (n : ℕ) (xs : List ℕ) → length xs ≡ n → take n xs ≡ xs
  take-whole n xs e = ap (take n) (sym (append-nil xs)) ∙ take-same n xs [] e

  drop-same : (n : ℕ) (xs ys : List ℕ) → length xs ≡ n → drop n (xs ++ ys) ≡ ys
  drop-same n xs ys e = ap (λ k. drop k (xs ++ ys)) (sym e) ∙ drop-length-append xs ys

  module _ (lib : IsLibrary) where
    pub frame-IsSplit : (payload rest : List ℕ) → length payload ≤ 65531 → IsSplit payload rest
    frame-IsSplit payload rest short =
        let n = length payload + 4 in
        let four = lib.four n (omega arith) in
        let behind = drop-same 4 (digits n) (payload ++ rest) four in
        let order : n ≡ 4 + length payload = omega arith in
        record {
          front = take-same 4 (digits n) (payload ++ rest) four;
          body = ap (take (n - 4)) behind ∙ take-same (n - 4) payload rest (omega arith);
          tail =
              ap (λ k. drop k (frame payload rest)) order
              ∙ drop-drop 4 (length payload) (frame payload rest)
              ∙ ap (drop (length payload)) behind
              ∙ drop-length-append payload rest;
          size =
              omega (
                arith,
                four,
                length-append (digits n) (payload ++ rest),
                length-append payload rest,
              );
        }

    pub encode-frame :
        (payload rest : List ℕ)
        → length payload ≤ 65531
        → encode digits (some payload) ++ rest ≡ frame payload rest
    unfolding encode
    encode-frame payload rest short =
        let n = length payload + 4 in
        let bound : min n 65535 ≡ n = omega arith in
        let front = take-whole 4 (digits n) (lib.four n (omega arith)) in
        let back = take-whole (n - 4) payload (omega arith) in
        rw (bound, front, back) (append_assoc (digits n) payload rest)

    pub refs_head-frame :
        (payload rest : List ℕ)
        → length payload ≤ 65531
        → refs_head strtoul16 (frame payload rest) ≡ packet (length payload + 4)
    unfolding refs_head refs_packet
    refs_head-frame payload rest short =
        let is = frame-IsSplit payload rest short in
        rw (is.front, lib.reads (length payload + 4) (omega arith)) (ground (arith, is.size))

    pub pack_head-frame :
        (payload rest : List ℕ)
        → length payload ≤ 65531
        → pack_head strtoul16 (frame payload rest) ≡ packet (length payload + 4)
    unfolding pack_head pack_packet
    pack_head-frame payload rest short =
        let is = frame-IsSplit payload rest short in
        rw (is.front, lib.reads (length payload + 4) (omega arith)) (ground (arith, is.size))
