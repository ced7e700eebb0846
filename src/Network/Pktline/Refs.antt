-- ===== src/Network/Pktline/Refs.antt =====
-- An advertisement of references, written and read.
use fastgit.Common.{
  ℕ, zero, suc, ◌+◌, ◌/◌, ◌^◌, ◌≤◌, ◌<◌, ◌≡◌, ◌⊎◌, inl, inr, refl, sym, ap, ◌∙◌, arith, bit_and,
  Bool-cases, true, false, ◌||◌, List, [], ◌∷◌, ◌++◌, length, drop, get_or, All, All-append,
  IsBytes, ltb, ◌==◌, if◌then◌else◌, length-append, take-length-append, drop-length-append,
  drop-drop, Option, none, some, ok, append_assoc, append-nil, readable-ok,
}
use fastgit.Common.Bits.{bit_and-mask, all_below, agree_below}
use fastgit.Object.Oid.{to_hex, hex_digit, algo_of_length}
use fastgit.Object.Oid.Hex.{length-to_hex, oid_from_hex-to_hex}
use fastgit.Network.Pktline.{
  Ref, trim, is_hex, hex_run, until_nul, is_comment, named_ref, ref_at, ref_of, add_ref, encode,
  refs_packet, refs_head, refs_loop, parse_refs,
}
use fastgit.Network.Pktline.Frames.{IsLibrary, frame, frame-IsSplit, encode-frame, refs_head-frame}

-- "<hex> <name>\n"
unfoldable pub ref_line : Ref → List ℕ
ref_line r = to_hex r.oid.hash ++ (32 ∷ (r.name ++ (10 ∷ [])))

-- A name of 20 or 32 bytes, and the name of a reference as git allows it.
pub record IsAdvertised (r : Ref) : Type 0 where
  pub bytes : IsBytes r.oid.hash
  pub size : (length r.oid.hash ≡ 20) ⊎ (length r.oid.hash ≡ 32)
  pub algo : r.oid.algo ≡ algo_of_length (length r.oid.hash)
  pub named : 0 < length r.name
  pub short : length r.name ≤ 1024
  pub clean : All (λ b. 32 < b) r.name

abbrev IsHex : ℕ → Type 0
IsHex c = is_hex c ≡ true

trim-clean : (xs : List ℕ) → 0 < length xs → All (λ b. 13 < b) xs → trim (xs ++ (10 ∷ [])) ≡ xs
unfolding trim
trim-clean [] some_byte h = absurd (omega arith)
trim-clean (x ∷ []) some_byte h = ground arith
trim-clean (x ∷ y ∷ ys) some_byte (hx, h) = rw (trim-clean (y ∷ ys) (omega arith) h) refl

hex_run-append :
    (xs : List ℕ) (rest : List ℕ) → All IsHex xs → hex_run (xs ++ (32 ∷ rest)) ≡ length xs
unfolding hex_run is_hex
hex_run-append [] rest h = refl
hex_run-append (x ∷ xs) rest (hx, h) = ground (arith, hex_run-append xs rest h)

until_nul-clean : (xs : List ℕ) → All (λ b. 32 < b) xs → until_nul xs ≡ xs
unfolding until_nul
until_nul-clean [] h = refl
until_nul-clean (x ∷ xs) (hx, h) = ground (arith, until_nul-clean xs h)

is_comment-hex : (xs rest : List ℕ) → All IsHex xs → 0 < length xs → is_comment (xs ++ rest) ≡ false
unfolding is_comment is_hex
is_comment-hex [] rest h some_hex = absurd (omega arith)
is_comment-hex (x ∷ xs) rest (hx, h) some_hex = ground arith

get_or-length : (xs : List ℕ) (c : ℕ) (rest : List ℕ) → get_or (xs ++ (c ∷ rest)) (length xs) 0 ≡ c
get_or-length [] c rest = refl
get_or-length (x ∷ xs) c rest = get_or-length xs c rest

hex_digit-IsHex : (v : ℕ) → v < 16 → IsHex (hex_digit v)
unfolding hex_digit is_hex all_below
hex_digit-IsHex v small =
    let one : (if is_hex (hex_digit v) then 1 else 0) ≡ 1 =
      agree_below 16 (λ x. if is_hex (hex_digit x) then 1 else 0) (λ x. 1) refl v small in
    elim (Bool-cases (is_hex (hex_digit v))) [
      | inl good ↦ good
      | inr bad ↦ absurd (omega (arith, rw bad at one))
    ]

All-to_hex : (bs : List ℕ) → IsBytes bs → All IsHex (to_hex bs)
unfolding to_hex
All-to_hex [] h = tt
All-to_hex (b ∷ bs) (byte, h) =
    let low : bit_and b 0x0F < 16 = omega (arith, bit_and-mask 4 b) in
    (
      hex_digit-IsHex (b / 2 ^ 4) (omega arith),
      (hex_digit-IsHex (bit_and b 0x0F) low, All-to_hex bs h),
    )

All-map : (P Q : ℕ → Type 0) (xs : List ℕ) → ((b : ℕ) → P b → Q b) → All P xs → All Q xs
All-map P Q [] f h = tt
All-map P Q (x ∷ xs) f (p, h) = (f x p, All-map P Q xs f h)

IsHex-lt : (c : ℕ) → IsHex c → 13 < c
unfolding is_hex
IsHex-lt c h = ground arith

trim-ref_line : (r : Ref) → IsAdvertised r → trim (ref_line r) ≡ to_hex r.oid.hash ++ (32 ∷ r.name)
unfolding ref_line
trim-ref_line r v =
    let hex = to_hex r.oid.hash in
    let name = All-map (λ b. 32 < b) (λ b. 13 < b) r.name (λ b h. omega arith) v.clean in
    let front = All-map IsHex (λ b. 13 < b) hex IsHex-lt (All-to_hex r.oid.hash v.bytes) in
    let all = All-append (λ b. 13 < b) hex (32 ∷ r.name) front (omega arith, name) in
    ap trim (sym (append_assoc hex (32 ∷ r.name) (10 ∷ [])))
    ∙ trim-clean (hex ++ (32 ∷ r.name)) (omega (arith, length-append hex (32 ∷ r.name))) all

-- The two lengths of digits that are taken for a name.
hex-length :
    (r : Ref)
    → IsAdvertised r
    → ((length (to_hex r.oid.hash) == 40) || (length (to_hex r.oid.hash) == 64)) ≡ true
hex-length r v = elim v.size [
  | inl small ↦ ground (arith, length-to_hex r.oid.hash)
  | inr large ↦ ground (arith, length-to_hex r.oid.hash)
]

ref_at-line :
    (r : Ref)
    → IsAdvertised r
    → ref_at (to_hex r.oid.hash ++ (32 ∷ r.name)) (length (to_hex r.oid.hash)) ≡ some r
unfolding ref_at named_ref
ref_at-line r v =
    let hex = to_hex r.oid.hash in
    let inside : ltb (length hex) (length (hex ++ (32 ∷ r.name))) ≡ true =
      ground (arith, length-append hex (32 ∷ r.name)) in
    let space : (get_or (hex ++ (32 ∷ r.name)) (length hex) 0 == 32) ≡ true =
      ground (arith, get_or-length hex 32 r.name) in
    let behind : drop (length hex + 1) (hex ++ (32 ∷ r.name)) ≡ r.name =
      drop-drop (length hex) 1 (hex ++ (32 ∷ r.name))
      ∙ ap (drop 1) (drop-length-append hex (32 ∷ r.name)) in
    let named : ((length r.name == 0) || ltb 1024 (length r.name)) ≡ false =
      ground (arith, v.named, v.short) in
    let back = oid_from_hex-to_hex r.oid v.bytes (ground (arith, v.size)) v.algo in
    rw
      (
        hex-length r v,
        inside,
        space,
        take-length-append hex (32 ∷ r.name),
        behind,
        until_nul-clean r.name v.clean,
        named,
        back,
      )
      refl

ref_of-ref_line : (r : Ref) → IsAdvertised r → ref_of (ref_line r) ≡ some r
unfolding ref_of
ref_of-ref_line r v =
    let hex = to_hex r.oid.hash in
    let digits = All-to_hex r.oid.hash v.bytes in
    let no_comment =
      is_comment-hex hex (32 ∷ r.name) digits (ground (arith, v.size, length-to_hex r.oid.hash)) in
    rw (trim-ref_line r v, no_comment, hex_run-append hex r.name digits) (ref_at-line r v)

module _ (digits : ℕ → List ℕ) (strtoul16 : List ℕ → Option ℕ) where
  -- The packets of a list of references, and the packet of length 0 at their end.
  unfoldable pub advertise : List Ref → List ℕ
  advertise [] = encode digits none
  advertise (r ∷ rs) = encode digits (some (ref_line r)) ++ advertise rs

  module _ (lib : IsLibrary digits strtoul16) where
    length-ref_line : (r : Ref) → IsAdvertised r → length (ref_line r) ≤ 2000
    unfolding ref_line
    length-ref_line r v = ground (
      arith,
      v.size,
      length-to_hex r.oid.hash,
      length-append (to_hex r.oid.hash) (32 ∷ (r.name ++ (10 ∷ []))),
      length-append r.name (10 ∷ []),
    )

    refs_loop-packet :
        (fuel : ℕ) (payload rest : List ℕ) (refs : List Ref)
        → length payload ≤ 65531
        → refs_loop strtoul16 (suc fuel) (frame digits strtoul16 payload rest) refs
          ≡ refs_loop strtoul16 fuel rest (add_ref refs (ref_of payload))
    unfolding refs_loop
    refs_loop-packet fuel payload rest refs short =
        let is = frame-IsSplit digits strtoul16 lib payload rest short in
        let inside =
          readable-ok (length payload + 4) (frame digits strtoul16 payload rest)
            (omega (arith, is.size)) in
        rw
          (
            refs_head-frame digits strtoul16 lib payload rest short,
            refs_loop,
            is.body,
            is.tail,
            inside,
          )
          refl

    refs_loop-end :
        (fuel : ℕ) (refs : List Ref)
        → 2 ≤ fuel
        → refs_loop strtoul16 fuel (encode digits none) refs ≡ ok refs
    unfolding refs_loop refs_head refs_packet encode
    refs_loop-end zero refs enough = absurd (omega arith)
    refs_loop-end (suc zero) refs enough = absurd (omega arith)
    refs_loop-end (suc (suc fuel)) refs enough =
        rw (lib.zeros, refs_loop, readable-ok 4 (48 ∷ 48 ∷ 48 ∷ 48 ∷ []) (omega arith)) refl

    length-end : length (encode digits none) ≡ 4
    unfolding encode
    length-end = refl

    refs_loop-advertise :
        (fuel : ℕ) (rs refs : List Ref)
        → All IsAdvertised rs
        → length (advertise rs) ≤ fuel
        → refs_loop strtoul16 (suc fuel) (advertise rs) refs ≡ ok (refs ++ rs)
    unfolding advertise
    refs_loop-advertise fuel [] refs all enough =
        refs_loop-end (suc fuel) refs (omega (arith, length-end)) ∙ ap ok (sym (append-nil refs))
    refs_loop-advertise zero (r ∷ rs) refs (v, all) enough =
        let short : length (ref_line r) ≤ 65531 = omega (arith, length-ref_line r v) in
        let size = (frame-IsSplit digits strtoul16 lib (ref_line r) (advertise rs) short).size in
        absurd (
          omega (
            arith,
            size,
            rw (encode-frame digits strtoul16 lib (ref_line r) (advertise rs) short) at enough,
          ))
    refs_loop-advertise (suc fuel) (r ∷ rs) refs (v, all) enough =
        let short : length (ref_line r) ≤ 65531 = omega (arith, length-ref_line r v) in
        let framed = encode-frame digits strtoul16 lib (ref_line r) (advertise rs) short in
        let size = (frame-IsSplit digits strtoul16 lib (ref_line r) (advertise rs) short).size in
        let enough' = rw framed at enough in
        ap (λ bytes. refs_loop strtoul16 (suc (suc fuel)) bytes refs) framed
        ∙ refs_loop-packet (suc fuel) (ref_line r) (advertise rs) refs short
        ∙ rw (ref_of-ref_line r v)
            (refs_loop-advertise fuel rs (refs ++ (r ∷ [])) all (omega (arith, size)))
        ∙ ap ok (append_assoc refs (r ∷ []) rs)

    -- `fastgit_pktline_parse_refs` reads back the references of an advertisement that
    -- `fastgit_pktline_encode` wrote, with their names, in their order.
    pub parse_refs-advertise :
        (rs : List Ref) → All IsAdvertised rs → parse_refs strtoul16 (advertise rs) ≡ ok rs
    unfolding parse_refs
    parse_refs-advertise rs all =
        refs_loop-advertise (length (advertise rs)) rs [] all (omega arith)
