-- ===== src/Network/Pktline/Hostile.antt =====
-- The two readers of packets on arbitrary bytes.
use fastgit.Common.{
  ℕ, zero, suc, ◌+◌, ◌-◌, ◌*◌, ◌/◌, ◌%◌, ◌≤◌, ◌<◌, ◌≡◌, ◌≢◌, ◌⊎◌, inl, inr, refl, ap, subst, arith,
  Bool-cases, ◌&&◌, ◌||◌, List, [], ◌∷◌, length, take, drop, get_or, All, All-append, ltb, ◌==◌,
  length-take, length-drop, Option, none, some, Result, ok, err, fault, stuck, >>=-eq-ok,
  readable-ok,
}
use fastgit.Index.Entry.{Oid}
use fastgit.Object.Oid.{from_hex_loop, oid_from_hex, digit_value, hex_byte, algo_of_length}
use fastgit.Network.Pktline.{
  Ref, Packet, packet, skip, stop, until_nul, is_comment, trim, hex_run, with_oid, named_ref,
  ref_at, ref_of, add_ref, refs_packet, refs_head, refs_loop, parse_refs,
}

-- A name of 1 to 1024 bytes without a 0, and the digest of SHA-1 or of SHA-256.
pub record IsSane (r : Ref) : Type 0 where
  pub named : 0 < length r.name
  pub short : length r.name ≤ 1024
  pub no_nul : All (λ b. b ≢ 0) r.name
  pub size : (length r.oid.hash ≡ 20) ⊎ (length r.oid.hash ≡ 32)

All-until_nul : (bs : List ℕ) → All (λ b. b ≢ 0) (until_nul bs)
unfolding until_nul
All-until_nul [] = tt
All-until_nul (b ∷ bs) = elim (Bool-cases (b == 0)) [
  | inl nul ↦ rw nul tt
  | inr other ↦ rw other (ground arith, All-until_nul bs)
]

from_hex_loop-length : (hex bs : List ℕ) → from_hex_loop hex ≡ ok bs → length bs * 2 ≡ length hex
unfolding from_hex_loop
from_hex_loop-length [] bs h = let e : [] ≡ bs = cc in omega (arith, ap length e)
from_hex_loop-length (c ∷ []) bs h = cc
from_hex_loop-length (c ∷ d ∷ rest) bs h =
    let (high, _, h₁) = >>=-eq-ok (digit_value c) _ h in
    let (low, _, h₂) = >>=-eq-ok (digit_value d) _ h₁ in
    let (bytes, more, h₃) = >>=-eq-ok (from_hex_loop rest) _ h₂ in
    let e : hex_byte high low ∷ bytes ≡ bs = cc in
    omega (arith, ap length e, from_hex_loop-length rest bytes more)

oid_from_hex-length :
    (hex : List ℕ) (oid : Oid) → oid_from_hex hex ≡ ok oid → length oid.hash * 2 ≡ length hex
unfolding oid_from_hex
oid_from_hex-length hex oid h = elim (Bool-cases (length hex % 2 == 0)) [
  | inl even ↦ elim (Bool-cases (ltb 64 (length hex / 2))) [
    | inl long ↦ absurd (cc (rw (even, long) at h))
    | inr short ↦
        let (bs, read, same) = >>=-eq-ok (from_hex_loop hex) _ (rw (even, short) at h) in
        let e : ok (record { hash = bs; algo = algo_of_length (length hex / 2) }) ≡ ok oid = same in
        let inside : record { hash = bs; algo = algo_of_length (length hex / 2) } ≡ oid = cc in
        omega (arith, ap (λ (o : Oid). length o.hash) inside, from_hex_loop-length hex bs read)
  ]
  | inr odd ↦ absurd (cc (rw odd at h))
]

with_oid-IsSane :
    (hex name : List ℕ) (found : Result Oid) (r : Ref)
    → oid_from_hex hex ≡ found
    → (length hex ≡ 40) ⊎ (length hex ≡ 64)
    → 0 < length name
    → length name ≤ 1024
    → All (λ b. b ≢ 0) name
    → with_oid name found ≡ some r
    → IsSane r
with_oid-IsSane hex name (ok oid) r e size named short clean h =
    let size' = oid_from_hex-length hex oid e in
    let e' : record { name = name; oid = oid } ≡ r = cc in
    subst IsSane e'
      (record { named = named; short = short; no_nul = clean; size = ground (arith, size, size') })
with_oid-IsSane hex name (err x) r e size named short clean h = cc
with_oid-IsSane hex name fault r e size named short clean h = cc
with_oid-IsSane hex name stuck r e size named short clean h = cc

ref_at-IsSane : (line : List ℕ) (hexlen : ℕ) (r : Ref) → ref_at line hexlen ≡ some r → IsSane r
unfolding ref_at named_ref
ref_at-IsSane line hexlen r h =
    let test =
      ((hexlen == 40) || (hexlen == 64))
      && (ltb hexlen (length line) && (get_or line hexlen 0 == 32)) in
    let name = until_nul (drop (hexlen + 1) line) in
    elim (Bool-cases test) [
      | inl fits ↦ elim (Bool-cases ((length name == 0) || ltb 1024 (length name))) [
        | inl bad ↦ absurd (cc (rw (fits, bad) at h))
        | inr good ↦
            with_oid-IsSane (take hexlen line) name (oid_from_hex (take hexlen line)) r refl
              (ground (arith, fits, length-take hexlen line)) (ground (arith, good))
              (ground (arith, good)) (All-until_nul (drop (hexlen + 1) line)) (rw (fits, good) at h)
      ]
      | inr not_fit ↦ absurd (cc (rw not_fit at h))
    ]

ref_of-IsSane : (payload : List ℕ) (r : Ref) → ref_of payload ≡ some r → IsSane r
unfolding ref_of
ref_of-IsSane payload r h = elim (Bool-cases (is_comment (trim payload))) [
  | inl comment ↦ absurd (cc (rw comment at h))
  | inr line ↦ ref_at-IsSane (trim payload) (hex_run (trim payload)) r (rw line at h)
]

add_ref-IsSane :
    (payload : List ℕ) (found : Option Ref) (refs : List Ref)
    → ref_of payload ≡ found
    → All IsSane refs
    → All IsSane (add_ref refs found)
add_ref-IsSane payload none refs e h = h
add_ref-IsSane payload (some r) refs e h =
    All-append IsSane refs (r ∷ []) h (ref_of-IsSane payload r e, tt)

module _ (strtoul16 : List ℕ → Option ℕ) where
  -- How far a head lets the loop go.
  abbrev pub IsInside : List ℕ → Packet → Type 0
  IsInside bytes stop = Unit {0}
  IsInside bytes skip = 4 ≤ length bytes
  IsInside bytes (packet pkt) = (4 ≤ pkt) × (pkt ≤ length bytes)

  refs_head-IsInside :
      (bytes : List ℕ) (p : Packet) → refs_head strtoul16 bytes ≡ p → IsInside bytes p
  unfolding refs_head refs_packet
  refs_head-IsInside bytes stop e = tt
  refs_head-IsInside bytes skip e = ground arith
  refs_head-IsInside bytes (packet pkt) e = ground arith

  abbrev Sane : Result (List Ref) → Type 0
  Sane result = (out : List Ref) × (result ≡ ok out) × All IsSane out

  refs_loop-step :
      (fuel : ℕ) (bytes : List ℕ) (refs : List Ref) (p : Packet)
      → refs_head strtoul16 bytes ≡ p
      → length bytes < suc fuel
      → All IsSane refs
      → ((bytes' : List ℕ) (refs' : List Ref)
          → length bytes' < fuel
          → All IsSane refs'
          → Sane (refs_loop strtoul16 fuel bytes' refs'))
      → Sane (refs_loop strtoul16 (suc fuel) bytes refs)
  unfolding refs_loop
  refs_loop-step fuel bytes refs stop e enough h next = (refs, rw (e, refs_loop) refl, h)
  refs_loop-step fuel bytes refs skip e enough h next =
      let inside = refs_head-IsInside bytes skip e in
      rw (e, refs_loop, readable-ok 4 bytes inside)
        (next (drop 4 bytes) refs (omega (arith, inside, length-drop 4 bytes)) h)
  refs_loop-step fuel bytes refs (packet pkt) e enough h next =
      let (some_bytes, inside) = refs_head-IsInside bytes (packet pkt) e in
      let payload = take (pkt - 4) (drop 4 bytes) in
      rw (e, refs_loop, readable-ok pkt bytes inside)
        (next (drop pkt bytes) (add_ref refs (ref_of payload))
          (omega (arith, length-drop pkt bytes))
          (add_ref-IsSane payload (ref_of payload) refs refl h))

  refs_loop-AreSane :
      (fuel : ℕ) (bytes : List ℕ) (refs : List Ref)
      → length bytes < fuel
      → All IsSane refs
      → Sane (refs_loop strtoul16 fuel bytes refs)
  refs_loop-AreSane zero bytes refs enough h = absurd (omega arith)
  refs_loop-AreSane (suc fuel) bytes refs enough h =
      refs_loop-step fuel bytes refs (refs_head strtoul16 bytes) refl enough h
        (refs_loop-AreSane fuel)

  -- On any bytes that a server sends, `fastgit_pktline_parse_refs` ends and reads no packet behind
  -- the end of the bytes, and every reference that it returns has a name of 1 to 1024 bytes without a 0 and a digest of 20 or 32 bytes.
  pub parse_refs-AreSane :
      (bytes : List ℕ)
      → (refs : List Ref) × (parse_refs strtoul16 bytes ≡ ok refs) × All IsSane refs
  unfolding parse_refs
  parse_refs-AreSane bytes = refs_loop-AreSane (suc (length bytes)) bytes [] (omega arith) tt
