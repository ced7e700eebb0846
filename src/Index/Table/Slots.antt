-- ===== src/Index/Table/Slots.antt =====
-- The slots of the table: reads and writes, how many hold an entry, and the walk of a probe.
use fastgit.Common.{
  ℕ, zero, suc, ◌+◌, ◌-◌, ◌*◌, ◌%◌, ◌^◌, ◌≤◌, ◌<◌, bit_and, ◌≡◌, refl, ap, ◌∙◌, sym, arith, inl,
  inr, Bool, true, false, List, [], ◌∷◌, length, get_or, set, replicate, length-replicate,
  Bool-cases, ltb,
}
use fastgit.Common.Bits.{bit_and-mask, two-pow-pos}
use fastgit.Index.Table.{Slot, empty, tomb, entry, round_up, ht_init}
use native.Mathlib.Nat.{pow-suc, mod-add-mod, mod-lt, mod-eq_of_lt, add-mod_right}

abbrev pub at : List Slot → ℕ → Slot
at ht p = get_or ht p empty

abbrev pub is_entry : Slot → Bool
is_entry empty = false
is_entry tomb = false
is_entry (entry v) = true

-- How many slots hold an entry.
abbrev pub occupied : List Slot → ℕ
occupied [] = 0
occupied (empty ∷ ht) = occupied ht
occupied (tomb ∷ ht) = occupied ht
occupied (entry v ∷ ht) = suc (occupied ht)

pub occupied-set_entry :
    (ht : List Slot) (p v : ℕ)
    → p < length ht
    → is_entry (at ht p) ≡ false
    → occupied (set ht p (entry v)) ≡ occupied ht + 1
occupied-set_entry [] p v h f = absurd (omega arith)
occupied-set_entry (empty ∷ ht) zero v h f = omega arith
occupied-set_entry (tomb ∷ ht) zero v h f = omega arith
occupied-set_entry (entry w ∷ ht) zero v h f = cc
occupied-set_entry (empty ∷ ht) (suc p) v h f = occupied-set_entry ht p v (omega arith) f
occupied-set_entry (tomb ∷ ht) (suc p) v h f = occupied-set_entry ht p v (omega arith) f
occupied-set_entry (entry w ∷ ht) (suc p) v h f =
    omega (arith, occupied-set_entry ht p v (omega arith) f)

pub free_slot :
    (ht : List Slot)
    → occupied ht < length ht
    → (p : ℕ) × (p < length ht) × (is_entry (at ht p) ≡ false)
free_slot [] h = absurd (omega arith)
free_slot (empty ∷ ht) h = (0, omega arith, refl)
free_slot (tomb ∷ ht) h = (0, omega arith, refl)
free_slot (entry v ∷ ht) h = let (p, lt, e) = free_slot ht (omega arith) in (suc p, omega arith, e)

pub occupied-replicate : (n : ℕ) → occupied (replicate n empty) ≡ 0
occupied-replicate zero = refl
occupied-replicate (suc n) = occupied-replicate n

pub at-replicate : (n p : ℕ) → at (replicate n empty) p ≡ empty
at-replicate zero p = refl
at-replicate (suc n) zero = refl
at-replicate (suc n) (suc p) = at-replicate n p

-- `p2` doubles until it reaches `cap`, and stays a power of two.
round_up-pow : (f p2 cap m : ℕ) → p2 ≡ 2 ^ m → (k : ℕ) × (round_up f p2 cap ≡ 2 ^ k)
unfolding round_up
round_up-pow zero p2 cap m e = (m, e)
round_up-pow (suc f) p2 cap m e = elim (Bool-cases (ltb p2 cap)) [
  | inl h ↦
      let (k, e') = round_up-pow f (p2 * 2) cap (suc m) (omega (arith, pow-suc 2 m)) in (k, rw h e')
  | inr h ↦ (m, rw h e)
]

round_up-le : (f p2 cap : ℕ) → 0 < p2 → cap ≤ p2 + f → cap ≤ round_up f p2 cap
unfolding round_up
round_up-le zero p2 cap pos h = omega arith
round_up-le (suc f) p2 cap pos h = ground (arith, round_up-le f (p2 * 2) cap)

-- A fresh table has a power of two of slots, as many as asked for at least.
pub ht_init-pow : (cap : ℕ) → (k : ℕ) × (length (ht_init cap) ≡ 2 ^ k)
unfolding ht_init
ht_init-pow cap =
    let (k, e) = round_up-pow cap 1024 cap 10 refl in
    (k, length-replicate (round_up cap 1024 cap) empty ∙ e)

pub le-length-ht_init : (cap : ℕ) → cap ≤ length (ht_init cap)
unfolding ht_init
le-length-ht_init cap = omega (
  arith,
  length-replicate (round_up cap 1024 cap) empty,
  round_up-le cap 1024 cap (omega arith) (omega arith),
)

-- The position after `k` probes.
abbrev pub step : ℕ → ℕ → ℕ
step cap pos = bit_and (pos + 1) (cap - 1)

abbrev pub walk : ℕ → ℕ → ℕ → ℕ
walk cap zero pos = pos
walk cap (suc k) pos = walk cap k (step cap pos)

module _ (m : ℕ) where
  pub step_lem : (pos : ℕ) → step (2 ^ m) pos ≡ (pos + 1) % 2 ^ m
  step_lem pos = bit_and-mask m (pos + 1)

  pub mask-lt : (x : ℕ) → bit_and x (2 ^ m - 1) < 2 ^ m
  mask-lt x = rw (bit_and-mask m x) (mod-lt x (two-pow-pos m))

  pub walk_lem : (k pos : ℕ) → pos < 2 ^ m → walk (2 ^ m) k pos ≡ (pos + k) % 2 ^ m
  walk_lem zero pos h = let e : pos + zero ≡ pos = omega arith in rw e (sym (mod-eq_of_lt h))
  walk_lem (suc k) pos h =
      let e : pos + 1 + k ≡ pos + suc k = omega arith in
      walk_lem k (step (2 ^ m) pos) (mask-lt (pos + 1))
      ∙ rw (step_lem pos) (mod-add-mod (pos + 1) (2 ^ m) k ∙ ap (λ x. x % 2 ^ m) e)

  pub walk-lt : (k pos : ℕ) → pos < 2 ^ m → walk (2 ^ m) k pos < 2 ^ m
  walk-lt zero pos h = h
  walk-lt (suc k) pos h = walk-lt k (step (2 ^ m) pos) (mask-lt (pos + 1))

  -- A probe reaches every slot, in fewer steps than there are slots.
  pub walk_onto :
      (pos q : ℕ) → pos < 2 ^ m → q < 2 ^ m → (k : ℕ) × (k < 2 ^ m) × (walk (2 ^ m) k pos ≡ q)
  walk_onto pos q hp hq = elim (Bool-cases (ltb q pos)) [
    | inr ahead ↦ (
      q - pos,
      ground arith,
      let e : pos + (q - pos) ≡ q = ground arith in
          walk_lem (q - pos) pos hp ∙ rw e (mod-eq_of_lt hq),
    )
    | inl behind ↦ (
      q + 2 ^ m - pos,
      ground arith,
      let e : pos + (q + 2 ^ m - pos) ≡ q + 2 ^ m = ground arith in
          walk_lem (q + 2 ^ m - pos) pos hp ∙ rw e (add-mod_right q (2 ^ m) ∙ mod-eq_of_lt hq),
    )
  ]

-- The same for any number of slots that is a power of two.
module _ (cap m : ℕ) (power : cap ≡ 2 ^ m) where
  pub masked-lt : (x : ℕ) → bit_and x (cap - 1) < cap
  masked-lt x = rw power (mask-lt m x)

  pub walked-lt : (k pos : ℕ) → pos < cap → walk cap k pos < cap
  walked-lt k pos = rw power (walk-lt m k pos)

  pub walked_onto : (pos q : ℕ) → pos < cap → q < cap → (k : ℕ) × (k < cap) × (walk cap k pos ≡ q)
  walked_onto = rw power (walk_onto m)
