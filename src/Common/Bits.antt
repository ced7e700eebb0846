-- ===== src/Common/Bits.antt =====
-- Masks, disjoint ors and flags as arithmetic, for every width.
use Prim.Native.Nat.{
  ℕ, zero, suc, ◌+◌, ◌-◌, ◌*◌, ◌/◌, ◌%◌, ◌^◌, ◌≤◌, ◌<◌, min, max, bit_and, bit_or, digits,
  bit_and-bitwise, bit_or-bitwise,
}
use mathlib.Core.Path.{◌≡◌, refl, ap, ◌∙◌}
use mathlib.Core.Bool.{Bool, true, false, ◌&&◌}
use native.Mathlib.Nat.{pow-suc, mul_comm, div-add-mod, div-div-eq-div-mul}
use native.Mathlib.Omega.{arith}
use fastgit.Common.Tests.{◌==◌, ==_iff}

digits_fuel :
    (rest : ℕ → ℕ) (op : ℕ → ℕ → ℕ) (k l x y : ℕ)
    → x ≤ l
    → x ≤ k
    → digits rest op l x y ≡ digits rest op k x y
digits_fuel rest op zero zero zero y below_l below_k = refl
digits_fuel rest op zero (suc l) zero y below_l below_k = refl
digits_fuel rest op (suc k) zero zero y below_l below_k = refl
digits_fuel rest op (suc k) (suc l) zero y below_l below_k = refl
digits_fuel rest op zero l (suc x) y below_l below_k = absurd (omega arith)
digits_fuel rest op (suc k) zero (suc x) y below_l below_k = absurd (omega arith)
digits_fuel rest op (suc k) (suc l) (suc x) y below_l below_k =
    let less = digits_fuel rest op k l (suc x / 2) (y / 2) (omega arith) (omega arith) in
    omega (arith, less)

zero-bit_and : (y : ℕ) → bit_and 0 y ≡ 0
zero-bit_and y = bit_and-bitwise 0 y

pub zero-bit_or : (y : ℕ) → bit_or 0 y ≡ y
zero-bit_or y = bit_or-bitwise 0 y

pub bit_and_step : (x y : ℕ) → bit_and x y ≡ bit_and (x / 2) (y / 2) * 2 + min (x % 2) (y % 2)
bit_and_step (suc x) y =
    let half = suc x / 2 in
    let less = digits_fuel (λ _. zero) min half x half (y / 2) (omega arith) (omega arith) in
    omega (arith, less, bit_and-bitwise half (y / 2), bit_and-bitwise (suc x) y)
bit_and_step zero y = omega (arith, zero-bit_and (y / 2), zero-bit_and y)

pub bit_or_step : (x y : ℕ) → bit_or x y ≡ bit_or (x / 2) (y / 2) * 2 + max (x % 2) (y % 2)
bit_or_step (suc x) y =
    let half = suc x / 2 in
    let less = digits_fuel (λ r. r) max half x half (y / 2) (omega arith) (omega arith) in
    omega (arith, less, bit_or-bitwise half (y / 2), bit_or-bitwise (suc x) y)
bit_or_step zero y = omega (arith, zero-bit_or (y / 2), zero-bit_or y)

bit_and-zero_fuel : (k x : ℕ) → x ≤ k → bit_and x 0 ≡ 0
bit_and-zero_fuel (suc k) (suc x) below =
    let less = bit_and-zero_fuel k (suc x / 2) (omega arith) in
    omega (arith, less, bit_and_step (suc x) 0)
bit_and-zero_fuel zero (suc x) below = absurd (omega arith)
bit_and-zero_fuel k zero below = refl

bit_or-zero_fuel : (k x : ℕ) → x ≤ k → bit_or x 0 ≡ x
bit_or-zero_fuel (suc k) (suc x) below =
    let less = bit_or-zero_fuel k (suc x / 2) (omega arith) in
    omega (arith, less, bit_or_step (suc x) 0)
bit_or-zero_fuel zero (suc x) below = absurd (omega arith)
bit_or-zero_fuel k zero below = refl

mod_double : (a m : ℕ) → a % (2 * m) ≡ a / 2 % m * 2 + a % 2
mod_double a m = omega (
  arith,
  div-add-mod a (2 * m),
  div-add-mod (a / 2) m,
  ap (λ (q : ℕ). m * q) (div-div-eq-div-mul a 2 m),
)

pub two-pow-pos : (k : ℕ) → 0 < 2 ^ k
two-pow-pos zero = omega arith
two-pow-pos (suc k) = omega (arith, pow-suc 2 k, two-pow-pos k)

-- A mask of k ones keeps the k lowest bits.
pub bit_and-mask : (k a : ℕ) → bit_and a (2 ^ k - 1) ≡ a % 2 ^ k
bit_and-mask zero a = omega (arith, bit_and-zero_fuel a a (omega arith))
bit_and-mask (suc k) a =
    rw (pow-suc 2 k, mul_comm (2 ^ k) 2, mod_double a (2 ^ k))
      (omega (
        arith,
        two-pow-pos k,
        bit_and_step a (2 * 2 ^ k - 1),
        ap (bit_and (a / 2)) half,
        bit_and-mask k (a / 2),
      ))
  where
    half : (2 * 2 ^ k - 1) / 2 ≡ 2 ^ k - 1
    half = omega (arith, two-pow-pos k)

-- A mask k places up looks at the number shifted down by k.
pub bit_and-shifted_mask : (k a m : ℕ) → bit_and a (m * 2 ^ k) ≡ bit_and (a / 2 ^ k) m * 2 ^ k
bit_and-shifted_mask zero a m =
    let e : m * 1 ≡ m = omega arith in let d : a / 1 ≡ a = omega arith in rw (e, d) (omega arith)
bit_and-shifted_mask (suc k) a m =
    let lift = ap (λ (p : ℕ). m * p) (pow-suc 2 k) in
    let half : m * 2 ^ suc k / 2 ≡ m * 2 ^ k = omega (arith, lift) in
    let down : a / 2 / 2 ^ k ≡ a / 2 ^ suc k =
      div-div-eq-div-mul a 2 (2 ^ k) ∙ ap (λ (p : ℕ). a / p) (omega (arith, pow-suc 2 k)) in
    omega (
      arith,
      lift,
      bit_and_step a (m * 2 ^ suc k),
      ap (bit_and (a / 2)) half,
      bit_and-shifted_mask k (a / 2) m,
      ap (λ (q : ℕ). bit_and q m * 2 ^ k) down,
      ap (λ (p : ℕ). bit_and (a / 2 ^ suc k) m * p) (pow-suc 2 k),
    )

-- Parts that do not overlap are added.
pub bit_or-disjoint : (k a b : ℕ) → a < 2 ^ k → bit_or a (b * 2 ^ k) ≡ a + b * 2 ^ k
bit_or-disjoint zero a b h =
    let e : a ≡ 0 = omega arith in rw e (omega (arith, zero-bit_or (b * 1)))
bit_or-disjoint (suc k) a b h =
    let lift = ap (λ (p : ℕ). b * p) (pow-suc 2 k) in
    let half : b * 2 ^ suc k / 2 ≡ b * 2 ^ k = omega (arith, lift) in
    omega (
      arith,
      lift,
      bit_or_step a (b * 2 ^ suc k),
      ap (bit_or (a / 2)) half,
      bit_or-disjoint k (a / 2) b (omega (arith, pow-suc 2 k)),
    )

bit_or_comm_fuel : (n a b : ℕ) → a ≤ n → bit_or a b ≡ bit_or b a
bit_or_comm_fuel n zero b h = omega (arith, zero-bit_or b, bit_or-zero_fuel b b (omega arith))
bit_or_comm_fuel zero (suc a) b h = absurd (omega arith)
bit_or_comm_fuel (suc n) (suc a) b h = omega (
  arith,
  bit_or_step (suc a) b,
  bit_or_step b (suc a),
  bit_or_comm_fuel n (suc a / 2) (b / 2) (omega arith),
)

-- The same with the high part first.
pub bit_or-high : (k a b : ℕ) → a < 2 ^ k → bit_or (b * 2 ^ k) a ≡ b * 2 ^ k + a
bit_or-high k a b h =
    omega (arith, bit_or_comm_fuel (b * 2 ^ k) (b * 2 ^ k) a (omega arith), bit_or-disjoint k a b h)

-- Four bytes as a big-endian word.
pub big_endian_word :
    (a x y z : ℕ)
    → a < 256
    → x < 256
    → y < 256
    → z < 256
    → bit_or (bit_or (bit_or (a * 2 ^ 24) (x * 2 ^ 16)) (y * 2 ^ 8)) z
      ≡ a * 2 ^ 24 + x * 2 ^ 16 + y * 2 ^ 8 + z
big_endian_word a x y z ha hx hy hz =
    let high = bit_or-high 24 (x * 2 ^ 16) a (omega arith) in
    let e₁ : a * 2 ^ 24 + x * 2 ^ 16 ≡ (a * 2 ^ 8 + x) * 2 ^ 16 = omega arith in
    let middle = bit_or-high 16 (y * 2 ^ 8) (a * 2 ^ 8 + x) (omega arith) in
    let e₂ : (a * 2 ^ 8 + x) * 2 ^ 16 + y * 2 ^ 8 ≡ (a * 2 ^ 16 + x * 2 ^ 8 + y) * 2 ^ 8 =
      omega arith in
    let low = bit_or-high 8 z (a * 2 ^ 16 + x * 2 ^ 8 + y) hz in
    rw (high, e₁, middle, e₂, low) (omega arith)

-- Every bit pattern of a flag byte, checked by evaluation.
abbrev pub for_all : (Bool → Bool) → Bool
for_all p = p true && p false

pub for_all_sound : (p : Bool → Bool) → for_all p ≡ true → (b : Bool) → p b ≡ true
for_all_sound p h true = ground arith
for_all_sound p h false = ground arith

-- Over a small range, every value checked by evaluation.
unfoldable pub all_below : ℕ → (ℕ → Bool) → Bool
all_below zero p = true
all_below (suc n) p = p n && all_below n p

all_below_sound :
    (bound : ℕ) (test : ℕ → Bool)
    → all_below bound test ≡ true
    → (y : ℕ) → y < bound
    → test y ≡ true
unfolding all_below
all_below_sound (suc bound) test holds y below = ground (arith, all_below_sound bound test _ y)
all_below_sound zero test holds y below = absurd (omega arith)

-- Two functions that agree by evaluation below `n`.
pub agree_below :
    (n : ℕ) (f g : ℕ → ℕ) → all_below n (λ x. f x == g x) ≡ true → (x : ℕ) → x < n → f x ≡ g x
agree_below n f g h x lt = (==_iff (f x) (g x)).0 (all_below_sound n _ h x lt)
