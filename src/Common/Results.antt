-- ===== src/Common/Results.antt =====
-- include/fastgit/fastgit.h: the codes of `fastgit_error_t`, and what a call can end in.
use mathlib.Core.Path.{◌≡◌, refl}
use mathlib.Core.Logic.{◌≢◌}
use mathlib.Core.Bool.{Bool, true, false}
use mathlib.Core.List.{List}
use Prim.Native.Nat.{ℕ, ◌≤◌}
use native.Mathlib.Omega.{arith}
use fastgit.Common.Lists.{length}
use fastgit.Common.Tests.{ltb, if◌then◌else◌}

-- `fastgit_error_t` without FASTGIT_OK
pub data Error : Type 0 where
  error enomem einval enoent eexist eio ebusy eagain eoverflow eunsupported : Error

-- `fault` is undefined behaviour in C (an access out of bounds, a shift by the width or more).
-- `stuck` is no outcome of the code: a loop of the model has run out of fuel.
pub data Result {ℓ} (A : Type ℓ) : Type ℓ where
  ok : A → Result A
  err : Error → Result A
  fault : Result A
  stuck : Result A

infixl 5 ◌>>=◌ ◌>>◌
abbrev pub ◌>>=◌ {ℓ κ} : {A : Type ℓ} {B : Type κ} → Result A → (A → Result B) → Result B
ok a >>= f = f a
err e >>= f = err e
fault >>= f = fault
stuck >>= f = stuck

abbrev pub ◌>>◌ {ℓ} : {A : Type ℓ} → Result (Unit {0}) → Result A → Result A
first >> second = first >>= λ _. second

-- `if (!test) return code;`
abbrev pub guard : Bool → Error → Result (Unit {0})
guard false code = err code
guard true code = ok tt

-- A read of `n` bytes where these are left: beyond them it is out of bounds.
unfoldable pub readable : ℕ → List ℕ → Result (Unit {0})
readable n bytes = if ltb (length bytes) n then fault else ok tt

pub readable-ok : (n : ℕ) (bytes : List ℕ) → n ≤ length bytes → readable n bytes ≡ ok tt
unfolding readable
readable-ok n bytes inside = ground arith

pub >>=-eq-ok {ℓ κ} :
    {A : Type ℓ} {B : Type κ} (r : Result A) (next : A → Result B) {y : B}
    → (r >>= next) ≡ ok y
    → (x : A) × (r ≡ ok x) × (next x ≡ ok y)
>>=-eq-ok stuck next run = cc
>>=-eq-ok fault next run = cc
>>=-eq-ok (err code) next run = cc
>>=-eq-ok (ok x) next run = (x, refl, run)

-- A chain of steps that end ends.
pub >>=-ne-stuck {ℓ κ} :
    {A : Type ℓ} {B : Type κ} (m : Result A) (f : A → Result B)
    → m ≢ stuck
    → ((a : A) → m ≡ ok a → f a ≢ stuck)
    → (m >>= f) ≢ stuck
>>=-ne-stuck (ok a) f h k = k a refl
>>=-ne-stuck (err e) f h k = λ p. cc
>>=-ne-stuck fault f h k = λ p. cc
>>=-ne-stuck stuck f h k = absurd (h refl)

pub guard-ne-stuck : (b : Bool) (e : Error) → guard b e ≢ stuck
guard-ne-stuck true e = λ p. cc
guard-ne-stuck false e = λ p. cc

pub guard-eq-ok : (b : Bool) (e : Error) (u : Unit {0}) → guard b e ≡ ok u → b ≡ true
guard-eq-ok true e u h = refl
guard-eq-ok false e u h = cc

-- What a successful chain gives, step by step.
pub >>=-Post {ℓ κ μ} :
    {A : Type ℓ} {B : Type κ} (P : B → Type μ) (m : Result A) (f : A → Result B)
    → ((a : A) → m ≡ ok a → (b : B) → f a ≡ ok b → P b)
    → (b : B) → (m >>= f) ≡ ok b
    → P b
>>=-Post P (ok a) f h b e = h a refl b e
>>=-Post P (err x) f h b e = absurd (cc)
>>=-Post P fault f h b e = absurd (cc)
>>=-Post P stuck f h b e = absurd (cc)
