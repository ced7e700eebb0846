-- ===== src/Index/Entry.antt =====
-- include/fastgit/fastgit.h: `fastgit_oid_t`; include/fastgit/index.h: `fastgit_index_entry_t`.
-- A C string is the list of its bytes, without the final 0; `len` of an oid is the length of `hash`.
use fastgit.Common.{ℕ, ◌≡◌, refl, arith, Bool, true, false, ◌&&◌, List, [], ◌∷◌, ◌==◌}

pub record Oid : Type 0 where
  pub hash : List ℕ
  pub algo : ℕ

pub record Entry : Type 0 where
  pub oid : Oid
  pub path : List ℕ
  pub mode : ℕ
  pub stage : ℕ
  pub ctime_sec : ℕ
  pub ctime_nsec : ℕ
  pub mtime_sec : ℕ
  pub mtime_nsec : ℕ
  pub dev : ℕ
  pub ino : ℕ
  pub uid : ℕ
  pub gid : ℕ
  pub size : ℕ
  pub flags : ℕ
  pub flags_extended : ℕ

-- `strcmp(a, b) == 0`
unfoldable pub str_eq : List ℕ → List ℕ → Bool
str_eq [] [] = true
str_eq [] (y ∷ ys) = false
str_eq (x ∷ xs) [] = false
str_eq (x ∷ xs) (y ∷ ys) = x == y && str_eq xs ys

pub str_eq→eq : (a b : List ℕ) → str_eq a b ≡ true → a ≡ b
unfolding str_eq
str_eq→eq [] [] h = refl
str_eq→eq [] (y ∷ ys) h = cc
str_eq→eq (x ∷ xs) [] h = cc
str_eq→eq (x ∷ xs) (y ∷ ys) h = ground (arith, str_eq→eq xs ys)

pub str_eq_refl : (a : List ℕ) → str_eq a a ≡ true
unfolding str_eq
str_eq_refl [] = refl
str_eq_refl (x ∷ xs) = ground (arith, str_eq_refl xs)

-- The entry stands under this path and stage.
unfoldable pub has_key : Entry → List ℕ → ℕ → Bool
has_key e path stage = e.stage == stage && str_eq e.path path

pub has_key→eq :
    (e : Entry) (path : List ℕ) (stage : ℕ)
    → has_key e path stage ≡ true
    → (e.path ≡ path) × (e.stage ≡ stage)
unfolding has_key
has_key→eq e path stage h = ground (arith, str_eq→eq e.path path)

pub has_key_self : (e : Entry) → has_key e e.path e.stage ≡ true
unfolding has_key
has_key_self e = ground (arith, str_eq_refl e.path)
