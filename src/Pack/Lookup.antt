-- ===== src/Pack/Lookup.antt =====
-- src/pack/packfile.c: `fastgit_pack_index_find` in the table that `fastgit_pack_index_create` makes;
-- src/pack/midx.c: `fastgit_midx_find`. The names are the lists of their bytes, `fanout` an array of
-- 256 numbers as a function.
pub mod Search
use Prim.Native.Nat.{Ordering, lt, eq, gt}
use fastgit.Common.{
  ℕ, zero, suc, ◌+◌, ◌-◌, ◌/◌, ◌%◌, ◌^◌, List, [], ◌∷◌, length, get_elem?, get_or, ltb, leb, ◌==◌,
  not, ◌&&◌, if◌then◌else◌, Option, none, some, Result, ok, err, fault, stuck, enoent,
}
use fastgit.Object.Oid.Order.{memcmp}

-- `fanout[f]` behind the loop over the names: every name adds one from its first byte on.
unfoldable pub fanout_at : List (List ℕ) → ℕ → ℕ
fanout_at [] f = 0
fanout_at (oid ∷ oids) f = fanout_at oids f + (if leb (get_or oid 0 0) f then 1 else 0)

-- The order of the name at `mid` and the key, `none` out of bounds.
abbrev pub order_at : Option (List ℕ) → List ℕ → Option Ordering
order_at none key = none
order_at (some oid) key = some (memcmp oid key)

-- `while (lo < hi)`, on fuel
unfoldable pub search_loop : ℕ → List (List ℕ) → List ℕ → ℕ → ℕ → Result ℕ
search_loop zero oids key lo hi = if ltb lo hi then stuck else err enoent
search_loop (suc fuel) oids key lo hi =
    let mid = (lo + hi) % 2 ^ 32 / 2 in
    let next : Result ℕ = elim (order_at (get_elem? oids mid) key) [
      | none ↦ fault
      | some lt ↦ search_loop fuel oids key (mid + 1) hi
      | some gt ↦ search_loop fuel oids key lo mid
      | some eq ↦ ok mid
    ] in
    if ltb lo hi then next else err enoent

-- The bounds of the search for a first byte.
abbrev pub low : (ℕ → ℕ) → ℕ → ℕ
low fanout first = if first == 0 then 0 else fanout (first - 1)

-- Every round halves the range.
unfoldable pub pack_index_find : (ℕ → ℕ) → List (List ℕ) → List ℕ → Result ℕ
pack_index_find fanout oids key =
    if length oids == 0
    then err enoent
    else if length key == length (get_or oids 0 [])
    then search_loop (fanout (get_or key 0 0)) oids key (low fanout (get_or key 0 0))
        (fanout (get_or key 0 0))
    else err enoent

-- `fastgit_midx_find`, which tests the length only where there are names.
unfoldable pub midx_find : (ℕ → ℕ) → List (List ℕ) → List ℕ → Result ℕ
midx_find fanout oids key =
    if not (length oids == 0) && not (length key == length (get_or oids 0 []))
    then err enoent
    else search_loop (fanout (get_or key 0 0)) oids key (low fanout (get_or key 0 0))
        (fanout (get_or key 0 0))
