-- ===== src/Index/Table.antt =====
-- src/index/index.c: the open-addressing table over (path, stage), `fg_ht_*`. `ht_cap` is the
-- length of the list of slots and `ht_mask` is one less. The entries are those below `count`; to
-- read one beyond is a fault. Allocation succeeds.
pub mod Slots
pub mod Find
pub mod Insert
pub mod Rebuild
use fastgit.Common.{
  ℕ, zero, suc, ◌+◌, ◌-◌, ◌*◌, ◌/◌, ◌%◌, ◌^◌, bit_and, bit_xor, Bool, true, false, List, [], ◌∷◌,
  length, get_elem?, get_or, set, replicate, ltb, leb, ◌==◌, if◌then◌else◌, Option, none, some,
  Result, ok, err, fault, stuck, enomem, ◌>>=◌,
}
use fastgit.Index.Entry.{Entry, has_key}

-- FG_HT_EMPTY, FG_HT_TOMB, or an index into the entries
pub data Slot : Type 0 where
  empty tomb : Slot
  entry : ℕ → Slot

abbrev pub fnv_prime : ℕ
fnv_prime = 1099511628211

-- `h ^= *p; h *= 1099511628211ULL;` for each byte of the path
unfoldable pub hash_bytes : ℕ → List ℕ → ℕ
hash_bytes h [] = h
hash_bytes h (b ∷ bs) = hash_bytes (bit_xor h b * fnv_prime % 2 ^ 64) bs

unfoldable pub hash_path_stage : List ℕ → ℕ → ℕ
hash_path_stage path stage =
    let h = bit_xor (hash_bytes 14695981039346656037 path) stage * fnv_prime % 2 ^ 64 in
    bit_xor h (h / 2 ^ 33) * 0xff51afd7ed558ccd % 2 ^ 64

-- `h & idx->ht_mask`
abbrev pub home : List Slot → List ℕ → ℕ → ℕ
home ht path stage = bit_and (hash_path_stage path stage) (length ht - 1)

-- `pos = (pos + 1) & idx->ht_mask`
abbrev pub next : List Slot → ℕ → ℕ
next ht pos = bit_and (pos + 1) (length ht - 1)

-- `while (p2 < cap) p2 *= 2;`, on fuel
unfoldable pub round_up : ℕ → ℕ → ℕ → ℕ
round_up zero p2 cap = p2
round_up (suc f) p2 cap = let more = round_up f (p2 * 2) cap in if ltb p2 cap then more else p2

-- `cap` rounds are enough: each adds 1 at least.
unfoldable pub ht_init : ℕ → List Slot
ht_init cap = replicate (round_up cap 1024 cap) empty

-- `idx->entries[v].stage == stage && strcmp(idx->entries[v].path, path) == 0`
unfoldable pub entry_matches : List Entry → ℕ → List ℕ → ℕ → Result Bool
entry_matches entries v path stage = elim (get_elem? entries v) [
  | none ↦ fault
  | some e ↦ ok (has_key e path stage)
]

module _ (entries : List Entry) (ht : List Slot) (path : List ℕ) (stage : ℕ) where
  -- The loop of `fg_ht_find`, by the probes left; `none` is -1.
  unfoldable pub find_loop : ℕ → ℕ → Result (Option ℕ)
  find_loop zero pos = ok none
  find_loop (suc probes) pos =
      let rest = find_loop probes (next ht pos) in
      elim (get_or ht pos empty) [
        | empty ↦ ok none
        | tomb ↦ rest
        | entry v ↦ entry_matches entries v path stage >>= λ m. if m then ok (some v) else rest
      ]

  unfoldable pub ht_find : Result (Option ℕ)
  ht_find = find_loop (length ht) (home ht path stage)

  -- The loop of `fg_ht_remove`.
  unfoldable pub remove_loop : ℕ → ℕ → Result (List Slot)
  remove_loop zero pos = ok ht
  remove_loop (suc probes) pos =
      let rest = remove_loop probes (next ht pos) in
      elim (get_or ht pos empty) [
        | empty ↦ ok ht
        | tomb ↦ rest
        | entry v ↦
            entry_matches entries v path stage >>= λ m. if m then ok (set ht pos tomb) else rest
      ]

  unfoldable pub ht_remove : Result (List Slot)
  ht_remove = remove_loop (length ht) (home ht path stage)

-- The loop of `fg_ht_insert`: the first slot that is empty or a tombstone.
unfoldable pub insert_loop : List Slot → ℕ → ℕ → ℕ → Result (List Slot)
insert_loop ht i zero pos = err enomem
insert_loop ht i (suc probes) pos =
    let rest = insert_loop ht i probes (next ht pos) in
    elim (get_or ht pos empty) [
      | empty ↦ ok (set ht pos (entry i))
      | tomb ↦ ok (set ht pos (entry i))
      | entry v ↦ rest
    ]

-- `while (idx->ht[pos] != FG_HT_EMPTY) pos = …; idx->ht[pos] = i;`, on fuel
unfoldable pub place_loop : List Slot → ℕ → ℕ → ℕ → Result (List Slot)
place_loop ht i zero pos = stuck
place_loop ht i (suc fuel) pos =
    let rest = place_loop ht i fuel (next ht pos) in
    elim (get_or ht pos empty) [ empty ↦ ok (set ht pos (entry i)) | tomb ↦ rest | entry v ↦ rest ]

-- The loop over the entries, from the `i`-th on; `skip` is the `continue` of `fg_ht_insert`.
unfoldable pub place_all : Option ℕ → List Slot → ℕ → List Entry → Result (List Slot)
place_all skip ht i [] = ok ht
place_all skip ht i (e ∷ es) =
    (if is_skipped then ok ht else place_loop ht i (length ht) (home ht e.path e.stage)) >>= λ ht'.
    place_all skip ht' (i + 1) es
  where
    is_skipped : Bool
    is_skipped = elim skip [ none ↦ false | some j ↦ i == j ]

unfoldable pub ht_rebuild : List Entry → Result (List Slot)
ht_rebuild entries =
    if length entries == 0
    then ok (ht_init 1024)
    else place_all none (ht_init (length entries * 2 + 64)) 0 entries

-- The test of the load at the head of `fg_ht_insert`, and the two ways to grow.
unfoldable pub ht_reserve : List Entry → List Slot → ℕ → Result (List Slot)
ht_reserve entries ht entry_idx =
    let need = length entries * 2 + 64 in
    if ltb (length ht) need
    then (ht_rebuild entries >>= λ ht'.
        if ltb (length ht') need
        then place_all (some entry_idx) (ht_init (length entries * 4 + 64)) 0 entries
        else ok ht')
    else ok ht

unfoldable pub ht_insert : List Entry → List Slot → List ℕ → ℕ → ℕ → Result (List Slot)
ht_insert entries ht path stage entry_idx = ht_reserve entries ht entry_idx >>= λ ht'.
    insert_loop ht' entry_idx (length ht') (home ht' path stage)
