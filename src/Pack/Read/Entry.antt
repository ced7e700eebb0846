-- ===== src/Pack/Read/Entry.antt =====
-- `fastgit_pack_read_entry`, step by step.
use fastgit.Common.{ℕ, ◌+◌, ◌%◌, ◌^◌, ◌≡◌, refl, Bool, List, length, get_elem?, some, ok}
use fastgit.Pack.Lookup.{pack_index_find}
use fastgit.Pack.Read.{
  Pack, PackIndex, PackObject, Stream, offset_of, pack_read_object_at, pack_read_entry,
}

offset_of-some :
    (idx : PackIndex) (m off : ℕ) → get_elem? idx.offsets m ≡ some off → offset_of idx m ≡ ok off
unfolding offset_of
offset_of-some idx m off h = rw (offset_of, h) refl

-- A pack that was opened, from its bytes and its index.
abbrev pub fresh_pack : List ℕ → PackIndex → Pack
fresh_pack mapped idx = record {
  mapped = mapped;
  index = some idx;
  objects_read = 0;
  bytes_read = 0;
}

-- The steps of `fastgit_pack_read_entry`.
pub pack_read_entry_steps :
    (malloc : ℕ → Bool) (inflate : List ℕ → ℕ → Stream) (mapped : List ℕ) (idx : PackIndex)
    (key : List ℕ) (m off : ℕ) (o : PackObject)
    → pack_index_find idx.fanout idx.oids key ≡ ok m
    → get_elem? idx.offsets m ≡ some off
    → pack_read_object_at malloc inflate (fresh_pack mapped idx) 33 off ≡ ok o
    → (pack' : Pack) × (pack_read_entry malloc inflate (fresh_pack mapped idx) key ≡ ok (pack', o))
unfolding pack_read_entry
pack_read_entry_steps malloc inflate mapped idx key m off o find at read = (
  record (fresh_pack mapped idx) {
    objects_read = (0 + 1) % 2 ^ 64;
    bytes_read = (0 + length o.bytes) % 2 ^ 64;
  },
  rw (find, offset_of-some idx m off at, read) refl,
)
