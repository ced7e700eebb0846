-- ===== src/Pack/Write/Closed.antt =====
-- Where the objects of a closed pack stand.
use fastgit.Common.{
  ℕ, ◌+◌, ◌-◌, ◌≤◌, ◌≡◌, sym, ap, ◌∙◌, arith, List, ◌++◌, length, take, drop, length-append,
  length-drop, length-take, drop-drop, drop-length-append,
}
use fastgit.Index.Disk.{be32}
use fastgit.Pack.Read.{PackObject}
use fastgit.Pack.Write.{Row, PackWriter, pack_close}
use fastgit.Pack.Write.Stored.{IsWritten, append-IsWritten}

module _ (digest : List ℕ → List ℕ) (decimal : ℕ → List ℕ) (compress : List ℕ → List ℕ)
    (crc32 : ℕ → List ℕ → ℕ) where
  -- The bytes behind the header stay where they are.
  drop-counted :
      (file : List ℕ) (count n : ℕ)
      → 12 ≤ length file
      → 12 ≤ n
      → drop n (take 8 file ++ (be32 count ++ drop 12 file)) ≡ drop n file
  drop-counted file count n long above =
      let k = n - 12 in
      let split : n ≡ 12 + k = omega arith in
      let front : length (take 8 file) ≡ 8 = omega (arith, length-take 8 file) in
      let rest = be32 count ++ drop 12 file in
      let eight : drop 8 (take 8 file ++ rest) ≡ rest =
        ap (λ m. drop m (take 8 file ++ rest)) (sym front)
        ∙ drop-length-append (take 8 file) rest in
      let twelve : drop 12 (take 8 file ++ rest) ≡ drop 12 file =
        drop-drop 8 4 (take 8 file ++ rest) ∙ ap (drop 4) eight in
      rw split
        (drop-drop 12 k (take 8 file ++ rest) ∙ ap (drop k) twelve ∙ sym (drop-drop 12 k file))

  -- Every row of a closed pack is written in it, with the hash of 32 bytes behind.
  pub pack_close-IsWritten :
      (P : PackObject → Type 0) (w : PackWriter) (row : Row)
      → ((bytes : List ℕ) → length (digest bytes) ≡ 32)
      → 12 ≤ length w.file
      → IsWritten digest decimal compress crc32 P w.file row
      → (v : IsWritten digest decimal compress crc32 P (pack_close digest w) row) × (32
          ≤ length v.behind)
  unfolding pack_close
  pack_close-IsWritten P w row size long v =
      let counted = take 8 w.file ++ (be32 w.object_count ++ drop 12 w.file) in
      let kept : IsWritten digest decimal compress crc32 P counted row = record {
        object = v.object;
        known = v.known;
        named = v.named;
        behind = v.behind;
        here = drop-counted w.file w.object_count row.offset long v.above ∙ v.here;
        above = v.above;
        inside = omega (
          arith,
          v.inside,
          length-append (take 8 w.file) (be32 w.object_count ++ drop 12 w.file),
          length-take 8 w.file,
          length-drop 12 w.file,
        );
      } in
      let (u, more) =
        append-IsWritten digest decimal compress crc32 P counted (digest counted) row kept in
      (u, omega (arith, more, size counted))
