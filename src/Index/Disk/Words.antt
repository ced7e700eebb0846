-- ===== src/Index/Disk/Words.antt =====
-- The fixed fields of an entry, written and read again.
use fastgit.Common.{ℕ, ◌+◌, ◌/◌, ◌^◌, bit_and, ◌<◌, ◌≡◌, refl, arith, List, ◌++◌, length, drop}
use fastgit.Index.Entry.{Entry}
use fastgit.Index.Disk.{be32, be16, read32, read16, write_fields, read_fields}

pub read32-be32 : (v : ℕ) (rest : List ℕ) → v < 2 ^ 32 → read32 (be32 v ++ rest) ≡ v
unfolding read32
read32-be32 v rest h = omega arith

pub read16-be16 : (v : ℕ) (rest : List ℕ) → v < 2 ^ 16 → read16 (be16 v ++ rest) ≡ v
unfolding read16
read16-be16 v rest h = omega arith

-- The fields that hold 32 bits each.
pub record HasWords (e : Entry) : Type 0 where
  pub ctime_sec : e.ctime_sec < 2 ^ 32
  pub ctime_nsec : e.ctime_nsec < 2 ^ 32
  pub mtime_sec : e.mtime_sec < 2 ^ 32
  pub mtime_nsec : e.mtime_nsec < 2 ^ 32
  pub dev : e.dev < 2 ^ 32
  pub ino : e.ino < 2 ^ 32
  pub mode : e.mode < 2 ^ 32
  pub uid : e.uid < 2 ^ 32
  pub gid : e.gid < 2 ^ 32
  pub size : e.size < 2 ^ 32

pub drop-write_fields : (e : Entry) (rest : List ℕ) → drop 40 (write_fields e rest) ≡ rest
unfolding write_fields
drop-write_fields e rest = refl

pub length-write_fields :
    (e : Entry) (rest : List ℕ) → length (write_fields e rest) ≡ 40 + length rest
unfolding write_fields
length-write_fields e rest = omega arith

pub read_fields-write_fields :
    (e : Entry) (rest : List ℕ) (flags : ℕ)
    → HasWords e
    → read_fields (write_fields e rest) e.oid.hash e.oid.algo flags e.path
      ≡ record e { stage = bit_and (flags / 2 ^ 12) 0x3; flags = flags; flags_extended = 0 }
unfolding write_fields read_fields
read_fields-write_fields e rest flags w =
    let bytes = write_fields e rest in
    let e0 : read32 bytes ≡ e.ctime_sec = read32-be32 e.ctime_sec _ w.ctime_sec in
    let e1 : read32 (drop 4 bytes) ≡ e.ctime_nsec = read32-be32 e.ctime_nsec _ w.ctime_nsec in
    let e2 : read32 (drop 8 bytes) ≡ e.mtime_sec = read32-be32 e.mtime_sec _ w.mtime_sec in
    let e3 : read32 (drop 12 bytes) ≡ e.mtime_nsec = read32-be32 e.mtime_nsec _ w.mtime_nsec in
    let e4 : read32 (drop 16 bytes) ≡ e.dev = read32-be32 e.dev _ w.dev in
    let e5 : read32 (drop 20 bytes) ≡ e.ino = read32-be32 e.ino _ w.ino in
    let e6 : read32 (drop 24 bytes) ≡ e.mode = read32-be32 e.mode _ w.mode in
    let e7 : read32 (drop 28 bytes) ≡ e.uid = read32-be32 e.uid _ w.uid in
    let e8 : read32 (drop 32 bytes) ≡ e.gid = read32-be32 e.gid _ w.gid in
    let e9 : read32 (drop 36 bytes) ≡ e.size = read32-be32 e.size _ w.size in
    rw (e0, e1, e2, e3, e4, e5, e6, e7, e8, e9) refl
