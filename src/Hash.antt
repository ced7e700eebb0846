-- ===== src/Hash.antt =====
-- The hash functions of src/hash, as they are built where OpenSSL is not there.
pub mod Blocks
pub mod Sha256
pub mod Sha384
pub mod Keccak
