-- ===== src/Keccak.antt =====
-- macula-keccak/src/lib.rs: Keccak-f[1600], the sponge and the functions built on it.
pub mod Permutation
pub mod Sponge
