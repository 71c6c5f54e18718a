-- ===== src/Mldsa/Correct.antt =====
-- macula-mldsa/src/internal.rs: proofs on key generation, signing and verification together.
pub mod Places
pub mod Row
pub mod Hinted
pub mod Split
pub mod Near
pub mod Rows
pub mod Bounds
pub mod Pair
pub mod Accepts
pub mod Scheme
