-- ===== src/Mldsa.antt =====
-- macula-mldsa: ML-DSA, FIPS 204.
pub mod Field
pub mod Rounding
pub mod Params
pub mod Ntt
pub mod Encode
pub mod Keys
pub mod Sample
pub mod Generate
pub mod Verify
pub mod Sign
pub mod Api
pub mod Correct
pub mod Tests
