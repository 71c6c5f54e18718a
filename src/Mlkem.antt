-- ===== src/Mlkem.antt =====
-- macula-mlkem: ML-KEM, FIPS 203.
pub mod Field
pub mod Ntt
pub mod Encode
pub mod Sample
pub mod Params
pub mod Hash
pub mod Kpke
pub mod Kem
pub mod Tests
