-- ===== src/Tls.antt =====
-- macula-pqc: ML-DSA-87 in TLS, and the provider that both configuration builders carry.
pub mod Der
pub mod Keys
pub mod Signing
pub mod Possession
pub mod Provider
pub mod Tests
