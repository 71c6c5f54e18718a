-- ===== src/Kx.antt =====
-- macula-pqc-kx: hybrid key exchange groups for TLS.
pub mod Hybrid
pub mod MlKem
pub mod Tests
