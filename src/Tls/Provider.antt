-- ===== src/Tls/Provider.antt =====
-- macula-pqc/src/lib.rs: the provider in both configuration builders. The parts that are taken over
-- from aws-lc-rs, the elliptic curve's groups and the cipher suites, are parameters.
use macula_pq.Common.{ℕ, List, [], ◌∷◌}
use macula_pq.Kx.Hybrid.{KxGroup, secp384r1mlkem1024, secp256r1mlkem768, hybrid_group}
use macula_pq.Tls.Keys.{Fallible}
use macula_pq.Tls.Signing.{Mldsa87Key, PrivateKeyDer, load_private_key}
use macula_pq.Tls.Possession.{Algorithms, signature_verification_algorithms}

-- `CryptoProvider`, with rustls's other fields as one.
pub record CryptoProvider (S Suite Rest : Type 0) : Type 0 where
  pub kx_groups : List (KxGroup S)
  pub cipher_suites : List Suite
  pub signature_verification_algorithms : Algorithms
  pub key_provider : PrivateKeyDer → Fallible Mldsa87Key
  pub default_provider : Rest

-- The ML-KEM groups are those of `macula-pqc-kx`.
unfoldable pub provider :
    {S Suite Rest : Type 0}
    → ℕ
    → KxGroup S
    → KxGroup S
    → KxGroup S
    → KxGroup S
    → Suite
    → Rest
    → CryptoProvider S Suite Rest
unfolding signature_verification_algorithms load_private_key hybrid_group
provider fuel secp384r1 secp256r1 ml_kem_1024 ml_kem_768 tls13_aes_256_gcm_sha384 rest = record {
  kx_groups =
      hybrid_group (secp384r1mlkem1024 secp384r1 ml_kem_1024)
      ∷ hybrid_group (secp256r1mlkem768 secp256r1 ml_kem_768)
      ∷ [];
  cipher_suites = tls13_aes_256_gcm_sha384 ∷ [];
  signature_verification_algorithms = signature_verification_algorithms fuel;
  key_provider = load_private_key fuel;
  default_provider = rest;
}
