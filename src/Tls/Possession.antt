-- ===== src/Tls/Possession.antt =====
-- macula-pqc/src/key_possession.rs: the verifier of a server's one certificate. rustls's parser of
-- certificates and its check of a handshake signature are parameters.
pub mod Accepted
use macula_pq.Common.{ℕ, if◌then◌else◌, List, [], ◌∷◌, map}
use macula_pq.Common.Outcome.{Outcome, ok, err, ◌>>=◌}
use macula_pq.Tls.Keys.{
  Error, Refusal, more_than_one_certificate, not_an_ml_dsa_87_key, invalid_certificate,
  tls12_not_offered, Fallible, is_ml_dsa_87_key,
}
use macula_pq.Tls.Signing.{InvalidSignature, verify_signature, scheme_ml_dsa_87}

unfoldable pub refused : Refusal → Error
refused refusal = invalid_certificate refusal

-- `SignatureVerificationAlgorithm`: a public key, a message and a signature.
abbrev pub Algorithm : Type 0
Algorithm = List ℕ → List ℕ → List ℕ → Outcome InvalidSignature (Unit {0})

-- `WebPkiSupportedAlgorithms`.
pub record Algorithms : Type 0 where
  pub all : List Algorithm
  pub mapping : List (ℕ × List Algorithm)

unfoldable pub signature_verification_algorithms : ℕ → Algorithms
unfolding verify_signature
signature_verification_algorithms fuel = record {
  all = verify_signature fuel ∷ [];
  mapping = (scheme_ml_dsa_87, verify_signature fuel ∷ []) ∷ [];
}

-- `supported_verify_schemes`: the schemes of the mapping.
unfoldable pub supported_verify_schemes : ℕ → List ℕ
unfolding signature_verification_algorithms
supported_verify_schemes fuel = map (λ m. m.0) (signature_verification_algorithms fuel).mapping

unfoldable pub verify_tls12_signature : List ℕ → List ℕ → List ℕ → Fallible (Unit {0})
verify_tls12_signature message cert dss = err tls12_not_offered

-- The public key of the certificate, where it parses.
module _ (subject_public_key_info_of : List ℕ → Fallible (List ℕ)) where
  unfoldable pub verify_server_cert : List ℕ → List (List ℕ) → Fallible (Unit {0})
  unfolding refused is_ml_dsa_87_key
  verify_server_cert end_entity (c ∷ intermediates) = err (refused more_than_one_certificate)
  verify_server_cert end_entity [] = do
    key ← subject_public_key_info_of end_entity
    if is_ml_dsa_87_key key then ok tt else err (refused not_an_ml_dsa_87_key)

module _ (verify_tls13 : List ℕ → List ℕ → List ℕ → Algorithms → Fallible (Unit {0})) where
  unfoldable pub verify_tls13_signature : ℕ → List ℕ → List ℕ → List ℕ → Fallible (Unit {0})
  unfolding signature_verification_algorithms
  verify_tls13_signature fuel message cert dss =
      verify_tls13 message cert dss (signature_verification_algorithms fuel)
