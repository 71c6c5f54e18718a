-- ===== src/Tls/Tests.antt =====
-- Concrete keys and certificates.
use macula_pq.Common.{
  ℕ, ◌≡◌, ◌↔◌, refl, arith, some, List, [], ◌∷◌, ◌++◌, replicate, length-replicate,
}
use macula_pq.Common.Outcome.{ok}
use macula_pq.Mldsa.Sign.{seed}
use macula_pq.Tls.Der.{der, tlv}
use macula_pq.Tls.Der.RoundTrip.{tlv-der}
use macula_pq.Tls.Keys.{Fallible, pkcs8_of_seed, secret_of, subject_public_key_info}
use macula_pq.Tls.Signing.{pkcs8, load_private_key, new_key}
use macula_pq.Tls.Keys.Loading.{load_private_key-pkcs8_of_seed}
use macula_pq.Tls.Possession.{verify_server_cert}
use macula_pq.Tls.Possession.Accepted.{IsMldsa87, verify_server_cert_iff}

abbrev contents : List ℕ
contents = replicate 300 1

tlv-der_example : tlv (der 4 contents ++ (5 ∷ [])) ≡ some (4, contents, 5 ∷ [])
tlv-der_example = tlv-der 4 contents (5 ∷ []) (omega (arith, length-replicate {A = ℕ} 300 1))

abbrev seed_bytes : List ℕ
seed_bytes = replicate 32 7

load_private_key-pkcs8_of_seed_example :
    (secret_of 300 (pkcs8_of_seed seed_bytes) ≡ ok (seed seed_bytes))
    × (load_private_key 300 (pkcs8 (pkcs8_of_seed seed_bytes)) ≡ new_key 300 (seed seed_bytes))
load_private_key-pkcs8_of_seed_example = load_private_key-pkcs8_of_seed 300 seed_bytes refl

-- A parser that takes the whole certificate for its key.
abbrev whole : List ℕ → Fallible (List ℕ)
whole cert = ok cert

abbrev certificate : List ℕ
certificate = subject_public_key_info (replicate 2592 7)

abbrev alone : List (List ℕ)
alone = []

verify_server_cert_iff_example :
    (verify_server_cert whole certificate alone ≡ ok tt)
    ↔ ((alone ≡ []) × IsMldsa87 (whole certificate))
verify_server_cert_iff_example = verify_server_cert_iff whole certificate alone
