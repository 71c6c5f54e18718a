-- ===== src/Tls/Keys/Loading.antt =====
-- The private key that is written for a seed loads as that seed.
use macula_pq.Common.{
  ℕ, ◌+◌, ◌<◌, ◌≤◌, ◌≡◌, refl, sym, ap, ◌∙◌, arith, List, [], ◌∷◌, ◌++◌, length, append-nil,
  length-append, some,
}
use macula_pq.Common.Outcome.{ok}
use macula_pq.Mldsa.Sign.{seed}
use macula_pq.Tls.Der.{der, der_length, tlv}
use macula_pq.Tls.Der.RoundTrip.{tlv-der}
use macula_pq.Tls.Keys.{id_ml_dsa_87, pkcs8_of_seed, seed_secret, secret_of}
use macula_pq.Tls.Signing.{pkcs8, load_private_key, new_key}

-- A DER value with nothing after it.
tlv-der_alone :
    (tag : ℕ) (contents : List ℕ)
    → length contents < 65536
    → tlv (der tag contents) ≡ some (tag, contents, [])
tlv-der_alone tag contents h =
    ap tlv (sym (append-nil (der tag contents))) ∙ tlv-der tag contents [] h

length-der : (tag : ℕ) (contents : List ℕ) → length (der tag contents) ≤ length contents + 4
unfolding der der_length
length-der tag contents = ground arith

secret_of-steps :
    (fuel : ℕ) (bytes body rest rest' form xi : List ℕ)
    → tlv bytes ≡ some (0x30, body, [])
    → tlv body ≡ some (0x02, 0 ∷ [], rest)
    → tlv rest ≡ some (0x30, id_ml_dsa_87, rest')
    → tlv rest' ≡ some (0x04, form, [])
    → tlv form ≡ some (0x80, xi, [])
    → seed_secret xi ≡ some (seed xi)
    → secret_of fuel bytes ≡ ok (seed xi)
unfolding secret_of
secret_of-steps fuel bytes body rest rest' form xi e1 e2 e3 e4 e5 e6 =
    rw (e1, e2, e3, e4, e5, e6) refl

seed_kept : (xi : List ℕ) → length xi ≡ 32 → seed_secret xi ≡ some (seed xi)
unfolding seed_secret
seed_kept xi len = rw len refl

secret_of-pkcs8_of_seed :
    (fuel : ℕ) (xi : List ℕ) → length xi ≡ 32 → secret_of fuel (pkcs8_of_seed xi) ≡ ok (seed xi)
unfolding pkcs8_of_seed
secret_of-pkcs8_of_seed fuel xi len =
    let form = der 0x80 xi in
    let key = der 0x04 form in
    let rest = der 0x30 id_ml_dsa_87 ++ key in
    let body = (0x02 ∷ 0x01 ∷ 0x00 ∷ []) ++ rest in
    let h1 : length form ≤ 36 = omega (arith, len, length-der 0x80 xi) in
    let h2 : length key ≤ 40 = omega (arith, h1, length-der 0x04 form) in
    let h3 : length rest ≤ 60 =
      omega (arith, h2, length-append (der 0x30 id_ml_dsa_87) key, length-der 0x30 id_ml_dsa_87) in
    let version : body ≡ der 0x02 (0 ∷ []) ++ rest = unfold der der_length in refl in
    secret_of-steps fuel (der 0x30 body) body rest key form xi
      (tlv-der_alone 0x30 body (omega (arith, h3)))
      (ap tlv version ∙ tlv-der 0x02 (0 ∷ []) rest (omega arith))
      (tlv-der 0x30 id_ml_dsa_87 key (omega arith)) (tlv-der_alone 0x04 form (omega (arith, h1)))
      (tlv-der_alone 0x80 xi (omega (arith, len))) (seed_kept xi len)

-- The PKCS#8 bytes that are written for a seed of 32 bytes are read as that seed, and the key
-- loader makes of them the signing key that the seed itself makes.
pub load_private_key-pkcs8_of_seed :
    (fuel : ℕ) (xi : List ℕ)
    → length xi ≡ 32
    → (secret_of fuel (pkcs8_of_seed xi) ≡ ok (seed xi))
      × (load_private_key fuel (pkcs8 (pkcs8_of_seed xi)) ≡ new_key fuel (seed xi))
load_private_key-pkcs8_of_seed fuel xi len =
    let e = secret_of-pkcs8_of_seed fuel xi len in (e, (unfold load_private_key in rw e refl))
