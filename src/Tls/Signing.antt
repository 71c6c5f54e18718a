-- ===== src/Tls/Signing.antt =====
-- macula-pqc/src/signatures.rs: the key loader, the signer and the verifier that rustls is given, and
-- the self-signed certificate. `fuel` and `left` are those of ML-DSA.
use macula_pq.Common.{
  ℕ, ◌||◌, ◌==◌, Bool, true, false, if◌then◌else◌, Option, none, some, List, [], ◌∷◌,
}
use macula_pq.Common.Outcome.{Outcome, ok, err, panic, stuck, map_err, ◌>>=◌}
use macula_pq.Mldsa.Params
use macula_pq.Mldsa.Params.{ml_dsa_87, public_key_len}
use macula_pq.Mldsa.Sign.{PrivateKey, seed}
use macula_pq.Mldsa.Api.{verify, sign_drawing_from}
use macula_pq.Mldsa.Api
use macula_pq.Tls.Keys.{
  Error, Fallible, general, text, with_ml_dsa, with_rcgen, subject_public_key_info, pkcs8_of_seed,
  secret_of,
}

-- A signing key; `Secret` is ML-DSA's private key in either form.
pub record Mldsa87Key : Type 0 where
  pub secret : PrivateKey
  pub public : List ℕ

unfoldable pub key_error : Params.Error → Error
key_error e = general (with_ml_dsa "not a usable ML-DSA-87 private key: " e)

-- `PrivateKeyDer`.
pub data PrivateKeyDer : Type 0 where
  pkcs1 sec1 pkcs8 : List ℕ → PrivateKeyDer

-- A scheme is its code point in TLS.
abbrev pub scheme_ml_dsa_87 : ℕ
scheme_ml_dsa_87 = 0x0906

unfoldable pub contains : List ℕ → ℕ → Bool
contains [] scheme = false
contains (s ∷ schemes) scheme = s == scheme || contains schemes scheme

-- `then(|| Box::new(Mldsa87Signer(…)))`: the signer is the secret.
unfoldable pub choose_scheme : Mldsa87Key → List ℕ → Option PrivateKey
unfolding contains
choose_scheme key offered = if contains offered scheme_ml_dsa_87 then some key.secret else none

unfoldable pub signing_public_key : Mldsa87Key → List ℕ
unfolding subject_public_key_info
signing_public_key key = subject_public_key_info key.public

-- `InvalidSignature`.
pub data InvalidSignature : Type 0 where
  invalid_signature : InvalidSignature

-- `match verify(…) { Ok(true) => Ok(()), _ => Err(InvalidSignature) }`.
unfoldable pub accepted : Outcome Params.Error Bool → Outcome InvalidSignature (Unit {0})
accepted (ok true) = ok tt
accepted (ok false) = err invalid_signature
accepted (err e) = err invalid_signature
accepted panic = panic
accepted stuck = stuck

module _ (fuel : ℕ) where
  unfoldable pub verify_signature : List ℕ → List ℕ → List ℕ → Outcome InvalidSignature (Unit {0})
  unfolding accepted verify
  verify_signature public_key message signature =
      accepted (verify fuel ml_dsa_87 public_key message signature [])

  unfoldable pub new_key : PrivateKey → Fallible Mldsa87Key
  unfolding key_error
  new_key secret = do
    public ← map_err key_error (Api.public_key fuel ml_dsa_87 secret)
    ok (record { secret = secret; public = public })

  unfoldable pub load_private_key : PrivateKeyDer → Fallible Mldsa87Key
  unfolding new_key secret_of
  load_private_key (pkcs8 bytes) = do secret ← secret_of fuel bytes; new_key secret
  load_private_key (pkcs1 bytes) =
      err (general (text "only an ML-DSA-87 PKCS#8 private key is accepted"))
  load_private_key (sec1 bytes) =
      err (general (text "only an ML-DSA-87 PKCS#8 private key is accepted"))

  module _ {S : Type 0} (random : S → ℕ → Outcome Params.Error (List ℕ × S)) (left : ℕ) where
    unfoldable pub sign : PrivateKey → List ℕ → S → Fallible (List ℕ × S)
    unfolding sign_drawing_from
    sign secret message s =
        map_err (λ e. general (with_ml_dsa "ML-DSA-87 signing failed: " e))
          (sign_drawing_from fuel ml_dsa_87 random left secret message [] s)

    -- rcgen's key, its errors as numbers; `remote_key_error` is one of them.
    unfoldable pub certificate_sign : ℕ → Mldsa87Key → List ℕ → S → Outcome ℕ (List ℕ × S)
    unfolding sign_drawing_from
    certificate_sign remote_key_error key message s =
        map_err (λ e. remote_key_error)
          (sign_drawing_from fuel ml_dsa_87 random left key.secret message [] s)

    -- rcgen's `CertificateParams::new` and `self_signed`, which is given the public key and the
    -- signing function and returns the certificate's DER.
    module _ {Names Prepared : Type 0} (new_params : Names → Outcome ℕ Prepared)
        (self_signed : Prepared
          → List ℕ
          → (List ℕ → S → Outcome ℕ (List ℕ × S))
          → S
          → Outcome ℕ (List ℕ × S))
        (remote_key_error : ℕ) where
      unfoldable pub self_signed_certificate : List ℕ → Names → S → Fallible ((List ℕ × List ℕ) × S)
      unfolding new_key certificate_sign pkcs8_of_seed
      self_signed_certificate xi subject_alt_names s = do
        key ← new_key (seed xi)
        params ←
            map_err (λ e. general (with_rcgen "certificate names: " e))
              (new_params subject_alt_names)
        (certificate, s') ←
            map_err (λ e. general (with_rcgen "self-signing the certificate: " e))
              (self_signed params key.public (certificate_sign remote_key_error key) s)
        ok ((certificate, pkcs8_of_seed xi), s')
