-- ===== src/Tls/Keys.antt =====
-- macula-pqc/src/signatures.rs: the forms of ML-DSA-87 keys in DER, and the errors. `fuel` is that of
-- ML-DSA's rejection loops.
pub mod Loading
pub mod PublicKeys
use Prim.Native.String.{String}
use macula_pq.Common.{
  ℕ, ◌+◌, ◌-◌, ltb, not, ◌&&◌, ◌||◌, ◌==◌, Bool, true, false, if◌then◌else◌, Option, none, some,
  List, [], ◌∷◌, ◌++◌, length, drop, list_eq,
}
use macula_pq.Common.Outcome.{Outcome, ok, err, panic, stuck, ensure, ok_or, map_err, ◌>>=◌, ◌>>◌}
use macula_pq.Mldsa.Params
use macula_pq.Mldsa.Params.{ml_dsa_87, public_key_len}
use macula_pq.Mldsa.Sign.{PrivateKey, expanded, seed}
use macula_pq.Mldsa.Api.{verify, sign_drawing_from}
use macula_pq.Mldsa.Api
use macula_pq.Tls.Der.{der, Tlv, tlv}

-- The text of `Error::General`: fixed, or with the error that it shows.
pub data Message : Type 0 where
  text : String → Message
  with_ml_dsa : String → Params.Error → Message
  with_rcgen : String → ℕ → Message

pub data Refusal : Type 0 where
  more_than_one_certificate not_an_ml_dsa_87_key : Refusal

-- rustls's errors, as far as this crate makes them or passes them on.
pub data Error : Type 0 where
  general : Message → Error
  invalid_certificate : Refusal → Error
  tls12_not_offered : Error
  other : ℕ → Error

abbrev pub Fallible : Type 0 → Type 0
Fallible A = Outcome Error A

abbrev pub id_ml_dsa_87 : List ℕ
id_ml_dsa_87 = 0x06 ∷ 0x09 ∷ 0x60 ∷ 0x86 ∷ 0x48 ∷ 0x01 ∷ 0x65 ∷ 0x03 ∷ 0x04 ∷ 0x03 ∷ 0x13 ∷ []

-- `SubjectPublicKeyInfo`.
unfoldable pub subject_public_key_info : List ℕ → List ℕ
subject_public_key_info public = der 0x30 (der 0x30 id_ml_dsa_87 ++ der 0x03 (0 ∷ public))

unfoldable pub is_ml_dsa_87_key : List ℕ → Bool
unfolding subject_public_key_info
is_ml_dsa_87_key spki =
    let key_len = public_key_len ml_dsa_87 in
    ltb key_len (length spki)
    && list_eq (subject_public_key_info (drop (length spki - key_len) spki)) spki

unfoldable pub pkcs8_of_seed : List ℕ → List ℕ
pkcs8_of_seed xi =
    der 0x30 ((0x02 ∷ 0x01 ∷ 0x00 ∷ []) ++ (der 0x30 id_ml_dsa_87 ++ der 0x04 (der 0x80 xi)))

abbrev pub malformed : Error
malformed = general (text "not an ML-DSA-87 PKCS#8 private key")

-- `let (tag, contents, rest) = … else { return Err(malformed()) }`.
unfoldable pub tagged : ℕ → Tlv → Fallible (List ℕ × List ℕ)
tagged tag (t, contents, rest) = if t == tag then ok (contents, rest) else err malformed

-- `let (tag, contents, []) = … else { return Err(malformed()) }`.
unfoldable pub tagged_last : ℕ → Tlv → Fallible (List ℕ)
tagged_last tag (t, contents, []) = if t == tag then ok contents else err malformed
tagged_last tag (t, contents, b ∷ rest) = err malformed

-- `<[u8; 32]>::try_from`.
unfoldable pub seed_secret : List ℕ → Option PrivateKey
seed_secret bytes = if length bytes == 32 then some (seed bytes) else none

-- `r.ok()`.
abbrev pub ok_of : {E A : Type 0} → Outcome E A → Fallible (Option A)
ok_of (ok a) = ok (some a)
ok_of (err e) = ok none
ok_of panic = panic
ok_of stuck = stuck

-- `let (0x04, seed, rest) = tlv(both)? else …; let (0x04, expanded, []) = tlv(rest)? else …`.
unfoldable pub both_expanded : List ℕ → Option Tlv → Option (List ℕ × List ℕ)
both_expanded xi none = none
both_expanded xi (some (tag, bytes, [])) = if tag == 0x04 then some (xi, bytes) else none
both_expanded xi (some (tag, bytes, b ∷ rest)) = none

unfoldable pub both_parts : Option Tlv → Option (List ℕ × List ℕ)
unfolding both_expanded
both_parts none = none
both_parts (some (tag, xi, rest)) =
    let found = both_expanded xi (tlv rest) in if tag == 0x04 then found else none

-- The seed, once both public keys are known to agree.
unfoldable pub agreeing : PrivateKey → List ℕ → Option (List ℕ) → Option (Fallible PrivateKey)
agreeing seeded from_seed none = none
agreeing seeded from_seed (some from_expanded) = some (
    if list_eq from_seed from_expanded
    then ok seeded
    else err (general (text "the PKCS#8 key's seed and expanded key are different keys")))

module _ (fuel : ℕ) where
  -- The seed and the expanded key of the `both` form.
  unfoldable pub both_keys : List ℕ → Option PrivateKey → Fallible (Option (Fallible PrivateKey))
  unfolding agreeing
  both_keys bytes none = ok none
  both_keys bytes (some seeded) = do
    from_seed ← ok_of (Api.public_key fuel ml_dsa_87 seeded)
    elim from_seed [
      | none ↦ ok none
      | some pk ↦ (do
        from_expanded ← ok_of (Api.public_key fuel ml_dsa_87 (expanded bytes))
        ok (agreeing seeded pk from_expanded))
    ]

  unfoldable pub both_secret : List ℕ → Fallible (Option (Fallible PrivateKey))
  unfolding both_parts both_keys seed_secret
  both_secret both = elim (both_parts (tlv both)) [
    | none ↦ ok none
    | some (xi, bytes) ↦ both_keys bytes (seed_secret xi)
  ]

  -- The three forms of the privateKey.
  unfoldable pub private_key_form : Tlv → Fallible PrivateKey
  unfolding seed_secret both_secret
  private_key_form (tag, contents, []) =
      let both = (do found ← both_secret contents; r ← ok_or found malformed; r) in
      if tag == 0x80
      then ok_or (seed_secret contents) malformed
      else if tag == 0x04
      then ok (expanded contents)
      else if tag == 0x30
      then both
      else err malformed
  private_key_form (tag, contents, b ∷ rest) = err malformed

  unfoldable pub secret_of : List ℕ → Fallible PrivateKey
  unfolding tagged tagged_last private_key_form
  secret_of pkcs8 = do
    whole ← ok_or (tlv pkcs8) malformed
    body ← tagged_last 0x30 whole
    first ← ok_or (tlv body) malformed
    (version, rest) ← tagged 0x02 first
    ensure (not (not (list_eq version (0 ∷ [])) && not (list_eq version (1 ∷ [])))) malformed
    second ← ok_or (tlv rest) malformed
    (algorithm, rest') ← tagged 0x30 second
    ensure (list_eq algorithm id_ml_dsa_87) (general (text "the PKCS#8 key is not ML-DSA-87"))
    third ← ok_or (tlv rest') malformed
    (private_key, _) ← tagged 0x04 third
    form ← ok_or (tlv private_key) malformed
    private_key_form form
