-- ===== src/Tls/Possession/Accepted.antt =====
-- Which certificates the verifier accepts.
use macula_pq.Common.{ℕ, ◌≡◌, ◌↔◌, refl, Bool, true, false, if◌then◌else◌, List, [], ◌∷◌, length}
use macula_pq.Common.Outcome.{ok, err, panic, stuck, ◌>>=◌}
use macula_pq.Mldsa.Params.{ml_dsa_87, public_key_len}
use macula_pq.Tls.Keys.{Fallible, not_an_ml_dsa_87_key, subject_public_key_info, is_ml_dsa_87_key}
use macula_pq.Tls.Keys.PublicKeys.{is_ml_dsa_87_key_iff}
use macula_pq.Tls.Possession.{refused, verify_server_cert}

-- A parser's answer that is the public key of an ML-DSA-87 key.
abbrev pub IsMldsa87 : Fallible (List ℕ) → Type 0
IsMldsa87 parsed =
    (public : List ℕ) × (length public ≡ public_key_len ml_dsa_87)
    × (parsed ≡ ok (subject_public_key_info public))

checked : Fallible (List ℕ) → Fallible (Unit {0})
checked parsed = do
  key ← parsed
  if is_ml_dsa_87_key key then ok tt else err (refused not_an_ml_dsa_87_key)

checked_key :
    (key : List ℕ) (b : Bool)
    → (if b then ok tt else err (refused not_an_ml_dsa_87_key)) ≡ ok tt
    → b ≡ true
checked_key key true e = refl
checked_key key false e = cc

checked_iff : (parsed : Fallible (List ℕ)) → (checked parsed ≡ ok tt) ↔ IsMldsa87 parsed
unfolding checked
checked_iff (ok key) =
    let (down, up) = is_ml_dsa_87_key_iff key in
    (
      (λ e.
          let (public, len, same) = down (checked_key key (is_ml_dsa_87_key key) e) in
          (public, len, cc same)),
      λ (public, len, same). rw (up (public, len, cc same)) refl,
    )
checked_iff (err e) = ((λ x. cc), λ (public, len, same). cc same)
checked_iff panic = ((λ x. cc), λ (public, len, same). cc same)
checked_iff stuck = ((λ x. cc), λ (public, len, same). cc same)

-- Whatever parses certificates, a server's certificate is accepted exactly when it comes alone
-- and parses to the encoding of a public key of ML-DSA-87's length.
pub verify_server_cert_iff :
    (subject_public_key_info_of : List ℕ → Fallible (List ℕ)) (end_entity : List ℕ)
    (intermediates : List (List ℕ))
    → (verify_server_cert subject_public_key_info_of end_entity intermediates ≡ ok tt)
      ↔ ((intermediates ≡ []) × IsMldsa87 (subject_public_key_info_of end_entity))
verify_server_cert_iff parse end_entity [] =
    let (down, up) = checked_iff (parse end_entity) in
    (unfold verify_server_cert checked in ((λ e. (refl, down e)), λ (_, h). up h))
verify_server_cert_iff parse end_entity (c ∷ intermediates) =
    (unfold verify_server_cert in ((λ e. cc), λ (e, _). cc e))
