-- ===== src/Tls/Keys/PublicKeys.antt =====
-- Which bytes are taken for an ML-DSA-87 public key.
use macula_pq.Common.{
  ℕ, ◌-◌, ◌<◌, ◌≡◌, ◌↔◌, refl, sym, ap, ◌∙◌, arith, true, ltb, List, [], ◌∷◌, ◌++◌, length, drop,
  length-drop, length-append, drop-append_of_length, list_eq, list_eq_sound, list_eq_refl,
}
use macula_pq.Mldsa.Params.{ml_dsa_87, public_key_len}
use macula_pq.Tls.Der.{der, der_length}
use macula_pq.Tls.Keys.{id_ml_dsa_87, subject_public_key_info, is_ml_dsa_87_key}

-- What precedes a key of 2592 bytes.
abbrev prefix : List ℕ
prefix = 0x30 ∷ 0x82 ∷ 10 ∷ 50 ∷ 0x30 ∷ 0x0b ∷ (id_ml_dsa_87 ++ (0x03 ∷ 0x82 ∷ 10 ∷ 33 ∷ 0 ∷ []))

der-of_length :
    (tag len : ℕ) (contents : List ℕ)
    → length contents ≡ len
    → der tag contents ≡ tag ∷ (der_length len ++ contents)
unfolding der
der-of_length tag len contents e = rw e refl

info_prefix :
    (public : List ℕ) → length public ≡ 2592 → subject_public_key_info public ≡ prefix ++ public
unfolding subject_public_key_info der der_length
info_prefix public len =
    let bits : der 0x03 (0 ∷ public) ≡ 0x03 ∷ 0x82 ∷ 10 ∷ 33 ∷ 0 ∷ public =
      der-of_length 0x03 2593 (0 ∷ public) (omega (arith, len)) in
    let body = der 0x30 id_ml_dsa_87 ++ (0x03 ∷ 0x82 ∷ 10 ∷ 33 ∷ 0 ∷ public) in
    ap (λ b. der 0x30 (der 0x30 id_ml_dsa_87 ++ b)) bits
    ∙ der-of_length 0x30 2610 body (omega (arith, len))

key_at_end :
    (public front : List ℕ)
    → length public ≡ 2592
    → drop (length (front ++ public) - 2592) (front ++ public) ≡ public
key_at_end public front len =
    drop-append_of_length (length (front ++ public) - 2592) front public
      (omega (arith, len, length-append front public))

info_reads_back :
    (public : List ℕ)
    → length public ≡ 2592
    → is_ml_dsa_87_key (subject_public_key_info public) ≡ true
unfolding is_ml_dsa_87_key
info_reads_back public len =
    let e = info_prefix public len in
    let longer : ltb 2592 (length (prefix ++ public)) ≡ true = ground (arith, len) in
    let same : list_eq (subject_public_key_info public) (prefix ++ public) ≡ true =
      ap (λ t. list_eq t (prefix ++ public)) e ∙ list_eq_refl (prefix ++ public) in
    ap is_ml_dsa_87_key e ∙ rw (longer, key_at_end public prefix len, same) refl

-- Bytes are taken for an ML-DSA-87 key exactly when they are what the encoder writes for some public
-- key of ML-DSA-87's length.
pub is_ml_dsa_87_key_iff :
    (spki : List ℕ)
    → (is_ml_dsa_87_key spki ≡ true) ↔ (
        (public : List ℕ) × (length public ≡ public_key_len ml_dsa_87)
        × (subject_public_key_info public ≡ spki))
is_ml_dsa_87_key_iff spki = (
  (unfold is_ml_dsa_87_key in
      λ e.
        let tail = drop (length spki - 2592) spki in
        let longer : 2592 < length spki = ground (arith, e) in
        let same : list_eq (subject_public_key_info tail) spki ≡ true = ground (arith, e) in
        (
          tail,
          omega (arith, longer, length-drop (length spki - 2592) spki),
          list_eq_sound (subject_public_key_info tail) spki same,
        )),
  λ (public, len, same). ap is_ml_dsa_87_key (sym same) ∙ info_reads_back public len,
)
