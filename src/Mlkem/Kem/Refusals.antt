-- ===== src/Mlkem/Kem/Refusals.antt =====
-- macula-mlkem/src/lib.rs: which inputs decapsulation refuses, and with which error.
use macula_pq.Common.{
  ℕ, ◌≡◌, ◌≢◌, ◌⊎◌, ◌↔◌, arith, true, false, Bool-cases, inl, inr, ◌==◌, ◌&&◌, List, length,
  list_eq, list_eq_sound, list_eq_refl,
}
use macula_pq.Common.Outcome.{ok, err}
use macula_pq.Common.Word.{IsBytes}
use macula_pq.Mlkem.Hash.{Primitives, IsSized}
use macula_pq.Mlkem.Kpke
use macula_pq.Mlkem.Kpke.{Fallible, Polys}
use macula_pq.Mlkem.Kpke.Total.{rho_of}
use macula_pq.Mlkem.Kem.{decaps}
use macula_pq.Mlkem.Params.{
  ParameterSet, IsAdmissible, wrong_length, decaps_key_invalid, ciphertext_len, decaps_key_len,
}
use macula_pq.Mlkem.Kem.Rejection.{ek_of, hash_of, decaps_key_valid_lem, decaps-implicit_rejection}

-- A ciphertext or a decapsulation key of any length but the parameter set's makes decapsulation
-- return the error for a wrong length.
pub decaps-wrong_length :
    (P : Primitives) (p : ParameterSet) (dk c : List ℕ)
    → (length c ≢ ciphertext_len p) ⊎ (length dk ≢ decaps_key_len p)
    → decaps P p dk c ≡ err wrong_length
unfolding decaps
decaps-wrong_length P p dk c h =
    let wrong : (length c == ciphertext_len p && length dk == decaps_key_len p) ≡ false =
      ground arith in
    rw (wrong, decaps)

decaps-key_invalid :
    (P : Primitives) (p : ParameterSet) (dk c : List ℕ)
    → length c ≡ ciphertext_len p
    → length dk ≡ decaps_key_len p
    → P.hash_h (ek_of p dk) ≢ hash_of p dk
    → decaps P p dk c ≡ err decaps_key_invalid
unfolding decaps
decaps-key_invalid P p dk c hc hd ne =
    let right : (length c == ciphertext_len p && length dk == decaps_key_len p) ≡ true =
      ground arith in
    let differ : list_eq (P.hash_h (ek_of p dk)) (hash_of p dk) ≡ false =
      elim (Bool-cases (list_eq (P.hash_h (ek_of p dk)) (hash_of p dk))) [
        | inl same ↦ absurd (ne (list_eq_sound _ _ same))
        | inr d ↦ d
      ] in
    rw (right, decaps, decaps_key_valid_lem P p dk hd, differ)

-- Of a ciphertext made of bytes, decapsulation answers with the error for a wrong length exactly
-- when the ciphertext or the decapsulation key has another length than the parameter set's, and
-- with the error for an invalid key exactly when both lengths are right and the hash that the key
-- stores is not that of the encapsulation key in it. Assumed: the hash functions have their
-- output sizes, and the sampling of the key's matrix ends. The parameter set's k is at most 4,
-- and its du and dv are between 1 and 12.
pub decaps-errors :
    (P : Primitives) (p : ParameterSet) (dk c : List ℕ) (a : List Polys)
    → IsSized P
    → IsAdmissible p
    → IsBytes c
    → Kpke.matrix P p.k (rho_of p (ek_of p dk)) ≡ ok a
    → ((decaps P p dk c ≡ err wrong_length)
        ↔ ((length c ≢ ciphertext_len p) ⊎ (length dk ≢ decaps_key_len p)))
      × ((decaps P p dk c ≡ err decaps_key_invalid) ↔ (
          (length c ≡ ciphertext_len p)
          × (length dk ≡ decaps_key_len p)
          × (P.hash_h (ek_of p dk) ≢ hash_of p dk)))
decaps-errors P p dk c a sized adm bc sampled =
    elim (Bool-cases (length c == ciphertext_len p && length dk == decaps_key_len p)) [
      | inr t ↦
          let wrong : (length c ≢ ciphertext_len p) ⊎ (length dk ≢ decaps_key_len p) =
            wrong_part t in
          let e = decaps-wrong_length P p dk c wrong in
          (
            ((λ _. wrong), λ _. e),
            ((λ e'. cc (e, e')), λ (hc, hd, _). absurd (right_lengths hc hd wrong)),
          )
      | inl t ↦
          let hc : length c ≡ ciphertext_len p = ground (arith, t) in
          let hd : length dk ≡ decaps_key_len p = ground (arith, t) in
          elim (Bool-cases (list_eq (P.hash_h (ek_of p dk)) (hash_of p dk))) [
            | inl same ↦
                let hash = list_eq_sound (P.hash_h (ek_of p dk)) (hash_of p dk) same in
                let done =
                  decaps-implicit_rejection P p dk c a sized adm hd (hc, bc) hash sampled in
                let e = done.secret in
                (
                  ((λ e'. cc (e, e')), λ wrong. absurd (right_lengths hc hd wrong)),
                  ((λ e'. cc (e, e')), λ (_, _, ne). absurd (ne hash)),
                )
            | inr differ ↦
                let ne : P.hash_h (ek_of p dk) ≢ hash_of p dk =
                  λ hash. cc (list_eq_refl (hash_of p dk), differ, hash) in
                let e = decaps-key_invalid P p dk c hc hd ne in
                (
                  ((λ e'. cc (e, e')), λ wrong. absurd (right_lengths hc hd wrong)),
                  ((λ _. (hc, hd, ne)), λ _. e),
                )
          ]
    ]
  where
    wrong_part :
        (length c == ciphertext_len p && length dk == decaps_key_len p) ≡ false
        → (length c ≢ ciphertext_len p) ⊎ (length dk ≢ decaps_key_len p)
    wrong_part t = elim (Bool-cases (length c == ciphertext_len p)) [
      | inl t' ↦ inr (λ e. ground (arith, t, t', e))
      | inr t' ↦ inl (λ e. ground (arith, t', e))
    ]

    right_lengths :
        length c ≡ ciphertext_len p
        → length dk ≡ decaps_key_len p
        → ¬ ((length c ≢ ciphertext_len p) ⊎ (length dk ≢ decaps_key_len p))
    right_lengths hc hd (inl ne) = ne hc
    right_lengths hc hd (inr ne) = ne hd
