-- ===== src/Mldsa/Correct/Accepts.antt =====
-- macula-mldsa/src/internal.rs: verification of the signatures that the signing loop offers.
use macula_pq.Common.{
  leb, ◌/◌, ℕ, ◌-◌, ◌^◌, ◌≤◌, ◌<◌, ◌≡◌, ◌∙◌, sym, ap, ap₂, subst, arith, inl, inr, true, false,
  some, List, map, length, All, take, take_all, length-map, length-zip_with, list_eq, list_eq_refl,
}
use macula_pq.Common.Outcome.{ok, ◌>>=◌}
use macula_pq.Common.Yields.{Yields}
use macula_pq.Mldsa.Field.{n}
use macula_pq.Mldsa.Rounding.{high_bits}
use macula_pq.Mldsa.Rounding.Decompose.{IsGamma2}
use macula_pq.Mldsa.Params.{ParameterSet, beta, z_bits}
use macula_pq.Mldsa.Ntt.{ntt}
use macula_pq.Mldsa.Ntt.Range.{ntt-IsPoly}
use macula_pq.Mldsa.Keys.{Polys, Signature, pk_decode, sig_decode}
use macula_pq.Mldsa.Sample.{k_max, expand_a, sample_in_ball}
use macula_pq.Mldsa.Sample.Secret.{IsEta}
use macula_pq.Mldsa.Sample.Total.{IsBounded}
use macula_pq.Mldsa.Sample.Challenge.{IsChallenge, sample_in_ball-IsChallenge}
use macula_pq.Mldsa.Generate.Ranges.{All-IsRanged-IsPoly, map-ntt-IsPoly}
use macula_pq.Mldsa.Verify.{
  reaches, hinted_rows, recovered_w1, commitment, verify_decoded, verify_given_mu,
}
use macula_pq.Mldsa.Verify.Reaches.{reaches_iff}
use macula_pq.Mldsa.Sign.{Signer, times, norm, count_ones}
use macula_pq.Mldsa.Sign.Norm.{IsBelow}
use macula_pq.Mldsa.Sign.Responses.{IsSigning, IsSigner, rows-IsPoly, map-times-IsPoly}
use macula_pq.Mldsa.Sign.Offer.{images, response, low_rows, commitment_of, IsOffered}
use macula_pq.Mldsa.Correct.Rows.{image, low_row, rows_recover}
use macula_pq.Mldsa.Correct.Near.{IsChallenge-IsPoly}
use macula_pq.Mldsa.Correct.Bounds.{low_rows-IsPoly, r0-IsBelow, ct0-IsBelow}
use macula_pq.Mldsa.Correct.Pair.{
  Origin, IsOrigin, highs_of, s1_hat_of, public_of, signer_with, s1_polys, public_key_decodes,
}

recovered_lem :
    (fuel : ℕ) (p : ParameterSet) (rho c : List ℕ) (t1 w1 : Polys) (a_hat : List Polys)
    (s : Signature)
    → IsBounded p
    → expand_a fuel rho p ≡ ok a_hat
    → sample_in_ball fuel s.c_tilde p.tau ≡ ok c
    → hinted_rows p (ntt c) (map ntt (take p.l s.z)) a_hat t1 s.h ≡ w1
    → recovered_w1 fuel p rho t1 s ≡ ok w1
unfolding recovered_w1
recovered_lem fuel p rho c t1 w1 a_hat s bounded e e' e'' =
    let rows : leb p.k k_max ≡ true = ground (arith, bounded.rows) in rw (e, e', rows) (ap ok e'')

decoded_accepts :
    (fuel : ℕ) (p : ParameterSet) (rho mu : List ℕ) (t1 w1 : Polys) (s : Signature)
    → reaches (p.gamma1 - beta p) (take p.l s.z) ≡ false
    → recovered_w1 fuel p rho t1 s ≡ ok w1
    → commitment p mu w1 ≡ ok s.c_tilde
    → verify_decoded fuel p rho t1 mu s ≡ ok true
unfolding verify_decoded
decoded_accepts fuel p rho mu t1 w1 s e e' e'' =
    ap
      (λ b. elim b [
        | true ↦ ok false
        | false ↦ (do
          w ← recovered_w1 fuel p rho t1 s
          c_tilde ← commitment p mu w
          ok (list_eq c_tilde s.c_tilde))
      ])
      e
    ∙ ap (λ m. (do w ← m; c_tilde ← commitment p mu w; ok (list_eq c_tilde s.c_tilde))) e'
    ∙ ap (λ m. (do c_tilde ← m; ok (list_eq c_tilde s.c_tilde))) e''
    ∙ ap ok (list_eq_refl s.c_tilde)

given_mu_accepts :
    (fuel : ℕ) (p : ParameterSet) (pk mu sig rho : List ℕ) (t1 : Polys) (s : Signature)
    → pk_decode pk p ≡ ok (rho, t1)
    → sig_decode sig p ≡ ok (some s)
    → verify_decoded fuel p rho t1 mu s ≡ ok true
    → verify_given_mu fuel p pk mu sig ≡ ok true
unfolding verify_given_mu
given_mu_accepts fuel p pk mu sig rho t1 s e1 e2 e3 = rw (e1, e2) e3

-- A challenge that was sampled has its form.
challenge_lem :
    (fuel : ℕ) (c_tilde c : List ℕ) (tau : ℕ)
    → tau ≤ n
    → sample_in_ball fuel c_tilde tau ≡ ok c
    → IsChallenge tau c
challenge_lem fuel c_tilde c tau h e =
    subst (Yields (IsChallenge tau)) e (sample_in_ball-IsChallenge fuel c_tilde tau h)

module _ (fuel : ℕ) (p : ParameterSet) (o : Origin) (he : IsEta p) (h : IsOrigin fuel p o)
    (g : IsGamma2 p.gamma2) (le : p.tau ≤ n) (rho_pp mu : List ℕ) where
  abbrev k : Signer
  k = signer_with p o rho_pp mu

  module _ (st : IsSigning p) (signer : IsSigner p k) (sig : List ℕ)
      (offer : IsOffered fuel p k (p.gamma1 - beta p) sig) where
    abbrev y : Polys
    y = offer.mask

    abbrev c : List ℕ
    c = offer.challenge

    abbrev cs2 : Polys
    cs2 = map (times (ntt c)) k.s2_hat

    abbrev ct0 : Polys
    ct0 = map (times (ntt c)) k.t0_hat

    abbrev made : Signature
    made = offer.finished.made

    form : IsChallenge p.tau c
    form = challenge_lem fuel (commitment_of p k (images k y)) c p.tau le offer.sampled

    low_bounds : All (IsBelow (p.gamma2 - beta p)) (low_rows p (images k y) cs2)
    low_bounds =
        let w = images k y in
        let hw =
          rows-IsPoly p.l o.a_hat (map ntt y) h.matrix.1 (map-ntt-IsPoly y offer.mask_polys.1) in
        let he =
          map-times-IsPoly (ntt c) k.s2_hat (ntt-IsPoly c (IsChallenge-IsPoly p.tau c form))
            signer.s2_polys.1 in
        let size : length (low_rows p w cs2) ≡ p.k = omega (
          arith,
          h.matrix.0,
          signer.s2_polys.0,
          length-map (image (map ntt y)) o.a_hat,
          length-map (times (ntt c)) k.s2_hat,
          length-zip_with (low_row p.gamma2) w cs2,
        ) in
        r0-IsBelow p (low_rows p w cs2) (norm (response k (ntt c) y) p.l) (p.gamma1 - beta p) g size
          (low_rows-IsPoly p w cs2 g hw he) offer.released

    top_bounds : All (IsBelow p.gamma2) ct0
    top_bounds =
        ct0-IsBelow p ct0 (count_ones made.h) g
          (length-map (times (ntt c)) k.t0_hat ∙ signer.t0_polys.0)
          (map-times-IsPoly (ntt c) k.t0_hat (ntt-IsPoly c (IsChallenge-IsPoly p.tau c form))
            signer.t0_polys.1)
          offer.finished.hint_released

    recovers :
        hinted_rows p (ntt c) (map ntt (take p.l made.z)) o.a_hat (highs_of p o) made.h
        ≡ map (map (λ c. high_bits c p.gamma2)) (images k y)
    recovers =
        let f = offer.finished in
        let zl : length made.z ≡ p.l = f.encodable.response.0 in
        let z : take p.l made.z ≡ response k (ntt c) y =
          take_all p.l made.z (omega (arith, zl)) ∙ f.response_of in
        ap₂ (λ z hint. hinted_rows p (ntt c) (map ntt z) o.a_hat (highs_of p o) hint) z f.hint_of
        ∙ rows_recover p c y (s1_hat_of p o) form offer.mask_polys.1 (s1_polys fuel p o he h)
            (offer.mask_polys.0 ∙ sym signer.s1_polys.0) g o.a_hat o.s2 h.matrix.1 h.s2_short.1
            (h.matrix.0 ∙ sym h.s2_short.0) top_bounds low_bounds

    not_reached : reaches (p.gamma1 - beta p) (take p.l made.z) ≡ false
    not_reached =
        let f = offer.finished in
        let zl : length made.z ≡ p.l = f.encodable.response.0 in
        let hz = All-IsRanged-IsPoly p.gamma1 (z_bits p) made.z f.encodable.response.1 in
        let small : p.gamma1 - beta p < 2 ^ 31 = elim st.gamma1_choice [
          | inl e ↦ omega (arith, e)
          | inr e ↦ omega (arith, e)
        ] in
        ap (reaches (p.gamma1 - beta p)) (take_all p.l made.z (omega (arith, zl)))
        ∙ (reaches_iff (p.gamma1 - beta p) made.z small hz).1 f.short

    committed :
        commitment p mu (map (map (λ c. high_bits c p.gamma2)) (images k y)) ≡ ok made.c_tilde
    unfolding commitment
    committed =
        let fits : leb (p.lambda / 4) 64 ≡ true = ground (arith, st.bounded.commitment_size) in
        rw fits (ap ok (sym offer.finished.commitment_is))

    pub offered_accepts : verify_given_mu fuel p (public_of p o) mu sig ≡ ok true
    offered_accepts =
        let f = offer.finished in
        given_mu_accepts fuel p (public_of p o) mu sig o.rho (highs_of p o) made
          (public_key_decodes fuel p o he h).0 f.decodes
          (decoded_accepts fuel p o.rho mu (highs_of p o)
            (map (map (λ c. high_bits c p.gamma2)) (images k y)) made not_reached
            (recovered_lem fuel p o.rho c (highs_of p o)
              (map (map (λ c. high_bits c p.gamma2)) (images k y)) o.a_hat made st.bounded
              h.expanded_to
              (subst (λ t. sample_in_ball fuel t p.tau ≡ ok c) (sym f.commitment_is) offer.sampled)
              recovers)
            committed)
