-- ===== src/Mldsa/Sign/Attempt.antt =====
-- macula-mldsa/src/internal.rs: one attempt of the signing loop.
use macula_pq.Common.{
  ℕ, ◌/◌, ◌≤◌, ◌<◌, ◌≡◌, inl, inr, ◌∙◌, subst, sym, arith, Bool-cases, leb, true, false, refl,
  Option, none, some, List, [], ◌∷◌, map, length, All, take, length-map, length-zip_with, zip_with,
  take_all,
}
use macula_pq.Common.Outcome.{ok, assert, ◌>>=◌, ◌>>◌}
use macula_pq.Common.Yields.{Yields, Yields->>=, Yields->>=-eq, Yields-weaken}
use macula_pq.Keccak.Sponge.Streams.{finalize_xof-IsBytes}
use macula_pq.Mldsa.Field.{add}
use macula_pq.Mldsa.Params.{ParameterSet, z_bits}
use macula_pq.Mldsa.Ntt.{ntt, ntt_inverse}
use macula_pq.Mldsa.Ntt.Range.{IsReduced, IsPoly, ntt-IsPoly}
use macula_pq.Mldsa.Encode.Range.{IsWithin}
use macula_pq.Mldsa.Encode.Total.{IsRanged}
use macula_pq.Mldsa.Encode.{Fallible}
use macula_pq.Mldsa.Keys.{Polys, Signature, sig_encode}
use macula_pq.Mldsa.Keys.Signatures.{IsStandard, IsSignature, sig_decode-sig_encode}
use macula_pq.Mldsa.Sample.{k_max, l_max, expand_mask, sample_in_ball}
use macula_pq.Mldsa.Sample.Total.{IsMask, sample_in_ball-Yields, expand_mask-Yields}
use macula_pq.Mldsa.Generate.{zero_poly, add_products}
use macula_pq.Mldsa.Generate.Ranges.{All-IsRanged-IsPoly, map-ntt-IsPoly}
use macula_pq.Mldsa.Sign.{
  Signer, times, norm, hint_rows, count_ones, z_and_r0_releasable, hint_releasable, finish_attempt,
  attempt,
}
use macula_pq.Mldsa.Sign.Norm.{IsBelow, norm-lt, norm_iff}
use macula_pq.Mldsa.Sign.HintRows.{HasSize, hint_rows-IsHintPoly, count_ones_lem}
use macula_pq.Mldsa.Sign.Responses.{
  IsSigning, IsSigner, map-times-IsPoly, All-IsPoly-HasSize, small-IsWithin, responses, rows-IsPoly,
}
use macula_pq.Mldsa.Sign.Offer.{
  IsReleased, IfSome, images, response, low_rows, commitment_of, IsFinished, IsOffered,
}

-- What follows the sampling of the mask `y`, of which `v` is in use.
abbrev with_mask : ℕ → ParameterSet → Signer → ℕ → Polys → Polys → Fallible (Option (List ℕ))
with_mask fuel p k z_bound y v = do
  assert (leb p.k k_max)
  assert (leb (p.lambda / 4) 64)
  c ← sample_in_ball fuel (commitment_of p k (images k v)) p.tau
  assert (leb p.l l_max)
  elim (z_and_r0_releasable (norm (response k (ntt c) y) p.l)
      (norm (low_rows p (images k v) (map (times (ntt c)) k.s2_hat)) p.k) z_bound p) [
        | true ↦
            finish_attempt p k (commitment_of p k (images k v)) (ntt c) (response k (ntt c) y)
              (images k v) (map (times (ntt c)) k.s2_hat)
        | false ↦ ok none
      ]

module _ (p : ParameterSet) (st : IsSigning p) (z_bound : ℕ) (le : z_bound ≤ p.gamma1) where
  standard : IsStandard p
  standard = record {
    gamma1_small = (elim st.gamma1_choice [ inl e ↦ omega (arith, e) | inr e ↦ omega (arith, e) ]);
    omega_small = st.omega_small;
  }

  poly-IsWithin :
      (w : List ℕ) → All IsReduced w → IsBelow z_bound w → All (IsWithin p.gamma1 (z_bits p)) w
  poly-IsWithin [] h b = tt
  poly-IsWithin (c ∷ w) (hc, h) (bc, b) =
      (small-IsWithin p c z_bound st le hc bc, poly-IsWithin w h b)

  polys_within :
      (ws : Polys)
      → All IsPoly ws
      → All (IsBelow z_bound) ws
      → All (IsRanged p.gamma1 (z_bits p)) ws
  polys_within [] h b = tt
  polys_within (w ∷ ws) ((len, hw), h) (bw, b) = ((len, poly-IsWithin w hw bw), polys_within ws h b)

  finished_lem :
      (k : Signer) (c_tilde c_hat bytes : List ℕ) (z w cs2 h : Polys)
      → sig_encode c_tilde z h p ≡ ok bytes
      → IsFinished p k z_bound c_tilde c_hat z w cs2 bytes
      → Yields
          (IfSome (IsFinished p k z_bound c_tilde c_hat z w cs2))
          (do sig ← sig_encode c_tilde z h p; ok (some sig))
  finished_lem k c_tilde c_hat bytes z w cs2 h e r = rw e r

  module _ (k : Signer) (signer : IsSigner p k) where
    finish_attempt-Yields :
        (c_tilde c_hat : List ℕ) (z w cs2 : Polys)
        → length c_tilde ≡ p.lambda / 4
        → IsPoly c_hat
        → (length z ≡ p.l) × All IsPoly z
        → All (IsBelow z_bound) z
        → (length w ≡ p.k) × All HasSize w
        → (length cs2 ≡ p.k) × All HasSize cs2
        → Yields
            (IfSome (IsFinished p k z_bound c_tilde c_hat z w cs2))
            (finish_attempt p k c_tilde c_hat z w cs2)
    unfolding finish_attempt
    finish_attempt-Yields c_tilde c_hat z w cs2 hc hch (zl, hz) below (wl, hw) (el, he) =
        let ct0 = map (times c_hat) k.t0_hat in
        let hint = hint_rows p.gamma2 w cs2 ct0 in
        let ones = count_ones hint in
        let ct0_size : length ct0 ≡ p.k = length-map (times c_hat) k.t0_hat ∙ signer.t0_polys.0 in
        let (hl, hb) =
          hint_rows-IsHintPoly p.gamma2 w cs2 ct0 (omega (arith, el, wl))
            (omega (arith, ct0_size, wl)) hw he
            (All-IsPoly-HasSize ct0 (map-times-IsPoly c_hat k.t0_hat hch signer.t0_polys.1)) in
        let counted = count_ones_lem hint hb in
        let s : Signature = record { c_tilde = c_tilde; z = z; h = hint } in
        elim (Bool-cases (hint_releasable (norm ct0 p.k) ones p)) [
          | inr t ↦ rw (Yields, t) tt
          | inl t ↦
              let few : ones ≤ p.omega = unfold hint_releasable in ground (arith, t) in
              let sized : IsSignature p s = record {
                commitment_size = hc;
                response = (zl, polys_within z hz below);
                hint = record { bits = hb; size = hl ∙ wl; few = omega (arith, few, counted) };
              } in
              let (bytes, e, len, back) = sig_decode-sig_encode s p standard sized in
              rw (Yields, t)
                (finished_lem k c_tilde c_hat bytes z w cs2 hint e (record {
                  made = s;
                  hint_of = refl;
                  response_of = refl;
                  commitment_is = refl;
                  size = len;
                  decodes = back;
                  encodable = sized;
                  short = below;
                  hint_released = t;
                }))
        ]

    finished_offer :
        (fuel : ℕ) (y : Polys) (c : List ℕ)
        → (length y ≡ p.l) × All IsPoly y
        → sample_in_ball fuel (commitment_of p k (images k y)) p.tau ≡ ok c
        → z_and_r0_releasable
            (norm (response k (ntt c) y) p.l)
            (norm (low_rows p (images k y) (map (times (ntt c)) k.s2_hat)) p.k)
            z_bound
            p
          ≡ true
        → (o : Option (List ℕ))
        → IfSome
            (IsFinished p k z_bound
              (commitment_of p k (images k y))
              (ntt c)
              (response k (ntt c) y)
              (images k y)
              (map (times (ntt c)) k.s2_hat))
            o
        → IfSome (IsOffered fuel p k z_bound) o
    finished_offer fuel y c hy e t none h = tt
    finished_offer fuel y c hy e t (some sig) h = record {
      mask = y;
      challenge = c;
      mask_polys = hy;
      sampled = e;
      released = t;
      finished = h;
    }

    pub attempt-Offered :
        (fuel kappa : ℕ)
        → Yields (IfSome (IsOffered fuel p k z_bound)) (attempt fuel p k z_bound kappa)
    unfolding attempt
    attempt-Offered fuel kappa =
        Yields->>= (IsMask p) (IfSome (IsOffered fuel p k z_bound)) (expand_mask k.rho_pp kappa p) _
          (expand_mask-Yields k.rho_pp kappa p st.bounded standard.gamma1_small)
          λ y mask.
            let hy = All-IsRanged-IsPoly p.gamma1 (z_bits p) y mask.1 in
            let whole : take p.l y ≡ y = take_all p.l y (omega (arith, mask.0)) in
            subst
              (λ v. Yields (IfSome (IsOffered fuel p k z_bound)) (with_mask fuel p k z_bound y v))
              (sym whole) (rest fuel y (mask.0, hy))
      where
        rest :
            (fuel : ℕ) (y : Polys)
            → (length y ≡ p.l) × All IsPoly y
            → Yields (IfSome (IsOffered fuel p k z_bound)) (with_mask fuel p k z_bound y y)
        rest fuel y (yl, hy) =
            let rows : leb p.k k_max ≡ true = ground (arith, st.bounded.rows) in
            let columns : leb p.l l_max ≡ true = ground (arith, st.bounded.columns) in
            let fits : leb (p.lambda / 4) 64 ≡ true = ground (arith, st.bounded.commitment_size) in
            let w = images k y in
            let hw = rows-IsPoly p.l k.a_hat (map ntt y) signer.matrix.1 (map-ntt-IsPoly y hy) in
            let wl =
              length-map (λ row. ntt_inverse (add_products zero_poly row (map ntt y))) k.a_hat in
            let c_tilde = commitment_of p k w in
            let size : length c_tilde ≡ p.lambda / 4 = (finalize_xof-IsBytes _ (p.lambda / 4)).0 in
            rw (Yields, rows, fits)
              (Yields->>=-eq IsPoly (IfSome (IsOffered fuel p k z_bound))
                (sample_in_ball fuel c_tilde p.tau) _ (sample_in_ball-Yields fuel c_tilde p.tau)
                λ c e hc.
                  let c_hat = ntt c in
                  let hch = ntt-IsPoly c hc in
                  let z = response k c_hat y in
                  let hz = responses c_hat y k.s1_hat hch hy signer.s1_polys.1 in
                  let cs2 = map (times c_hat) k.s2_hat in
                  let r0 = low_rows p w cs2 in
                  let zl : length z ≡ p.l = omega (
                    arith,
                    yl,
                    signer.s1_polys.0,
                    length-zip_with (λ v s. zip_with add v (times c_hat s)) y k.s1_hat,
                  ) in
                  elim (Bool-cases (z_and_r0_releasable (norm z p.l) (norm r0 p.k) z_bound p)) [
                    | inr t ↦ rw (Yields, columns, t) tt
                    | inl t ↦
                        let small : norm z p.l < z_bound =
                          unfold z_and_r0_releasable in
                          ground (arith, t, norm-lt z p.l hz, standard.gamma1_small) in
                        let below = (norm_iff z p.l z_bound (omega arith) hz).0 small in
                        let all : take p.l z ≡ z = take_all p.l z (omega (arith, zl)) in
                        rw (Yields, columns, t)
                          (Yields-weaken (IfSome (IsFinished p k z_bound c_tilde c_hat z w cs2))
                            (IfSome (IsOffered fuel p k z_bound))
                            (finish_attempt p k c_tilde c_hat z w cs2)
                            (finished_offer fuel y c (yl, hy) e t)
                            (finish_attempt-Yields c_tilde c_hat z w cs2 size hch (zl, hz)
                              (rw all at below) (wl ∙ signer.matrix.0, All-IsPoly-HasSize w hw)
                              (
                                length-map (times c_hat) k.s2_hat ∙ signer.s2_polys.0,
                                All-IsPoly-HasSize cs2
                                    (map-times-IsPoly c_hat k.s2_hat hch signer.s2_polys.1),
                              )))
                  ])

    pub attempt-Yields :
        (fuel kappa : ℕ) → Yields (IfSome (IsReleased p z_bound)) (attempt fuel p k z_bound kappa)
    attempt-Yields fuel kappa =
        Yields-weaken (IfSome (IsOffered fuel p k z_bound)) (IfSome (IsReleased p z_bound))
          (attempt fuel p k z_bound kappa) (plain fuel) (attempt-Offered fuel kappa)
      where
        plain :
            (fuel : ℕ) (o : Option (List ℕ))
            → IfSome (IsOffered fuel p k z_bound) o
            → IfSome (IsReleased p z_bound) o
        plain fuel none h = tt
        plain fuel (some sig) h =
            let f = h.finished in (f.made, f.size, f.decodes, f.encodable, f.short)
