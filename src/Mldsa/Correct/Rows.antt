-- ===== src/Mldsa/Correct/Rows.antt =====
-- macula-mldsa/src/internal.rs: the rows that the hint of a signature recovers.
use macula_pq.Common.{
  ℕ, ◌-◌, ◌^◌, ◌≡◌, ◌∙◌, ap, ap₂, refl, sym, arith, List, [], ◌∷◌, map, length, zip_with, All,
}
use macula_pq.Mldsa.Field.{d, sub, from_signed}
use macula_pq.Mldsa.Rounding.{high_bits, low_bits, use_hint}
use macula_pq.Mldsa.Rounding.Decompose.{IsGamma2}
use macula_pq.Mldsa.Params.{ParameterSet, beta}
use macula_pq.Mldsa.Ntt.{ntt, ntt_inverse}
use macula_pq.Mldsa.Ntt.Range.{IsPoly, ntt-IsPoly, ntt_inverse-IsPoly}
use macula_pq.Mldsa.Sample.Challenge.{IsChallenge}
use macula_pq.Mldsa.Sample.Secret.{Small}
use macula_pq.Mldsa.Sample.Total.{Filled}
use macula_pq.Mldsa.Keys.{Polys}
use macula_pq.Mldsa.Generate.{zero_poly, add_products, split_row}
use macula_pq.Mldsa.Generate.Ranges.{
  zero_poly-IsPoly, add_products-IsPoly, map-ntt-IsPoly, IsRanged-IsPoly, split_row-IsSplit,
}
use macula_pq.Mldsa.Verify.{hinted_row, hinted_rows}
use macula_pq.Mldsa.Sign.{times, hint_row, hint_rows}
use macula_pq.Mldsa.Sign.Norm.{IsBelow}
use macula_pq.Mldsa.Sign.Responses.{times-IsPoly}
use macula_pq.Mldsa.Correct.Row.{responses_of, verified-signed}
use macula_pq.Mldsa.Correct.Hinted.{hints_recover}
use macula_pq.Mldsa.Correct.Split.{shifted, shifted-IsPoly, split_row-sum}
use macula_pq.Mldsa.Correct.Near.{IsChallenge-IsPoly, Small-IsPoly, times-IsNear}

-- `NTT^-1` of a row of the matrix times a vector of transforms.
abbrev pub image : Polys → Polys → List ℕ
image v_hat row = ntt_inverse (add_products zero_poly row v_hat)

-- The low bits of a row, as signing checks them.
abbrev pub low_row : ℕ → List ℕ → List ℕ → List ℕ
low_row gamma2 = zip_with (λ a b. from_signed (low_bits (sub a b) gamma2))

-- What key generation makes of the rows.
abbrev pub split_rows : Polys → List Polys → Polys → List (List ℕ × List ℕ)
split_rows s1_hat = zip_with (λ row e. split_row (image s1_hat row) e)

module _ (p : ParameterSet) (c : List ℕ) (y s1_hat : Polys) (hc : IsChallenge p.tau c)
    (hy : All IsPoly y) (h1 : All IsPoly s1_hat) (same : length y ≡ length s1_hat)
    (g : IsGamma2 p.gamma2) where
  image-IsPoly : (v_hat row : Polys) → All IsPoly row → All IsPoly v_hat → IsPoly (image v_hat row)
  image-IsPoly v_hat row hr hv =
      ntt_inverse-IsPoly (add_products zero_poly row v_hat)
        (add_products-IsPoly zero_poly row v_hat zero_poly-IsPoly hr hv)

  one_row :
      (row : Polys) (s2 : List ℕ)
      → All IsPoly row
      → Filled (Small p.eta) s2
      → let parts = split_row (image s1_hat row) s2 in
        let w = image (map ntt y) row in
        let cs2 = times (ntt c) (ntt s2) in
        let ct0 = times (ntt c) (ntt parts.1) in
        IsBelow p.gamma2 ct0
        → IsBelow (p.gamma2 - beta p) (low_row p.gamma2 w cs2)
        → hinted_row p
            (ntt c)
            (map ntt (responses_of (ntt c) y s1_hat))
            row
            parts.0
            (hint_row p.gamma2 w cs2 ct0)
          ≡ map (λ c. high_bits c p.gamma2) w
  unfolding hinted_row
  one_row row s2 hr h2 below low =
      let t = image s1_hat row in
      let ht = image-IsPoly s1_hat row hr h1 in
      let hs = Small-IsPoly p.eta s2 h2 in
      let parts = split_row t s2 in
      let (high_ok, low_ok) = split_row-IsSplit t s2 ht hs in
      let hl = IsRanged-IsPoly (2 ^ (d - 1)) d parts.1 low_ok in
      let hp = IsChallenge-IsPoly p.tau c hc in
      let hch = ntt-IsPoly c hp in
      let w = image (map ntt y) row in
      let hw = image-IsPoly (map ntt y) row hr (map-ntt-IsPoly y hy) in
      let cs2 = times (ntt c) (ntt s2) in
      let he = times-IsPoly (ntt c) (ntt s2) hch (ntt-IsPoly s2 hs) in
      let ct0 = times (ntt c) (ntt parts.1) in
      let hct = times-IsPoly (ntt c) (ntt parts.1) hch (ntt-IsPoly parts.1 hl) in
      let hint = hint_row p.gamma2 w cs2 ct0 in
      ap (zip_with (λ bit c. use_hint bit c p.gamma2) hint) (
        verified-signed (ntt c) s2 parts.1 (shifted parts.0) row y s1_hat hch hs hl
          (shifted-IsPoly parts.0 high_ok) hr hy h1 same (λ i hi. split_row-sum t s2 i ht hs hi))
      ∙ hints_recover w cs2 ct0 (beta p) p.gamma2 (he.0 ∙ sym hw.0) (hct.0 ∙ sym hw.0) hw.1
          (times-IsNear p c s2 hc h2) hct.1 g below low

  pub rows_recover :
      (a_hat : List Polys) (s2 : Polys)
      → All (λ row. (length row ≡ p.l) × All IsPoly row) a_hat
      → All (Filled (Small p.eta)) s2
      → let rows = split_rows s1_hat a_hat s2 in
        let w = map (image (map ntt y)) a_hat in
        let cs2 = map (times (ntt c)) (map ntt s2) in
        let ct0 = map (times (ntt c)) (map ntt (map (λ r. r.1) rows)) in
        length a_hat ≡ length s2
        → All (IsBelow p.gamma2) ct0
        → All (IsBelow (p.gamma2 - beta p)) (zip_with (low_row p.gamma2) w cs2)
        → hinted_rows p
            (ntt c)
            (map ntt (responses_of (ntt c) y s1_hat))
            a_hat
            (map (λ r. r.0) rows)
            (hint_rows p.gamma2 w cs2 ct0)
          ≡ map (map (λ c. high_bits c p.gamma2)) w
  unfolding hinted_rows hint_rows
  rows_recover [] s2 ha h2 e below low = refl
  rows_recover (row ∷ a_hat) [] ha h2 e below low = absurd (omega (arith, e))
  rows_recover (row ∷ a_hat) (s ∷ s2) ((_, hr), ha) (hs, h2) e (below, belows) (low, lows) =
      ap₂ ◌∷◌ (one_row row s hr hs below low)
        (rows_recover a_hat s2 ha h2 (omega (arith, e)) belows lows)
