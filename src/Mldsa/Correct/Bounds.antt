-- ===== src/Mldsa/Correct/Bounds.antt =====
-- macula-mldsa/src/internal.rs: the tests of the signing loop, of the low bits and of `c t0`.
use macula_pq.Common.{
  ℕ, ◌-◌, ◌^◌, ◌<◌, ◌≡◌, arith, inl, inr, true, List, [], ◌∷◌, length, All, length-zip_with,
  take_all, subst,
}
use macula_pq.Mldsa.Field.{sub, from_signed}
use macula_pq.Mldsa.Rounding.{low_bits}
use macula_pq.Mldsa.Rounding.Decompose.{IsGamma2}
use macula_pq.Mldsa.Rounding.Stable.{low_bits-lt}
use macula_pq.Mldsa.Params.{ParameterSet, beta}
use macula_pq.Mldsa.Ntt.Range.{IsReduced, IsPoly, sub-lt}
use macula_pq.Mldsa.Keys.{Polys}
use macula_pq.Mldsa.Sign.{norm, z_and_r0_releasable, hint_releasable}
use macula_pq.Mldsa.Sign.Norm.{IsBelow, norm-lt, norm_iff}
use macula_pq.Mldsa.Sign.Offer.{low_rows}
use macula_pq.Mldsa.Correct.Rows.{low_row}

low_row-IsPoly :
    (gamma2 : ℕ) (w e : List ℕ)
    → IsGamma2 gamma2
    → IsPoly w
    → IsPoly e
    → IsPoly (low_row gamma2 w e)
low_row-IsPoly gamma2 w e g (wl, hw) (el, he) = (
  omega (arith, wl, el, length-zip_with (λ a b. from_signed (low_bits (sub a b) gamma2)) w e),
  values w e hw he,
)
  where
    values : (w e : List ℕ) → All IsReduced w → All IsReduced e → All IsReduced (low_row gamma2 w e)
    values [] e hw he = tt
    values (a ∷ w) [] hw he = tt
    values (a ∷ w) (b ∷ e) (ha, hw) (hb, he) =
        (low_bits-lt (sub a b) gamma2 (sub-lt a b ha hb) g, values w e hw he)

pub low_rows-IsPoly :
    (p : ParameterSet) (w e : Polys)
    → IsGamma2 p.gamma2
    → All IsPoly w
    → All IsPoly e
    → All IsPoly (low_rows p w e)
low_rows-IsPoly p [] e g hw he = tt
low_rows-IsPoly p (a ∷ w) [] g hw he = tt
low_rows-IsPoly p (a ∷ w) (b ∷ e) g (ha, hw) (hb, he) =
    (low_row-IsPoly p.gamma2 a b g ha hb, low_rows-IsPoly p w e g hw he)

norm-IsBelow :
    (ws : Polys) (count b : ℕ)
    → length ws ≡ count
    → All IsPoly ws
    → norm ws count < b
    → All (IsBelow b) ws
norm-IsBelow ws count b len h small =
    subst (All (IsBelow b)) (take_all count ws (omega (arith, len)))
      ((norm_iff ws count b (omega (arith, small)) h).0 small)

pub r0-IsBelow :
    (p : ParameterSet) (r0 : Polys) (z_norm z_bound : ℕ)
    → IsGamma2 p.gamma2
    → length r0 ≡ p.k
    → All IsPoly r0
    → z_and_r0_releasable z_norm (norm r0 p.k) z_bound p ≡ true
    → All (IsBelow (p.gamma2 - beta p)) r0
unfolding z_and_r0_releasable
r0-IsBelow p r0 z_norm z_bound g len h t =
    let bound : p.gamma2 < 2 ^ 20 = elim g [
      | inl e ↦ omega (arith, e)
      | inr e ↦ omega (arith, e)
    ] in
    let b = p.gamma2 - beta p in
    let hb : b < 2 ^ 20 = omega (arith, bound) in
    norm-IsBelow r0 p.k b len h (ground (arith, t, hb, norm-lt r0 p.k h))

pub ct0-IsBelow :
    (p : ParameterSet) (ct0 : Polys) (ones : ℕ)
    → IsGamma2 p.gamma2
    → length ct0 ≡ p.k
    → All IsPoly ct0
    → hint_releasable (norm ct0 p.k) ones p ≡ true
    → All (IsBelow p.gamma2) ct0
unfolding hint_releasable
ct0-IsBelow p ct0 ones g len h t =
    let bound : p.gamma2 < 2 ^ 20 = elim g [
      | inl e ↦ omega (arith, e)
      | inr e ↦ omega (arith, e)
    ] in
    norm-IsBelow ct0 p.k p.gamma2 len h (ground (arith, t, bound, norm-lt ct0 p.k h))
