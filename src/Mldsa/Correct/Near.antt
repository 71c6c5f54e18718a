-- ===== src/Mldsa/Correct/Near.antt =====
-- macula-mldsa/src/internal.rs: the product of the challenge with a short secret.
use macula_pq.Common.{
  ℕ, ◌+◌, ◌*◌, ◌≤◌, ◌<◌, ◌≡◌, ◌∙◌, refl, sym, ap, subst, arith, inl, inr, List, [], ◌∷◌, All,
}
use macula_pq.Mldsa.Field.{q, n, mul, add, sub}
use macula_pq.Mldsa.Ntt.{ntt, ntt_inverse, multiply_add_ntt, zetas}
use macula_pq.Mldsa.Ntt.Range.{IsReduced, IsPoly}
use macula_pq.Mldsa.Ntt.Bounded.{
  IsNear, IsSign, weight, negacyclic-Near, sum_polys-Near, replicate-Near,
}
use macula_pq.Mldsa.Ntt.Product.{negacyclic, sum_polys}
use macula_pq.Mldsa.Ntt.Multiply.{multiply_add_ntt-negacyclic}
use macula_pq.Mldsa.Params.{ParameterSet, beta}
use macula_pq.Mldsa.Sample.Challenge.{IsChallenge}
use macula_pq.Mldsa.Sample.Secret.{Small}
use macula_pq.Mldsa.Sample.Total.{Filled}
use macula_pq.Mldsa.Generate.{zero_poly}
use macula_pq.Mldsa.Generate.Ranges.{zero_poly-IsPoly}
use macula_pq.Mldsa.Sign.{times}

pub ntt-zero : ntt zero_poly ≡ zero_poly
unfolding ntt zetas mul add sub
ntt-zero = refl

sign-lt : (c : ℕ) → IsSign c → c < q
sign-lt c (inl e) = omega (arith, e)
sign-lt c (inr (inl e)) = omega (arith, e)
sign-lt c (inr (inr e)) = omega (arith, e)

signs-IsReduced : (w : List ℕ) → All IsSign w → All IsReduced w
signs-IsReduced [] h = tt
signs-IsReduced (c ∷ w) (hc, h) = (sign-lt c hc, signs-IsReduced w h)

pub IsChallenge-IsPoly : (tau : ℕ) (c : List ℕ) → IsChallenge tau c → IsPoly c
IsChallenge-IsPoly tau c h = (h.size, signs-IsReduced c h.signs)

Small-IsNear : (eta : ℕ) (w : List ℕ) → All (Small eta) w → All (IsNear eta) w
Small-IsNear eta [] h = tt
Small-IsNear eta (c ∷ w) ((_, hc), h) = (hc, Small-IsNear eta w h)

IsNear-IsReduced : (m : ℕ) (w : List ℕ) → All (IsNear m) w → All IsReduced w
IsNear-IsReduced m [] h = tt
IsNear-IsReduced m (c ∷ w) (hc, h) = (hc.0, IsNear-IsReduced m w h)

pub Small-IsPoly : (eta : ℕ) (w : List ℕ) → Filled (Small eta) w → IsPoly w
Small-IsPoly eta w (len, h) = (len, IsNear-IsReduced eta w (Small-IsNear eta w h))

wider : (m k : ℕ) (w : List ℕ) → m ≤ k → All (IsNear m) w → All (IsNear k) w
wider m k [] le h = tt
wider m k (c ∷ w) le (hc, h) = (ground (arith, hc, le), wider m k w le h)

pub times-IsNear :
    (p : ParameterSet) (c s : List ℕ)
    → IsChallenge p.tau c
    → Filled (Small p.eta) s
    → All (IsNear (beta p)) (times (ntt c) (ntt s))
unfolding times
times-IsNear p c s hc hs =
    let product = negacyclic c s in
    let near = negacyclic-Near p.eta c s hc.signs (Small-IsNear p.eta s hs.1) in
    let summed = sum_polys-Near 0 (weight c * p.eta) zero_poly product (replicate-Near 0 n) near in
    let value : ntt_inverse (multiply_add_ntt zero_poly (ntt c) (ntt s))
        ≡ sum_polys zero_poly product =
      ap (λ z. ntt_inverse (multiply_add_ntt z (ntt c) (ntt s))) (sym ntt-zero)
      ∙ multiply_add_ntt-negacyclic zero_poly c s zero_poly-IsPoly (IsChallenge-IsPoly p.tau c hc)
          (Small-IsPoly p.eta s hs) in
    let few : weight c * p.eta ≤ p.tau * p.eta =
      le_times (weight c) p.tau p.eta (omega (arith, hc.count)) in
    subst (All (IsNear (beta p))) (sym value) (
      wider (0 + weight c * p.eta) (beta p) (sum_polys zero_poly product) (omega (arith, few))
        summed)
  where
    le_times : (a b e : ℕ) → a ≤ b → a * e ≤ b * e
    le_times a b e h = grind arith
