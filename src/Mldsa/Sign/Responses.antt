-- ===== src/Mldsa/Sign/Responses.antt =====
-- macula-mldsa/src/internal.rs: the polynomials that an attempt of the signing loop computes.
use macula_pq.Common.{
  ℕ, ◌^◌, ◌≤◌, ◌<◌, ◌≡◌, ◌⊎◌, inl, inr, arith, List, [], ◌∷◌, map, length, All, length-zip_with,
  zip_with,
}
use macula_pq.Mldsa.Field.{q, add, centered_abs}
use macula_pq.Mldsa.Field.Laws.{sub-mod, centered_abs-min}
use macula_pq.Mldsa.Params.{ParameterSet, z_bits}
use macula_pq.Mldsa.Ntt.{ntt_inverse, multiply_add_ntt}
use macula_pq.Mldsa.Ntt.Range.{
  IsReduced, IsPoly, add-lt, ntt_inverse-IsPoly, multiply_add_ntt-IsPoly,
}
use macula_pq.Mldsa.Encode.Range.{IsWithin}
use macula_pq.Mldsa.Keys.{Polys}
use macula_pq.Mldsa.Sample.Total.{IsBounded, IsMatrix}
use macula_pq.Mldsa.Generate.{zero_poly, add_products}
use macula_pq.Mldsa.Generate.Ranges.{zero_poly-IsPoly, add_products-IsPoly}
use macula_pq.Mldsa.Sign.{Signer, times}
use macula_pq.Mldsa.Sign.HintRows.{HasSize}

-- The numbers of a parameter set that signing relies on.
pub record IsSigning (p : ParameterSet) : Type 0 where
  pub gamma1_choice : (p.gamma1 ≡ 2 ^ 17) ⊎ (p.gamma1 ≡ 2 ^ 19)
  pub omega_small : p.omega < 256
  pub bounded : IsBounded p

-- What the loop reads: polynomials, as many as the parameter set says.
pub record IsSigner (p : ParameterSet) (k : Signer) : Type 0 where
  pub s1_polys : (length k.s1_hat ≡ p.l) × All IsPoly k.s1_hat
  pub s2_polys : (length k.s2_hat ≡ p.k) × All IsPoly k.s2_hat
  pub t0_polys : (length k.t0_hat ≡ p.k) × All IsPoly k.t0_hat
  pub matrix : IsMatrix p k.a_hat

pub times-IsPoly : (c s : List ℕ) → IsPoly c → IsPoly s → IsPoly (times c s)
unfolding times
times-IsPoly c s hc hs =
    ntt_inverse-IsPoly (multiply_add_ntt zero_poly c s)
      (multiply_add_ntt-IsPoly zero_poly c s zero_poly-IsPoly hc hs)

pub map-times-IsPoly :
    (c : List ℕ) (ws : Polys) → IsPoly c → All IsPoly ws → All IsPoly (map (times c) ws)
map-times-IsPoly c [] hc h = tt
map-times-IsPoly c (w ∷ ws) hc (hw, h) = (times-IsPoly c w hc hw, map-times-IsPoly c ws hc h)

pub All-IsPoly-HasSize : (ws : Polys) → All IsPoly ws → All HasSize ws
All-IsPoly-HasSize [] h = tt
All-IsPoly-HasSize (w ∷ ws) ((len, _), h) = (len, All-IsPoly-HasSize ws h)

pub small-IsWithin :
    (p : ParameterSet) (c z_bound : ℕ)
    → IsSigning p
    → z_bound ≤ p.gamma1
    → c < q
    → centered_abs c < z_bound
    → IsWithin p.gamma1 (z_bits p) c
small-IsWithin p c z_bound st le hc h = elim st.gamma1_choice [
  | inl e ↦
      let bits : z_bits p ≡ 18 = ground (arith, e) in
      rw bits (hc, omega (arith, sub-mod p.gamma1 c, centered_abs-min c hc, e))
  | inr e ↦
      let bits : z_bits p ≡ 20 = ground (arith, e) in
      rw bits (hc, omega (arith, sub-mod p.gamma1 c, centered_abs-min c hc, e))
]

IsPoly-sum : (v s : List ℕ) → IsPoly v → IsPoly s → IsPoly (zip_with add v s)
IsPoly-sum v s (vl, hv) (sl, hs) = (omega (arith, vl, sl, length-zip_with add v s), sums v s hv hs)
  where
    sums : (v s : List ℕ) → All IsReduced v → All IsReduced s → All IsReduced (zip_with add v s)
    sums [] s hv hs = tt
    sums (c ∷ v) [] hv hs = tt
    sums (c ∷ v) (e ∷ s) (hc, hv) (he, hs) = (add-lt c e hc he, sums v s hv hs)

pub responses :
    (c_hat : List ℕ) (y s : Polys)
    → IsPoly c_hat
    → All IsPoly y
    → All IsPoly s
    → All IsPoly (zip_with (λ v s. zip_with add v (times c_hat s)) y s)
responses c_hat [] s hc hy hs = tt
responses c_hat (v ∷ y) [] hc hy hs = tt
responses c_hat (v ∷ y) (e ∷ s) hc (hv, hy) (he, hs) =
    (IsPoly-sum v (times c_hat e) hv (times-IsPoly c_hat e hc he), responses c_hat y s hc hy hs)

pub rows-IsPoly :
    (l : ℕ) (a_hat : List Polys) (y_hat : Polys)
    → All (λ row. (length row ≡ l) × All IsPoly row) a_hat
    → All IsPoly y_hat
    → All IsPoly (map (λ row. ntt_inverse (add_products zero_poly row y_hat)) a_hat)
rows-IsPoly l [] y_hat ha hy = tt
rows-IsPoly l (row ∷ a_hat) y_hat ((_, hr), ha) hy = (
  ntt_inverse-IsPoly (add_products zero_poly row y_hat)
      (add_products-IsPoly zero_poly row y_hat zero_poly-IsPoly hr hy),
  rows-IsPoly l a_hat y_hat ha hy,
)
