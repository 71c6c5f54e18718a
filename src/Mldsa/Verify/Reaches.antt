-- ===== src/Mldsa/Verify/Reaches.antt =====
-- The bound check on the response.
use macula_pq.Common.{ℕ, ◌^◌, ◌<◌, ◌≡◌, ◌↔◌, refl, arith, false, List, [], ◌∷◌, All}
use macula_pq.Mldsa.Field.{centered_abs}
use macula_pq.Mldsa.Field.Laws.{centered_abs-min}
use macula_pq.Mldsa.Ntt.Range.{IsReduced, IsPoly}
use macula_pq.Mldsa.Keys.{Polys}
use macula_pq.Mldsa.Verify.{poly_reaches, reaches}
use macula_pq.Mldsa.Sign.Norm.{IsBelow}

poly_reaches_iff :
    (bound : ℕ) (w : List ℕ)
    → bound < 2 ^ 31
    → All IsReduced w
    → (poly_reaches bound w ≡ false) ↔ IsBelow bound w
unfolding poly_reaches
poly_reaches_iff bound [] hb h = ((λ _. tt), λ _. refl)
poly_reaches_iff bound (c ∷ w) hb (hc, h) =
    let (down, up) = poly_reaches_iff bound w hb h in
    let small : centered_abs c < 2 ^ 31 = omega (arith, centered_abs-min c hc) in
    (
      (λ e. (ground (arith, e, small), down (ground (arith, e)))),
      λ b. ground (arith, b.0, up b.1, small),
    )

pub reaches_iff :
    (bound : ℕ) (ws : Polys)
    → bound < 2 ^ 31
    → All IsPoly ws
    → (reaches bound ws ≡ false) ↔ All (IsBelow bound) ws
unfolding reaches
reaches_iff bound [] hb h = ((λ _. tt), λ _. refl)
reaches_iff bound (w ∷ ws) hb ((_, hw), h) =
    let (down, up) = reaches_iff bound ws hb h in
    let (down', up') = poly_reaches_iff bound w hb hw in
    (
      (λ e. (down' (ground (arith, e)), down (ground (arith, e)))),
      λ b. ground (arith, up' b.0, up b.1),
    )
