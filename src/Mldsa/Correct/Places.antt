-- ===== src/Mldsa/Correct/Places.antt =====
-- macula-mldsa/src/internal.rs: the vectors of all three algorithms at one place of the transforms.
use macula_pq.Common.{
  ℕ, zero, suc, ◌+◌, ◌-◌, ◌*◌, ◌%◌, ◌<◌, ◌≡◌, ◌∙◌, refl, ap, arith, List, [], ◌∷◌, length, zip_with,
  replicate, All, length-zip_with,
}
use macula_pq.Mldsa.Field.{q, n, add, sub, mul}
use macula_pq.Mldsa.Field.Laws.{add-mod, sub-mod, mul-mod}
use macula_pq.Mldsa.Ntt.{at, ntt, multiply_add_ntt}
use macula_pq.Mldsa.Ntt.Range.{IsReduced, IsPoly, at-lt, multiply_add_ntt-IsPoly}
use macula_pq.Mldsa.Ntt.RoundTrip.{ntt-ntt_inverse}
use macula_pq.Mldsa.Ntt.Multiply.{at-multiply_add_ntt}
use macula_pq.Mldsa.Ntt.Linear.{Combines}
use macula_pq.Mldsa.Keys.{Polys}
use macula_pq.Mldsa.Generate.{zero_poly, add_products}
use macula_pq.Mldsa.Generate.Ranges.{zero_poly-IsPoly}
use macula_pq.Mldsa.Sign.{times}

-- The product of a row and a vector at one place of the transforms.
unfoldable pub dot : Polys → Polys → ℕ → ℕ
dot [] v i = 0
dot (a ∷ row) [] i = 0
dot (a ∷ row) (w ∷ v) i = at a i * at w i + dot row v i

pub at-zip_with :
    (f : ℕ → ℕ → ℕ) (w u : List ℕ) (i : ℕ)
    → i < length w
    → i < length u
    → at (zip_with f w u) i ≡ f (at w i) (at u i)
at-zip_with f [] u i h h' = absurd (omega (arith, h))
at-zip_with f (a ∷ w) [] i h h' = absurd (omega (arith, h'))
at-zip_with f (a ∷ w) (b ∷ u) zero h h' = refl
at-zip_with f (a ∷ w) (b ∷ u) (suc i) h h' =
    at-zip_with f w u i (omega (arith, h)) (omega (arith, h'))

zip-All :
    (f : ℕ → ℕ → ℕ) (w u : List ℕ)
    → ((a b : ℕ) → a < q → b < q → f a b < q)
    → All IsReduced w
    → All IsReduced u
    → All IsReduced (zip_with f w u)
zip-All f [] u keep h h' = tt
zip-All f (a ∷ w) [] keep h h' = tt
zip-All f (a ∷ w) (b ∷ u) keep (ha, h) (hb, h') = (keep a b ha hb, zip-All f w u keep h h')

pub zip-IsPoly :
    (f : ℕ → ℕ → ℕ) (w u : List ℕ)
    → ((a b : ℕ) → a < q → b < q → f a b < q)
    → IsPoly w
    → IsPoly u
    → IsPoly (zip_with f w u)
zip-IsPoly f w u keep (l, h) (l', h') =
    (omega (arith, l, l', length-zip_with f w u), zip-All f w u keep h h')

zero_at : (i : ℕ) → at zero_poly i ≡ 0
zero_at i = zeros n i
  where
    zeros : (k i : ℕ) → at (replicate k 0) i ≡ 0
    zeros zero i = refl
    zeros (suc k) zero = refl
    zeros (suc k) (suc i) = zeros k i

at-add_products :
    (acc : List ℕ) (row v : Polys) (i : ℕ)
    → i < n
    → IsPoly acc
    → All IsPoly row
    → All IsPoly v
    → at (add_products acc row v) i % q ≡ (at acc i + dot row v i) % q
unfolding add_products dot
at-add_products acc [] v i hi h hr hv = omega arith
at-add_products acc (a ∷ row) [] i hi h hr hv = omega arith
at-add_products acc (a ∷ row) (w ∷ v) i hi h (ha, hr) (hw, hv) =
    let next = multiply_add_ntt acc a w in
    let x = at a i in
    let y = at w i in
    let m : mul x y ≡ x * y % q = mul-mod x y (at-lt a i ha) (at-lt w i hw) in
    let e = at-multiply_add_ntt acc a w i h.0 hi in
    let e' = add-mod (at acc i) (mul x y) (at-lt acc i h) (omega (arith, m)) in
    let ih = at-add_products next row v i hi (multiply_add_ntt-IsPoly acc a w h ha hw) hr hv in
    omega (arith, m, e, e', ih)

-- From zero on.
pub at-products :
    (row v : Polys) (i : ℕ)
    → i < n
    → All IsPoly row
    → All IsPoly v
    → at (add_products zero_poly row v) i % q ≡ dot row v i % q
at-products row v i hi hr hv =
    let e = at-add_products zero_poly row v i hi zero_poly-IsPoly hr hv in
    omega (arith, e, zero_at i)

pub at-product :
    (c s : List ℕ) (i : ℕ)
    → i < n
    → IsPoly c
    → IsPoly s
    → at (multiply_add_ntt zero_poly c s) i ≡ at c i * at s i % q
at-product c s i hi hc hs =
    let m : mul (at c i) (at s i) ≡ at c i * at s i % q =
      mul-mod (at c i) (at s i) (at-lt c i hc) (at-lt s i hs) in
    let e = at-multiply_add_ntt zero_poly c s i zero_poly-IsPoly.0 hi in
    let e' =
      add-mod (at zero_poly i) (mul (at c i) (at s i)) (at-lt zero_poly i zero_poly-IsPoly)
        (omega (arith, m)) in
    omega (arith, m, e, e', zero_at i)

-- The transform of `NTT^-1(c o s)`.
pub at-ntt-times :
    (c s : List ℕ) (i : ℕ)
    → i < n
    → IsPoly c
    → IsPoly s
    → at (ntt (times c s)) i ≡ at c i * at s i % q
unfolding times
at-ntt-times c s i hi hc hs =
    let p = multiply_add_ntt zero_poly c s in
    ap (λ v. at v i)
      (ntt-ntt_inverse p (multiply_add_ntt-IsPoly zero_poly c s zero_poly-IsPoly hc hs))
    ∙ at-product c s i hi hc hs

pub Combines-add : (w u : List ℕ) → IsPoly w → IsPoly u → Combines 1 (zip_with add w u) w u
Combines-add w u h h' i hi =
    let e = at-zip_with add w u i (omega (arith, hi, h.0)) (omega (arith, hi, h'.0)) in
    let s = add-mod (at w i) (at u i) (at-lt w i h) (at-lt u i h') in omega (arith, e, s)

pub Combines-sub : (w u : List ℕ) → IsPoly w → IsPoly u → Combines (q - 1) (zip_with sub w u) w u
Combines-sub w u h h' i hi =
    let e = at-zip_with sub w u i (omega (arith, hi, h.0)) (omega (arith, hi, h'.0)) in
    let s = sub-mod (at w i) (at u i) (at-lt w i h) (at-lt u i h') in
    let b = at-lt u i h' in omega (arith, e, s, b)
