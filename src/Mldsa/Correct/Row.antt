-- ===== src/Mldsa/Correct/Row.antt =====
-- macula-mldsa/src/internal.rs: one row of what verification transforms back.
use macula_pq.Common.{
  ℕ, ◌+◌, ◌-◌, ◌*◌, ◌%◌, ◌<◌, ◌≡◌, ◌∙◌, sym, ap, arith, List, [], ◌∷◌, map, length, zip_with, All,
}
use macula_pq.Mldsa.Field.{q, n, add, sub}
use macula_pq.Mldsa.Field.Laws.{sub-mod}
use macula_pq.Mldsa.Field.Congruence.{mul_congr}
use macula_pq.Mldsa.Ntt.{at, ntt, ntt_inverse, multiply_add_ntt}
use macula_pq.Mldsa.Ntt.Range.{
  IsPoly, at-lt, add-lt, sub-lt, ntt-IsPoly, ntt_inverse-IsPoly, multiply_add_ntt-IsPoly,
}
use macula_pq.Mldsa.Ntt.RoundTrip.{eq_of_at, ntt-ntt_inverse, ntt_inverse-ntt}
use macula_pq.Mldsa.Ntt.Linear.{Combines, ntt-combine}
use macula_pq.Mldsa.Keys.{Polys}
use macula_pq.Mldsa.Generate.{zero_poly, add_products}
use macula_pq.Mldsa.Generate.Ranges.{zero_poly-IsPoly, add_products-IsPoly, map-ntt-IsPoly}
use macula_pq.Mldsa.Sign.{times}
use macula_pq.Mldsa.Sign.Responses.{times-IsPoly, responses}
use macula_pq.Mldsa.Correct.Places.{
  dot, at-zip_with, zip-IsPoly, at-products, at-product, at-ntt-times, Combines-add, Combines-sub,
}

-- `z = y + NTT^-1(c o s)`, polynomial by polynomial.
abbrev pub responses_of : List ℕ → Polys → Polys → Polys
responses_of c_hat = zip_with (λ v s. zip_with add v (times c_hat s))

spread : (a y c s : ℕ) → a * (y + c * s) ≡ a * y + c * (a * s)
spread a y c s = grind arith

distribute : (c x y : ℕ) → c * (x + y) ≡ c * x + c * y
distribute c x y = grind arith

-- The values at one place: `v = Az - ct`, with `Az = Ay + cs`, `ct + cl = cs + ce`, and
-- `r + ce = Ay + cl`.
same_value :
    (v az m ct ay cs cl ce r : ℕ)
    → v ≡ (az + q - m) % q
    → m ≡ ct % q
    → az < q
    → r < q
    → az % q ≡ (ay + cs) % q
    → (ct + cl) % q ≡ (cs + ce) % q
    → (r + ce) % q ≡ (ay + cl) % q
    → v ≡ r
same_value v az m ct ay cs cl ce r ev em ha hr ez ek er = omega arith

dot-responses :
    (c_hat : List ℕ) (row ys ss : Polys) (i : ℕ)
    → i < n
    → IsPoly c_hat
    → All IsPoly ys
    → All IsPoly ss
    → length ys ≡ length ss
    → dot row (map ntt (responses_of c_hat ys ss)) i % q
      ≡ (dot row (map ntt ys) i + at c_hat i * dot row ss i) % q
unfolding dot
dot-responses c_hat [] ys ss i hi hc hy hs e = omega arith
dot-responses c_hat (a ∷ row) [] [] i hi hc hy hs e = omega arith
dot-responses c_hat (a ∷ row) [] (s ∷ ss) i hi hc hy hs e = absurd (omega (arith, e))
dot-responses c_hat (a ∷ row) (y ∷ ys) [] i hi hc hy hs e = absurd (omega (arith, e))
dot-responses c_hat (a ∷ row) (y ∷ ys) (s ∷ ss) i hi hc (hy, hys) (hs, hss) e =
    let t = times c_hat s in
    let ht = times-IsPoly c_hat s hc hs in
    let z = zip_with add y t in
    let combined =
      ntt-combine 1 z y t (zip-IsPoly add y t add-lt hy ht) hy ht (Combines-add y t hy ht) i hi in
    let inner : at (ntt z) i % q ≡ (at (ntt y) i + at c_hat i * at s i) % q =
      omega (arith, combined, at-ntt-times c_hat s i hi hc hs) in
    let first = mul_congr (at a i) (at (ntt z) i) (at (ntt y) i + at c_hat i * at s i) inner in
    let ih = dot-responses c_hat row ys ss i hi hc hys hss (omega (arith, e)) in
    let split = spread (at a i) (at (ntt y) i) (at c_hat i) (at s i) in
    let split' : at c_hat i * (at a i * at s i + dot row ss i)
        ≡ at c_hat i * (at a i * at s i) + at c_hat i * dot row ss i =
      distribute (at c_hat i) (at a i * at s i) (dot row ss i) in
    omega (arith, first, ih, split, split')

-- What signing made of a row: `w`, `c s2` and `c t0`; what key generation made of it: `t1` and
-- `t0`, of which `high` is `t1 2^d`.
module _ (c_hat s2 low high : List ℕ) (row ys s1_hat : Polys) (hc : IsPoly c_hat) (h2 : IsPoly s2)
    (hl : IsPoly low) (hh : IsPoly high) (hr : All IsPoly row) (hy : All IsPoly ys)
    (h1 : All IsPoly s1_hat) (same : length ys ≡ length s1_hat) where
  abbrev t_of : List ℕ
  t_of = ntt_inverse (add_products zero_poly row s1_hat)

  abbrev w_of : List ℕ
  w_of = ntt_inverse (add_products zero_poly row (map ntt ys))

  -- `w - c s2 + c t0`, as signing computes it.
  abbrev pub signed_row : List ℕ
  signed_row = zip_with add (zip_with sub w_of (times c_hat (ntt s2))) (times c_hat (ntt low))

  -- What verification transforms back.
  abbrev pub verified_row : List ℕ
  verified_row =
      zip_with sub (add_products zero_poly row (map ntt (responses_of c_hat ys s1_hat)))
        (multiply_add_ntt zero_poly c_hat (ntt high))

  products : IsPoly (add_products zero_poly row (map ntt ys))
  products =
      add_products-IsPoly zero_poly row (map ntt ys) zero_poly-IsPoly hr (map-ntt-IsPoly ys hy)

  at-ntt-signed_row :
      (i : ℕ)
      → i < n
      → (at (ntt signed_row) i + at c_hat i * at (ntt s2) i) % q
        ≡ (dot row (map ntt ys) i + at c_hat i * at (ntt low) i) % q
  at-ntt-signed_row i hi =
      let w = w_of in
      let hw = ntt_inverse-IsPoly (add_products zero_poly row (map ntt ys)) products in
      let e = times c_hat (ntt s2) in
      let he = times-IsPoly c_hat (ntt s2) hc (ntt-IsPoly s2 h2) in
      let t = times c_hat (ntt low) in
      let ht = times-IsPoly c_hat (ntt low) hc (ntt-IsPoly low hl) in
      let d = zip_with sub w e in
      let hd = zip-IsPoly sub w e sub-lt hw he in
      let outer =
        ntt-combine 1 signed_row d t (zip-IsPoly add d t add-lt hd ht) hd ht
          (Combines-add d t hd ht) i hi in
      let inner = ntt-combine (q - 1) d w e hd hw he (Combines-sub w e hw he) i hi in
      let there : at (ntt w) i ≡ at (add_products zero_poly row (map ntt ys)) i =
        ap (λ v. at v i) (ntt-ntt_inverse (add_products zero_poly row (map ntt ys)) products) in
      let ys' = at-products row (map ntt ys) i hi hr (map-ntt-IsPoly ys hy) in
      omega (
        arith,
        outer,
        inner,
        there,
        ys',
        at-ntt-times c_hat (ntt s2) i hi hc (ntt-IsPoly s2 h2),
        at-ntt-times c_hat (ntt low) i hi hc (ntt-IsPoly low hl),
      )

  module _ (key : (i : ℕ) → i < n → (at high i + at low i) % q ≡ (at t_of i + at s2 i) % q) where
    at-ntt-high :
        (i : ℕ)
        → i < n
        → (at (ntt high) i + at (ntt low) i) % q ≡ (dot row s1_hat i + at (ntt s2) i) % q
    at-ntt-high i hi =
        let p = add_products zero_poly row s1_hat in
        let hp = add_products-IsPoly zero_poly row s1_hat zero_poly-IsPoly hr h1 in
        let t = t_of in
        let ht = ntt_inverse-IsPoly p hp in
        let s = zip_with add t s2 in
        let hs = zip-IsPoly add t s2 add-lt ht h2 in
        let made = Combines-add t s2 ht h2 in
        let other : Combines 1 s high low =
          λ j hj. let m = made j hj in let k = key j hj in omega (arith, m, k) in
        let one = ntt-combine 1 s t s2 hs ht h2 made i hi in
        let two = ntt-combine 1 s high low hs hh hl other i hi in
        let there : at (ntt t) i ≡ at p i = ap (λ v. at v i) (ntt-ntt_inverse p hp) in
        omega (arith, one, two, there, at-products row s1_hat i hi hr h1)

    verified_row-IsPoly : IsPoly verified_row
    verified_row-IsPoly =
        zip-IsPoly sub (add_products zero_poly row (map ntt (responses_of c_hat ys s1_hat)))
          (multiply_add_ntt zero_poly c_hat (ntt high)) sub-lt
          (add_products-IsPoly zero_poly row (map ntt (responses_of c_hat ys s1_hat))
            zero_poly-IsPoly hr
            (map-ntt-IsPoly (responses_of c_hat ys s1_hat) (responses c_hat ys s1_hat hc hy h1)))
          (multiply_add_ntt-IsPoly zero_poly c_hat (ntt high) zero_poly-IsPoly hc
            (ntt-IsPoly high hh))

    signed_row-IsPoly : IsPoly signed_row
    signed_row-IsPoly =
        let hw = ntt_inverse-IsPoly (add_products zero_poly row (map ntt ys)) products in
        zip-IsPoly add (zip_with sub w_of (times c_hat (ntt s2))) (times c_hat (ntt low)) add-lt
          (zip-IsPoly sub w_of (times c_hat (ntt s2)) sub-lt hw
            (times-IsPoly c_hat (ntt s2) hc (ntt-IsPoly s2 h2)))
          (times-IsPoly c_hat (ntt low) hc (ntt-IsPoly low hl))

    -- What verification transforms back is the transform of what signing had.
    pub verified-signed : ntt_inverse verified_row ≡ signed_row
    verified-signed =
        let z_hat = map ntt (responses_of c_hat ys s1_hat) in
        let hz =
          map-ntt-IsPoly (responses_of c_hat ys s1_hat) (responses c_hat ys s1_hat hc hy h1) in
        let p = add_products zero_poly row z_hat in
        let hp = add_products-IsPoly zero_poly row z_hat zero_poly-IsPoly hr hz in
        let m = multiply_add_ntt zero_poly c_hat (ntt high) in
        let hm =
          multiply_add_ntt-IsPoly zero_poly c_hat (ntt high) zero_poly-IsPoly hc
            (ntt-IsPoly high hh) in
        let hns = ntt-IsPoly signed_row signed_row-IsPoly in
        let same_places : verified_row ≡ ntt signed_row =
          eq_of_at verified_row (ntt signed_row) (verified_row-IsPoly.0 ∙ sym hns.0) λ i l.
            let hi : i < n = omega (arith, l, verified_row-IsPoly.0) in
            let c = at c_hat i in
            let e = at-zip_with sub p m i (omega (arith, hi, hp.0)) (omega (arith, hi, hm.0)) in
            let s = sub-mod (at p i) (at m i) (at-lt p i hp) (at-lt m i hm) in
            let em = at-product c_hat (ntt high) i hi hc (ntt-IsPoly high hh) in
            let ep = at-products row z_hat i hi hr hz in
            let ez = dot-responses c_hat row ys s1_hat i hi hc hy h1 same in
            let scaled =
              mul_congr c (at (ntt high) i + at (ntt low) i) (dot row s1_hat i + at (ntt s2) i)
                (at-ntt-high i hi) in
            let left = distribute c (at (ntt high) i) (at (ntt low) i) in
            let right = distribute c (dot row s1_hat i) (at (ntt s2) i) in
            same_value (at verified_row i) (at p i) (at m i) (c * at (ntt high) i)
              (dot row (map ntt ys) i) (c * dot row s1_hat i) (c * at (ntt low) i)
              (c * at (ntt s2) i) (at (ntt signed_row) i) (e ∙ s) em (at-lt p i hp)
              (at-lt (ntt signed_row) i hns) (omega (arith, ep, ez))
              (omega (arith, scaled, left, right)) (at-ntt-signed_row i hi) in
        ap ntt_inverse same_places ∙ ntt_inverse-ntt signed_row signed_row-IsPoly
