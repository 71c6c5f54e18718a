-- ===== src/Mldsa/Verify/Reference.antt =====
-- macula-mldsa/src/internal.rs: what verification recovers, as FIPS 204 writes it in the ring.
use macula_pq.Common.{
  ℕ, zero, suc, ◌+◌, ◌-◌, ◌*◌, ◌%◌, ◌^◌, ◌<◌, ◌≡◌, ◌∙◌, refl, sym, ap, ap₂, arith, List, [], ◌∷◌,
  map, length, zip_with, replicate, All,
}
use macula_pq.Mldsa.Field.{q, n, d, sub}
use macula_pq.Mldsa.Field.Laws.{sub-mod}
use macula_pq.Mldsa.Rounding.{use_hint}
use macula_pq.Mldsa.Params.{ParameterSet}
use macula_pq.Mldsa.Ntt.{at, ntt, ntt_inverse, multiply_add_ntt}
use macula_pq.Mldsa.Ntt.Range.{IsReduced, IsPoly, at-lt, sub-lt, ntt-IsPoly, ntt_inverse-IsPoly}
use macula_pq.Mldsa.Ntt.RoundTrip.{eq_of_at, ntt-ntt_inverse, ntt_inverse-ntt}
use macula_pq.Mldsa.Ntt.Linear.{ntt-combine}
use macula_pq.Mldsa.Ntt.Product.{negacyclic, sum_polys, negacyclic-IsPoly, sum_polys-IsPoly}
use macula_pq.Mldsa.Ntt.Multiply.{ntt-product}
use macula_pq.Mldsa.Keys.{Polys}
use macula_pq.Mldsa.Keys.PublicKey.{IsT1}
use macula_pq.Mldsa.Generate.{zero_poly, add_products}
use macula_pq.Mldsa.Generate.Ranges.{zero_poly-IsPoly}
use macula_pq.Mldsa.Verify.{hinted_row, hinted_rows}
use macula_pq.Mldsa.Correct.Places.{at-zip_with, zip-IsPoly, Combines-sub}
use macula_pq.Mldsa.Correct.Split.{shifted, shifted-IsPoly}
use macula_pq.Mldsa.Correct.Near.{ntt-zero}

-- A row of the matrix times a vector, in the ring, added to `acc`.
unfoldable pub row_times : List ℕ → Polys → Polys → List ℕ
row_times acc [] zs = acc
row_times acc (a ∷ row) [] = acc
row_times acc (a ∷ row) (z ∷ zs) = row_times (sum_polys acc (negacyclic a z)) row zs

-- `w'_Approx = A z - c t1 2^d`, one row of it.
unfoldable pub approximate : List ℕ → Polys → Polys → List ℕ → List ℕ
unfolding row_times
approximate c row z t1 =
    zip_with (λ a b. (a + q - b) % q) (row_times zero_poly row z)
      (negacyclic c (map (λ t. t * 2 ^ d) t1))

-- `w'_1 = UseHint(h, w'_Approx)`; `a_hat` holds the transforms of the matrix.
unfoldable pub reference_w1 : ℕ → List ℕ → Polys → List Polys → Polys → Polys → Polys
unfolding approximate
reference_w1 gamma2 c z (row ∷ a_hat) (t1 ∷ ts) (h ∷ hs) =
    zip_with (λ bit r. use_hint bit r gamma2) h (approximate c (map ntt_inverse row) z t1)
    ∷ reference_w1 gamma2 c z a_hat ts hs
reference_w1 gamma2 c z _ _ _ = []

sum_polys-zero :
    (k : ℕ) (w : List ℕ) → length w ≡ k → All IsReduced w → sum_polys (replicate k 0) w ≡ w
unfolding sum_polys
sum_polys-zero zero [] e h = refl
sum_polys-zero zero (c ∷ w) e h = absurd (omega (arith, e))
sum_polys-zero (suc k) [] e h = refl
sum_polys-zero (suc k) (c ∷ w) e (hc, h) =
    ap₂ ◌∷◌ (omega (arith, hc)) (sum_polys-zero k w (omega (arith, e)) h)

row_times-IsPoly :
    (acc : List ℕ) (row z : Polys) → IsPoly acc → All IsPoly z → IsPoly (row_times acc row z)
unfolding row_times
row_times-IsPoly acc [] z h hz = h
row_times-IsPoly acc (a ∷ row) [] h hz = h
row_times-IsPoly acc (a ∷ row) (w ∷ z) h (hw, hz) =
    row_times-IsPoly (sum_polys acc (negacyclic a w)) row z
      (sum_polys-IsPoly acc (negacyclic a w) h.0 (negacyclic-IsPoly a w hw).0) hz

add_products-row_times :
    (acc : List ℕ) (row z : Polys)
    → IsPoly acc
    → All IsPoly row
    → All IsPoly z
    → add_products (ntt acc) row (map ntt z) ≡ ntt (row_times acc (map ntt_inverse row) z)
unfolding add_products row_times
add_products-row_times acc [] z h hr hz = refl
add_products-row_times acc (a ∷ row) [] h hr hz = refl
add_products-row_times acc (a ∷ row) (w ∷ z) h (ha, hr) (hw, hz) =
    let b = ntt_inverse a in
    let next = sum_polys acc (negacyclic b w) in
    let hn = sum_polys-IsPoly acc (negacyclic b w) h.0 (negacyclic-IsPoly b w hw).0 in
    let first : multiply_add_ntt (ntt acc) a (ntt w) ≡ ntt next =
      ap (λ x. multiply_add_ntt (ntt acc) x (ntt w)) (sym (ntt-ntt_inverse a ha))
      ∙ ntt-product acc b w h (ntt_inverse-IsPoly a ha) hw in
    ap (λ x. add_products x row (map ntt z)) first ∙ add_products-row_times next row z hn hr hz

ntt-difference :
    (x y : List ℕ) → IsPoly x → IsPoly y → zip_with sub (ntt x) (ntt y) ≡ ntt (zip_with sub x y)
ntt-difference x y hx hy =
    let hnx = ntt-IsPoly x hx in
    let hny = ntt-IsPoly y hy in
    let d = zip_with sub x y in
    let hd = zip-IsPoly sub x y sub-lt hx hy in
    let hnd = ntt-IsPoly d hd in
    let left = zip-IsPoly sub (ntt x) (ntt y) sub-lt hnx hny in
    eq_of_at (zip_with sub (ntt x) (ntt y)) (ntt d) (left.0 ∙ sym hnd.0) λ i l.
      let hi : i < n = omega (arith, l, left.0) in
      let e =
        at-zip_with sub (ntt x) (ntt y) i (omega (arith, hi, hnx.0)) (omega (arith, hi, hny.0)) in
      let s = sub-mod (at (ntt x) i) (at (ntt y) i) (at-lt (ntt x) i hnx) (at-lt (ntt y) i hny) in
      let combined = ntt-combine (q - 1) d x y hd hx hy (Combines-sub x y hx hy) i hi in
      omega (arith, e, s, combined, at-lt (ntt d) i hnd, at-lt (ntt y) i hny)

differences :
    (x y : List ℕ)
    → All IsReduced x
    → All IsReduced y
    → zip_with sub x y ≡ zip_with (λ a b. (a + q - b) % q) x y
differences [] y hx hy = refl
differences (a ∷ x) [] hx hy = refl
differences (a ∷ x) (b ∷ y) (ha, hx) (hb, hy) = ap₂ ◌∷◌ (sub-mod a b ha hb) (differences x y hx hy)

shifted_lem : (w : List ℕ) → All (λ c. c < 2 ^ 10) w → shifted w ≡ map (λ t. t * 2 ^ d) w
shifted_lem [] h = refl
shifted_lem (c ∷ w) (hc, h) = ap₂ ◌∷◌ (omega (arith, hc)) (shifted_lem w h)

product_lem :
    (c u : List ℕ)
    → IsPoly c
    → IsPoly u
    → multiply_add_ntt zero_poly (ntt c) (ntt u) ≡ ntt (negacyclic c u)
product_lem c u hc hu =
    let p = negacyclic c u in
    let hp = negacyclic-IsPoly c u hu in
    ap (λ z. multiply_add_ntt z (ntt c) (ntt u)) (sym ntt-zero)
    ∙ ntt-product zero_poly c u zero_poly-IsPoly hc hu
    ∙ ap ntt (sum_polys-zero n p hp.0 hp.1)

hinted_row-approximate :
    (p : ParameterSet) (c : List ℕ) (z row : Polys) (t1 h : List ℕ)
    → IsPoly c
    → All IsPoly z
    → All IsPoly row
    → IsT1 t1
    → hinted_row p (ntt c) (map ntt z) row t1 h
      ≡ zip_with (λ bit r. use_hint bit r p.gamma2) h (approximate c (map ntt_inverse row) z t1)
unfolding hinted_row approximate
hinted_row-approximate p c z row t1 h hc hz hr ht =
    let u = shifted t1 in
    let hu = shifted-IsPoly t1 ht in
    let x = row_times zero_poly (map ntt_inverse row) z in
    let hx = row_times-IsPoly zero_poly (map ntt_inverse row) z zero_poly-IsPoly hz in
    let y = negacyclic c u in
    let hy = negacyclic-IsPoly c u hu in
    let products : add_products zero_poly row (map ntt z) ≡ ntt x =
      ap (λ v. add_products v row (map ntt z)) (sym ntt-zero)
      ∙ add_products-row_times zero_poly row z zero_poly-IsPoly hr hz in
    ap (zip_with (λ bit r. use_hint bit r p.gamma2) h) (
      ap₂ (λ a b. ntt_inverse (zip_with sub a b)) products (product_lem c u hc hu)
      ∙ ap ntt_inverse (ntt-difference x y hx hy)
      ∙ ntt_inverse-ntt (zip_with sub x y) (zip-IsPoly sub x y sub-lt hx hy)
      ∙ differences x y hx.1 hy.1
      ∙ ap (λ v. zip_with (λ a b. (a + q - b) % q) x (negacyclic c v)) (shifted_lem t1 ht.1))

pub hinted_rows-reference_w1 :
    (p : ParameterSet) (l : ℕ) (c : List ℕ) (z : Polys) (a_hat : List Polys) (ts hs : Polys)
    → IsPoly c
    → All IsPoly z
    → All (λ row. (length row ≡ l) × All IsPoly row) a_hat
    → All IsT1 ts
    → hinted_rows p (ntt c) (map ntt z) a_hat ts hs ≡ reference_w1 p.gamma2 c z a_hat ts hs
unfolding hinted_rows reference_w1
hinted_rows-reference_w1 p l c z [] ts hs hc hz ha ht = refl
hinted_rows-reference_w1 p l c z (row ∷ a_hat) [] hs hc hz ha ht = refl
hinted_rows-reference_w1 p l c z (row ∷ a_hat) (t ∷ ts) [] hc hz ha ht = refl
hinted_rows-reference_w1 p l c z (row ∷ a_hat) (t ∷ ts) (h ∷ hs) hc hz ((_, hr), ha) (ht, hts) =
    ap₂ ◌∷◌ (hinted_row-approximate p c z row t h hc hz hr ht)
      (hinted_rows-reference_w1 p l c z a_hat ts hs hc hz ha hts)
