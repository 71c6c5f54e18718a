-- ===== src/Mldsa/Ntt/Product.antt =====
-- macula-mldsa/src/poly.rs: the product modulo x^256 + 1, and its values.
use macula_pq.Common.{
  ℕ, zero, suc, ◌+◌, ◌-◌, ◌*◌, ◌%◌, ◌^◌, ◌<◌, ◌≡◌, ◌∙◌, refl, sym, ap, ap₂, arith, List, [], ◌∷◌,
  map, length, zip_with, replicate, All, length-map, length-zip_with, length-replicate,
  All-replicate,
}
use native.Mathlib.Nat.{pow-suc, pow-zero}
use macula_pq.Mldsa.Field.{q, n}
use macula_pq.Mldsa.Field.Congruence.{mul_congr}
use macula_pq.Mldsa.Ntt.Range.{IsReduced, IsPoly}
use macula_pq.Mldsa.Ntt.Evaluation.{evaluate}
use macula_pq.Mldsa.Ntt.Points.{point, point-pow-n}

-- The coefficients moved up by one place, `c` in front and the last one dropped.
unfoldable pub shift_in : ℕ → List ℕ → List ℕ
shift_in c [] = []
shift_in c (x ∷ w) = c ∷ shift_in x w

unfoldable pub last_of : ℕ → List ℕ → ℕ
last_of d [] = d
last_of d (x ∷ w) = last_of x w

-- The product by x modulo x^256 + 1: the last coefficient comes back in front, negated.
unfoldable pub times_x : List ℕ → List ℕ
unfolding shift_in last_of
times_x w = shift_in ((q - last_of 0 w) % q) w

unfoldable pub sum_polys : List ℕ → List ℕ → List ℕ
sum_polys = zip_with (λ a b. (a + b) % q)

unfoldable pub scale : ℕ → List ℕ → List ℕ
scale c = map (λ x. c * x % q)

-- The product modulo x^256 + 1, one coefficient of the first factor at a time.
unfoldable pub negacyclic : List ℕ → List ℕ → List ℕ
unfolding times_x sum_polys scale
negacyclic [] w = replicate n 0
negacyclic (c ∷ cs) w = sum_polys (scale c w) (negacyclic cs (times_x w))

shift_in-length : (c : ℕ) (w : List ℕ) → length (shift_in c w) ≡ length w
unfolding shift_in
shift_in-length c [] = refl
shift_in-length c (x ∷ w) = ap suc (shift_in-length x w)

shift_in-All : (c : ℕ) (w : List ℕ) → c < q → All IsReduced w → All IsReduced (shift_in c w)
unfolding shift_in
shift_in-All c [] hc h = tt
shift_in-All c (x ∷ w) hc (hx, h) = (hc, shift_in-All x w hx h)

pub times_x-IsPoly : (w : List ℕ) → IsPoly w → IsPoly (times_x w)
unfolding times_x
times_x-IsPoly w (len, h) =
    let c = (q - last_of 0 w) % q in (shift_in-length c w ∙ len, shift_in-All c w (omega arith) h)

sum-All : (w v : List ℕ) → All IsReduced (zip_with (λ a b. (a + b) % q) w v)
sum-All [] v = tt
sum-All (a ∷ w) [] = tt
sum-All (a ∷ w) (b ∷ v) = (omega arith, sum-All w v)

pub sum_polys-IsPoly : (w v : List ℕ) → length w ≡ n → length v ≡ n → IsPoly (sum_polys w v)
unfolding sum_polys
sum_polys-IsPoly w v hw hv =
    (omega (arith, length-zip_with (λ a b. (a + b) % q) w v, hw, hv), sum-All w v)

pub negacyclic-IsPoly : (cs w : List ℕ) → IsPoly w → IsPoly (negacyclic cs w)
unfolding negacyclic
negacyclic-IsPoly [] w h = (length-replicate {A = ℕ} n 0, All-replicate IsReduced n 0 (omega arith))
negacyclic-IsPoly (c ∷ cs) w h =
    sum_polys-IsPoly (scale c w) (negacyclic cs (times_x w)) (length-map (λ x. c * x % q) w ∙ h.0)
      (negacyclic-IsPoly cs (times_x w) (times_x-IsPoly w h)).0

evaluate-shift_in :
    (r c : ℕ) (w : List ℕ)
    → evaluate (shift_in c w) r + r ^ length w * last_of c w ≡ c + r * evaluate w r
unfolding evaluate shift_in last_of
evaluate-shift_in r c [] = omega (arith, ap (λ p. p * c) (pow-zero r))
evaluate-shift_in r c (x ∷ w) =
    let rest = evaluate (shift_in x w) r in
    let step : c + r * rest + r ^ length w * r * last_of x w
        ≡ c + r * (rest + r ^ length w * last_of x w) =
      regroup rest (r ^ length w) (last_of x w) in
    ap (λ p. c + r * rest + p * last_of x w) (pow-suc r (length w))
    ∙ step
    ∙ ap (λ e. c + r * e) (evaluate-shift_in r x w)
  where
    regroup : (e p l : ℕ) → c + r * e + p * r * l ≡ c + r * (e + p * l)
    regroup e p l = grind arith

last_of-cons : (c x : ℕ) (w : List ℕ) → last_of c (x ∷ w) ≡ last_of 0 (x ∷ w)
unfolding last_of
last_of-cons c x w = refl

last_of-IsPoly : (c : ℕ) (w : List ℕ) → IsPoly w → last_of c w ≡ last_of 0 w
last_of-IsPoly c [] (len, h) = absurd (omega (arith, len))
last_of-IsPoly c (x ∷ w) h = last_of-cons c x w

last_of-lt : (w : List ℕ) (d : ℕ) → d < q → All IsReduced w → last_of d w < q
unfolding last_of
last_of-lt [] d hd h = hd
last_of-lt (x ∷ w) d hd (hx, h) = last_of-lt w x hx h

-- At each point, the product by x is a product by the point.
evaluate-times_x :
    (i : ℕ) (w : List ℕ)
    → i < n
    → IsPoly w
    → evaluate (times_x w) (point i) % q ≡ point i * evaluate w (point i) % q
unfolding times_x
evaluate-times_x i w hi h =
    let r = point i in
    let l = last_of 0 w in
    let c = (q - l) % q in
    let e = evaluate-shift_in r c w in
    let last : r ^ length w * last_of c w ≡ r ^ n * l =
      ap₂ (λ k t. r ^ k * t) h.0 (last_of-IsPoly c w h) in
    let swapped : r ^ n * l ≡ l * r ^ n = grind arith in
    let power = mul_congr l (r ^ n) (q - 1) (omega (arith, point-pow-n i hi)) in
    let negative : l * (q - 1) + l ≡ q * l = omega arith in
    omega (arith, e, last, swapped, power, negative, last_of-lt w 0 (omega arith) h.1)

evaluate-scale : (r c : ℕ) (w : List ℕ) → evaluate (scale c w) r % q ≡ c * evaluate w r % q
unfolding evaluate scale
evaluate-scale r c [] = omega arith
evaluate-scale r c (x ∷ w) =
    let rest = evaluate w r in
    let ih = mul_congr r (evaluate (scale c w) r) (c * rest) (evaluate-scale r c w) in
    let spread : c * (x + r * rest) ≡ c * x + r * (c * rest) = grind arith in
    omega (arith, ih, spread)

pub evaluate-sum_polys :
    (r : ℕ) (w v : List ℕ)
    → length w ≡ length v
    → evaluate (sum_polys w v) r % q ≡ (evaluate w r + evaluate v r) % q
unfolding evaluate sum_polys
evaluate-sum_polys r [] [] e = refl
evaluate-sum_polys r [] (b ∷ v) e = absurd (omega (arith, e))
evaluate-sum_polys r (a ∷ w) [] e = absurd (omega (arith, e))
evaluate-sum_polys r (a ∷ w) (b ∷ v) e =
    let x = evaluate w r in
    let y = evaluate v r in
    let ih =
      mul_congr r (evaluate (sum_polys w v) r) (x + y)
        (evaluate-sum_polys r w v (omega (arith, e))) in
    let spread : r * (x + y) ≡ r * x + r * y = grind arith in omega (arith, ih, spread)

evaluate-zeros : (r k : ℕ) → evaluate (replicate k 0) r ≡ 0
unfolding evaluate
evaluate-zeros r zero = refl
evaluate-zeros r (suc k) = let ih = ap (λ e. r * e) (evaluate-zeros r k) in omega (arith, ih)

nothing : (e x : ℕ) → e ≡ 0 → e % q ≡ 0 * x % q
nothing e x h = omega (arith, h)

evaluate-negacyclic_nil : (r x : ℕ) (w : List ℕ) → evaluate (negacyclic [] w) r % q ≡ 0 * x % q
unfolding negacyclic
evaluate-negacyclic_nil r x w = nothing (evaluate (negacyclic [] w) r) x (evaluate-zeros r n)

pub evaluate-negacyclic :
    (i : ℕ) (cs w : List ℕ)
    → i < n
    → IsPoly w
    → evaluate (negacyclic cs w) (point i) % q ≡ evaluate cs (point i) * evaluate w (point i) % q
unfolding negacyclic evaluate
evaluate-negacyclic i [] w hi h = evaluate-negacyclic_nil (point i) (evaluate w (point i)) w
evaluate-negacyclic i (c ∷ cs) w hi h =
    let r = point i in
    let v = times_x w in
    let hv = times_x-IsPoly w h in
    let rest = evaluate cs r in
    let summed =
      evaluate-sum_polys r (scale c w) (negacyclic cs v)
        (unfold scale in length-map (λ x. c * x % q) w ∙ h.0 ∙ sym (negacyclic-IsPoly cs v hv).0) in
    let ih = evaluate-negacyclic i cs v hi hv in
    let turned = mul_congr rest (evaluate v r) (r * evaluate w r) (evaluate-times_x i w hi h) in
    let spread : (c + r * rest) * evaluate w r ≡ c * evaluate w r + rest * (r * evaluate w r) =
      regroup c r rest (evaluate w r) in
    omega (arith, summed, evaluate-scale r c w, ih, turned, spread)
  where
    regroup : (c r x y : ℕ) → (c + r * x) * y ≡ c * y + x * (r * y)
    regroup c r x y = grind arith
