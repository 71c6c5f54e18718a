-- ===== src/Mldsa/Field/Congruence.antt =====
-- Congruence modulo q under products, and how a butterfly and its inverse undo each other up to a
-- factor of 2.
use macula_pq.Common.{ℕ, ◌+◌, ◌-◌, ◌*◌, ◌/◌, ◌%◌, ◌<◌, ◌≡◌, refl, ◌∙◌, ap, arith}
use macula_pq.Mldsa.Field.{q, mul, add, sub}
use macula_pq.Mldsa.Field.Laws.{add-mod, sub-mod, mul-mod}

spread : (k r t : ℕ) → k * (r + q * t) ≡ k * r + q * (k * t)
spread k r t = grind arith

divided : (k c : ℕ) → k * c ≡ k * (c % q) + q * (k * (c / q))
divided k c =
    let e : c ≡ c % q + q * (c / q) = omega arith in ap (λ t. k * t) e ∙ spread k (c % q) (c / q)

-- The remainder may be taken of a factor first.
pub mul_congr : (k a b : ℕ) → a % q ≡ b % q → k * a % q ≡ k * b % q
mul_congr k a b h =
    let same : k * (a % q) ≡ k * (b % q) = ap (λ t. k * t) h in
    omega (arith, divided k a, divided k b, same)

-- A product by a root and by its inverse.
pub root_cancels : (z z' b : ℕ) → z * z' % q ≡ 1 → z' * (z * b % q) % q ≡ b % q
root_cancels z z' b unit =
    let reduced = mul_congr z' (z * b % q) (z * b) (omega arith) in
    let turned : z' * (z * b) ≡ b * (z * z') = grind arith in
    let one = mul_congr b (z * z') 1 (omega (arith, unit)) in omega (arith, reduced, turned, one)

module _ (k z z' a b : ℕ) (ha : a < q) (hb : b < q) (hz : z < q) (hz' : z' < q)
    (unit : z * z' % q ≡ 1) (x y : ℕ) (hx : x < q) (hy : y < q) where
  -- The inverse butterfly on k times a butterfly's outcome gives 2k times what that one was given.
  pub inverse_after :
      x ≡ k * add a (mul z b) % q
      → y ≡ k * sub a (mul z b) % q
      → (add x y ≡ 2 * k * a % q) × (mul z' (sub x y) ≡ 2 * k * b % q)
  inverse_after ex ey =
      let p = z * b % q in
      let ep : mul z b ≡ p = mul-mod z b hz hb in
      let es : add a p ≡ (a + p) % q = add-mod a p ha (omega arith) in
      let ed : sub a p ≡ (a + q - p) % q = sub-mod a p ha (omega arith) in
      let x' : x ≡ k * add a p % q = ex ∙ rw ep refl in
      let y' : y ≡ k * sub a p % q = ey ∙ rw ep refl in
      let both = mul_congr k (add a p + sub a p) (2 * a) (omega (arith, es, ed)) in
      let split : k * (add a p + sub a p) ≡ k * add a p + k * sub a p = grind arith in
      let twice_a : k * (2 * a) ≡ 2 * k * a = grind arith in
      let apart = mul_congr k (sub a p + 2 * p) (add a p) (omega (arith, es, ed)) in
      let split' : k * (sub a p + 2 * p) ≡ k * sub a p + 2 * (k * p) = grind arith in
      let d = sub x y in
      let hd : d ≡ (x + q - y) % q = sub-mod x y hx hy in
      let d' : d % q ≡ 2 * (k * p) % q = omega (arith, hd, x', y', apart, split') in
      let turned = mul_congr z' d (2 * (k * p)) d' in
      let cancel = mul_congr (2 * k) (z' * p) b (root_cancels z z' b unit) in
      let order : z' * (2 * (k * p)) ≡ 2 * k * (z' * p) = grind arith in
      (
        omega (arith, add-mod x y hx hy, x', y', both, split, twice_a),
        omega (arith, mul-mod z' d hz' (omega (arith, hd)), turned, cancel, order),
      )

  -- The butterfly on k times an inverse butterfly's outcome, likewise.
  pub forward_after :
      x ≡ k * add a b % q
      → y ≡ k * mul z' (sub a b) % q
      → (add x (mul z y) ≡ 2 * k * a % q) × (sub x (mul z y) ≡ 2 * k * b % q)
  forward_after ex ey =
      let d = sub a b in
      let hd : d ≡ (a + q - b) % q = sub-mod a b ha hb in
      let hs : add a b ≡ (a + b) % q = add-mod a b ha hb in
      let ed : mul z' d ≡ z' * d % q = mul-mod z' d hz' (omega (arith, hd)) in
      let y' : y ≡ k * (z' * d % q) % q = ey ∙ rw ed refl in
      let t = mul z y in
      let et : t ≡ z * y % q = mul-mod z y hz hy in
      let reduced = mul_congr z y (k * (z' * d % q)) (omega (arith, y')) in
      let order : z * (k * (z' * d % q)) ≡ k * (z * (z' * d % q)) = grind arith in
      let unit' : z' * z % q ≡ 1 =
        let c : z' * z ≡ z * z' = grind arith in omega (arith, c, unit) in
      let cancel = mul_congr k (z * (z' * d % q)) d (root_cancels z' z d unit') in
      let t' : t ≡ k * d % q = omega (arith, et, reduced, order, cancel) in
      let both = mul_congr k (add a b + d) (2 * a) (omega (arith, hs, hd)) in
      let split : k * (add a b + d) ≡ k * add a b + k * d = grind arith in
      let twice_a : k * (2 * a) ≡ 2 * k * a = grind arith in
      let apart = mul_congr k (d + 2 * b) (add a b) (omega (arith, hs, hd)) in
      let split' : k * (d + 2 * b) ≡ k * d + k * (2 * b) = grind arith in
      let twice_b : k * (2 * b) ≡ 2 * k * b = grind arith in
      (
        omega (arith, add-mod x t hx (omega (arith, t')), ex, t', both, split, twice_a),
        omega (arith, sub-mod x t hx (omega (arith, t')), ex, t', apart, split', twice_b),
      )
