-- ===== src/Mldsa/Ntt/Multiply.antt =====
-- macula-mldsa/src/poly.rs: `multiply_add_ntt`, and the schoolbook product modulo x^256 + 1.
use macula_pq.Common.{
  ℕ, zero, suc, ◌+◌, ◌*◌, ◌%◌, ◌≤◌, ◌<◌, ◌≡◌, ◌≢◌, ◌∙◌, refl, sym, ap, arith, List, length, set,
  for_range, length-set, get_or-set_self, get_or-set_ne, ◌==◌, Bool-cases, inl, inr,
}
use macula_pq.Mldsa.Field.{q, n, mul, add}
use macula_pq.Mldsa.Field.Laws.{add-mod, mul-mod}
use macula_pq.Mldsa.Field.Congruence.{mul_congr}
use macula_pq.Mldsa.Ntt.{at, ntt, ntt_inverse, multiply_add_ntt}
use macula_pq.Mldsa.Ntt.Range.{IsPoly, at-lt, ntt-IsPoly, multiply_add_ntt-IsPoly}
use macula_pq.Mldsa.Ntt.Evaluation.{evaluate}
use macula_pq.Mldsa.Ntt.Points.{point}
use macula_pq.Mldsa.Ntt.Values.{ntt-evaluate}
use macula_pq.Mldsa.Ntt.RoundTrip.{eq_of_at, ntt_inverse-ntt}
use macula_pq.Mldsa.Ntt.Product.{
  sum_polys, sum_polys-IsPoly, negacyclic, negacyclic-IsPoly, evaluate-negacyclic,
  evaluate-sum_polys,
}

-- A loop that replaces the entries of its range one after the other.
module _ (f : ℕ → ℕ → ℕ) where
  at-for_range :
      (rounds start : ℕ) (w : List ℕ) (i : ℕ)
      → start + rounds ≤ length w
      → (i < start → at (for_range rounds start (λ k v. set v k (f k (at v k))) w) i ≡ at w i)
        × (start ≤ i
            → i < start + rounds
            → at (for_range rounds start (λ k v. set v k (f k (at v k))) w) i ≡ f i (at w i))
  unfolding for_range
  at-for_range zero start w i room = ((λ a. refl), λ a c. absurd (omega (arith, a, c)))
  at-for_range (suc rounds) start w i room =
      let w' = set w start (f start (at w start)) in
      let size : length w' ≡ length w = length-set w start (f start (at w start)) in
      let (before, within) = at-for_range rounds (start + 1) w' i (omega (arith, room, size)) in
      let other = λ (ne : start ≢ i). get_or-set_ne w start i (f start (at w start)) 0 ne in
      (
        (λ a. before (omega (arith, a)) ∙ other (λ e. omega (arith, a, e))),
        λ a c. (elim (Bool-cases (i == start)) [
          | inl t ↦
              let e : start ≡ i = ground (arith, t) in
              before (omega (arith, e))
              ∙ ap (at w') (sym e)
              ∙ get_or-set_self w start (f start (at w start)) 0 (omega (arith, room))
              ∙ ap (λ k. f k (at w k)) e
          | inr t ↦
              within (ground (arith, t, a)) (omega (arith, c))
              ∙ ap (f i) (other (λ e. ground (arith, t, e)))
        ]),
      )

pub at-multiply_add_ntt :
    (acc a b : List ℕ) (i : ℕ)
    → length acc ≡ n
    → i < n
    → at (multiply_add_ntt acc a b) i ≡ add (at acc i) (mul (at a i) (at b i))
unfolding multiply_add_ntt
at-multiply_add_ntt acc a b i len hi =
    (at-for_range (λ k c. add c (mul (at a k) (at b k))) n 0 acc i (omega (arith, len))).1
      (omega arith) (omega (arith, hi))

pub ntt-product :
    (acc a b : List ℕ)
    → IsPoly acc
    → IsPoly a
    → IsPoly b
    → multiply_add_ntt (ntt acc) (ntt a) (ntt b) ≡ ntt (sum_polys acc (negacyclic a b))
ntt-product acc a b h ha hb =
    let hc = ntt-IsPoly acc h in
    let hna = ntt-IsPoly a ha in
    let hnb = ntt-IsPoly b hb in
    let p = negacyclic a b in
    let hp = negacyclic-IsPoly a b hb in
    let s = sum_polys acc p in
    let hs = sum_polys-IsPoly acc p h.0 hp.0 in
    let left = multiply_add_ntt-IsPoly (ntt acc) (ntt a) (ntt b) hc hna hnb in
    eq_of_at (multiply_add_ntt (ntt acc) (ntt a) (ntt b)) (ntt s) (left.0 ∙ sym (ntt-IsPoly s hs).0)
      (λ i l.
        let hi : i < n = omega (arith, l, left.0) in
        let r = point i in
        let x = at (ntt a) i in
        let y = at (ntt b) i in
        let hx = at-lt (ntt a) i hna in
        let hy = at-lt (ntt b) i hnb in
        let m : mul x y ≡ x * y % q = mul-mod x y hx hy in
        let ex = ntt-evaluate a i ha hi in
        let ey = ntt-evaluate b i hb hi in
        let first = mul_congr y x (evaluate a r) (omega (arith, ex)) in
        let second = mul_congr (evaluate a r) y (evaluate b r) (omega (arith, ey)) in
        let swap : x * y ≡ y * x = grind arith in
        let swap' : y * evaluate a r ≡ evaluate a r * y = grind arith in
        at-multiply_add_ntt (ntt acc) (ntt a) (ntt b) i hc.0 hi
        ∙ add-mod (at (ntt acc) i) (mul x y) (at-lt (ntt acc) i hc) (omega (arith, m))
        ∙ omega (
          arith,
          m,
          first,
          second,
          swap,
          swap',
          ntt-evaluate acc i h hi,
          evaluate-sum_polys r acc p (h.0 ∙ sym hp.0),
          evaluate-negacyclic i a b hi hb,
          ntt-evaluate s i hs hi,
        ))

-- For polynomials of 256 coefficients below q, the inverse transform of what `multiply_add_ntt`
-- makes of the transforms of an accumulator and of two factors is the accumulator plus the
-- factors' product modulo x^256 + 1 and modulo q.
pub multiply_add_ntt-negacyclic :
    (acc a b : List ℕ)
    → IsPoly acc
    → IsPoly a
    → IsPoly b
    → ntt_inverse (multiply_add_ntt (ntt acc) (ntt a) (ntt b)) ≡ sum_polys acc (negacyclic a b)
multiply_add_ntt-negacyclic acc a b h ha hb =
    let p = negacyclic a b in
    ap ntt_inverse (ntt-product acc a b h ha hb)
    ∙ ntt_inverse-ntt (sum_polys acc p) (sum_polys-IsPoly acc p h.0 (negacyclic-IsPoly a b hb).0)
