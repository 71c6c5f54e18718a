-- ===== src/Mldsa/Ntt/Bounded.antt =====
-- macula-mldsa/src/poly.rs: how far from 0 the coefficients of a product are.
use macula_pq.Common.{
  ℕ, zero, suc, ◌+◌, ◌-◌, ◌*◌, ◌%◌, ◌≤◌, ◌<◌, ◌≡◌, ◌⊎◌, subst, arith, inl, inr, List, [], ◌∷◌,
  replicate, All, if◌then◌else◌, ◌==◌,
}
use macula_pq.Mldsa.Field.{q, n}
use macula_pq.Mldsa.Ntt.Product.{shift_in, last_of, times_x, sum_polys, scale, negacyclic}

-- At most `m` from 0 modulo q.
abbrev pub IsNear : ℕ → ℕ → Type 0
IsNear m c = (c < q) × ((c ≤ m) ⊎ (q ≤ c + m))

abbrev pub IsSign : ℕ → Type 0
IsSign c = (c ≡ 0) ⊎ (c ≡ 1) ⊎ (c ≡ q - 1)

-- How many coefficients are not 0.
unfoldable pub weight : List ℕ → ℕ
weight [] = 0
weight (c ∷ w) = (if c == 0 then 0 else 1) + weight w

shift_in-Near :
    (m c : ℕ) (w : List ℕ) → IsNear m c → All (IsNear m) w → All (IsNear m) (shift_in c w)
unfolding shift_in
shift_in-Near m c [] hc h = tt
shift_in-Near m c (x ∷ w) hc (hx, h) = (hc, shift_in-Near m x w hx h)

last_of-Near : (m c : ℕ) (w : List ℕ) → IsNear m c → All (IsNear m) w → IsNear m (last_of c w)
unfolding last_of
last_of-Near m c [] hc h = hc
last_of-Near m c (x ∷ w) hc (hx, h) = last_of-Near m x w hx h

negated : (m c : ℕ) → IsNear m c → IsNear m ((q - c) % q)
negated m c h = ground arith

times_x-Near : (m : ℕ) (w : List ℕ) → All (IsNear m) w → All (IsNear m) (times_x w)
unfolding times_x
times_x-Near m w h =
    shift_in-Near m ((q - last_of 0 w) % q) w
      (negated m (last_of 0 w) (last_of-Near m 0 w (ground arith) h)) h

sum-IsNear : (m k a b : ℕ) → IsNear m a → IsNear k b → IsNear (m + k) ((a + b) % q)
sum-IsNear m k a b h h' = ground arith

pub sum_polys-Near :
    (m k : ℕ) (w v : List ℕ)
    → All (IsNear m) w
    → All (IsNear k) v
    → All (IsNear (m + k)) (sum_polys w v)
unfolding sum_polys
sum_polys-Near m k [] v h h' = tt
sum_polys-Near m k (a ∷ w) [] h h' = tt
sum_polys-Near m k (a ∷ w) (b ∷ v) (ha, h) (hb, h') =
    (sum-IsNear m k a b ha hb, sum_polys-Near m k w v h h')

scale-IsNear :
    (m c x : ℕ) → IsSign c → IsNear m x → IsNear ((if c == 0 then 0 else 1) * m) (c * x % q)
scale-IsNear m c x (inl e) h = rw e (ground arith)
scale-IsNear m c x (inr (inl e)) h = rw e (ground arith)
scale-IsNear m c x (inr (inr e)) h = rw e (ground arith)

scale-Near :
    (m c : ℕ) (w : List ℕ)
    → IsSign c
    → All (IsNear m) w
    → All (IsNear ((if c == 0 then 0 else 1) * m)) (scale c w)
unfolding scale
scale-Near m c [] hc h = tt
scale-Near m c (x ∷ w) hc (hx, h) = (scale-IsNear m c x hc hx, scale-Near m c w hc h)

pub replicate-Near : (m k : ℕ) → All (IsNear m) (replicate k 0)
replicate-Near m zero = tt
replicate-Near m (suc k) = (ground arith, replicate-Near m k)

-- Every coefficient of the product is at most as many times m from 0 as there are coefficients
-- that are not 0.
pub negacyclic-Near :
    (m : ℕ) (cs w : List ℕ)
    → All IsSign cs
    → All (IsNear m) w
    → All (IsNear (weight cs * m)) (negacyclic cs w)
unfolding negacyclic weight
negacyclic-Near m [] w hc h = replicate-Near (0 * m) n
negacyclic-Near m (c ∷ cs) w (hc, hcs) h =
    let one = (if c == 0 then 0 else 1) in
    let rest = negacyclic-Near m cs (times_x w) hcs (times_x-Near m w h) in
    let total : one * m + weight cs * m ≡ (one + weight cs) * m = grind arith in
    subst (λ b. All (IsNear b) (sum_polys (scale c w) (negacyclic cs (times_x w)))) total
      (sum_polys-Near (one * m) (weight cs * m) (scale c w) (negacyclic cs (times_x w))
        (scale-Near m c w hc h) rest)
