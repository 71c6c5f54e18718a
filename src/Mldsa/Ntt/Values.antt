-- ===== src/Mldsa/Ntt/Values.antt =====
-- macula-mldsa/src/poly.rs: the values of a polynomial that stand in the blocks of each layer.
use macula_pq.Common.{
  ℕ, zero, suc, ◌+◌, ◌-◌, ◌*◌, ◌%◌, ◌^◌, ◌≤◌, ◌<◌, ◌≡◌, ◌∙◌, sym, ap, subst, arith, ◌==◌,
  Bool-cases, inl, inr, List, [], ◌∷◌, All,
}
use macula_pq.Mldsa.Field.{q, n, mul, add, sub}
use macula_pq.Mldsa.Field.Laws.{add-mod, sub-mod, mul-mod}
use macula_pq.Mldsa.Field.Congruence.{mul_congr}
use macula_pq.Mldsa.Ntt.{at, ntt}
use macula_pq.Mldsa.Ntt.Range.{IsPoly, at-lt, root-lt, ntt-IsPoly}
use macula_pq.Mldsa.Ntt.Layers.{Blocks}
use macula_pq.Mldsa.Ntt.Inverse.{
  root, IsLayer, forward_layer, low_of, high_of, forward_layer-Blocks,
}
use macula_pq.Mldsa.Ntt.Roots.{layers, layers-IsLayer}
use macula_pq.Mldsa.Ntt.Points.{point, PointPowers, HasPoints, layers-HasPoints}
use macula_pq.Mldsa.Ntt.RoundTrip.{forward_all, forward_layer-IsPoly, ntt_lem}
use macula_pq.Mldsa.Ntt.Evaluation.{
  evaluate, evaluate_block, evaluate_block-length, evaluate_block-add, evaluate_block_combine,
}

-- In each of the blocks of `len` coefficients, the block's value at its points is the value given.
abbrev BlockValues : (ℕ → ℕ) → ℕ → ℕ → ℕ → List ℕ → Type 0
BlockValues value len zero start v = Unit
BlockValues value len (suc count) start v =
    ((i : ℕ) → start ≤ i → i < start + len → evaluate_block v start len (point i) % q ≡ value i)
    × BlockValues value len count (start + len) v

abbrev double : ℕ → ℕ
double zero = zero
double (suc k) = suc (suc (double k))

-- Splitting a block at a point whose power is known.
split_block :
    (w v : List ℕ) (r z len start start' : ℕ)
    → r ^ len % q ≡ z % q
    → ((t : ℕ)
        → t < len
        → at v (start' + t) % q ≡ (at w (start + t) + z * at w (start + len + t)) % q)
    → evaluate_block v start' len r % q ≡ evaluate_block w start (2 * len) r % q
split_block w v r z len start start' power each =
    let x = evaluate_block w start len r in
    let y = evaluate_block w (start + len) len r in
    let combined = evaluate_block_combine v w w z r len start' start (start + len) each in
    let whole = evaluate_block-add w r len len (2 * len) start (omega arith) in
    let swapped = mul_congr y (r ^ len) z power in
    let left : r ^ len * y ≡ y * r ^ len = grind arith in
    let right : z * y ≡ y * z = grind arith in omega (arith, combined, whole, swapped, left, right)

low_coefficient :
    (z a b c : ℕ) → z < q → a < q → b < q → c ≡ add a (mul z b) → c % q ≡ (a + z * b) % q
low_coefficient z a b c hz ha hb e =
    let p : mul z b ≡ z * b % q = mul-mod z b hz hb in
    omega (arith, e, p, add-mod a (mul z b) ha (omega (arith, p)))

high_coefficient :
    (z a b c : ℕ) → z < q → a < q → b < q → c ≡ sub a (mul z b) → c % q ≡ (a + (q - z) * b) % q
high_coefficient z a b c hz ha hb e =
    let p : mul z b ≡ z * b % q = mul-mod z b hz hb in
    let both : (q - z) * b + z * b ≡ q * b =
      let s : q - z + z ≡ q = omega (arith, hz) in
      let d : (q - z) * b + z * b ≡ (q - z + z) * b = grind arith in d ∙ ap (λ t. t * b) s in
    omega (arith, e, p, sub-mod a (mul z b) ha (omega (arith, p)), both)

module _ (value : ℕ → ℕ) (len layer : ℕ) (w v : List ℕ) (h : IsPoly w) where
  layer_values :
      (count start b : ℕ)
      → Blocks (low_of layer) (high_of layer) len count start b w v
      → PointPowers (root layer) len count start b
      → BlockValues value (2 * len) count start w
      → BlockValues value len (double count) start v
  layer_values zero start b blocks powers before = tt
  layer_values (suc count) start b (low, high, blocks) (power, power', powers) (first, before) =
      let z = root layer b in
      let hz = root-lt (layer - 1 + b + 1) in
      let turn = λ (t : ℕ). let e : start + t + len ≡ start + len + t = omega arith in e in
      let each = λ (t : ℕ) (l : t < len).
        low_coefficient z (at w (start + t)) (at w (start + len + t)) (at v (start + t)) hz
          (at-lt w (start + t) h) (at-lt w (start + len + t) h)
          (low (start + t) (omega arith) (omega (arith, l))
            ∙ ap (λ k. low_of layer b (at w (start + t)) (at w k)) (turn t)) in
      let each' = λ (t : ℕ) (l : t < len).
        high_coefficient z (at w (start + t)) (at w (start + len + t)) (at v (start + len + t)) hz
          (at-lt w (start + t) h) (at-lt w (start + len + t) h)
          (ap (at v) (sym (turn t))
            ∙ high (start + t) (omega arith) (omega (arith, l))
            ∙ ap (λ k. high_of layer b (at w (start + t)) (at w k)) (turn t)) in
      let next : start + 2 * len ≡ start + len + len = omega arith in
      (
        (λ i a c.
            split_block w v (point i) z len start start (omega (arith, power i a c, hz)) each
            ∙ first i a (omega (arith, c))),
        (
          (λ i a c.
              split_block w v (point i) (q - z) len start (start + len)
                (sym (mod_once (point i ^ len)) ∙ ap (λ t. t % q) (power' i a (omega (arith, c))))
                each'
              ∙ first i (omega (arith, a)) (omega (arith, c))),
          subst (λ s. BlockValues value len (double count) s v) next
              (layer_values count (start + 2 * len) (b + 1) blocks powers before),
        ),
      )
    where
      mod_once : (x : ℕ) → x % q % q ≡ x % q
      mod_once x = omega arith

-- The layers halve the blocks from these on down to single coefficients.
abbrev Links : ℕ → ℕ → List (ℕ × ℕ) → Type 0
Links len count [] = (len ≡ 1) × (count ≡ n)
Links len count (layer ∷ ls) =
    (len ≡ 2 * layer.0) × (count ≡ layer.1) × Links layer.0 (double layer.1) ls

forward_all-values :
    (value : ℕ → ℕ) (ls : List (ℕ × ℕ)) (len count : ℕ) (w : List ℕ)
    → All IsLayer ls
    → All HasPoints ls
    → Links len count ls
    → IsPoly w
    → BlockValues value len count 0 w
    → BlockValues value 1 n 0 (forward_all ls w)
forward_all-values value [] len count w oks points (e, e') h before =
    subst (λ l. BlockValues value l n 0 w) e (subst (λ c. BlockValues value len c 0 w) e' before)
forward_all-values value (layer ∷ ls) len count w (ok, oks) (here, points) (e, e', links) h before =
    let w' = forward_layer layer w in
    let start =
      subst (λ l. BlockValues value l layer.1 0 w) e
        (subst (λ c. BlockValues value len c 0 w) e' before) in
    forward_all-values value ls layer.0 (double layer.1) w' oks points links
      (forward_layer-IsPoly layer w h)
      (layer_values value layer.0 layer.1 w w' h layer.1 0 0 (forward_layer-Blocks layer ok w h)
        here start)

single_values :
    (value : ℕ → ℕ) (count start : ℕ) (v : List ℕ)
    → BlockValues value 1 count start v
    → (i : ℕ) → start ≤ i
    → i < start + count
    → at v i % q ≡ value i
unfolding evaluate_block
single_values value zero start v h i a c = absurd (omega (arith, a, c))
single_values value (suc count) start v (first, h) i a c = elim (Bool-cases (i == start)) [
  | inl t ↦
      let e : i ≡ start = ground (arith, t) in
      rw e (omega (arith, first start (omega arith) (omega arith)))
  | inr t ↦ single_values value count (start + 1) v h i (ground (arith, t, a)) (omega (arith, c))
]

-- For i below 256, the i-th coefficient of the transform of a polynomial of 256 coefficients
-- below q is the polynomial's value modulo q at 1753^(2 brv(i) + 1), where brv reverses the eight
-- bits of i.
pub ntt-evaluate : (w : List ℕ) (i : ℕ) → IsPoly w → i < n → at (ntt w) i ≡ evaluate w (point i) % q
ntt-evaluate w i h hi =
    let value = λ (j : ℕ). evaluate w (point j) % q in
    let whole = λ (j : ℕ).
      ap (λ l. evaluate_block w 0 l (point j) % q) (sym h.0)
      ∙ ap (λ x. x % q) (evaluate_block-length w (point j)) in
    let values =
      forward_all-values value layers n 1 w layers-IsLayer layers-HasPoints (omega arith) h
        ((λ j a c. whole j), tt) in
    let hv = ntt-IsPoly w h in
    let reduced : at (ntt w) i % q ≡ value i =
      ap (λ v. at v i % q) (ntt_lem w)
      ∙ single_values value n 0 (forward_all layers w) values i (omega arith) (omega (arith, hi)) in
    omega (arith, reduced, at-lt (ntt w) i hv)
