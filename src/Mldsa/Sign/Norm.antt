-- ===== src/Mldsa/Sign/Norm.antt =====
-- The branch-free norm of the signing loop is the largest distance to 0 modulo q.
use macula_pq.Common.{
  ℕ, ◌-◌, ◌^◌, ◌≤◌, ◌<◌, ◌≡◌, ◌↔◌, arith, bit_and, bit_xor, ltb, if◌then◌else◌, Bool-cases, inl,
  inr, List, [], ◌∷◌, foldl, All, take, All-take,
}
use macula_pq.Common.Bits.{bit_and_mask, bit_and-zero, bit_xor-zero, bit_xor-lt, bit_xor_twice}
use macula_pq.Common.Word.{sub32, asr32}
use macula_pq.Mldsa.Field.{q, centered_abs}
use macula_pq.Mldsa.Field.Laws.{centered_abs-min}
use macula_pq.Mldsa.Ntt.Range.{IsReduced, IsPoly}
use macula_pq.Mldsa.Keys.{Polys}
use macula_pq.Mldsa.Sign.{larger, norm}

larger-max :
    (max c : ℕ)
    → max < 2 ^ 31
    → c < q
    → larger max c ≡ (if ltb max (centered_abs c) then centered_abs c else max)
unfolding larger
larger-max max c hm hc =
    let a = centered_abs c in
    let ha : a < 2 ^ 31 = omega (arith, centered_abs-min c hc) in
    let x = bit_xor max a in
    let hx : x < 2 ^ 32 = bit_xor-lt 32 max a (omega arith) (omega arith) in
    elim (Bool-cases (ltb max a)) [
      | inl t ↦
          let lt : max < a = ground arith in
          let ones : asr32 (sub32 max a) 31 ≡ 2 ^ 32 - 1 = ground arith in
          let kept : bit_and x (2 ^ 32 - 1) ≡ x = omega (arith, bit_and_mask 32 x) in
          rw (t, ones, kept) (bit_xor_twice 32 max a (omega arith) (omega arith))
      | inr t ↦
          let ge : a ≤ max = ground arith in
          let zeros : asr32 (sub32 max a) 31 ≡ 0 = ground arith in
          rw (t, zeros, bit_and-zero x) (bit_xor-zero max)
    ]

-- Every coefficient of a polynomial is closer to 0 than `b`.
abbrev pub IsBelow : ℕ → List ℕ → Type 0
IsBelow b w = All (λ c. centered_abs c < b) w

fold_iff :
    (w : List ℕ) (max b : ℕ)
    → max < 2 ^ 31
    → All IsReduced w
    → (foldl larger max w < 2 ^ 31) × ((foldl larger max w < b) ↔ ((max < b) × IsBelow b w))
fold_iff [] max b hm h = (hm, ((λ p. (p, tt)), λ p. p.0))
fold_iff (c ∷ w) max b hm (hc, h) =
    let next = larger-max max c hm hc in
    let a_lt : centered_abs c < 2 ^ 31 = omega (arith, centered_abs-min c hc) in
    let small : larger max c < 2 ^ 31 = ground (arith, next, a_lt) in
    let (below, (down, up)) = fold_iff w (larger max c) b small h in
    (
      below,
      (
        (λ p.
            let (first, rest) = down p in
            (ground (arith, next, first), (ground (arith, next, first), rest))),
        λ p. up (ground (arith, next, p.0, p.1.0), p.1.1),
      ),
    )

fold_polys_iff :
    (ws : Polys) (max b : ℕ)
    → max < 2 ^ 31
    → All IsPoly ws
    → (foldl (λ max poly. foldl larger max poly) max ws < b) ↔ ((max < b) × All (IsBelow b) ws)
fold_polys_iff [] max b hm h = ((λ p. (p, tt)), λ p. p.0)
fold_polys_iff (w ∷ ws) max b hm ((_, hw), h) =
    let (small, (down, up)) = fold_iff w max b hm hw in
    let (down', up') = fold_polys_iff ws (foldl larger max w) b small h in
    (
      (λ p. let (first, rest) = down' p in let (here, all) = down first in (here, (all, rest))),
      λ p. up' (up (p.0, p.1.0), p.1.1),
    )

fold_polys-lt :
    (ws : Polys) (max : ℕ)
    → max < 2 ^ 31
    → All IsPoly ws
    → foldl (λ max poly. foldl larger max poly) max ws < 2 ^ 31
fold_polys-lt [] max hm h = hm
fold_polys-lt (w ∷ ws) max hm ((_, hw), h) =
    fold_polys-lt ws (foldl larger max w) (fold_iff w max 0 hm hw).0 h

pub norm-lt : (ws : Polys) (count : ℕ) → All IsPoly ws → norm ws count < 2 ^ 31
unfolding norm
norm-lt ws count h = fold_polys-lt (take count ws) 0 (omega arith) (All-take IsPoly count ws h)

-- For polynomials of 256 coefficients below q and a positive bound, the branch-free norm of the
-- first `count` of them is below the bound exactly when every coefficient of those is closer to 0
-- modulo q than the bound.
pub norm_iff :
    (ws : Polys) (count b : ℕ)
    → 0 < b
    → All IsPoly ws
    → (norm ws count < b) ↔ All (IsBelow b) (take count ws)
unfolding norm
norm_iff ws count b pos h =
    let (down, up) =
      fold_polys_iff (take count ws) 0 b (omega arith) (All-take IsPoly count ws h) in
    ((λ p. (down p).1), λ p. up (pos, p))
