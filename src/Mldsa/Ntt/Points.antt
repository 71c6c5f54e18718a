-- ===== src/Mldsa/Ntt/Points.antt =====
-- macula-mldsa/src/poly.rs: the points of the transform, and their powers, checked by computing them.
use macula_pq.Common.{
  ℕ, zero, suc, ◌+◌, ◌-◌, ◌*◌, ◌%◌, ◌^◌, ◌≤◌, ◌<◌, ◌≡◌, refl, arith, ◌==◌, ◌&&◌, Bool, true,
  Bool-cases, inl, inr, List, [], ◌∷◌, All,
}
use macula_pq.Mldsa.Field.{q, n}
use macula_pq.Mldsa.Ntt.{zetas, bit_rev8}
use macula_pq.Mldsa.Ntt.Inverse.{root}
use macula_pq.Mldsa.Ntt.Roots.{layers}

-- The i-th point: a power of 1753, which is a primitive 512-th root of unity modulo q.
unfoldable pub point : ℕ → ℕ
unfolding bit_rev8
point i = 1753 ^ (2 * bit_rev8 i + 1) % q

-- At a block's points in its lower half the power of the half's length is the block's root, and in
-- its upper half the root's negative.
abbrev pub PointPowers : (ℕ → ℕ) → ℕ → ℕ → ℕ → ℕ → Type 0
PointPowers z len zero start b = Unit
PointPowers z len (suc count) start b =
    ((i : ℕ) → start ≤ i → i < start + len → point i ^ len % q ≡ z b)
    × ((i : ℕ) → start + len ≤ i → i < start + 2 * len → point i ^ len % q ≡ q - z b)
    × PointPowers z len count (start + 2 * len) (b + 1)

powers_match : ℕ → ℕ → ℕ → ℕ → Bool
powers_match len z zero i = true
powers_match len z (suc left) i = point i ^ len % q == z && powers_match len z left (i + 1)

powers_match_sound :
    (len z left start i : ℕ)
    → powers_match len z left start ≡ true
    → start ≤ i
    → i < start + left
    → point i ^ len % q ≡ z
unfolding powers_match
powers_match_sound len z zero start i e a c = absurd (omega (arith, a, c))
powers_match_sound len z (suc left) start i e a c = elim (Bool-cases (i == start)) [
  | inl t ↦ (let same : i ≡ start = ground (arith, t) in rw same (ground (arith, e)))
  | inr t ↦
      powers_match_sound len z left (start + 1) i (ground (arith, e)) (ground (arith, t, a))
        (omega (arith, c))
]

blocks_match : (ℕ → ℕ) → ℕ → ℕ → ℕ → ℕ → Bool
unfolding powers_match
blocks_match z len zero start b = true
blocks_match z len (suc count) start b =
    powers_match len (z b) len start
    && powers_match len (q - z b) len (start + len)
    && blocks_match z len count (start + 2 * len) (b + 1)

blocks_match_sound :
    (z : ℕ → ℕ) (len count start b : ℕ)
    → blocks_match z len count start b ≡ true
    → PointPowers z len count start b
unfolding blocks_match
blocks_match_sound z len zero start b e = tt
blocks_match_sound z len (suc count) start b e = (
  (λ i a c. powers_match_sound len (z b) len start i (ground (arith, e)) a c),
  (λ i a c.
      powers_match_sound len (q - z b) len (start + len) i (ground (arith, e)) a
        (omega (arith, c))),
  blocks_match_sound z len count (start + 2 * len) (b + 1) (ground (arith, e)),
)

points_of_layers : All (λ layer. blocks_match (root layer.1) layer.0 layer.1 0 0 ≡ true) layers
unfolding blocks_match point zetas
points_of_layers = (refl, (refl, (refl, (refl, (refl, (refl, (refl, (refl, tt))))))))

abbrev pub HasPoints : ℕ × ℕ → Type 0
HasPoints layer = PointPowers (root layer.1) layer.0 layer.1 0 0

pub layers-HasPoints : All HasPoints layers
layers-HasPoints =
    All_weaken layers (λ layer e. blocks_match_sound (root layer.1) layer.0 layer.1 0 0 e)
      points_of_layers
  where
    All_weaken :
        (ls : List (ℕ × ℕ))
        → ((layer : ℕ × ℕ)
            → blocks_match (root layer.1) layer.0 layer.1 0 0 ≡ true
            → HasPoints layer)
        → All (λ layer. blocks_match (root layer.1) layer.0 layer.1 0 0 ≡ true) ls
        → All HasPoints ls
    All_weaken [] f all = tt
    All_weaken (layer ∷ ls) f (e, all) = (f layer e, All_weaken ls f all)

negations_match : powers_match n (q - 1) n 0 ≡ true
unfolding powers_match point
negations_match = refl

-- x^256 + 1 vanishes at every point.
pub point-pow-n : (i : ℕ) → i < n → point i ^ n % q ≡ q - 1
point-pow-n i h =
    powers_match_sound n (q - 1) n 0 i negations_match (omega arith) (omega (arith, h))
