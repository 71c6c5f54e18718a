-- ===== src/Mldsa/Ntt/Roots.antt =====
-- macula-mldsa/src/poly.rs: the layers of the transforms, and their roots, checked by computing the table.
use macula_pq.Common.{
  ℕ, zero, suc, ◌*◌, ◌%◌, ◌<◌, ◌≡◌, refl, arith, ltb, ◌==◌, ◌&&◌, Bool, true, Bool-cases, inl, inr,
  List, [], ◌∷◌, All,
}
use macula_pq.Mldsa.Field.{q, n}
use macula_pq.Mldsa.Ntt.{zetas}
use macula_pq.Mldsa.Ntt.Layers.{end_of}
use macula_pq.Mldsa.Ntt.Inverse.{root, inverse_root, IsLayer}

-- The length of a layer's half blocks, and their number.
abbrev pub layers : List (ℕ × ℕ)
layers = (128, 1) ∷ (64, 2) ∷ (32, 4) ∷ (16, 8) ∷ (8, 16) ∷ (4, 32) ∷ (2, 64) ∷ (1, 128) ∷ []

roots_match : ℕ → ℕ → Bool
roots_match count zero = true
roots_match count (suc b) =
    root count b * inverse_root count b % q == 1
    && ltb (inverse_root count b) q
    && roots_match count b

roots_match_sound :
    (count left b : ℕ)
    → roots_match count left ≡ true
    → b < left
    → (root count b * inverse_root count b % q ≡ 1) × (inverse_root count b < q)
unfolding roots_match
roots_match_sound count zero b e h = absurd (omega (arith, h))
roots_match_sound count (suc left) b e h = elim (Bool-cases (b == left)) [
  | inl t ↦ (let same : b ≡ left = ground (arith, t) in rw same (ground (arith, e)))
  | inr t ↦ roots_match_sound count left b (ground (arith, e)) (ground (arith, t, h))
]

step-IsLayer :
    (len count : ℕ)
    → 0 < len
    → count < n
    → end_of len count 0 ≡ n
    → roots_match count count ≡ true
    → IsLayer (len, count)
step-IsLayer len count hl hc whole e = record {
  positive = hl;
  few = hc;
  whole = whole;
  inverse = λ b h. roots_match_sound count count b e h;
}

roots_of_layers : All (λ layer. roots_match layer.1 layer.1 ≡ true) layers
unfolding roots_match zetas
roots_of_layers = (refl, (refl, (refl, (refl, (refl, (refl, (refl, (refl, tt))))))))

pub layers-IsLayer : All IsLayer layers
layers-IsLayer =
    let (r₁, (r₂, (r₃, (r₄, (r₅, (r₆, (r₇, (r₈, _)))))))) = roots_of_layers in
    (
      step-IsLayer 128 1 (omega arith) (omega arith) refl r₁,
      (
        step-IsLayer 64 2 (omega arith) (omega arith) refl r₂,
        (
          step-IsLayer 32 4 (omega arith) (omega arith) refl r₃,
          (
            step-IsLayer 16 8 (omega arith) (omega arith) refl r₄,
            (
              step-IsLayer 8 16 (omega arith) (omega arith) refl r₅,
              (
                step-IsLayer 4 32 (omega arith) (omega arith) refl r₆,
                (
                  step-IsLayer 2 64 (omega arith) (omega arith) refl r₇,
                  (step-IsLayer 1 128 (omega arith) (omega arith) refl r₈, tt),
                ),
              ),
            ),
          ),
        ),
      ),
    )
