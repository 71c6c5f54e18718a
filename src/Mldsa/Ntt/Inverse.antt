-- ===== src/Mldsa/Ntt/Inverse.antt =====
-- macula-mldsa/src/poly.rs: the layers of one transform, undone by those of the other up to a factor.
use macula_pq.Common.{
  ℕ, zero, suc, ◌+◌, ◌-◌, ◌*◌, ◌%◌, ◌≤◌, ◌<◌, ◌≡◌, ◌∙◌, ap, subst, arith, ltb, inl, inr, Bool-cases,
  List,
}
use macula_pq.Common.Word.{sub32}
use macula_pq.Mldsa.Field.{q, n, mul, add, sub}
use macula_pq.Mldsa.Field.Congruence.{inverse_after, forward_after}
use macula_pq.Mldsa.Ntt.{at, zetas}
use macula_pq.Mldsa.Ntt.Range.{IsPoly, at-lt, root-lt}
use macula_pq.Mldsa.Ntt.Blocks.{butterfly-IsPair, inverse_butterfly-IsPair}
use macula_pq.Mldsa.Ntt.Layers.{
  end_of, le-end_of, walk, Blocks, walk-Blocks, forward_step, inverse_step,
}

-- Every coefficient is k times the other's, modulo q.
abbrev pub Scaled : ℕ → List ℕ → List ℕ → Type 0
Scaled k w v = (i : ℕ) → i < n → at v i ≡ k * at w i % q

-- How two functions of a pair of coefficients are undone by two others, up to the factor 2.
abbrev Undoes : ℕ → (f g f' g' : ℕ → ℕ → ℕ) → Type 0
Undoes k f g f' g' =
    (a a' x y : ℕ)
    → a < q
    → a' < q
    → x < q
    → y < q
    → x ≡ k * f a a' % q
    → y ≡ k * g a a' % q
    → (f' x y ≡ 2 * k * a % q) × (g' x y ≡ 2 * k * a' % q)

module _ (k len : ℕ) (f g f' g' : ℕ → ℕ → ℕ → ℕ) (w v x u : List ℕ) (hw : IsPoly w) (hx : IsPoly x)
    (scaled : Scaled k v x) where
  Blocks-Undoes :
      (count start b : ℕ)
      → ((j : ℕ) → b ≤ j → j < b + count → Undoes k (f j) (g j) (f' j) (g' j))
      → Blocks f g len count start b w v
      → Blocks f' g' len count start b x u
      → end_of len count start ≤ n
      → (i : ℕ) → start ≤ i
      → i < end_of len count start
      → at u i ≡ 2 * k * at w i % q
  Blocks-Undoes zero start b undo forward back room i a c = absurd (omega (arith, a, c))
  Blocks-Undoes (suc count) start b undo (low, high, later) (low', high', later') room i a c =
      let next = start + 2 * len in
      let top : next ≤ n = omega (arith, room, le-end_of len count next) in
      let pair = λ (j : ℕ) (h : start ≤ j) (l : j < start + len).
        undo b (omega arith) (omega arith) (at w j) (at w (j + len)) (at x j) (at x (j + len))
          (at-lt w j hw) (at-lt w (j + len) hw) (at-lt x j hx) (at-lt x (j + len) hx)
          (scaled j (omega (arith, l, top)) ∙ ap (λ t. k * t % q) (low j h l))
          (scaled (j + len) (omega (arith, l, top)) ∙ ap (λ t. k * t % q) (high j h l)) in
      elim (Bool-cases (ltb i (start + len))) [
        | inl t ↦ (let l : i < start + len = ground (arith, t) in low' i a l ∙ (pair i a l).0)
        | inr t ↦ (elim (Bool-cases (ltb i next)) [
          | inl t' ↦
              let j = i - len in
              let h : start ≤ j = ground (arith, t) in
              let l : j < start + len = ground (arith, t, t') in
              let e : j + len ≡ i = ground (arith, t) in
              subst (λ s. at u s ≡ 2 * k * at w s % q) e (high' j h l ∙ (pair j h l).1)
          | inr t' ↦
              Blocks-Undoes count next (b + 1)
                (λ j h l. undo j (omega (arith, h)) (omega (arith, l))) later later' room i
                (ground (arith, t')) c
        ])
      ]

-- The root of a block, and the factor that the inverse takes for the same block.
abbrev pub root : ℕ → ℕ → ℕ
root count b = at zetas (count - 1 + b + 1)

abbrev pub inverse_root : ℕ → ℕ → ℕ
inverse_root count b = sub32 q (at zetas (2 * count - b - 1))

-- A layer of `count` blocks that covers the polynomial, with each block's two roots inverse.
pub record IsLayer (layer : ℕ × ℕ) : Type 0 where
  pub positive : 0 < layer.0
  pub few : layer.1 < n
  pub whole : end_of layer.0 layer.1 0 ≡ n
  pub inverse :
      (b : ℕ)
      → b < layer.1
      → (root layer.1 b * inverse_root layer.1 b % q ≡ 1) × (inverse_root layer.1 b < q)

abbrev pub forward_layer : ℕ × ℕ → List ℕ → List ℕ
forward_layer (len, count) w = walk len (forward_step len (count - 1)) count 0 0 w

abbrev pub inverse_layer : ℕ × ℕ → List ℕ → List ℕ
inverse_layer (len, count) w = walk len (inverse_step len (2 * count)) count 0 0 w

abbrev pub low_of : ℕ → ℕ → ℕ → ℕ → ℕ
low_of count b a a' = add a (mul (root count b) a')

abbrev pub high_of : ℕ → ℕ → ℕ → ℕ → ℕ
high_of count b a a' = sub a (mul (root count b) a')

abbrev inverse_low_of : ℕ → ℕ → ℕ → ℕ
inverse_low_of b a a' = add a a'

abbrev inverse_high_of : ℕ → ℕ → ℕ → ℕ → ℕ
inverse_high_of count b a a' = mul (inverse_root count b) (sub a a')

module _ (layer : ℕ × ℕ) (ok : IsLayer layer) where
  pub forward_layer-Blocks :
      (w : List ℕ)
      → IsPoly w
      → Blocks (low_of layer.1) (high_of layer.1) layer.0 layer.1 0 0 w (forward_layer layer w)
  forward_layer-Blocks w h =
      walk-Blocks layer.0 (low_of layer.1) (high_of layer.1) (forward_step layer.0 (layer.1 - 1))
        (λ b j v room. butterfly-IsPair layer.0 (root layer.1 b) j v ok.positive room) layer.1 0 0 w
        (omega (arith, ok.whole, h.0))

  pub inverse_layer-Blocks :
      (w : List ℕ)
      → IsPoly w
      → Blocks inverse_low_of
          (inverse_high_of layer.1)
          layer.0
          layer.1
          0
          0
          w
          (inverse_layer layer w)
  inverse_layer-Blocks w h =
      walk-Blocks layer.0 inverse_low_of (inverse_high_of layer.1)
        (inverse_step layer.0 (2 * layer.1))
        (λ b j v room.
          inverse_butterfly-IsPair layer.0 (inverse_root layer.1 b) j v ok.positive room)
        layer.1 0 0 w (omega (arith, ok.whole, h.0))

  pub inverse_layer-Undoes :
      (k : ℕ) (w x : List ℕ)
      → IsPoly w
      → IsPoly x
      → Scaled k (forward_layer layer w) x
      → Scaled (2 * k) w (inverse_layer layer x)
  inverse_layer-Undoes k w x hw hx scaled i hi =
      Blocks-Undoes k layer.0 (low_of layer.1) (high_of layer.1) inverse_low_of
        (inverse_high_of layer.1) w (forward_layer layer w) x (inverse_layer layer x) hw hx scaled
        layer.1 0 0
        (λ b h l a a' y y' ha ha' hy hy' e e'.
          inverse_after k (root layer.1 b) (inverse_root layer.1 b) a a' ha ha'
            (root-lt (layer.1 - 1 + b + 1)) (ok.inverse b (omega (arith, l))).1
            (ok.inverse b (omega (arith, l))).0 y y' hy hy' e e')
        (forward_layer-Blocks w hw) (inverse_layer-Blocks x hx) (omega (arith, ok.whole)) i
        (omega arith) (omega (arith, hi, ok.whole))

  pub forward_layer-Undoes :
      (k : ℕ) (w x : List ℕ)
      → IsPoly w
      → IsPoly x
      → Scaled k (inverse_layer layer w) x
      → Scaled (2 * k) w (forward_layer layer x)
  forward_layer-Undoes k w x hw hx scaled i hi =
      Blocks-Undoes k layer.0 inverse_low_of (inverse_high_of layer.1) (low_of layer.1)
        (high_of layer.1) w (inverse_layer layer w) x (forward_layer layer x) hw hx scaled layer.1 0
        0
        (λ b h l a a' y y' ha ha' hy hy' e e'.
          forward_after k (root layer.1 b) (inverse_root layer.1 b) a a' ha ha'
            (root-lt (layer.1 - 1 + b + 1)) (ok.inverse b (omega (arith, l))).1
            (ok.inverse b (omega (arith, l))).0 y y' hy hy' e e')
        (inverse_layer-Blocks w hw) (forward_layer-Blocks x hx) (omega (arith, ok.whole)) i
        (omega arith) (omega (arith, hi, ok.whole))
