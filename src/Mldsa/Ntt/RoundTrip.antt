-- ===== src/Mldsa/Ntt/RoundTrip.antt =====
-- macula-mldsa/src/poly.rs: the two transforms, one after the other.
use macula_pq.Common.{
  ℕ, zero, suc, ◌+◌, ◌-◌, ◌*◌, ◌/◌, ◌≤◌, ◌<◌, ◌≡◌, ◌∙◌, refl, sym, ap, ap₂, arith, ltb, leb, true,
  false, List, [], ◌∷◌, map, length, All, for_range, for_range_inv,
}
use macula_pq.Mldsa.Field.{n, mul}
use macula_pq.Mldsa.Field.Laws.{mul-mod}
use macula_pq.Mldsa.Ntt.{
  at, ntt, ntt_inverse, ntt_blocks, inverse_blocks, ntt_layers, inverse_layers,
}
use macula_pq.Mldsa.Ntt.Range.{
  IsPoly, at-lt, root-lt, butterfly-IsPoly, inverse_butterfly-IsPoly, ntt-IsPoly,
  ntt_inverse-IsPoly,
}
use macula_pq.Mldsa.Ntt.Layers.{
  walk, forward_step, inverse_step, ntt_blocks-walk, inverse_blocks-walk,
}
use macula_pq.Mldsa.Ntt.Inverse.{
  Scaled, IsLayer, forward_layer, inverse_layer, forward_layer-Undoes, inverse_layer-Undoes,
}
use macula_pq.Mldsa.Ntt.Roots.{layers, layers-IsLayer}

walk-IsPoly :
    (len : ℕ) (step : ℕ → ℕ → List ℕ → List ℕ) (count start b : ℕ) (w : List ℕ)
    → ((b j : ℕ) (w : List ℕ) → IsPoly w → IsPoly (step b j w))
    → IsPoly w
    → IsPoly (walk len step count start b w)
unfolding walk
walk-IsPoly len step zero start b w keep h = h
walk-IsPoly len step (suc count) start b w keep h =
    walk-IsPoly len step count (start + 2 * len) (b + 1) (for_range len start (step b) w) keep
      (for_range_inv IsPoly len start (step b) (λ j v _ _ hv. keep b j v hv) w h)

pub forward_layer-IsPoly : (layer : ℕ × ℕ) (w : List ℕ) → IsPoly w → IsPoly (forward_layer layer w)
forward_layer-IsPoly (len, count) w h =
    walk-IsPoly len (forward_step len (count - 1)) count 0 0 w
      (λ b j v hv. butterfly-IsPoly len _ j v (root-lt (count - 1 + b + 1)) hv) h

inverse_layer-IsPoly : (layer : ℕ × ℕ) (w : List ℕ) → IsPoly w → IsPoly (inverse_layer layer w)
inverse_layer-IsPoly (len, count) w h =
    walk-IsPoly len (inverse_step len (2 * count)) count 0 0 w
      (λ b j v hv.
        inverse_butterfly-IsPoly len _ j v (omega (arith, root-lt (2 * count - b - 1))) hv)
      h

-- The transforms as their layers, the first layer's pair of numbers first.
abbrev pub forward_all : List (ℕ × ℕ) → List ℕ → List ℕ
forward_all [] w = w
forward_all (layer ∷ ls) w = forward_all ls (forward_layer layer w)

abbrev pub inverse_all : List (ℕ × ℕ) → List ℕ → List ℕ
inverse_all [] w = w
inverse_all (layer ∷ ls) w = inverse_layer layer (inverse_all ls w)

pub forward_all-IsPoly : (ls : List (ℕ × ℕ)) (w : List ℕ) → IsPoly w → IsPoly (forward_all ls w)
forward_all-IsPoly [] w h = h
forward_all-IsPoly (layer ∷ ls) w h =
    forward_all-IsPoly ls (forward_layer layer w) (forward_layer-IsPoly layer w h)

inverse_all-IsPoly : (ls : List (ℕ × ℕ)) (w : List ℕ) → IsPoly w → IsPoly (inverse_all ls w)
inverse_all-IsPoly [] w h = h
inverse_all-IsPoly (layer ∷ ls) w h =
    inverse_layer-IsPoly layer (inverse_all ls w) (inverse_all-IsPoly ls w h)

-- The factor that a transform and the other's layers leave.
abbrev factor : List (ℕ × ℕ) → ℕ → ℕ
factor [] k = k
factor (layer ∷ ls) k = 2 * factor ls k

abbrev factor_after : List (ℕ × ℕ) → ℕ → ℕ
factor_after [] k = k
factor_after (layer ∷ ls) k = factor_after ls (2 * k)

inverse_all-Undoes :
    (ls : List (ℕ × ℕ)) (k : ℕ) (w x : List ℕ)
    → All IsLayer ls
    → IsPoly w
    → IsPoly x
    → Scaled k (forward_all ls w) x
    → Scaled (factor ls k) w (inverse_all ls x)
inverse_all-Undoes [] k w x oks hw hx scaled = scaled
inverse_all-Undoes (layer ∷ ls) k w x (ok, oks) hw hx scaled =
    let w' = forward_layer layer w in
    let hw' = forward_layer-IsPoly layer w hw in
    inverse_layer-Undoes layer ok (factor ls k) w (inverse_all ls x) hw (inverse_all-IsPoly ls x hx)
      (inverse_all-Undoes ls k w' x oks hw' hx scaled)

forward_all-Undoes :
    (ls : List (ℕ × ℕ)) (k : ℕ) (w x : List ℕ)
    → All IsLayer ls
    → IsPoly w
    → IsPoly x
    → Scaled k (inverse_all ls w) x
    → Scaled (factor_after ls k) w (forward_all ls x)
forward_all-Undoes [] k w x oks hw hx scaled = scaled
forward_all-Undoes (layer ∷ ls) k w x (ok, oks) hw hx scaled =
    let w' = inverse_all ls w in
    forward_all-Undoes ls (2 * k) w (forward_layer layer x) oks hw (forward_layer-IsPoly layer x hx)
      (forward_layer-Undoes layer ok k w' x (inverse_all-IsPoly ls w hw) hx scaled)

-- The layers are those of the loop with this fuel, at this length and this counter.
abbrev Halving : ℕ → ℕ → ℕ → List (ℕ × ℕ) → Type 0
Halving fuel len m [] = len ≡ 0
Halving zero len m (layer ∷ ls) = ⊥
Halving (suc fuel) len m (layer ∷ ls) =
    (len ≡ layer.0) × (m ≡ layer.1 - 1 + 0) × Halving fuel (len / 2) (layer.1 - 1 + 0 + layer.1) ls

ntt_layers-All :
    (ls : List (ℕ × ℕ)) (fuel len m : ℕ) (w : List ℕ)
    → All IsLayer ls
    → Halving fuel len m ls
    → (ntt_layers fuel len (m, w)).1 ≡ forward_all ls w
unfolding ntt_layers
ntt_layers-All [] zero len m w oks h = refl
ntt_layers-All [] (suc fuel) len m w oks h =
    let last : leb 1 len ≡ false = ground (arith, h) in rw last refl
ntt_layers-All (layer ∷ ls) zero len m w oks h = absurd h
ntt_layers-All ((l, c) ∷ ls) (suc fuel) len m w (ok, oks) (e, e', h) =
    let more : leb 1 len ≡ true = ground (arith, e, ok.positive) in
    let w' = forward_layer (l, c) w in
    rw more (
      ap₂ (λ x y. (ntt_layers fuel (len / 2) (ntt_blocks n x 0 (y, w))).1) e e'
      ∙ ap (λ s. (ntt_layers fuel (len / 2) s).1)
          (ntt_blocks-walk l c n 0 (c - 1) 0 w ok.positive ok.few ok.whole)
      ∙ ntt_layers-All ls fuel (len / 2) (c - 1 + 0 + c) w' oks h)

-- The inverse's layers in the order of its loop.
abbrev inverse_in_order : List (ℕ × ℕ) → List ℕ → List ℕ
inverse_in_order [] w = w
inverse_in_order (layer ∷ ls) w = inverse_in_order ls (inverse_layer layer w)

abbrev Doubling : ℕ → ℕ → ℕ → List (ℕ × ℕ) → Type 0
Doubling fuel len m [] = n ≤ len
Doubling zero len m (layer ∷ ls) = ⊥
Doubling (suc fuel) len m (layer ∷ ls) =
    (len ≡ layer.0)
    × (len < n)
    × (m ≡ 2 * layer.1 - 0)
    × Doubling fuel (len * 2) (2 * layer.1 - 0 - layer.1) ls

inverse_layers-All :
    (ls : List (ℕ × ℕ)) (fuel len m : ℕ) (w : List ℕ)
    → All IsLayer ls
    → Doubling fuel len m ls
    → (inverse_layers fuel len (m, w)).1 ≡ inverse_in_order ls w
unfolding inverse_layers
inverse_layers-All [] zero len m w oks h = refl
inverse_layers-All [] (suc fuel) len m w oks h =
    let last : ltb len n ≡ false = ground (arith, h) in rw last refl
inverse_layers-All (layer ∷ ls) zero len m w oks h = absurd h
inverse_layers-All ((l, c) ∷ ls) (suc fuel) len m w (ok, oks) (e, below, e', h) =
    let more : ltb len n ≡ true = ground (arith, below) in
    let w' = inverse_layer (l, c) w in
    rw more (
      ap₂ (λ x y. (inverse_layers fuel (len * 2) (inverse_blocks n x 0 (y, w))).1) e e'
      ∙ ap (λ s. (inverse_layers fuel (len * 2) s).1)
          (inverse_blocks-walk l c n 0 (2 * c) 0 w ok.positive ok.few ok.whole)
      ∙ inverse_layers-All ls fuel (len * 2) (2 * c - 0 - c) w' oks h)

pub ntt_lem : (w : List ℕ) → ntt w ≡ forward_all layers w
unfolding ntt
ntt_lem w = ntt_layers-All layers 9 128 0 w layers-IsLayer (omega arith)

abbrev from_the_last : List (ℕ × ℕ)
from_the_last = (1, 128) ∷ (2, 64) ∷ (4, 32) ∷ (8, 16) ∷ (16, 8) ∷ (32, 4) ∷ (64, 2) ∷ (128, 1) ∷ []

inverse_loop_lem : (w : List ℕ) → (inverse_layers 9 1 (n, w)).1 ≡ inverse_all layers w
inverse_loop_lem w =
    let (l₁, (l₂, (l₃, (l₄, (l₅, (l₆, (l₇, (l₈, _)))))))) = layers-IsLayer in
    inverse_layers-All from_the_last 9 1 n w (l₈, (l₇, (l₆, (l₅, (l₄, (l₃, (l₂, (l₁, tt))))))))
      (omega arith)

pub at-map : (f : ℕ → ℕ) (w : List ℕ) (i : ℕ) → i < length w → at (map f w) i ≡ f (at w i)
at-map f [] i h = absurd (omega (arith, h))
at-map f (c ∷ w) zero h = refl
at-map f (c ∷ w) (suc i) h = at-map f w i (omega (arith, h))

-- Polynomials with the same coefficients are the same.
pub eq_of_at :
    (w v : List ℕ) → length w ≡ length v → ((i : ℕ) → i < length w → at w i ≡ at v i) → w ≡ v
eq_of_at [] [] e h = refl
eq_of_at [] (b ∷ v) e h = absurd (omega (arith, e))
eq_of_at (a ∷ w) [] e h = absurd (omega (arith, e))
eq_of_at (a ∷ w) (b ∷ v) e h =
    ap₂ ◌∷◌ (h 0 (omega arith))
      (eq_of_at w v (omega (arith, e)) (λ i l. h (suc i) (omega (arith, l))))

ntt_inverse-Scaled : (w : List ℕ) → IsPoly w → Scaled 8347681 (inverse_all layers w) (ntt_inverse w)
unfolding ntt_inverse
ntt_inverse-Scaled w h i hi =
    let out = inverse_all layers w in
    let hout = inverse_all-IsPoly layers w h in
    ap (λ v. at (map (mul 8347681) v) i) (inverse_loop_lem w)
    ∙ at-map (mul 8347681) out i (omega (arith, hi, hout.0))
    ∙ mul-mod 8347681 (at out i) (omega arith) (at-lt out i hout)

pub ntt-ntt_inverse : (w : List ℕ) → IsPoly w → ntt (ntt_inverse w) ≡ w
ntt-ntt_inverse w h =
    let x = ntt_inverse w in
    let hx = ntt_inverse-IsPoly w h in
    let scaled =
      forward_all-Undoes layers 8347681 w x layers-IsLayer h hx (ntt_inverse-Scaled w h) in
    let hn = ntt-IsPoly x hx in
    eq_of_at (ntt x) w (hn.0 ∙ sym h.0) (λ i hi.
      ap (λ v. at v i) (ntt_lem x)
      ∙ scaled i (omega (arith, hi, hn.0))
      ∙ omega (arith, at-lt w i h))

pub ntt_inverse-ntt : (w : List ℕ) → IsPoly w → ntt_inverse (ntt w) ≡ w
ntt_inverse-ntt w h =
    let v = ntt w in
    let hv = ntt-IsPoly w h in
    let out = inverse_all layers v in
    let hout = inverse_all-IsPoly layers v hv in
    let once : Scaled 1 (forward_all layers w) v = λ i hi.
      ap (λ t. at t i) (ntt_lem w)
      ∙ omega (arith, at-lt (forward_all layers w) i (forward_all-IsPoly layers w h)) in
    let scaled = inverse_all-Undoes layers 1 w v layers-IsLayer h hv once in
    let hu = ntt_inverse-IsPoly v hv in
    eq_of_at (ntt_inverse v) w (hu.0 ∙ sym h.0) (λ i hi.
      let l : i < n = omega (arith, hi, hu.0) in
      ntt_inverse-Scaled v hv i l ∙ omega (arith, scaled i l, at-lt w i h))

-- On a polynomial of 256 coefficients below q the inverse transform undoes the transform, and the
-- transform undoes the inverse one.
pub transforms_inverse :
    (w : List ℕ) → IsPoly w → (ntt_inverse (ntt w) ≡ w) × (ntt (ntt_inverse w) ≡ w)
transforms_inverse w h = (ntt_inverse-ntt w h, ntt-ntt_inverse w h)
