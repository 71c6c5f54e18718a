-- ===== src/Mldsa/Ntt/Range.antt =====
-- macula-mldsa/src/poly.rs: the ranges of the coefficients that the transforms compute.
use macula_pq.Common.{
  ℕ, zero, suc, ◌+◌, ◌-◌, ◌*◌, ◌/◌, ◌%◌, ◌<◌, ◌≡◌, ◌∙◌, arith, List, [], ◌∷◌, map, length, All, set,
  ltb, leb, ◌==◌, ◌≤◌, if◌then◌else◌, bit_and, for_range_inv, length-set, length-map, All-set,
  All-get_or, inl, inr, Bool-cases,
}
use macula_pq.Common.Word.{shr, sub32, mul64}
use macula_pq.Mldsa.Field.{q, n, mul, add, sub}
use macula_pq.Mldsa.Field.Laws.{add-mod, sub-mod, reduce-mod}
use macula_pq.Mldsa.Ntt.{
  at, butterfly, inverse_butterfly, ntt_blocks, ntt_layers, ntt, inverse_blocks, inverse_layers,
  ntt_inverse, multiply_add_ntt, zetas, power_loop, zeta_of, bit_rev8, build_zetas,
}

abbrev pub IsReduced : ℕ → Type 0
IsReduced c = c < q

-- A polynomial: 256 coefficients below q.
abbrev pub IsPoly : List ℕ → Type 0
IsPoly w = (length w ≡ n) × All IsReduced w

pub add-lt : (a b : ℕ) → a < q → b < q → add a b < q
add-lt a b ha hb = omega (arith, add-mod a b ha hb)

pub sub-lt : (a b : ℕ) → a < q → b < q → sub a b < q
sub-lt a b ha hb = omega (arith, sub-mod a b ha hb)

product_below : (a b : ℕ) → a ≤ q → b < q → a * b ≤ 8380417 * 8380416
product_below a b ha hb = grind arith

pub mul-lt : (a b : ℕ) → a ≤ q → b < q → mul a b < q
unfolding mul
mul-lt a b ha hb = ground (arith, product_below a b ha hb, reduce-mod (a * b))

power_loop-lt : (fuel acc base e : ℕ) → acc < q → power_loop fuel acc base e < q
unfolding power_loop
power_loop-lt zero acc base e h = h
power_loop-lt (suc fuel) acc base e h = elim (Bool-cases (ltb 0 e)) [
  | inl t ↦ rw t (
      power_loop-lt fuel (if bit_and e 1 == 1 then mul64 acc base % q else acc)
        (mul64 base base % q) (shr e 1) (ground arith))
  | inr t ↦ rw t h
]

build_zetas-IsReduced : (left k : ℕ) → All IsReduced (build_zetas left k)
unfolding build_zetas zeta_of
build_zetas-IsReduced zero k = tt
build_zetas-IsReduced (suc left) k =
    (power_loop-lt 8 1 1753 (bit_rev8 k) (omega arith), build_zetas-IsReduced left (k + 1))

pub root-lt : (m : ℕ) → at zetas m < q
unfolding zetas
root-lt m =
    All-get_or IsReduced (0 ∷ build_zetas 255 1) m 0 (omega arith)
      (omega arith, build_zetas-IsReduced 255 1)

pub at-lt : (w : List ℕ) (i : ℕ) → IsPoly w → at w i < q
at-lt w i h = All-get_or IsReduced w i 0 (omega arith) h.1

set-IsPoly : (w : List ℕ) (i v : ℕ) → v < q → IsPoly w → IsPoly (set w i v)
set-IsPoly w i v hv h = (length-set w i v ∙ h.0, All-set IsReduced w i v hv h.1)

pub butterfly-IsPoly : (len z j : ℕ) (w : List ℕ) → z < q → IsPoly w → IsPoly (butterfly len z j w)
unfolding butterfly
butterfly-IsPoly len z j w hz h =
    let t = mul z (at w (j + len)) in
    let ht : t < q = mul-lt z (at w (j + len)) (omega arith) (at-lt w (j + len) h) in
    let w' = set w (j + len) (sub (at w j) t) in
    let h' = set-IsPoly w (j + len) (sub (at w j) t) (sub-lt (at w j) t (at-lt w j h) ht) h in
    set-IsPoly w' j (add (at w' j) t) (add-lt (at w' j) t (at-lt w' j h') ht) h'

pub inverse_butterfly-IsPoly :
    (len z j : ℕ) (w : List ℕ) → z ≤ q → IsPoly w → IsPoly (inverse_butterfly len z j w)
unfolding inverse_butterfly
inverse_butterfly-IsPoly len z j w hz h =
    let t = at w j in
    let ht = at-lt w j h in
    let a = at w (j + len) in
    let w₁ = set w j (add t a) in
    let h₁ = set-IsPoly w j (add t a) (add-lt t a ht (at-lt w (j + len) h)) h in
    let b = at w₁ (j + len) in
    let w₂ = set w₁ (j + len) (sub t b) in
    let h₂ = set-IsPoly w₁ (j + len) (sub t b) (sub-lt t b ht (at-lt w₁ (j + len) h₁)) h₁ in
    set-IsPoly w₂ (j + len) (mul z (at w₂ (j + len)))
      (mul-lt z (at w₂ (j + len)) hz (at-lt w₂ (j + len) h₂)) h₂

ntt_blocks-IsPoly :
    (fuel len start : ℕ) (s : ℕ × List ℕ) → IsPoly s.1 → IsPoly (ntt_blocks fuel len start s).1
unfolding ntt_blocks
ntt_blocks-IsPoly zero len start s h = h
ntt_blocks-IsPoly (suc fuel) len start s h = elim (Bool-cases (ltb start n)) [
  | inl t ↦ rw t (
      ntt_blocks-IsPoly fuel len (start + 2 * len) _ (
        for_range_inv IsPoly len start (butterfly len (at zetas (s.0 + 1)))
          (λ j w _ _ hw. butterfly-IsPoly len (at zetas (s.0 + 1)) j w (root-lt (s.0 + 1)) hw) s.1
          h))
  | inr t ↦ rw t h
]

inverse_blocks-IsPoly :
    (fuel len start : ℕ) (s : ℕ × List ℕ) → IsPoly s.1 → IsPoly (inverse_blocks fuel len start s).1
unfolding inverse_blocks
inverse_blocks-IsPoly zero len start s h = h
inverse_blocks-IsPoly (suc fuel) len start s h =
    let z = sub32 q (at zetas (s.0 - 1)) in
    let hz : z ≤ q = omega (arith, root-lt (s.0 - 1)) in
    elim (Bool-cases (ltb start n)) [
      | inl t ↦ rw t (
          inverse_blocks-IsPoly fuel len (start + 2 * len) _ (
            for_range_inv IsPoly len start (inverse_butterfly len z)
              (λ j w _ _ hw. inverse_butterfly-IsPoly len z j w hz hw) s.1 h))
      | inr t ↦ rw t h
    ]

ntt_layers-IsPoly : (fuel len : ℕ) (s : ℕ × List ℕ) → IsPoly s.1 → IsPoly (ntt_layers fuel len s).1
unfolding ntt_layers
ntt_layers-IsPoly zero len s h = h
ntt_layers-IsPoly (suc fuel) len s h = elim (Bool-cases (leb 1 len)) [
  | inl t ↦
      rw t (ntt_layers-IsPoly fuel (len / 2) (ntt_blocks n len 0 s) (ntt_blocks-IsPoly n len 0 s h))
  | inr t ↦ rw t h
]

inverse_layers-IsPoly :
    (fuel len : ℕ) (s : ℕ × List ℕ) → IsPoly s.1 → IsPoly (inverse_layers fuel len s).1
unfolding inverse_layers
inverse_layers-IsPoly zero len s h = h
inverse_layers-IsPoly (suc fuel) len s h = elim (Bool-cases (ltb len n)) [
  | inl t ↦ rw t (
      inverse_layers-IsPoly fuel (len * 2) (inverse_blocks n len 0 s)
        (inverse_blocks-IsPoly n len 0 s h))
  | inr t ↦ rw t h
]

pub ntt-IsPoly : (w : List ℕ) → IsPoly w → IsPoly (ntt w)
unfolding ntt
ntt-IsPoly w h = ntt_layers-IsPoly 9 128 (0, w) h

pub map-mul-IsReduced :
    (z : ℕ) (w : List ℕ) → z < q → All IsReduced w → All IsReduced (map (mul z) w)
map-mul-IsReduced z [] hz h = tt
map-mul-IsReduced z (c ∷ w) hz (hc, hw) = (mul-lt z c (omega arith) hc, map-mul-IsReduced z w hz hw)

pub ntt_inverse-IsPoly : (w : List ℕ) → IsPoly w → IsPoly (ntt_inverse w)
unfolding ntt_inverse
ntt_inverse-IsPoly w h =
    let out = (inverse_layers 9 1 (n, w)).1 in
    let h' = inverse_layers-IsPoly 9 1 (n, w) h in
    (length-map (mul 8347681) out ∙ h'.0, map-mul-IsReduced 8347681 out (omega arith) h'.1)

pub multiply_add_ntt-IsPoly :
    (acc a b : List ℕ) → IsPoly acc → IsPoly a → IsPoly b → IsPoly (multiply_add_ntt acc a b)
unfolding multiply_add_ntt
multiply_add_ntt-IsPoly acc a b h ha hb =
    for_range_inv IsPoly n 0 _
      (λ i w _ _ hw.
        set-IsPoly w i (add (at w i) (mul (at a i) (at b i)))
          (add-lt (at w i) (mul (at a i) (at b i)) (at-lt w i hw)
            (mul-lt (at a i) (at b i) (omega (arith, at-lt a i ha)) (at-lt b i hb)))
          hw)
      acc h

-- The transform, its inverse and the product that is added to an accumulator keep polynomials of
-- 256 coefficients below q.
pub transforms_keep_range :
    (acc a b : List ℕ)
    → IsPoly acc
    → IsPoly a
    → IsPoly b
    → IsPoly (ntt a) × IsPoly (ntt_inverse a) × IsPoly (multiply_add_ntt acc a b)
transforms_keep_range acc a b h ha hb =
    (ntt-IsPoly a ha, ntt_inverse-IsPoly a ha, multiply_add_ntt-IsPoly acc a b h ha hb)
