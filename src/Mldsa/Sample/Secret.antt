-- ===== src/Mldsa/Sample/Secret.antt =====
-- The secret vectors that `expand_s` hands out: every coefficient is in the range of eta.
use macula_pq.Common.{
  ℕ, zero, suc, ◌%◌, ◌<◌, ◌≡◌, ◌⊎◌, inl, inr, arith, bit_and, ltb, ◌==◌, if◌then◌else◌, Bool-cases,
  min, subst, Option-cases, some, List, [], ◌∷◌, length, All, replicate, count_from, ◌+◌,
}
use macula_pq.Common.Outcome.{map_outcome}
use macula_pq.Common.Yields.{Yields, Yields->>=, Yields-weaken}
use macula_pq.Common.Word.{shr, sub32, u16}
use macula_pq.Keccak.Sponge.{Squeeze, shake256_read}
use macula_pq.Mldsa.Field.{n, from_signed}
use macula_pq.Mldsa.Field.Laws.{sub-mod, from_signed-mod}
use macula_pq.Mldsa.Params.{ParameterSet, eta_bits}
use macula_pq.Mldsa.Ntt.Bounded.{IsNear}
use macula_pq.Mldsa.Encode.Range.{IsWithin}
use macula_pq.Mldsa.Encode.Total.{IsRanged}
use macula_pq.Mldsa.Sample.{
  k_max, l_max, coeff_from_half_byte, keep_half, keep_halves, bounded_poly_loop, rej_bounded_poly,
  expand_s,
}
use macula_pq.Mldsa.Sample.Total.{IsBounded, Filled, set-Filled, zeros-Filled, count_from-Yields}

-- The two ranges of the secret coefficients.
abbrev pub IsEta : ParameterSet → Type 0
IsEta p = (p.eta ≡ 2) ⊎ (p.eta ≡ 4)

-- In the range that eta's bits encode, and at most eta from 0.
abbrev pub Small : ℕ → ℕ → Type 0
Small eta c = IsWithin eta (if eta == 2 then 3 else 4) c × IsNear eta c

Small-2 : (b : ℕ) → Small 2 (from_signed (sub32 2 (b % 5)))
Small-2 b =
    let (plain, wrapped) = from_signed-mod (sub32 2 (b % 5)) in
    ground (arith, plain, wrapped, sub-mod 2 (from_signed (sub32 2 (b % 5))))

Small-4 : (b : ℕ) → b < 9 → Small 4 (from_signed (sub32 4 b))
Small-4 b h =
    let (plain, wrapped) = from_signed-mod (sub32 4 b) in
    ground (arith, plain, wrapped, sub-mod 4 (from_signed (sub32 4 b)))

kept-Small_2 : (half v : ℕ) → coeff_from_half_byte half 2 ≡ some v → Small 2 (from_signed v)
unfolding coeff_from_half_byte
kept-Small_2 half v h = ground (arith, Small-2 half)

kept-Small_4 : (half v : ℕ) → coeff_from_half_byte half 4 ≡ some v → Small 4 (from_signed v)
unfolding coeff_from_half_byte
kept-Small_4 half v h = ground (arith, Small-4 half)

kept-Small :
    (half eta v : ℕ)
    → (eta ≡ 2) ⊎ (eta ≡ 4)
    → coeff_from_half_byte half eta ≡ some v
    → Small eta (from_signed v)
kept-Small half eta v (inl e) h = rw e (kept-Small_2 half v (rw e at h))
kept-Small half eta v (inr e) h = rw e (kept-Small_4 half v (rw e at h))

keep_half-Filled :
    (eta half : ℕ) (s : List ℕ × ℕ)
    → (eta ≡ 2) ⊎ (eta ≡ 4)
    → Filled (Small eta) s.0
    → Filled (Small eta) (keep_half eta half s).0
unfolding keep_half
keep_half-Filled eta half (a, j) he h = elim (Bool-cases (ltb j n)) [
  | inr t ↦ rw t h
  | inl t ↦ elim (Option-cases (coeff_from_half_byte half eta)) [
    | inl e ↦ rw (t, e) h
    | inr (v, e) ↦
        rw (t, e) (set-Filled (Small eta) a j (from_signed v) (kept-Small half eta v he e) h)
  ]
]

keep_halves-Filled :
    (eta : ℕ) (block : List ℕ) (s : List ℕ × ℕ)
    → (eta ≡ 2) ⊎ (eta ≡ 4)
    → Filled (Small eta) s.0
    → Filled (Small eta) (keep_halves eta block s).0
unfolding keep_halves
keep_halves-Filled eta [] s he h = h
keep_halves-Filled eta (z ∷ block) s he h =
    let low = keep_half eta (bit_and z 15) s in
    let both = keep_half eta (shr z 4) low in
    let h' = keep_half-Filled eta (shr z 4) low he (keep_half-Filled eta (bit_and z 15) s he h) in
    elim (Bool-cases (both.1 == n)) [
      | inl t ↦ rw t h'
      | inr t ↦ rw t (keep_halves-Filled eta block both he h')
    ]

bounded_poly_loop-Yields :
    (fuel eta : ℕ) (xof : Squeeze) (s : List ℕ × ℕ)
    → (eta ≡ 2) ⊎ (eta ≡ 4)
    → Filled (Small eta) s.0
    → Yields (Filled (Small eta)) (bounded_poly_loop fuel eta xof s)
unfolding bounded_poly_loop
bounded_poly_loop-Yields zero eta xof s he h = elim (Bool-cases (ltb s.1 n)) [
  | inl t ↦ rw t tt
  | inr t ↦ rw t h
]
bounded_poly_loop-Yields (suc fuel) eta xof s he h = elim (Bool-cases (ltb s.1 n)) [
  | inl t ↦ rw t (
      bounded_poly_loop-Yields fuel eta (shake256_read xof 136).1
        (keep_halves eta (shake256_read xof 136).0 s) he (keep_halves-Filled eta _ s he h))
  | inr t ↦ rw t h
]

-- A vector of secret polynomials.
abbrev pub IsSecret : ParameterSet → ℕ → List (List ℕ) → Type 0
IsSecret p count s = (length s ≡ count) × All (IsRanged p.eta (eta_bits p)) s

-- A vector of secret polynomials as they are sampled.
abbrev pub IsShort : ParameterSet → ℕ → List (List ℕ) → Type 0
IsShort p count s = (length s ≡ count) × All (Filled (Small p.eta)) s

within : (p : ParameterSet) (w : List ℕ) → All (Small p.eta) w → All (IsWithin p.eta (eta_bits p)) w
within p [] h = tt
within p (c ∷ w) ((hc, _), h) = (hc, within p w h)

vector-IsRanged :
    (p : ParameterSet) (ws : List (List ℕ))
    → All (Filled (Small p.eta)) ws
    → All (IsRanged p.eta (eta_bits p)) ws
vector-IsRanged p [] h = tt
vector-IsRanged p (w ∷ ws) ((len, hw), h) = ((len, within p w hw), vector-IsRanged p ws h)

pub IsShort-IsSecret :
    (p : ParameterSet) (count : ℕ) (s : List (List ℕ)) → IsShort p count s → IsSecret p count s
IsShort-IsSecret p count s (len, h) = (len, vector-IsRanged p s h)

zero-Small : (eta : ℕ) → (eta ≡ 2) ⊎ (eta ≡ 4) → Small eta 0
zero-Small eta (inl e) =
    rw e (omega (arith, sub-mod 2 0 (omega arith) (omega arith)), (omega arith, inl (omega arith)))
zero-Small eta (inr e) =
    rw e (omega (arith, sub-mod 4 0 (omega arith) (omega arith)), (omega arith, inl (omega arith)))

pub expand_s-IsShort :
    (fuel : ℕ) (rho_prime : List ℕ) (p : ParameterSet)
    → IsBounded p
    → IsEta p
    → Yields (λ s. IsShort p p.l s.0 × IsShort p p.k s.1) (expand_s fuel rho_prime p)
unfolding expand_s rej_bounded_poly
expand_s-IsShort fuel rho_prime p bounded he =
    let columns : min p.l l_max ≡ p.l = omega (arith, bounded.columns) in
    let rows : min p.k k_max ≡ p.k = omega (arith, bounded.rows) in
    let start = zeros-Filled (Small p.eta) (zero-Small p.eta he) in
    let both : List (List ℕ) × List (List ℕ) → Type 0 =
      λ s. IsShort p p.l s.0 × IsShort p p.k s.1 in
    Yields->>= (IsShort p p.l) both _ _
      (subst
        (λ c.
          Yields (λ ys. (length ys ≡ c) × All (Filled (Small p.eta)) ys)
            (map_outcome (λ r. rej_bounded_poly fuel rho_prime (u16 r) p.eta)
              (count_from 0 (min p.l l_max))))
        columns
        (count_from-Yields (Filled (Small p.eta)) _ (min p.l l_max)
          λ r. bounded_poly_loop-Yields fuel p.eta _ (replicate n 0, 0) he start))
      λ s1 h1.
        Yields->>= (IsShort p p.k) both _ _
          (subst
            (λ c.
              Yields (λ ys. (length ys ≡ c) × All (Filled (Small p.eta)) ys)
                (map_outcome (λ r. rej_bounded_poly fuel rho_prime (u16 (r + p.l)) p.eta)
                  (count_from 0 (min p.k k_max))))
            rows
            (count_from-Yields (Filled (Small p.eta)) _ (min p.k k_max)
              λ r. bounded_poly_loop-Yields fuel p.eta _ (replicate n 0, 0) he start))
          λ s2 h2. (h1, h2)

pub expand_s-Yields :
    (fuel : ℕ) (rho_prime : List ℕ) (p : ParameterSet)
    → IsBounded p
    → IsEta p
    → Yields (λ s. IsSecret p p.l s.0 × IsSecret p p.k s.1) (expand_s fuel rho_prime p)
expand_s-Yields fuel rho_prime p bounded he =
    Yields-weaken (λ s. IsShort p p.l s.0 × IsShort p p.k s.1)
      (λ s. IsSecret p p.l s.0 × IsSecret p p.k s.1) (expand_s fuel rho_prime p)
      (λ s h. (IsShort-IsSecret p p.l s.0 h.0, IsShort-IsSecret p p.k s.1 h.1))
      (expand_s-IsShort fuel rho_prime p bounded he)
