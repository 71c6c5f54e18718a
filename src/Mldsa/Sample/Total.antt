-- ===== src/Mldsa/Sample/Total.antt =====
-- What the samplers hand out: polynomials of 256 coefficients in their range. No input makes them
-- panic; the ones that reject may run out of fuel.
use macula_pq.Common.{
  ℕ, zero, suc, ◌+◌, ◌-◌, ◌*◌, ◌%◌, ◌^◌, ◌≤◌, ◌<◌, ◌≡◌, inl, inr, ◌∙◌, arith, bit_and, bit_or, ltb,
  leb, min, ◌&&◌, true, subst, ◌==◌, if◌then◌else◌, Bool-cases, List, [], ◌∷◌, length, All, get_or,
  set, replicate, count_from, length-set, length-count_from, length-replicate, All-set, All-get_or,
  All-replicate,
}
use macula_pq.Common.Outcome.{map_outcome}
use macula_pq.Common.Yields.{Yields, Yields->>=, map_outcome-Yields, map_outcome-Yields-All}
use macula_pq.Common.Word.{u16, shr, sub64}
use macula_pq.Keccak.Sponge.{
  Squeeze, read, shake256_read, shake128_rate, shake256_update, shake256_new, finalize_xof,
  to_le_bytes,
}
use macula_pq.Keccak.Sponge.Streams.{finalize_xof-IsBytes}
use macula_pq.Mldsa.Field.{q, n}
use macula_pq.Mldsa.Params.{ParameterSet, z_bits}
use macula_pq.Mldsa.Rounding.Decompose.{IsGamma2}
use macula_pq.Mldsa.Ntt.Range.{IsReduced, IsPoly}
use macula_pq.Mldsa.Encode.{Fallible}
use macula_pq.Mldsa.Encode.Total.{IsRanged, bit_unpack_total}
use macula_pq.Mldsa.Sample.{
  k_max, l_max, matrix_entry, keep_candidates, ntt_poly_loop, rej_ntt_poly, expand_a,
  position_up_to, place_signs, sample_in_ball, expand_mask,
}

-- 256 coefficients with a property.
abbrev pub Filled : (ℕ → Type 0) → List ℕ → Type 0
Filled P w = (length w ≡ n) × All P w

pub set-Filled : (P : ℕ → Type 0) (w : List ℕ) (i v : ℕ) → P v → Filled P w → Filled P (set w i v)
set-Filled P w i v pv h = (length-set w i v ∙ h.0, All-set P w i v pv h.1)

pub zeros-Filled : (P : ℕ → Type 0) → P 0 → Filled P (replicate n 0)
zeros-Filled P h = (length-replicate {A = ℕ} n 0, All-replicate P n 0 h)

keep_candidates-IsPoly :
    (block : List ℕ) (s : List ℕ × ℕ) → IsPoly s.0 → IsPoly (keep_candidates block s).0
unfolding keep_candidates
keep_candidates-IsPoly [] s h = h
keep_candidates-IsPoly (b0 ∷ []) s h = h
keep_candidates-IsPoly (b0 ∷ b1 ∷ []) s h = h
keep_candidates-IsPoly (b0 ∷ b1 ∷ b2 ∷ rest) (a, j) h =
    let z = bit_or (bit_or b0 (b1 * 2 ^ 8)) (bit_and b2 0x7f * 2 ^ 16) in
    elim (Bool-cases (j == n)) [
      | inl full ↦ rw full h
      | inr e ↦ elim (Bool-cases (ltb z q)) [
        | inl t ↦
            rw (e, t)
              (keep_candidates-IsPoly rest (set a j z, j + 1)
                (set-Filled IsReduced a j z (ground arith) h))
        | inr t ↦ rw (e, t) (keep_candidates-IsPoly rest (a, j) h)
      ]
    ]

ntt_poly_loop-Yields :
    (fuel : ℕ) (xof : Squeeze) (s : List ℕ × ℕ)
    → IsPoly s.0
    → Yields IsPoly (ntt_poly_loop fuel xof s)
unfolding ntt_poly_loop
ntt_poly_loop-Yields zero xof s h = elim (Bool-cases (ltb s.1 n)) [
  | inl t ↦ rw t tt
  | inr t ↦ rw t h
]
ntt_poly_loop-Yields (suc fuel) xof s h = elim (Bool-cases (ltb s.1 n)) [
  | inl t ↦ rw t (
      ntt_poly_loop-Yields fuel (read shake128_rate xof 168).1
        (keep_candidates (read shake128_rate xof 168).0 s) (keep_candidates-IsPoly _ s h))
  | inr t ↦ rw t h
]

-- The matrix: k rows of l polynomials.
abbrev pub IsMatrix : ParameterSet → List (List (List ℕ)) → Type 0
IsMatrix p a = (length a ≡ p.k) × All (λ row. (length row ≡ p.l) × All IsPoly row) a

pub count_from-Yields :
    {A : Type 0} (P : A → Type 0) (f : ℕ → Fallible A) (count : ℕ)
    → ((i : ℕ) → Yields P (f i))
    → Yields (λ ys. (length ys ≡ count) × All P ys) (map_outcome f (count_from 0 count))
count_from-Yields P f count h =
    rw (length-count_from 0 count) at (map_outcome-Yields P f h (count_from 0 count))

All-count_from :
    (P : ℕ → Type 0) (start count : ℕ)
    → ((i : ℕ) → i < start + count → P i)
    → All P (count_from start count)
All-count_from P start zero h = tt
All-count_from P start (suc count) h =
    (h start (omega arith), All-count_from P (start + 1) count (λ i l. h i (omega (arith, l))))

-- Of the places below the count alone.
count_below-Yields :
    {A : Type 0} (P : A → Type 0) (f : ℕ → Fallible A) (count : ℕ)
    → ((i : ℕ) → i < count → Yields P (f i))
    → Yields (λ ys. (length ys ≡ count) × All P ys) (map_outcome f (count_from 0 count))
count_below-Yields P f count h = rw (length-count_from 0 count) at (
    map_outcome-Yields-All P f (count_from 0 count)
      (All-count_from (λ i. Yields P (f i)) 0 count (λ i l. h i (omega (arith, l)))))

-- What the source's arrays, its shifts and its divisions take of a parameter set.
pub record IsBounded (p : ParameterSet) : Type 0 where
  pub rows : p.k ≤ k_max
  pub columns : p.l ≤ l_max
  pub commitment_size : p.lambda ≤ 256
  pub sign_bits : p.tau ≤ 64
  pub gamma2_choice : IsGamma2 p.gamma2

matrix_entry-Yields :
    (fuel : ℕ) (rho : List ℕ) (r s : ℕ)
    → r < k_max
    → s < l_max
    → Yields IsPoly (matrix_entry fuel rho r s)
unfolding matrix_entry rej_ntt_poly
matrix_entry-Yields fuel rho r s hr hs =
    Yields->>= IsPoly IsPoly _ _
      (ntt_poly_loop-Yields fuel _ (replicate n 0, 0) (zeros-Filled IsReduced (omega arith)))
      λ w h.
        let inside : (ltb r k_max && ltb s l_max) ≡ true = ground (arith, hr, hs) in
        rw (Yields, inside) h

pub expand_a-Yields :
    (fuel : ℕ) (rho : List ℕ) (p : ParameterSet)
    → IsBounded p
    → Yields (IsMatrix p) (expand_a fuel rho p)
unfolding expand_a
expand_a-Yields fuel rho p bounded =
    count_below-Yields (λ row. (length row ≡ p.l) × All IsPoly row) _ p.k
      λ r hr. count_below-Yields IsPoly _ p.l λ s hs.
        matrix_entry-Yields fuel rho r s (omega (arith, hr, bounded.rows))
          (omega (arith, hs, bounded.columns))

position_up_to-Yields :
    (fuel i : ℕ) (xof : Squeeze) → Yields (λ s. Unit {0}) (position_up_to fuel i xof)
unfolding position_up_to
position_up_to-Yields zero i xof = tt
position_up_to-Yields (suc fuel) i xof =
    elim (Bool-cases (leb (get_or (shake256_read xof 1).0 0 0) i)) [
      | inl t ↦ rw t tt
      | inr t ↦ rw t (position_up_to-Yields fuel i (shake256_read xof 1).1)
    ]

place_signs-Yields :
    (fuel left i tau signs : ℕ) (xof : Squeeze) (c : List ℕ)
    → IsPoly c
    → Yields IsPoly (place_signs fuel left i tau signs xof c)
unfolding place_signs
place_signs-Yields fuel zero i tau signs xof c h = h
place_signs-Yields fuel (suc left) i tau signs xof c h =
    Yields->>= (λ s. Unit {0}) IsPoly (position_up_to fuel i xof) _
      (position_up_to-Yields fuel i xof)
      λ s _.
        let moved = get_or c s.0 0 in
        place_signs-Yields fuel left (i + 1) tau signs s.1 _ (
          set-Filled IsReduced _ s.0
            (if bit_and (shr signs ((i + tau - n) % 64)) 1 == 1 then q - 1 else 1) (ground arith)
            (set-Filled IsReduced c i moved (All-get_or IsReduced c s.0 0 (omega arith) h.1) h))

pub sample_in_ball-Yields :
    (fuel : ℕ) (c_tilde : List ℕ) (tau : ℕ) → Yields IsPoly (sample_in_ball fuel c_tilde tau)
unfolding sample_in_ball
sample_in_ball-Yields fuel c_tilde tau =
    place_signs-Yields fuel (n - sub64 n tau) (sub64 n tau) tau _ _ (replicate n 0)
      (zeros-Filled IsReduced (omega arith))

-- The mask: every coefficient at most gamma1, and above -gamma1.
abbrev pub IsMask : ParameterSet → List (List ℕ) → Type 0
IsMask p y = (length y ≡ p.l) × All (IsRanged p.gamma1 (z_bits p)) y

z_bits-le : (p : ParameterSet) → z_bits p ≤ 20
z_bits-le p = ground arith

pub expand_mask-Yields :
    (rho_pp : List ℕ) (kappa : ℕ) (p : ParameterSet)
    → IsBounded p
    → p.gamma1 < q
    → Yields (IsMask p) (expand_mask rho_pp kappa p)
expand_mask-Yields rho_pp kappa p bounded hg =
    let count : min p.l l_max ≡ p.l = omega (arith, bounded.columns) in
    subst
      (λ c.
        Yields (λ ys. (length ys ≡ c) × All (IsRanged p.gamma1 (z_bits p)) ys)
          (expand_mask rho_pp kappa p))
      count
      (unfold expand_mask in
        count_from-Yields (IsRanged p.gamma1 (z_bits p)) _ (min p.l l_max) λ r.
          let h =
            shake256_update (shake256_update shake256_new rho_pp)
              (to_le_bytes 2 (u16 (kappa + u16 r))) in
          let (len, fit) = finalize_xof-IsBytes h (32 * z_bits p) in
          let (w, e, ranged) =
            bit_unpack_total p.gamma1 (z_bits p) (shake256_read (finalize_xof h) (32 * z_bits p)).0
              (z_bits-le p) hg fit len in
          rw e ranged)
