-- ===== src/Mldsa/Sample/Challenge.antt =====
-- macula-mldsa/src/sample.rs: the form of the challenge.
use macula_pq.Common.{
  ℕ, zero, suc, ◌+◌, ◌-◌, ◌%◌, ◌≤◌, ◌<◌, ◌≡◌, ◌⊎◌, ◌∙◌, refl, sym, ap, arith, bit_and, leb, ◌==◌,
  if◌then◌else◌, Bool-cases, inl, inr, List, [], ◌∷◌, length, All, set, replicate, length-set,
  length-replicate, All-replicate, All-set, All-get_or, get_or, get_or-set_self, get_or-set_ne,
}
use macula_pq.Common.Yields.{Yields, Yields->>=, Yields-weaken}
use macula_pq.Common.Word.{shr, sub64}
use macula_pq.Keccak.Sponge.{
  Squeeze, shake256_read, finalize_xof, shake256_update, shake256_new, from_le_bytes,
}
use macula_pq.Mldsa.Field.{q, n}
use macula_pq.Mldsa.Ntt.{at}
use macula_pq.Mldsa.Ntt.Bounded.{IsSign, weight}
use macula_pq.Mldsa.Sample.{position_up_to, place_signs, sample_in_ball}

abbrev nonzero : ℕ → ℕ
nonzero c = if c == 0 then 0 else 1

weight-set :
    (w : List ℕ) (i v : ℕ)
    → i < length w
    → weight (set w i v) + nonzero (get_or w i 0) ≡ weight w + nonzero v
unfolding weight
weight-set [] i v h = absurd (omega (arith, h))
weight-set (c ∷ w) zero v h = omega arith
weight-set (c ∷ w) (suc i) v h = omega (arith, weight-set w i v (omega (arith, h)))

weight-replicate : (k : ℕ) → weight (replicate k 0) ≡ 0
unfolding weight
weight-replicate zero = refl
weight-replicate (suc k) = omega (arith, weight-replicate k)

get_or-replicate : (k i : ℕ) → at (replicate k 0) i ≡ 0
get_or-replicate zero i = refl
get_or-replicate (suc k) zero = refl
get_or-replicate (suc k) (suc i) = get_or-replicate k i

-- The places from `i` on are still free, and `used` of the others are taken.
record IsPartial (i used : ℕ) (c : List ℕ) : Type 0 where
  size : length c ≡ n
  signs : All IsSign c
  free : (t : ℕ) → i ≤ t → at c t ≡ 0
  taken : weight c ≡ used

placed :
    (i j used sign : ℕ) (c : List ℕ)
    → i < n
    → j ≤ i
    → (sign ≡ 1) ⊎ (sign ≡ q - 1)
    → IsPartial i used c
    → IsPartial (i + 1) (used + 1) (set (set c i (get_or c j 0)) j sign)
placed i j used sign c hi hj hs h =
    let v = get_or c j 0 in
    let c' = set c i v in
    let size : length c' ≡ length c = length-set c i v in
    let first = weight-set c i v (omega (arith, hi, h.size)) in
    let second = weight-set c' j sign (omega (arith, hi, hj, size, h.size)) in
    let moved : get_or c' j 0 ≡ v = elim (Bool-cases (j == i)) [
      | inl t ↦
          let e : i ≡ j = ground (arith, t) in
          ap (λ k. get_or c' k 0) (sym e) ∙ get_or-set_self c i v 0 (omega (arith, hi, h.size))
      | inr t ↦ get_or-set_ne c i j v 0 (λ e. ground (arith, t, e))
    ] in
    let gone : nonzero (get_or c i 0) ≡ 0 = ap nonzero (h.free i (omega arith)) in
    let kept : nonzero (get_or c' j 0) ≡ nonzero v = ap nonzero moved in
    let one : nonzero sign ≡ 1 = elim hs [ inl e ↦ rw e refl | inr e ↦ rw e refl ] in
    let hv : IsSign v = All-get_or IsSign c j 0 (inl refl) h.signs in
    let hsign : IsSign sign = elim hs [ inl e ↦ inr (inl e) | inr e ↦ inr (inr e) ] in
    record {
      size = length-set c' j sign ∙ size ∙ h.size;
      signs = All-set IsSign c' j sign hsign (All-set IsSign c i v hv h.signs);
      free = λ t a.
          get_or-set_ne c' j t sign 0 (λ e. omega (arith, a, hj, e))
          ∙ get_or-set_ne c i t v 0 (λ e. omega (arith, a, e))
          ∙ h.free t (omega (arith, a));
      taken = omega (arith, first, second, gone, kept, one, h.taken);
    }

position_up_to-Yields :
    (fuel i : ℕ) (xof : Squeeze) → Yields (λ s. s.0 ≤ i) (position_up_to fuel i xof)
unfolding position_up_to
position_up_to-Yields zero i xof = tt
position_up_to-Yields (suc fuel) i xof =
    let s = shake256_read xof 1 in
    elim (Bool-cases (leb (at s.0 0) i)) [
      | inl t ↦ rw (Yields, t) (ground (arith, t))
      | inr t ↦ rw (Yields, t) (position_up_to-Yields fuel i s.1)
    ]

place_signs-Yields :
    (fuel left i tau signs used total : ℕ) (xof : Squeeze) (c : List ℕ)
    → i + left ≡ n
    → used + left ≡ total
    → IsPartial i used c
    → Yields (IsPartial n total) (place_signs fuel left i tau signs xof c)
unfolding place_signs
place_signs-Yields fuel zero i tau signs used total xof c e e' h = record {
  size = h.size;
  signs = h.signs;
  free = λ t a. h.free t (omega (arith, a, e));
  taken = omega (arith, h.taken, e');
}
place_signs-Yields fuel (suc left) i tau signs used total xof c e e' h =
    Yields->>= (λ s. s.0 ≤ i) (IsPartial n total) (position_up_to fuel i xof) _
      (position_up_to-Yields fuel i xof)
      λ s hj.
        let sign = (if bit_and (shr signs ((i + tau - n) % 64)) 1 == 1 then q - 1 else 1) in
        let hs : (sign ≡ 1) ⊎ (sign ≡ q - 1) = ground arith in
        place_signs-Yields fuel left (i + 1) tau signs (used + 1) total s.1
          (set (set c i (at c s.0)) s.0 sign) (omega (arith, e)) (omega (arith, e'))
          (placed i s.0 used sign c (omega (arith, e)) hj hs h)

-- Exactly tau coefficients that are not 0, each of them 1 or -1.
pub record IsChallenge (tau : ℕ) (c : List ℕ) : Type 0 where
  pub size : length c ≡ n
  pub signs : All IsSign c
  pub count : weight c ≡ tau

-- For tau at most 256, sampling a challenge from any bytes neither fails nor panics, and unless
-- the fuel runs out it gives 256 coefficients of which exactly tau are not 0, and those are 1 or
-- q - 1.
pub sample_in_ball-IsChallenge :
    (fuel : ℕ) (c_tilde : List ℕ) (tau : ℕ)
    → tau ≤ n
    → Yields (IsChallenge tau) (sample_in_ball fuel c_tilde tau)
unfolding sample_in_ball
sample_in_ball-IsChallenge fuel c_tilde tau h =
    let xof = finalize_xof (shake256_update shake256_new c_tilde) in
    let (s, xof') = shake256_read xof 8 in
    let start : IsPartial (sub64 n tau) 0 (replicate n 0) = record {
      size = length-replicate {A = ℕ} n 0;
      signs = All-replicate IsSign n 0 (inl refl);
      free = λ t a. get_or-replicate n t;
      taken = omega (arith, weight-replicate n);
    } in
    Yields-weaken (IsPartial n tau) (IsChallenge tau)
      (place_signs fuel (n - sub64 n tau) (sub64 n tau) tau (from_le_bytes s) xof' (replicate n 0))
      (λ c part. record { size = part.size; signs = part.signs; count = part.taken })
      (place_signs-Yields fuel (n - sub64 n tau) (sub64 n tau) tau (from_le_bytes s) 0 tau xof'
        (replicate n 0) (omega (arith, h)) (omega (arith, h)) start)
