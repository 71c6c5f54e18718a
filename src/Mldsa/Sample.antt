-- ===== src/Mldsa/Sample.antt =====
-- macula-mldsa/src/sample.rs: rejection sampling, on fuel: how many blocks are needed depends on the
-- stream, and `stuck` is the answer when the fuel runs out.
pub mod Total
pub mod Secret
pub mod Challenge
use macula_pq.Common.{
  ℕ, zero, suc, ◌+◌, ◌-◌, ◌*◌, ◌%◌, ◌^◌, bit_and, bit_or, ltb, leb, min, ◌&&◌, ◌==◌, if◌then◌else◌,
  Option, none, some, List, [], ◌∷◌, ◌++◌, get_or, set, replicate, count_from,
}
use macula_pq.Common.Outcome.{ok, stuck, map_outcome, assert, ◌>>=◌, ◌>>◌}
use macula_pq.Common.Word.{u8, u16, shr, sub32, sub64}
use macula_pq.Keccak.Sponge.{
  Squeeze, from_le_bytes, to_le_bytes, shake128_reader, shake128_rate, read, shake256_new,
  shake256_update, finalize_xof, shake256_read,
}
use macula_pq.Mldsa.Field.{q, n, from_signed}
use macula_pq.Mldsa.Params.{ParameterSet, z_bits}
use macula_pq.Mldsa.Encode.{Fallible, bit_unpack}

abbrev at : List ℕ → ℕ → ℕ
at f i = get_or f i 0

abbrev pub k_max : ℕ
k_max = 8

abbrev pub l_max : ℕ
l_max = 7

-- The candidates of one block, `as_chunks::<3>()`: the polynomial and the number of its coefficients
-- that are filled.
unfoldable pub keep_candidates : List ℕ → List ℕ × ℕ → List ℕ × ℕ
keep_candidates (b0 ∷ b1 ∷ b2 ∷ rest) (a, j) =
    let z = bit_or (bit_or b0 (b1 * 2 ^ 8)) (bit_and b2 0x7f * 2 ^ 16) in
    let next = keep_candidates rest (if ltb z q then (set a j z, j + 1) else (a, j)) in
    if j == n then (a, j) else next
keep_candidates _ s = s

unfoldable pub ntt_poly_loop : ℕ → Squeeze → List ℕ × ℕ → Fallible (List ℕ)
unfolding keep_candidates
ntt_poly_loop zero xof s = if ltb s.1 n then stuck else ok s.0
ntt_poly_loop (suc fuel) xof s =
    let rest =
      (let (block, xof') = read shake128_rate xof 168 in
        ntt_poly_loop fuel xof' (keep_candidates block s)) in
    if ltb s.1 n then rest else ok s.0

unfoldable pub rej_ntt_poly : ℕ → List ℕ → Fallible (List ℕ)
unfolding ntt_poly_loop
rej_ntt_poly fuel seed = ntt_poly_loop fuel (shake128_reader seed) (replicate n 0, 0)

unfoldable pub coeff_from_half_byte : ℕ → ℕ → Option ℕ
coeff_from_half_byte b eta =
    if eta == 2
    then (if ltb b 15 then some (sub32 2 (b % 5)) else none)
    else if eta == 4
    then (if ltb b 9 then some (sub32 4 b) else none)
    else none

unfoldable pub keep_half : ℕ → ℕ → List ℕ × ℕ → List ℕ × ℕ
unfolding coeff_from_half_byte
keep_half eta half (a, j) =
    let kept : List ℕ × ℕ = (elim (coeff_from_half_byte half eta) [
      | none ↦ (a, j)
      | some v ↦ (set a j (from_signed v), j + 1)
    ]) in
    if ltb j n then kept else (a, j)

unfoldable pub keep_halves : ℕ → List ℕ → List ℕ × ℕ → List ℕ × ℕ
unfolding keep_half
keep_halves eta [] s = s
keep_halves eta (z ∷ block) s =
    let s' = keep_half eta (shr z 4) (keep_half eta (bit_and z 15) s) in
    let next = keep_halves eta block s' in if s'.1 == n then s' else next

unfoldable pub bounded_poly_loop : ℕ → ℕ → Squeeze → List ℕ × ℕ → Fallible (List ℕ)
unfolding keep_halves
bounded_poly_loop zero eta xof s = if ltb s.1 n then stuck else ok s.0
bounded_poly_loop (suc fuel) eta xof s =
    let rest =
      (let (block, xof') = shake256_read xof 136 in
        bounded_poly_loop fuel eta xof' (keep_halves eta block s)) in
    if ltb s.1 n then rest else ok s.0

-- SHAKE256 of a secret and a 16-bit counter, absorbed one after the other.
abbrev pub counted_stream : List ℕ → ℕ → Squeeze
counted_stream secret counter =
    finalize_xof (shake256_update (shake256_update shake256_new secret) (to_le_bytes 2 counter))

unfoldable pub rej_bounded_poly : ℕ → List ℕ → ℕ → ℕ → Fallible (List ℕ)
unfolding bounded_poly_loop
rej_bounded_poly fuel rho_prime nonce eta =
    bounded_poly_loop fuel eta (counted_stream rho_prime nonce) (replicate n 0, 0)

-- `a[r][s] = rej_ntt_poly(…)`: a place past the end of the array panics.
unfoldable pub matrix_entry : ℕ → List ℕ → ℕ → ℕ → Fallible (List ℕ)
unfolding rej_ntt_poly
matrix_entry fuel rho r s = do
  w ← rej_ntt_poly fuel (rho ++ (u8 s ∷ u8 r ∷ []))
  assert (ltb r k_max && ltb s l_max)
  ok w

unfoldable pub expand_a : ℕ → List ℕ → ParameterSet → Fallible (List (List (List ℕ)))
unfolding matrix_entry
expand_a fuel rho p =
    map_outcome (λ r. map_outcome (λ s. matrix_entry fuel rho r s) (count_from 0 p.l))
      (count_from 0 p.k)

-- `iter_mut().take(p.l)` of an array: no more than it has.
unfoldable pub expand_s : ℕ → List ℕ → ParameterSet → Fallible (List (List ℕ) × List (List ℕ))
unfolding rej_bounded_poly
expand_s fuel rho_prime p = do
  s1 ←
      map_outcome (λ r. rej_bounded_poly fuel rho_prime (u16 r) p.eta)
        (count_from 0 (min p.l l_max))
  s2 ←
      map_outcome (λ r. rej_bounded_poly fuel rho_prime (u16 (r + p.l)) p.eta)
        (count_from 0 (min p.k k_max))
  ok (s1, s2)

-- `loop { read one byte; if j <= i break }`.
unfoldable pub position_up_to : ℕ → ℕ → Squeeze → Fallible (ℕ × Squeeze)
position_up_to zero i xof = stuck
position_up_to (suc fuel) i xof =
    let (byte, xof') = shake256_read xof 1 in
    let rest = position_up_to fuel i xof' in
    if leb (at byte 0) i then ok (at byte 0, xof') else rest

-- `left` more positions, from `i` on. The count of a shift is taken modulo 64.
unfoldable pub place_signs : ℕ → ℕ → ℕ → ℕ → ℕ → Squeeze → List ℕ → Fallible (List ℕ)
unfolding position_up_to
place_signs fuel zero i tau signs xof c = ok c
place_signs fuel (suc left) i tau signs xof c = do
  (j, xof') ← position_up_to fuel i xof
  let c' = set c i (at c j)
  let sign = if bit_and (shr signs ((i + tau - n) % 64)) 1 == 1 then q - 1 else 1
  place_signs fuel left (i + 1) tau signs xof' (set c' j sign)

-- `for i in (N - tau)..N`: the difference wraps, and a range that starts past its end is empty.
unfoldable pub sample_in_ball : ℕ → List ℕ → ℕ → Fallible (List ℕ)
unfolding place_signs
sample_in_ball fuel c_tilde tau =
    let xof = finalize_xof (shake256_update shake256_new c_tilde) in
    let (s, xof') = shake256_read xof 8 in
    let first = sub64 n tau in
    place_signs fuel (n - first) first tau (from_le_bytes s) xof' (replicate n 0)

unfoldable pub expand_mask : List ℕ → ℕ → ParameterSet → Fallible (List (List ℕ))
expand_mask rho_pp kappa p =
    let c = z_bits p in
    map_outcome
      (λ r.
        bit_unpack (shake256_read (counted_stream rho_pp (u16 (kappa + u16 r))) (32 * c)).0 p.gamma1
          c)
      (count_from 0 (min p.l l_max))
