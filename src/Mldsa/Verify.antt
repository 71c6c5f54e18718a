-- ===== src/Mldsa/Verify.antt =====
-- macula-mldsa/src/internal.rs: verification. `absorb` is what the caller feeds into the hash after
-- `tr`; `fuel` is what each rejection loop is given.
pub mod Decoded
pub mod Reaches
pub mod Reference
pub mod Verdict
use macula_pq.Common.{
  ℕ, ◌-◌, ◌/◌, leb, Bool, true, false, not, ◌&&◌, ◌||◌, ◌==◌, none, some, List, [], ◌∷◌, map,
  length, take, zip_with, list_eq,
}
use macula_pq.Common.Outcome.{ok, assert, ◌>>=◌, ◌>>◌}
use macula_pq.Common.Word.{slt32, shl32}
use macula_pq.Keccak.Sponge.{Absorb, shake256_new, shake256_update}
use macula_pq.Mldsa.Field.{d, sub, centered_abs}
use macula_pq.Mldsa.Rounding.{use_hint}
use macula_pq.Mldsa.Params.{ParameterSet, beta, public_key_len, signature_len}
use macula_pq.Mldsa.Ntt.{ntt, ntt_inverse, multiply_add_ntt}
use macula_pq.Mldsa.Encode.{Fallible}
use macula_pq.Mldsa.Keys.{Polys, Signature, pk_decode, sig_decode, w1_encode_into}
use macula_pq.Mldsa.Sample.{k_max, expand_a, sample_in_ball}
use macula_pq.Mldsa.Generate.{zero_poly, digest, add_products}

unfoldable pub lengths_are_the_standards : ParameterSet → List ℕ → List ℕ → Bool
lengths_are_the_standards p pk sig = length pk == public_key_len p && length sig == signature_len p

-- `iter().any(|&c| centered_abs(c) >= bound)`, of one polynomial and of a vector.
unfoldable pub poly_reaches : ℕ → List ℕ → Bool
poly_reaches bound [] = false
poly_reaches bound (c ∷ w) = not (slt32 (centered_abs c) bound) || poly_reaches bound w

unfoldable pub reaches : ℕ → Polys → Bool
unfolding poly_reaches
reaches bound [] = false
reaches bound (w ∷ ws) = poly_reaches bound w || reaches bound ws

-- One row of `w'_1`.
unfoldable pub hinted_row : ParameterSet → List ℕ → Polys → Polys → List ℕ → List ℕ → List ℕ
unfolding add_products
hinted_row p c_hat z_hat row t1 h =
    let t1_hat = ntt (map (λ c. shl32 c d) t1) in
    let ct1 = multiply_add_ntt zero_poly c_hat t1_hat in
    let w = ntt_inverse (zip_with sub (add_products zero_poly row z_hat) ct1) in
    zip_with (λ bit c. use_hint bit c p.gamma2) h w

-- `for r in 0..k`.
unfoldable pub hinted_rows : ParameterSet → List ℕ → Polys → List Polys → Polys → Polys → Polys
unfolding hinted_row
hinted_rows p c_hat z_hat (row ∷ a_hat) (t1 ∷ ts) (h ∷ hs) =
    hinted_row p c_hat z_hat row t1 h ∷ hinted_rows p c_hat z_hat a_hat ts hs
hinted_rows p c_hat z_hat _ _ _ = []

-- `w'_1` of a decoded key and signature. Its rows are indexed.
unfoldable pub recovered_w1 : ℕ → ParameterSet → List ℕ → Polys → Signature → Fallible Polys
unfolding hinted_rows
recovered_w1 fuel p rho t1 s = do
  a_hat ← expand_a fuel rho p
  c ← sample_in_ball fuel s.c_tilde p.tau
  assert (leb p.k k_max)
  ok (hinted_rows p (ntt c) (map ntt (take p.l s.z)) a_hat t1 s.h)

-- `c~' = H(mu || w1Encode(w'_1), lambda / 4)`, read into `&mut c_tilde[..c_len]` of 64 bytes.
unfoldable pub commitment : ParameterSet → List ℕ → Polys → Fallible (List ℕ)
commitment p mu w1 = do
  assert (leb (p.lambda / 4) 64)
  ok (digest (w1_encode_into (shake256_update shake256_new mu) w1 p) (p.lambda / 4))

-- What follows once the signature is decoded.
unfoldable pub verify_decoded :
    ℕ → ParameterSet → List ℕ → Polys → List ℕ → Signature → Fallible Bool
unfolding reaches recovered_w1 commitment
verify_decoded fuel p rho t1 mu s = elim (reaches (p.gamma1 - beta p) (take p.l s.z)) [
  | true ↦ ok false
  | false ↦ (do
    w1 ← recovered_w1 fuel p rho t1 s
    c_tilde ← commitment p mu w1
    ok (list_eq c_tilde s.c_tilde))
]

unfoldable pub verify_given_mu : ℕ → ParameterSet → List ℕ → List ℕ → List ℕ → Fallible Bool
unfolding verify_decoded
verify_given_mu fuel p pk mu sig = do
  (rho, t1) ← pk_decode pk p
  decoded ← sig_decode sig p
  elim decoded [ none ↦ ok false | some s ↦ verify_decoded fuel p rho t1 mu s ]

-- `internal::verify_mu`.
unfoldable pub verify_mu : ℕ → ParameterSet → List ℕ → List ℕ → List ℕ → Fallible Bool
unfolding lengths_are_the_standards verify_given_mu
verify_mu fuel p pk mu sig = elim (lengths_are_the_standards p pk sig) [
  | true ↦ verify_given_mu fuel p pk mu sig
  | false ↦ ok false
]

unfoldable pub verify_absorbing :
    ℕ → ParameterSet → List ℕ → List ℕ → (Absorb → Absorb) → Fallible Bool
unfolding lengths_are_the_standards verify_given_mu
verify_absorbing fuel p pk sig absorb =
    let tr = digest (shake256_update shake256_new pk) 64 in
    let mu = digest (absorb (shake256_update shake256_new tr)) 64 in
    elim (lengths_are_the_standards p pk sig) [
      | true ↦ verify_given_mu fuel p pk mu sig
      | false ↦ ok false
    ]

-- `internal::verify`, on the formatted message.
unfoldable pub verify_formatted : ℕ → ParameterSet → List ℕ → List ℕ → List ℕ → Fallible Bool
unfolding verify_absorbing
verify_formatted fuel p pk m_prime sig =
    verify_absorbing fuel p pk sig (λ h. shake256_update h m_prime)
