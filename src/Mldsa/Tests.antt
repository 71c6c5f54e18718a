-- ===== src/Mldsa/Tests.antt =====
-- Concrete runs of ML-DSA's arithmetic and rounding.
pub mod Runs
use macula_pq.Mldsa.Sample.{sample_in_ball}
use macula_pq.Mldsa.Sample.Challenge.{IsChallenge, sample_in_ball-IsChallenge}
use macula_pq.Mldsa.Ntt.RoundTrip.{transforms_inverse}
use macula_pq.Mldsa.Ntt.Evaluation.{evaluate}
use macula_pq.Mldsa.Ntt.Points.{point}
use macula_pq.Mldsa.Ntt.Values.{ntt-evaluate}
use macula_pq.Mldsa.Ntt.Product.{negacyclic, sum_polys}
use macula_pq.Mldsa.Ntt.Multiply.{multiply_add_ntt-negacyclic}
use macula_pq.Mldsa.Ntt.{at, ntt, ntt_inverse, multiply_add_ntt, zetas}
use macula_pq.Mldsa.Ntt.Range.{IsReduced, IsPoly, transforms_keep_range}
use macula_pq.Mldsa.Encode.Total.{IsRanged}
use macula_pq.Mldsa.Encode.HintPacked.{IsBit, IsHintPoly, all_positions}
use macula_pq.Mldsa.Keys.Signatures.{IsSignature, sig_decode-sig_encode}
use macula_pq.Mldsa.Generate.{key_gen}
use macula_pq.Mldsa.Generate.Consistent.{IsKeyPair, key_gen-IsKeyPair}
use macula_pq.Mldsa.Verify.Verdict.{message_hash, IsSigned, verify-IsSigned}
use macula_pq.Mldsa.Sign.{expanded, seed, norm}
use macula_pq.Mldsa.Sign.Norm.{IsBelow, norm_iff}
use macula_pq.Mldsa.Sign.Responses.{IsSigning}
use macula_pq.Mldsa.Sign.Offer.{IsReleased}
use macula_pq.Mldsa.Sign.Released.{sign_message-IsReleased}
use macula_pq.Mldsa.Api.{verify, sign_message, sign_drawing_from}
use macula_pq.Common.Outcome.{Outcome, ok, err}
use macula_pq.Mldsa.Params
use macula_pq.Mldsa.Params.{
  ml_dsa_44, ml_dsa_65, ml_dsa_87, public_key_len, signature_len, context_too_long,
}
use macula_pq.Mldsa.Encode.{pack, unpack, bit_pack, bit_unpack}
use macula_pq.Mldsa.Encode.Unpack.{unpack-pack}
use macula_pq.Mldsa.Encode.Range.{IsWithin, bit_unpack-bit_pack}
use macula_pq.Mldsa.Keys.{Polys, Signature, pk_encode, pk_decode, sig_encode, sig_decode}
use macula_pq.Mldsa.Keys.PublicKey.{IsT1, pk_decode-pk_encode}
use macula_pq.Common.{
  ◌↔◌, All, take, true, some, [], ◌∷◌, count_from, List, length, replicate, length-replicate,
  All-replicate, ℕ, ◌+◌, ◌-◌, ◌*◌, ◌%◌, ◌^◌, ◌≤◌, ◌<◌, ◌≡◌, ◌⊎◌, refl, arith, inl, inr, ◌==◌,
  if◌then◌else◌,
}
use macula_pq.Common.Word.{IsByte, IsBytes, add32, mul32}
use macula_pq.Common.Yields.{Yields}
use macula_pq.Mldsa.Field.{q, add, sub, mul, centered_abs}
use macula_pq.Mldsa.Field.Laws.{arithmetic_mod_8380417}
use macula_pq.Mldsa.Rounding.{power2round, decompose, high_bits, make_hint, use_hint}
use macula_pq.Mldsa.Rounding.Decompose.{power2round_split, decompose-reference, decompose_reference}
use macula_pq.Mldsa.Rounding.Hints.{make_hint_iff, use_hint-make_hint}

arithmetic_mod_8380417_example :
    (add 5 8380416 ≡ (5 + 8380416) % q)
    × (sub 5 8380416 ≡ (5 + q - 8380416) % q)
    × (mul 5 8380416 ≡ 5 * 8380416 % q)
arithmetic_mod_8380417_example = arithmetic_mod_8380417 5 8380416 (omega arith) (omega arith)

power2round_split_example :
    let (r1, r0) = power2round 8380416 in
    (add32 (mul32 r1 (2 ^ 13)) r0 ≡ 8380416)
    × (r1 < 2 ^ 10)
    × ((r0 ≤ 2 ^ 12) ⊎ ((2 ^ 32 - 2 ^ 12 < r0) × (r0 < 2 ^ 32)))
power2round_split_example = power2round_split 8380416 (omega arith)

decompose-reference_example : decompose 8380416 261888 ≡ decompose_reference 8380416 261888
decompose-reference_example = decompose-reference 8380416 261888 (omega arith) (inr refl)

make_hint_iff_example :
    make_hint 8380400 100000 95232
    ≡ (if high_bits 100000 95232 == high_bits (add 100000 8380400) 95232 then 0 else 1)
make_hint_iff_example = make_hint_iff 8380400 100000 95232 (omega arith) (omega arith) (inl refl)

use_hint-make_hint_example :
    use_hint (make_hint 8380400 100000 95232) 100000 95232 ≡ high_bits (add 100000 8380400) 95232
use_hint-make_hint_example =
    use_hint-make_hint 8380400 100000 95232 (omega arith) (omega arith) (inl refl)
      (unfold centered_abs in omega arith)

abbrev constant_poly : ℕ → List ℕ
constant_poly c = replicate 256 c

length-constant_poly : (c : ℕ) → length (constant_poly c) ≡ 256
length-constant_poly c = length-replicate 256 c

-- The coefficient -2 at eta = 4.
minus_two-IsWithin : IsWithin 4 4 8380415
unfolding sub
minus_two-IsWithin = (omega arith, omega arith)

bit_unpack-bit_pack_example :
    bit_unpack (bit_pack (constant_poly 8380415) 4 4) 4 4 ≡ ok (constant_poly 8380415)
bit_unpack-bit_pack_example =
    bit_unpack-bit_pack 4 4 (constant_poly 8380415) (omega arith) (omega arith)
      (length-constant_poly 8380415) (All-replicate (IsWithin 4 4) 256 8380415 minus_two-IsWithin)

abbrev four_polys : Polys
four_polys = replicate 4 (constant_poly 1000)

abbrev seed_bytes : List ℕ
seed_bytes = replicate 32 7

constant_poly-IsT1 : IsT1 (constant_poly 1000)
constant_poly-IsT1 =
    (length-constant_poly 1000, All-replicate (λ v. v < 2 ^ 10) 256 1000 (omega arith))

pk_decode-pk_encode_example :
    (pk_decode (pk_encode seed_bytes four_polys ml_dsa_44) ml_dsa_44 ≡ ok (seed_bytes, four_polys))
    × (length (pk_encode seed_bytes four_polys ml_dsa_44) ≡ public_key_len ml_dsa_44)
pk_decode-pk_encode_example =
    pk_decode-pk_encode seed_bytes four_polys ml_dsa_44 refl refl
      (All-replicate IsT1 4 (constant_poly 1000) constant_poly-IsT1)

-- The inverse transform undoes the transform on the coefficients 0 to 255.
abbrev ramp : List ℕ
ramp = count_from 0 256

ntt_inverse_of_ntt : ntt_inverse (ntt ramp) ≡ ramp
unfolding ntt ntt_inverse zetas mul add sub
ntt_inverse_of_ntt = refl

zero-IsByte : (count : ℕ) → IsBytes (replicate count 0)
zero-IsByte count = All-replicate IsByte count 0 (omega arith)

ml_dsa_87-IsSigning : IsSigning ml_dsa_87
ml_dsa_87-IsSigning = record {
  gamma1_choice = inr refl;
  omega_small = omega arith;
  bounded = record {
    rows = omega arith;
    columns = omega arith;
    commitment_size = omega arith;
    sign_bits = omega arith;
    gamma2_choice = inr refl;
  };
}

abbrev zero_key : List ℕ
zero_key = replicate 4896 0

sign_message-IsReleased_example :
    Yields
      (IsReleased ml_dsa_87 (2 ^ 19 - 120))
      (sign_message 300 ml_dsa_87 1000 (expanded zero_key) (1 ∷ 2 ∷ []) [] seed_bytes)
sign_message-IsReleased_example =
    sign_message-IsReleased 300 1000 ml_dsa_87 (expanded zero_key) (1 ∷ 2 ∷ []) [] seed_bytes
      ml_dsa_87-IsSigning (inl refl) (zero-IsByte 4896, length-replicate {A = ℕ} 4896 0)
      (omega arith)

constant-IsPoly : IsPoly (constant_poly 5)
constant-IsPoly = (length-constant_poly 5, All-replicate IsReduced 256 5 (omega arith))

transforms_keep_range_example :
    IsPoly (ntt (constant_poly 5))
    × IsPoly (ntt_inverse (constant_poly 5))
    × IsPoly (multiply_add_ntt (constant_poly 5) (constant_poly 5) (constant_poly 5))
transforms_keep_range_example =
    transforms_keep_range (constant_poly 5) (constant_poly 5) (constant_poly 5) constant-IsPoly
      constant-IsPoly constant-IsPoly

transforms_inverse_example :
    (ntt_inverse (ntt (constant_poly 5)) ≡ constant_poly 5)
    × (ntt (ntt_inverse (constant_poly 5)) ≡ constant_poly 5)
transforms_inverse_example = transforms_inverse (constant_poly 5) constant-IsPoly

multiply_add_ntt-negacyclic_example :
    ntt_inverse
      (multiply_add_ntt (ntt (constant_poly 5)) (ntt (constant_poly 5)) (ntt (constant_poly 5)))
    ≡ sum_polys (constant_poly 5) (negacyclic (constant_poly 5) (constant_poly 5))
multiply_add_ntt-negacyclic_example =
    multiply_add_ntt-negacyclic (constant_poly 5) (constant_poly 5) (constant_poly 5)
      constant-IsPoly constant-IsPoly constant-IsPoly

ntt-evaluate_example : at (ntt (constant_poly 5)) 3 ≡ evaluate (constant_poly 5) (point 3) % q
ntt-evaluate_example = ntt-evaluate (constant_poly 5) 3 constant-IsPoly (omega arith)

sample_in_ball-IsChallenge_example : Yields (IsChallenge 39) (sample_in_ball 6 (replicate 32 9) 39)
sample_in_ball-IsChallenge_example = sample_in_ball-IsChallenge 6 (replicate 32 9) 39 (omega arith)

norm_iff_example :
    (norm (constant_poly 5 ∷ []) 1 < 6) ↔ All (IsBelow 6) (take 1 (constant_poly 5 ∷ []))
norm_iff_example = norm_iff (constant_poly 5 ∷ []) 1 6 (omega arith) (constant-IsPoly, tt)

abbrev small_signature : Signature
small_signature = record {
  c_tilde = replicate 32 9;
  z = replicate 4 (constant_poly 5);
  h = replicate 4 (constant_poly 0);
}

five-IsWithin : IsWithin (2 ^ 17) 18 5
unfolding sub
five-IsWithin = (omega arith, omega arith)

small_signature-IsSignature : IsSignature ml_dsa_44 small_signature
unfolding all_positions
small_signature-IsSignature = record {
  commitment_size = refl;
  response = (
    refl,
    All-replicate (IsRanged (2 ^ 17) 18) 4 (constant_poly 5)
        (length-constant_poly 5, All-replicate (IsWithin (2 ^ 17) 18) 256 5 five-IsWithin),
  );
  hint = record {
    bits =
        All-replicate IsHintPoly 4 (constant_poly 0)
          (length-constant_poly 0, All-replicate IsBit 256 0 (omega arith));
    size = refl;
    few = omega arith;
  };
}

sig_decode-sig_encode_example :
    (bytes : List ℕ) × (sig_encode
        (replicate 32 9)
        (replicate 4 (constant_poly 5))
        (replicate 4 (constant_poly 0))
        ml_dsa_44
      ≡ ok bytes)
    × (length bytes ≡ signature_len ml_dsa_44)
    × (sig_decode bytes ml_dsa_44 ≡ ok (some small_signature))
sig_decode-sig_encode_example =
    sig_decode-sig_encode small_signature ml_dsa_44
      (record { gamma1_small = omega arith; omega_small = omega arith }) small_signature-IsSignature
