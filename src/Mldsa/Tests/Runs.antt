-- ===== src/Mldsa/Tests/Runs.antt =====
-- Concrete runs of verification, key generation and the signing loop, on a parameter set small
-- enough to compute with.
use macula_pq.Common.{
  ℕ, ◌-◌, ◌/◌, ◌^◌, ◌≡◌, ◌↔◌, refl, arith, Bool, true, false, inl, Option, some, List, [], ◌∷◌,
  replicate, All-replicate, take, drop,
}
use macula_pq.Common.Outcome.{ok, err, panic, stuck, map_outcome, slice}
use macula_pq.Keccak.Permutation.{keccak_f1600}
use macula_pq.Keccak.Sponge.{
  read, shake128_reader, shake256_read, finalize_xof, shake256_update, shake256_new,
}
use macula_pq.Common.Ends.{Ends}
use macula_pq.Common.Word.{IsByte}
use macula_pq.Mldsa.Field.{q, mul, add, sub, centered_abs, from_signed}
use macula_pq.Mldsa.Params.{ParameterSet}
use macula_pq.Mldsa.Encode.{Fallible}
use macula_pq.Mldsa.Encode.Hint.{hint_bit_pack}
use macula_pq.Mldsa.Keys.{w1_encode_into, sig_encode}
use macula_pq.Mldsa.Sample.{expand_mask, expand_a, expand_s, sample_in_ball}
use macula_pq.Mldsa.Sign.{Signer, attempt, expanded, seed, signer_of}
use macula_pq.Mldsa.Keys.{sk_decode}
use macula_pq.Mldsa.Sign.Responses.{IsSigning}
use macula_pq.Common.Yields.{Yields}
use macula_pq.Mldsa.Correct.Scheme.{verify-sign_message}
use macula_pq.Mldsa.Api.{sign_message, absorb_message}
use macula_pq.Mldsa.Generate.{key_gen, digest}
use macula_pq.Mldsa.Sample.Total.{IsBounded}
use macula_pq.Mldsa.Ntt.{ntt, ntt_inverse, zetas, multiply_add_ntt}
use macula_pq.Mldsa.Rounding.{high_bits, low_bits, make_hint}
use macula_pq.Mldsa.Encode.{bit_pack, bit_unpack, simple_bit_pack}
use macula_pq.Mldsa.Generate.Consistent.{IsKeyPair}
use macula_pq.Mldsa.Verify.Verdict.{message_hash, IsSigned}
use macula_pq.Mldsa.Api.{verify}
use macula_pq.Mldsa.Api.Returns.{verify_returns, seeds_of, key_gen_returns}

abbrev tiny : ParameterSet
tiny = record {
  name = "tiny";
  tau = 1;
  lambda = 128;
  gamma1 = 2 ^ 17;
  gamma2 = (q - 1) / 88;
  k = 1;
  l = 1;
  eta = 2;
  omega = 80;
}

-- Whether a call ends, as a Boolean.
abbrev ended : {A : Type 0} → Fallible A → Bool
ended (ok a) = true
ended (err e) = true
ended panic = true
ended stuck = false

ended-Ends : {A : Type 0} (m : Fallible A) → ended m ≡ true → Ends m
ended-Ends (ok a) e = λ x. cc
ended-Ends (err a) e = λ x. cc
ended-Ends panic e = λ x. cc
ended-Ends stuck e = λ x. cc

abbrev zero_key : List ℕ
zero_key = replicate 352 0

abbrev zero_signature : List ℕ
zero_signature = replicate 689 0

ball_ends : ended (sample_in_ball 6 (take (tiny.lambda / 4) zero_signature) tiny.tau) ≡ true
unfolding sample_in_ball keccak_f1600 shake256_read finalize_xof shake256_update shake256_new
ball_ends = refl

matrix_ends : ended (expand_a 6 (take 32 zero_key) tiny) ≡ true
unfolding expand_a map_outcome read shake128_reader keccak_f1600
matrix_ends = refl

abbrev seven : List ℕ
seven = replicate 32 7

generated_matrix_ends : ended (expand_a 6 (take 32 (seeds_of tiny seven)) tiny) ≡ true
unfolding expand_a map_outcome read shake128_reader keccak_f1600 shake256_read finalize_xof
    shake256_update shake256_new
generated_matrix_ends = refl

secrets_end : ended (expand_s 6 (take 64 (drop 32 (seeds_of tiny seven))) tiny) ≡ true
unfolding expand_s map_outcome keccak_f1600 shake256_read finalize_xof shake256_update shake256_new
secrets_end = refl

-- One row without columns: the products with the secrets, the hint and the tests are computed.
abbrev one_row : ParameterSet
one_row = record {
  name = "one row";
  tau = 1;
  lambda = 128;
  gamma1 = 2 ^ 17;
  gamma2 = (q - 1) / 88;
  k = 1;
  l = 0;
  eta = 2;
  omega = 80;
}

-- Whether an attempt releases a signature, and which.
abbrev released : Fallible (Option (List ℕ)) → Bool
released (ok (some sig)) = true
released m = false

tiny-IsBounded : IsBounded tiny
tiny-IsBounded = record {
  rows = omega arith;
  columns = omega arith;
  commitment_size = omega arith;
  sign_bits = omega arith;
  gamma2_choice = inl refl;
}

verify_returns_example :
    (verdict : Bool) × (verify 6 tiny zero_key (1 ∷ []) zero_signature [] ≡ ok verdict)
    × ((verdict ≡ true)
        ↔ IsSigned 6 tiny zero_key (message_hash zero_key (1 ∷ []) []) zero_signature)
verify_returns_example =
    verify_returns 6 tiny zero_key (1 ∷ []) zero_signature [] (omega arith) tiny-IsBounded
      (All-replicate IsByte 352 0 (omega arith)) (All-replicate IsByte 689 0 (omega arith))
      (omega arith) (ended-Ends (expand_a 6 (take 32 zero_key) tiny) matrix_ends)
      (ended-Ends (sample_in_ball 6 (take (tiny.lambda / 4) zero_signature) tiny.tau) ball_ends)

key_gen_returns_example :
    (keys : List ℕ × List ℕ) × (key_gen 6 tiny seven ≡ ok keys) × IsKeyPair 6 tiny keys
key_gen_returns_example =
    key_gen_returns 6 tiny seven tiny-IsBounded (inl refl)
      (ended-Ends (expand_s 6 (take 64 (drop 32 (seeds_of tiny seven))) tiny) secrets_end)
      (ended-Ends (expand_a 6 (take 32 (seeds_of tiny seven)) tiny) generated_matrix_ends)

abbrev row_key : List ℕ
row_key = replicate 640 0

-- Whether a call returns, and what, with a value for the case that it does not.
abbrev succeeded : {A : Type 0} → Fallible A → Bool
succeeded (ok a) = true
succeeded m = false

abbrev or_else : {A : Type 0} → Fallible A → A → A
or_else (ok a) b = a
or_else m b = b

abbrev row_signer : Fallible Signer
row_signer =
    signer_of 6 one_row row_key
      (digest
        (absorb_message (1 ∷ []) [] (shake256_update shake256_new (take 64 (drop 64 row_key)))) 64)
      seven

abbrev no_signer : Signer
no_signer = record { s1_hat = []; s2_hat = []; t0_hat = []; a_hat = []; rho_pp = []; mu = [] }

row_signer_returns : succeeded row_signer ≡ true
unfolding expand_a map_outcome signer_of sk_decode slice bit_unpack
row_signer_returns = refl

abbrev keyed : Signer
keyed = or_else row_signer no_signer

abbrev row_attempt : Fallible (Option (List ℕ))
row_attempt = attempt 6 one_row keyed (2 ^ 17 - 2) 0

row_releases : released row_attempt ≡ true
unfolding expand_a map_outcome keccak_f1600 shake256_read finalize_xof shake256_update shake256_new
    signer_of sk_decode slice absorb_message bit_unpack bit_pack simple_bit_pack ntt ntt_inverse
    attempt sample_in_ball expand_mask w1_encode_into sig_encode hint_bit_pack zetas mul add sub
    multiply_add_ntt high_bits low_bits make_hint centered_abs from_signed
row_releases = refl

abbrev generated :
    (keys : List ℕ × List ℕ) × (key_gen 6 tiny seven ≡ ok keys) × IsKeyPair 6 tiny keys
generated =
    key_gen_returns 6 tiny seven tiny-IsBounded (inl refl)
      (ended-Ends (expand_s 6 (take 64 (drop 32 (seeds_of tiny seven))) tiny) secrets_end)
      (ended-Ends (expand_a 6 (take 32 (seeds_of tiny seven)) tiny) generated_matrix_ends)

tiny-IsSigning : IsSigning tiny
tiny-IsSigning = record {
  gamma1_choice = inl refl;
  omega_small = omega arith;
  bounded = tiny-IsBounded;
}

verify-sign_message_example :
    Yields
      (λ sig. verify 6 tiny generated.0.0 (1 ∷ []) sig [] ≡ ok true)
      (sign_message 6 tiny 3 (seed seven) (1 ∷ []) [] seven)
    × Yields
        (λ sig. verify 6 tiny generated.0.0 (1 ∷ []) sig [] ≡ ok true)
        (sign_message 6 tiny 3 (expanded generated.0.1) (1 ∷ []) [] seven)
verify-sign_message_example =
    verify-sign_message 6 3 tiny seven (1 ∷ []) [] seven generated.0.0 generated.0.1 tiny-IsSigning
      (inl refl) (omega arith) generated.1
