-- ===== src/Mlkem/Tests.antt =====
-- Concrete runs of ML-KEM's arithmetic, encodings and decapsulation.
use macula_pq.Mlkem.Ntt.{ntt, intt, zetas}
use macula_pq.Common.{
  ◌↔◌, ◌⊎◌, count_from, inr, ℕ, ◌+◌, ◌-◌, ◌*◌, ◌%◌, ◌/◌, ◌^◌, ◌≤◌, ◌≡◌, ◌≢◌, ◌<◌, refl, arith, inl,
  if◌then◌else◌, List, [], ◌∷◌, length, replicate, list_eq, length-replicate, All-replicate,
}
use macula_pq.Common.Outcome.{ok, err, map_outcome, ◌>>=◌}
use macula_pq.Common.Word.{IsByte}
use macula_pq.Mlkem.Field.{q, add, sub, mul}
use macula_pq.Mlkem.Field.Laws.{arithmetic_mod_3329}
use macula_pq.Mlkem.Params.{
  IsAdmissible, ml_kem_512, decaps_key_invalid, wrong_length, ciphertext_len,
}
use macula_pq.Mlkem.Encode.Compression.{
  compress_reference, distance, compress-compress_reference, decompress-compress,
}
use macula_pq.Mlkem.Encode.{compress, decompress, byte_encode, byte_decode}
use macula_pq.Mlkem.Encode.RoundTrip.{byte_decode-byte_encode, modulus}
use macula_pq.Mlkem.Hash.{Primitives, IsSized, IsBytesOf}
use macula_pq.Mlkem.Kpke
use macula_pq.Mlkem.Kpke.{Polys}
use macula_pq.Mlkem.Kpke.Total.{Returns, decrypt-Returns, encrypt-Returns}
use macula_pq.Mlkem.Kem.{ct_eq, decaps}
use macula_pq.Mlkem.Kem.Constant.{ct_eq-list_eq}
use macula_pq.Mlkem.Kem.Rejection.{ek_of, hash_of, decaps-implicit_rejection, IsDecapsulated}
use macula_pq.Mlkem.Kem.Refusals.{decaps-errors}

arithmetic_mod_3329_example :
    (add 5 3328 ≡ (5 + 3328) % q) × (sub 5 3328 ≡ (5 + q - 3328) % q) × (mul 5 3328 ≡ 5 * 3328 % q)
arithmetic_mod_3329_example = arithmetic_mod_3329 5 3328 (omega arith) (omega arith)

length-constant : (size b : ℕ) → length (replicate size b) ≡ size
length-constant size b = length-replicate size b

-- Polynomials of 256 equal coefficients.
abbrev coefficients : List ℕ
coefficients = replicate 256 3328

byte_decode-byte_encode_example :
    (byte_encode 12 coefficients (32 * 12) >>= byte_decode 12) ≡ ok coefficients
byte_decode-byte_encode_example =
    byte_decode-byte_encode 12 coefficients (omega arith) (length-constant 256 3328)
      (All-replicate (λ c. c < modulus 12) 256 3328 (omega arith))

ct_eq-list_eq_example :
    ct_eq (1 ∷ 2 ∷ 3 ∷ []) (1 ∷ 2 ∷ 4 ∷ [])
    ≡ (if list_eq (1 ∷ 2 ∷ 3 ∷ []) (1 ∷ 2 ∷ 4 ∷ []) then 255 else 0)
ct_eq-list_eq_example =
    ct_eq-list_eq (1 ∷ 2 ∷ 3 ∷ []) (1 ∷ 2 ∷ 4 ∷ []) refl
      (omega arith, (omega arith, (omega arith, tt)))
      (omega arith, (omega arith, (omega arith, tt)))

-- Hash functions of the right sizes, and a matrix whose sampling ends at once.
abbrev constant_primitives : Primitives
constant_primitives = record {
  hash_h = λ s. replicate 32 7;
  hash_j = λ s. replicate 32 1;
  hash_g = λ s. (replicate 32 2, replicate 32 3);
  noise_prf = λ eta s b. replicate (64 * eta) 9;
  expand = λ seed. ok (replicate 256 5);
}

constant_bytes : (size b : ℕ) → b < 256 → IsBytesOf size (replicate size b)
constant_bytes size b h = (length-constant size b, All-replicate IsByte size b h)

constant_primitives-IsSized : IsSized constant_primitives
constant_primitives-IsSized = record {
  h_size = λ s. constant_bytes 32 7 (omega arith);
  j_size = λ s. constant_bytes 32 1 (omega arith);
  g_size = λ s. (constant_bytes 32 2 (omega arith), constant_bytes 32 3 (omega arith));
  prf_size = λ eta s b. constant_bytes (64 * eta) 9 (omega arith);
}

-- A decapsulation key of 7s, which the constant hash matches, and one of 8s, which it does not.
abbrev key_of : ℕ → List ℕ
key_of b = replicate 1632 b

abbrev row : Polys
row = replicate 2 (replicate 256 5)

abbrev two_rows : List Polys
two_rows = replicate 2 row

ml_kem_512-IsAdmissible : IsAdmissible ml_kem_512
ml_kem_512-IsAdmissible = record {
  rank = omega arith;
  du_positive = omega arith;
  du_small = omega arith;
  dv_positive = omega arith;
  dv_small = omega arith;
}

decaps-implicit_rejection_example :
    IsDecapsulated constant_primitives ml_kem_512 (key_of 7) (replicate 768 4)
unfolding Kpke.matrix map_outcome
decaps-implicit_rejection_example =
    decaps-implicit_rejection constant_primitives ml_kem_512 (key_of 7) (replicate 768 4) two_rows
      constant_primitives-IsSized ml_kem_512-IsAdmissible (length-constant 1632 7)
      (constant_bytes 768 4 (omega arith)) refl refl

decaps-errors_example :
    ((decaps constant_primitives ml_kem_512 (key_of 8) (replicate 768 4) ≡ err wrong_length)
      ↔ ((length {A = ℕ} (replicate 768 4) ≢ 768) ⊎ (length (key_of 8) ≢ 1632)))
    × ((decaps constant_primitives ml_kem_512 (key_of 8) (replicate 768 4) ≡ err decaps_key_invalid)
        ↔ ((length {A = ℕ} (replicate 768 4) ≡ 768)
            × (length (key_of 8) ≡ 1632)
            × (constant_primitives.hash_h (ek_of ml_kem_512 (key_of 8))
                ≢ hash_of ml_kem_512 (key_of 8))))
unfolding Kpke.matrix map_outcome
decaps-errors_example =
    decaps-errors constant_primitives ml_kem_512 (key_of 8) (replicate 768 4) two_rows
      constant_primitives-IsSized ml_kem_512-IsAdmissible (constant_bytes 768 4 (omega arith)).1
      refl

decrypt-Returns_example :
    Returns (IsBytesOf 32) (Kpke.decrypt ml_kem_512 (replicate 768 7) (replicate 768 4))
decrypt-Returns_example =
    decrypt-Returns ml_kem_512 (replicate 768 7) (replicate 768 4) ml_kem_512-IsAdmissible
      (length-constant 768 4)

encrypt-Returns_example :
    Returns
      (IsBytesOf (ciphertext_len ml_kem_512))
      (Kpke.encrypt constant_primitives ml_kem_512 (replicate 800 7) (replicate 32 4) [])
unfolding Kpke.matrix map_outcome
encrypt-Returns_example =
    encrypt-Returns constant_primitives constant_primitives-IsSized ml_kem_512 (replicate 800 7)
      (replicate 32 4) [] two_rows ml_kem_512-IsAdmissible (length-constant 800 7)
      (length-constant 32 4) refl

compress-compress_reference_example : compress 10 1234 ≡ compress_reference 10 1234
compress-compress_reference_example =
    compress-compress_reference 10 1234 (omega arith) (inr (inr (inr (inl refl))))

decompress-compress_example :
    distance (decompress 4 (compress 4 1234)) 1234 ≤ (q + 2 ^ 4) / 2 ^ (4 + 1)
decompress-compress_example = decompress-compress 4 1234 (omega arith) (inr (inl refl))

-- The inverse transform undoes the transform on the coefficients 0 to 255.
abbrev ramp : List ℕ
ramp = count_from 0 256

intt_of_ntt : intt (ntt ramp) ≡ ramp
unfolding ntt intt zetas mul add sub
intt_of_ntt = refl
