-- ===== src/Mlkem/Kem.antt =====
-- macula-mlkem/src/lib.rs and internal.rs: ML-KEM, its input checks, implicit rejection, and the
-- entry points that draw their seeds.
pub mod Constant
pub mod Rejection
pub mod Refusals
use macula_pq.Common.{
  ℕ, suc, zero, ◌+◌, ◌-◌, ◌*◌, ◌/◌, ◌%◌, ◌^◌, bit_and, bit_or, bit_xor, Bool, true, false, not,
  ◌&&◌, ◌||◌, ◌==◌, List, [], ◌∷◌, ◌++◌, map, foldl, length, zip_with, chunks_exact, list_eq,
}
use macula_pq.Common.Outcome.{Outcome, ok, slice, ensure, map_outcome, ◌>>=◌, ◌>>◌}
use macula_pq.Common.Word.{u8, not8}
use macula_pq.Mlkem.Encode.{byte_encode, byte_decode}
use macula_pq.Mlkem.Hash.{Primitives}
use macula_pq.Mlkem.Kpke
use macula_pq.Mlkem.Kpke.{Fallible}
use macula_pq.Mlkem.Params.{
  ParameterSet, Error, encaps_key_invalid, decaps_key_invalid, wrong_length, encaps_key_len,
  decaps_key_len, ciphertext_len,
}

-- 0xff or 0; `black_box` is the identity.
unfoldable pub ct_eq : List ℕ → List ℕ → ℕ
ct_eq a b =
    let diff = foldl bit_or 0 (zip_with bit_xor a b) in u8 ((diff + 2 ^ 16 - 1) % 2 ^ 16 / 2 ^ 8)

unfoldable pub ct_select : ℕ → List ℕ → List ℕ → List ℕ
ct_select mask a b = zip_with (λ x y. bit_or (bit_and x mask) (bit_and y (not8 mask))) a b

-- `iter().all(…)`, where each test may fail.
unfoldable pub all_outcome : (List ℕ → Fallible Bool) → List (List ℕ) → Fallible Bool
all_outcome test [] = ok true
all_outcome test (x ∷ xs) =
    let rest = all_outcome test xs in do b ← test x; elim b [ true ↦ rest | false ↦ ok false ]

unfoldable pub reencodes : List ℕ → Fallible Bool
reencodes chunk = do
  f ← byte_decode 12 chunk
  again ← byte_encode 12 f 384
  ok (list_eq again chunk)

unfoldable pub encaps_key_valid : ParameterSet → List ℕ → Fallible Bool
unfolding all_outcome reencodes
encaps_key_valid p ek =
    let checked = (do
      t_bytes ← slice ek 0 (384 * p.k)
      all_outcome reencodes (chunks_exact 384 t_bytes)) in
    elim (length ek == encaps_key_len p) [ true ↦ checked | false ↦ ok false ]

module _ (P : Primitives) where
  unfoldable pub decaps_key_valid : ParameterSet → List ℕ → Fallible Bool
  decaps_key_valid p dk =
      let checked = (do
        ek ← slice dk (384 * p.k) (768 * p.k + 32)
        stored ← slice dk (768 * p.k + 32) (768 * p.k + 64)
        ok (list_eq (P.hash_h ek) stored)) in
      elim (length dk == decaps_key_len p) [ true ↦ checked | false ↦ ok false ]

  -- `internal::key_gen` and `internal::encaps`, on seeds that the caller supplies.
  unfoldable pub key_gen : ParameterSet → List ℕ → List ℕ → Fallible (List ℕ × List ℕ)
  key_gen p d z = do
    (ek, dk_pke) ← Kpke.key_gen P p d
    ok (ek, dk_pke ++ (ek ++ (P.hash_h ek ++ z)))

  unfoldable pub encaps : ParameterSet → List ℕ → List ℕ → Fallible (List ℕ × List ℕ)
  encaps p ek m = do
    ensure (length ek == encaps_key_len p) wrong_length
    valid ← encaps_key_valid p ek
    ensure valid encaps_key_invalid
    let (shared, r) = P.hash_g (m ++ P.hash_h ek)
    c ← Kpke.encrypt P p ek m r
    ok (c, shared)

  unfoldable pub decaps : ParameterSet → List ℕ → List ℕ → Fallible (List ℕ)
  unfolding decaps_key_valid ct_eq ct_select
  decaps p dk c = do
    ensure (length c == ciphertext_len p && length dk == decaps_key_len p) wrong_length
    valid ← decaps_key_valid p dk
    ensure valid decaps_key_invalid
    dk_pke ← slice dk 0 (384 * p.k)
    ek_pke ← slice dk (384 * p.k) (768 * p.k + 32)
    h ← slice dk (768 * p.k + 32) (768 * p.k + 64)
    z ← slice dk (768 * p.k + 64) (768 * p.k + 96)
    m_prime ← Kpke.decrypt p dk_pke c
    let (k_prime, r_prime) = P.hash_g (m_prime ++ h)
    let k_bar = P.hash_j (z ++ c)
    c_prime ← Kpke.encrypt P p ek_pke m_prime r_prime
    ok (ct_select (ct_eq c c_prime) k_prime k_bar)

  -- The entry points: the source of randomness is asked for 32 bytes and hands on a new source.
  module _ {S : Type 0} (random : S → ℕ → Fallible (List ℕ × S)) where
    unfoldable pub key_gen_drawing_from : ParameterSet → S → Fallible ((List ℕ × List ℕ) × S)
    unfolding key_gen
    key_gen_drawing_from p s = do
      (d, s') ← random s 32
      (z, s'') ← random s' 32
      keys ← key_gen p d z
      ok (keys, s'')

    unfoldable pub encaps_drawing_from :
        ParameterSet → List ℕ → S → Fallible ((List ℕ × List ℕ) × S)
    unfolding encaps
    encaps_drawing_from p ek s = do (m, s') ← random s 32; made ← encaps p ek m; ok (made, s')
