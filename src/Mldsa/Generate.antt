-- ===== src/Mldsa/Generate.antt =====
-- macula-mldsa/src/internal.rs: key generation, and the public key of an expanded private key. A
-- vector is the list of its polynomials in use, and `fuel` is what each rejection loop is given.
pub mod Ranges
pub mod Consistent
use macula_pq.Common.{
  ℕ, leb, Bool, true, false, not, ◌&&◌, ◌||◌, ◌==◌, List, [], ◌∷◌, map, length, take, drop,
  replicate, zip_with, list_eq,
}
use macula_pq.Common.Outcome.{ok, ensure, assert, ◌>>=◌, ◌>>◌}
use macula_pq.Common.Word.{u8}
use macula_pq.Keccak.Sponge.{Absorb, shake256_new, shake256_update, finalize_xof, shake256_read}
use macula_pq.Mldsa.Field.{n, add, from_signed}
use macula_pq.Mldsa.Rounding.{power2round}
use macula_pq.Mldsa.Params.{ParameterSet, wrong_length, inconsistent_private_key, private_key_len}
use macula_pq.Mldsa.Ntt.{ntt, ntt_inverse, multiply_add_ntt}
use macula_pq.Mldsa.Encode.{Fallible}
use macula_pq.Mldsa.Keys.{Polys, pk_encode, sk_encode, sk_decode}
use macula_pq.Mldsa.Sample.{k_max, expand_a, expand_s}

abbrev pub zero_poly : List ℕ
zero_poly = replicate n 0

-- `h.finalize_xof().read(&mut out)`, for `out` of the given length.
abbrev pub digest : Absorb → ℕ → List ℕ
digest h len = (shake256_read (finalize_xof h) len).0

-- `for s in 0..l { multiply_add_ntt(acc, row[s], v[s]) }`.
unfoldable pub add_products : List ℕ → Polys → Polys → List ℕ
add_products acc [] v = acc
add_products acc (a ∷ row) [] = acc
add_products acc (a ∷ row) (w ∷ v) = add_products (multiply_add_ntt acc a w) row v

-- One row of `t`: its high parts and its low parts.
unfoldable pub split_row : List ℕ → List ℕ → List ℕ × List ℕ
split_row t s2 = (
  zip_with (λ c e. (power2round (add c e)).0) t s2,
  zip_with (λ c e. from_signed (power2round (add c e)).1) t s2,
)

-- The public key and `t0`. The rows are indexed, which panics past the end of an array.
unfoldable pub public_key_of : ℕ → ParameterSet → List ℕ → Polys → Polys → Fallible (List ℕ × Polys)
unfolding add_products split_row
public_key_of fuel p rho s1 s2 = do
  a_hat ← expand_a fuel rho p
  assert (leb p.k k_max)
  let s1_hat = map ntt (take p.l s1)
  let rows =
      zip_with (λ row e. split_row (ntt_inverse (add_products zero_poly row s1_hat)) e) a_hat s2
  ok (pk_encode rho (map (λ r. r.0) rows) p, map (λ r. r.1) rows)

unfoldable pub hash_of_public_key : List ℕ → List ℕ
hash_of_public_key pk = digest (shake256_update shake256_new pk) 64

unfoldable pub key_gen : ℕ → ParameterSet → List ℕ → Fallible (List ℕ × List ℕ)
unfolding public_key_of hash_of_public_key
key_gen fuel p xi = do
  let h = shake256_update (shake256_update shake256_new xi) (u8 p.k ∷ u8 p.l ∷ [])
  let seeds = digest h 128
  let rho = take 32 seeds
  let key = drop 96 seeds
  (s1, s2) ← expand_s fuel (take 64 (drop 32 seeds)) p
  (pk, t0) ← public_key_of fuel p rho s1 s2
  ok (pk, sk_encode rho key (hash_of_public_key pk) s1 s2 t0 p)

-- `t0[..k] == stored_t0[..k]`.
unfoldable pub polys_eq : Polys → Polys → Bool
polys_eq [] [] = true
polys_eq [] (w ∷ ws) = false
polys_eq (v ∷ vs) [] = false
polys_eq (v ∷ vs) (w ∷ ws) = list_eq v w && polys_eq vs ws

unfoldable pub public_key_of_expanded : ℕ → ParameterSet → List ℕ → Fallible (List ℕ)
unfolding public_key_of hash_of_public_key polys_eq
public_key_of_expanded fuel p sk = do
  ensure (length sk == private_key_len p) wrong_length
  parts ← sk_decode sk p
  (pk, t0) ← public_key_of fuel p parts.rho parts.s1 parts.s2
  ensure
      (not (
        not (polys_eq (take p.k t0) (take p.k parts.t0))
        || not (list_eq (hash_of_public_key pk) parts.tr)))
      inconsistent_private_key
  ok pk
