-- ===== src/Mldsa/Generate/Consistent.antt =====
-- The keys that key generation makes have the standard's lengths, and the private one determines the
-- public one.
use macula_pq.Common.{
  ℕ, ◌-◌, ◌^◌, ◌≡◌, refl, ◌∙◌, arith, leb, true, ◌==◌, List, [], ◌∷◌, map, length, All, take, drop,
  zip_with, list_eq_refl, length-take, length-drop, length-map, length-zip_with, All-take,
}
use macula_pq.Common.Outcome.{ok}
use macula_pq.Common.Yields.{Yields, Yields->>=, Yields->>=-eq, Yields-weaken}
use macula_pq.Common.Word.{u8}
use macula_pq.Keccak.Sponge.{Absorb, shake256_new, shake256_update}
use macula_pq.Keccak.Sponge.Streams.{finalize_xof-IsBytes}
use macula_pq.Mldsa.Field.{d}
use macula_pq.Mldsa.Params.{ParameterSet, eta_bits, public_key_len, private_key_len}
use macula_pq.Mldsa.Ntt.{ntt, ntt_inverse}
use macula_pq.Mldsa.Ntt.Range.{IsPoly, ntt_inverse-IsPoly}
use macula_pq.Mldsa.Encode.Total.{IsRanged}
use macula_pq.Mldsa.Keys.{Polys, PrivateParts, sk_encode, sk_decode}
use macula_pq.Mldsa.Keys.PublicKey.{IsT1, pk_decode-pk_encode}
use macula_pq.Mldsa.Keys.Vectors.{IsVector}
use macula_pq.Mldsa.Keys.PrivateKey.{IsPrivate, sk_decode-sk_encode}
use macula_pq.Mldsa.Sample.{k_max, expand_a, expand_s}
use macula_pq.Mldsa.Sample.Total.{IsBounded, IsMatrix, expand_a-Yields}
use macula_pq.Mldsa.Sample.Secret.{IsEta, IsSecret, expand_s-Yields}
use macula_pq.Mldsa.Generate.{
  zero_poly, digest, add_products, split_row, public_key_of, hash_of_public_key, key_gen, polys_eq,
  public_key_of_expanded,
}
use macula_pq.Mldsa.Generate.Ranges.{
  zero_poly-IsPoly, All-IsRanged-IsPoly, map-ntt-IsPoly, add_products-IsPoly, IsSplit,
  split_row-IsSplit,
}

pub rows-IsSplit :
    (l : ℕ) (a_hat : List Polys) (s1_hat s2 : Polys)
    → All (λ row. (length row ≡ l) × All IsPoly row) a_hat
    → All IsPoly s1_hat
    → All IsPoly s2
    → All IsSplit
        (zip_with (λ row e. split_row (ntt_inverse (add_products zero_poly row s1_hat)) e) a_hat s2)
rows-IsSplit l [] s1_hat s2 ha h1 h2 = tt
rows-IsSplit l (row ∷ a_hat) s1_hat [] ha h1 h2 = tt
rows-IsSplit l (row ∷ a_hat) s1_hat (e ∷ s2) ((_, hrow), ha) h1 (he, h2) = (
  split_row-IsSplit (ntt_inverse (add_products zero_poly row s1_hat)) e
      (ntt_inverse-IsPoly (add_products zero_poly row s1_hat)
        (add_products-IsPoly zero_poly row s1_hat zero_poly-IsPoly hrow h1))
      he,
  rows-IsSplit l a_hat s1_hat s2 ha h1 h2,
)

pub halves :
    (rows : List (List ℕ × List ℕ))
    → All IsSplit rows
    → All IsT1 (map (λ r. r.0) rows) × All (IsRanged (2 ^ (d - 1)) d) (map (λ r. r.1) rows)
halves [] h = (tt, tt)
halves (r ∷ rows) ((high, low), h) =
    let (highs, lows) = halves rows h in ((high, highs), (low, lows))

-- What is computed of a private key: the public key, of the right length, and the low parts.
abbrev IsPublic : ParameterSet → List ℕ × Polys → Type 0
IsPublic p k = (length k.0 ≡ public_key_len p) × IsVector p.k (2 ^ (d - 1)) d k.1

public_key_of-Yields :
    (fuel : ℕ) (p : ParameterSet) (rho : List ℕ) (s1 s2 : Polys)
    → IsBounded p
    → length rho ≡ 32
    → IsSecret p p.l s1
    → IsSecret p p.k s2
    → Yields (IsPublic p) (public_key_of fuel p rho s1 s2)
unfolding public_key_of
public_key_of-Yields fuel p rho s1 s2 bounded hr (l1, h1) (l2, h2) =
    Yields->>= (IsMatrix p) (IsPublic p) (expand_a fuel rho p) _
      (expand_a-Yields fuel rho p bounded)
      λ a_hat matrix.
        let inside : leb p.k k_max ≡ true = ground (arith, bounded.rows) in
        let secret = All-IsRanged-IsPoly p.eta (eta_bits p) s1 h1 in
        let s1_hat = map ntt (take p.l s1) in
        let rows =
          zip_with (λ row e. split_row (ntt_inverse (add_products zero_poly row s1_hat)) e) a_hat
            s2 in
        let split =
          rows-IsSplit p.l a_hat s1_hat s2 matrix.1
            (map-ntt-IsPoly (take p.l s1) (All-take IsPoly p.l s1 secret))
            (All-IsRanged-IsPoly p.eta (eta_bits p) s2 h2) in
        let (highs, lows) = halves rows split in
        let size : length rows ≡ p.k = omega (
          arith,
          matrix.0,
          l2,
          length-zip_with (λ row e. split_row (ntt_inverse (add_products zero_poly row s1_hat)) e)
              a_hat s2,
        ) in
        rw (Yields, inside)
          (
            (pk_decode-pk_encode rho (map (λ r. r.0) rows) p hr (length-map (λ r. r.0) rows ∙ size)
                highs).1,
            (length-map (λ r. r.1) rows ∙ size, lows),
          )

polys_eq_refl : (ws : Polys) → polys_eq ws ws ≡ true
unfolding polys_eq
polys_eq_refl [] = refl
polys_eq_refl (w ∷ ws) = rw (list_eq_refl w, polys_eq_refl ws) refl

public_key_of_expanded_of :
    (fuel : ℕ) (p : ParameterSet) (sk pk : List ℕ) (k : PrivateParts)
    → length sk ≡ private_key_len p
    → sk_decode sk p ≡ ok k
    → public_key_of fuel p k.rho k.s1 k.s2 ≡ ok (pk, k.t0)
    → hash_of_public_key pk ≡ k.tr
    → public_key_of_expanded fuel p sk ≡ ok pk
unfolding public_key_of_expanded
public_key_of_expanded_of fuel p sk pk k len e e' e'' =
    let right : (length sk == private_key_len p) ≡ true = ground (arith, len) in
    rw (right, e, e', polys_eq_refl (take p.k k.t0), e'', list_eq_refl k.tr) refl

-- A pair of keys of the standard's lengths, of which the private one determines the public one.
abbrev pub IsKeyPair : ℕ → ParameterSet → List ℕ × List ℕ → Type 0
IsKeyPair fuel p keys =
    (length keys.0 ≡ public_key_len p)
    × (length keys.1 ≡ private_key_len p)
    × (public_key_of_expanded fuel p keys.1 ≡ ok keys.0)

-- A private key whose parts are in their ranges.
abbrev pub IsReadable : ParameterSet → List ℕ → Type 0
IsReadable p sk =
    (k : PrivateParts) × (length sk ≡ private_key_len p)
    × (sk_decode sk p ≡ ok k)
    × IsSecret p p.l k.s1
    × IsSecret p p.k k.s2
    × IsVector p.k (2 ^ (d - 1)) d k.t0

abbrev IsMade : ℕ → ParameterSet → List ℕ × List ℕ → Type 0
IsMade fuel p keys = IsKeyPair fuel p keys × IsReadable p keys.1

pub digest_part : (h : Absorb) (len : ℕ) → length (digest h len) ≡ len
digest_part h len = (finalize_xof-IsBytes h len).0

-- The seeds of a key pair: 32, 64 and 32 bytes of one stream.
key_gen_of :
    (fuel : ℕ) (p : ParameterSet) (rho key pk : List ℕ) (s1 s2 t0 : Polys)
    → IsEta p
    → length rho ≡ 32
    → length key ≡ 32
    → IsSecret p p.l s1
    → IsSecret p p.k s2
    → public_key_of fuel p rho s1 s2 ≡ ok (pk, t0)
    → IsPublic p (pk, t0)
    → IsMade fuel p (pk, sk_encode rho key (hash_of_public_key pk) s1 s2 t0 p)
key_gen_of fuel p rho key pk s1 s2 t0 he hr hk h1 h2 e (len, low) =
    let k : PrivateParts = record {
      rho = rho;
      key = key;
      tr = hash_of_public_key pk;
      s1 = s1;
      s2 = s2;
      t0 = t0;
    } in
    let private : IsPrivate p k = record {
      rho_size = hr;
      key_size = hk;
      tr_size = (unfold hash_of_public_key in digest_part (shake256_update shake256_new pk) 64);
      s1_range = h1;
      s2_range = h2;
      t0_range = low;
    } in
    let (size, back) = sk_decode-sk_encode k p he private in
    (
      (
        len,
        size,
        public_key_of_expanded_of fuel p (sk_encode rho key (hash_of_public_key pk) s1 s2 t0 p) pk k
            size back e refl,
      ),
      (k, size, back, h1, h2, low),
    )

key_gen-IsMade :
    (fuel : ℕ) (p : ParameterSet) (xi : List ℕ)
    → IsBounded p
    → IsEta p
    → Yields (IsMade fuel p) (key_gen fuel p xi)
unfolding key_gen
key_gen-IsMade fuel p xi bounded he =
    let h = shake256_update (shake256_update shake256_new xi) (u8 p.k ∷ u8 p.l ∷ []) in
    let seeds = digest h 128 in
    let size = digest_part h 128 in
    let rho = take 32 seeds in
    let key = drop 96 seeds in
    Yields->>= (λ s. IsSecret p p.l s.0 × IsSecret p p.k s.1) (IsMade fuel p)
      (expand_s fuel (take 64 (drop 32 seeds)) p) _
      (expand_s-Yields fuel (take 64 (drop 32 seeds)) p bounded he)
      λ s secret.
        Yields->>=-eq (IsPublic p) (IsMade fuel p) (public_key_of fuel p rho s.0 s.1) _
          (public_key_of-Yields fuel p rho s.0 s.1 bounded
            (omega (arith, size, length-take 32 seeds)) secret.0 secret.1)
          λ k e public.
            key_gen_of fuel p rho key k.0 s.0 s.1 k.1 he (omega (arith, size, length-take 32 seeds))
              (omega (arith, size, length-drop 96 seeds)) secret.0 secret.1 e public

pub key_gen-IsReadable :
    (fuel : ℕ) (p : ParameterSet) (xi : List ℕ)
    → IsBounded p
    → IsEta p
    → Yields (λ keys. IsReadable p keys.1) (key_gen fuel p xi)
key_gen-IsReadable fuel p xi bounded he =
    Yields-weaken (IsMade fuel p) (λ keys. IsReadable p keys.1) (key_gen fuel p xi) (λ a h. h.1)
      (key_gen-IsMade fuel p xi bounded he)

-- Key generation from any seed, for eta of one of the parameter sets, either runs out of the fuel
-- of its rejection sampling or makes a public key and a private key of the standard's lengths,
-- and from the private key the public key is recomputed.
pub key_gen-IsKeyPair :
    (fuel : ℕ) (p : ParameterSet) (xi : List ℕ)
    → IsBounded p
    → IsEta p
    → Yields (IsKeyPair fuel p) (key_gen fuel p xi)
key_gen-IsKeyPair fuel p xi bounded he =
    Yields-weaken (IsMade fuel p) (IsKeyPair fuel p) (key_gen fuel p xi) (λ a h. h.0)
      (key_gen-IsMade fuel p xi bounded he)
