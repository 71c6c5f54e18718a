-- ===== src/Mldsa/Correct/Pair.antt =====
-- macula-mldsa/src/internal.rs: what key generation made a pair of keys from, and the signer of the private one.
use macula_pq.Common.{
  ℕ, ◌≡◌, ◌∙◌, refl, ap₂, arith, leb, true, List, [], ◌∷◌, map, length, All, take, drop,
  length-take, length-drop, length-map, length-zip_with, take_all, All-take,
}
use macula_pq.Common.Outcome.{ok, slice}
use macula_pq.Common.Yields.{Yields, Yields->>=, Yields->>=-eq}
use macula_pq.Common.Word.{u8}
use macula_pq.Keccak.Sponge.{shake256_new, shake256_update}
use macula_pq.Mldsa.Params.{ParameterSet, Error, eta_bits, public_key_len, private_key_len}
use macula_pq.Mldsa.Ntt.{ntt}
use macula_pq.Mldsa.Ntt.Range.{IsPoly}
use macula_pq.Mldsa.Keys.{Polys, PrivateParts, pk_encode, pk_decode, sk_encode, sk_decode}
use macula_pq.Mldsa.Keys.PublicKey.{pk_decode-pk_encode}
use macula_pq.Mldsa.Keys.PrivateKey.{IsPrivate, sk_decode-sk_encode, slice-sk_encode}
use macula_pq.Mldsa.Sample.{k_max, expand_a, expand_s}
use macula_pq.Mldsa.Sample.Total.{IsBounded, IsMatrix, expand_a-Yields}
use macula_pq.Mldsa.Sample.Secret.{IsEta, IsShort, IsShort-IsSecret, expand_s-IsShort}
use macula_pq.Mldsa.Generate.{digest, split_row, public_key_of, hash_of_public_key, key_gen}
use macula_pq.Mldsa.Generate.Ranges.{All-IsRanged-IsPoly, map-ntt-IsPoly}
use macula_pq.Mldsa.Generate.Consistent.{IsReadable, rows-IsSplit, halves, digest_part}
use macula_pq.Mldsa.Sign.{Signer, signer_of}
use macula_pq.Mldsa.Correct.Rows.{image, split_rows}

-- The matrix, the secrets and the seeds of a pair.
pub record Origin : Type 0 where
  pub rho : List ℕ
  pub key : List ℕ
  pub s1 : Polys
  pub s2 : Polys
  pub a_hat : List Polys

abbrev pub s1_hat_of : ParameterSet → Origin → Polys
s1_hat_of p o = map ntt (take p.l o.s1)

abbrev pub rows_of : ParameterSet → Origin → List (List ℕ × List ℕ)
rows_of p o = split_rows (s1_hat_of p o) o.a_hat o.s2

abbrev pub highs_of : ParameterSet → Origin → Polys
highs_of p o = map (λ r. r.0) (rows_of p o)

abbrev pub lows_of : ParameterSet → Origin → Polys
lows_of p o = map (λ r. r.1) (rows_of p o)

pub record IsOrigin (fuel : ℕ) (p : ParameterSet) (o : Origin) : Type 0 where
  pub rho_size : length o.rho ≡ 32
  pub key_size : length o.key ≡ 32
  pub s1_short : IsShort p p.l o.s1
  pub s2_short : IsShort p p.k o.s2
  pub expanded_to : expand_a fuel o.rho p ≡ ok o.a_hat
  pub matrix : IsMatrix p o.a_hat

abbrev pub public_of : ParameterSet → Origin → List ℕ
public_of p o = pk_encode o.rho (highs_of p o) p

abbrev pub private_of : ParameterSet → Origin → List ℕ
private_of p o =
    sk_encode o.rho o.key (hash_of_public_key (public_of p o)) o.s1 o.s2 (lows_of p o) p

-- A pair of keys, with what it was made from.
abbrev pub IsPair : ℕ → ParameterSet → List ℕ × List ℕ → Type 0
IsPair fuel p keys =
    (o : Origin) × IsOrigin fuel p o × (keys.0 ≡ public_of p o) × (keys.1 ≡ private_of p o)

public_key_of-Yields :
    (fuel : ℕ) (p : ParameterSet) (rho key : List ℕ) (s1 s2 : Polys)
    → IsBounded p
    → length rho ≡ 32
    → length key ≡ 32
    → IsShort p p.l s1
    → IsShort p p.k s2
    → Yields
        (λ k. IsPair fuel p (k.0, sk_encode rho key (hash_of_public_key k.0) s1 s2 k.1 p))
        (public_key_of fuel p rho s1 s2)
unfolding public_key_of
public_key_of-Yields fuel p rho key s1 s2 bounded hr hk h1 h2 =
    Yields->>=-eq (IsMatrix p)
      (λ k. IsPair fuel p (k.0, sk_encode rho key (hash_of_public_key k.0) s1 s2 k.1 p))
      (expand_a fuel rho p) _ (expand_a-Yields fuel rho p bounded)
      λ a_hat e matrix.
        let inside : leb p.k k_max ≡ true = ground (arith, bounded.rows) in
        rw (Yields, inside)
          (
            record { rho = rho; key = key; s1 = s1; s2 = s2; a_hat = a_hat },
            record {
              rho_size = hr;
              key_size = hk;
              s1_short = h1;
              s2_short = h2;
              expanded_to = e;
              matrix = matrix;
            },
            refl,
            refl,
          )

pub key_gen-IsPair :
    (fuel : ℕ) (p : ParameterSet) (xi : List ℕ)
    → IsBounded p
    → IsEta p
    → Yields (IsPair fuel p) (key_gen fuel p xi)
unfolding key_gen
key_gen-IsPair fuel p xi bounded he =
    let h = shake256_update (shake256_update shake256_new xi) (u8 p.k ∷ u8 p.l ∷ []) in
    let seeds = digest h 128 in
    let size = digest_part h 128 in
    let rho = take 32 seeds in
    let key = drop 96 seeds in
    let hr : length rho ≡ 32 = omega (arith, size, length-take 32 seeds) in
    let hk : length key ≡ 32 = omega (arith, size, length-drop 96 seeds) in
    Yields->>= (λ s. IsShort p p.l s.0 × IsShort p p.k s.1) (IsPair fuel p)
      (expand_s fuel (take 64 (drop 32 seeds)) p) _
      (expand_s-IsShort fuel (take 64 (drop 32 seeds)) p bounded he)
      λ s short.
        Yields->>=
          (λ k. IsPair fuel p (k.0, sk_encode rho key (hash_of_public_key k.0) s.0 s.1 k.1 p))
          (IsPair fuel p) (public_key_of fuel p rho s.0 s.1) _
          (public_key_of-Yields fuel p rho key s.0 s.1 bounded hr hk short.0 short.1) λ k pair. pair

-- The signer that the private key gives.
abbrev pub signer_with : ParameterSet → Origin → List ℕ → List ℕ → Signer
signer_with p o rho_pp mu = record {
  s1_hat = s1_hat_of p o;
  s2_hat = map ntt o.s2;
  t0_hat = map ntt (lows_of p o);
  a_hat = o.a_hat;
  rho_pp = rho_pp;
  mu = mu;
}

abbrev pub IsSignerOf : ParameterSet → Origin → List ℕ → Signer → Type 0
IsSignerOf p o mu k = (rho_pp : List ℕ) × (k ≡ signer_with p o rho_pp mu)

module _ (fuel : ℕ) (p : ParameterSet) (o : Origin) (he : IsEta p) (h : IsOrigin fuel p o) where
  pub s1_polys : All IsPoly (s1_hat_of p o)
  s1_polys = map-ntt-IsPoly (take p.l o.s1) (
      All-take IsPoly p.l o.s1
        (All-IsRanged-IsPoly p.eta (eta_bits p) o.s1 (IsShort-IsSecret p p.l o.s1 h.s1_short).1))

  s2_polys : All IsPoly o.s2
  s2_polys = All-IsRanged-IsPoly p.eta (eta_bits p) o.s2 (IsShort-IsSecret p p.k o.s2 h.s2_short).1

  count : length (rows_of p o) ≡ p.k
  count = omega (
    arith,
    h.matrix.0,
    h.s2_short.0,
    length-zip_with (λ row e. split_row (image (s1_hat_of p o) row) e) o.a_hat o.s2,
  )

  parts_of : PrivateParts
  parts_of = record {
    rho = o.rho;
    key = o.key;
    tr = hash_of_public_key (public_of p o);
    s1 = o.s1;
    s2 = o.s2;
    t0 = lows_of p o;
  }

  is_private : IsPrivate p parts_of
  unfolding parts_of
  is_private = record {
    rho_size = h.rho_size;
    key_size = h.key_size;
    tr_size =
        (unfold hash_of_public_key in
          digest_part (shake256_update shake256_new (public_of p o)) 64);
    s1_range = IsShort-IsSecret p p.l o.s1 h.s1_short;
    s2_range = IsShort-IsSecret p p.k o.s2 h.s2_short;
    t0_range = (
      length-map (λ r. r.1) (rows_of p o) ∙ count,
      (halves (rows_of p o)
          (rows-IsSplit p.l o.a_hat (s1_hat_of p o) o.s2 h.matrix.1 s1_polys s2_polys)).1,
    );
  }

  -- The public key decodes to what it was made from.
  pub public_key_decodes :
      (pk_decode (public_of p o) p ≡ ok (o.rho, highs_of p o))
      × (length (public_of p o) ≡ public_key_len p)
  public_key_decodes =
      pk_decode-pk_encode o.rho (highs_of p o) p h.rho_size
        (length-map (λ r. r.0) (rows_of p o) ∙ count)
        (halves (rows_of p o)
          (rows-IsSplit p.l o.a_hat (s1_hat_of p o) o.s2 h.matrix.1 s1_polys s2_polys)).0

  pub tr_of_private :
      slice {E = Error} (private_of p o) 64 128 ≡ ok (hash_of_public_key (public_of p o))
  tr_of_private = unfold parts_of in slice-sk_encode parts_of p he is_private

  private_decodes :
      (length (private_of p o) ≡ private_key_len p) × (sk_decode (private_of p o) p ≡ ok parts_of)
  private_decodes = unfold parts_of in sk_decode-sk_encode parts_of p he is_private

  pub private-IsReadable : IsReadable p (private_of p o)
  private-IsReadable =
      let hp = is_private in
      (parts_of, private_decodes.0, private_decodes.1, hp.s1_range, hp.s2_range, hp.t0_range)

  pub signer_of-IsSignerOf :
      (mu rnd : List ℕ) → Yields (IsSignerOf p o mu) (signer_of fuel p (private_of p o) mu rnd)
  unfolding signer_of parts_of
  signer_of-IsSignerOf mu rnd =
      let lows : length (lows_of p o) ≡ p.k = length-map (λ r. r.1) (rows_of p o) ∙ count in
      rw (private_decodes.1, h.expanded_to)
        (
          _,
          ap₂
              (λ e t. record {
                s1_hat = s1_hat_of p o;
                s2_hat = map ntt e;
                t0_hat = map ntt t;
                a_hat = o.a_hat;
                rho_pp =
                    digest
                      (shake256_update (shake256_update (shake256_update shake256_new o.key) rnd)
                        mu)
                      64;
                mu = mu;
              })
              (take_all p.k o.s2 (omega (arith, h.s2_short.0)))
              (take_all p.k (lows_of p o) (omega (arith, lows))),
        )
