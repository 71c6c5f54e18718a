-- ===== src/Mlkem/Kpke/Total.antt =====
-- Encryption and decryption end in a value on inputs of the lengths that a parameter set fixes: no
-- assertion fails and no slice is out of range. The one thing assumed is that the rejection sampling
-- of the matrix ends.
use macula_pq.Common.{
  ltb, true, ℕ, zero, suc, ◌+◌, ◌-◌, ◌*◌, ◌/◌, ◌≤◌, ◌≡◌, refl, ap, arith, List, [], ◌∷◌, ◌++◌, map,
  length, take, drop, All, zip_with, count_from, chunk_list, chunks_exact, length-take, length-drop,
  length-append, length-count_from, length-map, length-zip_with, foldl, replicate, length-replicate,
  All-replicate, All-append,
}
use macula_pq.Common.Word.{IsByte, u8}
use macula_pq.Mlkem.Sample.{sample_poly_cbd, cbd_coeff}
use macula_pq.Common.Outcome.{ok, slice_ok, map_outcome, map_outcome_ok, ◌>>=◌}
use native.Mathlib.Nat.{div-add-mod}
use macula_pq.Mlkem.Field.{n}
use macula_pq.Mlkem.Encode.{byte_encode, byte_decode, get_coeffs, put_coeff, compress_poly}
use macula_pq.Mlkem.Encode.Buffer.{IsBuffer, put_coeffs-IsBuffer, byte_decode_ok}
use macula_pq.Mlkem.Ntt.{ntt, intt, poly_add}
use macula_pq.Mlkem.Params.{ParameterSet, IsAdmissible, Error, ciphertext_len, encaps_key_len}
use macula_pq.Mlkem.Hash.{Primitives, IsSized, IsBytesOf}
use macula_pq.Mlkem.Kpke.{
  Fallible, Polys, decrypt, encrypt, split_at, encode_all, matrix, noise, inner_product, column,
}

-- A computation that ends in a value with the property.
abbrev pub Returns : {A : Type 0} → (A → Type 0) → Fallible A → Type 0
Returns {A} P m = (a : A) × (m ≡ ok a) × P a

pub Returns->>= :
    {A B : Type 0} (P : A → Type 0) (Q : B → Type 0) (m : Fallible A) (k : A → Fallible B)
    → Returns P m
    → ((a : A) → P a → Returns Q (k a))
    → Returns Q (m >>= k)
Returns->>= P Q m k (a, e, p) h = let (b, e', q) = h a p in (b, rw e e', q)

chunk_list-IsChunk :
    (left size : ℕ) (xs : List ℕ)
    → left * size ≤ length xs
    → All (λ c. length c ≡ size) (chunk_list left size xs)
chunk_list-IsChunk zero size xs h = tt
chunk_list-IsChunk (suc left) size xs h = (
  omega (arith, length-take size xs),
  chunk_list-IsChunk left size (drop size xs) (omega (arith, length-drop size xs)),
)

pub chunks_exact-IsChunk :
    (size : ℕ) (xs : List ℕ) → All (λ c. length c ≡ size) (chunks_exact size xs)
unfolding chunks_exact
chunks_exact-IsChunk size xs =
    chunk_list-IsChunk (length xs / size) size xs (omega (arith, div-add-mod (length xs) size))

pub byte_encode-Returns :
    (d : ℕ) (f : List ℕ) (size : ℕ)
    → size ≡ 32 * d
    → Returns (IsBytesOf size) (byte_encode d f size)
unfolding byte_encode
byte_encode-Returns d f size h =
    let start : IsBuffer size (0, replicate size 0) =
      (length-replicate size 0, All-replicate IsByte size 0 (omega arith)) in
    (
      (foldl (put_coeff d) (0, replicate size 0) f).1,
      ground arith,
      put_coeffs-IsBuffer size d f _ start,
    )

pub encode_all-Returns :
    (d : ℕ) (fs : Polys) → Returns (IsBytesOf (length fs * (32 * d))) (encode_all d fs)
unfolding encode_all
encode_all-Returns d [] = ([], refl, (omega arith, tt))
encode_all-Returns d (f ∷ fs) =
    let (b, e, (len, bytes)) = byte_encode-Returns d f (32 * d) refl in
    let (rest, e', (len', bytes')) = encode_all-Returns d fs in
    (
      b ++ rest,
      rw (e, e'),
      (omega (arith, length-append b rest, len, len'), All-append IsByte b rest bytes bytes'),
    )

pub sample_poly_cbd-Returns :
    (eta : ℕ) (bytes : List ℕ)
    → length bytes ≡ 64 * eta
    → Returns (λ f. length f ≡ n) (sample_poly_cbd eta bytes)
unfolding sample_poly_cbd
sample_poly_cbd-Returns eta bytes h = (
  map (cbd_coeff eta bytes) (count_from 0 n),
  ground arith,
  length-map (cbd_coeff eta bytes) (count_from 0 n),
)

module _ (P : Primitives) (sized : IsSized P) where
  pub noise-Returns :
      (eta k : ℕ) (sigma : List ℕ) (counter : ℕ)
      → Returns (λ s. length s.0 ≡ k) (noise P eta k sigma counter)
  unfolding noise
  noise-Returns eta zero sigma counter = (([], counter), refl, refl)
  noise-Returns eta (suc k) sigma counter =
      let (f, e, size) = sample_poly_cbd-Returns eta _ (sized.prf_size eta sigma counter).0 in
      let ((fs, c), e', len) = noise-Returns eta k sigma (u8 (counter + 1)) in
      ((f ∷ fs, c), rw (e, e'), ap suc len)

decode_chunks :
    (d : ℕ) (xs : List ℕ)
    → map_outcome (byte_decode d) (chunks_exact (32 * d) xs)
      ≡ ok (map (λ b. get_coeffs d b n 0) (chunks_exact (32 * d) xs))
decode_chunks d xs =
    map_outcome_ok (λ c. length c ≡ 32 * d) (byte_decode d) (λ b. get_coeffs d b n 0)
      (λ b h. byte_decode_ok d b h) _ (chunks_exact-IsChunk (32 * d) xs)

-- For a ciphertext of the right length, decryption under any key returns 32 bytes, without an
-- error or a panic. The parameter set's k is at most 4, and its du and dv are between 1 and 12.
pub decrypt-Returns :
    (p : ParameterSet) (dk_pke c : List ℕ)
    → IsAdmissible p
    → length c ≡ ciphertext_len p
    → Returns (IsBytesOf 32) (decrypt p dk_pke c)
unfolding decrypt
decrypt-Returns p dk_pke c adm h =
    let positive : ltb 0 p.du ≡ true = ground (arith, adm.du_positive) in
    let mid = 32 * p.du * p.k in
    let e1 : split_at c mid ≡ ok (take mid c, drop mid c) = unfold split_at in ground arith in
    let e3 = byte_decode_ok p.dv (drop mid c) (omega (arith, length-drop mid c)) in
    rw (e1, positive, decode_chunks p.du (take mid c), e3, decode_chunks 12 dk_pke)
      (byte_encode-Returns 1 _ 32 refl)

-- The two parts of a ciphertext.
encode_pair :
    (p : ParameterSet) (us : Polys) (v : List ℕ)
    → length us ≡ p.k
    → Returns
        (IsBytesOf (ciphertext_len p))
        (encode_all p.du us >>= λ c1. byte_encode p.dv v (32 * p.dv) >>= λ c2. ok (c1 ++ c2))
encode_pair p us v len =
    let (c1, e, (l, b)) = encode_all-Returns p.du us in
    let (c2, e', (l', b')) = byte_encode-Returns p.dv v (32 * p.dv) refl in
    let size : length us * (32 * p.du) ≡ 32 * (p.du * p.k) = rw len (omega arith) in
    (
      c1 ++ c2,
      rw (e, e'),
      (omega (arith, length-append c1 c2, l, l', size), All-append IsByte c1 c2 b b'),
    )

-- The seed of the matrix in an encapsulation key.
abbrev pub rho_of : ParameterSet → List ℕ → List ℕ
rho_of p ek = take 32 (drop (384 * p.k) ek)

module _ (P : Primitives) (sized : IsSized P) where
  -- For an encryption key and a message of the right lengths, encryption returns a ciphertext of
  -- the right length made of bytes, without an error or a panic. Assumed: the hash functions have
  -- their output sizes, and the sampling of the key's matrix ends. The parameter set's k is at
  -- most 4, and its du and dv are between 1 and 12.
  pub encrypt-Returns :
      (p : ParameterSet) (ek m r : List ℕ) (a : List Polys)
      → IsAdmissible p
      → length ek ≡ encaps_key_len p
      → length m ≡ 32
      → matrix P p.k (rho_of p ek) ≡ ok a
      → Returns (IsBytesOf (ciphertext_len p)) (encrypt P p ek m r)
  unfolding encrypt
  encrypt-Returns p ek m r a adm he hm sampled =
      let positive : ltb 0 p.du ≡ true = ground (arith, adm.du_positive) in
      let s1 = slice_ok {E = Error} ek 0 (384 * p.k) (omega arith) (omega arith) in
      let s2 = slice_ok {E = Error} ek (384 * p.k) (384 * p.k + 32) (omega arith) (omega arith) in
      let width : 384 * p.k + 32 - 384 * p.k ≡ 32 = omega arith in
      let (y, ey, ly) = noise-Returns P sized p.eta1 p.k r 0 in
      let (e1, ee1, le1) = noise-Returns P sized p.eta2 p.k r y.1 in
      let (e2, ee2, le2) = sample_poly_cbd-Returns p.eta2 _ (sized.prf_size p.eta2 r e1.1).0 in
      let em = byte_decode_ok 1 m hm in
      rw
        (
          s1,
          decode_chunks 12 (take (384 * p.k - 0) (drop 0 ek)),
          s2,
          width,
          sampled,
          ey,
          ee1,
          ee2,
          em,
          positive,
        )
        (encode_pair p _ _ (
          omega (
            arith,
            length-map (compress_poly p.du) (
                zip_with (λ i e1i. poly_add (intt (inner_product (column a i) (map ntt y.0))) e1i)
                  (count_from 0 (length e1.0)) e1.0),
            length-zip_with
                (λ i e1i. poly_add (intt (inner_product (column a i) (map ntt y.0))) e1i)
                (count_from 0 (length e1.0)) e1.0,
            length-count_from 0 (length e1.0),
            le1,
          )))
