-- ===== src/Mlkem/Kpke.antt =====
-- macula-mlkem/src/kpke.rs: K-PKE, over the hash functions as an interface.
pub mod Total
use macula_pq.Common.{
  ℕ, zero, suc, ◌+◌, ◌*◌, List, [], ◌∷◌, ◌++◌, map, foldl, length, get_or, take, drop, replicate,
  count_from, zip_with, chunks_exact, leb, ltb, if◌then◌else◌,
}
use macula_pq.Common.Outcome.{Outcome, ok, panic, slice, map_outcome, assert, ◌>>=◌, ◌>>◌}
use macula_pq.Common.Word.{u8}
use macula_pq.Mlkem.Field.{n}
use macula_pq.Mlkem.Ntt.{ntt, intt, multiply_ntts, poly_add, poly_sub}
use macula_pq.Mlkem.Encode.{byte_encode, byte_decode, compress_poly, decompress_poly}
use macula_pq.Mlkem.Sample.{sample_poly_cbd}
use macula_pq.Mlkem.Hash.{Primitives}
use macula_pq.Mlkem.Params.{ParameterSet, Error}

-- A polynomial, a vector and a matrix of them.
abbrev pub Poly : Type 0
Poly = List ℕ

abbrev pub Polys : Type 0
Polys = List Poly

abbrev pub Fallible : Type 0 → Type 0
Fallible A = Outcome Error A

-- `fold` over the zipped vectors.
unfoldable pub inner_product : Polys → Polys → Poly
inner_product a b = foldl poly_add (replicate n 0) (zip_with multiply_ntts a b)

-- The chunks of the output buffer, one for each polynomial, written in turn.
unfoldable pub encode_all : ℕ → Polys → Fallible (List ℕ)
encode_all d [] = ok []
encode_all d (f ∷ fs) = do
  bytes ← byte_encode d f (32 * d)
  rest ← encode_all d fs
  ok (bytes ++ rest)

unfoldable pub split_at : List ℕ → ℕ → Fallible (List ℕ × List ℕ)
split_at xs mid = if leb mid (length xs) then ok (take mid xs, drop mid xs) else panic

-- `row[i]`; every row has `k` entries.
abbrev pub column : List Polys → ℕ → Polys
column a i = map (λ row. get_or row i []) a

module _ (P : Primitives) where
  unfoldable pub matrix : ℕ → List ℕ → Fallible (List Polys)
  matrix k rho =
      map_outcome (λ i. map_outcome (λ j. P.expand (rho ++ (u8 j ∷ u8 i ∷ []))) (count_from 0 k))
        (count_from 0 k)

  -- The polynomials and the counter after them.
  unfoldable pub noise : ℕ → ℕ → List ℕ → ℕ → Fallible (Polys × ℕ)
  noise eta zero sigma counter = ok ([], counter)
  noise eta (suc k) sigma counter = do
    f ← sample_poly_cbd eta (P.noise_prf eta sigma counter)
    (fs, counter') ← noise eta k sigma (u8 (counter + 1))
    ok (f ∷ fs, counter')

  unfoldable pub key_gen : ParameterSet → List ℕ → Fallible (List ℕ × List ℕ)
  unfolding noise matrix encode_all inner_product
  key_gen p d = do
    let (rho, sigma) = P.hash_g (d ++ (u8 p.k ∷ []))
    a ← matrix p.k rho
    (s, counter) ← noise p.eta1 p.k sigma 0
    (e, _) ← noise p.eta1 p.k sigma counter
    let s_hat = map ntt s
    let e_hat = map ntt e
    let t = zip_with (λ row ei. poly_add (inner_product row s_hat) ei) a e_hat
    t_bytes ← encode_all 12 t
    s_bytes ← encode_all 12 s_hat
    ok (t_bytes ++ rho, s_bytes)

  -- `chunks_exact_mut` panics when the chunks are to have no bytes.
  unfoldable pub encrypt : ParameterSet → List ℕ → List ℕ → List ℕ → Fallible (List ℕ)
  unfolding noise matrix encode_all inner_product
  encrypt p ek m r = do
    t_bytes ← slice ek 0 (384 * p.k)
    t ← map_outcome (byte_decode 12) (chunks_exact 384 t_bytes)
    rho ← slice ek (384 * p.k) (384 * p.k + 32)
    a ← matrix p.k rho
    (y, n1) ← noise p.eta1 p.k r 0
    (e1, n2) ← noise p.eta2 p.k r n1
    e2 ← sample_poly_cbd p.eta2 (P.noise_prf p.eta2 r n2)
    let y_hat = map ntt y
    let u =
        zip_with (λ i e1i. poly_add (intt (inner_product (column a i) y_hat)) e1i)
          (count_from 0 (length e1)) e1
    m_bits ← byte_decode 1 m
    let mu = decompress_poly 1 m_bits
    let v = poly_add (poly_add (intt (inner_product t y_hat)) e2) mu
    assert (ltb 0 p.du)
    c1 ← encode_all p.du (map (compress_poly p.du) u)
    c2 ← byte_encode p.dv (compress_poly p.dv v) (32 * p.dv)
    ok (c1 ++ c2)

-- `chunks_exact` panics in the same way.
unfoldable pub decrypt : ParameterSet → List ℕ → List ℕ → Fallible (List ℕ)
unfolding inner_product split_at
decrypt p dk_pke c = do
  (c1, c2) ← split_at c (32 * p.du * p.k)
  assert (ltb 0 p.du)
  u_coded ← map_outcome (byte_decode p.du) (chunks_exact (32 * p.du) c1)
  v_coded ← byte_decode p.dv c2
  s ← map_outcome (byte_decode 12) (chunks_exact 384 dk_pke)
  let u = map ntt (map (decompress_poly p.du) u_coded)
  let v = decompress_poly p.dv v_coded
  let w = poly_sub v (intt (inner_product s u))
  byte_encode 1 (compress_poly 1 w) 32
