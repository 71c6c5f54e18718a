-- ===== src/Mldsa/Keys/PublicKey.antt =====
-- A public key decodes to what it was encoded from.
use macula_pq.Common.{
  ℕ, ◌+◌, ◌-◌, ◌*◌, ◌/◌, ◌^◌, ◌<◌, ◌≡◌, refl, ◌∙◌, arith, List, [], ◌∷◌, ◌++◌, map, length, take,
  chunks_exact, chunk_list, length-append, take-append_of_length, drop-append_of_length, length-map,
  take_all, All,
}
use macula_pq.Common.Outcome.{ok, slice_ok, map_outcome}
use macula_pq.Mldsa.Field.{n}
use macula_pq.Mldsa.Params.{ParameterSet, Error, public_key_len}
use macula_pq.Mldsa.Encode.{simple_bit_pack, simple_bit_unpack}
use macula_pq.Mldsa.Encode.Unpack.{unpack-pack}
use macula_pq.Mldsa.Keys.{Polys, t1_bits, encode_polys, pk_encode, pk_decode}

-- 256 coefficients of ten bits.
abbrev pub IsT1 : List ℕ → Type 0
IsT1 w = (length w ≡ n) × All (λ c. c < 2 ^ 10) w

abbrev packed : List ℕ → List ℕ
packed w = simple_bit_pack w t1_bits

simple_round_trip :
    (w : List ℕ)
    → IsT1 w
    → (simple_bit_unpack (packed w) t1_bits ≡ ok w) × (length (packed w) ≡ 320)
unfolding simple_bit_pack simple_bit_unpack
simple_round_trip w (len, fits) = unpack-pack 10 w (omega arith) len fits

length-encode_polys : (ws : Polys) → All IsT1 ws → length (encode_polys packed ws) ≡ 320 * length ws
unfolding encode_polys
length-encode_polys [] h = refl
length-encode_polys (w ∷ ws) (hw, hws) = omega (
  arith,
  length-append (packed w) (encode_polys packed ws),
  (simple_round_trip w hw).1,
  length-encode_polys ws hws,
)

-- The chunks of the bytes are the polynomials' bytes.
chunk_list-encode_polys :
    (ws : Polys) → All IsT1 ws → chunk_list (length ws) 320 (encode_polys packed ws) ≡ map packed ws
unfolding encode_polys
chunk_list-encode_polys [] h = refl
chunk_list-encode_polys (w ∷ ws) (hw, hws) =
    let rest = encode_polys packed ws in
    let len : length (packed w) ≡ 320 = (simple_round_trip w hw).1 in
    rw
      (
        take-append_of_length 320 (packed w) rest len,
        drop-append_of_length 320 (packed w) rest len,
        chunk_list-encode_polys ws hws,
      )
      refl

decode_packed :
    (ws : Polys)
    → All IsT1 ws
    → map_outcome (λ v. simple_bit_unpack v t1_bits) (map packed ws) ≡ ok ws
unfolding map_outcome
decode_packed [] h = refl
decode_packed (w ∷ ws) (hw, hws) = rw ((simple_round_trip w hw).0, decode_packed ws hws) refl

-- For 32 bytes and `k` polynomials of 256 coefficients of ten bits each, decoding gives back what
-- a public key was encoded from, and the encoded key has the length of its parameter set.
pub pk_decode-pk_encode :
    (rho : List ℕ) (t1 : Polys) (p : ParameterSet)
    → length rho ≡ 32
    → length t1 ≡ p.k
    → All IsT1 t1
    → (pk_decode (pk_encode rho t1 p) p ≡ ok (rho, t1))
      × (length (pk_encode rho t1 p) ≡ public_key_len p)
unfolding pk_decode pk_encode chunks_exact
pk_decode-pk_encode rho t1 p hr hk h =
    let body = encode_polys packed t1 in
    let all : take p.k t1 ≡ t1 = take_all p.k t1 (omega arith) in
    let size : length body ≡ 320 * p.k = length-encode_polys t1 h ∙ rw hk refl in
    let total : length (rho ++ body) ≡ 32 + 320 * p.k = omega (arith, length-append rho body) in
    let count : length body / 320 ≡ length t1 = omega arith in
    let rest : length (rho ++ body) - 32 ≡ length body = omega arith in
    let tail : take (length body) body ≡ body = take_all (length body) body (omega arith) in
    let polys : take p.k (map packed t1) ≡ map packed t1 =
      take_all p.k (map packed t1) (omega (arith, length-map packed t1)) in
    (
      rw
          (
            all,
            slice_ok {E = Error} (rho ++ body) 0 32 (omega arith) (omega arith),
            take-append_of_length 32 rho body hr,
            slice_ok {E = Error} (rho ++ body) 32 (length (rho ++ body)) (omega arith)
                (omega arith),
            rest,
            drop-append_of_length 32 rho body hr,
            tail,
            count,
            chunk_list-encode_polys t1 h,
            polys,
            decode_packed t1 h,
          )
          refl,
      rw all (omega arith),
    )
