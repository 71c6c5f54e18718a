-- ===== src/Mldsa/Keys.antt =====
-- macula-mldsa/src/encode.rs: the byte strings of keys and signatures. What the source writes into a
-- buffer of the right length, left to right, is the list of its parts. A vector is the list of the
-- polynomials in use; the others of the source's arrays stay zero.
pub mod PublicKey
pub mod Vectors
pub mod PrivateKey
pub mod Signatures
use macula_pq.Common.{
  ℕ, zero, suc, ◌+◌, ◌-◌, ◌*◌, ◌/◌, ◌^◌, Option, none, some, List, [], ◌∷◌, ◌++◌, foldl, take, drop,
  length, chunks_exact,
}
use macula_pq.Common.Outcome.{Outcome, ok, slice, map_outcome, ◌>>=◌}
use macula_pq.Keccak.Sponge.{Absorb, shake256_update}
use macula_pq.Mldsa.Field.{d}
use macula_pq.Mldsa.Params.{ParameterSet, Error, z_bits, w1_bits, eta_bits}
use macula_pq.Mldsa.Encode.{Fallible, simple_bit_pack, bit_pack, simple_bit_unpack, bit_unpack}
use macula_pq.Mldsa.Encode.Hint.{hint_bit_pack}
use macula_pq.Mldsa.Encode.HintUnpack.{hint_bit_unpack}

abbrev pub Polys : Type 0
Polys = List (List ℕ)

abbrev pub t1_bits : ℕ
t1_bits = 10

-- Each polynomial's bytes in turn.
unfoldable pub encode_polys : (List ℕ → List ℕ) → Polys → List ℕ
encode_polys f [] = []
encode_polys f (w ∷ ws) = f w ++ encode_polys f ws

unfoldable pub pk_encode : List ℕ → Polys → ParameterSet → List ℕ
unfolding encode_polys
pk_encode rho t1 p = rho ++ encode_polys (λ w. simple_bit_pack w t1_bits) (take p.k t1)

unfoldable pub pk_decode : List ℕ → ParameterSet → Fallible (List ℕ × Polys)
pk_decode pk p = do
  rho ← slice pk 0 32
  rest ← slice pk 32 (length pk)
  t1 ← map_outcome (λ v. simple_bit_unpack v t1_bits) (take p.k (chunks_exact (32 * t1_bits) rest))
  ok (rho, t1)

unfoldable pub sk_encode : List ℕ → List ℕ → List ℕ → Polys → Polys → Polys → ParameterSet → List ℕ
unfolding encode_polys
sk_encode rho key tr s1 s2 t0 p =
    rho
    ++ (key
        ++ (tr
            ++ (encode_polys (λ w. bit_pack w p.eta (eta_bits p)) (take p.l s1 ++ take p.k s2)
                ++ encode_polys (λ w. bit_pack w (2 ^ (d - 1)) d) (take p.k t0))))

-- `count` polynomials of `32 * bits` bytes each, from `at` on.
unfoldable pub unpack_polys : ℕ → ℕ → List ℕ → ℕ → ℕ → Fallible Polys
unpack_polys zero at bytes b bits = ok []
unpack_polys (suc count) at bytes b bits = do
  v ← slice bytes at (at + 32 * bits)
  w ← bit_unpack v b bits
  rest ← unpack_polys count (at + 32 * bits) bytes b bits
  ok (w ∷ rest)

pub record PrivateParts : Type 0 where
  pub rho : List ℕ
  pub key : List ℕ
  pub tr : List ℕ
  pub s1 : Polys
  pub s2 : Polys
  pub t0 : Polys

unfoldable pub sk_decode : List ℕ → ParameterSet → Fallible PrivateParts
unfolding unpack_polys
sk_decode sk p = do
  rho ← slice sk 0 32
  key ← slice sk 32 64
  tr ← slice sk 64 128
  let eb = eta_bits p
  s ← unpack_polys (p.l + p.k) 128 sk p.eta eb
  t0 ← unpack_polys p.k (128 + (p.l + p.k) * (32 * eb)) sk (2 ^ (d - 1)) d
  ok (record { rho = rho; key = key; tr = tr; s1 = take p.l s; s2 = drop p.l s; t0 = t0 })

pub record Signature : Type 0 where
  pub c_tilde : List ℕ
  pub z : Polys
  pub h : Polys

unfoldable pub sig_encode : List ℕ → Polys → Polys → ParameterSet → Fallible (List ℕ)
unfolding encode_polys
sig_encode c_tilde z h p = do
  hint ← hint_bit_pack h p
  ok (c_tilde ++ (encode_polys (λ w. bit_pack w p.gamma1 (z_bits p)) (take p.l z) ++ hint))

-- The signature that a hint makes, if it is well formed.
abbrev pub signature_of : List ℕ → Polys → Option Polys → Option Signature
signature_of c_tilde z none = none
signature_of c_tilde z (some h) = some (record { c_tilde = c_tilde; z = z; h = h })

unfoldable pub sig_decode : List ℕ → ParameterSet → Fallible (Option Signature)
unfolding unpack_polys
sig_decode sig p = do
  let c_len = p.lambda / 4
  let zb = z_bits p
  z ← unpack_polys p.l c_len sig p.gamma1 zb
  hint ← slice sig (c_len + p.l * 32 * zb) (length sig)
  c_tilde ← slice sig 0 c_len
  ok (signature_of c_tilde z (hint_bit_unpack hint p))

unfoldable pub w1_encode_into : Absorb → Polys → ParameterSet → Absorb
w1_encode_into h w1 p =
    foldl (λ h poly. shake256_update h (simple_bit_pack poly (w1_bits p))) h (take p.k w1)
