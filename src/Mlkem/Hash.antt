-- ===== src/Mlkem/Hash.antt =====
-- macula-mlkem/src/hash.rs, and the interface through which the scheme uses the hash functions and
-- the samplers' randomness.
use macula_pq.Common.{
  ℕ, ◌*◌, ◌≡◌, arith, List, length, take, drop, length-take, length-drop, All-take, All-drop,
}
use macula_pq.Common.Word.{IsByte, IsBytes}
use macula_pq.Common.Outcome.{Outcome}
use macula_pq.Keccak.Sponge.{sha3_256, sha3_512, shake256}
use macula_pq.Keccak.Sponge.Streams.{sha3_256-IsBytes, sha3_512-IsBytes, shake256-IsBytes}
use macula_pq.Mlkem.Params.{Error}
use macula_pq.Mlkem.Sample.{sample_ntt, prf}

unfoldable pub h : List ℕ → List ℕ
h s = sha3_256 s

unfoldable pub j : List ℕ → List ℕ
j s = shake256 s 32

unfoldable pub g : List ℕ → List ℕ × List ℕ
g c = let out = sha3_512 c in (take 32 out, drop 32 out)

pub record Primitives : Type 0 where
  pub hash_h : List ℕ → List ℕ
  pub hash_j : List ℕ → List ℕ
  pub hash_g : List ℕ → List ℕ × List ℕ
  pub noise_prf : ℕ → List ℕ → ℕ → List ℕ
  pub expand : List ℕ → Outcome Error (List ℕ)

-- The sizes that the scheme relies on: every output is a string of so many bytes.
abbrev pub IsBytesOf : ℕ → List ℕ → Type 0
IsBytesOf size b = (length b ≡ size) × IsBytes b

pub record IsSized (P : Primitives) : Type 0 where
  pub h_size : (s : List ℕ) → IsBytesOf 32 (P.hash_h s)
  pub j_size : (s : List ℕ) → IsBytesOf 32 (P.hash_j s)
  pub g_size : (s : List ℕ) → IsBytesOf 32 (P.hash_g s).0 × IsBytesOf 32 (P.hash_g s).1
  pub prf_size : (eta : ℕ) (s : List ℕ) (b : ℕ) → IsBytesOf (64 * eta) (P.noise_prf eta s b)

-- The implementation: Keccak, and `fuel` reads for each polynomial of the matrix.
abbrev pub keccak_primitives : ℕ → Primitives
keccak_primitives fuel = record {
  hash_h = h;
  hash_j = j;
  hash_g = g;
  noise_prf = prf;
  expand = sample_ntt fuel;
}

g_bytes : (s : List ℕ) → IsBytesOf 32 (g s).0 × IsBytesOf 32 (g s).1
unfolding g
g_bytes s =
    let (len, bytes) = sha3_512-IsBytes s in
    (
      (omega (arith, length-take 32 (sha3_512 s), len), All-take IsByte 32 (sha3_512 s) bytes),
      (omega (arith, length-drop 32 (sha3_512 s), len), All-drop IsByte 32 (sha3_512 s) bytes),
    )

-- The hash functions and the noise stream of ML-KEM, on Keccak, return byte strings of the sizes
-- the scheme relies on, for every input.
pub keccak_primitives-IsSized : (fuel : ℕ) → IsSized (keccak_primitives fuel)
unfolding h j prf
keccak_primitives-IsSized fuel = record {
  h_size = λ s. sha3_256-IsBytes s;
  j_size = λ s. shake256-IsBytes s 32;
  g_size = λ s. g_bytes s;
  prf_size = λ eta s b. shake256-IsBytes _ (64 * eta);
}
