-- ===== src/Mldsa/Sign/Offer.antt =====
-- macula-mldsa/src/internal.rs: what an attempt of the signing loop makes a signature from.
use macula_pq.Common.{ℕ, ◌/◌, ◌≡◌, true, Option, none, some, List, map, length, All, zip_with}
use macula_pq.Common.Outcome.{ok}
use macula_pq.Keccak.Sponge.{shake256_new, shake256_update}
use macula_pq.Mldsa.Field.{add, sub, from_signed}
use macula_pq.Mldsa.Rounding.{high_bits, low_bits}
use macula_pq.Mldsa.Params.{ParameterSet, signature_len}
use macula_pq.Mldsa.Ntt.{ntt, ntt_inverse}
use macula_pq.Mldsa.Ntt.Range.{IsPoly}
use macula_pq.Mldsa.Keys.{Polys, Signature, sig_decode, w1_encode_into}
use macula_pq.Mldsa.Keys.Signatures.{IsSignature}
use macula_pq.Mldsa.Sample.{sample_in_ball}
use macula_pq.Mldsa.Generate.{zero_poly, digest, add_products}
use macula_pq.Mldsa.Sign.{
  Signer, times, norm, hint_rows, count_ones, z_and_r0_releasable, hint_releasable,
}
use macula_pq.Mldsa.Sign.Norm.{IsBelow}

-- A signature of the standard's length that decodes, with a response below the bound and at most
-- omega ones in its hint.
abbrev pub IsReleased : ParameterSet → ℕ → List ℕ → Type 0
IsReleased p z_bound sig =
    (s : Signature) × (length sig ≡ signature_len p)
    × (sig_decode sig p ≡ ok (some s))
    × IsSignature p s
    × All (IsBelow z_bound) s.z

-- A property of the signature, if there is one.
abbrev pub IfSome : (List ℕ → Type 0) → Option (List ℕ) → Type 0
IfSome P none = Unit
IfSome P (some sig) = P sig

-- What an attempt makes of a mask, a challenge and the key: `w`, `c s2`, `c t0`, the response, the
-- low bits, the hint, and the commitment.
abbrev pub images : Signer → Polys → Polys
images k y = map (λ row. ntt_inverse (add_products zero_poly row (map ntt y))) k.a_hat

abbrev pub response : Signer → List ℕ → Polys → Polys
response k c_hat y = zip_with (λ v s. zip_with add v (times c_hat s)) y k.s1_hat

abbrev pub low_rows : ParameterSet → Polys → Polys → Polys
low_rows p = zip_with (λ v e. zip_with (λ a b. from_signed (low_bits (sub a b) p.gamma2)) v e)

abbrev pub commitment_of : ParameterSet → Signer → Polys → List ℕ
commitment_of p k w =
    digest
      (w1_encode_into (shake256_update shake256_new k.mu)
        (map (λ v. map (λ c. high_bits c p.gamma2) v) w) p)
      (p.lambda / 4)

-- What the bytes of a signature hold, and the test that its hint passed.
pub record IsFinished (p : ParameterSet) (k : Signer) (z_bound : ℕ) (c_tilde c_hat : List ℕ)
    (z w cs2 : Polys) (sig : List ℕ) : Type 0 where
  pub made : Signature
  pub hint_of : made.h ≡ hint_rows p.gamma2 w cs2 (map (times c_hat) k.t0_hat)
  pub response_of : made.z ≡ z
  pub commitment_is : made.c_tilde ≡ c_tilde
  pub size : length sig ≡ signature_len p
  pub decodes : sig_decode sig p ≡ ok (some made)
  pub encodable : IsSignature p made
  pub short : All (IsBelow z_bound) made.z
  pub hint_released :
      hint_releasable (norm (map (times c_hat) k.t0_hat) p.k) (count_ones made.h) p ≡ true

-- A signature of the loop, with the mask and the challenge it came from.
pub record IsOffered (fuel : ℕ) (p : ParameterSet) (k : Signer) (z_bound : ℕ) (sig : List ℕ)
    : Type 0 where
  pub mask : Polys
  pub challenge : List ℕ
  pub mask_polys : (length mask ≡ p.l) × All IsPoly mask
  pub sampled : sample_in_ball fuel (commitment_of p k (images k mask)) p.tau ≡ ok challenge
  pub released :
      z_and_r0_releasable
        (norm (response k (ntt challenge) mask) p.l)
        (norm (low_rows p (images k mask) (map (times (ntt challenge)) k.s2_hat)) p.k)
        z_bound
        p
      ≡ true
  pub finished :
      IsFinished p k z_bound
        (commitment_of p k (images k mask))
        (ntt challenge)
        (response k (ntt challenge) mask)
        (images k mask)
        (map (times (ntt challenge)) k.s2_hat)
        sig
