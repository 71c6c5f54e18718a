-- ===== src/Mldsa/Api/Returns.antt =====
-- Verification and key generation return once the samplers have the fuel they need.
use macula_pq.Common.{
  ℕ, ◌-◌, ◌/◌, ◌≤◌, ◌<◌, ◌≡◌, ◌↔◌, subst, sym, arith, leb, Bool, true, false, not, ltb, ◌==◌, ◌&&◌,
  Bool-cases, inl, inr, Option, none, some, List, ◌∷◌, [], length, take, drop,
}
use macula_pq.Common.Outcome.{ok}
use macula_pq.Common.Ends.{Ends, Ends->>=, branch-Ends, assert-Ends, Yields-Ends}
use macula_pq.Common.Word.{IsBytes, u8}
use macula_pq.Keccak.Sponge.{Absorb, shake256_new, shake256_update}
use macula_pq.Mldsa.Field.{q}
use macula_pq.Mldsa.Params.{ParameterSet, beta, public_key_len, signature_len}
use macula_pq.Mldsa.Keys.{Polys, Signature}
use macula_pq.Mldsa.Sample.{k_max, expand_a, expand_s, sample_in_ball}
use macula_pq.Mldsa.Generate.{digest, public_key_of, key_gen}
use macula_pq.Mldsa.Generate.Consistent.{IsKeyPair, key_gen-IsKeyPair}
use macula_pq.Mldsa.Sample.Total.{IsBounded}
use macula_pq.Mldsa.Sample.Secret.{IsEta}
use macula_pq.Mldsa.Verify.{
  reaches, recovered_w1, commitment, verify_decoded, verify_given_mu, lengths_are_the_standards,
  verify_absorbing,
}
use macula_pq.Mldsa.Verify.Decoded.{pk_decode_total, HasResponse, sig_decode_total}
use macula_pq.Mldsa.Verify.Verdict.{message_hash, IsSigned, verify-IsSigned}
use macula_pq.Mldsa.Api.{context_fits, absorb_message, verify}

verify_decoded-Ends :
    (fuel : ℕ) (p : ParameterSet) (rho : List ℕ) (t1 : Polys) (mu : List ℕ) (s : Signature)
    → Ends (expand_a fuel rho p)
    → Ends (sample_in_ball fuel s.c_tilde p.tau)
    → Ends (verify_decoded fuel p rho t1 mu s)
unfolding verify_decoded recovered_w1 commitment
verify_decoded-Ends fuel p rho t1 mu s ha hb =
    branch-Ends (reaches (p.gamma1 - beta p) (take p.l s.z)) _ _ (λ x. cc)
      (Ends->>= _ _
        (Ends->>= (expand_a fuel rho p) _ ha λ a_hat _.
          Ends->>= (sample_in_ball fuel s.c_tilde p.tau) _ hb
            λ c _. assert-Ends (leb p.k k_max) _ (λ x. cc))
        λ w1 _.
          Ends->>= (commitment p mu w1) _ (assert-Ends (leb (p.lambda / 4) 64) _ (λ x. cc))
            λ c_tilde _. λ x. cc)

decoded-Ends :
    (fuel : ℕ) (p : ParameterSet) (rho : List ℕ) (t1 : Polys) (mu sig : List ℕ)
    (o : Option Signature)
    → HasResponse p sig o
    → Ends (expand_a fuel rho p)
    → Ends (sample_in_ball fuel (take (p.lambda / 4) sig) p.tau)
    → Ends (elim o [ none ↦ ok false | some s ↦ verify_decoded fuel p rho t1 mu s ])
decoded-Ends fuel p rho t1 mu sig none h ha hb = λ x. cc
decoded-Ends fuel p rho t1 mu sig (some s) (_, front) ha hb =
    verify_decoded-Ends fuel p rho t1 mu s ha
      (subst (λ c. Ends (sample_in_ball fuel c p.tau)) (sym front) hb)

verify_given_mu-Ends :
    (fuel : ℕ) (p : ParameterSet) (pk mu sig : List ℕ)
    → p.gamma1 < q
    → IsBytes pk
    → IsBytes sig
    → length pk ≡ public_key_len p
    → length sig ≡ signature_len p
    → Ends (expand_a fuel (take 32 pk) p)
    → Ends (sample_in_ball fuel (take (p.lambda / 4) sig) p.tau)
    → Ends (verify_given_mu fuel p pk mu sig)
unfolding verify_given_mu
verify_given_mu-Ends fuel p pk mu sig hg hpk hsig lpk lsig ha hb =
    let (t1, e, _, _) = pk_decode_total pk p hpk lpk in
    let (o, e', h) = sig_decode_total sig p hg hsig lsig in
    rw (e, e') (decoded-Ends fuel p (take 32 pk) t1 mu sig o h ha hb)

verify_absorbing-Ends :
    (fuel : ℕ) (p : ParameterSet) (pk sig : List ℕ) (absorb : Absorb → Absorb)
    → p.gamma1 < q
    → IsBytes pk
    → IsBytes sig
    → Ends (expand_a fuel (take 32 pk) p)
    → Ends (sample_in_ball fuel (take (p.lambda / 4) sig) p.tau)
    → Ends (verify_absorbing fuel p pk sig absorb)
unfolding verify_absorbing lengths_are_the_standards
verify_absorbing-Ends fuel p pk sig absorb hg hpk hsig ha hb =
    elim (Bool-cases (length pk == public_key_len p && length sig == signature_len p)) [
      | inl t ↦
          let lpk : length pk ≡ public_key_len p = ground (arith, t) in
          let lsig : length sig ≡ signature_len p = ground (arith, t) in
          rw (verify_absorbing, t) (verify_given_mu-Ends fuel p pk _ sig hg hpk hsig lpk lsig ha hb)
      | inr t ↦ rw (verify_absorbing, t) (λ x. cc)
    ]

verify-Ends :
    (fuel : ℕ) (p : ParameterSet) (pk message sig context : List ℕ)
    → p.gamma1 < q
    → IsBytes pk
    → IsBytes sig
    → Ends (expand_a fuel (take 32 pk) p)
    → Ends (sample_in_ball fuel (take (p.lambda / 4) sig) p.tau)
    → Ends (verify fuel p pk message sig context)
unfolding verify context_fits
verify-Ends fuel p pk message sig context hg hpk hsig ha hb =
    elim (Bool-cases (not (ltb 255 (length context)))) [
      | inl t ↦
          rw (Ends, t)
            (verify_absorbing-Ends fuel p pk sig (absorb_message message context) hg hpk hsig ha hb)
      | inr t ↦ rw (Ends, t) (λ x. cc)
    ]

-- On any bytes as a key and a signature, under a context of at most 255 bytes, with fuel on which
-- the sampling of the matrix A and of the challenge c ends, verification returns a verdict. It is
-- true exactly when the key and the signature have the standard's lengths and decode, to t1 and
-- to a response z and a hint, every coefficient of the response is closer to 0 modulo q than
-- gamma1 - beta, and the commitment is the hash of the message's hash and of the encoded high
-- bits that `use_hint` recovers, with the hint, from A z - c t1 2^13, computed in the ring
-- without the transforms; the matrix that is sampled holds the transforms of A. The parameter
-- set's gamma1 is below q, its k at most 8, its l at most 7, its tau at most 64, its lambda at
-- most 256, and its gamma2 95232 or 261888.
pub verify_returns :
    (fuel : ℕ) (p : ParameterSet) (pk message signature context : List ℕ)
    → p.gamma1 < q
    → IsBounded p
    → IsBytes pk
    → IsBytes signature
    → length context ≤ 255
    → Ends (expand_a fuel (take 32 pk) p)
    → Ends (sample_in_ball fuel (take (p.lambda / 4) signature) p.tau)
    → (verdict : Bool) × (verify fuel p pk message signature context ≡ ok verdict)
      × (verdict ≡ true ↔ IsSigned fuel p pk (message_hash pk message context) signature)
verify_returns fuel p pk message signature context hg bounded hpk hsig hc ha hb =
    Yields-Ends (λ b. (b ≡ true) ↔ IsSigned fuel p pk (message_hash pk message context) signature)
      (verify fuel p pk message signature context)
      (verify-IsSigned fuel p pk message signature context hg bounded hpk hsig hc)
      (verify-Ends fuel p pk message signature context hg hpk hsig ha hb)

-- The seeds that key generation draws from its own: of the matrix and of the secret vectors.
abbrev pub seeds_of : ParameterSet → List ℕ → List ℕ
seeds_of p xi =
    digest (shake256_update (shake256_update shake256_new xi) (u8 p.k ∷ u8 p.l ∷ [])) 128

key_gen-Ends :
    (fuel : ℕ) (p : ParameterSet) (xi : List ℕ)
    → Ends (expand_s fuel (take 64 (drop 32 (seeds_of p xi))) p)
    → Ends (expand_a fuel (take 32 (seeds_of p xi)) p)
    → Ends (key_gen fuel p xi)
unfolding key_gen public_key_of
key_gen-Ends fuel p xi hs ha =
    Ends->>= (expand_s fuel (take 64 (drop 32 (seeds_of p xi))) p) _ hs λ s _.
      Ends->>= _ _
        (Ends->>= (expand_a fuel (take 32 (seeds_of p xi)) p) _ ha
          λ a_hat _. assert-Ends (leb p.k k_max) _ (λ x. cc))
        λ k _. λ x. cc

-- Key generation from any seed, with fuel on which the sampling of the secret vectors and of the
-- matrix ends, returns a public key and a private key of the standard's lengths, and from the
-- private key the public key is recomputed. The parameter set's eta is 2 or 4, its k at most 8,
-- its l at most 7, its tau at most 64, its lambda at most 256, and its gamma2 95232 or 261888.
pub key_gen_returns :
    (fuel : ℕ) (p : ParameterSet) (xi : List ℕ)
    → IsBounded p
    → IsEta p
    → Ends (expand_s fuel (take 64 (drop 32 (seeds_of p xi))) p)
    → Ends (expand_a fuel (take 32 (seeds_of p xi)) p)
    → (keys : List ℕ × List ℕ) × (key_gen fuel p xi ≡ ok keys) × IsKeyPair fuel p keys
key_gen_returns fuel p xi bounded he hs ha =
    Yields-Ends (IsKeyPair fuel p) (key_gen fuel p xi) (key_gen-IsKeyPair fuel p xi bounded he)
      (key_gen-Ends fuel p xi hs ha)
