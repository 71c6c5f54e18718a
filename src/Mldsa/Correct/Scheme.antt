-- ===== src/Mldsa/Correct/Scheme.antt =====
-- macula-mldsa/src/lib.rs: signing a message and verifying it, with a pair of keys that was generated.
use macula_pq.Common.{
  ℕ, ◌-◌, ◌≤◌, ◌≡◌, ◌∙◌, sym, ap₂, subst, arith, true, not, ltb, ◌==◌, ◌&&◌, Option, none, some,
  List, length,
}
use macula_pq.Common.Outcome.{ok, slice, ◌>>=◌}
use macula_pq.Common.Yields.{Yields, Yields->>=, Yields-both, Yields-weaken}
use macula_pq.Keccak.Sponge.{Absorb, shake256_new, shake256_update}
use macula_pq.Mldsa.Field.{n}
use macula_pq.Mldsa.Rounding.Decompose.{IsGamma2}
use macula_pq.Mldsa.Params.{ParameterSet, beta, public_key_len, signature_len, private_key_len}
use macula_pq.Mldsa.Sample.Secret.{IsEta}
use macula_pq.Mldsa.Generate.{digest, hash_of_public_key, key_gen}
use macula_pq.Mldsa.Verify.{lengths_are_the_standards, verify_given_mu, verify_absorbing}
use macula_pq.Mldsa.Sign.{
  expanded, seed, attempt, sign_loop, signer_of, sign_given_mu, with_expanded, sign_absorbing,
}
use macula_pq.Mldsa.Sign.Responses.{IsSigning, IsSigner}
use macula_pq.Mldsa.Sign.Offer.{IfSome, IsOffered}
use macula_pq.Mldsa.Sign.Attempt.{attempt-Offered}
use macula_pq.Mldsa.Sign.Loop.{sign_loop-Yields}
use macula_pq.Mldsa.Sign.Key.{signer_of-Yields}
use macula_pq.Mldsa.Api.{context_fits, absorb_message, verify, sign_message}
use macula_pq.Mldsa.Correct.Pair.{
  Origin, IsOrigin, IsPair, public_of, private_of, signer_with, IsSignerOf, key_gen-IsPair,
  public_key_decodes, tr_of_private, private-IsReadable, signer_of-IsSignerOf,
}
use macula_pq.Mldsa.Correct.Accepts.{offered_accepts}

IfSome-weaken :
    (P Q : List ℕ → Type 0)
    → ((sig : List ℕ) → P sig → Q sig)
    → (o : Option (List ℕ)) → IfSome P o
    → IfSome Q o
IfSome-weaken P Q k none h = tt
IfSome-weaken P Q k (some sig) h = k sig h

absorbing_accepts :
    (fuel : ℕ) (p : ParameterSet) (pk sig : List ℕ) (absorb : Absorb → Absorb)
    → length pk ≡ public_key_len p
    → length sig ≡ signature_len p
    → verify_given_mu fuel p pk
        (digest (absorb (shake256_update shake256_new (hash_of_public_key pk))) 64)
        sig
      ≡ ok true
    → verify_absorbing fuel p pk sig absorb ≡ ok true
unfolding verify_absorbing lengths_are_the_standards hash_of_public_key
absorbing_accepts fuel p pk sig absorb lp ls e =
    let right : (length pk == public_key_len p && length sig == signature_len p) ≡ true =
      ground (arith, lp, ls) in
    rw (verify_absorbing, right) e

module _ (fuel left : ℕ) (p : ParameterSet) (o : Origin) (st : IsSigning p) (he : IsEta p)
    (g : IsGamma2 p.gamma2) (le : p.tau ≤ n) (h : IsOrigin fuel p o) where
  abbrev IsAccepted : List ℕ → List ℕ → Type 0
  IsAccepted mu sig =
      (length sig ≡ signature_len p) × (verify_given_mu fuel p (public_of p o) mu sig ≡ ok true)

  loop_accepts :
      (mu rho_pp : List ℕ)
      → IsSigner p (signer_with p o rho_pp mu)
      → Yields
          (λ r. IsAccepted mu r.0)
          (sign_loop fuel left p (signer_with p o rho_pp mu) (p.gamma1 - beta p) 0 0)
  loop_accepts mu rho_pp signer =
      let k = signer_with p o rho_pp mu in
      let z_bound = p.gamma1 - beta p in
      sign_loop-Yields (IsAccepted mu) fuel p k z_bound
        (λ kappa.
          Yields-weaken (IfSome (IsOffered fuel p k z_bound)) (IfSome (IsAccepted mu))
            (attempt fuel p k z_bound kappa)
            (IfSome-weaken (IsOffered fuel p k z_bound) (IsAccepted mu) λ sig offer. (
              offer.finished.size,
              offered_accepts fuel p o he h g le rho_pp mu st signer sig offer,
            ))
            (attempt-Offered p st z_bound (omega arith) k signer fuel kappa))
        left 0 0

  given_mu_accepts :
      (mu rnd : List ℕ)
      → Yields
          (λ r. IsAccepted mu r.0)
          (sign_given_mu fuel left p (private_of p o) mu rnd (p.gamma1 - beta p))
  unfolding sign_given_mu
  given_mu_accepts mu rnd =
      let sk = private_of p o in
      Yields->>= (λ k. IsSigner p k × IsSignerOf p o mu k) (λ r. IsAccepted mu r.0)
        (signer_of fuel p sk mu rnd) _
        (Yields-both (IsSigner p) (IsSignerOf p o mu) (signer_of fuel p sk mu rnd)
          (signer_of-Yields fuel p sk mu rnd st.bounded (private-IsReadable fuel p o he h))
          (signer_of-IsSignerOf fuel p o he h mu rnd))
        λ k (signer, (rho_pp, e)).
          subst
            (λ k. Yields (λ r. IsAccepted mu r.0) (sign_loop fuel left p k (p.gamma1 - beta p) 0 0))
            (sym e) (loop_accepts mu rho_pp (subst (IsSigner p) e signer))

  module _ (rnd : List ℕ) (absorb : Absorb → Absorb) where
    abbrev Verifies : List ℕ → Type 0
    Verifies sig = verify_absorbing fuel p (public_of p o) sig absorb ≡ ok true

    private_accepts : Yields Verifies (do
      tr ← slice (private_of p o) 64 128
      let mu = digest (absorb (shake256_update shake256_new tr)) 64
      (sig, _) ← sign_given_mu fuel left p (private_of p o) mu rnd (p.gamma1 - beta p)
      ok sig)
    private_accepts =
        let pk = public_of p o in
        let mu = digest (absorb (shake256_update shake256_new (hash_of_public_key pk))) 64 in
        rw (Yields, tr_of_private fuel p o he h)
          (Yields->>= (λ r. IsAccepted mu r.0) Verifies
            (sign_given_mu fuel left p (private_of p o) mu rnd (p.gamma1 - beta p)) _
            (given_mu_accepts mu rnd)
            λ r accepted.
              absorbing_accepts fuel p pk r.0 absorb (public_key_decodes fuel p o he h).1 accepted.0
                accepted.1)

    pub expanded_accepts :
        Yields Verifies (sign_absorbing fuel left p (expanded (private_of p o)) rnd absorb)
    unfolding sign_absorbing with_expanded
    expanded_accepts =
        let right : (length (private_of p o) == private_key_len p) ≡ true =
          ground (arith, (private-IsReadable fuel p o he h).1) in
        rw (Yields, right) private_accepts

    pub seed_accepts :
        (xi : List ℕ)
        → key_gen fuel p xi ≡ ok (public_of p o, private_of p o)
        → Yields Verifies (sign_absorbing fuel left p (seed xi) rnd absorb)
    unfolding sign_absorbing with_expanded
    seed_accepts xi e = rw (Yields, e) private_accepts

-- For a pair of keys that key generation makes of a seed, and under a context of at most 255
-- bytes, signing a message with the seed, and signing it with the expanded private key, each
-- neither fails nor panics, and unless the fuel runs out it gives a signature for which
-- verification of the message under the public key and the context returns true on the same fuel.
-- The parameter set's eta is 2 or 4, its gamma1 2^17 or 2^19, and its omega below 256. Its k is
-- at most 8, its l at most 7, its tau at most 64, its lambda at most 256, and its gamma2 95232 or
-- 261888.
pub verify-sign_message :
    (fuel left : ℕ) (p : ParameterSet) (xi message context rnd pk sk : List ℕ)
    → IsSigning p
    → IsEta p
    → length context ≤ 255
    → key_gen fuel p xi ≡ ok (pk, sk)
    → Yields
        (λ sig. verify fuel p pk message sig context ≡ ok true)
        (sign_message fuel p left (seed xi) message context rnd)
      × Yields
          (λ sig. verify fuel p pk message sig context ≡ ok true)
          (sign_message fuel p left (expanded sk) message context rnd)
unfolding sign_message verify context_fits
verify-sign_message fuel left p xi message context rnd pk sk st he hc e =
    let g = st.bounded.gamma2_choice in
    let le : p.tau ≤ n = omega (arith, st.bounded.sign_bits) in
    let fits : not (ltb 255 (length context)) ≡ true = ground (arith, hc) in
    let (o, h, e0, e1) =
      subst (Yields (IsPair fuel p)) e (key_gen-IsPair fuel p xi st.bounded he) in
    let absorb = absorb_message message context in
    let made : key_gen fuel p xi ≡ ok (public_of p o, private_of p o) =
      e ∙ ap₂ (λ a b. ok (a, b)) e0 e1 in
    rw (fits, e0, e1)
      (
        seed_accepts fuel left p o st he g le h rnd absorb xi made,
        expanded_accepts fuel left p o st he g le h rnd absorb,
      )
