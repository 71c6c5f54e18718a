-- ===== src/Mldsa/Sign/Released.antt =====
-- What signing hands out, for a private key in either form.
use macula_pq.Common.{ℕ, ◌-◌, ◌≤◌, ◌≡◌, arith, true, ◌==◌, not, ltb, List, length, take, drop}
use macula_pq.Common.Outcome.{slice_ok}
use macula_pq.Common.Yields.{Yields, Yields->>=}
use macula_pq.Common.Word.{IsBytes}
use macula_pq.Keccak.Sponge.{Absorb, shake256_new, shake256_update}
use macula_pq.Mldsa.Params.{ParameterSet, Error, beta, private_key_len}
use macula_pq.Mldsa.Encode.{Fallible}
use macula_pq.Mldsa.Sample.Secret.{IsEta}
use macula_pq.Mldsa.Generate.{digest, key_gen}
use macula_pq.Mldsa.Generate.Consistent.{IsReadable, key_gen-IsReadable}
use macula_pq.Mldsa.Sign.{
  PrivateKey, expanded, seed, signer_of, sign_given_mu, with_expanded, sign_absorbing,
}
use macula_pq.Mldsa.Sign.Responses.{IsSigning, IsSigner}
use macula_pq.Mldsa.Sign.Offer.{IsReleased}
use macula_pq.Mldsa.Sign.Attempt.{attempt-Yields}
use macula_pq.Mldsa.Sign.Loop.{sign_loop-Yields}
use macula_pq.Mldsa.Sign.Key.{bytes-IsReadable, signer_of-Yields}
use macula_pq.Mldsa.Api.{context_fits, absorb_message, sign_message}

module _ (p : ParameterSet) (st : IsSigning p) (z_bound : ℕ) (le : z_bound ≤ p.gamma1) where
  abbrev Good : List ℕ × ℕ → Type 0
  Good r = IsReleased p z_bound r.0

  pub sign_given_mu-Yields :
      (fuel left : ℕ) (sk mu rnd : List ℕ)
      → IsReadable p sk
      → Yields Good (sign_given_mu fuel left p sk mu rnd z_bound)
  unfolding sign_given_mu
  sign_given_mu-Yields fuel left sk mu rnd h =
      Yields->>= (IsSigner p) Good (signer_of fuel p sk mu rnd) _
        (signer_of-Yields fuel p sk mu rnd st.bounded h)
        λ k signer.
          sign_loop-Yields (IsReleased p z_bound) fuel p k z_bound
            (attempt-Yields p st z_bound le k signer fuel) left 0 0

-- A private key in one of the forms: bytes of the right number, or a seed.
abbrev pub IsPrivateKey : ParameterSet → PrivateKey → Type 0
IsPrivateKey p (expanded bytes) = IsBytes bytes × (length bytes ≡ private_key_len p)
IsPrivateKey p (seed xi) = Unit

module _ (fuel left : ℕ) (p : ParameterSet) (st : IsSigning p) (he : IsEta p) where
  with_expanded-Yields :
      {T : Type 0} (P : T → Type 0) (key : PrivateKey) (f : List ℕ → Fallible T)
      → IsPrivateKey p key
      → ((sk : List ℕ) → IsReadable p sk → Yields P (f sk))
      → Yields P (with_expanded fuel left p key f)
  unfolding with_expanded
  with_expanded-Yields P (expanded bytes) f (fit, len) h =
      let right : (length bytes == private_key_len p) ≡ true = ground (arith, len) in
      rw (Yields, right) (h bytes (bytes-IsReadable bytes p he fit len))
  with_expanded-Yields P (seed xi) f _ h =
      Yields->>= (λ keys. IsReadable p keys.1) P (key_gen fuel p xi) _
        (key_gen-IsReadable fuel p xi st.bounded he) λ keys r. h keys.1 r

  sign_absorbing-Yields :
      (key : PrivateKey) (rnd : List ℕ) (absorb : Absorb → Absorb)
      → IsPrivateKey p key
      → Yields (IsReleased p (p.gamma1 - beta p)) (sign_absorbing fuel left p key rnd absorb)
  unfolding sign_absorbing
  sign_absorbing-Yields key rnd absorb hk =
      with_expanded-Yields (IsReleased p (p.gamma1 - beta p)) key _ hk λ sk r.
        let cut = slice_ok {E = Error} sk 64 128 (omega arith) (omega (arith, r.1)) in
        let mu = digest (absorb (shake256_update shake256_new (take 64 (drop 64 sk)))) 64 in
        rw (Yields, cut)
          (Yields->>= (λ r. IsReleased p (p.gamma1 - beta p) r.0) (IsReleased p (p.gamma1 - beta p))
            (sign_given_mu fuel left p sk mu rnd (p.gamma1 - beta p)) _
            (sign_given_mu-Yields p st (p.gamma1 - beta p) (omega arith) fuel left sk mu rnd r)
            λ s h. h)

-- Signing a message under a context of at most 255 bytes, with a seed or with an expanded key
-- that is any bytes of the standard's number, neither fails nor panics: unless the fuel runs out
-- it gives a signature of the standard's length that decodes to a response whose coefficients are
-- all closer to 0 modulo q than gamma1 - beta, and to a hint with at most omega ones. The
-- parameter set's eta is 2 or 4, its gamma1 2^17 or 2^19, and its omega below 256. Its k is at
-- most 8, its l at most 7, its tau at most 64, its lambda at most 256, and its gamma2 95232 or
-- 261888.
pub sign_message-IsReleased :
    (fuel left : ℕ) (p : ParameterSet) (key : PrivateKey) (message context rnd : List ℕ)
    → IsSigning p
    → IsEta p
    → IsPrivateKey p key
    → length context ≤ 255
    → Yields (IsReleased p (p.gamma1 - beta p)) (sign_message fuel p left key message context rnd)
unfolding sign_message context_fits
sign_message-IsReleased fuel left p key message context rnd st he hk hc =
    let fits : not (ltb 255 (length context)) ≡ true = ground (arith, hc) in
    rw (Yields, fits)
      (sign_absorbing-Yields fuel left p st he key rnd (absorb_message message context) hk)
