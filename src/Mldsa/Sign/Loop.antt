-- ===== src/Mldsa/Sign/Loop.antt =====
-- macula-mldsa/src/internal.rs: what the signing loop returns, from what its attempts offer.
use macula_pq.Common.{ℕ, zero, suc, ◌+◌, none, some, List, Option}
use macula_pq.Common.Outcome.{ok}
use macula_pq.Common.Word.{u16, add32}
use macula_pq.Mldsa.Params.{ParameterSet}
use macula_pq.Common.Yields.{Yields, Yields->>=}
use macula_pq.Mldsa.Encode.{Fallible}
use macula_pq.Mldsa.Sign.Offer.{IfSome}
use macula_pq.Mldsa.Sign.{Signer, attempt, sign_loop}

module _ (P : List ℕ → Type 0) (fuel : ℕ) (p : ParameterSet) (k : Signer) (z_bound : ℕ) where
  next_or_done :
      (again : Fallible (List ℕ × ℕ)) (attempts : ℕ) (offer : Option (List ℕ))
      → Yields (λ r. P r.0) again
      → IfSome P offer
      → Yields (λ r. P r.0) (elim offer [ none ↦ again | some sig ↦ ok (sig, attempts) ])
  next_or_done again attempts none ih h = ih
  next_or_done again attempts (some sig) ih h = h

  -- What every attempt's signature has, the loop's has.
  pub sign_loop-Yields :
      ((kappa : ℕ) → Yields (IfSome P) (attempt fuel p k z_bound kappa))
      → (left kappa attempts : ℕ)
      → Yields (λ r. P r.0) (sign_loop fuel left p k z_bound kappa attempts)
  unfolding sign_loop
  sign_loop-Yields h zero kappa attempts = tt
  sign_loop-Yields h (suc left) kappa attempts =
      let ih = sign_loop-Yields h left (u16 (kappa + u16 p.l)) (add32 attempts 1) in
      Yields->>= (IfSome P) (λ r. P r.0) (attempt fuel p k z_bound kappa) _ (h kappa)
        λ offer good.
          next_or_done (sign_loop fuel left p k z_bound (u16 (kappa + u16 p.l)) (add32 attempts 1))
            (add32 attempts 1) offer ih good
