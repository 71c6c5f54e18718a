-- ===== src/Common/Ends.antt =====
-- A call whose rejection loops end: with it, what a call yields is what it returns.
use macula_pq.Common.{◌≡◌, ◌≢◌, refl, Bool, true, false}
use macula_pq.Common.Outcome.{Outcome, ok, err, panic, stuck, assert, ◌>>=◌}
use macula_pq.Common.Yields.{Yields}

module _ {E : Type 0} where
  abbrev pub Ends : {A : Type 0} → Outcome E A → Type 0
  Ends m = m ≢ stuck

  pub Ends->>= :
      {A B : Type 0} (m : Outcome E A) (f : A → Outcome E B)
      → Ends m
      → ((a : A) → m ≡ ok a → Ends (f a))
      → Ends (m >>= f)
  Ends->>= (ok a) f h k = k a refl
  Ends->>= (err e) f h k = λ x. cc
  Ends->>= panic f h k = λ x. cc
  Ends->>= stuck f h k = absurd (h refl)

  pub branch-Ends :
      {A : Type 0} (b : Bool) (m k : Outcome E A)
      → Ends m
      → Ends k
      → Ends (elim b [ true ↦ m | false ↦ k ])
  branch-Ends true m k h g = h
  branch-Ends false m k h g = g

  pub Yields-Ends :
      {A : Type 0} (P : A → Type 0) (m : Outcome E A)
      → Yields P m
      → Ends m
      → (a : A) × (m ≡ ok a) × P a
  Yields-Ends P (ok a) y h = (a, refl, y)
  Yields-Ends P (err e) y h = absurd y
  Yields-Ends P panic y h = absurd y
  Yields-Ends P stuck y h = absurd (h refl)

  pub assert-Ends : {A : Type 0} (b : Bool) (m : Outcome E A) → Ends m → Ends (assert b >>= λ _. m)
  assert-Ends true m h = h
  assert-Ends false m h = λ x. cc
