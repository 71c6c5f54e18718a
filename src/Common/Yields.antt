-- ===== src/Common/Yields.antt =====
-- What a call of the source that loops until a stream satisfies it comes to: it neither fails nor
-- panics, and its value, unless the fuel runs out first, has a property.
use macula_pq.Common.{suc, ◌≡◌, refl, List, [], ◌∷◌, length, All, ap}
use macula_pq.Common.Outcome.{Outcome, ok, err, panic, stuck, map_outcome, ◌>>=◌}

module _ {E : Type 0} where
  abbrev pub Yields : {A : Type 0} → (A → Type 0) → Outcome E A → Type 0
  Yields P (ok a) = P a
  Yields P (err e) = ⊥
  Yields P panic = ⊥
  Yields P stuck = Unit

  pub Yields->>= :
      {A B : Type 0} (P : A → Type 0) (Q : B → Type 0) (m : Outcome E A) (f : A → Outcome E B)
      → Yields P m
      → ((a : A) → P a → Yields Q (f a))
      → Yields Q (m >>= f)
  Yields->>= P Q (ok a) f h k = k a h
  Yields->>= P Q stuck f h k = tt
  Yields->>= P Q (err e) f h k = absurd h
  Yields->>= P Q panic f h k = absurd h

  -- The same, with the equation of the value.
  pub Yields->>=-eq :
      {A B : Type 0} (P : A → Type 0) (Q : B → Type 0) (m : Outcome E A) (f : A → Outcome E B)
      → Yields P m
      → ((a : A) → m ≡ ok a → P a → Yields Q (f a))
      → Yields Q (m >>= f)
  Yields->>=-eq P Q (ok a) f h k = k a refl h
  Yields->>=-eq P Q stuck f h k = tt
  Yields->>=-eq P Q (err e) f h k = absurd h
  Yields->>=-eq P Q panic f h k = absurd h

  pub map_outcome-Yields :
      {A B : Type 0} (P : B → Type 0) (f : A → Outcome E B)
      → ((a : A) → Yields P (f a))
      → (xs : List A) → Yields (λ ys. (length ys ≡ length xs) × All P ys) (map_outcome f xs)
  unfolding map_outcome
  map_outcome-Yields P f h [] = (refl, tt)
  map_outcome-Yields {A} {B} P f h (x ∷ xs) =
      Yields->>= P (λ ys. (length ys ≡ suc (length xs)) × All P ys) (f x) _ (h x)
        λ y py.
          Yields->>= (λ ys. (length ys ≡ length xs) × All P ys)
            (λ ys. (length ys ≡ suc (length xs)) × All P ys) (map_outcome f xs) _
            (map_outcome-Yields P f h xs) λ ys all. (ap suc all.0, (py, all.1))

  pub map_outcome-Yields-All :
      {A B : Type 0} (P : B → Type 0) (f : A → Outcome E B) (xs : List A)
      → All (λ a. Yields P (f a)) xs
      → Yields (λ ys. (length ys ≡ length xs) × All P ys) (map_outcome f xs)
  unfolding map_outcome
  map_outcome-Yields-All P f [] h = (refl, tt)
  map_outcome-Yields-All {A} {B} P f (x ∷ xs) (hx, h) =
      Yields->>= P (λ ys. (length ys ≡ suc (length xs)) × All P ys) (f x) _ hx
        λ y py.
          Yields->>= (λ ys. (length ys ≡ length xs) × All P ys)
            (λ ys. (length ys ≡ suc (length xs)) × All P ys) (map_outcome f xs) _
            (map_outcome-Yields-All P f xs h) λ ys all. (ap suc all.0, (py, all.1))

  pub Yields-weaken :
      {A : Type 0} (P Q : A → Type 0) (m : Outcome E A)
      → ((a : A) → P a → Q a)
      → Yields P m
      → Yields Q m
  Yields-weaken P Q (ok a) k h = k a h
  Yields-weaken P Q stuck k h = tt
  Yields-weaken P Q (err e) k h = absurd h
  Yields-weaken P Q panic k h = absurd h

  pub Yields-both :
      {A : Type 0} (P Q : A → Type 0) (m : Outcome E A)
      → Yields P m
      → Yields Q m
      → Yields (λ a. P a × Q a) m
  Yields-both P Q (ok a) h k = (h, k)
  Yields-both P Q stuck h k = tt
  Yields-both P Q (err e) h k = absurd h
  Yields-both P Q panic h k = absurd h
