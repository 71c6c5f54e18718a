-- ===== src/Common/Outcome.antt =====
-- What a call of the source ends in: `Ok`, `Err`, a panic (a failed assertion or a slice out of
-- range), or, for the rejection loops alone, fuel that ran out before the loop ended.
use macula_pq.Common.{
  ℕ, ◌+◌, ◌-◌, ◌≤◌, ◌≡◌, refl, ap, ◌∙◌, ◌++◌, take-append_of_length, arith, Bool, true, false, ◌&&◌,
  leb, if◌then◌else◌, List, [], ◌∷◌, map, length, take, drop, All, Option, none, some,
}

pub data Outcome (E A : Type 0) : Type 0 where
  ok : A → Outcome E A
  err : E → Outcome E A
  panic stuck : Outcome E A

infixl 5 ◌>>=◌ ◌>>◌
abbrev pub ◌>>=◌ : {E A B : Type 0} → Outcome E A → (A → Outcome E B) → Outcome E B
ok a >>= f = f a
err e >>= f = err e
panic >>= f = panic
stuck >>= f = stuck

abbrev pub ◌>>◌ : {E B : Type 0} → Outcome E (Unit {0}) → Outcome E B → Outcome E B
m >> k = m >>= λ _. k

-- `if !b { return Err(e) }`.
abbrev pub ensure : {E : Type 0} → Bool → E → Outcome E (Unit {0})
ensure true e = ok tt
ensure false e = err e

-- `assert!(b)`.
abbrev pub assert : {E : Type 0} → Bool → Outcome E (Unit {0})
assert true = ok tt
assert false = panic

-- `o.ok_or(e)`.
abbrev pub ok_or : {E A : Type 0} → Option A → E → Outcome E A
ok_or (some a) e = ok a
ok_or none e = err e

-- `r.map_err(f)`.
abbrev pub map_err : {E F A : Type 0} → (E → F) → Outcome E A → Outcome F A
map_err f (ok a) = ok a
map_err f (err e) = err (f e)
map_err f panic = panic
map_err f stuck = stuck

-- `&xs[lo..hi]`.
unfoldable pub slice : {E : Type 0} → List ℕ → ℕ → ℕ → Outcome E (List ℕ)
slice xs lo hi = if leb lo hi && leb hi (length xs) then ok (take (hi - lo) (drop lo xs)) else panic

-- `iter().map(f).collect()` where `f` may fail.
unfoldable pub map_outcome : {E A B : Type 0} → (A → Outcome E B) → List A → Outcome E (List B)
map_outcome f [] = ok []
map_outcome f (x ∷ xs) = do y ← f x; ys ← map_outcome f xs; ok (y ∷ ys)

pub slice_ok :
    {E : Type 0} (xs : List ℕ) (lo hi : ℕ)
    → lo ≤ hi
    → hi ≤ length xs
    → slice {E = E} xs lo hi ≡ ok (take (hi - lo) (drop lo xs))
unfolding slice
slice_ok xs lo hi p r = ground arith

pub map_outcome_ok :
    {E A B : Type 0} (P : A → Type 0) (f : A → Outcome E B) (g : A → B)
    → ((a : A) → P a → f a ≡ ok (g a))
    → (xs : List A) → All P xs
    → map_outcome f xs ≡ ok (map g xs)
unfolding map_outcome
map_outcome_ok P f g h [] p = refl
map_outcome_ok P f g h (x ∷ xs) (px, pxs) = rw (h x px, map_outcome_ok P f g h xs pxs)

-- The part that `drop` and `take` of the bounds cut out.
pub slice_of_drop :
    {E : Type 0} (xs mid rest : List ℕ) (lo hi : ℕ)
    → drop lo xs ≡ mid ++ rest
    → lo + length mid ≡ hi
    → hi ≤ length xs
    → slice {E = E} xs lo hi ≡ ok mid
slice_of_drop xs mid rest lo hi e size le =
    slice_ok xs lo hi (omega (arith, size)) le
    ∙ ap (λ t. ok (take (hi - lo) t)) e
    ∙ ap ok (take-append_of_length (hi - lo) mid rest (omega (arith, size)))
