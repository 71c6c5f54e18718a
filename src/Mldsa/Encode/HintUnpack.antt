-- ===== src/Mldsa/Encode/HintUnpack.antt =====
-- macula-mldsa/src/encode.rs: `hint_bit_unpack`, which refuses what `hint_bit_pack` never writes.
use macula_pq.Common.{
  ℕ, zero, suc, ◌+◌, ◌-◌, ltb, leb, not, ◌&&◌, ◌||◌, ◌==◌, if◌then◌else◌, Bool, false, Option, none,
  some, List, [], ◌∷◌, get_or, set, take, drop, replicate,
}
use macula_pq.Mldsa.Field.{n}
use macula_pq.Mldsa.Params.{ParameterSet}

abbrev at : List ℕ → ℕ → ℕ
at f i = get_or f i 0

-- `?` on an Option.
infixl 5 ◌>>=◌
abbrev pub ◌>>=◌ : {A B : Type 0} → Option A → (A → Option B) → Option B
some a >>= f = f a
none >>= f = none

-- `while index < end`: `left` positions from `index` on.
unfoldable pub read_positions : ℕ → ℕ → ℕ → List ℕ → List ℕ → Option (List ℕ)
read_positions zero index first y poly = some poly
read_positions (suc left) index first y poly =
    let rest = read_positions left (index + 1) first y (set poly (at y index) 1) in
    if ltb first index && leb (at y index) (at y (index - 1)) then none else rest

unfoldable pub read_polys : ℕ → ℕ → ℕ → List ℕ → ℕ → Option (List (List ℕ) × ℕ)
unfolding read_positions
read_polys zero ones i y index = some ([], index)
read_polys (suc left) ones i y index =
    let end = at y (ones + i) in
    let rest = (do
      poly ← read_positions (end - index) index index y (replicate n 0)
      (polys, last) ← read_polys left ones (i + 1) y end
      some (poly ∷ polys, last)) in
    if ltb end index || ltb ones end then none else rest

-- `iter().any(|&b| b != 0)`.
unfoldable pub any_nonzero : List ℕ → Bool
any_nonzero [] = false
any_nonzero (b ∷ bs) = not (b == 0) || any_nonzero bs

-- On the `omega + k` bytes at the end of a signature.
unfoldable pub hint_bit_unpack : List ℕ → ParameterSet → Option (List (List ℕ))
unfolding read_polys any_nonzero
hint_bit_unpack y p = do
  (h, index) ← read_polys p.k p.omega 0 y 0
  if any_nonzero (drop index (take p.omega y)) then none else some h
