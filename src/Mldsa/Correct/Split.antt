-- ===== src/Mldsa/Correct/Split.antt =====
-- macula-mldsa/src/internal.rs: the two parts that key generation makes of a row of `t`.
use macula_pq.Common.{
  ℕ, ◌+◌, ◌%◌, ◌^◌, ◌<◌, ◌≡◌, ◌∙◌, arith, List, [], ◌∷◌, map, length, zip_with, All, length-map,
  length-zip_with, ap, inl, inr,
}
use macula_pq.Common.Word.{shl32}
use macula_pq.Mldsa.Field.{q, n, d, add, from_signed}
use macula_pq.Mldsa.Field.Laws.{add-mod, from_signed-mod}
use macula_pq.Mldsa.Rounding.{power2round}
use macula_pq.Mldsa.Rounding.Decompose.{power2round_split}
use macula_pq.Mldsa.Ntt.{at}
use macula_pq.Mldsa.Ntt.Range.{IsReduced, IsPoly, at-lt}
use macula_pq.Mldsa.Ntt.RoundTrip.{at-map}
use macula_pq.Mldsa.Keys.PublicKey.{IsT1}
use macula_pq.Mldsa.Generate.{split_row}
use macula_pq.Mldsa.Correct.Places.{at-zip_with}

-- `t1 2^d`.
abbrev pub shifted : List ℕ → List ℕ
shifted = map (λ c. shl32 c d)

shifted-All : (w : List ℕ) → All (λ c. c < 2 ^ 10) w → All IsReduced (shifted w)
shifted-All [] h = tt
shifted-All (c ∷ w) (hc, h) = (omega (arith, hc), shifted-All w h)

pub shifted-IsPoly : (w : List ℕ) → IsT1 w → IsPoly (shifted w)
shifted-IsPoly w (len, h) = (length-map (λ c. shl32 c d) w ∙ len, shifted-All w h)

parts : (r : ℕ) → r < q → (shl32 (power2round r).0 d + from_signed (power2round r).1) % q ≡ r
parts r h =
    let (back, high, low) = power2round_split r h in
    let (plain, wrapped) = from_signed-mod (power2round r).1 in
    elim low [
      | inl l ↦ omega (arith, back, high, l, h, plain (omega (arith, l)))
      | inr (l, l') ↦ omega (arith, back, high, l, l', h, wrapped (omega (arith, l)) l')
    ]

pub split_row-sum :
    (t e : List ℕ) (i : ℕ)
    → IsPoly t
    → IsPoly e
    → i < n
    → (at (shifted (split_row t e).0) i + at (split_row t e).1 i) % q ≡ (at t i + at e i) % q
unfolding split_row
split_row-sum t e i ht he hi =
    let high = zip_with (λ c e. (power2round (add c e)).0) t e in
    let size : length high ≡ n =
      omega (arith, ht.0, he.0, length-zip_with (λ c e. (power2round (add c e)).0) t e) in
    let lt : i < length t = omega (arith, hi, ht.0) in
    let le : i < length e = omega (arith, hi, he.0) in
    let r = add (at t i) (at e i) in
    let er : r ≡ (at t i + at e i) % q = add-mod (at t i) (at e i) (at-lt t i ht) (at-lt e i he) in
    let top =
      at-map (λ c. shl32 c d) high i (omega (arith, hi, size))
      ∙ ap (λ c. shl32 c d) (at-zip_with (λ c e. (power2round (add c e)).0) t e i lt le) in
    let bottom = at-zip_with (λ c e. from_signed (power2round (add c e)).1) t e i lt le in
    omega (arith, top, bottom, parts r (omega (arith, er)), er)
