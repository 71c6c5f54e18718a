-- ===== src/Mldsa/Generate/Ranges.antt =====
-- The vectors that key generation and signing compute with stay in their ranges.
use macula_pq.Common.{
  ℕ, ◌-◌, ◌^◌, ◌≤◌, ◌<◌, ◌⊎◌, arith, List, [], ◌∷◌, map, All, zip_with, length-zip_with,
  length-replicate, All-replicate,
}
use macula_pq.Mldsa.Field.{n, d, add, from_signed}
use macula_pq.Mldsa.Field.Laws.{sub-mod, from_signed-mod}
use macula_pq.Mldsa.Rounding.{power2round}
use macula_pq.Mldsa.Rounding.Decompose.{power2round_split}
use macula_pq.Mldsa.Ntt.{ntt, multiply_add_ntt}
use macula_pq.Mldsa.Ntt.Range.{IsReduced, IsPoly, add-lt, ntt-IsPoly, multiply_add_ntt-IsPoly}
use macula_pq.Mldsa.Encode.Range.{IsWithin}
use macula_pq.Mldsa.Encode.Total.{IsRanged}
use macula_pq.Mldsa.Keys.{Polys}
use macula_pq.Mldsa.Keys.PublicKey.{IsT1}
use macula_pq.Mldsa.Generate.{zero_poly, add_products, split_row}

pub zero_poly-IsPoly : IsPoly zero_poly
zero_poly-IsPoly = (length-replicate {A = ℕ} n 0, All-replicate IsReduced n 0 (omega arith))

pub IsRanged-IsPoly : (b bits : ℕ) (w : List ℕ) → IsRanged b bits w → IsPoly w
IsRanged-IsPoly b bits w (len, h) = (len, reduced w h)
  where
    reduced : (w : List ℕ) → All (IsWithin b bits) w → All IsReduced w
    reduced [] h = tt
    reduced (c ∷ w) ((hc, _), hw) = (hc, reduced w hw)

pub All-IsRanged-IsPoly : (b bits : ℕ) (ws : Polys) → All (IsRanged b bits) ws → All IsPoly ws
All-IsRanged-IsPoly b bits [] h = tt
All-IsRanged-IsPoly b bits (w ∷ ws) (hw, hws) =
    (IsRanged-IsPoly b bits w hw, All-IsRanged-IsPoly b bits ws hws)

pub map-ntt-IsPoly : (ws : Polys) → All IsPoly ws → All IsPoly (map ntt ws)
map-ntt-IsPoly [] h = tt
map-ntt-IsPoly (w ∷ ws) (hw, hws) = (ntt-IsPoly w hw, map-ntt-IsPoly ws hws)

pub add_products-IsPoly :
    (acc : List ℕ) (row v : Polys)
    → IsPoly acc
    → All IsPoly row
    → All IsPoly v
    → IsPoly (add_products acc row v)
unfolding add_products
add_products-IsPoly acc [] v h hr hv = h
add_products-IsPoly acc (a ∷ row) [] h hr hv = h
add_products-IsPoly acc (a ∷ row) (w ∷ v) h (ha, hr) (hw, hv) =
    add_products-IsPoly (multiply_add_ntt acc a w) row v (multiply_add_ntt-IsPoly acc a w h ha hw)
      hr hv

low_part :
    (r0 : ℕ)
    → (r0 ≤ 2 ^ 12) ⊎ ((2 ^ 32 - 2 ^ 12 < r0) × (r0 < 2 ^ 32))
    → IsWithin (2 ^ (d - 1)) d (from_signed r0)
low_part r0 h =
    let (plain, wrapped) = from_signed-mod r0 in
    ground (arith, plain, wrapped, sub-mod 4096 (from_signed r0))

split_values :
    (t e : List ℕ)
    → All IsReduced t
    → All IsReduced e
    → All (λ c. c < 2 ^ 10) (zip_with (λ c e. (power2round (add c e)).0) t e)
      × All (IsWithin (2 ^ (d - 1)) d) (zip_with (λ c e. from_signed (power2round (add c e)).1) t e)
split_values [] e ht he = (tt, tt)
split_values (c ∷ t) [] ht he = (tt, tt)
split_values (c ∷ t) (x ∷ e) (hc, ht) (hx, he) =
    let (highs, lows) = split_values t e ht he in
    let (back, high, low) = power2round_split (add c x) (add-lt c x hc hx) in
    ((high, highs), (low_part (power2round (add c x)).1 low, lows))

-- A row of high parts, and one of low parts.
abbrev pub IsSplit : List ℕ × List ℕ → Type 0
IsSplit r = IsT1 r.0 × IsRanged (2 ^ (d - 1)) d r.1

pub split_row-IsSplit : (t e : List ℕ) → IsPoly t → IsPoly e → IsSplit (split_row t e)
unfolding split_row
split_row-IsSplit t e (tl, ht) (el, he) =
    let (highs, lows) = split_values t e ht he in
    (
      (omega (arith, tl, el, length-zip_with (λ c e. (power2round (add c e)).0) t e), highs),
      (
        omega (arith, tl, el, length-zip_with (λ c e. from_signed (power2round (add c e)).1) t e),
        lows,
      ),
    )
