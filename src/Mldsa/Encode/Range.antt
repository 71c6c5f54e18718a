-- ===== src/Mldsa/Encode/Range.antt =====
-- Packing coefficients that stand for values in a range, as `b - v`.
use macula_pq.Common.{
  ℕ, ◌*◌, ◌^◌, ◌≤◌, ◌<◌, ◌≡◌, refl, ap₂, ◌∙◌, arith, List, [], ◌∷◌, map, length, length-map, All,
}
use macula_pq.Common.Outcome.{ok}
use macula_pq.Common.Word.{sub32}
use macula_pq.Mldsa.Field.{q, n, sub, from_signed}
use macula_pq.Mldsa.Field.Laws.{sub-mod, from_signed-mod}
use macula_pq.Mldsa.Encode.{bit_pack, bit_unpack}
use macula_pq.Mldsa.Encode.Unpack.{unpack-pack}

-- A coefficient below q, at most `2^bits - 1` below `b` modulo q.
abbrev pub IsWithin : ℕ → ℕ → ℕ → Type 0
IsWithin b bits c = (c < q) × (sub b c < 2 ^ bits)

from_signed-sub : (b c : ℕ) → b < q → c < q → from_signed (sub32 b (sub b c)) ≡ c
from_signed-sub b c hb hc =
    let (plain, wrapped) = from_signed-mod (sub32 b (sub b c)) in
    ground (arith, sub-mod b c hb hc, plain, wrapped)

map-from_signed :
    (b bits : ℕ) (w : List ℕ)
    → b < q
    → All (IsWithin b bits) w
    → map (λ x. from_signed (sub32 b x)) (map (λ c. sub b c) w) ≡ w
map-from_signed b bits [] hb h = refl
map-from_signed b bits (c ∷ w) hb ((hc, _), hw) =
    ap₂ ◌∷◌ (from_signed-sub b c hb hc) (map-from_signed b bits w hb hw)

pub differences_fit :
    (b bits : ℕ) (w : List ℕ)
    → All (IsWithin b bits) w
    → All (λ v. v < 2 ^ bits) (map (λ c. sub b c) w)
differences_fit b bits [] h = tt
differences_fit b bits (c ∷ w) ((_, hc), hw) = (hc, differences_fit b bits w hw)

-- Unpacking gives back the 256 coefficients that were packed as `b - v` at `bits` bits each, for
-- every width up to 20 bits, when `b` and the coefficients are below q and each difference modulo
-- q fits the width.
pub bit_unpack-bit_pack :
    (b bits : ℕ) (w : List ℕ)
    → bits ≤ 20
    → b < q
    → length w ≡ n
    → All (IsWithin b bits) w
    → bit_unpack (bit_pack w b bits) b bits ≡ ok w
unfolding bit_unpack bit_pack
bit_unpack-bit_pack b bits w hw hb len h =
    let (back, _) =
      unpack-pack bits (map (λ c. sub b c) w) hw (length-map (λ c. sub b c) w ∙ len)
        (differences_fit b bits w h) in
    rw (back, map-from_signed b bits w hb h) refl

pub length-bit_pack :
    (b bits : ℕ) (w : List ℕ)
    → bits ≤ 20
    → length w ≡ n
    → All (IsWithin b bits) w
    → length (bit_pack w b bits) ≡ 32 * bits
unfolding bit_pack
length-bit_pack b bits w hw len h =
    (unpack-pack bits (map (λ c. sub b c) w) hw (length-map (λ c. sub b c) w ∙ len)
      (differences_fit b bits w h)).1
