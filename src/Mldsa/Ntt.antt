-- ===== src/Mldsa/Ntt.antt =====
-- macula-mldsa/src/poly.rs: the table of roots and the transforms, on a polynomial as the list of its
-- 256 coefficients. Every index is in range by the loop bounds.
pub mod Range
pub mod Blocks
pub mod Layers
pub mod Inverse
pub mod Roots
pub mod RoundTrip
pub mod Evaluation
pub mod Points
pub mod Values
pub mod Product
pub mod Multiply
pub mod Linear
pub mod Bounded
use macula_pq.Common.{
  ℕ, zero, suc, ◌+◌, ◌-◌, ◌*◌, ◌/◌, ◌%◌, ◌^◌, bit_and, bit_or, ltb, leb, ◌==◌, if◌then◌else◌,
  for_range, List, [], ◌∷◌, map, get_or, set,
}
use macula_pq.Common.Word.{shr, sub32, mul64}
use macula_pq.Mldsa.Field.{q, n, mul, add, sub}

abbrev pub at : List ℕ → ℕ → ℕ
at f i = get_or f i 0

-- The inner loops of `build_zetas`, for one index. An exponent of 8 bits takes 8 rounds.
unfoldable pub bit_rev8 : ℕ → ℕ
unfolding for_range
bit_rev8 k = for_range 8 0 (λ b r. bit_or r (bit_and (shr k b) 1 * 2 ^ (7 - b))) 0

unfoldable pub power_loop : ℕ → ℕ → ℕ → ℕ → ℕ
power_loop zero acc base e = acc
power_loop (suc fuel) acc base e =
    let acc' = (if bit_and e 1 == 1 then mul64 acc base % q else acc) in
    let rest = power_loop fuel acc' (mul64 base base % q) (shr e 1) in if ltb 0 e then rest else acc

unfoldable pub zeta_of : ℕ → ℕ
unfolding bit_rev8 power_loop
zeta_of k = power_loop 8 1 1753 (bit_rev8 k)

unfoldable pub build_zetas : ℕ → ℕ → List ℕ
unfolding zeta_of
build_zetas zero k = []
build_zetas (suc left) k = zeta_of k ∷ build_zetas left (k + 1)

-- The entry at 0 is unused.
unfoldable pub zetas : List ℕ
unfolding build_zetas
zetas = 0 ∷ build_zetas 255 1

unfoldable pub butterfly : ℕ → ℕ → ℕ → List ℕ → List ℕ
butterfly len z j w =
    let t = mul z (at w (j + len)) in
    let w' = set w (j + len) (sub (at w j) t) in set w' j (add (at w' j) t)

unfoldable pub inverse_butterfly : ℕ → ℕ → ℕ → List ℕ → List ℕ
inverse_butterfly len z j w =
    let t = at w j in
    let w₁ = set w j (add t (at w (j + len))) in
    let w₂ = set w₁ (j + len) (sub t (at w₁ (j + len))) in
    set w₂ (j + len) (mul z (at w₂ (j + len)))

-- `while start < N { … start += 2 * len }`: the root's index and the polynomial.
unfoldable pub ntt_blocks : ℕ → ℕ → ℕ → ℕ × List ℕ → ℕ × List ℕ
unfolding butterfly for_range
ntt_blocks zero len start s = s
ntt_blocks (suc fuel) len start s =
    let m = s.0 + 1 in
    let next =
      ntt_blocks fuel len (start + 2 * len)
        (m, for_range len start (butterfly len (at zetas m)) s.1) in
    if ltb start n then next else s

-- `while len >= 1 { … len /= 2 }`: eight rounds from 128.
unfoldable pub ntt_layers : ℕ → ℕ → ℕ × List ℕ → ℕ × List ℕ
unfolding ntt_blocks
ntt_layers zero len s = s
ntt_layers (suc fuel) len s =
    let next = ntt_layers fuel (len / 2) (ntt_blocks n len 0 s) in if leb 1 len then next else s

unfoldable pub ntt : List ℕ → List ℕ
unfolding ntt_layers
ntt w = (ntt_layers 9 128 (0, w)).1

unfoldable pub inverse_blocks : ℕ → ℕ → ℕ → ℕ × List ℕ → ℕ × List ℕ
unfolding inverse_butterfly for_range
inverse_blocks zero len start s = s
inverse_blocks (suc fuel) len start s =
    let m = s.0 - 1 in
    let z = sub32 q (at zetas m) in
    let next =
      inverse_blocks fuel len (start + 2 * len)
        (m, for_range len start (inverse_butterfly len z) s.1) in
    if ltb start n then next else s

unfoldable pub inverse_layers : ℕ → ℕ → ℕ × List ℕ → ℕ × List ℕ
unfolding inverse_blocks
inverse_layers zero len s = s
inverse_layers (suc fuel) len s =
    let next = inverse_layers fuel (len * 2) (inverse_blocks n len 0 s) in
    if ltb len n then next else s

unfoldable pub ntt_inverse : List ℕ → List ℕ
unfolding inverse_layers
ntt_inverse w = map (λ c. mul 8347681 c) (inverse_layers 9 1 (n, w)).1

unfoldable pub multiply_add_ntt : List ℕ → List ℕ → List ℕ → List ℕ
unfolding for_range
multiply_add_ntt acc a b =
    for_range n 0 (λ i acc. set acc i (add (at acc i) (mul (at a i) (at b i)))) acc
