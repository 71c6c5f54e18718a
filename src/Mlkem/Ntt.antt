-- ===== src/Mlkem/Ntt.antt =====
-- macula-mlkem/src/poly.rs: the table of roots, the transforms and the ring operations, on a
-- polynomial as the list of its 256 coefficients. Every index is in range by the loop bounds.

use macula_pq.Common.{
  ℕ, zero, suc, ◌+◌, ◌-◌, ◌*◌, ◌/◌, ◌%◌, ◌^◌, bit_and, bit_or, ltb, leb, ◌==◌, if◌then◌else◌,
  for_range, List, [], ◌∷◌, map, get_or, set, replicate,
}
use macula_pq.Common.Word.{shr, mul32}
use macula_pq.Mlkem.Field.{q, n, mul, add, sub}

abbrev pub at : List ℕ → ℕ → ℕ
at f i = get_or f i 0

-- The inner loops of `build_zetas`, for one index: the seven bits reversed, and a power by
-- squaring. An exponent of 7 bits takes 7 rounds.
unfoldable pub bit_rev7 : ℕ → ℕ
unfolding for_range
bit_rev7 i = for_range 7 0 (λ b r. bit_or r (bit_and (shr i b) 1 * 2 ^ (6 - b))) 0

unfoldable pub power_loop : ℕ → ℕ → ℕ → ℕ → ℕ
power_loop zero acc base e = acc
power_loop (suc fuel) acc base e =
    let acc' = (if bit_and e 1 == 1 then mul32 acc base % q else acc) in
    let rest = power_loop fuel acc' (mul32 base base % q) (shr e 1) in if ltb 0 e then rest else acc

unfoldable pub zeta_of : ℕ → ℕ
unfolding bit_rev7 power_loop
zeta_of i = power_loop 7 1 17 (bit_rev7 i)

unfoldable pub build_zetas : ℕ → ℕ → List ℕ
unfolding zeta_of
build_zetas zero i = []
build_zetas (suc left) i = zeta_of i ∷ build_zetas left (i + 1)

unfoldable pub zetas : List ℕ
unfolding build_zetas
zetas = build_zetas 128 0

-- One butterfly of the forward and of the inverse transform, in place.
unfoldable pub butterfly : ℕ → ℕ → ℕ → List ℕ → List ℕ
butterfly len zeta j f =
    let t = mul zeta (at f (j + len)) in
    let f' = set f (j + len) (sub (at f j) t) in set f' j (add (at f' j) t)

unfoldable pub inverse_butterfly : ℕ → ℕ → ℕ → List ℕ → List ℕ
inverse_butterfly len zeta j f =
    let t = at f j in
    let f' = set f j (add t (at f (j + len))) in
    set f' (j + len) (mul zeta (sub (at f' (j + len)) t))

-- `while start < N { … start += 2 * len }`: the next root's index and the polynomial. A round
-- raises `start`, so N rounds are enough.
unfoldable pub ntt_blocks : ℕ → ℕ → ℕ → ℕ × List ℕ → ℕ × List ℕ
unfolding butterfly for_range
ntt_blocks zero len start s = s
ntt_blocks (suc fuel) len start s =
    let next =
      ntt_blocks fuel len (start + 2 * len)
        (s.0 + 1, for_range len start (butterfly len (at zetas s.0)) s.1) in
    if ltb start n then next else s

-- `while len >= 2 { … len /= 2 }`: seven rounds from 128.
unfoldable pub ntt_layers : ℕ → ℕ → ℕ × List ℕ → ℕ × List ℕ
unfolding ntt_blocks
ntt_layers zero len s = s
ntt_layers (suc fuel) len s =
    let next = ntt_layers fuel (len / 2) (ntt_blocks n len 0 s) in if leb 2 len then next else s

unfoldable pub ntt : List ℕ → List ℕ
unfolding ntt_layers
ntt f = (ntt_layers 8 128 (1, f)).1

-- The index counts down and wraps below 0 after the last use.
unfoldable pub intt_blocks : ℕ → ℕ → ℕ → ℕ × List ℕ → ℕ × List ℕ
unfolding inverse_butterfly for_range
intt_blocks zero len start s = s
intt_blocks (suc fuel) len start s =
    let next = intt_blocks fuel len (start + 2 * len) (
      (s.0 + 2 ^ 64 - 1) % 2 ^ 64,
      for_range len start (inverse_butterfly len (at zetas s.0)) s.1,
    ) in
    if ltb start n then next else s

unfoldable pub intt_layers : ℕ → ℕ → ℕ × List ℕ → ℕ × List ℕ
unfolding intt_blocks
intt_layers zero len s = s
intt_layers (suc fuel) len s =
    let next = intt_layers fuel (len * 2) (intt_blocks n len 0 s) in if leb len 128 then next else s

unfoldable pub intt : List ℕ → List ℕ
unfolding intt_layers
intt f = map (λ c. mul c 3303) (intt_layers 8 2 (127, f)).1

unfoldable pub base_case_multiply : ℕ → ℕ → ℕ → ℕ → ℕ → ℕ × ℕ
base_case_multiply a0 a1 b0 b1 gamma =
    (add (mul a0 b0) (mul (mul a1 b1) gamma), add (mul a0 b1) (mul a1 b0))

unfoldable pub multiply_pair : List ℕ → List ℕ → ℕ → List ℕ → List ℕ
unfolding base_case_multiply
multiply_pair a b i out =
    let gamma = mul (mul (at zetas i) (at zetas i)) 17 in
    let (c0, c1) =
      base_case_multiply (at a (2 * i)) (at a (2 * i + 1)) (at b (2 * i)) (at b (2 * i + 1))
        gamma in
    set (set out (2 * i) c0) (2 * i + 1) c1

unfoldable pub multiply_ntts : List ℕ → List ℕ → List ℕ
unfolding multiply_pair for_range
multiply_ntts a b = for_range 128 0 (multiply_pair a b) (replicate n 0)

unfoldable pub poly_add : List ℕ → List ℕ → List ℕ
unfolding for_range
poly_add a b = for_range n 0 (λ i out. set out i (add (at a i) (at b i))) (replicate n 0)

unfoldable pub poly_sub : List ℕ → List ℕ → List ℕ
unfolding for_range
poly_sub a b = for_range n 0 (λ i out. set out i (sub (at a i) (at b i))) (replicate n 0)
