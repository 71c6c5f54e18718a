-- ===== src/Mldsa/Rounding.antt =====
-- macula-mldsa/src/poly.rs: rounding of one coefficient and the hint bits. An i32 is its bit
-- pattern, so a negative low part is its two's complement.
pub mod Decompose
pub mod Hints
pub mod Stable
use macula_pq.Common.{
  ℕ, ◌+◌, ◌-◌, ◌*◌, ◌/◌, ◌%◌, ◌^◌, bit_and, bit_or, bit_xor, Bool, true, false, ltb, ◌==◌, ◌&&◌,
  not, if◌then◌else◌,
}
use macula_pq.Common.Word.{u32, add32, sub32, mul32, mul64, asr32, not32, i32_to_i64}
use macula_pq.Mldsa.Field.{q, d, add}

-- `Power2Round`.
unfoldable pub power2round : ℕ → ℕ × ℕ
power2round r =
    let low = bit_and r (2 ^ d - 1) in
    let r0 = sub32 low (bit_and (asr32 (sub32 (2 ^ (d - 1)) low) 31) (2 ^ d)) in
    (asr32 (sub32 r r0) d, r0)

-- `(1u64 << 48).div_ceil(alpha)`.
unfoldable pub div_ceil : ℕ → ℕ → ℕ
div_ceil a b = (a + b - 1) / b

unfoldable pub div_floor : ℕ → ℕ → ℕ
unfolding div_ceil
div_floor x alpha =
    let m = div_ceil (2 ^ 48) (i32_to_i64 alpha) in u32 (mul64 (i32_to_i64 x) m / 2 ^ 48)

-- `Decompose`.
unfoldable pub decompose : ℕ → ℕ → ℕ × ℕ
unfolding div_floor
decompose r gamma2 =
    let alpha = mul32 2 gamma2 in
    let r1 = div_floor (sub32 (add32 r gamma2) 1) alpha in
    let r0 = sub32 r (mul32 r1 alpha) in
    let m = (q - 1) / alpha in
    let edge = not32 (asr32 (sub32 r1 m) 31) in (bit_and r1 (not32 edge), sub32 r0 (bit_and edge 1))

unfoldable pub high_bits : ℕ → ℕ → ℕ
unfolding decompose
high_bits r gamma2 = (decompose r gamma2).0

unfoldable pub low_bits : ℕ → ℕ → ℕ
unfolding decompose
low_bits r gamma2 = (decompose r gamma2).1

-- `MakeHint`; `-d` is `0 - d` in 32 bits.
unfoldable pub make_hint : ℕ → ℕ → ℕ → ℕ
unfolding high_bits add
make_hint z r gamma2 =
    let d = bit_xor (high_bits r gamma2) (high_bits (add r z) gamma2) in
    bit_and (asr32 (bit_or d (sub32 0 d)) 31) 1

-- `r0 > 0` of a signed word.
abbrev pub is_positive : ℕ → Bool
is_positive x = ltb 0 x && ltb x (2 ^ 31)

-- `UseHint`.
unfoldable pub use_hint : ℕ → ℕ → ℕ → ℕ
unfolding decompose
use_hint h r gamma2 =
    let m = (q - 1) / mul32 2 gamma2 in
    let (r1, r0) = decompose r gamma2 in
    if h == 1 then (if is_positive r0 then add32 r1 1 % m else sub32 (add32 r1 m) 1 % m) else r1
