-- ===== src/Mlkem/Field.antt =====
-- macula-mlkem/src/poly.rs: the modulus and the branch-free arithmetic of one coefficient.
-- An i16 or an i32 is its bit pattern.
pub mod Laws
use macula_pq.Common.{ℕ, ◌+◌, ◌-◌, ◌*◌, ◌/◌, ◌^◌, bit_and}
use macula_pq.Common.Word.{
  u16, i16_to_i32, i32_to_i64, add32, sub32, mul32, add64, sub64, mul64, asr32, asr64,
}

abbrev pub q : ℕ
q = 3329

-- The degree of the ring.
abbrev pub n : ℕ
n = 256

-- Barrett reduction; `V` of the source is 2^26 / q.
unfoldable pub reduce : ℕ → ℕ
reduce a =
    let a64 = i32_to_i64 a in
    let t = mul64 (asr64 (add64 (mul64 (2 ^ 26 / q) a64) (2 ^ 25)) 26) q in
    let r = sub64 a64 t in u16 (add64 r (bit_and (asr64 r 63) q))

unfoldable pub mul : ℕ → ℕ → ℕ
unfolding reduce
mul a b = reduce (mul32 (i16_to_i32 a) (i16_to_i32 b))

unfoldable pub add : ℕ → ℕ → ℕ
add a b =
    let s = add32 (i16_to_i32 a) (i16_to_i32 b) in
    u16 (sub32 s (mul32 (bit_and (asr32 (sub32 (q - 1) s) 31) 1) q))

unfoldable pub sub : ℕ → ℕ → ℕ
sub a b = let d = sub32 (i16_to_i32 a) (i16_to_i32 b) in u16 (add32 d (bit_and (asr32 d 31) q))
