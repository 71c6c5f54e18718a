-- ===== src/Mldsa/Field.antt =====
-- macula-mldsa/src/poly.rs: the modulus and the branch-free arithmetic of one coefficient.
-- An i32 is its bit pattern.
pub mod Laws
pub mod Congruence
use macula_pq.Common.{ℕ, ◌+◌, ◌-◌, ◌*◌, ◌/◌, ◌%◌, ◌^◌, bit_and, bit_xor}
use macula_pq.Common.Word.{u32, u64, add32, sub32, i32_to_i64, sub64, add64, mul64, asr32, asr64}

abbrev pub q : ℕ
q = 8380417

-- The degree of the ring.
abbrev pub n : ℕ
n = 256

-- The bits of a coefficient that `power2round` drops.
abbrev pub d : ℕ
d = 13

-- Barrett reduction of a u64, with `V` = 2^70 / q and the product in a u128.
unfoldable pub reduce : ℕ → ℕ
reduce a =
    let t = u64 (a * (2 ^ 70 / q) % 2 ^ 128 / 2 ^ 70) in
    let r = sub64 (sub64 a (mul64 t q)) q in u32 (add64 r (bit_and (asr64 r 63) q))

unfoldable pub mul : ℕ → ℕ → ℕ
unfolding reduce
mul a b = reduce (mul64 (i32_to_i64 a) (i32_to_i64 b))

unfoldable pub add : ℕ → ℕ → ℕ
add a b = let s = sub32 (add32 a b) q in add32 s (bit_and (asr32 s 31) q)

unfoldable pub sub : ℕ → ℕ → ℕ
sub a b = let d = sub32 a b in add32 d (bit_and (asr32 d 31) q)

-- A small signed value as a coefficient.
unfoldable pub from_signed : ℕ → ℕ
from_signed v = add32 v (bit_and (asr32 v 31) q)

-- The distance to 0 modulo q.
unfoldable pub centered_abs : ℕ → ℕ
centered_abs c =
    let v = sub32 c (bit_and (asr32 (sub32 ((q - 1) / 2) c) 31) q) in
    sub32 (bit_xor v (asr32 v 31)) (asr32 v 31)
