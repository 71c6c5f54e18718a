-- ===== src/Common/Word.antt =====
-- Machine words. A `w`-bit integer is the number of its bit pattern, below 2 ^ w: a signed value is
-- its two's complement. Every operation writes its wrap-around out; `-` on ℕ stops at 0, so a
-- difference adds the modulus first.
use Prim.Native.Nat.{ℕ, ◌+◌, ◌-◌, ◌*◌, ◌/◌, ◌%◌, ◌^◌, ◌≤◌, ◌<◌, bit_and, bit_xor}
use mathlib.Core.Path.{◌≡◌}
use mathlib.Core.Bool.{Bool}
use mathlib.Core.List.{List}
use native.Mathlib.Omega.{arith}
use macula_pq.Common.Tests.{ltb, if◌then◌else◌}
use macula_pq.Common.Lists.{All}
use macula_pq.Common.Bits.{mask-bit_and, zero-bit_and, bit_xor-zero, bit_xor-ones}

-- `x as u8`, `as u16`, `as u32`, `as u64` of a wider value; also `as i16` and `as i32`.
abbrev pub u8 : ℕ → ℕ
u8 x = x % 2 ^ 8

abbrev pub u16 : ℕ → ℕ
u16 x = x % 2 ^ 16

abbrev pub u32 : ℕ → ℕ
u32 x = x % 2 ^ 32

abbrev pub u64 : ℕ → ℕ
u64 x = x % 2 ^ 64

-- Sign extensions: `i16 as i32` and `i32 as i64`.
abbrev pub i16_to_i32 : ℕ → ℕ
i16_to_i32 x = if ltb x (2 ^ 15) then x else x + (2 ^ 32 - 2 ^ 16)

abbrev pub i32_to_i64 : ℕ → ℕ
i32_to_i64 x = if ltb x (2 ^ 31) then x else x + (2 ^ 64 - 2 ^ 32)

-- 32-bit and 64-bit sums, differences and products.
abbrev pub add32 : ℕ → ℕ → ℕ
add32 a b = u32 (a + b)

abbrev pub sub32 : ℕ → ℕ → ℕ
sub32 a b = u32 (a + 2 ^ 32 - b)

abbrev pub mul32 : ℕ → ℕ → ℕ
mul32 a b = u32 (a * b)

abbrev pub add64 : ℕ → ℕ → ℕ
add64 a b = u64 (a + b)

abbrev pub sub64 : ℕ → ℕ → ℕ
sub64 a b = u64 (a + 2 ^ 64 - b)

abbrev pub mul64 : ℕ → ℕ → ℕ
mul64 a b = u64 (a * b)

-- `x << k` in 32 and 64 bits, and `x >> k` of an unsigned value.
abbrev pub shl32 : ℕ → ℕ → ℕ
shl32 x k = u32 (x * 2 ^ k)

abbrev pub shl64 : ℕ → ℕ → ℕ
shl64 x k = u64 (x * 2 ^ k)

abbrev pub shr : ℕ → ℕ → ℕ
shr x k = x / 2 ^ k

-- `x >> k` of a signed value copies the sign bit in.
abbrev pub asr32 : ℕ → ℕ → ℕ
asr32 x k = if ltb x (2 ^ 31) then x / 2 ^ k else 2 ^ 32 - 1 - (2 ^ 32 - 1 - x) / 2 ^ k

abbrev pub asr64 : ℕ → ℕ → ℕ
asr64 x k = if ltb x (2 ^ 63) then x / 2 ^ k else 2 ^ 64 - 1 - (2 ^ 64 - 1 - x) / 2 ^ k

-- `a < b` of two i32 values: flipping the sign bits orders the patterns.
abbrev pub slt32 : ℕ → ℕ → Bool
slt32 a b = ltb ((a + 2 ^ 31) % 2 ^ 32) ((b + 2 ^ 31) % 2 ^ 32)

-- `!x`.
abbrev pub not8 : ℕ → ℕ
not8 x = 2 ^ 8 - 1 - x

abbrev pub not32 : ℕ → ℕ
not32 x = 2 ^ 32 - 1 - x

abbrev pub not64 : ℕ → ℕ
not64 x = 2 ^ 64 - 1 - x

abbrev pub IsByte : ℕ → Type 0
IsByte b = b < 256

abbrev pub IsBytes : List ℕ → Type 0
IsBytes = All IsByte

-- `(x >> 31) & m`, the sources' branch-free "m if x is negative".
pub sign_mask32 :
    (x m : ℕ) → x < 2 ^ 32 → m < 2 ^ 32 → bit_and (asr32 x 31) m ≡ (if ltb x (2 ^ 31) then 0 else m)
sign_mask32 x m hx hm = ground (arith, ones, mask-bit_and 32 m, zero-bit_and m)
  where
    ones : 2 ^ 31 ≤ x → (2 ^ 32 - 1 - (2 ^ 32 - 1 - x) / 2 ^ 31) ≡ 2 ^ 32 - 1
    ones h = omega arith

pub sign_mask64 :
    (x m : ℕ) → x < 2 ^ 64 → m < 2 ^ 64 → bit_and (asr64 x 63) m ≡ (if ltb x (2 ^ 63) then 0 else m)
sign_mask64 x m hx hm = ground (arith, ones, mask-bit_and 64 m, zero-bit_and m)
  where
    ones : 2 ^ 63 ≤ x → (2 ^ 64 - 1 - (2 ^ 64 - 1 - x) / 2 ^ 63) ≡ 2 ^ 64 - 1
    ones h = omega arith

-- `(v ^ (v >> 31)) - (v >> 31)`: the absolute value of a signed word.
pub abs_word32 :
    (v : ℕ)
    → v < 2 ^ 32
    → sub32 (bit_xor v (asr32 v 31)) (asr32 v 31) ≡ (if ltb v (2 ^ 31) then v else 2 ^ 32 - v)
abs_word32 v h = ground (arith, ones, zeros, bit_xor-zero v, bit_xor-ones 32 v)
  where
    ones : 2 ^ 31 ≤ v → (2 ^ 32 - 1 - (2 ^ 32 - 1 - v) / 2 ^ 31) ≡ 2 ^ 32 - 1
    ones p = omega arith

    zeros : v < 2 ^ 31 → v / 2 ^ 31 ≡ 0
    zeros p = omega arith
