-- ===== src/Common/Digits.antt =====
-- Binary digits one at a time: what shifts and masks read off a number.
use Prim.Native.Nat.{max}
use native.Mathlib.Nat.{pow-suc, pow-succ', one-le-pow, div-div-eq-div-mul}
use macula_pq.Common.Tests.{◌==◌, if◌then◌else◌}
use macula_pq.Common.Bits.{bit_and_step, bit_or_step, bit_and_mask}
use Prim.Native.Nat.{ℕ, zero, suc, ◌+◌, ◌-◌, ◌*◌, ◌/◌, ◌%◌, ◌^◌, ◌<◌, bit_and, bit_or}
use mathlib.Core.Path.{◌≡◌, refl, ap, ◌∙◌}
use native.Mathlib.Omega.{arith}

abbrev pub digit : ℕ → ℕ → ℕ
digit zero x = x % 2
digit (suc s) x = digit s (x / 2)

-- The remainder by a power of two, one digit more.
pub mod_double : (k w : ℕ) → w % 2 ^ suc k ≡ w / 2 % 2 ^ k * 2 + w % 2
mod_double k w = ground (
  arith,
  bit_and_mask (suc k) w,
  bit_and_mask k (w / 2),
  bit_and_step w (2 ^ suc k - 1),
  pow-suc 2 k,
  one-le-pow k 2,
)

double_pow : (a k : ℕ) → a * 2 ^ suc k ≡ 2 * (a * 2 ^ k)
double_pow a k = omega (arith, ap (λ (t : ℕ). a * t) (pow-suc 2 k))

-- The digit above the low `k` ones.
pub mod_pow_suc : (k w : ℕ) → w % 2 ^ suc k ≡ w % 2 ^ k + digit k w * 2 ^ k
mod_pow_suc zero w = omega arith
mod_pow_suc (suc k) w = omega (
  arith,
  mod_double (suc k) w,
  mod_double k w,
  mod_pow_suc k (w / 2),
  double_pow (digit k (w / 2)) k,
)

pub digit-lt : (s x : ℕ) → digit s x < 2
digit-lt zero x = omega arith
digit-lt (suc s) x = digit-lt s (x / 2)

pub digit-zero : (s : ℕ) → digit s 0 ≡ 0
digit-zero zero = refl
digit-zero (suc s) = digit-zero s

div_pow_suc : (s x : ℕ) → x / 2 ^ suc s ≡ x / 2 / 2 ^ s
div_pow_suc s x = rw (div-div-eq-div-mul, pow-succ')

-- `(x >> s) & 1`.
pub bit_and-digit : (s x : ℕ) → bit_and (x / 2 ^ s) 1 ≡ digit s x
bit_and-digit zero x = bit_and_mask 1 (x / 2 ^ 0) ∙ omega arith
bit_and-digit (suc s) x = rw (div_pow_suc s x) (bit_and-digit s (x / 2))

pub digit-bit_or : (s a b : ℕ) → digit s (bit_or a b) ≡ max (digit s a) (digit s b)
digit-bit_or zero a b = omega (arith, bit_or_step a b)
digit-bit_or (suc s) a b =
    let half : bit_or a b / 2 ≡ bit_or (a / 2) (b / 2) = omega (arith, bit_or_step a b) in
    rw half (digit-bit_or s (a / 2) (b / 2))

-- The digits of one bit shifted to place `r`.
pub digit-shift : (s r b : ℕ) → b < 2 → digit s (b * 2 ^ r) ≡ (if s == r then b else 0)
digit-shift zero zero b h = omega arith
digit-shift (suc s) zero b h =
    let none : b * 2 ^ 0 / 2 ≡ 0 = omega arith in rw none (ground (arith, digit-zero s))
digit-shift zero (suc r) b h = ground (arith, double_pow b r)
digit-shift (suc s) (suc r) b h =
    let half : b * 2 ^ suc r / 2 ≡ b * 2 ^ r = omega (arith, double_pow b r) in
    rw half (ground (arith, digit-shift s r b h))
