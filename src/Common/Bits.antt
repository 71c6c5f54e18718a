-- ===== src/Common/Bits.antt =====
-- The laws of `&`, `|` and `^` that the sources rely on, at every width.
-- Each native operation means a recursion on binary digits; `…_step` is its equation for the
-- lowest digit, and the rest is induction through halving.
use Prim.Native.Nat.{ℕ, zero, suc, ◌+◌, ◌-◌, ◌*◌, ◌/◌, ◌%◌, ◌^◌, ◌≤◌, ◌<◌, min, max}
use Prim.Native.Nat.{bit_and, bit_or, bit_xor, digits, bitwise}
use Prim.Native.Nat.{bit_and-bitwise, bit_or-bitwise, bit_xor-bitwise, differ}
use mathlib.Core.Path.{◌≡◌, refl, sym, ap, ◌∙◌}
use native.Mathlib.Nat.{pow-suc, one-le-pow}
use native.Mathlib.Omega.{arith}

-- The recursion's fuel is dropped: any fuel from the first number up gives the same digits.
module _ (rest : ℕ → ℕ) (digit : ℕ → ℕ → ℕ) where
  abbrev with_fuel : ℕ → ℕ → ℕ → ℕ
  with_fuel fuel x y = digits rest digit fuel x y

  digits_of_zero : (fuel y : ℕ) → with_fuel fuel 0 y ≡ rest y
  digits_of_zero zero y = refl
  digits_of_zero (suc fuel) y = refl

  more_fuel :
      (fuel x y : ℕ) → x ≤ fuel → (more : ℕ) → x ≤ more → with_fuel fuel x y ≡ with_fuel more x y
  more_fuel fuel zero y _ more _ = digits_of_zero fuel y ∙ sym (digits_of_zero more y)
  more_fuel zero (suc x) y enough more _ = absurd (omega arith)
  more_fuel (suc fuel) (suc x) y enough zero above = absurd (omega arith)
  more_fuel (suc fuel) (suc x) y enough (suc more) above =
      ap (λ high. high * 2 + digit (suc x % 2) (y % 2))
        (more_fuel fuel (suc x / 2) (y / 2) (omega arith) more (omega arith))

  -- The lowest digit, when the rule for what is left of the second number agrees.
  bitwise_halves :
      (x y : ℕ)
      → rest y ≡ rest (y / 2) * 2 + digit 0 (y % 2)
      → bitwise rest digit x y ≡ bitwise rest digit (x / 2) (y / 2) * 2 + digit (x % 2) (y % 2)
  bitwise_halves zero y low = low
  bitwise_halves (suc x) y low =
      ap (λ high. high * 2 + digit (suc x % 2) (y % 2))
        (more_fuel x (suc x / 2) (y / 2) (omega arith) (suc x / 2) (omega arith))

pub bit_and_step : (a b : ℕ) → bit_and a b ≡ bit_and (a / 2) (b / 2) * 2 + min (a % 2) (b % 2)
bit_and_step a b = simp bit_and-bitwise (bitwise_halves (λ y. 0) min a b (omega arith))

pub bit_or_step : (x y : ℕ) → bit_or x y ≡ bit_or (x / 2) (y / 2) * 2 + max (x % 2) (y % 2)
bit_or_step x y = simp bit_or-bitwise (bitwise_halves (λ y. y) max x y (omega arith))

differ-eq : (a b : ℕ) → a < 2 → b < 2 → differ a b ≡ (a + b) % 2
differ-eq zero zero p q = refl
differ-eq zero (suc b) p q = ground arith
differ-eq (suc a) zero p q = ground arith
differ-eq (suc a) (suc b) p q = ground arith

pub bit_xor_step : (a b : ℕ) → bit_xor a b ≡ bit_xor (a / 2) (b / 2) * 2 + (a % 2 + b % 2) % 2
bit_xor_step a b = rw (← differ-eq (a % 2) (b % 2) (omega arith) (omega arith)) (
    simp bit_xor-bitwise (
      bitwise_halves (λ y. y) differ a b
        (omega (arith, differ-eq 0 (b % 2) (omega arith) (omega arith)))))

-- Bits of a number below `2 ^ k` are exhausted after `k` halvings.
half_below : (k a : ℕ) → a < 2 ^ suc k → a / 2 < 2 ^ k
half_below k a h = omega (arith, pow-suc 2 k)

width : (a : ℕ) → a < 2 ^ a
width zero = omega arith
width (suc a) = omega (arith, width a, pow-suc 2 a)

zero_of_below : (a : ℕ) → a < 2 ^ 0 → a ≡ 0
zero_of_below a h = omega arith

bit_or_zero_at : (k a : ℕ) → a < 2 ^ k → bit_or a 0 ≡ a
bit_or_zero_at zero a h = rw (zero_of_below a h)
bit_or_zero_at (suc k) a h =
    omega (arith, bit_or_step a 0, bit_or_zero_at k (a / 2) (half_below k a h))

pub bit_or-zero : (a : ℕ) → bit_or a 0 ≡ a
bit_or-zero a = bit_or_zero_at a a (width a)

bit_and_zero_at : (k a : ℕ) → a < 2 ^ k → bit_and a 0 ≡ 0
bit_and_zero_at zero a h = rw (zero_of_below a h)
bit_and_zero_at (suc k) a h =
    omega (arith, bit_and_step a 0, bit_and_zero_at k (a / 2) (half_below k a h))

pub bit_and-zero : (a : ℕ) → bit_and a 0 ≡ 0
bit_and-zero a = bit_and_zero_at a a (width a)

pub zero-bit_and : (a : ℕ) → bit_and 0 a ≡ 0
zero-bit_and a = bit_and-bitwise 0 a

pub zero-bit_or : (a : ℕ) → bit_or 0 a ≡ a
zero-bit_or a = bit_or-bitwise 0 a

pub zero-bit_xor : (a : ℕ) → bit_xor 0 a ≡ a
zero-bit_xor a = bit_xor-bitwise 0 a

double_field : (q k : ℕ) → q * 2 ^ suc k ≡ 2 * (q * 2 ^ k)
double_field q k = omega (arith, ap (λ (t : ℕ). q * t) (pow-suc 2 k))

and_mask_fields : (k q r : ℕ) → r < 2 ^ k → bit_and (q * 2 ^ k + r) (2 ^ k - 1) ≡ r
and_mask_fields zero q r fits = bit_and-zero _ ∙ omega arith
and_mask_fields (suc k) q r fits = ground (
  arith,
  bit_and_step (q * 2 ^ suc k + r) (2 ^ suc k - 1),
  double_field q k,
  pow-suc 2 k,
  one-le-pow k 2,
  and_mask_fields k q (r / 2) (omega arith),
)

mask_and_fields : (k q r : ℕ) → r < 2 ^ k → bit_and (2 ^ k - 1) (q * 2 ^ k + r) ≡ r
mask_and_fields zero q r fits = zero-bit_and _ ∙ omega arith
mask_and_fields (suc k) q r fits = ground (
  arith,
  bit_and_step (2 ^ suc k - 1) (q * 2 ^ suc k + r),
  double_field q k,
  pow-suc 2 k,
  one-le-pow k 2,
  mask_and_fields k q (r / 2) (omega arith),
)

-- A mask of `k` low ones is the remainder by `2 ^ k`.
pub bit_and_mask : (k a : ℕ) → bit_and a (2 ^ k - 1) ≡ a % 2 ^ k
bit_and_mask k a = ground (arith, one-le-pow k 2, and_mask_fields k (a / 2 ^ k) (a % 2 ^ k))

pub mask-bit_and : (k a : ℕ) → bit_and (2 ^ k - 1) a ≡ a % 2 ^ k
mask-bit_and k a = ground (arith, one-le-pow k 2, mask_and_fields k (a / 2 ^ k) (a % 2 ^ k))

xor_self_at : (k a : ℕ) → a < 2 ^ k → bit_xor a a ≡ 0
xor_self_at zero a h = rw (zero_of_below a h)
xor_self_at (suc k) a h = omega (arith, bit_xor_step a a, xor_self_at k (a / 2) (half_below k a h))

pub bit_xor_self : (a : ℕ) → bit_xor a a ≡ 0
bit_xor_self a = xor_self_at a a (width a)

xor_zero_at : (k a b : ℕ) → a < 2 ^ k → b < 2 ^ k → bit_xor a b ≡ 0 → a ≡ b
xor_zero_at zero a b p q e = omega arith
xor_zero_at (suc k) a b p q e =
    let ih = xor_zero_at k (a / 2) (b / 2) (half_below k a p) (half_below k b q) in
    omega (arith, bit_xor_step a b, ih (omega (arith, bit_xor_step a b)))

-- Two bytes with no differing bit are one byte.
pub bit_xor-eq-zero : (k a b : ℕ) → a < 2 ^ k → b < 2 ^ k → bit_xor a b ≡ 0 → a ≡ b
bit_xor-eq-zero k a b p q e = xor_zero_at k a b p q e

or_left_at : (k a b : ℕ) → a < 2 ^ k → bit_or a b ≡ 0 → (a ≡ 0) × (b ≡ 0)
or_left_at zero a b p e = (zero_of_below a p, ground (arith, zero_of_below a p, zero-bit_or b))
or_left_at (suc k) a b p e =
    let (l, r) = or_left_at k (a / 2) (b / 2) (half_below k a p) (omega (arith, bit_or_step a b)) in
    (omega (arith, bit_or_step a b, l), omega (arith, bit_or_step a b, r))

pub bit_or-eq-zero : (a b : ℕ) → bit_or a b ≡ 0 → (a ≡ 0) × (b ≡ 0)
bit_or-eq-zero a b e = or_left_at a a b (width a) e

pub bit_xor-lt : (k a b : ℕ) → a < 2 ^ k → b < 2 ^ k → bit_xor a b < 2 ^ k
bit_xor-lt zero a b p q = rw (zero_of_below a p, zero_of_below b q) (omega arith)
bit_xor-lt (suc k) a b p q = omega (
  arith,
  bit_xor_step a b,
  pow-suc 2 k,
  bit_xor-lt k (a / 2) (b / 2) (half_below k a p) (half_below k b q),
)

pub bit_or-lt : (k a b : ℕ) → a < 2 ^ k → b < 2 ^ k → bit_or a b < 2 ^ k
bit_or-lt zero a b p q = rw (zero_of_below a p, zero_of_below b q) (omega arith)
bit_or-lt (suc k) a b p q = omega (
  arith,
  bit_or_step a b,
  pow-suc 2 k,
  bit_or-lt k (a / 2) (b / 2) (half_below k a p) (half_below k b q),
)

-- `a | (b << k)` is a sum when `a` fits `k` bits.
pub bit_or_fields : (k a b : ℕ) → a < 2 ^ k → bit_or a (b * 2 ^ k) ≡ a + b * 2 ^ k
bit_or_fields zero a b h = rw (zero_of_below a h) (zero-bit_or _ ∙ omega arith)
bit_or_fields (suc k) a b h = ground (
  arith,
  bit_or_step a (b * 2 ^ suc k),
  double_field b k,
  bit_or_fields k (a / 2) b (half_below k a h),
)

xor_zero_at_right : (k a : ℕ) → a < 2 ^ k → bit_xor a 0 ≡ a
xor_zero_at_right zero a h = rw (zero_of_below a h)
xor_zero_at_right (suc k) a h =
    omega (arith, bit_xor_step a 0, xor_zero_at_right k (a / 2) (half_below k a h))

pub bit_xor-zero : (a : ℕ) → bit_xor a 0 ≡ a
bit_xor-zero a = xor_zero_at_right a a (width a)

-- `x ^ -1` is `!x`.
pub bit_xor-ones : (k a : ℕ) → a < 2 ^ k → bit_xor a (2 ^ k - 1) ≡ 2 ^ k - 1 - a
bit_xor-ones zero a h = rw (zero_of_below a h)
bit_xor-ones (suc k) a h = ground (
  arith,
  bit_xor_step a (2 ^ suc k - 1),
  pow-suc 2 k,
  one-le-pow k 2,
  bit_xor-ones k (a / 2) (half_below k a h),
)

or_ge_at : (k a b : ℕ) → b < 2 ^ k → b ≤ bit_or a b
or_ge_at zero a b h = omega (arith, zero_of_below b h)
or_ge_at (suc k) a b h =
    omega (arith, bit_or_step a b, or_ge_at k (a / 2) (b / 2) (half_below k b h))

pub bit_or-ge_right : (a b : ℕ) → b ≤ bit_or a b
bit_or-ge_right a b = or_ge_at b a b (width b)

xor_twice_at : (k a b : ℕ) → a < 2 ^ k → b < 2 ^ k → bit_xor a (bit_xor a b) ≡ b
xor_twice_at zero a b p q = rw (zero_of_below a p, zero_of_below b q) refl
xor_twice_at (suc k) a b p q =
    let half : bit_xor a b / 2 ≡ bit_xor (a / 2) (b / 2) = omega (arith, bit_xor_step a b) in
    let ih = xor_twice_at k (a / 2) (b / 2) (half_below k a p) (half_below k b q) in
    let step = bit_xor_step a (bit_xor a b) in omega (arith, rw half at step, ih, bit_xor_step a b)

pub bit_xor_twice : (k a b : ℕ) → a < 2 ^ k → b < 2 ^ k → bit_xor a (bit_xor a b) ≡ b
bit_xor_twice k a b p q = xor_twice_at k a b p q

pub bit_or_comm : (k a b : ℕ) → a < 2 ^ k → b < 2 ^ k → bit_or a b ≡ bit_or b a
bit_or_comm zero a b p q = rw (zero_of_below a p, zero_of_below b q) refl
bit_or_comm (suc k) a b p q = omega (
  arith,
  bit_or_step a b,
  bit_or_step b a,
  bit_or_comm k (a / 2) (b / 2) (half_below k a p) (half_below k b q),
)
