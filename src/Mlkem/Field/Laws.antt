-- ===== src/Mlkem/Field/Laws.antt =====
-- The arithmetic of a coefficient is that of the integers modulo q.
use macula_pq.Common.{ℕ, ◌+◌, ◌-◌, ◌*◌, ◌/◌, ◌%◌, ◌^◌, ◌≤◌, ◌<◌, ◌≡◌, arith}
use macula_pq.Common.Word.{sign_mask32, sign_mask64, add32, sub32, i16_to_i32}
use macula_pq.Mlkem.Field.{q, reduce, mul, add, sub}

pub add-mod : (a b : ℕ) → a < q → b < q → add a b ≡ (a + b) % q
unfolding add
add-mod a b ha hb =
    ground (arith, sign_mask32 (sub32 (q - 1) (add32 (i16_to_i32 a) (i16_to_i32 b))) 1)

pub sub-mod : (a b : ℕ) → a < q → b < q → sub a b ≡ (a + q - b) % q
unfolding sub
sub-mod a b ha hb = ground (arith, sign_mask32 (sub32 (i16_to_i32 a) (i16_to_i32 b)) q)

reduce_quotient :
    (a : ℕ) → a < 2 ^ 25 → let t = (20158 * a + 2 ^ 25) / 2 ^ 26 * q in (t < a + q) × (a < t + q)
reduce_quotient a h = omega arith

-- Barrett reduction is the remainder, up to 2^25.
pub reduce-mod : (a : ℕ) → a < 2 ^ 25 → reduce a ≡ a % q
unfolding reduce
reduce-mod a h = ground (
  arith,
  reduce_quotient a h,
  sign_mask64 ((a + 2 ^ 64 - (20158 * a + 2 ^ 25) / 2 ^ 26 * q) % 2 ^ 64) q,
)

product_below : (a b : ℕ) → a < q → b < q → a * b ≤ 3328 * 3328
product_below a b ha hb = grind arith

pub mul-mod : (a b : ℕ) → a < q → b < q → mul a b ≡ a * b % q
unfolding mul
mul-mod a b ha hb = ground (arith, product_below a b ha hb, reduce-mod (a * b))

pub mul-lt : (a b : ℕ) → a < q → b < q → mul a b < q
mul-lt a b ha hb = omega (arith, mul-mod a b ha hb)

pub add-lt : (a b : ℕ) → a < q → b < q → add a b < q
add-lt a b ha hb = omega (arith, add-mod a b ha hb)

pub sub-lt : (a b : ℕ) → a < q → b < q → sub a b < q
sub-lt a b ha hb = omega (arith, sub-mod a b ha hb)

-- On coefficients below q, the branch-free addition, subtraction and multiplication of ML-KEM are
-- those of the integers modulo q.
pub arithmetic_mod_3329 :
    (a b : ℕ)
    → a < q
    → b < q
    → (add a b ≡ (a + b) % q) × (sub a b ≡ (a + q - b) % q) × (mul a b ≡ a * b % q)
arithmetic_mod_3329 a b ha hb = (add-mod a b ha hb, sub-mod a b ha hb, mul-mod a b ha hb)
