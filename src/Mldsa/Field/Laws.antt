-- ===== src/Mldsa/Field/Laws.antt =====
-- The arithmetic of a coefficient is that of the integers modulo q.
use macula_pq.Common.{
  ℕ, ◌+◌, ◌-◌, ◌*◌, ◌/◌, ◌%◌, ◌^◌, ◌≤◌, ◌<◌, ◌≡◌, arith, min, ltb, if◌then◌else◌,
}
use macula_pq.Common.Word.{
  sign_mask32, sign_mask64, add32, sub32, sub64, mul64, add64, u32, u64, abs_word32,
}
use macula_pq.Mldsa.Field.{q, reduce, mul, add, sub, from_signed, centered_abs}

pub add-mod : (a b : ℕ) → a < q → b < q → add a b ≡ (a + b) % q
unfolding add
add-mod a b ha hb = ground (arith, sign_mask32 (sub32 (add32 a b) q) q)

pub sub-mod : (a b : ℕ) → a < q → b < q → sub a b ≡ (a + q - b) % q
unfolding sub
sub-mod a b ha hb = ground (arith, sign_mask32 (sub32 a b) q)

reduce_quotient :
    (a : ℕ) → a < 2 ^ 48 → let t = a * (2 ^ 70 / q) / 2 ^ 70 in (t * q ≤ a) × (a < t * q + 2 * q)
reduce_quotient a h = omega arith

fold_remainder :
    (a : ℕ)
    → a < 2 ^ 48
    → let r = sub64 (sub64 a (mul64 (a * (2 ^ 70 / q) / 2 ^ 70) q)) q in
      u32 (add64 r (if ltb r (2 ^ 63) then 0 else q)) ≡ a % q
fold_remainder a h = ground (arith, reduce_quotient a h)

-- Barrett reduction is the remainder, up to 2^48.
pub reduce-mod : (a : ℕ) → a < 2 ^ 48 → reduce a ≡ a % q
unfolding reduce
reduce-mod a h =
    let t = a * (2 ^ 70 / q) / 2 ^ 70 in
    let word = u64 (a * (2 ^ 70 / q) % 2 ^ 128 / 2 ^ 70) in
    let e : word ≡ t = omega arith in
    let r = sub64 (sub64 a (mul64 word q)) q in
    let m = sign_mask64 r q (omega arith) (omega arith) in rw (m, e) (fold_remainder a h)

product_below : (a b : ℕ) → a < q → b < q → a * b ≤ 8380416 * 8380416
product_below a b ha hb = grind arith

pub mul-mod : (a b : ℕ) → a < q → b < q → mul a b ≡ a * b % q
unfolding mul
mul-mod a b ha hb = ground (arith, product_below a b ha hb, reduce-mod (a * b))

-- The two's complement of a negative value above -q stands for it modulo q.
pub from_signed-mod :
    (v : ℕ)
    → (v < q → from_signed v ≡ v) × (2 ^ 32 - q < v → v < 2 ^ 32 → from_signed v ≡ v + q - 2 ^ 32)
unfolding from_signed
from_signed-mod v = (λ h. ground (arith, sign_mask32 v q), λ h h'. ground (arith, sign_mask32 v q))

pub centered_abs-min : (c : ℕ) → c < q → centered_abs c ≡ min c (q - c)
unfolding centered_abs
centered_abs-min c h =
    let m = sign_mask32 (sub32 ((q - 1) / 2) c) q (omega arith) (omega arith) in
    let v = sub32 c (if ltb (sub32 ((q - 1) / 2) c) (2 ^ 31) then 0 else q) in
    rw (m, abs_word32 v (omega arith)) (ground arith)

-- On coefficients below q, the branch-free addition, subtraction and multiplication of ML-DSA are
-- those of the integers modulo q.
pub arithmetic_mod_8380417 :
    (a b : ℕ)
    → a < q
    → b < q
    → (add a b ≡ (a + b) % q) × (sub a b ≡ (a + q - b) % q) × (mul a b ≡ a * b % q)
arithmetic_mod_8380417 a b ha hb = (add-mod a b ha hb, sub-mod a b ha hb, mul-mod a b ha hb)
