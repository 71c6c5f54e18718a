-- ===== src/Common/Powers.antt =====
-- Powers of two, and numbers cut at a power of two.
use Prim.Native.Nat.{ℕ, zero, suc, ◌+◌, ◌-◌, ◌*◌, ◌/◌, ◌%◌, ◌^◌, ◌≤◌, ◌<◌}
use native.Mathlib.Nat.{
  one-le-pow, pow-suc, add-mul-mod_self_left, add-mul-div_left, mod-eq_of_lt, div-eq_of_lt,
}
use mathlib.Core.Path.{◌≡◌, ◌∙◌}
use native.Mathlib.Omega.{arith}

pub pow_add : (a b : ℕ) → 2 ^ (a + b) ≡ 2 ^ a * 2 ^ b
pow_add zero b = let e : zero + b ≡ b = omega arith in rw e (omega arith)
pow_add (suc a) b =
    let e : suc a + b ≡ suc (a + b) = omega arith in
    rw (e, pow-suc 2 (a + b), pow-suc 2 a, pow_add a b) (grind arith)

pub pow_split : (a b : ℕ) → a ≤ b → 2 ^ b ≡ 2 ^ a * 2 ^ (b - a)
pow_split a b h =
    let p : 2 ^ (a + (b - a)) ≡ 2 ^ a * 2 ^ (b - a) = pow_add a (b - a) in
    let e : a + (b - a) ≡ b = omega arith in rw e at p

-- A low part below 2^a and a high part above it.
pub fields-lt : (a b x y : ℕ) → x < 2 ^ a → y < 2 ^ b → x + 2 ^ a * y < 2 ^ (a + b)
fields-lt a b x y hx hy = rw (pow_add a b) (below (2 ^ a) (2 ^ b) hx hy)
  where
    below : (m n : ℕ) → x < m → y < n → x + m * y < m * n
    below m n h k = grind arith

pub fields-mod : (a x y : ℕ) → x < 2 ^ a → (x + 2 ^ a * y) % 2 ^ a ≡ x
fields-mod a x y h = add-mul-mod_self_left x (2 ^ a) y ∙ mod-eq_of_lt h

pub fields-div : (a x y : ℕ) → x < 2 ^ a → (x + 2 ^ a * y) / 2 ^ a ≡ y
fields-div a x y h =
    add-mul-div_left x y (one-le-pow a 2 (omega arith)) ∙ rw (div-eq_of_lt h) (omega arith)
