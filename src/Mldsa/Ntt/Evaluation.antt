-- ===== src/Mldsa/Ntt/Evaluation.antt =====
-- macula-mldsa/src/poly.rs: values of a polynomial, and of the blocks of one.
use macula_pq.Common.{
  ℕ, zero, suc, ◌+◌, ◌*◌, ◌%◌, ◌^◌, ◌<◌, ◌≡◌, ◌∙◌, refl, sym, ap, ap₂, arith, List, [], ◌∷◌, length,
}
use native.Mathlib.Nat.{pow-suc, pow-zero}
use macula_pq.Mldsa.Field.{q}
use macula_pq.Mldsa.Field.Congruence.{mul_congr}
use macula_pq.Mldsa.Ntt.{at}

-- The value at `r`, by Horner's rule.
unfoldable pub evaluate : List ℕ → ℕ → ℕ
evaluate [] r = 0
evaluate (c ∷ w) r = c + r * evaluate w r

-- The value of `len` coefficients from `start` on.
unfoldable pub evaluate_block : List ℕ → ℕ → ℕ → ℕ → ℕ
evaluate_block w start zero r = 0
evaluate_block w start (suc len) r = at w start + r * evaluate_block w (suc start) len r

evaluate_block-cons :
    (c : ℕ) (w : List ℕ) (start len r : ℕ)
    → evaluate_block (c ∷ w) (suc start) len r ≡ evaluate_block w start len r
unfolding evaluate_block
evaluate_block-cons c w start zero r = refl
evaluate_block-cons c w start (suc len) r =
    ap (λ e. at w start + r * e) (evaluate_block-cons c w (suc start) len r)

pub evaluate_block-length : (w : List ℕ) (r : ℕ) → evaluate_block w 0 (length w) r ≡ evaluate w r
unfolding evaluate_block evaluate
evaluate_block-length [] r = refl
evaluate_block-length (c ∷ w) r =
    ap (λ e. c + r * e) (evaluate_block-cons c w 0 (length w) r ∙ evaluate_block-length w r)

evaluate_block_step : (c r x y p : ℕ) → c + r * (x + p * y) ≡ c + r * x + p * r * y
evaluate_block_step c r x y p = grind arith

pub evaluate_block-add :
    (w : List ℕ) (r a b len start : ℕ)
    → a + b ≡ len
    → evaluate_block w start len r
      ≡ evaluate_block w start a r + r ^ a * evaluate_block w (start + a) b r
unfolding evaluate_block
evaluate_block-add w r zero b len start e =
    let size : len ≡ b = omega (arith, e) in
    let here : start + 0 ≡ start = omega arith in
    rw (size, here) (omega (arith, ap (λ p. p * evaluate_block w start b r) (pow-zero r)))
evaluate_block-add w r (suc a) b zero start e = absurd (omega (arith, e))
evaluate_block-add w r (suc a) b (suc len) start e =
    let there : suc start + a ≡ start + suc a = omega arith in
    let rest = evaluate_block w (suc start + a) b r in
    ap (λ v. at w start + r * v) (evaluate_block-add w r a b len (suc start) (omega (arith, e)))
    ∙ evaluate_block_step (at w start) r (evaluate_block w (suc start) a r) rest (r ^ a)
    ∙ ap₂ (λ p s. at w start + r * evaluate_block w (suc start) a r + p * evaluate_block w s b r)
        (sym (pow-suc r a)) there

-- Two blocks are combined coefficient by coefficient.
pub evaluate_block_combine :
    (v w u : List ℕ) (z r len s i j : ℕ)
    → ((t : ℕ) → t < len → at v (s + t) % q ≡ (at w (i + t) + z * at u (j + t)) % q)
    → evaluate_block v s len r % q ≡ (evaluate_block w i len r + z * evaluate_block u j len r) % q
unfolding evaluate_block
evaluate_block_combine v w u z r zero s i j h = omega arith
evaluate_block_combine v w u z r (suc len) s i j h =
    let x = evaluate_block v (suc s) len r in
    let y = evaluate_block w (suc i) len r in
    let y' = evaluate_block u (suc j) len r in
    let shift = λ (k t : ℕ). let e : k + suc t ≡ suc k + t = omega arith in e in
    let ih = evaluate_block_combine v w u z r len (suc s) (suc i) (suc j) (λ t l.
      ap (λ k. at v k % q) (sym (shift s t))
      ∙ h (suc t) (omega (arith, l))
      ∙ ap₂ (λ k k'. (at w k + z * at u k') % q) (shift i t) (shift j t)) in
    let scaled = mul_congr r x (y + z * y') ih in
    let first = h 0 (omega arith) in
    let here : at v (s + 0) ≡ at v s = ap (at v) (omega arith) in
    let here' : at w (i + 0) ≡ at w i = ap (at w) (omega arith) in
    let here'' : z * at u (j + 0) ≡ z * at u j = ap (λ k. z * at u k) (omega arith) in
    let spread : r * (y + z * y') ≡ r * y + z * (r * y') = grind arith in
    let spread' : z * (at u j + r * y') ≡ z * at u j + z * (r * y') = grind arith in
    omega (arith, scaled, first, here, here', here'', spread, spread')
