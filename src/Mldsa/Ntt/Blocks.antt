-- ===== src/Mldsa/Ntt/Blocks.antt =====
-- macula-mldsa/src/poly.rs: what one block of a layer does to a polynomial, coefficient by coefficient.
use macula_pq.Common.{
  ℕ, zero, suc, ◌+◌, ◌≤◌, ◌<◌, ◌≡◌, ◌≢◌, ◌∙◌, refl, sym, ap, ap₂, arith, List, length, set, ◌==◌,
  inl, inr, Bool-cases, for_range, length-set, get_or-set_self, get_or-set_ne,
}
use macula_pq.Mldsa.Field.{mul, add, sub}
use macula_pq.Mldsa.Ntt.{at, butterfly, inverse_butterfly}

-- What stands at `j` and `j + len` is replaced by two functions of it.
pub record IsPair (f g : ℕ → ℕ → ℕ) (len j : ℕ) (w v : List ℕ) : Type 0 where
  pub size : length v ≡ length w
  pub low : at v j ≡ f (at w j) (at w (j + len))
  pub high : at v (j + len) ≡ g (at w j) (at w (j + len))
  pub rest : (i : ℕ) → i ≢ j → i ≢ j + len → at v i ≡ at w i

-- The same at `rounds` successive places.
pub record IsRun (f g : ℕ → ℕ → ℕ) (len start rounds : ℕ) (w v : List ℕ) : Type 0 where
  pub size : length v ≡ length w
  pub low : (i : ℕ) → start ≤ i → i < start + rounds → at v i ≡ f (at w i) (at w (i + len))
  pub high : (i : ℕ) → start ≤ i → i < start + rounds → at v (i + len) ≡ g (at w i) (at w (i + len))
  pub before : (i : ℕ) → i < start → at v i ≡ at w i
  pub between : (i : ℕ) → start + rounds ≤ i → i < start + len → at v i ≡ at w i
  pub after : (i : ℕ) → start + len + rounds ≤ i → at v i ≡ at w i

module _ (len : ℕ) (f g : ℕ → ℕ → ℕ) (step : ℕ → List ℕ → List ℕ)
    (pair : (j : ℕ) (w : List ℕ) → j + len < length w → IsPair f g len j w (step j w)) where
  pub for_range-IsRun :
      (rounds start : ℕ) (w : List ℕ)
      → rounds ≤ len
      → start + len + rounds ≤ length w
      → IsRun f g len start rounds w (for_range rounds start step w)
  unfolding for_range
  for_range-IsRun zero start w h room = record {
    size = refl;
    low = λ i a b. absurd (omega (arith, a, b));
    high = λ i a b. absurd (omega (arith, a, b));
    before = λ i a. refl;
    between = λ i a b. refl;
    after = λ i a. refl;
  }
  for_range-IsRun (suc rounds) start w h room =
      let first = pair start w (omega (arith, room)) in
      let w' = step start w in
      let ih =
        for_range-IsRun rounds (start + 1) w' (omega (arith, h))
          (omega (arith, room, first.size)) in
      let kept : (i : ℕ) → start < i → i < start + len → at w' i ≡ at w i =
        λ i a b. first.rest i (λ e. omega (arith, a, e)) (λ e. omega (arith, b, e)) in
      let kept' : (i : ℕ) → start < i → at w' (i + len) ≡ at w (i + len) =
        λ i a. first.rest (i + len) (λ e. omega (arith, a, e)) (λ e. omega (arith, a, e)) in
      record {
        size = ih.size ∙ first.size;
        low = λ i a b. (elim (Bool-cases (i == start)) [
          | inl t ↦
              (let e : i ≡ start = ground (arith, t) in
                rw e (ih.before start (omega arith) ∙ first.low))
          | inr t ↦
              (let c : start < i = ground (arith, t, a) in
                ih.low i (omega (arith, c)) (omega (arith, b))
                ∙ ap₂ f (kept i c (omega (arith, b, h))) (kept' i c))
        ]);
        high = λ i a b. (elim (Bool-cases (i == start)) [
          | inl t ↦
              (let e : i ≡ start = ground (arith, t) in
                rw e (ih.between (start + len) (omega (arith, h)) (omega arith) ∙ first.high))
          | inr t ↦
              (let c : start < i = ground (arith, t, a) in
                ih.high i (omega (arith, c)) (omega (arith, b))
                ∙ ap₂ g (kept i c (omega (arith, b, h))) (kept' i c))
        ]);
        before = λ i a.
            ih.before i (omega (arith, a))
            ∙ first.rest i (λ e. omega (arith, a, e)) (λ e. omega (arith, a, e));
        between = λ i a b.
            ih.between i (omega (arith, a)) (omega (arith, b)) ∙ kept i (omega (arith, a)) b;
        after = λ i a.
            ih.after i (omega (arith, a))
            ∙ first.rest i (λ e. omega (arith, a, e)) (λ e. omega (arith, a, e));
      }

at-set_self : (w : List ℕ) (i v : ℕ) → i < length w → at (set w i v) i ≡ v
at-set_self w i v h = get_or-set_self w i v 0 h

at-set_ne : (w : List ℕ) (i j v : ℕ) → i ≢ j → at (set w i v) j ≡ at w j
at-set_ne w i j v h = get_or-set_ne w i j v 0 h

pub butterfly-IsPair :
    (len z j : ℕ) (w : List ℕ)
    → 0 < len
    → j + len < length w
    → IsPair (λ a b. add a (mul z b)) (λ a b. sub a (mul z b)) len j w (butterfly len z j w)
unfolding butterfly
butterfly-IsPair len z j w hl room =
    let a = at w j in
    let t = mul z (at w (j + len)) in
    let w' = set w (j + len) (sub a t) in
    let size : length w' ≡ length w = length-set w (j + len) (sub a t) in
    let same : at w' j ≡ a = at-set_ne w (j + len) j (sub a t) (λ e. omega (arith, hl, e)) in
    record {
      size = length-set w' j (add (at w' j) t) ∙ size;
      low = at-set_self w' j (add (at w' j) t) (omega (arith, room, size)) ∙ ap (λ c. add c t) same;
      high =
          at-set_ne w' j (j + len) (add (at w' j) t) (λ e. omega (arith, hl, e))
          ∙ at-set_self w (j + len) (sub a t) room;
      rest = λ i ne ne'.
          at-set_ne w' j i (add (at w' j) t) (λ e. ne (sym e))
          ∙ at-set_ne w (j + len) i (sub a t) (λ e. ne' (sym e));
    }

pub inverse_butterfly-IsPair :
    (len z j : ℕ) (w : List ℕ)
    → 0 < len
    → j + len < length w
    → IsPair add (λ a b. mul z (sub a b)) len j w (inverse_butterfly len z j w)
unfolding inverse_butterfly
inverse_butterfly-IsPair len z j w hl room =
    let a = at w j in
    let b = at w (j + len) in
    let w₁ = set w j (add a b) in
    let s₁ : length w₁ ≡ length w = length-set w j (add a b) in
    let b₁ : at w₁ (j + len) ≡ b = at-set_ne w j (j + len) (add a b) (λ e. omega (arith, hl, e)) in
    let d = sub a (at w₁ (j + len)) in
    let w₂ = set w₁ (j + len) d in
    let s₂ : length w₂ ≡ length w₁ = length-set w₁ (j + len) d in
    let d₂ : at w₂ (j + len) ≡ d = at-set_self w₁ (j + len) d (omega (arith, room, s₁)) in
    let last = mul z (at w₂ (j + len)) in
    record {
      size = length-set w₂ (j + len) last ∙ s₂ ∙ s₁;
      low =
          at-set_ne w₂ (j + len) j last (λ e. omega (arith, hl, e))
          ∙ at-set_ne w₁ (j + len) j d (λ e. omega (arith, hl, e))
          ∙ at-set_self w j (add a b) (omega (arith, room));
      high =
          at-set_self w₂ (j + len) last (omega (arith, room, s₁, s₂))
          ∙ ap (mul z) (d₂ ∙ ap (sub a) b₁);
      rest = λ i ne ne'.
          at-set_ne w₂ (j + len) i last (λ e. ne' (sym e))
          ∙ at-set_ne w₁ (j + len) i d (λ e. ne' (sym e))
          ∙ at-set_ne w j i (add a b) (λ e. ne (sym e));
    }
