-- ===== src/Mldsa/Ntt/Linear.antt =====
-- macula-mldsa/src/poly.rs: the transform of a combination of polynomials.
use macula_pq.Common.{ℕ, ◌+◌, ◌*◌, ◌%◌, ◌<◌, ◌≡◌, ◌∙◌, sym, ap, ap₂, arith, List}
use macula_pq.Mldsa.Field.{q, n}
use macula_pq.Mldsa.Field.Congruence.{mul_congr}
use macula_pq.Mldsa.Ntt.{at, ntt}
use macula_pq.Mldsa.Ntt.Range.{IsPoly}
use macula_pq.Mldsa.Ntt.Evaluation.{
  evaluate, evaluate_block, evaluate_block-length, evaluate_block_combine,
}
use macula_pq.Mldsa.Ntt.Points.{point}
use macula_pq.Mldsa.Ntt.Values.{ntt-evaluate}

-- `v` is `w + k u` modulo q, coefficient by coefficient.
abbrev pub Combines : ℕ → List ℕ → List ℕ → List ℕ → Type 0
Combines k v w u = (i : ℕ) → i < n → at v i % q ≡ (at w i + k * at u i) % q

whole : (w : List ℕ) (r : ℕ) → IsPoly w → evaluate_block w 0 n r ≡ evaluate w r
whole w r h = ap (λ l. evaluate_block w 0 l r) (sym h.0) ∙ evaluate_block-length w r

evaluate-combine :
    (k : ℕ) (v w u : List ℕ) (r : ℕ)
    → IsPoly v
    → IsPoly w
    → IsPoly u
    → Combines k v w u
    → evaluate v r % q ≡ (evaluate w r + k * evaluate u r) % q
evaluate-combine k v w u r hv hw hu e =
    let plain = λ (t : ℕ). let z : 0 + t ≡ t = omega arith in z in
    let combined = evaluate_block_combine v w u k r n 0 0 0 (λ t l.
      ap (λ i. at v i % q) (plain t)
      ∙ e t l
      ∙ ap (λ i. (at w i + k * at u i) % q) (sym (plain t))) in
    ap (λ x. x % q) (sym (whole v r hv))
    ∙ combined
    ∙ ap₂ (λ x y. (x + k * y) % q) (whole w r hw) (whole u r hu)

pub ntt-combine :
    (k : ℕ) (v w u : List ℕ)
    → IsPoly v
    → IsPoly w
    → IsPoly u
    → Combines k v w u
    → Combines k (ntt v) (ntt w) (ntt u)
ntt-combine k v w u hv hw hu e i hi =
    let r = point i in
    let there = evaluate-combine k v w u r hv hw hu e in
    let ev = ntt-evaluate v i hv hi in
    let ew = ntt-evaluate w i hw hi in
    let eu = ntt-evaluate u i hu hi in
    let turned = mul_congr k (at (ntt u) i) (evaluate u r) (omega (arith, eu)) in
    omega (arith, there, ev, ew, turned)
