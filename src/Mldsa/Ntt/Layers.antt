-- ===== src/Mldsa/Ntt/Layers.antt =====
-- macula-mldsa/src/poly.rs: a layer as a walk over its blocks, each with a root of its own.
use macula_pq.Common.{
  ℕ, zero, suc, ◌+◌, ◌-◌, ◌*◌, ◌≤◌, ◌<◌, ◌≡◌, ◌∙◌, refl, ap, ap₂, arith, ltb, true, false, List,
  length, for_range,
}
use macula_pq.Common.Word.{sub32}
use macula_pq.Mldsa.Field.{q, n}
use macula_pq.Mldsa.Ntt.{at, butterfly, inverse_butterfly, ntt_blocks, inverse_blocks, zetas}
use macula_pq.Mldsa.Ntt.Blocks.{IsPair, for_range-IsRun}

-- Where `count` blocks from `start` on end.
abbrev pub end_of : ℕ → ℕ → ℕ → ℕ
end_of len zero start = start
end_of len (suc count) start = end_of len count (start + 2 * len)

pub le-end_of : (len count start : ℕ) → start ≤ end_of len count start
le-end_of len zero start = omega arith
le-end_of len (suc count) start = omega (arith, le-end_of len count (start + 2 * len))

-- `count` blocks from `start` on, the first of them with the number `b`.
unfoldable pub walk : ℕ → (ℕ → ℕ → List ℕ → List ℕ) → ℕ → ℕ → ℕ → List ℕ → List ℕ
walk len step zero start b w = w
walk len step (suc count) start b w =
    walk len step count (start + 2 * len) (b + 1) (for_range len start (step b) w)

-- Each block's coefficients after a walk, from those before it.
abbrev pub Blocks : (f g : ℕ → ℕ → ℕ → ℕ) → ℕ → ℕ → ℕ → ℕ → List ℕ → List ℕ → Type 0
Blocks f g len zero start b w v = Unit
Blocks f g len (suc count) start b w v =
    ((i : ℕ) → start ≤ i → i < start + len → at v i ≡ f b (at w i) (at w (i + len)))
    × ((i : ℕ) → start ≤ i → i < start + len → at v (i + len) ≡ g b (at w i) (at w (i + len)))
    × Blocks f g len count (start + 2 * len) (b + 1) w v

Blocks-of_same :
    (f g : ℕ → ℕ → ℕ → ℕ) (len count start b : ℕ) (w w' v : List ℕ)
    → ((i : ℕ) → start ≤ i → at w' i ≡ at w i)
    → Blocks f g len count start b w' v
    → Blocks f g len count start b w v
Blocks-of_same f g len zero start b w w' v same h = tt
Blocks-of_same f g len (suc count) start b w w' v same (low, high, later) = (
  (λ i a c. low i a c ∙ ap₂ (f b) (same i a) (same (i + len) (omega (arith, a)))),
  (λ i a c. high i a c ∙ ap₂ (g b) (same i a) (same (i + len) (omega (arith, a)))),
  Blocks-of_same f g len count (start + 2 * len) (b + 1) w w' v (λ i a. same i (omega (arith, a)))
      later,
)

record IsWalked (f g : ℕ → ℕ → ℕ → ℕ) (len count start b : ℕ) (w v : List ℕ) : Type 0 where
  size : length v ≡ length w
  before : (i : ℕ) → i < start → at v i ≡ at w i
  blocks : Blocks f g len count start b w v

module _ (len : ℕ) (f g : ℕ → ℕ → ℕ → ℕ) (step : ℕ → ℕ → List ℕ → List ℕ)
    (pair : (b j : ℕ) (w : List ℕ)
      → j + len < length w
      → IsPair (f b) (g b) len j w (step b j w)) where
  walk-IsWalked :
      (count start b : ℕ) (w : List ℕ)
      → end_of len count start ≤ length w
      → IsWalked f g len count start b w (walk len step count start b w)
  unfolding walk
  walk-IsWalked zero start b w room = record { size = refl; before = λ i a. refl; blocks = tt }
  walk-IsWalked (suc count) start b w room =
      let next = start + 2 * len in
      let run =
        for_range-IsRun len (f b) (g b) (step b) (pair b) len start w (omega arith)
          (omega (arith, room, le-end_of len count next)) in
      let w' = for_range len start (step b) w in
      let ih = walk-IsWalked count next (b + 1) w' (omega (arith, room, run.size)) in
      record {
        size = ih.size ∙ run.size;
        before = λ i a. ih.before i (omega (arith, a)) ∙ run.before i a;
        blocks = (
          (λ i a c. ih.before i (omega (arith, c)) ∙ run.low i a c),
          (λ i a c. ih.before (i + len) (omega (arith, c)) ∙ run.high i a c),
          Blocks-of_same f g len count next (b + 1) w w' (walk len step count next (b + 1) w')
              (λ i a. run.after i (omega (arith, a))) ih.blocks,
        );
      }

  pub walk-Blocks :
      (count start b : ℕ) (w : List ℕ)
      → end_of len count start ≤ length w
      → Blocks f g len count start b w (walk len step count start b w)
  walk-Blocks count start b w room = (walk-IsWalked count start b w room).blocks

-- The roots that a layer's blocks use, after and before a counter.
abbrev pub forward_step : ℕ → ℕ → ℕ → ℕ → List ℕ → List ℕ
forward_step len m b = butterfly len (at zetas (m + b + 1))

abbrev pub inverse_step : ℕ → ℕ → ℕ → ℕ → List ℕ → List ℕ
inverse_step len m b = inverse_butterfly len (sub32 q (at zetas (m - b - 1)))

pub ntt_blocks-walk :
    (len count fuel start m b : ℕ) (w : List ℕ)
    → 0 < len
    → count < fuel
    → end_of len count start ≡ n
    → ntt_blocks fuel len start (m + b, w)
      ≡ (m + b + count, walk len (forward_step len m) count start b w)
unfolding ntt_blocks walk
ntt_blocks-walk len count zero start m b w hl hf e = absurd (omega (arith, hf))
ntt_blocks-walk len zero (suc fuel) start m b w hl hf e =
    let last : ltb start n ≡ false = ground (arith, e) in
    let count : m + b ≡ m + b + 0 = omega arith in rw last (ap (λ c. (c, w)) count)
ntt_blocks-walk len (suc count) (suc fuel) start m b w hl hf e =
    let more : ltb start n ≡ true = ground (arith, e, le-end_of len count (start + 2 * len), hl) in
    let w' = for_range len start (forward_step len m b) w in
    let next : m + b + 1 ≡ m + (b + 1) = omega arith in
    let total : m + (b + 1) + count ≡ m + b + suc count = omega arith in
    rw more (
      ap (λ c. ntt_blocks fuel len (start + 2 * len) (c, w')) next
      ∙ ntt_blocks-walk len count fuel (start + 2 * len) m (b + 1) w' hl (omega (arith, hf)) e
      ∙ ap (λ c. (c, walk len (forward_step len m) count (start + 2 * len) (b + 1) w')) total)

pub inverse_blocks-walk :
    (len count fuel start m b : ℕ) (w : List ℕ)
    → 0 < len
    → count < fuel
    → end_of len count start ≡ n
    → inverse_blocks fuel len start (m - b, w)
      ≡ (m - b - count, walk len (inverse_step len m) count start b w)
unfolding inverse_blocks walk
inverse_blocks-walk len count zero start m b w hl hf e = absurd (omega (arith, hf))
inverse_blocks-walk len zero (suc fuel) start m b w hl hf e =
    let last : ltb start n ≡ false = ground (arith, e) in
    let count : m - b ≡ m - b - 0 = omega arith in rw last (ap (λ c. (c, w)) count)
inverse_blocks-walk len (suc count) (suc fuel) start m b w hl hf e =
    let more : ltb start n ≡ true = ground (arith, e, le-end_of len count (start + 2 * len), hl) in
    let w' = for_range len start (inverse_step len m b) w in
    let next : m - b - 1 ≡ m - (b + 1) = omega arith in
    let total : m - (b + 1) - count ≡ m - b - suc count = omega arith in
    rw more (
      ap (λ c. inverse_blocks fuel len (start + 2 * len) (c, w')) next
      ∙ inverse_blocks-walk len count fuel (start + 2 * len) m (b + 1) w' hl (omega (arith, hf)) e
      ∙ ap (λ c. (c, walk len (inverse_step len m) count (start + 2 * len) (b + 1) w')) total)
