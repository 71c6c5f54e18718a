-- ===== src/Mldsa/Rounding/Hints.antt =====
-- The hint bit tells whether the high bits move, and lets them be recovered.
use macula_pq.Common.{
  ℕ, ◌+◌, ◌-◌, ◌/◌, ◌%◌, ◌^◌, ◌≤◌, ◌<◌, ◌≡◌, inl, inr, refl, arith, bit_and, bit_xor, bit_or, ◌==◌,
  if◌then◌else◌, ap, Bool-cases, min,
}
use macula_pq.Common.Word.{sub32, add32, mul32, asr32}
use macula_pq.Common.Bits.{
  bit_and_mask, bit_xor_self, bit_xor-eq-zero, bit_xor-lt, bit_or-lt, bit_or-ge_right,
}
use macula_pq.Mldsa.Field.{q, add, centered_abs}
use macula_pq.Mldsa.Field.Laws.{add-mod, centered_abs-min}
use macula_pq.Mldsa.Rounding.{decompose, high_bits, make_hint, use_hint, is_positive}
use macula_pq.Mldsa.Rounding.Decompose.{IsGamma2, decompose-plain, decompose_plain}

-- `((d | -d) >> 31) & 1` is 1 exactly for a nonzero `d`.
nonzero_bit :
    (d : ℕ) → d < 2 ^ 31 → bit_and (asr32 (bit_or d (sub32 0 d)) 31) 1 ≡ (if d == 0 then 0 else 1)
nonzero_bit d h = elim (Bool-cases (d == 0)) [
  | inl e ↦ let z : d ≡ 0 = ground arith in rw z
  | inr e ↦
      let big : 2 ^ 31 ≤ bit_or d (sub32 0 d) = omega (
        arith,
        bit_or-ge_right d (sub32 0 d),
        (let p : sub32 0 d ≡ 2 ^ 32 - d = ground arith in p),
      ) in
      let fits : bit_or d (sub32 0 d) < 2 ^ 32 =
        bit_or-lt 32 d (sub32 0 d) (omega arith) (omega arith) in
      ground (arith, bit_and_mask 1 (asr32 (bit_or d (sub32 0 d)) 31))
]

pub high_bits-plain :
    (r gamma2 : ℕ) → r < q → IsGamma2 gamma2 → high_bits r gamma2 ≡ (decompose_plain r gamma2).0
unfolding high_bits
high_bits-plain r gamma2 h g = ap (λ (p : ℕ × ℕ). p.0) (decompose-plain r gamma2 h g)

plain-lt : (r gamma2 : ℕ) → r < q → IsGamma2 gamma2 → (decompose_plain r gamma2).0 < 2 ^ 6
unfolding decompose_plain
plain-lt r gamma2 h (inl e) = rw e (ground arith)
plain-lt r gamma2 h (inr e) = rw e (ground arith)

pub high_bits-lt : (r gamma2 : ℕ) → r < q → IsGamma2 gamma2 → high_bits r gamma2 < 2 ^ 6
high_bits-lt r gamma2 h g = rw (high_bits-plain r gamma2 h g) (plain-lt r gamma2 h g)

-- For `z` and `r` below q and gamma2 of one of the parameter sets, the hint is 0 when `r` and `r
-- + z` have the same high bits and 1 when they differ.
pub make_hint_iff :
    (z r gamma2 : ℕ)
    → z < q
    → r < q
    → IsGamma2 gamma2
    → make_hint z r gamma2 ≡ (if high_bits r gamma2 == high_bits (add r z) gamma2 then 0 else 1)
unfolding make_hint
make_hint_iff z r gamma2 hz hr g =
    let a = high_bits r gamma2 in
    let b = high_bits (add r z) gamma2 in
    let ha = high_bits-lt r gamma2 hr g in
    let hb = high_bits-lt (add r z) gamma2 (omega (arith, add-mod r z hr hz)) g in
    rw (nonzero_bit (bit_xor a b) (omega (arith, bit_xor-lt 6 a b ha hb)))
      (ground (arith, bit_xor_self a, bit_xor-eq-zero 6 a b ha hb))

-- `use_hint` on the parts of a decomposition.
abbrev from_parts : ℕ → ℕ × ℕ → ℕ → ℕ
from_parts h p gamma2 =
    let m = (q - 1) / mul32 2 gamma2 in
    if h == 1 then (if is_positive p.1 then add32 p.0 1 % m else sub32 (add32 p.0 m) 1 % m) else p.0

use_hint-parts : (h r gamma2 : ℕ) → use_hint h r gamma2 ≡ from_parts h (decompose r gamma2) gamma2
unfolding use_hint
use_hint-parts h r gamma2 = refl

-- A step of at most gamma2 moves the high part by one place at most, in the direction of the low
-- part's sign.
module _ (r z : ℕ) (hr : r < q) (hz : z < q) where
  abbrev moved : ℕ
  moved = (r + z) % q

  step_44 :
      min z (q - z) ≤ 95232
      → from_parts
          (if (decompose_plain r 95232).0 == (decompose_plain moved 95232).0 then 0 else 1)
          (decompose_plain r 95232)
          95232
        ≡ (decompose_plain moved 95232).0
  unfolding decompose_plain
  step_44 small = ground arith

  step_32 :
      min z (q - z) ≤ 261888
      → from_parts
          (if (decompose_plain r 261888).0 == (decompose_plain moved 261888).0 then 0 else 1)
          (decompose_plain r 261888)
          261888
        ≡ (decompose_plain moved 261888).0
  unfolding decompose_plain
  step_32 small = ground arith

step_at :
    (r z gamma2 : ℕ)
    → r < q
    → z < q
    → IsGamma2 gamma2
    → min z (q - z) ≤ gamma2
    → from_parts
        (if (decompose_plain r gamma2).0 == (decompose_plain ((r + z) % q) gamma2).0 then 0 else 1)
        (decompose_plain r gamma2)
        gamma2
      ≡ (decompose_plain ((r + z) % q) gamma2).0
step_at r z gamma2 hr hz (inl e) small = rw e (step_44 r z hr hz (omega arith))
step_at r z gamma2 hr hz (inr e) small = rw e (step_32 r z hr hz (omega arith))

-- For `z` and `r` below q with `z` at most gamma2 in absolute value modulo q, and gamma2 of one
-- of the parameter sets, `use_hint` on `r` and the hint that `make_hint` makes for `z` recovers
-- the high bits of `r + z`.
pub use_hint-make_hint :
    (z r gamma2 : ℕ)
    → z < q
    → r < q
    → IsGamma2 gamma2
    → centered_abs z ≤ gamma2
    → use_hint (make_hint z r gamma2) r gamma2 ≡ high_bits (add r z) gamma2
use_hint-make_hint z r gamma2 hz hr g small =
    let moved_lt : (r + z) % q < q = omega arith in
    rw
      (
        use_hint-parts (make_hint z r gamma2) r gamma2,
        make_hint_iff z r gamma2 hz hr g,
        decompose-plain r gamma2 hr g,
        high_bits-plain r gamma2 hr g,
        add-mod r z hr hz,
        high_bits-plain ((r + z) % q) gamma2 moved_lt g,
      )
      (step_at r z gamma2 hr hz g (omega (arith, centered_abs-min z hz)))
