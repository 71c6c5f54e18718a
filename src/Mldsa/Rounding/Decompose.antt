-- ===== src/Mldsa/Rounding/Decompose.antt =====
-- The branch-free `power2round` and `decompose` against the standard's definitions with `/` and `%`.
use macula_pq.Common.{
  ℕ, ◌+◌, ◌-◌, ◌*◌, ◌/◌, ◌%◌, ◌^◌, ◌≤◌, ◌<◌, ◌≡◌, ◌⊎◌, inl, inr, arith, bit_and, leb, ◌==◌,
  if◌then◌else◌, ◌∙◌,
}
use macula_pq.Common.Word.{sub32, add32, mul32, not32, asr32, sign_mask32}
use macula_pq.Common.Bits.{bit_and_mask, zero-bit_and, bit_and-zero}
use macula_pq.Mldsa.Field.{q}
use macula_pq.Mldsa.Rounding.{power2round, div_floor, decompose}

-- For `r` below q, `power2round` returns `r1` of ten bits and `r0` in the interval (-2^12, 2^12],
-- as a 32-bit word, with `r1 * 2^13 + r0 = r`.
pub power2round_split :
    (r : ℕ)
    → r < q
    → let (r1, r0) = power2round r in
      (add32 (mul32 r1 (2 ^ 13)) r0 ≡ r)
      × (r1 < 2 ^ 10)
      × ((r0 ≤ 2 ^ 12) ⊎ ((2 ^ 32 - 2 ^ 12 < r0) × (r0 < 2 ^ 32)))
unfolding power2round
power2round_split r h =
    let low = r % 2 ^ 13 in
    let m = sign_mask32 (sub32 (2 ^ 12) low) (2 ^ 13) (omega arith) (omega arith) in
    rw (bit_and_mask 13 r, m) (ground arith, ground arith, ground arith)

-- The two values of gamma2 among the parameter sets.
abbrev pub IsGamma2 : ℕ → Type 0
IsGamma2 g = (g ≡ 95232) ⊎ (g ≡ 261888)

-- Decompose as FIPS 204 writes it: `r0 = r mod± alpha`, and 0 for the high part when `r - r0` is
-- `q - 1`. `base` is `r - r0`.
unfoldable pub decompose_reference : ℕ → ℕ → ℕ × ℕ
decompose_reference r gamma2 =
    let alpha = 2 * gamma2 in
    let base = (if leb (r % alpha) gamma2 then r - r % alpha else r - r % alpha + alpha) in
    if base == q - 1 then (0, sub32 (sub32 r base) 1) else (base / alpha, sub32 r base)

-- `!((a - b) >> 31)` for `a` up to `b`: all ones exactly when they are equal.
edge_word :
    (a b : ℕ)
    → a ≤ b
    → b < 2 ^ 31
    → not32 (asr32 (sub32 a b) 31) ≡ (if a == b then 2 ^ 32 - 1 else 0)
edge_word a b h k = ground arith

-- What the mask then selects.
edge_select :
    (a b w : ℕ)
    → a < 2 ^ 31
    → w < 2 ^ 32
    → w ≡ (if a == b then 2 ^ 32 - 1 else 0)
    → (bit_and a (not32 w) ≡ (if a == b then 0 else a)) × (bit_and w 1 ≡ (if a == b then 1 else 0))
edge_select a b w h k e =
    rw e (ground (arith, bit_and-zero a, bit_and_mask 32 a), ground (arith, zero-bit_and 1))

-- The division by multiplication is exact at both values of gamma2, and `edge` picks the special
-- case: the code without its masks.
unfoldable pub decompose_plain : ℕ → ℕ → ℕ × ℕ
decompose_plain r gamma2 =
    let r1 = (r + gamma2 - 1) / (2 * gamma2) in
    if r1 == (q - 1) / (2 * gamma2)
    then (0, sub32 (sub32 r (r1 * (2 * gamma2))) 1)
    else (r1, sub32 r (r1 * (2 * gamma2)))

module _ (r : ℕ) (h : r < q) where
  div_floor_44 : div_floor (sub32 (add32 r 95232) 1) (mul32 2 95232) ≡ (r + 95231) / 190464
  unfolding div_floor
  div_floor_44 = ground arith

  div_floor_32 : div_floor (sub32 (add32 r 261888) 1) (mul32 2 261888) ≡ (r + 261887) / 523776
  unfolding div_floor
  div_floor_32 = ground arith

  decompose-plain_44 : decompose r 95232 ≡ decompose_plain r 95232
  unfolding decompose decompose_plain
  decompose-plain_44 =
      let r1 = (r + 95231) / 190464 in
      let w = edge_word r1 44 (omega arith) (omega arith) in
      let (high, low) = edge_select r1 44 _ (omega arith) (ground arith) w in
      rw (div_floor_44, high, low) (ground arith)

  decompose-plain_32 : decompose r 261888 ≡ decompose_plain r 261888
  unfolding decompose decompose_plain
  decompose-plain_32 =
      let r1 = (r + 261887) / 523776 in
      let w = edge_word r1 16 (omega arith) (omega arith) in
      let (high, low) = edge_select r1 16 _ (omega arith) (ground arith) w in
      rw (div_floor_32, high, low) (ground arith)

  plain-reference_44 : decompose_plain r 95232 ≡ decompose_reference r 95232
  unfolding decompose_plain decompose_reference
  plain-reference_44 = ground arith

  plain-reference_32 : decompose_plain r 261888 ≡ decompose_reference r 261888
  unfolding decompose_plain decompose_reference
  plain-reference_32 = ground arith

pub decompose-plain :
    (r gamma2 : ℕ) → r < q → IsGamma2 gamma2 → decompose r gamma2 ≡ decompose_plain r gamma2
decompose-plain r gamma2 h (inl e) = rw e (decompose-plain_44 r h)
decompose-plain r gamma2 h (inr e) = rw e (decompose-plain_32 r h)

-- For `r` below q and gamma2 of one of the parameter sets, the branch-free `decompose` is the
-- Decompose of FIPS 204, written with the remainder, a comparison and a division, the special
-- case for `r - r0 = q - 1` included.
pub decompose-reference :
    (r gamma2 : ℕ) → r < q → IsGamma2 gamma2 → decompose r gamma2 ≡ decompose_reference r gamma2
decompose-reference r gamma2 h (inl e) = rw e (decompose-plain_44 r h ∙ plain-reference_44 r h)
decompose-reference r gamma2 h (inr e) = rw e (decompose-plain_32 r h ∙ plain-reference_32 r h)
