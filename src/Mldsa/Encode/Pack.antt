-- ===== src/Mldsa/Encode/Pack.antt =====
-- What `pack` writes, as one number: value `i` takes the bits from `bits * i` on.
use native.Mathlib.Nat.{pow-le-pow_right, mod-eq_of_lt}
use macula_pq.Common.{
  ℕ, zero, suc, ◌+◌, ◌-◌, ◌*◌, ◌%◌, ◌^◌, ◌≤◌, ◌<◌, ◌≡◌, refl, ap, ◌∙◌, arith, Bool-cases, inl, inr,
  leb, List, [], ◌∷◌, ◌++◌, length, length-append, All, All-append,
}
use macula_pq.Common.Powers.{pow_add, pow_split, fields-lt}
use macula_pq.Common.Bits.{bit_or_fields}
use macula_pq.Common.Word.{IsByte, IsBytes, u8, shl64, shr}
use macula_pq.Keccak.Sponge.{from_le_bytes}
use macula_pq.Mldsa.Encode.{Held, drain, take_value, pack_loop}

-- The values side by side, `bits` bits each, the first lowest.
unfoldable pub side_by_side : ℕ → List ℕ → ℕ
side_by_side bits [] = 0
side_by_side bits (v ∷ vs) = v + 2 ^ bits * side_by_side bits vs

-- The number that the accumulator starts and `above` goes on.
abbrev pub with_above : Held → ℕ → ℕ
with_above s above = s.acc + 2 ^ s.held * above

-- The bits of the accumulator are those it claims to hold.
abbrev pub IsHeld : Held → Type 0
IsHeld s = s.acc < 2 ^ s.held

pub shl64-small : (v k a b : ℕ) → v < 2 ^ a → a ≤ 20 → k ≤ b → b ≤ 27 → shl64 v k ≡ v * 2 ^ k
shl64-small v k a b hv ha hk hb =
    let wide : 2 ^ a ≤ 2 ^ 20 = pow-le-pow_right {n = 2} (omega arith) {i = a} {j = 20} ha in
    let far : 2 ^ k ≤ 2 ^ 27 =
      pow-le-pow_right {n = 2} (omega arith) {i = k} {j = 27} (omega arith) in
    let fits : v * 2 ^ k < 2 ^ 64 = product v (2 ^ k) (omega arith) far in mod-eq_of_lt fits
  where
    product : (x y : ℕ) → x < 2 ^ 20 → y ≤ 2 ^ 27 → x * y < 2 ^ 64
    product x y hx hy = grind arith

pub take_value_lem :
    (bits v : ℕ) (s : Held)
    → bits ≤ 20
    → s.held < 8
    → v < 2 ^ bits
    → IsHeld s
    → (take_value bits v s).acc ≡ s.acc + 2 ^ s.held * v
unfolding take_value
take_value_lem bits v s hb hh hv h =
    rw (shl64-small v s.held bits 27 hv hb (omega arith) (omega arith))
      (bit_or_fields s.held s.acc v h ∙ grind arith)

take_value_held : (bits v : ℕ) (s : Held) → (take_value bits v s).held ≡ s.held + bits
unfolding take_value
take_value_held bits v s = refl

-- A byte taken off the accumulator.
next_held : (s : Held) → 8 ≤ s.held → IsHeld s → shr s.acc 8 < 2 ^ (s.held - 8)
next_held s e h = omega (arith, pow_split 8 s.held e)

next_above :
    (s : Held) (above : ℕ)
    → 8 ≤ s.held
    → u8 s.acc + 256 * (shr s.acc 8 + 2 ^ (s.held - 8) * above) ≡ with_above s above
next_above s above e = rw (pow_split 8 s.held e) (grind arith)

pub record IsDrained (s : Held) (bytes : List ℕ) (s' : Held) : Type 0 where
  pub few : s'.held < 8
  pub below : IsHeld s'
  pub bytes_fit : IsBytes bytes
  pub count : 8 * length bytes + s'.held ≡ s.held
  pub number :
      (rest : List ℕ) (above : ℕ)
      → from_le_bytes rest ≡ with_above s' above
      → from_le_bytes (bytes ++ rest) ≡ with_above s above

drain_lem :
    (fuel : ℕ) (s : Held) → s.held ≤ fuel → IsHeld s → IsDrained s (drain fuel s).0 (drain fuel s).1
unfolding drain from_le_bytes
drain_lem zero s h k = record {
  few = omega arith;
  below = k;
  bytes_fit = tt;
  count = omega arith;
  number = λ rest above e. e;
}
drain_lem (suc fuel) s h k = elim (Bool-cases (leb 8 s.held)) [
  | inl e ↦
      let room : 8 ≤ s.held = ground arith in
      let next : Held = record { acc = shr s.acc 8; held = s.held - 8 } in
      let ih = drain_lem fuel next (omega arith) (next_held s room k) in
      rw e (record {
        few = ih.few;
        below = ih.below;
        bytes_fit = (omega arith, ih.bytes_fit);
        count = omega (arith, ih.count);
        number = λ rest above same.
            ap (λ t. u8 s.acc + 256 * t) (ih.number rest above same) ∙ next_above s above room;
      })
  | inr e ↦ rw e (record {
    few = ground arith;
    below = k;
    bytes_fit = tt;
    count = omega arith;
    number = λ rest above same. same;
  })
]

pub pack_loop_lem :
    (bits : ℕ) (vs : List ℕ) (s : Held)
    → bits ≤ 20
    → s.held < 8
    → IsHeld s
    → All (λ v. v < 2 ^ bits) vs
    → (s.held + bits * length vs) % 8 ≡ 0
    → (from_le_bytes (pack_loop bits vs s) ≡ with_above s (side_by_side bits vs))
      × (8 * length (pack_loop bits vs s) ≡ s.held + bits * length vs)
      × IsBytes (pack_loop bits vs s)
unfolding pack_loop side_by_side from_le_bytes
pack_loop_lem bits [] s hb hh h p e =
    let empty : s.held ≡ 0 = omega arith in
    let none : s.acc < 2 ^ 0 = rw empty at h in (omega arith, omega arith, tt)
pack_loop_lem bits (v ∷ vs) s hb hh h (hv, hvs) e =
    let taken = take_value bits v s in
    let acc : taken.acc ≡ s.acc + 2 ^ s.held * v = take_value_lem bits v s hb hh hv h in
    let below : taken.acc < 2 ^ (s.held + bits) = rw acc (fields-lt s.held bits s.acc v h hv) in
    let drained = drain_lem (s.held + bits) taken (omega arith) below in
    let step : s.held + bits * suc (length vs) ≡ (s.held + bits) + bits * length vs = grind arith in
    let whole : ((s.held + bits) + bits * length vs) % 8 ≡ 0 = rw step at e in
    let (bytes, s') = drain (s.held + bits) taken in
    let (number, count, fit) =
      pack_loop_lem bits vs s' hb drained.few drained.below hvs (omega (arith, drained.count)) in
    (
      drained.number (pack_loop bits vs s') (side_by_side bits vs) number ∙ above_value acc,
      omega (arith, count, drained.count, length-append bytes (pack_loop bits vs s')),
      All-append IsByte bytes (pack_loop bits vs s') drained.bytes_fit fit,
    )
  where
    above_value :
        (take_value bits v s).acc ≡ s.acc + 2 ^ s.held * v
        → with_above (take_value bits v s) (side_by_side bits vs)
          ≡ with_above s (v + 2 ^ bits * side_by_side bits vs)
    above_value same = rw (same, take_value_held bits v s, pow_add s.held bits) (grind arith)
