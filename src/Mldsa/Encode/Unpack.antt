-- ===== src/Mldsa/Encode/Unpack.antt =====
-- Unpacking after packing: the values come back.
use native.Mathlib.Nat.{
  pow-le-pow_right, mod-eq_of_lt, one-le-pow, add-mul-mod_self_left, add-mul-div_left,
  div-lt_iff_lt-mul,
}
use macula_pq.Common.{
  ℕ, zero, suc, ◌+◌, ◌-◌, ◌*◌, ◌/◌, ◌%◌, ◌^◌, ◌≤◌, ◌<◌, ◌≡◌, refl, ap, sym, ◌∙◌, arith, Bool-cases,
  inl, inr, bit_or, ltb, List, [], ◌∷◌, length, All,
}
use macula_pq.Common.Powers.{pow_add, pow_split, fields-lt, fields-mod, fields-div}
use macula_pq.Common.Bits.{bit_or_fields, bit_and_mask}
use macula_pq.Common.Outcome.{ok}
use macula_pq.Common.Word.{IsBytes, u32, shl64, shr}
use macula_pq.Keccak.Sponge.{from_le_bytes}
use macula_pq.Mldsa.Field.{n}
use macula_pq.Mldsa.Encode.{Held, pack, pack_loop, fill, unpack_loop, unpack}
use macula_pq.Mldsa.Encode.Pack.{side_by_side, with_above, IsHeld, shl64-small, pack_loop_lem}

-- Filling ends with at least `bits` bits and moves whole bytes of the number into the accumulator.
pub record IsFilled (bits : ℕ) (bytes : List ℕ) (s : Held) (bytes' : List ℕ) (s' : Held)
    : Type 0 where
  pub enough : bits ≤ s'.held
  pub few : s'.held < bits + 8
  pub below : IsHeld s'
  pub bytes_fit : IsBytes bytes'
  pub count : s'.held + 8 * length bytes' ≡ s.held + 8 * length bytes
  number : with_above s' (from_le_bytes bytes') ≡ with_above s (from_le_bytes bytes)

pub fill_lem :
    (fuel bits : ℕ) (bytes : List ℕ) (s : Held)
    → bits ≤ 20
    → bits ≤ s.held + fuel
    → bits ≤ s.held + 8 * length bytes
    → s.held < bits + 8
    → IsHeld s
    → IsBytes bytes
    → (bytes' : List ℕ) × (s' : Held) × (fill fuel bits bytes s ≡ ok (bytes', s'))
      × IsFilled bits bytes s bytes' s'
unfolding fill from_le_bytes
fill_lem zero bits bytes s hb hf room few h fit = (
  bytes,
  s,
  refl,
  record {
    enough = omega arith;
    few = few;
    below = h;
    bytes_fit = fit;
    count = refl;
    number = refl;
  },
)
fill_lem (suc fuel) bits [] s hb hf room few h fit = (
  [],
  s,
  ground arith,
  record {
    enough = omega arith;
    few = few;
    below = h;
    bytes_fit = tt;
    count = refl;
    number = refl;
  },
)
fill_lem (suc fuel) bits (b ∷ bytes) s hb hf room few h (hbyte, fit) =
    elim (Bool-cases (ltb s.held bits)) [
      | inl e ↦
          let short : s.held < bits = ground arith in
          let next : Held = record { acc = bit_or s.acc (shl64 b s.held); held = s.held + 8 } in
          let acc : next.acc ≡ s.acc + 2 ^ s.held * b =
            rw (shl64-small b s.held 8 20 hbyte (omega arith) (omega arith) (omega arith))
              (bit_or_fields s.held s.acc b h ∙ grind arith) in
          let below : next.acc < 2 ^ (s.held + 8) = rw acc (fields-lt s.held 8 s.acc b h hbyte) in
          let (bytes', s', done, filled) =
            fill_lem fuel bits bytes next hb (omega arith) (omega arith) (omega arith) below fit in
          (
            bytes',
            s',
            rw e done,
            record {
              enough = filled.enough;
              few = filled.few;
              below = filled.below;
              bytes_fit = filled.bytes_fit;
              count = omega (arith, filled.count);
              number = filled.number ∙ rw (acc, pow_add s.held 8) (grind arith);
            },
          )
      | inr e ↦ (
        b ∷ bytes,
        s,
        rw e refl,
        record {
          enough = ground arith;
          few = few;
          below = h;
          bytes_fit = (hbyte, fit);
          count = refl;
          number = refl;
        },
      )
    ]

-- The low `bits` bits of a filled accumulator are the next value, and the others go on.
module _ (bits v rest above : ℕ) (s : Held) (hb : bits ≤ s.held) (hv : v < 2 ^ bits)
    (number : with_above s above ≡ v + 2 ^ bits * rest) where
  cut : s.acc + 2 ^ bits * (2 ^ (s.held - bits) * above) ≡ v + 2 ^ bits * rest
  cut =
      let q : 2 ^ s.held * above ≡ 2 ^ bits * (2 ^ (s.held - bits) * above) =
        rw (pow_split bits s.held hb) (grind arith) in
      omega (arith, number, q)

  low_value : s.acc % 2 ^ bits ≡ v
  low_value =
      sym (add-mul-mod_self_left s.acc (2 ^ bits) (2 ^ (s.held - bits) * above))
      ∙ ap (λ x. x % 2 ^ bits) cut
      ∙ fields-mod bits v rest hv

  high_values : s.acc / 2 ^ bits + 2 ^ (s.held - bits) * above ≡ rest
  high_values =
      sym (add-mul-div_left s.acc (2 ^ (s.held - bits) * above) (one-le-pow bits 2 (omega arith)))
      ∙ ap (λ x. x / 2 ^ bits) cut
      ∙ fields-div bits v rest hv

pub high-lt :
    (bits : ℕ) (s : Held) → bits ≤ s.held → IsHeld s → s.acc / 2 ^ bits < 2 ^ (s.held - bits)
high-lt bits s hb h =
    (div-lt_iff_lt-mul (one-le-pow bits 2 (omega arith))).1
      (let p = pow_split bits s.held hb in grind arith)

unpack_loop_lem :
    (bits : ℕ) (vs bytes : List ℕ) (s : Held)
    → bits ≤ 20
    → s.held < 8
    → IsHeld s
    → IsBytes bytes
    → All (λ v. v < 2 ^ bits) vs
    → s.held + 8 * length bytes ≡ bits * length vs
    → with_above s (from_le_bytes bytes) ≡ side_by_side bits vs
    → unpack_loop (length vs) bits bytes s ≡ ok vs
unfolding unpack_loop side_by_side
unpack_loop_lem bits [] bytes s hb hh h fit p count number = refl
unpack_loop_lem bits (v ∷ vs) bytes s hb hh h fit (hv, hvs) count number =
    let more : bits * suc (length vs) ≡ bits + bits * length vs = grind arith in
    let enough : bits ≤ s.held + 8 * length bytes = omega (arith, more, count) in
    let (bytes', s', done, filled) =
      fill_lem bits bits bytes s hb (omega arith) enough (omega arith) h fit in
    let both = filled.number ∙ number in
    let low =
      low_value bits v (side_by_side bits vs) (from_le_bytes bytes') s' filled.enough hv both in
    let high =
      high_values bits v (side_by_side bits vs) (from_le_bytes bytes') s' filled.enough hv both in
    let wide : 2 ^ bits ≤ 2 ^ 20 = pow-le-pow_right {n = 2} (omega arith) {i = bits} {j = 20} hb in
    let word : u32 v ≡ v = mod-eq_of_lt (omega arith) in
    let ih =
      unpack_loop_lem bits vs bytes' (record { acc = shr s'.acc bits; held = s'.held - bits }) hb
        (omega (arith, filled.few, filled.enough)) (high-lt bits s' filled.enough filled.below)
        filled.bytes_fit hvs (omega (arith, filled.count, filled.enough, count, more)) high in
    rw (done, ih, bit_and_mask bits s'.acc, low, word) refl

-- Unpacking gives back 256 values of `bits` bits each, for every width up to 20 bits, and the
-- packed values take `32 * bits` bytes.
pub unpack-pack :
    (bits : ℕ) (vs : List ℕ)
    → bits ≤ 20
    → length vs ≡ n
    → All (λ v. v < 2 ^ bits) vs
    → (unpack (pack vs bits) bits ≡ ok vs) × (length (pack vs bits) ≡ 32 * bits)
unfolding unpack pack
unpack-pack bits vs hb len p =
    let start : Held = record { acc = 0; held = 0 } in
    let total : bits * length vs ≡ 256 * bits = rw len (omega arith) in
    let (number, count, fit) =
      pack_loop_lem bits vs start hb (omega arith) (omega arith) p (omega (arith, total)) in
    let loop =
      unpack_loop_lem bits vs (pack_loop bits vs start) start hb (omega arith) (omega arith) fit p
        (omega (arith, count)) (rw number (omega arith)) in
    (rw len at loop, omega (arith, count, total))
