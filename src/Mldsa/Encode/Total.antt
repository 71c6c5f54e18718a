-- ===== src/Mldsa/Encode/Total.antt =====
-- Unpacking any bytes, of the right number, ends in 256 values of the width asked for.
use macula_pq.Common.{
  ℕ, zero, suc, ◌+◌, ◌-◌, ◌*◌, ◌%◌, ◌^◌, ◌≤◌, ◌<◌, ◌≡◌, ◌∙◌, refl, ap, arith, bit_and, List, [],
  ◌∷◌, map, length, All, length-map,
}
use native.Mathlib.Nat.{pow-le-pow_right, mod-lt, one-le-pow}
use macula_pq.Common.Bits.{bit_and_mask}
use macula_pq.Common.Outcome.{ok}
use macula_pq.Common.Word.{IsBytes, u32, sub32, shr}
use macula_pq.Mldsa.Field.{q, n, from_signed}
use macula_pq.Mldsa.Field.Laws.{sub-mod, from_signed-mod}
use macula_pq.Mldsa.Encode.{Held, unpack_loop, unpack, bit_unpack}
use macula_pq.Mldsa.Encode.Pack.{IsHeld}
use macula_pq.Mldsa.Encode.Range.{IsWithin}
use macula_pq.Mldsa.Encode.Unpack.{fill_lem, high-lt}

abbrev Unpacked : ℕ → ℕ → List ℕ → Type 0
Unpacked count bits vs = (length vs ≡ count) × All (λ v. v < 2 ^ bits) vs

unpack_loop_total :
    (count bits : ℕ) (bytes : List ℕ) (s : Held)
    → bits ≤ 20
    → s.held < 8
    → IsHeld s
    → IsBytes bytes
    → bits * count ≤ s.held + 8 * length bytes
    → (vs : List ℕ) × (unpack_loop count bits bytes s ≡ ok vs) × Unpacked count bits vs
unfolding unpack_loop
unpack_loop_total zero bits bytes s hb hh h fit room = ([], refl, (refl, tt))
unpack_loop_total (suc count) bits bytes s hb hh h fit room =
    let more : bits * suc count ≡ bits + bits * count = grind arith in
    let enough : bits ≤ s.held + 8 * length bytes = omega (arith, more, room) in
    let (bytes', s', done, filled) =
      fill_lem bits bits bytes s hb (omega arith) enough (omega arith) h fit in
    let (vs, e, (len, below)) =
      unpack_loop_total count bits bytes' (record { acc = shr s'.acc bits; held = s'.held - bits })
        hb (omega (arith, filled.few, filled.enough)) (high-lt bits s' filled.enough filled.below)
        filled.bytes_fit (omega (arith, filled.count, filled.enough, room, more)) in
    let wide : 2 ^ bits ≤ 2 ^ 20 = pow-le-pow_right {n = 2} (omega arith) {i = bits} {j = 20} hb in
    let low : s'.acc % 2 ^ bits < 2 ^ bits = mod-lt s'.acc (one-le-pow bits 2 (omega arith)) in
    let word : u32 (bit_and s'.acc (2 ^ bits - 1)) < 2 ^ bits =
      rw (bit_and_mask bits s'.acc) (omega (arith, wide, low)) in
    (u32 (bit_and s'.acc (2 ^ bits - 1)) ∷ vs, rw (done, e) refl, (ap suc len, (word, below)))

pub unpack_total :
    (bits : ℕ) (v : List ℕ)
    → bits ≤ 20
    → IsBytes v
    → length v ≡ 32 * bits
    → (vs : List ℕ) × (unpack v bits ≡ ok vs) × (length vs ≡ n) × All (λ x. x < 2 ^ bits) vs
unfolding unpack
unpack_total bits v hb fit len =
    let (vs, e, (size, below)) =
      unpack_loop_total n bits v (record { acc = 0; held = 0 }) hb (omega arith) (omega arith) fit
        (omega (arith, len)) in
    (vs, e, size, below)

value-IsWithin :
    (b bits x : ℕ) → bits ≤ 20 → b < q → x < 2 ^ bits → IsWithin b bits (from_signed (sub32 b x))
value-IsWithin b bits x hb hq hx =
    let wide : 2 ^ bits ≤ 2 ^ 20 = pow-le-pow_right {n = 2} (omega arith) {i = bits} {j = 20} hb in
    let (plain, wrapped) = from_signed-mod (sub32 b x) in
    ground (arith, wide, plain, wrapped, sub-mod b (from_signed (sub32 b x)) hq)

values-IsWithin :
    (b bits : ℕ) (xs : List ℕ)
    → bits ≤ 20
    → b < q
    → All (λ x. x < 2 ^ bits) xs
    → All (IsWithin b bits) (map (λ x. from_signed (sub32 b x)) xs)
values-IsWithin b bits [] hb hq h = tt
values-IsWithin b bits (x ∷ xs) hb hq (hx, hxs) =
    (value-IsWithin b bits x hb hq hx, values-IsWithin b bits xs hb hq hxs)

-- 256 coefficients that stand for values from `b` down to `b - (2^bits - 1)`.
abbrev pub IsRanged : ℕ → ℕ → List ℕ → Type 0
IsRanged b bits w = (length w ≡ n) × All (IsWithin b bits) w

pub bit_unpack_total :
    (b bits : ℕ) (v : List ℕ)
    → bits ≤ 20
    → b < q
    → IsBytes v
    → length v ≡ 32 * bits
    → (w : List ℕ) × (bit_unpack v b bits ≡ ok w) × IsRanged b bits w
unfolding bit_unpack
bit_unpack_total b bits v hb hq fit len =
    let (vs, e, size, below) = unpack_total bits v hb fit len in
    (
      map (λ x. from_signed (sub32 b x)) vs,
      rw e refl,
      (length-map (λ x. from_signed (sub32 b x)) vs ∙ size, values-IsWithin b bits vs hb hq below),
    )
