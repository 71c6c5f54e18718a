-- ===== src/Mlkem/Encode/Stored.antt =====
-- What `byte_encode` writes: the buffer as a sequence of bits.
use Prim.Native.Nat.{max}
use native.Mathlib.Nat.{pow-le-pow_right}
use macula_pq.Common.{
  Bool-cases, ℕ, zero, suc, ◌+◌, ◌-◌, ◌*◌, ◌/◌, ◌%◌, ◌^◌, ◌≤◌, ◌<◌, ◌≡◌, ◌≢◌, inl, inr, refl, ap,
  subst, ◌∙◌, arith, bit_or, ◌==◌, if◌then◌else◌, for_range, List, [], ◌∷◌, foldl, length, get_or,
  set, All, get_or-set_self, get_or-set_ne,
}
use macula_pq.Common.Digits.{digit, digit-lt, bit_and-digit, digit-bit_or, digit-shift}
use macula_pq.Mlkem.Encode.Buffer.{put_bit-IsBuffer}
use macula_pq.Common.Word.{IsBytes, i16_to_i32, u8}
use macula_pq.Mlkem.Encode.{at, put_bit, put_coeff}

-- Bit `k` of a byte string, the lowest bit of each byte first.
abbrev pub bit_of : List ℕ → ℕ → ℕ
bit_of bytes k = digit (k % 8) (at bytes (k / 8))

small_pow : (r : ℕ) → r < 8 → 2 ^ r ≤ 128
small_pow r h = pow-le-pow_right {n = 2} (omega arith) {i = r} {j = 7} (omega arith)

-- `byte | (b << r)` at each of its digits.
or_bit :
    (x b r s : ℕ)
    → r < 8
    → b < 2
    → digit s (bit_or x (u8 (u8 b * 2 ^ r))) ≡ (if s == r then max (digit s x) b else digit s x)
or_bit x b r s hr hb =
    let width : b * 2 ^ r < 256 = grind (arith, small_pow r) in
    let narrow : u8 b ≡ b = omega arith in
    let plain : u8 (u8 b * 2 ^ r) ≡ b * 2 ^ r = rw narrow (omega arith) in
    rw (plain, digit-bit_or s x (b * 2 ^ r), digit-shift s r b hb) (ground arith)

-- A buffer under construction: `bit` is the place of the next one, and all from there on are 0.
pub record IsOpen (size : ℕ) (s : ℕ × List ℕ) : Type 0 where
  pub size_kept : length s.1 ≡ size
  pub bytes : IsBytes s.1
  pub blank : (k : ℕ) → s.0 ≤ k → bit_of s.1 k ≡ 0

put_bit_bits :
    (size v i : ℕ) (s : ℕ × List ℕ)
    → IsOpen size s
    → s.0 < 8 * size
    → (k : ℕ) → bit_of (put_bit v i s).1 k ≡ (if k == s.0 then digit i v else bit_of s.1 k)
unfolding put_bit
put_bit_bits size v i (bit, out) o room k =
    let x = at out (bit / 8) in
    let y = bit_or x (u8 (u8 (digit i v) * 2 ^ (bit % 8))) in
    rw (bit_and-digit i v) (elim (Bool-cases (k / 8 == bit / 8)) [
      | inl e ↦
          let same : k / 8 ≡ bit / 8 = ground arith in
          let hit : get_or (set out (bit / 8) y) (bit / 8) 0 ≡ y =
            get_or-set_self out (bit / 8) y 0 (omega (arith, o.size_kept)) in
          rw (same, hit, or_bit x (digit i v) (bit % 8) (k % 8) (omega arith) (digit-lt i v))
            (ground (arith, o.blank bit (omega arith)))
      | inr e ↦
          let away : bit / 8 ≢ k / 8 = ground arith in
          rw (get_or-set_ne out (bit / 8) (k / 8) y 0 away) (ground arith)
    ])

put_bit_next : (v i : ℕ) (s : ℕ × List ℕ) → (put_bit v i s).0 ≡ s.0 + 1
unfolding put_bit
put_bit_next v i s = refl

put_bit-IsOpen :
    (size v i : ℕ) (s : ℕ × List ℕ) → IsOpen size s → s.0 < 8 * size → IsOpen size (put_bit v i s)
put_bit-IsOpen size v i s o room = record {
  size_kept = (put_bit-IsBuffer size v i s (o.size_kept, o.bytes)).0;
  bytes = (put_bit-IsBuffer size v i s (o.size_kept, o.bytes)).1;
  blank = λ k h. ground (arith, put_bit_next v i s, put_bit_bits size v i s o room k, o.blank k);
}

-- `left` bits of `v`, from digit `i` on.
module _ (size v : ℕ) where
  put_bits :
      (left i : ℕ) (s : ℕ × List ℕ)
      → IsOpen size s
      → s.0 + left ≤ 8 * size
      → let s' = for_range left i (put_bit v) s in
        IsOpen size s'
        × (s'.0 ≡ s.0 + left)
        × ((j : ℕ) → j < left → bit_of s'.1 (s.0 + j) ≡ digit (i + j) v)
        × ((k : ℕ) → k < s.0 → bit_of s'.1 k ≡ bit_of s.1 k)
  unfolding for_range
  put_bits zero i s o room = (o, omega arith, λ j h. absurd (omega arith), λ k h. refl)
  put_bits (suc left) i s o room =
      let t = put_bit v i s in
      let next = put_bit_next v i s in
      let bits = put_bit_bits size v i s o (omega arith) in
      let (o', place, inside, before) =
        put_bits left (i + 1) t (put_bit-IsOpen size v i s o (omega arith)) (omega (arith, next)) in
      (
        o',
        omega (arith, place, next),
        λ j h. elim (Bool-cases (j == 0)) [
          | inl e ↦
              let here : s.0 + j ≡ s.0 = ground arith in
              let first : i + j ≡ i = ground arith in
              rw (here, first) (before s.0 (omega (arith, next)) ∙ bits s.0 ∙ ground arith)
          | inr e ↦
              let there : s.0 + j ≡ t.0 + (j - 1) = ground (arith, next) in
              let later : i + j ≡ i + 1 + (j - 1) = ground arith in
              rw (there, later) (inside (j - 1) (ground arith))
        ],
        λ k h. before k (omega (arith, next)) ∙ bits k ∙ ground arith,
      )

-- The coefficients `f` stand in the buffer, `d` bits each, from place `bit` on.
abbrev pub Stored : ℕ → List ℕ → ℕ → List ℕ → Type 0
Stored d out bit [] = Unit
Stored d out bit (c ∷ f) =
    ((j : ℕ) → j < d → bit_of out (bit + j) ≡ digit j c) × Stored d out (bit + d) f

put_coeff_bits :
    (size d c : ℕ) (s : ℕ × List ℕ)
    → c < 2 ^ 15
    → IsOpen size s
    → s.0 + d ≤ 8 * size
    → let s' = put_coeff d s c in
      IsOpen size s'
      × (s'.0 ≡ s.0 + d)
      × ((j : ℕ) → j < d → bit_of s'.1 (s.0 + j) ≡ digit (0 + j) c)
      × ((k : ℕ) → k < s.0 → bit_of s'.1 k ≡ bit_of s.1 k)
unfolding put_coeff
put_coeff_bits size d c s small o room =
    let positive : i16_to_i32 c ≡ c = ground arith in rw positive (put_bits size c d 0 s o room)

pub put_coeffs_bits :
    (size d : ℕ) (f : List ℕ) (s : ℕ × List ℕ)
    → All (λ c. c < 2 ^ 15) f
    → IsOpen size s
    → s.0 + d * length f ≤ 8 * size
    → Stored d (foldl (put_coeff d) s f).1 s.0 f
      × ((k : ℕ) → k < s.0 → bit_of (foldl (put_coeff d) s f).1 k ≡ bit_of s.1 k)
put_coeffs_bits size d [] s small o room = (tt, λ k h. refl)
put_coeffs_bits size d (c ∷ f) s (small, smalls) o room =
    let (o', place, inside, before) = put_coeff_bits size d c s small o (omega arith) in
    let (rest, keep) =
      put_coeffs_bits size d f (put_coeff d s c) smalls o' (omega (arith, place)) in
    (
      (
        λ j h.
            keep (s.0 + j) (omega (arith, place))
            ∙ inside j h
            ∙ ap (λ t. digit t c) (let e : 0 + j ≡ j = omega arith in e),
        subst (λ t. Stored d (foldl (put_coeff d) (put_coeff d s c) f).1 t f) place rest,
      ),
      λ k h. keep k (omega (arith, place)) ∙ before k h,
    )
