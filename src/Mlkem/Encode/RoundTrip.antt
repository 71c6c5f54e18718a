-- ===== src/Mlkem/Encode/RoundTrip.antt =====
-- `byte_decode` after `byte_encode`: the bits written are the bits read.
use native.Mathlib.Nat.{pow-le-pow_right, one-le-pow, mod-lt, mod-eq_of_lt}
use macula_pq.Common.{
  Bool-cases, true, ℕ, zero, suc, ◌+◌, ◌*◌, ◌/◌, ◌%◌, ◌^◌, ◌≤◌, ◌<◌, ◌≡◌, inl, inr, refl, ap, ap₂,
  ◌∙◌, sym, arith, ◌==◌, if◌then◌else◌, for_range, List, [], ◌∷◌, foldl, length, get_or, replicate,
  All, All-replicate, length-replicate,
}
use macula_pq.Common.Bits.{bit_or_fields}
use macula_pq.Common.Digits.{digit, digit-lt, digit-zero, bit_and-digit, mod_pow_suc}
use macula_pq.Common.Outcome.{ok, ◌>>=◌}
use macula_pq.Mlkem.Encode.Buffer.{put_coeffs-IsBuffer, byte_decode_ok}
use macula_pq.Common.Word.{IsByte, u32, sub32, sign_mask32}
use macula_pq.Mlkem.Field.{q, n}
use macula_pq.Mlkem.Encode.{
  at, put_coeff, get_bit, get_coeffs, to_coeff, reduce_12_bit, byte_encode, byte_decode,
}
use macula_pq.Mlkem.Encode.Stored.{bit_of, IsOpen, Stored, put_coeffs_bits}

abbrev pair : ℕ → ℕ → ℕ × ℕ
pair a b = (a, b)

low_digits-lt : (i c : ℕ) → c % 2 ^ i < 2 ^ i
low_digits-lt i c = mod-lt c (one-le-pow i 2 (omega arith))

shifted_digit : (i b : ℕ) → i < 32 → b < 2 → u32 (b * 2 ^ i) ≡ b * 2 ^ i
shifted_digit i b hi hb =
    let top : 2 ^ i ≤ 2 ^ 31 =
      pow-le-pow_right {n = 2} (omega arith) {i = i} {j = 31} (omega arith) in
    grind arith

get_bit-digit :
    (bytes : List ℕ) (c start i : ℕ)
    → i < 32
    → bit_of bytes (start + i) ≡ digit i c
    → get_bit bytes i (start + i, c % 2 ^ i) ≡ (start + suc i, c % 2 ^ suc i)
unfolding get_bit
get_bit-digit bytes c start i hi h =
    let place : start + i + 1 ≡ start + suc i = omega arith in
    rw
      (
        bit_and-digit ((start + i) % 8) (at bytes ((start + i) / 8)),
        h,
        shifted_digit i (digit i c) hi (digit-lt i c),
        bit_or_fields i (c % 2 ^ i) (digit i c) (low_digits-lt i c),
        place,
        mod_pow_suc i c,
      )
      refl

-- Reading: after `i` digits the value is the low `i` digits of the coefficient.
read_bits :
    (bytes : List ℕ) (c start : ℕ) (left i : ℕ)
    → i + left ≤ 32
    → ((j : ℕ) → j < i + left → bit_of bytes (start + j) ≡ digit j c)
    → for_range left i (get_bit bytes) (start + i, c % 2 ^ i)
      ≡ (start + (i + left), c % 2 ^ (i + left))
unfolding for_range
read_bits bytes c start zero i room h = let e : i + 0 ≡ i = omega arith in rw e refl
read_bits bytes c start (suc left) i room h =
    let e : i + suc left ≡ suc i + left = omega arith in
    let next : i + 1 ≡ suc i = omega arith in
    rw (get_bit-digit bytes c start i (omega arith) (h i (omega arith)), e, next)
      (read_bits bytes c start left (suc i) (omega arith) (λ j k. h j (omega arith)))

-- A coefficient that `d` bits hold and that decoding leaves as it is.
abbrev pub Fits : ℕ → ℕ → Type 0
Fits d c = (c < 2 ^ 15) × (c < 2 ^ d) × (to_coeff d c ≡ c)

read_coeff :
    (bytes : List ℕ) (c bit d : ℕ)
    → d ≤ 32
    → c < 2 ^ d
    → ((j : ℕ) → j < d → bit_of bytes (bit + j) ≡ digit j c)
    → for_range d 0 (get_bit bytes) (bit, 0) ≡ (bit + d, c)
read_coeff bytes c bit d hd within here =
    let e : 0 + d ≡ d = omega arith in
    let whole : c % 2 ^ (0 + d) ≡ c = rw e (mod-eq_of_lt within) in
    ap (for_range d 0 (get_bit bytes)) (ap₂ (λ (a b : ℕ). pair a b) (omega arith) (omega arith))
    ∙ read_bits bytes c bit d 0 (omega arith) (λ j h. here j (omega arith))
    ∙ ap₂ (λ (a b : ℕ). pair a b) (omega arith) whole

get_coeffs-Stored :
    (d : ℕ) (bytes f : List ℕ) (bit : ℕ)
    → d ≤ 32
    → All (Fits d) f
    → Stored d bytes bit f
    → get_coeffs d bytes (length f) bit ≡ f
unfolding get_coeffs
get_coeffs-Stored d bytes [] bit hd fits stored = refl
get_coeffs-Stored d bytes (c ∷ f) bit hd ((small, within, same), fits) (here, rest) =
    rw (read_coeff bytes c bit d hd within here, same)
      (ap (λ t. c ∷ t) (get_coeffs-Stored d bytes f (bit + d) hd fits rest))

-- 12 bits hold up to 4095, and decoding brings such a value below q.
pub reduce_12_bit-mod : (v : ℕ) → v < 2 ^ 12 → reduce_12_bit v ≡ v % q
unfolding reduce_12_bit
reduce_12_bit-mod v h = ground (arith, sign_mask32 (sub32 v q) q)

-- The modulus of FIPS 203's ByteEncode: q at 12 bits, else a power of two.
abbrev pub modulus : ℕ → ℕ
modulus d = if d == 12 then q else 2 ^ d

Fits-modulus : (d c : ℕ) → d ≤ 12 → c < modulus d → Fits d c
unfolding to_coeff
Fits-modulus d c hd h = elim (Bool-cases (d == 12)) [
  | inl e ↦
      let twelve : d ≡ 12 = ground arith in
      rw twelve (
        omega (arith, below e),
        omega (arith, below e),
        reduce_12_bit-mod c (omega (arith, below e)) ∙ omega (arith, below e),
      )
  | inr e ↦
      let top : 2 ^ d ≤ 2 ^ 11 =
        pow-le-pow_right {n = 2} (omega arith) {i = d} {j = 11} (ground arith) in
      let within : c < 2 ^ d = rw e at h in rw e (omega arith, within, omega arith)
]
  where
    below : (d == 12) ≡ true → c < q
    below e = rw e at h

All-Fits : (d : ℕ) (f : List ℕ) → d ≤ 12 → All (λ c. c < modulus d) f → All (Fits d) f
All-Fits d [] hd h = tt
All-Fits d (c ∷ f) hd (hc, hf) = (Fits-modulus d c hd hc, All-Fits d f hd hf)

All-small : (d : ℕ) (f : List ℕ) → All (Fits d) f → All (λ c. c < 2 ^ 15) f
All-small d [] h = tt
All-small d (c ∷ f) (hc, hf) = (hc.0, All-small d f hf)

blank_buffer : (size : ℕ) → IsOpen size (0, replicate size 0)
blank_buffer size = record {
  size_kept = length-replicate size 0;
  bytes = All-replicate IsByte size 0 (omega arith);
  blank = λ k h. zero_bit (k % 8) (k / 8) size;
}
  where
    zero_bit : (s i m : ℕ) → digit s (get_or (replicate m 0) i 0) ≡ 0
    zero_bit s i zero = digit-zero s
    zero_bit s zero (suc m) = digit-zero s
    zero_bit s (suc i) (suc m) = zero_bit s i m

-- For `d` up to 12, ByteDecode after ByteEncode gives back the 256 coefficients, when they are
-- below 2^d, or below q where `d` is 12.
pub byte_decode-byte_encode :
    (d : ℕ) (f : List ℕ)
    → d ≤ 12
    → length f ≡ n
    → All (λ c. c < modulus d) f
    → (byte_encode d f (32 * d) >>= byte_decode d) ≡ ok f
byte_decode-byte_encode d f hd len reduced =
    let size = 32 * d in
    let fits = All-Fits d f hd reduced in
    let out = (foldl (put_coeff d) (0, replicate size 0) f).1 in
    let open_buffer = blank_buffer size in
    let room : 0 + d * length f ≤ 8 * size = rw len (omega arith) in
    let (stored, _) =
      put_coeffs_bits size d f (0, replicate size 0) (All-small d f fits) open_buffer room in
    let written : byte_encode d f size ≡ ok out = unfold byte_encode in ground arith in
    let kept =
      (put_coeffs-IsBuffer size d f (0, replicate size 0)
        (open_buffer.size_kept, open_buffer.bytes)).0 in
    let back : get_coeffs d out n 0 ≡ f =
      ap (λ k. get_coeffs d out k 0) (sym len)
      ∙ get_coeffs-Stored d out f 0 (omega arith) fits stored in
    rw written (byte_decode_ok d out kept ∙ ap ok back)
