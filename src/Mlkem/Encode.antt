-- ===== src/Mlkem/Encode.antt =====
-- macula-mlkem/src/encode.rs: packing coefficients into bytes, and compression.
pub mod Buffer
pub mod Stored
pub mod RoundTrip
pub mod Compression
use macula_pq.Common.{
  ℕ, zero, suc, ◌+◌, ◌-◌, ◌*◌, ◌/◌, ◌%◌, ◌^◌, bit_and, bit_or, ◌==◌, if◌then◌else◌, for_range, List,
  [], ◌∷◌, map, foldl, length, get_or, set, replicate,
}
use macula_pq.Common.Outcome.{Outcome, ok, assert, ◌>>=◌, ◌>>◌}
use macula_pq.Common.Word.{
  u8, u16, u32, u64, i16_to_i32, i32_to_i64, add32, sub32, shl32, shl64, shr, asr32,
}
use macula_pq.Mlkem.Field.{q, n}
use macula_pq.Mlkem.Params.{Error}

abbrev pub at : List ℕ → ℕ → ℕ
at f i = get_or f i 0

-- `out[bit / 8] |= b << (bit % 8)`, then the next bit. The buffer has room for every bit.
unfoldable pub put_bit : ℕ → ℕ → ℕ × List ℕ → ℕ × List ℕ
put_bit v i (bit, out) =
    let b = u8 (bit_and (shr v i) 1) in
    (bit + 1, set out (bit / 8) (bit_or (at out (bit / 8)) (u8 (b * 2 ^ (bit % 8)))))

unfoldable pub put_coeff : ℕ → ℕ × List ℕ → ℕ → ℕ × List ℕ
unfolding put_bit for_range
put_coeff d s coeff = for_range d 0 (put_bit (i16_to_i32 coeff)) s

-- The buffer's content on entry is overwritten, so only its length matters.
unfoldable pub byte_encode : ℕ → List ℕ → ℕ → Outcome Error (List ℕ)
unfolding put_coeff
byte_encode d f out_len = do
  assert (out_len == 32 * d)
  ok (foldl (put_coeff d) (0, replicate out_len 0) f).1

unfoldable pub get_bit : List ℕ → ℕ → ℕ × ℕ → ℕ × ℕ
get_bit bytes i (bit, v) =
    let b = bit_and (shr (at bytes (bit / 8)) (bit % 8)) 1 in (bit + 1, bit_or v (shl32 b i))

-- One conditional subtraction of q.
unfoldable pub reduce_12_bit : ℕ → ℕ
reduce_12_bit v = let r = sub32 v q in u16 (add32 r (bit_and (asr32 r 31) q))

unfoldable pub to_coeff : ℕ → ℕ → ℕ
unfolding reduce_12_bit
to_coeff d v = if d == 12 then reduce_12_bit v else u16 v

unfoldable pub get_coeffs : ℕ → List ℕ → ℕ → ℕ → List ℕ
unfolding get_bit to_coeff for_range
get_coeffs d bytes zero bit = []
get_coeffs d bytes (suc left) bit =
    let (bit', v) = for_range d 0 (get_bit bytes) (bit, 0) in
    to_coeff d v ∷ get_coeffs d bytes left bit'

unfoldable pub byte_decode : ℕ → List ℕ → Outcome Error (List ℕ)
unfolding get_coeffs
byte_decode d bytes = do assert (length bytes == 32 * d); ok (get_coeffs d bytes n 0)

-- `floor(x / q)` with `MAGIC` = ceil(2^48 / q), in 64 bits.
unfoldable pub div_q : ℕ → ℕ
div_q x = u64 (x * ((2 ^ 48 + q - 1) / q)) / 2 ^ 48

-- `x as u64` of an i16 extends the sign.
abbrev i16_to_u64 : ℕ → ℕ
i16_to_u64 x = i32_to_i64 (i16_to_i32 x)

unfoldable pub compress : ℕ → ℕ → ℕ
unfolding div_q
compress d x =
    let quotient = div_q (u64 (shl64 (i16_to_u64 x) d + q / 2)) in
    u16 (bit_and quotient (2 ^ d - 1))

unfoldable pub decompress : ℕ → ℕ → ℕ
decompress d y = u16 (u64 (u64 (i16_to_u64 y * q) + 2 ^ (d - 1)) / 2 ^ d)

unfoldable pub compress_poly : ℕ → List ℕ → List ℕ
unfolding compress
compress_poly d f = map (compress d) f

unfoldable pub decompress_poly : ℕ → List ℕ → List ℕ
unfolding decompress
decompress_poly d f = map (decompress d) f
