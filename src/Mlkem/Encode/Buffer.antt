-- ===== src/Mlkem/Encode/Buffer.antt =====
-- The output buffer of `byte_encode` keeps its length and holds bytes.
use macula_pq.Common.{
  ℕ, ◌*◌, ◌/◌, ◌≡◌, ◌∙◌, arith, for_range_inv, List, [], ◌∷◌, foldl, length, get_or, length-set,
  All-set, All-get_or,
}
use macula_pq.Common.Bits.{bit_or-lt}
use macula_pq.Common.Word.{IsByte, IsBytes, i16_to_i32}
use macula_pq.Mlkem.Encode.{put_bit, put_coeff, byte_decode, get_coeffs}
use macula_pq.Common.Outcome.{ok}
use macula_pq.Mlkem.Field.{n}

-- A buffer under construction: bytes, of a fixed number.
abbrev pub IsBuffer : ℕ → ℕ × List ℕ → Type 0
IsBuffer size s = (length s.1 ≡ size) × IsBytes s.1

pub put_bit-IsBuffer :
    (size v i : ℕ) (s : ℕ × List ℕ) → IsBuffer size s → IsBuffer size (put_bit v i s)
unfolding put_bit
put_bit-IsBuffer size v i (bit, out) (len, bytes) =
    let byte : IsByte (get_or out (bit / 8) 0) =
      All-get_or IsByte out (bit / 8) 0 (omega arith) bytes in
    (
      length-set out (bit / 8) _ ∙ len,
      All-set IsByte out (bit / 8) _ (bit_or-lt 8 _ _ byte (omega arith)) bytes,
    )

put_coeff-IsBuffer :
    (size d c : ℕ) (s : ℕ × List ℕ) → IsBuffer size s → IsBuffer size (put_coeff d s c)
unfolding put_coeff
put_coeff-IsBuffer size d c s h =
    for_range_inv (IsBuffer size) d 0 (put_bit (i16_to_i32 c))
      (λ j t p r k. put_bit-IsBuffer size (i16_to_i32 c) j t k) s h

pub put_coeffs-IsBuffer :
    (size d : ℕ) (f : List ℕ) (s : ℕ × List ℕ)
    → IsBuffer size s
    → IsBuffer size (foldl (put_coeff d) s f)
put_coeffs-IsBuffer size d [] s h = h
put_coeffs-IsBuffer size d (c ∷ f) s h =
    put_coeffs-IsBuffer size d f (put_coeff d s c) (put_coeff-IsBuffer size d c s h)

pub byte_decode_ok :
    (d : ℕ) (bytes : List ℕ)
    → length bytes ≡ 32 * d
    → byte_decode d bytes ≡ ok (get_coeffs d bytes n 0)
unfolding byte_decode
byte_decode_ok d bytes h = ground arith
