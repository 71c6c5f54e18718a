-- ===== src/Mlkem/Encode/Compression.antt =====
-- Compression without a division instruction, and what it loses.
use macula_pq.Common.{
  ℕ, ◌+◌, ◌-◌, ◌*◌, ◌/◌, ◌%◌, ◌^◌, ◌≤◌, ◌<◌, ◌≡◌, ◌⊎◌, inl, inr, ◌∙◌, arith, min,
}
use macula_pq.Common.Bits.{bit_and_mask}
use macula_pq.Mlkem.Field.{q}
use macula_pq.Mlkem.Encode.{div_q, compress, decompress}

-- The widths that the scheme compresses to.
abbrev pub IsWidth : ℕ → Type 0
IsWidth d = (d ≡ 1) ⊎ ((d ≡ 4) ⊎ ((d ≡ 5) ⊎ ((d ≡ 10) ⊎ (d ≡ 11))))

pub div_q_lem : (m : ℕ) → m < 2 ^ 23 → div_q m ≡ m / q
unfolding div_q
div_q_lem m h = ground arith

-- The nearest integer to `2^d * x / q`, modulo `2^d`, as FIPS 203 writes it.
abbrev pub compress_reference : ℕ → ℕ → ℕ
compress_reference d x = (2 ^ d * x + q / 2) / q % 2 ^ d

-- The distance between two coefficients modulo q.
abbrev pub distance : ℕ → ℕ → ℕ
distance x y = min ((x + q - y) % q) ((y + q - x) % q)

-- For a coefficient below q and each width that the scheme compresses to, the compression by a
-- product and a shift is the rounded quotient of FIPS 203, with a division, modulo 2^d.
pub compress-compress_reference :
    (d x : ℕ) → x < q → IsWidth d → compress d x ≡ compress_reference d x
unfolding compress
compress-compress_reference d x h (inl e) =
    rw e (ground (arith, div_q_lem (x * 2 ^ 1 + q / 2), bit_and_mask 1 (div_q (x * 2 ^ 1 + q / 2))))
compress-compress_reference d x h (inr (inl e)) =
    rw e (ground (arith, div_q_lem (x * 2 ^ 4 + q / 2), bit_and_mask 4 (div_q (x * 2 ^ 4 + q / 2))))
compress-compress_reference d x h (inr (inr (inl e))) =
    rw e (ground (arith, div_q_lem (x * 2 ^ 5 + q / 2), bit_and_mask 5 (div_q (x * 2 ^ 5 + q / 2))))
compress-compress_reference d x h (inr (inr (inr (inl e)))) =
    rw e
      (ground (arith, div_q_lem (x * 2 ^ 10 + q / 2), bit_and_mask 10 (div_q (x * 2 ^ 10 + q / 2))))
compress-compress_reference d x h (inr (inr (inr (inr e)))) =
    rw e
      (ground (arith, div_q_lem (x * 2 ^ 11 + q / 2), bit_and_mask 11 (div_q (x * 2 ^ 11 + q / 2))))

reference_error :
    (d x : ℕ)
    → x < q
    → IsWidth d
    → distance (decompress d (compress_reference d x)) x ≤ (q + 2 ^ d) / 2 ^ (d + 1)
unfolding decompress
reference_error d x h (inl e) = rw e (ground arith)
reference_error d x h (inr (inl e)) = rw e (ground arith)
reference_error d x h (inr (inr (inl e))) = rw e (ground arith)
reference_error d x h (inr (inr (inr (inl e)))) = rw e (ground arith)
reference_error d x h (inr (inr (inr (inr e)))) = rw e (ground arith)

-- A compressed value stands for a coefficient that compresses to it.
abbrev IsBack : ℕ → ℕ → Type 0
IsBack d y = (decompress d y < q) × (compress_reference d (decompress d y) ≡ y)

exact_1 : (y : ℕ) → y < 2 ^ 1 → IsBack 1 y
unfolding decompress
exact_1 y h = (ground arith, ground arith)

exact_4 : (y : ℕ) → y < 2 ^ 4 → IsBack 4 y
unfolding decompress
exact_4 y h = (ground arith, ground arith)

exact_5 : (y : ℕ) → y < 2 ^ 5 → IsBack 5 y
unfolding decompress
exact_5 y h = (ground arith, ground arith)

exact_10 : (y : ℕ) → y < 2 ^ 10 → IsBack 10 y
unfolding decompress
exact_10 y h = (ground arith, ground arith)

exact_11 : (y : ℕ) → y < 2 ^ 11 → IsBack 11 y
unfolding decompress
exact_11 y h = (ground arith, ground arith)

decompress-IsBack : (d y : ℕ) → y < 2 ^ d → IsWidth d → IsBack d y
decompress-IsBack d y h (inl e) = rw e (exact_1 y (rw e at h))
decompress-IsBack d y h (inr (inl e)) = rw e (exact_4 y (rw e at h))
decompress-IsBack d y h (inr (inr (inl e))) = rw e (exact_5 y (rw e at h))
decompress-IsBack d y h (inr (inr (inr (inl e)))) = rw e (exact_10 y (rw e at h))
decompress-IsBack d y h (inr (inr (inr (inr e)))) = rw e (exact_11 y (rw e at h))

-- For a coefficient below q and each width that the scheme compresses to, decompressing what was
-- compressed to `d` bits is at a distance modulo q of at most q / 2^(d+1), rounded.
pub decompress-compress :
    (d x : ℕ)
    → x < q
    → IsWidth d
    → distance (decompress d (compress d x)) x ≤ (q + 2 ^ d) / 2 ^ (d + 1)
decompress-compress d x h w = rw (compress-compress_reference d x h w) (reference_error d x h w)

-- For each width that the scheme compresses to and a value of `d` bits, compressing what was
-- decompressed gives the value back.
pub compress-decompress : (d y : ℕ) → y < 2 ^ d → IsWidth d → compress d (decompress d y) ≡ y
compress-decompress d y h w =
    let (below, same) = decompress-IsBack d y h w in
    compress-compress_reference d (decompress d y) below w ∙ same
