-- ===== src/Tls/Der/RoundTrip.antt =====
-- What is written as DER is read back, off the front of any bytes.
use macula_pq.Common.{
  ℕ, ◌*◌, ◌/◌, ◌%◌, ◌^◌, ◌≤◌, ◌<◌, ◌≡◌, refl, ap, ◌∙◌, arith, true, bit_or, leb, Bool-cases, inl,
  inr, some, List, [], ◌∷◌, ◌++◌, length, length-append, take-append, drop-append,
}
use macula_pq.Common.Bits.{zero-bit_or, bit_or_fields, bit_or_comm}
use macula_pq.Common.Word.{u8, shr, shl64}
use macula_pq.Tls.Der.{der, der_length, split_at_checked, big_endian, tlv_long, tlv}

split_at_checked-append :
    (contents rest : List ℕ)
    → split_at_checked (length contents) (contents ++ rest) ≡ some (contents, rest)
unfolding split_at_checked
split_at_checked-append contents rest =
    let fits : leb (length contents) (length (contents ++ rest)) ≡ true =
      ground (arith, length-append contents rest) in
    rw (fits, take-append contents rest, drop-append contents rest) refl

two_bytes : (len : ℕ) → len < 65536 → big_endian (u8 (shr len 8) ∷ u8 len ∷ []) ≡ len
unfolding big_endian
two_bytes len h =
    let high : u8 (shr len 8) ≡ len / 2 ^ 8 = omega arith in
    let low : u8 len ≡ len % 2 ^ 8 = refl in
    let start : shl64 (bit_or 0 (u8 (shr len 8))) 8 ≡ len / 2 ^ 8 * 2 ^ 8 =
      rw (zero-bit_or (u8 (shr len 8)), high) (omega arith) in
    rw (start, bit_or_comm 16 (len / 2 ^ 8 * 2 ^ 8) (len % 2 ^ 8) (omega arith) (omega arith))
      (bit_or_fields 8 (len % 2 ^ 8) (len / 2 ^ 8) (omega arith) ∙ omega arith)

one_byte : (len : ℕ) → len < 256 → big_endian (u8 len ∷ []) ≡ len
unfolding big_endian
one_byte len h = zero-bit_or (u8 len) ∙ omega arith

-- Fewer than 128 bytes, fewer than 256 and the others.
tlv-short :
    (tag : ℕ) (contents rest : List ℕ)
    → length contents ≤ 127
    → tlv (tag ∷ u8 (length contents) ∷ (contents ++ rest)) ≡ some (tag, contents, rest)
unfolding tlv
tlv-short tag contents rest h =
    let byte : u8 (length contents) ≡ length contents = omega arith in
    let short : leb (length contents) 0x7f ≡ true = ground (arith, h) in
    rw (byte, short, split_at_checked-append contents rest) refl

split_count :
    (bytes rest : List ℕ) (count : ℕ)
    → length bytes ≡ count
    → split_at_checked count (bytes ++ rest) ≡ some (bytes, rest)
split_count bytes rest count e = rw (← e) (split_at_checked-append bytes rest)

tlv_long-append :
    (tag : ℕ) (bytes contents rest : List ℕ)
    → big_endian bytes ≡ length contents
    → tlv_long tag (some (bytes, contents ++ rest)) ≡ some (tag, contents, rest)
unfolding tlv_long
tlv_long-append tag bytes contents rest e = rw (e, split_at_checked-append contents rest) refl

tlv-medium :
    (tag : ℕ) (contents rest : List ℕ)
    → length contents ≤ 255
    → tlv (tag ∷ 0x81 ∷ u8 (length contents) ∷ (contents ++ rest)) ≡ some (tag, contents, rest)
unfolding tlv
tlv-medium tag contents rest h =
    let bytes = u8 (length contents) ∷ [] in
    ap (tlv_long tag) (split_count bytes (contents ++ rest) 1 refl)
    ∙ tlv_long-append tag bytes contents rest (one_byte (length contents) (omega arith))

tlv-long :
    (tag : ℕ) (contents rest : List ℕ)
    → length contents < 65536
    → tlv (tag ∷ 0x82 ∷ u8 (shr (length contents) 8) ∷ u8 (length contents) ∷ (contents ++ rest))
      ≡ some (tag, contents, rest)
unfolding tlv
tlv-long tag contents rest h =
    let bytes = u8 (shr (length contents) 8) ∷ u8 (length contents) ∷ [] in
    ap (tlv_long tag) (split_count bytes (contents ++ rest) 2 refl)
    ∙ tlv_long-append tag bytes contents rest (two_bytes (length contents) h)

-- Reading what was written for contents of fewer than 65536 bytes, whatever follows it, gives
-- back the tag and the contents, and leaves what follows.
pub tlv-der :
    (tag : ℕ) (contents rest : List ℕ)
    → length contents < 65536
    → tlv (der tag contents ++ rest) ≡ some (tag, contents, rest)
unfolding der der_length
tlv-der tag contents rest h = elim (Bool-cases (leb (length contents) 0x7f)) [
  | inl t ↦ rw t (tlv-short tag contents rest (ground (arith, t)))
  | inr t ↦ elim (Bool-cases (leb (length contents) 0xff)) [
    | inl t' ↦ rw (t, t') (tlv-medium tag contents rest (ground (arith, t')))
    | inr t' ↦ rw (t, t') (tlv-long tag contents rest h)
  ]
]
