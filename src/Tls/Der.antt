-- ===== src/Tls/Der.antt =====
-- macula-pqc/src/signatures.rs: DER of one-byte tags, written and read.
pub mod RoundTrip
use macula_pq.Common.{
  ℕ, zero, suc, ◌+◌, ◌*◌, ◌/◌, ◌^◌, bit_and, bit_or, leb, ◌&&◌, if◌then◌else◌, Option, none, some,
  List, [], ◌∷◌, ◌++◌, foldl, length, take, drop,
}
use macula_pq.Common.Word.{u8, shr, shl64}

unfoldable pub der_length : ℕ → List ℕ
der_length len =
    if leb len 0x7f
    then u8 len ∷ []
    else if leb len 0xff
    then 0x81 ∷ u8 len ∷ []
    else 0x82 ∷ u8 (shr len 8) ∷ u8 len ∷ []

unfoldable pub der : ℕ → List ℕ → List ℕ
unfolding der_length
der tag contents = tag ∷ (der_length (length contents) ++ contents)

-- `slice::split_at_checked`.
unfoldable pub split_at_checked : ℕ → List ℕ → Option (List ℕ × List ℕ)
split_at_checked mid xs = if leb mid (length xs) then some (take mid xs, drop mid xs) else none

-- The tag, its contents and what follows.
abbrev pub Tlv : Type 0
Tlv = ℕ × List ℕ × List ℕ

abbrev pub with_tag : ℕ → Option (List ℕ × List ℕ) → Option Tlv
with_tag tag none = none
with_tag tag (some (contents, rest)) = some (tag, contents, rest)

-- `fold(0usize, |acc, &b| (acc << 8) | usize::from(b))`.
unfoldable pub big_endian : List ℕ → ℕ
big_endian bytes = foldl (λ acc b. bit_or (shl64 acc 8) b) 0 bytes

-- A length of more than one byte, and the contents it counts.
unfoldable pub tlv_long : ℕ → Option (List ℕ × List ℕ) → Option Tlv
unfolding big_endian split_at_checked
tlv_long tag none = none
tlv_long tag (some (bytes, rest)) = with_tag tag (split_at_checked (big_endian bytes) rest)

unfoldable pub tlv : List ℕ → Option Tlv
unfolding tlv_long
tlv [] = none
tlv (tag ∷ []) = none
tlv (tag ∷ first ∷ rest) =
    if leb first 0x7f
    then with_tag tag (split_at_checked first rest)
    else if leb 0x81 first && leb first 0x84
    then tlv_long tag (split_at_checked (bit_and first 0x7f) rest)
    else none
