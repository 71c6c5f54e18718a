-- ===== src/Mldsa/Keys/Vectors.antt =====
-- Vectors of polynomials in a byte string: read back after they were written, and read from any bytes.
use macula_pq.Common.{
  ℕ, zero, suc, ◌+◌, ◌-◌, ◌*◌, ◌≤◌, ◌<◌, ◌≡◌, refl, sym, ap, ◌∙◌, arith, List, [], ◌∷◌, ◌++◌,
  length, All, take, drop, length-append, append_assoc, length-take, length-drop,
  take-append_of_length, drop-append_of_length, drop-drop, All-take, All-drop,
}
use macula_pq.Common.Outcome.{ok, slice_ok}
use macula_pq.Common.Word.{IsByte, IsBytes}
use macula_pq.Mldsa.Field.{q}
use macula_pq.Mldsa.Encode.{bit_pack, bit_unpack}
use macula_pq.Mldsa.Encode.Range.{bit_unpack-bit_pack, length-bit_pack}
use macula_pq.Mldsa.Encode.Total.{IsRanged, bit_unpack_total}
use macula_pq.Mldsa.Keys.{Polys, encode_polys, unpack_polys}

-- A vector of `count` polynomials in a range.
abbrev pub IsVector : ℕ → ℕ → ℕ → Polys → Type 0
IsVector count b bits ws = (length ws ≡ count) × All (IsRanged b bits) ws

abbrev pub packed_polys : ℕ → ℕ → Polys → List ℕ
packed_polys b bits ws = encode_polys (λ w. bit_pack w b bits) ws

pub length-packed_polys :
    (b bits : ℕ) (ws : Polys)
    → bits ≤ 20
    → All (IsRanged b bits) ws
    → length (packed_polys b bits ws) ≡ length ws * (32 * bits)
unfolding encode_polys
length-packed_polys b bits [] hb h = omega arith
length-packed_polys b bits (w ∷ ws) hb ((len, hw), hws) =
    let one = length-bit_pack b bits w hb len hw in
    let ih = length-packed_polys b bits ws hb hws in
    let both = length-append (bit_pack w b bits) (packed_polys b bits ws) in
    grind (arith, one, ih, both)

unpack_polys-cons :
    (count at b bits : ℕ) (bytes v w : List ℕ) (ws : Polys)
    → at + 32 * bits ≤ length bytes
    → take (32 * bits) (drop at bytes) ≡ v
    → bit_unpack v b bits ≡ ok w
    → unpack_polys count (at + 32 * bits) bytes b bits ≡ ok ws
    → unpack_polys (suc count) at bytes b bits ≡ ok (w ∷ ws)
unfolding unpack_polys
unpack_polys-cons count at b bits bytes v w ws room cut e e' =
    let size : at + 32 * bits - at ≡ 32 * bits = omega arith in
    rw (slice_ok bytes at (at + 32 * bits) (omega arith) room, size, cut, e, e') refl

pub unpack_polys-packed_polys :
    (ws : Polys) (at b bits : ℕ) (bytes rest : List ℕ)
    → bits ≤ 20
    → b < q
    → All (IsRanged b bits) ws
    → at + length ws * (32 * bits) ≤ length bytes
    → drop at bytes ≡ packed_polys b bits ws ++ rest
    → unpack_polys (length ws) at bytes b bits ≡ ok ws
unfolding encode_polys
unpack_polys-packed_polys [] at b bits bytes rest hb hq h room here = unfold unpack_polys in refl
unpack_polys-packed_polys (w ∷ ws) at b bits bytes rest hb hq ((len, hw), hws) room here =
    let front = bit_pack w b bits in
    let later = packed_polys b bits ws in
    let one = length-bit_pack b bits w hb len hw in
    let more : suc (length ws) * (32 * bits) ≡ 32 * bits + length ws * (32 * bits) = grind arith in
    let here' : drop at bytes ≡ front ++ (later ++ rest) = here ∙ append_assoc front later rest in
    unpack_polys-cons (length ws) at b bits bytes front w ws (omega (arith, room, more))
      (ap (take (32 * bits)) here' ∙ take-append_of_length (32 * bits) front (later ++ rest) one)
      (bit_unpack-bit_pack b bits w hb hq len hw)
      (unpack_polys-packed_polys ws (at + 32 * bits) b bits bytes rest hb hq hws
        (omega (arith, room, more))
        (sym (drop-drop (32 * bits) at bytes)
          ∙ ap (drop (32 * bits)) here'
          ∙ drop-append_of_length (32 * bits) front (later ++ rest) one))

pub unpack_polys_total :
    (count at b bits : ℕ) (bytes : List ℕ)
    → bits ≤ 20
    → b < q
    → IsBytes bytes
    → at + count * (32 * bits) ≤ length bytes
    → (ws : Polys) × (unpack_polys count at bytes b bits ≡ ok ws) × IsVector count b bits ws
unpack_polys_total zero at b bits bytes hb hq fit room =
    ([], (unfold unpack_polys in refl), (refl, tt))
unpack_polys_total (suc count) at b bits bytes hb hq fit room =
    let v = take (32 * bits) (drop at bytes) in
    let more : suc count * (32 * bits) ≡ 32 * bits + count * (32 * bits) = grind arith in
    let size : length v ≡ 32 * bits =
      omega (arith, length-take (32 * bits) (drop at bytes), length-drop at bytes, room, more) in
    let (w, e, ranged) =
      bit_unpack_total b bits v hb hq
        (All-take IsByte (32 * bits) (drop at bytes) (All-drop IsByte at bytes fit)) size in
    let (ws, e', (len, all)) =
      unpack_polys_total count (at + 32 * bits) b bits bytes hb hq fit
        (omega (arith, room, more)) in
    (
      w ∷ ws,
      unpack_polys-cons count at b bits bytes v w ws (omega (arith, room, more)) refl e e',
      (ap suc len, (ranged, all)),
    )
