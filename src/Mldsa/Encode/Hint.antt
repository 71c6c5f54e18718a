-- ===== src/Mldsa/Encode/Hint.antt =====
-- macula-mldsa/src/encode.rs: the hint as a list of positions, `hint_bit_pack`.
-- A vector is the list of its first `k` polynomials; the others of the source's arrays stay zero.
use macula_pq.Common.{
  ℕ, ◌+◌, bit_and, ltb, if◌then◌else◌, List, [], ◌∷◌, ◌++◌, length, get_or, set, take, replicate,
  zip_with, count_from,
}
use macula_pq.Common.Outcome.{ok, panic, ◌>>=◌}
use macula_pq.Common.Word.{u8, asr64, sub64}
use macula_pq.Mldsa.Field.{n}
use macula_pq.Mldsa.Params.{ParameterSet}
use macula_pq.Mldsa.Encode.{Fallible}

abbrev at : List ℕ → ℕ → ℕ
at f i = get_or f i 0

-- The scratch slots and the next index, after one coefficient.
unfoldable pub note_bit : ℕ → ℕ → List ℕ × ℕ → Fallible (List ℕ × ℕ)
note_bit j bit (slots, index) =
    if ltb index (length slots) then ok (set slots index (u8 j), index + bit) else panic

unfoldable pub note_poly : ℕ → List ℕ → List ℕ × ℕ → Fallible (List ℕ × ℕ)
unfolding note_bit
note_poly j [] s = ok s
note_poly j (bit ∷ bits) s = do s' ← note_bit j bit s; note_poly (j + 1) bits s'

-- The slots and the count after each polynomial.
unfoldable pub note_polys : List (List ℕ) → List ℕ × ℕ → Fallible ((List ℕ × ℕ) × List ℕ)
unfolding note_poly
note_polys [] s = ok (s, [])
note_polys (poly ∷ polys) s = do
  s' ← note_poly 0 poly s
  (last, counts) ← note_polys polys s'
  ok (last, u8 s'.1 ∷ counts)

unfoldable pub hint_bit_pack : List (List ℕ) → ParameterSet → Fallible (List ℕ)
unfolding note_polys
hint_bit_pack h p = do
  ((slots, index), counts) ← note_polys (take p.k h) (replicate (n + 1) 0, 0)
  let positions =
      zip_with (λ s slot. bit_and slot (u8 (asr64 (sub64 s index) 63))) (count_from 0 p.omega)
        (take p.omega slots)
  ok (positions ++ counts)
