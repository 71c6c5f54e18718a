-- ===== src/Mldsa/Sign/HintRows.antt =====
-- The hint of an attempt: bits, and as many ones as the loop counts.
use macula_pq.Common.{
  ℕ, zero, suc, ◌+◌, ◌<◌, ◌≡◌, refl, ap, ◌∙◌, arith, List, [], ◌∷◌, foldl, length, All,
  length-append,
}
use macula_pq.Common.Bits.{bit_and_mask}
use macula_pq.Mldsa.Field.{n}
use macula_pq.Mldsa.Rounding.{make_hint}
use macula_pq.Mldsa.Encode.HintPacked.{IsBit, IsHintPoly, positions, all_positions}
use macula_pq.Mldsa.Keys.{Polys}
use macula_pq.Mldsa.Sign.{hint_row, hint_rows, count_ones}

make_hint-lt : (z r gamma2 : ℕ) → make_hint z r gamma2 < 2
unfolding make_hint
make_hint-lt z r gamma2 = rw (bit_and_mask 1 _) (omega arith)

hint_row-IsBit :
    (gamma2 : ℕ) (w cs2 ct0 : List ℕ)
    → length cs2 ≡ length w
    → length ct0 ≡ length w
    → (length (hint_row gamma2 w cs2 ct0) ≡ length w) × All IsBit (hint_row gamma2 w cs2 ct0)
unfolding hint_row
hint_row-IsBit gamma2 [] cs2 ct0 h2 h0 = (refl, tt)
hint_row-IsBit gamma2 (c ∷ w) [] ct0 h2 h0 = absurd (omega arith)
hint_row-IsBit gamma2 (c ∷ w) (e ∷ cs2) [] h2 h0 = absurd (omega arith)
hint_row-IsBit gamma2 (c ∷ w) (e ∷ cs2) (t ∷ ct0) h2 h0 =
    let (len, bits) = hint_row-IsBit gamma2 w cs2 ct0 (omega arith) (omega arith) in
    (ap suc len, (make_hint-lt _ _ gamma2, bits))

abbrev pub HasSize : List ℕ → Type 0
HasSize w = length w ≡ n

pub hint_rows-IsHintPoly :
    (gamma2 : ℕ) (w cs2 ct0 : Polys)
    → length cs2 ≡ length w
    → length ct0 ≡ length w
    → All HasSize w
    → All HasSize cs2
    → All HasSize ct0
    → (length (hint_rows gamma2 w cs2 ct0) ≡ length w) × All IsHintPoly (hint_rows gamma2 w cs2 ct0)
unfolding hint_rows
hint_rows-IsHintPoly gamma2 [] cs2 ct0 h2 h0 a b c = (refl, tt)
hint_rows-IsHintPoly gamma2 (v ∷ w) [] ct0 h2 h0 a b c = absurd (omega arith)
hint_rows-IsHintPoly gamma2 (v ∷ w) (e ∷ cs2) [] h2 h0 a b c = absurd (omega arith)
hint_rows-IsHintPoly gamma2 (v ∷ w) (e ∷ cs2) (t ∷ ct0) h2 h0 (a, hw) (b, he) (c, ht) =
    let (len, rows) = hint_rows-IsHintPoly gamma2 w cs2 ct0 (omega arith) (omega arith) hw he ht in
    let (size, bits) = hint_row-IsBit gamma2 v e t (omega arith) (omega arith) in
    (ap suc len, ((size ∙ a, bits), rows))

count_row :
    (w : List ℕ) (j ones : ℕ) → All IsBit w → foldl ◌+◌ ones w ≡ ones + length (positions j w)
unfolding positions
count_row [] j ones h = omega arith
count_row (zero ∷ w) j ones (_, h) = omega (arith, count_row w (j + 1) (ones + 0) h)
count_row (suc zero ∷ w) j ones (_, h) = omega (arith, count_row w (j + 1) (ones + 1) h)
count_row (suc (suc b) ∷ w) j ones (h, _) = absurd (omega arith)

count_rows :
    (ws : Polys) (ones : ℕ)
    → All IsHintPoly ws
    → foldl (λ ones row. foldl ◌+◌ ones row) ones ws ≡ ones + length (all_positions ws)
unfolding all_positions
count_rows [] ones h = omega arith
count_rows (w ∷ ws) ones ((_, h), hs) = omega (
  arith,
  count_row w 0 ones h,
  count_rows ws (foldl ◌+◌ ones w) hs,
  length-append (positions 0 w) (all_positions ws),
)

pub count_ones_lem : (ws : Polys) → All IsHintPoly ws → count_ones ws ≡ length (all_positions ws)
unfolding count_ones
count_ones_lem ws h = omega (arith, count_rows ws 0 h)
