-- ===== src/Mldsa/Encode/HintPacked.antt =====
-- What `hint_bit_pack` writes: the positions of the ones, in order, zeros up to omega bytes, and the
-- running counts.
use macula_pq.Common.{
  ℕ, zero, suc, ◌+◌, ◌-◌, ◌≤◌, ◌<◌, ◌≡◌, refl, sym, ap, ap₂, ◌∙◌, true, arith, ltb, if◌then◌else◌,
  ◌==◌, take_all, List, [], ◌∷◌, ◌++◌, length, All, take, set, replicate, zip_with, count_from,
  length-set, length-append, append_assoc, append-nil, length-replicate, All-replicate, All-set,
}
use macula_pq.Common.Outcome.{ok}
use macula_pq.Common.Word.{IsByte, IsBytes, u8}
use macula_pq.Mldsa.Field.{n}
use macula_pq.Mldsa.Params.{ParameterSet}
use macula_pq.Mldsa.Encode.HintMasked.{masked, kept_slots, masked_slots}
use macula_pq.Mldsa.Encode.Hint.{note_bit, note_poly, note_polys, hint_bit_pack}

abbrev pub IsBit : ℕ → Type 0
IsBit b = b < 2

-- A polynomial of 256 hint bits.
abbrev pub IsHintPoly : List ℕ → Type 0
IsHintPoly w = (length w ≡ n) × All IsBit w

-- The positions of the ones, counted from `j`.
unfoldable pub positions : ℕ → List ℕ → List ℕ
positions j [] = []
positions j (bit ∷ bits) = if bit == 1 then j ∷ positions (j + 1) bits else positions (j + 1) bits

unfoldable pub all_positions : List (List ℕ) → List ℕ
unfolding positions
all_positions [] = []
all_positions (w ∷ ws) = positions 0 w ++ all_positions ws

-- How many ones there are up to each polynomial's end, after `index` earlier ones.
unfoldable pub running_counts : ℕ → List (List ℕ) → List ℕ
unfolding positions
running_counts index [] = []
running_counts index (w ∷ ws) =
    let end = index + length (positions 0 w) in end ∷ running_counts end ws

module _ {ℓ} {A : Type ℓ} where
  take-set_at : (xs : List A) (i : ℕ) (v : A) → take i (set xs i v) ≡ take i xs
  take-set_at [] i v = refl
  take-set_at (x ∷ xs) zero v = refl
  take-set_at (x ∷ xs) (suc i) v = ap (λ t. x ∷ t) (take-set_at xs i v)

  take-set_next :
      (xs : List A) (i : ℕ) (v : A)
      → i < length xs
      → take (suc i) (set xs i v) ≡ take i xs ++ v ∷ []
  take-set_next [] i v h = absurd (omega arith)
  take-set_next (x ∷ xs) zero v h = refl
  take-set_next (x ∷ xs) (suc i) v h = ap (λ t. x ∷ t) (take-set_next xs i v (omega arith))

-- The slots and the count after the positions `ps` were noted from `index` on.
record IsNoted (slots : List ℕ) (index : ℕ) (ps slots' : List ℕ) (index' : ℕ) : Type 0 where
  size : length slots' ≡ length slots
  bytes : IsBytes slots'
  count : index' ≡ index + length ps
  noted : take index' slots' ≡ take index slots ++ ps

note_poly_lem :
    (bits : List ℕ) (j : ℕ) (slots : List ℕ) (index : ℕ)
    → All IsBit bits
    → j + length bits ≤ 256
    → index + length (positions j bits) < length slots
    → IsBytes slots
    → (slots' : List ℕ) × (index' : ℕ) × (note_poly j bits (slots, index) ≡ ok (slots', index'))
      × IsNoted slots index (positions j bits) slots' index'
unfolding note_poly note_bit positions
note_poly_lem [] j slots index h hj room fit = (
  slots,
  index,
  refl,
  record { size = refl; bytes = fit; count = omega arith; noted = sym (append-nil _) },
)
note_poly_lem (zero ∷ bits) j slots index (h, hs) hj room fit =
    let byte : u8 j ≡ j = omega arith in
    let here : ltb index (length slots) ≡ true = ground arith in
    let stay : index + 0 ≡ index = omega arith in
    let step : note_poly j (0 ∷ bits) (slots, index)
        ≡ note_poly (j + 1) bits (set slots index j, index) =
      rw (here, byte, stay) refl in
    let (slots', index', e, noted) =
      note_poly_lem bits (j + 1) (set slots index j) index hs (omega arith)
        (omega (arith, room, length-set slots index j))
        (All-set IsByte slots index j (omega arith) fit) in
    (
      slots',
      index',
      step ∙ e,
      record {
        size = noted.size ∙ length-set slots index j;
        bytes = noted.bytes;
        count = noted.count;
        noted = noted.noted ∙ rw (take-set_at slots index j) refl;
      },
    )
note_poly_lem (suc zero ∷ bits) j slots index (h, hs) hj room fit =
    let byte : u8 j ≡ j = omega arith in
    let here : ltb index (length slots) ≡ true = ground arith in
    let next : index + 1 ≡ suc index = omega arith in
    let step : note_poly j (1 ∷ bits) (slots, index)
        ≡ note_poly (j + 1) bits (set slots index j, suc index) =
      rw (here, byte, next) refl in
    let ps = positions (j + 1) bits in
    let (slots', index', e, noted) =
      note_poly_lem bits (j + 1) (set slots index j) (suc index) hs (omega arith)
        (omega (arith, room, length-set slots index j))
        (All-set IsByte slots index j (omega arith) fit) in
    (
      slots',
      index',
      step ∙ e,
      record {
        size = noted.size ∙ length-set slots index j;
        bytes = noted.bytes;
        count = omega (arith, noted.count);
        noted =
            noted.noted
            ∙ rw (take-set_next slots index j (omega arith))
                (append_assoc (take index slots) (j ∷ []) ps);
      },
    )
note_poly_lem (suc (suc b) ∷ bits) j slots index (h, hs) hj room fit = absurd (omega arith)

note_polys-cons :
    (w : List ℕ) (ws : List (List ℕ)) (s last : List ℕ × ℕ) (mid : List ℕ) (end : ℕ)
    (counts : List ℕ)
    → note_poly 0 w s ≡ ok (mid, end)
    → note_polys ws (mid, end) ≡ ok (last, counts)
    → end < 256
    → note_polys (w ∷ ws) s ≡ ok (last, end ∷ counts)
unfolding note_polys
note_polys-cons w ws s last mid end counts e e' h =
    let byte : u8 end ≡ end = omega arith in rw (e, e', byte) refl

note_polys_lem :
    (ws : List (List ℕ)) (slots : List ℕ) (index : ℕ)
    → All IsHintPoly ws
    → index + length (all_positions ws) < length slots
    → index + length (all_positions ws) < 256
    → IsBytes slots
    → (slots' : List ℕ) × (index' : ℕ) × (note_polys ws (slots, index)
        ≡ ok ((slots', index'), running_counts index ws))
      × IsNoted slots index (all_positions ws) slots' index'
unfolding note_polys all_positions running_counts
note_polys_lem [] slots index h room few fit = (
  slots,
  index,
  refl,
  record { size = refl; bytes = fit; count = omega arith; noted = sym (append-nil _) },
)
note_polys_lem (w ∷ ws) slots index ((len, h), hs) room few fit =
    let ps = positions 0 w in
    let both = length-append ps (all_positions ws) in
    let (mid, end, e, first) =
      note_poly_lem w 0 slots index h (omega (arith, len)) (omega (arith, room, both)) fit in
    let (slots', index', e', then_) =
      note_polys_lem ws mid end hs (omega (arith, room, both, first.count, first.size))
        (omega (arith, few, both, first.count)) first.bytes in
    (
      slots',
      index',
      note_polys-cons w ws (slots, index) (slots', index') mid end (running_counts end ws) e e'
            (omega (arith, few, both, first.count))
          ∙ ap (λ (k : ℕ). ok ((slots', index'), k ∷ running_counts k ws)) first.count,
      record {
        size = then_.size ∙ first.size;
        bytes = then_.bytes;
        count = omega (arith, then_.count, first.count, both);
        noted =
            then_.noted ∙ rw first.noted (append_assoc (take index slots) ps (all_positions ws));
      },
    )

abbrev zeros : List ℕ
zeros = replicate (n + 1) 0

length-zeros : length zeros ≡ 257
length-zeros = length-replicate {A = ℕ} (n + 1) 0

hint_bit_pack_of :
    (ws : List (List ℕ)) (p : ParameterSet) (slots : List ℕ) (index : ℕ) (counts : List ℕ)
    → note_polys (take p.k ws) (zeros, 0) ≡ ok ((slots, index), counts)
    → hint_bit_pack ws p
      ≡ ok (zip_with (masked index) (count_from 0 p.omega) (take p.omega slots) ++ counts)
unfolding hint_bit_pack
hint_bit_pack_of ws p slots index counts e = rw e refl

-- The bytes of a hint with at most omega ones.
unfoldable pub hint_bytes : List (List ℕ) → ParameterSet → List ℕ
unfolding all_positions running_counts
hint_bytes ws p =
    (all_positions ws ++ replicate (p.omega - length (all_positions ws)) 0) ++ running_counts 0 ws

pub hint_bit_pack_lem :
    (ws : List (List ℕ)) (p : ParameterSet)
    → All IsHintPoly ws
    → length ws ≡ p.k
    → length (all_positions ws) ≤ p.omega
    → p.omega < 256
    → hint_bit_pack ws p ≡ ok (hint_bytes ws p)
unfolding hint_bytes
hint_bit_pack_lem ws p h len few small =
    let all : take p.k ws ≡ ws = take_all p.k ws (omega (arith, len)) in
    let (slots, index, e, noted) =
      note_polys_lem ws zeros 0 h (omega (arith, length-zeros)) (omega arith)
        (All-replicate IsByte (n + 1) 0 (omega arith)) in
    let kept =
      masked_slots p.omega 0 index slots (omega (arith, noted.count)) (omega (arith, noted.count))
        (omega (arith, noted.size, length-zeros)) (omega arith) noted.bytes in
    let index_lem : index - 0 ≡ index = omega arith in
    let count : index ≡ length (all_positions ws) = omega (arith, noted.count) in
    let shape : kept_slots index p.omega slots
        ≡ all_positions ws ++ replicate (p.omega - length (all_positions ws)) 0 =
      ap₂ (λ xs i. xs ++ replicate (p.omega - i) 0) noted.noted count in
    hint_bit_pack_of ws p slots index (running_counts 0 ws)
      (ap (λ xs. note_polys xs (zeros, 0)) all ∙ e)
    ∙ ap (λ xs. ok (xs ++ running_counts 0 ws))
        (kept ∙ ap (λ i. kept_slots i p.omega slots) index_lem ∙ shape)
