-- ===== src/Mldsa/Encode/HintRoundTrip.antt =====
-- The hint that `hint_bit_pack` writes is read back by `hint_bit_unpack`.
use macula_pq.Common.{
  ℕ, zero, suc, ◌+◌, ◌-◌, ◌≤◌, ◌<◌, ◌≡◌, refl, sym, ap, ◌∙◌, arith, false, ltb, leb, ◌&&◌, ◌||◌,
  some, List, [], ◌∷◌, ◌++◌, length, All, take, drop, set, get_or, replicate, length-append,
  append_assoc, length-replicate, take-append_of_length, drop-append_of_length,
}
use macula_pq.Common.Outcome.{ok}
use macula_pq.Mldsa.Field.{n}
use macula_pq.Mldsa.Params.{ParameterSet}
use macula_pq.Mldsa.Encode.Hint.{hint_bit_pack}
use macula_pq.Mldsa.Encode.HintUnpack.{read_positions, read_polys, any_nonzero, hint_bit_unpack}
use macula_pq.Mldsa.Encode.HintPacked.{
  IsBit, IsHintPoly, positions, all_positions, running_counts, hint_bytes, hint_bit_pack_lem,
}

abbrev at : List ℕ → ℕ → ℕ
at f i = get_or f i 0

at-drop : (y : List ℕ) (i x : ℕ) (rest : List ℕ) → drop i y ≡ x ∷ rest → at y i ≡ x
at-drop [] zero x rest h = cc
at-drop [] (suc i) x rest h = cc
at-drop (a ∷ y) zero x rest h = cc
at-drop (a ∷ y) (suc i) x rest h = at-drop y i x rest h

drop-next : (y : List ℕ) (i x : ℕ) (rest : List ℕ) → drop i y ≡ x ∷ rest → drop (suc i) y ≡ rest
drop-next [] zero x rest h = cc
drop-next [] (suc i) x rest h = cc
drop-next (a ∷ y) zero x rest h = cc
drop-next (a ∷ y) (suc i) x rest h = drop-next y i x rest h

drop-beyond :
    (y : List ℕ) (i : ℕ) (front rest : List ℕ)
    → drop i y ≡ front ++ rest
    → drop (i + length front) y ≡ rest
drop-beyond y i [] rest h = let e : i + 0 ≡ i = omega arith in rw e h
drop-beyond y i (x ∷ front) rest h =
    let e : i + suc (length front) ≡ suc i + length front = omega arith in
    rw e (drop-beyond y (suc i) front rest (drop-next y i x (front ++ rest) h))

set-append :
    (done rest : List ℕ) (j x v : ℕ)
    → length done ≡ j
    → set (done ++ x ∷ rest) j v ≡ (done ++ v ∷ []) ++ rest
set-append [] rest zero x v h = refl
set-append [] rest (suc j) x v h = absurd (omega arith)
set-append (a ∷ done) rest zero x v h = absurd (omega arith)
set-append (a ∷ done) rest (suc j) x v h =
    ap (λ t. a ∷ t) (set-append done rest j x v (omega arith))

-- From a polynomial whose first `j` bits are restored.
read_positions_lem :
    (bits : List ℕ) (j : ℕ) (done : List ℕ) (first index : ℕ) (y rest : List ℕ)
    → All IsBit bits
    → length done ≡ j
    → drop index y ≡ positions j bits ++ rest
    → (first < index → at y (index - 1) < j)
    → read_positions (length (positions j bits)) index first y (done ++ replicate (length bits) 0)
      ≡ some (done ++ bits)
unfolding read_positions positions
read_positions_lem [] j done first index y rest h len here last = refl
read_positions_lem (zero ∷ bits) j done first index y rest (h, hs) len here last =
    let size : length (done ++ 0 ∷ []) ≡ j + 1 = omega (arith, length-append done (0 ∷ []), len) in
    let ih =
      read_positions_lem bits (j + 1) (done ++ 0 ∷ []) first index y rest hs size here
        (λ p. omega (arith, last p)) in
    let before = append_assoc done (0 ∷ []) (replicate (length bits) 0) in
    let after = append_assoc done (0 ∷ []) bits in
    ap (λ w. read_positions (length (positions (j + 1) bits)) index first y w) (sym before)
    ∙ ih
    ∙ ap some after
read_positions_lem (suc zero ∷ bits) j done first index y rest (h, hs) len here last =
    let ps = positions (j + 1) bits in
    let now : at y index ≡ j = at-drop y index j (ps ++ rest) here in
    let size : length (done ++ 1 ∷ []) ≡ j + 1 = omega (arith, length-append done (1 ∷ []), len) in
    let fine : ltb first index && leb (at y index) (at y (index - 1)) ≡ false =
      ground (arith, last, now) in
    let next : index + 1 ≡ suc index = omega arith in
    let pred : suc index - 1 ≡ index = omega arith in
    let ih =
      read_positions_lem bits (j + 1) (done ++ 1 ∷ []) first (suc index) y rest hs size
        (drop-next y index j (ps ++ rest) here) (λ p. rw pred (omega (arith, now))) in
    let moved = set-append done (replicate (length bits) 0) j 0 1 len in
    let step : read_positions (suc (length ps)) index first y
          (done ++ replicate (suc (length bits)) 0)
        ≡ read_positions (length ps) (suc index) first y
            ((done ++ 1 ∷ []) ++ replicate (length bits) 0) =
      rw (fine, now, next, moved) refl in
    step ∙ ih ∙ ap some (append_assoc done (1 ∷ []) bits)
read_positions_lem (suc (suc b) ∷ bits) j done first index y rest (h, hs) len here last =
    absurd (omega arith)

read_polys-cons :
    (left ones i index end last : ℕ) (y w : List ℕ) (ws : List (List ℕ))
    → at y (ones + i) ≡ end
    → index ≤ end
    → end ≤ ones
    → read_positions (end - index) index index y (replicate n 0) ≡ some w
    → read_polys left ones (i + 1) y end ≡ some (ws, last)
    → read_polys (suc left) ones i y index ≡ some (w ∷ ws, last)
unfolding read_polys
read_polys-cons left ones i index end last y w ws now le below e e' =
    let fine : (ltb end index || ltb ones end) ≡ false = ground arith in rw (now, fine, e, e') refl

read_polys_lem :
    (ws : List (List ℕ)) (ones i index : ℕ) (y rest : List ℕ)
    → All IsHintPoly ws
    → drop index y ≡ all_positions ws ++ rest
    → drop (ones + i) y ≡ running_counts index ws
    → index + length (all_positions ws) ≤ ones
    → read_polys (length ws) ones i y index ≡ some (ws, index + length (all_positions ws))
unfolding all_positions running_counts
read_polys_lem [] ones i index y rest h here counts few =
    let e : index ≡ index + 0 = omega arith in (unfold read_polys in ap (λ (k : ℕ). some ([], k)) e)
read_polys_lem (w ∷ ws) ones i index y rest ((len, h), hs) here counts few =
    let ps = positions 0 w in
    let end = index + length ps in
    let later = all_positions ws in
    let both = length-append ps later in
    let here' : drop index y ≡ ps ++ (later ++ rest) = here ∙ append_assoc ps later rest in
    let taken : end - index ≡ length ps = omega arith in
    let next : ones + (i + 1) ≡ suc (ones + i) = omega arith in
    let total : end + length later ≡ index + length (ps ++ later) = omega (arith, both) in
    let first =
      read_positions_lem w 0 [] index index y (later ++ rest) h refl here'
        (λ p. absurd (omega arith)) in
    let ih =
      read_polys_lem ws ones (i + 1) end y rest hs (drop-beyond y index ps (later ++ rest) here')
        (ap (λ k. drop k y) next ∙ drop-next y (ones + i) end (running_counts end ws) counts)
        (omega (arith, both, few)) in
    read_polys-cons (length ws) ones i index end (end + length later) y w ws
      (at-drop y (ones + i) end (running_counts end ws) counts) (omega arith)
      (omega (arith, both, few))
      (ap (λ k. read_positions k index index y (replicate n 0)) taken
        ∙ ap (λ k. read_positions (length ps) index index y (replicate k 0)) (sym len)
        ∙ first)
      ih
    ∙ ap (λ (k : ℕ). some (w ∷ ws, k)) total

any_nonzero-replicate : (count : ℕ) → any_nonzero (replicate count 0) ≡ false
unfolding any_nonzero
any_nonzero-replicate zero = refl
any_nonzero-replicate (suc count) = any_nonzero-replicate count

-- A vector of k polynomials of 256 bits, at most omega of them ones.
pub record IsHint (p : ParameterSet) (ws : List (List ℕ)) : Type 0 where
  pub bits : All IsHintPoly ws
  pub size : length ws ≡ p.k
  pub few : length (all_positions ws) ≤ p.omega

hint_bit_unpack_of :
    (y : List ℕ) (p : ParameterSet) (ws : List (List ℕ)) (index : ℕ)
    → read_polys p.k p.omega 0 y 0 ≡ some (ws, index)
    → any_nonzero (drop index (take p.omega y)) ≡ false
    → hint_bit_unpack y p ≡ some ws
unfolding hint_bit_unpack
hint_bit_unpack_of y p ws index e zero_after = rw (e, zero_after) refl

-- A hint with at most omega ones is packed in omega + k bytes, and unpacking them gives it back.
pub hint_bit_unpack-hint_bit_pack :
    (ws : List (List ℕ)) (p : ParameterSet)
    → IsHint p ws
    → p.omega < 256
    → (hint_bit_pack ws p ≡ ok (hint_bytes ws p)) × (hint_bit_unpack (hint_bytes ws p) p ≡ some ws)
unfolding hint_bytes
hint_bit_unpack-hint_bit_pack ws p h small =
    let ps = all_positions ws in
    let padding : List ℕ = replicate (p.omega - length ps) 0 in
    let counts = running_counts 0 ws in
    let y : List ℕ = (ps ++ padding) ++ counts in
    let padded : length (ps ++ padding) ≡ p.omega =
      omega (
        arith,
        length-append ps padding,
        length-replicate {A = ℕ} (p.omega - length ps) 0,
        h.few,
      ) in
    let start : drop 0 y ≡ ps ++ (padding ++ counts) = append_assoc ps padding counts in
    let plain : p.omega + 0 ≡ p.omega = omega arith in
    let tail = drop-append_of_length p.omega (ps ++ padding) counts padded in
    let front = take-append_of_length p.omega (ps ++ padding) counts padded in
    let read =
      read_polys_lem ws p.omega 0 0 y (padding ++ counts) h.bits start
        (ap (λ k. drop k y) plain ∙ tail) (omega (arith, h.few)) in
    let none_left : 0 + length ps ≡ length ps = omega arith in
    (
      hint_bit_pack_lem ws p h.bits h.size h.few small,
      hint_bit_unpack_of y p ws (0 + length ps)
          (ap (λ k. read_polys k p.omega 0 y 0) (sym h.size) ∙ read)
          (ap any_nonzero (
              ap (λ t. drop (0 + length ps) t) front
              ∙ ap (λ k. drop k (ps ++ padding)) none_left
              ∙ drop-append_of_length (length ps) ps padding refl)
            ∙ any_nonzero-replicate (p.omega - length ps)),
    )

length-running_counts :
    (index : ℕ) (ws : List (List ℕ)) → length (running_counts index ws) ≡ length ws
unfolding running_counts
length-running_counts index [] = refl
length-running_counts index (w ∷ ws) =
    ap suc (length-running_counts (index + length (positions 0 w)) ws)

pub length-hint_bytes :
    (ws : List (List ℕ)) (p : ParameterSet) → IsHint p ws → length (hint_bytes ws p) ≡ p.omega + p.k
unfolding hint_bytes
length-hint_bytes ws p h =
    let ps = all_positions ws in
    let padding : List ℕ = replicate (p.omega - length ps) 0 in
    omega (
      arith,
      length-append (ps ++ padding) (running_counts 0 ws),
      length-append ps padding,
      length-replicate {A = ℕ} (p.omega - length ps) 0,
      length-running_counts 0 ws,
      h.few,
      h.size,
    )
