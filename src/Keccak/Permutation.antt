-- ===== src/Keccak/Permutation.antt =====
-- macula-keccak/src/lib.rs: the permutation `keccak_f1600` and its tables, on 25 lanes of 64 bits.
use macula_pq.Common.{ℕ, ◌+◌, ◌-◌, ◌*◌, ◌%◌, bit_and, bit_or, bit_xor, for_range, get_or, set}
use macula_pq.Common.{List, [], ◌∷◌, foldl}
use macula_pq.Common.Word.{shl64, shr, not64}

abbrev pub round_constants : List ℕ
round_constants =
    0x0000000000000001 ∷ 0x0000000000008082 ∷ 0x800000000000808a ∷ 0x8000000080008000
    ∷ 0x000000000000808b ∷ 0x0000000080000001 ∷ 0x8000000080008081 ∷ 0x8000000000008009
    ∷ 0x000000000000008a ∷ 0x0000000000000088 ∷ 0x0000000080008009 ∷ 0x000000008000000a
    ∷ 0x000000008000808b ∷ 0x800000000000008b ∷ 0x8000000000008089 ∷ 0x8000000000008003
    ∷ 0x8000000000008002 ∷ 0x8000000000000080 ∷ 0x000000000000800a ∷ 0x800000008000000a
    ∷ 0x8000000080008081 ∷ 0x8000000000008080 ∷ 0x0000000080000001 ∷ 0x8000000080008008 ∷ []

abbrev pub rho_offsets : List ℕ
rho_offsets =
    1 ∷ 3 ∷ 6 ∷ 10 ∷ 15 ∷ 21 ∷ 28 ∷ 36 ∷ 45 ∷ 55 ∷ 2 ∷ 14 ∷ 27 ∷ 41 ∷ 56 ∷ 8 ∷ 25 ∷ 43 ∷ 62 ∷ 18
    ∷ 39 ∷ 61 ∷ 20 ∷ 44 ∷ []

abbrev pub pi_lanes : List ℕ
pi_lanes =
    10 ∷ 7 ∷ 11 ∷ 17 ∷ 18 ∷ 3 ∷ 5 ∷ 16 ∷ 8 ∷ 21 ∷ 24 ∷ 4 ∷ 15 ∷ 23 ∷ 19 ∷ 13 ∷ 12 ∷ 2 ∷ 20 ∷ 14 ∷ 22
    ∷ 9 ∷ 6 ∷ 1 ∷ []

-- Every index below is in range: lanes 0 to 24, columns 0 to 4, table entries 0 to 23.
abbrev pub at : List ℕ → ℕ → ℕ
at a i = get_or a i 0

-- `u64::rotate_left`, for a distance from 1 to 63.
unfoldable pub rotate_left : ℕ → ℕ → ℕ
rotate_left x r = bit_or (shl64 x r) (shr x (64 - r))

unfoldable pub column_parity : List ℕ → ℕ → ℕ
column_parity a x =
    bit_xor (bit_xor (bit_xor (bit_xor (at a x) (at a (x + 5))) (at a (x + 10))) (at a (x + 15)))
      (at a (x + 20))

unfoldable pub theta : List ℕ → List ℕ
unfolding column_parity rotate_left for_range
theta a =
    let c =
      column_parity a 0
      ∷ column_parity a 1
      ∷ column_parity a 2
      ∷ column_parity a 3
      ∷ column_parity a 4
      ∷ [] in
    for_range 5 0
      (λ x lanes.
        let d = bit_xor (at c ((x + 4) % 5)) (rotate_left (at c ((x + 1) % 5)) 1) in
        for_range 5 0 (λ y l. set l (x + 5 * y) (bit_xor (at l (x + 5 * y)) d)) lanes)
      a

-- The lane in hand, `last`, and the lanes.
unfoldable pub rho_pi : List ℕ → List ℕ
unfolding rotate_left for_range
rho_pi a =
    (for_range 24 0
      (λ i (s : ℕ × List ℕ).
        let j = at pi_lanes i in (at s.1 j, set s.1 j (rotate_left s.0 (at rho_offsets i))))
      (at a 1, a)).1

unfoldable pub chi : List ℕ → List ℕ
unfolding for_range
chi a =
    for_range 5 0
      (λ y lanes.
        let row =
          at lanes (5 * y)
          ∷ at lanes (5 * y + 1)
          ∷ at lanes (5 * y + 2)
          ∷ at lanes (5 * y + 3)
          ∷ at lanes (5 * y + 4)
          ∷ [] in
        for_range 5 0
          (λ x l.
            set l (5 * y + x)
              (bit_xor (at row x) (bit_and (not64 (at row ((x + 1) % 5))) (at row ((x + 2) % 5)))))
          lanes)
      a

unfoldable pub iota : ℕ → List ℕ → List ℕ
iota rc a = set a 0 (bit_xor (at a 0) rc)

unfoldable pub keccak_f1600 : List ℕ → List ℕ
unfolding theta rho_pi chi iota
keccak_f1600 a = foldl (λ lanes rc. iota rc (chi (rho_pi (theta lanes)))) a round_constants
