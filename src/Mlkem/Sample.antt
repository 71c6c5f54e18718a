-- ===== src/Mlkem/Sample.antt =====
-- macula-mlkem/src/sample.rs: rejection sampling of the public matrix, and the noise.
use macula_pq.Common.{
  ℕ, zero, suc, ◌+◌, ◌*◌, ◌/◌, ◌%◌, bit_and, ltb, ◌==◌, ◌&&◌, if◌then◌else◌, for_range, List, [],
  ◌∷◌, ◌++◌, map, length, get_or, set, replicate, count_from,
}
use macula_pq.Common.Outcome.{Outcome, ok, stuck, assert, ◌>>◌}
use macula_pq.Common.Word.{u16, add32, sub32, shr, asr32}
use macula_pq.Keccak.Sponge.{Squeeze, shake128_reader, shake128_rate, read, shake256}
use macula_pq.Mlkem.Field.{q, n}
use macula_pq.Mlkem.Params.{Error}

abbrev at : List ℕ → ℕ → ℕ
at f i = get_or f i 0

-- The polynomial so far and the number of its coefficients that are filled.
unfoldable pub keep : ℕ → List ℕ × ℕ → List ℕ × ℕ
keep c (f, j) = (set f j (u16 c), j + 1)

-- The two 12-bit candidates in three bytes.
unfoldable pub take_three : List ℕ → List ℕ × ℕ → List ℕ × ℕ
unfolding keep
take_three buf s =
    let d1 = at buf 0 + 256 * (at buf 1 % 16) in
    let d2 = at buf 1 / 16 + 16 * at buf 2 in
    let s' = (if ltb d1 q then keep d1 s else s) in
    if ltb d2 q && ltb s'.1 n then keep d2 s' else s'

-- How many reads are needed depends on the stream: on fuel, `stuck` when it runs out.
unfoldable pub sample_loop : ℕ → Squeeze → List ℕ × ℕ → Outcome Error (List ℕ)
unfolding take_three
sample_loop zero xof s = if ltb s.1 n then stuck else ok s.0
sample_loop (suc fuel) xof s =
    let rest =
      (let (buf, xof') = read shake128_rate xof 3 in sample_loop fuel xof' (take_three buf s)) in
    if ltb s.1 n then rest else ok s.0

unfoldable pub sample_ntt : ℕ → List ℕ → Outcome Error (List ℕ)
unfolding sample_loop
sample_ntt fuel seed = sample_loop fuel (shake128_reader seed) (replicate n 0, 0)

-- The closure `bit`: in range, since the buffer holds `64 * eta` bytes.
abbrev bit_of : List ℕ → ℕ → ℕ
bit_of bytes i = bit_and (shr (at bytes (i / 8)) (i % 8)) 1

unfoldable pub cbd_coeff : ℕ → List ℕ → ℕ → ℕ
unfolding for_range
cbd_coeff eta bytes i =
    let base = 2 * i * eta in
    let x = for_range eta 0 (λ k s. add32 s (bit_of bytes (base + k))) 0 in
    let y = for_range eta 0 (λ k s. add32 s (bit_of bytes (base + eta + k))) 0 in
    let v = sub32 x y in u16 (add32 v (bit_and (asr32 v 31) q))

unfoldable pub sample_poly_cbd : ℕ → List ℕ → Outcome Error (List ℕ)
unfolding cbd_coeff
sample_poly_cbd eta bytes = do
  assert (length bytes == 64 * eta)
  ok (map (cbd_coeff eta bytes) (count_from 0 n))

unfoldable pub prf : ℕ → List ℕ → ℕ → List ℕ
prf eta s b = shake256 (s ++ b ∷ []) (64 * eta)
