-- ===== src/Mldsa/Encode.antt =====
-- macula-mldsa/src/encode.rs: packing values of a fixed number of bits. What the source writes into a
-- caller's buffer, left to right, is the list of the bytes written.
pub mod Pack
pub mod Unpack
pub mod Range
pub mod Total
pub mod Hint
pub mod HintUnpack
pub mod HintMasked
pub mod HintPacked
pub mod HintRoundTrip
use macula_pq.Common.{
  ℕ, zero, suc, ◌+◌, ◌-◌, ◌*◌, ◌^◌, bit_and, bit_or, ltb, leb, if◌then◌else◌, List, [], ◌∷◌, ◌++◌,
  map,
}
use macula_pq.Common.Outcome.{Outcome, ok, panic, ◌>>=◌}
use macula_pq.Common.Word.{u8, u32, shl64, shr, sub32}
use macula_pq.Mldsa.Field.{n, sub, from_signed}
use macula_pq.Mldsa.Params.{Error}

abbrev pub Fallible : Type 0 → Type 0
Fallible A = Outcome Error A

-- The accumulator and the number of its bits in use.
pub record Held : Type 0 where
  pub acc : ℕ
  pub held : ℕ

-- `while held >= 8`: the bytes written. A round takes 8 bits, so `held` rounds are enough.
unfoldable pub drain : ℕ → Held → List ℕ × Held
drain zero s = ([], s)
drain (suc fuel) s =
    let rest = drain fuel (record { acc = shr s.acc 8; held = s.held - 8 }) in
    if leb 8 s.held then (u8 s.acc ∷ rest.0, rest.1) else ([], s)

-- `acc |= value << held; held += bits`.
unfoldable pub take_value : ℕ → ℕ → Held → Held
take_value bits v s = record { acc = bit_or s.acc (shl64 v s.held); held = s.held + bits }

unfoldable pub pack_loop : ℕ → List ℕ → Held → List ℕ
unfolding drain take_value
pack_loop bits [] s = []
pack_loop bits (v ∷ vs) s =
    let (bytes, s') = drain (s.held + bits) (take_value bits v s) in bytes ++ pack_loop bits vs s'

unfoldable pub pack : List ℕ → ℕ → List ℕ
unfolding pack_loop
pack values bits = pack_loop bits values (record { acc = 0; held = 0 })

unfoldable pub simple_bit_pack : List ℕ → ℕ → List ℕ
unfolding pack
simple_bit_pack w bits = pack w bits

unfoldable pub bit_pack : List ℕ → ℕ → ℕ → List ℕ
unfolding pack
bit_pack w b bits = pack (map (λ c. sub b c) w) bits

-- `while held < bits`: `expect` panics when the bytes run out.
unfoldable pub fill : ℕ → ℕ → List ℕ → Held → Fallible (List ℕ × Held)
fill zero bits bytes s = ok (bytes, s)
fill (suc fuel) bits [] s = if ltb s.held bits then panic else ok ([], s)
fill (suc fuel) bits (b ∷ bytes) s =
    let rest =
      fill fuel bits bytes (record { acc = bit_or s.acc (shl64 b s.held); held = s.held + 8 }) in
    if ltb s.held bits then rest else ok (b ∷ bytes, s)

unfoldable pub unpack_loop : ℕ → ℕ → List ℕ → Held → Fallible (List ℕ)
unfolding fill
unpack_loop zero bits bytes s = ok []
unpack_loop (suc left) bits bytes s = do
  (bytes', s') ← fill bits bits bytes s
  rest ← unpack_loop left bits bytes' (record { acc = shr s'.acc bits; held = s'.held - bits })
  ok (u32 (bit_and s'.acc (2 ^ bits - 1)) ∷ rest)

unfoldable pub unpack : List ℕ → ℕ → Fallible (List ℕ)
unfolding unpack_loop
unpack v bits = unpack_loop n bits v (record { acc = 0; held = 0 })

unfoldable pub simple_bit_unpack : List ℕ → ℕ → Fallible (List ℕ)
unfolding unpack
simple_bit_unpack v bits = unpack v bits

unfoldable pub bit_unpack : List ℕ → ℕ → ℕ → Fallible (List ℕ)
unfolding unpack
bit_unpack v b bits = do xs ← unpack v bits; ok (map (λ x. from_signed (sub32 b x)) xs)
