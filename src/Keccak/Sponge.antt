-- ===== src/Keccak/Sponge.antt =====
-- macula-keccak/src/lib.rs: the two halves of the sponge, `Absorb` and `Squeeze`, generic over the
-- rate, and the hash functions on top. Wiping on drop has no counterpart in a model of values.
mod Tests
pub mod Absorbing
pub mod Squeezing
pub mod Streams
use macula_pq.Common.{ℕ, zero, suc, ◌+◌, ◌-◌, ◌*◌, ◌/◌, ◌%◌, min, bit_xor, ◌==◌, if◌then◌else◌}
use macula_pq.Common.{List, [], ◌∷◌, ◌++◌, foldl, length, get_or, set, take, drop, replicate}
use macula_pq.Keccak.Permutation.{keccak_f1600, at}

abbrev pub sha3_256_rate : ℕ
sha3_256_rate = 136

abbrev pub sha3_512_rate : ℕ
sha3_512_rate = 72

abbrev pub shake128_rate : ℕ
shake128_rate = 168

abbrev pub shake256_rate : ℕ
shake256_rate = 136

abbrev pub sha3_pad : ℕ
sha3_pad = 0x06

abbrev pub shake_pad : ℕ
shake_pad = 0x1f

-- `u64::from_le_bytes` and `to_le_bytes`.
unfoldable pub from_le_bytes : List ℕ → ℕ
from_le_bytes [] = 0
from_le_bytes (b ∷ bs) = b + 256 * from_le_bytes bs

unfoldable pub to_le_bytes : ℕ → ℕ → List ℕ
to_le_bytes zero x = []
to_le_bytes (suc n) x = x % 256 ∷ to_le_bytes n (x / 256)

-- The whole words of a block, `as_chunks::<8>().0`: a partial word at the end is left out.
unfoldable pub words : List ℕ → List (List ℕ)
words (a ∷ b ∷ c ∷ d ∷ e ∷ f ∷ g ∷ h ∷ rest) = (a ∷ b ∷ c ∷ d ∷ e ∷ f ∷ g ∷ h ∷ []) ∷ words rest
words _ = []

unfoldable pub xor_words : ℕ → List (List ℕ) → List ℕ → List ℕ
xor_words i [] state = state
xor_words i (w ∷ ws) state =
    xor_words (i + 1) ws (set state i (bit_xor (at state i) (from_le_bytes w)))

unfoldable pub xor_block : List ℕ → List ℕ → List ℕ
unfolding xor_words words from_le_bytes
xor_block state block = xor_words 0 (words block) state

-- `out` in chunks of 8 bytes, the last one shorter if need be; `left` bytes are to be written.
unfoldable pub squeeze_chunks : ℕ → ℕ → ℕ → List ℕ → List ℕ
squeeze_chunks zero i left state = []
squeeze_chunks (suc fuel) i left state =
    let n = min 8 left in
    let rest = squeeze_chunks fuel (i + 1) (left - n) state in
    if left == 0 then [] else take n (to_le_bytes 8 (at state i)) ++ rest

-- Each chunk holds a byte at least, so as many rounds as bytes are enough.
unfoldable pub squeeze_block : ℕ → List ℕ → List ℕ
unfolding squeeze_chunks to_le_bytes
squeeze_block rate state = squeeze_chunks rate 0 rate state

-- `dst[at..at + src.len()].copy_from_slice(src)`.
unfoldable pub copy_at : List ℕ → ℕ → List ℕ → List ℕ
copy_at dst i [] = dst
copy_at dst i (b ∷ bs) = copy_at (set dst i b) (i + 1) bs

pub record Absorb : Type 0 where
  pub state : List ℕ
  pub block : List ℕ
  pub filled : ℕ

pub record Squeeze : Type 0 where
  pub state : List ℕ
  pub buf : List ℕ
  pub used : ℕ

-- The const parameter RATE of the source.
module _ (rate : ℕ) where
  unfoldable pub new : Absorb
  new = record { state = replicate 25 0; block = replicate rate 0; filled = 0 }

  -- A full block is XORed in and permuted at once.
  unfoldable pub flush_if_full : Absorb → Absorb
  unfolding xor_block
  flush_if_full a =
      if a.filled == rate
      then record a { state = keccak_f1600 (xor_block a.state a.block); filled = 0 }
      else a

  unfoldable pub take_piece : Absorb → List ℕ → ℕ → Absorb
  unfolding copy_at
  take_piece a piece n = record a {
    block = copy_at a.block a.filled (take n piece);
    filled = a.filled + n;
  }

  unfoldable pub update_loop : ℕ → List ℕ → Absorb → Absorb
  unfolding take_piece flush_if_full
  update_loop fuel [] a = a
  update_loop zero (b ∷ bs) a = a
  update_loop (suc fuel) (b ∷ bs) a =
      let n = min (rate - a.filled) (length (b ∷ bs)) in
      update_loop fuel (drop n (b ∷ bs)) (flush_if_full (take_piece a (b ∷ bs) n))

  -- Between calls `filled` is below the rate, so each round takes a byte at least.
  unfoldable pub update : Absorb → List ℕ → Absorb
  unfolding update_loop
  update a piece = update_loop (length piece) piece a

  -- The pad10*1 rule with the domain separation suffix.
  unfoldable pub padded_block : Absorb → ℕ → List ℕ
  unfolding copy_at
  padded_block a pad =
      let zeroed = copy_at a.block a.filled (replicate (rate - a.filled) 0) in
      let suffixed = set zeroed a.filled (bit_xor (at zeroed a.filled) pad) in
      set suffixed (rate - 1) (bit_xor (at suffixed (rate - 1)) 0x80)

  unfoldable pub finish : Absorb → ℕ → List ℕ
  unfolding padded_block xor_block
  finish a pad = keccak_f1600 (xor_block a.state (padded_block a pad))

  unfoldable pub from_absorbed : List ℕ → Squeeze
  unfolding squeeze_block
  from_absorbed state = record { state = state; buf = squeeze_block rate state; used = 0 }

  unfoldable pub refill_if_empty : Squeeze → Squeeze
  unfolding squeeze_block
  refill_if_empty s =
      if s.used == rate
      then (let state = keccak_f1600 s.state in
          record { state = state; buf = squeeze_block rate state; used = 0 })
      else s

  unfoldable pub hand_out : Squeeze → ℕ → Squeeze
  hand_out s n = record s { used = s.used + n }

  -- The bytes written to `out`, and the reader after them; `left` is `out.len() - done`.
  unfoldable pub read_loop : ℕ → ℕ → Squeeze → List ℕ × Squeeze
  unfolding refill_if_empty hand_out
  read_loop fuel zero s = ([], s)
  read_loop zero (suc left) s = ([], s)
  read_loop (suc fuel) (suc left) s =
      let r = refill_if_empty s in
      let n = min (rate - r.used) (suc left) in
      let (rest, s') = read_loop fuel (suc left - n) (hand_out r n) in
      (take n (drop r.used r.buf) ++ rest, s')

  unfoldable pub read : Squeeze → ℕ → List ℕ × Squeeze
  unfolding read_loop
  read s n = read_loop n n s

  unfoldable pub sponge : List ℕ → ℕ → ℕ → List ℕ
  unfolding new update finish from_absorbed read
  sponge msg pad len = (read (from_absorbed (finish (update new msg) pad)) len).0

-- The four functions; a `&mut [u8]` argument is the number of bytes asked for.
unfoldable pub sha3_256 : List ℕ → List ℕ
unfolding sponge
sha3_256 msg = sponge sha3_256_rate msg sha3_pad 32

unfoldable pub sha3_512 : List ℕ → List ℕ
unfolding sponge
sha3_512 msg = sponge sha3_512_rate msg sha3_pad 64

unfoldable pub shake128 : List ℕ → ℕ → List ℕ
unfolding sponge
shake128 msg len = sponge shake128_rate msg shake_pad len

unfoldable pub shake256 : List ℕ → ℕ → List ℕ
unfolding sponge
shake256 msg len = sponge shake256_rate msg shake_pad len

-- `Shake128Reader::new`, `Shake256::{new, update, finalize_xof}`; both readers read by `read`.
unfoldable pub shake128_reader : List ℕ → Squeeze
unfolding new update finish from_absorbed
shake128_reader msg =
    from_absorbed shake128_rate
      (finish shake128_rate (update shake128_rate (new shake128_rate) msg) shake_pad)

unfoldable pub shake256_new : Absorb
unfolding new
shake256_new = new shake256_rate

unfoldable pub shake256_update : Absorb → List ℕ → Absorb
unfolding update
shake256_update h piece = update shake256_rate h piece

unfoldable pub finalize_xof : Absorb → Squeeze
unfolding finish from_absorbed
finalize_xof h = from_absorbed shake256_rate (finish shake256_rate h shake_pad)

unfoldable pub shake256_read : Squeeze → ℕ → List ℕ × Squeeze
unfolding read
shake256_read s n = read shake256_rate s n
