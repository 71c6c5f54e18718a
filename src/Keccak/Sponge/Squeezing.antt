-- ===== src/Keccak/Sponge/Squeezing.antt =====
-- The squeezing half: the blockwise loop of `read` against one byte at a time.
use macula_pq.Common.{ℕ, zero, suc, ◌+◌, ◌-◌, ◌≤◌, ◌<◌, min, arith}
use macula_pq.Common.{List, [], ◌∷◌, ◌++◌, length, get_or, take, drop}
use macula_pq.Common.{◌≡◌, refl, sym, ap, ap₂, ◌∙◌, length-append, length-take}
use macula_pq.Common.{All-take, All-append, All-get_or, Bool-cases, inl, inr, ◌==◌, ◌/◌}
use macula_pq.Common.Word.{IsByte, IsBytes}
use macula_pq.Keccak.Permutation.{at, keccak_f1600}
use macula_pq.Keccak.Sponge.{
  Squeeze, squeeze_chunks, squeeze_block, to_le_bytes, refill_if_empty, hand_out, read_loop, read,
  from_absorbed,
}

pub length-to_le_bytes : (n x : ℕ) → length (to_le_bytes n x) ≡ n
unfolding to_le_bytes
length-to_le_bytes zero x = refl
length-to_le_bytes (suc n) x = ap suc (length-to_le_bytes n _)

length-squeeze_chunks :
    (fuel i left : ℕ) (state : List ℕ)
    → left ≤ fuel
    → length (squeeze_chunks fuel i left state) ≡ left
unfolding squeeze_chunks
length-squeeze_chunks zero i left state h = omega arith
length-squeeze_chunks (suc fuel) i left state h = ground (
  arith,
  length-append (take (min 8 left) (to_le_bytes 8 (at state i)))
      (squeeze_chunks fuel (i + 1) (left - min 8 left) state),
  length-take (min 8 left) (to_le_bytes 8 (at state i)),
  length-to_le_bytes 8 (at state i),
  length-squeeze_chunks fuel (i + 1) (left - min 8 left) state,
)

pub length-squeeze_block : (rate : ℕ) (state : List ℕ) → length (squeeze_block rate state) ≡ rate
unfolding squeeze_block
length-squeeze_block rate state = length-squeeze_chunks rate 0 rate state (omega arith)

to_le_bytes-IsBytes : (n x : ℕ) → IsBytes (to_le_bytes n x)
unfolding to_le_bytes
to_le_bytes-IsBytes zero x = tt
to_le_bytes-IsBytes (suc n) x = (omega arith, to_le_bytes-IsBytes n (x / 256))

squeeze_chunks-IsBytes :
    (fuel i left : ℕ) (state : List ℕ) → IsBytes (squeeze_chunks fuel i left state)
unfolding squeeze_chunks
squeeze_chunks-IsBytes zero i left state = tt
squeeze_chunks-IsBytes (suc fuel) i left state =
    let chunk = All-take IsByte (min 8 left) _ (to_le_bytes-IsBytes 8 (at state i)) in
    let rest = squeeze_chunks-IsBytes fuel (i + 1) (left - min 8 left) state in
    elim (Bool-cases (left == 0)) [
      | inl e ↦ rw e tt
      | inr e ↦ rw e (All-append IsByte _ _ chunk rest)
    ]

squeeze_block-IsBytes : (rate : ℕ) (state : List ℕ) → IsBytes (squeeze_block rate state)
unfolding squeeze_block
squeeze_block-IsBytes rate state = squeeze_chunks-IsBytes rate 0 rate state

-- Bytes handed out lie within the buffer, and the buffer is of the rate's length.
pub record IsReadable (rate : ℕ) (s : Squeeze) : Type 0 where
  pub within : s.used ≤ rate
  pub size : length s.buf ≡ rate
  pub bytes : IsBytes s.buf

take-drop-suc :
    (n i : ℕ) (xs : List ℕ)
    → i < length xs
    → take (suc n) (drop i xs) ≡ get_or xs i 0 ∷ take n (drop (i + 1) xs)
take-drop-suc n i [] h = absurd (omega arith)
take-drop-suc n zero (x ∷ xs) h = refl
take-drop-suc n (suc i) (x ∷ xs) h =
    let e : suc i + 1 ≡ suc (i + 1) = omega arith in rw e (take-drop-suc n i xs (omega arith))

abbrev pair {ℓ κ} : {A : Type ℓ} {B : Type κ} → A → B → A × B
pair a b = (a, b)

abbrev joined : List ℕ → List ℕ × Squeeze → List ℕ × Squeeze
joined front t = (front ++ t.0, t.1)

module _ (rate : ℕ) where
  -- One byte at a time: the abstract view of squeezing.
  unfoldable pub squeeze_bytes : ℕ → Squeeze → List ℕ × Squeeze
  squeeze_bytes zero s = ([], s)
  squeeze_bytes (suc n) s =
      let r = refill_if_empty rate s in
      let (rest, s') = squeeze_bytes n (hand_out rate r 1) in (at r.buf r.used ∷ rest, s')

  refill-IsReadable :
      (s : Squeeze)
      → 0 < rate
      → IsReadable rate s
      → IsReadable rate (refill_if_empty rate s) × ((refill_if_empty rate s).used < rate)
  unfolding refill_if_empty
  refill-IsReadable s pos r = elim (Bool-cases (s.used == rate)) [
    | inl e ↦ rw e (
      record {
        within = omega arith;
        size = length-squeeze_block rate (keccak_f1600 s.state);
        bytes = squeeze_block-IsBytes rate (keccak_f1600 s.state);
      },
      pos,
    )
    | inr e ↦ rw e (r, ground arith)
  ]

  refill_held : (s : Squeeze) → s.used < rate → refill_if_empty rate s ≡ s
  unfolding refill_if_empty
  refill_held s h = ground arith

  hand_out_twice :
      (s : Squeeze) (m n : ℕ) → hand_out rate (hand_out rate s m) n ≡ hand_out rate s (m + n)
  unfolding hand_out
  hand_out_twice s m n = ground arith

  hand_out_zero : (s : Squeeze) → hand_out rate s 0 ≡ s
  unfolding hand_out
  hand_out_zero s = ground arith

  -- `n` bytes that the buffer still holds.
  squeeze_chunk :
      (n : ℕ) (s : Squeeze)
      → s.used + n ≤ rate
      → length s.buf ≡ rate
      → squeeze_bytes n s ≡ (take n (drop s.used s.buf), hand_out rate s n)
  unfolding squeeze_bytes hand_out
  squeeze_chunk zero s h size = ap (λ t. ([], t)) (sym (hand_out_zero s))
  squeeze_chunk (suc n) s h size =
      let ih = squeeze_chunk n (hand_out rate s 1) (omega arith) size in
      rw (refill_held s (omega arith), squeeze_bytes, ih)
        (ap₂ pair (sym (take-drop-suc n s.used s.buf (omega arith)))
          (hand_out_twice s 1 n ∙ ap (hand_out rate s) (omega arith)))

  squeeze_bytes-refill :
      (n : ℕ) (s : Squeeze)
      → 0 < n
      → 0 < rate
      → IsReadable rate s
      → squeeze_bytes n (refill_if_empty rate s) ≡ squeeze_bytes n s
  unfolding squeeze_bytes
  squeeze_bytes-refill zero s h pos r = absurd (omega arith)
  squeeze_bytes-refill (suc n) s h pos r =
      rw (refill_held (refill_if_empty rate s) (refill-IsReadable s pos r).1)

  -- Reading `m` bytes and then `n` is reading `m + n`.
  pub squeeze_bytes-add :
      (m n : ℕ) (s : Squeeze)
      → squeeze_bytes (m + n) s ≡ (
          let (front, s') = squeeze_bytes m s in
          let (back, s'') = squeeze_bytes n s' in (front ++ back, s''))
  unfolding squeeze_bytes
  squeeze_bytes-add zero n s = ap (λ k. squeeze_bytes k s) (omega arith)
  squeeze_bytes-add (suc m) n s =
      let r = hand_out rate (refill_if_empty rate s) 1 in
      let first = at (refill_if_empty rate s).buf (refill_if_empty rate s).used in
      let e : suc m + n ≡ suc (m + n) = omega arith in
      rw e (ap (λ (t : List ℕ × Squeeze). (first ∷ t.0, t.1)) (squeeze_bytes-add m n r))

  read_loop-bytes :
      (fuel left : ℕ) (s : Squeeze)
      → left ≤ fuel
      → 0 < rate
      → IsReadable rate s
      → read_loop rate fuel left s ≡ squeeze_bytes left s
  unfolding read_loop
  read_loop-bytes fuel zero s h pos r = unfold squeeze_bytes in refl
  read_loop-bytes zero (suc left) s h pos r = absurd (omega arith)
  read_loop-bytes (suc fuel) (suc left) s h pos r =
      let q = refill_if_empty rate s in
      let (held, room) = refill-IsReadable s pos r in
      let n = min (rate - q.used) (suc left) in
      let k = suc left - n in
      let next : IsReadable rate (hand_out rate q n) =
        unfold hand_out in
        record { within = omega (arith, room); size = held.size; bytes = held.bytes } in
      let all : n + k ≡ suc left = omega arith in
      let ih = read_loop-bytes fuel k (hand_out rate q n) (omega (arith, room)) pos next in
      let chunk = squeeze_chunk n q (omega (arith, room)) held.size in
      let split : squeeze_bytes (n + k) q
          ≡ joined (take n (drop q.used q.buf)) (squeeze_bytes k (hand_out rate q n)) =
        squeeze_bytes-add n k q
        ∙ ap (λ (t : List ℕ × Squeeze). joined t.0 (squeeze_bytes k t.1)) chunk in
      ap (joined (take n (drop q.used q.buf))) ih
      ∙ sym split
      ∙ ap (λ j. squeeze_bytes j q) all
      ∙ squeeze_bytes-refill (suc left) s (omega arith) pos r

  -- At a positive rate, and from a squeezing state whose buffer is a block of bytes and is used
  -- up to its end at most, reading in chunks hands out the bytes, and ends in the state, of
  -- reading one byte at a time.
  pub read-bytes :
      (n : ℕ) (s : Squeeze) → 0 < rate → IsReadable rate s → read rate s n ≡ squeeze_bytes n s
  unfolding read
  read-bytes n s pos r = read_loop-bytes n n s (omega arith) pos r

  squeeze_bytes-IsReadable :
      (n : ℕ) (s : Squeeze)
      → 0 < rate
      → IsReadable rate s
      → IsReadable rate (squeeze_bytes n s).1
        × (length (squeeze_bytes n s).0 ≡ n)
        × IsBytes (squeeze_bytes n s).0
  unfolding squeeze_bytes hand_out
  squeeze_bytes-IsReadable zero s pos r = (r, refl, tt)
  squeeze_bytes-IsReadable (suc n) s pos r =
      let (held, room) = refill-IsReadable s pos r in
      let next : IsReadable rate (hand_out rate (refill_if_empty rate s) 1) = record {
        within = omega arith;
        size = held.size;
        bytes = held.bytes;
      } in
      let (rest, len, bytes) = squeeze_bytes-IsReadable n _ pos next in
      let used = (refill_if_empty rate s).used in
      (rest, ap suc len, (All-get_or IsByte _ used 0 (omega arith) held.bytes, bytes))

  pub read-IsReadable :
      (n : ℕ) (s : Squeeze)
      → 0 < rate
      → IsReadable rate s
      → IsReadable rate (read rate s n).1
        × (length (read rate s n).0 ≡ n)
        × IsBytes (read rate s n).0
  read-IsReadable n s pos r = rw (read-bytes n s pos r) (squeeze_bytes-IsReadable n s pos r)

  pub from_absorbed-IsReadable : (state : List ℕ) → IsReadable rate (from_absorbed rate state)
  unfolding from_absorbed
  from_absorbed-IsReadable state = record {
    within = omega arith;
    size = length-squeeze_block rate state;
    bytes = squeeze_block-IsBytes rate state;
  }

  -- At a positive rate, and from a squeezing state whose buffer is a block of bytes and is used
  -- up to its end at most, reading `m` bytes and then `n` hands out the bytes of one read of `m +
  -- n` and ends in the same state.
  pub read-add :
      (m n : ℕ) (s : Squeeze)
      → 0 < rate
      → IsReadable rate s
      → read rate s (m + n) ≡ (
          let (front, s') = read rate s m in
          let (back, s'') = read rate s' n in (front ++ back, s''))
  read-add m n s pos r =
      let after = (read-IsReadable m s pos r).0 in
      rw
        (read-bytes n (read rate s m).1 pos after, read-bytes m s pos r, read-bytes (m + n) s pos r)
        (squeeze_bytes-add m n s)
