-- ===== src/Keccak/Sponge/Absorbing.antt =====
-- The absorbing half: the blockwise loop of `update` against absorption byte by byte.
use macula_pq.Common.{ℕ, zero, suc, ◌+◌, ◌-◌, ◌≤◌, ◌<◌, min, arith}
use macula_pq.Common.{List, [], ◌∷◌, ◌++◌, foldl, length, set, take, drop}
use macula_pq.Common.{◌≡◌, refl, sym, ap, ◌∙◌}
use macula_pq.Common.{length-set, length-drop, length-take, take-append-drop, length-replicate}
use macula_pq.Keccak.Sponge.{Absorb, new, flush_if_full, take_piece, update_loop, update, copy_at}

-- Room for a byte at least, in a block of the rate's length.
pub record IsReady (rate : ℕ) (a : Absorb) : Type 0 where
  pub room : a.filled < rate
  pub size : length a.block ≡ rate

pub length-copy_at : (dst : List ℕ) (i : ℕ) (src : List ℕ) → length (copy_at dst i src) ≡ length dst
unfolding copy_at
length-copy_at dst i [] = refl
length-copy_at dst i (b ∷ bs) = length-copy_at (set dst i b) (i + 1) bs ∙ length-set dst i b

foldl-append {ℓ κ} :
    {A : Type ℓ} {B : Type κ} (f : B → A → B) (b : B) (xs ys : List A)
    → foldl f b (xs ++ ys) ≡ foldl f (foldl f b xs) ys
foldl-append f b [] ys = refl
foldl-append f b (x ∷ xs) ys = foldl-append f (f b x) xs ys

module _ (rate : ℕ) where
  -- One byte at a time: the abstract view of absorption.
  unfoldable pub absorb_byte : Absorb → ℕ → Absorb
  absorb_byte a b =
      flush_if_full rate (record a { block = set a.block a.filled b; filled = a.filled + 1 })

  pub flush-IsReady :
      (a : Absorb)
      → a.filled ≤ rate
      → 0 < rate
      → length a.block ≡ rate
      → IsReady rate (flush_if_full rate a)
  unfolding flush_if_full
  flush-IsReady a h pos size = ground arith

  pub absorb_byte-IsReady : (a : Absorb) (b : ℕ) → IsReady rate a → IsReady rate (absorb_byte a b)
  unfolding absorb_byte
  absorb_byte-IsReady a b r =
      flush-IsReady _ (omega arith) (omega arith) (length-set a.block a.filled b ∙ r.size)

  -- The record that a copy of `xs` into the block makes, before any flush.
  abbrev copied : Absorb → List ℕ → ℕ → Absorb
  copied a xs filled = record a { block = copy_at a.block a.filled xs; filled = filled }

  absorb_byte_room :
      (a : Absorb) (x : ℕ)
      → a.filled + 1 < rate
      → absorb_byte a x ≡ record a { block = set a.block a.filled x; filled = a.filled + 1 }
  unfolding absorb_byte flush_if_full
  absorb_byte_room a x h = ground arith

  -- A chunk that leaves room, or fills the block, is copied as its bytes are absorbed.
  absorb_chunk :
      (x : ℕ) (xs : List ℕ) (a : Absorb) (end : ℕ)
      → a.filled + suc (length xs) ≡ end
      → end ≤ rate
      → foldl absorb_byte a (x ∷ xs) ≡ flush_if_full rate (copied a (x ∷ xs) end)
  unfolding copy_at
  absorb_chunk x [] a end e h = unfold absorb_byte in rw (← e)
  absorb_chunk x (y ∷ ys) a end e h =
      rw (absorb_byte_room a x (omega arith)) (absorb_chunk y ys _ end (omega arith) h)

  update_round :
      (piece : List ℕ) (a : Absorb) (n : ℕ)
      → 0 < n
      → n ≤ length piece
      → a.filled + n ≤ rate
      → flush_if_full rate (take_piece rate a piece n) ≡ foldl absorb_byte a (take n piece)
  unfolding take_piece
  update_round [] a n pos h fits = absurd (omega arith)
  update_round (x ∷ xs) a zero pos h fits = absurd (omega arith)
  update_round (x ∷ xs) a (suc n) pos h fits =
      sym (absorb_chunk x (take n xs) a (a.filled + suc n) (omega (arith, length-take n xs)) fits)

  take-IsReady :
      (piece : List ℕ) (a : Absorb) → IsReady rate a → IsReady rate (foldl absorb_byte a piece)
  take-IsReady [] a r = r
  take-IsReady (x ∷ xs) a r = take-IsReady xs (absorb_byte a x) (absorb_byte-IsReady a x r)

  update_loop-bytes :
      (fuel : ℕ) (piece : List ℕ) (a : Absorb)
      → length piece ≤ fuel
      → IsReady rate a
      → update_loop rate fuel piece a ≡ foldl absorb_byte a piece
  unfolding update_loop
  update_loop-bytes fuel [] a h r = refl
  update_loop-bytes zero (x ∷ xs) a h r = absurd (omega arith)
  update_loop-bytes (suc fuel) (x ∷ xs) a h r =
      let n = min (rate - a.filled) (suc (length xs)) in
      let piece : List ℕ = x ∷ xs in
      let fits : length (drop n piece) ≤ fuel = omega (arith, length-drop n piece, r.room) in
      let round =
        update_round piece a n (omega (arith, r.room)) (omega arith) (omega (arith, r.room)) in
      ap (update_loop rate fuel (drop n piece)) round
      ∙ (update_loop-bytes fuel (drop n piece) _ fits (take-IsReady (take n piece) a r)
          ∙ sym (foldl-append absorb_byte a (take n piece) (drop n piece))
          ∙ ap (foldl absorb_byte a) (take-append-drop n piece))

  -- From an absorbing state whose block is of the rate's length and not full, absorbing a piece
  -- in chunks ends in the state of absorbing its bytes one at a time.
  pub update-bytes :
      (piece : List ℕ) (a : Absorb)
      → IsReady rate a
      → update rate a piece ≡ foldl absorb_byte a piece
  unfolding update
  update-bytes piece a r = update_loop-bytes (length piece) piece a (omega arith) r

  pub update-IsReady :
      (piece : List ℕ) (a : Absorb) → IsReady rate a → IsReady rate (update rate a piece)
  update-IsReady piece a r = rw (update-bytes piece a r) (take-IsReady piece a r)

  pub new-IsReady : 0 < rate → IsReady rate (new rate)
  unfolding new
  new-IsReady pos = record { room = pos; size = length-replicate rate 0 }

  -- From an absorbing state whose block is of the rate's length and not full, absorbing one piece
  -- and then another, empty ones included, ends in the state of absorbing their concatenation.
  pub update-append :
      (a : Absorb) (xs ys : List ℕ)
      → IsReady rate a
      → update rate (update rate a xs) ys ≡ update rate a (xs ++ ys)
  update-append a xs ys r =
      rw
        (
          update-bytes ys (update rate a xs) (update-IsReady xs a r),
          update-bytes xs a r,
          update-bytes (xs ++ ys) a r,
        )
        (sym (foldl-append absorb_byte a xs ys))
