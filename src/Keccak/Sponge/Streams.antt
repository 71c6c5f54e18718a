-- ===== src/Keccak/Sponge/Streams.antt =====
-- The hash functions as byte streams: pieces in, pieces out, and the lengths they promise.
use macula_pq.Common.{ℕ, ◌<◌, ◌≡◌, ap, arith, List, ◌++◌, length}
use macula_pq.Common.Word.{IsBytes}
use macula_pq.Keccak.Sponge.{
  Absorb, new, sponge, sha3_256, sha3_512, shake256, shake256_new, shake256_update, finalize_xof,
  shake256_read, shake256_rate, shake_pad, finish, from_absorbed,
}
use macula_pq.Keccak.Sponge.Absorbing.{update-append, new-IsReady}
use macula_pq.Keccak.Sponge.Squeezing.{read-IsReadable, from_absorbed-IsReadable}

sponge-IsBytes :
    (rate : ℕ) (msg : List ℕ) (pad len : ℕ)
    → 0 < rate
    → (length (sponge rate msg pad len) ≡ len) × IsBytes (sponge rate msg pad len)
unfolding sponge
sponge-IsBytes rate msg pad len pos =
    let out = read-IsReadable rate len _ pos (from_absorbed-IsReadable rate _) in (out.1, out.2)

pub sha3_256-IsBytes : (msg : List ℕ) → (length (sha3_256 msg) ≡ 32) × IsBytes (sha3_256 msg)
unfolding sha3_256
sha3_256-IsBytes msg = sponge-IsBytes 136 msg 6 32 (omega arith)

pub sha3_512-IsBytes : (msg : List ℕ) → (length (sha3_512 msg) ≡ 64) × IsBytes (sha3_512 msg)
unfolding sha3_512
sha3_512-IsBytes msg = sponge-IsBytes 72 msg 6 64 (omega arith)

pub shake256-IsBytes :
    (msg : List ℕ) (n : ℕ) → (length (shake256 msg n) ≡ n) × IsBytes (shake256 msg n)
unfolding shake256
shake256-IsBytes msg n = sponge-IsBytes 136 msg 31 n (omega arith)

-- SHAKE256 that absorbs two pieces one after the other, of any lengths, and then squeezes `n`
-- bytes, returns what the one-shot function returns for their concatenation.
pub shake256_pieces :
    (xs ys : List ℕ) (n : ℕ)
    → (shake256_read (finalize_xof (shake256_update (shake256_update shake256_new xs) ys)) n).0
      ≡ shake256 (xs ++ ys) n
unfolding shake256_read finalize_xof shake256_update shake256_new shake256 sponge
shake256_pieces xs ys n =
    ap (λ a. (shake256_read (from_absorbed shake256_rate (finish shake256_rate a shake_pad)) n).0)
      (update-append shake256_rate (new shake256_rate) xs ys
        (new-IsReady shake256_rate (omega arith)))

pub finalize_xof-IsBytes :
    (h : Absorb) (n : ℕ)
    → (length (shake256_read (finalize_xof h) n).0 ≡ n)
      × IsBytes (shake256_read (finalize_xof h) n).0
unfolding shake256_read finalize_xof
finalize_xof-IsBytes h n =
    let out =
      read-IsReadable shake256_rate n _ (omega arith) (from_absorbed-IsReadable shake256_rate _) in
    (out.1, out.2)
