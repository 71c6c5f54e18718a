-- ===== src/Keccak/Sponge/Tests.antt =====
-- Known answers for the hash functions, from FIPS 202, and runs of the sponge.
use macula_pq.Common.{◌+◌, ◌≡◌, refl, arith, [], take, ◌∷◌, ◌++◌, foldl, replicate}
use macula_pq.Keccak.Sponge.{
  sha3_256, new, update, read, from_absorbed, finalize_xof, shake256, shake256_new, shake256_update,
  shake256_read,
}
use macula_pq.Keccak.Sponge.Absorbing.{update-bytes, update-append, new-IsReady, absorb_byte}
use macula_pq.Keccak.Sponge.Squeezing.{
  read-add, read-bytes, squeeze_bytes, from_absorbed-IsReadable,
}
use macula_pq.Keccak.Sponge.Streams.{shake256_pieces}
use macula_pq.Keccak.Permutation.{keccak_f1600}

sha3_256_empty : take 4 (sha3_256 []) ≡ 0xa7 ∷ 0xff ∷ 0xc6 ∷ 0xf8 ∷ []
unfolding sha3_256 keccak_f1600
sha3_256_empty = refl

-- Shorter than the suite of SHAKE256, with a rate that three bytes fill.
update-bytes_example :
    update 3 (new 3) (1 ∷ 2 ∷ 3 ∷ 4 ∷ []) ≡ foldl (absorb_byte 3) (new 3) (1 ∷ 2 ∷ 3 ∷ 4 ∷ [])
update-bytes_example = update-bytes 3 (1 ∷ 2 ∷ 3 ∷ 4 ∷ []) (new 3) (new-IsReady 3 (omega arith))

update-append_example :
    update 3 (update 3 (new 3) (1 ∷ 2 ∷ [])) (3 ∷ 4 ∷ [])
    ≡ update 3 (new 3) ((1 ∷ 2 ∷ []) ++ (3 ∷ 4 ∷ []))
update-append_example =
    update-append 3 (new 3) (1 ∷ 2 ∷ []) (3 ∷ 4 ∷ []) (new-IsReady 3 (omega arith))

read-bytes_example :
    read 3 (from_absorbed 3 (replicate 25 1)) 7
    ≡ squeeze_bytes 3 7 (from_absorbed 3 (replicate 25 1))
read-bytes_example =
    read-bytes 3 7 (from_absorbed 3 (replicate 25 1)) (omega arith)
      (from_absorbed-IsReadable 3 (replicate 25 1))

read-add_example : read 3 (from_absorbed 3 (replicate 25 1)) (2 + 5) ≡ (
    let (front, s') = read 3 (from_absorbed 3 (replicate 25 1)) 2 in
    let (back, s'') = read 3 s' 5 in (front ++ back, s''))
read-add_example =
    read-add 3 2 5 (from_absorbed 3 (replicate 25 1)) (omega arith)
      (from_absorbed-IsReadable 3 (replicate 25 1))

shake256_pieces_example :
    (shake256_read
      (finalize_xof (shake256_update (shake256_update shake256_new (1 ∷ [])) (2 ∷ [])))
      40).0
    ≡ shake256 ((1 ∷ []) ++ (2 ∷ [])) 40
shake256_pieces_example = shake256_pieces (1 ∷ []) (2 ∷ []) 40
