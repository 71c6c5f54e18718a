-- ===== src/Mldsa/Verify/Decoded.antt =====
-- Any bytes of the standard's lengths decode, as a public key and as a signature, without a panic.
use macula_pq.Common.{
  ℕ, zero, suc, ◌+◌, ◌-◌, ◌*◌, ◌/◌, ◌≤◌, ◌<◌, ◌≡◌, refl, ap, ◌∙◌, arith, Option, none, some, List,
  [], ◌∷◌, length, All, take, drop, chunk_list, chunks_exact, All-take, All-drop, length-take,
  length-drop, take_all,
}
use macula_pq.Common.Outcome.{ok, slice_ok, map_outcome}
use macula_pq.Common.Word.{IsByte, IsBytes}
use macula_pq.Mldsa.Field.{q}
use macula_pq.Mldsa.Params.{ParameterSet, Error, z_bits, public_key_len, signature_len}
use macula_pq.Mldsa.Encode.{simple_bit_unpack}
use macula_pq.Mldsa.Encode.Total.{unpack_total}
use macula_pq.Mldsa.Encode.HintUnpack.{hint_bit_unpack}
use macula_pq.Mldsa.Keys.{
  Polys, Signature, t1_bits, pk_decode, sig_decode, signature_of, unpack_polys,
}
use macula_pq.Mldsa.Keys.PublicKey.{IsT1}
use macula_pq.Mldsa.Keys.Vectors.{IsVector, unpack_polys_total}

-- A chunk that holds a polynomial of t1.
abbrev IsChunk : List ℕ → Type 0
IsChunk v = IsBytes v × (length v ≡ 320)

chunk_list-IsChunk :
    (left : ℕ) (xs : List ℕ)
    → IsBytes xs
    → left * 320 ≤ length xs
    → (length (chunk_list left 320 xs) ≡ left) × All IsChunk (chunk_list left 320 xs)
chunk_list-IsChunk zero xs fit h = (refl, tt)
chunk_list-IsChunk (suc left) xs fit h =
    let (len, all) =
      chunk_list-IsChunk left (drop 320 xs) (All-drop IsByte 320 xs fit)
        (omega (arith, length-drop 320 xs)) in
    (ap suc len, ((All-take IsByte 320 xs fit, omega (arith, length-take 320 xs)), all))

unpack_chunks :
    (vs : List (List ℕ))
    → All IsChunk vs
    → (ws : Polys) × (map_outcome {E = Error} (λ v. simple_bit_unpack v t1_bits) vs ≡ ok ws)
      × (length ws ≡ length vs)
      × All IsT1 ws
unfolding map_outcome simple_bit_unpack
unpack_chunks [] h = ([], refl, refl, tt)
unpack_chunks (v ∷ vs) ((fit, len), h) =
    let (w, e, size, below) = unpack_total 10 v (omega arith) fit len in
    let (ws, e', len', all) = unpack_chunks vs h in
    (w ∷ ws, rw (e, e') refl, ap suc len', ((size, below), all))

pk_decode_of :
    (pk : List ℕ) (p : ParameterSet) (t1 : Polys)
    → length pk ≡ 32 + 32 * p.k * 10
    → map_outcome {E = Error}
        (λ v. simple_bit_unpack v t1_bits)
        (take p.k (chunks_exact 320 (drop 32 pk)))
      ≡ ok t1
    → pk_decode pk p ≡ ok (take 32 pk, t1)
unfolding pk_decode
pk_decode_of pk p t1 len e =
    let cut : take (length pk - 32) (drop 32 pk) ≡ drop 32 pk =
      take_all (length pk - 32) (drop 32 pk) (omega (arith, length-drop 32 pk)) in
    rw
      (
        slice_ok {E = Error} pk 0 32 (omega arith) (omega (arith, len)),
        slice_ok {E = Error} pk 32 (length pk) (omega (arith, len)) (omega arith),
        cut,
        e,
      )
      refl

pub pk_decode_total :
    (pk : List ℕ) (p : ParameterSet)
    → IsBytes pk
    → length pk ≡ public_key_len p
    → (t1 : Polys) × (pk_decode pk p ≡ ok (take 32 pk, t1)) × (length t1 ≡ p.k) × All IsT1 t1
unfolding chunks_exact
pk_decode_total pk p fit len =
    let body = drop 32 pk in
    let size : length body ≡ 320 * p.k = omega (arith, length-drop 32 pk, len) in
    let count : length body / 320 ≡ p.k = omega (arith, size) in
    let (count', chunks) =
      chunk_list-IsChunk p.k body (All-drop IsByte 32 pk fit) (omega (arith, size)) in
    let (t1, e, len', all) = unpack_chunks (chunk_list p.k 320 body) chunks in
    let whole : take p.k (chunk_list p.k 320 body) ≡ chunk_list p.k 320 body =
      take_all p.k (chunk_list p.k 320 body) (omega (arith, count')) in
    (
      t1,
      pk_decode_of pk p t1 len (
          ap
            (λ c.
              map_outcome {E = Error} (λ v. simple_bit_unpack v t1_bits)
                (take p.k (chunk_list c 320 body)))
            count
          ∙ ap (map_outcome (λ v. simple_bit_unpack v t1_bits)) whole
          ∙ e),
      len' ∙ count',
      all,
    )

sig_decode_of :
    (sig : List ℕ) (p : ParameterSet) (z : Polys)
    → length sig ≡ signature_len p
    → unpack_polys p.l (p.lambda / 4) sig p.gamma1 (z_bits p) ≡ ok z
    → (hint : List ℕ) × (c_tilde : List ℕ) × (sig_decode sig p
        ≡ ok (signature_of c_tilde z (hint_bit_unpack hint p)))
      × (c_tilde ≡ take (p.lambda / 4) sig)
unfolding sig_decode
sig_decode_of sig p z len e =
    let off = p.lambda / 4 + p.l * 32 * z_bits p in
    (
      take (length sig - off) (drop off sig),
      take (p.lambda / 4 - 0) (drop 0 sig),
      rw
          (
            e,
            slice_ok {E = Error} sig off (length sig) (omega (arith, len)) (omega arith),
            slice_ok {E = Error} sig 0 (p.lambda / 4) (omega arith) (omega (arith, len)),
          )
          refl,
      ap (λ count. take count sig) (omega arith),
    )

-- A response in range, and the commitment in front, of a signature that has a well-formed hint.
abbrev pub HasResponse : ParameterSet → List ℕ → Option Signature → Type 0
HasResponse p sig none = Unit
HasResponse p sig (some s) =
    IsVector p.l p.gamma1 (z_bits p) s.z × (s.c_tilde ≡ take (p.lambda / 4) sig)

pub sig_decode_total :
    (sig : List ℕ) (p : ParameterSet)
    → p.gamma1 < q
    → IsBytes sig
    → length sig ≡ signature_len p
    → (o : Option Signature) × (sig_decode sig p ≡ ok o) × HasResponse p sig o
sig_decode_total sig p hg fit len =
    let bits : z_bits p ≤ 20 = ground arith in
    let shape : p.l * (32 * z_bits p) ≡ p.l * 32 * z_bits p = grind arith in
    let (z, e, range) =
      unpack_polys_total p.l (p.lambda / 4) p.gamma1 (z_bits p) sig bits hg fit
        (omega (arith, len, shape)) in
    let (hint, c_tilde, e', front) = sig_decode_of sig p z len e in
    (
      signature_of c_tilde z (hint_bit_unpack hint p),
      e',
      responds c_tilde z (hint_bit_unpack hint p) range front,
    )
  where
    responds :
        (c_tilde : List ℕ) (z : Polys) (o : Option Polys)
        → IsVector p.l p.gamma1 (z_bits p) z
        → c_tilde ≡ take (p.lambda / 4) sig
        → HasResponse p sig (signature_of c_tilde z o)
    responds c_tilde z none range front = tt
    responds c_tilde z (some h) range front = (range, front)
