-- ===== src/Mldsa/Keys/Signatures.antt =====
-- A signature decodes to what it was encoded from.
use macula_pq.Common.{
  ℕ, ◌+◌, ◌-◌, ◌*◌, ◌/◌, ◌≤◌, ◌<◌, ◌≡◌, refl, sym, ap, ◌∙◌, arith, some, List, ◌++◌, length, take,
  drop, length-append, take_all, take-append_of_length, drop-append_of_length, drop-drop,
  length-drop,
}
use macula_pq.Common.Outcome.{ok, slice, slice_ok}
use macula_pq.Mldsa.Field.{q}
use macula_pq.Mldsa.Params.{ParameterSet, Error, z_bits, signature_len}
use macula_pq.Mldsa.Encode.HintUnpack.{hint_bit_unpack}
use macula_pq.Mldsa.Encode.HintPacked.{hint_bytes}
use macula_pq.Mldsa.Encode.HintRoundTrip.{IsHint, hint_bit_unpack-hint_bit_pack, length-hint_bytes}
use macula_pq.Mldsa.Keys.{Polys, Signature, sig_encode, sig_decode, signature_of, unpack_polys}
use macula_pq.Mldsa.Keys.Vectors.{
  IsVector, packed_polys, length-packed_polys, unpack_polys-packed_polys,
}

-- What the parameter sets have in common that encoding relies on.
pub record IsStandard (p : ParameterSet) : Type 0 where
  pub gamma1_small : p.gamma1 < q
  pub omega_small : p.omega < 256

-- The parts of a signature that the encoding can carry.
pub record IsSignature (p : ParameterSet) (s : Signature) : Type 0 where
  pub commitment_size : length s.c_tilde ≡ p.lambda / 4
  pub response : IsVector p.l p.gamma1 (z_bits p) s.z
  pub hint : IsHint p s.h

unfoldable pub signature_bytes : Signature → ParameterSet → List ℕ
signature_bytes s p = s.c_tilde ++ (packed_polys p.gamma1 (z_bits p) s.z ++ hint_bytes s.h p)

sig_decode_of :
    (sig : List ℕ) (p : ParameterSet) (z : Polys) (hint c_tilde : List ℕ)
    → unpack_polys p.l (p.lambda / 4) sig p.gamma1 (z_bits p) ≡ ok z
    → slice {E = Error} sig (p.lambda / 4 + p.l * 32 * z_bits p) (length sig) ≡ ok hint
    → slice {E = Error} sig 0 (p.lambda / 4) ≡ ok c_tilde
    → sig_decode sig p ≡ ok (signature_of c_tilde z (hint_bit_unpack hint p))
unfolding sig_decode
sig_decode_of sig p z hint c_tilde e e' e'' = rw (e, e', e'') refl

module _ (s : Signature) (p : ParameterSet) (st : IsStandard p) (h : IsSignature p s) where
  zs : List ℕ
  zs = packed_polys p.gamma1 (z_bits p) s.z

  bits_le : z_bits p ≤ 20
  bits_le = ground arith

  z_size : length zs ≡ p.l * (32 * z_bits p)
  unfolding zs
  z_size =
      length-packed_polys p.gamma1 (z_bits p) s.z bits_le h.response.1
      ∙ ap (λ (k : ℕ). k * (32 * z_bits p)) h.response.0

  pub length-signature_bytes : length (signature_bytes s p) ≡ signature_len p
  unfolding signature_bytes zs
  length-signature_bytes =
      let outer = length-append s.c_tilde (zs ++ hint_bytes s.h p) in
      let inner = length-append zs (hint_bytes s.h p) in
      let back = length-hint_bytes s.h p h.hint in
      let shape : p.l * (32 * z_bits p) ≡ p.l * 32 * z_bits p = grind arith in
      omega (arith, outer, inner, back, z_size, shape, h.commitment_size)

  -- The signature without what the decoder cut off before the hint.
  beyond : drop (p.lambda / 4) (signature_bytes s p) ≡ zs ++ hint_bytes s.h p
  unfolding signature_bytes zs
  beyond = drop-append_of_length (p.lambda / 4) s.c_tilde (zs ++ hint_bytes s.h p) h.commitment_size

  tail : drop (p.lambda / 4 + p.l * 32 * z_bits p) (signature_bytes s p) ≡ hint_bytes s.h p
  tail =
      let shape : p.l * (32 * z_bits p) ≡ p.l * 32 * z_bits p = grind arith in
      sym (drop-drop (p.l * 32 * z_bits p) (p.lambda / 4) (signature_bytes s p))
      ∙ ap (drop (p.l * 32 * z_bits p)) beyond
      ∙ drop-append_of_length (p.l * 32 * z_bits p) zs (hint_bytes s.h p) (z_size ∙ shape)

  whole_tail :
      (y back : List ℕ) (at : ℕ)
      → drop at y ≡ back
      → at ≤ length y
      → slice {E = Error} y at (length y) ≡ ok back
  whole_tail y back at e le =
      let all : take (length y - at) (drop at y) ≡ drop at y =
        take_all (length y - at) (drop at y) (omega (arith, length-drop at y)) in
      slice_ok y at (length y) le (omega arith) ∙ ap ok (all ∙ e)

  front : slice {E = Error} (signature_bytes s p) 0 (p.lambda / 4) ≡ ok s.c_tilde
  unfolding signature_bytes
  front =
      let plain : p.lambda / 4 - 0 ≡ p.lambda / 4 = omega arith in
      slice_ok (signature_bytes s p) 0 (p.lambda / 4) (omega arith)
        (omega (arith, length-signature_bytes))
      ∙ ap (λ k. ok (take k (signature_bytes s p))) plain
      ∙ ap ok (
          take-append_of_length (p.lambda / 4) s.c_tilde
            (packed_polys p.gamma1 (z_bits p) s.z ++ hint_bytes s.h p) h.commitment_size)

  -- Encoding a signature whose commitment, response and hint are in their ranges succeeds.
  pub encoded : sig_encode s.c_tilde s.z s.h p ≡ ok (signature_bytes s p)
  unfolding sig_encode signature_bytes
  encoded =
      let all : take p.l s.z ≡ s.z = take_all p.l s.z (omega (arith, h.response.0)) in
      rw ((hint_bit_unpack-hint_bit_pack s.h p h.hint st.omega_small).0, all) refl

  pub decoded : sig_decode (signature_bytes s p) p ≡ ok (some s)
  decoded =
      let y = signature_bytes s p in
      let size = length-signature_bytes in
      let shape : p.l * (32 * z_bits p) ≡ p.l * 32 * z_bits p = grind arith in
      let room : p.lambda / 4 + length s.z * (32 * z_bits p) ≤ length y =
        rw h.response.0 (omega (arith, size, shape)) in
      let z =
        unpack_polys-packed_polys s.z (p.lambda / 4) p.gamma1 (z_bits p) y (hint_bytes s.h p)
          bits_le st.gamma1_small h.response.1 room (unfold zs in beyond) in
      sig_decode_of y p s.z (hint_bytes s.h p) s.c_tilde
        (ap (λ k. unpack_polys k (p.lambda / 4) y p.gamma1 (z_bits p)) (sym h.response.0) ∙ z)
        (whole_tail y (hint_bytes s.h p) (p.lambda / 4 + p.l * 32 * z_bits p) tail
          (omega (arith, size)))
        front
      ∙ ap (λ o. ok (signature_of s.c_tilde s.z o))
          (hint_bit_unpack-hint_bit_pack s.h p h.hint st.omega_small).1

-- Encoding a signature whose commitment, response and hint are in their ranges gives the
-- standard's number of bytes, and decoding them gives the signature back. gamma1 is below q, and
-- omega below 256.
pub sig_decode-sig_encode :
    (s : Signature) (p : ParameterSet)
    → IsStandard p
    → IsSignature p s
    → (bytes : List ℕ) × (sig_encode s.c_tilde s.z s.h p ≡ ok bytes)
      × (length bytes ≡ signature_len p)
      × (sig_decode bytes p ≡ ok (some s))
sig_decode-sig_encode s p st h =
    (signature_bytes s p, encoded s p st h, length-signature_bytes s p st h, decoded s p st h)
