-- ===== src/Mldsa/Keys/PrivateKey.antt =====
-- An expanded private key decodes to what it was encoded from.
use macula_pq.Common.{
  ℕ, ◌+◌, ◌-◌, ◌*◌, ◌^◌, ◌≤◌, ◌<◌, ◌≡◌, inl, inr, refl, sym, ap, ◌∙◌, arith, List, [], ◌++◌, length,
  All, All-append, take, drop, length-append, append-nil, take_all, take-append_of_length,
  drop-append_of_length, drop-drop,
}
use macula_pq.Common.Outcome.{ok, slice, slice_of_drop}
use macula_pq.Mldsa.Field.{q, d}
use macula_pq.Mldsa.Params.{ParameterSet, Error, eta_bits, private_key_len}
use macula_pq.Mldsa.Encode.Total.{IsRanged}
use macula_pq.Mldsa.Keys.{Polys, PrivateParts, sk_encode, sk_decode, unpack_polys}
use macula_pq.Mldsa.Keys.Vectors.{
  IsVector, packed_polys, length-packed_polys, unpack_polys-packed_polys,
}
use macula_pq.Mldsa.Sample.Secret.{IsEta, IsSecret}

-- The parts of a private key that the encoding can carry.
pub record IsPrivate (p : ParameterSet) (k : PrivateParts) : Type 0 where
  pub rho_size : length k.rho ≡ 32
  pub key_size : length k.key ≡ 32
  pub tr_size : length k.tr ≡ 64
  pub s1_range : IsSecret p p.l k.s1
  pub s2_range : IsSecret p p.k k.s2
  pub t0_range : IsVector p.k (2 ^ (d - 1)) d k.t0

unfoldable pub private_bytes : PrivateParts → ParameterSet → List ℕ
private_bytes k p =
    k.rho
    ++ (k.key
        ++ (k.tr
            ++ (packed_polys p.eta (eta_bits p) (k.s1 ++ k.s2)
                ++ packed_polys (2 ^ (d - 1)) d k.t0)))

sk_decode_of :
    (sk : List ℕ) (p : ParameterSet) (k : PrivateParts) (s : Polys)
    → slice {E = Error} sk 0 32 ≡ ok k.rho
    → slice {E = Error} sk 32 64 ≡ ok k.key
    → slice {E = Error} sk 64 128 ≡ ok k.tr
    → unpack_polys (p.l + p.k) 128 sk p.eta (eta_bits p) ≡ ok s
    → unpack_polys p.k (128 + (p.l + p.k) * (32 * eta_bits p)) sk (2 ^ (d - 1)) d ≡ ok k.t0
    → take p.l s ≡ k.s1
    → drop p.l s ≡ k.s2
    → sk_decode sk p ≡ ok k
unfolding sk_decode
sk_decode_of sk p k s e0 e1 e2 e3 e4 e5 e6 = rw (e0, e1, e2, e3, e4, e5, e6) refl

module _ (k : PrivateParts) (p : ParameterSet) (he : IsEta p) (h : IsPrivate p k) where
  packed_secrets : List ℕ
  packed_secrets = packed_polys p.eta (eta_bits p) (k.s1 ++ k.s2)

  packed_t0 : List ℕ
  packed_t0 = packed_polys (2 ^ (d - 1)) d k.t0

  bits_le : eta_bits p ≤ 20
  bits_le = ground arith

  eta_lt : p.eta < q
  eta_lt = elim he [ inl e ↦ omega (arith, e) | inr e ↦ omega (arith, e) ]

  secrets_range : All (IsRanged p.eta (eta_bits p)) (k.s1 ++ k.s2)
  secrets_range = All-append (IsRanged p.eta (eta_bits p)) k.s1 k.s2 h.s1_range.1 h.s2_range.1

  secrets_count : length (k.s1 ++ k.s2) ≡ p.l + p.k
  secrets_count = omega (arith, length-append k.s1 k.s2, h.s1_range.0, h.s2_range.0)

  secrets_size : length packed_secrets ≡ (p.l + p.k) * (32 * eta_bits p)
  unfolding packed_secrets
  secrets_size =
      length-packed_polys p.eta (eta_bits p) (k.s1 ++ k.s2) bits_le secrets_range
      ∙ ap (λ (c : ℕ). c * (32 * eta_bits p)) secrets_count

  t0_size : length packed_t0 ≡ p.k * 416
  unfolding packed_t0
  t0_size =
      length-packed_polys (2 ^ (d - 1)) d k.t0 (omega arith) h.t0_range.1
      ∙ ap (λ (c : ℕ). c * 416) h.t0_range.0

  after_rho : drop 32 (private_bytes k p) ≡ k.key ++ (k.tr ++ (packed_secrets ++ packed_t0))
  unfolding private_bytes packed_secrets packed_t0
  after_rho = drop-append_of_length 32 k.rho _ h.rho_size

  after_key : drop 64 (private_bytes k p) ≡ k.tr ++ (packed_secrets ++ packed_t0)
  after_key =
      sym (drop-drop 32 32 (private_bytes k p))
      ∙ ap (drop 32) after_rho
      ∙ drop-append_of_length 32 k.key _ h.key_size

  after_tr : drop 128 (private_bytes k p) ≡ packed_secrets ++ packed_t0
  after_tr =
      sym (drop-drop 64 64 (private_bytes k p))
      ∙ ap (drop 64) after_key
      ∙ drop-append_of_length 64 k.tr _ h.tr_size

  after_secrets : drop (128 + (p.l + p.k) * (32 * eta_bits p)) (private_bytes k p) ≡ packed_t0 ++ []
  after_secrets =
      sym (drop-drop ((p.l + p.k) * (32 * eta_bits p)) 128 (private_bytes k p))
      ∙ ap (drop ((p.l + p.k) * (32 * eta_bits p))) after_tr
      ∙ drop-append_of_length ((p.l + p.k) * (32 * eta_bits p)) packed_secrets packed_t0
          secrets_size
      ∙ sym (append-nil packed_t0)

  total : length (private_bytes k p) ≡ 128 + ((p.l + p.k) * (32 * eta_bits p) + p.k * 416)
  unfolding private_bytes
  total =
      let a = length-append k.rho (k.key ++ (k.tr ++ (packed_secrets ++ packed_t0))) in
      let b = length-append k.key (k.tr ++ (packed_secrets ++ packed_t0)) in
      let c = length-append k.tr (packed_secrets ++ packed_t0) in
      let e = length-append packed_secrets packed_t0 in
      unfold packed_secrets packed_t0 in
      omega (arith, a, b, c, e, secrets_size, t0_size, h.rho_size, h.key_size, h.tr_size)

  pub length-private_bytes : length (private_bytes k p) ≡ private_key_len p
  length-private_bytes =
      let shape : (p.l + p.k) * (32 * eta_bits p) ≡ 32 * ((p.l + p.k) * eta_bits p) = grind arith in
      omega (arith, total, shape)

  encoded : sk_encode k.rho k.key k.tr k.s1 k.s2 k.t0 p ≡ private_bytes k p
  unfolding sk_encode private_bytes
  encoded =
      rw
        (
          take_all p.l k.s1 (omega (arith, h.s1_range.0)),
          take_all p.k k.s2 (omega (arith, h.s2_range.0)),
          take_all p.k k.t0 (omega (arith, h.t0_range.0)),
        )
        refl

  decoded : sk_decode (private_bytes k p) p ≡ ok k
  decoded =
      let y = private_bytes k p in
      let start : drop 0 y ≡ k.rho ++ (k.key ++ (k.tr ++ (packed_secrets ++ packed_t0))) =
        unfold private_bytes packed_secrets packed_t0 in refl in
      let s =
        unpack_polys-packed_polys (k.s1 ++ k.s2) 128 p.eta (eta_bits p) y packed_t0 bits_le eta_lt
          secrets_range (rw secrets_count (omega (arith, total)))
          (unfold packed_secrets in after_tr) in
      let t0 =
        unpack_polys-packed_polys k.t0 (128 + (p.l + p.k) * (32 * eta_bits p)) (2 ^ (d - 1)) d y []
          (omega arith) (omega arith) h.t0_range.1 (rw h.t0_range.0 (omega (arith, total)))
          (unfold packed_t0 in after_secrets) in
      sk_decode_of y p k (k.s1 ++ k.s2)
        (slice_of_drop y k.rho _ 0 32 start (omega (arith, h.rho_size)) (omega (arith, total)))
        (slice_of_drop y k.key _ 32 64 after_rho (omega (arith, h.key_size)) (omega (arith, total)))
        (slice_of_drop y k.tr _ 64 128 after_key (omega (arith, h.tr_size)) (omega (arith, total)))
        (ap (λ c. unpack_polys c 128 y p.eta (eta_bits p)) (sym secrets_count) ∙ s)
        (ap (λ c. unpack_polys c (128 + (p.l + p.k) * (32 * eta_bits p)) y (2 ^ (d - 1)) d)
            (sym h.t0_range.0)
          ∙ t0)
        (take-append_of_length p.l k.s1 k.s2 h.s1_range.0)
        (drop-append_of_length p.l k.s1 k.s2 h.s1_range.0)

pub slice-sk_encode :
    (k : PrivateParts) (p : ParameterSet)
    → IsEta p
    → IsPrivate p k
    → slice {E = Error} (sk_encode k.rho k.key k.tr k.s1 k.s2 k.t0 p) 64 128 ≡ ok k.tr
slice-sk_encode k p he h =
    ap (λ sk. slice {E = Error} sk 64 128) (encoded k p he h)
    ∙ slice_of_drop (private_bytes k p) k.tr _ 64 128 (after_key k p he h)
        (omega (arith, h.tr_size)) (omega (arith, total k p he h))

-- Encoding a private key whose seeds have their lengths and whose vectors are in their ranges gives
-- the standard's number of bytes, and decoding them gives the parts back, for eta of one of the
-- parameter sets.
pub sk_decode-sk_encode :
    (k : PrivateParts) (p : ParameterSet)
    → IsEta p
    → IsPrivate p k
    → let sk = sk_encode k.rho k.key k.tr k.s1 k.s2 k.t0 p in
      (length sk ≡ private_key_len p) × (sk_decode sk p ≡ ok k)
sk_decode-sk_encode k p he h =
    let e = encoded k p he h in
    (ap length e ∙ length-private_bytes k p he h, ap (λ sk. sk_decode sk p) e ∙ decoded k p he h)
