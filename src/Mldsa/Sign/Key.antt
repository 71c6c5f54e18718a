-- ===== src/Mldsa/Sign/Key.antt =====
-- What the signing loop reads of a private key.
use macula_pq.Common.{
  ℕ, ◌+◌, ◌-◌, ◌*◌, ◌^◌, ◌≤◌, ◌<◌, ◌≡◌, refl, sym, arith, List, map, length, All, take, drop,
  All-take, All-drop, inl, inr, length-map, length-take, length-drop,
}
use macula_pq.Common.Outcome.{ok, slice_ok}
use macula_pq.Common.Yields.{Yields, Yields->>=}
use macula_pq.Common.Word.{IsBytes}
use macula_pq.Mldsa.Field.{q, d}
use macula_pq.Mldsa.Params.{ParameterSet, Error, eta_bits, private_key_len}
use macula_pq.Mldsa.Ntt.{ntt}
use macula_pq.Mldsa.Ntt.Range.{IsPoly}
use macula_pq.Mldsa.Encode.Total.{IsRanged}
use macula_pq.Mldsa.Keys.{Polys, sk_decode, unpack_polys}
use macula_pq.Mldsa.Keys.Vectors.{unpack_polys_total}
use macula_pq.Mldsa.Sample.{expand_a}
use macula_pq.Mldsa.Sample.Total.{IsBounded, IsMatrix, expand_a-Yields}
use macula_pq.Mldsa.Sample.Secret.{IsEta}
use macula_pq.Mldsa.Generate.Ranges.{All-IsRanged-IsPoly, map-ntt-IsPoly}
use macula_pq.Mldsa.Generate.Consistent.{IsReadable}
use macula_pq.Mldsa.Sign.{signer_of}
use macula_pq.Mldsa.Sign.Responses.{IsSigner}

sk_decode_of :
    (sk : List ℕ) (p : ParameterSet) (s t0 : Polys)
    → private_key_len p ≡ length sk
    → unpack_polys (p.l + p.k) 128 sk p.eta (eta_bits p) ≡ ok s
    → unpack_polys p.k (128 + (p.l + p.k) * (32 * eta_bits p)) sk (2 ^ (d - 1)) d ≡ ok t0
    → sk_decode sk p
      ≡ ok (record {
        rho = take 32 (drop 0 sk);
        key = take 32 (drop 32 sk);
        tr = take 64 (drop 64 sk);
        s1 = take p.l s;
        s2 = drop p.l s;
        t0 = t0;
      })
unfolding sk_decode
sk_decode_of sk p s t0 len e e' =
    rw
      (
        slice_ok {E = Error} sk 0 32 (omega arith) (omega (arith, len)),
        slice_ok {E = Error} sk 32 64 (omega arith) (omega (arith, len)),
        slice_ok {E = Error} sk 64 128 (omega arith) (omega (arith, len)),
        e,
        e',
      )
      refl

pub bytes-IsReadable :
    (sk : List ℕ) (p : ParameterSet)
    → IsEta p
    → IsBytes sk
    → length sk ≡ private_key_len p
    → IsReadable p sk
bytes-IsReadable sk p he fit len =
    let eb : eta_bits p ≤ 20 = ground arith in
    let eta : p.eta < q = elim he [ inl e ↦ omega (arith, e) | inr e ↦ omega (arith, e) ] in
    let shape : (p.l + p.k) * (32 * eta_bits p) ≡ 32 * ((p.l + p.k) * eta_bits p) = grind arith in
    let (s, e, (sl, sr)) =
      unpack_polys_total (p.l + p.k) 128 p.eta (eta_bits p) sk eb eta fit
        (omega (arith, len, shape)) in
    let (t0, e', t0_range) =
      unpack_polys_total p.k (128 + (p.l + p.k) * (32 * eta_bits p)) (2 ^ (d - 1)) d sk
        (omega arith) (omega arith) fit (omega (arith, len, shape)) in
    (
      record {
        rho = take 32 (drop 0 sk);
        key = take 32 (drop 32 sk);
        tr = take 64 (drop 64 sk);
        s1 = take p.l s;
        s2 = drop p.l s;
        t0 = t0;
      },
      len,
      sk_decode_of sk p s t0 (sym len) e e',
      (omega (arith, sl, length-take p.l s), All-take (IsRanged p.eta (eta_bits p)) p.l s sr),
      (omega (arith, sl, length-drop p.l s), All-drop (IsRanged p.eta (eta_bits p)) p.l s sr),
      t0_range,
    )

prepared :
    (b bits count : ℕ) (ws : Polys)
    → (length ws ≡ count) × All (IsRanged b bits) ws
    → (length (map ntt (take count ws)) ≡ count) × All IsPoly (map ntt (take count ws))
prepared b bits count ws (len, h) = (
  omega (arith, len, length-map ntt (take count ws), length-take count ws),
  map-ntt-IsPoly (take count ws) (All-take IsPoly count ws (All-IsRanged-IsPoly b bits ws h)),
)

pub signer_of-Yields :
    (fuel : ℕ) (p : ParameterSet) (sk mu rnd : List ℕ)
    → IsBounded p
    → IsReadable p sk
    → Yields (IsSigner p) (signer_of fuel p sk mu rnd)
unfolding signer_of
signer_of-Yields fuel p sk mu rnd bounded (k, _, e, h1, h2, h0) =
    rw (Yields, e)
      (Yields->>= (IsMatrix p) (IsSigner p) (expand_a fuel k.rho p) _
        (expand_a-Yields fuel k.rho p bounded)
        λ a_hat matrix. record {
          s1_polys = prepared p.eta (eta_bits p) p.l k.s1 h1;
          s2_polys = prepared p.eta (eta_bits p) p.k k.s2 h2;
          t0_polys = prepared (2 ^ (d - 1)) d p.k k.t0 h0;
          matrix = matrix;
        })
