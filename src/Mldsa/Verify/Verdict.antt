-- ===== src/Mldsa/Verify/Verdict.antt =====
-- When verification accepts.
use macula_pq.Common.{
  ℕ, ◌-◌, ◌≤◌, ◌<◌, ◌≡◌, ◌↔◌, refl, sym, subst, ap, ap₂, leb, ◌/◌, ◌∙◌, arith, true, false, not,
  ltb, ◌==◌, ◌&&◌, Bool-cases, inl, inr, Option, none, some, List, length, All, take, list_eq_sound,
  list_eq_refl, take_all,
}
use macula_pq.Common.Outcome.{ok}
use macula_pq.Common.Yields.{Yields, Yields->>=, Yields->>=-eq, Yields-weaken}
use macula_pq.Common.Word.{IsBytes}
use macula_pq.Keccak.Sponge.{Absorb, shake256_new, shake256_update}
use macula_pq.Mldsa.Field.{q}
use macula_pq.Mldsa.Params.{ParameterSet, beta, z_bits, public_key_len, signature_len}
use macula_pq.Mldsa.Ntt.Range.{IsPoly}
use macula_pq.Mldsa.Keys.{Polys, Signature, pk_decode, sig_decode, w1_encode_into}
use macula_pq.Mldsa.Keys.Vectors.{IsVector}
use macula_pq.Mldsa.Sample.{k_max, expand_a, sample_in_ball}
use macula_pq.Mldsa.Sample.Total.{IsBounded, IsMatrix, expand_a-Yields, sample_in_ball-Yields}
use macula_pq.Mldsa.Generate.Ranges.{All-IsRanged-IsPoly}
use macula_pq.Mldsa.Verify.{
  lengths_are_the_standards, reaches, recovered_w1, commitment, verify_decoded, verify_given_mu,
  verify_absorbing,
}
use macula_pq.Mldsa.Api.{absorb_message, context_fits, verify}
use macula_pq.Mldsa.Generate.{digest}
use macula_pq.Mldsa.Verify.Decoded.{pk_decode_total, HasResponse, sig_decode_total}
use macula_pq.Mldsa.Sign.Norm.{IsBelow}
use macula_pq.Mldsa.Verify.Reaches.{reaches_iff}
use macula_pq.Mldsa.Verify.Reference.{reference_w1, hinted_rows-reference_w1}
use macula_pq.Mldsa.Keys.PublicKey.{IsT1}

-- The hash of the message's hash and of encoded high bits.
abbrev pub hash_of_high_bits : ParameterSet → List ℕ → Polys → List ℕ
hash_of_high_bits p mu w1 =
    digest (w1_encode_into (shake256_update shake256_new mu) w1 p) (p.lambda / 4)

-- High bits that the hint recovers from `A z - c t1 2^d`, the matrix and the challenge sampled from
-- the public key's seed and from the commitment.
abbrev pub Recovers : ℕ → ParameterSet → List ℕ → Polys → Signature → Polys → Type 0
Recovers fuel p rho t1 s w1 =
    (a_hat : List Polys) × (c : List ℕ) × (expand_a fuel rho p ≡ ok a_hat)
    × (sample_in_ball fuel s.c_tilde p.tau ≡ ok c)
    × (w1 ≡ reference_w1 p.gamma2 c s.z a_hat t1 s.h)

-- A decoded key and signature: the response is short, and the commitment is the hash of what the
-- hint recovers.
abbrev pub IsValid : ℕ → ParameterSet → List ℕ → Polys → List ℕ → Signature → Type 0
IsValid fuel p rho t1 mu s =
    (w1 : Polys) × All (IsBelow (p.gamma1 - beta p)) s.z
    × Recovers fuel p rho t1 s w1
    × (hash_of_high_bits p mu w1 ≡ s.c_tilde)

-- The bytes of a key and a signature: they decode, and to a valid signature.
abbrev pub IsAccepted : ℕ → ParameterSet → List ℕ → List ℕ → List ℕ → Type 0
IsAccepted fuel p pk mu sig =
    (rho : List ℕ) × (t1 : Polys) × (s : Signature) × (pk_decode pk p ≡ ok (rho, t1))
    × (sig_decode sig p ≡ ok (some s))
    × IsValid fuel p rho t1 mu s

Recovers-unique :
    (fuel : ℕ) (p : ParameterSet) (rho : List ℕ) (t1 : Polys) (s : Signature) (w w' : Polys)
    → Recovers fuel p rho t1 s w
    → Recovers fuel p rho t1 s w'
    → w ≡ w'
Recovers-unique fuel p rho t1 s w w' (a, c, ea, ec, e) (a', c', ea', ec', e') =
    let same_a : a ≡ a' = cc (ea, ea') in
    let same_c : c ≡ c' = cc (ec, ec') in
    e ∙ ap₂ (λ x y. reference_w1 p.gamma2 x s.z y t1 s.h) same_c same_a ∙ sym e'

recovered_w1-Recovers :
    (fuel : ℕ) (p : ParameterSet) (rho : List ℕ) (t1 : Polys) (s : Signature)
    → IsBounded p
    → IsVector p.l p.gamma1 (z_bits p) s.z
    → All IsT1 t1
    → Yields (Recovers fuel p rho t1 s) (recovered_w1 fuel p rho t1 s)
unfolding recovered_w1
recovered_w1-Recovers fuel p rho t1 s bounded (zl, hz) ht =
    let all : take p.l s.z ≡ s.z = take_all p.l s.z (omega (arith, zl)) in
    let polys = All-IsRanged-IsPoly p.gamma1 (z_bits p) s.z hz in
    let rows : leb p.k k_max ≡ true = ground (arith, bounded.rows) in
    Yields->>=-eq (IsMatrix p) (Recovers fuel p rho t1 s) (expand_a fuel rho p) _
      (expand_a-Yields fuel rho p bounded)
      λ a_hat ea ha.
        Yields->>=-eq IsPoly (Recovers fuel p rho t1 s) (sample_in_ball fuel s.c_tilde p.tau) _
          (sample_in_ball-Yields fuel s.c_tilde p.tau)
          λ c ec hc.
            rw (Yields, rows, all)
              (a_hat, c, ea, ec, hinted_rows-reference_w1 p p.l c s.z a_hat t1 s.h hc polys ha.1 ht)

commitment_lem :
    (p : ParameterSet) (mu : List ℕ) (w1 : Polys)
    → IsBounded p
    → commitment p mu w1 ≡ ok (hash_of_high_bits p mu w1)
unfolding commitment
commitment_lem p mu w1 bounded =
    let fits : leb (p.lambda / 4) 64 ≡ true = ground (arith, bounded.commitment_size) in
    rw fits refl

verify_decoded-Yields :
    (fuel : ℕ) (p : ParameterSet) (rho : List ℕ) (t1 : Polys) (mu : List ℕ) (s : Signature)
    → p.gamma1 < q
    → IsBounded p
    → IsVector p.l p.gamma1 (z_bits p) s.z
    → All IsT1 t1
    → Yields (λ b. (b ≡ true) ↔ IsValid fuel p rho t1 mu s) (verify_decoded fuel p rho t1 mu s)
unfolding verify_decoded
verify_decoded-Yields fuel p rho t1 mu s hg bounded (zl, hz) ht =
    let bound = p.gamma1 - beta p in
    let all : take p.l s.z ≡ s.z = take_all p.l s.z (omega (arith, zl)) in
    let (down, up) =
      reaches_iff bound s.z (omega arith) (All-IsRanged-IsPoly p.gamma1 (z_bits p) s.z hz) in
    elim (Bool-cases (reaches bound s.z)) [
      | inl t ↦ rw (Yields, all, t) ((λ e. cc), λ v. cc (up v.1, t))
      | inr t ↦
          rw (Yields, all, t)
            (Yields->>= (Recovers fuel p rho t1 s) (λ b. (b ≡ true) ↔ IsValid fuel p rho t1 mu s)
              (recovered_w1 fuel p rho t1 s) _
              (recovered_w1-Recovers fuel p rho t1 s bounded (zl, hz) ht)
              λ w1 r.
                let c' = hash_of_high_bits p mu w1 in
                rw (Yields, commitment_lem p mu w1 bounded)
                  (
                    (λ same. (w1, down t, r, list_eq_sound c' s.c_tilde same)),
                    λ (w1', _, r', same).
                        let value : c' ≡ s.c_tilde =
                          ap (hash_of_high_bits p mu) (Recovers-unique fuel p rho t1 s w1 w1' r r')
                          ∙ same in
                        rw value (list_eq_refl s.c_tilde),
                  ))
    ]

decoded_verdict :
    (fuel : ℕ) (p : ParameterSet) (pk mu sig rho : List ℕ) (t1 : Polys) (o : Option Signature)
    → p.gamma1 < q
    → IsBounded p
    → pk_decode pk p ≡ ok (rho, t1)
    → sig_decode sig p ≡ ok o
    → HasResponse p sig o
    → All IsT1 t1
    → Yields
        (λ b. (b ≡ true) ↔ IsAccepted fuel p pk mu sig)
        (elim o [ none ↦ ok false | some s ↦ verify_decoded fuel p rho t1 mu s ])
decoded_verdict fuel p pk mu sig rho t1 none hg bounded e e' h ht1 =
    ((λ x. cc), λ (rho', t1', s', _, same, _). cc (e', same))
decoded_verdict fuel p pk mu sig rho t1 (some s) hg bounded e e' h ht1 =
    Yields-weaken (λ b. (b ≡ true) ↔ IsValid fuel p rho t1 mu s)
      (λ b. (b ≡ true) ↔ IsAccepted fuel p pk mu sig) (verify_decoded fuel p rho t1 mu s)
      (λ b (down, up). (
        (λ t. (rho, t1, s, e, e', down t)),
        λ (rho', t1', s', same, same', v).
            let hr : rho' ≡ rho = cc (e, same) in
            let ht : t1' ≡ t1 = cc (e, same) in
            let hs : s' ≡ s = cc (e', same') in
            up (
              subst (λ r. IsValid fuel p r t1 mu s) hr
                (subst (λ t. IsValid fuel p rho' t mu s) ht
                  (subst (λ x. IsValid fuel p rho' t1' mu x) hs v))),
      ))
      (verify_decoded-Yields fuel p rho t1 mu s hg bounded h.0 ht1)

pub verify_given_mu-Yields :
    (fuel : ℕ) (p : ParameterSet) (pk mu sig : List ℕ)
    → p.gamma1 < q
    → IsBounded p
    → IsBytes pk
    → IsBytes sig
    → length pk ≡ public_key_len p
    → length sig ≡ signature_len p
    → Yields (λ b. (b ≡ true) ↔ IsAccepted fuel p pk mu sig) (verify_given_mu fuel p pk mu sig)
unfolding verify_given_mu
verify_given_mu-Yields fuel p pk mu sig hg bounded hpk hsig lpk lsig =
    let (t1, e, _, ht) = pk_decode_total pk p hpk lpk in
    let (o, e', h) = sig_decode_total sig p hg hsig lsig in
    rw (Yields, e, e') (decoded_verdict fuel p pk mu sig (take 32 pk) t1 o hg bounded e e' h ht)

-- The hash of the message under a public key, `H(H(pk, 64) || 0 || |ctx| || ctx || message, 64)`.
abbrev pub message_hash : List ℕ → List ℕ → List ℕ → List ℕ
message_hash pk message context =
    digest
      (absorb_message message context
        (shake256_update shake256_new (digest (shake256_update shake256_new pk) 64)))
      64

-- Both lengths are the standard's, and the bytes are accepted.
abbrev pub IsSigned : ℕ → ParameterSet → List ℕ → List ℕ → List ℕ → Type 0
IsSigned fuel p pk mu sig =
    (length pk ≡ public_key_len p) × (length sig ≡ signature_len p) × IsAccepted fuel p pk mu sig

verify_absorbing-Yields :
    (fuel : ℕ) (p : ParameterSet) (pk sig : List ℕ) (absorb : Absorb → Absorb)
    → p.gamma1 < q
    → IsBounded p
    → IsBytes pk
    → IsBytes sig
    → let mu =
        digest
          (absorb (shake256_update shake256_new (digest (shake256_update shake256_new pk) 64)))
          64 in
      Yields (λ b. (b ≡ true) ↔ IsSigned fuel p pk mu sig) (verify_absorbing fuel p pk sig absorb)
unfolding verify_absorbing lengths_are_the_standards
verify_absorbing-Yields fuel p pk sig absorb hg bounded hpk hsig =
    let tr = digest (shake256_update shake256_new pk) 64 in
    let mu = digest (absorb (shake256_update shake256_new tr)) 64 in
    elim (Bool-cases (length pk == public_key_len p && length sig == signature_len p)) [
      | inl t ↦
          let lpk : length pk ≡ public_key_len p = ground (arith, t) in
          let lsig : length sig ≡ signature_len p = ground (arith, t) in
          rw (Yields, t)
            (Yields-weaken (λ b. (b ≡ true) ↔ IsAccepted fuel p pk mu sig)
              (λ b. (b ≡ true) ↔ IsSigned fuel p pk mu sig) (verify_given_mu fuel p pk mu sig)
              (λ b (down, up). ((λ e. (lpk, lsig, down e)), λ (_, _, v). up v))
              (verify_given_mu-Yields fuel p pk mu sig hg bounded hpk hsig lpk lsig))
      | inr t ↦ rw (Yields, t) ((λ e. cc), λ (a, b, _). ground (arith, a, b, t))
    ]

-- On any bytes as a key and a signature, under a context of at most 255 bytes and with gamma1
-- below q, verification neither fails nor panics: unless the fuel runs out it ends in a verdict,
-- which is true exactly when the key and the signature have the standard's lengths and decode,
-- every coefficient of the response is closer to 0 modulo q than gamma1 - beta, and the
-- commitment is the hash of the message's hash and of the high bits that the hint recovers in the
-- ring. The parameter set is within `IsBounded`.
pub verify-IsSigned :
    (fuel : ℕ) (p : ParameterSet) (pk message signature context : List ℕ)
    → p.gamma1 < q
    → IsBounded p
    → IsBytes pk
    → IsBytes signature
    → length context ≤ 255
    → Yields
        (λ b. (b ≡ true) ↔ IsSigned fuel p pk (message_hash pk message context) signature)
        (verify fuel p pk message signature context)
unfolding verify context_fits
verify-IsSigned fuel p pk message signature context hg bounded hpk hsig hc =
    let fits : not (ltb 255 (length context)) ≡ true = ground (arith, hc) in
    rw (Yields, fits)
      (verify_absorbing-Yields fuel p pk signature (absorb_message message context) hg bounded hpk
        hsig)
