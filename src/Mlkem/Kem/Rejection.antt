-- ===== src/Mlkem/Kem/Rejection.antt =====
-- macula-mlkem/src/lib.rs: the implicit rejection of a ciphertext that does not re-encrypt.
use macula_pq.Common.{
  ℕ, ◌+◌, ◌*◌, ◌≤◌, ◌≡◌, refl, ap, ◌∙◌, arith, true, Bool-cases, inl, inr, ◌==◌, ◌&&◌,
  if◌then◌else◌, List, ◌++◌, length, take, drop, list_eq, list_eq_refl, length-take, length-drop,
}
use macula_pq.Common.Outcome.{ok, slice, slice_ok}
use macula_pq.Common.Word.{IsBytes}
use macula_pq.Mlkem.Hash.{Primitives, IsSized, IsBytesOf}
use macula_pq.Mlkem.Kpke
use macula_pq.Mlkem.Kpke.{Fallible, Polys}
use macula_pq.Mlkem.Kpke.Total.{decrypt-Returns, encrypt-Returns, rho_of}
use macula_pq.Mlkem.Kem.{decaps, decaps_key_valid, ct_eq, ct_select}
use macula_pq.Mlkem.Kem.Constant.{ct_eq-list_eq, ct_select-ones, ct_select-zero}
use macula_pq.Mlkem.Params.{ParameterSet, IsAdmissible, Error, ciphertext_len, decaps_key_len}

-- The four parts of a decapsulation key.
module _ (p : ParameterSet) (dk : List ℕ) where
  abbrev pub dk_pke_of : List ℕ
  dk_pke_of = take (384 * p.k) dk

  abbrev pub ek_of : List ℕ
  ek_of = take (384 * p.k + 32) (drop (384 * p.k) dk)

  abbrev pub hash_of : List ℕ
  hash_of = take 32 (drop (768 * p.k + 32) dk)

  abbrev pub z_of : List ℕ
  z_of = take 32 (drop (768 * p.k + 64) dk)

  slice_at :
      (lo hi size : ℕ)
      → lo + size ≡ hi
      → hi ≤ length dk
      → slice {E = Error} dk lo hi ≡ ok (take size (drop lo dk))
  slice_at lo hi size e h =
      slice_ok dk lo hi (omega arith) h ∙ ap (λ j. ok (take j (drop lo dk))) (omega arith)

-- The stored hash is that of the encapsulation key beside it.
pub decaps_key_valid_lem :
    (P : Primitives) (p : ParameterSet) (dk : List ℕ)
    → length dk ≡ decaps_key_len p
    → decaps_key_valid P p dk ≡ ok (list_eq (P.hash_h (ek_of p dk)) (hash_of p dk))
unfolding decaps_key_valid
decaps_key_valid_lem P p dk h =
    let right : (length dk == decaps_key_len p) ≡ true = ground arith in
    rw
      (
        right,
        decaps_key_valid,
        slice_at p dk (384 * p.k) (768 * p.k + 32) (384 * p.k + 32) (omega arith) (omega arith),
        slice_at p dk (768 * p.k + 32) (768 * p.k + 64) 32 (omega arith) (omega arith),
      )
      refl

select_mask :
    (a b c c' : List ℕ)
    → IsBytesOf 32 a
    → IsBytesOf 32 b
    → length c ≡ length c'
    → IsBytes c
    → IsBytes c'
    → ct_select (ct_eq c c') a b ≡ (if list_eq c c' then a else b)
select_mask a b c c' (la, ba) (lb, bb) e bc bc' = elim (Bool-cases (list_eq c c')) [
  | inl same ↦ rw (ct_eq-list_eq c c' e bc bc', same) (ct_select-ones a b (omega arith) ba)
  | inr differ ↦ rw (ct_eq-list_eq c c' e bc bc', differ) (ct_select-zero a b (omega arith) bb)
]

decaps-selects :
    (P : Primitives) (p : ParameterSet) (dk c m c' : List ℕ)
    → length c ≡ ciphertext_len p
    → length dk ≡ decaps_key_len p
    → P.hash_h (ek_of p dk) ≡ hash_of p dk
    → Kpke.decrypt p (dk_pke_of p dk) c ≡ ok m
    → Kpke.encrypt P p (ek_of p dk) m (P.hash_g (m ++ hash_of p dk)).1 ≡ ok c'
    → decaps P p dk c
      ≡ ok (ct_select (ct_eq c c') (P.hash_g (m ++ hash_of p dk)).0 (P.hash_j (z_of p dk ++ c)))
unfolding decaps
decaps-selects P p dk c m c' hc hd hash em ec =
    let right : (length c == ciphertext_len p && length dk == decaps_key_len p) ≡ true =
      ground arith in
    let matches : list_eq (P.hash_h (ek_of p dk)) (hash_of p dk) ≡ true =
      rw hash (list_eq_refl (hash_of p dk)) in
    rw
      (
        right,
        decaps,
        decaps_key_valid_lem P p dk hd,
        matches,
        slice_at p dk 0 (384 * p.k) (384 * p.k) (omega arith) (omega arith),
        slice_at p dk (384 * p.k) (768 * p.k + 32) (384 * p.k + 32) (omega arith) (omega arith),
        slice_at p dk (768 * p.k + 32) (768 * p.k + 64) 32 (omega arith) (omega arith),
        slice_at p dk (768 * p.k + 64) (768 * p.k + 96) 32 (omega arith) (omega arith),
        em,
        ec,
      )
      refl

-- What decapsulation computes for a key that passes its check and a ciphertext of the right length:
-- the message decrypted, the ciphertext it encrypts to, and the secret of one or the other kind.
pub record IsDecapsulated (P : Primitives) (p : ParameterSet) (dk c : List ℕ) : Type 0 where
  pub message : List ℕ
  pub again : List ℕ
  pub decrypts : Kpke.decrypt p (dk_pke_of p dk) c ≡ ok message
  pub encrypts :
      Kpke.encrypt P p (ek_of p dk) message (P.hash_g (message ++ hash_of p dk)).1 ≡ ok again
  pub secret :
      decaps P p dk c
      ≡ ok (
          if list_eq c again
          then (P.hash_g (message ++ hash_of p dk)).0
          else P.hash_j (z_of p dk ++ c))

-- For a decapsulation key of the right length whose stored hash is that of its encapsulation key,
-- and a ciphertext of the right length made of bytes, decapsulation returns a secret and never an
-- error or a panic: it decrypts a message and re-encrypts it, and the secret is the one derived
-- from the message when the result equals the ciphertext, else the hash of `z` and the
-- ciphertext. Assumed: the hash functions have their output sizes, and the sampling of the key's
-- matrix ends. The parameter set's k is at most 4, and its du and dv are between 1 and 12.
pub decaps-implicit_rejection :
    (P : Primitives) (p : ParameterSet) (dk c : List ℕ) (a : List Polys)
    → IsSized P
    → IsAdmissible p
    → length dk ≡ decaps_key_len p
    → IsBytesOf (ciphertext_len p) c
    → P.hash_h (ek_of p dk) ≡ hash_of p dk
    → Kpke.matrix P p.k (rho_of p (ek_of p dk)) ≡ ok a
    → IsDecapsulated P p dk c
decaps-implicit_rejection P p dk c a sized adm hd (hc, bc) hash sampled =
    let (m, em, (lm, bm)) = decrypt-Returns p (dk_pke_of p dk) c adm hc in
    let keys = P.hash_g (m ++ hash_of p dk) in
    let ek_size : length (ek_of p dk) ≡ 384 * p.k + 32 =
      omega
        (arith, length-take (384 * p.k + 32) (drop (384 * p.k) dk), length-drop (384 * p.k) dk) in
    let (c', ec, (lc, bc')) =
      encrypt-Returns P sized p (ek_of p dk) m keys.1 a adm ek_size lm sampled in
    record {
      message = m;
      again = c';
      decrypts = em;
      encrypts = ec;
      secret =
          decaps-selects P p dk c m c' hc hd hash em ec
          ∙ ap ok (
              select_mask keys.0 (P.hash_j (z_of p dk ++ c)) c c'
                (sized.g_size (m ++ hash_of p dk)).0 (sized.j_size (z_of p dk ++ c)) (omega arith)
                bc bc');
    }
