-- ===== src/Mldsa/Sign.antt =====
-- macula-mldsa/src/internal.rs: signing. `fuel` is what each rejection loop of the samplers is given,
-- and `left` the attempts of the signing loop; `stuck` is the answer when either runs out.
pub mod Norm
pub mod HintRows
pub mod Responses
pub mod Offer
pub mod Attempt
pub mod Key
pub mod Released
pub mod Loop
use macula_pq.Common.{
  ℕ, zero, suc, ◌+◌, ◌-◌, ◌/◌, bit_and, bit_xor, leb, Bool, true, false, ◌&&◌, ◌==◌, Option, none,
  some, List, [], ◌∷◌, map, foldl, length, take, zip_with,
}
use macula_pq.Common.Outcome.{ok, err, stuck, slice, assert, ◌>>=◌, ◌>>◌}
use macula_pq.Common.Word.{u16, add32, sub32, asr32, slt32}
use macula_pq.Keccak.Sponge.{Absorb, shake256_new, shake256_update}
use macula_pq.Mldsa.Field.{add, sub, from_signed, centered_abs}
use macula_pq.Mldsa.Rounding.{high_bits, low_bits, make_hint}
use macula_pq.Mldsa.Params.{ParameterSet, wrong_length, beta, private_key_len}
use macula_pq.Mldsa.Ntt.{ntt, ntt_inverse, multiply_add_ntt}
use macula_pq.Mldsa.Encode.{Fallible}
use macula_pq.Mldsa.Keys.{Polys, sk_decode, sig_encode, w1_encode_into}
use macula_pq.Mldsa.Sample.{k_max, l_max, expand_a, expand_mask, sample_in_ball}
use macula_pq.Mldsa.Generate.{zero_poly, digest, add_products, key_gen}

-- A private key in either form.
pub data PrivateKey : Type 0 where
  expanded seed : List ℕ → PrivateKey

-- The branch-free maximum with one more coefficient.
unfoldable pub larger : ℕ → ℕ → ℕ
larger max c =
    let a = centered_abs c in bit_xor max (bit_and (bit_xor max a) (asr32 (sub32 max a) 31))

unfoldable pub norm : Polys → ℕ → ℕ
unfolding larger
norm v count = foldl (λ max poly. foldl larger max poly) 0 (take count v)

unfoldable pub z_and_r0_releasable : ℕ → ℕ → ℕ → ParameterSet → Bool
z_and_r0_releasable z_norm r0_norm z_bound p =
    slt32 z_norm z_bound && slt32 r0_norm (p.gamma2 - beta p)

unfoldable pub hint_releasable : ℕ → ℕ → ParameterSet → Bool
hint_releasable ct0_norm ones p = slt32 ct0_norm p.gamma2 && leb ones p.omega

-- What the loop reads of the key and the message: the NTTs of the secret vectors, the matrix, and
-- the seed of the masks.
pub record Signer : Type 0 where
  pub s1_hat : Polys
  pub s2_hat : Polys
  pub t0_hat : Polys
  pub a_hat : List Polys
  pub rho_pp : List ℕ
  pub mu : List ℕ

-- `NTT^-1(c o s)`.
unfoldable pub times : List ℕ → List ℕ → List ℕ
times c_hat s_hat = ntt_inverse (multiply_add_ntt zero_poly c_hat s_hat)

unfoldable pub hint_row : ℕ → List ℕ → List ℕ → List ℕ → List ℕ
hint_row gamma2 (w ∷ ws) (cs2 ∷ es) (ct0 ∷ ts) =
    make_hint (sub 0 ct0) (add (sub w cs2) ct0) gamma2 ∷ hint_row gamma2 ws es ts
hint_row gamma2 _ _ _ = []

unfoldable pub hint_rows : ℕ → Polys → Polys → Polys → Polys
unfolding hint_row
hint_rows gamma2 (w ∷ ws) (cs2 ∷ es) (ct0 ∷ ts) =
    hint_row gamma2 w cs2 ct0 ∷ hint_rows gamma2 ws es ts
hint_rows gamma2 _ _ _ = []

unfoldable pub count_ones : Polys → ℕ
count_ones hint = foldl (λ ones row. foldl ◌+◌ ones row) 0 hint

-- `h = MakeHint(-c t0, w - c s2 + c t0)`, and the signature if it may be released.
unfoldable pub finish_attempt :
    ParameterSet → Signer → List ℕ → List ℕ → Polys → Polys → Polys → Fallible (Option (List ℕ))
unfolding times hint_rows count_ones norm hint_releasable
finish_attempt p k c_tilde c_hat z w cs2 =
    let ct0 = map (times c_hat) k.t0_hat in
    let hint = hint_rows p.gamma2 w cs2 ct0 in
    elim (hint_releasable (norm ct0 p.k) (count_ones hint) p) [
      | true ↦ (do sig ← sig_encode c_tilde z hint p; ok (some sig))
      | false ↦ ok none
    ]

-- One round of the loop at `kappa`: `none` is `continue`. `w[r]`, `c_tilde[..c_len]` and `z[s]` panic
-- past the end of their arrays.
unfoldable pub attempt : ℕ → ParameterSet → Signer → ℕ → ℕ → Fallible (Option (List ℕ))
unfolding add_products times norm z_and_r0_releasable finish_attempt
attempt fuel p k z_bound kappa = do
  y ← expand_mask k.rho_pp kappa p
  let y_hat = map ntt (take p.l y)
  let w = map (λ row. ntt_inverse (add_products zero_poly row y_hat)) k.a_hat
  let w1 = map (λ v. map (λ c. high_bits c p.gamma2) v) w
  assert (leb p.k k_max)
  assert (leb (p.lambda / 4) 64)
  let c_tilde = digest (w1_encode_into (shake256_update shake256_new k.mu) w1 p) (p.lambda / 4)
  c ← sample_in_ball fuel c_tilde p.tau
  assert (leb p.l l_max)
  let c_hat = ntt c
  let z = zip_with (λ v s. zip_with add v (times c_hat s)) y k.s1_hat
  let cs2 = map (times c_hat) k.s2_hat
  let r0 = zip_with (λ v e. zip_with (λ a b. from_signed (low_bits (sub a b) p.gamma2)) v e) w cs2
  elim (z_and_r0_releasable (norm z p.l) (norm r0 p.k) z_bound p) [
    | true ↦ finish_attempt p k c_tilde c_hat z w cs2
    | false ↦ ok none
  ]

-- The signature and the number of attempts made, after `attempts` earlier ones.
unfoldable pub sign_loop : ℕ → ℕ → ParameterSet → Signer → ℕ → ℕ → ℕ → Fallible (List ℕ × ℕ)
unfolding attempt
sign_loop fuel zero p k z_bound kappa attempts = stuck
sign_loop fuel (suc left) p k z_bound kappa attempts = do
  released ← attempt fuel p k z_bound kappa
  elim released [
    | none ↦ sign_loop fuel left p k z_bound (u16 (kappa + u16 p.l)) (add32 attempts 1)
    | some sig ↦ ok (sig, add32 attempts 1)
  ]

-- What precedes the loop.
unfoldable pub signer_of : ℕ → ParameterSet → List ℕ → List ℕ → List ℕ → Fallible Signer
signer_of fuel p sk mu rnd = do
  parts ← sk_decode sk p
  a_hat ← expand_a fuel parts.rho p
  let h = shake256_update (shake256_update (shake256_update shake256_new parts.key) rnd) mu
  ok (record {
    s1_hat = map ntt (take p.l parts.s1);
    s2_hat = map ntt (take p.k parts.s2);
    t0_hat = map ntt (take p.k parts.t0);
    a_hat = a_hat;
    rho_pp = digest h 64;
    mu = mu;
  })

module _ (fuel left : ℕ) (p : ParameterSet) where
  unfoldable pub sign_given_mu : List ℕ → List ℕ → List ℕ → ℕ → Fallible (List ℕ × ℕ)
  unfolding signer_of sign_loop
  sign_given_mu sk mu rnd z_bound = do
    k ← signer_of fuel p sk mu rnd
    sign_loop fuel left p k z_bound 0 0

  unfoldable pub with_expanded : {T : Type 0} → PrivateKey → (List ℕ → Fallible T) → Fallible T
  unfolding key_gen
  with_expanded (expanded bytes) f = elim (length bytes == private_key_len p) [
    | true ↦ f bytes
    | false ↦ err wrong_length
  ]
  with_expanded (seed xi) f = do (_, sk) ← key_gen fuel p xi; f sk

  unfoldable pub sign_mu_counting_attempts : PrivateKey → List ℕ → List ℕ → Fallible (List ℕ × ℕ)
  unfolding with_expanded sign_given_mu
  sign_mu_counting_attempts key mu rnd =
      with_expanded key (λ sk. sign_given_mu sk mu rnd (p.gamma1 - beta p))

  unfoldable pub sign_mu : PrivateKey → List ℕ → List ℕ → Fallible (List ℕ)
  unfolding with_expanded sign_given_mu
  sign_mu key mu rnd =
      with_expanded key (λ sk. (do (sig, _) ← sign_given_mu sk mu rnd (p.gamma1 - beta p); ok sig))

  unfoldable pub sign_absorbing : PrivateKey → List ℕ → (Absorb → Absorb) → Fallible (List ℕ)
  unfolding with_expanded sign_given_mu
  sign_absorbing key rnd absorb = with_expanded key (λ sk. (do
    tr ← slice sk 64 128
    let mu = digest (absorb (shake256_update shake256_new tr)) 64
    (sig, _) ← sign_given_mu sk mu rnd (p.gamma1 - beta p)
    ok sig))

  -- `internal::sign`, on the formatted message.
  unfoldable pub sign_formatted : PrivateKey → List ℕ → List ℕ → Fallible (List ℕ)
  unfolding sign_absorbing
  sign_formatted key m_prime rnd = sign_absorbing key rnd (λ h. shake256_update h m_prime)
