-- ===== src/Mldsa/Api.antt =====
-- macula-mldsa/src/lib.rs: the entry points, and `internal::sign_message`. Randomness is a parameter:
-- a source with a state, asked for a number of bytes. `getrandom` of the operating system is one.
pub mod Returns
use macula_pq.Common.{ℕ, ltb, Bool, not, List, [], ◌∷◌, length}
use macula_pq.Common.Outcome.{Outcome, ok, ensure, ◌>>=◌, ◌>>◌}
use macula_pq.Common.Word.{u8}
use macula_pq.Keccak.Sponge.{Absorb, shake256_update}
use macula_pq.Mldsa.Params.{ParameterSet, Error, context_too_long}
use macula_pq.Mldsa.Encode.{Fallible}
use macula_pq.Mldsa.Generate
use macula_pq.Mldsa.Generate.{public_key_of_expanded}
use macula_pq.Mldsa.Verify.{verify_absorbing}
use macula_pq.Mldsa.Sign.{PrivateKey, expanded, seed, sign_absorbing}

unfoldable pub context_fits : List ℕ → Fallible (Unit {0})
context_fits context = ensure (not (ltb 255 (length context))) context_too_long

-- `0 || |ctx| || ctx || message`, absorbed in pieces.
unfoldable pub absorb_message : List ℕ → List ℕ → Absorb → Absorb
absorb_message message context h =
    shake256_update (shake256_update (shake256_update h (0 ∷ u8 (length context) ∷ [])) context)
      message

module _ (fuel : ℕ) (p : ParameterSet) where
  unfoldable pub public_key : PrivateKey → Fallible (List ℕ)
  unfolding Generate.key_gen public_key_of_expanded
  public_key (seed xi) = do (pk, _) ← Generate.key_gen fuel p xi; ok pk
  public_key (expanded bytes) = public_key_of_expanded fuel p bytes

  unfoldable pub verify : List ℕ → List ℕ → List ℕ → List ℕ → Fallible Bool
  unfolding context_fits absorb_message verify_absorbing
  verify pk message signature context = do
    context_fits context
    verify_absorbing fuel p pk signature (absorb_message message context)

  module _ (left : ℕ) where
    unfoldable pub sign_message : PrivateKey → List ℕ → List ℕ → List ℕ → Fallible (List ℕ)
    unfolding context_fits absorb_message sign_absorbing
    sign_message sk message context rnd = do
      context_fits context
      sign_absorbing fuel left p sk rnd (absorb_message message context)

  module _ {S : Type 0} (random : S → ℕ → Outcome Error (List ℕ × S)) where
    unfoldable pub sign_drawing_from : ℕ → PrivateKey → List ℕ → List ℕ → S → Fallible (List ℕ × S)
    unfolding context_fits sign_message
    sign_drawing_from left sk message context s = do
      context_fits context
      (rnd, s') ← random s 32
      sig ← sign_message left sk message context rnd
      ok (sig, s')

    unfoldable pub key_gen_drawing_from : S → Fallible ((List ℕ × List ℕ) × S)
    unfolding Generate.key_gen
    key_gen_drawing_from s = do
      (xi, s') ← random s 32
      keys ← Generate.key_gen fuel p xi
      ok (keys, s')

    unfoldable pub key_gen_seed_drawing_from : S → Fallible ((List ℕ × List ℕ) × S)
    unfolding Generate.key_gen
    key_gen_seed_drawing_from s = do
      (xi, s') ← random s 32
      (pk, _) ← Generate.key_gen fuel p xi
      ok ((pk, xi), s')
