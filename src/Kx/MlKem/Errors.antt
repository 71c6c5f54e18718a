-- ===== src/Kx/MlKem/Errors.antt =====
-- What the ML-KEM group answers to a peer's malformed share.
use macula_pq.Common.{ℕ, ◌≡◌, ◌≢◌, refl, inl, arith, false, ◌==◌, List, length}
use macula_pq.Common.Outcome.{Outcome, ok, err}
use macula_pq.Mlkem.Hash.{Primitives}
use macula_pq.Mlkem.Params
use macula_pq.Mlkem.Params.{ciphertext_len, encaps_key_len}
use macula_pq.Mlkem.Kem.{encaps, encaps_drawing_from}
use macula_pq.Mlkem.Kem.Refusals.{decaps-wrong_length}
use macula_pq.Kx.Hybrid.{invalid_key_share}
use macula_pq.Kx.MlKem.{MlKem, ActiveMlKem, complete_ml_kem, start_and_complete_ml_kem, to_rustls}

-- A ciphertext of the wrong length makes the client's ML-KEM exchange return the error for an
-- invalid key share.
pub complete_ml_kem-wrong_length :
    (P : Primitives) (a : ActiveMlKem) (share : List ℕ)
    → length share ≢ ciphertext_len a.set
    → complete_ml_kem P a share ≡ err invalid_key_share
unfolding complete_ml_kem to_rustls
complete_ml_kem-wrong_length P a share ne =
    rw (decaps-wrong_length P a.set a.dk share (inl ne)) refl

-- Once the randomness is drawn, an encapsulation key of the wrong length makes the server's
-- ML-KEM exchange return the error for an invalid key share.
pub start_and_complete_ml_kem-wrong_length :
    (P : Primitives) {S : Type 0} (random : S → ℕ → Outcome Params.Error (List ℕ × S))
    (group : MlKem) (share : List ℕ) (s s' : S) (m : List ℕ)
    → random s 32 ≡ ok (m, s')
    → length share ≢ encaps_key_len group.set
    → start_and_complete_ml_kem P random group share s ≡ err invalid_key_share
unfolding start_and_complete_ml_kem encaps_drawing_from encaps to_rustls
start_and_complete_ml_kem-wrong_length P random group share s s' m drawn ne =
    let wrong : (length share == encaps_key_len group.set) ≡ false = ground arith in
    rw (drawn, wrong, encaps) refl
