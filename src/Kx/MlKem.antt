-- ===== src/Kx/MlKem.antt =====
-- macula-pqc-kx/src/ml_kem.rs: ML-KEM as a key exchange group, over a source of randomness.
pub mod Errors
use macula_pq.Common.{ℕ, false, List}
use macula_pq.Common.Outcome.{Outcome, ok, map_err, ◌>>=◌}
use macula_pq.Mlkem.Hash.{Primitives}
use macula_pq.Mlkem.Params
use macula_pq.Mlkem.Params.{
  ParameterSet, ml_kem_768, ml_kem_1024, encaps_key_invalid, decaps_key_invalid, wrong_length,
  randomness_unavailable,
}
use macula_pq.Mlkem.Kem.{key_gen_drawing_from, encaps_drawing_from, decaps}
use macula_pq.Kx.Hybrid.{
  Error, invalid_key_share, failed_to_get_random_bytes, decaps_check_failed, Fallible,
  ActiveKeyExchange, CompletedKeyExchange, KxGroup, is_tls13, NamedGroup, mlkem768, mlkem1024,
}

pub record MlKem : Type 0 where
  pub set : ParameterSet
  pub name : NamedGroup

abbrev pub ml_kem_768_group : MlKem
ml_kem_768_group = record { set = ml_kem_768; name = mlkem768 }

abbrev pub ml_kem_1024_group : MlKem
ml_kem_1024_group = record { set = ml_kem_1024; name = mlkem1024 }

unfoldable pub to_rustls : Params.Error → Error
to_rustls randomness_unavailable = failed_to_get_random_bytes
to_rustls encaps_key_invalid = invalid_key_share
to_rustls wrong_length = invalid_key_share
to_rustls decaps_key_invalid = decaps_check_failed

pub record ActiveMlKem : Type 0 where
  pub set : ParameterSet
  pub name : NamedGroup
  pub ek : List ℕ
  pub dk : List ℕ

module _ (P : Primitives) where
  unfoldable pub complete_ml_kem : ActiveMlKem → List ℕ → Fallible (List ℕ)
  unfolding to_rustls decaps
  complete_ml_kem a peer_pub_key = map_err to_rustls (decaps P a.set a.dk peer_pub_key)

  unfoldable pub active_ml_kem : ActiveMlKem → ActiveKeyExchange
  unfolding complete_ml_kem
  active_ml_kem a = record { group = a.name; pub_key = a.ek; complete = complete_ml_kem a }

  module _ {S : Type 0} (random : S → ℕ → Outcome Params.Error (List ℕ × S)) (group : MlKem) where
    unfoldable pub start_ml_kem : S → Fallible (ActiveMlKem × S)
    unfolding to_rustls key_gen_drawing_from
    start_ml_kem s = do
      ((ek, dk), s') ← map_err to_rustls (key_gen_drawing_from P random group.set s)
      ok (record { set = group.set; name = group.name; ek = ek; dk = dk }, s')

    unfoldable pub start_and_complete_ml_kem : List ℕ → S → Fallible (CompletedKeyExchange × S)
    unfolding to_rustls encaps_drawing_from
    start_and_complete_ml_kem client_share s = do
      ((c, k), s') ← map_err to_rustls (encaps_drawing_from P random group.set client_share s)
      ok (record { group = group.name; pub_key = c; secret = k }, s')

    unfoldable pub ml_kem_group : KxGroup S
    unfolding start_ml_kem start_and_complete_ml_kem active_ml_kem
    ml_kem_group = record {
      start = λ s. (do (a, s') ← start_ml_kem s; ok (active_ml_kem a, s'));
      start_and_complete = start_and_complete_ml_kem;
      name = group.name;
      fips = false;
      usable_for_version = is_tls13;
    }
