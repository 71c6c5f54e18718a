-- ===== src/Mlkem/Params.antt =====
-- macula-mlkem/src/lib.rs: the parameter sets, the lengths they fix, and the errors.
use Prim.Native.String.{String}
use macula_pq.Common.{ℕ, ◌+◌, ◌*◌, ◌≤◌, ◌<◌}

pub record ParameterSet : Type 0 where
  pub name : String
  pub k : ℕ
  pub eta1 : ℕ
  pub eta2 : ℕ
  pub du : ℕ
  pub dv : ℕ

abbrev pub ml_kem_512 : ParameterSet
ml_kem_512 = record { name = "ML-KEM-512"; k = 2; eta1 = 3; eta2 = 2; du = 10; dv = 4 }

abbrev pub ml_kem_768 : ParameterSet
ml_kem_768 = record { name = "ML-KEM-768"; k = 3; eta1 = 2; eta2 = 2; du = 10; dv = 4 }

abbrev pub ml_kem_1024 : ParameterSet
ml_kem_1024 = record { name = "ML-KEM-1024"; k = 4; eta1 = 2; eta2 = 2; du = 11; dv = 5 }

-- What the operations rely on: shifts and counters that stay in their types, and chunks that are not
-- empty. The three parameter sets have it.
pub record IsAdmissible (p : ParameterSet) : Type 0 where
  pub rank : p.k ≤ 4
  pub du_positive : 0 < p.du
  pub du_small : p.du ≤ 12
  pub dv_positive : 0 < p.dv
  pub dv_small : p.dv ≤ 12

pub data Error : Type 0 where
  encaps_key_invalid decaps_key_invalid wrong_length randomness_unavailable : Error

abbrev pub encaps_key_len : ParameterSet → ℕ
encaps_key_len p = 384 * p.k + 32

abbrev pub ciphertext_len : ParameterSet → ℕ
ciphertext_len p = 32 * (p.du * p.k + p.dv)

abbrev pub decaps_key_len : ParameterSet → ℕ
decaps_key_len p = 768 * p.k + 96
