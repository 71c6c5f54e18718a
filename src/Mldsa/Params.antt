-- ===== src/Mldsa/Params.antt =====
-- macula-mldsa/src/lib.rs: the parameter sets, the lengths they fix, and the errors. The i32 fields
-- are small and positive.
use Prim.Native.String.{String}
use macula_pq.Common.{ℕ, ◌+◌, ◌-◌, ◌*◌, ◌/◌, ◌^◌, ◌==◌, if◌then◌else◌}
use macula_pq.Mldsa.Field.{q, d}

pub record ParameterSet : Type 0 where
  pub name : String
  pub tau : ℕ
  pub lambda : ℕ
  pub gamma1 : ℕ
  pub gamma2 : ℕ
  pub k : ℕ
  pub l : ℕ
  pub eta : ℕ
  pub omega : ℕ

abbrev pub ml_dsa_44 : ParameterSet
ml_dsa_44 = record {
  name = "ML-DSA-44";
  tau = 39;
  lambda = 128;
  gamma1 = 2 ^ 17;
  gamma2 = (q - 1) / 88;
  k = 4;
  l = 4;
  eta = 2;
  omega = 80;
}

abbrev pub ml_dsa_65 : ParameterSet
ml_dsa_65 = record {
  name = "ML-DSA-65";
  tau = 49;
  lambda = 192;
  gamma1 = 2 ^ 19;
  gamma2 = (q - 1) / 32;
  k = 6;
  l = 5;
  eta = 4;
  omega = 55;
}

abbrev pub ml_dsa_87 : ParameterSet
ml_dsa_87 = record {
  name = "ML-DSA-87";
  tau = 60;
  lambda = 256;
  gamma1 = 2 ^ 19;
  gamma2 = (q - 1) / 32;
  k = 8;
  l = 7;
  eta = 2;
  omega = 75;
}

pub data Error : Type 0 where
  randomness_unavailable context_too_long wrong_length inconsistent_private_key : Error

abbrev pub beta : ParameterSet → ℕ
beta p = p.tau * p.eta

abbrev pub z_bits : ParameterSet → ℕ
z_bits p = if p.gamma1 == 2 ^ 17 then 18 else 20

abbrev pub w1_bits : ParameterSet → ℕ
w1_bits p = if p.gamma2 == (q - 1) / 88 then 6 else 4

abbrev pub eta_bits : ParameterSet → ℕ
eta_bits p = if p.eta == 2 then 3 else 4

abbrev pub public_key_len : ParameterSet → ℕ
public_key_len p = 32 + 32 * p.k * 10

abbrev pub private_key_len : ParameterSet → ℕ
private_key_len p = 32 + 32 + 64 + 32 * ((p.l + p.k) * eta_bits p + d * p.k)

abbrev pub signature_len : ParameterSet → ℕ
signature_len p = p.lambda / 4 + p.l * 32 * z_bits p + p.omega + p.k
