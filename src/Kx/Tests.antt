-- ===== src/Kx/Tests.antt =====
-- A hybrid of two toy groups: both shares are lists of numbers, and a secret is the sum of both
-- sides' numbers.
use macula_pq.Common.{ℕ, ◌+◌, refl, false, zip_with, replicate}
use macula_pq.Common.Outcome.{ok}
use macula_pq.Mlkem.Hash.{Primitives}
use macula_pq.Kx.Hybrid.{KxGroup, Hybrid, unknown, is_tls13, hybrid_group}
use macula_pq.Kx.Hybrid.Agreement.{IsKeyExchange, IsExchange, hybrid_group-IsKeyExchange}

abbrev sum_group : ℕ → KxGroup ℕ
sum_group size = record {
  start = λ s. ok (
    record {
      group = unknown size;
      pub_key = replicate size s;
      complete = λ share. ok (zip_with ◌+◌ (replicate size s) share);
    },
    s + 1,
  );
  start_and_complete = λ share t. ok (
    record {
      group = unknown size;
      pub_key = replicate size t;
      secret = zip_with ◌+◌ share (replicate size t);
    },
    t + 1,
  );
  name = unknown size;
  fips = false;
  usable_for_version = is_tls13;
}

sum_group-IsKeyExchange_2 : IsKeyExchange (sum_group 2) 2 2
sum_group-IsKeyExchange_2 s t = record {
  client = _;
  client_after = _;
  server = _;
  server_after = _;
  starts = refl;
  completes = refl;
  agrees = refl;
  client_size = refl;
  server_size = refl;
}

sum_group-IsKeyExchange_3 : IsKeyExchange (sum_group 3) 3 3
sum_group-IsKeyExchange_3 s t = record {
  client = _;
  client_after = _;
  server = _;
  server_after = _;
  starts = refl;
  completes = refl;
  agrees = refl;
  client_size = refl;
  server_size = refl;
}

abbrev sum_hybrid : Hybrid ℕ
sum_hybrid = record {
  classical = sum_group 2;
  post_quantum = sum_group 3;
  name = unknown 4589;
  post_quantum_first = false;
}

hybrid_group-IsKeyExchange_example : IsExchange (hybrid_group sum_hybrid) 5 5 10 40
hybrid_group-IsKeyExchange_example =
    hybrid_group-IsKeyExchange sum_hybrid 2 3 3 sum_group-IsKeyExchange_2 sum_group-IsKeyExchange_3
      10 40

abbrev blank_primitives : Primitives
blank_primitives = record {
  hash_h = λ s. replicate 32 0;
  hash_j = λ s. replicate 32 1;
  hash_g = λ s. (replicate 32 2, replicate 32 3);
  noise_prf = λ eta s b. replicate 64 0;
  expand = λ seed. ok (replicate 256 0);
}
